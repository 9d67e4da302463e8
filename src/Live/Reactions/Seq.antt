-- ===== src/Live/Reactions/Seq.antt =====
-- The batch number that a client compares (live_cache.go, snapshotReactions and the janitor).
use onrol_infra.Base.{
  ℕ, ◌^◌, ◌≤◌, ◌<◌, ◌≡◌, ◌≢◌, refl, ap, true, false, none, some, [], ◌∷◌, if◌then◌else◌, arith, Str,
  Map, beq_refl, lookup, insert, IsUnique, lookup-insert, lookup-update_all, Option-cases, inl, inr,
}
use onrol_infra.Live.Reactions.{
  Accum, ReactionBucket, is_known, add_reaction, take_batch, snapshot_reactions, next_seq, is_idle,
  prune_reactions,
}
use onrol_infra.Live.Reactions.Tally.{bucket}

snapshot_none :
    (session : Str) (acc : Accum)
    → lookup session acc ≡ none
    → snapshot_reactions session acc ≡ ([], 0, acc)
unfolding snapshot_reactions
snapshot_none session acc e = rw (e, snapshot_reactions) refl

snapshot_some :
    (session : Str) (acc : Accum) (b : ReactionBucket)
    → lookup session acc ≡ some b
    → snapshot_reactions session acc ≡ take_batch session acc b b.counts
unfolding snapshot_reactions
snapshot_some session acc b e = rw (e, snapshot_reactions) refl

again :
    (session : Str) (acc : Accum) (b : ReactionBucket) (m : Map ℕ)
    → lookup session acc ≡ some b
    → b.counts ≡ m
    → let (batch, n, rest) = take_batch session acc b m in
      snapshot_reactions session rest ≡ ([], n, rest)
again session acc b [] e h = ground (arith, snapshot_some session acc b e, h)
again session acc b (x ∷ m) e h =
    let b' : ReactionBucket = record { counts = []; seq = next_seq b.seq } in
    snapshot_some session (insert session b' acc) b'
      (ground (arith, lookup-insert session session b' acc, beq_refl session))

-- A second rebuild with no reaction in between broadcasts no batch, keeps the number and changes
-- nothing: a batch goes out once.
pub snapshot_twice :
    (session : Str) (acc : Accum)
    → let (batch, n, rest) = snapshot_reactions session acc in
      snapshot_reactions session rest ≡ ([], n, rest)
snapshot_twice session acc = elim (Option-cases (lookup session acc)) [
  | inl e ↦ ground (arith, snapshot_none session acc e)
  | inr (b, e) ↦ ground (arith, snapshot_some session acc b e, again session acc b b.counts e refl)
]

fresh :
    (session : Str) (acc : Accum) (b : ReactionBucket) (m : Map ℕ)
    → b.seq ≤ 2 ^ 30
    → is_idle (take_batch session acc b m).0 ≡ false
    → ((take_batch session acc b m).1 ≢ b.seq)
      × (0 < (take_batch session acc b m).1)
      × ((take_batch session acc b m).1 ≤ 2 ^ 30)
fresh session acc b [] k h = absurd (cc)
fresh session acc b (x ∷ m) k h = (ground arith, ground arith, ground arith)

-- A batch that shows something has another number than the batch before it in the same bucket,
-- between 1 and 2^30, if that number was at most 2^30.
pub seq_fresh :
    (session : Str) (acc : Accum)
    → (bucket acc session).seq ≤ 2 ^ 30
    → is_idle (snapshot_reactions session acc).0 ≡ false
    → ((snapshot_reactions session acc).1 ≢ (bucket acc session).seq)
      × (0 < (snapshot_reactions session acc).1)
      × ((snapshot_reactions session acc).1 ≤ 2 ^ 30)
seq_fresh session acc k h = elim (Option-cases (lookup session acc)) [
  | inl e ↦ absurd (ground (arith, snapshot_none session acc e))
  | inr (b, e) ↦
      rw (snapshot_some session acc b e, e)
        (fresh session acc b b.counts (ground (arith, e))
          (ground (arith, e, snapshot_some session acc b e)))
]

pruned :
    (session : Str) (acc : Accum) (b : ReactionBucket)
    → IsUnique acc
    → lookup session acc ≡ some b
    → b.counts ≡ []
    → lookup session (prune_reactions acc) ≡ none
unfolding prune_reactions
pruned session acc b u e h = ground (
  arith,
  lookup-update_all (λ (k : Str) (c : ReactionBucket). if is_idle c.counts then none else some c)
      session acc u,
  e,
  h,
)

first_tap :
    (session emoji : Str) (acc : Accum)
    → is_known emoji ≡ true
    → lookup session acc ≡ none
    → lookup session (add_reaction session emoji acc).1
      ≡ some (record { counts = (emoji, 1) ∷ []; seq = 0 })
unfolding add_reaction insert lookup
first_tap session emoji acc k e = ground (
  arith,
  k,
  e,
  lookup-insert session session (record { counts = (emoji, 1) ∷ []; seq = 0 }) acc,
  beq_refl session,
)

-- After the janitor has met a bucket with nothing pending, the batch that the next tap of the
-- session makes has the number 1, whatever number the last batch had.
pub seq_restarts :
    (session emoji : Str) (acc : Accum) (b : ReactionBucket)
    → IsUnique acc
    → lookup session acc ≡ some b
    → b.counts ≡ []
    → is_known emoji ≡ true
    → (snapshot_reactions session (add_reaction session emoji (prune_reactions acc)).1).1 ≡ 1
seq_restarts session emoji acc b u e h k =
    let q = (add_reaction session emoji (prune_reactions acc)).1 in
    let tapped = first_tap session emoji (prune_reactions acc) k (pruned session acc b u e h) in
    ap (λ (r : Map ℕ × ℕ × Accum). r.1)
      (snapshot_some session q (record { counts = (emoji, 1) ∷ []; seq = 0 }) tapped)
