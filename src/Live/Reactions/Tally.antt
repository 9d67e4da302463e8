-- ===== src/Live/Reactions/Tally.antt =====
-- How many of an emoji a batch of live_cache.go shows.
use onrol_infra.Base.{
  ℕ, zero, suc, ◌+◌, ◌≤◌, ◌≡◌, refl, sym, subst, min, true, [], ◌∷◌, if◌then◌else◌, coalesce, arith,
  Str, Map, beq, beq_iff, beq_refl, lookup, IsUnique, lookup-insert, insert-IsUnique,
  lookup-update_all, Option-cases, inl, inr,
}
use onrol_infra.Live.Reactions.{
  Accum, ReactionBucket, new_bucket, count_of, tally, is_known, add_reaction, capped, take_batch,
  snapshot_reactions,
}

-- n taps of one emoji, one after the other.
pub add_many : ℕ → Str → Str → Accum → Accum
unfolding add_reaction
add_many zero session emoji acc = acc
add_many (suc n) session emoji acc = add_many n session emoji (add_reaction session emoji acc).1

abbrev pub bucket : Accum → Str → ReactionBucket
bucket acc session = coalesce (lookup session acc) new_bucket

bucket-add :
    (session emoji : Str) (acc : Accum)
    → is_known emoji ≡ true
    → bucket (add_reaction session emoji acc).1 session ≡ tally emoji (bucket acc session)
unfolding add_reaction
bucket-add session emoji acc k = ground (
  arith,
  k,
  lookup-insert session session (tally emoji (bucket acc session)) acc,
  beq_refl session,
)

count-tally :
    (emoji other : Str) (b : ReactionBucket)
    → count_of b emoji ≤ 1000
    → count_of (tally emoji b) other
      ≡ (if beq emoji other then min 1000 (count_of b emoji + 1) else count_of b other)
count-tally emoji other b h =
    ground (arith, lookup-insert emoji other (count_of b emoji + 1) b.counts, beq_iff emoji other)

count-add_many :
    (n : ℕ) (session emoji : Str) (acc : Accum)
    → is_known emoji ≡ true
    → count_of (bucket acc session) emoji ≤ 1000
    → count_of (bucket (add_many n session emoji acc) session) emoji
      ≡ min 1000 (count_of (bucket acc session) emoji + n)
unfolding add_many
count-add_many zero session emoji acc k h = ground arith
count-add_many (suc n) session emoji acc k h = ground (
  arith,
  count-add_many n session emoji (add_reaction session emoji acc).1 k,
  bucket-add session emoji acc k,
  count-tally emoji emoji (bucket acc session) h,
  beq_refl emoji,
)

tally-IsUnique :
    (emoji : Str) (b : ReactionBucket) → IsUnique b.counts → IsUnique (tally emoji b).counts
tally-IsUnique emoji b u = ground (arith, insert-IsUnique emoji (count_of b emoji + 1) b.counts u)

add_many-IsUnique :
    (n : ℕ) (session emoji : Str) (acc : Accum)
    → is_known emoji ≡ true
    → IsUnique (bucket acc session).counts
    → IsUnique (bucket (add_many n session emoji acc) session).counts
unfolding add_many
add_many-IsUnique zero session emoji acc k u = u
add_many-IsUnique (suc n) session emoji acc k u =
    add_many-IsUnique n session emoji (add_reaction session emoji acc).1 k (
      subst (λ b. IsUnique b.counts) (sym (bucket-add session emoji acc k))
        (tally-IsUnique emoji (bucket acc session) u))

batch_of :
    (session emoji : Str) (acc : Accum) (b : ReactionBucket) (m : Map ℕ)
    → IsUnique m
    → coalesce (lookup emoji (take_batch session acc b m).0) 0
      ≡ min 50 (coalesce (lookup emoji m) 0)
unfolding lookup
batch_of session emoji acc b [] u = refl
batch_of session emoji acc b (e ∷ m) u = ground (arith, lookup-update_all capped emoji (e ∷ m) u)

batch-counts :
    (session emoji : Str) (acc : Accum)
    → IsUnique (bucket acc session).counts
    → coalesce (lookup emoji (snapshot_reactions session acc).0) 0
      ≡ min 50 (count_of (bucket acc session) emoji)
unfolding snapshot_reactions
batch-counts session emoji acc u = elim (Option-cases (lookup session acc)) [
  | inl e ↦ rw (e, snapshot_reactions) (unfold lookup in refl)
  | inr (b, e) ↦ rw (e, snapshot_reactions) (batch_of session emoji acc b b.counts (rw e at u))
]

-- n taps of a known emoji show in the next batch as what was pending and n, up to 50, whatever else
-- is pending, as long as at most 1000 were pending.
pub taps_in_batch :
    (n : ℕ) (session emoji : Str) (acc : Accum)
    → is_known emoji ≡ true
    → IsUnique (bucket acc session).counts
    → count_of (bucket acc session) emoji ≤ 1000
    → coalesce (lookup emoji (snapshot_reactions session (add_many n session emoji acc)).0) 0
      ≡ min 50 (count_of (bucket acc session) emoji + n)
taps_in_batch n session emoji acc k u h = omega (
  arith,
  batch-counts session emoji (add_many n session emoji acc)
      (add_many-IsUnique n session emoji acc k u),
  count-add_many n session emoji acc k h,
)
