-- ===== src/Live/Reactions.antt =====
-- backend/internal/handlers/live_cache.go, live reactions. The emoji stand as their UTF-8 bytes.
pub mod Seq
pub mod Tally
use onrol_infra.Base.{
  ℕ, ◌+◌, ◌^◌, Bool, true, false, Option, none, some, List, [], ◌∷◌, any, ltb, min, if◌then◌else◌,
  coalesce, Str, Map, beq, lookup, insert, update_all, trim_space,
}

-- Thumbs up, clapping, red heart, laughing, surprised, party popper, rocket, OK.
abbrev pub live_reaction_set : List Str
live_reaction_set =
    (0xf0 ∷ 0x9f ∷ 0x91 ∷ 0x8d ∷ [])
    ∷ (0xf0 ∷ 0x9f ∷ 0x91 ∷ 0x8f ∷ [])
    ∷ (0xe2 ∷ 0x9d ∷ 0xa4 ∷ 0xef ∷ 0xb8 ∷ 0x8f ∷ [])
    ∷ (0xf0 ∷ 0x9f ∷ 0x98 ∷ 0x82 ∷ [])
    ∷ (0xf0 ∷ 0x9f ∷ 0x98 ∷ 0xae ∷ [])
    ∷ (0xf0 ∷ 0x9f ∷ 0x8e ∷ 0x89 ∷ [])
    ∷ (0xf0 ∷ 0x9f ∷ 0x9a ∷ 0x80 ∷ [])
    ∷ (0xf0 ∷ 0x9f ∷ 0x91 ∷ 0x8c ∷ [])
    ∷ []

unfoldable pub is_known : Str → Bool
unfolding beq
is_known emoji = any (beq emoji) live_reaction_set

pub record ReactionBucket : Type 0 where
  pub counts : Map ℕ
  pub seq : ℕ

abbrev pub Accum : Type 0
Accum = Map ReactionBucket

abbrev pub new_bucket : ReactionBucket
new_bucket = record { counts = []; seq = 0 }

abbrev pub count_of : ReactionBucket → Str → ℕ
count_of b emoji = coalesce (lookup emoji b.counts) 0

abbrev pub tally : Str → ReactionBucket → ReactionBucket
tally emoji b =
    if ltb (count_of b emoji) 1000
    then record b { counts = insert emoji (count_of b emoji + 1) b.counts }
    else b

unfoldable pub add_reaction : Str → Str → Accum → Bool × Accum
unfolding is_known lookup insert
add_reaction session emoji acc =
    if is_known emoji
    then (true, insert session (tally emoji (coalesce (lookup session acc) new_bucket)) acc)
    else (false, acc)

abbrev pub capped : Str → ℕ → Option ℕ
capped k v = some (if ltb 50 v then 50 else v)

abbrev pub next_seq : ℕ → ℕ
next_seq n = if ltb (2 ^ 30) (n + 1) then 1 else n + 1

-- The batch, its number, and what is left. A nil map is an empty one.
abbrev pub take_batch : Str → Accum → ReactionBucket → Map ℕ → Map ℕ × ℕ × Accum
take_batch session acc b [] = ([], b.seq, acc)
take_batch session acc b (e ∷ counts) = (
  update_all capped (e ∷ counts),
  next_seq b.seq,
  insert session (record { counts = []; seq = next_seq b.seq }) acc,
)

abbrev pub take_bucket : Str → Accum → Option ReactionBucket → Map ℕ × ℕ × Accum
take_bucket session acc none = ([], 0, acc)
take_bucket session acc (some b) = take_batch session acc b b.counts

unfoldable pub snapshot_reactions : Str → Accum → Map ℕ × ℕ × Accum
unfolding lookup insert update_all
snapshot_reactions session acc = take_bucket session acc (lookup session acc)

abbrev pub is_idle : Map ℕ → Bool
is_idle [] = true
is_idle (e ∷ counts) = false

-- The janitor's pass over reactAccum.
unfoldable pub prune_reactions : Accum → Accum
unfolding update_all
prune_reactions = update_all λ k b. if is_idle b.counts then none else some b

unfoldable pub normalize_reaction : Str → Str × Bool
unfolding trim_space is_known
normalize_reaction s = let t = trim_space s in (t, is_known t)
