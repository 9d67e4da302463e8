-- ===== src/Live/Presence/Keys.antt =====
-- Every operation of live_cache.go keeps the presence map a map: each key stands once.
use onrol_infra.Base.{
  ℕ, ◌≡◌, some, arith, Str, Map, lookup, update_all, IsUnique, insert-IsUnique, update_all-IsUnique,
  Option-cases, Bool-cases, inl, inr, [], ◌∷◌,
}
use onrol_infra.Live.Presence.{
  ViewerRec, Presence, viewer, set_viewer, sweep_viewer, sweep_leaves, touch_presence,
  bump_reaction, flush_viewer, flush_session, flush_presence, unless_empty, is_flushed,
}
use onrol_infra.Live.Presence.Slots.{
  WellKeyed, AllUnique-lookup, AllUnique-insert, AllUnique-update, set_viewer-WellKeyed, touched,
  reacted, touch_presence-presence,
}

-- `WellKeyed` speaks of the map alone.
WellKeyed-presence : (p q : Presence) → p.presence ≡ q.presence → WellKeyed q → WellKeyed p
WellKeyed-presence p q e w = record { outer = rw e w.outer; inner = rw e w.inner }

pub touch-WellKeyed :
    (now : ℕ) (s u : Str) (p : Presence) → WellKeyed p → WellKeyed (touch_presence now s u p)
touch-WellKeyed now s u p w =
    WellKeyed-presence (touch_presence now s u p) (set_viewer s u (touched now (viewer p s u)) p)
      (touch_presence-presence now s u p)
      (set_viewer-WellKeyed s u (touched now (viewer p s u)) p w)

pub react-WellKeyed :
    (now : ℕ) (s u : Str) (p : Presence) → WellKeyed p → WellKeyed (bump_reaction now s u p)
unfolding bump_reaction
react-WellKeyed now s u p w = set_viewer-WellKeyed s u (reacted now (viewer p s u)) p w

pub sweep-WellKeyed :
    (now : ℕ) (s : Str) (p : Presence) → WellKeyed p → WellKeyed (sweep_leaves now s p)
unfolding sweep_leaves
sweep-WellKeyed now s p w = elim (Option-cases (lookup s p.presence)) [
  | inl e ↦ rw (e, sweep_leaves) w
  | inr (m, e) ↦
      let u : IsUnique m = ground (arith, e, AllUnique-lookup s p.presence w.inner) in
      let u' = update_all-IsUnique (sweep_viewer now) m u in
      rw (e, sweep_leaves)
        (record {
          outer = insert-IsUnique s (update_all (sweep_viewer now) m) p.presence w.outer;
          inner = AllUnique-insert s (update_all (sweep_viewer now) m) p.presence u' w.inner;
        })
]

unless_empty-IsUnique : (m n : Map ViewerRec) → IsUnique m → unless_empty m ≡ some n → IsUnique n
unless_empty-IsUnique [] n h e = cc
unless_empty-IsUnique (x ∷ m) n h e = ground arith

flush_session-IsUnique :
    (now : ℕ) (only s : Str) (m n : Map ViewerRec)
    → IsUnique m
    → flush_session now only s m ≡ some n
    → IsUnique n
flush_session-IsUnique now only s m n h e = elim (Bool-cases (is_flushed only s)) [
  | inl b ↦
      unless_empty-IsUnique (update_all (flush_viewer now) m) n
        (update_all-IsUnique (flush_viewer now) m h) (ground arith)
  | inr b ↦ ground arith
]

pub flush-WellKeyed :
    (now : ℕ) (only : Str) (p : Presence) → WellKeyed p → WellKeyed (flush_presence now only p)
unfolding flush_presence
flush-WellKeyed now only p w = record {
  outer = update_all-IsUnique (flush_session now only) p.presence w.outer;
  inner =
      AllUnique-update (flush_session now only) p.presence (flush_session-IsUnique now only)
        w.inner;
}
