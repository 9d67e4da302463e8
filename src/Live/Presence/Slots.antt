-- ===== src/Live/Presence/Slots.antt =====
-- What an operation does to the record of one viewer (live_cache.go).
use onrol_infra.Base.{
  ℕ, ◌≡◌, refl, Bool, true, false, ◌&&◌, Option, none, some, ◌∷◌, [], if◌then◌else◌, coalesce,
  arith, Str, Map, beq, beq_iff, lookup, insert, update_all, IsUnique, bind_at, lookup-insert,
  insert-IsUnique, lookup-update_all, Option-cases, inl, inr,
}
use onrol_infra.Live.Presence.{
  ViewerRec, Presence, room, viewer, set_viewer, add_live_event, sweep_viewer, sweep_events,
  sweep_leaves, new_viewer, beat, touch_presence, react_to, bump_reaction, flush_viewer,
  flush_session, flush_presence, is_flushed, unless_empty,
}

-- Both levels of the map hold each key once, as a Go map does.
abbrev pub AllUnique : Map (Map ViewerRec) → Type 0
AllUnique [] = Unit
AllUnique ((s, m) ∷ ps) = IsUnique m × AllUnique ps

pub record WellKeyed (p : Presence) : Type 0 where
  pub outer : IsUnique p.presence
  pub inner : AllUnique p.presence

pub AllUnique-lookup :
    (s : Str) (ps : Map (Map ViewerRec)) → AllUnique ps → IsUnique (coalesce (lookup s ps) [])
unfolding lookup
AllUnique-lookup s [] h = tt
AllUnique-lookup s ((i, m) ∷ ps) h = ground (arith, AllUnique-lookup s ps)

pub room-IsUnique : (p : Presence) (s : Str) → WellKeyed p → IsUnique (room p s)
room-IsUnique p s w = AllUnique-lookup s p.presence w.inner

pub AllUnique-insert :
    (s : Str) (m : Map ViewerRec) (ps : Map (Map ViewerRec))
    → IsUnique m
    → AllUnique ps
    → AllUnique (insert s m ps)
unfolding insert
AllUnique-insert s m [] h k = (h, tt)
AllUnique-insert s m ((i, n) ∷ ps) h k = ground (arith, AllUnique-insert s m ps)

pub AllUnique-update :
    (f : Str → Map ViewerRec → Option (Map ViewerRec)) (ps : Map (Map ViewerRec))
    → ((s : Str) (m n : Map ViewerRec) → IsUnique m → f s m ≡ some n → IsUnique n)
    → AllUnique ps
    → AllUnique (update_all f ps)
unfolding update_all
AllUnique-update f [] keep h = tt
AllUnique-update f ((i, n) ∷ ps) keep h = elim (Option-cases (f i n)) [
  | inl e ↦ ground (arith, AllUnique-update f ps keep h.1, e)
  | inr (m, e) ↦ ground (arith, AllUnique-update f ps keep h.1, e, keep i n m h.0 e)
]

pub viewer-set_viewer :
    (s u s' u' : Str) (r : ViewerRec) (p : Presence)
    → viewer (set_viewer s u r p) s' u' ≡ (if beq s s' && beq u u' then some r else viewer p s' u')
unfolding set_viewer
viewer-set_viewer s u s' u' r p = ground (
  arith,
  lookup-insert s s' (insert u r (room p s)) p.presence,
  lookup-insert u u' r (room p s),
  beq_iff s s',
)

pub set_viewer-WellKeyed :
    (s u : Str) (r : ViewerRec) (p : Presence) → WellKeyed p → WellKeyed (set_viewer s u r p)
unfolding set_viewer
set_viewer-WellKeyed s u r p w = record {
  outer = insert-IsUnique s (insert u r (room p s)) p.presence w.outer;
  inner =
      AllUnique-insert s (insert u r (room p s)) p.presence
        (insert-IsUnique u r (room p s) (room-IsUnique p s w)) w.inner;
}

pub add_live_event-presence :
    (now : ℕ) (s u : Str) (j : Bool) (p : Presence)
    → (add_live_event now s u j p).presence ≡ p.presence
unfolding add_live_event
add_live_event-presence now s u j p = refl

-- The record that a heartbeat leaves.
abbrev pub touched : ℕ → Option ViewerRec → ViewerRec
touched now none = new_viewer now true
touched now (some r) = beat now r

pub touch_presence-presence :
    (now : ℕ) (s u : Str) (p : Presence)
    → (touch_presence now s u p).presence ≡ (set_viewer s u (touched now (viewer p s u)) p).presence
unfolding touch_presence set_viewer add_live_event
touch_presence-presence now s u p = ground arith

pub viewer-touch :
    (now : ℕ) (s u s' u' : Str) (p : Presence)
    → viewer (touch_presence now s u p) s' u'
      ≡ (if beq s s' && beq u u' then some (touched now (viewer p s u)) else viewer p s' u')
viewer-touch now s u s' u' p = ground (
  arith,
  touch_presence-presence now s u p,
  viewer-set_viewer s u s' u' (touched now (viewer p s u)) p,
)

-- The record that a reaction leaves.
abbrev pub reacted : ℕ → Option ViewerRec → ViewerRec
reacted now o = react_to now (coalesce o (new_viewer now false))

pub viewer-react :
    (now : ℕ) (s u s' u' : Str) (p : Presence)
    → viewer (bump_reaction now s u p) s' u'
      ≡ (if beq s s' && beq u u' then some (reacted now (viewer p s u)) else viewer p s' u')
unfolding bump_reaction
viewer-react now s u s' u' p = viewer-set_viewer s u s' u' (reacted now (viewer p s u)) p

pub sweep_events-presence :
    (now : ℕ) (s : Str) (m : Map ViewerRec) (p : Presence)
    → (sweep_events now s m p).presence ≡ p.presence
unfolding sweep_events add_live_event
sweep_events-presence now s [] p = refl
sweep_events-presence now s ((u, r) ∷ m) p = ground (
  arith,
  sweep_events-presence now s m p,
  sweep_events-presence now s m (add_live_event now s u false p),
)

pub viewer-sweep :
    (now : ℕ) (s s' u' : Str) (p : Presence)
    → WellKeyed p
    → viewer (sweep_leaves now s p) s' u'
      ≡ (if beq s s' then bind_at (sweep_viewer now) u' (viewer p s u') else viewer p s' u')
unfolding sweep_leaves lookup
viewer-sweep now s s' u' p w = elim (Option-cases (lookup s p.presence)) [
  | inl e ↦ ground (arith, e, beq_iff s s')
  | inr (m, e) ↦ ground (
    arith,
    e,
    lookup-insert s s' (update_all (sweep_viewer now) m) p.presence,
    lookup-update_all (sweep_viewer now) u' m,
    room-IsUnique p s w,
    beq_iff s s',
  )
]

-- What a flush leaves of one viewer's record.
abbrev pub flushed : ℕ → Str → Str → Str → Option ViewerRec → Option ViewerRec
flushed now only s u o = if is_flushed only s then bind_at (flush_viewer now) u o else o

lookup-unless_empty :
    (u : Str) (m : Map ViewerRec) → lookup u (coalesce (unless_empty m) []) ≡ lookup u m
unfolding lookup
lookup-unless_empty u [] = refl
lookup-unless_empty u (e ∷ m) = refl

pub viewer-flush :
    (now : ℕ) (only s u : Str) (p : Presence)
    → WellKeyed p
    → viewer (flush_presence now only p) s u ≡ flushed now only s u (viewer p s u)
unfolding flush_presence lookup
viewer-flush now only s u p w = elim (Option-cases (lookup s p.presence)) [
  | inl e ↦ ground (arith, e, lookup-update_all (flush_session now only) s p.presence w.outer)
  | inr (m, e) ↦ ground (
    arith,
    e,
    lookup-update_all (flush_session now only) s p.presence w.outer,
    lookup-unless_empty u (update_all (flush_viewer now) m),
    lookup-update_all (flush_viewer now) u m,
    room-IsUnique p s w,
  )
]
