-- ===== src/Live/Presence/Feed.antt =====
-- The join/leave feed and the headcount of live_cache.go.
use onrol_infra.Base.{
  ℕ, ◌+◌, ◌-◌, ◌≤◌, ◌<◌, ◌≡◌, refl, ◌∙◌, ap, min, Bool, true, false, Option, none, some, List, [],
  ◌∷◌, ◌++◌, if◌then◌else◌, coalesce, arith, length, length-append, length-drop, Str, Map, beq_refl,
  lookup, insert, update_all, lookup-insert, Option-cases, inl, inr,
}
use onrol_infra.Live.Presence.{
  ViewerRec, LiveEvent, Presence, events_of, ring, add_live_event, room, viewer, is_gone,
  sweep_viewer, sweep_events, sweep_leaves, live_feed, touch_presence, bump_reaction, flush_feed,
  flush_presence, count_since, presence_count, collect, presence_users, flush_attendance, Row,
  Table, set_viewer,
}
use onrol_infra.Live.Presence.Slots.{viewer-react}
use onrol_infra.Live.Presence.Credit.{Op, heartbeat, react, sweep, flush, step, Reach, boot, next}

-- Every feed holds at most 120 events.
abbrev pub IsBounded : Map (List LiveEvent) → Type 0
IsBounded [] = Unit
IsBounded ((s, ev) ∷ m) = (length ev ≤ 120) × IsBounded m

length-ring : (ev : List LiveEvent) → length (ring ev) ≤ 120
length-ring ev = ground (arith, length-drop (length ev - 120) ev)

lookup-IsBounded :
    (s : Str) (m : Map (List LiveEvent)) → IsBounded m → length (coalesce (lookup s m) []) ≤ 120
unfolding lookup
lookup-IsBounded s [] h = omega arith
lookup-IsBounded s ((i, ev) ∷ m) h = ground (arith, lookup-IsBounded s m)

insert-IsBounded :
    (s : Str) (ev : List LiveEvent) (m : Map (List LiveEvent))
    → length ev ≤ 120
    → IsBounded m
    → IsBounded (insert s ev m)
unfolding insert
insert-IsBounded s ev [] h k = (h, tt)
insert-IsBounded s ev ((i, w) ∷ m) h k = ground (arith, insert-IsBounded s ev m)

add-IsBounded :
    (now : ℕ) (s u : Str) (j : Bool) (p : Presence)
    → IsBounded p.live_events
    → IsBounded (add_live_event now s u j p).live_events
unfolding add_live_event
add-IsBounded now s u j p h =
    let ev = events_of p s ++ record { user = u; join = j; ts = now } ∷ [] in
    insert-IsBounded s (ring ev) p.live_events (length-ring ev) h

sweep_events-IsBounded :
    (now : ℕ) (s : Str) (m : Map ViewerRec) (p : Presence)
    → IsBounded p.live_events
    → IsBounded (sweep_events now s m p).live_events
unfolding sweep_events
sweep_events-IsBounded now s [] p h = h
sweep_events-IsBounded now s ((u, r) ∷ m) p h =
    sweep_events-IsBounded now s m (if is_gone now r then add_live_event now s u false p else p)
      (ground (arith, add-IsBounded now s u false p h))

flush-IsBounded :
    (now : ℕ) (only : Str) (ps : Map (Map ViewerRec)) (m : Map (List LiveEvent))
    → IsBounded m
    → IsBounded (update_all (flush_feed now only ps) m)
unfolding update_all
flush-IsBounded now only ps [] h = tt
flush-IsBounded now only ps ((s, ev) ∷ m) h = ground (arith, flush-IsBounded now only ps m h.1)

touch-events :
    (now : ℕ) (s u : Str) (p : Presence)
    → (touch_presence now s u p).live_events ≡ (elim (viewer p s u) as (λ _. Map (List LiveEvent)) [
      | none ↦ (add_live_event now s u true p).live_events
      | some r ↦ if r.left then (add_live_event now s u true p).live_events else p.live_events
    ])
unfolding touch_presence add_live_event set_viewer
touch-events now s u p = ground arith

step-IsBounded :
    (saved : Row → Bool) (now : ℕ) (op : Op) (st : Presence × Table)
    → IsBounded st.0.live_events
    → IsBounded (step saved now op st).0.live_events
unfolding step bump_reaction set_viewer sweep_leaves flush_attendance flush_presence
step-IsBounded saved now (heartbeat s u) (p, t) h =
    ground (arith, touch-events now s u p, add-IsBounded now s u true p h)
step-IsBounded saved now (react s u) (p, t) h = h
step-IsBounded saved now (sweep s) (p, t) h = elim (Option-cases (lookup s p.presence)) [
  | inl e ↦ rw (e, sweep_leaves) h
  | inr (m, e) ↦ rw (e, sweep_leaves) (sweep_events-IsBounded now s m p h)
]
step-IsBounded saved now (flush only) (p, t) h = flush-IsBounded now only p.presence p.live_events h

Reach-IsBounded : {now : ℕ} {st : Presence × Table} → Reach now st → IsBounded st.0.live_events
Reach-IsBounded (boot now) = tt
Reach-IsBounded (next {st = st} saved later op h r) =
    step-IsBounded saved later op st (Reach-IsBounded r)

-- In every state that the room can reach, the feed of a session holds at most 120 events.
pub live_feed_bounded :
    (s : Str) {now : ℕ} {st : Presence × Table} → Reach now st → length (live_feed s st.0) ≤ 120
unfolding live_feed
live_feed_bounded s {st} r = lookup-IsBounded s st.0.live_events (Reach-IsBounded r)

-- Nobody is left to report in a room that was just swept.
abbrev swept : ℕ → Map ViewerRec → Map ViewerRec
swept now m = update_all (sweep_viewer now) m

sweep_events-swept :
    (now : ℕ) (s : Str) (m : Map ViewerRec) (p : Presence) → sweep_events now s (swept now m) p ≡ p
unfolding sweep_events update_all
sweep_events-swept now s [] p = refl
sweep_events-swept now s ((u, r) ∷ m) p = ground (arith, sweep_events-swept now s m p)

swept_twice : (now : ℕ) (m : Map ViewerRec) → swept now (swept now m) ≡ swept now m
unfolding update_all
swept_twice now [] = refl
swept_twice now ((u, r) ∷ m) = ground (arith, swept_twice now m)

insert_twice :
    (s : Str) (m n : Map ViewerRec) (ps : Map (Map ViewerRec))
    → insert s n (insert s m ps) ≡ insert s n ps
unfolding insert
insert_twice s m n [] = ground (arith, beq_refl s)
insert_twice s m n ((i, w) ∷ ps) = ground (arith, insert_twice s m n ps)

sweep_some :
    (now : ℕ) (s : Str) (m : Map ViewerRec) (p : Presence)
    → lookup s p.presence ≡ some m
    → sweep_leaves now s p
      ≡ record (sweep_events now s m p) { presence = insert s (swept now m) p.presence }
unfolding sweep_leaves
sweep_some now s m p e = rw (e, sweep_leaves) refl

sweep_none :
    (now : ℕ) (s : Str) (p : Presence) → lookup s p.presence ≡ none → sweep_leaves now s p ≡ p
unfolding sweep_leaves
sweep_none now s p e = rw (e, sweep_leaves) refl

-- Sweeping a session twice at one time leaves what sweeping it once leaves.
pub sweep_idempotent :
    (now : ℕ) (s : Str) (p : Presence)
    → sweep_leaves now s (sweep_leaves now s p) ≡ sweep_leaves now s p
sweep_idempotent now s p = elim (Option-cases (lookup s p.presence)) [
  | inl e ↦ ap (sweep_leaves now s) (sweep_none now s p e)
  | inr (m, e) ↦
      let q : Presence = record (sweep_events now s m p) {
        presence = insert s (swept now m) p.presence;
      } in
      let found : lookup s q.presence ≡ some (swept now m) =
        ground (arith, lookup-insert s s (swept now m) p.presence, beq_refl s) in
      rw (sweep_some now s m p e) (
        sweep_some now s (swept now m) q found
        ∙ ground (
          arith,
          sweep_events-swept now s m q,
          swept_twice now m,
          insert_twice s (swept now m) (swept now m) p.presence,
        ))
]

events-add :
    (now : ℕ) (s u : Str) (j : Bool) (p : Presence)
    → events_of (add_live_event now s u j p) s
      ≡ ring (events_of p s ++ record { user = u; join = j; ts = now } ∷ [])
unfolding add_live_event
events-add now s u j p = ground (
  arith,
  lookup-insert s s (ring (events_of p s ++ record { user = u; join = j; ts = now } ∷ []))
      p.live_events,
  beq_refl s,
)

abbrev pub is_unannounced : Option ViewerRec → Bool
is_unannounced none = true
is_unannounced (some r) = r.left

-- A heartbeat of an unknown viewer, or of one that was marked as gone, records a join; any other
-- heartbeat leaves the session's feed as it was.
pub touch_feed :
    (now : ℕ) (s u : Str) (p : Presence)
    → live_feed s (touch_presence now s u p) ≡ (
        if is_unannounced (viewer p s u)
        then ring (live_feed s p ++ record { user = u; join = true; ts = now } ∷ [])
        else live_feed s p)
unfolding live_feed
touch_feed now s u p = ground (arith, touch-events now s u p, events-add now s u true p)

feed-react :
    (now : ℕ) (s u : Str) (p : Presence) → live_feed s (bump_reaction now s u p) ≡ live_feed s p
unfolding live_feed bump_reaction set_viewer
feed-react now s u p = refl

-- A viewer whose first contact is a reaction is never announced: neither the reaction nor the
-- heartbeat that follows it records a join.
pub reaction_hides_join :
    (now later : ℕ) (s u : Str) (p : Presence)
    → viewer p s u ≡ none
    → live_feed s (touch_presence later s u (bump_reaction now s u p)) ≡ live_feed s p
reaction_hides_join now later s u p e = ground (
  arith,
  touch_feed later s u (bump_reaction now s u p),
  viewer-react now s u s u p,
  beq_refl s,
  beq_refl u,
  e,
  feed-react now s u p,
)

count_since-collect :
    (cutoff : ℕ) (m : Map ViewerRec) (out : List Str)
    → length out < 500
    → length (collect cutoff m out) ≡ min 500 (length out + count_since cutoff m)
unfolding collect count_since
count_since-collect cutoff [] out h = omega arith
count_since-collect cutoff ((u, r) ∷ m) out h = ground (
  arith,
  length-append out (u ∷ []),
  count_since-collect cutoff m out,
  count_since-collect cutoff m (out ++ u ∷ []),
)

-- The host's list of viewers has as many entries as the headcount counts, up to 500.
pub presence_users_count :
    (now within : ℕ) (s : Str) (p : Presence)
    → length (presence_users now s within p) ≡ min 500 (presence_count now s within p)
unfolding presence_users presence_count
presence_users_count now within s p =
    omega (arith, count_since-collect (now - within) (room p s) [] (omega arith))
