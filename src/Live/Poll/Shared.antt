-- ===== src/Live/Poll/Shared.antt =====
-- The state block that all viewers of a room share, and what each is told of it (live_session.go).
use onrol_infra.Base.{
  ℕ, ◌+◌, ◌<◌, ◌≡◌, refl, ◌∙◌, ap, sym, subst, is_some, not, arith, Bool, true, false, ◌||◌, Option,
  none, some, Str, beq_refl, Reply, ok, fail, same_answer, let_through, trim_space, lookup,
  lookup-insert,
}
use onrol_infra.Live.Tables.{Db, Caller}
use onrol_infra.Live.Access.{Weather, live_access_cached, state_ttl}
use onrol_infra.Live.Presence.{bump_reaction}
use onrol_infra.Live.Reactions.{add_reaction, normalize_reaction, is_known}
use onrol_infra.Live.State.{Memory, Instant, StateView, Setup, build_live_state}
use onrol_infra.Live.Poll.{
  or_build, current_state, keep_state, cached_live_state, Polled, for_caller, answer_poll,
  with_caches, live_session_state, live_react, react_with,
}

abbrev pub shared_block : ℕ → Str → Memory StateView → Option StateView
shared_block now session m = current_state now (lookup session m.caches.states)

kept :
    (now : ℕ) (session : Str) (r : Reply StateView × Memory StateView) (d : StateView)
    (m : Memory StateView)
    → keep_state now session r ≡ (ok d, m)
    → lookup session m.caches.states ≡ some (d, now + state_ttl)
kept now session (fail e, n) d m h = absurd (ground arith)
kept now session (ok v, n) d m h =
    ground
      (arith, lookup-insert session session (v, now + state_ttl) n.caches.states, beq_refl session)

block_of :
    (z : Setup) (at : Instant) (session : Str) (db : Db) (m after : Memory StateView)
    (d : StateView) (o : Option StateView)
    → shared_block at.now session m ≡ o
    → or_build z at session db m o ≡ (ok d, after)
    → shared_block at.now session after ≡ some d
block_of z at session db m after d (some v) e h = cc
block_of z at session db m after d none e h =
    rw (kept at.now session (build_live_state z at session db m) d after h) (ground arith)

cached_block :
    (z : Setup) (at : Instant) (session : Str) (db : Db) (m after : Memory StateView)
    (d : StateView)
    → cached_live_state z at session db m ≡ (ok d, after)
    → shared_block at.now session after ≡ some d
unfolding cached_live_state
cached_block z at session db m after d h =
    block_of z at session db m after d (shared_block at.now session m) refl h

abbrev HidesLength : Polled → Type 0
HidesLength p = (p.is_host || not (is_some p.view.duration || is_some p.view.elapsed)) ≡ true

length_hidden : (staff : Bool) (d : StateView) → HidesLength (for_caller staff d)
length_hidden true d = refl
length_hidden false d = refl

answered_block :
    (at : Instant) (session : Str) (staff : Bool) (r : Reply StateView × Memory StateView)
    (p : Polled) (after : Memory StateView)
    → ((d : StateView) → r ≡ (ok d, after) → shared_block at.now session after ≡ some d)
    → answer_poll staff r ≡ (ok p, after)
    → (d : StateView) × (shared_block at.now session after ≡ some d)
      × (p ≡ for_caller staff d)
      × ((p.is_host || not (is_some p.view.duration || is_some p.view.elapsed)) ≡ true)
answered_block at session staff (fail e, n) p after block h = absurd (ground arith)
answered_block at session staff (ok d, n) p after block h =
    let same = same_answer (for_caller staff d) p n after h in
    (
      d,
      block d (ap (λ k. (ok d, k)) same.1),
      sym same.0,
      subst HidesLength same.0 (length_hidden staff d),
    )

-- Whatever the state of the caches, a viewer who is let in is told the block that the cache then holds
-- for the room: the whole of it as the host, and without length and position otherwise.
pub poll_tells_block :
    (c : Caller) (w : Weather) (z : Setup) (at : Instant) (session : Str) (db : Db)
    (m after : Memory StateView) (p : Polled)
    → live_session_state c w z at session db m ≡ (ok p, after)
    → (d : StateView) × (shared_block at.now session after ≡ some d)
      × (p ≡ for_caller (live_access_cached c w at.now session db m.caches).0.is_staff d)
      × ((p.is_host || not (is_some p.view.duration || is_some p.view.elapsed)) ≡ true)
unfolding live_session_state
poll_tells_block c w z at session db m after p h =
    let g = live_access_cached c w at.now session db m.caches in
    let r = cached_live_state z at session db (with_caches m g.1) in
    answered_block at session g.0.is_staff r p after
      (λ d. cached_block z at session db (with_caches m g.1) after d)
      (let_through g.0.allowed (answer_poll g.0.is_staff r) 403 "not entitled to this session"
        (with_caches m g.1) p after h).1

-- Until the block of a room expires, every answer of the cache is that block: nothing is read from
-- the database, no reaction is taken, and the memory stays as it is.
pub block_is_shared :
    (z : Setup) (at : Instant) (session : Str) (db : Db) (m : Memory StateView) (d : StateView)
    → shared_block at.now session m ≡ some d
    → cached_live_state z at session db m ≡ (ok d, m)
unfolding cached_live_state
block_is_shared z at session db m d h = rw (h) refl

-- A block that was built at a time is answered again, from any database, to whoever asks less than
-- two seconds later.
pub poll_again :
    (z y : Setup) (at later : Instant) (session : Str) (db db' : Db) (m after : Memory StateView)
    (d : StateView)
    → shared_block at.now session m ≡ none
    → cached_live_state z at session db m ≡ (ok d, after)
    → later.now < at.now + state_ttl
    → cached_live_state y later session db' after ≡ (ok d, after)
unfolding cached_live_state
poll_again z y at later session db db' m after d miss h soon =
    block_is_shared y later session db' after d (
      rw
        (kept at.now session (build_live_state z at session db m) d after
          (ap (or_build z at session db m) (sym miss) ∙ h))
        (ground arith))

-- What a reaction that was taken leaves: the sender's record and the tally, both of the room as the
-- access check left it.
pub record Reacted {S : Type 0} (c : Caller) (at : Instant) (session emoji : Str)
    (m after : Memory S) : Type 0 where
  pub known : is_known emoji ≡ true
  pub engaged : after.presence ≡ bump_reaction at.unix session c.id m.presence
  pub tallied : after.reactions ≡ (add_reaction session emoji m.reactions).1

accepted_react :
    {S : Type 0} (c : Caller) (at : Instant) (session : Str) (m after : Memory S) (t : Str)
    (k : Bool)
    → is_known t ≡ k
    → react_with c at session m (t, k) ≡ (ok tt, after)
    → Reacted c at session t m after
accepted_react c at session m after t false e h = absurd (cc)
accepted_react c at session m after t true e h = record {
  known = e;
  engaged = ground arith;
  tallied = ground arith;
}

-- A reaction is taken only from a caller who is let in, while reactions are on or from staff, and
-- only where the text, without the space around it, is one of the eight emoji. It then counts once
-- for the sender and once in the tally of the room.
pub react_sound :
    {S : Type 0} (c : Caller) (w : Weather) (at : Instant) (session text : Str) (db : Db)
    (m after : Memory S)
    → live_react c w at session (some text) db m ≡ (ok tt, after)
    → ((live_access_cached c w at.now session db m.caches).0.allowed ≡ true)
      × (((live_access_cached c w at.now session db m.caches).0.react_ok
            || (live_access_cached c w at.now session db m.caches).0.is_staff)
          ≡ true)
      × Reacted c at session (trim_space text) m after
unfolding live_react normalize_reaction
react_sound c w at session text db m after h =
    let g = live_access_cached c w at.now session db m.caches in
    ground (
      arith,
      accepted_react c at session (with_caches m g.1) after (trim_space text)
          (is_known (trim_space text)) refl,
    )
