-- ===== src/Live/Poll.antt =====
-- backend/internal/handlers/live_session.go: the polls of a room (LiveSessionState, cachedLiveState),
-- heartbeats and reactions.
pub mod Shared
pub mod Refreshed
use onrol_infra.Base.{
  ℕ, zero, ◌+◌, ◌-◌, ◌*◌, ◌/◌, ◌%◌, ◌≡◌, Bool, true, false, not, ◌&&◌, ◌||◌, Option, none, some,
  List, [], ◌∷◌, ◌++◌, map, max, ltb, leb, ◌==◌, length, get_elem?, select, find, any,
  if◌then◌else◌, coalesce, is_some, is_empty, Str, codes, beq, Map, lookup, insert, sort_by, Reply,
  ok, fail, refuse,
}
use onrol_infra.Live.Tables.{
  ClassSession, Course, MediaAsset, Slide, Db, Caller, session_of, asset_of,
}
use onrol_infra.Live.Presence.{Presence, touch_presence, bump_reaction, presence_count}
use onrol_infra.Live.Reactions.{Accum, add_reaction, snapshot_reactions, normalize_reaction}
use onrol_infra.Live.Access.{Weather, Grant, Caches, live_access_cached, state_ttl}
use onrol_infra.Live.State.{
  Memory, Instant, Status, StateView, usec, live_end_grace_secs, clock_of, has_manual_end,
  status_at, album, slideshow_pace, slide_at, current_slide, is_live, viewers_at, hls_of, secs_of,
  playlist_of, course_of, joined, Setup, view_of, with_reactions, build_joined, build_live_state,
}

abbrev pub current_state : ℕ → Option (StateView × ℕ) → Option StateView
current_state now none = none
current_state now (some (d, exp)) = if ltb now exp then some d else none

abbrev pub keep_state :
    ℕ → Str → Reply StateView × Memory StateView → Reply StateView × Memory StateView
keep_state now session (fail e, m) = (fail e, m)
keep_state now session (ok d, m) = (
  ok d,
  record m {
    caches = record m.caches { states = insert session (d, now + state_ttl) m.caches.states };
  },
)

abbrev pub or_build :
    Setup
    → Instant
    → Str
    → Db
    → Memory StateView
    → Option StateView
    → Reply StateView × Memory StateView
or_build z at session db m (some d) = (ok d, m)
or_build z at session db m none = keep_state at.now session (build_live_state z at session db m)

unfoldable pub cached_live_state :
    Setup → Instant → Str → Db → Memory StateView → Reply StateView × Memory StateView
unfolding lookup insert
cached_live_state z at session db m =
    or_build z at session db m (current_state at.now (lookup session m.caches.states))

-- What one caller gets: the length and the position only for the host.
pub record Polled : Type 0 where
  pub view : StateView
  pub is_host : Bool

abbrev pub for_caller : Bool → StateView → Polled
for_caller staff d = record {
  view = if staff then d else record d { duration = none; elapsed = none };
  is_host = staff;
}

abbrev pub with_caches : {S : Type 0} → Memory S → Caches S → Memory S
with_caches m k = record m { caches = k }

abbrev pub answer_poll : Bool → Reply StateView × Memory StateView → Reply Polled × Memory StateView
answer_poll staff (fail e, m) = (fail e, m)
answer_poll staff (ok d, m) = (ok (for_caller staff d), m)

unfoldable pub live_session_state :
    Caller
    → Weather
    → Setup
    → Instant
    → Str
    → Db
    → Memory StateView
    → Reply Polled × Memory StateView
live_session_state c w z at session db m =
    let g = live_access_cached c w at.now session db m.caches in
    if g.0.allowed
    then answer_poll g.0.is_staff (cached_live_state z at session db (with_caches m g.1))
    else (refuse 403 "not entitled to this session", with_caches m g.1)

module _ {S : Type 0} where
  unfoldable pub live_heartbeat :
      Caller → Weather → Instant → Str → Db → Memory S → Reply (Unit {0}) × Memory S
  live_heartbeat c w at session db m =
      let g = live_access_cached c w at.now session db m.caches in
      let m' = with_caches m g.1 in
      if g.0.allowed
      then (ok tt, record m' { presence = touch_presence at.unix session c.id m'.presence })
      else (refuse 403 "not entitled", m')

  abbrev pub react_with :
      Caller → Instant → Str → Memory S → Str × Bool → Reply (Unit {0}) × Memory S
  react_with c at session m (emoji, false) = (refuse 400 "unknown reaction", m)
  react_with c at session m (emoji, true) = (
    ok tt,
    record m {
      presence = bump_reaction at.unix session c.id m.presence;
      reactions = (add_reaction session emoji m.reactions).1;
    },
  )

  abbrev pub react_body :
      Caller → Instant → Str → Memory S → Option Str → Reply (Unit {0}) × Memory S
  react_body c at session m none = (refuse 400 "invalid body", m)
  react_body c at session m (some s) = react_with c at session m (normalize_reaction s)

  unfoldable pub live_react :
      Caller → Weather → Instant → Str → Option Str → Db → Memory S → Reply (Unit {0}) × Memory S
  live_react c w at session emoji db m =
      let g = live_access_cached c w at.now session db m.caches in
      let m' = with_caches m g.1 in
      if not g.0.allowed
      then (refuse 403 "not entitled", m')
      else (if not g.0.react_ok && not g.0.is_staff
          then (refuse 403 "reactions are off", m')
          else react_body c at session m' emoji)
