-- ===== src/Live/State/View.antt =====
-- What one state of a room says (live_session.go, buildLiveState), and how the commands of the host
-- (LiveControl) show in it.
use onrol_infra.Base.{
  ℕ, zero, suc, ◌-◌, ◌%◌, ◌≤◌, ◌<◌, ◌≡◌, refl, ◌∙◌, ap, sym, subst, Bool-cases, inl, inr, arith,
  Bool, true, not, ◌||◌, Option, none, some, List, [], ◌∷◌, ◌==◌, length, get_elem?, any,
  if◌then◌else◌, coalesce, is_some, is_empty, Str, beq, beq_iff, ok, refuse, same_answer,
}
use native.Mathlib.Omega.{mod_fact}
use onrol_infra.Live.Tables.{ClassSession, Course, Db, asset_of}
use onrol_infra.Live.Control.{
  update_session, assign_all, assign, has_double, writes, ended_now, clear_paused, pause_now,
}
use onrol_infra.Live.Presence.{presence_count}
use onrol_infra.Live.Reactions.{snapshot_reactions}
use onrol_infra.Live.State.{
  Memory, Instant, Status, ended, upcoming, live, preparing, StateView, status_at, clock_of,
  current_slide, slide_at, viewers_at, is_live, Setup, build_live_state, build_joined, joined,
  view_of, playlist_of, hls_of, secs_of,
}

-- Once the host ends a class that has begun, every later state says that it has ended, whatever
-- the recording.
pub end_now_ends :
    (now later : ℕ) (s s' : ClassSession) (ready : Bool) (secs : ℕ)
    → update_session now (ended_now ∷ clear_paused ∷ []) s ≡ some s'
    → now ≤ later
    → s.starts_at ≤ later
    → status_at later s' ready secs ≡ ended
unfolding update_session assign_all assign has_double writes status_at
end_now_ends now later s s' ready secs e h begun = ground arith

-- While the host has a class paused that was not ended, its status stands still.
pub pause_freezes :
    (now a b : ℕ) (s s' : ClassSession) (ready : Bool) (secs : ℕ)
    → s.manual_ended_at ≡ none
    → update_session now (pause_now ∷ []) s ≡ some s'
    → status_at a s' ready secs ≡ status_at b s' ready secs
unfolding update_session assign_all assign has_double writes status_at
pause_freezes now a b s s' ready secs unended e = ground arith

get_elem?-any :
    (ids : List Str) (i : ℕ) (d : Str)
    → i < length ids
    → any (beq (coalesce (get_elem? ids i) d)) ids ≡ true
get_elem?-any [] i d h = absurd (omega arith)
get_elem?-any (x ∷ ids) zero d h = ground (arith, beq_iff x x)
get_elem?-any (x ∷ ids) (suc i) d h = ground (arith, get_elem?-any ids i d)

slide_at_in :
    (ids : List Str) (step : ℕ) (d : Str)
    → 1 ≤ length ids
    → any (beq (slide_at ids step d)) ids ≡ true
slide_at_in [] step d h = absurd (omega arith)
slide_at_in (x ∷ ids) step d h =
    get_elem?-any (x ∷ ids) (step % suc (length ids)) d (mod_fact step (length ids))

-- While the slideshow runs, the slide shown is one of the slides it is given, where there are any,
-- at any time.
pub slideshow_in_album :
    (now t : ℕ) (s : ClassSession) (ids : List Str)
    → s.slideshow_at ≡ some t
    → 1 ≤ length ids
    → any (beq (current_slide now s ids)) ids ≡ true
unfolding current_slide
slideshow_in_album now t s ids e h = rw (e) (slide_at_in ids _ _ h)

-- What every state that is built has.
pub record IsSound (session : Str) (at : Instant) (real : ℕ) (v : StateView) : Type 0 where
  pub covers_real : real ≤ v.viewers
  pub simulates_live : (is_live v.status || v.viewers == real) ≡ true
  pub plays_live : (is_live v.status || not (is_some v.playlist_url)) ≡ true
  pub stamped : v.server_now ≡ at.now

viewers_sound :
    (sim : ℕ → ℕ → ℕ) (s : ClassSession) (status : Status) (gone real : ℕ)
    → (real ≤ viewers_at sim s status gone real)
      × ((is_live status || viewers_at sim s status gone real == real) ≡ true)
unfolding viewers_at
viewers_sound sim s status gone real = ground arith

playlist_sound :
    (base_url session : Str) (s : ClassSession) (status : Status) (hls : Str)
    → (is_live status || not (is_some (playlist_of base_url session s status hls))) ≡ true
playlist_sound base_url session s live hls = refl
playlist_sound base_url session s upcoming hls = refl
playlist_sound base_url session s preparing hls = refl
playlist_sound base_url session s ended hls = refl

joined-IsSound :
    {S : Type 0} (z : Setup) (at : Instant) (session : Str) (db : Db) (m after : Memory S)
    (o : Option (ClassSession × Course)) (v : StateView)
    → build_joined z at session db m o ≡ (ok v, after)
    → IsSound session at (presence_count at.unix session 30 m.presence) v
joined-IsSound z at session db m after none v h = absurd (cc)
joined-IsSound z at session db m after (some (s, k)) v h =
    let real = presence_count at.unix session 30 m.presence in
    let snap = snapshot_reactions session m.reactions in
    let asset = asset_of db s.media_asset_id in
    let status = status_at at.now s (not (is_empty (hls_of asset))) (secs_of asset) in
    let gone = clock_of at.now s - s.starts_at in
    let seen = viewers_sound z.sim s status gone real in
    let built = view_of z at session db s k real (snap.0, snap.1) in
    subst (IsSound session at real) (same_answer built v _ _ h).0 (record {
      covers_real = seen.0;
      simulates_live = seen.1;
      plays_live = playlist_sound z.base_url session s status (hls_of asset);
      stamped = refl;
    })

-- Every state that buildLiveState answers with counts at least the viewers that are present, and
-- exactly those unless the class is live; it carries a playlist only for a class that is live, and
-- the time of the server.
pub built_view-IsSound :
    {S : Type 0} (z : Setup) (at : Instant) (session : Str) (db : Db) (m after : Memory S)
    (v : StateView)
    → build_live_state z at session db m ≡ (ok v, after)
    → IsSound session at (presence_count at.unix session 30 m.presence) v
unfolding build_live_state
built_view-IsSound z at session db m after v h = elim (Bool-cases z.row_up) [
  | inl y ↦ joined-IsSound z at session db m after (joined session db) v (
      ap
        (λ b.
          if b
          then build_joined z at session db m (joined session db)
          else (refuse 500 "state load failed", m))
        (sym y)
      ∙ h)
  | inr n ↦ absurd (ground arith)
]
