-- ===== src/Live/Control/Conflicts.antt =====
-- Which bodies of LiveControl (live_session.go) make an UPDATE that the database refuses.
use onrol_infra.Base.{
  refuse, ◌∙◌, ℕ, ◌+◌, ◌≡◌, refl, Bool, true, false, not, ◌&&◌, ◌||◌, Option, none, some, List, ltb,
  is_some, if◌then◌else◌, arith, Str, ok,
}
use onrol_infra.Live.Tables.{ClassSession, Db, Caller, session_of}
use onrol_infra.Live.Access.{Caches, Weather}
use onrol_infra.Live.Control.{
  ControlReq, Assign, clock_sets, room_sets, sets_of, writes, has_double, switch_target,
  update_session, check_control, live_control, and_then,
}
use onrol_infra.Live.Control.Writes.{is_pause, is_resume, writes-append, clock, room}

-- Two commands that move the same part of the clock, or a slide with the start of the slideshow.
abbrev pub conflicts : ControlReq → Bool
conflicts r =
    let switches = is_some (switch_target r.switch_to) in
    let seeks = is_some r.seek_to in
    let pauses = not r.start_now && is_some r.paused in
    (r.start_now && (seeks || r.end_now || switches))
    || (seeks && (r.end_now || switches || (pauses && is_resume r.paused)))
    || (r.end_now && (switches || pauses))
    || (switches && (pauses || is_some r.blank))
    || (is_some r.present && is_pause r.slideshow)

-- How often a body writes each column.
module _ (r : ControlReq) where
  total : (c : ℕ) → writes c (sets_of r) ≡ writes c (clock_sets r) + writes c (room_sets r)
  unfolding sets_of
  total c = writes-append c (clock_sets r) (room_sets r)

  start_twice : ltb 1 (writes 0 (sets_of r)) ≡ (
      (r.start_now && (is_some r.seek_to || is_some (switch_target r.switch_to)))
      || (is_some r.seek_to
          && (is_some (switch_target r.switch_to) || (not r.start_now && is_resume r.paused)))
      || (is_some (switch_target r.switch_to) && (not r.start_now && is_resume r.paused)))
  start_twice = ground (arith, total 0, clock 0 r, room 0 r)

  pause_twice : ltb 1 (writes 1 (sets_of r)) ≡ (
      (r.start_now && (r.end_now || is_some (switch_target r.switch_to)))
      || (r.end_now
          && (is_some (switch_target r.switch_to) || (not r.start_now && is_some r.paused)))
      || (is_some (switch_target r.switch_to) && (not r.start_now && is_some r.paused)))
  pause_twice = ground (arith, total 1, clock 1 r, room 1 r)

  end_twice : ltb 1 (writes 2 (sets_of r)) ≡ (
      (r.start_now && (is_some r.seek_to || r.end_now || is_some (switch_target r.switch_to)))
      || (is_some r.seek_to && (r.end_now || is_some (switch_target r.switch_to)))
      || (r.end_now && is_some (switch_target r.switch_to)))
  end_twice = ground (arith, total 2, clock 2 r, room 2 r)

  blank_twice :
      ltb 1 (writes 4 (sets_of r)) ≡ (is_some (switch_target r.switch_to) && is_some r.blank)
  blank_twice = ground (arith, total 4, clock 4 r, room 4 r)

  slide_twice : ltb 1 (writes 10 (sets_of r)) ≡ (is_some r.present && is_pause r.slideshow)
  slide_twice = ground (arith, total 10, clock 10 r, room 10 r)

  asset_once : ltb 1 (writes 3 (sets_of r)) ≡ false
  asset_once = ground (arith, total 3, clock 3 r, room 3 r)

  muted_once : ltb 1 (writes 5 (sets_of r)) ≡ false
  muted_once = ground (arith, total 5, clock 5 r, room 5 r)

  banner_once : ltb 1 (writes 6 (sets_of r)) ≡ false
  banner_once = ground (arith, total 6, clock 6 r, room 6 r)

  chat_once : ltb 1 (writes 7 (sets_of r)) ≡ false
  chat_once = ground (arith, total 7, clock 7 r, room 7 r)

  qa_once : ltb 1 (writes 8 (sets_of r)) ≡ false
  qa_once = ground (arith, total 8, clock 8 r, room 8 r)

  reactions_once : ltb 1 (writes 9 (sets_of r)) ≡ false
  reactions_once = ground (arith, total 9, clock 9 r, room 9 r)

  slideshow_once : ltb 1 (writes 11 (sets_of r)) ≡ false
  slideshow_once = ground (arith, total 11, clock 11 r, room 11 r)

  reload_once : ltb 1 (writes 12 (sets_of r)) ≡ false
  reload_once = ground (arith, total 12, clock 12 r, room 12 r)

  -- The UPDATE that a body makes assigns a column twice exactly where the body combines two
  -- commands of `conflicts`: two of start_now, seek_to, end_now, switch_to and paused that move the
  -- same part of the clock, switch_to with blank, or present with the start of the slideshow.
  pub has_double-conflicts : has_double (sets_of r) ≡ conflicts r
  unfolding has_double
  has_double-conflicts =
      rw
        (
          start_twice, pause_twice, end_twice, asset_once, blank_twice, muted_once, banner_once,
          chat_once, qa_once, reactions_once, slide_twice, slideshow_once, reload_once,
        )
        (ground arith)

no_update :
    (up : Bool) (now : ℕ) (sets : List Assign) (o : Option ClassSession)
    → has_double sets ≡ true
    → (if up then and_then o (update_session now sets) else none) ≡ none
unfolding update_session
no_update false now sets o h = refl
no_update true now sets none h = refl
no_update true now sets (some s) h = rw (h) refl

-- A body that passes all checks of LiveControl and combines two commands that write the same
-- column is answered with 500 "control update failed"; the database and the caches stay as they
-- were.
pub conflict_refused :
    {S : Type 0} (c : Caller) (w : Weather) (up : Bool) (now : ℕ) (session : Str)
    (body : Option ControlReq) (db : Db) (k : Caches S) (r : ControlReq)
    → check_control c w session body db ≡ ok r
    → conflicts r ≡ true
    → live_control c w up now session body db k ≡ (refuse 500 "control update failed", db, k)
unfolding live_control
conflict_refused c w up now session body db k r passed clash =
    rw
      (
        passed,
        no_update up now (sets_of r) (session_of db session) (has_double-conflicts r ∙ clash),
      )
      refl
