-- ===== src/Tests/Control.antt =====
-- Runs of LiveControl and of what the room then shows (live_session.go).
use onrol_infra.Base.{
  not, is_some, ◌≡◌, refl, arith, true, false, ◌||◌, none, some, [], ◌∷◌, Str, codes, beq, lookup,
  insert, sort_by, Reply, refuse,
}
use onrol_infra.Live.Tables.{ClassSession, Db, can_manage_course, is_host}
use onrol_infra.Live.Access.{
  Caches, Grant, key_of, live_access_cached, compute_grant, enrolled_in, live_staff,
}
use onrol_infra.Live.Control.{
  ControlReq, sets_of, clock_sets, room_sets, writes, has_double, update_session, assign_all,
  assign, check_control, live_control,
}
use onrol_infra.Live.Control.Clock.{no_fields, elapsed_at, pause-resume}
use onrol_infra.Live.Control.Conflicts.{has_double-conflicts, conflict_refused}
use onrol_infra.Live.Presence.{presence_count}
use onrol_infra.Live.Reactions.{snapshot_reactions}
use onrol_infra.Live.State.{
  Memory, Instant, StateView, Setup, live, status_at, build_live_state, viewers_at, album,
  current_slide,
}
use onrol_infra.Live.Poll.{
  cached_live_state, live_session_state, live_react, for_caller, Polled, with_caches,
}
use onrol_infra.Live.State.View.{IsSound, built_view-IsSound}
use onrol_infra.Live.Poll.Refreshed.{Wrote, polled, empty_caches, control_shows_next_poll}
use onrol_infra.Live.Poll.Shared.{shared_block, poll_tells_block}
use onrol_infra.Live.Slides.{SlideStmts, live_slide_add, live_slide_delete}
use onrol_infra.Tests.{s1, asha_id, db1, class_row, boss, student, fair, no_caches}

abbrev restart : ControlReq
restart = record no_fields { start_now = true; end_now = true }

has_double-conflicts_example : has_double (sets_of restart) ≡ true
has_double-conflicts_example = has_double-conflicts restart

conflict_refused_example :
    live_control boss fair true 200_000_000 s1 (some restart) db1 (no_caches {S = Unit {0}})
    ≡ (refuse 500 "control update failed", db1, no_caches)
unfolding check_control is_host can_manage_course beq sets_of clock_sets room_sets
conflict_refused_example =
    conflict_refused boss fair true 200_000_000 s1 (some restart) db1 no_caches restart refl refl

abbrev paused_row : ClassSession
paused_row = record class_row { paused_at = some 160_000_000 }

pause-resume_example :
    (elapsed_at 200_000_000 paused_row ≡ 60_000_000)
    × ((u : ClassSession) × (update_session 200_000_000
            (sets_of (record no_fields { paused = some false }))
            paused_row
          ≡ some u)
        × (u.paused_at ≡ none)
        × (elapsed_at 230_000_000 u ≡ 90_000_000))
unfolding update_session assign_all assign has_double writes sets_of clock_sets room_sets
pause-resume_example =
    pause-resume 160_000_000 200_000_000 230_000_000 class_row paused_row refl (omega arith)
      (omega arith) (omega arith) refl

abbrev setup : Setup
setup = record {
  sim = λ base gone. base;
  base_url = codes "https://x";
  row_up = true;
  slides_up = true;
}

abbrev at : Instant
at = record { now = 150_000_000; unix = 1_000 }

abbrev soon : Instant
soon = record { now = 151_000_000; unix = 1_001 }

abbrev memory : Memory StateView
memory = record {
  caches = no_caches;
  presence = record { presence = []; live_events = [] };
  reactions = [];
}

abbrev first_view : StateView
first_view = record {
  server_now = 150_000_000;
  starts_at = 100_000_000;
  status = live;
  seconds_until_start = 0;
  elapsed = some 50;
  duration = some 0;
  title = codes "Intro";
  course = codes "Course";
  start_image = [];
  end_image = [];
  chat_enabled = true;
  qa_enabled = true;
  reactions_enabled = true;
  viewers = 0;
  paused = false;
  blank = false;
  muted = false;
  banner = [];
  reload_seq = 0;
  current_slide_id = [];
  slides_rev = 0;
  slideshow = false;
  reactions = [];
  reactions_seq = 0;
  playlist_url = none;
}

built_view-IsSound_example : IsSound s1 at (presence_count 1_000 s1 30 memory.presence) first_view
unfolding build_live_state status_at viewers_at album current_slide snapshot_reactions
    presence_count lookup beq sort_by
built_view-IsSound_example = built_view-IsSound setup at s1 db1 memory memory first_view refl

abbrev cached_memory : Memory StateView
cached_memory = record memory {
  caches = record no_caches { states = (s1, (first_view, 152_000_000)) ∷ [] };
}

abbrev told : Polled
told = record { view = record first_view { duration = none; elapsed = none }; is_host = false }

abbrev after_poll : Memory StateView
after_poll = (live_session_state student fair setup soon s1 db1 cached_memory).1

poll_tells_block_example :
    (d : StateView) × (shared_block 151_000_000 s1 after_poll ≡ some d)
    × (told
        ≡ for_caller
            (live_access_cached student fair 151_000_000 s1 db1 cached_memory.caches).0.is_staff
            d)
    × ((told.is_host || not (is_some told.view.duration || is_some told.view.elapsed)) ≡ true)
unfolding live_session_state live_access_cached compute_grant enrolled_in live_staff
    can_manage_course cached_live_state lookup insert beq
poll_tells_block_example =
    poll_tells_block student fair setup soon s1 db1 cached_memory after_poll told refl

abbrev let_in : Grant
let_in = record { chat_ok = true; qa_ok = true; react_ok = true; is_staff = false; allowed = true }

-- The block and a grant of the session are cached, the host pauses, and the student polls.
abbrev warm : Caches StateView
warm = record cached_memory.caches {
  access = (key_of s1 asha_id, record { grant = let_in; exp = 190_000_000 }) ∷ [];
}

abbrev pause : ControlReq
pause = record no_fields { paused = some true }

abbrev paused : Reply (Unit {0}) × Db × Caches StateView
paused = live_control boss fair true 151_000_000 s1 (some pause) db1 warm

control_shows_next_poll_example :
    Wrote 151_000_000 s1 (some pause) db1 paused.1
    × (polled student fair setup soon s1 paused.1 (with_caches memory paused.2)
        ≡ polled student fair setup soon s1 paused.1 (with_caches memory empty_caches))
    × (lookup s1 paused.2.playlists ≡ none)
unfolding live_control check_control is_host can_manage_course beq sets_of clock_sets room_sets
    update_session assign_all assign has_double writes lookup
control_shows_next_poll_example =
    control_shows_next_poll boss fair true 151_000_000 s1 (some pause) db1 paused.1 warm paused.2
      student fair setup soon memory (refl, tt) (refl, tt) tt refl

abbrev thumb : Str
thumb = 0xf0 ∷ 0x9f ∷ 0x91 ∷ 0x8d ∷ []

abbrev after_react : Memory StateView
after_react = (live_react student fair at s1 (some (0x20 ∷ thumb)) db1 memory).1

abbrev stmts : SlideStmts
stmts = record { first_up = true; second_up = true; new_id = codes "i2"; now = 160_000_000 }

abbrev image : Str
image = codes "data:image/gif;base64,BB"

abbrev added : Reply Str × Db × Caches (Unit {0})
added = live_slide_add boss fair stmts s1 (some image) db1 no_caches

abbrev cleared : Reply Str × Db × Caches (Unit {0})
cleared = live_slide_delete boss fair stmts s1 (codes "i1") db1 no_caches
