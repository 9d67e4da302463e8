-- ===== src/Live/Control/Clock.antt =====
-- Pausing, resuming and seeking (live_session.go, LiveControl) keep the position of the room.
use onrol_infra.Base.{
  ℕ, ◌+◌, ◌-◌, ◌*◌, ◌≤◌, ◌≡◌, refl, Bool, true, false, none, some, coalesce, arith,
}
use onrol_infra.Live.Tables.{ClassSession}
use onrol_infra.Live.Control.{ControlReq, ℤ, sets_of, update_session, second, clamp_seek}

abbrev pub no_fields : ControlReq
no_fields = record {
  paused = none;
  blank = none;
  muted = none;
  banner = none;
  chat = none;
  qa = none;
  reactions = none;
  start_now = false;
  end_now = false;
  seek_to = none;
  switch_to = none;
  present = none;
  slideshow = none;
}

-- The position in the recording, in microseconds, 0 before the start.
abbrev pub elapsed_at : ℕ → ClassSession → ℕ
elapsed_at now s = coalesce s.paused_at now - s.starts_at

abbrev pause_req : Bool → ControlReq
pause_req b = record no_fields { paused = some b }

paused_row :
    (now : ℕ) (s : ClassSession)
    → update_session now (sets_of (pause_req true)) s
      ≡ some (record s { paused_at = some (coalesce s.paused_at now) })
unfolding update_session sets_of
paused_row now s = refl

resumed_row :
    (paused resumed : ℕ) (t : ClassSession)
    → t.paused_at ≡ some paused
    → paused ≤ t.starts_at + resumed
    → update_session resumed (sets_of (pause_req false)) t
      ≡ some (record t { starts_at = t.starts_at + resumed - paused; paused_at = none })
unfolding update_session sets_of
resumed_row paused resumed t e h = ground (arith, e)

-- A room that is paused and later resumed stands where it stood: a pause freezes the position, and
-- from the resumption on it runs on from there.
pub pause-resume :
    (paused resumed later : ℕ) (s t : ClassSession)
    → s.paused_at ≡ none
    → s.starts_at ≤ paused
    → paused ≤ resumed
    → resumed ≤ later
    → update_session paused (sets_of (pause_req true)) s ≡ some t
    → (elapsed_at resumed t ≡ elapsed_at paused s)
      × ((u : ClassSession) × (update_session resumed (sets_of (pause_req false)) t ≡ some u)
          × (u.paused_at ≡ none)
          × (elapsed_at later u ≡ elapsed_at paused s + (later - resumed)))
pause-resume paused resumed later s t n a b c e =
    let made : t ≡ record s { paused_at = some paused } =
      ground (arith, e, n, paused_row paused s) in
    (
      ground (arith, made, n),
      (
        record t { starts_at = t.starts_at + resumed - paused; paused_at = none },
        resumed_row paused resumed t (ground (arith, made)) (ground (arith, made)),
        refl,
        ground (arith, made, n),
      ),
    )

abbrev seek_req : ℤ → ControlReq
seek_req t = record no_fields { seek_to = some t }

-- Seeking puts the room at the second that was asked for, paused or not, and marks it as not ended;
-- a negative second counts as 0.
pub seek_position :
    (now : ℕ) (t : ℤ) (s u : ClassSession)
    → update_session now (sets_of (seek_req t)) s ≡ some u
    → (elapsed_at now u ≡ clamp_seek t * second)
      × (u.paused_at ≡ s.paused_at)
      × (u.manual_ended_at ≡ none)
      × (u.reload_seq ≡ s.reload_seq + 1)
unfolding update_session sets_of
seek_position now t s u e = (ground arith, ground arith, ground arith, ground arith)
