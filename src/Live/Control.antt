-- ===== src/Live/Control.antt =====
-- backend/internal/handlers/live_session.go, LiveControl.
pub mod Clock
pub mod Writes
pub mod Conflicts
use onrol_infra.Base.{
  ℕ, ◌+◌, ◌-◌, ◌*◌, ◌≡◌, Bool, true, false, not, ◌&&◌, ◌||◌, Option, none, some, List, [], ◌∷◌,
  ◌++◌, ltb, leb, ◌==◌, any, count, find, if◌then◌else◌, coalesce, is_some, is_empty, Str, codes,
  beq, cut, update_where, Reply, ok, fail, refuse, ◌>>=◌, ◌>>◌, require, Map,
}
use onrol_infra.Live.Tables.{
  ClassSession, MediaAsset, Db, Caller, session_of, is_host, course_or_404,
}
use onrol_infra.Live.Access.{Weather, Caches, invalidate_live_caches}

-- An int; `negsuc n` is -(n + 1).
pub data ℤ : Type 0 where
  pos : ℕ → ℤ
  negsuc : ℕ → ℤ

-- All fields are optional; the two flags are false where they are not given.
pub record ControlReq : Type 0 where
  pub paused : Option Bool
  pub blank : Option Bool
  pub muted : Option Bool
  pub banner : Option Str
  pub chat : Option Bool
  pub qa : Option Bool
  pub reactions : Option Bool
  pub start_now : Bool
  pub end_now : Bool
  pub seek_to : Option ℤ
  pub switch_to : Option Str
  pub present : Option Str
  pub slideshow : Option Bool

-- One assignment of the UPDATE that the handler puts together.
pub data Assign : Type 0 where
  start_at_now start_resumed clear_paused pause_now clear_ended ended_now clear_slide slideshow_now
        stop_slideshow bump_reload :
      Assign
  start_sought : ℕ → Assign
  set_asset set_banner set_slide : Str → Assign
  set_blank set_muted set_chat set_qa set_reactions : Bool → Assign

-- The column that an assignment writes, by a number.
abbrev pub column : Assign → ℕ
column start_at_now = 0
column start_resumed = 0
column (start_sought t) = 0
column clear_paused = 1
column pause_now = 1
column clear_ended = 2
column ended_now = 2
column (set_asset a) = 3
column (set_blank b) = 4
column (set_muted b) = 5
column (set_banner b) = 6
column (set_chat b) = 7
column (set_qa b) = 8
column (set_reactions b) = 9
column clear_slide = 10
column (set_slide s) = 10
column slideshow_now = 11
column stop_slideshow = 11
column bump_reload = 12

abbrev pub clamp_seek : ℤ → ℕ
clamp_seek (pos n) = n
clamp_seek (negsuc n) = 0

abbrev pub when : Bool → List Assign → List Assign
when b sets = if b then sets else []

abbrev pub given {ℓ} : {A : Type ℓ} → (A → List Assign) → Option A → List Assign
given f none = []
given f (some a) = f a

-- *req.SwitchTo where it names a video.
abbrev pub switch_target : Option Str → Option Str
switch_target none = none
switch_target (some s) = if is_empty s then none else some s

abbrev pub paused_sets : Bool → List Assign
paused_sets true = pause_now ∷ []
paused_sets false = start_resumed ∷ clear_paused ∷ []

abbrev pub present_sets : Str → List Assign
present_sets s = if is_empty s then clear_slide ∷ [] else set_slide s ∷ []

abbrev pub slideshow_sets : Bool → List Assign
slideshow_sets true = slideshow_now ∷ clear_slide ∷ []
slideshow_sets false = stop_slideshow ∷ []

abbrev pub bumps_reload : ControlReq → Bool
bumps_reload r = r.start_now || is_some r.seek_to || is_some (switch_target r.switch_to)

-- What moves the clock of the session.
unfoldable pub clock_sets : ControlReq → List Assign
clock_sets r =
    when r.start_now (start_at_now ∷ clear_paused ∷ clear_ended ∷ [])
    ++ (given (λ t. start_sought (clamp_seek t) ∷ clear_ended ∷ []) r.seek_to
        ++ (when r.end_now (ended_now ∷ clear_paused ∷ [])
            ++ (given
                  (λ a.
                    set_asset a ∷ start_at_now ∷ clear_paused ∷ clear_ended ∷ set_blank false ∷ [])
                  (switch_target r.switch_to)
                ++ (if r.start_now then [] else given paused_sets r.paused))))

-- What shows or hides parts of the room.
unfoldable pub room_sets : ControlReq → List Assign
room_sets r =
    given (λ b. set_blank b ∷ []) r.blank
    ++ (given (λ b. set_muted b ∷ []) r.muted
        ++ (given (λ b. set_banner (cut 300 b) ∷ []) r.banner
            ++ (given (λ b. set_chat b ∷ []) r.chat
                ++ (given (λ b. set_qa b ∷ []) r.qa
                    ++ (given (λ b. set_reactions b ∷ []) r.reactions
                        ++ (given present_sets r.present
                            ++ (given slideshow_sets r.slideshow
                                ++ when (bumps_reload r) (bump_reload ∷ []))))))))

unfoldable pub sets_of : ControlReq → List Assign
unfolding clock_sets room_sets
sets_of r = clock_sets r ++ room_sets r

-- The database refuses an UPDATE that assigns a column twice.
abbrev pub columns : List ℕ
columns = 0 ∷ 1 ∷ 2 ∷ 3 ∷ 4 ∷ 5 ∷ 6 ∷ 7 ∷ 8 ∷ 9 ∷ 10 ∷ 11 ∷ 12 ∷ []

unfoldable pub writes : ℕ → List Assign → ℕ
writes c = count λ a. column a == c

unfoldable pub has_double : List Assign → Bool
unfolding writes
has_double sets = any (λ c. ltb 1 (writes c sets)) columns

-- make_interval(secs => t) before an instant; an instant before the earliest one is out of range.
abbrev pub second : ℕ
second = 1_000_000

abbrev pub start_from : ClassSession → Bool → ℕ → Option ClassSession
start_from s true t = some (record s { starts_at = t })
start_from s false t = none

-- Every right-hand side reads the row as it was.
unfoldable pub assign : ℕ → ClassSession → Assign → ClassSession → Option ClassSession
assign now old start_at_now s = some (record s { starts_at = now })
assign now old start_resumed s =
    let p = coalesce old.paused_at now in
    start_from s (leb p (old.starts_at + now)) (old.starts_at + now - p)
assign now old (start_sought t) s =
    let anchor = coalesce old.paused_at now in
    start_from s (leb (t * second) anchor) (anchor - t * second)
assign now old clear_paused s = some (record s { paused_at = none })
assign now old pause_now s = some (record s { paused_at = some (coalesce old.paused_at now) })
assign now old clear_ended s = some (record s { manual_ended_at = none })
assign now old ended_now s = some (record s { manual_ended_at = some now })
assign now old (set_asset a) s = some (record s { media_asset_id = some a })
assign now old (set_blank b) s = some (record s { blank = b })
assign now old (set_muted b) s = some (record s { muted = b })
assign now old (set_banner b) s = some (record s { banner = b })
assign now old (set_chat b) s = some (record s { chat_enabled = b })
assign now old (set_qa b) s = some (record s { qa_enabled = b })
assign now old (set_reactions b) s = some (record s { reactions_enabled = b })
assign now old clear_slide s = some (record s { current_slide_id = none })
assign now old (set_slide i) s = some (record s { current_slide_id = some i })
assign now old slideshow_now s = some (record s { slideshow_at = some now })
assign now old stop_slideshow s = some (record s { slideshow_at = none })
assign now old bump_reload s = some (record s { reload_seq = old.reload_seq + 1 })

abbrev pub and_then {ℓ κ} : {A : Type ℓ} {B : Type κ} → Option A → (A → Option B) → Option B
and_then none f = none
and_then (some a) f = f a

unfoldable pub assign_all : ℕ → ClassSession → List Assign → ClassSession → Option ClassSession
unfolding assign
assign_all now old [] s = some s
assign_all now old (a ∷ sets) s = and_then (assign now old a s) (assign_all now old sets)

unfoldable pub update_session : ℕ → List Assign → ClassSession → Option ClassSession
unfolding assign_all has_double
update_session now sets s = if has_double sets then none else assign_all now s sets s

-- The target of a switch has to be ready.
abbrev pub is_streamable : Option MediaAsset → Bool
is_streamable none = false
is_streamable (some a) = a.is_ready && not (is_empty a.hls_url)

abbrev pub switch_ready : Bool → Db → Option Str → Bool
switch_ready up db none = true
switch_ready up db (some id) = up && is_streamable (find (λ a. beq a.id id) db.assets)

abbrev pub or_bad_body {ℓ} : {A : Type ℓ} → Option A → Reply A
or_bad_body none = refuse 400 "invalid body"
or_bad_body (some r) = ok r

abbrev pub is_none_given : List Assign → Bool
is_none_given [] = true
is_none_given (a ∷ sets) = false

-- The checks before the UPDATE. `weather.up` is about the lookups.
unfoldable pub check_control : Caller → Weather → Str → Option ControlReq → Db → Reply ControlReq
unfolding beq
check_control c w session body db = do
  course_id ← course_or_404 w.up session db
  require (is_host c w.covers w.manage_up course_id db) 403 "only the host can control the room"
  req ← or_bad_body body
  require (switch_ready w.up db (switch_target req.switch_to)) 400
      "that video isn't ready to stream"
  require (not (is_none_given (sets_of req))) 400 "no control fields"
  ok req

abbrev pub save_session : Str → Option ClassSession → Db → Db
save_session session none db = db
save_session session (some s) db = record db {
  sessions = update_where (λ t. beq t.id session) (λ _. s) db.sessions;
}

module _ {S : Type 0} where
  abbrev pub finish_control :
      Str → Option ClassSession → Db → Caches S → Reply (Unit {0}) × Db × Caches S
  finish_control session none db k = (refuse 500 "control update failed", db, k)
  finish_control session (some s) db k =
      (ok tt, save_session session (some s) db, invalidate_live_caches session k)

  abbrev pub run_control :
      Bool → ℕ → Str → Reply ControlReq → Db → Caches S → Reply (Unit {0}) × Db × Caches S
  run_control up now session (fail e) db k = (fail e, db, k)
  run_control up now session (ok req) db k =
      finish_control session
        (if up then and_then (session_of db session) (update_session now (sets_of req)) else none)
        db k

  unfoldable pub live_control :
      Caller
      → Weather
      → Bool
      → ℕ
      → Str
      → Option ControlReq
      → Db
      → Caches S
      → Reply (Unit {0}) × Db × Caches S
  live_control c w up now session body db k =
      run_control up now session (check_control c w session body db) db k
