-- ===== src/Live/Tables.antt =====
-- The rows of the database that the live room reads and writes, and the gate on a course
-- (backend/internal/handlers/lms.go). An instant is a number of microseconds since the earliest
-- timestamp that the database has.
use onrol_infra.Base.{
  String, ℕ, Bool, true, false, ◌&&◌, ◌||◌, Option, none, some, List, find, if◌then◌else◌, Str,
  codes, beq, Reply, ok, refuse, coalesce, is_empty, [], not,
}
use onrol_infra.Account.Devices.{User}

-- class_sessions
pub record ClassSession : Type 0 where
  pub id : Str
  pub course_id : Str
  pub title : Str
  pub starts_at : ℕ
  pub media_asset_id : Option Str
  pub batch_number : Option Str
  pub chat_enabled : Bool
  pub qa_enabled : Bool
  pub reactions_enabled : Bool
  pub viewer_base : ℕ
  pub live_hls_url : Str
  pub start_image : Str
  pub end_image : Str
  pub paused_at : Option ℕ
  pub blank : Bool
  pub muted : Bool
  pub banner : Str
  pub manual_ended_at : Option ℕ
  pub reload_seq : ℕ
  pub current_slide_id : Option Str
  pub slides_rev : ℕ
  pub slideshow_at : Option ℕ
  pub slideshow_secs : ℕ

pub record Course : Type 0 where
  pub id : Str
  pub title : Str
  pub owner_id : Option Str
  pub group_id : Option Str

pub record Enrollment : Type 0 where
  pub course_id : Str
  pub user_id : Str
  pub is_current : Bool

pub record MediaAsset : Type 0 where
  pub id : Str
  pub is_ready : Bool
  pub hls_url : Str
  pub duration_seconds : ℕ

pub record Slide : Type 0 where
  pub id : Str
  pub session_id : Str
  pub image : Str
  pub position : ℕ
  pub created_at : ℕ

pub record ChatMessage : Type 0 where
  pub id : Str
  pub session_id : Str
  pub user_id : Str
  pub display_name : Str
  pub body : Str
  pub from_staff : Bool
  pub created_at : ℕ

pub record Question : Type 0 where
  pub id : Str
  pub session_id : Str
  pub user_id : Str
  pub display_name : Str
  pub body : Str
  pub answer : Str
  pub answered : Bool
  pub created_at : ℕ
  pub answered_at : Option ℕ
  pub answered_by : Option Str

pub record Db : Type 0 where
  pub users : List User
  pub courses : List Course
  pub enrollments : List Enrollment
  pub assets : List MediaAsset
  pub sessions : List ClassSession
  pub slides : List Slide
  pub chat : List ChatMessage
  pub questions : List Question

-- callerID and callerRole
pub record Caller : Type 0 where
  pub id : Str
  pub role : Str

abbrev pub has_role : Caller → String → Bool
has_role c r = beq c.role (codes r)

abbrev pub session_of : Db → Str → Option ClassSession
session_of db id = find (λ s. beq s.id id) db.sessions

abbrev pub user_of : Db → Str → Option User
user_of db id = find (λ u. beq u.id id) db.users

abbrev pub asset_of : Db → Option Str → Option MediaAsset
asset_of db none = none
asset_of db (some id) = find (λ a. beq a.id id) db.assets

-- What is left of canManageCourse behind its lookup. `covers` is the answer of managerCovers.
abbrev pub may_manage : Caller → Bool → Option Course → Reply (Unit {0})
may_manage c covers none = refuse 404 "course not found"
may_manage c covers (some k) =
    let owner = coalesce k.owner_id [] in
    if not (is_empty owner) && beq owner c.id
    then ok tt
    else (if has_role c "manager" && not (is_empty (coalesce k.group_id [])) && covers
        then ok tt
        else refuse 403 "not allowed to manage this course")

-- canManageCourse, given the answer of its lookup.
abbrev pub manage_gate : Caller → Bool → Option Course → Reply (Unit {0})
manage_gate c covers found =
    if has_role c "superadmin" || has_role c "manager" then ok tt else may_manage c covers found

unfoldable pub can_manage_course : Caller → Bool → Bool → Str → Db → Reply (Unit {0})
unfolding beq
can_manage_course c covers up course_id db =
    manage_gate c covers (if up then find (λ k. beq k.id course_id) db.courses else none)

abbrev pub is_ok {ℓ} : {A : Type ℓ} → Reply A → Bool
is_ok r = elim r [ ok a ↦ true | Reply.fail e ↦ false ]

-- canManageCourse and the role of a live host, as the host's handlers test them.
unfoldable pub is_host : Caller → Bool → Bool → Str → Db → Bool
is_host c covers up course_id db =
    is_ok (can_manage_course c covers up course_id db) || has_role c "live_host"

-- The lookup of a session's course with which the host's handlers begin.
abbrev pub course_or_404 : Bool → Str → Db → Reply Str
course_or_404 up session_id db =
    if up
    then (elim (session_of db session_id) [
      | none ↦ refuse 404 "session not found"
      | some s ↦ ok s.course_id
    ])
    else refuse 404 "session not found"
