-- ===== src/Learn/Tables.antt =====
-- The rows of the database that the courses and assessments read and write
-- (backend/internal/database/migrations), and the gate of the staff's handlers. Instants are
-- microseconds; positions and points are whole and not negative.
use onrol_infra.Base.{ℕ, Bool, Option, none, some, List, find, any, if◌then◌else◌, Str, beq, Reply}
use onrol_infra.Account.Devices.{User}
use onrol_infra.Live.Tables.{Caller, Course, manage_gate}

pub record CourseRow : Type 0 where
  pub id : Str
  pub title : Str
  pub label : Option Str
  pub description : Str
  pub status : Str
  pub enroll_type : Str
  pub in_explore : Bool
  pub explore_link : Str
  pub image_url : Option Str
  pub batch_size : Option ℕ
  pub batch_auto : Bool
  pub batch_target : Option Str
  pub owner_id : Option Str
  pub category_id : Option Str
  pub group_id : Option Str

pub record ModuleRow : Type 0 where
  pub id : Str
  pub course_id : Str
  pub title : Str
  pub position : ℕ
  pub parent_module_id : Option Str
  pub batch_number : Option Str
  pub store_code : Option Str

pub record LessonRow : Type 0 where
  pub id : Str
  pub module_id : Str
  pub title : Str
  pub kind : Str
  pub video_id : Option Str
  pub body : Str
  pub position : ℕ
  pub day_number : Option ℕ
  pub downloadable : Bool
  pub is_published : Bool
  pub publish_at : Option ℕ

-- course_enrollments
pub record Enrollment : Type 0 where
  pub course_id : Str
  pub user_id : Str
  pub status : Str
  pub enrolled_by : Str
  pub enrolled_at : ℕ
  pub completed_at : Option ℕ

pub record EnrollmentRequest : Type 0 where
  pub id : Str
  pub course_id : Str
  pub user_id : Str
  pub status : Str
  pub decided_by : Option Str
  pub created_at : ℕ
  pub decided_at : Option ℕ

pub record Prerequisite : Type 0 where
  pub course_id : Str
  pub prereq_course_id : Str

-- enrollments: who may be given the key of a video.
pub record Entitlement : Type 0 where
  pub user_id : Str
  pub video_id : Str

-- lesson_progress
pub record Progress : Type 0 where
  pub user_id : Str
  pub lesson_id : Str
  pub completed_at : ℕ

pub record Certificate : Type 0 where
  pub user_id : Str
  pub course_id : Str
  pub serial : Str
  pub issued_at : ℕ

pub record School : Type 0 where
  pub users : List User
  pub courses : List CourseRow
  pub modules : List ModuleRow
  pub lessons : List LessonRow
  pub enrollments : List Enrollment
  pub requests : List EnrollmentRequest
  pub prerequisites : List Prerequisite
  pub entitlements : List Entitlement
  pub progress : List Progress
  pub certificates : List Certificate

-- What the answers of managerCovers and of the lookup in canManageCourse are.
pub record Scope : Type 0 where
  pub covers : Bool
  pub up : Bool

abbrev pub course_row_of : Str → School → Option CourseRow
course_row_of id s = find (λ k. beq k.id id) s.courses

abbrev pub base_of : Option CourseRow → Option Course
base_of none = none
base_of (some k) =
    some (record { id = k.id; title = k.title; owner_id = k.owner_id; group_id = k.group_id })

-- canManageCourse
unfoldable pub can_manage : Caller → Scope → Str → School → Reply (Unit {0})
unfolding beq
can_manage c g course_id s =
    manage_gate c g.covers (if g.up then base_of (course_row_of course_id s) else none)

abbrev pub has_course : School → Str → Bool
has_course s id = any (λ k. beq k.id id) s.courses

abbrev pub has_user : School → Str → Bool
has_user s id = any (λ u. beq u.id id) s.users

abbrev pub found {ℓ} : {A : Type ℓ} → Bool → Option A → Option A
found up o = if up then o else none
