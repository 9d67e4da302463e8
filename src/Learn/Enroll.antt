-- ===== src/Learn/Enroll.antt =====
-- Enrolment: backend/internal/handlers/lms_student.go (SelfEnroll, isEnrolled, Catalog) and
-- lms_courses.go (enrollUserInCourse).
-- `up` tells which statements the database carries out. A foreign key that points nowhere makes a
-- statement fail.
pub mod Calls
pub mod Entitled
pub mod Decided
pub mod Requests
use onrol_infra.Base.{
  ℕ, zero, suc, ◌≡◌, Bool, true, false, not, ◌&&◌, ◌||◌, Option, none, some, List, [], ◌∷◌, ◌++◌,
  ltb, leb, if◌then◌else◌, find, any, count, select, length, String, Str, codes, beq, has_prefix,
  is_empty, trim_space, Reply, ok, fail, refuse, ◌>>=◌, ◌>>◌, require, update_where, coalesce,
}
use onrol_infra.Account.Devices.{User}
use onrol_infra.Account.SignIn.{Outside, to_lower, digits, has_suffix, holds, phone_digits}
use onrol_infra.Live.Tables.{Caller}
use onrol_infra.Learn.Tables.{
  School, Scope, CourseRow, Enrollment, EnrollmentRequest, Prerequisite, Entitlement, ModuleRow,
  LessonRow, course_row_of, can_manage, has_course, has_user, found,
}

pub data EnrollStmt : Type 0 where
  read_course count_missing insert_enrollment insert_entitlements : EnrollStmt
  insert_request read_request update_request find_student : EnrollStmt
  insert_prerequisite read_enrolled : EnrollStmt

abbrev pub is_pair : Str → Str → Enrollment → Bool
is_pair course user e = beq e.course_id course && beq e.user_id user

abbrev pub enrolled : Str → Str → School → Bool
enrolled course user s = any (is_pair course user) s.enrollments

-- isEnrolled: false where the query fails.
unfoldable pub is_enrolled : Bool → Str → Str → School → Bool
unfolding beq
is_enrolled up course user s = up && enrolled course user s

abbrev pub new_enrollment : ℕ → Str → Str → Str → Enrollment
new_enrollment now course user by = record {
  course_id = course;
  user_id = user;
  status = codes "active";
  enrolled_by = by;
  enrolled_at = now;
  completed_at = none;
}

-- INSERT … ON CONFLICT (course_id, user_id) DO NOTHING
unfoldable pub add_enrollment : ℕ → Str → Str → Str → School → School
unfolding beq
add_enrollment now course user by s =
    if enrolled course user s
    then s
    else record s { enrollments = s.enrollments ++ new_enrollment now course user by ∷ [] }

abbrev pub has_entitlement : Str → Str → List Entitlement → Bool
has_entitlement user video = any λ e. beq e.user_id user && beq e.video_id video

unfoldable pub add_entitlement : Str → Option Str → List Entitlement → List Entitlement
unfolding beq
add_entitlement user none es = es
add_entitlement user (some video) es =
    if has_entitlement user video es
    then es
    else es ++ record { user_id = user; video_id = video } ∷ []

abbrev pub in_course : Str → School → LessonRow → Bool
in_course course s l = any (λ m. beq m.id l.module_id && beq m.course_id course) s.modules

unfoldable pub add_entitlements : Str → List LessonRow → List Entitlement → List Entitlement
unfolding add_entitlement
add_entitlements user [] es = es
add_entitlements user (l ∷ ls) es = add_entitlements user ls (add_entitlement user l.video_id es)

unfoldable pub entitle : Str → Str → School → School
unfolding add_entitlements beq
entitle course user s = record s {
  entitlements = add_entitlements user (select (in_course course s) s.lessons) s.entitlements;
}

-- enrollUserInCourse; the error of the second statement is dropped.
unfoldable pub enroll_user :
    (EnrollStmt → Bool) → ℕ → Str → Str → Str → School → Reply (Unit {0}) × School
unfolding beq
enroll_user up now course user by s =
    if up insert_enrollment
      && (enrolled course user s || (has_course s course && has_user s user && has_user s by))
    then (let s' = add_enrollment now course user by s in
        (ok tt, if up insert_entitlements then entitle course user s' else s'))
    else (refuse 500 "enroll failed", s)

abbrev pub found_or {ℓ} : {A : Type ℓ} → String → Option A → Reply A
found_or m none = refuse 404 m
found_or m (some a) = ok a

abbrev pub completed_course : Str → Str → School → Bool
completed_course course user s =
    any (λ e. is_pair course user e && beq e.status (codes "completed")) s.enrollments

-- The prerequisites that the user has not completed.
unfoldable pub missing_prerequisites : Str → Str → School → ℕ
unfolding beq
missing_prerequisites course user s =
    count (λ p. beq p.course_id course && not (completed_course p.prereq_course_id user s))
      s.prerequisites

pub data SelfReply : Type 0 where
  enrolled_now enrollment_requested : SelfReply

-- The checks of SelfEnroll: whether the course takes students by themselves. A count that fails
-- leaves `missing` at zero.
unfoldable pub check_self : (EnrollStmt → Bool) → Caller → Str → School → Reply Bool
unfolding beq missing_prerequisites
check_self up c course s = do
  k ← found_or "course not found" (found (up read_course) (course_row_of course s))
  require (beq k.status (codes "published") || k.in_explore) 403 "course not open"
  let missing = if up count_missing then missing_prerequisites course c.id s else 0
  require (not (ltb 0 missing)) 403 "unmet prerequisites"
  require (not (beq k.enroll_type (codes "closed"))) 403
      "enrollment is closed — the admin enrolls students for this course"
  ok (beq k.enroll_type (codes "self"))

abbrev pub is_request : Str → Str → EnrollmentRequest → Bool
is_request course user r = beq r.course_id course && beq r.user_id user

abbrev pub requested : Str → Str → School → Bool
requested course user s = any (is_request course user) s.requests

-- INSERT … ON CONFLICT (course_id, user_id) DO NOTHING
unfoldable pub add_request : ℕ → Str → Str → Str → School → School
unfolding beq
add_request now new_id course user s = if requested course user s then s else record s {
  requests =
      s.requests
      ++ record {
        id = new_id;
        course_id = course;
        user_id = user;
        status = codes "pending";
        decided_by = none;
        created_at = now;
        decided_at = none;
      }
        ∷ [];
}

abbrev pub answer_self : Reply (Unit {0}) × School → Reply SelfReply × School
answer_self (ok u, s) = (ok enrolled_now, s)
answer_self (fail e, s) = (fail e, s)

abbrev pub apply_self :
    (EnrollStmt → Bool) → ℕ → Str → Caller → Str → School → Reply Bool → Reply SelfReply × School
apply_self up now new_id c course s (fail e) = (fail e, s)
apply_self up now new_id c course s (ok self) =
    if self
    then answer_self (enroll_user up now course c.id c.id s)
    else (if up insert_request && has_user s c.id
        then (ok enrollment_requested, add_request now new_id course c.id s)
        else (refuse 500 "request failed", s))

unfoldable pub self_enroll :
    (EnrollStmt → Bool) → ℕ → Str → Caller → Str → School → Reply SelfReply × School
unfolding beq
self_enroll up now new_id c course s =
    apply_self up now new_id c course s (check_self up c course s)

-- Catalog up to its order by age, its limit and the joined columns.
abbrev pub is_offered : Caller → School → CourseRow → Bool
is_offered c s k =
    (beq k.status (codes "published") || k.in_explore)
    && not (beq k.status (codes "archived"))
    && not (enrolled k.id c.id s)
    && not (any (λ r. is_request k.id c.id r && beq r.status (codes "pending")) s.requests)

unfoldable pub catalog : Bool → Caller → School → Reply (List CourseRow)
unfolding beq
catalog up c s = if up then ok (select (is_offered c s) s.courses) else refuse 500 "catalog failed"
