-- ===== src/Learn/Admit.antt =====
-- Enrolment by the staff: backend/internal/handlers/lms_courses.go (DecideEnrollmentRequest,
-- ManualEnroll, AddPrerequisite).
use onrol_infra.Base.{
  ℕ, Bool, true, false, not, ◌&&◌, ◌||◌, Option, none, some, [], ◌∷◌, ◌++◌, leb, if◌then◌else◌,
  find, any, length, Str, codes, beq, has_prefix, is_empty, trim_space, Reply, ok, fail, refuse,
  ◌>>=◌, ◌>>◌, require, update_where, coalesce,
}
use onrol_infra.Account.Devices.{User}
use onrol_infra.Account.SignIn.{Outside, to_lower, digits, has_suffix, holds, phone_digits}
use onrol_infra.Live.Tables.{Caller}
use onrol_infra.Learn.Tables.{
  School, Scope, EnrollmentRequest, Prerequisite, can_manage, has_course, found,
}
use onrol_infra.Learn.Enroll.{
  EnrollStmt, enroll_user, find_student, found_or, insert_prerequisite, read_request,
  update_request,
}

abbrev pub is_pending : Str → EnrollmentRequest → Bool
is_pending id r = beq r.id id && beq r.status (codes "pending")

abbrev pub decided : ℕ → Caller → Bool → EnrollmentRequest → EnrollmentRequest
decided now c approve r = record r {
  status = if approve then codes "approved" else codes "rejected";
  decided_by = some c.id;
  decided_at = some now;
}

-- The lookup and the gate of DecideEnrollmentRequest.
unfoldable pub check_decision :
    (EnrollStmt → Bool) → Caller → Scope → Str → School → Reply EnrollmentRequest
unfolding beq
check_decision up c g id s = do
  r ←
      found_or "pending request not found"
        (found (up read_request) (find (is_pending id) s.requests))
  can_manage c g r.course_id s
  ok r

unfoldable pub close_request : Bool → ℕ → Caller → Bool → Str → School → School
unfolding beq update_where
close_request up now c approve id s =
    if up
    then record s { requests = update_where (λ r. beq r.id id) (decided now c approve) s.requests }
    else s

abbrev pub after_enroll :
    School → (School → School) → Reply (Unit {0}) × School → Reply Bool × School
after_enroll s close (ok u, s') = (ok true, close s')
after_enroll s close (fail e, s') = (fail e, s')

-- The answer tells whether the request is approved.
abbrev pub apply_decision :
    (EnrollStmt → Bool)
    → ℕ
    → Caller
    → Str
    → Bool
    → School
    → Reply EnrollmentRequest
    → Reply Bool × School
apply_decision up now c id approve s (fail e) = (fail e, s)
apply_decision up now c id approve s (ok r) =
    if approve
    then after_enroll s (close_request (up update_request) now c true id)
        (enroll_user up now r.course_id r.user_id c.id s)
    else (ok false, close_request (up update_request) now c false id s)

unfoldable pub decide_request :
    (EnrollStmt → Bool) → ℕ → Caller → Scope → Str → Bool → School → Reply Bool × School
unfolding beq
decide_request up now c g id approve s =
    apply_decision up now c id approve s (check_decision up c g id s)

pub record EnrollReq : Type 0 where
  pub user_id : Str
  pub email : Str

-- The WHERE of the lookup in ManualEnroll; $1 is the lowered identifier.
unfoldable pub is_student : Outside → Str → User → Bool
unfolding beq has_prefix
is_student out id u =
    holds (λ t. beq (out.pg_lower t) id) u.email
    || holds (λ t. beq (out.pg_lower t) id) u.login_id
    || holds (λ t. beq (out.pg_lower t) id) u.username
    || (leb 8 (length (digits id)) && has_suffix (phone_digits u) (digits id))

abbrev pub id_or_404 : Option User → Reply Str
id_or_404 none = refuse 404 "no student with that email / phone / login ID"
id_or_404 (some u) = ok u.id

-- The user that a body of ManualEnroll names.
unfoldable pub named_user : (EnrollStmt → Bool) → Outside → EnrollReq → School → Reply Str
unfolding is_student
named_user up out req s =
    if is_empty req.user_id && not (is_empty req.email)
    then id_or_404 (
        found (up find_student)
          (find (is_student out (to_lower out (trim_space req.email))) s.users))
    else ok req.user_id

unfoldable pub check_manual :
    (EnrollStmt → Bool) → Outside → Caller → Scope → Str → Option EnrollReq → School → Reply Str
unfolding named_user
check_manual up out c g course none s = do can_manage c g course s; refuse 400 "invalid body"
check_manual up out c g course (some req) s = do
  can_manage c g course s
  user ← named_user up out req s
  require (not (is_empty user)) 400 "user_id or email required"
  ok user

abbrev pub after_manual : Str → Reply (Unit {0}) × School → Reply Str × School
after_manual user (ok u, s) = (ok user, s)
after_manual user (fail e, s) = (fail e, s)

abbrev pub apply_manual :
    (EnrollStmt → Bool) → ℕ → Caller → Str → School → Reply Str → Reply Str × School
apply_manual up now c course s (fail e) = (fail e, s)
apply_manual up now c course s (ok user) = after_manual user (enroll_user up now course user c.id s)

-- ManualEnroll up to the notification; the answer names the user.
unfoldable pub manual_enroll :
    (EnrollStmt → Bool)
    → Outside
    → ℕ
    → Caller
    → Scope
    → Str
    → Option EnrollReq
    → School
    → Reply Str × School
unfolding beq
manual_enroll up out now c g course req s =
    apply_manual up now c course s (check_manual up out c g course req s)

abbrev pub is_prerequisite : Str → Str → Prerequisite → Bool
is_prerequisite course prereq p = beq p.course_id course && beq p.prereq_course_id prereq

-- INSERT … ON CONFLICT DO NOTHING
unfoldable pub insert_prerequisite_row : Str → Str → School → School
unfolding beq
insert_prerequisite_row course prereq s =
    if any (is_prerequisite course prereq) s.prerequisites then s else record s {
      prerequisites =
          s.prerequisites ++ record { course_id = course; prereq_course_id = prereq } ∷ [];
    }

unfoldable pub check_prerequisite :
    (EnrollStmt → Bool) → Caller → Scope → Str → Option Str → School → Reply (Unit {0})
unfolding beq
check_prerequisite up c g course body s = do
  can_manage c g course s
  let prereq = coalesce body []
  require (not (is_empty prereq)) 400 "prereq_course_id required"
  require (not (beq prereq course)) 400 "a course cannot require itself"
  require (up insert_prerequisite && has_course s course && has_course s prereq) 500 "add failed"

abbrev pub after_check {ℓ} : {A : Type ℓ} → (School → School) → School → Reply A → Reply A × School
after_check f s (fail e) = (fail e, s)
after_check f s (ok a) = (ok a, f s)

-- AddPrerequisite; a body that does not parse names nothing.
unfoldable pub add_prerequisite :
    (EnrollStmt → Bool) → Caller → Scope → Str → Option Str → School → Reply (Unit {0}) × School
unfolding beq
add_prerequisite up c g course body s =
    after_check (insert_prerequisite_row course (coalesce body [])) s
      (check_prerequisite up c g course body s)
