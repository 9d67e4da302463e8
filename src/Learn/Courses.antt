-- ===== src/Learn/Courses.antt =====
-- The courses: backend/internal/handlers/lms_courses.go (slugify, CreateCourse, UpdateCourse) and
-- lms.go (requireGroupScope). The unique index idx_courses_label compares labels by
-- lower() of the database. A value that a CHECK or a foreign key of the table refuses makes its
-- statement fail; the tables of groups and categories are left to `up`.
pub mod Slug
pub mod Created
use onrol_infra.Base.{
  ℕ, Bool, true, false, not, ◌&&◌, ◌||◌, Option, none, some, List, [], ◌∷◌, ◌++◌, leb, ◌==◌,
  if◌then◌else◌, coalesce, any, select, Str, codes, beq, is_empty, trim_space, Reply, ok, fail,
  refuse, ◌>>=◌, ◌>>◌, require, update_where, delete_where,
}
use onrol_infra.Account.Devices.{User}
use onrol_infra.Account.SignIn.{Outside, to_lower, holds}
use onrol_infra.Live.Tables.{Caller, has_role}
use onrol_infra.Learn.Tables.{School, Scope, CourseRow, can_manage, has_course, has_user}
use onrol_infra.Learn.Questions.{non_empty, or_default}
use onrol_infra.Learn.Modules.{to_upper, then_do}

pub data CourseStmt : Type 0 where
  find_instructor insert_course update_course : CourseStmt

abbrev pub is_slug_byte : ℕ → Bool
is_slug_byte b = (leb b'a' b && leb b b'z') || (leb b'0' b && leb b b'9')

-- What a character adds, and whether the last one written is a dash. A character beyond ASCII is a
-- run of bytes of which none is kept, and so gives one dash as well.
abbrev pub slug_byte : Bool → ℕ → Str → Str
slug_byte last_dash b rest =
    if is_slug_byte b then b ∷ rest else if last_dash then rest else b'-' ∷ rest

unfoldable pub slug_from : Bool → Str → Str
slug_from last_dash [] = []
slug_from last_dash (b ∷ s) = slug_byte last_dash b (slug_from (not (is_slug_byte b)) s)

unfoldable pub drop_dashes : Str → Str
drop_dashes [] = []
drop_dashes (b ∷ s) = let rest = drop_dashes s in if b == b'-' then rest else b ∷ s

abbrev pub unless_dash : ℕ → Str → Str
unless_dash b rest = if is_empty rest && b == b'-' then [] else b ∷ rest

unfoldable pub drop_end_dashes : Str → Str
drop_end_dashes [] = []
drop_end_dashes (b ∷ s) = unless_dash b (drop_end_dashes s)

unfoldable pub slugify : Outside → Str → Str
unfolding slug_from drop_dashes drop_end_dashes trim_space
slugify out s = drop_end_dashes (drop_dashes (slug_from false (to_lower out (trim_space s))))

-- requireGroupScope
unfoldable pub require_group_scope : Caller → Scope → Reply (Unit {0})
unfolding beq
require_group_scope c g = if has_role c "superadmin" then ok tt else (do
  require (has_role c "manager") 403 "requires manager role"
  require g.up 500 "scope check failed"
  require g.covers 403 "group is outside your managed scope")

abbrev pub is_admin : Caller → Bool
is_admin c = has_role c "superadmin" || has_role c "manager"

pub record CourseReq : Type 0 where
  pub title : Str
  pub label : Str
  pub description : Str
  pub category_id : Str
  pub group_id : Str
  pub enroll_type : Str
  pub image_url : Str
  pub instructor_id : Str

abbrev pub is_instructor : Str → User → Bool
is_instructor id u = beq u.id id && beq u.role (codes "instructor") && u.is_active

-- The owner of a new course; a query that fails finds no instructor.
unfoldable pub owner_of : (CourseStmt → Bool) → Caller → CourseReq → School → Reply Str
unfolding beq
owner_of up c req s =
    if not (is_empty req.instructor_id) && is_admin c
    then (if up find_instructor && any (is_instructor req.instructor_id) s.users
        then ok req.instructor_id
        else refuse 400 "instructor_id is not a valid instructor")
    else ok c.id

unfoldable pub label_for : Outside → CourseReq → Str
unfolding slugify
label_for out req =
    let label = slugify out req.label in if is_empty label then slugify out req.title else label

abbrev pub has_label : Outside → Str → CourseRow → Bool
has_label out label k = holds (λ l. beq (out.pg_lower l) (out.pg_lower label)) k.label

abbrev pub is_enroll_type : Str → Bool
is_enroll_type t =
    beq t (codes "manual")
    || beq t (codes "self")
    || beq t (codes "cohort")
    || beq t (codes "closed")

abbrev pub new_course : Str → Str → Str → CourseReq → CourseRow
new_course id owner label req = record {
  id = id;
  title = req.title;
  label = some label;
  description = req.description;
  status = codes "draft";
  enroll_type = or_default (codes "manual") req.enroll_type;
  in_explore = false;
  explore_link = [];
  image_url = if is_empty (trim_space req.image_url) then none else some req.image_url;
  batch_size = none;
  batch_auto = false;
  batch_target = none;
  owner_id = some owner;
  category_id = non_empty req.category_id;
  group_id = non_empty req.group_id;
}

unfoldable pub check_create_course :
    (CourseStmt → Bool)
    → Outside
    → Str
    → Caller
    → Scope
    → Option CourseReq
    → School
    → Reply CourseRow
unfolding require_group_scope owner_of label_for beq
check_create_course up out id c g none s = refuse 400 "title required"
check_create_course up out id c g (some req) s = do
  require (not (is_empty (trim_space req.title))) 400 "title required"
  if not (is_empty req.group_id) && not (is_admin c) then require_group_scope c g else ok tt
  owner ← owner_of up c req s
  let label = label_for out req
  require (not (is_empty label)) 400 "course id is required"
  let k = new_course id owner label req
  require (up insert_course && is_enroll_type k.enroll_type) 500 "create failed"
  require (not (any (has_label out label) s.courses)) 409
      "a course with this Course ID already exists"
  require (has_user s owner) 500 "create failed"
  ok k

abbrev pub insert_course_row : CourseRow → School → School
insert_course_row k s = record s { courses = s.courses ++ k ∷ [] }

unfoldable pub create_course :
    (CourseStmt → Bool)
    → Outside
    → Str
    → Caller
    → Scope
    → Option CourseReq
    → School
    → Reply CourseRow × School
unfolding check_create_course
create_course up out id c g req s =
    then_do insert_course_row s (check_create_course up out id c g req s)

-- A number of a body, which may be negative.
pub data Size : Type 0 where
  negative : Size
  size : ℕ → Size

pub record CourseEdit : Type 0 where
  pub title : Option Str
  pub label : Option Str
  pub description : Option Str
  pub status : Option Str
  pub enroll_type : Option Str
  pub image_url : Option Str
  pub batch_size : Option Size
  pub batch_auto : Option Bool
  pub instructor_id : Option Str
  pub in_explore : Option Bool
  pub explore_link : Option Str
  pub batch_target : Option Str

abbrev pub or_old {ℓ} : {A : Type ℓ} → Option A → Option A → Option A
or_old none old = old
or_old (some a) old = some a

abbrev pub owner_named : Option Str → Option Str
owner_named none = none
owner_named (some o) = non_empty o

unfoldable pub slug_named : Outside → Option Str → Option Str
unfolding slugify
slug_named out none = none
slug_named out (some l) = some (slugify out l)

abbrev pub target_named : (Str → Str) → Option Str → Option Str
target_named unicode_upper none = none
target_named unicode_upper (some t) = some (to_upper unicode_upper (trim_space t))

abbrev pub size_of : Option Size → Option ℕ → Option ℕ
size_of none old = old
size_of (some negative) old = old
size_of (some (size n)) old = some n

abbrev pub edited_course : Outside → (Str → Str) → CourseEdit → CourseRow → CourseRow
edited_course out unicode_upper req k = record k {
  title = coalesce req.title k.title;
  description = coalesce req.description k.description;
  status = coalesce req.status k.status;
  enroll_type = coalesce req.enroll_type k.enroll_type;
  image_url = or_old req.image_url k.image_url;
  batch_size = size_of req.batch_size k.batch_size;
  batch_auto = coalesce req.batch_auto k.batch_auto;
  label = or_old (slug_named out req.label) k.label;
  owner_id = or_old (owner_named req.instructor_id) k.owner_id;
  in_explore = coalesce req.in_explore k.in_explore;
  explore_link = coalesce req.explore_link k.explore_link;
  batch_target = or_old (target_named unicode_upper req.batch_target) k.batch_target;
}

abbrev pub fits {ℓ} : {A : Type ℓ} → (A → Bool) → Option A → Bool
fits p none = true
fits p (some a) = p a

abbrev pub is_course_status : Str → Bool
is_course_status t = beq t (codes "draft") || beq t (codes "published") || beq t (codes "archived")

abbrev pub is_admission : Str → Bool
is_admission t = beq t (codes "self") || beq t (codes "manual") || beq t (codes "closed")

abbrev pub is_not_negative : Size → Bool
is_not_negative negative = false
is_not_negative (size n) = true

-- Whether another course than the one that is changed has the label.
abbrev pub is_free : Outside → Str → School → Str → Bool
is_free out id s label =
    not (has_course s id) || not (any (λ k. not (beq k.id id) && has_label out label k) s.courses)

unfoldable pub check_edit_course :
    (CourseStmt → Bool)
    → Outside
    → Caller
    → Scope
    → Str
    → Option CourseEdit
    → School
    → Reply CourseEdit
unfolding slug_named beq
check_edit_course up out c g id none s = do can_manage c g id s; refuse 400 "invalid body"
check_edit_course up out c g id (some req) s = do
  can_manage c g id s
  let label = slug_named out req.label
  require (fits (λ l. not (is_empty l)) label) 400 "course id cannot be empty"
  require (fits is_course_status req.status) 400 "invalid status"
  require (fits is_admission req.enroll_type) 400 "invalid enroll_type"
  require (fits is_not_negative req.batch_size) 400 "batch_size must be >= 0"
  require (up update_course) 500 "update failed"
  require (fits (is_free out id s) label) 409 "a course with this Course ID already exists"
  require (not (has_course s id) || fits (has_user s) (owner_named req.instructor_id)) 500
      "update failed"
  ok req

unfoldable pub edit_course_row : Str → (CourseRow → CourseRow) → School → School
unfolding update_where beq
edit_course_row id f s = record s { courses = update_where (λ k. beq k.id id) f s.courses }

-- UpdateCourse
unfoldable pub update_course_row :
    (CourseStmt → Bool)
    → Outside
    → (Str → Str)
    → Caller
    → Scope
    → Str
    → Option CourseEdit
    → School
    → Reply CourseEdit × School
unfolding check_edit_course edit_course_row slug_named
update_course_row up out unicode_upper c g id req s =
    then_do (λ r. edit_course_row id (edited_course out unicode_upper r)) s
      (check_edit_course up out c g id req s)
