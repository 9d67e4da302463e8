-- ===== src/Learn/Questions.antt =====
-- The staff's side of the assessments: backend/internal/handlers/lms_assess.go (CreateAssessment,
-- DeleteAssessment) and lms_edit.go (UpdateAssessment). A value that a CHECK or a foreign key of the
-- table refuses makes its statement fail. `is_time` tells which texts the database reads as a time.
pub mod Scopes
use onrol_infra.Base.{
  ℕ, zero, suc, ◌+◌, Bool, true, false, not, ◌&&◌, ◌||◌, Option, none, some, List, [], ◌∷◌, ◌++◌,
  leb, ◌==◌, if◌then◌else◌, is_some, coalesce, find, any, select, sort_by, Str, codes, beq,
  is_empty, trim_space, Reply, ok, fail, refuse, ◌>>=◌, ◌>>◌, require, update_where, delete_where,
}
use onrol_infra.Live.Tables.{Caller}
use onrol_infra.Learn.Tables.{School, Scope, can_manage, has_course, has_user, found}
use onrol_infra.Learn.Enroll.{found_or}
use onrol_infra.Learn.Scoring.{QuestionRow}
use onrol_infra.Learn.Desk.{
  AssessmentRow, Desk, DeskStmt, read_submission, read_questions, write_assessment,
  delete_assessment as delete_stmt, write_due, write_module, write_day, clear_day, write_question,
  delete_question as delete_question_stmt, read_position, assessment_of, check_staff,
}
use onrol_infra.Learn.Submit.{questions_of}

-- trimmedPtr
abbrev pub unless_blank : Str → Option Str
unless_blank t = if is_empty t then none else some t

unfoldable pub trimmed : Option Str → Option Str
trimmed none = none
trimmed (some s) = unless_blank (trim_space s)

abbrev pub is_kind : Str → Bool
is_kind k = beq k (codes "quiz") || beq k (codes "assignment")

abbrev pub is_question_kind : Str → Bool
is_question_kind k =
    beq k (codes "mcq")
    || beq k (codes "truefalse")
    || beq k (codes "short")
    || beq k (codes "essay")
    || beq k (codes "upload")
    || beq k (codes "multi")
    || beq k (codes "fill")
    || beq k (codes "numeric")

abbrev pub holds_all : (Str → Bool) → Option Str → Bool
holds_all p none = true
holds_all p (some s) = p s

abbrev pub has_module : Desk → Str → Bool
has_module d id = any (λ m. beq m.id id) d.school.modules

pub record CreateReq : Type 0 where
  pub title : Str
  pub kind : Str
  pub description : Str
  pub due_at : Str
  pub day_number : Option ℕ
  pub module_id : Str
  pub is_published : Bool
  pub auto_award : Bool

abbrev pub non_empty : Str → Option Str
non_empty s = if is_empty s then none else some s

abbrev pub or_default : Str → Str → Str
or_default d s = if is_empty s then d else s

abbrev pub new_assessment : Str → Caller → Str → CreateReq → AssessmentRow
new_assessment id c course req = record {
  id = id;
  course_id = course;
  module_id = non_empty req.module_id;
  title = req.title;
  kind = or_default (codes "quiz") req.kind;
  description = trim_space req.description;
  max_score = 100;
  due_at = non_empty req.due_at;
  day_number = req.day_number;
  is_published = req.is_published;
  auto_award = req.auto_award;
  created_by = c.id;
}

-- What the constraints of the table ask of a row.
abbrev pub is_storable : (Str → Bool) → Desk → AssessmentRow → Bool
is_storable is_time d a =
    is_kind a.kind
    && has_course d.school a.course_id
    && has_user d.school a.created_by
    && holds_all (has_module d) a.module_id
    && holds_all is_time a.due_at

unfoldable pub check_create :
    (DeskStmt → Bool)
    → (Str → Bool)
    → Str
    → Caller
    → Scope
    → Str
    → Option CreateReq
    → Desk
    → Reply AssessmentRow
unfolding beq
check_create up is_time id c g course none d = do
  can_manage c g course d.school
  refuse 400 "title required"
check_create up is_time id c g course (some req) d = do
  can_manage c g course d.school
  require (not (is_empty (trim_space req.title))) 400 "title required"
  let a = new_assessment id c course req
  require (up write_assessment && is_storable is_time d a) 500 "create failed"
  ok a

abbrev pub apply_to {ℓ} : {A : Type ℓ} → (A → Desk → Desk) → Desk → Reply A → Reply A × Desk
apply_to f d (fail e) = (fail e, d)
apply_to f d (ok a) = (ok a, f a d)

abbrev pub insert_assessment : AssessmentRow → Desk → Desk
insert_assessment a d = record d { assessments = d.assessments ++ a ∷ [] }

unfoldable pub create_assessment :
    (DeskStmt → Bool)
    → (Str → Bool)
    → Str
    → Caller
    → Scope
    → Str
    → Option CreateReq
    → Desk
    → Reply AssessmentRow × Desk
unfolding beq check_create
create_assessment up is_time id c g course req d =
    apply_to insert_assessment d (check_create up is_time id c g course req d)

-- DELETE FROM assessments; questions, submissions and files go with it.
unfoldable pub remove_assessment : Str → Desk → Desk
unfolding delete_where beq
remove_assessment id d = record d {
  assessments = delete_where (λ a. beq a.id id) d.assessments;
  questions = delete_where (λ q. beq q.assessment_id id) d.questions;
  submissions = delete_where (λ s. beq s.assessment_id id) d.submissions;
  files = delete_where (λ f. beq f.assessment_id id) d.files;
}

unfoldable pub delete_assessment :
    (DeskStmt → Bool) → Caller → Scope → Str → Desk → Reply AssessmentRow × Desk
unfolding check_staff remove_assessment
delete_assessment up c g id d =
    apply_to (λ a. remove_assessment id) d
      (do a ← check_staff up c g id d; require (up delete_stmt) 500 "delete failed"; ok a)

pub record UpdateReq : Type 0 where
  pub title : Option Str
  pub kind : Option Str
  pub description : Option Str
  pub max_score : Option ℕ
  pub is_published : Option Bool
  pub due_at : Option Str
  pub module_id : Option Str
  pub day_number : Option ℕ
  pub clear_day : Bool
  pub auto_award : Option Bool

abbrev pub trim_some : Option Str → Option Str
trim_some none = none
trim_some (some s) = some (trim_space s)

-- The first UPDATE.
abbrev pub with_details : UpdateReq → AssessmentRow → AssessmentRow
with_details req a = record a {
  title = coalesce (trimmed req.title) a.title;
  kind = coalesce (trimmed req.kind) a.kind;
  description = coalesce (trim_some req.description) a.description;
  max_score = coalesce req.max_score a.max_score;
  is_published = coalesce req.is_published a.is_published;
  auto_award = coalesce req.auto_award a.auto_award;
}

abbrev pub with_due : Option Str → AssessmentRow → AssessmentRow
with_due due a = record a { due_at = due }

abbrev pub in_module : Option Str → AssessmentRow → AssessmentRow
in_module none a = record a { module_id = none }
in_module (some m) a = record a { module_id = some m; day_number = none }

abbrev pub on_day : ℕ → AssessmentRow → AssessmentRow
on_day n a = record a { day_number = some n; module_id = none }

abbrev pub off_day : AssessmentRow → AssessmentRow
off_day a = record a { day_number = none }

unfoldable pub edit : Str → (AssessmentRow → AssessmentRow) → Desk → Desk
unfolding update_where beq
edit id f d = record d { assessments = update_where (λ a. beq a.id id) f d.assessments }

-- The later statements, whose errors are dropped.
abbrev pub edit_if : Bool → Str → (AssessmentRow → AssessmentRow) → Desk → Desk
edit_if true id f d = edit id f d
edit_if false id f d = d

abbrev pub set_due : (DeskStmt → Bool) → (Str → Bool) → Str → Option Str → Desk → Desk
set_due up is_time id none d = d
set_due up is_time id (some s) d =
    let due = unless_blank (trim_space s) in
    edit_if (up write_due && holds_all is_time due) id (with_due due) d

abbrev pub set_module : (DeskStmt → Bool) → Str → Option Str → Desk → Desk
set_module up id none d = d
set_module up id (some s) d =
    let m = unless_blank (trim_space s) in
    edit_if (up write_module && holds_all (has_module d) m) id (in_module m) d

abbrev pub set_day : (DeskStmt → Bool) → Str → Option ℕ → Desk → Desk
set_day up id none d = d
set_day up id (some n) d = edit_if (up write_day) id (on_day n) d

abbrev pub drop_day : (DeskStmt → Bool) → Str → Bool → Desk → Desk
drop_day up id clear d = edit_if (clear && up clear_day) id off_day d

unfoldable pub check_update :
    (DeskStmt → Bool) → Caller → Scope → Str → Option UpdateReq → Desk → Reply UpdateReq
unfolding check_staff trimmed beq
check_update up c g id none d = do a ← check_staff up c g id d; refuse 400 "invalid body"
check_update up c g id (some req) d = do
  a ← check_staff up c g id d
  require (up write_assessment && holds_all is_kind (trimmed req.kind)) 500 "update failed"
  ok req

abbrev pub edits : (DeskStmt → Bool) → (Str → Bool) → Str → UpdateReq → Desk → Desk
edits up is_time id req d = drop_day up id req.clear_day (
    set_day up id req.day_number (
      set_module up id req.module_id
        (set_due up is_time id req.due_at (edit id (with_details req) d))))

unfoldable pub update_assessment :
    (DeskStmt → Bool)
    → (Str → Bool)
    → Caller
    → Scope
    → Str
    → Option UpdateReq
    → Desk
    → Reply UpdateReq × Desk
unfolding check_update edit trimmed beq
update_assessment up is_time c g id req d =
    apply_to (edits up is_time id) d (check_update up c g id req d)
