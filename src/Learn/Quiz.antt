-- ===== src/Learn/Quiz.antt =====
-- The questions of a quiz: backend/internal/handlers/lms_assess.go (AddQuestion, DeleteQuestion,
-- ListQuestions) and lms_edit.go (UpdateQuestion). Positions are whole and not negative.
pub mod Points
use onrol_infra.Base.{
  ℕ, ◌+◌, Bool, true, false, not, ◌&&◌, Option, none, some, List, [], ◌∷◌, ◌++◌, leb, ◌==◌,
  if◌then◌else◌, coalesce, find, any, select, sort_by, Str, codes, beq, is_empty, trim_space, Reply,
  ok, fail, refuse, ◌>>=◌, ◌>>◌, require, update_where, delete_where, max,
}
use onrol_infra.Live.Tables.{Caller}
use onrol_infra.Learn.Tables.{Scope, can_manage, found}
use onrol_infra.Learn.Enroll.{found_or}
use onrol_infra.Learn.Scoring.{QuestionRow}
use onrol_infra.Learn.Desk.{
  AssessmentRow, Desk, DeskStmt, read_questions, write_question, delete_question as delete_stmt,
  read_position, assessment_of, check_staff,
}
use onrol_infra.Learn.Submit.{questions_of}
use onrol_infra.Learn.Questions.{is_question_kind, or_default, holds_all, trimmed, apply_to}

pub record QuestionReq : Type 0 where
  pub prompt : Str
  pub kind : Str
  pub options : List Str
  pub correct : Str
  pub position : ℕ

-- COALESCE(MAX(position), 0)
abbrev pub max_position : List QuestionRow → ℕ
max_position [] = 0
max_position (q ∷ qs) = max q.position (max_position qs)

unfoldable pub place_of : (DeskStmt → Bool) → Str → QuestionReq → Desk → ℕ
unfolding questions_of
place_of up assessment req d =
    if req.position == 0
    then (if up read_position then max_position (questions_of assessment d) else 0) + 1
    else req.position

abbrev pub new_question : Str → Str → ℕ → QuestionReq → QuestionRow
new_question id assessment position req = record {
  id = id;
  assessment_id = assessment;
  prompt = req.prompt;
  kind = or_default (codes "mcq") req.kind;
  options = req.options;
  correct = req.correct;
  points = 1;
  position = position;
}

unfoldable pub check_add :
    (DeskStmt → Bool) → Str → Caller → Scope → Str → Option QuestionReq → Desk → Reply QuestionRow
unfolding check_staff place_of beq
check_add up id c g assessment none d = do
  a ← check_staff up c g assessment d
  refuse 400 "prompt required"
check_add up id c g assessment (some req) d = do
  a ← check_staff up c g assessment d
  require (not (is_empty (trim_space req.prompt))) 400 "prompt required"
  let q = new_question id assessment (place_of up assessment req d) req
  require (up write_question && is_question_kind q.kind) 500 "create failed"
  ok q

abbrev pub insert_question : QuestionRow → Desk → Desk
insert_question q d = record d { questions = d.questions ++ q ∷ [] }

unfoldable pub add_question :
    (DeskStmt → Bool)
    → Str
    → Caller
    → Scope
    → Str
    → Option QuestionReq
    → Desk
    → Reply QuestionRow × Desk
unfolding check_add
add_question up id c g assessment req d =
    apply_to insert_question d (check_add up id c g assessment req d)

abbrev pub course_of_assessment : Option AssessmentRow → Reply Str
course_of_assessment none = refuse 404 "question not found"
course_of_assessment (some a) = ok a.course_id

abbrev pub course_of_question : Option QuestionRow → Desk → Reply Str
course_of_question none d = refuse 404 "question not found"
course_of_question (some q) d = course_of_assessment (assessment_of q.assessment_id d)

-- The lookup and the gate of DeleteQuestion and UpdateQuestion.
unfoldable pub check_question : (DeskStmt → Bool) → Caller → Scope → Str → Desk → Reply (Unit {0})
unfolding beq
check_question up c g id d = do
  course ← course_of_question (found (up read_questions) (find (λ q. beq q.id id) d.questions)) d
  can_manage c g course d.school

unfoldable pub remove_question : Str → Desk → Desk
unfolding delete_where beq
remove_question id d = record d { questions = delete_where (λ q. beq q.id id) d.questions }

unfoldable pub delete_question :
    (DeskStmt → Bool) → Caller → Scope → Str → Desk → Reply (Unit {0}) × Desk
unfolding check_question remove_question
delete_question up c g id d =
    apply_to (λ u. remove_question id) d
      (do check_question up c g id d; require (up delete_stmt) 500 "delete failed")

pub record QuestionEdit : Type 0 where
  pub prompt : Option Str
  pub kind : Option Str
  pub options : Option (List Str)
  pub correct : Option Str
  pub points : Option ℕ
  pub position : Option ℕ

-- The points of the body are overwritten by one.
abbrev pub edited : QuestionEdit → QuestionRow → QuestionRow
edited req q = record q {
  prompt = coalesce (trimmed req.prompt) q.prompt;
  kind = coalesce (trimmed req.kind) q.kind;
  options = coalesce req.options q.options;
  correct = coalesce req.correct q.correct;
  points = 1;
  position = coalesce req.position q.position;
}

unfoldable pub edit_question : Str → QuestionEdit → Desk → Desk
unfolding update_where trimmed beq
edit_question id req d = record d {
  questions = update_where (λ q. beq q.id id) (edited req) d.questions;
}

unfoldable pub check_edit :
    (DeskStmt → Bool) → Caller → Scope → Str → Option QuestionEdit → Desk → Reply QuestionEdit
unfolding check_question trimmed beq
check_edit up c g id none d = do check_question up c g id d; refuse 400 "invalid body"
check_edit up c g id (some req) d = do
  check_question up c g id d
  require (up write_question && holds_all is_question_kind (trimmed req.kind)) 500 "update failed"
  ok req

unfoldable pub update_question :
    (DeskStmt → Bool)
    → Caller
    → Scope
    → Str
    → Option QuestionEdit
    → Desk
    → Reply QuestionEdit × Desk
unfolding check_edit edit_question
update_question up c g id req d = apply_to (edit_question id) d (check_edit up c g id req d)

-- ListQuestions up to the order of questions at one position.
unfoldable pub list_questions :
    (DeskStmt → Bool) → Caller → Scope → Str → Desk → Reply (List QuestionRow)
unfolding check_staff questions_of sort_by
list_questions up c g assessment d = do
  a ← check_staff up c g assessment d
  require (up read_questions) 500 "list failed"
  ok (sort_by (λ q. q.position) (questions_of assessment d))
