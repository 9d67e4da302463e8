-- ===== src/Learn/Take.antt =====
-- What a student is shown of an assessment: backend/internal/handlers/lms_student.go
-- (TakeAssessment).
use onrol_infra.Base.{
  ℕ, Bool, true, false, ◌&&◌, Option, none, some, List, [], ◌∷◌, if◌then◌else◌, select, map,
  sort_by, Str, beq, Reply, ok, refuse, ◌>>=◌,
}
use onrol_infra.Live.Tables.{Caller}
use onrol_infra.Learn.Tables.{found}
use onrol_infra.Learn.Scoring.{QuestionRow}
use onrol_infra.Learn.Desk.{
  AssessmentRow, Answers, Submission, SubmissionFile, Desk, DeskStmt, read_previous, read_questions,
  list_files, submission_of, check_available,
}
use onrol_infra.Learn.Submit.{questions_of}

-- A question as TakeAssessment shows it.
pub record TakenQuestion : Type 0 where
  pub id : Str
  pub prompt : Str
  pub kind : Str
  pub options : List Str
  pub points : ℕ
  pub correct : Option Str

pub record Taken : Type 0 where
  pub assessment : AssessmentRow
  pub questions : List TakenQuestion
  pub submission : Option Submission
  pub files : List SubmissionFile

abbrev pub shown : Bool → QuestionRow → TakenQuestion
shown submitted q = record {
  id = q.id;
  prompt = q.prompt;
  kind = q.kind;
  options = q.options;
  points = q.points;
  correct = if submitted then some q.correct else none;
}

-- submitted := len(answersMap) > 0
abbrev pub has_answer : Answers → Bool
has_answer none = false
has_answer (some []) = false
has_answer (some (e ∷ m)) = true

abbrev pub is_submitted : Option Submission → Bool
is_submitted none = false
is_submitted (some s) = has_answer s.answers

abbrev pub taken :
    (DeskStmt → Bool) → Caller → AssessmentRow → Option Submission → Desk → Reply Taken
taken up c a s d =
    if up read_questions
    then ok (record {
      assessment = a;
      questions = map (shown (is_submitted s)) (sort_by (λ q. q.position) (questions_of a.id d));
      submission = s;
      files =
          if up list_files
          then sort_by (λ f. f.created_at)
              (select (λ f. beq f.assessment_id a.id && beq f.user_id c.id) d.files)
          else [];
    })
    else refuse 500 "load failed"

unfoldable pub take_assessment : (DeskStmt → Bool) → Caller → Str → Desk → Reply Taken
unfolding check_available questions_of sort_by beq
take_assessment up c id d = check_available up c id d >>= λ a.
    taken up c a (found (up read_previous) (submission_of a.id c.id d)) d
