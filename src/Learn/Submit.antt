-- ===== src/Learn/Submit.antt =====
-- Submissions: backend/internal/handlers/lms_student.go (SubmitAssessment).
pub mod Raised
pub mod Awarded
pub mod Kept
pub mod Stored
pub mod Attempts
use onrol_infra.Base.{
  ℕ, Bool, true, false, not, ◌&&◌, ◌||◌, Option, none, some, List, [], ◌∷◌, ◌++◌, if◌then◌else◌,
  find, any, select, map, sort_by, Str, codes, beq, is_empty, trim_space, Reply, ok, fail, refuse,
  ◌>>=◌, ◌>>◌, require, Map, update_where,
}
use onrol_infra.Live.Tables.{Caller}
use onrol_infra.Learn.Tables.{Scope, can_manage, found}
use onrol_infra.Learn.Enroll.{found_or}
use onrol_infra.Learn.Scoring.{QuestionRow, Reader, Tally, grade, percent_of}
use onrol_infra.Learn.Desk.{
  AssessmentRow, Answers, Submission, SubmissionFile, Desk, DeskStmt, read_previous, read_questions,
  write_submission, read_submission, write_grade, list_files, assessment_of, is_mine, submission_of,
  check_available, upsert_submission, greatest,
}

pub record AssignReq : Type 0 where
  pub body : Str
  pub link : Str

-- The body of a request as each of the two parsers of SubmitAssessment reads it.
pub record SubmitReq : Type 0 where
  pub as_assignment : Option AssignReq
  pub as_quiz : Option Answers

pub data SubmitReply : Type 0 where
  assigned : Str → SubmitReply
  quizzed : Str → ℕ → Tally → SubmitReply

abbrev pub graded_text : Str
graded_text = codes "graded"

abbrev pub new_submission : ℕ → Str → Str → Str → Submission
new_submission now id assessment user = record {
  id = id;
  assessment_id = assessment;
  user_id = user;
  answers = some [];
  score = none;
  status = codes "submitted";
  feedback = [];
  body = [];
  link = [];
  submitted_at = now;
  graded_by = none;
  graded_at = none;
}

abbrev pub award_status : AssessmentRow → Str
award_status a = if a.auto_award then graded_text else codes "submitted"

abbrev pub award_score : AssessmentRow → Option ℕ
award_score a = if a.auto_award then some a.max_score else none

abbrev pub assignment_row : ℕ → Str → Str → AssessmentRow → Str → Str → Submission
assignment_row now id user a body link = record (new_submission now id a.id user) {
  body = body;
  link = link;
  status = award_status a;
  score = award_score a;
}

-- CASE WHEN EXCLUDED.status='graded' THEN EXCLUDED.score ELSE submissions.score END
abbrev pub awarded : AssessmentRow → Option ℕ → Option ℕ
awarded a old = if a.auto_award then some a.max_score else old

abbrev pub merge_assignment : ℕ → AssessmentRow → Str → Str → Submission → Submission
merge_assignment now a body link s = record s {
  body = body;
  link = link;
  submitted_at = now;
  status = award_status a;
  score = awarded a s.score;
}

unfoldable pub submit_assignment :
    (DeskStmt → Bool)
    → ℕ
    → Str
    → Caller
    → AssessmentRow
    → Option AssignReq
    → Desk
    → Reply SubmitReply × Desk
unfolding upsert_submission
submit_assignment up now id c a none d = (refuse 400 "invalid body", d)
submit_assignment up now id c a (some req) d =
    let body = trim_space req.body in
    let link = trim_space req.link in
    if is_empty body && is_empty link
    then (refuse 400 "add a response or a link", d)
    else if up write_submission
    then (
      ok (assigned (award_status a)),
      upsert_submission (merge_assignment now a body link) (assignment_row now id c.id a body link)
          d,
    )
    else (refuse 500 "submit failed", d)

-- len(prevAnswers) > 2: the text of the JSON is longer than "{}".
abbrev pub is_long : Answers → Bool
is_long none = true
is_long (some []) = false
is_long (some (e ∷ m)) = true

abbrev pub answered_before : Option Submission → Bool
answered_before none = false
answered_before (some s) = is_long s.answers

abbrev pub quiz_status : Tally → Str
quiz_status g = if g.needs_manual then codes "submitted" else graded_text

abbrev pub quiz_percent : Tally → ℕ
quiz_percent g = percent_of g.auto_score g.total_points

abbrev pub quiz_score : Tally → Option ℕ
quiz_score g = if g.needs_manual then none else some (quiz_percent g)

abbrev pub quiz_row : ℕ → Str → Str → Str → Answers → Tally → Submission
quiz_row now id assessment user answers g = record (new_submission now id assessment user) {
  answers = answers;
  score = quiz_score g;
  status = quiz_status g;
}

abbrev pub merge_quiz : ℕ → Answers → Tally → Submission → Submission
merge_quiz now answers g s = record s {
  answers = answers;
  submitted_at = now;
  score = greatest s.score (quiz_score g);
  status =
      if beq s.status graded_text || beq (quiz_status g) graded_text
      then graded_text
      else quiz_status g;
}

unfoldable pub questions_of : Str → Desk → List QuestionRow
unfolding beq
questions_of id d = select (λ q. beq q.assessment_id id) d.questions

unfoldable pub submit_quiz :
    (DeskStmt → Bool)
    → ℕ
    → Str
    → Reader
    → Caller
    → AssessmentRow
    → Option Answers
    → Desk
    → Reply SubmitReply × Desk
unfolding upsert_submission questions_of grade percent_of beq
submit_quiz up now id r c a body d =
    if answered_before (found (up read_previous) (submission_of a.id c.id d))
    then (refuse 409 "already submitted", d)
    else elim body [
      | none ↦ (refuse 400 "invalid body", d)
      | some answers ↦
          let g = grade r answers (questions_of a.id d) in
          if not (up read_questions)
          then (refuse 500 "grade load failed", d)
          else if up write_submission
          then (
            ok (quizzed (quiz_status g) (quiz_percent g) g),
            upsert_submission (merge_quiz now answers g) (quiz_row now id a.id c.id answers g) d,
          )
          else (refuse 500 "submit failed", d)
    ]

abbrev pub apply_submit :
    (DeskStmt → Bool)
    → ℕ
    → Str
    → Reader
    → Caller
    → SubmitReq
    → Desk
    → Reply AssessmentRow
    → Reply SubmitReply × Desk
apply_submit up now id r c req d (fail e) = (fail e, d)
apply_submit up now id r c req d (ok a) =
    if beq a.kind (codes "assignment")
    then submit_assignment up now id c a req.as_assignment d
    else submit_quiz up now id r c a req.as_quiz d

-- SubmitAssessment; `id` is the id of a row that the statement may insert.
unfoldable pub submit_assessment :
    (DeskStmt → Bool)
    → ℕ
    → Str
    → Reader
    → Caller
    → Str
    → SubmitReq
    → Desk
    → Reply SubmitReply × Desk
unfolding beq check_available submit_assignment submit_quiz
submit_assessment up now id r c assessment req d =
    apply_submit up now id r c req d (check_available up c assessment d)
