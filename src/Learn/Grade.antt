-- ===== src/Learn/Grade.antt =====
-- Grades given by hand: backend/internal/handlers/lms_assess.go (GradeSubmission).
use onrol_infra.Base.{
  ℕ, Bool, Option, none, some, find, Str, beq, Reply, ok, fail, refuse, ◌>>=◌, ◌>>◌, require,
  update_where,
}
use onrol_infra.Live.Tables.{Caller}
use onrol_infra.Learn.Tables.{Scope, can_manage, found}
use onrol_infra.Learn.Desk.{
  AssessmentRow, Submission, Desk, DeskStmt, read_submission, write_grade, assessment_of,
}
use onrol_infra.Learn.Submit.{graded_text}

pub record GradeReq : Type 0 where
  pub score : ℕ
  pub feedback : Str

abbrev pub course_of_assessment : Option AssessmentRow → Reply Str
course_of_assessment none = refuse 404 "submission not found"
course_of_assessment (some a) = ok a.course_id

abbrev pub course_of_submission : Option Submission → Desk → Reply Str
course_of_submission none d = refuse 404 "submission not found"
course_of_submission (some s) d = course_of_assessment (assessment_of s.assessment_id d)

abbrev pub or_invalid {ℓ} : {A : Type ℓ} → Option A → Reply A
or_invalid none = refuse 400 "invalid body"
or_invalid (some a) = ok a

unfoldable pub check_grade :
    (DeskStmt → Bool) → Caller → Scope → Str → Option GradeReq → Desk → Reply GradeReq
unfolding beq
check_grade up c g id body d = do
  course ←
      course_of_submission (found (up read_submission) (find (λ s. beq s.id id) d.submissions)) d
  can_manage c g course d.school
  req ← or_invalid body
  require (up write_grade) 500 "grade failed"
  ok req

abbrev pub graded : ℕ → Caller → GradeReq → Submission → Submission
graded now c req s = record s {
  score = some req.score;
  feedback = req.feedback;
  status = graded_text;
  graded_by = some c.id;
  graded_at = some now;
}

unfoldable pub write_grade_row : ℕ → Caller → Str → GradeReq → Desk → Desk
unfolding update_where beq
write_grade_row now c id req d = record d {
  submissions = update_where (λ s. beq s.id id) (graded now c req) d.submissions;
}

abbrev pub apply_grade : ℕ → Caller → Str → Desk → Reply GradeReq → Reply ℕ × Desk
apply_grade now c id d (fail e) = (fail e, d)
apply_grade now c id d (ok req) = (ok req.score, write_grade_row now c id req d)

unfoldable pub grade_submission :
    (DeskStmt → Bool) → ℕ → Caller → Scope → Str → Option GradeReq → Desk → Reply ℕ × Desk
unfolding check_grade write_grade_row
grade_submission up now c g id body d = apply_grade now c id d (check_grade up c g id body d)
