-- ===== src/Learn/Desk.antt =====
-- The tables of the assessments, and the gates that their handlers begin with
-- (backend/internal/handlers/lms_assess.go, lms_student.go). Scores are whole and not negative.
use onrol_infra.Base.{
  ℕ, Bool, ◌&&◌, Option, none, some, List, [], ◌∷◌, ◌++◌, leb, find, any, if◌then◌else◌, Str, beq,
  Reply, ok, ◌>>=◌, ◌>>◌, require, Map, update_where,
}
use onrol_infra.Live.Tables.{Caller}
use onrol_infra.Learn.Tables.{School, Scope, can_manage, found}
use onrol_infra.Learn.Enroll.{is_enrolled, found_or}
use onrol_infra.Learn.Scoring.{QuestionRow}

-- assessments
pub record AssessmentRow : Type 0 where
  pub id : Str
  pub course_id : Str
  pub module_id : Option Str
  pub title : Str
  pub kind : Str
  pub description : Str
  pub max_score : ℕ
  pub due_at : Option Str
  pub day_number : Option ℕ
  pub is_published : Bool
  pub auto_award : Bool
  pub created_by : Str

-- The JSON of {question_id: answer}: null, or an object.
abbrev pub Answers : Type 0
Answers = Option (Map Str)

-- submissions
pub record Submission : Type 0 where
  pub id : Str
  pub assessment_id : Str
  pub user_id : Str
  pub answers : Answers
  pub score : Option ℕ
  pub status : Str
  pub feedback : Str
  pub body : Str
  pub link : Str
  pub submitted_at : ℕ
  pub graded_by : Option Str
  pub graded_at : Option ℕ

-- submission_files, without the bytes
pub record SubmissionFile : Type 0 where
  pub id : Str
  pub assessment_id : Str
  pub user_id : Str
  pub filename : Str
  pub mime : Str
  pub size : ℕ
  pub created_at : ℕ

pub record Desk : Type 0 where
  pub school : School
  pub assessments : List AssessmentRow
  pub questions : List QuestionRow
  pub submissions : List Submission
  pub files : List SubmissionFile

pub data DeskStmt : Type 0 where
  read_assessment read_enrolled read_previous read_questions write_submission : DeskStmt
  read_submission write_grade list_files : DeskStmt
  find_upload_question store_file delete_file read_file : DeskStmt
  write_assessment delete_assessment write_due write_module write_day clear_day : DeskStmt
  write_question delete_question read_position : DeskStmt

abbrev pub assessment_of : Str → Desk → Option AssessmentRow
assessment_of id d = find (λ a. beq a.id id) d.assessments

abbrev pub is_mine : Str → Str → Submission → Bool
is_mine assessment user s = beq s.assessment_id assessment && beq s.user_id user

abbrev pub submission_of : Str → Str → Desk → Option Submission
submission_of assessment user d = find (is_mine assessment user) d.submissions

-- The lookup and the gate with which the student's handlers begin.
unfoldable pub check_available : (DeskStmt → Bool) → Caller → Str → Desk → Reply AssessmentRow
unfolding is_enrolled beq
check_available up c id d = do
  a ← found_or "assessment not found" (found (up read_assessment) (assessment_of id d))
  require (a.is_published && is_enrolled (up read_enrolled) a.course_id c.id d.school) 403
      "not available"
  ok a

-- assessmentCourse and canManageCourse
unfoldable pub check_staff : (DeskStmt → Bool) → Caller → Scope → Str → Desk → Reply AssessmentRow
unfolding beq
check_staff up c g id d = do
  a ← found_or "assessment not found" (found (up read_assessment) (assessment_of id d))
  can_manage c g a.course_id d.school
  ok a

-- INSERT … ON CONFLICT (assessment_id, user_id) DO UPDATE
unfoldable pub upsert_submission : (Submission → Submission) → Submission → Desk → Desk
unfolding update_where beq
upsert_submission merge new d =
    if any (is_mine new.assessment_id new.user_id) d.submissions
    then record d {
      submissions = update_where (is_mine new.assessment_id new.user_id) merge d.submissions;
    }
    else record d { submissions = d.submissions ++ new ∷ [] }

-- GREATEST, which passes over NULL.
abbrev pub greatest : Option ℕ → Option ℕ → Option ℕ
greatest none b = b
greatest (some a) none = some a
greatest (some a) (some b) = some (if leb a b then b else a)
