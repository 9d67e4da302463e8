-- ===== src/Learn/Files.antt =====
-- Files of a submission: backend/internal/handlers/lms_assign_files.go. Of a file the number of its
-- bytes is kept; `reads` is how many io.ReadAll gives without the limit, none where it fails.
pub mod Guarded
use onrol_infra.Base.{
  ℕ, ◌+◌, ◌*◌, Bool, true, false, not, ◌&&◌, ◌||◌, Option, none, some, List, [], ◌∷◌, ◌++◌, leb,
  ◌==◌, min, if◌then◌else◌, find, any, select, sort_by, Str, codes, beq, is_empty, trim_space,
  Reply, ok, fail, refuse, ◌>>=◌, ◌>>◌, require, delete_where,
}
use onrol_infra.Live.Tables.{Caller, is_ok}
use onrol_infra.Learn.Tables.{Scope, can_manage, found}
use onrol_infra.Learn.Enroll.{found_or}
use onrol_infra.Learn.Scoring.{QuestionRow}
use onrol_infra.Learn.Desk.{
  AssessmentRow, Submission, SubmissionFile, Desk, DeskStmt, find_upload_question, store_file,
  delete_file as delete_stmt, read_file, list_files as list_stmt, write_submission, assessment_of,
  check_available, upsert_submission,
}
use onrol_infra.Learn.Submit.{new_submission, award_status, award_score, awarded, questions_of}

abbrev pub max_submission_file : ℕ
max_submission_file = 25 * 1_048_576

abbrev pub breaks_header : ℕ → Bool
breaks_header b = b == b'"' || b == 13 || b == 10 || b == 92

unfoldable pub sanitize_filename : Str → Str
unfolding trim_space
sanitize_filename s =
    let t = trim_space (select (λ b. not (breaks_header b)) s) in
    if is_empty t then codes "file" else t

pub record Upload : Type 0 where
  pub size : ℕ
  pub opens : Bool
  pub reads : Option ℕ
  pub filename : Str
  pub mime : Str

abbrev pub takes_files : (DeskStmt → Bool) → AssessmentRow → Desk → Bool
takes_files up a d =
    beq a.kind (codes "assignment")
    || (up find_upload_question && any (λ q. beq q.kind (codes "upload")) (questions_of a.id d))

abbrev pub or_no_file : Option Upload → Reply Upload
or_no_file none = refuse 400 "no file"
or_no_file (some f) = ok f

-- len(data) of what io.LimitReader lets through
abbrev pub data_of : Option ℕ → Reply ℕ
data_of none = refuse 400 "empty file"
data_of (some n) = if n == 0 then refuse 400 "empty file" else ok (min n (max_submission_file + 1))

abbrev pub new_file : ℕ → Str → Str → Caller → Upload → ℕ → SubmissionFile
new_file now id assessment c f n = record {
  id = id;
  assessment_id = assessment;
  user_id = c.id;
  filename = sanitize_filename f.filename;
  mime = f.mime;
  size = n;
  created_at = now;
}

unfoldable pub check_upload :
    (DeskStmt → Bool)
    → ℕ
    → Str
    → Caller
    → Str
    → Option Upload
    → Desk
    → Reply (AssessmentRow × SubmissionFile)
unfolding check_available questions_of sanitize_filename beq
check_upload up now id c assessment file d = do
  a ← check_available up c assessment d
  require (takes_files up a d) 400 "file upload not enabled"
  f ← or_no_file file
  require (leb f.size max_submission_file) 413 "file too large (max 25 MB)"
  require f.opens 500 "read failed"
  n ← data_of f.reads
  require (up store_file) 500 "store failed"
  ok (a, new_file now id a.id c f n)

abbrev pub file_row : ℕ → Str → Str → AssessmentRow → Submission
file_row now id user a = record (new_submission now id a.id user) {
  status = award_status a;
  score = award_score a;
}

abbrev pub merge_file : ℕ → AssessmentRow → Submission → Submission
merge_file now a s = record s {
  submitted_at = now;
  status = award_status a;
  score = awarded a s.score;
}

abbrev pub insert_file : SubmissionFile → Desk → Desk
insert_file f d = record d { files = d.files ++ f ∷ [] }

-- A file counts as a submission. It stays where that statement fails.
unfoldable pub count_file :
    (DeskStmt → Bool)
    → ℕ
    → Str
    → Caller
    → Desk
    → Reply (AssessmentRow × SubmissionFile)
    → Reply SubmissionFile × Desk
unfolding upsert_submission
count_file up now sub c d (fail e) = (fail e, d)
count_file up now sub c d (ok (a, f)) =
    let stored = insert_file f d in
    if up write_submission
    then (ok f, upsert_submission (merge_file now a) (file_row now sub c.id a) stored)
    else (refuse 500 "submit failed", stored)

-- UploadSubmissionFile; `id` and `sub` are the ids of the rows that may be inserted.
unfoldable pub upload_file :
    (DeskStmt → Bool)
    → ℕ
    → Str
    → Str
    → Caller
    → Str
    → Option Upload
    → Desk
    → Reply SubmissionFile × Desk
unfolding check_upload count_file
upload_file up now id sub c assessment file d =
    count_file up now sub c d (check_upload up now id c assessment file d)

-- ListMySubmissionFiles
unfoldable pub list_my_files : (DeskStmt → Bool) → Caller → Str → Desk → Reply (List SubmissionFile)
unfolding sort_by beq
list_my_files up c assessment d =
    if up list_stmt
    then ok (
        sort_by (λ f. f.created_at)
          (select (λ f. beq f.assessment_id assessment && beq f.user_id c.id) d.files))
    else refuse 500 "load failed"

abbrev pub is_own : Caller → Str → SubmissionFile → Bool
is_own c id f = beq f.id id && beq f.user_id c.id

-- DeleteSubmissionFile
unfoldable pub delete_own_file : (DeskStmt → Bool) → Caller → Str → Desk → Reply (Unit {0}) × Desk
unfolding delete_where beq
delete_own_file up c id d =
    if not (up delete_stmt)
    then (refuse 500 "delete failed", d)
    else if any (is_own c id) d.files
    then (ok tt, record d { files = delete_where (is_own c id) d.files })
    else (refuse 404 "file not found", d)

pub record Download : Type 0 where
  pub content_type : Str
  pub filename : Str
  pub file : SubmissionFile

-- SELECT … FROM submission_files sf JOIN assessments a ON a.id=sf.assessment_id WHERE sf.id=$1
abbrev pub with_course : SubmissionFile → Option AssessmentRow → Option (SubmissionFile × Str)
with_course f none = none
with_course f (some a) = some (f, a.course_id)

abbrev pub file_of : Option SubmissionFile → Desk → Option (SubmissionFile × Str)
file_of none d = none
file_of (some f) d = with_course f (assessment_of f.assessment_id d)

abbrev pub may_download : Caller → Scope → SubmissionFile → Str → Desk → Bool
may_download c g f course d = beq c.id f.user_id || is_ok (can_manage c g course d.school)

abbrev pub sent : SubmissionFile → Download
sent f = record {
  content_type = if is_empty f.mime then codes "application/octet-stream" else f.mime;
  filename = sanitize_filename f.filename;
  file = f;
}

-- DownloadSubmissionFile
unfoldable pub download_file : (DeskStmt → Bool) → Caller → Scope → Str → Desk → Reply Download
unfolding sanitize_filename beq
download_file up c g id d = do
  row ←
      found_or "file not found" (found (up read_file) (file_of (find (λ f. beq f.id id) d.files) d))
  require (may_download c g row.0 row.1 d) 403 "not allowed"
  ok (sent row.0)
