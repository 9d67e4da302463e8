-- ===== src/Learn/Progress.antt =====
-- Lesson progress and certificates: backend/internal/handlers/lms_student.go (CompleteLesson,
-- issueCertificate, and MyCourses without its grade and picture).
pub mod Counts
pub mod Earned
use onrol_infra.Base.{
  ℕ, ◌*◌, ◌/◌, ◌≡◌, Bool, true, false, not, ◌&&◌, ◌||◌, Option, none, some, List, [], ◌∷◌, ◌++◌,
  ltb, leb, if◌then◌else◌, find, any, count, select, map, Str, codes, beq, Reply, ok, fail, refuse,
  ◌>>=◌, ◌>>◌, require, update_where,
}
use onrol_infra.Live.Tables.{Caller}
use onrol_infra.Learn.Tables.{
  School, Scope, ModuleRow, LessonRow, Enrollment, Progress, Certificate, CourseRow, can_manage,
  course_row_of, found,
}
use onrol_infra.Learn.Enroll.{is_enrolled, is_pair, in_course, found_or}

pub data ProgressStmt : Type 0 where
  read_lesson read_enrolled insert_progress count_lessons update_enrollment : ProgressStmt
  insert_certificate : ProgressStmt

-- SELECT m.course_id FROM lessons l JOIN modules m ON m.id=l.module_id WHERE l.id=$1
abbrev pub course_of_module : Option ModuleRow → Option Str
course_of_module none = none
course_of_module (some m) = some m.course_id

abbrev pub course_of_lesson : Option LessonRow → School → Option Str
course_of_lesson none s = none
course_of_lesson (some l) s = course_of_module (find (λ m. beq m.id l.module_id) s.modules)

unfoldable pub lesson_course : Str → School → Option Str
unfolding beq
lesson_course id s = course_of_lesson (find (λ l. beq l.id id) s.lessons) s

abbrev pub is_progress : Str → Str → Progress → Bool
is_progress user lesson p = beq p.user_id user && beq p.lesson_id lesson

abbrev pub has_progress : Str → Str → School → Bool
has_progress user lesson s = any (is_progress user lesson) s.progress

-- INSERT … ON CONFLICT DO NOTHING
unfoldable pub add_progress : ℕ → Str → Str → School → School
unfolding beq
add_progress now user lesson s = if has_progress user lesson s then s else record s {
  progress = s.progress ++ record { user_id = user; lesson_id = lesson; completed_at = now } ∷ [];
}

-- The number of a course's lessons, and of those among a user's progress.
unfoldable pub total_lessons : Str → School → ℕ
unfolding beq
total_lessons course s = count (in_course course s) s.lessons

abbrev pub is_done_in : Str → School → List LessonRow → Str → Progress → Bool
is_done_in course s ls user p =
    beq p.user_id user && any (λ l. beq l.id p.lesson_id && in_course course s l) ls

unfoldable pub done_lessons : Str → Str → School → ℕ
unfolding beq
done_lessons course user s = count (is_done_in course s s.lessons user) s.progress

abbrev pub is_open_pair : Str → Str → Enrollment → Bool
is_open_pair course user e = is_pair course user e && not (beq e.status (codes "completed"))

unfoldable pub complete_enrollment : ℕ → Str → Str → School → School
unfolding beq update_where
complete_enrollment now course user s = record s {
  enrollments =
      update_where (is_open_pair course user)
        (λ e. record e { status = codes "completed"; completed_at = some now }) s.enrollments;
}

abbrev pub is_certificate : Str → Str → Certificate → Bool
is_certificate user course k = beq k.user_id user && beq k.course_id course

abbrev pub certified : Str → Str → School → Bool
certified user course s = any (is_certificate user course) s.certificates

-- issueCertificate: one for each user and course; a serial that exists makes the statement fail.
unfoldable pub issue_certificate : Bool → ℕ → Str → Str → Str → School → School
unfolding beq
issue_certificate up now serial course user s =
    if up && not (certified user course s) && not (any (λ k. beq k.serial serial) s.certificates)
    then record s {
      certificates =
          s.certificates
          ++ record { user_id = user; course_id = course; serial = serial; issued_at = now } ∷ [];
    }
    else s

abbrev pub when : Bool → (School → School) → School → School
when true f s = f s
when false f s = s

abbrev pub both_counts : Bool → ℕ → ℕ → Bool
both_counts up total done = up && ltb 0 total && leb total done

-- Whether the course is complete; both counts stay 0 where the query fails.
unfoldable pub is_complete : Bool → Str → Str → School → Bool
unfolding total_lessons done_lessons
is_complete up course user s = both_counts up (total_lessons course s) (done_lessons course user s)

unfoldable pub check_lesson : (ProgressStmt → Bool) → Caller → Str → School → Reply Str
unfolding lesson_course is_enrolled
check_lesson up c lesson s = do
  course ← found_or "lesson not found" (found (up read_lesson) (lesson_course lesson s))
  require (is_enrolled (up read_enrolled) course c.id s) 403 "not enrolled"
  ok course

-- The rest of CompleteLesson. The errors of all statements here are dropped.
unfoldable pub note_lesson :
    (ProgressStmt → Bool) → ℕ → Str → Caller → Str → Str → School → Bool × School
unfolding add_progress is_complete complete_enrollment issue_certificate
note_lesson up now serial c lesson course s =
    let s1 = when (up insert_progress) (add_progress now c.id lesson) s in
    if is_complete (up count_lessons) course c.id s1
    then (
      true,
      issue_certificate (up insert_certificate) now serial course c.id
          (when (up update_enrollment) (complete_enrollment now course c.id) s1),
    )
    else (false, s1)

abbrev pub apply_lesson :
    (ProgressStmt → Bool) → ℕ → Str → Caller → Str → School → Reply Str → Reply Bool × School
apply_lesson up now serial c lesson s (fail e) = (fail e, s)
apply_lesson up now serial c lesson s (ok course) =
    let (complete, s') = note_lesson up now serial c lesson course s in (ok complete, s')

-- CompleteLesson; the answer tells whether the course is complete.
unfoldable pub complete_lesson :
    (ProgressStmt → Bool) → ℕ → Str → Caller → Str → School → Reply Bool × School
unfolding check_lesson note_lesson
complete_lesson up now serial c lesson s =
    apply_lesson up now serial c lesson s (check_lesson up c lesson s)

-- pct := 0; if total > 0 { pct = done * 100 / total }
unfoldable pub percent_done : ℕ → ℕ → ℕ
percent_done total done = if ltb 0 total then done * 100 / total else 0

pub record MyCourse : Type 0 where
  pub id : Str
  pub title : Str
  pub status : Str
  pub percent : ℕ
  pub lessons_done : ℕ
  pub lessons_total : ℕ

abbrev pub my_course : Str → School → Enrollment → Option CourseRow → List MyCourse
my_course user s e none = []
my_course user s e (some k) =
    record {
      id = k.id;
      title = k.title;
      status = e.status;
      percent = percent_done (total_lessons k.id s) (done_lessons k.id user s);
      lessons_done = done_lessons k.id user s;
      lessons_total = total_lessons k.id s;
    }
    ∷ []

unfoldable pub my_courses_of : Str → School → List Enrollment → List MyCourse
unfolding total_lessons done_lessons percent_done
my_courses_of user s [] = []
my_courses_of user s (e ∷ es) =
    my_course user s e (course_row_of e.course_id s) ++ my_courses_of user s es

-- MyCourses, in the order of the table and without the grade.
unfoldable pub my_courses : Bool → Caller → School → Reply (List MyCourse)
unfolding my_courses_of beq
my_courses up c s =
    if up
    then ok (my_courses_of c.id s (select (λ e. beq e.user_id c.id) s.enrollments))
    else refuse 500 "list failed"
