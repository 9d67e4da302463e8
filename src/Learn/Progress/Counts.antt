-- ===== src/Learn/Progress/Counts.antt =====
-- A user's progress is never more than the course (lms_student.go).
use onrol_infra.Base.{
  ℕ, ◌+◌, ◌≤◌, ◌≡◌, refl, arith, Bool, true, false, not, ◌&&◌, List, [], ◌∷◌, ltb, if◌then◌else◌,
  any, count, count-any, count-append, Str, beq_iff, Reply, ok, fail, Bool-cases, inl, inr,
}
use onrol_infra.Live.Tables.{Caller}
use onrol_infra.Learn.Tables.{School, LessonRow, Progress}
use onrol_infra.Learn.Enroll.{in_course}
use onrol_infra.Learn.Progress.{
  ProgressStmt, is_progress, has_progress, add_progress, total_lessons, is_done_in, done_lessons,
  complete_enrollment, issue_certificate, when, is_complete, note_lesson, check_lesson,
  apply_lesson, complete_lesson, percent_done,
}

-- No lesson is noted twice for a user: the primary key of lesson_progress.
abbrev pub IsOnce : List Progress → Type 0
IsOnce ps = (user lesson : Str) → count (is_progress user lesson) ps ≤ 1

module _ (course user : Str) (s : School) where
  done-split :
      (l : LessonRow) (ls : List LessonRow) (ps : List Progress)
      → count (is_done_in course s (l ∷ ls) user) ps
        ≤ (if in_course course s l then count (is_progress user l.id) ps else 0)
          + count (is_done_in course s ls user) ps
  done-split l ls [] = ground arith
  done-split l ls (p ∷ ps) =
      ground (arith, beq_iff l.id p.lesson_id, beq_iff p.lesson_id l.id, done-split l ls ps)

  done-le :
      (ls : List LessonRow) (ps : List Progress)
      → IsOnce ps
      → count (is_done_in course s ls user) ps ≤ count (in_course course s) ls
  done-le [] [] h = omega arith
  done-le [] (p ∷ ps) h = ground (arith, nothing ps)
    where
      nothing : (qs : List Progress) → count (is_done_in course s [] user) qs ≡ 0
      nothing [] = refl
      nothing (q ∷ qs) = ground (arith, nothing qs)
  done-le (l ∷ ls) ps h = ground (arith, h user l.id, done-split l ls ps, done-le ls ps h)

  -- Where the counts agree every lesson of the course is noted.
  done_all :
      (ls : List LessonRow) (ps : List Progress)
      → IsOnce ps
      → count (in_course course s) ls ≤ count (is_done_in course s ls user) ps
      → any (λ l. in_course course s l && not (any (is_progress user l.id) ps)) ls ≡ false
  done_all [] ps h e = refl
  done_all (l ∷ ls) ps h e = ground (
    arith,
    h user l.id,
    done-split l ls ps,
    done-le ls ps h,
    done_all ls ps h,
    count-any (is_progress user l.id) ps,
  )

  pub done-le-total : IsOnce s.progress → done_lessons course user s ≤ total_lessons course s
  unfolding done_lessons total_lessons
  done-le-total h = done-le s.lessons s.progress h

  -- The lessons of a course that a user has not noted.
  pub complete_all :
      IsOnce s.progress
      → (up : Bool) → is_complete up course user s ≡ true
      → any (λ l. in_course course s l && not (has_progress user l.id s)) s.lessons ≡ false
  unfolding is_complete done_lessons total_lessons
  complete_all h up e = done_all s.lessons s.progress h (ground arith)

add_progress-IsOnce :
    (now : ℕ) (u l : Str) (s : School)
    → IsOnce s.progress
    → IsOnce (add_progress now u l s).progress
unfolding add_progress
add_progress-IsOnce now u l s h user lesson = elim (Bool-cases (has_progress u l s)) [
  | inl e ↦ rw e (h user lesson)
  | inr e ↦ rw e (
      ground (
        arith,
        h user lesson,
        count-append (is_progress user lesson) s.progress
            (record { user_id = u; lesson_id = l; completed_at = now } ∷ []),
        beq_iff u user,
        beq_iff l lesson,
        count-any (is_progress u l) s.progress,
      ))
]

pub when_progress-IsOnce :
    (b : Bool) (now : ℕ) (u l : Str) (s : School)
    → IsOnce s.progress
    → IsOnce (when b (add_progress now u l) s).progress
when_progress-IsOnce true now u l s h = add_progress-IsOnce now u l s h
when_progress-IsOnce false now u l s h = h

-- The rows of progress that a note leaves are those behind its first statement.
pub note_lesson-progress :
    (up : ProgressStmt → Bool) (now : ℕ) (serial : Str) (c : Caller) (lesson course : Str)
    (s : School)
    → (note_lesson up now serial c lesson course s).1.progress
      ≡ (when (up ProgressStmt.insert_progress) (add_progress now c.id lesson) s).progress
unfolding note_lesson complete_enrollment issue_certificate
note_lesson-progress up now serial c lesson course s = ground arith

pub record LessonCall : Type 0 where
  pub up : ProgressStmt → Bool
  pub now : ℕ
  pub serial : Str
  pub caller : Caller
  pub lesson : Str

abbrev pub serve : LessonCall → School → School
serve r s = (complete_lesson r.up r.now r.serial r.caller r.lesson s).1

abbrev pub serve_all : List LessonCall → School → School
serve_all [] s = s
serve_all (r ∷ rs) s = serve_all rs (serve r s)

apply_lesson-IsOnce :
    (up : ProgressStmt → Bool) (now : ℕ) (serial : Str) (c : Caller) (lesson : Str) (s : School)
    (r : Reply Str)
    → IsOnce s.progress
    → IsOnce (apply_lesson up now serial c lesson s r).1.progress
apply_lesson-IsOnce up now serial c lesson s (fail e) h = h
apply_lesson-IsOnce up now serial c lesson s (ok course) h =
    rw (note_lesson-progress up now serial c lesson course s)
      (when_progress-IsOnce (up ProgressStmt.insert_progress) now c.id lesson s h)

serve_all-IsOnce :
    (rs : List LessonCall) (s : School) → IsOnce s.progress → IsOnce (serve_all rs s).progress
unfolding complete_lesson
serve_all-IsOnce [] s h = h
serve_all-IsOnce (r ∷ rs) s h = serve_all-IsOnce rs (serve r s) (
    apply_lesson-IsOnce r.up r.now r.serial r.caller r.lesson s
      (check_lesson r.up r.caller r.lesson s) h)

percent-le : (total done : ℕ) → done ≤ total → percent_done total done ≤ 100
unfolding percent_done
percent-le total done h = elim (Bool-cases (ltb 0 total)) [
  | inl e ↦ rw e (grind arith)
  | inr e ↦ rw e (omega arith)
]

-- From a table that notes no lesson twice for a user, over any history of completed lessons with
-- whichever statements failing, the percentage of any user in any course is at most 100.
pub percent_bounded :
    (rs : List LessonCall) (s : School) (course user : Str)
    → IsOnce s.progress
    → let t = serve_all rs s in
      percent_done (total_lessons course t) (done_lessons course user t) ≤ 100
percent_bounded rs s course user h =
    let t = serve_all rs s in
    percent-le (total_lessons course t) (done_lessons course user t)
      (done-le-total course user t (serve_all-IsOnce rs s h))
