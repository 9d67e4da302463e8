-- ===== src/Learn/Progress/Earned.antt =====
-- What the completion of a course and its certificate rest on (lms_student.go).
use onrol_infra.Base.{
  ℕ, ◌≡◌, refl, sym, ap, ◌∙◌, arith, Bool, true, false, not, ◌&&◌, List, [], ◌∷◌, ◌++◌, any, Str,
  codes, beq, beq_refl, Reply, ok, fail, Bool-cases, inl, inr, update_where, some,
}
use onrol_infra.Live.Tables.{Caller}
use onrol_infra.Learn.Tables.{School, Enrollment}
use onrol_infra.Learn.Enroll.{in_course, is_enrolled, enrolled}
use onrol_infra.Learn.Progress.{
  ProgressStmt, has_progress, add_progress, complete_enrollment, issue_certificate, when,
  is_complete, note_lesson, check_lesson, apply_lesson, complete_lesson, certified, lesson_course,
  is_certificate, is_open_pair,
}
use onrol_infra.Learn.Progress.Counts.{IsOnce, complete_all, when_progress-IsOnce}

-- Every lesson of the course is among the user's progress.
abbrev pub all_done : Str → Str → School → Bool
all_done course user s =
    not (any (λ l. in_course course s l && not (has_progress user l.id s)) s.lessons)

-- The modules and lessons that a note leaves are those that it found.
note_lesson-frame :
    (up : ProgressStmt → Bool) (now : ℕ) (serial : Str) (c : Caller) (lesson course : Str)
    (s : School)
    → let t = (note_lesson up now serial c lesson course s).1 in
      let s1 = when (up ProgressStmt.insert_progress) (add_progress now c.id lesson) s in
      all_done course c.id t ≡ all_done course c.id s1
unfolding note_lesson complete_enrollment issue_certificate
note_lesson-frame up now serial c lesson course s = ground arith

none_open :
    (now : ℕ) (course user : Str) (s : School)
    → any (is_open_pair course user) (complete_enrollment now course user s).enrollments ≡ false
unfolding complete_enrollment update_where beq
none_open now course user s = go s.enrollments
  where
    go :
        (es : List Enrollment)
        → any (is_open_pair course user) (
            update_where
              (is_open_pair course user)
              (λ e. record e { status = codes "completed"; completed_at = some now })
              es)
          ≡ false
    go [] = refl
    go (e ∷ es) = elim (Bool-cases (is_open_pair course user e)) [
      | inl y ↦ rw y (ground (arith, go es))
      | inr n ↦ rw (n, n) (go es)
    ]

any-append {ℓ} :
    {A : Type ℓ} (p : A → Bool) (xs : List A) (y : A) → p y ≡ true → any p (xs ++ y ∷ []) ≡ true
any-append p [] y h = ground arith
any-append p (x ∷ xs) y h = ground (arith, any-append p xs y h)

certified-issue :
    (now : ℕ) (serial course user : Str) (s : School)
    → any (λ k. beq k.serial serial) s.certificates ≡ false
    → certified user course (issue_certificate true now serial course user s) ≡ true
unfolding issue_certificate
certified-issue now serial course user s fresh = elim (Bool-cases (certified user course s)) [
  | inl e ↦ rw e e
  | inr e ↦
      rw (e, fresh)
        (any-append (is_certificate user course) s.certificates _
          (rw (beq_refl user) (beq_refl course)))
]

issue-enrollments :
    (up : Bool) (now : ℕ) (serial course user : Str) (s : School)
    → (issue_certificate up now serial course user s).enrollments ≡ s.enrollments
unfolding issue_certificate
issue-enrollments up now serial course user s = ground arith

-- The states that CompleteLesson goes through.
abbrev noted : (ProgressStmt → Bool) → ℕ → Caller → Str → School → School
noted up now c lesson s = when (up ProgressStmt.insert_progress) (add_progress now c.id lesson) s

abbrev marked : (ProgressStmt → Bool) → ℕ → Caller → Str → School → School
marked up now c course s =
    when (up ProgressStmt.update_enrollment) (complete_enrollment now course c.id) s

note_true :
    (up : ProgressStmt → Bool) (now : ℕ) (serial : Str) (c : Caller) (lesson course : Str)
    (s s' : School)
    → note_lesson up now serial c lesson course s ≡ (true, s')
    → (is_complete (up ProgressStmt.count_lessons) course c.id (noted up now c lesson s) ≡ true)
      × (s'
          ≡ issue_certificate
              (up ProgressStmt.insert_certificate)
              now
              serial
              course
              c.id
              (marked up now c course (noted up now c lesson s)))
unfolding note_lesson
note_true up now serial c lesson course s s' h = (ground arith, ground arith)

note_false :
    (up : ProgressStmt → Bool) (now : ℕ) (serial : Str) (c : Caller) (lesson course : Str)
    (s s' : School)
    → note_lesson up now serial c lesson course s ≡ (false, s')
    → s' ≡ noted up now c lesson s
unfolding note_lesson
note_false up now serial c lesson course s s' h = ground arith

-- What a completed course has shown and what it leaves.
pub record Earned (up : ProgressStmt → Bool) (serial : Str) (c : Caller) (lesson : Str)
    (s s' : School) : Type 0 where
  pub course : Str
  pub is_course : lesson_course lesson s ≡ some course
  pub was_enrolled : enrolled course c.id s ≡ true
  pub all_lessons : all_done course c.id s' ≡ true
  pub is_marked :
      up ProgressStmt.update_enrollment ≡ true
      → any (is_open_pair course c.id) s'.enrollments ≡ false
  pub is_certified :
      up ProgressStmt.insert_certificate ≡ true
      → any (λ k. beq k.serial serial) s.certificates ≡ false
      → certified c.id course s' ≡ true

check_lesson_lem :
    (up : ProgressStmt → Bool) (c : Caller) (lesson course : Str) (s : School)
    → check_lesson up c lesson s ≡ ok course
    → (lesson_course lesson s ≡ some course) × (enrolled course c.id s ≡ true)
unfolding check_lesson is_enrolled
check_lesson_lem up c lesson course s h = (ground arith, ground arith)

noted-certificates :
    (up : ProgressStmt → Bool) (now : ℕ) (c : Caller) (lesson course : Str) (s : School)
    → (marked up now c course (noted up now c lesson s)).certificates ≡ s.certificates
unfolding add_progress complete_enrollment
noted-certificates up now c lesson course s = ground arith

-- The pair of an answer and a state, taken apart.
abbrev as_reply : Bool × School → Reply Bool × School
as_reply (b, t) = (ok b, t)

as_reply_lem : (p : Bool × School) (b : Bool) (s' : School) → as_reply p ≡ (ok b, s') → p ≡ (b, s')
as_reply_lem (a, t) b s' h = ground arith

complete_lesson_lem :
    (up : ProgressStmt → Bool) (now : ℕ) (serial : Str) (c : Caller) (lesson : Str) (b : Bool)
    (s s' : School)
    → complete_lesson up now serial c lesson s ≡ (ok b, s')
    → (course : Str) × (check_lesson up c lesson s ≡ ok course)
      × (note_lesson up now serial c lesson course s ≡ (b, s'))
unfolding complete_lesson
complete_lesson_lem up now serial c lesson b s s' h = go (check_lesson up c lesson s) refl h
  where
    go :
        (r : Reply Str)
        → check_lesson up c lesson s ≡ r
        → apply_lesson up now serial c lesson s r ≡ (ok b, s')
        → (course : Str) × (check_lesson up c lesson s ≡ ok course)
          × (note_lesson up now serial c lesson course s ≡ (b, s'))
    go (fail e) q h = absurd (cc)
    go (ok course) q h =
        (course, q, as_reply_lem (note_lesson up now serial c lesson course s) b s' h)

note_true-done :
    (up : ProgressStmt → Bool) (now : ℕ) (serial : Str) (c : Caller) (lesson course : Str)
    (s s' : School)
    → IsOnce s.progress
    → note_lesson up now serial c lesson course s ≡ (true, s')
    → all_done course c.id s' ≡ true
note_true-done up now serial c lesson course s s' once n =
    ap (λ (p : Bool × School). all_done course c.id p.1) (sym n)
    ∙ note_lesson-frame up now serial c lesson course s
    ∙ ap not (
        complete_all course c.id (noted up now c lesson s)
          (when_progress-IsOnce (up ProgressStmt.insert_progress) now c.id lesson s once)
          (up ProgressStmt.count_lessons) (note_true up now serial c lesson course s s' n).0)

note_true-marked :
    (up : ProgressStmt → Bool) (now : ℕ) (serial : Str) (c : Caller) (lesson course : Str)
    (s s' : School)
    → note_lesson up now serial c lesson course s ≡ (true, s')
    → up ProgressStmt.update_enrollment ≡ true
    → any (is_open_pair course c.id) s'.enrollments ≡ false
note_true-marked up now serial c lesson course s s' n u =
    let t = noted up now c lesson s in
    ap (λ (x : School). any (is_open_pair course c.id) x.enrollments)
      ((note_true up now serial c lesson course s s' n).1)
    ∙ ap (any (is_open_pair course c.id)) (
        issue-enrollments (up ProgressStmt.insert_certificate) now serial course c.id
          (marked up now c course t))
    ∙ ap
        (λ b.
          any (is_open_pair course c.id)
            (when b (complete_enrollment now course c.id) t).enrollments)
        u
    ∙ none_open now course c.id t

note_true-certified :
    (up : ProgressStmt → Bool) (now : ℕ) (serial : Str) (c : Caller) (lesson course : Str)
    (s s' : School)
    → note_lesson up now serial c lesson course s ≡ (true, s')
    → up ProgressStmt.insert_certificate ≡ true
    → any (λ k. beq k.serial serial) s.certificates ≡ false
    → certified c.id course s' ≡ true
note_true-certified up now serial c lesson course s s' n u fresh =
    let t = marked up now c course (noted up now c lesson s) in
    ap (certified c.id course) ((note_true up now serial c lesson course s s' n).1)
    ∙ ap (λ b. certified c.id course (issue_certificate b now serial course c.id t)) u
    ∙ certified-issue now serial course c.id t
        (ap (any (λ k. beq k.serial serial)) (noted-certificates up now c lesson course s) ∙ fresh)

-- In a table that notes no lesson twice for a user: where CompleteLesson answers that the course is
-- complete, the lesson is one of a course in which the caller was enrolled, and every lesson of that
-- course is among the caller's progress. Unless the statement failed, the enrolment is marked as
-- completed; and unless it failed or the serial was taken, the caller has a certificate.
pub complete_lesson-Earned :
    (up : ProgressStmt → Bool) (now : ℕ) (serial : Str) (c : Caller) (lesson : Str) (s s' : School)
    → IsOnce s.progress
    → complete_lesson up now serial c lesson s ≡ (ok true, s')
    → Earned up serial c lesson s s'
complete_lesson-Earned up now serial c lesson s s' once h =
    let (course, q, n) = complete_lesson_lem up now serial c lesson true s s' h in
    record {
      course = course;
      is_course = (check_lesson_lem up c lesson course s q).0;
      was_enrolled = (check_lesson_lem up c lesson course s q).1;
      all_lessons = note_true-done up now serial c lesson course s s' once n;
      is_marked = note_true-marked up now serial c lesson course s s' n;
      is_certified = note_true-certified up now serial c lesson course s s' n;
    }

-- A completed lesson that does not complete its course gives no certificate and leaves all
-- enrolments as they were.
pub incomplete_keeps :
    (up : ProgressStmt → Bool) (now : ℕ) (serial : Str) (c : Caller) (lesson : Str) (s s' : School)
    → complete_lesson up now serial c lesson s ≡ (ok false, s')
    → (s'.certificates ≡ s.certificates) × (s'.enrollments ≡ s.enrollments)
unfolding add_progress
incomplete_keeps up now serial c lesson s s' h =
    let (course, q, n) = complete_lesson_lem up now serial c lesson false s s' h in
    ground (arith, note_false up now serial c lesson course s s' n)
