-- ===== src/Learn/Submit/Attempts.antt =====
-- A quiz is taken once, and shows its key only then (lms_student.go).
use onrol_infra.Base.{
  ℕ, ◌≡◌, refl, sym, ap, ◌∙◌, subst, arith, Bool, true, false, Option, none, some, List, [], ◌∷◌,
  find, sort_by, ◌>>=◌, any, map, Str, codes, beq, Reply, ok, fail,
}
use onrol_infra.Live.Tables.{Caller}
use onrol_infra.Learn.Tables.{found}
use onrol_infra.Learn.Enroll.{enrolled}
use onrol_infra.Learn.Scoring.{QuestionRow, Reader, Tally}
use onrol_infra.Learn.Desk.{
  AssessmentRow, Answers, Submission, Desk, DeskStmt, read_previous, assessment_of, submission_of,
  check_available,
}
use onrol_infra.Learn.Submit.{
  SubmitReq, quizzed, is_long, answered_before, questions_of, apply_submit, submit_assessment,
}
use onrol_infra.Learn.Take.{
  has_answer, is_submitted, TakenQuestion, Taken, shown, taken, take_assessment,
}
use onrol_infra.Learn.Submit.Stored.{submit_quiz-refused, check_available_lem, submit-IsQuiz}

-- Where the caller's answers to a quiz are on record, a further submission changes nothing.
submit_refused :
    (up : DeskStmt → Bool) (now : ℕ) (id : Str) (r : Reader) (c : Caller) (assessment : Str)
    (req : SubmitReq) (d : Desk) (a : AssessmentRow)
    → assessment_of assessment d ≡ some a
    → beq a.kind (codes "assignment") ≡ false
    → answered_before (submission_of a.id c.id d) ≡ true
    → up read_previous ≡ true
    → (submit_assessment up now id r c assessment req d).1 ≡ d
unfolding submit_assessment
submit_refused up now id r c assessment req d a is_row is_quiz before u =
    go (check_available up c assessment d) refl
  where
    go :
        (p : Reply AssessmentRow)
        → check_available up c assessment d ≡ p
        → (apply_submit up now id r c req d p).1 ≡ d
    go (fail e) q = refl
    go (ok b) q =
        let same : b ≡ a = ground (arith, (check_available_lem up c assessment d b q).0) in
        subst (λ (x : AssessmentRow). (apply_submit up now id r c req d (ok x)).1 ≡ d) (sym same)
          (rw is_quiz (ap (λ p. p.1) (submit_quiz-refused up now id r c a req.as_quiz d u before)))

-- A quiz whose stored answers are not the empty object takes no second attempt: whatever the caller
-- submits for it next, and whatever the answer is, nothing changes, provided that the query for the
-- previous answers does not fail.
pub attempt_once :
    (up up' : DeskStmt → Bool) (now now' : ℕ) (id id' : Str) (r r' : Reader) (c : Caller)
    (assessment : Str) (req req' : SubmitReq) (d d' : Desk) (st : Str) (n : ℕ) (g : Tally)
    (answers : Answers)
    → submit_assessment up now id r c assessment req d ≡ (ok (quizzed st n g), d')
    → req.as_quiz ≡ some answers
    → is_long answers ≡ true
    → up' read_previous ≡ true
    → (submit_assessment up' now' id' r' c assessment req' d').1 ≡ d'
attempt_once up up' now now' id id' r r' c assessment req req' d d' st n g answers h body long u =
    let q = submit-IsQuiz up now id r c assessment req d d' st n g h in
    submit_refused up' now' id' r' c assessment req' d' q.row
      (ap (find (λ a. beq a.id assessment)) q.is_kept ∙ q.is_row) q.is_quiz
      (q.before ∙ ap is_long (ground (arith, q.is_body)) ∙ long) u

-- The list of the questions, without a key.
abbrev pub shows_key : TakenQuestion → Bool
shows_key q = elim q.correct [ none ↦ false | some s ↦ true ]

no_key : (qs : List QuestionRow) → any shows_key (map (shown false) qs) ≡ false
no_key [] = refl
no_key (q ∷ qs) = ground (arith, no_key qs)

taken_lem :
    (up : DeskStmt → Bool) (c : Caller) (a : AssessmentRow) (s : Option Submission) (d : Desk)
    (t : Taken)
    → taken up c a s d ≡ ok t
    → is_submitted s ≡ false
    → any shows_key t.questions ≡ false
taken_lem up c a s d t h none_yet =
    let qs = sort_by (λ (q : QuestionRow). q.position) (questions_of a.id d) in
    ground (arith, no_key qs)

-- TakeAssessment shows a published assessment to a caller who is enrolled in its course, and as long
-- as the caller has no answer on record it shows the key of no question.
pub key_hidden :
    (up : DeskStmt → Bool) (c : Caller) (assessment : Str) (d : Desk) (t : Taken)
    → take_assessment up c assessment d ≡ ok t
    → (a : AssessmentRow) × (assessment_of assessment d ≡ some a)
      × (a.is_published ≡ true)
      × (enrolled a.course_id c.id d.school ≡ true)
      × (is_submitted (submission_of a.id c.id d) ≡ false → any shows_key t.questions ≡ false)
unfolding take_assessment
key_hidden up c assessment d t h = go (check_available up c assessment d) refl h
  where
    go :
        (p : Reply AssessmentRow)
        → check_available up c assessment d ≡ p
        → (p >>= λ a. taken up c a (found (up read_previous) (submission_of a.id c.id d)) d) ≡ ok t
        → (a : AssessmentRow) × (assessment_of assessment d ≡ some a)
          × (a.is_published ≡ true)
          × (enrolled a.course_id c.id d.school ≡ true)
          × (is_submitted (submission_of a.id c.id d) ≡ false → any shows_key t.questions ≡ false)
    go (fail e) q k = absurd (cc)
    go (ok a) q k =
        let (is_row, published, is_in) = check_available_lem up c assessment d a q in
        (
          a,
          is_row,
          published,
          is_in,
          λ none_yet.
              taken_lem up c a (found (up read_previous) (submission_of a.id c.id d)) d t k
                (ground (arith, none_yet)),
        )

-- Answers that are missing in the body are stored as null. They count as an attempt, so a further
-- submission changes nothing, but not as an answer: TakeAssessment goes on hiding the key.
pub null_attempt :
    (up up' : DeskStmt → Bool) (now now' : ℕ) (id id' : Str) (r r' : Reader) (c : Caller)
    (assessment : Str) (req req' : SubmitReq) (d d' : Desk) (st : Str) (n : ℕ) (g : Tally)
    → submit_assessment up now id r c assessment req d ≡ (ok (quizzed st n g), d')
    → req.as_quiz ≡ some none
    → up' read_previous ≡ true
    → ((submit_assessment up' now' id' r' c assessment req' d').1 ≡ d')
      × ((t : Taken)
          → take_assessment up' c assessment d' ≡ ok t
          → any shows_key t.questions ≡ false)
null_attempt up up' now now' id id' r r' c assessment req req' d d' st n g h body u =
    let q = submit-IsQuiz up now id r c assessment req d d' st n g h in
    let is_row : assessment_of assessment d' ≡ some q.row =
      ap (find (λ a. beq a.id assessment)) q.is_kept ∙ q.is_row in
    (
      attempt_once up up' now now' id id' r r' c assessment req req' d d' st n g none h body refl u,
      λ t k.
          let (a, is_a, _, _, hidden) = key_hidden up' c assessment d' t k in
          let same : a ≡ q.row = ground arith in
          let is_null : q.answers ≡ none = ground (arith, q.is_body) in
          hidden (
            ap (λ (x : AssessmentRow). is_submitted (submission_of x.id c.id d')) same
            ∙ q.submitted
            ∙ ap has_answer is_null),
    )
