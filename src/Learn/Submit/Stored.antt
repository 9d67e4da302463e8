-- ===== src/Learn/Submit/Stored.antt =====
-- What a stored quiz leaves behind (lms_student.go).
use onrol_infra.Base.{
  ℕ, ◌≡◌, refl, sym, ap, ◌∙◌, arith, Bool, true, false, Option, none, some, List, [], ◌∷◌, ◌++◌,
  find, any, Str, codes, beq, beq_refl, Reply, ok, fail, refuse, Bool-cases, inl, inr, update_where,
}
use onrol_infra.Live.Tables.{Caller}
use onrol_infra.Learn.Enroll.{enrolled, is_enrolled}
use onrol_infra.Learn.Scoring.{Reader, Tally, grade}
use onrol_infra.Learn.Desk.{
  AssessmentRow, Answers, Submission, Desk, DeskStmt, read_previous, assessment_of, is_mine,
  submission_of, check_available, upsert_submission,
}
use onrol_infra.Learn.Submit.{
  AssignReq, SubmitReq, SubmitReply, quizzed, is_long, answered_before, quiz_row, merge_quiz,
  questions_of, submit_quiz, submit_assignment, apply_submit, submit_assessment,
}
use onrol_infra.Learn.Take.{has_answer, is_submitted}

-- What the caller's row says of the answers once a quiz is stored.
stored_answers : Option Submission → Option Answers
stored_answers none = none
stored_answers (some s) = some s.answers

find-update :
    (a u : Str) (now : ℕ) (answers : Answers) (g : Tally) (ss : List Submission)
    → any (is_mine a u) ss ≡ true
    → stored_answers (find (is_mine a u) (update_where (is_mine a u) (merge_quiz now answers g) ss))
      ≡ some answers
unfolding update_where stored_answers
find-update a u now answers g [] h = absurd (cc)
find-update a u now answers g (s ∷ ss) h = elim (Bool-cases (is_mine a u s)) [
  | inl e ↦ rw (e, e) refl
  | inr e ↦ rw (e, e) (find-update a u now answers g ss (ground arith))
]

find-append :
    (a u : Str) (new : Submission) (ss : List Submission)
    → any (is_mine a u) ss ≡ false
    → is_mine a u new ≡ true
    → stored_answers (find (is_mine a u) (ss ++ new ∷ [])) ≡ some new.answers
unfolding stored_answers
find-append a u new [] h e = ground arith
find-append a u new (s ∷ ss) h e = ground (arith, find-append a u new ss)

upsert_quiz :
    (now : ℕ) (id a u : Str) (answers : Answers) (g : Tally) (d : Desk)
    → stored_answers (
        submission_of a u
          (upsert_submission (merge_quiz now answers g) (quiz_row now id a u answers g) d))
      ≡ some answers
unfolding upsert_submission
upsert_quiz now id a u answers g d = elim (Bool-cases (any (is_mine a u) d.submissions)) [
  | inl e ↦ rw e (find-update a u now answers g d.submissions e)
  | inr e ↦ rw e (
      find-append a u (quiz_row now id a u answers g) d.submissions e
        (rw (beq_refl a) (beq_refl u)))
]

submit_quiz-stored :
    (up : DeskStmt → Bool) (now : ℕ) (id : Str) (r : Reader) (c : Caller) (a : AssessmentRow)
    (body : Option Answers) (d d' : Desk) (reply : SubmitReply)
    → submit_quiz up now id r c a body d ≡ (ok reply, d')
    → (answers : Answers) × (body ≡ some answers)
      × (stored_answers (submission_of a.id c.id d') ≡ some answers)
unfolding submit_quiz
submit_quiz-stored up now id r c a none d d' reply h = absurd (ground arith)
submit_quiz-stored up now id r c a (some answers) d d' reply h = (
  answers,
  refl,
  ground (arith, upsert_quiz now id a.id c.id answers (grade r answers (questions_of a.id d)) d),
)

answered_stored :
    (o : Option Submission) (answers : Answers)
    → stored_answers o ≡ some answers
    → (answered_before o ≡ is_long answers) × (is_submitted o ≡ has_answer answers)
unfolding stored_answers
answered_stored none answers h = absurd (cc)
answered_stored (some s) answers h = (ap is_long (ground arith), ap has_answer (ground arith))

pub submit_quiz-refused :
    (up : DeskStmt → Bool) (now : ℕ) (id : Str) (r : Reader) (c : Caller) (a : AssessmentRow)
    (body : Option Answers) (d : Desk)
    → up read_previous ≡ true
    → answered_before (submission_of a.id c.id d) ≡ true
    → submit_quiz up now id r c a body d ≡ (refuse 409 "already submitted", d)
unfolding submit_quiz
submit_quiz-refused up now id r c a body d u h = rw (u, h)

upsert-assessments :
    (merge : Submission → Submission) (new : Submission) (d : Desk)
    → (upsert_submission merge new d).assessments ≡ d.assessments
unfolding upsert_submission
upsert-assessments merge new d = ground arith

submit_quiz-assessments :
    (up : DeskStmt → Bool) (now : ℕ) (id : Str) (r : Reader) (c : Caller) (a : AssessmentRow)
    (body : Option Answers) (d : Desk)
    → (submit_quiz up now id r c a body d).1.assessments ≡ d.assessments
unfolding submit_quiz
submit_quiz-assessments up now id r c a none d = ground arith
submit_quiz-assessments up now id r c a (some answers) d =
    let g = grade r answers (questions_of a.id d) in
    ground
      (arith, upsert-assessments (merge_quiz now answers g) (quiz_row now id a.id c.id answers g) d)

pub check_available_lem :
    (up : DeskStmt → Bool) (c : Caller) (id : Str) (d : Desk) (a : AssessmentRow)
    → check_available up c id d ≡ ok a
    → (assessment_of id d ≡ some a)
      × (a.is_published ≡ true)
      × (enrolled a.course_id c.id d.school ≡ true)
unfolding check_available is_enrolled
check_available_lem up c id d a h = (ground arith, ground arith, ground arith)

not_assigned :
    (up : DeskStmt → Bool) (now : ℕ) (id : Str) (c : Caller) (a : AssessmentRow)
    (body : Option AssignReq) (d d' : Desk) (st : Str) (n : ℕ) (g : Tally)
    → ¬ (submit_assignment up now id c a body d ≡ (ok (quizzed st n g), d'))
unfolding submit_assignment
not_assigned up now id c a none d d' st n g h = ground arith
not_assigned up now id c a (some b) d d' st n g h = ground arith

-- A stored quiz: the assessment, and that it is none of the kind that is answered by a text.
pub record IsQuiz (up : DeskStmt → Bool) (c : Caller) (assessment : Str) (req : SubmitReq)
    (d d' : Desk) : Type 0 where
  pub row : AssessmentRow
  pub is_row : assessment_of assessment d ≡ some row
  pub is_kept : d'.assessments ≡ d.assessments
  pub is_quiz : beq row.kind (codes "assignment") ≡ false
  pub answers : Answers
  pub is_body : req.as_quiz ≡ some answers
  pub before : answered_before (submission_of row.id c.id d') ≡ is_long answers
  pub submitted : is_submitted (submission_of row.id c.id d') ≡ has_answer answers

pub submit-IsQuiz :
    (up : DeskStmt → Bool) (now : ℕ) (id : Str) (r : Reader) (c : Caller) (assessment : Str)
    (req : SubmitReq) (d d' : Desk) (st : Str) (n : ℕ) (g : Tally)
    → submit_assessment up now id r c assessment req d ≡ (ok (quizzed st n g), d')
    → IsQuiz up c assessment req d d'
unfolding submit_assessment
submit-IsQuiz up now id r c assessment req d d' st n g h =
    go (check_available up c assessment d) refl h
  where
    go :
        (p : Reply AssessmentRow)
        → check_available up c assessment d ≡ p
        → apply_submit up now id r c req d p ≡ (ok (quizzed st n g), d')
        → IsQuiz up c assessment req d d'
    go (fail e) q h = absurd (cc)
    go (ok a) q h = elim (Bool-cases (beq a.kind (codes "assignment"))) [
      | inl e ↦ absurd (not_assigned up now id c a req.as_assignment d d' st n g (rw e at h))
      | inr e ↦
          let h' : submit_quiz up now id r c a req.as_quiz d ≡ (ok (quizzed st n g), d') =
            rw e at h in
          let (answers, is_body, is_stored) =
            submit_quiz-stored up now id r c a req.as_quiz d d' (quizzed st n g) h' in
          record {
            row = a;
            is_row = (check_available_lem up c assessment d a q).0;
            is_kept =
                ap (λ (p : Reply SubmitReply × Desk). p.1.assessments) (sym h')
                ∙ submit_quiz-assessments up now id r c a req.as_quiz d;
            is_quiz = e;
            answers = answers;
            is_body = is_body;
            before = (answered_stored (submission_of a.id c.id d') answers is_stored).0;
            submitted = (answered_stored (submission_of a.id c.id d') answers is_stored).1;
          }
    ]
