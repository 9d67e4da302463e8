-- ===== src/Learn/Submit/Kept.antt =====
-- What SubmitAssessment (lms_student.go) does to the scores on record.
use onrol_infra.Base.{
  ℕ, ◌≡◌, refl, arith, Bool, true, false, ◌&&◌, Option, none, some, is_empty, trim_space, Str,
  codes, beq, ◌⊎◌, Reply, ok, fail, Bool-cases, inl, inr,
}
use onrol_infra.Live.Tables.{Caller}
use onrol_infra.Learn.Scoring.{Reader, grade}
use onrol_infra.Learn.Desk.{
  AssessmentRow, Answers, Desk, DeskStmt, write_submission, assessment_of, check_available,
}
use onrol_infra.Learn.Submit.Stored.{check_available_lem}
use onrol_infra.Learn.Submit.{
  AssignReq, SubmitReq, assignment_row, merge_assignment, quiz_row, quiz_score, merge_quiz,
  questions_of, submit_quiz, submit_assignment, apply_submit, submit_assessment,
}
use onrol_infra.Learn.Submit.Raised.{
  recorded, AtMost, AtMost-refl, AtMost-greatest, Raises, upsert-Raises,
}
use onrol_infra.Learn.Submit.Awarded.{award-recorded}

module _ (x u : Str) where
  submit_quiz-raises :
      (up : DeskStmt → Bool) (now : ℕ) (id : Str) (r : Reader) (c : Caller) (a : AssessmentRow)
      (body : Option Answers) (d : Desk)
      → AtMost (recorded x u d) (recorded x u (submit_quiz up now id r c a body d).1)
  unfolding submit_quiz
  submit_quiz-raises up now id r c a none d = ground (arith, AtMost-refl (recorded x u d))
  submit_quiz-raises up now id r c a (some answers) d =
      let g = grade r answers (questions_of a.id d) in
      ground (
        arith,
        AtMost-refl (recorded x u d),
        upsert-Raises x u (merge_quiz now answers g) (quiz_row now id a.id c.id answers g) d
            (λ s. (AtMost-greatest s.score (quiz_score g), refl, refl)),
      )

  submit_assignment-raises :
      (up : DeskStmt → Bool) (now : ℕ) (id : Str) (c : Caller) (a : AssessmentRow)
      (body : Option AssignReq) (d : Desk)
      → a.auto_award ≡ false
      → AtMost (recorded x u d) (recorded x u (submit_assignment up now id c a body d).1)
  unfolding submit_assignment
  submit_assignment-raises up now id c a none d e = AtMost-refl (recorded x u d)
  submit_assignment-raises up now id c a (some req) d e =
      let body = trim_space req.body in
      let link = trim_space req.link in
      let keeps : Raises (merge_assignment now a body link) =
        λ s. (rw e (AtMost-refl s.score), refl, refl) in
      ground (
        arith,
        AtMost-refl (recorded x u d),
        upsert-Raises x u (merge_assignment now a body link)
            (assignment_row now id c.id a body link) d keeps,
      )

  -- The caller's own row for an assignment that awards its marks by itself has those marks.
  abbrev pub IsAwarded : Caller → Desk → AssessmentRow → Type 0
  IsAwarded c d' a =
      (beq a.kind (codes "assignment") && a.auto_award ≡ true)
      × (x ≡ a.id)
      × (u ≡ c.id)
      × (recorded x u d' ≡ some a.max_score)

  submit_assignment-award :
      (up : DeskStmt → Bool) (now : ℕ) (id : Str) (c : Caller) (a : AssessmentRow)
      (body : Option AssignReq) (d : Desk)
      → beq a.kind (codes "assignment") ≡ true
      → a.auto_award ≡ true
      → (AtMost (recorded x u d) (recorded x u (submit_assignment up now id c a body d).1))
        ⊎ IsAwarded c (submit_assignment up now id c a body d).1 a
  unfolding submit_assignment
  submit_assignment-award up now id c a none d k e = inl (AtMost-refl (recorded x u d))
  submit_assignment-award up now id c a (some req) d k e =
      let body = trim_space req.body in
      let link = trim_space req.link in
      elim (Bool-cases (is_empty body && is_empty link)) [
        | inl h ↦ inl (rw h (AtMost-refl (recorded x u d)))
        | inr h ↦ elim (Bool-cases (up write_submission)) [
          | inr f ↦ inl (rw (h, f) (AtMost-refl (recorded x u d)))
          | inl f ↦ elim (award-recorded x u now id c.id a body link d e) [
            | inl same ↦ inl (rw (h, f, same) (AtMost-refl (recorded x u d)))
            | inr (ex, eu, es) ↦ inr (rw (h, f) (rw (k, e) refl, ex, eu, es))
          ]
        ]
      ]

  apply_submit-keeps :
      (up : DeskStmt → Bool) (now : ℕ) (id : Str) (r : Reader) (c : Caller) (req : SubmitReq)
      (d : Desk) (a : AssessmentRow)
      → (AtMost (recorded x u d) (recorded x u (apply_submit up now id r c req d (ok a)).1))
        ⊎ IsAwarded c (apply_submit up now id r c req d (ok a)).1 a
  apply_submit-keeps up now id r c req d a = elim (Bool-cases (beq a.kind (codes "assignment"))) [
    | inr k ↦ inl (rw k (submit_quiz-raises up now id r c a req.as_quiz d))
    | inl k ↦ elim (Bool-cases a.auto_award) [
      | inr e ↦ inl (rw k (submit_assignment-raises up now id c a req.as_assignment d e))
      | inl e ↦ elim (submit_assignment-award up now id c a req.as_assignment d k e) [
        | inl le ↦ inl (rw k le)
        | inr (ka, ex, eu, es) ↦ inr (ka, ex, eu, rw k es)
      ]
    ]
  ]

  -- A submission lowers or removes no score on record, of anybody for any assessment, except that an
  -- assignment that awards its marks by itself gives its caller, for that assignment, exactly the
  -- marks that it is worth now.
  pub submit_keeps_score :
      (up : DeskStmt → Bool) (now : ℕ) (id : Str) (r : Reader) (c : Caller) (assessment : Str)
      (req : SubmitReq) (d : Desk)
      → (AtMost
          (recorded x u d)
          (recorded x u (submit_assessment up now id r c assessment req d).1))
        ⊎ ((a : AssessmentRow) × (assessment_of assessment d ≡ some a)
            × IsAwarded c (submit_assessment up now id r c assessment req d).1 a)
  unfolding submit_assessment
  submit_keeps_score up now id r c assessment req d = go (check_available up c assessment d) refl
    where
      go :
          (q : Reply AssessmentRow)
          → check_available up c assessment d ≡ q
          → (AtMost (recorded x u d) (recorded x u (apply_submit up now id r c req d q).1))
            ⊎ ((a : AssessmentRow) × (assessment_of assessment d ≡ some a)
                × IsAwarded c (apply_submit up now id r c req d q).1 a)
      go (fail e) h = inl (AtMost-refl (recorded x u d))
      go (ok a) h = elim (apply_submit-keeps up now id r c req d a) [
        | inl le ↦ inl le
        | inr w ↦ inr (a, (check_available_lem up c assessment d a h).0, w)
      ]
