-- ===== src/Learn/Submit/Awarded.antt =====
-- Changes of submissions that give a score (lms_student.go).
use onrol_infra.Base.{
  ℕ, ◌≡◌, refl, arith, true, false, ◌&&◌, some, List, [], ◌∷◌, ◌++◌, find, any, Str, beq, beq_refl,
  beq_iff, ◌∙◌, ◌⊎◌, Bool-cases, inl, inr, update_where,
}
use onrol_infra.Learn.Desk.{AssessmentRow, Submission, Desk, is_mine, upsert_submission}
use onrol_infra.Learn.Submit.{assignment_row, merge_assignment}
use onrol_infra.Learn.Submit.Raised.{recorded, score_of}

-- A change of rows that keeps their keys and gives them all one score.
abbrev Awards : ℕ → (Submission → Submission) → Type 0
Awards n f =
    (s : Submission)
    → ((f s).score ≡ some n) × ((f s).assessment_id ≡ s.assessment_id) × ((f s).user_id ≡ s.user_id)

module _ (x u : Str) where
  find-awarded :
      (n : ℕ) (f : Submission → Submission) (ss : List Submission)
      → Awards n f
      → any (is_mine x u) ss ≡ true
      → score_of (find (is_mine x u) (update_where (is_mine x u) f ss)) ≡ some n
  unfolding update_where
  find-awarded n f [] w h = absurd (cc)
  find-awarded n f (s ∷ ss) w h = elim (Bool-cases (is_mine x u s)) [
    | inl e ↦ let (score, ka, ku) = w s in rw (e, ka, ku) (rw e score)
    | inr e ↦ rw (e, e) (find-awarded n f ss w (rw e at h))
  ]

  find-append_new :
      (new : Submission) (ss : List Submission)
      → any (is_mine x u) ss ≡ false
      → is_mine x u new ≡ true
      → score_of (find (is_mine x u) (ss ++ new ∷ [])) ≡ new.score
  find-append_new new [] h k = rw k refl
  find-append_new new (s ∷ ss) h k = elim (Bool-cases (is_mine x u s)) [
    | inl e ↦ absurd (ground (arith, e))
    | inr e ↦ rw e (find-append_new new ss (rw e at h) k)
  ]

  -- Rows of another user, or for another assessment.
  apart :
      (y v : Str) (s : Submission)
      → beq x y && beq u v ≡ false
      → is_mine y v s ≡ true
      → is_mine x u s ≡ false
  apart y v s ne h = ground (
    arith,
    beq_iff x y,
    beq_iff u v,
    beq_iff s.assessment_id x,
    beq_iff s.user_id u,
    beq_iff s.assessment_id y,
    beq_iff s.user_id v,
  )

  find-other :
      (y v : Str) (f : Submission → Submission) (n : ℕ) (ss : List Submission)
      → Awards n f
      → beq x y && beq u v ≡ false
      → score_of (find (is_mine x u) (update_where (is_mine y v) f ss))
        ≡ score_of (find (is_mine x u) ss)
  unfolding update_where
  find-other y v f n [] w ne = refl
  find-other y v f n (s ∷ ss) w ne = elim (Bool-cases (is_mine y v s)) [
    | inl e ↦ let (_, ka, ku) = w s in rw (e, ka, ku, apart y v s ne e) (find-other y v f n ss w ne)
    | inr e ↦ elim (Bool-cases (is_mine x u s)) [
      | inl k ↦ rw (e, k) refl
      | inr k ↦ rw (e, k) (find-other y v f n ss w ne)
    ]
  ]

  find-append_other :
      (new : Submission) (ss : List Submission)
      → is_mine x u new ≡ false
      → score_of (find (is_mine x u) (ss ++ new ∷ [])) ≡ score_of (find (is_mine x u) ss)
  find-append_other new [] k = rw k refl
  find-append_other new (s ∷ ss) k = elim (Bool-cases (is_mine x u s)) [
    | inl e ↦ rw e refl
    | inr e ↦ rw e (find-append_other new ss k)
  ]

upsert-own :
    (n : ℕ) (merge : Submission → Submission) (new : Submission) (d : Desk)
    → Awards n merge
    → new.score ≡ some n
    → recorded new.assessment_id new.user_id (upsert_submission merge new d) ≡ some n
unfolding upsert_submission
upsert-own n merge new d w e =
    elim (Bool-cases (any (is_mine new.assessment_id new.user_id) d.submissions)) [
      | inl h ↦ rw h (find-awarded new.assessment_id new.user_id n merge d.submissions w h)
      | inr h ↦ rw h (
          find-append_new new.assessment_id new.user_id new d.submissions h
            (rw (beq_refl new.assessment_id) (beq_refl new.user_id))
          ∙ e)
    ]

module _ (x u : Str) where
  upsert-other :
      (n : ℕ) (merge : Submission → Submission) (new : Submission) (d : Desk)
      → Awards n merge
      → beq x new.assessment_id && beq u new.user_id ≡ false
      → recorded x u (upsert_submission merge new d) ≡ recorded x u d
  unfolding upsert_submission
  upsert-other n merge new d w ne =
      elim (Bool-cases (any (is_mine new.assessment_id new.user_id) d.submissions)) [
        | inl h ↦ rw h (find-other x u new.assessment_id new.user_id merge n d.submissions w ne)
        | inr h ↦ rw h (
            find-append_other x u new d.submissions (
              ground (
                arith,
                beq_iff x new.assessment_id,
                beq_iff u new.user_id,
                beq_iff new.assessment_id x,
                beq_iff new.user_id u,
              )))
      ]

  -- What an assignment that awards its marks does to the record.
  pub award-recorded :
      (now : ℕ) (id user : Str) (a : AssessmentRow) (body link : Str) (d : Desk)
      → a.auto_award ≡ true
      → (recorded x u (
            upsert_submission
              (merge_assignment now a body link)
              (assignment_row now id user a body link)
              d)
          ≡ recorded x u d)
        ⊎ ((x ≡ a.id)
            × (u ≡ user)
            × (recorded x u (
                  upsert_submission
                    (merge_assignment now a body link)
                    (assignment_row now id user a body link)
                    d)
                ≡ some a.max_score))
  award-recorded now id user a body link d e =
      let merge = merge_assignment now a body link in
      let new = assignment_row now id user a body link in
      let gives : Awards a.max_score merge = λ s. (rw e refl, refl, refl) in
      elim (Bool-cases (beq x a.id && beq u user)) [
        | inl same ↦
            let ex : x ≡ a.id = ground (arith, beq_iff x a.id) in
            let eu : u ≡ user = ground (arith, beq_iff u user) in
            inr (ex, eu, rw (ex, eu) (upsert-own a.max_score merge new d gives (rw e refl)))
        | inr ne ↦ inl (upsert-other a.max_score merge new d gives ne)
      ]
