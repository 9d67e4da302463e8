-- ===== src/Learn/Submit/Raised.antt =====
-- Changes of submissions that lower no score on record (lms_student.go).
use onrol_infra.Base.{
  ℕ, ◌≤◌, ◌≡◌, refl, arith, Bool, true, false, Option, none, some, List, [], ◌∷◌, ◌++◌,
  if◌then◌else◌, find, any, Str, Bool-cases, inl, inr, update_where,
}
use onrol_infra.Learn.Desk.{Submission, Desk, is_mine, submission_of, upsert_submission, greatest}
use onrol_infra.Learn.Submit.{}

-- The score on record of a user for an assessment.
abbrev pub score_of : Option Submission → Option ℕ
score_of none = none
score_of (some s) = s.score

abbrev pub recorded : Str → Str → Desk → Option ℕ
recorded assessment user d = score_of (submission_of assessment user d)

-- No score is less than any.
abbrev pub AtMost : Option ℕ → Option ℕ → Type 0
AtMost none b = Unit {0}
AtMost (some a) none = ⊥
AtMost (some a) (some b) = a ≤ b

pub AtMost-refl : (a : Option ℕ) → AtMost a a
AtMost-refl none = tt
AtMost-refl (some a) = omega arith

pub AtMost-greatest : (a b : Option ℕ) → AtMost a (greatest a b)
AtMost-greatest none b = tt
AtMost-greatest (some a) none = omega arith
AtMost-greatest (some a) (some b) = ground arith

-- A change of rows that keeps their keys and lowers no score.
abbrev pub Raises : (Submission → Submission) → Type 0
Raises f =
    (s : Submission)
    → (AtMost s.score (f s).score)
      × ((f s).assessment_id ≡ s.assessment_id)
      × ((f s).user_id ≡ s.user_id)

module _ (x u : Str) where
  find-Raises :
      (p : Submission → Bool) (f : Submission → Submission) (ss : List Submission)
      → Raises f
      → AtMost
          (score_of (find (is_mine x u) ss))
          (score_of (find (is_mine x u) (update_where p f ss)))
  unfolding update_where
  find-Raises p f [] up = tt
  find-Raises p f (s ∷ ss) up =
      split (p s) (is_mine x u s) refl (f s) (up s) (find-Raises p f ss up)
    where
      split :
          (b m : Bool)
          → is_mine x u s ≡ m
          → (t : Submission)
          → (AtMost s.score t.score) × (t.assessment_id ≡ s.assessment_id) × (t.user_id ≡ s.user_id)
          → AtMost
              (score_of (find (is_mine x u) ss))
              (score_of (find (is_mine x u) (update_where p f ss)))
          → AtMost (score_of (if is_mine x u s then some s else find (is_mine x u) ss)) (
              score_of (
                if is_mine x u (if b then t else s)
                then some (if b then t else s)
                else find (is_mine x u) (update_where p f ss)))
      split true true e t (le, ka, ku) ih = rw (ka, ku, e) le
      split true false e t (le, ka, ku) ih = rw (ka, ku, e) ih
      split false true e t k ih = rw e (AtMost-refl s.score)
      split false false e t k ih = rw e ih

  find-append_raises :
      (new : Submission) (ss : List Submission)
      → AtMost (score_of (find (is_mine x u) ss)) (score_of (find (is_mine x u) (ss ++ new ∷ [])))
  find-append_raises new [] = tt
  find-append_raises new (s ∷ ss) = elim (Bool-cases (is_mine x u s)) [
    | inl e ↦ rw e (AtMost-refl s.score)
    | inr e ↦ rw e (find-append_raises new ss)
  ]

  pub upsert-Raises :
      (merge : Submission → Submission) (new : Submission) (d : Desk)
      → Raises merge
      → AtMost (recorded x u d) (recorded x u (upsert_submission merge new d))
  unfolding upsert_submission
  upsert-Raises merge new d up =
      elim (Bool-cases (any (is_mine new.assessment_id new.user_id) d.submissions)) [
        | inl e ↦ rw e (find-Raises (is_mine new.assessment_id new.user_id) merge d.submissions up)
        | inr e ↦ rw e (find-append_raises new d.submissions)
      ]
