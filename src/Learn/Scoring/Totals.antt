-- ===== src/Learn/Scoring/Totals.antt =====
-- The totals of a graded quiz (lms_student.go, SubmitAssessment).
use onrol_infra.Base.{
  ℕ, ◌+◌, ◌-◌, ◌*◌, ◌≤◌, ◌<◌, ◌≡◌, ◌↔◌, refl, ◌∙◌, arith, Bool, true, false, ◌||◌, Option, List, [],
  ◌∷◌, ltb, if◌then◌else◌, any, count, count-le-length, length, Str, Map, Bool-cases, inl, inr,
}
use onrol_infra.Learn.Scoring.{
  QuestionRow, Reader, Mark, right, wrong, by_hand, mark, answer_to, Tally, counted, noted,
  grade_from, grade, percent_of,
}

abbrev pub is_right : Mark → Bool
is_right right = true
is_right _ = false

abbrev pub is_by_hand : Mark → Bool
is_by_hand by_hand = true
is_by_hand _ = false

-- Every question is worth one point.
abbrev pub AllOne : List QuestionRow → Type 0
AllOne [] = Unit {0}
AllOne (q ∷ qs) = (q.points ≡ 1) × AllOne qs

count-true : (qs : List QuestionRow) → count (λ q. true) qs ≡ length qs
count-true [] = refl
count-true (q ∷ qs) = ground (arith, count-true qs)

module _ (r : Reader) (answers : Option (Map Str)) where
  abbrev pub mark_of : QuestionRow → Mark
  mark_of q = mark r (answer_to answers q.id) q

  abbrev pub is_correct : QuestionRow → Bool
  is_correct q = is_right (mark_of q)

  -- The points of the questions that a test selects.
  abbrev pub points_of : (QuestionRow → Bool) → List QuestionRow → ℕ
  points_of p [] = 0
  points_of p (q ∷ qs) = (if p q then q.points else 0) + points_of p qs

  step :
      (m : Mark) (q : QuestionRow) (t : Tally)
      → ((noted m q (counted q t)).auto_score ≡ t.auto_score + (if is_right m then q.points else 0))
        × ((noted m q (counted q t)).total_points ≡ t.total_points + q.points)
        × ((noted m q (counted q t)).total ≡ t.total + 1)
        × ((noted m q (counted q t)).correct_count
            ≡ t.correct_count + (if is_right m then 1 else 0))
        × ((noted m q (counted q t)).needs_manual ≡ (t.needs_manual || is_by_hand m))
  step right q t = ground arith
  step wrong q t = ground arith
  step by_hand q t = ground arith

  -- Each total of the loop as a sum of its own.
  record IsSum (t u : Tally) (qs : List QuestionRow) : Type 0 where
    scored : u.auto_score ≡ t.auto_score + points_of is_correct qs
    all_points : u.total_points ≡ t.total_points + points_of (λ q. true) qs
    counted_all : u.total ≡ t.total + length qs
    counted_right : u.correct_count ≡ t.correct_count + count is_correct qs
    by_hands : u.needs_manual ≡ (t.needs_manual || any (λ q. is_by_hand (mark_of q)) qs)

  grade_from-IsSum : (qs : List QuestionRow) (t : Tally) → IsSum t (grade_from r answers qs t) qs
  unfolding grade_from
  grade_from-IsSum [] t = ground arith
  grade_from-IsSum (q ∷ qs) t =
      let h = step (mark_of q) q t in
      let t' = noted (mark_of q) q (counted q t) in
      let ih = grade_from-IsSum qs t' in
      record {
        scored = omega (arith, ih.scored, h.0);
        all_points = omega (arith, ih.all_points, h.1);
        counted_all = omega (arith, ih.counted_all, h.2);
        counted_right = omega (arith, ih.counted_right, h.3);
        by_hands = ground (arith, ih.by_hands, h.4);
      }

  -- What the totals of a graded quiz are.
  pub record Counts (g : Tally) (qs : List QuestionRow) : Type 0 where
    pub scored : g.auto_score ≡ points_of is_correct qs
    pub all_points : g.total_points ≡ points_of (λ q. true) qs
    pub counted_all : g.total ≡ length qs
    pub counted_right : g.correct_count ≡ count is_correct qs
    pub by_hands : g.needs_manual ≡ any (λ q. is_by_hand (mark_of q)) qs
    pub within : percent_of g.auto_score g.total_points ≤ 100

  points-le : (qs : List QuestionRow) → points_of is_correct qs ≤ points_of (λ q. true) qs
  points-le [] = omega arith
  points-le (q ∷ qs) = ground (arith, points-le qs)

  percent-le : (a t : ℕ) → a ≤ t → percent_of a t ≤ 100
  unfolding percent_of
  percent-le a t h = elim (Bool-cases (ltb 0 t)) [
    | inl e ↦ rw e (grind arith)
    | inr e ↦ rw e (omega arith)
  ]

  -- The totals of a quiz are what its questions give: the points of the right answers, all points,
  -- the number of questions and of right answers, and whether one of them needs a human; the
  -- percentage is at most 100.
  pub grade-Counts : (qs : List QuestionRow) → Counts (grade r answers qs) qs
  unfolding grade
  grade-Counts qs =
      let h = grade_from-IsSum qs (record {
        auto_score = 0;
        total_points = 0;
        total = 0;
        correct_count = 0;
        needs_manual = false;
      }) in
      record {
        scored = omega (arith, h.scored);
        all_points = omega (arith, h.all_points);
        counted_all = omega (arith, h.counted_all);
        counted_right = omega (arith, h.counted_right);
        by_hands = h.by_hands;
        within = percent-le _ _ (omega (arith, h.scored, h.all_points, points-le qs));
      }

  points-one :
      (p : QuestionRow → Bool) (qs : List QuestionRow) → AllOne qs → points_of p qs ≡ count p qs
  points-one p [] h = refl
  points-one p (q ∷ qs) h = ground (arith, h.0, points-one p qs h.1)

  full_iff : (a n : ℕ) → a ≤ n → 0 < n → (percent_of a n ≡ 100) ↔ (200 * (n - a) ≤ n)
  unfolding percent_of
  full_iff a n le pos = elim (Bool-cases (ltb 0 n)) [
    | inl e ↦ rw e ((λ h. grind arith), (λ h. grind arith))
    | inr e ↦ absurd (ground arith)
  ]

  -- In a quiz of questions worth one point each, and of one at least, the percentage is 100 exactly
  -- where one answer in 200 at most is wrong.
  pub full_marks :
      (qs : List QuestionRow)
      → AllOne qs
      → 0 < length qs
      → let g = grade r answers qs in
        (percent_of g.auto_score g.total_points ≡ 100)
        ↔ (200 * (length qs - count is_correct qs) ≤ length qs)
  full_marks qs one pos =
      let g = grade-Counts qs in
      rw (g.scored ∙ points-one is_correct qs one) (
        rw (g.all_points ∙ points-one (λ q. true) qs one ∙ count-true qs)
          (full_iff (count is_correct qs) (length qs) (count-le-length is_correct qs) pos))
