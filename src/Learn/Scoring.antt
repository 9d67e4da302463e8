-- ===== src/Learn/Scoring.antt =====
-- How answers are marked: backend/internal/handlers/lms_student.go (matchShortAnswer, matchNumeric,
-- matchMultiSet and the loop of SubmitAssessment). Points are whole numbers, and the percentage is
-- computed exactly where the code uses float64.
pub mod Totals
pub mod Sets
use onrol_infra.Base.{
  ℕ, zero, suc, ◌+◌, ◌*◌, ◌/◌, ◌≡◌, Bool, true, false, not, ◌&&◌, ◌||◌, Option, none, some, List,
  [], ◌∷◌, ltb, ◌==◌, if◌then◌else◌, any, length, map, Str, codes, beq, is_empty, trim_space, Map,
  lookup, coalesce,
}
use onrol_infra.Account.SignIn.{Outside, to_lower, is_ascii}

-- The table questions.
pub record QuestionRow : Type 0 where
  pub id : Str
  pub assessment_id : Str
  pub prompt : Str
  pub kind : Str
  pub options : List Str
  pub correct : Str
  pub points : ℕ
  pub position : ℕ

-- strings.EqualFold beyond ASCII, strconv.ParseFloat (a float64 is given by its 64 bits),
-- math.Abs(a-c) < 1e-6, and json.Unmarshal into []string.
pub record Reader : Type 0 where
  pub outside : Outside
  pub unicode_fold : Str → Str → Bool
  pub parse_float : Str → Option ℕ
  pub is_near : ℕ → ℕ → Bool
  pub parse_strings : Str → Option (List Str)

-- strings.ToLower(strings.TrimSpace(s))
abbrev pub norm : Reader → Str → Str
norm r s = to_lower r.outside (trim_space s)

unfoldable pub equal_fold : Reader → Str → Str → Bool
unfolding beq
equal_fold r s t =
    if is_ascii s && is_ascii t
    then beq (to_lower r.outside s) (to_lower r.outside t)
    else r.unicode_fold s t

abbrev pub push : ℕ → List Str → List Str
push b [] = (b ∷ []) ∷ []
push b (w ∷ ws) = (b ∷ w) ∷ ws

-- strings.Split(s, sep) for one byte
unfoldable pub split_at : ℕ → Str → List Str
split_at sep [] = [] ∷ []
split_at sep (b ∷ s) = if b == sep then [] ∷ split_at sep s else push b (split_at sep s)

unfoldable pub match_short_answer : Reader → Str → Str → Bool
unfolding split_at beq
match_short_answer r ans correct =
    let a = norm r ans in
    not (is_empty a) && any (λ acc. beq a (norm r acc)) (split_at b'|' correct)

abbrev pub both_near : Reader → Option ℕ → Option ℕ → Bool
both_near r (some a) (some c) = r.is_near a c
both_near r _ _ = false

unfoldable pub match_numeric : Reader → Str → Str → Bool
match_numeric r ans correct =
    both_near r (r.parse_float (trim_space ans)) (r.parse_float (trim_space correct))

abbrev pub mem : Str → List Str → Bool
mem x = any (beq x)

abbrev pub all_in : List Str → List Str → Bool
all_in [] want = true
all_in (x ∷ xs) want = mem x want && all_in xs want

-- The keys of the map `want` are the list of them.
abbrev pub same_set : Reader → Option (List Str) → Option (List Str) → Bool
same_set r none c = false
same_set r (some a) none = false
same_set r (some a) (some c) =
    not (length a == 0) && length a == length c && all_in (map (norm r) a) (map (norm r) c)

unfoldable pub match_multi_set : Reader → Str → Str → Bool
unfolding beq
match_multi_set r ans correct =
    same_set r (r.parse_strings (trim_space ans)) (r.parse_strings (trim_space correct))

pub data Mark : Type 0 where
  right wrong by_hand : Mark

abbrev pub right_if : Bool → Mark
right_if true = right
right_if false = wrong

-- The switch over the type of a question.
unfoldable pub mark : Reader → Str → QuestionRow → Mark
unfolding equal_fold match_short_answer match_numeric match_multi_set beq
mark r ans q =
    if beq q.kind (codes "mcq") || beq q.kind (codes "truefalse")
    then right_if (equal_fold r (trim_space ans) (trim_space q.correct))
    else if beq q.kind (codes "short") || beq q.kind (codes "fill")
    then right_if (match_short_answer r ans q.correct)
    else if beq q.kind (codes "numeric")
    then right_if (match_numeric r ans q.correct)
    else if beq q.kind (codes "multi")
    then right_if (match_multi_set r ans q.correct)
    else by_hand

-- req.Answers[id]: a nil map, and a map without the key, give "".
abbrev pub answer_to : Option (Map Str) → Str → Str
answer_to none id = []
answer_to (some m) id = coalesce (lookup id m) []

pub record Tally : Type 0 where
  pub auto_score : ℕ
  pub total_points : ℕ
  pub total : ℕ
  pub correct_count : ℕ
  pub needs_manual : Bool

abbrev pub counted : QuestionRow → Tally → Tally
counted q t = record t { total = t.total + 1; total_points = t.total_points + q.points }

abbrev pub noted : Mark → QuestionRow → Tally → Tally
noted right q t = record t {
  auto_score = t.auto_score + q.points;
  correct_count = t.correct_count + 1;
}
noted wrong q t = t
noted by_hand q t = record t { needs_manual = true }

unfoldable pub grade_from : Reader → Option (Map Str) → List QuestionRow → Tally → Tally
unfolding mark lookup
grade_from r answers [] t = t
grade_from r answers (q ∷ qs) t =
    grade_from r answers qs (noted (mark r (answer_to answers q.id) q) q (counted q t))

unfoldable pub grade : Reader → Option (Map Str) → List QuestionRow → Tally
unfolding grade_from
grade r answers qs = grade_from r answers qs (record {
  auto_score = 0;
  total_points = 0;
  total = 0;
  correct_count = 0;
  needs_manual = false;
})

-- int(math.Round(autoScore / totalPoints * 100)), 0 without points
unfoldable pub percent_of : ℕ → ℕ → ℕ
percent_of score points = if ltb 0 points then (score * 200 + points) / (points * 2) else 0
