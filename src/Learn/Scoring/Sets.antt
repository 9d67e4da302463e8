-- ===== src/Learn/Scoring/Sets.antt =====
-- Multiple-response answers (lms_student.go, matchMultiSet): the comparison of an answer with its
-- key by length and by one inclusion.
use onrol_infra.Base.{
  ℕ, zero, suc, ◌≤◌, ◌≡◌, ◌≢◌, ◌↔◌, refl, arith, Bool, true, false, not, ◌&&◌, some, List, [], ◌∷◌,
  if◌then◌else◌, length, map, Str, beq, beq_iff, trim_space,
}
use onrol_infra.Learn.Scoring.{Reader, norm, mem, all_in, match_multi_set}

remove : Str → List Str → List Str
remove x [] = []
remove x (y ∷ ys) = if beq x y then ys else y ∷ remove x ys

length-remove : (x : Str) (ys : List Str) → mem x ys ≡ true → length ys ≡ suc (length (remove x ys))
unfolding remove
length-remove x [] h = absurd (cc)
length-remove x (y ∷ ys) h = ground (arith, length-remove x ys)

mem-remove :
    (x z : Str) (ys : List Str) → mem z ys ≡ true → beq x z ≡ false → mem z (remove x ys) ≡ true
unfolding remove
mem-remove x z [] h ne = absurd (cc)
mem-remove x z (y ∷ ys) h ne =
    ground (arith, beq_iff x y, beq_iff z y, beq_iff x z, mem-remove x z ys)

-- No text twice.
abbrev pub is_distinct : List Str → Bool
is_distinct [] = true
is_distinct (x ∷ xs) = not (mem x xs) && is_distinct xs

all_in-remove :
    (x : Str) (xs ys : List Str)
    → mem x xs ≡ false
    → all_in xs ys ≡ true
    → all_in xs (remove x ys) ≡ true
all_in-remove x [] ys h k = refl
all_in-remove x (z ∷ xs) ys h k = ground (arith, mem-remove x z ys, all_in-remove x xs ys)

all_in-weaken : (x : Str) (ys zs : List Str) → all_in ys zs ≡ true → all_in ys (x ∷ zs) ≡ true
all_in-weaken x [] zs h = refl
all_in-weaken x (y ∷ ys) zs h = ground (arith, all_in-weaken x ys zs)

all_in-unremove :
    (x : Str) (ys zs : List Str) → all_in (remove x ys) (x ∷ zs) ≡ true → all_in ys (x ∷ zs) ≡ true
unfolding remove
all_in-unremove x [] zs h = refl
all_in-unremove x (y ∷ ys) zs h = ground (arith, beq_iff x y, beq_iff y x, all_in-unremove x ys zs)

-- Distinct texts that all lie in a list no longer than they are make up that list.
all_in-converse :
    (xs ys : List Str)
    → is_distinct xs ≡ true
    → all_in xs ys ≡ true
    → length ys ≤ length xs
    → all_in ys xs ≡ true
all_in-converse [] [] d h le = refl
all_in-converse [] (y ∷ ys) d h le = absurd (omega arith)
all_in-converse (x ∷ xs) ys d h le = all_in-unremove x ys xs (
    all_in-weaken x (remove x ys) xs
      (ground (arith, length-remove x ys, all_in-remove x xs ys, all_in-converse xs (remove x ys))))

distinct-length :
    (xs ys : List Str) → is_distinct xs ≡ true → all_in xs ys ≡ true → length xs ≤ length ys
distinct-length [] ys d h = omega arith
distinct-length (x ∷ xs) ys d h =
    ground (arith, length-remove x ys, all_in-remove x xs ys, distinct-length xs (remove x ys))

length-map : (f : Str → Str) (xs : List Str) → length (map f xs) ≡ length xs
length-map f [] = refl
length-map f (x ∷ xs) = ground (arith, length-map f xs)

module _ (r : Reader) (ans correct : Str) (a c : List Str) where
  -- An answer and a key that name no option twice, up to case and the space around it: a non-empty
  -- answer is taken exactly where each option of the one is an option of the other.
  pub multi_exact :
      r.parse_strings (trim_space ans) ≡ some a
      → r.parse_strings (trim_space correct) ≡ some c
      → is_distinct (map (norm r) a) ≡ true
      → is_distinct (map (norm r) c) ≡ true
      → length a ≢ 0
      → (match_multi_set r ans correct ≡ true) ↔ (
          (all_in (map (norm r) a) (map (norm r) c) ≡ true)
          × (all_in (map (norm r) c) (map (norm r) a) ≡ true))
  unfolding match_multi_set
  multi_exact pa pc da dc some_option =
      let la = length-map (norm r) a in
      let lc = length-map (norm r) c in
      let xs = map (norm r) a in
      let ys = map (norm r) c in
      rw (pa, pc)
        (
          (λ h. ground (arith, la, lc, all_in-converse xs ys)),
          (λ h. ground (arith, la, lc, distinct-length xs ys, distinct-length ys xs)),
        )

abbrev pub repeat : ℕ → Str → List Str
repeat zero x = []
repeat (suc n) x = x ∷ repeat n x

length-repeat : (n : ℕ) (x : Str) → length (repeat n x) ≡ n
length-repeat zero x = refl
length-repeat (suc n) x = ground (arith, length-repeat n x)

repeat-all_in :
    (r : Reader) (n : ℕ) (x : Str) (want : List Str)
    → mem (norm r x) want ≡ true
    → all_in (map (norm r) (repeat n x)) want ≡ true
repeat-all_in r zero x want h = refl
repeat-all_in r (suc n) x want h = ground (arith, repeat-all_in r n x want)

-- One option of the key, named as often as the key has options, is taken for the whole key.
pub repeat_passes :
    (r : Reader) (ans correct x : Str) (c : List Str)
    → r.parse_strings (trim_space ans) ≡ some (repeat (length c) x)
    → r.parse_strings (trim_space correct) ≡ some c
    → mem (norm r x) (map (norm r) c) ≡ true
    → match_multi_set r ans correct ≡ true
unfolding match_multi_set
repeat_passes r ans correct x [] pa pc h = absurd (cc)
repeat_passes r ans correct x (k ∷ c) pa pc h =
    rw (pa, pc)
      (ground
        (arith, length-repeat (length c) x, repeat-all_in r (length c) x (map (norm r) (k ∷ c))))
