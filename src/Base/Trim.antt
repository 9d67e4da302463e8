-- ===== src/Base/Trim.antt =====
-- What strings.TrimSpace leaves as it is, and that it adds nothing.
use Prim.Native.Nat.{ℕ, zero, suc, ◌≤◌}
use mathlib.Core.Path.{◌≡◌, refl, ap, ◌∙◌}
use mathlib.Core.Bool.{Bool, true, false, ◌&&◌, ◌||◌}
use mathlib.Core.Option.{none, some}
use mathlib.Core.List.{List, [], ◌∷◌, map, reverse, reverse_aux, reverse-reverse}
use mathlib.Core.Logic.{inl, inr}
use native.Mathlib.Omega.{arith}
use onrol_infra.Base.Tests.{◌==◌, ltb, Option-cases}
use onrol_infra.Base.Lists.{length, any}
use onrol_infra.Base.Text.{Str, spaces, strip, strip_any, trim_from, trim_space}

-- Whether a text of the list begins with the byte.
abbrev pub begins : ℕ → List Str → Bool
begins b [] = false
begins b ([] ∷ ps) = true
begins b ((y ∷ p) ∷ ps) = y == b || begins b ps

strip_any-begins :
    (ps : List Str) (x : ℕ) (s : Str) → begins x ps ≡ false → strip_any ps (x ∷ s) ≡ none
unfolding strip_any strip
strip_any-begins [] x s h = refl
strip_any-begins ([] ∷ ps) x s h = absurd (cc)
strip_any-begins ((y ∷ p) ∷ ps) x s h = ground (arith, strip_any-begins ps x s)

trim_from-begins :
    (ps : List Str) (n : ℕ) (x : ℕ) (s : Str) → begins x ps ≡ false → trim_from ps n (x ∷ s) ≡ x ∷ s
unfolding trim_from
trim_from-begins ps zero x s h = refl
trim_from-begins ps (suc n) x s h = rw (strip_any-begins ps x s h, trim_from) refl

any-reverse_aux :
    (p : ℕ → Bool) (s r : Str) → any p s ≡ false → any p r ≡ false → any p (reverse_aux s r) ≡ false
any-reverse_aux p [] r h k = k
any-reverse_aux p (b ∷ s) r h k = any-reverse_aux p s (b ∷ r) (ground arith) (ground arith)

-- A byte that a space begins with, or ends with.
abbrev pub is_edge : ℕ → Bool
is_edge b = begins b spaces || begins b (map reverse spaces)

strip_any-empty : (ps : List Str) → begins 0 ps ≡ false → strip_any ps [] ≡ none
unfolding strip_any strip
strip_any-empty [] h = refl
strip_any-empty ([] ∷ ps) h = absurd (cc)
strip_any-empty ((y ∷ p) ∷ ps) h = strip_any-empty ps (ground arith)

trim_from-edge :
    (ps : List Str) (n : ℕ) (s : Str)
    → begins 0 ps ≡ false
    → any (λ b. begins b ps) s ≡ false
    → trim_from ps n s ≡ s
unfolding trim_from
trim_from-edge ps zero [] k h = refl
trim_from-edge ps (suc n) [] k h = rw (strip_any-empty ps k, trim_from) refl
trim_from-edge ps n (b ∷ s) k h = trim_from-begins ps n b s (ground arith)

-- Whether every one of the texts begins with a byte below the one bound or above the other.
abbrev outside : ℕ → ℕ → List Str → Bool
outside m n [] = true
outside m n ([] ∷ ps) = false
outside m n ((y ∷ p) ∷ ps) = (ltb y m || ltb n y) && outside m n ps

begins-outside :
    (m n b : ℕ) (ps : List Str) → m ≤ b → b ≤ n → outside m n ps ≡ true → begins b ps ≡ false
begins-outside m n b [] lo hi h = refl
begins-outside m n b ([] ∷ ps) lo hi h = absurd (cc)
begins-outside m n b ((y ∷ p) ∷ ps) lo hi h = ground (arith, begins-outside m n b ps lo hi)

-- A byte from the dash to the small z is none of them.
pub is_edge-printed : (b : ℕ) → b'-' ≤ b → b ≤ b'z' → is_edge b ≡ false
is_edge-printed b lo hi =
    rw (begins-outside b'-' b'z' b spaces lo hi refl)
      (begins-outside b'-' b'z' b (map reverse spaces) lo hi refl)

or_false : (a b : Bool) → a || b ≡ false → (a ≡ false) × (b ≡ false)
or_false true b h = absurd (cc)
or_false false b h = (refl, h)

pub any-weaken :
    (p q : ℕ → Bool) (s : Str)
    → ((b : ℕ) → p b ≡ false → q b ≡ false)
    → any p s ≡ false
    → any q s ≡ false
any-weaken p q [] f h = refl
any-weaken p q (b ∷ s) f h = ground (arith, f b, any-weaken p q s f)

-- A text without such bytes has nothing to trim.
pub trim_space-bare : (s : Str) → any is_edge s ≡ false → trim_space s ≡ s
unfolding trim_space
trim_space-bare s h =
    let front = any-weaken is_edge (λ b. begins b spaces) s (λ b h. (or_false _ _ h).0) h in
    let back =
      any-weaken is_edge (λ b. begins b (map reverse spaces)) s (λ b h. (or_false _ _ h).1) h in
    rw (trim_from-edge spaces (length s) s refl front) (
      ap reverse (
        trim_from-edge (map reverse spaces) (length s) (reverse s) refl
          (any-reverse_aux _ s [] back refl))
      ∙ reverse-reverse s)

strip-any : (q : ℕ → Bool) (s p r : Str) → strip s p ≡ some r → any q s ≡ false → any q r ≡ false
unfolding strip
strip-any q s [] r e h = ground arith
strip-any q [] (y ∷ p) r e h = absurd (cc)
strip-any q (x ∷ s) (y ∷ p) r e h = ground (arith, strip-any q s p r)

strip_any-any :
    (q : ℕ → Bool) (ps : List Str) (s r : Str)
    → strip_any ps s ≡ some r
    → any q s ≡ false
    → any q r ≡ false
unfolding strip_any
strip_any-any q [] s r e h = absurd (cc)
strip_any-any q (p ∷ ps) s r e h = elim (Option-cases (strip s p)) [
  | inl n ↦ strip_any-any q ps s r (rw (n, strip_any) at e) h
  | inr t ↦ strip-any q s p r (t.1 ∙ (rw (t.1, strip_any) at e)) h
]

trim_from-any :
    (q : ℕ → Bool) (ps : List Str) (n : ℕ) (s : Str)
    → any q s ≡ false
    → any q (trim_from ps n s) ≡ false
unfolding trim_from
trim_from-any q ps zero s h = h
trim_from-any q ps (suc n) s h = elim (Option-cases (strip_any ps s)) [
  | inl e ↦ rw (e, trim_from) h
  | inr t ↦ rw (t.1, trim_from) (trim_from-any q ps n t.0 (strip_any-any q ps s t.0 t.1 h))
]

pub trim_space-any : (q : ℕ → Bool) (s : Str) → any q s ≡ false → any q (trim_space s) ≡ false
unfolding trim_space
trim_space-any q s h =
    let t = trim_from spaces (length s) s in
    let u = trim_from (map reverse spaces) (length t) (reverse t) in
    any-reverse_aux q u []
      (trim_from-any q (map reverse spaces) (length t) (reverse t)
        (any-reverse_aux q t [] (trim_from-any q spaces (length s) s h) refl))
      refl
