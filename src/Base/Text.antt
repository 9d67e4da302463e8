-- ===== src/Base/Text.antt =====
-- A Go string is its bytes. Identifiers, tokens and names are all of this type.
use Prim.Native.Nat.{ℕ, zero, suc}
use Prim.Native.Char.{code}
use Prim.Native.String.{String}
use mathlib.Core.Path.{◌≡◌, refl}
use mathlib.Core.Logic.{◌↔◌}
use mathlib.Core.Bool.{Bool, true, false, ◌&&◌}
use mathlib.Core.Option.{Option, none, some}
use mathlib.Core.List.{List, [], ◌∷◌, ◌++◌, map, reverse}
use native.Mathlib.Omega.{arith}
use onrol_infra.Base.Tests.{◌==◌, leb, if◌then◌else◌}
use onrol_infra.Base.Lists.{length, take}

abbrev pub Str : Type 0
Str = List ℕ

-- The bytes of an ASCII literal.
abbrev pub codes : String → Str
codes String.[] = []
codes (String.◌∷◌ c s) = code c ∷ codes s

unfoldable pub beq : Str → Str → Bool
beq [] [] = true
beq [] (y ∷ ys) = false
beq (x ∷ xs) [] = false
beq (x ∷ xs) (y ∷ ys) = x == y && beq xs ys

pub beq_iff : (s t : Str) → (beq s t ≡ true) ↔ (s ≡ t)
unfolding beq
beq_iff [] [] = ground arith
beq_iff [] (y ∷ ys) = ground arith
beq_iff (x ∷ xs) [] = ground arith
beq_iff (x ∷ xs) (y ∷ ys) = ground (arith, beq_iff xs ys)

pub beq_refl : (s : Str) → beq s s ≡ true
beq_refl s = (beq_iff s s).1 refl

abbrev pub is_empty : Str → Bool
is_empty [] = true
is_empty (x ∷ xs) = false

-- strings.HasPrefix
unfoldable pub has_prefix : Str → Str → Bool
has_prefix s [] = true
has_prefix [] (y ∷ p) = false
has_prefix (x ∷ s) (y ∷ p) = x == y && has_prefix s p

pub has_prefix-append : (p s : Str) → has_prefix (p ++ s) p ≡ true
unfolding has_prefix
has_prefix-append [] s = refl
has_prefix-append (x ∷ p) s = ground (arith, has_prefix-append p s)

-- The UTF-8 forms of the characters that unicode.IsSpace accepts.
abbrev pub spaces : List Str
spaces =
    (0x20 ∷ [])
    ∷ (0x09 ∷ [])
    ∷ (0x0a ∷ [])
    ∷ (0x0b ∷ [])
    ∷ (0x0c ∷ [])
    ∷ (0x0d ∷ [])
    ∷ (0xc2 ∷ 0x85 ∷ [])
    ∷ (0xc2 ∷ 0xa0 ∷ [])
    ∷ (0xe1 ∷ 0x9a ∷ 0x80 ∷ [])
    ∷ (0xe2 ∷ 0x80 ∷ 0x80 ∷ [])
    ∷ (0xe2 ∷ 0x80 ∷ 0x81 ∷ [])
    ∷ (0xe2 ∷ 0x80 ∷ 0x82 ∷ [])
    ∷ (0xe2 ∷ 0x80 ∷ 0x83 ∷ [])
    ∷ (0xe2 ∷ 0x80 ∷ 0x84 ∷ [])
    ∷ (0xe2 ∷ 0x80 ∷ 0x85 ∷ [])
    ∷ (0xe2 ∷ 0x80 ∷ 0x86 ∷ [])
    ∷ (0xe2 ∷ 0x80 ∷ 0x87 ∷ [])
    ∷ (0xe2 ∷ 0x80 ∷ 0x88 ∷ [])
    ∷ (0xe2 ∷ 0x80 ∷ 0x89 ∷ [])
    ∷ (0xe2 ∷ 0x80 ∷ 0x8a ∷ [])
    ∷ (0xe2 ∷ 0x80 ∷ 0xa8 ∷ [])
    ∷ (0xe2 ∷ 0x80 ∷ 0xa9 ∷ [])
    ∷ (0xe2 ∷ 0x80 ∷ 0xaf ∷ [])
    ∷ (0xe2 ∷ 0x81 ∷ 0x9f ∷ [])
    ∷ (0xe3 ∷ 0x80 ∷ 0x80 ∷ [])
    ∷ []

-- What is left of a text behind a prefix.
unfoldable pub strip : Str → Str → Option Str
strip s [] = some s
strip [] (y ∷ p) = none
strip (x ∷ s) (y ∷ p) = if x == y then strip s p else none

unfoldable pub strip_any : List Str → Str → Option Str
strip_any [] s = none
strip_any (p ∷ ps) s = elim (strip s p) [ some r ↦ some r | none ↦ strip_any ps s ]

-- The rounds are bounded by the length: each removes a byte at least.
unfoldable pub trim_from : List Str → ℕ → Str → Str
trim_from ps zero s = s
trim_from ps (suc n) s = elim (strip_any ps s) [ some r ↦ trim_from ps n r | none ↦ s ]

-- strings.TrimSpace
unfoldable pub trim_space : Str → Str
unfolding strip strip_any trim_from
trim_space s =
    let t = trim_from spaces (length s) s in
    reverse (trim_from (map reverse spaces) (length t) (reverse t))

-- if len(s) > n { s = s[:n] }
abbrev pub cut : ℕ → Str → Str
cut n s = if leb (length s) n then s else take n s
