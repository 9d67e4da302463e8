-- ===== src/Base/Http.antt =====
-- What a handler answers: a value, or an error with its HTTP status and message.
use Prim.Native.Nat.{ℕ}
use Prim.Native.String.{String}
use mathlib.Core.Path.{◌≡◌, refl}
use mathlib.Core.Bool.{Bool, true, false}
use mathlib.Core.List.{List, [], ◌∷◌}
use onrol_infra.Base.Tests.{if◌then◌else◌}
use onrol_infra.Base.Text.{Str}

-- A message is put together from literals and from values of the request.
pub data Part : Type 0 where
  lit : String → Part
  arg : Str → Part

pub record HttpError : Type 0 where
  pub status : ℕ
  pub message : List Part

pub data Reply {ℓ} (A : Type ℓ) : Type ℓ where
  ok : A → Reply A
  fail : HttpError → Reply A

-- fiber.NewError
abbrev pub refuse {ℓ} : {A : Type ℓ} → ℕ → String → Reply A
refuse n m = fail (record { status = n; message = lit m ∷ [] })

abbrev pub refuse_with {ℓ} : {A : Type ℓ} → ℕ → List Part → Reply A
refuse_with n m = fail (record { status = n; message = m })

infixl 5 ◌>>=◌ ◌>>◌
abbrev pub ◌>>=◌ {ℓ κ} : {A : Type ℓ} {B : Type κ} → Reply A → (A → Reply B) → Reply B
ok a >>= f = f a
fail e >>= f = fail e

abbrev pub ◌>>◌ {ℓ} : {B : Type ℓ} → Reply (Unit {0}) → Reply B → Reply B
m >> k = m >>= λ _. k

-- Go on if the test holds; else answer with the error.
abbrev pub require : Bool → ℕ → String → Reply (Unit {0})
require true n m = ok tt
require false n m = refuse n m

abbrev pub status_of {ℓ} : {A : Type ℓ} → Reply A → ℕ
status_of (ok a) = 200
status_of (fail e) = e.status

-- Two equal answers that both carry a value.
pub same_answer :
    {A B : Type 0} (x y : A) (a b : B)
    → ◌≡◌ {A = Reply A × B} (ok x, a) (ok y, b)
    → (x ≡ y) × (a ≡ b)
same_answer x y a b h = (cc, cc)

-- An answer with a value came through the test.
pub let_through :
    {A B : Type 0} (t : Bool) (r : Reply A × B) (n : ℕ) (m : String) (k : B) (x : A) (b : B)
    → (if t then r else (refuse n m, k)) ≡ (ok x, b)
    → (t ≡ true) × (r ≡ (ok x, b))
let_through true r n m k x b h = (refl, h)
let_through false r n m k x b h = absurd (cc)

pub ok-if :
    {A : Type 0} (t : Bool) (x y : A) (n : ℕ) (m : String)
    → (if t then ok x else refuse n m) ≡ ok y
    → x ≡ y
ok-if true x y n m h = cc
ok-if false x y n m h = absurd (cc)
