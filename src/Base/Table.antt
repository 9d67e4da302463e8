-- ===== src/Base/Table.antt =====
-- A table of the database, as the list of its rows.
use Prim.Native.Nat.{ℕ, ◌+◌, ◌≤◌}
use mathlib.Core.Path.{◌≡◌, refl}
use mathlib.Core.Bool.{Bool, true, false}
use mathlib.Core.List.{List, [], ◌∷◌}
use native.Mathlib.Omega.{arith}
use onrol_infra.Base.Tests.{if◌then◌else◌, leb}
use onrol_infra.Base.Lists.{count}

module _ {ℓ} {A : Type ℓ} where
  -- UPDATE … SET f WHERE p
  unfoldable pub update_where : (A → Bool) → (A → A) → List A → List A
  update_where p f [] = []
  update_where p f (x ∷ xs) = (if p x then f x else x) ∷ update_where p f xs

  -- DELETE … WHERE p
  unfoldable pub delete_where : (A → Bool) → List A → List A
  delete_where p [] = []
  delete_where p (x ∷ xs) = if p x then delete_where p xs else x ∷ delete_where p xs

  -- ORDER BY key; rows with equal keys keep their order.
  unfoldable pub insert_by : (A → ℕ) → A → List A → List A
  insert_by key x [] = x ∷ []
  insert_by key x (y ∷ ys) = if leb (key x) (key y) then x ∷ y ∷ ys else y ∷ insert_by key x ys

  unfoldable pub sort_by : (A → ℕ) → List A → List A
  unfolding insert_by
  sort_by key [] = []
  sort_by key (x ∷ xs) = insert_by key x (sort_by key xs)

module _ {ℓ} {A : Type ℓ} where
  -- An update that leaves a test alone leaves its count alone.
  pub count-update_same :
      (q p : A → Bool) (f : A → A) (xs : List A)
      → ((x : A) → p x ≡ true → q (f x) ≡ q x)
      → count q (update_where p f xs) ≡ count q xs
  unfolding update_where
  count-update_same q p f [] same = refl
  count-update_same q p f (x ∷ xs) same = ground (arith, same x, count-update_same q p f xs same)

  -- An update turns a test on for the rows that it changes at most.
  pub count-update-le :
      (q p : A → Bool) (f : A → A) (xs : List A)
      → count q (update_where p f xs) ≤ count q xs + count p xs
  unfolding update_where
  count-update-le q p f [] = omega arith
  count-update-le q p f (x ∷ xs) = ground (arith, count-update-le q p f xs)

  -- An update that turns a test off where it holds.
  pub count-update_off :
      (q p : A → Bool) (f : A → A) (xs : List A)
      → ((x : A) → q (f x) ≡ false)
      → ((x : A) → p x ≡ true → q x ≡ true)
      → count q (update_where p f xs) + count p xs ≡ count q xs
  unfolding update_where
  count-update_off q p f [] off on = omega arith
  count-update_off q p f (x ∷ xs) off on =
      ground (arith, off x, on x, count-update_off q p f xs off on)

  -- An update that only turns a test off.
  pub count-update_down :
      (q p : A → Bool) (f : A → A) (xs : List A)
      → ((x : A) → q (f x) ≡ true → q x ≡ true)
      → count q (update_where p f xs) ≤ count q xs
  unfolding update_where
  count-update_down q p f [] down = omega arith
  count-update_down q p f (x ∷ xs) down = ground (arith, down x, count-update_down q p f xs down)
