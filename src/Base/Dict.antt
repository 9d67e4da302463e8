-- ===== src/Base/Dict.antt =====
-- A Go map with string keys, as an association list in the order of some iteration over it.
use mathlib.Core.Path.{◌≡◌, refl}
use mathlib.Core.Option.{Option, none, some}
use mathlib.Core.List.{List, [], ◌∷◌}
use native.Mathlib.Omega.{arith}
use onrol_infra.Base.Tests.{if◌then◌else◌}
use onrol_infra.Base.Text.{Str, beq, beq_iff}

abbrev pub Map {ℓ} : Type ℓ → Type ℓ
Map V = List (Str × V)

module _ {ℓ} {V : Type ℓ} where
  unfoldable pub lookup : Str → Map V → Option V
  lookup k [] = none
  lookup k ((j, v) ∷ m) = if beq j k then some v else lookup k m

  -- m[k] = v
  unfoldable pub insert : Str → V → Map V → Map V
  insert k v [] = (k, v) ∷ []
  insert k v ((j, w) ∷ m) = if beq j k then (j, v) ∷ m else (j, w) ∷ insert k v m

  abbrev pub entry_set : Str → Option V → Map V → Map V
  entry_set j none m = m
  entry_set j (some v) m = (j, v) ∷ m

  -- for k, v := range m: the body gives a new value, or deletes the entry.
  unfoldable pub update_all : (Str → V → Option V) → Map V → Map V
  update_all f [] = []
  update_all f ((j, v) ∷ m) = entry_set j (f j v) (update_all f m)

  -- delete(m, k)
  unfoldable pub delete : Str → Map V → Map V
  delete k = update_all λ j v. if beq j k then none else some v

  abbrev pub IsUnique : Map V → Type ℓ
  IsUnique [] = Unit
  IsUnique ((j, v) ∷ m) = (lookup j m ≡ none) × IsUnique m

module _ {ℓ} {V : Type ℓ} where
  pub lookup-insert :
      (k j : Str) (v : V) (m : Map V)
      → lookup j (insert k v m) ≡ (if beq k j then some v else lookup j m)
  unfolding lookup insert
  lookup-insert k j v [] = refl
  lookup-insert k j v ((i, w) ∷ m) =
      ground (arith, beq_iff k j, beq_iff i k, beq_iff i j, lookup-insert k j v m)

  pub insert-IsUnique : (k : Str) (v : V) (m : Map V) → IsUnique m → IsUnique (insert k v m)
  unfolding insert lookup
  insert-IsUnique k v [] u = (refl, tt)
  insert-IsUnique k v ((i, w) ∷ m) u =
      ground (arith, beq_iff i k, beq_iff k i, insert-IsUnique k v m, lookup-insert k i v m)

  pub lookup-update_none :
      (f : Str → V → Option V) (k : Str) (m : Map V)
      → lookup k m ≡ none
      → lookup k (update_all f m) ≡ none
  unfolding lookup update_all
  lookup-update_none f k [] h = refl
  lookup-update_none f k ((i, w) ∷ m) h = ground (arith, lookup-update_none f k m)

  pub update_all-IsUnique :
      (f : Str → V → Option V) (m : Map V) → IsUnique m → IsUnique (update_all f m)
  unfolding update_all
  update_all-IsUnique f [] u = tt
  update_all-IsUnique f ((i, w) ∷ m) u =
      ground (arith, update_all-IsUnique f m, lookup-update_none f i m)

  abbrev pub bind_at : (Str → V → Option V) → Str → Option V → Option V
  bind_at f k none = none
  bind_at f k (some v) = f k v

  pub lookup-update_all :
      (f : Str → V → Option V) (k : Str) (m : Map V)
      → IsUnique m
      → lookup k (update_all f m) ≡ bind_at f k (lookup k m)
  unfolding lookup update_all
  lookup-update_all f k [] u = refl
  lookup-update_all f k ((i, w) ∷ m) u =
      ground (arith, beq_iff i k, lookup-update_all f k m, lookup-update_none f i m)

  pub delete-IsUnique : (k : Str) (m : Map V) → IsUnique m → IsUnique (delete k m)
  unfolding delete
  delete-IsUnique k m u = update_all-IsUnique _ m u

  pub lookup-delete :
      (k j : Str) (m : Map V)
      → IsUnique m
      → lookup j (delete k m) ≡ (if beq k j then none else lookup j m)
  unfolding delete
  lookup-delete k j m u = ground (
    arith,
    lookup-update_all (λ (i : Str) (v : V). if beq i k then none else some v) j m u,
    beq_iff j k,
    beq_iff k j,
  )
