-- ===== src/Learn/Outline/Placed.antt =====
-- What nestModules makes of the modules of a course (lms_courses.go).
use mathlib.Core.List.{append-nil, append_assoc}
use onrol_infra.Base.{
  ◌≡◌, refl, sym, ap, ◌∙◌, subst, arith, Bool, false, not, ◌&&◌, Option, none, some, List, [], ◌∷◌,
  ◌++◌, if◌then◌else◌, is_some, select, Str, beq, beq_iff, is_empty, Map, lookup, insert,
  lookup-insert, Bool-cases, Option-cases, inl, inr,
}
use onrol_infra.Learn.Outline.{Node, parent_in, adopt, nest_modules}

-- The parent of a module, if it is one of the set.
abbrev pub parent_of : Map Node → Str → Option Str
parent_of mods k = parent_in mods (lookup k mods)

abbrev pub is_top_level : Map Node → Str → Bool
is_top_level mods k = not (is_some (parent_of mods k))

abbrev pub names : Str → Option Str → Bool
names p none = false
names p (some q) = beq q p

abbrev pub is_under : Map Node → Str → Str → Bool
is_under mods p k = names p (parent_of mods k)

select-same :
    (p q : Str → Bool) (xs : List Str) → ((x : Str) → p x ≡ q x) → select p xs ≡ select q xs
select-same p q [] h = refl
select-same p q (x ∷ xs) h = ground (arith, h x, select-same p q xs h)

module _ (mods : Map Node) (p : Str) (n n' : Node) (is_there : lookup p mods ≡ some n)
    (same : n'.row ≡ n.row) where
  inserted_some : (q : Str) → is_some (lookup q (insert p n' mods)) ≡ is_some (lookup q mods)
  inserted_some q = ground (arith, lookup-insert p q n' mods, beq_iff p q)

  parent_in-insert : (o : Option Node) → parent_in (insert p n' mods) o ≡ parent_in mods o
  parent_in-insert none = refl
  parent_in-insert (some m) = go m.row.parent_module_id
    where
      go :
          (o : Option Str)
          → ◌≡◌ {A = Option Str}
              (elim o [
                | none ↦ none
                | some q ↦
                    if not (is_empty q) && is_some (lookup q (insert p n' mods))
                    then some q
                    else none
              ])
              (elim o [
                | none ↦ none
                | some q ↦ if not (is_empty q) && is_some (lookup q mods) then some q else none
              ])
      go none = refl
      go (some q) = rw (inserted_some q) refl

  parent_in-row : parent_in mods (some n') ≡ parent_in mods (some n)
  parent_in-row = rw same refl

  parent_of-insert : (j : Str) → parent_of (insert p n' mods) j ≡ parent_of mods j
  parent_of-insert j = elim (Bool-cases (beq p j)) [
    | inl e ↦
        let here : lookup j mods ≡ some n = ground (arith, beq_iff p j) in
        let there : lookup j (insert p n' mods) ≡ some n' = lookup-insert p j n' mods ∙ rw e refl in
        parent_in-insert (lookup j (insert p n' mods))
        ∙ ap (parent_in mods) there
        ∙ parent_in-row
        ∙ ap (parent_in mods) (sym here)
    | inr e ↦
        parent_in-insert (lookup j (insert p n' mods))
        ∙ ap (parent_in mods) (lookup-insert p j n' mods ∙ rw e refl)
  ]

-- A parent in the set has an object.
parent_there :
    (mods : Map Node) (o : Option Node) (q : Str)
    → parent_in mods o ≡ some q
    → (m : Node) × (lookup q mods ≡ some m)
parent_there mods none q h = absurd (cc)
parent_there mods (some n) q h = go n.row.parent_module_id h
  where
    go :
        (o : Option Str)
        → ◌≡◌ {A = Option Str}
            (elim o [
              | none ↦ none
              | some p ↦ if not (is_empty p) && is_some (lookup p mods) then some p else none
            ])
            (some q)
        → (m : Node) × (lookup q mods ≡ some m)
    go none k = absurd (cc)
    go (some p) k = elim (Option-cases (lookup p mods)) [
      | inl e ↦ absurd (ground arith)
      | inr (m, e) ↦
          let is_p : p ≡ q = ground arith in (m, subst (λ (x : Str). lookup x mods ≡ some m) is_p e)
    ]

abbrev adopted : Node → Str → Node
adopted n k = record n { submodules = n.submodules ++ k ∷ [] }

adopt_lem :
    (mods : Map Node) (q k : Str) (m : Node)
    → lookup q mods ≡ some m
    → adopt q (lookup q mods) k mods ≡ insert q (adopted m k) mods
adopt_lem mods q k m e = rw e refl

place_none :
    (mods : Map Node) (order ordered : List Str) (k : Str)
    → parent_of mods k ≡ none
    → nest_modules mods (k ∷ order) ordered ≡ nest_modules mods order (ordered ++ k ∷ [])
unfolding nest_modules
place_none mods order ordered k e = rw e refl

place_some :
    (mods : Map Node) (order ordered : List Str) (k q : Str) (m : Node)
    → parent_of mods k ≡ some q
    → lookup q mods ≡ some m
    → nest_modules mods (k ∷ order) ordered
      ≡ nest_modules (insert q (adopted m k) mods) order ordered
unfolding nest_modules
place_some mods order ordered k q m e there =
    rw e (ap (λ (x : Map Node). nest_modules x order ordered) (adopt_lem mods q k m there))

top-same :
    (mods : Map Node) (q k : Str) (m : Node)
    → lookup q mods ≡ some m
    → (j : Str) → is_top_level (insert q (adopted m k) mods) j ≡ is_top_level mods j
top-same mods q k m there j =
    ap (λ (o : Option Str). not (is_some o)) (parent_of-insert mods q m (adopted m k) there refl j)

under-same :
    (mods : Map Node) (q k : Str) (m : Node) (p : Str)
    → lookup q mods ≡ some m
    → (j : Str) → is_under (insert q (adopted m k) mods) p j ≡ is_under mods p j
under-same mods q k m p there j =
    ap (names p) (parent_of-insert mods q m (adopted m k) there refl j)

nest-tops :
    (order : List Str) (mods : Map Node) (ordered : List Str)
    → (nest_modules mods order ordered).1 ≡ ordered ++ select (is_top_level mods) order
unfolding nest_modules
nest-tops [] mods ordered = sym (append-nil ordered)
nest-tops (k ∷ order) mods ordered = elim (Option-cases (parent_of mods k)) [
  | inl e ↦
      ap (λ (x : Map Node × List Str). x.1) (place_none mods order ordered k e)
      ∙ nest-tops order mods (ordered ++ k ∷ [])
      ∙ append_assoc ordered (k ∷ []) (select (is_top_level mods) order)
      ∙ rw e refl
  | inr (q, e) ↦
      let (m, there) = parent_there mods (lookup k mods) q e in
      ap (λ (x : Map Node × List Str). x.1) (place_some mods order ordered k q m e there)
      ∙ nest-tops order (insert q (adopted m k) mods) ordered
      ∙ ap (λ xs. ordered ++ xs)
          (select-same (is_top_level (insert q (adopted m k) mods)) (is_top_level mods) order
            (top-same mods q k m there))
      ∙ rw e refl
]

-- A module's object with more submodules behind those it has.
abbrev pub with_more : Node → List Str → Node
with_more n ks = record n { submodules = n.submodules ++ ks }

nest-subs :
    (order : List Str) (mods : Map Node) (ordered : List Str) (p : Str) (n : Node)
    → lookup p mods ≡ some n
    → lookup p (nest_modules mods order ordered).0
      ≡ some (with_more n (select (is_under mods p) order))
unfolding nest_modules
nest-subs [] mods ordered p n h =
    h ∙ ap (λ (xs : List Str). some (record n { submodules = xs })) (sym (append-nil n.submodules))
nest-subs (k ∷ order) mods ordered p n h = elim (Option-cases (parent_of mods k)) [
  | inl e ↦
      ap (λ (x : Map Node × List Str). lookup p x.0) (place_none mods order ordered k e)
      ∙ nest-subs order mods (ordered ++ k ∷ []) p n h
      ∙ ap (λ (xs : List Str). some (with_more n xs)) (rw e refl)
  | inr (q, e) ↦
      let (m, there) = parent_there mods (lookup k mods) q e in
      let mods' = insert q (adopted m k) mods in
      let later =
        select-same (is_under mods' p) (is_under mods p) order (under-same mods q k m p there) in
      ap (λ (x : Map Node × List Str). lookup p x.0) (place_some mods order ordered k q m e there)
      ∙ elim (Bool-cases (beq q p)) [
        | inl same ↦
            let is_p : q ≡ p = (beq_iff q p).0 same in
            let is_m : m ≡ n = ground arith in
            nest-subs order mods' ordered p (adopted m k)
              (lookup-insert q p (adopted m k) mods ∙ rw same refl)
            ∙ ap (λ (xs : List Str). some (with_more (adopted m k) xs)) later
            ∙ ap (λ (x : Node). some (with_more (adopted x k) (select (is_under mods p) order)))
                is_m
            ∙ ap (λ (xs : List Str). some (record n { submodules = xs }))
                (append_assoc n.submodules (k ∷ []) (select (is_under mods p) order))
            ∙ ap (λ (xs : List Str). some (with_more n xs)) (rw e (rw same refl))
        | inr other ↦
            nest-subs order mods' ordered p n (lookup-insert q p (adopted m k) mods ∙ rw other h)
            ∙ ap (λ (xs : List Str). some (with_more n xs)) later
            ∙ ap (λ (xs : List Str). some (with_more n xs)) (rw e (rw other refl))
      ]
]

-- nestModules gives as the top level, in their order, exactly the modules that name no parent in the
-- set; and the object of each module of the set has gained, in their order, exactly the modules that
-- name it as their parent.
pub nest-places :
    (mods : Map Node) (order : List Str)
    → let (objects, top) = nest_modules mods order [] in
      (top ≡ select (is_top_level mods) order)
      × ((p : Str) (n : Node)
          → lookup p mods ≡ some n
          → lookup p objects ≡ some (with_more n (select (is_under mods p) order)))
nest-places mods order = (nest-tops order mods [], nest-subs order mods [])
