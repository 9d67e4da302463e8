-- ===== src/Learn/Modules/Nested.antt =====
-- Submodules stand one level deep: what an edit of the list of modules keeps (lms_courses.go).
use onrol_infra.Base.{
  ◌≡◌, refl, ◌∙◌, arith, Bool, true, false, ◌&&◌, Option, none, some, List, [], ◌∷◌, ◌++◌, find,
  any, Str, beq, beq_iff, Bool-cases, inl, inr, update_where, delete_where,
}
use onrol_infra.Learn.Tables.{School, ModuleRow, found}
use onrol_infra.Learn.Modules.{
  ModuleStmt, read_parent, module_of, is_top, is_parent_in, parent_fits, edit_module_row, is_or_in,
}

-- A top-level module of a course.
abbrev pub is_top_of : Str → Str → ModuleRow → Bool
is_top_of id course m = beq m.id id && beq m.course_id course && is_top m

abbrev pub has_place : List ModuleRow → ModuleRow → Bool
has_place ms m = elim m.parent_module_id [ none ↦ true | some p ↦ any (is_top_of p m.course_id) ms ]

abbrev pub AllPlaced : List ModuleRow → List ModuleRow → Type 0
AllPlaced ms [] = Unit {0}
AllPlaced ms (n ∷ ns) = (has_place ms n ≡ true) × AllPlaced ms ns

-- The parent of every submodule is a top-level module of the same course.
abbrev pub IsNested : School → Type 0
IsNested s = AllPlaced s.modules s.modules

any-append :
    (t : ModuleRow → Bool) (ms : List ModuleRow) (m : ModuleRow)
    → any t ms ≡ true
    → any t (ms ++ m ∷ []) ≡ true
any-append t [] m h = absurd (cc)
any-append t (n ∷ ms) m h = ground (arith, any-append t ms m)

any-update :
    (t p : ModuleRow → Bool) (f : ModuleRow → ModuleRow) (ms : List ModuleRow)
    → ((m : ModuleRow) → t (f m) ≡ t m)
    → any t (update_where p f ms) ≡ any t ms
unfolding update_where
any-update t p f [] same = refl
any-update t p f (m ∷ ms) same = ground (arith, same m, any-update t p f ms same)

any-delete :
    (t d : ModuleRow → Bool) (ms : List ModuleRow)
    → ((m : ModuleRow) → t m ≡ true → d m ≡ false)
    → any t ms ≡ true
    → any t (delete_where d ms) ≡ true
unfolding delete_where
any-delete t d [] spare h = absurd (cc)
any-delete t d (m ∷ ms) spare h = ground (arith, spare m, any-delete t d ms spare)

any-find :
    (t p : ModuleRow → Bool) (ms : List ModuleRow) (m : ModuleRow)
    → find p ms ≡ some m
    → (p m ≡ true → t m ≡ true)
    → any t ms ≡ true
any-find t p [] m e h = absurd (cc)
any-find t p (n ∷ ms) m e h = ground (arith, any-find t p ms m)

pub append-AllPlaced :
    (ms ns : List ModuleRow) (m : ModuleRow) → AllPlaced ms ns → AllPlaced (ms ++ m ∷ []) ns
append-AllPlaced ms [] m h = tt
append-AllPlaced ms (n ∷ ns) m h = (place n.parent_module_id refl h.0, append-AllPlaced ms ns m h.1)
  where
    place :
        (o : Option Str)
        → n.parent_module_id ≡ o
        → has_place ms n ≡ true
        → has_place (ms ++ m ∷ []) n ≡ true
    place none e k = rw e
    place (some p) e k = rw e (any-append (is_top_of p n.course_id) ms m (ground (arith, k)))

pub insert-AllPlaced :
    (ms ns : List ModuleRow) (m : ModuleRow)
    → AllPlaced ms ns
    → has_place ms m ≡ true
    → AllPlaced ms (ns ++ m ∷ [])
insert-AllPlaced ms [] m h k = (k, tt)
insert-AllPlaced ms (n ∷ ns) m h k = (h.0, insert-AllPlaced ms ns m h.1 k)

pub parent_fits_lem :
    (up : ModuleStmt → Bool) (s : School) (m : ModuleRow)
    → parent_fits up m.course_id s m.parent_module_id ≡ true
    → has_place s.modules m ≡ true
parent_fits_lem up s m h = go m.parent_module_id refl h
  where
    top :
        (p : Str) (o : Option ModuleRow)
        → module_of p s ≡ o
        → is_parent_in m.course_id (found (up read_parent) o) ≡ true
        → any (is_top_of p m.course_id) s.modules ≡ true
    top p none e k = absurd (ground arith)
    top p (some w) e k =
        any-find (is_top_of p m.course_id) (λ n. beq n.id p) s.modules w e (λ y. ground arith)

    go :
        (o : Option Str)
        → m.parent_module_id ≡ o
        → parent_fits up m.course_id s o ≡ true
        → has_place s.modules m ≡ true
    go none e k = rw e
    go (some p) e k = rw e (top p (module_of p s) refl k)

-- An edit that leaves ids, courses and parents alone.
abbrev pub Stays : (ModuleRow → ModuleRow) → Type 0
Stays f =
    (m : ModuleRow)
    → ((f m).id ≡ m.id)
      × ((f m).course_id ≡ m.course_id)
      × ((f m).parent_module_id ≡ m.parent_module_id)

Stays-top :
    (f : ModuleRow → ModuleRow)
    → Stays f
    → (p course : Str) (m : ModuleRow) → is_top_of p course (f m) ≡ is_top_of p course m
Stays-top f st p course m = rw ((st m).0, (st m).1, (st m).2) refl

module _ (p : ModuleRow → Bool) (f : ModuleRow → ModuleRow) (st : Stays f)
    (ms : List ModuleRow) where
  place-update : (n : ModuleRow) → has_place ms n ≡ true → has_place (update_where p f ms) n ≡ true
  place-update n h = go n.parent_module_id refl h
    where
      go :
          (o : Option Str)
          → n.parent_module_id ≡ o
          → has_place ms n ≡ true
          → has_place (update_where p f ms) n ≡ true
      go none e k = rw e
      go (some q) e k = rw e (
          any-update (is_top_of q n.course_id) p f ms (Stays-top f st q n.course_id)
          ∙ ground (arith, k))

  place-edited :
      (ns : List ModuleRow) (n : ModuleRow) → has_place ns n ≡ true → has_place ns (f n) ≡ true
  place-edited ns n h = rw ((st n).1, (st n).2) h

  update-AllPlaced :
      (ns : List ModuleRow)
      → AllPlaced ms ns
      → AllPlaced (update_where p f ms) (update_where p f ns)
  unfolding update_where
  update-AllPlaced [] h = tt
  update-AllPlaced (n ∷ ns) h = elim (Bool-cases (p n)) [
    | inl e ↦
        rw e (place-edited (update_where p f ms) n (place-update n h.0), update-AllPlaced ns h.1)
    | inr e ↦ rw e (place-update n h.0, update-AllPlaced ns h.1)
  ]

pub edit-IsNested :
    (id : Str) (f : ModuleRow → ModuleRow) (s : School)
    → Stays f
    → IsNested s
    → IsNested (edit_module_row id f s)
unfolding edit_module_row
edit-IsNested id f s st h = update-AllPlaced (λ m. beq m.id id) f st s.modules s.modules h

-- What is not deleted keeps its parent.
place-delete :
    (id : Str) (ms : List ModuleRow) (n : ModuleRow)
    → is_or_in id n ≡ false
    → has_place ms n ≡ true
    → has_place (delete_where (is_or_in id) ms) n ≡ true
place-delete id ms n kept h = go n.parent_module_id refl h
  where
    go :
        (o : Option Str)
        → n.parent_module_id ≡ o
        → has_place ms n ≡ true
        → has_place (delete_where (is_or_in id) ms) n ≡ true
    go none e k = rw e
    go (some q) e k =
        let other : beq q id ≡ false = ground (arith, kept) in
        rw e (
          any-delete (is_top_of q n.course_id) (is_or_in id) ms (λ w y. spare w q other y)
            (ground (arith, k)))
      where
        spare :
            (w : ModuleRow) (q : Str)
            → beq q id ≡ false
            → is_top_of q n.course_id w ≡ true
            → is_or_in id w ≡ false
        spare w q other y = ground (arith, beq_iff w.id q, beq_iff w.id id, beq_iff q id)

pub delete-AllPlaced :
    (id : Str) (ms ns : List ModuleRow)
    → AllPlaced ms ns
    → AllPlaced (delete_where (is_or_in id) ms) (delete_where (is_or_in id) ns)
unfolding delete_where
delete-AllPlaced id ms [] h = tt
delete-AllPlaced id ms (n ∷ ns) h = elim (Bool-cases (is_or_in id n)) [
  | inl e ↦ rw e (delete-AllPlaced id ms ns h.1)
  | inr e ↦ rw e (place-delete id ms n e h.0, delete-AllPlaced id ms ns h.1)
]
