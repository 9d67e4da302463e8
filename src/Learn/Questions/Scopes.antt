-- ===== src/Learn/Questions/Scopes.antt =====
-- The scope of an assessment, a module or a day (lms_assess.go, lms_edit.go).
use onrol_infra.Base.{
  ℕ, ◌≡◌, ◌↔◌, refl, ap, arith, Bool, true, false, not, ◌&&◌, Option, none, some, List, [], ◌∷◌,
  ◌++◌, is_some, Str, beq, is_empty, Reply, ok, fail, Bool-cases, inl, inr, update_where,
}
use onrol_infra.Live.Tables.{Caller}
use onrol_infra.Learn.Tables.{Scope}
use onrol_infra.Learn.Desk.{AssessmentRow, Desk, DeskStmt}
use onrol_infra.Learn.Questions.{
  CreateReq, new_assessment, check_create, apply_to, insert_assessment, create_assessment,
  UpdateReq, with_details, in_module, on_day, off_day, edit, edit_if, set_due, set_module, set_day,
  drop_day, check_update, edits, update_assessment,
}

-- Scoped by a module and by a day at once.
abbrev pub has_both : AssessmentRow → Bool
has_both a = is_some a.module_id && is_some a.day_number

abbrev pub AllScoped : List AssessmentRow → Type 0
AllScoped [] = Unit {0}
AllScoped (a ∷ as') = (has_both a ≡ false) × AllScoped as'

abbrev pub IsScoped : Desk → Type 0
IsScoped d = AllScoped d.assessments

abbrev Keeps : (AssessmentRow → AssessmentRow) → Type 0
Keeps f = (a : AssessmentRow) → has_both a ≡ false → has_both (f a) ≡ false

edit-IsScoped :
    (id : Str) (f : AssessmentRow → AssessmentRow) (d : Desk)
    → Keeps f
    → IsScoped d
    → IsScoped (edit id f d)
unfolding edit update_where
edit-IsScoped id f d keep = go d.assessments
  where
    go :
        (rows : List AssessmentRow)
        → AllScoped rows
        → AllScoped (update_where (λ a. beq a.id id) f rows)
    go [] h = tt
    go (a ∷ rows) h = elim (Bool-cases (beq a.id id)) [
      | inl e ↦ rw e (keep a h.0, go rows h.1)
      | inr e ↦ rw e (h.0, go rows h.1)
    ]

edit_if-IsScoped :
    (b : Bool) (id : Str) (f : AssessmentRow → AssessmentRow) (d : Desk)
    → Keeps f
    → IsScoped d
    → IsScoped (edit_if b id f d)
edit_if-IsScoped true id f d keep h = edit-IsScoped id f d keep h
edit_if-IsScoped false id f d keep h = h

in_module-Keeps : (m : Option Str) → Keeps (in_module m)
in_module-Keeps none a h = refl
in_module-Keeps (some m) a h = refl

module _ (up : DeskStmt → Bool) (is_time : Str → Bool) (id : Str) where
  set_due-IsScoped :
      (due : Option Str) (d : Desk) → IsScoped d → IsScoped (set_due up is_time id due d)
  set_due-IsScoped none d h = h
  set_due-IsScoped (some s) d h = edit_if-IsScoped _ id _ d (λ a k. k) h

  set_module-IsScoped : (m : Option Str) (d : Desk) → IsScoped d → IsScoped (set_module up id m d)
  set_module-IsScoped none d h = h
  set_module-IsScoped (some s) d h = edit_if-IsScoped _ id _ d (in_module-Keeps _) h

  set_day-IsScoped : (n : Option ℕ) (d : Desk) → IsScoped d → IsScoped (set_day up id n d)
  set_day-IsScoped none d h = h
  set_day-IsScoped (some n) d h = edit_if-IsScoped _ id (on_day n) d (λ a k. refl) h

  drop_day-IsScoped : (b : Bool) (d : Desk) → IsScoped d → IsScoped (drop_day up id b d)
  drop_day-IsScoped b d h = edit_if-IsScoped _ id off_day d (λ a k. ground arith) h

  edits-IsScoped : (req : UpdateReq) (d : Desk) → IsScoped d → IsScoped (edits up is_time id req d)
  edits-IsScoped req d h = drop_day-IsScoped req.clear_day _ (
      set_day-IsScoped req.day_number _ (
        set_module-IsScoped req.module_id _
          (set_due-IsScoped req.due_at _ (edit-IsScoped id (with_details req) d (λ a k. k) h))))

-- Where no assessment is scoped by a module and by a day at once, none is after UpdateAssessment,
-- whatever the body sets and whichever statements fail.
pub update-IsScoped :
    (up : DeskStmt → Bool) (is_time : Str → Bool) (c : Caller) (g : Scope) (id : Str)
    (req : Option UpdateReq) (d : Desk)
    → IsScoped d
    → IsScoped (update_assessment up is_time c g id req d).1
unfolding update_assessment
update-IsScoped up is_time c g id req d h = go (check_update up c g id req d)
  where
    go : (r : Reply UpdateReq) → IsScoped (apply_to (edits up is_time id) d r).1
    go (fail e) = h
    go (ok q) = edits-IsScoped up is_time id q d h

append_iff :
    (rows : List AssessmentRow) (a : AssessmentRow)
    → AllScoped rows
    → AllScoped (rows ++ a ∷ []) ↔ (has_both a ≡ false)
append_iff [] a h = ((λ k. k.0), (λ k. (k, tt)))
append_iff (b ∷ rows) a h =
    let (there, back) = append_iff rows a h.1 in ((λ k. there k.1), (λ k. (h.0, back k)))

create_row :
    (up : DeskStmt → Bool) (is_time : Str → Bool) (id : Str) (c : Caller) (g : Scope) (course : Str)
    (req : CreateReq) (d : Desk) (a : AssessmentRow)
    → check_create up is_time id c g course (some req) d ≡ ok a
    → a ≡ new_assessment id c course req
unfolding check_create
create_row up is_time id c g course req d a h = ground arith

-- Where no assessment is scoped by a module and by a day at once, none is after CreateAssessment has
-- stored one, exactly where its body does not name both a module and a day.
pub create-IsScoped :
    (up : DeskStmt → Bool) (is_time : Str → Bool) (id : Str) (c : Caller) (g : Scope) (course : Str)
    (req : CreateReq) (d d' : Desk) (a : AssessmentRow)
    → IsScoped d
    → create_assessment up is_time id c g course (some req) d ≡ (ok a, d')
    → IsScoped d' ↔ ((not (is_empty req.module_id) && is_some req.day_number) ≡ false)
unfolding create_assessment
create-IsScoped up is_time id c g course req d d' a h e =
    go (check_create up is_time id c g course (some req) d) refl e
  where
    row :
        (has_both (new_assessment id c course req) ≡ false)
        ↔ ((not (is_empty req.module_id) && is_some req.day_number) ≡ false)
    row = elim (Bool-cases (is_empty req.module_id)) [
      | inl k ↦ rw k ((λ x. x), (λ x. x))
      | inr k ↦ rw k ((λ x. x), (λ x. x))
    ]

    go :
        (r : Reply AssessmentRow)
        → check_create up is_time id c g course (some req) d ≡ r
        → apply_to insert_assessment d r ≡ (ok a, d')
        → IsScoped d' ↔ ((not (is_empty req.module_id) && is_some req.day_number) ≡ false)
    go (fail x) q k = absurd (cc)
    go (ok b) q k = rw (← ap (λ p. p.1) k) (
        rw (create_row up is_time id c g course req d b q) (
          let (there, back) = append_iff d.assessments (new_assessment id c course req) h in
          ((λ x. row.0 (there x)), (λ x. back (row.1 x)))))
