-- ===== src/Learn/Modules/History.antt =====
-- Histories of the edits of modules (lms_courses.go, lms_edit.go).
use onrol_infra.Base.{
  ◌≡◌, refl, subst, arith, Bool, true, Option, none, some, List, [], ◌∷◌, ◌++◌, Str, Reply, ok,
  fail,
}
use onrol_infra.Live.Tables.{Caller}
use onrol_infra.Learn.Tables.{School, Scope, ModuleRow, found}
use onrol_infra.Learn.Modules.{
  ModuleStmt, ModuleReq, new_module, parent_fits, check_add_module, then_do, insert_module_row,
  add_module, check_module, ModuleEdit, edited_module, edit_module_row, check_edit_module,
  update_module_row, remove_module, delete_module_row, neighbour, at_position, swap, swap_with,
  apply_move, move_module, find_neighbour,
}
use onrol_infra.Learn.Modules.Nested.{
  IsNested, append-AllPlaced, insert-AllPlaced, parent_fits_lem, edit-IsNested, delete-AllPlaced,
}

-- The requests that touch modules, with the statements that the database carries out.
pub data ModuleCall : Type 0 where
  add :
      (ModuleStmt → Bool) → (Str → Str) → Str → Caller → Scope → Str → Option ModuleReq → ModuleCall
  change : (ModuleStmt → Bool) → (Str → Str) → Caller → Scope → Str → Option ModuleEdit → ModuleCall
  move : (ModuleStmt → Bool) → Caller → Scope → Str → Bool → ModuleCall
  remove : (ModuleStmt → Bool) → Caller → Scope → Str → ModuleCall

abbrev pub serve : ModuleCall → School → School
serve (add up ux id c g course req) s = (add_module up ux id c g course req s).1
serve (change up ux c g id req) s = (update_module_row up ux c g id req s).1
serve (move up c g id down) s = (move_module up c g id down s).1
serve (remove up c g id) s = (delete_module_row up c g id s).1

abbrev pub serve_all : List ModuleCall → School → School
serve_all [] s = s
serve_all (r ∷ rs) s = serve_all rs (serve r s)

check_add_lem :
    (up : ModuleStmt → Bool) (ux : Str → Str) (id : Str) (c : Caller) (g : Scope) (course : Str)
    (req : Option ModuleReq) (s : School) (m : ModuleRow)
    → check_add_module up ux id c g course req s ≡ ok m
    → parent_fits up m.course_id s m.parent_module_id ≡ true
unfolding check_add_module
check_add_lem up ux id c g course none s m h = absurd (ground arith)
check_add_lem up ux id c g course (some req) s m h =
    let fits : parent_fits up course s (new_module ux id course req).parent_module_id ≡ true =
      ground arith in
    let same : new_module ux id course req ≡ m = ground arith in
    subst (λ (x : ModuleRow). parent_fits up x.course_id s x.parent_module_id ≡ true) same fits

swap-IsNested : (m n : ModuleRow) (s : School) → IsNested s → IsNested (swap m n s)
unfolding swap
swap-IsNested m n s h =
    edit-IsNested n.id (at_position m.position) (edit_module_row m.id (at_position n.position) s)
      (λ x. (refl, refl, refl))
      (edit-IsNested m.id (at_position n.position) s (λ x. (refl, refl, refl)) h)

swap_with-IsNested :
    (up : ModuleStmt → Bool) (m : ModuleRow) (o : Option ModuleRow) (s : School)
    → IsNested s
    → IsNested (swap_with up m o s).1
swap_with-IsNested up m none s h = h
swap_with-IsNested up m (some n) s h = ground (arith, swap-IsNested m n s h)

serve-IsNested : (r : ModuleCall) (s : School) → IsNested s → IsNested (serve r s)
unfolding add_module update_module_row move_module delete_module_row remove_module
serve-IsNested (add up ux id c g course req) s h =
    go (check_add_module up ux id c g course req s) refl
  where
    go :
        (r : Reply ModuleRow)
        → check_add_module up ux id c g course req s ≡ r
        → IsNested (then_do insert_module_row s r).1
    go (fail e) k = h
    go (ok m) k =
        insert-AllPlaced (s.modules ++ m ∷ []) s.modules m
          (append-AllPlaced s.modules s.modules m h)
          (append-AllPlaced s.modules (m ∷ []) m
            (parent_fits_lem up s m (check_add_lem up ux id c g course req s m k), tt)).0
serve-IsNested (change up ux c g id req) s h = go (check_edit_module up c g id req s)
  where
    go :
        (r : Reply ModuleEdit)
        → IsNested (then_do (λ q. edit_module_row id (edited_module ux q)) s r).1
    go (fail e) = h
    go (ok q) = edit-IsNested id (edited_module ux q) s (λ x. (refl, refl, refl)) h
serve-IsNested (move up c g id down) s h = go (check_module up c g id s)
  where
    go : (r : Reply ModuleRow) → IsNested (apply_move up down s r).1
    go (fail e) = h
    go (ok m) = swap_with-IsNested up m (found (up find_neighbour) (neighbour down m s.modules)) s h
serve-IsNested (remove up c g id) s h = go _
  where
    go : (r : Reply ModuleRow) → IsNested (then_do (λ m. remove_module id) s r).1
    go (fail e) = h
    go (ok m) = delete-AllPlaced id s.modules s.modules h

-- Over any history of modules added, edited, moved and deleted, by whomever and with any statements
-- failing, the parent of every submodule remains a top-level module of the same course.
pub serve_all-IsNested :
    (rs : List ModuleCall) (s : School) → IsNested s → IsNested (serve_all rs s)
serve_all-IsNested [] s h = h
serve_all-IsNested (r ∷ rs) s h = serve_all-IsNested rs (serve r s) (serve-IsNested r s h)
