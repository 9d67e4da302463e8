-- ===== src/Learn/Lessons/Staff.antt =====
-- Who may change the modules and lessons of a course (lms_courses.go, lms_edit.go).
use onrol_infra.Base.{
  ℕ, ◌≡◌, refl, Bool, false, Option, none, some, Str, beq, find, Reply, ok, fail, String, ◌>>=◌,
}
use onrol_infra.Live.Tables.{Caller, is_ok}
use onrol_infra.Learn.Tables.{School, Scope, ModuleRow, LessonRow, can_manage, found}
use onrol_infra.Learn.Enroll.{found_or}
use onrol_infra.Learn.Modules.{
  ModuleStmt, module_of, then_do, check_module, check_add_module, add_module, check_edit_module,
  update_module_row, delete_module_row, move_module, apply_move, insert_module_row, edit_module_row,
  edited_module, remove_module, ModuleReq, ModuleEdit,
}
use onrol_infra.Learn.Modules.History.{ModuleCall}
use onrol_infra.Learn.Modules.History
use onrol_infra.Learn.Lessons.{
  LessonStmt, LessonReq, LessonEdit, placed, check_lesson_staff, check_add_lesson, add_lesson,
  check_edit_lesson, update_lesson_row, delete_lesson_row, move_lesson, apply_lesson_move,
  insert_lesson_row, lesson_edits, remove_lesson,
}

-- The requests of the staff for the modules and lessons, with the statements that are carried out.
pub data CourseCall : Type 0 where
  of_module : ModuleCall → CourseCall
  add : (LessonStmt → Bool) → Str → Caller → Scope → Str → Option LessonReq → CourseCall
  change :
      (LessonStmt → Bool) → (Str → Option ℕ) → Caller → Scope → Str → Option LessonEdit → CourseCall
  move : (LessonStmt → Bool) → Caller → Scope → Str → Bool → CourseCall
  remove : (LessonStmt → Bool) → Caller → Scope → Str → CourseCall

abbrev pub serve : CourseCall → School → School
serve (of_module r) s = History.serve r s
serve (add up id c g into req) s = (add_lesson up id c g into req s).1
serve (change up is_time c g id req) s = (update_lesson_row up is_time c g id req s).1
serve (move up c g id down) s = (move_lesson up c g id down s).1
serve (remove up c g id) s = (delete_lesson_row up c g id s).1

abbrev pub caller_of : CourseCall → Caller × Scope
caller_of (of_module (ModuleCall.add up ux id c g course req)) = (c, g)
caller_of (of_module (ModuleCall.change up ux c g id req)) = (c, g)
caller_of (of_module (ModuleCall.move up c g id down)) = (c, g)
caller_of (of_module (ModuleCall.remove up c g id)) = (c, g)
caller_of (add up id c g into req) = (c, g)
caller_of (change up is_time c g id req) = (c, g)
caller_of (move up c g id down) = (c, g)
caller_of (remove up c g id) = (c, g)

-- One who may manage no course.
abbrev pub IsOutsider : Caller × Scope → School → Type 0
IsOutsider w s = (k : Str) → is_ok (can_manage w.0 w.1 k s) ≡ false

then_do-refused :
    {A : Type 0} (f : A → School → School) (s : School) (r : Reply A)
    → is_ok r ≡ false
    → (then_do f s r).1 ≡ s
then_do-refused f s (fail e) h = refl
then_do-refused f s (ok a) h = absurd (cc)

bind-refused :
    {A B : Type 0} (r : Reply A) (f : A → Reply B) → is_ok r ≡ false → is_ok (r >>= f) ≡ false
bind-refused (fail e) f h = refl
bind-refused (ok a) f h = absurd (cc)

-- A lookup whose every result is refused.
lookup-refused :
    {A B : Type 0} (o : Option A) (m : String) (f : A → Reply B)
    → ((a : A) → is_ok (f a) ≡ false)
    → is_ok (found_or m o >>= f) ≡ false
lookup-refused none m f h = refl
lookup-refused (some a) m f h = h a

module _ (c : Caller) (g : Scope) (s : School) (out : IsOutsider (c, g) s) where
  check_lesson-refused :
      (up : LessonStmt → Bool) (id : Str) → is_ok (check_lesson_staff up c g id s) ≡ false
  unfolding check_lesson_staff
  check_lesson-refused up id =
      lookup-refused
        (found (up LessonStmt.read_lesson) (placed (find (λ l. beq l.id id) s.lessons) s)) _ _
        (λ row. bind-refused _ _ (out row.1))

  check_module-refused :
      (up : ModuleStmt → Bool) (id : Str) → is_ok (check_module up c g id s) ≡ false
  unfolding check_module
  check_module-refused up id =
      lookup-refused (found (up ModuleStmt.read_module) (module_of id s)) _ _
        (λ m. bind-refused _ _ (out m.course_id))

  check_add_lesson-refused :
      (up : LessonStmt → Bool) (id into : Str) (req : Option LessonReq)
      → is_ok (check_add_lesson up id c g into req s) ≡ false
  unfolding check_add_lesson
  check_add_lesson-refused up id into none =
      lookup-refused (found (up LessonStmt.read_module) (module_of into s)) _ _
        (λ m. bind-refused _ _ (out m.course_id))
  check_add_lesson-refused up id into (some req) =
      lookup-refused (found (up LessonStmt.read_module) (module_of into s)) _ _
        (λ m. bind-refused _ _ (out m.course_id))

  check_edit_lesson-refused :
      (up : LessonStmt → Bool) (id : Str) (req : Option LessonEdit)
      → is_ok (check_edit_lesson up c g id req s) ≡ false
  unfolding check_edit_lesson
  check_edit_lesson-refused up id none = bind-refused _ _ (check_lesson-refused up id)
  check_edit_lesson-refused up id (some req) = bind-refused _ _ (check_lesson-refused up id)

  check_add_module-refused :
      (up : ModuleStmt → Bool) (ux : Str → Str) (id course : Str) (req : Option ModuleReq)
      → is_ok (check_add_module up ux id c g course req s) ≡ false
  unfolding check_add_module
  check_add_module-refused up ux id course none = bind-refused _ _ (out course)
  check_add_module-refused up ux id course (some req) = bind-refused _ _ (out course)

  check_edit_module-refused :
      (up : ModuleStmt → Bool) (id : Str) (req : Option ModuleEdit)
      → is_ok (check_edit_module up c g id req s) ≡ false
  unfolding check_edit_module
  check_edit_module-refused up id none = bind-refused _ _ (check_module-refused up id)
  check_edit_module-refused up id (some req) = bind-refused _ _ (check_module-refused up id)

  apply_move-refused :
      (up : ModuleStmt → Bool) (down : Bool) (r : Reply ModuleRow)
      → is_ok r ≡ false
      → (apply_move up down s r).1 ≡ s
  apply_move-refused up down (fail e) h = refl
  apply_move-refused up down (ok m) h = absurd (cc)

  apply_lesson_move-refused :
      (up : LessonStmt → Bool) (down : Bool) (r : Reply LessonRow)
      → is_ok r ≡ false
      → (apply_lesson_move up down s r).1 ≡ s
  apply_lesson_move-refused up down (fail e) h = refl
  apply_lesson_move-refused up down (ok m) h = absurd (cc)

-- A caller whom canManageCourse lets at no course changes nothing by adding, changing, moving or
-- deleting modules and lessons.
pub outsider_keeps : (r : CourseCall) (s : School) → IsOutsider (caller_of r) s → serve r s ≡ s
unfolding add_module update_module_row move_module delete_module_row add_lesson update_lesson_row
    move_lesson delete_lesson_row
outsider_keeps (of_module (ModuleCall.add up ux id c g course req)) s out =
    then_do-refused insert_module_row s _ (check_add_module-refused c g s out up ux id course req)
outsider_keeps (of_module (ModuleCall.change up ux c g id req)) s out =
    then_do-refused (λ e. edit_module_row id (edited_module ux e)) s _
      (check_edit_module-refused c g s out up id req)
outsider_keeps (of_module (ModuleCall.move up c g id down)) s out =
    apply_move-refused c g s out up down _ (check_module-refused c g s out up id)
outsider_keeps (of_module (ModuleCall.remove up c g id)) s out =
    then_do-refused (λ m. remove_module id) s _
      (bind-refused _ _ (check_module-refused c g s out up id))
outsider_keeps (add up id c g into req) s out =
    then_do-refused insert_lesson_row s _ (check_add_lesson-refused c g s out up id into req)
outsider_keeps (change up is_time c g id req) s out =
    then_do-refused (lesson_edits up is_time id) s _ (check_edit_lesson-refused c g s out up id req)
outsider_keeps (move up c g id down) s out =
    apply_lesson_move-refused c g s out up down _ (check_lesson-refused c g s out up id)
outsider_keeps (remove up c g id) s out =
    then_do-refused (λ l. remove_lesson id) s _
      (bind-refused _ _ (check_lesson-refused c g s out up id))
