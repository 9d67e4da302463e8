-- ===== src/Learn/Modules.antt =====
-- The modules of a course: backend/internal/handlers/lms_courses.go (AddModule, MoveModule,
-- DeleteModule) and lms_edit.go (UpdateModule).
-- Positions are whole and not negative. A value that a foreign key or a CHECK of the table refuses
-- makes its statement fail.
pub mod Nested
pub mod History
use onrol_infra.Base.{
  ℕ, ◌-◌, Bool, true, false, not, ◌&&◌, ◌||◌, Option, none, some, List, [], ◌∷◌, ◌++◌, ltb, leb,
  ◌==◌, if◌then◌else◌, coalesce, find, any, select, map, sort_by, reverse, Str, codes, beq,
  is_empty, trim_space, Reply, ok, fail, refuse, ◌>>=◌, ◌>>◌, require, update_where, delete_where,
}
use onrol_infra.Account.SignIn.{is_ascii}
use onrol_infra.Live.Tables.{Caller}
use onrol_infra.Learn.Tables.{School, Scope, ModuleRow, LessonRow, can_manage, has_course, found}
use onrol_infra.Learn.Enroll.{found_or}
use onrol_infra.Learn.Questions.{trimmed, or_default, non_empty}

pub data ModuleStmt : Type 0 where
  read_module read_parent insert_module update_module delete_module find_neighbour : ModuleStmt
  commit : ModuleStmt

abbrev pub upper_byte : ℕ → ℕ
upper_byte c = if leb b'a' c && leb c b'z' then c - 32 else c

-- strings.ToUpper, whose part beyond ASCII is a parameter.
abbrev pub to_upper : (Str → Str) → Str → Str
to_upper unicode_upper s = if is_ascii s then map upper_byte s else unicode_upper s

abbrev pub module_of : Str → School → Option ModuleRow
module_of id s = find (λ m. beq m.id id) s.modules

pub record ModuleReq : Type 0 where
  pub title : Str
  pub position : ℕ
  pub parent : Str
  pub batch_number : Str
  pub code : Str

abbrev pub is_top : ModuleRow → Bool
is_top m = elim m.parent_module_id [ none ↦ true | some p ↦ false ]

-- A parent that is no top-level module of the course is refused.
abbrev pub is_parent_in : Str → Option ModuleRow → Bool
is_parent_in course none = false
is_parent_in course (some p) = beq p.course_id course && is_top p

abbrev pub new_module : (Str → Str) → Str → Str → ModuleReq → ModuleRow
new_module unicode_upper id course req = record {
  id = id;
  course_id = course;
  title = req.title;
  position = req.position;
  parent_module_id = non_empty (trim_space req.parent);
  batch_number = non_empty (trim_space req.batch_number);
  store_code = non_empty (to_upper unicode_upper (trim_space req.code));
}

abbrev pub parent_fits : (ModuleStmt → Bool) → Str → School → Option Str → Bool
parent_fits up course s none = true
parent_fits up course s (some p) = is_parent_in course (found (up read_parent) (module_of p s))

unfoldable pub check_add_module :
    (ModuleStmt → Bool)
    → (Str → Str)
    → Str
    → Caller
    → Scope
    → Str
    → Option ModuleReq
    → School
    → Reply ModuleRow
unfolding beq
check_add_module up unicode_upper id c g course none s = do
  can_manage c g course s
  refuse 400 "title required"
check_add_module up unicode_upper id c g course (some req) s = do
  can_manage c g course s
  require (not (is_empty (trim_space req.title))) 400 "title required"
  let m = new_module unicode_upper id course req
  require (parent_fits up course s m.parent_module_id) 400 "invalid parent module"
  require (up insert_module && has_course s course) 500 "create failed"
  ok m

abbrev pub then_do {ℓ} : {A : Type ℓ} → (A → School → School) → School → Reply A → Reply A × School
then_do f s (fail e) = (fail e, s)
then_do f s (ok a) = (ok a, f a s)

abbrev pub insert_module_row : ModuleRow → School → School
insert_module_row m s = record s { modules = s.modules ++ m ∷ [] }

unfoldable pub add_module :
    (ModuleStmt → Bool)
    → (Str → Str)
    → Str
    → Caller
    → Scope
    → Str
    → Option ModuleReq
    → School
    → Reply ModuleRow × School
unfolding check_add_module
add_module up unicode_upper id c g course req s =
    then_do insert_module_row s (check_add_module up unicode_upper id c g course req s)

-- The lookup and the gate of the handlers on one module.
unfoldable pub check_module : (ModuleStmt → Bool) → Caller → Scope → Str → School → Reply ModuleRow
unfolding beq
check_module up c g id s = do
  m ← found_or "module not found" (found (up read_module) (module_of id s))
  can_manage c g m.course_id s
  ok m

pub record ModuleEdit : Type 0 where
  pub title : Option Str
  pub position : Option ℕ
  pub code : Option Str

-- CASE WHEN $4 IS NULL THEN store_code WHEN $4 = '' THEN NULL ELSE $4 END
abbrev pub code_after : (Str → Str) → Option Str → Option Str → Option Str
code_after unicode_upper none old = old
code_after unicode_upper (some s) old = non_empty (to_upper unicode_upper (trim_space s))

abbrev pub edited_module : (Str → Str) → ModuleEdit → ModuleRow → ModuleRow
edited_module unicode_upper req m = record m {
  title = coalesce (trimmed req.title) m.title;
  position = coalesce req.position m.position;
  store_code = code_after unicode_upper req.code m.store_code;
}

unfoldable pub edit_module_row : Str → (ModuleRow → ModuleRow) → School → School
unfolding update_where beq
edit_module_row id f s = record s { modules = update_where (λ m. beq m.id id) f s.modules }

unfoldable pub check_edit_module :
    (ModuleStmt → Bool) → Caller → Scope → Str → Option ModuleEdit → School → Reply ModuleEdit
unfolding check_module
check_edit_module up c g id none s = do m ← check_module up c g id s; refuse 400 "invalid body"
check_edit_module up c g id (some req) s = do
  m ← check_module up c g id s
  require (up update_module) 500 "update failed"
  ok req

unfoldable pub update_module_row :
    (ModuleStmt → Bool)
    → (Str → Str)
    → Caller
    → Scope
    → Str
    → Option ModuleEdit
    → School
    → Reply ModuleEdit × School
unfolding check_edit_module edit_module_row trimmed
update_module_row up unicode_upper c g id req s =
    then_do (λ r. edit_module_row id (edited_module unicode_upper r)) s
      (check_edit_module up c g id req s)

abbrev pub is_or_in : Str → ModuleRow → Bool
is_or_in id m = beq m.id id || elim m.parent_module_id [ none ↦ false | some p ↦ beq p id ]

-- DELETE FROM modules with what refers to them: the submodules, their lessons and the progress. A
-- submodule has no submodules of its own.
unfoldable pub remove_module : Str → School → School
unfolding delete_where beq
remove_module id s =
    let gone = select (is_or_in id) s.modules in
    let lost = select (λ l. any (λ m. beq m.id l.module_id) gone) s.lessons in
    record s {
      modules = delete_where (is_or_in id) s.modules;
      lessons = delete_where (λ l. any (λ m. beq m.id l.module_id) gone) s.lessons;
      progress = delete_where (λ p. any (λ l. beq l.id p.lesson_id) lost) s.progress;
    }

unfoldable pub delete_module_row :
    (ModuleStmt → Bool) → Caller → Scope → Str → School → Reply ModuleRow × School
unfolding check_module remove_module
delete_module_row up c g id s =
    then_do (λ m. remove_module id) s
      (do m ← check_module up c g id s; require (up delete_module) 500 "delete failed"; ok m)

-- The module that MoveModule changes places with: the nearest of the same course, batch and parent.
abbrev pub same_place : ModuleRow → ModuleRow → Bool
same_place m n =
    beq n.course_id m.course_id
    && beq (coalesce n.batch_number []) (coalesce m.batch_number [])
    && beq (coalesce n.parent_module_id []) (coalesce m.parent_module_id [])

abbrev pub nearer_below : ModuleRow → Option ModuleRow → ModuleRow
nearer_below n none = n
nearer_below n (some b) = if ltb n.position b.position then b else n

abbrev pub nearer_above : ModuleRow → Option ModuleRow → ModuleRow
nearer_above n none = n
nearer_above n (some b) = if ltb b.position n.position then b else n

unfoldable pub highest : List ModuleRow → Option ModuleRow
highest [] = none
highest (n ∷ ns) = some (nearer_below n (highest ns))

unfoldable pub lowest : List ModuleRow → Option ModuleRow
lowest [] = none
lowest (n ∷ ns) = some (nearer_above n (lowest ns))

unfoldable pub neighbour : Bool → ModuleRow → List ModuleRow → Option ModuleRow
unfolding highest lowest beq
neighbour down m ms =
    if down
    then lowest (select (λ n. same_place m n && ltb m.position n.position) ms)
    else highest (select (λ n. same_place m n && ltb n.position m.position) ms)

abbrev pub at_position : ℕ → ModuleRow → ModuleRow
at_position n m = record m { position = n }

-- The transaction of MoveModule.
unfoldable pub swap : ModuleRow → ModuleRow → School → School
unfolding edit_module_row
swap m n s =
    edit_module_row n.id (at_position m.position) (edit_module_row m.id (at_position n.position) s)

abbrev pub swap_with :
    (ModuleStmt → Bool) → ModuleRow → Option ModuleRow → School → Reply (Unit {0}) × School
swap_with up m none s = (ok tt, s)
swap_with up m (some n) s =
    if up commit then (ok tt, swap m n s) else (refuse 500 "commit failed", s)

abbrev pub apply_move :
    (ModuleStmt → Bool) → Bool → School → Reply ModuleRow → Reply (Unit {0}) × School
apply_move up down s (fail e) = (fail e, s)
apply_move up down s (ok m) =
    swap_with up m (found (up find_neighbour) (neighbour down m s.modules)) s

-- MoveModule; any direction but "down" is up.
unfoldable pub move_module :
    (ModuleStmt → Bool) → Caller → Scope → Str → Bool → School → Reply (Unit {0}) × School
unfolding check_module neighbour swap
move_module up c g id down s = apply_move up down s (check_module up c g id s)
