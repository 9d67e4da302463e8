-- ===== src/Learn/Lessons.antt =====
-- The lessons of a module: backend/internal/handlers/lms_courses.go (AddLesson, MoveLesson,
-- DeleteLesson) and lms_edit.go (UpdateLesson). `is_time` gives the instant that the database reads
-- from a text, if it reads one. The table of videos is left to `up`.
pub mod Staff
use onrol_infra.Base.{
  ℕ, Bool, true, false, not, ◌&&◌, ◌||◌, Option, none, some, List, [], ◌∷◌, ◌++◌, ltb,
  if◌then◌else◌, coalesce, find, select, Str, codes, beq, is_empty, trim_space, Reply, ok, fail,
  refuse, ◌>>=◌, ◌>>◌, require, update_where, delete_where,
}
use onrol_infra.Live.Tables.{Caller}
use onrol_infra.Learn.Tables.{School, Scope, LessonRow, can_manage, found}
use onrol_infra.Learn.Enroll.{found_or}
use onrol_infra.Learn.Progress.{course_of_lesson}
use onrol_infra.Learn.Questions.{trimmed, non_empty, or_default, holds_all}
use onrol_infra.Learn.Modules.{module_of, then_do}
use onrol_infra.Learn.Courses.{or_old}

pub data LessonStmt : Type 0 where
  read_module read_lesson insert_lesson update_lesson clear_day write_publish : LessonStmt
  delete_lesson find_neighbour commit : LessonStmt

abbrev pub is_lesson_kind : Str → Bool
is_lesson_kind t =
    beq t (codes "video")
    || beq t (codes "text")
    || beq t (codes "scorm")
    || beq t (codes "xapi")
    || beq t (codes "link")
    || beq t (codes "file")

pub record LessonReq : Type 0 where
  pub title : Str
  pub kind : Str
  pub video_id : Str
  pub body : Str
  pub position : ℕ
  pub day_number : Option ℕ
  pub downloadable : Option Bool

abbrev pub new_lesson : Str → Str → LessonReq → LessonRow
new_lesson id into req = record {
  id = id;
  module_id = into;
  title = req.title;
  kind = or_default (codes "text") req.kind;
  video_id = non_empty req.video_id;
  body = req.body;
  position = req.position;
  day_number = req.day_number;
  downloadable = coalesce req.downloadable true;
  is_published = true;
  publish_at = none;
}

unfoldable pub check_add_lesson :
    (LessonStmt → Bool) → Str → Caller → Scope → Str → Option LessonReq → School → Reply LessonRow
unfolding beq
check_add_lesson up id c g into none s = do
  m ← found_or "module not found" (found (up read_module) (module_of into s))
  can_manage c g m.course_id s
  refuse 400 "title required"
check_add_lesson up id c g into (some req) s = do
  m ← found_or "module not found" (found (up read_module) (module_of into s))
  can_manage c g m.course_id s
  require (not (is_empty (trim_space req.title))) 400 "title required"
  let l = new_lesson id into req
  require (up insert_lesson && is_lesson_kind l.kind) 500 "create failed"
  ok l

abbrev pub insert_lesson_row : LessonRow → School → School
insert_lesson_row l s = record s { lessons = s.lessons ++ l ∷ [] }

unfoldable pub add_lesson :
    (LessonStmt → Bool)
    → Str
    → Caller
    → Scope
    → Str
    → Option LessonReq
    → School
    → Reply LessonRow × School
unfolding check_add_lesson
add_lesson up id c g into req s =
    then_do insert_lesson_row s (check_add_lesson up id c g into req s)

-- A lesson with the course of its module.
abbrev pub with_course : LessonRow → Option Str → Option (LessonRow × Str)
with_course l none = none
with_course l (some k) = some (l, k)

abbrev pub placed : Option LessonRow → School → Option (LessonRow × Str)
placed none s = none
placed (some l) s = with_course l (course_of_lesson (some l) s)

-- The lookup and the gate of the handlers on one lesson.
unfoldable pub check_lesson_staff :
    (LessonStmt → Bool) → Caller → Scope → Str → School → Reply LessonRow
unfolding beq
check_lesson_staff up c g id s = do
  row ←
      found_or "lesson not found"
        (found (up read_lesson) (placed (find (λ l. beq l.id id) s.lessons) s))
  can_manage c g row.1 s
  ok row.0

unfoldable pub edit_lesson_row : Str → (LessonRow → LessonRow) → School → School
unfolding update_where beq
edit_lesson_row id f s = record s { lessons = update_where (λ l. beq l.id id) f s.lessons }

-- DELETE FROM lessons; the progress goes with it.
unfoldable pub remove_lesson : Str → School → School
unfolding delete_where beq
remove_lesson id s = record s {
  lessons = delete_where (λ l. beq l.id id) s.lessons;
  progress = delete_where (λ p. beq p.lesson_id id) s.progress;
}

unfoldable pub delete_lesson_row :
    (LessonStmt → Bool) → Caller → Scope → Str → School → Reply LessonRow × School
unfolding check_lesson_staff remove_lesson
delete_lesson_row up c g id s =
    then_do (λ l. remove_lesson id) s
      (do l ← check_lesson_staff up c g id s; require (up delete_lesson) 500 "delete failed"; ok l)

abbrev pub nearest_below : LessonRow → Option LessonRow → LessonRow
nearest_below n none = n
nearest_below n (some b) = if ltb n.position b.position then b else n

abbrev pub nearest_above : LessonRow → Option LessonRow → LessonRow
nearest_above n none = n
nearest_above n (some b) = if ltb b.position n.position then b else n

unfoldable pub last_of : List LessonRow → Option LessonRow
last_of [] = none
last_of (n ∷ ns) = some (nearest_below n (last_of ns))

unfoldable pub first_of : List LessonRow → Option LessonRow
first_of [] = none
first_of (n ∷ ns) = some (nearest_above n (first_of ns))

-- The lesson of the same module that MoveLesson changes places with.
unfoldable pub next_lesson : Bool → LessonRow → List LessonRow → Option LessonRow
unfolding first_of last_of beq
next_lesson down l ls =
    if down
    then first_of (select (λ n. beq n.module_id l.module_id && ltb l.position n.position) ls)
    else last_of (select (λ n. beq n.module_id l.module_id && ltb n.position l.position) ls)

abbrev pub lesson_at : ℕ → LessonRow → LessonRow
lesson_at n l = record l { position = n }

unfoldable pub swap_lessons : LessonRow → LessonRow → School → School
unfolding edit_lesson_row
swap_lessons l n s =
    edit_lesson_row n.id (lesson_at l.position) (edit_lesson_row l.id (lesson_at n.position) s)

abbrev pub swap_lesson_with :
    (LessonStmt → Bool) → LessonRow → Option LessonRow → School → Reply (Unit {0}) × School
swap_lesson_with up l none s = (ok tt, s)
swap_lesson_with up l (some n) s =
    if up commit then (ok tt, swap_lessons l n s) else (refuse 500 "commit failed", s)

abbrev pub apply_lesson_move :
    (LessonStmt → Bool) → Bool → School → Reply LessonRow → Reply (Unit {0}) × School
apply_lesson_move up down s (fail e) = (fail e, s)
apply_lesson_move up down s (ok l) =
    swap_lesson_with up l (found (up find_neighbour) (next_lesson down l s.lessons)) s

-- MoveLesson; any direction but "down" is up.
unfoldable pub move_lesson :
    (LessonStmt → Bool) → Caller → Scope → Str → Bool → School → Reply (Unit {0}) × School
unfolding check_lesson_staff next_lesson swap_lessons
move_lesson up c g id down s = apply_lesson_move up down s (check_lesson_staff up c g id s)

pub record LessonEdit : Type 0 where
  pub title : Option Str
  pub kind : Option Str
  pub body : Option Str
  pub position : Option ℕ
  pub downloadable : Option Bool
  pub day_number : Option ℕ
  pub clear_day : Bool
  pub is_published : Option Bool
  pub publish_at : Option Str

abbrev pub edited_lesson : LessonEdit → LessonRow → LessonRow
edited_lesson req l = record l {
  title = coalesce (trimmed req.title) l.title;
  kind = coalesce (trimmed req.kind) l.kind;
  body = coalesce req.body l.body;
  position = coalesce req.position l.position;
  downloadable = coalesce req.downloadable l.downloadable;
  day_number = or_old req.day_number l.day_number;
  is_published = coalesce req.is_published l.is_published;
}

-- The later statements, whose errors are dropped.
abbrev pub edit_lesson_if : Bool → Str → (LessonRow → LessonRow) → School → School
edit_lesson_if true id f s = edit_lesson_row id f s
edit_lesson_if false id f s = s

abbrev pub unscheduled : LessonRow → LessonRow
unscheduled l = record l { day_number = none }

abbrev pub published_at : Option ℕ → LessonRow → LessonRow
published_at t l = record l { publish_at = t }

abbrev pub publish_at_time : Bool → Str → Option ℕ → School → School
publish_at_time up id none s = s
publish_at_time up id (some t) s = edit_lesson_if up id (published_at (some t)) s

abbrev pub publish_text : Bool → (Str → Option ℕ) → Str → Str → School → School
publish_text up is_time id t s =
    if is_empty t
    then edit_lesson_if up id (published_at none) s
    else publish_at_time up id (is_time t) s

abbrev pub set_publish : Bool → (Str → Option ℕ) → Str → Option Str → School → School
set_publish up is_time id none s = s
set_publish up is_time id (some t) s = publish_text up is_time id (trim_space t) s

abbrev pub lesson_edits :
    (LessonStmt → Bool) → (Str → Option ℕ) → Str → LessonEdit → School → School
lesson_edits up is_time id req s = set_publish (up write_publish) is_time id req.publish_at (
    edit_lesson_if (req.clear_day && up clear_day) id unscheduled
      (edit_lesson_row id (edited_lesson req) s))

unfoldable pub check_edit_lesson :
    (LessonStmt → Bool) → Caller → Scope → Str → Option LessonEdit → School → Reply LessonEdit
unfolding check_lesson_staff trimmed beq
check_edit_lesson up c g id none s = do
  l ← check_lesson_staff up c g id s
  refuse 400 "invalid body"
check_edit_lesson up c g id (some req) s = do
  l ← check_lesson_staff up c g id s
  require (up update_lesson && holds_all is_lesson_kind (trimmed req.kind)) 500 "update failed"
  ok req

-- UpdateLesson
unfoldable pub update_lesson_row :
    (LessonStmt → Bool)
    → (Str → Option ℕ)
    → Caller
    → Scope
    → Str
    → Option LessonEdit
    → School
    → Reply LessonEdit × School
unfolding check_edit_lesson edit_lesson_row trimmed trim_space
update_lesson_row up is_time c g id req s =
    then_do (lesson_edits up is_time id) s (check_edit_lesson up c g id req s)
