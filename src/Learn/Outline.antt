-- ===== src/Learn/Outline.antt =====
-- The outline of a course: backend/internal/handlers/lms_courses.go (nestModules, GetManagedCourse)
-- and lms_student.go (CourseContent), without grades, day names and the URLs of videos.
-- A Go map of modules is a store: an association list from the id to the module's object, which the
-- lists of submodules and the answer refer to by id, so a later change of an object is seen by all.
pub mod Placed
use onrol_infra.Base.{
  ℕ, Bool, true, false, not, ◌&&◌, ◌||◌, Option, none, some, List, [], ◌∷◌, ◌++◌, leb,
  if◌then◌else◌, is_some, coalesce, find, any, select, map, sort_by, Str, codes, beq, is_empty, Map,
  lookup, insert, Reply, ok, fail, refuse, ◌>>=◌, ◌>>◌, require,
}
use onrol_infra.Account.Devices.{User}
use onrol_infra.Live.Tables.{Caller}
use onrol_infra.Learn.Tables.{
  School, Scope, ModuleRow, LessonRow, CourseRow, can_manage, course_row_of, found,
}
use onrol_infra.Learn.Enroll.{is_enrolled, found_or}
use onrol_infra.Learn.Progress.{has_progress}

pub data OutlineStmt : Type 0 where
  read_enrolled read_course read_modules : OutlineStmt

pub record LessonView : Type 0 where
  pub lesson : LessonRow
  pub completed : Bool

-- The object of a module.
pub record Node : Type 0 where
  pub row : ModuleRow
  pub lessons : List LessonView
  pub submodules : List Str

abbrev pub parent_in : Map Node → Option Node → Option Str
parent_in mods none = none
parent_in mods (some n) = elim n.row.parent_module_id [
  | none ↦ none
  | some p ↦ if not (is_empty p) && is_some (lookup p mods) then some p else none
]

-- pm["submodules"] = append(pm["submodules"], mods[k])
abbrev pub adopt : Str → Option Node → Str → Map Node → Map Node
adopt p none k mods = mods
adopt p (some n) k mods = insert p (record n { submodules = n.submodules ++ k ∷ [] }) mods

abbrev pub place : Option Str → Str → Map Node × List Str → Map Node × List Str
place none k (mods, ordered) = (mods, ordered ++ k ∷ [])
place (some p) k (mods, ordered) = (adopt p (lookup p mods) k mods, ordered)

-- nestModules: the objects it leaves, and the top level.
unfoldable pub nest_modules : Map Node → List Str → List Str → Map Node × List Str
unfolding lookup insert
nest_modules mods [] ordered = (mods, ordered)
nest_modules mods (k ∷ order) ordered =
    let (mods', ordered') = place (parent_in mods (lookup k mods)) k (mods, ordered) in
    nest_modules mods' order ordered'

abbrev pub node_of : (ModuleRow → List LessonView) → ModuleRow → Node
node_of lessons m = record { row = m; lessons = lessons m; submodules = [] }

-- The objects before they are nested, one for each row in turn.
unfoldable pub objects : (ModuleRow → List LessonView) → List ModuleRow → Map Node
objects lessons [] = []
objects lessons (m ∷ ms) = (m.id, node_of lessons m) ∷ objects lessons ms

pub record Outline : Type 0 where
  pub objects : Map Node
  pub modules : List Str

abbrev pub outline_of : (ModuleRow → List LessonView) → List ModuleRow → Outline
outline_of lessons ms =
    let (mods, ordered) = nest_modules (objects lessons ms) (map (λ m. m.id) ms) [] in
    record { objects = mods; modules = ordered }

-- What a student sees of a lesson's publication.
abbrev pub is_visible : ℕ → LessonRow → Bool
is_visible now l = l.is_published && elim l.publish_at [ none ↦ true | some t ↦ leb t now ]

abbrev pub batch_of : Str → School → Option Str
batch_of user s = elim (find (λ u. beq u.id user) s.users) [ none ↦ none | some u ↦ u.batch ]

-- A comparison with NULL is not true.
abbrev pub same_batch : Option Str → Option Str → Bool
same_batch none b = true
same_batch (some n) none = false
same_batch (some n) (some b) = beq n b

abbrev pub lessons_for : ℕ → Str → School → ModuleRow → List LessonView
lessons_for now user s m =
    map (λ l. record { lesson = l; completed = has_progress user l.id s })
      (sort_by (λ l. l.position) (select (λ l. beq l.module_id m.id && is_visible now l) s.lessons))

abbrev pub modules_for : Str → Str → School → List ModuleRow
modules_for course user s =
    sort_by (λ m. m.position)
      (select (λ m. beq m.course_id course && same_batch m.batch_number (batch_of user s))
        s.modules)

unfoldable pub course_content : (OutlineStmt → Bool) → ℕ → Caller → Str → School → Reply Outline
unfolding is_enrolled nest_modules objects sort_by beq
course_content up now c course s = do
  require (is_enrolled (up read_enrolled) course c.id s) 403 "not enrolled in this course"
  require (up read_modules) 500 "content failed"
  ok (outline_of (lessons_for now c.id s) (modules_for course c.id s))

abbrev pub all_lessons : School → ModuleRow → List LessonView
all_lessons s m =
    map (λ l. record { lesson = l; completed = false })
      (sort_by (λ l. l.position) (select (λ l. beq l.module_id m.id) s.lessons))

unfoldable pub get_managed_course :
    (OutlineStmt → Bool) → Caller → Scope → Str → School → Reply (CourseRow × Outline)
unfolding nest_modules objects sort_by beq
get_managed_course up c g course s = do
  can_manage c g course s
  k ← found_or "course not found" (found (up read_course) (course_row_of course s))
  require (up read_modules) 500 "load failed"
  ok (
    k,
    outline_of (all_lessons s)
        (sort_by (λ m. m.position) (select (λ m. beq m.course_id course) s.modules)),
  )
