-- ===== src/Tests/Learn.antt =====
-- Runs of enrolment, progress, modules and streaks (lms_student.go, lms_courses.go,
-- lms_leaderboard.go).
use onrol_infra.Base.{
  ◌≤◌, ◌≡◌, refl, arith, Bool, true, false, none, some, List, [], ◌∷◌, Str, codes, beq,
  update_where,
}
use onrol_infra.Account.Devices.{User}
use onrol_infra.Learn.Tables.{
  School, Scope, CourseRow, ModuleRow, LessonRow, EnrollmentRequest, can_manage,
}
use onrol_infra.Learn.Enroll.{
  EnrollStmt, enrolled, self_enroll, check_self, missing_prerequisites, enroll_user, add_enrollment,
  add_request, entitle,
}
use onrol_infra.Learn.Admit.{decide_request, check_decision, close_request}
use onrol_infra.Learn.Enroll.Calls.{EnrollCall, ask, decide, serve_all}
use onrol_infra.Learn.Enroll.Decided.{waits, decided_forever}
use onrol_infra.Learn.Enroll.Entitled.{Entitled, enrolled-Entitled}
use onrol_infra.Learn.Enroll.Requests.{
  self_enroll_sound, AdmitsSelf, decide_request-Decides, Decides,
}
use onrol_infra.Learn.Progress.{
  ProgressStmt, total_lessons, done_lessons, percent_done, complete_lesson,
}
use onrol_infra.Learn.Progress.Counts.{LessonCall, IsOnce, percent_bounded}
use onrol_infra.Learn.Progress.Counts
use onrol_infra.Learn.Progress.Earned.{Earned, complete_lesson-Earned}
use onrol_infra.Tests.{asha, asha_id, student, boss, k1}

abbrev pub open_course : CourseRow
open_course = record {
  id = k1;
  title = codes "Course";
  label = none;
  description = [];
  status = codes "published";
  enroll_type = codes "self";
  in_explore = false;
  explore_link = [];
  image_url = none;
  batch_size = none;
  batch_auto = false;
  batch_target = none;
  owner_id = none;
  category_id = none;
  group_id = none;
}

abbrev pub unit_row : ModuleRow
unit_row = record {
  id = codes "u1";
  course_id = k1;
  title = codes "Unit";
  position = 1;
  parent_module_id = none;
  batch_number = none;
  store_code = none;
}

abbrev pub lesson_row : LessonRow
lesson_row = record {
  id = codes "l1";
  module_id = codes "u1";
  title = codes "Lesson";
  kind = codes "video";
  video_id = some (codes "v1");
  body = [];
  position = 1;
  day_number = none;
  downloadable = true;
  is_published = true;
  publish_at = none;
}

abbrev pub boss_user : User
boss_user = record asha { id = codes "boss"; role = codes "manager" }

abbrev pub school1 : School
school1 = record {
  users = asha ∷ boss_user ∷ [];
  courses = open_course ∷ [];
  modules = unit_row ∷ [];
  lessons = lesson_row ∷ [];
  enrollments = [];
  requests = [];
  prerequisites = [];
  entitlements = [];
  progress = [];
  certificates = [];
}

abbrev all_up : EnrollStmt → Bool
all_up s = true

abbrev r1 : Str
r1 = codes "r1"

self_enroll_sound_example :
    (enrolled k1 asha_id (self_enroll all_up 5 r1 student k1 school1).1 ≡ true)
    × AdmitsSelf all_up student k1 school1
unfolding self_enroll check_self enroll_user add_enrollment entitle
self_enroll_sound_example =
    self_enroll_sound all_up 5 r1 student k1 school1 (self_enroll all_up 5 r1 student k1 school1).1
      refl

abbrev by_request : CourseRow
by_request = record open_course { enroll_type = codes "manual" }

abbrev asked : EnrollmentRequest
asked = record {
  id = r1;
  course_id = k1;
  user_id = asha_id;
  status = codes "pending";
  decided_by = none;
  created_at = 4;
  decided_at = none;
}

abbrev turned_down : School
turned_down = record school1 {
  courses = by_request ∷ [];
  requests = record asked { status = codes "rejected" } ∷ [];
}

-- A student who was rejected asks again, twice.
decided_forever_example :
    waits k1 asha_id (
      serve_all
        (ask all_up 9 (codes "r2") student k1 ∷ ask all_up 10 (codes "r3") student k1 ∷ [])
        turned_down)
    ≡ false
unfolding beq
decided_forever_example =
    decided_forever k1 asha_id
      (ask all_up 9 (codes "r2") student k1 ∷ ask all_up 10 (codes "r3") student k1 ∷ [])
      turned_down refl refl

abbrev waiting : School
waiting = record school1 { courses = by_request ∷ []; requests = asked ∷ [] }

abbrev no_scope : Scope
no_scope = record { covers = false; up = true }

-- A request, and its approval.
abbrev approval : List EnrollCall
approval =
    ask all_up 9 (codes "r2") student k1 ∷ decide all_up 10 boss no_scope (codes "r2") true ∷ []

abbrev by_staff : School
by_staff = record school1 { courses = by_request ∷ [] }

enrolled-Entitled_example : Entitled k1 asha_id approval by_staff
unfolding self_enroll check_self missing_prerequisites enroll_user add_enrollment add_request
    entitle decide_request check_decision can_manage close_request update_where beq
enrolled-Entitled_example = enrolled-Entitled k1 asha_id approval by_staff refl refl

decide_request-Decides_example :
    Decides all_up boss no_scope r1 true waiting
      (decide_request all_up 9 boss no_scope r1 true waiting).1
unfolding decide_request check_decision can_manage enroll_user add_enrollment entitle close_request
decide_request-Decides_example =
    decide_request-Decides all_up 9 boss no_scope r1 true true waiting
      (decide_request all_up 9 boss no_scope r1 true waiting).1 refl

abbrev stmts_up : ProgressStmt → Bool
stmts_up s = true

abbrev pub joined : School
joined = record school1 {
  enrollments =
      record {
        course_id = k1;
        user_id = asha_id;
        status = codes "active";
        enrolled_by = asha_id;
        enrolled_at = 5;
        completed_at = none;
      }
      ∷ [];
}

none_twice : IsOnce []
none_twice user lesson = omega arith

abbrev call : LessonCall
call = record {
  up = stmts_up;
  now = 9;
  serial = codes "ONROL-1";
  caller = student;
  lesson = codes "l1";
}

percent_bounded_example :
    percent_done
      (total_lessons k1 (Counts.serve_all (call ∷ call ∷ []) joined))
      (done_lessons k1 asha_id (Counts.serve_all (call ∷ call ∷ []) joined))
    ≤ 100
percent_bounded_example = percent_bounded (call ∷ call ∷ []) joined k1 asha_id none_twice

complete_lesson-Earned_example :
    Earned stmts_up
      (codes "ONROL-1")
      student
      (codes "l1")
      joined
      (complete_lesson stmts_up 9 (codes "ONROL-1") student (codes "l1") joined).1
unfolding complete_lesson
complete_lesson-Earned_example =
    complete_lesson-Earned stmts_up 9 (codes "ONROL-1") student (codes "l1") joined
      (complete_lesson stmts_up 9 (codes "ONROL-1") student (codes "l1") joined).1 none_twice refl
