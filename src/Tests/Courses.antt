-- ===== src/Tests/Courses.antt =====
-- Runs of courses, lessons and files (lms_courses.go, lms_edit.go, lms_assign_files.go).
use onrol_infra.Base.{
  ◌≡◌, refl, true, false, none, some, [], ◌∷◌, codes, beq, Bool-cases, inl, inr, Reply, trim_space,
}
use onrol_infra.Learn.Tables.{School, CourseRow, can_manage}
use onrol_infra.Learn.Courses.{CourseReq, slugify, create_course}
use onrol_infra.Learn.Courses.Slug.{is_slug, slugify-slug}
use onrol_infra.Learn.Courses.Created.{IsCreated, create_course-IsCreated}
use onrol_infra.Learn.Desk.{Desk, SubmissionFile}
use onrol_infra.Learn.Files.{sent, download_file}
use onrol_infra.Learn.Files.Guarded.{IsGuarded, download-IsGuarded}
use onrol_infra.Learn.Lessons.{LessonReq}
use onrol_infra.Learn.Lessons.Staff.{CourseCall, IsOutsider, serve, outsider_keeps}
use onrol_infra.Tests.{student, boss, coach, k1, asha_id}
use onrol_infra.Tests.Learn.{school1}
use onrol_infra.Tests.Desk.{reader, desk1, no_scope}

slug_of : slugify reader.outside (codes "  AI & Data - 2 ") ≡ codes "ai-data-2"
unfolding slugify
slug_of = refl

slugify-slug_example :
    (is_slug (slugify reader.outside (codes "ai-data-2")) ≡ true)
    × (is_slug (codes "ai-data-2") ≡ true
        → slugify reader.outside (codes "ai-data-2") ≡ codes "ai-data-2")
slugify-slug_example = slugify-slug reader.outside (codes "ai-data-2")

abbrev asked_for : CourseReq
asked_for = record {
  title = codes "AI & Data";
  label = [];
  description = [];
  category_id = [];
  group_id = [];
  enroll_type = [];
  image_url = [];
  instructor_id = [];
}

abbrev made : Reply CourseRow × School
made = create_course (λ s. true) reader.outside (codes "k9") boss no_scope (some asked_for) school1

-- The row that is made.
abbrev the_course : CourseRow
the_course = record {
  id = codes "k9";
  title = codes "AI & Data";
  label = some (codes "ai-data");
  description = [];
  status = codes "draft";
  enroll_type = codes "manual";
  in_explore = false;
  explore_link = [];
  image_url = none;
  batch_size = none;
  batch_auto = false;
  batch_target = none;
  owner_id = some (codes "boss");
  category_id = none;
  group_id = none;
}

create_course-IsCreated_example : IsCreated reader.outside boss school1 made.1 the_course
unfolding create_course trim_space
create_course-IsCreated_example =
    create_course-IsCreated (λ s. true) reader.outside (codes "k9") boss no_scope asked_for school1
      made.1 the_course refl

abbrev upload : SubmissionFile
upload = record {
  id = codes "f1";
  assessment_id = codes "z1";
  user_id = asha_id;
  filename = codes "my \"work\".pdf";
  mime = [];
  size = 10;
  created_at = 4;
}

abbrev desk_with_file : Desk
desk_with_file = record desk1 { files = upload ∷ [] }

download-IsGuarded_example : IsGuarded student no_scope (codes "f1") desk_with_file (sent upload)
unfolding download_file can_manage
download-IsGuarded_example =
    download-IsGuarded (λ s. true) student no_scope (codes "f1") desk_with_file (sent upload) refl

abbrev intrusion : LessonReq
intrusion = record {
  title = codes "Mine";
  kind = [];
  video_id = [];
  body = [];
  position = 1;
  day_number = none;
  downloadable = none;
}

abbrev attempt : CourseCall
attempt = CourseCall.add (λ s. true) (codes "l9") coach no_scope (codes "u1") (some intrusion)

coach-IsOutsider : IsOutsider (coach, no_scope) school1
unfolding can_manage
coach-IsOutsider k = elim (Bool-cases (beq k1 k)) [ inl e ↦ rw e refl | inr e ↦ rw e refl ]

outsider_keeps_example : serve attempt school1 ≡ school1
outsider_keeps_example = outsider_keeps attempt school1 coach-IsOutsider
