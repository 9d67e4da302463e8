-- ===== src/Learn.antt =====
-- Courses, enrolment, lesson progress and assessments.
pub mod Tables
pub mod Enroll
pub mod Admit
pub mod Progress
pub mod Scoring
pub mod Desk
pub mod Submit
pub mod Take
pub mod Grade
pub mod Files
pub mod Questions
pub mod Quiz
pub mod Streak
pub mod Courses
pub mod Lessons
pub mod Modules
pub mod Outline
