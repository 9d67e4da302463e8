-- ===== src/Learn/Enroll/Calls.antt =====
-- Histories of enrolling requests (lms_student.go, lms_courses.go).
use onrol_infra.Base.{ℕ, Bool, Option, List, [], ◌∷◌, Str}
use onrol_infra.Account.SignIn.{Outside}
use onrol_infra.Live.Tables.{Caller}
use onrol_infra.Learn.Tables.{School, Scope}
use onrol_infra.Learn.Enroll.{EnrollStmt, self_enroll}
use onrol_infra.Learn.Admit.{decide_request, EnrollReq, manual_enroll, add_prerequisite}

-- Requests of students and staff, each with the statements that the database carries out.
pub data EnrollCall : Type 0 where
  ask : (EnrollStmt → Bool) → ℕ → Str → Caller → Str → EnrollCall
  decide : (EnrollStmt → Bool) → ℕ → Caller → Scope → Str → Bool → EnrollCall
  place : (EnrollStmt → Bool) → Outside → ℕ → Caller → Scope → Str → Option EnrollReq → EnrollCall
  demand : (EnrollStmt → Bool) → Caller → Scope → Str → Option Str → EnrollCall

abbrev pub serve : EnrollCall → School → School
serve (ask up now id c course) s = (self_enroll up now id c course s).1
serve (decide up now c g id approve) s = (decide_request up now c g id approve s).1
serve (place up out now c g course req) s = (manual_enroll up out now c g course req s).1
serve (demand up c g course body) s = (add_prerequisite up c g course body s).1

abbrev pub serve_all : List EnrollCall → School → School
serve_all [] s = s
serve_all (r ∷ rs) s = serve_all rs (serve r s)
