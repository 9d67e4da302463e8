-- ===== src/Tests/Desk.antt =====
-- Runs of quizzes, assignments and their edits (lms_student.go, lms_assess.go, lms_edit.go).
use onrol_infra.Base.{
  ◌≡◌, ◌↔◌, ◌⊎◌, refl, arith, Bool, true, false, not, ◌&&◌, Option, none, some, List, [], ◌∷◌, Str,
  codes, beq, ◌==◌, if◌then◌else◌, any, ok, Reply, trim_space, is_empty, is_some,
}
use onrol_infra.Account.Gates.{stub_verify}
use onrol_infra.Learn.Tables.{Scope, can_manage}
use onrol_infra.Learn.Enroll.{enrolled}
use onrol_infra.Learn.Scoring.{QuestionRow, Reader, Tally, all_in, match_multi_set}
use onrol_infra.Learn.Scoring.Sets.{multi_exact}
use onrol_infra.Learn.Desk.{AssessmentRow, Answers, Desk, DeskStmt, assessment_of, submission_of}
use onrol_infra.Learn.Submit.{SubmitReq, quizzed, submit_assessment}
use onrol_infra.Learn.Take.{take_assessment, Taken, is_submitted}
use onrol_infra.Learn.Submit.Attempts.{attempt_once, key_hidden, shows_key}
use onrol_infra.Learn.Submit.Raised.{AtMost, recorded}
use onrol_infra.Learn.Submit.Kept.{submit_keeps_score, IsAwarded}
use onrol_infra.Learn.Questions.{CreateReq, create_assessment}
use onrol_infra.Learn.Questions.Scopes.{create-IsScoped, IsScoped}
use onrol_infra.Learn.Quiz.{QuestionReq}
use onrol_infra.Learn.Quiz.Points.{Edit, add}
use onrol_infra.Learn.Quiz.Points
use onrol_infra.Tests.{student, boss, k1, asha_id}
use onrol_infra.Tests.Learn.{joined}

-- The texts of three JSON arrays.
abbrev both_opts : Str
both_opts = codes "[x,y]"

abbrev one_twice : Str
one_twice = codes "[x,x]"

abbrev opts_of : Str → Option (List Str)
opts_of s =
    if beq s both_opts
    then some (codes "x" ∷ codes "y" ∷ [])
    else if beq s one_twice
    then some (codes "x" ∷ codes "x" ∷ [])
    else none

abbrev pub reader : Reader
reader = record {
  outside = record {
    unicode_lower = λ s. s;
    pg_lower = λ s. s;
    password_matches = beq;
    verify = λ p d t. stub_verify t;
  };
  unicode_fold = beq;
  parse_float = λ s. none;
  is_near = λ a b. a == b;
  parse_strings = opts_of;
}

multi_exact_example : (match_multi_set reader both_opts both_opts ≡ true) ↔ (
    (all_in (codes "x" ∷ codes "y" ∷ []) (codes "x" ∷ codes "y" ∷ []) ≡ true)
    × (all_in (codes "x" ∷ codes "y" ∷ []) (codes "x" ∷ codes "y" ∷ []) ≡ true))
unfolding trim_space beq
multi_exact_example =
    multi_exact reader both_opts both_opts (codes "x" ∷ codes "y" ∷ []) (codes "x" ∷ codes "y" ∷ [])
      refl refl refl refl (λ e. omega arith)

abbrev quiz : AssessmentRow
quiz = record {
  id = codes "z1";
  course_id = k1;
  module_id = none;
  title = codes "Quiz";
  kind = codes "quiz";
  description = [];
  max_score = 100;
  due_at = none;
  day_number = none;
  is_published = true;
  auto_award = false;
  created_by = codes "boss";
}

abbrev item : QuestionRow
item = record {
  id = codes "i1";
  assessment_id = codes "z1";
  prompt = codes "1+1";
  kind = codes "mcq";
  options = codes "2" ∷ [];
  correct = codes "2";
  points = 1;
  position = 1;
}

abbrev pub desk1 : Desk
desk1 = record {
  school = joined;
  assessments = quiz ∷ [];
  questions = item ∷ [];
  submissions = [];
  files = [];
}

abbrev up : DeskStmt → Bool
up s = true

abbrev answers1 : Answers
answers1 = some ((codes "i1", codes "2") ∷ [])

abbrev attempt : SubmitReq
attempt = record { as_assignment = none; as_quiz = some answers1 }

abbrev after : Desk
after = (submit_assessment up 9 (codes "b1") reader student (codes "z1") attempt desk1).1

abbrev full : Tally
full = record {
  auto_score = 1;
  total_points = 1;
  total = 1;
  correct_count = 1;
  needs_manual = false;
}

taken_once :
    submit_assessment up 9 (codes "b1") reader student (codes "z1") attempt desk1
    ≡ (ok (quizzed (codes "graded") 100 full), after)
unfolding submit_assessment trim_space
taken_once = refl

attempt_once_example :
    (submit_assessment up 11 (codes "b2") reader student (codes "z1") attempt after).1 ≡ after
attempt_once_example =
    attempt_once up up 9 11 (codes "b1") (codes "b2") reader reader student (codes "z1") attempt
      attempt desk1 after (codes "graded") 100 full answers1 taken_once refl refl refl

submit_keeps_score_example :
    let last = (submit_assessment up 11 (codes "b2") reader student (codes "z1") attempt after).1 in
    (AtMost (recorded (codes "z1") asha_id after) (recorded (codes "z1") asha_id last))
    ⊎ ((a : AssessmentRow) × (assessment_of (codes "z1") after ≡ some a)
        × IsAwarded (codes "z1") asha_id student last a)
submit_keeps_score_example =
    submit_keeps_score (codes "z1") asha_id up 11 (codes "b2") reader student (codes "z1") attempt
      after

abbrev shown_quiz : Reply Taken
shown_quiz = take_assessment up student (codes "z1") desk1

abbrev as_taken : Reply Taken → Taken
as_taken (ok t) = t
as_taken _ = record { assessment = quiz; questions = []; submission = none; files = [] }

key_hidden_example :
    (a : AssessmentRow) × (assessment_of (codes "z1") desk1 ≡ some a)
    × (a.is_published ≡ true)
    × (enrolled a.course_id asha_id joined ≡ true)
    × (is_submitted (submission_of a.id asha_id desk1) ≡ false
        → any shows_key (as_taken shown_quiz).questions ≡ false)
unfolding take_assessment
key_hidden_example = key_hidden up student (codes "z1") desk1 (as_taken shown_quiz) refl

abbrev item2 : QuestionReq
item2 = record {
  prompt = codes "2+2";
  kind = [];
  options = codes "4" ∷ [];
  correct = codes "4";
  position = 0;
}

abbrev pub no_scope : Scope
no_scope = record { covers = false; up = true }

abbrev growth : List Edit
growth = add up (codes "i2") boss no_scope (codes "z1") (some item2) ∷ []

abbrev doubly : CreateReq
doubly = record {
  title = codes "Both";
  kind = [];
  description = [];
  due_at = [];
  day_number = some 3;
  module_id = codes "u1";
  is_published = true;
  auto_award = false;
}

abbrev created : Reply AssessmentRow × Desk
created = create_assessment up (λ s. true) (codes "z2") boss no_scope k1 (some doubly) desk1

abbrev as_row : Reply AssessmentRow → AssessmentRow
as_row (ok a) = a
as_row _ = quiz

create-IsScoped_example :
    IsScoped created.1 ↔ ((not (is_empty doubly.module_id) && is_some doubly.day_number) ≡ false)
unfolding create_assessment can_manage trim_space
create-IsScoped_example =
    create-IsScoped up (λ s. true) (codes "z2") boss no_scope k1 doubly desk1 created.1
      (as_row created.0) (refl, tt) refl
