-- ===== src/Learn/Quiz/Points.antt =====
-- What the questions of a quiz are after any history of edits (lms_assess.go, lms_edit.go).
use onrol_infra.Base.{
  ℕ, ◌+◌, ◌<◌, ◌≡◌, refl, arith, Bool, true, false, ◌&&◌, Option, none, some, List, [], ◌∷◌, ◌++◌,
  leb, any, select, Str, beq, Reply, ok, fail,
}
use onrol_infra.Live.Tables.{Caller}
use onrol_infra.Learn.Tables.{Scope}
use onrol_infra.Learn.Scoring.{QuestionRow}
use onrol_infra.Learn.Desk.{Desk, DeskStmt, read_position}
use onrol_infra.Learn.Submit.{questions_of}
use onrol_infra.Learn.Questions.{apply_to}
use onrol_infra.Learn.Quiz.{
  QuestionReq, max_position, place_of, new_question, check_add, insert_question, add_question,
  delete_question, QuestionEdit, update_question,
}

-- The edits of the staff, with the statements that the database carries out.
pub data Edit : Type 0 where
  add : (DeskStmt → Bool) → Str → Caller → Scope → Str → Option QuestionReq → Edit
  change : (DeskStmt → Bool) → Caller → Scope → Str → Option QuestionEdit → Edit
  drop_one : (DeskStmt → Bool) → Caller → Scope → Str → Edit

abbrev pub serve : Edit → Desk → Desk
serve (add up id c g a req) d = (add_question up id c g a req d).1
serve (change up c g id req) d = (update_question up c g id req d).1
serve (drop_one up c g id) d = (delete_question up c g id d).1

abbrev pub serve_all : List Edit → Desk → Desk
serve_all [] d = d
serve_all (e ∷ es) d = serve_all es (serve e d)

check_add_lem :
    (up : DeskStmt → Bool) (id : Str) (c : Caller) (g : Scope) (a : Str) (req : Option QuestionReq)
    (d : Desk) (q : QuestionRow)
    → check_add up id c g a req d ≡ ok q
    → (r : QuestionReq) × (req ≡ some r) × (q ≡ new_question id a (place_of up a r d) r)
unfolding check_add
check_add_lem up id c g a none d q h = absurd (ground arith)
check_add_lem up id c g a (some r) d q h = (r, refl, ground arith)

max_position-le :
    (p : QuestionRow → Bool) (qs : List QuestionRow) (n : ℕ)
    → max_position (select p qs) < n
    → any (λ q. p q && leb n q.position) qs ≡ false
max_position-le p [] n h = refl
max_position-le p (q ∷ qs) n h = ground (arith, max_position-le p qs n)

-- A question that is added without a position, or with position 0, stands behind all others of its
-- assessment, unless the query for the last position fails; it is worth one point.
pub added_last :
    (up : DeskStmt → Bool) (id : Str) (c : Caller) (g : Scope) (assessment : Str)
    (req : QuestionReq) (d d' : Desk) (q : QuestionRow)
    → add_question up id c g assessment (some req) d ≡ (ok q, d')
    → req.position ≡ 0
    → up read_position ≡ true
    → (d'.questions ≡ d.questions ++ q ∷ [])
      × (q.points ≡ 1)
      × (any (λ p. beq p.assessment_id assessment && leb q.position p.position) d.questions ≡ false)
unfolding add_question place_of questions_of
added_last up id c g assessment req d d' q h zero_position u =
    go (check_add up id c g assessment (some req) d) refl h
  where
    go :
        (r : Reply QuestionRow)
        → check_add up id c g assessment (some req) d ≡ r
        → apply_to insert_question d r ≡ (ok q, d')
        → (d'.questions ≡ d.questions ++ q ∷ [])
          × (q.points ≡ 1)
          × (any (λ p. beq p.assessment_id assessment && leb q.position p.position) d.questions
              ≡ false)
    go (fail e) k x = absurd (cc)
    go (ok b) k x =
        let (r, is_req, is_new) = check_add_lem up id c g assessment (some req) d b k in
        let same : b ≡ q = ground arith in
        let place : q.position ≡ max_position (questions_of assessment d) + 1 = ground arith in
        (
          ground arith,
          ground arith,
          max_position-le (λ p. beq p.assessment_id assessment) d.questions q.position
              (omega (arith, place)),
        )
