-- ===== src/Live/Chat/Moderation.antt =====
-- What the removal of a message and the answer to a question leave in the tables (live_session.go).
use onrol_infra.Base.{
  String, ◌>>=◌, require, ℕ, ◌≤◌, ◌≡◌, refl, ◌∙◌, ap, sym, arith, Bool, true, false, not, ◌&&◌,
  Option, none, some, List, [], ◌∷◌, length, count, any, if◌then◌else◌, Str, beq, beq_iff,
  update_where, delete_where, Reply, ok, fail, refuse, inl, inr, Bool-cases,
}
use onrol_infra.Live.Tables.{ChatMessage, Question, Db, Caller, is_host, course_or_404}
use onrol_infra.Live.Access.{Weather}
use onrol_infra.Live.Chat.{
  parse_live_body, message_of, may_delete, delete_found, live_chat_delete, is_question, answer_with,
  answer_row, check_answer, live_answer_question,
}
use onrol_infra.Live.Chat.Posts.{parsed_bounds}

delete_none :
    (id : Str) (ms : List ChatMessage)
    → count (λ m. beq m.id id) (delete_where (λ m. beq m.id id) ms) ≡ 0
unfolding delete_where
delete_none id [] = refl
delete_none id (m ∷ ms) = ground (arith, delete_none id ms)

delete_spares :
    (q : ChatMessage → Bool) (id : Str) (ms : List ChatMessage)
    → ((m : ChatMessage) → q m ≡ true → beq m.id id ≡ false)
    → count q (delete_where (λ m. beq m.id id) ms) ≡ count q ms
unfolding delete_where
delete_spares q id [] other = refl
delete_spares q id (m ∷ ms) other = ground (arith, other m, delete_spares q id ms other)

removed :
    (c : Caller) (w : Weather) (up : Bool) (id : Str) (db after : Db)
    (o : Option (ChatMessage × Str))
    → delete_found c w up id db o ≡ (ok tt, after)
    → ((mc : ChatMessage × Str) × (o ≡ some mc) × (may_delete c w db mc ≡ true))
      × (after.chat ≡ delete_where (λ m. beq m.id id) db.chat)
removed c w up id db after none h = ground arith
removed c w up id db after (some mc) h = elim (Bool-cases (may_delete c w db mc)) [
  | inl y ↦ ((mc, refl, y), ground arith)
  | inr n ↦ absurd (ground arith)
]

removed_if_up :
    (c : Caller) (w : Weather) (up : Bool) (session id : Str) (db after : Db)
    → live_chat_delete c w up session id db ≡ (ok tt, after)
    → delete_found c w up id db (message_of session id db) ≡ (ok tt, after)
unfolding live_chat_delete
removed_if_up c w up session id db after h = elim (Bool-cases w.up) [
  | inl y ↦
      ap
        (λ b.
          if b
          then delete_found c w up id db (message_of session id db)
          else (refuse 500 "delete failed", db))
        (sym y)
      ∙ h
  | inr n ↦ absurd (ground arith)
]

-- LiveChatDelete removes a message only for its author or for a caller that canManageCourse lets
-- through for the course of its session. Then no message with that id is left, and any set of
-- other messages has as many as before.
pub delete_moderated :
    (c : Caller) (w : Weather) (up : Bool) (session id : Str) (db after : Db)
    (q : ChatMessage → Bool)
    → ((m : ChatMessage) → q m ≡ true → beq m.id id ≡ false)
    → live_chat_delete c w up session id db ≡ (ok tt, after)
    → ((mc : ChatMessage × Str) × (message_of session id db ≡ some mc)
        × (may_delete c w db mc ≡ true))
      × (count (λ m. beq m.id id) after.chat ≡ 0)
      × (count q after.chat ≡ count q db.chat)
delete_moderated c w up session id db after q other h =
    let f =
      removed c w up id db after (message_of session id db)
        (removed_if_up c w up session id db after h) in
    (f.0, rw (f.1) (delete_none id db.chat), rw (f.1) (delete_spares q id db.chat other))

-- A question of the room that has this answer.
abbrev pub has_answer : Str → Str → Str → Question → Bool
has_answer session id body q = is_question session id q && (q.answered && beq q.answer body)

answers_all :
    (c : Caller) (now : ℕ) (session id body : Str) (qs : List Question)
    → count
        (has_answer session id body)
        (update_where (is_question session id) (answer_with c now body) qs)
      ≡ count (is_question session id) qs
unfolding update_where
answers_all c now session id body [] = refl
answers_all c now session id body (q ∷ qs) =
    ground (arith, beq_iff body body, answers_all c now session id body qs)

answers_others :
    (c : Caller) (now : ℕ) (session id body : Str) (p : Question → Bool) (qs : List Question)
    → ((q : Question) → p q ≡ true → is_question session id q ≡ false)
    → ((q : Question) → is_question session id q ≡ true → p (answer_with c now body q) ≡ false)
    → count p (update_where (is_question session id) (answer_with c now body) qs) ≡ count p qs
unfolding update_where
answers_others c now session id body p [] other off = refl
answers_others c now session id body p (q ∷ qs) other off =
    ground (arith, other q, off q, answers_others c now session id body p qs other off)

answered_row :
    (c : Caller) (up : Bool) (now : ℕ) (session id body : Str) (db after : Db) (r : Reply Str)
    → answer_row c up now session id db r ≡ (ok body, after)
    → (r ≡ ok body)
      × (any (is_question session id) db.questions ≡ true)
      × (after.questions
          ≡ update_where (is_question session id) (answer_with c now body) db.questions)
answered_row c up now session id body db after (fail e) h = ground arith
answered_row c up now session id body db after (ok b) h = ground arith

bind-ok :
    {A B : Type 0} (m : Reply A) (f : A → Reply B) (b : B)
    → (m >>= f) ≡ ok b
    → (a : A) × (m ≡ ok a) × (f a ≡ ok b)
bind-ok (fail e) f b h = absurd (cc)
bind-ok (ok a) f b h = (a, refl, h)

require-ok : (t : Bool) (n : ℕ) (m : String) (u : Unit {0}) → require t n m ≡ ok u → t ≡ true
require-ok true n m u h = refl
require-ok false n m u h = absurd (cc)

-- The checks of LiveAnswerQuestion pass only for a host of the session's course.
host_answered :
    (c : Caller) (w : Weather) (session : Str) (body : Option Str) (db : Db) (s : Str)
    → check_answer c w session body db ≡ ok s
    → ((course_id : Str) × (course_or_404 w.up session db ≡ ok course_id)
        × (is_host c w.covers w.manage_up course_id db ≡ true))
      × (parse_live_body body ≡ ok s)
host_answered c w session body db s h =
    let found = bind-ok (course_or_404 w.up session db) _ s h in
    let asked_by =
      bind-ok (require (is_host c w.covers w.manage_up found.0 db) 403 "only the host can answer") _
        s found.2 in
    ((found.0, found.1, require-ok _ _ _ asked_by.0 asked_by.1), asked_by.2)

-- What an accepted answer means for the questions table.
pub record Answered (c : Caller) (w : Weather) (session id answer : Str) (r : Question → Bool)
    (db after : Db) : Type 0 where
  pub course_id : Str
  pub in_course : course_or_404 w.up session db ≡ ok course_id
  pub by_host : is_host c w.covers w.manage_up course_id db ≡ true
  pub not_empty : 1 ≤ length answer
  pub bounded : length answer ≤ 1000
  pub delivered :
      count (has_answer session id answer) after.questions
      ≡ count (is_question session id) db.questions
  pub others_kept :
      count (λ q. r q && not (is_question session id q)) after.questions
      ≡ count (λ q. r q && not (is_question session id q)) db.questions

-- LiveAnswerQuestion answers only for a host of the session's course, with 1 to 1000 bytes.
-- Afterwards the question carries that answer, and of the other questions as many as before meet
-- any given test.
pub answer_delivered :
    (c : Caller) (w : Weather) (up : Bool) (now : ℕ) (session id : Str) (body : Option Str)
    (db after : Db) (answer : Str) (r : Question → Bool)
    → live_answer_question c w up now session id body db ≡ (ok answer, after)
    → Answered c w session id answer r db after
unfolding live_answer_question
answer_delivered c w up now session id body db after answer r h =
    let row =
      answered_row c up now session id answer db after (check_answer c w session body db) h in
    let host = host_answered c w session body db answer row.0 in
    let size = parsed_bounds body answer host.1 in
    record {
      course_id = host.0.0;
      in_course = host.0.1;
      by_host = host.0.2;
      not_empty = size.0;
      bounded = size.1;
      delivered = rw (row.2) (answers_all c now session id answer db.questions);
      others_kept = rw (row.2) (
          answers_others c now session id answer (λ q. r q && not (is_question session id q))
            db.questions (λ q t. ground arith) (λ q t. ground arith));
    }
