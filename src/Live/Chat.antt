-- ===== src/Live/Chat.antt =====
-- backend/internal/handlers/live_session.go, the chat and the questions of a room. Rows with the same
-- time may come in any order; here they keep the order of the table.
pub mod Privacy
pub mod Posts
pub mod Moderation
use onrol_infra.Base.{
  ℕ, ◌≡◌, Bool, true, false, not, ◌&&◌, ◌||◌, Option, none, some, List, [], ◌∷◌, ◌++◌, reverse, ltb,
  take, select, find, any, if◌then◌else◌, coalesce, is_empty, Str, beq, trim_space, cut,
  update_where, delete_where, sort_by, Reply, ok, fail, refuse, ◌>>=◌, ◌>>◌, require,
}
use onrol_infra.Live.Tables.{
  ChatMessage, Question, Db, Caller, session_of, user_of, can_manage_course, is_host, is_ok,
  course_or_404,
}
use onrol_infra.Live.Access.{Weather, Access, access, no_rows, other_error, live_access}

-- The `body` of the JSON, or none where it cannot be parsed.
unfoldable pub parse_live_body : Option Str → Reply Str
unfolding trim_space
parse_live_body none = refuse 400 "invalid body"
parse_live_body (some s) =
    let body = trim_space s in
    if is_empty body then refuse 400 "empty message" else ok (cut 1000 body)

-- What the insert of a row takes from the database.
pub record Insert : Type 0 where
  pub up : Bool
  pub new_id : Str
  pub now : ℕ

abbrev pub display_name_of : Db → Str → Str
display_name_of db user = elim (user_of db user) [ none ↦ [] | some u ↦ u.full_name ]

abbrev pub new_message : Caller → Insert → Str → Bool → Db → Str → ChatMessage
new_message c i session staff db body = record {
  id = i.new_id;
  session_id = session;
  user_id = c.id;
  display_name = display_name_of db c.id;
  body = body;
  from_staff = staff;
  created_at = i.now;
}

abbrev pub insert_message : Caller → Insert → Str → Bool → Db → Reply Str → Reply ChatMessage × Db
insert_message c i session staff db (fail e) = (fail e, db)
insert_message c i session staff db (ok body) =
    if i.up
    then (let m = new_message c i session staff db body in
        (ok m, record db { chat = db.chat ++ m ∷ [] }))
    else (refuse 500 "post failed", db)

abbrev pub chat_gate : Caller → Insert → Str → Option Str → Db → Access → Reply ChatMessage × Db
chat_gate c i session body db no_rows = (refuse 403 "not entitled", db)
chat_gate c i session body db other_error = (refuse 500 "chat failed", db)
chat_gate c i session body db (access chat qa staff) =
    if not chat && not staff
    then (refuse 403 "chat is disabled", db)
    else insert_message c i session staff db (parse_live_body body)

unfoldable pub live_chat_post :
    Caller → Weather → Insert → Str → Option Str → Db → Reply ChatMessage × Db
live_chat_post c w i session body db = chat_gate c i session body db (live_access c w session db)

-- Staff see all messages; a student those of the host and their own.
abbrev pub is_visible : Bool → Str → ChatMessage → Bool
is_visible staff user m = staff || m.from_staff || beq m.user_id user

abbrev pub room_messages : Bool → Str → Str → Db → List ChatMessage
room_messages staff user session db =
    select (λ m. beq m.session_id session && is_visible staff user m) db.chat

abbrev pub by_time : List ChatMessage → List ChatMessage
by_time = sort_by λ m. m.created_at

-- The last 100.
abbrev pub latest : List ChatMessage → List ChatMessage
latest ms = by_time (take 100 (reverse (by_time ms)))

-- The first 200 behind the cursor, a text that the database has to read as a time.
abbrev pub messages_after : Option ℕ → List ChatMessage → Reply (List ChatMessage)
messages_after none ms = refuse 500 "chat load failed"
messages_after (some t) ms = ok (take 200 (by_time (select (λ m. ltb t m.created_at) ms)))

abbrev pub listed_messages : (Str → Option ℕ) → Str → List ChatMessage → Reply (List ChatMessage)
listed_messages instant_of after ms =
    if is_empty after then ok (latest ms) else messages_after (instant_of after) ms

abbrev pub chat_listing :
    (Str → Option ℕ) → Caller → Bool → Str → Str → Db → Access → Reply (List ChatMessage)
chat_listing instant_of c up session after db no_rows = refuse 403 "not entitled"
chat_listing instant_of c up session after db other_error = refuse 500 "chat load failed"
chat_listing instant_of c up session after db (access chat qa staff) =
    if up
    then listed_messages instant_of after (room_messages staff c.id session db)
    else refuse 500 "chat load failed"

-- `instant_of` is the database's reading of a text as a timestamptz.
unfoldable pub live_chat_list :
    (Str → Option ℕ) → Caller → Weather → Bool → Str → Str → Db → Reply (List ChatMessage)
unfolding beq sort_by trim_space
live_chat_list instant_of c w up session after db =
    chat_listing instant_of c up session (trim_space after) db (live_access c w session db)

-- The message with the course of its session.
abbrev pub message_of : Str → Str → Db → Option (ChatMessage × Str)
message_of session id db = elim (find (λ m. beq m.id id && beq m.session_id session) db.chat) [
  | none ↦ none
  | some m ↦ elim (session_of db m.session_id) [ none ↦ none | some s ↦ some (m, s.course_id) ]
]

abbrev pub delete_message : Bool → Str → Db → Reply (Unit {0}) × Db
delete_message up id db =
    if up
    then (ok tt, record db { chat = delete_where (λ m. beq m.id id) db.chat })
    else (refuse 500 "delete failed", db)

-- The author, or who can manage the course.
abbrev pub may_delete : Caller → Weather → Db → ChatMessage × Str → Bool
may_delete c w db (m, course_id) =
    beq m.user_id c.id || is_ok (can_manage_course c w.covers w.manage_up course_id db)

abbrev pub delete_found :
    Caller → Weather → Bool → Str → Db → Option (ChatMessage × Str) → Reply (Unit {0}) × Db
delete_found c w up id db none = (refuse 404 "message not found", db)
delete_found c w up id db (some m) =
    if may_delete c w db m
    then delete_message up id db
    else (refuse 403 "cannot delete this message", db)

unfoldable pub live_chat_delete : Caller → Weather → Bool → Str → Str → Db → Reply (Unit {0}) × Db
unfolding beq delete_where
live_chat_delete c w up session id db =
    if w.up
    then delete_found c w up id db (message_of session id db)
    else (refuse 500 "delete failed", db)

abbrev pub new_question : Caller → Insert → Str → Db → Str → Question
new_question c i session db body = record {
  id = i.new_id;
  session_id = session;
  user_id = c.id;
  display_name = display_name_of db c.id;
  body = body;
  answer = [];
  answered = false;
  created_at = i.now;
  answered_at = none;
  answered_by = none;
}

abbrev pub insert_question : Caller → Insert → Str → Db → Reply Str → Reply Question × Db
insert_question c i session db (fail e) = (fail e, db)
insert_question c i session db (ok body) =
    if i.up
    then (let q = new_question c i session db body in
        (ok q, record db { questions = db.questions ++ q ∷ [] }))
    else (refuse 500 "post failed", db)

abbrev pub question_gate : Caller → Insert → Str → Option Str → Db → Access → Reply Question × Db
question_gate c i session body db no_rows = (refuse 403 "not entitled", db)
question_gate c i session body db other_error = (refuse 500 "question failed", db)
question_gate c i session body db (access chat qa staff) =
    if not qa
    then (refuse 403 "Q&A is disabled", db)
    else insert_question c i session db (parse_live_body body)

unfoldable pub live_question_post :
    Caller → Weather → Insert → Str → Option Str → Db → Reply Question × Db
live_question_post c w i session body db =
    question_gate c i session body db (live_access c w session db)

abbrev pub asked : List Question → List Question
asked = sort_by λ q. q.created_at

-- Unanswered first, the oldest before; then the answered, the newest before.
abbrev pub queue : Str → Db → List Question
queue session db =
    let qs = select (λ q. beq q.session_id session) db.questions in
    take 300
      (asked (select (λ q. not q.answered) qs) ++ reverse (asked (select (λ q. q.answered) qs)))

abbrev pub own_questions : Str → Str → Db → List Question
own_questions user session db =
    take 200
      (reverse (asked (select (λ q. beq q.session_id session && beq q.user_id user) db.questions)))

abbrev pub question_listing : Caller → Bool → Str → Db → Access → Reply (List Question)
question_listing c up session db no_rows = refuse 403 "not entitled"
question_listing c up session db other_error = refuse 500 "questions load failed"
question_listing c up session db (access chat qa staff) =
    if up
    then ok (if staff then queue session db else own_questions c.id session db)
    else refuse 500 "questions load failed"

unfoldable pub live_questions_list : Caller → Weather → Bool → Str → Db → Reply (List Question)
unfolding beq sort_by
live_questions_list c w up session db =
    question_listing c up session db (live_access c w session db)

abbrev pub is_question : Str → Str → Question → Bool
is_question session id q = beq q.id id && beq q.session_id session

abbrev pub answer_with : Caller → ℕ → Str → Question → Question
answer_with c now body q = record q {
  answer = body;
  answered = true;
  answered_at = some now;
  answered_by = some c.id;
}

abbrev pub answer_row : Caller → Bool → ℕ → Str → Str → Db → Reply Str → Reply Str × Db
answer_row c up now session id db (fail e) = (fail e, db)
answer_row c up now session id db (ok body) =
    if not up
    then (refuse 500 "answer failed", db)
    else (if any (is_question session id) db.questions
        then (
          ok body,
          record db {
            questions = update_where (is_question session id) (answer_with c now body) db.questions;
          },
        )
        else (refuse 404 "question not found", db))

abbrev pub check_answer : Caller → Weather → Str → Option Str → Db → Reply Str
check_answer c w session body db = do
  course_id ← course_or_404 w.up session db
  require (is_host c w.covers w.manage_up course_id db) 403 "only the host can answer"
  parse_live_body body

unfoldable pub live_answer_question :
    Caller → Weather → Bool → ℕ → Str → Str → Option Str → Db → Reply Str × Db
unfolding beq update_where
live_answer_question c w up now session id body db =
    answer_row c up now session id db (check_answer c w session body db)
