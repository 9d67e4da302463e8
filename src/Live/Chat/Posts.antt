-- ===== src/Live/Chat/Posts.antt =====
-- What a post leaves in the messages of a room, and whose it is (live_session.go).
use onrol_infra.Base.{
  ℕ, suc, ◌≤◌, ◌≡◌, refl, arith, Bool, true, false, ◌||◌, Option, none, some, [], ◌∷◌, ◌++◌, length,
  length-take-le, is_empty, Str, trim_space, cut, Reply, ok, fail,
}
use onrol_infra.Live.Tables.{ChatMessage, Db, Caller}
use onrol_infra.Live.Access.{Weather, Access, access, no_rows, other_error, live_access}
use onrol_infra.Live.Chat.{parse_live_body, Insert, insert_message, chat_gate, live_chat_post}

cut-length : (n : ℕ) (s : Str) → length (cut n s) ≤ n
cut-length n s = ground (arith, length-take-le n s)

cut_not_empty : (n : ℕ) (s : Str) → is_empty s ≡ false → 1 ≤ length (cut (suc n) s)
cut_not_empty n [] h = cc
cut_not_empty n (x ∷ s) h = ground arith

pub parsed_bounds :
    (body : Option Str) (s : Str) → parse_live_body body ≡ ok s → (1 ≤ length s) × (length s ≤ 1000)
unfolding parse_live_body
parsed_bounds none s e = ground arith
parsed_bounds (some t) s e =
    ground (arith, cut-length 1000 (trim_space t), cut_not_empty 999 (trim_space t))

inserted :
    (c : Caller) (i : Insert) (session : Str) (staff : Bool) (db after : Db) (p : Reply Str)
    (m : ChatMessage)
    → insert_message c i session staff db p ≡ (ok m, after)
    → (p ≡ ok m.body)
      × (m.from_staff ≡ staff)
      × (m.user_id ≡ c.id)
      × (m.session_id ≡ session)
      × (after.chat ≡ db.chat ++ m ∷ [])
inserted c i session staff db after (fail e) m h = ground arith
inserted c i session staff db after (ok s) m h = ground arith

-- What liveAccess said of the author of a message that was stored.
pub record Posted (c : Caller) (w : Weather) (session : Str) (db after : Db) (m : ChatMessage)
    : Type 0 where
  pub chat_on : Bool
  pub qa_on : Bool
  pub staff : Bool
  pub entitled : live_access c w session db ≡ access chat_on qa_on staff
  pub open_to : (chat_on || staff) ≡ true
  pub marked : m.from_staff ≡ staff
  pub author : m.user_id ≡ c.id
  pub not_empty : 1 ≤ length m.body
  pub bounded : length m.body ≤ 1000
  pub appended : after.chat ≡ db.chat ++ m ∷ []

Posted-from :
    (c : Caller) (w : Weather) (i : Insert) (session : Str) (body : Option Str) (db after : Db)
    (m : ChatMessage) (chat qa staff : Bool)
    → live_access c w session db ≡ access chat qa staff
    → (chat || staff) ≡ true
    → insert_message c i session staff db (parse_live_body body) ≡ (ok m, after)
    → Posted c w session db after m
Posted-from c w i session body db after m chat qa staff l o h =
    let f = inserted c i session staff db after (parse_live_body body) m h in
    let b = parsed_bounds body m.body f.0 in
    record {
      chat_on = chat;
      qa_on = qa;
      staff = staff;
      entitled = l;
      open_to = o;
      marked = f.1;
      author = f.2;
      not_empty = b.0;
      bounded = b.1;
      appended = f.4;
    }

gated :
    (c : Caller) (w : Weather) (i : Insert) (session : Str) (body : Option Str) (db after : Db)
    (m : ChatMessage) (a : Access)
    → live_access c w session db ≡ a
    → chat_gate c i session body db a ≡ (ok m, after)
    → Posted c w session db after m
gated c w i session body db after m no_rows l h = ground arith
gated c w i session body db after m other_error l h = ground arith
gated c w i session body db after m (access false qa false) l h = ground arith
gated c w i session body db after m (access false qa true) l h =
    Posted-from c w i session body db after m false qa true l refl h
gated c w i session body db after m (access true qa staff) l h =
    Posted-from c w i session body db after m true qa staff l refl h

-- A message that LiveChatPost stores is appended to the table and has between 1 and 1000 bytes. Its
-- author is the caller, whom liveAccess admits either to an open chat or as staff; it is marked as
-- the host's exactly for staff.
pub chat_post_sound :
    (c : Caller) (w : Weather) (i : Insert) (session : Str) (body : Option Str) (db after : Db)
    (m : ChatMessage)
    → live_chat_post c w i session body db ≡ (ok m, after)
    → Posted c w session db after m
unfolding live_chat_post
chat_post_sound c w i session body db after m h =
    gated c w i session body db after m (live_access c w session db) refl h
