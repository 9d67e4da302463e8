-- ===== src/Live/Chat/Privacy.antt =====
-- Who reads which messages and questions of a room (live_session.go).
use onrol_infra.Base.{
  ◌||◌, ℕ, zero, suc, ◌+◌, ◌≤◌, ◌≡◌, refl, ◌∙◌, ap, sym, ltb, Bool, true, false, not, ◌&&◌, Option,
  none, some, List, [], ◌∷◌, reverse, arith, take, select, count, Str, beq, trim_space, sort_by,
  insert_by, Reply, ok, fail,
}
use mathlib.Core.List.{reverse_aux}
use onrol_infra.Live.Tables.{ChatMessage, Question, Db, Caller}
use onrol_infra.Live.Access.{Weather, access, live_access}
use onrol_infra.Live.Chat.{
  asked, own_questions, question_listing, listed_messages, chat_listing, latest, by_time,
  messages_after, is_visible, room_messages, live_chat_list, live_questions_list,
}

module _ {ℓ} {A : Type ℓ} (p : A → Bool) where
  count-insert_by :
      (key : A → ℕ) (x : A) (xs : List A) → count p (insert_by key x xs) ≡ count p (x ∷ xs)
  unfolding insert_by
  count-insert_by key x [] = refl
  count-insert_by key x (y ∷ ys) = ground (arith, count-insert_by key x ys)

  count-sort_by : (key : A → ℕ) (xs : List A) → count p (sort_by key xs) ≡ count p xs
  unfolding sort_by
  count-sort_by key [] = refl
  count-sort_by key (x ∷ xs) =
      ground (arith, count-insert_by key x (sort_by key xs), count-sort_by key xs)

  count-take-le : (n : ℕ) (xs : List A) → count p (take n xs) ≤ count p xs
  count-take-le zero xs = omega arith
  count-take-le (suc n) [] = omega arith
  count-take-le (suc n) (x ∷ xs) = ground (arith, count-take-le n xs)

  count-reverse_aux : (xs ys : List A) → count p (reverse_aux xs ys) ≡ count p xs + count p ys
  count-reverse_aux [] ys = omega arith
  count-reverse_aux (x ∷ xs) ys = omega (arith, count-reverse_aux xs (x ∷ ys))

  count-reverse : (xs : List A) → count p (reverse xs) ≡ count p xs
  count-reverse xs = omega (arith, count-reverse_aux xs [])

  count-select-le : (q : A → Bool) (xs : List A) → count p (select q xs) ≤ count p xs
  count-select-le q [] = omega arith
  count-select-le q (x ∷ xs) = ground (arith, count-select-le q xs)

  count-select :
      (q : A → Bool) (xs : List A)
      → ((x : A) → q x ≡ true → p x ≡ false)
      → count p (select q xs) ≡ 0
  count-select q [] h = refl
  count-select q (x ∷ xs) h = ground (arith, h x, count-select q xs h)

-- A message that a viewer other than staff may not read, of this room or of another.
abbrev pub is_foreign : Str → Str → ChatMessage → Bool
is_foreign session user m = not (beq m.session_id session && (m.from_staff || beq m.user_id user))

module _ (session user : Str) where
  room_has_no_foreign :
      (db : Db) → count (is_foreign session user) (room_messages false user session db) ≡ 0
  room_has_no_foreign db =
      count-select (is_foreign session user)
        (λ m. beq m.session_id session && is_visible false user m) db.chat (λ m h. ground arith)

  latest_has_no_foreign :
      (ms : List ChatMessage)
      → count (is_foreign session user) ms ≡ 0
      → count (is_foreign session user) (latest ms) ≡ 0
  latest_has_no_foreign ms h =
      let p = is_foreign session user in
      let sorted = by_time ms in
      omega (
        arith,
        h,
        count-sort_by p (λ m. m.created_at) ms,
        count-reverse p sorted,
        count-take-le p 100 (reverse sorted),
        count-sort_by p (λ m. m.created_at) (take 100 (reverse sorted)),
      )

  foreign_in : Reply (List ChatMessage) → ℕ
  foreign_in (fail e) = 0
  foreign_in (ok ms) = count (is_foreign session user) ms

  after_has_no_foreign :
      (o : Option ℕ) (ms : List ChatMessage)
      → count (is_foreign session user) ms ≡ 0
      → foreign_in (messages_after o ms) ≡ 0
  unfolding foreign_in
  after_has_no_foreign none ms h = refl
  after_has_no_foreign (some t) ms h =
      let p = is_foreign session user in
      let later = select (λ m. ltb t m.created_at) ms in
      omega (
        arith,
        h,
        count-take-le p 200 (by_time later),
        count-sort_by p (λ m. m.created_at) later,
        count-select-le p (λ m. ltb t m.created_at) ms,
      )

  listed_has_no_foreign :
      (instant_of : Str → Option ℕ) (after : Str) (ms : List ChatMessage)
      → count (is_foreign session user) ms ≡ 0
      → foreign_in (listed_messages instant_of after ms) ≡ 0
  unfolding foreign_in
  listed_has_no_foreign instant_of [] ms h = latest_has_no_foreign ms h
  listed_has_no_foreign instant_of (x ∷ after) ms h =
      after_has_no_foreign (instant_of (x ∷ after)) ms h

listing_has_no_foreign :
    (instant_of : Str → Option ℕ) (c : Caller) (up : Bool) (session after : Str) (db : Db)
    (chat qa : Bool)
    → foreign_in session c.id (chat_listing instant_of c up session after db (access chat qa false))
      ≡ 0
unfolding foreign_in
listing_has_no_foreign instant_of c false session after db chat qa = refl
listing_has_no_foreign instant_of c true session after db chat qa =
    listed_has_no_foreign session c.id instant_of after (room_messages false c.id session db)
      (room_has_no_foreign session c.id db)

-- A caller whom liveAccess does not take for staff reads, with or without a cursor, only messages
-- of this room that the host sent or that are their own.
pub chat_private :
    (instant_of : Str → Option ℕ) (c : Caller) (w : Weather) (up : Bool) (session after : Str)
    (db : Db) (chat qa : Bool) (out : List ChatMessage)
    → live_access c w session db ≡ access chat qa false
    → live_chat_list instant_of c w up session after db ≡ ok out
    → count (is_foreign session c.id) out ≡ 0
unfolding live_chat_list foreign_in
chat_private instant_of c w up session after db chat qa out student listed =
    ap (foreign_in session c.id) (sym listed)
    ∙ (ap
          (λ a.
            foreign_in session c.id (chat_listing instant_of c up session (trim_space after) db a))
          student
        ∙ listing_has_no_foreign instant_of c up session (trim_space after) db chat qa)

-- A question that is not one of the caller's in this room.
abbrev pub is_not_own : Str → Str → Question → Bool
is_not_own session user q = not (beq q.session_id session && beq q.user_id user)

not_own_in : Str → Str → Reply (List Question) → ℕ
not_own_in session user (fail e) = 0
not_own_in session user (ok qs) = count (is_not_own session user) qs

own_are_own :
    (session user : Str) (db : Db)
    → count (is_not_own session user) (own_questions user session db) ≡ 0
own_are_own session user db =
    let p = is_not_own session user in
    let own = select (λ q. beq q.session_id session && beq q.user_id user) db.questions in
    omega (
      arith,
      count-take-le p 200 (reverse (asked own)),
      count-reverse p (asked own),
      count-sort_by p (λ q. q.created_at) own,
      count-select p (λ q. beq q.session_id session && beq q.user_id user) db.questions
          (λ q h. ground arith),
    )

questions_are_own :
    (c : Caller) (up : Bool) (session : Str) (db : Db) (chat qa : Bool)
    → not_own_in session c.id (question_listing c up session db (access chat qa false)) ≡ 0
unfolding not_own_in
questions_are_own c false session db chat qa = refl
questions_are_own c true session db chat qa = own_are_own session c.id db

-- A caller whom liveAccess does not take for staff is given only their own questions of this room.
pub questions_private :
    (c : Caller) (w : Weather) (up : Bool) (session : Str) (db : Db) (chat qa : Bool)
    (out : List Question)
    → live_access c w session db ≡ access chat qa false
    → live_questions_list c w up session db ≡ ok out
    → count (is_not_own session c.id) out ≡ 0
unfolding live_questions_list not_own_in
questions_private c w up session db chat qa out student listed =
    ap (not_own_in session c.id) (sym listed)
    ∙ (ap (λ a. not_own_in session c.id (question_listing c up session db a)) student
        ∙ questions_are_own c up session db chat qa)
