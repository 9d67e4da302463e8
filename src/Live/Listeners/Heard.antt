-- ===== src/Live/Listeners/Heard.antt =====
-- What the host hears of a room (live_session.go, LiveListeners).
use onrol_infra.Base.{
  ℕ, ◌≤◌, ◌≡◌, refl, ap, min, arith, Bool, true, false, List, [], ◌∷◌, map, reverse, take, length,
  length-take-le, Str, ok, same_answer, subst,
}
use onrol_infra.Live.Tables.{Db, Caller}
use onrol_infra.Live.Access.{Weather, Access, access, no_rows, other_error, live_access}
use onrol_infra.Live.Presence.{presence_users, Presence, sweep_leaves, presence_count, live_feed}
use onrol_infra.Live.Presence.Feed.{sweep_idempotent, presence_users_count}
use onrol_infra.Live.Listeners.{name_of, feed_item, Listeners, listening, listen, live_listeners}

length-map : {A B : Type 0} (f : A → B) (xs : List A) → length (map f xs) ≡ length xs
length-map f [] = refl
length-map f (x ∷ xs) = omega (arith, length-map f xs)

pub record IsHeard (c : Caller) (w : Weather) (unix : ℕ) (session : Str) (db : Db)
    (p after : Presence) (l : Listeners) : Type 0 where
  pub chat_on : Bool
  pub qa_on : Bool
  pub host_only : live_access c w session db ≡ access chat_on qa_on true
  pub swept : after ≡ sweep_leaves unix session p
  pub named : length l.listeners ≡ l.n
  pub counted : l.n ≡ min 500 (presence_count unix session 30 after)
  pub short : length l.feed ≤ 40

IsHeard-swept :
    (c : Caller) (w : Weather) (unix : ℕ) (up : Bool) (session : Str) (db : Db) (p : Presence)
    (chat qa : Bool)
    → live_access c w session db ≡ access chat qa true
    → IsHeard c w unix session db p
        (sweep_leaves unix session p)
        (listening unix up session db (sweep_leaves unix session p))
IsHeard-swept c w unix up session db p chat qa e =
    let q = sweep_leaves unix session p in
    record {
      chat_on = chat;
      qa_on = qa;
      host_only = e;
      swept = refl;
      named =
          length-map (λ i. record { id = i; name = name_of up db i })
            (presence_users unix session 30 q);
      counted = presence_users_count unix 30 session q;
      short = omega (
        arith,
        length-map (feed_item up db) (take 40 (reverse (live_feed session q))),
        length-take-le 40 (reverse (live_feed session q)),
      );
    }

heard :
    (c : Caller) (w : Weather) (unix : ℕ) (up : Bool) (session : Str) (db : Db) (p after : Presence)
    (l : Listeners) (a : Access)
    → live_access c w session db ≡ a
    → listen unix up session db p a ≡ (ok l, after)
    → IsHeard c w unix session db p after l
heard c w unix up session db p after l no_rows e h = absurd (cc)
heard c w unix up session db p after l other_error e h = absurd (cc)
heard c w unix up session db p after l (access chat qa false) e h = absurd (cc)
heard c w unix up session db p after l (access chat qa true) e h =
    let same =
      same_answer (listening unix up session db (sweep_leaves unix session p)) l
        (sweep_leaves unix session p) after h in
    subst (λ q. IsHeard c w unix session db p q l) same.1
      (subst (IsHeard c w unix session db p (sweep_leaves unix session p)) same.0
        (IsHeard-swept c w unix up session db p chat qa e))

-- Only staff hear who is in a room. The room is swept before; the count is that of the names and of
-- the viewers seen in the last 30 seconds, up to 500, and the feed has at most 40 entries.
pub live_listeners-IsHeard :
    (c : Caller) (w : Weather) (unix : ℕ) (up : Bool) (session : Str) (db : Db) (p after : Presence)
    (l : Listeners)
    → live_listeners c w unix up session db p ≡ (ok l, after)
    → IsHeard c w unix session db p after l
unfolding live_listeners
live_listeners-IsHeard c w unix up session db p after l h =
    heard c w unix up session db p after l (live_access c w session db) refl h

listen_twice :
    (unix : ℕ) (up : Bool) (session : Str) (db : Db) (p : Presence) (a : Access)
    → listen unix up session db (listen unix up session db p a).1 a ≡ listen unix up session db p a
listen_twice unix up session db p no_rows = refl
listen_twice unix up session db p other_error = refl
listen_twice unix up session db p (access chat qa false) = refl
listen_twice unix up session db p (access chat qa true) =
    ap (λ q. (ok (listening unix up session db q), q)) (sweep_idempotent unix session p)

-- Whoever asks twice in a second, with nothing in between, is told the same, and the second time
-- leaves the room as it was: no departure is announced twice.
pub listeners_again :
    (c : Caller) (w : Weather) (unix : ℕ) (up : Bool) (session : Str) (db : Db) (p : Presence)
    → live_listeners c w unix up session db (live_listeners c w unix up session db p).1
      ≡ live_listeners c w unix up session db p
unfolding live_listeners
listeners_again c w unix up session db p =
    listen_twice unix up session db p (live_access c w session db)
