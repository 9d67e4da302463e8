-- ===== src/Live/Listeners.antt =====
-- backend/internal/handlers/live_session.go, LiveListeners.
pub mod Heard
use onrol_infra.Base.{
  ℕ, Bool, true, false, not, ◌&&◌, ◌||◌, Option, none, some, List, [], ◌∷◌, map, reverse, take,
  length, find, if◌then◌else◌, is_empty, coalesce, Str, codes, beq, Reply, ok, fail, refuse,
}
use onrol_infra.Account.Devices.{User}
use onrol_infra.Live.Tables.{Db, Caller, user_of}
use onrol_infra.Live.Access.{Weather, Access, access, no_rows, other_error, live_access}
use onrol_infra.Live.Presence.{LiveEvent, Presence, sweep_leaves, presence_users, live_feed}

-- COALESCE(NULLIF(full_name, ''), COALESCE(email, username, 'Student'))
abbrev pub shown_name : User → Str
shown_name u =
    if is_empty u.full_name
    then (elim u.email [
      | some e ↦ e
      | none ↦ elim u.username [ some n ↦ n | none ↦ codes "Student" ]
    ])
    else u.full_name

abbrev pub or_student : Str → Str
or_student n = if is_empty n then codes "Student" else n

-- Without an answer of the database everybody is a "Student".
abbrev pub name_of : Bool → Db → Str → Str
name_of up db id =
    if up
    then (elim (user_of db id) [ none ↦ codes "Student" | some u ↦ or_student (shown_name u) ])
    else codes "Student"

pub record Listener : Type 0 where
  pub id : Str
  pub name : Str

pub record FeedItem : Type 0 where
  pub name : Str
  pub join : Bool
  pub at : ℕ

pub record Listeners : Type 0 where
  pub listeners : List Listener
  pub n : ℕ
  pub feed : List FeedItem

abbrev pub feed_item : Bool → Db → LiveEvent → FeedItem
feed_item up db e = record { name = name_of up db e.user; join = e.join; at = e.ts }

-- The newest 40 events, the newest first.
abbrev pub listening : ℕ → Bool → Str → Db → Presence → Listeners
listening unix up session db p =
    let ids = presence_users unix session 30 p in
    record {
      listeners = map (λ i. record { id = i; name = name_of up db i }) ids;
      n = length ids;
      feed = map (feed_item up db) (take 40 (reverse (live_feed session p)));
    }

abbrev pub listen : ℕ → Bool → Str → Db → Presence → Access → Reply Listeners × Presence
listen unix up session db p no_rows = (refuse 403 "host only", p)
listen unix up session db p other_error = (refuse 403 "host only", p)
listen unix up session db p (access chat qa false) = (refuse 403 "host only", p)
listen unix up session db p (access chat qa true) =
    let swept = sweep_leaves unix session p in (ok (listening unix up session db swept), swept)

-- `up` tells whether the query of the names runs.
unfoldable pub live_listeners :
    Caller → Weather → ℕ → Bool → Str → Db → Presence → Reply Listeners × Presence
unfolding beq
live_listeners c w unix up session db p = listen unix up session db p (live_access c w session db)
