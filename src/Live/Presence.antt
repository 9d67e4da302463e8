-- ===== src/Live/Presence.antt =====
-- backend/internal/handlers/live_cache.go, presence, the join/leave feed and attendance.
-- Times are Unix seconds. A difference of int64 times that would be negative is 0 here, which
-- answers the tests of the code (d > 0, d > goneAfter, d > 300, lastSeen >= cutoff) alike.
pub mod Slots
pub mod Keys
pub mod Feed
pub mod Flush
pub mod Credit
use onrol_infra.Base.{
  ℕ, suc, ◌+◌, ◌-◌, ◌≡◌, min, max, Bool, true, false, not, ◌&&◌, ◌||◌, Option, none, some, List, [],
  ◌∷◌, ◌++◌, ltb, leb, if◌then◌else◌, coalesce, length, drop, Str, Map, beq, is_empty, lookup,
  insert, update_all, bind_at,
}

abbrev pub max_beat_gap : ℕ
max_beat_gap = 40

abbrev pub gone_after : ℕ
gone_after = 35

pub record ViewerRec : Type 0 where
  pub first_seen : ℕ
  pub last_seen : ℕ
  pub watched : ℕ
  pub reactions : ℕ
  pub dirty : Bool
  pub left : Bool

pub record LiveEvent : Type 0 where
  pub user : Str
  pub join : Bool
  pub ts : ℕ

-- What presenceMu guards.
pub record Presence : Type 0 where
  pub presence : Map (Map ViewerRec)
  pub live_events : Map (List LiveEvent)

abbrev pub events_of : Presence → Str → List LiveEvent
events_of p session = coalesce (lookup session p.live_events) []

abbrev pub ring : List LiveEvent → List LiveEvent
ring ev = if ltb 120 (length ev) then drop (length ev - 120) ev else ev

unfoldable pub add_live_event : ℕ → Str → Str → Bool → Presence → Presence
unfolding lookup insert
add_live_event now session user join p =
    let ev = events_of p session ++ record { user = user; join = join; ts = now } ∷ [] in
    record p { live_events = insert session (ring ev) p.live_events }

abbrev pub room : Presence → Str → Map ViewerRec
room p session = coalesce (lookup session p.presence) []

-- presence[session][user] = r
unfoldable pub set_viewer : Str → Str → ViewerRec → Presence → Presence
unfolding lookup insert
set_viewer session user r p = record p {
  presence = insert session (insert user r (room p session)) p.presence;
}

abbrev pub viewer : Presence → Str → Str → Option ViewerRec
viewer p session user = lookup user (room p session)

abbrev pub is_gone : ℕ → ViewerRec → Bool
is_gone now r = not r.left && ltb gone_after (now - r.last_seen)

abbrev pub sweep_viewer : ℕ → Str → ViewerRec → Option ViewerRec
sweep_viewer now u r = if is_gone now r then some (record r { left = true }) else some r

unfoldable pub sweep_events : ℕ → Str → Map ViewerRec → Presence → Presence
unfolding add_live_event
sweep_events now session [] p = p
sweep_events now session ((u, r) ∷ m) p =
    sweep_events now session m (if is_gone now r then add_live_event now session u false p else p)

unfoldable pub sweep_leaves : ℕ → Str → Presence → Presence
unfolding lookup insert update_all sweep_events
sweep_leaves now session p = elim (lookup session p.presence) [
  | none ↦ p
  | some m ↦ record (sweep_events now session m p) {
    presence = insert session (update_all (sweep_viewer now) m) p.presence;
  }
]

unfoldable pub live_feed : Str → Presence → List LiveEvent
unfolding lookup
live_feed session p = events_of p session

abbrev pub new_viewer : ℕ → Bool → ViewerRec
new_viewer now dirty = record {
  first_seen = now;
  last_seen = now;
  watched = 0;
  reactions = 0;
  dirty = dirty;
  left = false;
}

-- A gap longer than max_beat_gap is not counted as watched.
abbrev pub beat : ℕ → ViewerRec → ViewerRec
beat now r =
    let d = now - r.last_seen in
    record r {
      watched = if ltb 0 d && leb d max_beat_gap then r.watched + d else r.watched;
      left = false;
      last_seen = now;
      dirty = true;
    }

abbrev pub touch_known : ℕ → Str → Str → ViewerRec → Presence → Presence
touch_known now session user r p =
    set_viewer session user (beat now r)
      (if r.left then add_live_event now session user true p else p)

unfoldable pub touch_presence : ℕ → Str → Str → Presence → Presence
unfolding lookup insert set_viewer add_live_event
touch_presence now session user p = elim (viewer p session user) [
  | none ↦ add_live_event now session user true (set_viewer session user (new_viewer now true) p)
  | some r ↦ touch_known now session user r p
]

abbrev pub react_to : ℕ → ViewerRec → ViewerRec
react_to now r = record r { reactions = r.reactions + 1; last_seen = now; dirty = true }

unfoldable pub bump_reaction : ℕ → Str → Str → Presence → Presence
unfolding lookup insert set_viewer
bump_reaction now session user p =
    set_viewer session user (react_to now (coalesce (viewer p session user) (new_viewer now false)))
      p

count_since : ℕ → Map ViewerRec → ℕ
count_since cutoff [] = 0
count_since cutoff ((u, r) ∷ m) = (if leb cutoff r.last_seen then 1 else 0) + count_since cutoff m

unfoldable pub presence_count : ℕ → Str → ℕ → Presence → ℕ
unfolding lookup count_since
presence_count now session within p = count_since (now - within) (room p session)

-- The loop breaks at 500 users.
collect : ℕ → Map ViewerRec → List Str → List Str
collect cutoff [] out = out
collect cutoff ((u, r) ∷ m) out =
    let found = out ++ u ∷ [] in
    let on = collect cutoff m found in
    let past = collect cutoff m out in
    if leb cutoff r.last_seen then (if leb 500 (length found) then found else on) else past

unfoldable pub presence_users : ℕ → Str → ℕ → Presence → List Str
unfolding lookup collect
presence_users now session within p = collect (now - within) (room p session) []

-- A row on its way to live_attendance.
pub record Row : Type 0 where
  pub session : Str
  pub user : Str
  pub first : ℕ
  pub last : ℕ
  pub watched_secs : ℕ
  pub react : ℕ

abbrev pub row_of : Str → Str → ViewerRec → Row
row_of s u r = record {
  session = s;
  user = u;
  first = r.first_seen;
  last = r.last_seen;
  watched_secs = r.watched;
  react = r.reactions;
}

abbrev pub add_row : Str → Str → ViewerRec → List Row → List Row
add_row s u r rows = if r.dirty then row_of s u r ∷ rows else rows

unfoldable pub rows_of : Str → Map ViewerRec → List Row
rows_of s [] = []
rows_of s ((u, r) ∷ m) = add_row s u r (rows_of s m)

abbrev pub is_flushed : Str → Str → Bool
is_flushed only s = is_empty only || beq s only

unfoldable pub flush_rows : Str → Map (Map ViewerRec) → List Row
unfolding beq rows_of
flush_rows only [] = []
flush_rows only ((s, m) ∷ ps) =
    if is_flushed only s then rows_of s m ++ flush_rows only ps else flush_rows only ps

abbrev pub cleared : ViewerRec → ViewerRec
cleared r = if r.dirty then record r { watched = 0; reactions = 0; dirty = false } else r

-- Idle for five minutes: pruned.
abbrev pub flush_viewer : ℕ → Str → ViewerRec → Option ViewerRec
flush_viewer now u r = if ltb 300 (now - r.last_seen) then none else some (cleared r)

abbrev pub unless_empty : Map ViewerRec → Option (Map ViewerRec)
unless_empty [] = none
unless_empty (e ∷ m) = some (e ∷ m)

abbrev pub flush_session : ℕ → Str → Str → Map ViewerRec → Option (Map ViewerRec)
flush_session now only s m =
    if is_flushed only s then unless_empty (update_all (flush_viewer now) m) else some m

abbrev pub drop_feed : Option (Map ViewerRec) → List LiveEvent → Option (List LiveEvent)
drop_feed none ev = none
drop_feed (some m) ev = some ev

-- The feed of a session goes when its last viewer does; a session with no viewers keeps it.
abbrev pub flush_feed :
    ℕ → Str → Map (Map ViewerRec) → Str → List LiveEvent → Option (List LiveEvent)
flush_feed now only ps s ev = elim (lookup s ps) [
  | none ↦ some ev
  | some m ↦ drop_feed (flush_session now only s m) ev
]

unfoldable pub flush_presence : ℕ → Str → Presence → Presence
unfolding lookup update_all beq
flush_presence now only p = record {
  presence = update_all (flush_session now only) p.presence;
  live_events = update_all (flush_feed now only p.presence) p.live_events;
}

-- A row of the table live_attendance, whose key is (session_id, user_id).
pub record Attendance : Type 0 where
  pub first_seen : ℕ
  pub last_seen : ℕ
  pub watched_seconds : ℕ
  pub reactions_sent : ℕ

abbrev pub Table : Type 0
Table = Map (Map Attendance)

abbrev pub stored : Table → Str → Str → Option Attendance
stored t s u = lookup u (coalesce (lookup s t) [])

-- INSERT … ON CONFLICT DO UPDATE
abbrev pub merged : Option Attendance → Row → Attendance
merged none rw = record {
  first_seen = rw.first;
  last_seen = rw.last;
  watched_seconds = rw.watched_secs;
  reactions_sent = rw.react;
}
merged (some a) rw = record {
  first_seen = min a.first_seen rw.first;
  last_seen = max a.last_seen rw.last;
  watched_seconds = a.watched_seconds + rw.watched_secs;
  reactions_sent = a.reactions_sent + rw.react;
}

unfoldable pub upsert : Row → Table → Table
unfolding lookup insert
upsert rw t =
    insert rw.session
      (insert rw.user (merged (stored t rw.session rw.user) rw) (coalesce (lookup rw.session t) []))
      t

-- The error of a write is dropped, and its row with it.
unfoldable pub save_rows : (Row → Bool) → List Row → Table → Table
unfolding upsert
save_rows saved [] t = t
save_rows saved (rw ∷ rows) t = save_rows saved rows (if saved rw then upsert rw t else t)

unfoldable pub flush_attendance : (Row → Bool) → ℕ → Str → Presence × Table → Presence × Table
unfolding flush_rows flush_presence save_rows
flush_attendance saved now only (p, t) =
    (flush_presence now only p, save_rows saved (flush_rows only p.presence) t)
