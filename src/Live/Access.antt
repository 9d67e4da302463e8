-- ===== src/Live/Access.antt =====
-- backend/internal/handlers/live_cache.go (access and playlist gates, invalidation, the janitor)
-- and live_session.go (liveStaff, liveAccess, requireLiveHost).
pub mod Freshness
pub mod Roles
use onrol_infra.Base.{
  ℕ, ◌+◌, ◌≡◌, Bool, true, false, ◌&&◌, ◌||◌, Option, none, some, List, [], ◌∷◌, ◌++◌, ltb, find,
  any, if◌then◌else◌, Str, codes, beq, has_prefix, Map, lookup, insert, delete, update_all, Reply,
  ok, fail, refuse, ◌>>=◌, ◌>>◌, require,
}
use onrol_infra.Account.Devices.{User}
use onrol_infra.Live.Tables.{
  ClassSession, Enrollment, Db, Caller, has_role, session_of, user_of, can_manage_course, is_host,
  is_ok, course_or_404,
}

pub record Grant : Type 0 where
  pub chat_ok : Bool
  pub qa_ok : Bool
  pub react_ok : Bool
  pub is_staff : Bool
  pub allowed : Bool

pub record AccessEntry : Type 0 where
  pub grant : Grant
  pub exp : ℕ

pub record PallowEntry : Type 0 where
  pub allowed : Bool
  pub exp : ℕ

-- The caches, each behind its own mutex. `S` is the shared state block of a session.
pub record Caches (S : Type 0) : Type 0 where
  pub access : Map AccessEntry
  pub pallow : Map PallowEntry
  pub states : Map (S × ℕ)
  pub playlists : Map (Str × ℕ)

abbrev pub access_ttl : ℕ
access_ttl = 45_000_000

abbrev pub state_ttl : ℕ
state_ttl = 2_000_000

abbrev pub playlist_body_ttl : ℕ
playlist_body_ttl = 1_500_000

abbrev pub bar : ℕ
bar = b'|'

-- sessionID + "|" + userID
abbrev pub key_of : Str → Str → Str
key_of session user = session ++ bar ∷ user

-- What the database answers to the access query. NULL cannot be scanned into a bool: an error.
abbrev pub batch_matches : Option Str → Option User → Option Bool
batch_matches none u = some true
batch_matches (some b) none = none
batch_matches (some b) (some u) = elim u.batch [ none ↦ none | some b' ↦ some (beq b b') ]

abbrev pub is_enrolled : Db → Str → Str → Bool
is_enrolled db course user =
    any (λ e. beq e.course_id course && beq e.user_id user && e.is_current) db.enrollments

unfoldable pub enrolled_in : Db → ClassSession → Str → Option Bool
unfolding beq
enrolled_in db s user =
    if is_enrolled db s.course_id user
    then batch_matches s.batch_number (user_of db user)
    else some false

-- `up`: the queries run. `manage_up` and `covers` are for canManageCourse.
pub record Weather : Type 0 where
  pub up : Bool
  pub manage_up : Bool
  pub covers : Bool

unfoldable pub live_staff : Caller → Weather → Str → Db → Bool
live_staff c w course_id db =
    if has_role c "superadmin" || has_role c "manager" || has_role c "live_host"
    then true
    else is_ok (can_manage_course c w.covers w.manage_up course_id db)

-- The toggles of a host: best effort, and on where the row is not there.
abbrev pub toggles : Option ClassSession → Bool × Bool × Bool
toggles none = (true, true, true)
toggles (some s) = (s.chat_enabled, s.qa_enabled, s.reactions_enabled)

abbrev pub seen_row : Weather → Db → Str → Option ClassSession
seen_row w db session = if w.up then session_of db session else none

-- chatOK, qaOK and isStaff, or the error: pgx.ErrNoRows or another.
pub data Access : Type 0 where
  access : Bool → Bool → Bool → Access
  no_rows other_error : Access

abbrev pub access_row : Caller → Weather → Db → Option ClassSession → Access
access_row c w db none = if w.up then no_rows else other_error
access_row c w db (some s) = elim (enrolled_in db s c.id) [
  | none ↦ other_error
  | some enrolled ↦
      let staff = live_staff c w s.course_id db in
      if enrolled || staff then access s.chat_enabled s.qa_enabled staff else no_rows
]

unfoldable pub live_access : Caller → Weather → Str → Db → Access
live_access c w session db =
    if has_role c "superadmin" || has_role c "manager" || has_role c "live_host"
    then (let t = toggles (seen_row w db session) in access t.0 t.1 true)
    else access_row c w db (seen_row w db session)

abbrev pub is_global_staff : Caller → Bool
is_global_staff c =
    has_role c "superadmin"
    || has_role c "manager"
    || has_role c "instructor"
    || has_role c "live_host"

abbrev pub denied : Grant
denied = record {
  chat_ok = false;
  qa_ok = false;
  react_ok = false;
  is_staff = false;
  allowed = false;
}

-- The grant, and whether it is cached.
abbrev pub grant_row : Caller → Weather → Db → Option ClassSession → Grant × Bool
grant_row c w db none = (denied, false)
grant_row c w db (some s) = elim (enrolled_in db s c.id) [
  | none ↦ (denied, false)
  | some enrolled ↦
      let staff = live_staff c w s.course_id db in
      (
        record {
          chat_ok = s.chat_enabled;
          qa_ok = s.qa_enabled;
          react_ok = s.reactions_enabled;
          is_staff = staff;
          allowed = enrolled || staff;
        },
        true,
      )
]

unfoldable pub compute_grant : Caller → Weather → Str → Db → Grant × Bool
compute_grant c w session db =
    if is_global_staff c
    then (let t = toggles (seen_row w db session) in
        (
          record { chat_ok = t.0; qa_ok = t.1; react_ok = t.2; is_staff = true; allowed = true },
          true,
        ))
    else grant_row c w db (seen_row w db session)

-- A live entry of a cache at a time: now.Before(exp).
abbrev pub live_entry : ℕ → Option AccessEntry → Option Grant
live_entry now none = none
live_entry now (some e) = if ltb now e.exp then some e.grant else none

-- The gate of the playlist and key routes, with the role from the table. Its EXISTS is never
-- NULL, but without a row of the user the IN is.
abbrev pub batch_ok : Option Str → Option User → Bool
batch_ok b u = elim (batch_matches b u) [ none ↦ false | some t ↦ t ]

abbrev pub enrolled_exists : Db → Option ClassSession → Str → Bool
enrolled_exists db none user = false
enrolled_exists db (some s) user =
    is_enrolled db s.course_id user && batch_ok s.batch_number (user_of db user)

abbrev pub is_playlist_role : Str → Bool
is_playlist_role r =
    beq r (codes "manager")
    || beq r (codes "superadmin")
    || beq r (codes "instructor")
    || beq r (codes "live_host")

abbrev pub or_role : Bool → Option User → Option Bool
or_role e none = if e then some true else none
or_role e (some u) = some (e || is_playlist_role u.role)

abbrev pub compute_allowed : Caller → Bool → Str → Db → Option Bool
compute_allowed c up session db =
    if up then or_role (enrolled_exists db (session_of db session) c.id) (user_of db c.id) else none

abbrev pub live_pallow : ℕ → Option PallowEntry → Option Bool
live_pallow now none = none
live_pallow now (some e) = if ltb now e.exp then some e.allowed else none

abbrev pub unless_prefixed {ℓ} : {V : Type ℓ} → Str → Str → V → Option V
unless_prefixed p key v = if has_prefix key p then none else some v

-- The janitor's pass: now.After(exp) deletes.
abbrev pub unless_past {ℓ} : {V : Type ℓ} → ℕ → ℕ → V → Option V
unless_past now exp v = if ltb exp now then none else some v

module _ {S : Type 0} where
  abbrev pub remember : Str → ℕ → Grant × Bool → Caches S → Grant × Caches S
  remember key now g k = (
    g.0,
    if g.1
        then record k {
          access = insert key (record { grant = g.0; exp = now + access_ttl }) k.access;
        }
        else k,
  )

  unfoldable pub live_access_cached : Caller → Weather → ℕ → Str → Db → Caches S → Grant × Caches S
  live_access_cached c w now session db k =
      elim (live_entry now (lookup (key_of session c.id) k.access)) [
        | some g ↦ (g, k)
        | none ↦ remember (key_of session c.id) now (compute_grant c w session db) k
      ]

  unfoldable pub playlist_allowed : Caller → Bool → ℕ → Str → Db → Caches S → Bool × Caches S
  unfolding beq lookup insert
  playlist_allowed c up now session db k =
      elim (live_pallow now (lookup (key_of session c.id) k.pallow)) [
        | some a ↦ (a, k)
        | none ↦ elim (compute_allowed c up session db) [
          | none ↦ (false, k)
          | some a ↦ (
            a,
            record k {
              pallow =
                  insert (key_of session c.id) (record { allowed = a; exp = now + access_ttl })
                    k.pallow;
            },
          )
        ]
      ]

  unfoldable pub invalidate_live_caches : Str → Caches S → Caches S
  unfolding has_prefix update_all delete beq
  invalidate_live_caches session k = record {
    access = update_all (unless_prefixed (session ++ bar ∷ [])) k.access;
    pallow = update_all (unless_prefixed (session ++ bar ∷ [])) k.pallow;
    states = delete session k.states;
    playlists = delete session k.playlists;
  }

  unfoldable pub prune_caches : ℕ → Caches S → Caches S
  unfolding update_all
  prune_caches now k = record {
    access = update_all (λ i e. unless_past now e.exp e) k.access;
    pallow = update_all (λ i e. unless_past now e.exp e) k.pallow;
    states = update_all (λ i e. unless_past now e.1 e) k.states;
    playlists = update_all (λ i e. unless_past now e.1 e) k.playlists;
  }

unfoldable pub require_live_host : Caller → Weather → Str → Db → Reply (Unit {0})
unfolding is_host beq
require_live_host c w session db = do
  course_id ← course_or_404 w.up session db
  require (is_host c w.covers w.manage_up course_id db) 403 "only the host can do that"
