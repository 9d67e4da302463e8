-- ===== src/Learn/Streak.antt =====
-- The daily streak: backend/internal/handlers/lms_leaderboard.go (MyStreak). A day is the number of
-- days since one before the calendar of the database begins, so no row names day 0. time.LoadLocation
-- and the day of an instant in a time zone are the parameters of `Zones`.
pub mod Runs
use onrol_infra.Base.{
  ℕ, zero, suc, ◌+◌, ◌-◌, Bool, true, false, not, ◌&&◌, Option, none, some, List, [], ◌∷◌, ◌++◌,
  ◌==◌, if◌then◌else◌, any, select, length, map, Str, codes, beq, Reply, ok, refuse, coalesce,
}
use onrol_infra.Learn.Tables.{found}

-- user_checkins
pub record Checkin : Type 0 where
  pub user_id : Str
  pub day : ℕ

pub record Zones : Type 0 where
  pub loads : Str → Bool
  pub day_at : Str → ℕ → ℕ

pub data StreakStmt : Type 0 where
  read_timezone insert_checkin read_checkins : StreakStmt

pub record StreakReply : Type 0 where
  pub streak : ℕ
  pub today_done : Bool

-- "Today" of a user, whose time zone is `pref`.
unfoldable pub today_of : (StreakStmt → Bool) → Zones → Option Str → ℕ → ℕ
today_of up z pref now =
    let tz = coalesce (found (up read_timezone) pref) (codes "Asia/Kolkata") in
    z.day_at (if z.loads tz then tz else codes "UTC") now

abbrev pub is_checkin : Str → ℕ → Checkin → Bool
is_checkin user day r = beq r.user_id user && r.day == day

-- INSERT … ON CONFLICT DO NOTHING, its error dropped
unfoldable pub check_in : Bool → Str → ℕ → List Checkin → List Checkin
unfolding beq
check_in up user day rows =
    if up && not (any (is_checkin user day) rows)
    then rows ++ record { user_id = user; day = day } ∷ []
    else rows

-- The map `done`.
unfoldable pub days_of : Str → List Checkin → List ℕ
unfolding beq
days_of user rows = map (λ r. r.day) (select (λ r. beq r.user_id user) rows)

abbrev pub is_done : List ℕ → ℕ → Bool
is_done days day = any (λ d. d == day) days

-- for done[day] { streak++; day = day.AddDate(0, 0, -1) }
-- `none` means that the fuel ran out.
unfoldable pub count_back : ℕ → List ℕ → ℕ → ℕ → Option ℕ
count_back zero days day streak = none
count_back (suc fuel) days day streak =
    let rest = count_back fuel days (day - 1) (streak + 1) in
    if is_done days day then rest else some streak

abbrev pub told : Bool → Option ℕ → Option StreakReply
told today_done none = none
told today_done (some n) = some (record { streak = n; today_done = today_done })

-- One round more than there are days is enough.
unfoldable pub streak_of : List ℕ → ℕ → Option StreakReply
unfolding count_back
streak_of days today =
    let today_done = is_done days today in
    let start = if today_done then today else today - 1 in
    told today_done (count_back (suc (length days)) days start 0)

-- MyStreak: the answer, and the table.
unfoldable pub my_streak :
    (StreakStmt → Bool)
    → Zones
    → Str
    → Option Str
    → ℕ
    → List Checkin
    → Reply (Option StreakReply) × List Checkin
unfolding today_of check_in days_of streak_of
my_streak up z user pref now rows =
    let today = today_of up z pref now in
    let rows' = check_in (up insert_checkin) user today rows in
    if up read_checkins
    then (ok (streak_of (days_of user rows') today), rows')
    else (refuse 500 "streak failed", rows')
