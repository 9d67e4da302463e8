-- ===== src/Live/Report.antt =====
-- backend/internal/handlers/live_session.go, LiveAttendance. The rows stand in the order of the
-- enrolments: the order of the answer, which sorts names by the database's collation, is left out.
pub mod Counts
use onrol_infra.Base.{
  lookup, ℕ, zero, suc, ◌+◌, ◌-◌, ◌*◌, ◌/◌, ◌≡◌, Bool, true, false, not, ◌&&◌, ◌||◌, Option, none,
  some, List, [], ◌∷◌, ltb, leb, ◌==◌, length, count, if◌then◌else◌, coalesce, Str, beq, Reply, ok,
  fail, refuse, ◌>>=◌, ◌>>◌, require,
}
use onrol_infra.Account.Devices.{User}
use onrol_infra.Live.Tables.{
  ClassSession, Question, Enrollment, Db, Caller, session_of, user_of, asset_of, is_host,
  course_or_404,
}
use onrol_infra.Live.Access.{Weather}
use onrol_infra.Live.Presence.{Presence, Attendance, Table, Row, stored, flush_attendance}
use onrol_infra.Live.State.{secs_of, usec}

pub data Mark : Type 0 where
  present late left_early partial absent : Mark

abbrev pub five_minutes : ℕ
five_minutes = 300_000_000

-- What the handler reads of the session; all zero and empty where it cannot.
pub record Schedule : Type 0 where
  pub batch : Option Str
  pub starts_at : ℕ
  pub duration_secs : ℕ

abbrev pub schedule_of : Db → Option ClassSession → Schedule
schedule_of db none = record { batch = none; starts_at = 0; duration_secs = 0 }
schedule_of db (some s) = record {
  batch = s.batch_number;
  starts_at = s.starts_at;
  duration_secs = secs_of (asset_of db s.media_asset_id);
}

unfoldable pub percent : ℕ → ℕ → ℕ
percent zero watched = 0
percent (suc d) watched = let pct = watched * 100 / suc d in if ltb 100 pct then 100 else pct

-- The end of the recording less five minutes, before the earliest instant for none.
abbrev pub left_before : Schedule → ℕ → Bool
left_before k last = ltb (last + five_minutes) (k.starts_at + k.duration_secs * usec)

-- `epoch` is the instant of the Unix time 0.
unfoldable pub mark_of : ℕ → Schedule → Option Attendance → Mark
unfolding percent
mark_of epoch k none = absent
mark_of epoch k (some a) =
    let pct = percent k.duration_secs a.watched_seconds in
    let first = epoch + a.first_seen * usec in
    let last = epoch + a.last_seen * usec in
    if ltb pct 25
    then partial
    else (if ltb (k.starts_at + five_minutes) first
        then late
        else (if ltb 0 k.duration_secs && left_before k last && ltb pct 90
            then left_early
            else present))

pub record ReportRow : Type 0 where
  pub user : User
  pub watched_seconds : ℕ
  pub watched_pct : ℕ
  pub reactions : ℕ
  pub questions : ℕ
  pub mark : Mark
  pub seen : Option Attendance
  pub span_seconds : ℕ

abbrev pub watched_of : Option Attendance → ℕ
watched_of none = 0
watched_of (some a) = a.watched_seconds

abbrev pub reactions_of : Option Attendance → ℕ
reactions_of none = 0
reactions_of (some a) = a.reactions_sent

abbrev pub span_of : Option Attendance → ℕ
span_of none = 0
span_of (some a) = a.last_seen - a.first_seen

abbrev pub questions_by : Str → Str → Db → ℕ
questions_by session user db =
    count (λ q. beq q.session_id session && beq q.user_id user) db.questions

abbrev pub report_row : ℕ → Schedule → Str → Db → Table → User → ReportRow
report_row epoch k session db t u =
    let seen = stored t session u.id in
    record {
      user = u;
      watched_seconds = watched_of seen;
      watched_pct = percent k.duration_secs (watched_of seen);
      reactions = reactions_of seen;
      questions = questions_by session u.id db;
      mark = mark_of epoch k seen;
      seen = seen;
      span_seconds = span_of seen;
    }

-- A session without a batch covers the whole course; NULL is in no batch.
abbrev pub in_batch : Option Str → User → Bool
in_batch none u = true
in_batch (some b) u = elim u.batch [ none ↦ false | some b' ↦ beq b' b ]

abbrev pub keep_student : Option Str → Option User → List User → List User
keep_student b none us = us
keep_student b (some u) us = if in_batch b u then u ∷ us else us

unfoldable pub roster_from : ClassSession → Db → List Enrollment → List User
unfolding beq
roster_from s db [] = []
roster_from s db (e ∷ es) =
    let rest = roster_from s db es in
    if beq e.course_id s.course_id && e.is_current
    then keep_student s.batch_number (user_of db e.user_id) rest
    else rest

abbrev pub roster : Db → Option ClassSession → List User
roster db none = []
roster db (some s) = roster_from s db db.enrollments

abbrev pub report_rows : ℕ → Schedule → Str → Db → Table → List User → List ReportRow
report_rows epoch k session db t [] = []
report_rows epoch k session db t (u ∷ us) =
    report_row epoch k session db t u ∷ report_rows epoch k session db t us

-- status_counts
pub record MarkCounts : Type 0 where
  pub present_n : ℕ
  pub late_n : ℕ
  pub left_early_n : ℕ
  pub partial_n : ℕ
  pub absent_n : ℕ

abbrev pub no_marks : MarkCounts
no_marks = record { present_n = 0; late_n = 0; left_early_n = 0; partial_n = 0; absent_n = 0 }

abbrev pub add_mark : Mark → MarkCounts → MarkCounts
add_mark present n = record n { present_n = n.present_n + 1 }
add_mark late n = record n { late_n = n.late_n + 1 }
add_mark left_early n = record n { left_early_n = n.left_early_n + 1 }
add_mark partial n = record n { partial_n = n.partial_n + 1 }
add_mark absent n = record n { absent_n = n.absent_n + 1 }

unfoldable pub count_marks : List ReportRow → MarkCounts
count_marks [] = no_marks
count_marks (r ∷ rows) = add_mark r.mark (count_marks rows)

abbrev pub attended : ReportRow → Bool
attended r = elim r.seen [ none ↦ false | some a ↦ true ]

unfoldable pub total_watch : List ReportRow → ℕ
total_watch [] = 0
total_watch (r ∷ rows) = (if attended r then r.watched_seconds else 0) + total_watch rows

unfoldable pub average : ℕ → ℕ → ℕ
average total zero = 0
average total (suc n) = total / suc n

pub record Report : Type 0 where
  pub attendance : List ReportRow
  pub n : ℕ
  pub present_n : ℕ
  pub absent_n : ℕ
  pub status_counts : MarkCounts
  pub duration : ℕ
  pub avg_watched_seconds : ℕ
  pub batch : Str

abbrev pub report_of : Schedule → List ReportRow → Report
report_of k rows =
    let marks = count_marks rows in
    record {
      attendance = rows;
      n = length rows;
      present_n = count attended rows;
      absent_n = marks.absent_n;
      status_counts = marks;
      duration = k.duration_secs;
      avg_watched_seconds = average (total_watch rows) (count attended rows);
      batch = coalesce k.batch [];
    }

-- `context_up` and `rows_up`: the two queries behind the gate run.
pub record ReportReads : Type 0 where
  pub saved : Row → Bool
  pub context_up : Bool
  pub rows_up : Bool

abbrev pub report_reply : ReportReads → ℕ → Str → Db → Table → Reply Report
report_reply q epoch session db t =
    if q.rows_up
    then (let k = schedule_of db (if q.context_up then session_of db session else none) in
        ok (report_of k (report_rows epoch k session db t (roster db (session_of db session)))))
    else refuse 500 "attendance load failed"

abbrev pub check_report : Caller → Weather → Str → Db → Reply (Unit {0})
check_report c w session db = do
  course_id ← course_or_404 w.up session db
  require (is_host c w.covers w.manage_up course_id db) 403 "only the host can view attendance"

abbrev pub run_report :
    ReportReads
    → ℕ
    → ℕ
    → Str
    → Db
    → Presence × Table
    → Reply (Unit {0})
    → Reply Report × Presence × Table
run_report q epoch unix session db pt (fail e) = (fail e, pt.0, pt.1)
run_report q epoch unix session db pt (ok u) =
    let flushed = flush_attendance q.saved unix session pt in
    (report_reply q epoch session db flushed.1, flushed.0, flushed.1)

unfoldable pub live_attendance :
    Caller
    → Weather
    → ReportReads
    → ℕ
    → ℕ
    → Str
    → Db
    → Presence × Table
    → Reply Report × Presence × Table
unfolding beq lookup roster_from
live_attendance c w q epoch unix session db pt =
    run_report q epoch unix session db pt (check_report c w session db)
