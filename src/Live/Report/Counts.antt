-- ===== src/Live/Report/Counts.antt =====
-- What the numbers of the attendance report (live_session.go, LiveAttendance) mean together.
use onrol_infra.Base.{
  ℕ, zero, suc, ◌+◌, ◌*◌, ◌≤◌, ◌≡◌, refl, ◌∙◌, arith, none, List, [], ◌∷◌, ltb, length, count,
  if◌then◌else◌, Str, Reply, ok, fail, sym, subst, ap, ok-if,
}
use native.Mathlib.Nat.{div-mul-le_self}
use onrol_infra.Account.Devices.{User}
use onrol_infra.Live.Tables.{Db, Caller, session_of}
use onrol_infra.Live.Access.{Weather}
use onrol_infra.Live.Presence.{Presence, Table, flush_attendance, stored}
use onrol_infra.Live.Report.{
  watched_of, schedule_of, roster, Mark, present, late, left_early, partial, absent, Schedule,
  percent, mark_of, ReportRow, report_rows, MarkCounts, count_marks, add_mark, attended,
  total_watch, average, Report, report_of, ReportReads, report_reply, check_report, run_report,
  live_attendance,
}

percent-le : (d watched : ℕ) → percent d watched ≤ 100
unfolding percent
percent-le zero watched = omega arith
percent-le (suc d) watched = ground arith

average-le : (total n : ℕ) → average total n * n ≤ total
unfolding average
average-le total zero = omega arith
average-le total (suc n) = div-mul-le_self total (suc n)

abbrev pub sum : MarkCounts → ℕ
sum n = n.present_n + n.late_n + n.left_early_n + n.partial_n + n.absent_n

sum-add : (k : Mark) (n : MarkCounts) → sum (add_mark k n) ≡ sum n + 1
sum-add present n = omega arith
sum-add late n = omega arith
sum-add left_early n = omega arith
sum-add partial n = omega arith
sum-add absent n = omega arith

marks_cover : (rows : List ReportRow) → sum (count_marks rows) ≡ length rows
unfolding count_marks
marks_cover [] = refl
marks_cover (r ∷ rows) = omega (arith, sum-add r.mark (count_marks rows), marks_cover rows)

mark-present :
    (epoch : ℕ) (k : Schedule) (session : Str) (db : Db) (t : Table) (us : List User)
    → (count_marks (report_rows epoch k session db t us)).absent_n
        + count attended (report_rows epoch k session db t us)
      ≡ length us
unfolding count_marks mark_of
mark-present epoch k session db t [] = refl
mark-present epoch k session db t (u ∷ us) = ground (arith, mark-present epoch k session db t us)

length-rows :
    (epoch : ℕ) (k : Schedule) (session : Str) (db : Db) (t : Table) (us : List User)
    → length (report_rows epoch k session db t us) ≡ length us
length-rows epoch k session db t [] = refl
length-rows epoch k session db t (u ∷ us) = omega (arith, length-rows epoch k session db t us)

rows_within :
    (epoch : ℕ) (k : Schedule) (session : Str) (db : Db) (t : Table) (us : List User)
    → count (λ r. ltb 100 r.watched_pct) (report_rows epoch k session db t us) ≡ 0
rows_within epoch k session db t [] = refl
rows_within epoch k session db t (u ∷ us) = ground (
  arith,
  percent-le k.duration_secs (watched_of (stored t session u.id)),
  rows_within epoch k session db t us,
)

-- The numbers of a report agree.
pub record AddsUp (rep : Report) : Type 0 where
  pub counted : rep.n ≡ length rep.attendance
  pub marked : sum rep.status_counts ≡ rep.n
  pub split : rep.absent_n + rep.present_n ≡ rep.n
  pub averaged : rep.avg_watched_seconds * rep.present_n ≤ total_watch rep.attendance
  pub within : count (λ r. ltb 100 r.watched_pct) rep.attendance ≡ 0

adds_up :
    (epoch : ℕ) (k : Schedule) (session : Str) (db : Db) (t : Table) (us : List User)
    → AddsUp (report_of k (report_rows epoch k session db t us))
adds_up epoch k session db t us =
    let rows = report_rows epoch k session db t us in
    record {
      counted = refl;
      marked = marks_cover rows;
      split = mark-present epoch k session db t us ∙ sym (length-rows epoch k session db t us);
      averaged = average-le (total_watch rows) (count attended rows);
      within = rows_within epoch k session db t us;
    }

replied :
    (q : ReportReads) (epoch : ℕ) (session : Str) (db : Db) (t : Table) (rep : Report)
    → report_reply q epoch session db t ≡ ok rep
    → AddsUp rep
replied q epoch session db t rep h =
    let k = schedule_of db (if q.context_up then session_of db session else none) in
    let us = roster db (session_of db session) in
    subst AddsUp
      (ok-if q.rows_up (report_of k (report_rows epoch k session db t us)) rep 500
        "attendance load failed" h)
      (adds_up epoch k session db t us)

abbrev state_of : Reply Report × Presence × Table → Presence × Table
state_of x = (x.1, x.2)

gated :
    (q : ReportReads) (epoch unix : ℕ) (session : Str) (db : Db) (pt : Presence × Table)
    (r : Reply (Unit {0})) (rep : Report) (p : Presence) (t : Table)
    → run_report q epoch unix session db pt r ≡ (ok rep, p, t)
    → (r ≡ ok tt)
      × (◌≡◌ {A = Presence × Table} (p, t) (flush_attendance q.saved unix session pt))
      × AddsUp rep
gated q epoch unix session db pt (fail e) rep p t h = absurd (ground arith)
gated q epoch unix session db pt (ok u) rep p t h = (
  refl,
  sym (ap state_of h),
  replied q epoch session db t rep (
      subst (λ t'. report_reply q epoch session db t' ≡ ok rep) (ap (λ x. (state_of x).1) h)
        (ap (λ (x : Reply Report × Presence × Table). x.0) h)),
)

-- A report of the attendance is given only to a host of the session's course, and behind a flush of
-- the room. Its five marks and its absent and present students add up to its rows, its average
-- times the present is at most what they watched, and no row has more than 100 percent.
pub report-AddsUp :
    (c : Caller) (w : Weather) (q : ReportReads) (epoch unix : ℕ) (session : Str) (db : Db)
    (pt : Presence × Table) (rep : Report) (p : Presence) (t : Table)
    → live_attendance c w q epoch unix session db pt ≡ (ok rep, p, t)
    → (check_report c w session db ≡ ok tt)
      × (◌≡◌ {A = Presence × Table} (p, t) (flush_attendance q.saved unix session pt))
      × AddsUp rep
unfolding live_attendance
report-AddsUp c w q epoch unix session db pt rep p t h =
    gated q epoch unix session db pt (check_report c w session db) rep p t h
