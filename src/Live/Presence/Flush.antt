-- ===== src/Live/Presence/Flush.antt =====
-- What flushAttendance (live_cache.go) writes to live_attendance for one viewer.
use onrol_infra.Base.{
  ℕ, ◌≡◌, refl, Bool, ◌&&◌, Option, none, some, List, [], ◌∷◌, ◌++◌, if◌then◌else◌, coalesce, arith,
  Str, Map, beq, beq_iff, lookup, insert, IsUnique, lookup-insert,
}
use onrol_infra.Live.Presence.{
  ViewerRec, Presence, Row, Table, Attendance, viewer, row_of, rows_of, flush_rows, is_flushed,
  stored, merged, upsert, save_rows, flush_attendance,
}
use onrol_infra.Live.Presence.Slots.{WellKeyed, AllUnique}

stored-upsert :
    (rw : Row) (t : Table) (s u : Str)
    → stored (upsert rw t) s u ≡ (
        if beq rw.session s && beq rw.user u then some (merged (stored t s u) rw) else stored t s u)
unfolding upsert
stored-upsert w t s u = ground (
  arith,
  lookup-insert w.session s
      (insert w.user (merged (stored t w.session w.user) w) (coalesce (lookup w.session t) [])) t,
  lookup-insert w.user u (merged (stored t w.session w.user) w) (coalesce (lookup w.session t) []),
  beq_iff w.session s,
  beq_iff w.user u,
)

save_rows-append :
    (saved : Row → Bool) (xs ys : List Row) (t : Table)
    → save_rows saved (xs ++ ys) t ≡ save_rows saved ys (save_rows saved xs t)
unfolding save_rows
save_rows-append saved [] ys t = refl
save_rows-append saved (x ∷ xs) ys t =
    save_rows-append saved xs ys (if saved x then upsert x t else t)

-- What the write of a viewer's own row leaves in the table.
abbrev pub saved_slot :
    (Row → Bool) → Str → Str → Option ViewerRec → Option Attendance → Option Attendance
saved_slot saved s u none a = a
saved_slot saved s u (some r) a =
    if r.dirty && saved (row_of s u r) then some (merged a (row_of s u r)) else a

-- The rows of one session, seen from a viewer of any session.
save-rows_of :
    (saved : Row → Bool) (i : Str) (m : Map ViewerRec) (t : Table) (s u : Str)
    → IsUnique m
    → stored (save_rows saved (rows_of i m) t) s u
      ≡ (if beq i s then saved_slot saved s u (lookup u m) (stored t s u) else stored t s u)
unfolding rows_of save_rows lookup
save-rows_of saved i [] t s u h = ground arith
save-rows_of saved i ((v, r) ∷ m) t s u h = ground (
  arith,
  beq_iff v u,
  beq_iff i s,
  h.0,
  save-rows_of saved i m t s u h.1,
  save-rows_of saved i m (upsert (row_of i v r) t) s u h.1,
  stored-upsert (row_of i v r) t s u,
)

save-flush_rows :
    (saved : Row → Bool) (only : Str) (ps : Map (Map ViewerRec)) (t : Table) (s u : Str)
    → IsUnique ps
    → AllUnique ps
    → stored (save_rows saved (flush_rows only ps) t) s u ≡ (
        if is_flushed only s
        then saved_slot saved s u (lookup u (coalesce (lookup s ps) [])) (stored t s u)
        else stored t s u)
unfolding flush_rows save_rows lookup
save-flush_rows saved only [] t s u h k = ground arith
save-flush_rows saved only ((i, m) ∷ ps) t s u h k = ground (
  arith,
  beq_iff i s,
  h.0,
  save_rows-append saved (rows_of i m) (flush_rows only ps) t,
  save-flush_rows saved only ps t s u h.1 k.1,
  save-flush_rows saved only ps (save_rows saved (rows_of i m) t) s u h.1 k.1,
  save-rows_of saved i m t s u k.0,
)

pub stored-flush :
    (saved : Row → Bool) (now : ℕ) (only s u : Str) (p : Presence) (t : Table)
    → WellKeyed p
    → stored (flush_attendance saved now only (p, t)).1 s u ≡ (
        if is_flushed only s
        then saved_slot saved s u (viewer p s u) (stored t s u)
        else stored t s u)
unfolding flush_attendance
stored-flush saved now only s u p t w = save-flush_rows saved only p.presence t s u w.outer w.inner
