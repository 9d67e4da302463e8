-- ===== src/Live/Access/Roles.antt =====
-- Who is let into a live session (live_cache.go, live_session.go and lms.go).
use onrol_infra.Base.{◌≡◌, Bool, true, false, ◌&&◌, Option, none, some, Str, codes, beq, arith}
use onrol_infra.Live.Tables.{ClassSession, Db, Caller, has_role, can_manage_course, is_ok, user_of}
use onrol_infra.Live.Access.{
  Weather, Access, access, no_rows, other_error, is_global_staff, enrolled_in, live_staff,
  live_access, access_row, grant_row, compute_grant, seen_row, is_enrolled,
}
use onrol_infra.Account.Devices.{User, require_user_in_scope}

-- A caller with a global staff role is admitted as staff to every session, whatever the tables
-- hold and whichever queries fail.
pub global_staff_admitted :
    (c : Caller) (w : Weather) (session : Str) (db : Db)
    → is_global_staff c ≡ true
    → ((compute_grant c w session db).0.allowed ≡ true)
      × ((compute_grant c w session db).0.is_staff ≡ true)
unfolding compute_grant
global_staff_admitted c w session db h = (ground (arith, h), ground (arith, h))

abbrev pub admits : Access → Bool
admits (access chat qa staff) = true
admits no_rows = false
admits other_error = false

abbrev pub staff_of : Access → Bool
staff_of (access chat qa staff) = staff
staff_of no_rows = false
staff_of other_error = false

rows_agree :
    (c : Caller) (w : Weather) (db : Db) (o : Option ClassSession)
    → ((grant_row c w db o).0.allowed ≡ admits (access_row c w db o))
      × ((grant_row c w db o).0.is_staff && (grant_row c w db o).0.allowed
          ≡ staff_of (access_row c w db o))
rows_agree c w db none = (ground arith, ground arith)
rows_agree c w db (some s) = (ground arith, ground arith)

-- For a caller who is no instructor, the cached gate of /state, heartbeats and reactions and the
-- uncached gate of chat and Q&A agree on who is admitted and who is staff.
pub gates_agree :
    (c : Caller) (w : Weather) (session : Str) (db : Db)
    → has_role c "instructor" ≡ false
    → ((compute_grant c w session db).0.allowed ≡ admits (live_access c w session db))
      × ((compute_grant c w session db).0.is_staff && (compute_grant c w session db).0.allowed
          ≡ staff_of (live_access c w session db))
unfolding compute_grant live_access
gates_agree c w session db h = (
  ground (arith, h, rows_agree c w db (seen_row w db session)),
  ground (arith, h, rows_agree c w db (seen_row w db session)),
)

-- An instructor who neither manages a session's course nor is enrolled in it is admitted as staff
-- by the cached gate, and refused by the uncached one.
pub instructor_gates_differ :
    (c : Caller) (w : Weather) (session : Str) (s : ClassSession) (db : Db)
    → c.role ≡ codes "instructor"
    → seen_row w db session ≡ some s
    → enrolled_in db s c.id ≡ some false
    → is_ok (can_manage_course c w.covers w.manage_up s.course_id db) ≡ false
    → ((compute_grant c w session db).0.allowed ≡ true)
      × ((compute_grant c w session db).0.is_staff ≡ true)
      × (live_access c w session db ≡ no_rows)
unfolding compute_grant live_access live_staff beq
instructor_gates_differ c w session s db r e n m =
    (ground (arith, r), ground (arith, r), ground (arith, r, e, n, m))

-- A student with no batch who is enrolled in the course of a session with a batch meets an error of
-- the access query, and not the answer for a caller who is not entitled.
pub unbatched_student_error :
    (c : Caller) (w : Weather) (session b : Str) (s : ClassSession) (u : User) (db : Db)
    → c.role ≡ codes "student"
    → seen_row w db session ≡ some s
    → s.batch_number ≡ some b
    → is_enrolled db s.course_id c.id ≡ true
    → user_of db c.id ≡ some u
    → u.batch ≡ none
    → live_access c w session db ≡ other_error
unfolding live_access enrolled_in beq
unbatched_student_error c w session b s u db r e k n f g = ground (arith, r, e, k, n, f, g)

-- The answers of the two scope queries decide nothing: whoever reaches them has been admitted by
-- role before, or is refused whatever they say.
pub scope_never_decides :
    (c : Caller) (covers covers' up : Bool) (course_id role : Str) (db : Db)
    (scope scope' : Option Bool)
    → (can_manage_course c covers up course_id db ≡ can_manage_course c covers' up course_id db)
      × (require_user_in_scope role scope ≡ require_user_in_scope role scope')
unfolding can_manage_course require_user_in_scope
scope_never_decides c covers covers' up course_id role db scope scope' =
    (ground arith, ground arith)
