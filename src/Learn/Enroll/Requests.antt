-- ===== src/Learn/Enroll/Requests.antt =====
-- What an enrolment rests on, and what becomes of a request (lms_student.go, lms_courses.go).
use onrol_infra.Base.{
  ℕ, ◌≡◌, refl, arith, Bool, true, false, ◌||◌, Option, none, some, List, [], ◌∷◌, ◌++◌, any, find,
  Str, codes, beq, beq_refl, Reply, ok, fail, Bool-cases, update_where, inl, inr, sym, ◌∙◌, ap,
  subst,
}
use onrol_infra.Live.Tables.{Caller}
use onrol_infra.Learn.Tables.{
  School, Scope, CourseRow, EnrollmentRequest, can_manage, course_row_of,
}
use onrol_infra.Learn.Enroll.{
  EnrollStmt, update_request, count_missing, is_pair, enrolled, new_enrollment, add_enrollment,
  entitle, enroll_user, check_self, apply_self, answer_self, self_enroll, enrolled_now,
  missing_prerequisites,
}
use onrol_infra.Learn.Admit.{
  check_decision, close_request, apply_decision, after_enroll, decide_request, is_pending, decided,
}

any-append {ℓ} :
    {A : Type ℓ} (p : A → Bool) (xs : List A) (y : A) → p y ≡ true → any p (xs ++ y ∷ []) ≡ true
any-append p [] y h = ground arith
any-append p (x ∷ xs) y h = ground (arith, any-append p xs y h)

pub add_enrollment-enrolled :
    (now : ℕ) (k u by : Str) (s : School) → enrolled k u (add_enrollment now k u by s) ≡ true
unfolding add_enrollment
add_enrollment-enrolled now k u by s = elim (Bool-cases (enrolled k u s)) [
  | inl e ↦ rw e e
  | inr e ↦ rw e (
      any-append (is_pair k u) s.enrollments (new_enrollment now k u by)
        (rw (beq_refl k) (beq_refl u)))
]

pub enroll_user-enrolled :
    (up : EnrollStmt → Bool) (now : ℕ) (k u by : Str) (s s' : School)
    → enroll_user up now k u by s ≡ (ok tt, s')
    → enrolled k u s' ≡ true
unfolding enroll_user entitle
enroll_user-enrolled up now k u by s s' h = ground (arith, add_enrollment-enrolled now k u by s)

-- What a course shows that takes a student by itself.
pub record AdmitsSelf (up : EnrollStmt → Bool) (c : Caller) (course : Str) (s : School)
    : Type 0 where
  pub row : CourseRow
  pub is_row : course_row_of course s ≡ some row
  pub is_open : (beq row.status (codes "published") || row.in_explore) ≡ true
  pub takes_self : beq row.enroll_type (codes "self") ≡ true
  pub none_missing : up count_missing ≡ true → missing_prerequisites course c.id s ≡ 0

pub check_self-AdmitsSelf :
    (up : EnrollStmt → Bool) (c : Caller) (course : Str) (s : School)
    → check_self up c course s ≡ ok true
    → AdmitsSelf up c course s
unfolding check_self
check_self-AdmitsSelf up c course s h = go (course_row_of course s) refl h
  where
    go :
        (o : Option CourseRow)
        → course_row_of course s ≡ o
        → check_self up c course s ≡ ok true
        → AdmitsSelf up c course s
    go none e h = absurd (ground arith)
    go (some k) e h = record {
      row = k;
      is_row = e;
      is_open = ground arith;
      takes_self = ground arith;
      none_missing = λ u. ground arith;
    }

-- A student who asks and is enrolled at once has a row for the course afterwards; the course is
-- published or in Explore and takes students by itself, and no prerequisite is missing, provided
-- that the query that counts them did not fail.
pub self_enroll_sound :
    (up : EnrollStmt → Bool) (now : ℕ) (id : Str) (c : Caller) (course : Str) (s s' : School)
    → self_enroll up now id c course s ≡ (ok enrolled_now, s')
    → (enrolled course c.id s' ≡ true) × AdmitsSelf up c course s
unfolding self_enroll
self_enroll_sound up now id c course s s' h = go (check_self up c course s) refl h
  where
    answer :
        (p : Reply (Unit {0}) × School) → answer_self p ≡ (ok enrolled_now, s') → p ≡ (ok tt, s')
    answer (ok u, t) h = ground arith
    answer (fail e, t) h = absurd (cc)

    go :
        (r : Reply Bool)
        → check_self up c course s ≡ r
        → apply_self up now id c course s r ≡ (ok enrolled_now, s')
        → (enrolled course c.id s' ≡ true) × AdmitsSelf up c course s
    go (fail e) q h = absurd (cc)
    go (ok false) q h = absurd (ground arith)
    go (ok true) q h = (
      enroll_user-enrolled up now course c.id c.id s s'
          (answer (enroll_user up now course c.id c.id s) h),
      check_self-AdmitsSelf up c course s q,
    )

closed_none :
    (now : ℕ) (c : Caller) (approve : Bool) (id : Str) (rs : List EnrollmentRequest)
    → find (is_pending id) (update_where (λ r. beq r.id id) (decided now c approve) rs) ≡ none
unfolding update_where beq
closed_none now c approve id [] = refl
closed_none now c true id (r ∷ rs) = ground (arith, closed_none now c true id rs)
closed_none now c false id (r ∷ rs) = ground (arith, closed_none now c false id rs)

abbrev pub NoPending : Str → School → Type 0
NoPending id s = find (is_pending id) s.requests ≡ none

close_request-none :
    (now : ℕ) (c : Caller) (approve : Bool) (id : Str) (s : School)
    → NoPending id (close_request true now c approve id s)
unfolding close_request
close_request-none now c approve id s = closed_none now c approve id s.requests

pub close_request-enrolled :
    (up : Bool) (now : ℕ) (c : Caller) (approve : Bool) (id k u : Str) (s : School)
    → enrolled k u (close_request up now c approve id s) ≡ enrolled k u s
unfolding close_request
close_request-enrolled up now c approve id k u s = ground arith

-- What a decision has shown and done; `r` is the request.
pub record Decides (up : EnrollStmt → Bool) (c : Caller) (g : Scope) (id : Str) (approve : Bool)
    (s s' : School) : Type 0 where
  pub r : EnrollmentRequest
  pub was_pending : find (is_pending id) s.requests ≡ some r
  pub managed : can_manage c g r.course_id s ≡ ok tt
  pub enrols : approve ≡ true → enrolled r.course_id r.user_id s' ≡ true
  pub adds_nobody : approve ≡ false → s'.enrollments ≡ s.enrollments
  pub closed : up update_request ≡ true → NoPending id s'

pub check_decision_lem :
    (up : EnrollStmt → Bool) (c : Caller) (g : Scope) (id : Str) (s : School)
    (r : EnrollmentRequest)
    → check_decision up c g id s ≡ ok r
    → (find (is_pending id) s.requests ≡ some r) × (can_manage c g r.course_id s ≡ ok tt)
unfolding check_decision
check_decision_lem up c g id s r h = (ground arith, ground arith)

after_enroll_ok :
    (s s' : School) (close : School → School) (p : Reply (Unit {0}) × School) (b : Bool)
    → after_enroll s close p ≡ (ok b, s')
    → (b ≡ true) × (p ≡ (ok tt, p.1)) × (s' ≡ close p.1)
after_enroll_ok s s' close (ok u, t) b h = (ground arith, ground arith, ground arith)
after_enroll_ok s s' close (fail e, t) b h = absurd (cc)

close_up :
    (up : Bool) (now : ℕ) (c : Caller) (approve : Bool) (id : Str) (t s' : School)
    → s' ≡ close_request up now c approve id t
    → up ≡ true
    → NoPending id s'
close_up up now c approve id t s' e u =
    subst (NoPending id) (sym (e ∙ ap (λ (b : Bool). close_request b now c approve id t) u))
      (close_request-none now c approve id t)

close_request-kept :
    (up : Bool) (now : ℕ) (c : Caller) (approve : Bool) (id : Str) (s : School)
    → (close_request up now c approve id s).enrollments ≡ s.enrollments
unfolding close_request
close_request-kept up now c approve id s = ground arith

-- A decision that is answered was made by somebody who may manage the course, on a request that was
-- pending. An approval leaves the student enrolled, and a rejection enrols nobody; unless the last
-- statement failed, no pending request has that id any more.
pub decide_request-Decides :
    (up : EnrollStmt → Bool) (now : ℕ) (c : Caller) (g : Scope) (id : Str) (approve b : Bool)
    (s s' : School)
    → decide_request up now c g id approve s ≡ (ok b, s')
    → Decides up c g id approve s s'
unfolding decide_request
decide_request-Decides up now c g id approve b s s' h =
    go approve (check_decision up c g id s) refl h
  where
    go :
        (approve : Bool) (r : Reply EnrollmentRequest)
        → check_decision up c g id s ≡ r
        → apply_decision up now c id approve s r ≡ (ok b, s')
        → Decides up c g id approve s s'
    go approve (fail e) q h = absurd (cc)
    go false (ok r) q h = record {
      r = r;
      was_pending = (check_decision_lem up c g id s r q).0;
      managed = (check_decision_lem up c g id s r q).1;
      enrols = λ e. absurd (cc);
      adds_nobody = λ e.
          ap (λ p. p.1.enrollments) (sym h)
          ∙ close_request-kept (up update_request) now c false id s;
      closed = close_up (up update_request) now c false id s s' (sym (ap (λ p. p.1) h));
    }
    go true (ok r) q h =
        let p = enroll_user up now r.course_id r.user_id c.id s in
        let close = close_request (up update_request) now c true id in
        let (_, is_done, is_left) = after_enroll_ok s s' close p b h in
        record {
          r = r;
          was_pending = (check_decision_lem up c g id s r q).0;
          managed = (check_decision_lem up c g id s r q).1;
          enrols = λ _.
              ap (enrolled r.course_id r.user_id) is_left
              ∙ close_request-enrolled (up update_request) now c true id r.course_id r.user_id p.1
              ∙ enroll_user-enrolled up now r.course_id r.user_id c.id s p.1 is_done;
          adds_nobody = λ e. absurd (cc);
          closed = close_up (up update_request) now c true id p.1 s' is_left;
        }
