-- ===== src/Learn/Enroll/Decided.antt =====
-- What becomes of a request that was decided (lms_student.go, lms_courses.go).
use onrol_infra.Base.{
  ℕ, ◌≡◌, refl, arith, Bool, true, false, ◌&&◌, none, List, [], ◌∷◌, ◌++◌, any, Str, codes, beq,
  beq_iff, Reply, ok, fail, inl, inr, Bool-cases, update_where,
}
use onrol_infra.Live.Tables.{Caller}
use onrol_infra.Learn.Tables.{School, EnrollmentRequest}
use onrol_infra.Learn.Enroll.{
  EnrollStmt, update_request, add_enrollment, entitle, enroll_user, check_self, apply_self,
  answer_self, self_enroll, is_request, requested, add_request,
}
use onrol_infra.Learn.Enroll.Calls.{EnrollCall, ask, decide, place, demand, serve, serve_all}
use onrol_infra.Learn.Admit.{
  check_decision, close_request, apply_decision, after_enroll, decide_request, decided,
  check_manual, apply_manual, after_manual, manual_enroll, check_prerequisite,
  insert_prerequisite_row, after_check, add_prerequisite,
}

-- Whether a request of the user for the course waits for a decision.
abbrev pub waits : Str → Str → School → Bool
waits course user s =
    any (λ r. is_request course user r && beq r.status (codes "pending")) s.requests

module _ (course user : Str) where
  abbrev IsOver : List EnrollmentRequest → Type 0
  IsOver rs =
      (any (is_request course user) rs ≡ true)
      × (any (λ r. is_request course user r && beq r.status (codes "pending")) rs ≡ false)

  append-waits :
      (rs : List EnrollmentRequest) (r : EnrollmentRequest)
      → any (λ q. is_request course user q && beq q.status (codes "pending")) rs ≡ false
      → is_request course user r ≡ false
      → any (λ q. is_request course user q && beq q.status (codes "pending")) (rs ++ r ∷ []) ≡ false
  append-waits [] r h k = ground arith
  append-waits (q ∷ rs) r h k = ground (arith, append-waits rs r)

  append-requested :
      (rs : List EnrollmentRequest) (r : EnrollmentRequest)
      → any (is_request course user) rs ≡ true
      → any (is_request course user) (rs ++ r ∷ []) ≡ true
  append-requested [] r h = absurd (cc)
  append-requested (q ∷ rs) r h = ground (arith, append-requested rs r)

  add_request-IsOver :
      (now : ℕ) (id k u : Str) (s : School)
      → IsOver s.requests
      → IsOver (add_request now id k u s).requests
  unfolding add_request
  add_request-IsOver now id k u s h = elim (Bool-cases (requested k u s)) [
    | inl e ↦ rw e h
    | inr e ↦
        let new : EnrollmentRequest = record {
          id = id;
          course_id = k;
          user_id = u;
          status = codes "pending";
          decided_by = none;
          created_at = now;
          decided_at = none;
        } in
        let other : is_request course user new ≡ false =
          ground (arith, h.0, e, beq_iff k course, beq_iff u user) in
        rw e (append-requested s.requests new h.0, append-waits s.requests new h.1 other)
  ]

  closed-waits :
      (now : ℕ) (c : Caller) (approve : Bool) (id : Str) (rs : List EnrollmentRequest)
      → any (λ q. is_request course user q && beq q.status (codes "pending")) rs ≡ false
      → any
          (λ q. is_request course user q && beq q.status (codes "pending"))
          (update_where (λ r. beq r.id id) (decided now c approve) rs)
        ≡ false
  unfolding update_where beq
  closed-waits now c approve id [] h = refl
  closed-waits now c true id (r ∷ rs) h = ground (arith, closed-waits now c true id rs)
  closed-waits now c false id (r ∷ rs) h = ground (arith, closed-waits now c false id rs)

  closed-requested :
      (now : ℕ) (c : Caller) (approve : Bool) (id : Str) (rs : List EnrollmentRequest)
      → any (is_request course user) (update_where (λ r. beq r.id id) (decided now c approve) rs)
        ≡ any (is_request course user) rs
  unfolding update_where
  closed-requested now c approve id [] = refl
  closed-requested now c approve id (r ∷ rs) = ground (arith, closed-requested now c approve id rs)

  close_request-IsOver :
      (up : Bool) (now : ℕ) (c : Caller) (approve : Bool) (id : Str) (s : School)
      → IsOver s.requests
      → IsOver (close_request up now c approve id s).requests
  unfolding close_request
  close_request-IsOver false now c approve id s h = h
  close_request-IsOver true now c approve id s h = (
    rw (closed-requested now c approve id s.requests) h.0,
    closed-waits now c approve id s.requests h.1,
  )

  enroll_user-requests :
      (up : EnrollStmt → Bool) (now : ℕ) (k u by : Str) (s : School)
      → (enroll_user up now k u by s).1.requests ≡ s.requests
  unfolding enroll_user add_enrollment entitle
  enroll_user-requests up now k u by s = ground arith

  enroll_user-IsOver :
      (up : EnrollStmt → Bool) (now : ℕ) (k u by : Str) (s : School)
      → IsOver s.requests
      → IsOver (enroll_user up now k u by s).1.requests
  enroll_user-IsOver up now k u by s h = rw (enroll_user-requests up now k u by s) h

  ask-IsOver :
      (up : EnrollStmt → Bool) (now : ℕ) (id : Str) (c : Caller) (k : Str) (s : School)
      (r : Reply Bool)
      → IsOver s.requests
      → IsOver (apply_self up now id c k s r).1.requests
  ask-IsOver up now id c k s (fail e) h = h
  ask-IsOver up now id c k s (ok false) h = ground (arith, add_request-IsOver now id k c.id s h, h)
  ask-IsOver up now id c k s (ok true) h =
      answer (enroll_user up now k c.id c.id s) (enroll_user-IsOver up now k c.id c.id s h)
    where
      answer :
          (p : Reply (Unit {0}) × School) → IsOver p.1.requests → IsOver (answer_self p).1.requests
      answer (ok u, t) g = g
      answer (fail e, t) g = g

  decide-IsOver :
      (up : EnrollStmt → Bool) (now : ℕ) (c : Caller) (id : Str) (approve : Bool) (s : School)
      (r : Reply EnrollmentRequest)
      → IsOver s.requests
      → IsOver (apply_decision up now c id approve s r).1.requests
  decide-IsOver up now c id approve s (fail e) h = h
  decide-IsOver up now c id false s (ok r) h =
      close_request-IsOver (up update_request) now c false id s h
  decide-IsOver up now c id true s (ok r) h =
      after (enroll_user up now r.course_id r.user_id c.id s)
        (enroll_user-IsOver up now r.course_id r.user_id c.id s h)
    where
      after :
          (p : Reply (Unit {0}) × School)
          → IsOver p.1.requests
          → IsOver (after_enroll s (close_request (up update_request) now c true id) p).1.requests
      after (ok u, t) g = close_request-IsOver (up update_request) now c true id t g
      after (fail e, t) g = g

  place-IsOver :
      (up : EnrollStmt → Bool) (now : ℕ) (c : Caller) (k : Str) (s : School) (r : Reply Str)
      → IsOver s.requests
      → IsOver (apply_manual up now c k s r).1.requests
  place-IsOver up now c k s (fail e) h = h
  place-IsOver up now c k s (ok u) h =
      after (enroll_user up now k u c.id s) (enroll_user-IsOver up now k u c.id s h)
    where
      after :
          (p : Reply (Unit {0}) × School)
          → IsOver p.1.requests
          → IsOver (after_manual u p).1.requests
      after (ok v, t) g = g
      after (fail e, t) g = g

  demand-IsOver :
      (k prereq : Str) (s : School) (r : Reply (Unit {0}))
      → IsOver s.requests
      → IsOver (after_check (insert_prerequisite_row k prereq) s r).1.requests
  unfolding insert_prerequisite_row
  demand-IsOver k prereq s (fail e) h = h
  demand-IsOver k prereq s (ok u) h = ground (arith, h)

  serve-IsOver : (r : EnrollCall) (s : School) → IsOver s.requests → IsOver (serve r s).requests
  unfolding self_enroll decide_request manual_enroll add_prerequisite
  serve-IsOver (ask up now id c k) s h = ask-IsOver up now id c k s (check_self up c k s) h
  serve-IsOver (decide up now c g id approve) s h =
      decide-IsOver up now c id approve s (check_decision up c g id s) h
  serve-IsOver (place up out now c g k req) s h =
      place-IsOver up now c k s (check_manual up out c g k req s) h
  serve-IsOver (demand up c g k body) s h =
      demand-IsOver k _ s (check_prerequisite up c g k body s) h

  serve_all-IsOver :
      (rs : List EnrollCall) (s : School) → IsOver s.requests → IsOver (serve_all rs s).requests
  serve_all-IsOver [] s h = h
  serve_all-IsOver (r ∷ rs) s h = serve_all-IsOver rs (serve r s) (serve-IsOver r s h)

  -- A decision is final: where a user has asked for a course and no request of his for it waits, none
  -- waits after any history of requests to enrol, decisions, enrolments by the staff and new
  -- prerequisites, however often he asks again.
  pub decided_forever :
      (rs : List EnrollCall) (s : School)
      → requested course user s ≡ true
      → waits course user s ≡ false
      → waits course user (serve_all rs s) ≡ false
  decided_forever rs s asked over = (serve_all-IsOver rs s (asked, over)).1
