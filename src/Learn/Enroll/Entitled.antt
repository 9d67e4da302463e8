-- ===== src/Learn/Enroll/Entitled.antt =====
-- How a user comes to be enrolled (lms_student.go, lms_courses.go).
use onrol_infra.Base.{
  ℕ, ◌≡◌, refl, arith, Bool, true, false, ◌||◌, Option, none, some, List, [], ◌∷◌, ◌++◌, find, any,
  Str, beq_iff, Reply, ok, fail, inl, inr, Bool-cases, ◌⊎◌, ◌∙◌, ap,
}
use onrol_infra.Account.SignIn.{Outside}
use onrol_infra.Live.Tables.{Caller}
use onrol_infra.Learn.Tables.{School, Scope, EnrollmentRequest, can_manage}
use onrol_infra.Learn.Enroll.{
  EnrollStmt, update_request, is_pair, enrolled, new_enrollment, add_enrollment, entitle,
  enroll_user, check_self, apply_self, answer_self, self_enroll, add_request,
}
use onrol_infra.Learn.Enroll.Requests.{
  AdmitsSelf, check_self-AdmitsSelf, check_decision_lem, close_request-enrolled,
}
use onrol_infra.Learn.Enroll.Calls.{EnrollCall, ask, decide, place, demand, serve, serve_all}
use onrol_infra.Learn.Admit.{
  check_decision, close_request, apply_decision, after_enroll, decide_request, EnrollReq,
  is_pending, named_user, check_manual, apply_manual, after_manual, manual_enroll,
  check_prerequisite, insert_prerequisite_row, after_check, add_prerequisite,
}

any-append_or {ℓ} :
    {A : Type ℓ} (p : A → Bool) (xs : List A) (y : A)
    → any p (xs ++ y ∷ []) ≡ true
    → any p xs || p y ≡ true
any-append_or p [] y h = ground arith
any-append_or p (x ∷ xs) y h = ground (arith, any-append_or p xs y)

module _ (course user : Str) where
  add_enrollment-new :
      (now : ℕ) (k u by : Str) (s : School)
      → enrolled course user s ≡ false
      → enrolled course user (add_enrollment now k u by s) ≡ true
      → (k ≡ course) × (u ≡ user)
  unfolding add_enrollment
  add_enrollment-new now k u by s out in_ = elim (Bool-cases (enrolled k u s)) [
    | inl e ↦ absurd (ground (arith, e))
    | inr e ↦
        let now_in : is_pair course user (new_enrollment now k u by) ≡ true = ground (
          arith,
          e,
          any-append_or (is_pair course user) s.enrollments (new_enrollment now k u by),
        ) in
        ground (arith, now_in, beq_iff k course, beq_iff u user)
  ]

  enroll_user-new :
      (up : EnrollStmt → Bool) (now : ℕ) (k u by : Str) (s : School)
      → enrolled course user s ≡ false
      → enrolled course user (enroll_user up now k u by s).1 ≡ true
      → (k ≡ course) × (u ≡ user)
  unfolding enroll_user entitle
  enroll_user-new up now k u by s out in_ = ground (arith, add_enrollment-new now k u by s out)

  -- What entitles the user to a row for the course, of a request and the tables it meets: the user
  -- asks for a course that admits him; or staff of the course approve his pending request for it; or
  -- staff of the course place him there.
  abbrev pub Entitles : EnrollCall → School → Type 0
  Entitles (ask up now id c k) s = (k ≡ course) × (c.id ≡ user) × AdmitsSelf up c k s
  Entitles (decide up now c g id approve) s =
      (approve ≡ true)
      × ((r : EnrollmentRequest) × (find (is_pending id) s.requests ≡ some r)
          × (r.course_id ≡ course)
          × (r.user_id ≡ user)
          × (can_manage c g r.course_id s ≡ ok tt))
  Entitles (place up out now c g k req) s =
      (k ≡ course)
      × (can_manage c g k s ≡ ok tt)
      × ((body : EnrollReq) × (req ≡ some body) × (named_user up out body s ≡ ok user))
  Entitles (demand up c g k body) s = ⊥

  -- Some request of a history entitles the user when it is served.
  abbrev pub Entitled : List EnrollCall → School → Type 0
  Entitled [] s = ⊥
  Entitled (r ∷ rs) s = Entitles r s ⊎ Entitled rs (serve r s)

  ask-new :
      (up : EnrollStmt → Bool) (now : ℕ) (id : Str) (c : Caller) (k : Str) (s : School)
      (r : Reply Bool)
      → check_self up c k s ≡ r
      → enrolled course user s ≡ false
      → enrolled course user (apply_self up now id c k s r).1 ≡ true
      → (k ≡ course) × (c.id ≡ user) × AdmitsSelf up c k s
  unfolding add_request
  ask-new up now id c k s (fail e) q out in_ = absurd (cc)
  ask-new up now id c k s (ok false) q out in_ = absurd (ground arith)
  ask-new up now id c k s (ok true) q out in_ =
      let (ek, eu) =
        answer (enroll_user up now k c.id c.id s) (enroll_user-new up now k c.id c.id s out) in_ in
      (ek, eu, check_self-AdmitsSelf up c k s q)
    where
      answer :
          (p : Reply (Unit {0}) × School)
          → (enrolled course user p.1 ≡ true → (k ≡ course) × (c.id ≡ user))
          → enrolled course user (answer_self p).1 ≡ true
          → (k ≡ course) × (c.id ≡ user)
      answer (ok u, t) f h = f h
      answer (fail e, t) f h = f h

  decide-new :
      (up : EnrollStmt → Bool) (now : ℕ) (c : Caller) (g : Scope) (id : Str) (approve : Bool)
      (s : School) (r : Reply EnrollmentRequest)
      → check_decision up c g id s ≡ r
      → enrolled course user s ≡ false
      → enrolled course user (apply_decision up now c id approve s r).1 ≡ true
      → Entitles (decide up now c g id approve) s
  decide-new up now c g id approve s (fail e) q out in_ = absurd (cc)
  decide-new up now c g id false s (ok r) q out in_ =
      absurd
        (ground (arith, close_request-enrolled (up update_request) now c false id course user s))
  decide-new up now c g id true s (ok r) q out in_ =
      let (pending, managed) = check_decision_lem up c g id s r q in
      let (ek, eu) =
        after (enroll_user up now r.course_id r.user_id c.id s)
          (enroll_user-new up now r.course_id r.user_id c.id s out) in_ in
      (refl, (r, pending, ek, eu, managed))
    where
      after :
          (p : Reply (Unit {0}) × School)
          → (enrolled course user p.1 ≡ true → (r.course_id ≡ course) × (r.user_id ≡ user))
          → enrolled course user
              (after_enroll s (close_request (up update_request) now c true id) p).1
            ≡ true
          → (r.course_id ≡ course) × (r.user_id ≡ user)
      after (ok u, t) f h = f (
          ground (arith, h, close_request-enrolled (up update_request) now c true id course user t))
      after (fail e, t) f h = f h

  check_manual_lem :
      (up : EnrollStmt → Bool) (out : Outside) (c : Caller) (g : Scope) (k : Str)
      (req : Option EnrollReq) (s : School) (u : Str)
      → check_manual up out c g k req s ≡ ok u
      → (can_manage c g k s ≡ ok tt)
        × ((body : EnrollReq) × (req ≡ some body) × (named_user up out body s ≡ ok u))
  unfolding check_manual
  check_manual_lem up out c g k none s u h = absurd (ground arith)
  check_manual_lem up out c g k (some body) s u h = (ground arith, (body, refl, ground arith))

  place-new :
      (up : EnrollStmt → Bool) (out : Outside) (now : ℕ) (c : Caller) (g : Scope) (k : Str)
      (req : Option EnrollReq) (s : School) (r : Reply Str)
      → check_manual up out c g k req s ≡ r
      → enrolled course user s ≡ false
      → enrolled course user (apply_manual up now c k s r).1 ≡ true
      → Entitles (place up out now c g k req) s
  place-new up out now c g k req s (fail e) q h in_ = absurd (cc)
  place-new up out now c g k req s (ok u) q h in_ =
      let (ek, eu) =
        after (enroll_user up now k u c.id s) (enroll_user-new up now k u c.id s h) in_ in
      let (managed, (body, is_body, names)) = check_manual_lem up out c g k req s u q in
      (ek, managed, (body, is_body, names ∙ ap ok eu))
    where
      after :
          (p : Reply (Unit {0}) × School)
          → (enrolled course user p.1 ≡ true → (k ≡ course) × (u ≡ user))
          → enrolled course user (after_manual u p).1 ≡ true
          → (k ≡ course) × (u ≡ user)
      after (ok v, t) f h = f h
      after (fail e, t) f h = f h

  demand-same :
      (k prereq : Str) (s : School) (r : Reply (Unit {0}))
      → enrolled course user (after_check (insert_prerequisite_row k prereq) s r).1
        ≡ enrolled course user s
  unfolding insert_prerequisite_row
  demand-same k prereq s (fail e) = refl
  demand-same k prereq s (ok u) = ground arith

  serve-Entitles :
      (r : EnrollCall) (s : School)
      → enrolled course user s ≡ false
      → enrolled course user (serve r s) ≡ true
      → Entitles r s
  unfolding self_enroll decide_request manual_enroll add_prerequisite
  serve-Entitles (ask up now id c k) s h i = ask-new up now id c k s (check_self up c k s) refl h i
  serve-Entitles (decide up now c g id approve) s h i =
      decide-new up now c g id approve s (check_decision up c g id s) refl h i
  serve-Entitles (place up out now c g k req) s h i =
      place-new up out now c g k req s (check_manual up out c g k req s) refl h i
  serve-Entitles (demand up c g k body) s h i =
      cc (demand-same k _ s (check_prerequisite up c g k body s), h, i)

  -- Whoever is not enrolled in a course and is after a history of requests to enrol, decisions,
  -- enrolments by the staff and new prerequisites has been entitled to it by one of them, as it was
  -- served: he asked himself while the course admitted him (its prerequisites count where the query for
  -- them did not fail), or somebody who may manage the course approved his pending request for it or
  -- placed him there.
  pub enrolled-Entitled :
      (rs : List EnrollCall) (s : School)
      → enrolled course user s ≡ false
      → enrolled course user (serve_all rs s) ≡ true
      → Entitled rs s
  enrolled-Entitled [] s h i = absurd (cc)
  enrolled-Entitled (r ∷ rs) s h i = elim (Bool-cases (enrolled course user (serve r s))) [
    | inl e ↦ inl (serve-Entitles r s h e)
    | inr e ↦ inr (enrolled-Entitled rs (serve r s) e i)
  ]
