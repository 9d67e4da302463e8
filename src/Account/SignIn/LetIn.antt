-- ===== src/Account/SignIn/LetIn.antt =====
-- What a sign-in is good for: Login (auth.go) and then RequireAuth (middleware/auth.go).
use onrol_infra.Base.{
  ℕ, ◌+◌, ◌<◌, ◌≡◌, refl, sym, ◌∙◌, ap, Bool, true, false, ◌&&◌, some, List, [], ◌∷◌, ◌++◌, find,
  any, Str, beq, beq_refl, beq_iff, is_empty, trim_space, Reply, ok, fail, arith, Bool-cases,
  Option-cases, inl, inr, find-holds,
}
use onrol_infra.Account.Token.{
  Jwt, Manager, ParsesSigned, is_utf8, issue, issue-parse, parse, claims_of,
}
use onrol_infra.Account.Devices.{
  User, Device, Login, Bound, bound, unbound, is_binding, bind_device, device_limit, db_error,
}
use onrol_infra.Account.Gates.{AttestationMode, bearer, require_auth, bearer_token, has_ended}
use onrol_infra.Account.SignIn.{
  Outside, LoginCall, Session, signed_in, authenticate, answer_bound, bind_next, login,
}
use onrol_infra.Account.SignIn.Sound.{Admitted, authenticate-Admitted, answer-bound}
use onrol_infra.Account.Devices.Binding.{Binds, bind-Binds}

-- No two users have one id.
abbrev pub HasDistinctIds : List User → Type 0
HasDistinctIds [] = Unit {0}
HasDistinctIds (u ∷ us) = (any (λ v. beq v.id u.id) us ≡ false) × HasDistinctIds us

find-any :
    (p : User → Bool) (us : List User) (u : User) (id : Str)
    → find p us ≡ some u
    → any (λ v. beq v.id id) us ≡ false
    → beq u.id id ≡ false
find-any p [] u id h k = absurd (cc)
find-any p (v ∷ us) u id h k = ground (arith, find-any p us u id)

find_by_id :
    (p : User → Bool) (us : List User) (u : User)
    → HasDistinctIds us
    → find p us ≡ some u
    → find (λ v. beq v.id u.id) us ≡ some u
find_by_id p [] u d h = absurd (cc)
find_by_id p (v ∷ us) u (apart, d) h = elim (Bool-cases (p v)) [
  | inl e ↦ let same : v ≡ u = ground arith in rw (same, beq_refl u.id) refl
  | inr e ↦
      let rest : find p us ≡ some u = ground arith in
      let other : beq v.id u.id ≡ false =
        ground (arith, find-any p us u v.id rest apart, beq_iff u.id v.id, beq_iff v.id u.id) in
      rw other (find_by_id p us u d rest)
]

-- The login that a session answers, and what became of it.
record Answered (jwt : Jwt) (m : Manager) (out : Outside) (mode : AttestationMode) (c : LoginCall)
    (users : List User) (s : Session) (ds after : List Device) : Type 0 where
  l : Login
  admitted : Admitted out mode c users l
  is_user : l.user ≡ s.user
  is_bound : bind_device c.bind_up l ds ≡ bound s.device_row s.is_new after
  is_issued : issue jwt m l.user.id l.device_id c.now ≡ some s.access_token

login-Answered :
    (out : Outside) (jwt : Jwt) (m : Manager) (mode : AttestationMode) (c : LoginCall)
    (users : List User) (ds : List Device) (s : Session)
    → (login out jwt m mode c users ds).0 ≡ signed_in s
    → Answered jwt m out mode c users s ds (login out jwt m mode c users ds).1
unfolding login answer_bound
login-Answered out jwt m mode c users ds s h = by_reply (authenticate out mode c users) refl h
  where
    told : (l : Login) (b : Bound) → (answer_bound jwt m c l ds b).0 ≡ signed_in s → l.user ≡ s.user
    told l (unbound (device_limit active)) h = absurd (cc)
    told l (unbound db_error) h = absurd (cc)
    told l (bound row new ds') h = elim (Option-cases (issue jwt m l.user.id l.device_id c.now)) [
      | inl miss ↦ absurd (ground (arith, miss))
      | inr (tok, f) ↦ ground (arith, f)
    ]

    by_reply :
        (r : Reply Login)
        → authenticate out mode c users ≡ r
        → (bind_next jwt m c ds r).0 ≡ signed_in s
        → Answered jwt m out mode c users s ds (bind_next jwt m c ds r).1
    by_reply (fail e) q h = absurd (cc)
    by_reply (ok l) q h =
        let b = bind_device c.bind_up l ds in
        let a = answer-bound jwt m c l ds b s h in
        record {
          l = l;
          admitted = authenticate-Admitted out mode c users l q;
          is_user = told l b h;
          is_bound = a.1 ∙ ap (bound s.device_row s.is_new) (sym a.3);
          is_issued = a.2;
        }

module _ (jwt : Jwt) where
  let_in :
      (m : Manager) (now : ℕ) (tok : Str) (l : Login) (users : List User) (ds : List Device)
      (issued : ℕ)
      → parse jwt m now tok ≡ some (claims_of m l.user.id l.device_id issued)
      → is_empty l.device_id ≡ false
      → Binds l ds
      → find (λ v. beq v.id l.user.id) users ≡ some l.user
      → has_ended now l.user.access_expires_at ≡ false
      → require_auth jwt m true now (bearer ++ tok) l.device_id users ds
        ≡ ok (record { user_id = l.user.id; device_id = l.device_id; role = l.user.role })
  unfolding require_auth bearer_token
  let_in m now tok l users ds issued parsed named (d, found, active) owner open_ =
      let own = find-holds (is_binding l) ds d found in
      let is_own : d.user_id ≡ l.user.id = ground (arith, own, beq_iff d.user_id l.user.id) in
      rw (parsed, named, beq_refl l.device_id, found, is_own, owner, active, open_) refl

  -- Signing in and then asking: with the token of a sign-in that succeeded, and the device it named,
  -- the user passes RequireAuth as that user, on that device and with the role on record, at any time
  -- before the token ends at which the user's access has not ended, over the users as they were and
  -- the devices as the sign-in left them. That is so provided that no two users have one id, that the
  -- ids are valid UTF-8 and the user's is not empty, that the token ends before 2 ^ 53, that the query
  -- of RequireAuth does not fail, and that the package parses what it signed.
  pub signed_in_passes :
      (out : Outside) (m : Manager) (mode : AttestationMode) (c : LoginCall) (users : List User)
      (ds : List Device) (s : Session) (now : ℕ)
      → ParsesSigned jwt
      → HasDistinctIds users
      → is_empty s.user.id ≡ false
      → (is_utf8 s.user.id && is_utf8 (trim_space c.device_header)) ≡ true
      → c.now + m.ttl < 9_007_199_254_740_992
      → now < c.now + m.ttl
      → has_ended now s.user.access_expires_at ≡ false
      → (login out jwt m mode c users ds).0 ≡ signed_in s
      → require_auth jwt m true now
          (bearer ++ s.access_token)
          (trim_space c.device_header)
          users
          (login out jwt m mode c users ds).1
        ≡ ok (record {
          user_id = s.user.id;
          device_id = trim_space c.device_header;
          role = s.user.role;
        })
  signed_in_passes out m mode c users ds s now law distinct named texts small soon open_ h =
      let w = login-Answered out jwt m mode c users ds s h in
      let l = w.l in
      let after = (login out jwt m mode c users ds).1 in
      let same_id = ap (λ (u : User). u.id) w.is_user in
      let parsed =
        issue-parse jwt m l.user.id l.device_id c.now now s.access_token law
          (rw (same_id, w.admitted.trimmed) texts) small (rw same_id named) w.admitted.named soon
          w.is_issued in
      let owner = find_by_id _ users l.user distinct w.admitted.identified in
      let open_now : has_ended now l.user.access_expires_at ≡ false = rw w.is_user open_ in
      let passed =
        let_in m now s.access_token l users after c.now parsed w.admitted.named
          (bind-Binds c.bind_up l s.device_row s.is_new ds after w.is_bound) owner open_now in
      rw (sym w.is_user, sym w.admitted.trimmed) passed
