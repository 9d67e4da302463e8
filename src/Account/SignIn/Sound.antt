-- ===== src/Account/SignIn/Sound.antt =====
-- Which sign-ins Login (auth.go) lets through.
use onrol_infra.Base.{
  ◌≡◌, ◌≢◌, refl, true, false, some, List, find, Str, is_empty, trim_space, Reply, ok, fail, arith,
  Option-cases, inl, inr,
}
use onrol_infra.Account.Token.{Jwt, Manager, issue}
use onrol_infra.Account.Devices.{
  User, Device, Login, Bound, bound, unbound, device_limit, db_error, bind_device,
}
use onrol_infra.Account.Gates.{
  AttestationMode, attestation_decision, attestation_enforce, has_ended, stub_verify,
}
use onrol_infra.Account.SignIn.{
  Outside, LoginReq, LoginCall, Session, signed_in, portal_allows_role, is_identified, to_lower,
  authenticate, answer_bound, bind_next, login,
}

-- What the checks before the binding establish.
pub record Admitted (out : Outside) (mode : AttestationMode) (c : LoginCall) (users : List User)
    (l : Login) : Type 0 where
  pub req : LoginReq
  pub parsed : c.body ≡ some req
  pub named : is_empty l.device_id ≡ false
  pub trimmed : l.device_id ≡ trim_space c.device_header
  pub identified :
      find (is_identified out (to_lower out (trim_space req.email)) (trim_space req.email)) users
      ≡ some l.user
  pub active : l.user.is_active ≡ true
  pub current : has_ended c.now l.user.access_expires_at ≡ false
  pub password : out.password_matches l.user.password_hash req.password ≡ true
  pub portal : portal_allows_role req.portal l.user.role ≡ true
  pub attested :
      attestation_decision mode (out.verify req.platform l.device_id c.attestation_token)
      ≡ (true, l.mark_verified)

Admitted-with :
    (out : Outside) (mode : AttestationMode) (c : LoginCall) (users : List User) (l : Login)
    (req : LoginReq) (u : User)
    → c.body ≡ some req
    → find (is_identified out (to_lower out (trim_space req.email)) (trim_space req.email)) users
      ≡ some u
    → authenticate out mode c users ≡ ok l
    → Admitted out mode c users l
unfolding authenticate
Admitted-with out mode c users l req u b f e = record {
  req = req;
  parsed = b;
  named = ground (arith, b, f);
  trimmed = ground (arith, b, f);
  identified = ground (arith, b, f);
  active = ground (arith, b, f);
  current = ground (arith, b, f);
  password = ground (arith, b, f);
  portal = ground (arith, b, f);
  attested = ground (arith, b, f);
}

pub authenticate-Admitted :
    (out : Outside) (mode : AttestationMode) (c : LoginCall) (users : List User) (l : Login)
    → authenticate out mode c users ≡ ok l
    → Admitted out mode c users l
unfolding authenticate
authenticate-Admitted out mode c users l e = elim (Option-cases c.body) [
  | inl miss ↦ absurd (ground (arith, miss))
  | inr (req, b) ↦
      elim (Option-cases (
        find (is_identified out (to_lower out (trim_space req.email)) (trim_space req.email))
          users)) [
            | inl miss ↦ absurd (ground (arith, b, miss))
            | inr (u, f) ↦ Admitted-with out mode c users l req u b f e
          ]
]

pub answer-bound :
    (jwt : Jwt) (m : Manager) (c : LoginCall) (l : Login) (ds : List Device) (b : Bound)
    (s : Session)
    → (answer_bound jwt m c l ds b).0 ≡ signed_in s
    → (ds' : List Device) × (b ≡ bound s.device_row s.is_new ds')
      × (issue jwt m l.user.id l.device_id c.now ≡ some s.access_token)
      × ((answer_bound jwt m c l ds b).1 ≡ ds')
unfolding answer_bound
answer-bound jwt m c l ds (unbound (device_limit active)) s e = absurd (cc)
answer-bound jwt m c l ds (unbound db_error) s e = absurd (cc)
answer-bound jwt m c l ds (bound row is_new ds') s e =
    elim (Option-cases (issue jwt m l.user.id l.device_id c.now)) [
      | inl miss ↦ absurd (ground (arith, miss))
      | inr (tok, f) ↦ (ds', ground (arith, f), ground (arith, f), ground (arith, f))
    ]

-- A sign-in that succeeds has passed every check: the body parsed, the header named a device, the
-- first user found for the identifier is active and not past an access period, the password, the
-- portal and the attestation allow it; and its device was bound in the table that is left, and its
-- token was issued for that user and device.
pub login_sound :
    (out : Outside) (jwt : Jwt) (m : Manager) (mode : AttestationMode) (c : LoginCall)
    (users : List User) (ds : List Device) (s : Session)
    → (login out jwt m mode c users ds).0 ≡ signed_in s
    → (l : Login) × Admitted out mode c users l
      × (bind_device c.bind_up l ds
          ≡ bound s.device_row s.is_new (login out jwt m mode c users ds).1)
      × (issue jwt m l.user.id l.device_id c.now ≡ some s.access_token)
unfolding login
login_sound out jwt m mode c users ds s e = by_reply (authenticate out mode c users) refl e
  where
    by_reply :
        (r : Reply Login)
        → authenticate out mode c users ≡ r
        → (bind_next jwt m c ds r).0 ≡ signed_in s
        → (l : Login) × Admitted out mode c users l
          × (bind_device c.bind_up l ds
              ≡ bound s.device_row s.is_new
                  (bind_next jwt m c ds (authenticate out mode c users)).1)
          × (issue jwt m l.user.id l.device_id c.now ≡ some s.access_token)
    by_reply (fail x) q e' = absurd (cc)
    by_reply (ok l) q e' =
        let a = answer-bound jwt m c l ds (bind_device c.bind_up l ds) s e' in
        (l, authenticate-Admitted out mode c users l q, ground (arith, q, a.1, a.3), a.2)

-- In enforcing mode, with the stub attestor, nobody signs in and no device is bound.
pub stub_enforced :
    (out : Outside) (jwt : Jwt) (m : Manager) (c : LoginCall) (users : List User) (ds : List Device)
    (s : Session)
    → ((p d t : Str) → out.verify p d t ≡ stub_verify t)
    → (login out jwt m attestation_enforce c users ds).0 ≢ signed_in s
unfolding attestation_decision stub_verify
stub_enforced out jwt m c users ds s stub e =
    let (l, a, b, t) = login_sound out jwt m attestation_enforce c users ds s e in
    ground (arith, a.attested, stub a.req.platform l.device_id c.attestation_token)
