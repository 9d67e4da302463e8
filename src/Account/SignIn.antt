-- ===== src/Account/SignIn.antt =====
-- backend/internal/handlers/auth.go: portalAllowsRole and Login.
-- bcrypt, the attestor, the locale's lower() of the database and the Unicode part of
-- strings.ToLower are the parameters of `Outside`.
pub mod Sound
pub mod LetIn
use onrol_infra.Base.{
  String, ℕ, ◌+◌, ◌-◌, ◌≡◌, Bool, true, false, not, ◌&&◌, ◌||◌, Option, none, some, List, [], ◌∷◌,
  ltb, leb, ◌==◌, find, any, select, map, reverse, length, if◌then◌else◌, Str, codes, beq,
  has_prefix, trim_space, is_empty, Reply, ok, fail, refuse, refuse_with, lit, arg, HttpError,
  ◌>>=◌, ◌>>◌, require,
}
use onrol_infra.Account.Token.{Jwt, Manager, issue}
use onrol_infra.Account.Devices.{
  User, Device, Login, BindStmt, BindError, Bound, bound, unbound, device_limit, db_error,
  bind_device, list_active_devices, or_empty,
}
use onrol_infra.Account.Gates.{AttestationResult, AttestationMode, attestation_decision, has_ended}

pub record Outside : Type 0 where
  pub unicode_lower : Str → Str
  pub pg_lower : Str → Str
  pub password_matches : Str → Str → Bool
  pub verify : Str → Str → Str → AttestationResult

pub record LoginReq : Type 0 where
  pub email : Str
  pub password : Str
  pub platform : Str
  pub model : Str
  pub portal : Str

unfoldable pub portal_allows_role : Str → Str → Bool
unfolding beq
portal_allows_role portal role =
    if is_empty portal || beq portal (codes "any")
    then true
    else (if beq portal (codes "student")
        then beq role (codes "student")
        else (if beq portal (codes "mentor")
            then beq role (codes "instructor")
            else beq portal (codes "admin")
              && (beq role (codes "manager") || beq role (codes "superadmin"))))

abbrev pub is_ascii : Str → Bool
is_ascii s = not (any (λ c. leb 128 c) s)

abbrev pub lower_byte : ℕ → ℕ
lower_byte c = if leb b'A' c && leb c b'Z' then c + 32 else c

-- strings.ToLower
abbrev pub to_lower : Outside → Str → Str
to_lower out s = if is_ascii s then map lower_byte s else out.unicode_lower s

-- regexp_replace(s, '\D', '', 'g')
abbrev pub digits : Str → Str
digits = select λ c. leb b'0' c && leb c b'9'

abbrev pub has_suffix : Str → Str → Bool
has_suffix s t = has_prefix (reverse s) (reverse t)

-- A comparison with NULL is not true.
abbrev pub holds : (Str → Bool) → Option Str → Bool
holds p none = false
holds p (some s) = p s

abbrev pub phone_digits : User → Str
phone_digits u = digits (elim u.phone [ none ↦ [] | some s ↦ s ])

-- The WHERE of the lookup: $1 is the lowered identifier and $2 the identifier as typed.
unfoldable pub is_identified : Outside → Str → Str → User → Bool
unfolding beq has_prefix
is_identified out email id_raw u =
    holds (λ s. beq s email) u.email
    || holds (λ s. beq (out.pg_lower s) email) u.username
    || holds (λ s. beq (out.pg_lower s) email) u.login_id
    || (leb 6 (length (digits id_raw)) && beq (phone_digits u) (digits id_raw))
    || (leb 8 (length (digits id_raw))
        && (has_suffix (phone_digits u) (digits id_raw)
            || (leb 8 (length (phone_digits u)) && has_suffix (digits id_raw) (phone_digits u))))

pub record LoginCall : Type 0 where
  pub device_header : Str
  pub attestation_token : Str
  pub body : Option LoginReq
  pub now : ℕ
  pub lookup_up : Bool
  pub bind_up : BindStmt → Bool
  pub index_up : Bool
  pub new_id : Str

abbrev pub or_bad_body : Option LoginReq → Reply LoginReq
or_bad_body none = refuse 400 "invalid body"
or_bad_body (some r) = ok r

abbrev pub or_no_user : Option User → Reply User
or_no_user none = refuse 401 "invalid credentials"
or_no_user (some u) = ok u

abbrev pub portal_gate : Str → Str → Reply (Unit {0})
portal_gate portal role =
    if portal_allows_role portal role
    then ok tt
    else refuse_with 403 (
        lit "this is the "
        ∷ arg portal
        ∷ lit " portal; your account isn't a "
        ∷ arg portal
        ∷ lit " account"
        ∷ [])

abbrev pub attestation_gate : Bool → AttestationResult → Reply (Unit {0})
attestation_gate allow res =
    if allow
    then ok tt
    else refuse_with 403 (lit "device attestation failed: " ∷ arg res.reason ∷ [])

-- Steps 1 and 2 of Login: what it hands to bindDevice.
unfoldable pub authenticate : Outside → AttestationMode → LoginCall → List User → Reply Login
authenticate out mode c users = do
  let device_id = trim_space c.device_header
  require (not (is_empty device_id)) 400 "X-Device-UUID header is required"
  req ← or_bad_body c.body
  let id_raw = trim_space req.email
  require c.lookup_up 500 "lookup failed"
  user ← or_no_user (find (is_identified out (to_lower out id_raw) id_raw) users)
  require user.is_active 403 "account disabled"
  require (not (has_ended c.now user.access_expires_at)) 403 "your access period has ended"
  require (out.password_matches user.password_hash req.password) 401 "invalid credentials"
  portal_gate req.portal user.role
  let res = out.verify req.platform device_id c.attestation_token
  attestation_gate (attestation_decision mode res).0 res
  ok (record {
    user = user;
    device_id = device_id;
    platform = req.platform;
    model = req.model;
    mark_verified = (attestation_decision mode res).1;
    now = c.now;
    new_id = c.new_id;
  })

pub record Session : Type 0 where
  pub access_token : Str
  pub user : User
  pub device_row : Str
  pub is_new : Bool
  pub index : ℕ
  pub device_cap : ℕ

pub data Answer : Type 0 where
  signed_in : Session → Answer
  limit_reached : ℕ → List Device → Answer
  refused : HttpError → Answer

-- row_number() of a row, from 1; 0 if it is not there.
unfoldable pub position : Str → ℕ → List Device → ℕ
position id n [] = 0
position id n (d ∷ ds) = if beq d.id id then n else position id (n + 1) ds

abbrev pub refused_with : ℕ → String → Answer
refused_with n m = refused (record { status = n; message = lit m ∷ [] })

-- Steps 3 and 4. The binding is committed by then, also where no token comes of it.
unfoldable pub answer_bound :
    Jwt → Manager → LoginCall → Login → List Device → Bound → Answer × List Device
answer_bound jwt m c l ds (unbound (device_limit active)) =
    (limit_reached l.user.max_devices active, ds)
answer_bound jwt m c l ds (unbound db_error) = (refused_with 500 "device binding failed", ds)
answer_bound jwt m c l ds (bound row is_new ds') = elim (issue jwt m l.user.id l.device_id c.now) [
  | none ↦ (refused_with 500 "token issue failed", ds')
  | some tok ↦ (
    signed_in (record {
      access_token = tok;
      user = l.user;
      device_row = row;
      is_new = is_new;
      index = position row 1 (or_empty (list_active_devices c.index_up l.user.id ds'));
      device_cap = if leb 99 l.user.max_devices then l.user.max_devices else 2;
    }),
    ds',
  )
]

abbrev pub bind_next : Jwt → Manager → LoginCall → List Device → Reply Login → Answer × List Device
bind_next jwt m c ds (fail e) = (refused e, ds)
bind_next jwt m c ds (ok l) = answer_bound jwt m c l ds (bind_device c.bind_up l ds)

unfoldable pub login :
    Outside
    → Jwt
    → Manager
    → AttestationMode
    → LoginCall
    → List User
    → List Device
    → Answer × List Device
login out jwt m mode c users ds = bind_next jwt m c ds (authenticate out mode c users)
