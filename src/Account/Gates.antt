-- ===== src/Account/Gates.antt =====
-- backend/internal/middleware: auth.go, admin.go and attestation.go.
pub mod Lockout
pub mod Roles
use onrol_infra.Base.{
  ℕ, ◌≡◌, Bool, true, false, not, ◌&&◌, ◌||◌, Option, none, some, List, [], ◌∷◌, ltb, leb, find,
  any, if◌then◌else◌, Str, codes, beq, strip, is_empty, Reply, refuse_with, lit, arg, ok, fail,
  refuse, ◌>>=◌, ◌>>◌, require, Map,
}
use onrol_infra.Account.Token.{Jwt, Manager, Claims, parse}
use onrol_infra.Account.Devices.{User, Device}

-- What the middleware stores in the request.
pub record Locals : Type 0 where
  pub user_id : Str
  pub device_id : Str
  pub role : Str

abbrev pub bearer : Str
bearer = codes "Bearer "

-- strings.HasPrefix, then strings.TrimPrefix
unfoldable pub bearer_token : Str → Reply Str
unfolding strip
bearer_token raw = elim (strip raw bearer) [
  | none ↦ refuse 401 "missing bearer token"
  | some tok ↦ ok tok
]

abbrev pub or_invalid : Option Claims → Reply Claims
or_invalid none = refuse 401 "invalid token"
or_invalid (some c) = ok c

abbrev pub is_device_of : Claims → Device → Bool
is_device_of c d = beq d.user_id c.user_id && beq d.device_id c.device_id

pub record AuthRow : Type 0 where
  pub active : Bool
  pub role : Str
  pub access_expires : Option ℕ

abbrev pub join_user : Device → Option User → Option AuthRow
join_user d none = none
join_user d (some u) =
    some (record { active = d.is_active; role = u.role; access_expires = u.access_expires_at })

-- devices JOIN users; (user_id, device_id) is a key of devices, and id of users.
abbrev pub auth_row : Claims → List User → Option Device → Option AuthRow
auth_row c users none = none
auth_row c users (some d) = join_user d (find (λ u. beq u.id d.user_id) users)

abbrev pub or_inactive : Option AuthRow → Reply AuthRow
or_inactive none = refuse 401 "device not active"
or_inactive (some r) = if r.active then ok r else refuse 401 "device not active"

-- accessExpires != nil && !accessExpires.After(now)
abbrev pub has_ended : ℕ → Option ℕ → Bool
has_ended now none = false
has_ended now (some t) = not (ltb now t)

module _ (jwt : Jwt) where
  -- `up` tells whether the query runs.
  unfoldable pub require_auth :
      Manager → Bool → ℕ → Str → Str → List User → List Device → Reply Locals
  unfolding bearer_token parse beq
  require_auth m up now authorization header users devices = do
    tok ← bearer_token authorization
    c ← or_invalid (parse jwt m now tok)
    require (not (is_empty header) && beq header c.device_id) 401 "device mismatch"
    row ← or_inactive (if up then auth_row c users (find (is_device_of c) devices) else none)
    require (not (has_ended now row.access_expires)) 403 "access period ended"
    ok (record { user_id = c.user_id; device_id = c.device_id; role = row.role })

  -- No device check; the role stays unset.
  unfoldable pub require_token : Manager → ℕ → Str → Reply Locals
  unfolding bearer_token parse
  require_token m now authorization = do
    tok ← bearer_token authorization
    c ← or_invalid (parse jwt m now tok)
    ok (record { user_id = c.user_id; device_id = c.device_id; role = [] })

-- roleRank: a role that it Lacks counts 0.
unfoldable pub role_rank : Str → ℕ
unfolding beq
role_rank role =
    if beq role (codes "superadmin")
    then 3
    else (if beq role (codes "manager")
        then 2
        else (if beq role (codes "instructor") then 1 else 0))

unfoldable pub require_role : Str → Str → Reply (Unit {0})
unfolding role_rank
require_role min role =
    if ltb (role_rank role) (role_rank min)
    then refuse_with 403 (lit "requires " ∷ arg min ∷ lit " role" ∷ [])
    else ok tt

unfoldable pub require_any_role : List Str → Str → Reply (Unit {0})
unfolding beq
require_any_role roles role =
    require (any (beq role) (codes "manager" ∷ codes "superadmin" ∷ roles)) 403
      "not permitted for your role"

-- subtle.ConstantTimeCompare is 1 for equal texts only.
unfoldable pub require_admin : Str → Str → Reply (Unit {0})
unfolding beq
require_admin admin_key got = do
  require (not (is_empty admin_key)) 404 "admin API disabled"
  require (beq got admin_key) 401 "invalid admin key"

pub record AttestationResult : Type 0 where
  pub verified : Bool
  pub reason : Str

pub data AttestationMode : Type 0 where
  attestation_off attestation_log attestation_enforce : AttestationMode
  attestation_other : Str → AttestationMode

unfoldable pub stub_verify : Str → AttestationResult
stub_verify token = record {
  verified = false;
  reason =
      if is_empty token
      then codes "no attestation token supplied"
      else codes "no real attestor configured (stub)";
}

-- (allow, markVerified)
unfoldable pub attestation_decision : AttestationMode → AttestationResult → Bool × Bool
attestation_decision attestation_off res = (true, false)
attestation_decision attestation_log res = (true, res.verified)
attestation_decision attestation_enforce res = (res.verified, res.verified)
attestation_decision (attestation_other mode) res = (false, false)
