-- ===== src/Tests/Accounts.antt =====
-- Runs of sign-in, devices, tokens and password resets (auth.go, devices.go, auth_reset.go, jwt.go).
use onrol_infra.Base.{
  ℕ, ◌≤◌, ◌≡◌, ◌≢◌, refl, arith, Bool, true, false, ◌&&◌, Option, none, some, List, [], ◌∷◌, Str,
  codes, beq, ltb, ◌==◌, if◌then◌else◌, find, trim_space, strip, has_prefix, update_where, sort_by,
  ok,
}
use onrol_infra.Account.Devices.{
  User, Device, Login, BindStmt, bound, bind_device, check_cap, admit, active_count,
  admin_reset_user_devices, require_user_in_scope, list_active_devices,
}
use onrol_infra.Account.Devices.History.{Request, sign_in, serve_all, device_limit_holds}
use onrol_infra.Account.Token.{Claims, Method, hmac, other_method, Jwt, Manager, issue, parse}
use onrol_infra.Account.Gates.{
  Locals, bearer, is_device_of, require_auth, bearer_token, has_ended, stub_verify,
  attestation_decision, attestation_off,
}
use onrol_infra.Account.Gates.Lockout.{require_auth_sound, reset_locks_out}
use onrol_infra.Account.SignIn.{
  Outside, LoginCall, Session, login, authenticate, is_identified, portal_allows_role, answer_bound,
  position,
}
use onrol_infra.Account.SignIn.Sound.{Admitted, login_sound}
use onrol_infra.Account.Reset.{
  Store, Bcrypt, ResetStmt, ResetReq, check_reset, reset_password, newest,
}
use onrol_infra.Account.Reset.Once.{reset_once}
use onrol_infra.Tests.{asha_id, asha}

abbrev pub phone : Str
phone = codes "d1"

abbrev sign_in_at : Str → ℕ → Login
sign_in_at device now = record {
  user = asha;
  device_id = device;
  platform = codes "web";
  model = codes "x";
  mark_verified = false;
  now = now;
  new_id = device;
}

abbrev all_up : BindStmt → Bool
all_up s = true

abbrev three : List Request
three =
    sign_in all_up (sign_in_at phone 1)
    ∷ sign_in all_up (sign_in_at (codes "d2") 2)
    ∷ sign_in all_up (sign_in_at (codes "d3") 3)
    ∷ []

device_limit_holds_example : active_count asha_id (serve_all three []) ≤ 2
device_limit_holds_example =
    device_limit_holds asha_id three []
      ((λ e. omega arith), ((λ e. omega arith), ((λ e. omega arith), tt))) (λ i. omega arith)

abbrev secret : Str
secret = codes "k"

abbrev tok : Str
tok = codes "t.t.t"

abbrev claims : Claims
claims = record {
  user_id = asha_id;
  device_id = phone;
  subject = asha_id;
  issued_at = 10;
  expires_at = 110;
}

abbrev is_claims : Claims → Bool
is_claims c =
    beq c.user_id asha_id
    && beq c.device_id phone
    && beq c.subject asha_id
    && c.issued_at == 10
    && c.expires_at == 110

abbrev sign_one : Method → Str → Claims → Option Str
sign_one hmac key c = if beq key secret && is_claims c then some tok else none
sign_one other_method key c = none

abbrev parse_one : Option Str → ℕ → Str → Option Claims
parse_one none now t = none
parse_one (some key) now t =
    if beq key secret && beq t tok && ltb now 110 then some claims else none

-- One key and one token, in place of the package.
abbrev one_token : Jwt
one_token = record {
  sign = sign_one;
  parse_with_claims = λ key_of now t. parse_one (key_of hmac) now t;
}

abbrev pub manager : Manager
manager = record { secret = secret; ttl = 100 }

abbrev row : Device
row = record {
  id = codes "r1";
  user_id = asha_id;
  device_id = phone;
  platform = codes "web";
  model = codes "x";
  name = [];
  attestation_verified = false;
  is_active = true;
  first_seen = 1;
  last_seen = 1;
}

abbrev header : Str
header = codes "Bearer t.t.t"

abbrev locals : Locals
locals = record { user_id = asha_id; device_id = phone; role = codes "student" }

require_auth_sound_example :
    (t : Str) × (c : Claims) × (d : Device) × (u : User) × (strip header bearer ≡ some t)
    × (parse one_token manager 50 t ≡ some c)
    × (phone ≡ phone)
    × (find (is_device_of c) (row ∷ []) ≡ some d)
    × (d.user_id ≡ asha_id)
    × (d.device_id ≡ phone)
    × (d.is_active ≡ true)
    × (u.id ≡ asha_id)
    × (u.role ≡ codes "student")
    × (has_ended 50 u.access_expires_at ≡ false)
unfolding require_auth bearer_token strip parse beq
require_auth_sound_example =
    require_auth_sound one_token manager true 50 header phone (asha ∷ []) (row ∷ []) locals refl

reset_locks_out_example : asha_id ≢ codes "ravi"
unfolding require_auth bearer_token strip parse beq admin_reset_user_devices require_user_in_scope
    update_where
reset_locks_out_example =
    reset_locks_out one_token manager true true 50 0 header phone (codes "manager") (codes "ravi")
      none (asha ∷ []) (row ∷ []) locals refl refl

abbrev pub outside : Outside
outside = record {
  unicode_lower = λ s. s;
  pg_lower = λ s. s;
  password_matches = λ h p. beq h p;
  verify = λ p d t. stub_verify t;
}

abbrev pub call : LoginCall
call = record {
  device_header = phone;
  attestation_token = [];
  body = some (record {
    email = codes " A@x.in";
    password = codes "h";
    platform = codes "web";
    model = codes "x";
    portal = codes "student";
  });
  now = 10;
  lookup_up = true;
  bind_up = all_up;
  index_up = true;
  new_id = codes "r9";
}

abbrev session : Session
session = record {
  access_token = tok;
  user = asha;
  device_row = codes "r9";
  is_new = true;
  index = 1;
  device_cap = 2;
}

login_sound_example :
    (l : Login) × Admitted outside attestation_off call (asha ∷ []) l
    × (bind_device all_up l []
        ≡ bound
            (codes "r9")
            true
            (login outside one_token manager attestation_off call (asha ∷ []) []).1)
    × (issue one_token manager l.user.id l.device_id 10 ≡ some tok)
unfolding login authenticate is_identified portal_allows_role attestation_decision stub_verify
    answer_bound bind_device check_cap admit list_active_devices issue beq trim_space has_prefix
    sort_by update_where position
login_sound_example =
    login_sound outside one_token manager attestation_off call (asha ∷ []) [] session refl

abbrev bcrypt : Bcrypt
bcrypt = record { generate = λ p. some p; matches = λ h p. beq h p }

abbrev store : Store
store = record {
  users = asha ∷ [];
  resets =
      record {
        id = codes "c1";
        user_id = asha_id;
        code_hash = codes "123456";
        expires_at = 900;
        used = false;
        created_at = 300;
      }
      ∷ [];
}

abbrev reset_req : ResetReq
reset_req = record { email = codes "a@x.in"; code = codes "123456"; password = codes "longenough" }

abbrev stmts_up : ResetStmt → Bool
stmts_up s = true

reset_once_example :
    (reset_password outside bcrypt stmts_up 410
      (some reset_req)
      (reset_password outside bcrypt stmts_up 400 (some reset_req) store).1).0
    ≢ ok tt
unfolding reset_password check_reset newest beq trim_space
reset_once_example =
    reset_once outside bcrypt stmts_up stmts_up 400 410 reset_req reset_req store refl refl refl
