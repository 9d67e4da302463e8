-- ===== src/Tests/Tokens.antt =====
-- A sign-in and the requests that follow it, over tokens that hold their claims (auth.go, jwt.go,
-- middleware/auth.go).
use onrol_infra.Base.{
  ℕ, ◌<◌, ◌≡◌, refl, sym, ap, ◌∙◌, arith, true, Option, none, some, [], ◌∷◌, ◌++◌, length, take,
  drop, Str, codes, beq, beq_refl, ltb, if◌then◌else◌, trim_space, has_prefix, sort_by,
  update_where, ok,
}
use onrol_infra.Account.Devices.{bind_device, check_cap, admit, list_active_devices}
use onrol_infra.Account.Token.{
  Claims, Method, hmac, other_method, Jwt, ParsesSigned, issue, utf8_from,
}
use onrol_infra.Account.Gates.{
  bearer, require_auth, stub_verify, attestation_decision, attestation_off,
}
use onrol_infra.Account.SignIn.{
  login, authenticate, is_identified, portal_allows_role, answer_bound, position, Session,
}
use onrol_infra.Account.SignIn.LetIn.{signed_in_passes}
use onrol_infra.Tests.{asha_id, asha}
use onrol_infra.Tests.Accounts.{phone, outside, call, manager}

-- A text behind its length.
abbrev frame : Str → Str
frame s = length s ∷ s

abbrev unframe : Str → Str × Str
unframe [] = ([], [])
unframe (n ∷ s) = (take n s, drop n s)

take-append : (s t : Str) → take (length s) (s ++ t) ≡ s
take-append [] t = refl
take-append (b ∷ s) t = rw (take-append s t) refl

drop-append : (s t : Str) → drop (length s) (s ++ t) ≡ t
drop-append [] t = refl
drop-append (b ∷ s) t = drop-append s t

unframe-frame : (s t : Str) → unframe (frame s ++ t) ≡ (s, t)
unframe-frame s t = ap_pair (take-append s t) (drop-append s t)
  where
    ap_pair : {a b c d : Str} → a ≡ b → c ≡ d → ◌≡◌ {A = Str × Str} (a, c) (b, d)
    ap_pair p q = rw (p, q) refl

-- The claims behind the key, all framed, and the two times.
abbrev times : Claims → Str
times c = c.issued_at ∷ c.expires_at ∷ []

abbrev tail_of_user : Claims → Str
tail_of_user c = frame c.device_id ++ (frame c.subject ++ times c)

abbrev encode : Str → Claims → Str
encode key c = frame key ++ (frame c.user_id ++ tail_of_user c)

abbrev after_subject : Str → Str → ℕ → Str × Str → Option Claims
after_subject uid did now (sub, iat ∷ exp ∷ []) =
    if ltb now exp
    then some (record {
      user_id = uid;
      device_id = did;
      subject = sub;
      issued_at = iat;
      expires_at = exp;
    })
    else none
after_subject uid did now _ = none

abbrev after_device : Str → ℕ → Str × Str → Option Claims
after_device uid now (did, t) = after_subject uid did now (unframe t)

abbrev after_user : ℕ → Str × Str → Option Claims
after_user now (uid, t) = after_device uid now (unframe t)

abbrev after_key : Str → ℕ → Str × Str → Option Claims
after_key key now (k, t) = if beq k key then after_user now (unframe t) else none

abbrev decode : Str → ℕ → Str → Option Claims
decode key now t = after_key key now (unframe t)

decode-encode :
    (key : Str) (c : Claims) (now : ℕ) → now < c.expires_at → decode key now (encode key c) ≡ some c
decode-encode key c now h =
    let user = frame c.user_id ++ tail_of_user c in
    let device = tail_of_user c in
    let in_time : ltb now c.expires_at ≡ true = ground arith in
    let rest = frame c.subject ++ times c in
    let e0 : decode key now (encode key c) ≡ after_key key now (key, user) =
      ap (after_key key now) (unframe-frame key user) in
    let e1 : after_key key now (key, user) ≡ after_user now (unframe user) =
      rw (beq_refl key) refl in
    let e2 : after_user now (unframe user) ≡ after_device c.user_id now (unframe device) =
      ap (after_user now) (unframe-frame c.user_id device) in
    let e3 : after_device c.user_id now (unframe device)
        ≡ after_subject c.user_id c.device_id now (unframe rest) =
      ap (after_device c.user_id now) (unframe-frame c.device_id rest) in
    let e4 : after_subject c.user_id c.device_id now (unframe rest)
        ≡ after_subject c.user_id c.device_id now (c.subject, times c) =
      ap (after_subject c.user_id c.device_id now) (unframe-frame c.subject (times c)) in
    let e5 : after_subject c.user_id c.device_id now (c.subject, times c) ≡ some c =
      rw in_time refl in
    e0 ∙ e1 ∙ e2 ∙ e3 ∙ e4 ∙ e5

abbrev sign_framed : Method → Str → Claims → Option Str
sign_framed hmac key c = some (encode key c)
sign_framed other_method key c = none

abbrev parse_framed : Option Str → ℕ → Str → Option Claims
parse_framed none now t = none
parse_framed (some key) now t = decode key now t

abbrev framed : Jwt
framed = record {
  sign = sign_framed;
  parse_with_claims = λ key_of now t. parse_framed (key_of hmac) now t;
}

framed-ParsesSigned : ParsesSigned framed
framed-ParsesSigned key c now key_of t signed known texts small_i small_e fresh =
    let same : encode key c ≡ t = some_inj signed in
    rw (known, sym same) (decode-encode key c now fresh)
  where
    or_empty : Option Str → Str
    or_empty none = []
    or_empty (some s) = s

    some_inj : {a b : Str} → some a ≡ some b → a ≡ b
    some_inj e = ap or_empty e

abbrev session : Session
session = record {
  access_token = encode manager.secret (record {
    user_id = asha_id;
    device_id = phone;
    subject = asha_id;
    issued_at = 10;
    expires_at = 110;
  });
  user = asha;
  device_row = codes "r9";
  is_new = true;
  index = 1;
  device_cap = 2;
}

signed_in_passes_example :
    require_auth framed manager true 50
      (bearer ++ session.access_token)
      phone
      (asha ∷ [])
      (login outside framed manager attestation_off call (asha ∷ []) []).1
    ≡ ok (record { user_id = asha_id; device_id = phone; role = asha.role })
unfolding login authenticate is_identified portal_allows_role attestation_decision stub_verify
    answer_bound bind_device check_cap admit list_active_devices issue beq trim_space has_prefix
    sort_by update_where position utf8_from
signed_in_passes_example =
    signed_in_passes framed outside manager attestation_off call (asha ∷ []) [] session 50
      framed-ParsesSigned (refl, tt) refl refl (omega arith) (omega arith) refl refl
