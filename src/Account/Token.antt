-- ===== src/Account/Token.antt =====
-- backend/internal/auth/jwt.go. The package golang-jwt is the parameter `Jwt`. Times count whole
-- seconds, as the claims of a token hold them.
use onrol_infra.Base.{
  ℕ, zero, suc, ◌+◌, ◌<◌, ◌≡◌, Bool, true, false, ◌&&◌, ◌||◌, leb, Option, none, some, [], ◌∷◌, Str,
  is_empty, if◌then◌else◌, arith, refl, ◌==◌,
}

pub record Claims : Type 0 where
  pub user_id : Str
  pub device_id : Str
  pub subject : Str
  pub issued_at : ℕ
  pub expires_at : ℕ

-- jwt.SigningMethod, as far as the key function tells methods apart.
pub data Method : Type 0 where
  hmac other_method : Method

-- What golang-jwt does: SignedString, and ParseWithClaims over a key function at a time.
pub record Jwt : Type 0 where
  pub sign : Method → Str → Claims → Option Str
  pub parse_with_claims : (Method → Option Str) → ℕ → Str → Option Claims

-- What may follow a byte in UTF-8: so many bytes, the first of them within bounds.
pub record Follow : Type 0 where
  pub ok_lead : Bool
  pub left : ℕ
  pub low : ℕ
  pub high : ℕ

abbrev follow : ℕ → ℕ → ℕ → Follow
follow n low high = record { ok_lead = true; left = n; low = low; high = high }

abbrev within : ℕ → ℕ → ℕ → Bool
within low high b = leb low b && leb b high

abbrev pub lead_byte : ℕ → Follow
lead_byte b =
    if leb b 0x7f
    then follow 0 0x80 0xbf
    else (if within 0xc2 0xdf b
        then follow 1 0x80 0xbf
        else (if within 0xe0 0xef b
            then follow 2 (if b == 0xe0 then 0xa0 else 0x80) (if b == 0xed then 0x9f else 0xbf)
            else (if within 0xf0 0xf4 b
                then follow 3 (if b == 0xf0 then 0x90 else 0x80) (if b == 0xf4 then 0x8f else 0xbf)
                else record { ok_lead = false; left = 0; low = 0; high = 0 })))

unfoldable pub utf8_from : ℕ → ℕ → ℕ → Str → Bool
utf8_from zero low high [] = true
utf8_from (suc k) low high [] = false
utf8_from zero low high (b ∷ s) =
    let f = lead_byte b in f.ok_lead && utf8_from f.left f.low f.high s
utf8_from (suc k) low high (b ∷ s) = within low high b && utf8_from k 0x80 0xbf s

-- Valid UTF-8, the texts that encoding/json writes and reads back unchanged.
abbrev pub is_utf8 : Str → Bool
is_utf8 = utf8_from 0 0x80 0xbf

-- Documented: a token that is signed by HMAC over claims whose texts are valid UTF-8, with a time of
-- expiry that a double holds exactly, parses with the same key and before it expires to its claims.
abbrev pub ParsesSigned : Jwt → Type 0
ParsesSigned jwt =
    (key : Str) (c : Claims) (now : ℕ) (key_of : Method → Option Str) (tok : Str)
    → jwt.sign hmac key c ≡ some tok
    → key_of hmac ≡ some key
    → (is_utf8 c.user_id && is_utf8 c.device_id && is_utf8 c.subject) ≡ true
    → c.issued_at < 9_007_199_254_740_992
    → c.expires_at < 9_007_199_254_740_992
    → now < c.expires_at
    → jwt.parse_with_claims key_of now tok ≡ some c

pub record Manager : Type 0 where
  pub secret : Str
  pub ttl : ℕ

abbrev pub claims_of : Manager → Str → Str → ℕ → Claims
claims_of m user_id device_id now = record {
  user_id = user_id;
  device_id = device_id;
  subject = user_id;
  issued_at = now;
  expires_at = now + m.ttl;
}

module _ (jwt : Jwt) where
  unfoldable pub issue : Manager → Str → Str → ℕ → Option Str
  issue m user_id device_id now = jwt.sign hmac m.secret (claims_of m user_id device_id now)

  abbrev pub key_for : Manager → Method → Option Str
  key_for m hmac = some m.secret
  key_for m other_method = none

  abbrev pub with_ids : Option Claims → Option Claims
  with_ids none = none
  with_ids (some c) = if is_empty c.user_id || is_empty c.device_id then none else some c

  -- The only error is ErrInvalidToken.
  unfoldable pub parse : Manager → ℕ → Str → Option Claims
  parse m now tok = with_ids (jwt.parse_with_claims (key_for m) now tok)

  pub issue-parse :
      (m : Manager) (user_id device_id : Str) (issued now : ℕ) (tok : Str)
      → ParsesSigned jwt
      → (is_utf8 user_id && is_utf8 device_id) ≡ true
      → issued + m.ttl < 9_007_199_254_740_992
      → is_empty user_id ≡ false
      → is_empty device_id ≡ false
      → now < issued + m.ttl
      → issue m user_id device_id issued ≡ some tok
      → parse m now tok ≡ some (claims_of m user_id device_id issued)
  unfolding issue parse
  issue-parse m user_id device_id issued now tok law texts small u d h e =
      let c = claims_of m user_id device_id issued in
      let parsed =
        law m.secret c now (key_for m) tok e refl (ground (arith, texts)) (omega (arith, small))
          small h in
      ground (arith, parsed, u, d)

  -- No token parses to claims that lack the user or the device.
  pub parse_has_ids :
      (m : Manager) (now : ℕ) (tok : Str) (c : Claims)
      → parse m now tok ≡ some c
      → (is_empty c.user_id ≡ false) × (is_empty c.device_id ≡ false)
  unfolding parse
  parse_has_ids m now tok c e = ground arith
