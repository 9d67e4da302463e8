-- ===== src/Account/Reset.antt =====
-- backend/internal/handlers/auth_reset.go. bcrypt, the mail and the random source are parameters.
pub mod Once
use onrol_infra.Base.{
  ℕ, ◌+◌, ◌*◌, ◌^◌, ◌%◌, ◌/◌, ◌≡◌, Bool, true, false, not, ◌&&◌, ◌||◌, Option, none, some, List, [],
  ◌∷◌, ◌++◌, ltb, leb, find, length, if◌then◌else◌, Str, codes, beq, trim_space, is_empty, Reply,
  ok, fail, refuse, ◌>>=◌, ◌>>◌, require, update_where, select,
}
use onrol_infra.Account.Devices.{User}
use onrol_infra.Account.SignIn.{Outside, to_lower}

pub record PasswordReset : Type 0 where
  pub id : Str
  pub user_id : Str
  pub code_hash : Str
  pub expires_at : ℕ
  pub used : Bool
  pub created_at : ℕ

-- The tables users and password_resets. Times are seconds.
pub record Store : Type 0 where
  pub users : List User
  pub resets : List PasswordReset

-- bcrypt.GenerateFromPassword, and CompareHashAndPassword of a hash and a text.
pub record Bcrypt : Type 0 where
  pub generate : Str → Option Str
  pub matches : Str → Str → Bool

pub data ResetStmt : Type 0 where
  find_user invalidate store_code newest_code set_password burn : ResetStmt

abbrev pub is_account : Str → User → Bool
is_account email u = (elim u.email [ none ↦ false | some s ↦ beq s email ]) && u.is_active

-- fmt.Sprintf("%06d", n % 1_000_000) of four random bytes.
abbrev pub digit : ℕ → ℕ → ℕ
digit n k = n / 10 ^ k % 10 + b'0'

unfoldable pub six_digit_code : ℕ → Str
six_digit_code random =
    let n = random % 1_000_000 in
    digit n 5 ∷ digit n 4 ∷ digit n 3 ∷ digit n 2 ∷ digit n 1 ∷ digit n 0 ∷ []

abbrev pub is_outstanding : Str → PasswordReset → Bool
is_outstanding user_id r = beq r.user_id user_id && not r.used

abbrev pub burnt : PasswordReset → PasswordReset
burnt r = record r { used = true }

abbrev pub try_stmt : Bool → (Store → Store) → Store → Store
try_stmt up f s = if up then f s else s

unfoldable pub invalidate_codes : Str → Store → Store
unfolding update_where beq
invalidate_codes user_id s = record s {
  resets = update_where (is_outstanding user_id) burnt s.resets;
}

-- What is mailed, and the tables. The answer is always 200 once the body parses.
unfoldable pub forgot_password :
    Outside
    → Bcrypt
    → (ResetStmt → Bool)
    → ℕ
    → ℕ
    → Str
    → Option Str
    → Store
    → Reply (Option Str) × Store
forgot_password out bc up now random new_id none s = (refuse 400 "invalid body", s)
forgot_password out bc up now random new_id (some raw) s =
    let email = to_lower out (trim_space raw) in
    if is_empty email || not (up find_user)
    then (ok none, s)
    else elim (find (is_account email) s.users) [
      | none ↦ (ok none, s)
      | some u ↦ elim (bc.generate (six_digit_code random)) [
        | none ↦ (ok none, s)
        | some hash ↦
            let s' = try_stmt (up invalidate) (invalidate_codes u.id) s in
            if up store_code
            then (
              ok (some (six_digit_code random)),
              record s' {
                resets =
                    s'.resets
                    ++ record {
                      id = new_id;
                      user_id = u.id;
                      code_hash = hash;
                      expires_at = now + 600;
                      used = false;
                      created_at = now;
                    }
                      ∷ [];
              },
            )
            else (ok none, s')
      ]
    ]

pub record ResetReq : Type 0 where
  pub email : Str
  pub code : Str
  pub password : Str

-- The newest unused, unexpired code: of equal times the first.
abbrev pub newer : PasswordReset → Option PasswordReset → PasswordReset
newer r none = r
newer r (some q) = if leb q.created_at r.created_at then r else q

unfoldable pub newest : List PasswordReset → Option PasswordReset
newest [] = none
newest (r ∷ rs) = some (newer r (newest rs))

abbrev pub is_open : ℕ → Str → PasswordReset → Bool
is_open now user_id r = is_outstanding user_id r && ltb now r.expires_at

abbrev pub found_or_bad {ℓ} : {A : Type ℓ} → Bool → Option A → Reply A
found_or_bad up none = refuse 400 "invalid or expired code"
found_or_bad up (some a) = if up then ok a else refuse 400 "invalid or expired code"

abbrev pub hash_or_fail : Option Str → Reply Str
hash_or_fail none = refuse 500 "hash failed"
hash_or_fail (some h) = ok h

-- The checks of ResetPassword, up to the user and the new hash.
unfoldable pub check_reset :
    Outside → Bcrypt → (ResetStmt → Bool) → ℕ → Option ResetReq → Store → Reply (User × Str)
check_reset out bc up now none s = refuse 400 "invalid body"
check_reset out bc up now (some req) s = do
  let email = to_lower out (trim_space req.email)
  let code = trim_space req.code
  require (not (is_empty email || is_empty code)) 400 "email and code are required"
  require (leb 8 (length req.password)) 400 "new password must be at least 8 characters"
  user ← found_or_bad (up find_user) (find (is_account email) s.users)
  reset ← found_or_bad (up newest_code) (newest (select (is_open now user.id) s.resets))
  require (bc.matches reset.code_hash code) 400 "invalid or expired code"
  hash ← hash_or_fail (bc.generate req.password)
  require (up set_password) 500 "update failed"
  ok (user, hash)

abbrev pub is_of : Str → PasswordReset → Bool
is_of user_id r = beq r.user_id user_id

unfoldable pub set_hash : Str → Str → Store → Store
unfolding update_where beq
set_hash user_id hash s = record s {
  users = update_where (λ u. beq u.id user_id) (λ u. record u { password_hash = hash }) s.users;
}

unfoldable pub burn_codes : Str → Store → Store
unfolding update_where beq
burn_codes user_id s = record s { resets = update_where (is_of user_id) burnt s.resets }

-- The error of the last statement is dropped.
abbrev pub apply_reset : (ResetStmt → Bool) → Store → Reply (User × Str) → Reply (Unit {0}) × Store
apply_reset up s (fail e) = (fail e, s)
apply_reset up s (ok (u, hash)) =
    (ok tt, try_stmt (up burn) (burn_codes u.id) (set_hash u.id hash s))

unfoldable pub reset_password :
    Outside → Bcrypt → (ResetStmt → Bool) → ℕ → Option ResetReq → Store → Reply (Unit {0}) × Store
reset_password out bc up now req s = apply_reset up s (check_reset out bc up now req s)
