-- ===== src/Account/Reset/Once.antt =====
-- A reset code of auth_reset.go is good for one reset.
use onrol_infra.Base.{
  ℕ, ◌+◌, ◌≤◌, ◌≡◌, ◌≢◌, refl, subst, Bool, true, false, none, some, List, [], ◌∷◌, find, select,
  count, count-append, length, Str, beq, beq_refl, trim_space, Reply, ok, fail, arith, Option-cases,
  Bool-cases, inl, inr, update_where,
}
use onrol_infra.Account.Devices.{User}
use onrol_infra.Account.SignIn.{Outside, to_lower}
use onrol_infra.Account.Reset.{
  PasswordReset, Store, Bcrypt, ResetStmt, burn, invalidate, is_account, is_outstanding, is_of,
  is_open, burnt, newest, ResetReq, check_reset, set_hash, burn_codes, apply_reset, reset_password,
  forgot_password, invalidate_codes, six_digit_code,
}

abbrev pub outstanding : Str → Store → ℕ
outstanding user_id s = count (is_outstanding user_id) s.resets

burn-outstanding :
    (user_id : Str) (rs : List PasswordReset)
    → count (is_outstanding user_id) (update_where (is_of user_id) burnt rs) ≡ 0
unfolding update_where
burn-outstanding user_id [] = refl
burn-outstanding user_id (r ∷ rs) = ground (arith, burn-outstanding user_id rs)

invalidate-outstanding :
    (user_id : Str) (rs : List PasswordReset)
    → count (is_outstanding user_id) (update_where (is_outstanding user_id) burnt rs) ≡ 0
unfolding update_where
invalidate-outstanding user_id [] = refl
invalidate-outstanding user_id (r ∷ rs) = ground (arith, invalidate-outstanding user_id rs)

-- No open code without an outstanding one.
newest-none :
    (now : ℕ) (user_id : Str) (rs : List PasswordReset)
    → count (is_outstanding user_id) rs ≡ 0
    → newest (select (is_open now user_id) rs) ≡ none
unfolding newest
newest-none now user_id [] h = refl
newest-none now user_id (r ∷ rs) h = ground (arith, newest-none now user_id rs)

set_hash-find :
    (email user_id hash : Str) (us : List User) (u : User)
    → find
        (is_account email)
        (update_where (λ v. beq v.id user_id) (λ v. record v { password_hash = hash }) us)
      ≡ some u
    → (v : User) × (find (is_account email) us ≡ some v) × (v.id ≡ u.id)
unfolding update_where
set_hash-find email user_id hash [] u e = absurd (cc)
set_hash-find email user_id hash (w ∷ us) u e = elim (Bool-cases (is_account email w)) [
  | inl t ↦ (w, ground (arith, t), ground (arith, t))
  | inr f ↦
      let rest = set_hash-find email user_id hash us u (ground (arith, f)) in
      (rest.0, ground (arith, f, rest.1), rest.2)
]

module _ (out : Outside) (bc : Bcrypt) where
  -- A reset passes its checks only with the newest open code of the account that the email names,
  -- and a password of at least 8 bytes.
  checked :
      (up : ResetStmt → Bool) (now : ℕ) (req : ResetReq) (s : Store) (u : User) (hash : Str)
      → check_reset out bc up now (some req) s ≡ ok (u, hash)
      → (r : PasswordReset) × (find (is_account (to_lower out (trim_space req.email))) s.users
          ≡ some u)
        × (newest (select (is_open now u.id) s.resets) ≡ some r)
        × (bc.matches r.code_hash (trim_space req.code) ≡ true)
        × (8 ≤ length req.password)
        × (bc.generate req.password ≡ some hash)
  unfolding check_reset
  checked up now req s u hash e =
      elim (Option-cases (find (is_account (to_lower out (trim_space req.email))) s.users)) [
        | inl miss ↦ absurd (ground (arith, miss))
        | inr (v, f) ↦ elim (Option-cases (newest (select (is_open now v.id) s.resets))) [
          | inl miss ↦ absurd (ground (arith, f, miss))
          | inr (r, g) ↦ elim (Option-cases (bc.generate req.password)) [
            | inl miss ↦ absurd (ground (arith, f, g, miss))
            | inr (h, k) ↦
                let facts : (v ≡ u)
                    × (bc.matches r.code_hash (trim_space req.code) ≡ true)
                    × (8 ≤ length req.password)
                    × (h ≡ hash) =
                  ground (arith, f, g, k) in
                (r, rw (← facts.0) f, rw (← facts.0) g, facts.1, facts.2, rw (← facts.3) k)
          ]
        ]
      ]

  applied :
      (up : ResetStmt → Bool) (s : Store) (r : Reply (User × Str))
      → (apply_reset up s r).0 ≡ ok tt
      → (u : User) × (hash : Str) × (r ≡ ok (u, hash))
  applied up s (fail e) h = absurd (cc)
  applied up s (ok (u, hash)) h = (u, hash, refl)

  -- A reset that succeeds was asked for with the newest unused, unexpired code of the first active
  -- account of that email, and its password has at least 8 bytes.
  pub reset_needs_code :
      (up : ResetStmt → Bool) (now : ℕ) (req : ResetReq) (s : Store)
      → (reset_password out bc up now (some req) s).0 ≡ ok tt
      → (u : User) × (r : PasswordReset) × (find
            (is_account (to_lower out (trim_space req.email)))
            s.users
          ≡ some u)
        × (newest (select (is_open now u.id) s.resets) ≡ some r)
        × (bc.matches r.code_hash (trim_space req.code) ≡ true)
        × (8 ≤ length req.password)
  unfolding reset_password
  reset_needs_code up now req s e =
      let (u, hash, c) = applied up s (check_reset out bc up now (some req) s) e in
      let (r, f, g, m, l, k) = checked up now req s u hash c in (u, r, f, g, m, l)

  after_reset :
      (up : ResetStmt → Bool) (s : Store) (u : User) (hash : Str) (r : Reply (User × Str))
      → up burn ≡ true
      → r ≡ ok (u, hash)
      → (apply_reset up s r).1 ≡ burn_codes u.id (set_hash u.id hash s)
  after_reset up s u hash r b e = ground (arith, b, e)

  -- A code is good for one reset: in the tables that a reset leaves whose last statement burnt the
  -- codes, every reset for the same email is refused, whatever code it names.
  pub reset_once :
      (up up' : ResetStmt → Bool) (now later : ℕ) (req req' : ResetReq) (s : Store)
      → (reset_password out bc up now (some req) s).0 ≡ ok tt
      → up burn ≡ true
      → to_lower out (trim_space req'.email) ≡ to_lower out (trim_space req.email)
      → (reset_password out bc up' later
          (some req')
          (reset_password out bc up now (some req) s).1).0
        ≢ ok tt
  unfolding reset_password burn_codes set_hash
  reset_once up up' now later req req' s e b same again =
      let (u, hash, c) = applied up s (check_reset out bc up now (some req) s) e in
      let (r, f, g, m, l, k) = checked up now req s u hash c in
      let s1 : Store = burn_codes u.id (set_hash u.id hash s) in
      let left : (reset_password out bc up now (some req) s).1 ≡ s1 =
        after_reset up s u hash (check_reset out bc up now (some req) s) b c in
      let (u', r', f', g', m', l') =
        reset_needs_code up' later req' s1
          (subst (λ t. (reset_password out bc up' later (some req') t).0 ≡ ok tt) left again) in
      let (v, fv, iv) =
        set_hash-find (to_lower out (trim_space req'.email)) u.id hash s.users u' f' in
      let same_user : u.id ≡ u'.id = ground (arith, f, fv, same, iv) in
      let gone : count (is_outstanding u'.id) s1.resets ≡ 0 =
        subst (λ i. count (is_outstanding i) s1.resets ≡ 0) same_user
          (burn-outstanding u.id s.resets) in
      cc (newest-none later u'.id s1.resets gone, g')

  -- A request for a code that is mailed leaves exactly one outstanding code of the account, if the
  -- earlier codes could be invalidated, and the mailed code is the six digits of the random number.
  pub forgot_one_code :
      (up : ResetStmt → Bool) (now random : ℕ) (new_id raw code : Str) (s : Store) (u : User)
      → (forgot_password out bc up now random new_id (some raw) s).0 ≡ ok (some code)
      → up invalidate ≡ true
      → find (is_account (to_lower out (trim_space raw))) s.users ≡ some u
      → (outstanding u.id (forgot_password out bc up now random new_id (some raw) s).1 ≡ 1)
        × (code ≡ six_digit_code random)
  unfolding forgot_password invalidate_codes
  forgot_one_code up now random new_id raw code s u e i f =
      elim (Option-cases (bc.generate (six_digit_code random))) [
        | inl miss ↦ absurd (ground (arith, f, miss))
        | inr (hash, g) ↦ (
          ground (
            arith,
            i,
            f,
            g,
            beq_refl u.id,
            invalidate-outstanding u.id s.resets,
            count-append (is_outstanding u.id) (update_where (is_outstanding u.id) burnt s.resets) (
                record {
                  id = new_id;
                  user_id = u.id;
                  code_hash = hash;
                  expires_at = now + 600;
                  used = false;
                  created_at = now;
                }
                ∷ []),
          ),
          ground (arith, i, f, g),
        )
      ]
