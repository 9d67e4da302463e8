-- ===== src/Account/Gates/Lockout.antt =====
-- RequireAuth (middleware/auth.go) over the device table that devices.go writes.
use onrol_infra.Base.{
  ℕ, ◌≡◌, refl, Bool, true, false, Option, some, List, find, Str, beq, beq_iff, strip, Reply, ok,
  fail, arith, Option-cases, inl, inr, find-holds, find-count, count-update_off, ◌∙◌, ◌≢◌, refuse,
}
use onrol_infra.Account.Token.{Jwt, Manager, Claims, parse}
use onrol_infra.Account.Devices.{
  User, Device, revoked, is_active_of, active_count, within_scope, require_user_in_scope,
  admin_reset_user_devices,
}
use onrol_infra.Account.Gates.{Locals, bearer_token, is_device_of, has_ended, require_auth, bearer}

within-ok :
    (scope : Reply (Unit {0})) (r : Reply ℕ × List Device) (ds : List Device) (n : ℕ)
    → (within_scope scope r ds).0 ≡ ok n
    → within_scope scope r ds ≡ r
within-ok (ok t) r ds n e = refl
within-ok (fail x) r ds n e = cc

reset-count :
    (role target : Str) (scope : Option Bool) (up : Bool) (n : ℕ) (ds : List Device)
    → (admin_reset_user_devices role scope up target ds).0 ≡ ok n
    → active_count target (admin_reset_user_devices role scope up target ds).1 ≡ 0
unfolding admin_reset_user_devices
reset-count role target scope true n ds e =
    rw (within-ok (require_user_in_scope role scope) _ ds n e) (
      omega (
        arith,
        count-update_off (is_active_of target) (is_active_of target) revoked ds (λ d. ground arith)
            (λ d h. h),
      ))
reset-count role target scope false n ds e = absurd (
    ground
      (arith, within-ok (require_user_in_scope role scope) (refuse 500 "reset failed", ds) ds n e))

module _ (jwt : Jwt) where
  -- A request that passes carries the header of its token's device, and that device of that user is
  -- active in the table and is found first; the role is the user's in the users table, and the
  -- user's access has not ended.
  pub require_auth_sound :
      (m : Manager) (up : Bool) (now : ℕ) (authorization header : Str) (users : List User)
      (devices : List Device) (loc : Locals)
      → require_auth jwt m up now authorization header users devices ≡ ok loc
      → (tok : Str) × (c : Claims) × (d : Device) × (u : User) × (strip authorization bearer
          ≡ some tok)
        × (parse jwt m now tok ≡ some c)
        × (header ≡ loc.device_id)
        × (find (is_device_of c) devices ≡ some d)
        × (d.user_id ≡ loc.user_id)
        × (d.device_id ≡ loc.device_id)
        × (d.is_active ≡ true)
        × (u.id ≡ loc.user_id)
        × (u.role ≡ loc.role)
        × (has_ended now u.access_expires_at ≡ false)
  unfolding require_auth bearer_token
  require_auth_sound m up now authorization header users devices loc e =
      elim (Option-cases (strip authorization bearer)) [
        | inl miss ↦ absurd (ground (arith, miss))
        | inr (tok, et) ↦ elim (Option-cases (parse jwt m now tok)) [
          | inl miss ↦ absurd (ground (arith, et, miss))
          | inr (c, ec) ↦ elim (Option-cases (find (is_device_of c) devices)) [
            | inl miss ↦ absurd (ground (arith, et, ec, miss))
            | inr (d, ed) ↦ elim (Option-cases (find (λ u. beq u.id d.user_id) users)) [
              | inl miss ↦ absurd (ground (arith, et, ec, ed, miss))
              | inr (u, eu) ↦
                  let mine = find-holds (is_device_of c) devices d ed in
                  let owner = find-holds (λ (v : User). beq v.id d.user_id) users u eu in
                  let facts : (header ≡ loc.device_id)
                      × (c.user_id ≡ loc.user_id)
                      × (c.device_id ≡ loc.device_id)
                      × (d.is_active ≡ true)
                      × (u.role ≡ loc.role)
                      × (has_ended now u.access_expires_at ≡ false) =
                    ground (arith, et, ec, ed, eu, beq_iff header c.device_id) in
                  let ids : (d.user_id ≡ c.user_id)
                      × (d.device_id ≡ c.device_id)
                      × (u.id ≡ d.user_id) =
                    ground (
                      arith,
                      mine,
                      owner,
                      beq_iff d.user_id c.user_id,
                      beq_iff d.device_id c.device_id,
                      beq_iff u.id d.user_id,
                    ) in
                  (
                    tok,
                    c,
                    d,
                    u,
                    et,
                    ec,
                    facts.0,
                    ed,
                    ids.0 ∙ facts.1,
                    ids.1 ∙ facts.2,
                    facts.3,
                    ids.2 ∙ ids.0 ∙ facts.1,
                    facts.4,
                    facts.5,
                  )
            ]
          ]
        ]
      ]

  -- Once an administrator has reset a user's devices, no token of that user passes RequireAuth
  -- against the table that the reset left, whatever device it names.
  pub reset_locks_out :
      (m : Manager) (up up' : Bool) (now n : ℕ) (authorization header role target : Str)
      (scope : Option Bool) (users : List User) (devices : List Device) (loc : Locals)
      → (admin_reset_user_devices role scope up' target devices).0 ≡ ok n
      → require_auth jwt m up now authorization header users
          (admin_reset_user_devices role scope up' target devices).1
        ≡ ok loc
      → loc.user_id ≢ target
  reset_locks_out m up up' now n authorization header role target scope users devices loc r e same =
      let after = (admin_reset_user_devices role scope up' target devices).1 in
      let (tok, c, d, u, et, ec, h, found, own, dev, active, uid, ro, open_) =
        require_auth_sound m up now authorization header users after loc e in
      let none_left = reset-count role target scope up' n devices r in
      let here =
        find-count (is_device_of c) (is_active_of target) after d found
          (ground (arith, own, active, same, beq_iff d.user_id target)) in
      omega (arith, none_left, here)
