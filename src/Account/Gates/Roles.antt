-- ===== src/Account/Gates/Roles.antt =====
-- The role gates and the attestation decision of middleware.
use onrol_infra.Base.{
  ◌≤◌, ◌≡◌, refl, Bool, true, false, ◌||◌, List, any, if◌then◌else◌, Str, codes, beq, ok, status_of,
  arith,
}
use onrol_infra.Account.Gates.{
  role_rank, require_role, require_any_role, AttestationResult, AttestationMode, attestation_off,
  attestation_log, attestation_enforce, attestation_other, stub_verify, attestation_decision,
}

-- A role that passes a gate passes every gate whose role ranks no higher.
pub require_role_mono :
    (min lower role : Str)
    → role_rank lower ≤ role_rank min
    → require_role min role ≡ ok tt
    → require_role lower role ≡ ok tt
unfolding require_role
require_role_mono min lower role h e = ground (arith)

abbrev is_admin : Str → Bool
is_admin role = beq role (codes "manager") || beq role (codes "superadmin")

-- The gate of a portal admits exactly the portal's own roles and the two admin roles.
pub require_any_role_exact :
    (roles : List Str) (role : Str)
    → status_of (require_any_role roles role)
      ≡ (if is_admin role || any (beq role) roles then 200 else 403)
unfolding require_any_role
require_any_role_exact roles role = ground arith

-- With the stub attestor no device is ever marked as verified, and enforcing mode admits nobody.
pub stub_never_marks :
    (mode : AttestationMode) (token : Str)
    → ((attestation_decision mode (stub_verify token)).1 ≡ false)
      × ((attestation_decision attestation_enforce (stub_verify token)).0 ≡ false)
unfolding attestation_decision stub_verify
stub_never_marks attestation_off token = (refl, refl)
stub_never_marks _ token = (refl, refl)

-- Whatever the attestor says, a device is marked only if it was verified and is admitted; a mode
-- that is none of the three admits nobody.
pub attestation_sound :
    (mode : AttestationMode) (res : AttestationResult)
    → (attestation_decision mode res).1 ≡ true
    → (res.verified ≡ true) × ((attestation_decision mode res).0 ≡ true)
unfolding attestation_decision
attestation_sound attestation_off res h = absurd (cc)
attestation_sound attestation_log res h = ground arith
attestation_sound attestation_enforce res h = ground arith
attestation_sound (attestation_other m) res h = absurd (cc)
