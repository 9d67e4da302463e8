-- ===== src/Account/Devices/History.antt =====
-- The device limit over a history of requests (auth.go and devices.go).
use onrol_infra.Base.{
  ℕ, ◌≤◌, ◌<◌, ◌≡◌, refl, max, Bool, true, false, Option, none, some, List, [], ◌∷◌, if◌then◌else◌,
  Str, beq, update_where, count-update_same, count-update_down, Bool-cases, inl, inr, arith, Reply,
  ok, fail, cut, trim_space,
}
use onrol_infra.Account.Devices.{
  Device, Login, BindStmt, is_active_of, active_count, is_row, hard_cap, bind_device, after_bind,
  revoked, is_active_row, revoke_device, rename_device, admin_reset_user_devices, within_scope,
  require_user_in_scope,
}
use onrol_infra.Account.Devices.Cap.{IsKeyed, update-IsKeyed, bind-IsCapped, bind-IsKeyed}

-- The requests that write to the table.
pub data Request : Type 0 where
  sign_in : (BindStmt → Bool) → Login → Request
  revoke : Bool → Str → Str → Request
  rename : (Str → Bool) → Str → Str → Option Str → Request
  reset : Str → Option Bool → Bool → Str → Request

unfoldable pub serve : Request → List Device → List Device
unfolding bind_device revoke_device rename_device admin_reset_user_devices
serve (sign_in up l) ds = after_bind ds (bind_device up l ds)
serve (revoke up user_id id) ds = (revoke_device up user_id id ds).1
serve (rename up user_id id name) ds = (rename_device up user_id id name ds).1
serve (reset role scope up target) ds = (admin_reset_user_devices role scope up target ds).1

unfoldable pub serve_all : List Request → List Device → List Device
unfolding serve
serve_all [] ds = ds
serve_all (r ∷ rs) ds = serve_all rs (serve r ds)

-- The user's sign-ins carry a max_devices below 99.
abbrev pub IsLimited : Str → List Request → Type 0
IsLimited uid [] = Unit
IsLimited uid (sign_in up l ∷ rs) =
    (beq l.user.id uid ≡ true → l.user.max_devices < 99) × IsLimited uid rs
IsLimited uid (revoke up user_id id ∷ rs) = IsLimited uid rs
IsLimited uid (rename up user_id id name ∷ rs) = IsLimited uid rs
IsLimited uid (reset role scope up target ∷ rs) = IsLimited uid rs

abbrev Kept : Str → List Device → List Device → Type 0
Kept uid ds after = (active_count uid after ≤ max hard_cap (active_count uid ds)) × IsKeyed after

revoked-Kept :
    (uid : Str) (p : Device → Bool) (ds : List Device)
    → IsKeyed ds
    → Kept uid ds (update_where p revoked ds)
revoked-Kept uid p ds k = (
  omega (arith, count-update_down (is_active_of uid) p revoked ds (λ d h. ground arith)),
  update-IsKeyed p revoked ds (λ d. refl) k,
)

same-Kept : (uid : Str) (ds : List Device) → IsKeyed ds → Kept uid ds ds
same-Kept uid ds k = (omega arith, k)

if-Kept :
    (uid : Str) (b : Bool) (ds xs ys : List Device)
    → Kept uid ds xs
    → Kept uid ds ys
    → Kept uid ds (if b then xs else ys)
if-Kept uid true ds xs ys h k = h
if-Kept uid false ds xs ys h k = k

revoke-Kept :
    (uid : Str) (up : Bool) (user_id id : Str) (ds : List Device)
    → IsKeyed ds
    → Kept uid ds (revoke_device up user_id id ds).1
unfolding revoke_device
revoke-Kept uid true user_id id ds k = revoked-Kept uid (is_active_row id user_id) ds k
revoke-Kept uid false user_id id ds k = same-Kept uid ds k

rename-Kept :
    (uid : Str) (up : Str → Bool) (user_id id : Str) (raw : Option Str) (ds : List Device)
    → IsKeyed ds
    → Kept uid ds (rename_device up user_id id raw ds).1
unfolding rename_device
rename-Kept uid up user_id id none ds k = same-Kept uid ds k
rename-Kept uid up user_id id (some raw) ds k =
    let name = cut 60 (trim_space raw) in
    elim (Bool-cases (up name)) [
      | inl e ↦ rw e (
        omega (
          arith,
          count-update_same (is_active_of uid) (is_row id user_id) (λ d. record d { name = name })
              ds (λ d h. refl),
        ),
        update-IsKeyed (is_row id user_id) (λ d. record d { name = name }) ds (λ d. refl) k,
      )
      | inr e ↦ rw e (same-Kept uid ds k)
    ]

within-Kept :
    (uid : Str) (scope : Reply (Unit {0})) (r : Reply ℕ × List Device) (ds : List Device)
    → IsKeyed ds
    → Kept uid ds r.1
    → Kept uid ds (within_scope scope r ds).1
within-Kept uid (ok t) r ds k h = h
within-Kept uid (fail e) r ds k h = same-Kept uid ds k

reset-Kept :
    (uid role : Str) (scope : Option Bool) (up : Bool) (target : Str) (ds : List Device)
    → IsKeyed ds
    → Kept uid ds (admin_reset_user_devices role scope up target ds).1
unfolding admin_reset_user_devices
reset-Kept uid role scope true target ds k =
    within-Kept uid (require_user_in_scope role scope) _ ds k
      (revoked-Kept uid (is_active_of target) ds k)
reset-Kept uid role scope false target ds k =
    within-Kept uid (require_user_in_scope role scope) _ ds k (same-Kept uid ds k)

Kept-trans : (uid : Str) (xs ys zs : List Device) → Kept uid xs ys → Kept uid ys zs → Kept uid xs zs
Kept-trans uid xs ys zs h k = (omega arith, k.1)

serve_all-Kept :
    (uid : Str) (rs : List Request) (ds : List Device)
    → IsLimited uid rs
    → IsKeyed ds
    → Kept uid ds (serve_all rs ds)
unfolding serve_all serve
serve_all-Kept uid [] ds h k = same-Kept uid ds k
serve_all-Kept uid (sign_in up l ∷ rs) ds h k =
    let one = bind_device up l ds in
    let keyed = bind-IsKeyed up l ds k in
    Kept-trans uid ds (after_bind ds one) _ (bind-IsCapped uid up l ds k h.0, keyed)
      (serve_all-Kept uid rs (after_bind ds one) h.1 keyed)
serve_all-Kept uid (revoke up user_id id ∷ rs) ds h k =
    let one = revoke-Kept uid up user_id id ds k in
    Kept-trans uid ds (revoke_device up user_id id ds).1 _ one
      (serve_all-Kept uid rs (revoke_device up user_id id ds).1 h one.1)
serve_all-Kept uid (rename up user_id id name ∷ rs) ds h k =
    let one = rename-Kept uid up user_id id name ds k in
    Kept-trans uid ds (rename_device up user_id id name ds).1 _ one
      (serve_all-Kept uid rs (rename_device up user_id id name ds).1 h one.1)
serve_all-Kept uid (reset role scope up target ∷ rs) ds h k =
    let one = reset-Kept uid role scope up target ds k in
    Kept-trans uid ds (admin_reset_user_devices role scope up target ds).1 _ one
      (serve_all-Kept uid rs (admin_reset_user_devices role scope up target ds).1 h one.1)

-- In a table with unique ids, over any history of sign-ins, revocations, renamings and resets, by
-- anybody and with any statements failing, a user whose sign-ins carry a max_devices below 99 never
-- comes to more than two active devices, or than the user had at the start.
pub device_limit_holds :
    (uid : Str) (rs : List Request) (ds : List Device)
    → IsLimited uid rs
    → IsKeyed ds
    → active_count uid (serve_all rs ds) ≤ max hard_cap (active_count uid ds)
device_limit_holds uid rs ds h k = (serve_all-Kept uid rs ds h k).0
