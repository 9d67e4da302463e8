-- ===== src/Account/Devices.antt =====
-- backend/internal/handlers/auth.go (bindDevice, listActiveDevices) and devices.go.
-- `up` tells which statements of a handler the database carries out. A handler of devices.go gives
-- the table after it beside its answer.
pub mod Cap
pub mod Binding
pub mod History
use onrol_infra.Base.{
  ℕ, ◌≡◌, Bool, true, false, ◌&&◌, ◌||◌, Option, none, some, List, [], ◌∷◌, ◌++◌, ltb, leb, ◌==◌,
  if◌then◌else◌, is_some, count, select, find, any, Str, beq, update_where, sort_by, Reply, ok,
  fail, refuse, trim_space, cut, codes,
}

-- The columns of users that the handlers here read (models.User and the columns of the lookups).
pub record User : Type 0 where
  pub id : Str
  pub email : Option Str
  pub username : Option Str
  pub login_id : Option Str
  pub phone : Option Str
  pub full_name : Str
  pub role : Str
  pub password_hash : Str
  pub max_devices : ℕ
  pub is_active : Bool
  pub access_expires_at : Option ℕ
  pub batch : Option Str

pub record Device : Type 0 where
  pub id : Str
  pub user_id : Str
  pub device_id : Str
  pub platform : Str
  pub model : Str
  pub name : Str
  pub attestation_verified : Bool
  pub is_active : Bool
  pub first_seen : ℕ
  pub last_seen : ℕ

abbrev pub is_active_of : Str → Device → Bool
is_active_of user_id d = beq d.user_id user_id && d.is_active

abbrev pub active_count : Str → List Device → ℕ
active_count user_id = count (is_active_of user_id)

-- The error of the query is the Boolean.
unfoldable pub list_active_devices : Bool → Str → List Device → Option (List Device)
unfolding beq sort_by
list_active_devices up user_id ds =
    if up then some (sort_by (λ d. d.first_seen) (select (is_active_of user_id) ds)) else none

pub data BindStmt : Type 0 where
  begin lock_user select_device refresh count_active list_active reactivate insert_device commit :
      BindStmt

pub data BindError : Type 0 where
  device_limit : List Device → BindError
  db_error : BindError

pub data Bound : Type 0 where
  bound : Str → Bool → List Device → Bound
  unbound : BindError → Bound

pub record Login : Type 0 where
  pub user : User
  pub device_id : Str
  pub platform : Str
  pub model : Str
  pub mark_verified : Bool
  pub now : ℕ
  pub new_id : Str

abbrev pub is_row : Str → Str → Device → Bool
is_row id user_id d = beq d.id id && beq d.user_id user_id

abbrev pub is_binding : Login → Device → Bool
is_binding l d = beq d.user_id l.user.id && beq d.device_id l.device_id

-- SET last_seen, platform, model, attestation_verified, and is_active where it is given.
abbrev pub seen : Login → Bool → Device → Device
seen l activate d = record d {
  is_active = activate || d.is_active;
  last_seen = l.now;
  platform = l.platform;
  model = l.model;
  attestation_verified = d.attestation_verified || l.mark_verified;
}

abbrev pub new_device : Login → Device
new_device l = record {
  id = l.new_id;
  user_id = l.user.id;
  device_id = l.device_id;
  platform = l.platform;
  model = l.model;
  name = [];
  attestation_verified = l.mark_verified;
  is_active = true;
  first_seen = l.now;
  last_seen = l.now;
}

-- tx.Commit: an error rolls the transaction back.
abbrev pub committed : (BindStmt → Bool) → Str → Bool → List Device → Bound
committed up id is_new ds = if up commit then bound id is_new ds else unbound db_error

abbrev pub has_id : Str → List Device → Bool
has_id id = any λ d. beq d.id id

-- The bind behind the cap check. The primary key refuses an id that is in use.
unfoldable pub admit : (BindStmt → Bool) → Login → Option Device → List Device → Bound
unfolding beq update_where
admit up l (some d) ds =
    if up reactivate
    then committed up d.id true (update_where (is_row d.id l.user.id) (seen l true) ds)
    else unbound db_error
admit up l none ds =
    if up insert_device && (if has_id l.new_id ds then false else true)
    then committed up l.new_id true (ds ++ new_device l ∷ [])
    else unbound db_error

abbrev pub hard_cap : ℕ
hard_cap = 2

abbrev pub or_empty : Option (List Device) → List Device
or_empty none = []
or_empty (some ds) = ds

unfoldable pub check_cap : (BindStmt → Bool) → Login → Option Device → List Device → Bound
unfolding admit list_active_devices beq
check_cap up l found ds =
    if ltb l.user.max_devices 99
    then (if up count_active
        then (if leb hard_cap (active_count l.user.id ds)
            then unbound
                (device_limit (or_empty (list_active_devices (up list_active) l.user.id ds)))
            else admit up l found ds)
        else unbound db_error)
    else admit up l found ds

abbrev pub decide_bind : (BindStmt → Bool) → Login → Option Device → List Device → Bound
decide_bind up l none ds = check_cap up l none ds
decide_bind up l (some d) ds =
    if d.is_active
    then (if up refresh
        then committed up d.id false (update_where (is_row d.id l.user.id) (seen l false) ds)
        else unbound db_error)
    else check_cap up l (some d) ds

unfoldable pub bind_device : (BindStmt → Bool) → Login → List Device → Bound
unfolding check_cap update_where beq
bind_device up l ds =
    if up begin && up lock_user && up select_device
    then decide_bind up l (find (is_binding l) ds) ds
    else unbound db_error

-- What the transaction leaves in the table.
abbrev pub after_bind : List Device → Bound → List Device
after_bind ds (bound id is_new ds') = ds'
after_bind ds (unbound e) = ds

abbrev pub revoked : Device → Device
revoked d = record d { is_active = false }

abbrev pub is_active_row : Str → Str → Device → Bool
is_active_row id user_id d = is_row id user_id d && d.is_active

-- RevokeDevice, and AdminRevokeUserDevice behind its scope check: one UPDATE for both.
unfoldable pub revoke_device : Bool → Str → Str → List Device → Reply Str × List Device
unfolding beq update_where
revoke_device up user_id id ds =
    if up
    then (
      if count (is_active_row id user_id) ds == 0 then refuse 404 "device not found" else ok id,
      update_where (is_active_row id user_id) revoked ds,
    )
    else (refuse 500 "revoke failed", ds)

-- RenameDevice. `name` is the parsed body, none if it does not parse; `up` is asked about the name
-- that is stored, which the database refuses if the cut has split a character.
unfoldable pub rename_device :
    (Str → Bool) → Str → Str → Option Str → List Device → Reply (Str × Str) × List Device
unfolding beq update_where trim_space
rename_device up user_id id none ds = (refuse 400 "invalid body", ds)
rename_device up user_id id (some raw) ds =
    let name = cut 60 (trim_space raw) in
    if up name
    then (
      if count (is_row id user_id) ds == 0 then refuse 404 "device not found" else ok (id, name),
      update_where (is_row id user_id) (λ d. record d { name = name }) ds,
    )
    else (refuse 500 "rename failed", ds)

-- requireUserInScope (lms_users.go). `scope` is the answer of the scope query, none if it fails.
unfoldable pub require_user_in_scope : Str → Option Bool → Reply (Unit {0})
unfolding beq
require_user_in_scope role scope =
    if beq role (codes "superadmin") || beq role (codes "manager")
    then ok tt
    else (if beq role (codes "manager")
        then elim scope [
          | none ↦ refuse 500 "scope check failed"
          | some false ↦ refuse 403 "user is outside your managed scope"
          | some true ↦ ok tt
        ]
        else refuse 403 "requires manager role")

abbrev pub within_scope {ℓ} :
    {A : Type ℓ} → Reply (Unit {0}) → Reply A × List Device → List Device → Reply A × List Device
within_scope (ok _) r ds = r
within_scope (fail e) r ds = (fail e, ds)

unfoldable pub admin_list_user_devices :
    Str → Option Bool → Bool → Str → List Device → Reply (List Device) × List Device
unfolding require_user_in_scope list_active_devices
admin_list_user_devices role scope up target ds =
    within_scope (require_user_in_scope role scope)
      (elim (list_active_devices up target ds) [
        | none ↦ (refuse 500 "list failed", ds)
        | some l ↦ (ok l, ds)
      ])
      ds

unfoldable pub admin_revoke_user_device :
    Str → Option Bool → Bool → Str → Str → List Device → Reply Str × List Device
unfolding require_user_in_scope revoke_device
admin_revoke_user_device role scope up target id ds =
    within_scope (require_user_in_scope role scope) (revoke_device up target id ds) ds

unfoldable pub admin_reset_user_devices :
    Str → Option Bool → Bool → Str → List Device → Reply ℕ × List Device
unfolding require_user_in_scope beq update_where
admin_reset_user_devices role scope up target ds =
    within_scope (require_user_in_scope role scope)
      (if up
        then (ok (active_count target ds), update_where (is_active_of target) revoked ds)
        else (refuse 500 "reset failed", ds))
      ds

pub record DeviceList : Type 0 where
  pub devices : List Device
  pub current_device_id : Str
  pub max_devices : ℕ

-- ListDevices. `max_dev` is what the lookup of users.max_devices scans, 0 if it fails.
unfoldable pub list_devices : Bool → Str → Str → ℕ → List Device → Reply DeviceList
unfolding list_active_devices
list_devices up user_id current max_dev ds = elim (list_active_devices up user_id ds) [
  | none ↦ refuse 500 "list failed"
  | some l ↦ ok (record {
    devices = l;
    current_device_id = current;
    max_devices = if leb 99 max_dev then 0 else 2;
  })
]
