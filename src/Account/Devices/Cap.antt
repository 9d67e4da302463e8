-- ===== src/Account/Devices/Cap.antt =====
-- The device limit of auth.go over a history of sign-ins, revocations, renamings and resets.
use onrol_infra.Base.{
  ◌≤◌, ◌<◌, ◌≡◌, refl, max, Bool, true, false, Option, none, some, List, [], ◌∷◌, ◌++◌, ltb, count,
  count-append, count-any, count_mono, find, Str, beq, beq_iff, update_where, count-update_same,
  count-update-le, Bool-cases, inl, inr, arith,
}
use onrol_infra.Account.Devices.{
  Device, Login, BindStmt, Bound, is_active_of, active_count, is_row, is_binding, seen, new_device,
  committed, has_id, admit, check_cap, hard_cap, decide_bind, bind_device, after_bind,
}

abbrev pub with_id : Str → Device → Bool
with_id i d = beq d.id i

-- The primary key of devices.
abbrev pub IsKeyed : List Device → Type 0
IsKeyed ds = (i : Str) → count (with_id i) ds ≤ 1

rows-le-one : (id user_id : Str) (ds : List Device) → IsKeyed ds → count (is_row id user_id) ds ≤ 1
rows-le-one id user_id ds k =
    omega (arith, k id, count_mono (is_row id user_id) (with_id id) ds (λ d h. ground arith))

pub update-IsKeyed :
    (p : Device → Bool) (f : Device → Device) (ds : List Device)
    → ((d : Device) → (f d).id ≡ d.id)
    → IsKeyed ds
    → IsKeyed (update_where p f ds)
update-IsKeyed p f ds same k i =
    rw (count-update_same (with_id i) p f ds (λ d h. rw (same d))) (k i)

append-IsKeyed :
    (d : Device) (ds : List Device) → has_id d.id ds ≡ false → IsKeyed ds → IsKeyed (ds ++ d ∷ [])
append-IsKeyed d ds h k i =
    ground
      (arith, k i, count-append (with_id i) ds (d ∷ []), count-any (with_id i) ds, beq_iff d.id i)

-- What a sign-in leaves: at most one more active device of its own user, below the cap.
module _ (uid : Str) (up : BindStmt → Bool) (l : Login) (ds : List Device) (k : IsKeyed ds) where
  abbrev pub IsCapped : Bound → Type 0
  IsCapped b = active_count uid (after_bind ds b) ≤ max hard_cap (active_count uid ds)

  reactivated :
      (d : Device)
      → (beq l.user.id uid ≡ true → active_count uid ds < hard_cap)
      → IsCapped (admit up l (some d) ds)
  unfolding admit
  reactivated d room = elim (Bool-cases (beq l.user.id uid)) [
    | inl e ↦ ground (
      arith,
      room e,
      count-update-le (is_active_of uid) (is_row d.id l.user.id) (seen l true) ds,
      rows-le-one d.id l.user.id ds k,
    )
    | inr e ↦ ground (
      arith,
      count-update_same (is_active_of uid) (is_row d.id l.user.id) (seen l true) ds
          (λ x h. ground (arith, e, beq_iff x.user_id l.user.id)),
    )
  ]

  inserted :
      (beq l.user.id uid ≡ true → active_count uid ds < hard_cap) → IsCapped (admit up l none ds)
  unfolding admit
  inserted room = ground (arith, room, count-append (is_active_of uid) ds (new_device l ∷ []))

  admitted :
      (found : Option Device)
      → (beq l.user.id uid ≡ true → active_count uid ds < hard_cap)
      → IsCapped (admit up l found ds)
  admitted none room = inserted room
  admitted (some d) room = reactivated d room

  capped :
      (found : Option Device)
      → (beq l.user.id uid ≡ true → l.user.max_devices < 99)
      → IsCapped (check_cap up l found ds)
  unfolding check_cap
  capped found limited = elim (Bool-cases (ltb (active_count l.user.id ds) hard_cap)) [
    | inl low ↦ ground (
      arith,
      low,
      beq_iff l.user.id uid,
      admitted found (λ e. ground (arith, low, beq_iff l.user.id uid)),
    )
    | inr full ↦ elim (Bool-cases (beq l.user.id uid)) [
      | inl e ↦ ground (arith, limited e, full)
      | inr e ↦ ground (arith, full, admitted found (λ (h : beq l.user.id uid ≡ true). cc))
    ]
  ]

  refreshed :
      (d : Device)
      → IsCapped (committed up d.id false (update_where (is_row d.id l.user.id) (seen l false) ds))
  refreshed d = ground (
    arith,
    count-update_same (is_active_of uid) (is_row d.id l.user.id) (seen l false) ds
        (λ x h. ground arith),
  )

  decided :
      (found : Option Device)
      → (beq l.user.id uid ≡ true → l.user.max_devices < 99)
      → IsCapped (decide_bind up l found ds)
  decided none limited = capped none limited
  decided (some d) limited = ground (arith, refreshed d, capped (some d) limited)

  pub bind-IsCapped :
      (beq l.user.id uid ≡ true → l.user.max_devices < 99) → IsCapped (bind_device up l ds)
  unfolding bind_device
  bind-IsCapped limited = ground (arith, decided (find (is_binding l) ds) limited)

-- A bind keeps the primary key.
module _ (up : BindStmt → Bool) (l : Login) (ds : List Device) (k : IsKeyed ds) where
  seen-IsKeyed :
      (activate : Bool) (d : Device)
      → IsKeyed (update_where (is_row d.id l.user.id) (seen l activate) ds)
  seen-IsKeyed activate d =
      update-IsKeyed (is_row d.id l.user.id) (seen l activate) ds (λ x. refl) k

  admit-IsKeyed : (found : Option Device) → IsKeyed (after_bind ds (admit up l found ds))
  unfolding admit
  admit-IsKeyed (some d) i = ground (arith, k i, seen-IsKeyed true d i)
  admit-IsKeyed none i = elim (Bool-cases (has_id l.new_id ds)) [
    | inl e ↦ ground (arith, k i, e)
    | inr e ↦ ground (arith, k i, e, append-IsKeyed (new_device l) ds e k i)
  ]

  decide-IsKeyed : (found : Option Device) → IsKeyed (after_bind ds (decide_bind up l found ds))
  unfolding check_cap
  decide-IsKeyed none i = ground (arith, k i, admit-IsKeyed none i)
  decide-IsKeyed (some d) i = ground (arith, k i, admit-IsKeyed (some d) i, seen-IsKeyed false d i)

  pub bind-IsKeyed : IsKeyed (after_bind ds (bind_device up l ds))
  unfolding bind_device
  bind-IsKeyed i = ground (arith, k i, decide-IsKeyed (find (is_binding l) ds) i)
