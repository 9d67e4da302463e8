-- ===== src/Account/Devices/Binding.antt =====
-- The device that bindDevice (auth.go) leaves.
use onrol_infra.Base.{
  ◌≡◌, refl, ap, subst, Bool, true, false, ◌||◌, none, some, Option, List, [], ◌∷◌, ◌++◌, find, Str,
  beq_refl, arith, Bool-cases, inl, inr, update_where,
}
use onrol_infra.Account.Token.{}
use onrol_infra.Account.Devices.{
  Device, Login, BindStmt, bound, is_binding, is_row, seen, new_device, committed, admit, check_cap,
  decide_bind, bind_device,
}
use onrol_infra.Account.SignIn.{}

-- The device that a sign-in binds is found, and found active.
abbrev pub Binds : Login → List Device → Type 0
Binds l ds = (d : Device) × (find (is_binding l) ds ≡ some d) × (d.is_active ≡ true)

update-Binds :
    (l : Login) (activate : Bool) (ds : List Device) (d : Device)
    → find (is_binding l) ds ≡ some d
    → activate || d.is_active ≡ true
    → Binds l (update_where (is_row d.id l.user.id) (seen l activate) ds)
unfolding update_where
update-Binds l activate [] d h k = absurd (cc)
update-Binds l activate (e ∷ ds) d h k = elim (Bool-cases (is_binding l e)) [
  | inl b ↦
      let same : e ≡ d = ground arith in
      let mine : is_row d.id l.user.id d ≡ true =
        ground (arith, b, beq_refl d.id, ap (λ f. f.user_id) same) in
      let own : is_binding l d ≡ true = subst (λ f. is_binding l f ≡ true) same b in
      (seen l activate d, rw (same, mine, own) refl, k)
  | inr b ↦
      let (f, found, active) = update-Binds l activate ds d (rw b at h) k in
      elim (Bool-cases (is_row d.id l.user.id e)) [
        | inl r ↦ (f, rw (r, b) found, active)
        | inr r ↦ (f, rw (r, b) found, active)
      ]
]

append-Binds :
    (l : Login) (ds : List Device)
    → find (is_binding l) ds ≡ none
    → Binds l (ds ++ new_device l ∷ [])
append-Binds l [] h = (new_device l, rw (beq_refl l.user.id, beq_refl l.device_id) refl, refl)
append-Binds l (d ∷ ds) h = elim (Bool-cases (is_binding l d)) [
  | inl e ↦ absurd (ground arith)
  | inr e ↦ let (b, f, a) = append-Binds l ds (rw e at h) in (b, rw e f, a)
]

committed-Binds :
    (up : BindStmt → Bool) (l : Login) (id row : Str) (is_new new : Bool) (ds ds' : List Device)
    → Binds l ds
    → committed up id is_new ds ≡ bound row new ds'
    → Binds l ds'
committed-Binds up l id row is_new new ds ds' b h = subst (Binds l) (ground arith) b

admit-Binds :
    (up : BindStmt → Bool) (l : Login) (o : Option Device) (row : Str) (new : Bool)
    (ds ds' : List Device)
    → find (is_binding l) ds ≡ o
    → admit up l o ds ≡ bound row new ds'
    → Binds l ds'
unfolding admit
admit-Binds up l (some d) row new ds ds' f h = ground (
  arith,
  committed-Binds up l d.id row true new (update_where (is_row d.id l.user.id) (seen l true) ds) ds'
      (update-Binds l true ds d f refl),
)
admit-Binds up l none row new ds ds' f h = ground (
  arith,
  committed-Binds up l l.new_id row true new (ds ++ new_device l ∷ []) ds' (append-Binds l ds f),
)

cap-Binds :
    (up : BindStmt → Bool) (l : Login) (o : Option Device) (row : Str) (new : Bool)
    (ds ds' : List Device)
    → find (is_binding l) ds ≡ o
    → check_cap up l o ds ≡ bound row new ds'
    → Binds l ds'
unfolding check_cap
cap-Binds up l o row new ds ds' f h = ground (arith, admit-Binds up l o row new ds ds' f)

pub bind-Binds :
    (up : BindStmt → Bool) (l : Login) (row : Str) (new : Bool) (ds ds' : List Device)
    → bind_device up l ds ≡ bound row new ds'
    → Binds l ds'
unfolding bind_device
bind-Binds up l row new ds ds' h = go (find (is_binding l) ds) refl (ground arith)
  where
    go :
        (o : Option Device)
        → find (is_binding l) ds ≡ o
        → decide_bind up l o ds ≡ bound row new ds'
        → Binds l ds'
    go none f h = cap-Binds up l none row new ds ds' f h
    go (some d) f h = elim (Bool-cases d.is_active) [
      | inl a ↦ ground (
        arith,
        a,
        committed-Binds up l d.id row false new
            (update_where (is_row d.id l.user.id) (seen l false) ds) ds'
            (update-Binds l false ds d f a),
      )
      | inr a ↦ cap-Binds up l (some d) row new ds ds' f (rw a at h)
    ]
