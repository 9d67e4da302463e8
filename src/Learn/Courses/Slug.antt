-- ===== src/Learn/Courses/Slug.antt =====
-- What slugify makes of a text (lms_courses.go).
use onrol_infra.Base.{
  ℕ, ◌≡◌, refl, sym, arith, Bool, true, false, not, ◌&&◌, ◌||◌, [], ◌∷◌, leb, ◌==◌, if◌then◌else◌,
  any, map, Str, is_empty, trim_space, is_edge, trim_space-bare, any-weaken, is_edge-printed,
  Bool-cases, ◌⊎◌, inl, inr, subst,
}
use onrol_infra.Account.SignIn.{Outside, to_lower, lower_byte}
use onrol_infra.Learn.Courses.{
  is_slug_byte, slug_from, drop_dashes, unless_dash, drop_end_dashes, slugify,
}

-- Letters, digits and dashes, no dash after another; `d` tells whether a dash stands before.
abbrev pub alternates : Bool → Str → Bool
alternates d [] = true
alternates d (b ∷ s) =
    if is_slug_byte b then alternates false s else b == b'-' && not d && alternates true s

-- The same, with no dash at the end.
abbrev pub runs : Bool → Str → Bool
runs d [] = not d
runs d (b ∷ s) = if is_slug_byte b then runs false s else b == b'-' && not d && runs true s

-- Small letters and digits in groups with single dashes between them.
abbrev pub is_slug : Str → Bool
is_slug s = is_empty s || runs true s

slug_from-alternates : (d : Bool) (s : Str) → alternates d (slug_from d s) ≡ true
unfolding slug_from
slug_from-alternates d [] = refl
slug_from-alternates d (b ∷ s) =
    ground (arith, slug_from-alternates true s, slug_from-alternates false s)

drop_dashes-alternates :
    (d : Bool) (s : Str) → alternates d s ≡ true → alternates true (drop_dashes s) ≡ true
unfolding drop_dashes
drop_dashes-alternates d [] h = refl
drop_dashes-alternates d (b ∷ s) h = ground (arith, drop_dashes-alternates true s)

unless_dash-runs :
    (d : Bool) (b : ℕ) (r : Str)
    → (is_slug_byte b ≡ true → is_empty r || runs false r ≡ true)
    → (is_slug_byte b ≡ false
        → (b == b'-' ≡ true) × (d ≡ false) × (is_empty r || runs true r ≡ true))
    → is_empty (unless_dash b r) || runs d (unless_dash b r) ≡ true
unless_dash-runs d b [] f g = elim (Bool-cases (is_slug_byte b)) [
  | inl e ↦ ground arith
  | inr e ↦ let t = g e in rw t.0 refl
]
unless_dash-runs d b (x ∷ r) f g = elim (Bool-cases (is_slug_byte b)) [
  | inl e ↦ rw e (f e)
  | inr e ↦ let t = g e in rw (e, t.0, t.1) t.2
]

drop_end-runs :
    (d : Bool) (s : Str)
    → alternates d s ≡ true
    → is_empty (drop_end_dashes s) || runs d (drop_end_dashes s) ≡ true
unfolding drop_end_dashes
drop_end-runs d [] h = refl
drop_end-runs d (b ∷ s) h =
    unless_dash-runs d b (drop_end_dashes s) (λ e. drop_end-runs false s (ground arith))
      (λ e. (ground arith, ground arith, drop_end-runs true s (ground arith)))

slugify-is_slug : (out : Outside) (s : Str) → is_slug (slugify out s) ≡ true
unfolding slugify
slugify-is_slug out s =
    let t = to_lower out (trim_space s) in
    drop_end-runs true (drop_dashes (slug_from false t))
      (drop_dashes-alternates false (slug_from false t) (slug_from-alternates false t))

-- A byte that no slug has.
abbrev is_foreign : ℕ → Bool
is_foreign b = not (is_slug_byte b) && not (b == b'-')

runs-foreign : (d : Bool) (s : Str) → runs d s ≡ true → any is_foreign s ≡ false
runs-foreign d [] h = refl
runs-foreign d (b ∷ s) h = ground (arith, runs-foreign true s, runs-foreign false s)

foreign-edge : (b : ℕ) → is_foreign b ≡ false → is_edge b ≡ false
foreign-edge b h = is_edge-printed b (ground arith) (ground arith)

lower-foreign : (s : Str) → any is_foreign s ≡ false → map lower_byte s ≡ s
lower-foreign [] h = refl
lower-foreign (b ∷ s) h = ground (arith, lower-foreign s)

runs-weaken : (s : Str) → runs true s ≡ true → runs false s ≡ true
runs-weaken [] h = refl
runs-weaken (b ∷ s) h = ground arith

slug_from-runs : (d : Bool) (s : Str) → runs d s ≡ true → slug_from d s ≡ s
unfolding slug_from
slug_from-runs d [] h = refl
slug_from-runs d (b ∷ s) h = ground (arith, slug_from-runs true s, slug_from-runs false s)

drop_dashes-runs : (s : Str) → runs true s ≡ true → drop_dashes s ≡ s
unfolding drop_dashes
drop_dashes-runs [] h = refl
drop_dashes-runs (b ∷ s) h = ground arith

unless_dash-kept :
    (b : ℕ) (s : Str) → is_slug_byte b || not (is_empty s) ≡ true → unless_dash b s ≡ b ∷ s
unless_dash-kept b [] h = ground arith
unless_dash-kept b (x ∷ s) h = refl

runs-full : (s : Str) → runs true s ≡ true → is_empty s ≡ false
runs-full [] h = absurd (cc)
runs-full (b ∷ s) h = refl

drop_end-kept : (d : Bool) (s : Str) → runs d s ≡ true → drop_end_dashes s ≡ s
unfolding drop_end_dashes
drop_end-kept d [] h = refl
drop_end-kept d (b ∷ s) h =
    ground (arith, drop_end-kept true s, drop_end-kept false s, unless_dash-kept b s, runs-full s)

is_slug-runs : (s : Str) → is_slug s ≡ true → (s ≡ []) ⊎ (runs true s ≡ true)
is_slug-runs [] h = inl refl
is_slug-runs (b ∷ s) h = inr h

to_lower-foreign : (out : Outside) (s : Str) → any is_foreign s ≡ false → to_lower out s ≡ s
to_lower-foreign out s h =
    rw (any-weaken is_foreign (λ b. leb 128 b) s (λ b n. ground arith) h) (lower-foreign s h)

slugify-runs : (out : Outside) (s : Str) → runs true s ≡ true → slugify out s ≡ s
unfolding slugify
slugify-runs out s h =
    let clean = runs-foreign true s h in
    rw
      (
        trim_space-bare s (any-weaken is_foreign is_edge s foreign-edge clean),
        to_lower-foreign out s clean,
        slug_from-runs false s (runs-weaken s h),
        drop_dashes-runs s h,
      )
      (drop_end-kept true s h)

-- slugify makes of any text small letters and digits in groups with single dashes between them, or
-- nothing; and it leaves a text of that form as it is.
pub slugify-slug :
    (out : Outside) (s : Str)
    → (is_slug (slugify out s) ≡ true) × (is_slug s ≡ true → slugify out s ≡ s)
unfolding slugify
slugify-slug out s = (
  slugify-is_slug out s,
  λ h. elim (is_slug-runs s h) [
    | inl e ↦ subst (λ t. slugify out t ≡ t) (sym e) refl
    | inr e ↦ slugify-runs out s e
  ],
)
