-- ===== src/Live/Control/Writes.antt =====
-- How often the UPDATE of LiveControl (live_session.go) writes a column, field by field of the body.
use onrol_infra.Base.{
  ℕ, ◌+◌, ◌≡◌, Bool, false, not, ◌&&◌, Option, none, some, List, [], ◌∷◌, ◌++◌, count-append,
  is_some, if◌then◌else◌, arith, Str, cut, ◌==◌,
}
use onrol_infra.Live.Control.{
  ControlReq, Assign, column, clock_sets, room_sets, writes, when, given, switch_target,
  paused_sets, present_sets, slideshow_sets, bumps_reload, start_at_now, clear_paused, clear_ended,
  ended_now, bump_reload, start_sought, clamp_seek, ℤ, set_asset, set_blank, set_muted, set_banner,
  set_chat, set_qa, set_reactions,
}

abbrev pub is_pause : Option Bool → Bool
is_pause none = false
is_pause (some b) = b

abbrev pub is_resume : Option Bool → Bool
is_resume none = false
is_resume (some b) = not b

abbrev pub one : Bool → ℕ
one b = if b then 1 else 0

pub writes-append : (c : ℕ) (xs ys : List Assign) → writes c (xs ++ ys) ≡ writes c xs + writes c ys
unfolding writes
writes-append c xs ys = count-append (λ a. column a == c) xs ys

-- How often one field of the body writes a column.
module _ (c : ℕ) where
  starts :
      (b : Bool)
      → writes c (when b (start_at_now ∷ clear_paused ∷ clear_ended ∷ []))
        ≡ one (0 == c && b) + (one (1 == c && b) + one (2 == c && b))
  unfolding writes
  starts b = ground arith

  seeks :
      (o : Option ℤ)
      → writes c (given (λ t. start_sought (clamp_seek t) ∷ clear_ended ∷ []) o)
        ≡ one (0 == c && is_some o) + one (2 == c && is_some o)
  unfolding writes
  seeks none = ground arith
  seeks (some t) = ground arith

  ends :
      (b : Bool)
      → writes c (when b (ended_now ∷ clear_paused ∷ [])) ≡ one (2 == c && b) + one (1 == c && b)
  unfolding writes
  ends b = ground arith

  switches :
      (o : Option Str)
      → writes c (
          given
            (λ a. set_asset a ∷ start_at_now ∷ clear_paused ∷ clear_ended ∷ set_blank false ∷ [])
            o)
        ≡ one (3 == c && is_some o)
          + (one (0 == c && is_some o)
              + (one (1 == c && is_some o)
                  + (one (2 == c && is_some o) + one (4 == c && is_some o))))
  unfolding writes
  switches none = ground arith
  switches (some a) = ground arith

  pauses :
      (start : Bool) (o : Option Bool)
      → writes c (if start then [] else given paused_sets o)
        ≡ one (0 == c && (not start && is_resume o)) + one (1 == c && (not start && is_some o))
  unfolding writes
  pauses start none = ground arith
  pauses start (some b) = ground arith

  pub clock :
      (r : ControlReq)
      → writes c (clock_sets r)
        ≡ one (0 == c && r.start_now)
          + (one (1 == c && r.start_now) + one (2 == c && r.start_now))
          + (one (0 == c && is_some r.seek_to)
              + one (2 == c && is_some r.seek_to)
              + (one (2 == c && r.end_now)
                  + one (1 == c && r.end_now)
                  + (one (3 == c && is_some (switch_target r.switch_to))
                      + (one (0 == c && is_some (switch_target r.switch_to))
                          + (one (1 == c && is_some (switch_target r.switch_to))
                              + (one (2 == c && is_some (switch_target r.switch_to))
                                  + one (4 == c && is_some (switch_target r.switch_to)))))
                      + (one (0 == c && (not r.start_now && is_resume r.paused))
                          + one (1 == c && (not r.start_now && is_some r.paused))))))
  unfolding clock_sets
  clock r = simp (
    writes-append c,
    starts r.start_now,
    seeks r.seek_to,
    ends r.end_now,
    switches (switch_target r.switch_to),
    pauses r.start_now r.paused,
  )

  field {ℓ} :
      {A : Type ℓ} (f : A → List Assign) (k : ℕ) (o : Option A)
      → ((a : A) → writes c (f a) ≡ one (k == c))
      → writes c (given f o) ≡ one (k == c && is_some o)
  unfolding writes
  field f k none h = ground arith
  field f k (some a) h = ground (arith, h a)

  shown : (o : Option Str) → writes c (given present_sets o) ≡ one (10 == c && is_some o)
  unfolding writes
  shown none = ground arith
  shown (some s) = ground arith

  shows :
      (o : Option Bool)
      → writes c (given slideshow_sets o) ≡ one (11 == c && is_some o) + one (10 == c && is_pause o)
  unfolding writes
  shows none = ground arith
  shows (some b) = ground arith

  reloads : (b : Bool) → writes c (when b (bump_reload ∷ [])) ≡ one (12 == c && b)
  unfolding writes
  reloads b = ground arith

  pub room :
      (r : ControlReq)
      → writes c (room_sets r)
        ≡ one (4 == c && is_some r.blank)
          + (one (5 == c && is_some r.muted)
              + (one (6 == c && is_some r.banner)
                  + (one (7 == c && is_some r.chat)
                      + (one (8 == c && is_some r.qa)
                          + (one (9 == c && is_some r.reactions)
                              + (one (10 == c && is_some r.present)
                                  + (one (11 == c && is_some r.slideshow)
                                      + one (10 == c && is_pause r.slideshow)
                                      + one (12 == c && bumps_reload r))))))))
  unfolding room_sets writes
  room r = simp (
    writes-append c,
    field (λ b. set_blank b ∷ []) 4 r.blank (λ b. ground arith),
    field (λ b. set_muted b ∷ []) 5 r.muted (λ b. ground arith),
    field (λ b. set_banner (cut 300 b) ∷ []) 6 r.banner (λ b. ground arith),
    field (λ b. set_chat b ∷ []) 7 r.chat (λ b. ground arith),
    field (λ b. set_qa b ∷ []) 8 r.qa (λ b. ground arith),
    field (λ b. set_reactions b ∷ []) 9 r.reactions (λ b. ground arith),
    shown r.present,
    shows r.slideshow,
    reloads (bumps_reload r),
  )
