-- ===== src/Learn/Streak/Runs.antt =====
-- The loop of MyStreak ends, and counts the days in a row (lms_leaderboard.go).
use onrol_infra.Base.{
  ℕ, zero, suc, ◌+◌, ◌-◌, ◌≤◌, ◌<◌, ◌≡◌, refl, ap, ◌∙◌, subst, arith, Bool, true, false, Option,
  some, List, [], ◌∷◌, ◌++◌, leb, if◌then◌else◌, any, count, count-le-length, select, length, map,
  Str, beq, beq_refl, Reply, ok, Bool-cases, inl, inr,
}
use onrol_infra.Learn.Streak.{
  Checkin, Zones, StreakStmt, insert_checkin, read_checkins, StreakReply, today_of, is_checkin,
  check_in, days_of, is_done, count_back, streak_of, my_streak,
}

-- The days up to one.
abbrev pub days_to : ℕ → List ℕ → ℕ
days_to day = count (λ d. leb d day)

days_to-step :
    (day : ℕ) (days : List ℕ)
    → 0 < day
    → days_to (day - 1) days + (if is_done days day then 1 else 0) ≤ days_to day days
days_to-step day [] h = omega arith
days_to-step day (d ∷ days) h = ground (arith, days_to-step day days h)

done_pos : (day : ℕ) (days : List ℕ) → is_done days 0 ≡ false → is_done days day ≡ true → 0 < day
done_pos day [] z h = absurd (cc)
done_pos day (d ∷ days) z h = ground (arith, done_pos day days)

days_to-pos : (day : ℕ) (days : List ℕ) → is_done days day ≡ true → 0 < days_to day days
days_to-pos day [] h = absurd (cc)
days_to-pos day (d ∷ days) h = ground (arith, days_to-pos day days)

-- The `n` days that end with `day` are done, and the one before them is not.
pub record IsRun (days : List ℕ) (day n : ℕ) : Type 0 where
  pub all_done : (k : ℕ) → k < n → is_done days (day - k) ≡ true
  pub ends : is_done days (day - n) ≡ false
  pub bounded : n ≤ length days

record Counted (f : ℕ) (days : List ℕ) (day streak : ℕ) : Type 0 where
  n : ℕ
  result : count_back f days day streak ≡ some (streak + n)
  all_done : (k : ℕ) → k < n → is_done days (day - k) ≡ true
  ends : is_done days (day - n) ≡ false
  small : n ≤ days_to day days

shifted :
    (days : List ℕ) (day n : ℕ)
    → is_done days day ≡ true
    → ((k : ℕ) → k < n → is_done days (day - 1 - k) ≡ true)
    → (k : ℕ) → k < suc n
    → is_done days (day - k) ≡ true
shifted days day n now before zero h = subst (λ (d : ℕ). is_done days d ≡ true) (omega arith) now
shifted days day n now before (suc k) h =
    subst (λ (d : ℕ). is_done days d ≡ true) (omega arith) (before k (omega arith))

count_back-Counted :
    (f : ℕ) (days : List ℕ) (day streak : ℕ)
    → is_done days 0 ≡ false
    → days_to day days < f
    → Counted f days day streak
unfolding count_back
count_back-Counted zero days day streak z h = elim h [ ]
count_back-Counted (suc f) days day streak z h = elim (Bool-cases (is_done days day)) [
  | inl e ↦
      let pos : 0 < day = done_pos day days z e in
      let step = days_to-step day days pos in
      let c = count_back-Counted f days (day - 1) (streak + 1) z (ground arith) in
      record {
        n = suc c.n;
        result = rw e (c.result ∙ ap some (omega arith));
        all_done = shifted days day c.n e c.all_done;
        ends = subst (λ (d : ℕ). is_done days d ≡ false) (omega arith) c.ends;
        small = ground (arith, c.small);
      }
  | inr e ↦ record {
    n = 0;
    result = rw e (ap some (omega arith));
    all_done = λ k k_lt. absurd (omega arith);
    ends = subst (λ (d : ℕ). is_done days d ≡ false) (omega arith) e;
    small = omega arith;
  }
]

abbrev pub start_of : List ℕ → ℕ → ℕ
start_of days today = if is_done days today then today else today - 1

streak_of_lem :
    (days : List ℕ) (today : ℕ)
    → is_done days 0 ≡ false
    → (n : ℕ) × (streak_of days today
        ≡ some (record { streak = n; today_done = is_done days today }))
      × IsRun days (start_of days today) n
unfolding streak_of
streak_of_lem days today z =
    let start = start_of days today in
    let le = count-le-length (λ (d : ℕ). leb d start) days in
    let c = count_back-Counted (suc (length days)) days start 0 z (omega (arith, le)) in
    (
      c.n,
      rw c.result (
          ap (λ (n : ℕ). some (record { streak = n; today_done = is_done days today }))
            (omega arith)),
      record { all_done = c.all_done; ends = c.ends; bounded = omega (arith, le, c.small) },
    )

done-check_in :
    (user : Str) (today : ℕ) (rows : List Checkin)
    → is_done (days_of user (check_in true user today rows)) today ≡ true
unfolding check_in days_of
done-check_in user today rows = elim (Bool-cases (any (is_checkin user today) rows)) [
  | inl e ↦ rw e (old rows e)
  | inr e ↦ rw e (new rows)
]
  where
    old :
        (rs : List Checkin)
        → any (is_checkin user today) rs ≡ true
        → is_done (map (λ r. r.day) (select (λ r. beq r.user_id user) rs)) today ≡ true
    old [] h = absurd (cc)
    old (r ∷ rs) h = ground (arith, old rs)

    new :
        (rs : List Checkin)
        → is_done
            (map
              (λ r. r.day)
              (select
                (λ r. beq r.user_id user)
                (rs ++ record { user_id = user; day = today } ∷ [])))
            today
          ≡ true
    new [] = rw (beq_refl user) (ground arith)
    new (r ∷ rs) = ground (arith, new rs)

zero-check_in :
    (up : Bool) (user : Str) (today : ℕ) (rows : List Checkin)
    → 0 < today
    → is_done (days_of user rows) 0 ≡ false
    → is_done (days_of user (check_in up user today rows)) 0 ≡ false
unfolding check_in days_of
zero-check_in up user today rows pos h = ground (arith, new rows)
  where
    new :
        (rs : List Checkin)
        → is_done (map (λ r. r.day) (select (λ r. beq r.user_id user) rs)) 0 ≡ false
        → is_done
            (map
              (λ r. r.day)
              (select
                (λ r. beq r.user_id user)
                (rs ++ record { user_id = user; day = today } ∷ [])))
            0
          ≡ false
    new [] k = ground arith
    new (r ∷ rs) k = ground (arith, new rs)

-- What MyStreak answers.
pub record IsStreak (up : StreakStmt → Bool) (today : ℕ) (days : List ℕ)
    (a : Reply (Option StreakReply)) : Type 0 where
  pub reply : StreakReply
  pub is_reply : a ≡ ok (some reply)
  pub tells_today : reply.today_done ≡ is_done days today
  pub run : IsRun days (start_of days today) reply.streak
  pub checked_in : up insert_checkin ≡ true → is_done days today ≡ true

-- Where no check-in of the user names the day before the calendar begins, today is a later one, and
-- the query for the check-ins does not fail: the loop of MyStreak ends within one round more than the
-- user has check-ins. Its answer is the number of days in a row on which the user checked in, up to
-- today, or to yesterday where today is not on record; today is on record unless the insertion failed.
pub my_streak-IsStreak :
    (up : StreakStmt → Bool) (z : Zones) (user : Str) (pref : Option Str) (now : ℕ)
    (rows : List Checkin)
    → is_done (days_of user rows) 0 ≡ false
    → 0 < today_of up z pref now
    → up read_checkins ≡ true
    → let (answer, rows') = my_streak up z user pref now rows in
      IsStreak up (today_of up z pref now) (days_of user rows') answer
unfolding my_streak
my_streak-IsStreak up z user pref now rows none_zero pos u =
    let today = today_of up z pref now in
    let days = days_of user (check_in (up insert_checkin) user today rows) in
    let (n, is_reply, run) =
      streak_of_lem days today (zero-check_in (up insert_checkin) user today rows pos none_zero) in
    rw u (record {
      reply = record { streak = n; today_done = is_done days today };
      is_reply = ap ok is_reply;
      tells_today = refl;
      run = run;
      checked_in = λ e. rw e (done-check_in user today rows);
    })
