-- ===== src/Live/Presence/Credit.antt =====
-- Watch time over a history of heartbeats, reactions, sweeps and flushes (live_cache.go).
use onrol_infra.Base.{
  ℕ, ◌+◌, ◌-◌, ◌≤◌, ◌≡◌, refl, sym, subst, min, Bool, true, false, ◌&&◌, Option, none, some, [],
  if◌then◌else◌, arith, leb, Str, beq, beq_iff, beq_refl, bind_at, lookup,
}
use onrol_infra.Live.Presence.{
  ViewerRec, Presence, Row, Table, Attendance, viewer, stored, touch_presence, bump_reaction,
  sweep_leaves, sweep_viewer, flush_viewer, flush_presence, flush_attendance, max_beat_gap,
}
use onrol_infra.Live.Presence.Slots.{
  WellKeyed, touched, reacted, viewer-touch, viewer-react, viewer-sweep, viewer-flush,
}
use onrol_infra.Live.Presence.Keys.{
  touch-WellKeyed, react-WellKeyed, sweep-WellKeyed, flush-WellKeyed,
}
use onrol_infra.Live.Presence.Flush.{saved_slot, stored-flush}

pub data Op : Type 0 where
  heartbeat : Str → Str → Op
  react : Str → Str → Op
  sweep : Str → Op
  flush : Str → Op

unfoldable pub step : (Row → Bool) → ℕ → Op → Presence × Table → Presence × Table
unfolding touch_presence bump_reaction sweep_leaves flush_attendance
step saved now (heartbeat s u) (p, t) = (touch_presence now s u p, t)
step saved now (react s u) (p, t) = (bump_reaction now s u p, t)
step saved now (sweep s) (p, t) = (sweep_leaves now s p, t)
step saved now (flush only) (p, t) = flush_attendance saved now only (p, t)

abbrev pub empty_room : Presence × Table
empty_room = (record { presence = []; live_events = [] }, [])

-- The states that a clock which does not run backwards can reach, with any writes failing.
pub data Reach : ℕ → Presence × Table → Type 0 where
  boot : (now : ℕ) → Reach now empty_room
  next :
      {now : ℕ} {st : Presence × Table} (saved : Row → Bool) (later : ℕ) (op : Op)
      → now ≤ later
      → Reach now st
      → Reach later (step saved later op st)

-- Watch time is at most the span from the first contact to the last, in the table alone and
-- together with what memory holds.
abbrev pub IsStored : ℕ → Option Attendance → Type 0
IsStored now none = Unit
IsStored now (some a) = (a.first_seen + a.watched_seconds ≤ a.last_seen) × (a.last_seen ≤ now)

abbrev pub IsHeld : ℕ → ViewerRec → Option Attendance → Type 0
IsHeld now r none = r.first_seen + r.watched ≤ r.last_seen
IsHeld now r (some a) =
    (min a.first_seen r.first_seen + (a.watched_seconds + r.watched) ≤ r.last_seen)
    × (a.last_seen ≤ r.last_seen)
    × (r.first_seen ≤ r.last_seen)

abbrev pub IsClean : ViewerRec → Type 0
IsClean r = r.dirty ≡ false → (r.watched ≡ 0) × (r.reactions ≡ 0)

abbrev pub SlotInv : ℕ → Option ViewerRec → Option Attendance → Type 0
SlotInv now none a = IsStored now a
SlotInv now (some r) a = IsStored now a × IsHeld now r a × IsClean r × (r.last_seen ≤ now)

SlotInv-wait :
    (now later : ℕ) (v : Option ViewerRec) (a : Option Attendance)
    → now ≤ later
    → SlotInv now v a
    → SlotInv later v a
SlotInv-wait now later none none h i = ground arith
SlotInv-wait now later none (some a) h i = ground arith
SlotInv-wait now later (some r) none h i = ground arith
SlotInv-wait now later (some r) (some a) h i = ground arith

touched-SlotInv :
    (now : ℕ) (v : Option ViewerRec) (a : Option Attendance)
    → SlotInv now v a
    → SlotInv now (some (touched now v)) a
touched-SlotInv now none none i = ground arith
touched-SlotInv now none (some a) i = ground arith
touched-SlotInv now (some r) none i = ground arith
touched-SlotInv now (some r) (some a) i = ground arith

reacted-SlotInv :
    (now : ℕ) (v : Option ViewerRec) (a : Option Attendance)
    → SlotInv now v a
    → SlotInv now (some (reacted now v)) a
reacted-SlotInv now none none i = ground arith
reacted-SlotInv now none (some a) i = ground arith
reacted-SlotInv now (some r) none i = ground arith
reacted-SlotInv now (some r) (some a) i = ground arith

swept-SlotInv :
    (now : ℕ) (u : Str) (v : Option ViewerRec) (a : Option Attendance)
    → SlotInv now v a
    → SlotInv now (bind_at (sweep_viewer now) u v) a
swept-SlotInv now u none a i = i
swept-SlotInv now u (some r) none i = ground arith
swept-SlotInv now u (some r) (some a) i = ground arith

flushed-SlotInv :
    (saved : Row → Bool) (now : ℕ) (s u : Str) (v : Option ViewerRec) (a : Option Attendance)
    → SlotInv now v a
    → SlotInv now (bind_at (flush_viewer now) u v) (saved_slot saved s u v a)
flushed-SlotInv saved now s u none a i = i
flushed-SlotInv saved now s u (some r) none i = ground arith
flushed-SlotInv saved now s u (some r) (some a) i = ground arith

pub record StateInv (now : ℕ) (st : Presence × Table) : Type 0 where
  pub keyed : WellKeyed st.0
  pub slots : (s u : Str) → SlotInv now (viewer st.0 s u) (stored st.1 s u)

flush-state :
    (saved : Row → Bool) (now : ℕ) (only : Str) (p : Presence) (t : Table)
    → (flush_attendance saved now only (p, t)).0 ≡ flush_presence now only p
unfolding flush_attendance
flush-state saved now only p t = refl

step-StateInv :
    (saved : Row → Bool) (now : ℕ) (op : Op) (st : Presence × Table)
    → StateInv now st
    → StateInv now (step saved now op st)
unfolding step
step-StateInv saved now (heartbeat s u) (p, t) i = record {
  keyed = touch-WellKeyed now s u p i.keyed;
  slots = λ s' u'. ground (
    arith,
    viewer-touch now s u s' u' p,
    beq_iff s s',
    beq_iff u u',
    i.slots s' u',
    touched-SlotInv now (viewer p s' u') (stored t s' u') (i.slots s' u'),
  );
}
step-StateInv saved now (react s u) (p, t) i = record {
  keyed = react-WellKeyed now s u p i.keyed;
  slots = λ s' u'. ground (
    arith,
    viewer-react now s u s' u' p,
    beq_iff s s',
    beq_iff u u',
    i.slots s' u',
    reacted-SlotInv now (viewer p s' u') (stored t s' u') (i.slots s' u'),
  );
}
step-StateInv saved now (sweep s) (p, t) i = record {
  keyed = sweep-WellKeyed now s p i.keyed;
  slots = λ s' u'. ground (
    arith,
    viewer-sweep now s s' u' p i.keyed,
    beq_iff s s',
    i.slots s' u',
    swept-SlotInv now u' (viewer p s' u') (stored t s' u') (i.slots s' u'),
  );
}
step-StateInv saved now (flush only) (p, t) i = record {
  keyed =
      subst WellKeyed (sym (flush-state saved now only p t)) (flush-WellKeyed now only p i.keyed);
  slots = λ s u. ground (
    arith,
    flush-state saved now only p t,
    viewer-flush now only s u p i.keyed,
    stored-flush saved now only s u p t i.keyed,
    i.slots s u,
    flushed-SlotInv saved now s u (viewer p s u) (stored t s u) (i.slots s u),
  );
}

StateInv-wait :
    (now later : ℕ) (st : Presence × Table) → now ≤ later → StateInv now st → StateInv later st
StateInv-wait now later st h i = record {
  keyed = i.keyed;
  slots = λ s u. SlotInv-wait now later (viewer st.0 s u) (stored st.1 s u) h (i.slots s u);
}

empty_room-StateInv : (now : ℕ) → StateInv now empty_room
unfolding lookup
empty_room-StateInv now = record { keyed = record { outer = tt; inner = tt }; slots = λ s u. tt }

pub Reach-StateInv : {now : ℕ} {st : Presence × Table} → Reach now st → StateInv now st
Reach-StateInv (boot now) = empty_room-StateInv now
Reach-StateInv (next {now = n} {st = st} saved later op h r) =
    step-StateInv saved later op st (StateInv-wait n later st h (Reach-StateInv r))

span_of :
    (now : ℕ) (v : Option ViewerRec) (o : Option Attendance) (a : Attendance)
    → SlotInv now v o
    → o ≡ some a
    → a.first_seen + a.watched_seconds ≤ a.last_seen
span_of now none none a i e = cc
span_of now none (some b) a i e = ground arith
span_of now (some r) none a i e = cc
span_of now (some r) (some b) a i e = ground arith

-- Whatever the viewers do and whichever writes fail, while the clock does not run backwards, a row
-- of live_attendance never shows more watched seconds than lie between its first_seen and its
-- last_seen.
pub attendance_within_span :
    (s u : Str) (a : Attendance) {now : ℕ} {st : Presence × Table}
    → Reach now st
    → stored st.1 s u ≡ some a
    → a.first_seen + a.watched_seconds ≤ a.last_seen
attendance_within_span s u a {now} {st} r e =
    span_of now (viewer st.0 s u) (stored st.1 s u) a ((Reach-StateInv r).slots s u) e

-- The seconds and reactions that memory and table hold together for a viewer.
abbrev pub seconds : Option ViewerRec → Option Attendance → ℕ
seconds v a =
    elim v [ none ↦ 0 | some r ↦ r.watched ] + elim a [ none ↦ 0 | some b ↦ b.watched_seconds ]

abbrev pub reactions : Option ViewerRec → Option Attendance → ℕ
reactions v a =
    elim v [ none ↦ 0 | some r ↦ r.reactions ] + elim a [ none ↦ 0 | some b ↦ b.reactions_sent ]

flushed-seconds :
    (now : ℕ) (s u : Str) (v : Option ViewerRec) (a : Option Attendance)
    → SlotInv now v a
    → (seconds (bind_at (flush_viewer now) u v) (saved_slot (λ _. true) s u v a) ≡ seconds v a)
      × (reactions (bind_at (flush_viewer now) u v) (saved_slot (λ _. true) s u v a)
          ≡ reactions v a)
flushed-seconds now s u none a i = (refl, refl)
flushed-seconds now s u (some r) none i = (ground arith, ground arith)
flushed-seconds now s u (some r) (some a) i = (ground arith, ground arith)

-- In every state that the room can reach, a flush whose writes all succeed keeps each viewer's
-- total of watched seconds and of reactions, over memory and table together.
pub flush_keeps_totals :
    (only s u : Str) {now : ℕ} {st : Presence × Table}
    → Reach now st
    → let after = flush_attendance (λ _. true) now only st in
      (seconds (viewer after.0 s u) (stored after.1 s u)
        ≡ seconds (viewer st.0 s u) (stored st.1 s u))
      × (reactions (viewer after.0 s u) (stored after.1 s u)
          ≡ reactions (viewer st.0 s u) (stored st.1 s u))
flush_keeps_totals only s u {now} {st = (p, t)} r =
    let i = Reach-StateInv r in
    let kept = flushed-seconds now s u (viewer p s u) (stored t s u) (i.slots s u) in
    let here = viewer-flush now only s u p i.keyed in
    let there = stored-flush (λ _. true) now only s u p t i.keyed in
    (
      ground (arith, flush-state (λ _. true) now only p t, here, there, kept.0),
      ground (arith, flush-state (λ _. true) now only p t, here, there, kept.1),
    )

-- A heartbeat adds the gap since the last contact to the viewer's total if the gap is at most 40
-- seconds, and nothing otherwise; the record of every other viewer stays as it was.
pub heartbeat_credit :
    (now : ℕ) (s u s' u' : Str) (p : Presence) (a : Option Attendance) (r : ViewerRec)
    → viewer p s u ≡ some r
    → let q = touch_presence now s u p in
      (seconds (viewer q s u) a
        ≡ seconds (some r) a
          + (if leb (now - r.last_seen) max_beat_gap then now - r.last_seen else 0))
      × (viewer q s' u' ≡ (if beq s s' && beq u u' then viewer q s u else viewer p s' u'))
heartbeat_credit now s u s' u' p a r e =
    let here = viewer-touch now s u s u p in
    let there = viewer-touch now s u s' u' p in
    (
      ground (arith, e, here, beq_refl s, beq_refl u),
      ground (arith, e, here, there, beq_refl s, beq_refl u),
    )
