-- ===== src/Tests/Room.antt =====
-- Runs of presence, the feed, attendance and reactions (live_cache.go).
use onrol_infra.Base.{
  Reply, ◌+◌, ◌≤◌, ◌≡◌, refl, arith, Bool, true, [], ◌∷◌, Str, codes, beq, lookup, insert,
  update_all,
}
use onrol_infra.Live.Presence.{
  sweep_events, presence_users, Presence, Row, Table, viewer, stored, touch_presence, sweep_leaves,
  flush_attendance, flush_rows, rows_of, flush_presence, save_rows, upsert, set_viewer,
  add_live_event, live_feed, presence_users,
}
use onrol_infra.Live.Presence.Credit.{
  heartbeat, flush, step, empty_room, Reach, boot, next, seconds, reactions, attendance_within_span,
  flush_keeps_totals,
}
use onrol_infra.Live.Reactions.{Accum, is_known, add_reaction, snapshot_reactions, prune_reactions}
use onrol_infra.Live.Reactions.Seq.{seq_restarts}
use onrol_infra.Live.Access.{live_access}
use onrol_infra.Live.Listeners.{Listeners, live_listeners}
use onrol_infra.Live.Listeners.Heard.{IsHeard, live_listeners-IsHeard}
use onrol_infra.Tests.{boss, fair, db1, s1, asha_id}

abbrev all_saved : Row → Bool
all_saved row = true

abbrev st1 : Presence × Table
st1 = step all_saved 100 (heartbeat s1 asha_id) empty_room

abbrev st2 : Presence × Table
st2 = step all_saved 130 (heartbeat s1 asha_id) st1

abbrev st3 : Presence × Table
st3 = step all_saved 140 (flush []) st2

Reach-st2 : Reach 130 st2
Reach-st2 =
    next all_saved 130 (heartbeat s1 asha_id) (omega arith)
      (next all_saved 100 (heartbeat s1 asha_id) (omega arith) (boot 100))

Reach-st3 : Reach 140 st3
Reach-st3 = next all_saved 140 (flush []) (omega arith) Reach-st2

attendance_within_span_example : 100 + 30 ≤ 130
unfolding step touch_presence flush_attendance flush_rows rows_of flush_presence save_rows upsert
    set_viewer add_live_event lookup insert update_all beq
attendance_within_span_example =
    attendance_within_span s1 asha_id
      (record { first_seen = 100; last_seen = 130; watched_seconds = 30; reactions_sent = 0 })
      Reach-st3 refl

flush_keeps_totals_example :
    (seconds
        (viewer (flush_attendance (λ _. true) 130 [] st2).0 s1 asha_id)
        (stored (flush_attendance (λ _. true) 130 [] st2).1 s1 asha_id)
      ≡ 30)
    × (reactions
          (viewer (flush_attendance (λ _. true) 130 [] st2).0 s1 asha_id)
          (stored (flush_attendance (λ _. true) 130 [] st2).1 s1 asha_id)
        ≡ 0)
unfolding step touch_presence set_viewer add_live_event lookup insert beq
flush_keeps_totals_example = flush_keeps_totals [] s1 asha_id Reach-st2

abbrev thumb : Str
thumb = 0xf0 ∷ 0x9f ∷ 0x91 ∷ 0x8d ∷ []

abbrev tapped : Accum
tapped = (s1, record { counts = (thumb, 2) ∷ []; seq = 6 }) ∷ []

abbrev idle : Accum
idle = (s1, record { counts = []; seq = 1 }) ∷ []

seq_restarts_example :
    (snapshot_reactions s1 (add_reaction s1 thumb (prune_reactions idle)).1).1 ≡ 1
unfolding is_known lookup beq
seq_restarts_example =
    seq_restarts s1 thumb idle (record { counts = []; seq = 1 }) (refl, tt) refl refl refl

abbrev heard_by_boss : Reply Listeners × Presence
heard_by_boss = live_listeners boss fair 140 true s1 db1 st2.0

abbrev asha_alone : Listeners
asha_alone = record {
  listeners = record { id = asha_id; name = codes "Asha" } ∷ [];
  n = 1;
  feed = record { name = codes "Asha"; join = true; at = 100 } ∷ [];
}

live_listeners-IsHeard_example : IsHeard boss fair 140 s1 db1 st2.0 heard_by_boss.1 asha_alone
unfolding live_listeners live_access sweep_leaves sweep_events presence_users live_feed step
    touch_presence set_viewer add_live_event lookup insert update_all beq
live_listeners-IsHeard_example =
    live_listeners-IsHeard boss fair 140 true s1 db1 st2.0 heard_by_boss.1 asha_alone refl
