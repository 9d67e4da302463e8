-- ===== src/Tests/Talk.antt =====
-- Runs of the chat, the questions and the attendance report (live_session.go).
use onrol_infra.Base.{
  ℕ, ◌≡◌, refl, Bool, true, false, not, ◌&&◌, Option, none, some, [], ◌∷◌, Str, codes, beq, count,
  Reply, ok, trim_space, sort_by, lookup, insert, update_all,
}
use onrol_infra.Live.Tables.{ChatMessage, Question, Db, can_manage_course, is_host}
use onrol_infra.Live.Access.{live_access, enrolled_in, live_staff}
use onrol_infra.Live.Presence.{
  Presence, Table, flush_attendance, flush_rows, rows_of, flush_presence, save_rows, upsert,
}
use onrol_infra.Live.Chat.{
  Insert, parse_live_body, live_chat_post, live_chat_list, live_chat_delete, live_answer_question,
}
use onrol_infra.Live.Chat.Privacy.{is_foreign, chat_private}
use onrol_infra.Live.Chat.Posts.{Posted, chat_post_sound}
use onrol_infra.Live.Report.{
  partial, ReportReads, Report, live_attendance, check_report, mark_of, percent, count_marks,
  total_watch, average, roster_from,
}
use onrol_infra.Live.Report.Counts.{AddsUp, report-AddsUp}
use onrol_infra.Tests.{s1, asha_id, asha, db1, boss, student, fair, message_row}

abbrev no_instant : Str → Option ℕ
no_instant s = none

abbrev own_message : ChatMessage
own_message = record message_row { id = codes "m2"; user_id = asha_id }

abbrev db2 : Db
db2 = record db1 { chat = message_row ∷ own_message ∷ [] }

chat_private_example : count (is_foreign s1 asha_id) (own_message ∷ []) ≡ 0
unfolding live_access enrolled_in live_staff can_manage_course live_chat_list beq sort_by trim_space
chat_private_example =
    chat_private no_instant student fair true s1 [] db2 true true (own_message ∷ []) refl refl

abbrev row_in : Insert
row_in = record { up = true; new_id = codes "m3"; now = 170_000_000 }

abbrev posted_message : ChatMessage
posted_message = record message_row {
  id = codes "m3";
  user_id = asha_id;
  display_name = codes "Asha";
  created_at = 170_000_000;
}

abbrev posted : Reply ChatMessage × Db
posted = live_chat_post student fair row_in s1 (some (codes " hello ")) db1

chat_post_sound_example : Posted student fair s1 db1 posted.1 posted_message
unfolding live_chat_post parse_live_body live_access enrolled_in live_staff can_manage_course beq
    trim_space
chat_post_sound_example =
    chat_post_sound student fair row_in s1 (some (codes " hello ")) db1 posted.1 posted_message refl

abbrev removed : Reply (Unit {0}) × Db
removed = live_chat_delete boss fair true s1 (codes "m1") db2

abbrev is_own_message : ChatMessage → Bool
is_own_message m = not (beq m.id (codes "m1")) && beq m.user_id asha_id

abbrev answered_by_boss : Reply Str × Db
answered_by_boss =
    live_answer_question boss fair true 180_000_000 s1 (codes "q1") (some (codes "because")) db1

abbrev any_question : Question → Bool
any_question q = true

abbrev reads : ReportReads
reads = record { saved = λ row. true; context_up = true; rows_up = true }

abbrev watching : Presence
watching = record {
  presence =
      (
        s1,
        (
          asha_id,
          record {
            first_seen = 1_000;
            last_seen = 1_030;
            watched = 30;
            reactions = 2;
            dirty = true;
            left = false;
          },
        )
            ∷ [],
      )
      ∷ [];
  live_events = [];
}

abbrev no_rows : Table
no_rows = []

abbrev reported : Reply Report × Presence × Table
reported = live_attendance boss fair reads 0 1_040 s1 db1 (watching, no_rows)

abbrev report_of_asha : Report
report_of_asha = record {
  attendance =
      record {
        user = asha;
        watched_seconds = 30;
        watched_pct = 0;
        reactions = 2;
        questions = 1;
        mark = partial;
        seen = some (record {
          first_seen = 1_000;
          last_seen = 1_030;
          watched_seconds = 30;
          reactions_sent = 2;
        });
        span_seconds = 30;
      }
      ∷ [];
  n = 1;
  present_n = 1;
  absent_n = 0;
  status_counts = record {
    present_n = 0;
    late_n = 0;
    left_early_n = 0;
    partial_n = 1;
    absent_n = 0;
  };
  duration = 0;
  avg_watched_seconds = 30;
  batch = [];
}

report-AddsUp_example :
    (check_report boss fair s1 db1 ≡ ok tt)
    × (◌≡◌ {A = Presence × Table}
        (reported.1, reported.2)
        (flush_attendance reads.saved 1_040 s1 (watching, no_rows)))
    × AddsUp report_of_asha
unfolding live_attendance is_host can_manage_course flush_attendance flush_rows rows_of
    flush_presence save_rows upsert mark_of percent count_marks total_watch average roster_from beq
    lookup insert update_all
report-AddsUp_example =
    report-AddsUp boss fair reads 0 1_040 s1 db1 (watching, no_rows) report_of_asha reported.1
      reported.2 refl
