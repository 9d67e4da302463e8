-- ===== src/Tests/Outline.antt =====
-- Runs of the streak, of modules and of invoices (lms_leaderboard.go, lms_courses.go,
-- crm_finance.go).
use onrol_infra.Base.{
  ℕ, ◌+◌, ◌/◌, ◌≡◌, refl, arith, Bool, true, false, Option, none, some, List, [], ◌∷◌, Str, codes,
  select, Map, lookup, ok,
}
use onrol_infra.Learn.Tables.{Scope}
use onrol_infra.Learn.Streak.{Checkin, Zones, StreakStmt, today_of, days_of, my_streak}
use onrol_infra.Learn.Streak.Runs.{IsStreak, my_streak-IsStreak}
use onrol_infra.Learn.Modules.{ModuleStmt, ModuleReq}
use onrol_infra.Learn.Modules.Nested.{IsNested}
use onrol_infra.Learn.Modules.History
use onrol_infra.Learn.Modules.History.{ModuleCall, serve_all-IsNested}
use onrol_infra.Learn.Outline.{Node, nest_modules}
use onrol_infra.Learn.Outline.Placed.{nest-places, is_top_level, is_under, with_more}
use onrol_infra.Crm.Invoices.{BooksStmt, InvoiceReq, PaymentReq}
use onrol_infra.Crm.Invoices.Ledger
use onrol_infra.Crm.Invoices.Ledger.{BooksCall, IsCovered, serve_all-IsCovered}
use onrol_infra.Tests.{boss, k1, asha_id}
use onrol_infra.Tests.Learn.{school1, unit_row}

abbrev zones : Zones
zones = record { loads = λ z. true; day_at = λ z now. now / 86_400 + 1 }

abbrev streak_up : StreakStmt → Bool
streak_up s = true

abbrev at_day : ℕ → Checkin
at_day n = record { user_id = asha_id; day = n }

abbrev seen : List Checkin
seen = at_day 9 ∷ at_day 10 ∷ at_day 7 ∷ []

-- On day 11, after days 7, 9 and 10.
my_streak-IsStreak_example :
    IsStreak streak_up
      (today_of streak_up zones none 864_000)
      (days_of asha_id (my_streak streak_up zones asha_id none 864_000 seen).1)
      (my_streak streak_up zones asha_id none 864_000 seen).0
unfolding today_of days_of
my_streak-IsStreak_example =
    my_streak-IsStreak streak_up zones asha_id none 864_000 seen refl (omega arith) refl

three_days :
    (my_streak streak_up zones asha_id none 864_000 seen).0
    ≡ ok (some (record { streak = 3; today_done = true }))
unfolding my_streak
three_days = refl

abbrev mod_up : ModuleStmt → Bool
mod_up s = true

abbrev no_scope : Scope
no_scope = record { covers = false; up = true }

abbrev part : ModuleReq
part = record {
  title = codes "Part";
  position = 2;
  parent = codes "u1";
  batch_number = [];
  code = [];
}

abbrev calls : List ModuleCall
calls =
    ModuleCall.add mod_up (λ s. s) (codes "u2") boss no_scope k1 (some part)
    ∷ ModuleCall.add mod_up (λ s. s) (codes "u3") boss no_scope k1
        (some (record part { parent = codes "u2" }))
    ∷ []

serve_all-IsNested_example : IsNested (History.serve_all calls school1)
serve_all-IsNested_example = serve_all-IsNested calls school1 (refl, tt)

abbrev node : Str → Option Str → Node
node id parent = record {
  row = record unit_row { id = id; parent_module_id = parent };
  lessons = [];
  submodules = [];
}

abbrev u1 : Str
u1 = codes "u1"

abbrev u2 : Str
u2 = codes "u2"

-- A module and its submodule, which comes first.
abbrev set : Map Node
set = (u2, node u2 (some u1)) ∷ (u1, node u1 none) ∷ []

nest-places_example :
    ((nest_modules set (u2 ∷ u1 ∷ []) []).1 ≡ select (is_top_level set) (u2 ∷ u1 ∷ []))
    × ((p : Str) (n : Node)
        → lookup p set ≡ some n
        → lookup p (nest_modules set (u2 ∷ u1 ∷ []) []).0
          ≡ some (with_more n (select (is_under set p) (u2 ∷ u1 ∷ []))))
nest-places_example = nest-places set (u2 ∷ u1 ∷ [])

abbrev books_up : BooksStmt → Bool
books_up s = true

abbrev bill : InvoiceReq
bill = record {
  lead_id = [];
  account_id = [];
  total = 1000;
  tax_rate = 1800;
  due_date = [];
  notes = [];
  line_items = [];
}

abbrev part_payment : PaymentReq
part_payment = record { amount = 500; provider = []; reference = [] }

abbrev ledger : List BooksCall
ledger =
    BooksCall.create books_up 1 (codes "n1") 1 boss (some bill)
    ∷ BooksCall.receive books_up 2 (codes "p1") (codes "n1") (some part_payment)
    ∷ BooksCall.receive books_up 3 (codes "p2") (codes "n1") (some part_payment)
    ∷ []

serve_all-IsCovered_example :
    IsCovered (codes "n1") (Ledger.serve_all ledger (record { invoices = []; payments = [] }))
serve_all-IsCovered_example =
    serve_all-IsCovered (codes "n1") ledger (record { invoices = []; payments = [] }) tt
