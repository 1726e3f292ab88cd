-- ===== src/Tests/Dispatcher.antt =====
-- The theorems on src/dispatcher.rs at concrete calls.
use lv_fixus.Common.{String, none, some, List, [], ◌∷◌, ◌≡◌, refl, ◌↔◌, ◌⊎◌, arith, ◌≤◌, string_eq}
use lv_fixus.Common.Int.{ℤ, pos, negsuc}
use lv_fixus.Common.Map.{get, insert}
use lv_fixus.Dispatcher.{
  QueuedTurn, Dispatcher, Call, call_enqueue, call_try_pop, new, enqueue, try_pop, step, run,
  queue_of, pop_greatest, in_flight, pending_count,
}
use lv_fixus.Dispatcher.Capacity.{run-in_flight-le, try_pop-none_iff}
use lv_fixus.Dispatcher.Isolation.{step_other}
use lv_fixus.Dispatcher.Order.{Taken, IsNumbered, try_pop_order}
use lv_fixus.Dispatcher.Numbers.{run-new-IsNumbered}

abbrev turn_of : String → String → ℤ → QueuedTurn
turn_of task_type task_id priority = record {
  task_type = task_type;
  task_id = task_id;
  turn_id = pos 1;
  user_input = "";
  redo_group = "";
  redo_count = pos 0;
  cached_llm = [];
  priority = priority;
  enqueued_at = 0;
}

abbrev calls : List Call
calls =
    call_enqueue (turn_of "t" "low" (negsuc 0))
    ∷ call_enqueue (turn_of "t" "first" (pos 3))
    ∷ call_enqueue (turn_of "t" "second" (pos 3))
    ∷ []

abbrev filled : Dispatcher
filled = run (new 1) calls

first_out : (try_pop filled "t").1 ≡ some (turn_of "t" "first" (pos 3))
unfolding try_pop run new enqueue pop_greatest get insert
first_out = refl

try_pop_order_example :
    Taken (queue_of filled "t") (queue_of (try_pop filled "t").0 "t") (turn_of "t" "first" (pos 3))
try_pop_order_example =
    try_pop_order filled "t" (run-new-IsNumbered 1 calls (omega arith)) first_out

run-new-IsNumbered_example : IsNumbered filled
run-new-IsNumbered_example = run-new-IsNumbered 1 calls (omega arith)

run-in_flight-le_example : in_flight filled "t" ≤ 1
run-in_flight-le_example = run-in_flight-le 1 calls "t"

try_pop-none_iff_example :
    ((try_pop filled "u").1 ≡ none)
    ↔ ((filled.max_concurrent ≤ in_flight filled "u") ⊎ (pending_count filled "u" ≡ 0))
try_pop-none_iff_example = try_pop-none_iff filled "u"

step_other_example : queue_of (step filled (call_try_pop "t")) "u" ≡ queue_of filled "u"
step_other_example =
    step_other filled (call_try_pop "t") "u" (ground (arith, string_eq.same_iff "t" "u"))
