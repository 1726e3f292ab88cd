-- ===== src/Dispatcher.antt =====
-- src/dispatcher.rs: a priority queue and a capacity gate for each task type. The mutex makes each
-- method one step. `BinaryHeap` is the list of its entries, and its `pop` takes a greatest one.
pub mod Heap
pub mod Capacity
pub mod Order
pub mod Numbers
pub mod Isolation
use lv_fixus.Common.{
  String, Bool, true, false, ◌&&◌, ◌||◌, Option, none, some, List, [], ◌∷◌, ℕ, zero, suc, ◌+◌, ◌-◌,
  ◌%◌, length, ltb, leb, if◌then◌else◌, ◌==◌, string_eq, map,
}
use lv_fixus.Common.Int.{ℤ, ltb_ℤ, int_beq}
use lv_fixus.Common.Map.{Map, get, insert}

pub record QueuedTurn : Type 0 where
  pub task_type : String
  pub task_id : String
  pub turn_id : ℤ
  pub user_input : String
  pub redo_group : String
  pub redo_count : ℤ
  pub cached_llm : List String
  pub priority : ℤ
  pub enqueued_at : ℕ

pub record PriEntry : Type 0 where
  pub priority : ℤ
  pub seq : ℕ
  pub turn : QueuedTurn

-- `self.cmp(other) == Greater`: the larger priority, then the smaller sequence number
abbrev pub greater : PriEntry → PriEntry → Bool
greater a b = ltb_ℤ b.priority a.priority || (int_beq a.priority b.priority && ltb a.seq b.seq)

abbrev pub choose :
    PriEntry → List PriEntry → Option (PriEntry × List PriEntry) → PriEntry × List PriEntry
choose x xs none = (x, xs)
choose x xs (some (m, rest)) = if greater m x then (m, x ∷ rest) else (x, xs)

-- `BinaryHeap::pop`
unfoldable pub pop_greatest : List PriEntry → Option (PriEntry × List PriEntry)
pop_greatest [] = none
pop_greatest (x ∷ xs) = some (choose x xs (pop_greatest xs))

pub record TypeQueue : Type 0 where
  pub pending : List PriEntry
  pub in_flight : ℕ

abbrev pub default_queue : TypeQueue
default_queue = record { pending = []; in_flight = 0 }

pub record Dispatcher : Type 0 where
  pub queues : Map String TypeQueue
  pub max_concurrent : ℕ
  pub next_seq : ℕ  -- AtomicU64

abbrev pub u64_mod : ℕ
u64_mod = 18446744073709551616

unfoldable pub new : ℕ → Dispatcher
new max_concurrent = record {
  queues = [];
  max_concurrent = if ltb max_concurrent 1 then 1 else max_concurrent;
  next_seq = 0;
}

abbrev pub queue_or_default : Option TypeQueue → TypeQueue
queue_or_default none = default_queue
queue_or_default (some q) = q

-- The queue of a type: `entry(task_type).or_default()`.
abbrev pub queue_of : Dispatcher → String → TypeQueue
queue_of d task_type = queue_or_default (get task_type d.queues)

abbrev pub push : TypeQueue → PriEntry → TypeQueue
push q e = record q { pending = e ∷ q.pending }

abbrev pub new_entry : Dispatcher → QueuedTurn → PriEntry
new_entry d turn = record { priority = turn.priority; seq = d.next_seq; turn = turn }

-- the number pending of the type comes back with the new state
unfoldable pub enqueue : Dispatcher → QueuedTurn → Dispatcher × ℕ
enqueue d turn =
    let q = push (queue_of d turn.task_type) (new_entry d turn) in
    (
      record d { queues = insert turn.task_type q d.queues; next_seq = (d.next_seq + 1) % u64_mod },
      length q.pending,
    )

abbrev pub take_entry :
    Dispatcher
    → String
    → TypeQueue
    → Option (PriEntry × List PriEntry)
    → Dispatcher × Option QueuedTurn
take_entry d task_type q none = (d, none)
take_entry d task_type q (some (e, rest)) = (
  record d {
    queues = insert task_type (record { pending = rest; in_flight = q.in_flight + 1 }) d.queues;
  },
  some e.turn,
)

abbrev pub pop_queue : Dispatcher → String → Option TypeQueue → Dispatcher × Option QueuedTurn
pop_queue d task_type none = (d, none)
pop_queue d task_type (some q) =
    if leb d.max_concurrent q.in_flight
    then (d, none)
    else take_entry d task_type q (pop_greatest q.pending)

unfoldable pub try_pop : Dispatcher → String → Dispatcher × Option QueuedTurn
try_pop d task_type = pop_queue d task_type (get task_type d.queues)

abbrev pub release : Dispatcher → String → Option TypeQueue → Dispatcher
release d task_type none = d
release d task_type (some q) =
    if ltb 0 q.in_flight
    then record d { queues = insert task_type (record q { in_flight = q.in_flight - 1 }) d.queues }
    else d

unfoldable pub on_turn_terminal : Dispatcher → String → Dispatcher
on_turn_terminal d task_type = release d task_type (get task_type d.queues)

unfoldable pub in_flight : Dispatcher → String → ℕ
in_flight d task_type = (queue_of d task_type).in_flight

unfoldable pub pending_count : Dispatcher → String → ℕ
pending_count d task_type = length (queue_of d task_type).pending

-- A call on a dispatcher.
pub data Call : Type 0 where
  call_enqueue : QueuedTurn → Call
  call_try_pop call_terminal : String → Call

unfoldable pub step : Dispatcher → Call → Dispatcher
step d (call_enqueue turn) = (enqueue d turn).0
step d (call_try_pop task_type) = (try_pop d task_type).0
step d (call_terminal task_type) = on_turn_terminal d task_type

unfoldable pub run : Dispatcher → List Call → Dispatcher
unfolding step
run d [] = d
run d (c ∷ cs) = run (step d c) cs
