-- ===== src/Orchestrator.antt =====
-- src/orchestrator.rs: turns from their start to their end. The state is what the orchestrator shares with
-- its background tasks; `spawned` lists the tasks that it starts. Metrics and log lines are left out.
pub mod Payload
pub mod Dispatch
pub mod Turns
pub mod Ends
pub mod Steps
pub mod Wait
pub mod Watchdog
pub mod Drives
pub mod Steady
pub mod Moves
pub mod Events
pub mod Records
pub mod Waits
pub mod Returns
pub mod Run
pub mod Safe
pub mod Drain
pub mod Slots
pub mod Answers
use Prim.Native.String.{◌++◌ as concat}
use lv_fixus.Common.{
  String, Bool, Option, none, some, ℕ, zero, suc, List, [], ◌∷◌, if◌then◌else◌, ◌==◌, string_eq,
}
use lv_fixus.Common.Int.{ℤ}
use lv_fixus.Common.Map.{Map}
use lv_fixus.Context.{Render}
use lv_fixus.Dispatcher
use lv_fixus.Dispatcher.{Dispatcher}
use lv_fixus.Error.{AppError, Result, ok, err, task_not_found, internal}
use lv_fixus.Json.{Json, Build}
use lv_fixus.Models.Records.{Task}
use lv_fixus.Policy.{EffectivePolicy}
use lv_fixus.Registry
use lv_fixus.Registry.{TaskRegistry}
use lv_fixus.Retry.{RetryPolicy}
use lv_fixus.Store.{EventStore, Action, return, fail, ◌>>=◌, ◌>>◌}

-- How numbers, errors and policies are written; a turn id is read back by `parse::<i64>`.
pub record Texts (V : Type 0) : Type 0 where
  pub usize : ℕ → String
  pub i64 : ℤ → String
  pub error : AppError → String
  pub policy : EffectivePolicy → V
  pub parse_i64 : String → Option ℤ
  -- `rsplit_once(':')`
  pub rsplit_colon : String → Option (String × String)

-- What an orchestrator is built from, and the clock's reading during an operation.
pub record Env : Type 1 where
  pub j : Json
  pub b : Build j
  pub render : Render j
  pub S : Type 0
  pub store : EventStore j.Value S
  pub texts : Texts j.Value
  pub retry_policy : RetryPolicy
  pub fresh_group : String
  pub now : ℕ

pub data Job : Type 0 where
  -- task_id
  recovery : String → Job
  -- task_id, turn_id, user_input, redo_group
  run_turn : String → ℤ → String → String → Job

pub record Orchestrator (S : Type 0) : Type 0 where
  pub store : S
  pub registry : TaskRegistry
  pub dispatcher : Dispatcher
  pub retry_attempts : Map String ℤ
  pub dispatch_times : Map String ℕ
  pub spawned : List Job
  -- how many oneshot channels there have been
  pub channels : ℕ

-- the key of a turn in `retry_attempts` and `dispatch_times`
abbrev pub turn_key : {V : Type 0} → Texts V → String → ℤ → String
turn_key texts task_id turn_id = concat task_id (concat ":" (texts.i64 turn_id))

-- an orchestrator over a store, with the default limit
abbrev pub new : {S : Type 0} → S → Orchestrator S
new s = record {
  store = s;
  registry = Registry.new;
  dispatcher = Dispatcher.new 6;
  retry_attempts = [];
  dispatch_times = [];
  spawned = [];
  channels = 0;
}

abbrev pub with_max_concurrent : {S : Type 0} → ℕ → Orchestrator S → Orchestrator S
with_max_concurrent n o = record o { dispatcher = Dispatcher.new n }

module _ {S : Type 0} where
  abbrev pub with_store : {A : Type 0} → Orchestrator S → S × Result A → Orchestrator S × Result A
  with_store o (s, r) = (record o { store = s }, r)

  -- an operation of the store
  abbrev pub lift : {A : Type 0} → Action S A → Action (Orchestrator S) A
  lift m o = with_store o (m o.store)

  abbrev pub caught : {A : Type 0} → Orchestrator S × Result A → Orchestrator S × Result (Result A)
  caught (o, r) = (o, ok r)

  -- a call whose error is matched on and not returned
  abbrev pub attempt : {A : Type 0} → Action (Orchestrator S) A → Action (Orchestrator S) (Result A)
  attempt m o = caught (m o)

  -- a change of the orchestrator's own state
  abbrev pub modify : (Orchestrator S → Orchestrator S) → Action (Orchestrator S) (Unit {0})
  modify f o = (f o, ok tt)

abbrev pub result_or : {A : Type 0} → A → Result A → A
result_or d (ok a) = a
result_or d (err e) = d

module _ (E : Env) where
  open E use {j, S, store}

  abbrev pub found_task : String → Option (Task j.Value) → Action (Orchestrator S) (Task j.Value)
  found_task task_id none = fail (task_not_found task_id)
  found_task task_id (some t) = return t

  -- up to `n` rounds: a task without a type makes the store read its events again
  unfoldable pub resolve_rounds : ℕ → String → Action (Orchestrator S) String
  resolve_rounds zero task_id = fail (
      internal (
        concat "task_type unresolved for "
          (concat task_id " after 10 retries (projection never saw task_created?)")))
  resolve_rounds (suc n) task_id =
      let again = resolve_rounds n task_id in
      do
        found ← lift (store.get_task task_id)
        task ← found_task task_id found
        if task.task_type == ""
            then modify (λ o. record o { store = store.invalidate_projection task_id o.store })
              >> again
            else return task.task_type

  abbrev pub resolve_task_type : String → Action (Orchestrator S) String
  resolve_task_type task_id = resolve_rounds 10 task_id
