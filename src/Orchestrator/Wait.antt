-- ===== src/Orchestrator/Wait.antt =====
-- The calls that start a turn and wait for its end, and the recovery in the background,
-- src/orchestrator.rs. What other tasks do to the shared state during a wait is the parameter `wait`.
-- A loop that waits takes as many rounds as there are deadlines.
use Prim.Native.String.{◌++◌ as concat}
use lv_fixus.Common.{
  String, Bool, Option, none, some, ℕ, zero, suc, ◌+◌, ◌-◌, ◌/◌, List, [], ◌∷◌, ◌++◌, length,
  if◌then◌else◌, leb, opt_bind, ◌⊎◌, inl, inr,
}
use lv_fixus.Common.Int.{ℤ, pos}
use lv_fixus.Error.{Result, ok, err}
use lv_fixus.Models.Records.{IncompleteTurn}
use lv_fixus.Recovery.{RedoContext, recover_task}
use lv_fixus.Registry.{TurnOutcome, completed, failed, timeout, register_pending_turn}
use lv_fixus.Service.{start_turn}
use lv_fixus.Store.{Action, return, ◌>>=◌, ◌>>◌}
use lv_fixus.Orchestrator.{
  Env, Orchestrator, Job, recovery, run_turn, lift, attempt, modify, resolve_task_type,
}
use lv_fixus.Orchestrator.Dispatch.{get_cached_llm_responses}
use lv_fixus.Orchestrator.Turns.{fail_turn_and_respond, enqueue_and_dispatch}

-- `scale` multiplies a duration with the factor
abbrev extended : (ℕ → ℕ) → ℕ → ℕ → List ℕ
extended scale current zero = []
extended scale current (suc n) = scale current ∷ extended scale (scale current) n

unfoldable pub compute_extension_deadlines : (ℕ → ℕ) → ℕ → ℕ → List ℕ
compute_extension_deadlines scale initial max_extensions =
    initial ∷ extended scale initial max_extensions

-- `deadlines[idx]`; an empty list, which the code would panic on, reads as 0
abbrev pub deadline_at : List ℕ → ℕ → ℕ
deadline_at [] idx = 0
deadline_at (d ∷ []) idx = d
deadline_at (d ∷ (e ∷ ds)) zero = d
deadline_at (d ∷ (e ∷ ds)) (suc idx) = deadline_at (e ∷ ds) idx

-- an index past the end reads the last deadline
unfoldable pub next_remaining : List ℕ → ℕ → ℕ → ℕ × Bool
next_remaining deadlines attempt elapsed =
    (deadline_at deadlines attempt - elapsed, leb (length deadlines) attempt)

-- `timeout(remaining, &mut result_rx)`
pub data Waited : Type 0 where
  answered : TurnOutcome → Waited
  closed elapsed : Waited

-- The time since the loop began, in nanoseconds, and a wait on a channel.
pub record Runtime (O : Type 0) : Type 0 where
  pub since_start : O → ℕ
  pub wait : ℕ → ℕ → O → O × Waited

pub data AsyncTurnStart : Type 0 where
  started : ℤ → AsyncTurnStart
  recovery_triggered : ℕ → AsyncTurnStart

abbrev pub nanoseconds : ℕ
nanoseconds = 1000000000

module _ (E : Env) where
  open E use {j, b, S, store, texts, now, fresh_group}

  abbrev pub O : Type 0
  O = Orchestrator S

  abbrev pub spawn : Job → O → O
  spawn job o = record o { spawned = o.spawned ++ (job ∷ []) }

  -- a new channel, whose number is the result, is registered for the turn
  unfoldable pub register : String → ℤ → String → Action O ℕ
  register task_id turn_id redo_group o = (
    record o {
      channels = o.channels + 1;
      registry = register_pending_turn o.registry task_id (record {
        task_id = task_id;
        turn_id = turn_id;
        redo_group = redo_group;
        result_tx = o.channels;
      });
    },
    ok o.channels,
  )

  -- run_turn_to_completion before it waits; the channel comes back
  unfoldable pub launch_turn : String → ℤ → String → String → Action O ℕ
  launch_turn task_id turn_id user_input redo_group = do
    task_type ← resolve_task_type E task_id
    channel ← register task_id turn_id redo_group
    enqueue_and_dispatch E task_id turn_id user_input redo_group (pos 0) []
    return channel

  abbrev pub recover_turns : String → List IncompleteTurn → Action O ℕ
  recover_turns task_id [] = return 0
  recover_turns task_id (turn ∷ turns) =
      modify (spawn (recovery task_id)) >> return (length (turn ∷ turns))

  -- the incomplete turns of the task start a recovery; the result is their number
  unfoldable pub recover_first : String → Action O ℕ
  recover_first task_id = do
    incomplete ← lift (store.get_incomplete_turns task_id)
    recover_turns task_id incomplete

  abbrev pub open_if_none : String → String → Option String → ℕ → Action O (ℕ ⊎ (ℤ × String))
  open_if_none task_id user_input redo_group zero = do
    begun ← lift (start_turn j b store now task_id user_input redo_group fresh_group)
    return (inr (begun.0, begun.1.0))
  open_if_none task_id user_input redo_group (suc n) = return (inl (suc n))

  -- the number of incomplete turns, or the new turn and its group
  unfoldable pub open_turn : String → String → Option String → Action O (ℕ ⊎ (ℤ × String))
  open_turn task_id user_input redo_group = do
    incomplete ← recover_first task_id
    open_if_none task_id user_input redo_group incomplete

  abbrev pub async_start : String → String → ℕ ⊎ (ℤ × String) → Action O AsyncTurnStart
  async_start task_id user_input (inl count) = return (recovery_triggered count)
  async_start task_id user_input (inr (turn_id, group)) =
      modify (spawn (run_turn task_id turn_id user_input group)) >> return (started turn_id)

  unfoldable pub start_turn_async : String → String → Option String → Action O AsyncTurnStart
  start_turn_async task_id user_input redo_group = do
    opened ← open_turn task_id user_input redo_group
    async_start task_id user_input opened

  module _ (w : Runtime O) (deadlines : List ℕ) where
    abbrev pub timed_out : String → ℤ → Action O TurnOutcome
    timed_out task_id turn_id o =
        fail_turn_and_respond E task_id turn_id "timeout"
          (concat "Turn timed out after " (
            concat (texts.usize (length deadlines)) (
              concat " attempts ("
                (concat (texts.usize (w.since_start o / nanoseconds)) "s total)"))))
          o

    -- at most as many rounds as the first argument says
    unfoldable pub wait_turn : ℕ → ℕ → String → ℤ → ℕ → O → Option (O × Result TurnOutcome)
    wait_turn zero channel task_id turn_id attempt o = none
    wait_turn (suc rounds) channel task_id turn_id attempt o =
        let now_elapsed = w.since_start o in
        let (o', waited) = w.wait channel (next_remaining deadlines attempt now_elapsed).0 o in
        let again = wait_turn rounds channel task_id turn_id (attempt + 1) o' in
        elim waited [
          | answered outcome ↦ some (o', ok outcome)
          | closed ↦
              some (
                fail_turn_and_respond E task_id turn_id "channel_closed" "fixlet connection lost"
                  o')
          | elapsed ↦
              if (next_remaining deadlines (attempt + 1) now_elapsed).1
              then some (timed_out task_id turn_id o')
              else again
        ]

    abbrev pub wait_if_begun : String → ℤ → O × Result ℕ → Option (O × Result TurnOutcome)
    wait_if_begun task_id turn_id (o, ok channel) =
        wait_turn (length deadlines) channel task_id turn_id 0 o
    wait_if_begun task_id turn_id (o, err e) = some (o, err e)

    unfoldable pub run_turn_to_completion :
        String → ℤ → String → String → O → Option (O × Result TurnOutcome)
    run_turn_to_completion task_id turn_id user_input redo_group o =
        wait_if_begun task_id turn_id (launch_turn task_id turn_id user_input redo_group o)

    abbrev pub recovery_answer : ℕ → TurnOutcome
    recovery_answer count =
        completed
          (concat "Recovery triggered: " (
            concat (texts.usize count)
              " incomplete turn(s) detected. Retry after recovery completes."))
          (pos 0) (pos 0)

    abbrev pub run_if_opened :
        String → String → O × Result (ℕ ⊎ (ℤ × String)) → Option (O × Result TurnOutcome)
    run_if_opened task_id user_input (o, err e) = some (o, err e)
    run_if_opened task_id user_input (o, ok (inl count)) = some (o, ok (recovery_answer count))
    run_if_opened task_id user_input (o, ok (inr (turn_id, group))) =
        run_turn_to_completion task_id turn_id user_input group o

    unfoldable pub execute_turn :
        String → String → Option String → O → Option (O × Result TurnOutcome)
    execute_turn task_id user_input redo_group o =
        run_if_opened task_id user_input (open_turn task_id user_input redo_group o)

    abbrev pub give_up : String → ℤ → String → String → O → O
    give_up task_id turn_id error_type error_message o =
        (fail_turn_and_respond E task_id turn_id error_type error_message o).0

    -- `extend` is what comes when the turn has not ended
    abbrev pub after_wait : String → ℤ → O → Option O → Waited → Option O
    after_wait task_id turn_id o extend (answered (completed output id count)) = some o
    after_wait task_id turn_id o extend (answered (failed id error_type error_message)) = some o
    after_wait task_id turn_id o extend (answered (timeout id)) = extend
    after_wait task_id turn_id o extend closed =
        some (give_up task_id turn_id "channel_closed" "fixlet connection lost during redo" o)
    after_wait task_id turn_id o extend elapsed = extend

    -- the loop of the recovery; how the turn ended only goes into the log
    unfoldable pub wait_redo : ℕ → ℕ → String → ℤ → ℕ → O → Option O
    wait_redo zero channel task_id turn_id attempt o = none
    wait_redo (suc rounds) channel task_id turn_id attempt o =
        let now_elapsed = w.since_start o in
        let (o', waited) = w.wait channel (next_remaining deadlines attempt now_elapsed).0 o in
        let again = wait_redo rounds channel task_id turn_id (attempt + 1) o' in
        after_wait task_id turn_id o'
          (if (next_remaining deadlines (attempt + 1) now_elapsed).1
            then some (give_up task_id turn_id "redo_timeout" "Redo timed out" o')
            else again)
          waited

    abbrev pub redo_if_begun : String → RedoContext → O × Result ℕ → Option O
    redo_if_begun task_id redo (o, ok channel) =
        wait_redo (length deadlines) channel task_id redo.turn_id 0 o
    redo_if_begun task_id redo (o, err e) =
        some (give_up task_id redo.turn_id "redo_dispatch_failed" (texts.error e) o)

    abbrev pub begin_redo : String → RedoContext → Action O ℕ
    begin_redo task_id redo = do
      channel ← register task_id redo.turn_id redo.redo_group
      cached ← get_cached_llm_responses E task_id redo.turn_id
      enqueue_and_dispatch E task_id redo.turn_id redo.user_input redo.redo_group redo.redo_count
          cached
      return channel

    -- one turn of the queue
    unfoldable pub redo_turn : String → RedoContext → O → Option O
    redo_turn task_id redo o = redo_if_begun task_id redo (begin_redo task_id redo o)

    unfoldable pub redo_turns : String → List RedoContext → O → Option O
    redo_turns task_id [] o = some o
    redo_turns task_id (redo ∷ redos) o =
        opt_bind (redo_turn task_id redo o) (redo_turns task_id redos)

    -- what comes before the loop: the queue, and a check that the type of the task can be read
    abbrev pub checked_queue : String → List RedoContext → Action O (List RedoContext)
    checked_queue task_id [] = return []
    checked_queue task_id (redo ∷ redos) = resolve_task_type E task_id >> return (redo ∷ redos)

    abbrev pub redo_queue_of : String → Action O (List RedoContext)
    redo_queue_of task_id = do
      queue ← lift (recover_task j store b now texts.usize task_id)
      checked_queue task_id queue

    abbrev pub redo_if_read : String → O × Result (List RedoContext) → Option O
    redo_if_read task_id (o, ok queue) = redo_turns task_id queue o
    redo_if_read task_id (o, err e) = some o

    -- the task that `spawn_background_recovery` starts
    unfoldable pub background_recovery : String → O → Option O
    background_recovery task_id o = redo_if_read task_id (redo_queue_of task_id o)

    abbrev pub ended : Option (O × Result TurnOutcome) → Option O
    ended none = none
    ended (some (o, r)) = some o

    -- a task that was spawned
    unfoldable pub run_job : Job → O → Option O
    run_job (recovery task_id) o = background_recovery task_id o
    run_job (run_turn task_id turn_id user_input group) o =
        ended (run_turn_to_completion task_id turn_id user_input group o)
