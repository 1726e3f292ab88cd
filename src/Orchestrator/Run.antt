-- ===== src/Orchestrator/Run.antt =====
-- What a running orchestrator does, in the order in which it happens: src/orchestrator.rs as a whole.
use lv_fixus.Common.{String, Option, some, ℕ, List, [], ◌∷◌, opt_bind}
use lv_fixus.Orchestrator.{Env, Orchestrator, Job}
use lv_fixus.Orchestrator.Steps.{Readings, TaskEnd, handle_record}
use lv_fixus.Orchestrator.Wait.{Runtime, start_turn_async, execute_turn, run_job, ended}
use lv_fixus.Orchestrator.Watchdog.{reclaim_stale_turns}

pub data Operation (V : Type 0) : Type 0 where
  -- a record of the stream `task-end`
  record_arrives : TaskEnd V → Operation V
  -- task_id, user_input, redo_group
  call_execute call_start_async : String → String → Option String → Operation V
  job_runs : Job → Operation V
  -- the lease
  watchdog_looks : ℕ → Operation V

module _ (E : Env) (w : Runtime (Orchestrator E.S)) (deadlines : List ℕ)
    (r : Readings E.j.Value) where
  unfoldable pub perform : Operation E.j.Value → Orchestrator E.S → Option (Orchestrator E.S)
  perform (record_arrives rec) o = some (handle_record E r rec o)
  perform (call_execute task_id input group) o =
      ended E w deadlines (execute_turn E w deadlines task_id input group o)
  perform (call_start_async task_id input group) o =
      some (start_turn_async E task_id input group o).0
  perform (job_runs job) o = run_job E w deadlines job o
  perform (watchdog_looks lease) o = some (reclaim_stale_turns E lease o).0

  unfoldable pub perform_all :
      List (Operation E.j.Value) → Orchestrator E.S → Option (Orchestrator E.S)
  perform_all [] o = some o
  perform_all (op ∷ ops) o = opt_bind (perform op o) (perform_all ops)
