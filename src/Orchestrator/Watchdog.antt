-- ===== src/Orchestrator/Watchdog.antt =====
-- The watchdog of turns that were sent out and did not end, src/orchestrator.rs.
use lv_fixus.Common.{
  String, Option, none, some, ℕ, ◌-◌, List, [], ◌∷◌, filter, map, ltb, length, opt_bind, string_eq,
}
use lv_fixus.Common.Int.{ℤ}
use lv_fixus.Common.Map.{insert}
use lv_fixus.Store.{Action, return, ◌>>=◌, ◌>>◌}
use lv_fixus.Orchestrator.{Env, Texts, Orchestrator, attempt, modify, resolve_task_type}
use lv_fixus.Orchestrator.Ends.{handle_turn_execution_error}

unfoldable pub parse_turn_key : {V : Type 0} → Texts V → String → Option (String × ℤ)
parse_turn_key texts key =
    opt_bind (texts.rsplit_colon key)
      (λ parts. opt_bind (texts.parse_i64 parts.1) (λ turn_id. some (parts.0, turn_id)))

module _ (E : Env) where
  open E use {S, texts, now}

  abbrev O : Type 0
  O = Orchestrator S

  abbrev pub stale_turns : ℕ → O → List String
  stale_turns lease o =
      map (λ entry. entry.0) (filter (λ entry. ltb lease (now - entry.1)) o.dispatch_times)

  abbrev pub reclaim_parsed : String → Option (String × ℤ) → Action O (Unit {0})
  reclaim_parsed key none = return tt
  reclaim_parsed key (some (task_id, turn_id)) = do
    resolved ← attempt (resolve_task_type E task_id)
    modify (λ o. record o { dispatch_times = insert key now o.dispatch_times })
    handled ← attempt (
        handle_turn_execution_error E task_id turn_id "agent_unresponsive"
          "no terminal event within turn_lease")
    return tt

  unfoldable pub reclaim_turns : List String → O → O
  reclaim_turns [] o = o
  reclaim_turns (key ∷ keys) o =
      reclaim_turns keys (reclaim_parsed key (parse_turn_key texts key) o).0

  unfoldable pub reclaim_stale_turns : ℕ → O → O × ℕ
  reclaim_stale_turns lease o =
      let stale = stale_turns lease o in (reclaim_turns stale o, length stale)
