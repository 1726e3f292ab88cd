-- ===== src/Orchestrator/Waits.antt =====
-- The calls of src/orchestrator.rs that wait: where they come to when the waits do.
use lv_fixus.Common.{String, Option, ℕ, zero, suc, List, [], ◌∷◌, refl, arith, inl, inr, ◌⊎◌}
use lv_fixus.Common.Int.{ℤ, pos}
use lv_fixus.Dispatcher
use lv_fixus.Registry
use lv_fixus.Registry.{TaskRegistry, TurnOutcome, completed, failed, timeout}
use lv_fixus.Models.Records.{IncompleteTurn}
use lv_fixus.Service.{start_turn}
use lv_fixus.Orchestrator.{Env, Orchestrator, lift, resolve_task_type}
use lv_fixus.Orchestrator.Turns.{enqueue_and_dispatch}
use lv_fixus.Orchestrator.Wait.{
  register, launch_turn, recover_first, open_turn, async_start, recover_turns, open_if_none,
  start_turn_async,
}
use lv_fixus.Orchestrator.Drives.{Moves, stays, after-Advances, stored}
use lv_fixus.Orchestrator.Moves.{resolve-Moves, enqueue-Moves}

module _ (E : Env) where
  open E use {j, b, S, store, now, texts}

  abbrev O : Type 0
  O = Orchestrator S

  -- the new channel is registered once, and no other one
  pub register-Moves :
      (task_id : String) (turn_id : ℤ) (group : String) → Moves (register E task_id turn_id group)
  unfolding register Dispatcher.run Registry.run Registry.step
  register-Moves task_id turn_id group o = record {
    calls = [];
    dispatched = refl;
    answers =
        Registry.register task_id (record {
          task_id = task_id;
          turn_id = turn_id;
          redo_group = group;
          result_tx = o.channels;
        })
        ∷ [];
    answered = refl;
    channels_grow = omega arith;
    fresh = λ c. ground arith;
  }

  pub begin-Moves :
      (task_id : String) (turn_id : ℤ) (input group : String)
      → Moves (launch_turn E task_id turn_id input group)
  unfolding launch_turn
  begin-Moves task_id turn_id input group o =
      after-Advances (resolve_task_type E task_id o) _ (resolve-Moves E task_id o) (λ kind. λ o1.
        after-Advances (register E task_id turn_id group o1) _
          (register-Moves task_id turn_id group o1)
          (λ channel. λ o2.
            after-Advances (enqueue_and_dispatch E task_id turn_id input group (pos 0) [] o2) _
              (enqueue-Moves E task_id turn_id input group (pos 0) [] o2)
              (λ u. λ o3. stays refl refl refl)))

  recovering-Moves :
      (task_id : String) (turns : List IncompleteTurn) → Moves (recover_turns E task_id turns)
  recovering-Moves task_id [] o = stays refl refl refl
  recovering-Moves task_id (t ∷ ts) o = stays refl refl refl

  recover_first-Moves : (task_id : String) → Moves (recover_first E task_id)
  unfolding recover_first
  recover_first-Moves task_id o =
      after-Advances (lift (store.get_incomplete_turns task_id) o) _
        (stored (store.get_incomplete_turns task_id o.store))
        (λ turns. recovering-Moves task_id turns)

  opened-Moves :
      (task_id input : String) (group : Option String) (n : ℕ)
      → Moves (open_if_none E task_id input group n)
  opened-Moves task_id input group zero o =
      after-Advances (lift (start_turn j b store now task_id input group E.fresh_group) o) _
        (stored (start_turn j b store now task_id input group E.fresh_group o.store))
        (λ begun. λ o1. stays refl refl refl)
  opened-Moves task_id input group (suc n) o = stays refl refl refl

  pub open-Moves :
      (task_id input : String) (group : Option String) → Moves (open_turn E task_id input group)
  unfolding open_turn
  open-Moves task_id input group o =
      after-Advances (recover_first E task_id o) _ (recover_first-Moves task_id o)
        (λ n. opened-Moves task_id input group n)

  async-Moves :
      (task_id input : String) (opened : ℕ ⊎ (ℤ × String))
      → Moves (async_start E task_id input opened)
  async-Moves task_id input (inl n) o = stays refl refl refl
  async-Moves task_id input (inr (turn_id, group)) o = stays refl refl refl

  pub start_async-Moves :
      (task_id input : String) (group : Option String)
      → Moves (start_turn_async E task_id input group)
  unfolding start_turn_async
  start_async-Moves task_id input group o =
      after-Advances (open_turn E task_id input group o) _ (open-Moves task_id input group o)
        (λ opened. async-Moves task_id input opened)
