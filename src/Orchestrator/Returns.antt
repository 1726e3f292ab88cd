-- ===== src/Orchestrator/Returns.antt =====
-- The calls of src/orchestrator.rs that wait come back within as many rounds as there are deadlines.
use lv_fixus.Common.{
  String, false, Option, some, ℕ, zero, suc, ◌+◌, ◌≤◌, List, [], ◌∷◌, ◌≡◌, refl, arith, ◌⊎◌, inl,
  inr, Bool-cases, length, leb,
}
use lv_fixus.Common.Int.{ℤ}
use lv_fixus.Registry.{TurnOutcome, completed, failed, timeout}
use lv_fixus.Error.{Result, ok, err}
use lv_fixus.Recovery.{RedoContext, recover_task}
use lv_fixus.Orchestrator.{Env, Orchestrator, Job, recovery, run_turn, lift, resolve_task_type}
use lv_fixus.Orchestrator.Dispatch.{get_cached_llm_responses}
use lv_fixus.Orchestrator.Turns.{enqueue_and_dispatch}
use lv_fixus.Orchestrator.Wait.{
  Runtime, Waited, answered, closed, elapsed, next_remaining, register, wait_turn,
  run_turn_to_completion, wait_if_begun, run_if_opened, execute_turn, give_up, wait_redo,
  begin_redo, redo_if_begun, redo_turn, redo_turns, redo_queue_of, redo_if_read,
  background_recovery, run_job, ended, after_wait, checked_queue,
}
use lv_fixus.Orchestrator.Drives.{Advances, Moves, stays, go_on, after-Advances, stored}
use lv_fixus.Orchestrator.Moves.{resolve-Moves, cached-Moves, fail_and_respond-Moves, enqueue-Moves}
use lv_fixus.Orchestrator.Waits.{begin-Moves, open-Moves, register-Moves}

Waited-cases :
    (x : Waited)
    → ((outcome : TurnOutcome) × (x ≡ answered outcome)) ⊎ ((x ≡ closed) ⊎ (x ≡ elapsed))
Waited-cases (answered outcome) = inl (outcome, refl)
Waited-cases closed = inr (inl refl)
Waited-cases elapsed = inr (inr refl)

-- a round that is not the last one leaves a round
later : (n rounds attempt : ℕ) → leb n (attempt + 1) ≡ false → n ≤ suc rounds + attempt → 1 ≤ rounds
later n rounds attempt more k = ground (arith, more, k)

module _ (E : Env) (w : Runtime (Orchestrator E.S)) (deadlines : List ℕ) where
  open E use {j, b, S, store, now, texts}

  abbrev O : Type 0
  O = Orchestrator S

  -- the loop comes to a result, and to a state that the operations lead to
  abbrev pub Comes : O → Option (O × Result TurnOutcome) → Type 0
  Comes o x = (r : O × Result TurnOutcome) × (x ≡ some r) × Advances o r.0

  abbrev pub ComesTo : O → Option O → Type 0
  ComesTo o x = (o' : O) × (x ≡ some o') × Advances o o'

  -- what the other tasks do during a wait is operations of the orchestrator
  abbrev pub WaitsAdvance : Type 0
  WaitsAdvance = (channel remaining : ℕ) (o : O) → Advances o (w.wait channel remaining o).0

  module _ (waits : WaitsAdvance) where
    wait-Comes :
        (rounds channel : ℕ) (task_id : String) (turn_id : ℤ) (attempt : ℕ) (o : O)
        → 1 ≤ rounds
        → length deadlines ≤ rounds + attempt
        → Comes o (wait_turn E w deadlines rounds channel task_id turn_id attempt o)
    unfolding wait_turn next_remaining
    wait-Comes zero channel task_id turn_id attempt o h k = absurd (omega arith)
    wait-Comes (suc rounds) channel task_id turn_id attempt o h k =
        let remaining = (next_remaining deadlines attempt (w.since_start o)).0 in
        let r = w.wait channel remaining o in
        let p = waits channel remaining o in
        elim (Waited-cases r.1) [
          | inl (outcome, e) ↦ rw (e, wait_turn) (_, refl, p)
          | inr (inl e) ↦
              rw (e, wait_turn)
                (_, refl, go_on p (fail_and_respond-Moves E task_id turn_id _ _ r.0))
          | inr (inr e) ↦ elim (Bool-cases (leb (length deadlines) (attempt + 1))) [
            | inl out ↦
                rw (e, wait_turn, out)
                  (_, refl, go_on p (fail_and_respond-Moves E task_id turn_id _ _ r.0))
            | inr more ↦
                rw (e, wait_turn, more)
                  (let (q, g, a) =
                      wait-Comes rounds channel task_id turn_id (attempt + 1) r.0
                        (omega (arith, later (length deadlines) rounds attempt more k))
                        (omega (arith, k)) in
                    (q, g, go_on p a))
          ]
        ]

    give_up-Advances :
        (task_id : String) (turn_id : ℤ) (error_type message : String) (o : O)
        → Advances o (give_up E w deadlines task_id turn_id error_type message o)
    give_up-Advances task_id turn_id error_type message o =
        fail_and_respond-Moves E task_id turn_id error_type message o

    after_wait-ComesTo :
        (task_id : String) (turn_id : ℤ) (extend : Option O) (waited : Waited) (o o' : O)
        → Advances o o'
        → ComesTo o extend
        → ComesTo o (after_wait E w deadlines task_id turn_id o' extend waited)
    after_wait-ComesTo task_id turn_id extend (answered (completed output id n)) o o' p q =
        (o', refl, p)
    after_wait-ComesTo task_id turn_id extend (answered (failed id kind text)) o o' p q =
        (o', refl, p)
    after_wait-ComesTo task_id turn_id extend (answered (timeout id)) o o' p q = q
    after_wait-ComesTo task_id turn_id extend closed o o' p q =
        (_, refl, go_on p (give_up-Advances task_id turn_id _ _ o'))
    after_wait-ComesTo task_id turn_id extend elapsed o o' p q = q

    redo-ComesTo :
        (rounds channel : ℕ) (task_id : String) (turn_id : ℤ) (attempt : ℕ) (o : O)
        → 1 ≤ rounds
        → length deadlines ≤ rounds + attempt
        → ComesTo o (wait_redo E w deadlines rounds channel task_id turn_id attempt o)
    unfolding wait_redo next_remaining
    redo-ComesTo zero channel task_id turn_id attempt o h k = absurd (omega arith)
    redo-ComesTo (suc rounds) channel task_id turn_id attempt o h k =
        let remaining = (next_remaining deadlines attempt (w.since_start o)).0 in
        let r = w.wait channel remaining o in
        let p = waits channel remaining o in
        after_wait-ComesTo task_id turn_id _ r.1 o r.0 p
          (elim (Bool-cases (leb (length deadlines) (attempt + 1))) [
            | inl out ↦ rw out (_, refl, go_on p (give_up-Advances task_id turn_id _ _ r.0))
            | inr more ↦ rw more (
                let (q, g, a) =
                  redo-ComesTo rounds channel task_id turn_id (attempt + 1) r.0
                    (omega (arith, later (length deadlines) rounds attempt more k))
                    (omega (arith, k)) in
                (q, g, go_on p a))
          ])

    module _ (some_deadline : 1 ≤ length deadlines) where
      begun-Comes :
          (task_id : String) (turn_id : ℤ) (r : O × Result ℕ) (o : O)
          → Advances o r.0
          → Comes o (wait_if_begun E w deadlines task_id turn_id r)
      begun-Comes task_id turn_id (o', ok channel) o p =
          let (q, g, a) =
            wait-Comes (length deadlines) channel task_id turn_id 0 o' some_deadline
              (omega arith) in
          (q, g, go_on p a)
      begun-Comes task_id turn_id (o', err e) o p = (_, refl, p)

      pub run-Comes :
          (task_id : String) (turn_id : ℤ) (input group : String) (o : O)
          → Comes o (run_turn_to_completion E w deadlines task_id turn_id input group o)
      unfolding run_turn_to_completion
      run-Comes task_id turn_id input group o =
          begun-Comes task_id turn_id _ o (begin-Moves E task_id turn_id input group o)

      opened-Comes :
          (task_id input : String) (r : O × Result (ℕ ⊎ (ℤ × String))) (o : O)
          → Advances o r.0
          → Comes o (run_if_opened E w deadlines task_id input r)
      opened-Comes task_id input (o', err e) o p = (_, refl, p)
      opened-Comes task_id input (o', ok (inl n)) o p = (_, refl, p)
      opened-Comes task_id input (o', ok (inr (turn_id, group))) o p =
          let (q, g, a) = run-Comes task_id turn_id input group o' in (q, g, go_on p a)

      pub execute-Comes :
          (task_id input : String) (group : Option String) (o : O)
          → Comes o (execute_turn E w deadlines task_id input group o)
      unfolding execute_turn
      execute-Comes task_id input group o =
          opened-Comes task_id input _ o (open-Moves E task_id input group o)

      begin_redo-Moves :
          (task_id : String) (redo : RedoContext) → Moves (begin_redo E w deadlines task_id redo)
      begin_redo-Moves task_id redo o =
          after-Advances (register E task_id redo.turn_id redo.redo_group o) _
            (register-Moves E task_id redo.turn_id redo.redo_group o)
            (λ channel. λ o1.
              after-Advances (get_cached_llm_responses E task_id redo.turn_id o1) _
                (cached-Moves E task_id redo.turn_id o1)
                (λ cached. λ o2.
                  after-Advances
                    (enqueue_and_dispatch E task_id redo.turn_id redo.user_input redo.redo_group
                      redo.redo_count cached o2)
                    _
                    (enqueue-Moves E task_id redo.turn_id redo.user_input redo.redo_group
                      redo.redo_count cached o2)
                    (λ u. λ o3. stays refl refl refl)))

      redo_begun-ComesTo :
          (task_id : String) (redo : RedoContext) (r : O × Result ℕ) (o : O)
          → Advances o r.0
          → ComesTo o (redo_if_begun E w deadlines task_id redo r)
      redo_begun-ComesTo task_id redo (o', ok channel) o p =
          let (q, g, a) =
            redo-ComesTo (length deadlines) channel task_id redo.turn_id 0 o' some_deadline
              (omega arith) in
          (q, g, go_on p a)
      redo_begun-ComesTo task_id redo (o', err e) o p =
          (_, refl, go_on p (give_up-Advances task_id redo.turn_id _ _ o'))

      redo_turns-ComesTo :
          (task_id : String) (redos : List RedoContext) (o : O)
          → ComesTo o (redo_turns E w deadlines task_id redos o)
      unfolding redo_turns redo_turn
      redo_turns-ComesTo task_id [] o = (_, refl, stays refl refl refl)
      redo_turns-ComesTo task_id (redo ∷ redos) o =
          let (o1, g, a) =
            redo_begun-ComesTo task_id redo (begin_redo E w deadlines task_id redo o) o
              (begin_redo-Moves task_id redo o) in
          let (o2, h, c) = redo_turns-ComesTo task_id redos o1 in (o2, rw g h, go_on a c)

      checked-Moves :
          (task_id : String) (queue : List RedoContext)
          → Moves (checked_queue E w deadlines task_id queue)
      checked-Moves task_id [] o = stays refl refl refl
      checked-Moves task_id (redo ∷ redos) o =
          after-Advances (resolve_task_type E task_id o) _ (resolve-Moves E task_id o)
            (λ kind. λ o1. stays refl refl refl)

      queue-Moves : (task_id : String) → Moves (redo_queue_of E w deadlines task_id)
      queue-Moves task_id o =
          after-Advances (lift (recover_task j store b now texts.usize task_id) o) _
            (stored (recover_task j store b now texts.usize task_id o.store))
            (λ queue. checked-Moves task_id queue)

      read-ComesTo :
          (task_id : String) (r : O × Result (List RedoContext)) (o : O)
          → Advances o r.0
          → ComesTo o (redo_if_read E w deadlines task_id r)
      read-ComesTo task_id (o', ok queue) o p =
          let (q, g, a) = redo_turns-ComesTo task_id queue o' in (q, g, go_on p a)
      read-ComesTo task_id (o', err e) o p = (_, refl, p)

      pub ended-ComesTo :
          (x : Option (O × Result TurnOutcome)) (o : O)
          → Comes o x
          → ComesTo o (ended E w deadlines x)
      ended-ComesTo x o (r, g, a) = (r.0, rw g refl, a)

      pub job-ComesTo : (job : Job) (o : O) → ComesTo o (run_job E w deadlines job o)
      unfolding run_job background_recovery
      job-ComesTo (recovery task_id) o =
          read-ComesTo task_id (redo_queue_of E w deadlines task_id o) o (queue-Moves task_id o)
      job-ComesTo (run_turn task_id turn_id input group) o =
          ended-ComesTo _ o (run-Comes task_id turn_id input group o)
