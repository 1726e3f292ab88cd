-- ===== src/Orchestrator/Safe.antt =====
-- Sequences of operations of src/orchestrator.rs against the gate of src/dispatcher.rs and the waiting calls
-- of src/task_registry.rs.
use mathlib.Core.Path.{subst}
use lv_fixus.Common.{
  sym, some_inj, some, ℕ, ◌+◌, ◌≤◌, List, [], ◌∷◌, ◌≡◌, refl, ◌∙◌, arith, length, if◌then◌else◌,
  ltb,
}
use lv_fixus.Registry.Waiters.{waiting, answered, run-new-balance}
use lv_fixus.Orchestrator.{Env, Orchestrator, new}
use lv_fixus.Orchestrator.Steps.{Readings}
use lv_fixus.Orchestrator.Wait.{Runtime, compute_extension_deadlines}
use lv_fixus.Orchestrator.Run.{
  Operation, record_arrives, call_execute, call_start_async, job_runs, watchdog_looks, perform,
  perform_all,
}
use lv_fixus.Orchestrator.Drives.{Advances, stays, go_on}
use lv_fixus.Orchestrator.Records.{record-Advances, reclaim-Advances}
use lv_fixus.Orchestrator.Waits.{start_async-Moves}
use lv_fixus.Orchestrator.Returns.{ComesTo, WaitsAdvance, execute-Comes, job-ComesTo, ended-ComesTo}

-- From a new orchestrator on, the registrations and answers on a channel are 1 if it was made, and else 0.
pub Advances-balance :
    {S : Type 0} (s : S) (o : Orchestrator S)
    → Advances (new s) o
    → (c : ℕ)
    → waiting c o.registry.active_turns + answered c o.registry.sent
      ≡ (if ltb c o.channels then 1 else 0)
Advances-balance s o a c = rw a.answered (run-new-balance c a.answers ∙ a.fresh c ∙ ground arith)

some_deadline :
    (scale : ℕ → ℕ) (initial extensions : ℕ)
    → 1 ≤ length (compute_extension_deadlines scale initial extensions)
unfolding compute_extension_deadlines
some_deadline scale initial extensions = omega arith

module _ (E : Env) (w : Runtime (Orchestrator E.S)) (scale : ℕ → ℕ) (initial extensions : ℕ)
    (r : Readings E.j.Value) where
  abbrev deadlines : List ℕ
  deadlines = compute_extension_deadlines scale initial extensions

  abbrev O : Type 0
  O = Orchestrator E.S

  module _ (waits : WaitsAdvance E w deadlines) where
    perform-ComesTo :
        (op : Operation E.j.Value) (o : O) → ComesTo E w deadlines o (perform E w deadlines r op o)
    unfolding perform
    perform-ComesTo (record_arrives rec) o = (_, refl, record-Advances E r rec o)
    perform-ComesTo (call_execute task_id input group) o =
        ended-ComesTo E w deadlines waits (some_deadline scale initial extensions) _ o (
          execute-Comes E w deadlines waits (some_deadline scale initial extensions) task_id input
            group o)
    perform-ComesTo (call_start_async task_id input group) o =
        (_, refl, start_async-Moves E task_id input group o)
    perform-ComesTo (job_runs job) o =
        job-ComesTo E w deadlines waits (some_deadline scale initial extensions) job o
    perform-ComesTo (watchdog_looks lease) o = (_, refl, reclaim-Advances E lease o)

    perform_all-ComesTo :
        (ops : List (Operation E.j.Value)) (o : O)
        → ComesTo E w deadlines o (perform_all E w deadlines r ops o)
    unfolding perform_all
    perform_all-ComesTo [] o = (_, refl, stays refl refl refl)
    perform_all-ComesTo (op ∷ ops) o =
        let (o1, g, a) = perform-ComesTo op o in
        let (o2, h, c) = perform_all-ComesTo ops o1 in (o2, rw g h, go_on a c)

    -- Whatever the store answers, and if what other tasks do during a wait is operations as well, any
    -- sequence of operations on any orchestrator comes to an end: each call that waits for a turn returns
    -- within as many rounds as there are deadlines.
    pub perform_all-ends :
        (ops : List (Operation E.j.Value)) (o : O)
        → (o' : O) × (perform_all E w deadlines r ops o ≡ some o')
    perform_all-ends ops o = let (o', g, a) = perform_all-ComesTo ops o in (o', g)

    pub perform_all-Advances :
        (ops : List (Operation E.j.Value)) (o o' : O)
        → perform_all E w deadlines r ops o ≡ some o'
        → Advances o o'
    perform_all-Advances ops o o' h =
        let (o1, g, a) = perform_all-ComesTo ops o in subst (Advances o) (some_inj (sym g ∙ h)) a
