-- ===== src/Orchestrator/Answers.antt =====
-- The answers that the ends of turns in src/orchestrator.rs give to the calls that wait for them.
use lv_fixus.Common.{ℕ, List}
use lv_fixus.Orchestrator.{Env, Orchestrator}
use lv_fixus.Orchestrator.Steps.{Readings}
use lv_fixus.Orchestrator.Wait.{Runtime, compute_extension_deadlines}

module _ (E : Env) where
  open E use {j, b, S, store, now}

  abbrev O : Type 0
  O = Orchestrator S

module _ (E : Env) (w : Runtime (Orchestrator E.S)) (scale : ℕ → ℕ) (initial extensions : ℕ)
    (r : Readings E.j.Value) where
  abbrev deadlines : List ℕ
  deadlines = compute_extension_deadlines scale initial extensions
