-- ===== src/Recovery/Decide.antt =====
-- How the decision on a turn follows from its steps.
use mathlib.Core.List.{append_assoc, append-nil}
use mathlib.Core.Path.{subst, fun_ext}
use lv_fixus.Common.{
  Bool, none, some, Option, String, unwrap_or, any-append, ◌==◌, string_eq, or_false, ap, true,
  false, List, [], ◌∷◌, ◌++◌, ◌≡◌, refl, arith, if◌then◌else◌, any, filter, not, Bool-cases, inl,
  inr,
}
use lv_fixus.Json.{Json}
use lv_fixus.Models.Records.{IncompleteTurn, IncompleteStep}
use lv_fixus.Recovery.{
  RecoveryDecision, safe_to_redo, requires_human_intervention, decide_recovery_from_steps, text_of,
  is_unsafe, listed, read_only_tools, idempotent_tools, non_idempotent_tools, classify_tool,
  step_is_unsafe, sort_steps, decided,
}

-- A step stands in the way of a redo if it names no tool, or one that neither list of harmless tools holds.
abbrev pub name_blocks : Option String → Bool
name_blocks none = true
name_blocks (some name) = not (any (λ tool. tool == name) (read_only_tools ++ idempotent_tools))

name_is_unsafe :
    (o : Option String) → is_unsafe (classify_tool (unwrap_or "unknown" o)) ≡ name_blocks o
unfolding classify_tool
name_is_unsafe none = refl
name_is_unsafe (some name) =
    rw (any-append (λ tool. tool == name) read_only_tools idempotent_tools)
      (elim (Bool-cases (listed read_only_tools name)) [
        | inl r ↦ rw r refl
        | inr r ↦ elim (Bool-cases (listed idempotent_tools name)) [
          | inl i ↦ rw (r, i) refl
          | inr i ↦ elim (Bool-cases (listed non_idempotent_tools name)) [
            | inl n ↦ rw (r, i, n) refl
            | inr n ↦ rw (r, i, n) refl
          ]
        ]
      ])

module _ (j : Json) where
  abbrev pub blocks_redo : IncompleteStep j.Value → Bool
  blocks_redo step = name_blocks (text_of j step.payload "tool_name")

  -- The decision, from the steps as a whole and a test for those that stand in the way.
  abbrev pub decision :
      (IncompleteStep j.Value → Bool)
      → IncompleteTurn
      → List (IncompleteStep j.Value)
      → RecoveryDecision j.Value
  decision blocks turn steps =
      if any blocks steps
      then requires_human_intervention turn.turn_id turn.redo_group (filter blocks steps)
      else safe_to_redo turn.turn_id turn.redo_group turn.redo_count steps

  sort_steps-eq :
      (turn : IncompleteTurn) (steps blocking safe : List (IncompleteStep j.Value))
      → sort_steps j turn steps blocking safe
        ≡ decided j turn
            (blocking ++ filter (step_is_unsafe j) steps)
            (safe ++ filter (λ s. not (step_is_unsafe j s)) steps)
  sort_steps-eq turn [] blocking safe = rw (append-nil blocking, append-nil safe) refl
  sort_steps-eq turn (step ∷ steps) blocking safe = elim (Bool-cases (step_is_unsafe j step)) [
    | inl u ↦
        (rw
          (
            u,
            sort_steps-eq turn steps (blocking ++ (step ∷ [])) safe,
            append_assoc blocking (step ∷ []) (filter (step_is_unsafe j) steps),
          )
          refl)
    | inr u ↦
        (rw
          (
            u,
            sort_steps-eq turn steps blocking (safe ++ (step ∷ [])),
            append_assoc safe (step ∷ []) (filter (λ s. not (step_is_unsafe j s)) steps),
          )
          refl)
  ]

  filter-none :
      (steps : List (IncompleteStep j.Value))
      → any (step_is_unsafe j) steps ≡ false
      → (filter (step_is_unsafe j) steps ≡ [])
        × (filter (λ s. not (step_is_unsafe j s)) steps ≡ steps)
  filter-none [] h = (refl, refl)
  filter-none (s ∷ steps) h =
      let (h0, h1) = or_false (step_is_unsafe j s) _ h in
      let (f0, f1) = filter-none steps h1 in (rw h0 f0, rw h0 (ap (λ l. s ∷ l) f1))

  decided-some :
      (turn : IncompleteTurn) (steps safe : List (IncompleteStep j.Value))
      → any (step_is_unsafe j) steps ≡ true
      → decided j turn (filter (step_is_unsafe j) steps) safe
        ≡ requires_human_intervention turn.turn_id turn.redo_group (filter (step_is_unsafe j) steps)
  decided-some turn [] safe h = absurd (ground arith)
  decided-some turn (s ∷ steps) safe h = elim (Bool-cases (step_is_unsafe j s)) [
    | inl u ↦ rw u refl
    | inr u ↦ rw u (decided-some turn steps safe (rw u at h))
  ]

  decide_recovery-sorted :
      (turn : IncompleteTurn) (steps : List (IncompleteStep j.Value))
      → decide_recovery_from_steps j turn steps ≡ decision (step_is_unsafe j) turn steps
  unfolding decide_recovery_from_steps
  decide_recovery-sorted turn [] = refl
  decide_recovery-sorted turn (step ∷ steps) =
      elim (Bool-cases (any (step_is_unsafe j) (step ∷ steps))) [
        | inl u ↦
            rw (sort_steps-eq turn (step ∷ steps) [] [], u) (decided-some turn (step ∷ steps) _ u)
        | inr u ↦
            (let (none_unsafe, all_safe) = filter-none (step ∷ steps) u in
              rw (sort_steps-eq turn (step ∷ steps) [] [], u, none_unsafe, all_safe) refl)
      ]

  -- A turn requires human intervention exactly when one of its incomplete steps stands in the way of a
  -- redo, with exactly those steps, in order: a step whose payload names no tool, as that of an LLM call,
  -- or names a tool that is listed neither as read-only nor as idempotent. Otherwise the turn is safe to
  -- redo, with all of its incomplete steps and its redo group and count.
  pub decide_recovery-eq :
      (turn : IncompleteTurn) (steps : List (IncompleteStep j.Value))
      → decide_recovery_from_steps j turn steps ≡ decision blocks_redo turn steps
  decide_recovery-eq turn steps =
      subst (λ p. decide_recovery_from_steps j turn steps ≡ decision p turn steps)
        (fun_ext (λ step. name_is_unsafe (text_of j step.payload "tool_name")))
        (decide_recovery-sorted turn steps)
