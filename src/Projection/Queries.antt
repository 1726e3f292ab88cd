-- ===== src/Projection/Queries.antt =====
-- The queries of `TaskProjection` in src/projection.rs. `HashMap`s are read in the order of the
-- model's association lists; the program's order is unspecified.
pub mod Turns
use lv_fixus.Common.{
  String, Bool, true, false, Option, none, some, List, [], ◌∷◌, ◌++◌, ◌≡◌, refl, ◌∙◌, ap, arith,
  if◌then◌else◌, unwrap_or, opt_bind, leb, map-eq, ◌==◌, string_eq, map, filter, ℕ, ◌&&◌,
  Bool-cases, inl, inr,
}
use lv_fixus.Common.Int.{ℤ, pos, ltb_ℤ, as_i32, int_eq}
use lv_fixus.Common.Map.{Map, get, values}
use lv_fixus.Json.{Json, at}
use lv_fixus.Models.EventType
use lv_fixus.Models.EventType.{is_step_start, is_llm_completed}
use lv_fixus.Models.Event.{AgentEvent}
use lv_fixus.Models.Records.{IncompleteTurn, IncompleteStep}
use lv_fixus.Projection.{Decoders, TaskProjection, CompletedStep, new}
use lv_fixus.Projection.Apply.Log.{project}
use lv_fixus.Projection.Apply.Index.{seqs_of, last_with, project-turn_seqs, project-by_seq}

-- `filter_map`
abbrev pub filter_map {ℓ κ} : {A : Type ℓ} {B : Type κ} → (A → Option B) → List A → List B
filter_map f [] = []
filter_map f (x ∷ xs) = elim (f x) [ none ↦ filter_map f xs | some y ↦ y ∷ filter_map f xs ]

-- a difference of time stamps, in milliseconds with its sign
pub record StepExecution (Duration : Type 0) : Type 0 where
  pub step_id : String
  pub step_type : Option String
  pub started_at : ℕ
  pub ended_at : Option ℕ
  pub end_event : Option String
  pub duration_ms : Option Duration

abbrev pub head : {A : Type 0} → List A → Option A
head [] = none
head (x ∷ xs) = some x

module _ {V : Type 0} where
  unfoldable pub event_at : TaskProjection V → ℤ → Option (AgentEvent V)
  event_at p seq = get seq p.by_seq

  unfoldable pub turn_seqs : TaskProjection V → ℤ → List ℤ
  turn_seqs p turn_id = unwrap_or [] (get turn_id p.by_turn_id)

  unfoldable pub after_seq : TaskProjection V → ℤ → List (AgentEvent V)
  after_seq p after = map (λ entry. entry.1) (filter (λ entry. ltb_ℤ after entry.0) p.by_seq)

  abbrev pub as_incomplete : String × (ℤ × AgentEvent V) → IncompleteStep V
  as_incomplete (sid, (seq, ev)) = record {
    seq = seq;
    turn_id = unwrap_or (pos 0) ev.turn_id;
    step_id = sid;
    start_event_type = EventType.as_str ev.event_type;
    payload = ev.payload;
    started_at = ev.created_at;
  }

  unfoldable pub incomplete_steps : TaskProjection V → List (IncompleteStep V)
  incomplete_steps p = map as_incomplete p.active_steps

module _ (j : Json) where
  abbrev pub turn_of_event : ℤ → AgentEvent j.Value → IncompleteTurn
  turn_of_event tid e = record {
    turn_id = tid;
    redo_group = unwrap_or "?" (j.as_str (at j e.payload "redo_group"));
    redo_count = as_i32 (unwrap_or (pos 0) (j.as_i64 (at j e.payload "redo_count")));
    turn_started_at = e.created_at;
  }

  -- the first event of the turn stands for its start
  abbrev pub incomplete_turn : TaskProjection j.Value → ℤ → Option IncompleteTurn
  incomplete_turn p tid = opt_bind (get tid p.by_turn_id) (λ seqs.
      opt_bind (head seqs) (λ s. opt_bind (get s p.by_seq) (λ e. some (turn_of_event tid e))))

  unfoldable pub incomplete_turns : TaskProjection j.Value → List IncompleteTurn
  incomplete_turns p = filter_map (incomplete_turn p) p.active_turns

  -- `serde_json::to_string(payload).unwrap_or_default()` is the parameter `print`
  unfoldable pub llm_payloads_after_seq :
      (j.Value → String) → TaskProjection j.Value → ℤ → List String
  llm_payloads_after_seq print p after =
      map (λ entry. print (entry.1).payload)
        (filter (λ entry. is_llm_completed (entry.1).event_type)
          (filter (λ entry. ltb_ℤ after entry.0) p.by_seq))

  -- `minus` is the difference of two time stamps in milliseconds, as a floating-point number
  module _ {Duration : Type 0} (minus : ℕ → ℕ → Duration) where
    abbrev pub end_of_step :
        TaskProjection j.Value
        → AgentEvent j.Value
        → Option (CompletedStep j.Value)
        → Option ℕ × Option String × Option Duration
    end_of_step p e none = (none, none, none)
    end_of_step p e (some (start, start_event, term_type, term_seq)) =
        let term = get term_seq p.by_seq in
        (
          opt_bind term (λ t. some t.created_at),
          some term_type,
          opt_bind term (λ t. some (minus t.created_at e.created_at)),
        )

    abbrev pub execution_of :
        TaskProjection j.Value → AgentEvent j.Value → String → StepExecution Duration
    execution_of p e sid =
        let (ended_at, end_event, duration_ms) = end_of_step p e (get sid p.completed_steps) in
        record {
          step_id = sid;
          step_type = opt_bind (j.get e.payload "step_type") j.as_str;
          started_at = e.created_at;
          ended_at = ended_at;
          end_event = end_event;
          duration_ms = duration_ms;
        }

    abbrev pub step_of_event :
        TaskProjection j.Value → AgentEvent j.Value → Option (StepExecution Duration)
    step_of_event p e =
        opt_bind e.step_id
          (λ sid. if is_step_start e.event_type then some (execution_of p e sid) else none)

    -- `sort_by_key`, which is stable
    abbrev pub insert_step :
        StepExecution Duration → List (StepExecution Duration) → List (StepExecution Duration)
    insert_step s [] = s ∷ []
    insert_step s (t ∷ ts) =
        let rest = insert_step s ts in
        if leb s.started_at t.started_at then s ∷ t ∷ ts else t ∷ rest

    abbrev pub sort_steps : List (StepExecution Duration) → List (StepExecution Duration)
    sort_steps [] = []
    sort_steps (s ∷ ts) = insert_step s (sort_steps ts)

    unfoldable pub turn_steps : TaskProjection j.Value → ℤ → List (StepExecution Duration)
    turn_steps p turn_id = sort_steps (
        filter_map (λ s. opt_bind (get s p.by_seq) (step_of_event p))
          (unwrap_or [] (get turn_id p.by_turn_id)))
