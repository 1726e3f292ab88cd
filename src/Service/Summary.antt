-- ===== src/Service/Summary.antt =====
-- Summaries in src/service.rs: when one is due, and the marker that records it.
use lv_fixus.Common.{
  String, Bool, true, Option, none, some, ℕ, List, [], ◌∷◌, not, ◌||◌, unwrap_or, opt_bind, ◌≡◌,
  ◌↔◌, ◌⊎◌, arith,
}
use lv_fixus.Common.Int.{ℤ, pos, add_i64, ltb_ℤ, ◌≤ℤ◌}
use lv_fixus.Json.{Json, Build}
use lv_fixus.Models.EventType.{EventType, summary_marker}
use lv_fixus.Models.Event
use lv_fixus.Models.Event.{AgentEvent}
use lv_fixus.Store.{EventStore, Action, return, ◌>>=◌}
use lv_fixus.Service.{write_new}

pub record SummaryTrigger : Type 0 where
  pub turn_count_since_last_summary : ℤ
  pub token_estimate : ℤ
  pub event_count_since_last_summary : ℤ

-- `a >= b`
abbrev at_least : ℤ → ℤ → Bool
at_least a b = not (ltb_ℤ a b)

unfoldable pub should_summarize : SummaryTrigger → Bool
should_summarize t =
    at_least t.turn_count_since_last_summary (pos 50)
    || at_least t.token_estimate (pos 80000)
    || at_least t.event_count_since_last_summary (pos 500)

module _ (j : Json) where
  abbrev pub tokens_of : Option j.Value → ℤ
  tokens_of none = pos 0
  tokens_of (some p) =
      unwrap_or (pos 0)
        (opt_bind (j.get p "usage") (λ usage. opt_bind (j.get usage "total_tokens") j.as_i64))

  -- the loop over the payloads; `parse` is `serde_json::from_str`
  unfoldable pub estimate : (String → Option j.Value) → ℤ → List String → ℤ
  estimate parse total [] = total
  estimate parse total (text ∷ rest) = estimate parse (add_i64 total (tokens_of (parse text))) rest

  abbrev pub summarized_seq : Option (AgentEvent j.Value) → ℤ
  summarized_seq latest =
      unwrap_or (pos 0)
        (opt_bind latest (λ e. opt_bind (j.get e.payload "summarized_up_to_seq") j.as_i64))

  module _ {S : Type 0} (store : EventStore j.Value S) where
    unfoldable pub check_summary_trigger :
        (String → Option j.Value) → String → Action S SummaryTrigger
    check_summary_trigger parse task_id = do
      latest ← store.get_latest_summary task_id
      let since = summarized_seq latest
      turns ← store.count_turns_after_seq task_id since
      events ← store.count_events_after_seq task_id since
      payloads ← store.get_llm_payloads_after_seq task_id since
      return record {
        turn_count_since_last_summary = turns;
        token_estimate = estimate parse (pos 0) payloads;
        event_count_since_last_summary = events;
      }

  module _ (b : Build j) where
    open b use {object, string, int}

    abbrev pub summary_payload : ℤ → ℤ → String → ℤ → j.Value
    summary_payload turn_id seq summary covered = object (
        ("summarized_up_to_turn_id", int turn_id)
        ∷ ("summarized_up_to_seq", int seq)
        ∷ ("summary", string summary)
        ∷ ("covered_event_count", int covered)
        ∷ [])

    unfoldable pub write_summary_marker :
        {S : Type 0}
        → EventStore j.Value S
        → ℕ
        → String
        → ℤ
        → ℤ
        → String
        → ℤ
        → Action S (AgentEvent j.Value)
    write_summary_marker store now task_id turn_id seq summary covered = write_new store (
        Event.new now task_id none none summary_marker
          (summary_payload turn_id seq summary covered))

    unfoldable pub record_event :
        {S : Type 0}
        → EventStore j.Value S
        → ℕ
        → String
        → Option ℤ
        → Option String
        → EventType
        → j.Value
        → Action S ℤ
    record_event store now task_id turn_id step_id event_type payload =
        store.write_event (Event.new now task_id turn_id step_id event_type payload)

-- A summary is due exactly when one of the three counts has reached its threshold.
pub should_summarize_iff :
    (t : SummaryTrigger)
    → (should_summarize t ≡ true) ↔ (
        (pos 50 ≤ℤ t.turn_count_since_last_summary)
        ⊎ ((pos 80000 ≤ℤ t.token_estimate) ⊎ (pos 500 ≤ℤ t.event_count_since_last_summary)))
unfolding should_summarize
should_summarize_iff t = ground arith
