-- ===== src/Tests/Broker.antt =====
-- The theorem on src/broker_store.rs at a concrete input, over a broker that counts its records.
use lv_fixus.Common.{some, none, ℕ, ◌+◌, ◌≡◌, refl, [], ◌∷◌, inr, unwrap_or, string_eq}
use lv_fixus.Common.Int.{pos, as_i64}
use lv_fixus.Common.Map.{get}
use lv_fixus.Error.{Result, ok, err, invalid_task_state_transition}
use lv_fixus.Models.EventType.{turn_started, task_succeeded}
use lv_fixus.Models.Event
use lv_fixus.Models.Event.{AgentEvent, validate_scope}
use lv_fixus.Models.TaskState.{
  TaskState, ready, claimed, executing, blocked, succeeded, failed, canceled, can_transition,
}
use lv_fixus.Store.{EventStore}
use lv_fixus.Service.{
  transition_task, mark_task_ready, claim_task, block_task, succeed_task, fail_task, cancel_task,
}
use lv_fixus.Broker.Queries.{
  Reader, join_failed, get_task_state, ensure_projection, broker_event_store,
}
use lv_fixus.Broker.Session.{ended_refuses}
use lv_fixus.Models.Payload.{validate_payload_required_fields}
use lv_fixus.Models.Guard.{target, validate_task_event_transition}
use lv_fixus.Projection.{TaskProjection}
use lv_fixus.Projection.Cache.{lookup}
use lv_fixus.Broker.{Writer, BrokerEventStore, cached, write_event}
use lv_fixus.Broker.Write.{write_event-ok}
use lv_fixus.Broker.Restart.{IsRefused, executing_starts_no_turn}
use lv_fixus.Service.{start_turn, start_turn_redo}
use lv_fixus.Tests.Values.{JsonValue, null, json, build}
use lv_fixus.Tests.Projection.{decoders, start, ready_task}

abbrev counting : Writer json JsonValue ℕ
counting = record {
  to_vec = λ v. inr v;
  display = λ n. "1";
  produce = λ b stream et content ts meta. (b + 1, inr b);
}

abbrev before : BrokerEventStore json counting decoders
before = record {
  writer = 4;
  cache = record { map = ("t", ready_task) ∷ []; order = "t" ∷ []; cap = 5 };
}

abbrev written : BrokerEventStore json counting decoders
written = (write_event json counting decoders 9 start before).0

write_event-ok_example :
    (validate_scope start ≡ ok tt)
    × (validate_payload_required_fields json turn_started start.payload ≡ ok tt)
    × (validate_task_event_transition (some ready_task.state) turn_started ≡ ok tt)
    × ((q : TaskProjection JsonValue) × (get "t" written.cache.map ≡ some q)
        × (q.state ≡ unwrap_or ready_task.state (target turn_started)))
write_event-ok_example =
    write_event-ok json counting decoders 9 start before written (pos 4) ready_task
      (unfold get in refl)
      (unfold write_event validate_scope validate_payload_required_fields cached lookup get
          validate_task_event_transition as_i64 in
        refl)

abbrev reader : Reader json JsonValue ℕ
reader = record {
  consume = λ b stream. join_failed "no broker";
  print = λ v. "value";
  dots_to_dashes = λ s. s;
}

abbrev running : BrokerEventStore json counting decoders
running = record {
  writer = 4;
  cache = record {
    map = ("t", record ready_task { state = executing }) ∷ [];
    order = "t" ∷ [];
    cap = 5;
  };
}

abbrev live : EventStore JsonValue (BrokerEventStore json counting decoders)
live = broker_event_store json counting decoders reader 9

abbrev finished : BrokerEventStore json counting decoders
finished = (transition_task live 9 "t" succeeded task_succeeded null running).0

abbrev refusal_at :
    BrokerEventStore json counting decoders
    → TaskState
    → BrokerEventStore json counting decoders × Result (AgentEvent JsonValue)
refusal_at s x = (s, err (invalid_task_state_transition "t" succeeded x))

ended_refuses_example :
    (s : BrokerEventStore json counting decoders) × (live.get_task_state "t" finished
      ≡ (s, ok (some succeeded)))
    × (s.writer ≡ finished.writer)
    × (s.cache.map ≡ finished.cache.map)
    × ((mark_task_ready json build live 9 "t" finished ≡ refusal_at s ready)
        × (claim_task json build live 9 "t" "x" finished ≡ refusal_at s claimed)
        × (block_task json build live 9 "t" "x" finished ≡ refusal_at s blocked)
        × (succeed_task json build live 9 "t" "x" finished ≡ refusal_at s succeeded)
        × (fail_task json build live 9 "t" "x" none finished ≡ refusal_at s failed)
        × (cancel_task json build live 9 "t" "x" finished ≡ refusal_at s canceled))
unfolding transition_task get_task_state ensure_projection write_event validate_scope
    validate_payload_required_fields cached lookup get validate_task_event_transition can_transition
    as_i64 Event.new
ended_refuses_example =
    ended_refuses json build counting decoders reader 9 "t" "x" none succeeded task_succeeded null
      running finished (record (Event.new 9 "t" none none task_succeeded null) { seq = pos 4 })
      (record ready_task { state = executing }) refl refl refl refl

executing_starts_no_turn_example :
    IsRefused json build counting decoders reader 9 running
      (start_turn json build live 9 "t" "hello" none "fresh" running)
    × IsRefused json build counting decoders reader 9 running
        (start_turn_redo json build live 9 "t" (pos 1) "hello" "g" (pos 1) running)
executing_starts_no_turn_example =
    executing_starts_no_turn json build counting decoders reader 9 "t" "hello" "fresh" "g" none
      (pos 1) (pos 1) running (record ready_task { state = executing }) (unfold get in refl) refl
