-- ===== src/Broker/Queries.antt =====
-- The reads of `BrokerEventStore` in src/broker_store.rs, which make the store an `EventStore`. A projection that
-- is not cached is made from the records of its stream.
use Prim.Native.String.{◌++◌ as concat}
use lv_fixus.Common.{
  String, Bool, true, false, Option, none, some, ℕ, zero, suc, ◌+◌, List, [], ◌∷◌, ◌⊎◌, inl, inr,
  filter, reverse, length, unwrap_or, opt_bind, if◌then◌else◌, leb, string_eq,
}
use lv_fixus.Common.Int.{ℤ, pos, negsuc, pos_part, neg_part, sub_ℕ, ltb_ℤ, max_ℤ}
use lv_fixus.Common.Map.{Map, insert}
use lv_fixus.Json.{Json}
use lv_fixus.Error.{AppError, Result, ok, err, internal}
use lv_fixus.Models.EventType.{summary_marker}
use lv_fixus.Models.Event.{AgentEvent}
use lv_fixus.Models.Records.{Task}
use lv_fixus.Models.TaskState.{TaskState, is_terminal}
use lv_fixus.Projection
use lv_fixus.Projection.{Decoders, TaskProjection}
use lv_fixus.Projection.Apply.{apply}
use lv_fixus.Projection.Cache.{catch_up, update_entry, invalidate}
use lv_fixus.Projection.Queries.{
  filter_map, head, event_at, turn_seqs, after_seq, incomplete_turns, incomplete_steps,
  llm_payloads_after_seq,
}
use lv_fixus.Store.{EventStore, Action, return, fail, ◌>>=◌, ◌>>◌}
use lv_fixus.Broker.{Writer, BrokerEventStore, applied, cached, encoded, write_event}

-- A record of a stream.
pub record StreamRecord (Content : Type 0) : Type 0 where
  pub seq : ℕ
  pub event_type : String
  pub content : Content
  pub metadata : Map String String

-- What reading a stream comes to: it cannot be joined, it breaks off with an error after some records, or
-- it ends.
pub data Consumed (Content : Type 0) : Type 0 where
  join_failed : String → Consumed Content
  broken : List (StreamRecord Content) → String → Consumed Content
  ended : List (StreamRecord Content) → Consumed Content

-- The broker's consumer, `to_string` of serde_json, and `replace('.', "-")`.
pub record Reader (j : Json) (Content B : Type 0) : Type 0 where
  pub consume : B → String → Consumed Content
  pub print : j.Value → String
  pub dots_to_dashes : String → String

abbrev pub i64_max : ℕ
i64_max = 9223372036854775807

-- `a.saturating_sub(b).max(0)`
abbrev pub difference : ℤ → ℤ → ℤ
difference a b =
    let d = max_ℤ (sub_ℕ (pos_part a + neg_part b) (pos_part b + neg_part a)) (pos 0) in
    if leb i64_max (pos_part d) then pos i64_max else d

abbrev take_n : {A : Type 0} → ℕ → List A → List A
take_n zero xs = []
take_n (suc n) [] = []
take_n (suc n) (x ∷ xs) = x ∷ take_n n xs

-- `take(limit as usize)`: a negative limit is larger than any list
abbrev pub take_i64 : {A : Type 0} → ℤ → List A → List A
take_i64 (pos n) xs = take_n n xs
take_i64 (negsuc n) xs = xs

module _ (j : Json) {Content B : Type 0} (w : Writer j Content B) (d : Decoders j Content)
    (r : Reader j Content B) (now : ℕ) where
  abbrev BrokerState : Type 0
  BrokerState = BrokerEventStore j w d

  -- the records of a stream on a projection; an error of one leaves the projection as it was
  unfoldable pub consume_all :
      List (StreamRecord Content) → TaskProjection j.Value → TaskProjection j.Value
  consume_all [] p = p
  consume_all (rec ∷ recs) p =
      consume_all recs
        (applied j w d p (apply j d now p rec.seq rec.event_type rec.content rec.metadata))

  abbrev broker_error : String → AppError
  broker_error e = internal (concat "broker: " e)

  -- a stream that breaks off has left its projection in the map, and not in the order of use
  abbrev pub caught_up : String → Consumed Content → Action BrokerState (Unit {0})
  caught_up task_id (join_failed e) s = (s, err (broker_error e))
  caught_up task_id (broken recs e) s = (
    record s {
      cache = update_entry s.cache task_id (Projection.new now task_id) (consume_all recs);
    },
    err (broker_error e),
  )
  caught_up task_id (ended recs) s = (
    record s { cache = catch_up s.cache task_id (Projection.new now task_id) (consume_all recs) },
    ok tt,
  )

  abbrev pub ensure_found : String → Option (TaskProjection j.Value) → Action BrokerState (Unit {0})
  ensure_found task_id (some p) s = (s, ok tt)
  ensure_found task_id none s = caught_up task_id (r.consume s.writer task_id) s

  unfoldable pub ensure_projection : String → Action BrokerState (Unit {0})
  ensure_projection task_id = do found ← cached j w d task_id; ensure_found task_id found

  -- the panic of `unwrap` stands as an error
  abbrev pub read_with :
      {A : Type 0}
      → (TaskProjection j.Value → A)
      → Option (TaskProjection j.Value)
      → Action BrokerState A
  read_with f none = fail (internal "called `Option::unwrap()` on a `None` value")
  read_with f (some p) = return (f p)

  abbrev pub with_projection :
      {A : Type 0} → String → (TaskProjection j.Value → A) → Action BrokerState A
  with_projection task_id f = do
    ensure_projection task_id
    found ← cached j w d task_id
    read_with f found

  abbrev pub task_of : String → TaskProjection j.Value → Option (Task j.Value)
  task_of task_id p = some record {
    task_id = task_id;
    tenant_id = unwrap_or "" p.provenance.source_tenant_id;
    user_id = unwrap_or "" p.provenance.source_user_id;
    task_type = p.task_type;
    state = p.state;
    provenance = p.provenance;
    body = p.body;
    created_at = p.provenance.created_at;
    metadata = none;
    priority = p.priority;
    effective_policy = p.effective_policy;
  }

  abbrev task_if_read :
      String → BrokerState × Result (Unit {0}) → BrokerState × Result (Option (Task j.Value))
  task_if_read task_id (s, ok u) = with_projection task_id (task_of task_id) s
  task_if_read task_id (s, err e) = (s, ok none)

  -- a stream that cannot be read gives no task and no error
  unfoldable pub get_task : String → Action BrokerState (Option (Task j.Value))
  get_task task_id s = task_if_read task_id (ensure_projection task_id s)

  unfoldable pub get_task_state : String → Action BrokerState (Option TaskState)
  get_task_state task_id = with_projection task_id (λ p. some p.state)

  abbrev is_read : BrokerState × Result (Unit {0}) → BrokerState × Result Bool
  is_read (s, ok u) = (s, ok true)
  is_read (s, err e) = (s, ok false)

  abbrev exists_if : String → Option (TaskProjection j.Value) → Action BrokerState Bool
  exists_if task_id (some p) s = (s, ok true)
  exists_if task_id none s = is_read (ensure_projection task_id s)

  unfoldable pub task_exists : String → Action BrokerState Bool
  task_exists task_id = do found ← cached j w d task_id; exists_if task_id found

  abbrev summary_of : String → TaskProjection j.Value → j.Value → AgentEvent j.Value
  summary_of task_id p text = record {
    task_id = task_id;
    seq = p.summarized_up_to_seq;
    turn_id = none;
    step_id = none;
    event_type = summary_marker;
    schema_version = 1;
    payload = text;
    created_at = now;
  }

  abbrev pub latest_summary_of : String → TaskProjection j.Value → Option (AgentEvent j.Value)
  latest_summary_of task_id p = opt_bind p.latest_summary (λ text. some (summary_of task_id p text))

  abbrev pub turn_events_of : ℤ → TaskProjection j.Value → List (AgentEvent j.Value)
  turn_events_of turn_id p = filter_map (event_at p) (turn_seqs p turn_id)

  abbrev starts_after : ℤ → TaskProjection j.Value → ℤ → Bool
  starts_after after p tid = elim (head (turn_seqs p tid)) [ none ↦ false | some s ↦ ltb_ℤ after s ]

  abbrev pub turns_after : ℤ → TaskProjection j.Value → ℤ
  turns_after after p = pos (length (filter (starts_after after p) p.recent_turn_ids))

  abbrev produced_begin : BrokerState → B × (String ⊎ ℕ) → BrokerState × Result (Unit {0})
  produced_begin s (writer, inl e) =
      (record s { writer = writer }, err (internal (concat "publish_turn_begin: " e)))
  produced_begin s (writer, inr seq) = (record s { writer = writer }, ok tt)

  abbrev produce_begin : String → String → Content → Action BrokerState (Unit {0})
  produce_begin task_id task_type content s = produced_begin s (
      w.produce s.writer (concat "task-begin-" (r.dots_to_dashes task_type)) "execute_turn" content
        0 (insert "event_type" "execute_turn" (insert "task_id" task_id [])))

  unfoldable pub publish_turn_begin : String → String → j.Value → Action BrokerState (Unit {0})
  publish_turn_begin task_id task_type payload = do
    content ← encoded j w d (w.to_vec payload)
    produce_begin task_id task_type content

  unfoldable pub invalidate_projection : String → BrokerState → BrokerState
  invalidate_projection task_id s = record s { cache = invalidate s.cache task_id }

  -- `impl EventStore for BrokerEventStore`
  abbrev pub broker_event_store : EventStore j.Value BrokerState
  broker_event_store = record {
    task_exists = task_exists;
    is_task_ended = λ task_id. with_projection task_id (λ p. is_terminal p.state);
    get_task_state = get_task_state;
    get_max_turn_id = λ task_id. with_projection task_id (λ p. p.max_turn_id);
    write_event = write_event j w d now;
    get_turn_events = λ task_id turn_id. with_projection task_id (turn_events_of turn_id);
    get_latest_summary = λ task_id. with_projection task_id (latest_summary_of task_id);
    get_incomplete_turns = λ task_id. with_projection task_id (incomplete_turns j);
    get_incomplete_steps = λ task_id. with_projection task_id incomplete_steps;
    count_turns_after_seq = λ task_id after. with_projection task_id (turns_after after);
    count_events_after_seq =
        λ task_id after. with_projection task_id (λ p. difference p.max_seq after);
    get_llm_payloads_after_seq =
        λ task_id after. with_projection task_id (λ p. llm_payloads_after_seq j r.print p after);
    get_task = get_task;
    get_max_seq = λ task_id. with_projection task_id (λ p. p.max_seq);
    get_event = λ task_id seq. with_projection task_id (λ p. event_at p seq);
    get_events_after_seq = λ task_id after. with_projection task_id (λ p. after_seq p after);
    get_recent_turn_ids =
        λ task_id limit. with_projection task_id (λ p. take_i64 limit (reverse p.recent_turn_ids));
    publish_turn_begin = publish_turn_begin;
    invalidate_projection = invalidate_projection;
  }
