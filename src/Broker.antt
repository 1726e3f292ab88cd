-- ===== src/Broker.antt =====
-- The write path of `BrokerEventStore` in src/broker_store.rs. The broker is third-party code: `produce`
-- appends a record to the stream of a task and gives its sequence number or the text of an error.
pub mod Write
pub mod Queries
pub mod Session
pub mod Restart
use Prim.Native.String.{◌++◌ as concat}
use lv_fixus.Common.{String, Option, none, some, ℕ, List, [], ◌∷◌, ◌⊎◌, inl, inr, string_eq}
use lv_fixus.Common.Int.{ℤ, as_i64}
use lv_fixus.Common.Map.{Map, insert}
use lv_fixus.Json.{Json}
use lv_fixus.Error.{Result, ok, err, internal}
use lv_fixus.Models.EventType
use lv_fixus.Models.TaskState.{TaskState}
use lv_fixus.Models.Event.{AgentEvent, validate_scope}
use lv_fixus.Models.Payload.{validate_payload_required_fields}
use lv_fixus.Models.Guard.{validate_task_event_transition}
use lv_fixus.Projection.{Decoders, TaskProjection}
use lv_fixus.Projection.Apply.{apply}
use lv_fixus.Projection.Cache.{LruMap, lookup}
use lv_fixus.Store.{Action, return, fail, ◌>>=◌, ◌>>◌}

-- What the write path calls of other crates: `to_vec` of serde_json, `to_string` of an `i64`, and the
-- broker `B` with its `produce`, given the stream, the event type, the content, the time stamp and the
-- metadata; the shard key is the stream's name and the content type is that of JSON, in each call.
pub record Writer (j : Json) (Content B : Type 0) : Type 0 where
  pub to_vec : j.Value → String ⊎ Content
  pub display : ℤ → String
  pub produce : B → String → String → Content → ℕ → Map String String → B × (String ⊎ ℕ)

module _ (j : Json) {Content B : Type 0} (w : Writer j Content B) (d : Decoders j Content) where
  pub record BrokerEventStore : Type 0 where
    pub writer : B
    pub cache : LruMap (TaskProjection j.Value)

  abbrev with_turn : Option ℤ → Map String String → Map String String
  with_turn none m = m
  with_turn (some tid) m = insert "turn_id" (w.display tid) m

  abbrev with_step : Option String → Map String String → Map String String
  with_step none m = m
  with_step (some sid) m = insert "step_id" sid m

  unfoldable pub event_meta : AgentEvent j.Value → Map String String
  event_meta e =
      insert "event_type" (EventType.as_str e.event_type)
        (with_step e.step_id (with_turn e.turn_id (insert "task_id" e.task_id [])))

  -- `?` on a result that does not touch the store
  abbrev pub check : Result (Unit {0}) → Action BrokerEventStore (Unit {0})
  check (ok u) s = (s, ok u)
  check (err e) s = (s, err e)

  abbrev pub encoded : String ⊎ Content → Action BrokerEventStore Content
  encoded (inl e) = fail (internal (concat "json: " e))
  encoded (inr c) = return c

  abbrev pub hit :
      BrokerEventStore
      → LruMap (TaskProjection j.Value) × Option (TaskProjection j.Value)
      → BrokerEventStore × Result (Option (TaskProjection j.Value))
  hit s (cache, p) = (record s { cache = cache }, ok p)

  -- `self.cache.get(task_id)`
  unfoldable pub cached : String → Action BrokerEventStore (Option (TaskProjection j.Value))
  cached task_id s = hit s (lookup s.cache task_id)

  abbrev pub state_of : Option (TaskProjection j.Value) → Option TaskState
  state_of none = none
  state_of (some p) = some p.state

  abbrev pub produced : BrokerEventStore → B × (String ⊎ ℕ) → BrokerEventStore × Result ℕ
  produced s (writer, inl e) =
      (record s { writer = writer }, err (internal (concat "broker produce: " e)))
  produced s (writer, inr seq) = (record s { writer = writer }, ok seq)

  abbrev pub produce_event : ℕ → AgentEvent j.Value → Content → Action BrokerEventStore ℕ
  produce_event now e content s =
      produced s
        (w.produce s.writer e.task_id (EventType.as_str e.event_type) content now (event_meta e))

  -- `let _ = p.apply(…)`: an error leaves the projection as it was
  abbrev pub applied :
      TaskProjection j.Value → Result (TaskProjection j.Value) → TaskProjection j.Value
  applied p (ok q) = q
  applied p (err e) = p

  abbrev pub refresh :
      ℕ
      → AgentEvent j.Value
      → ℕ
      → Content
      → Option (TaskProjection j.Value)
      → Action BrokerEventStore (Unit {0})
  refresh now e seq content none s = (s, ok tt)
  refresh now e seq content (some p) s = (
    record s {
      cache = record s.cache {
        map =
            insert e.task_id
              (applied p
                (apply j d now p seq (EventType.as_str e.event_type) content (event_meta e)))
              s.cache.map;
      };
    },
    ok tt,
  )

  -- the part of `write_event` behind the three checks
  abbrev pub append_event : ℕ → AgentEvent j.Value → Action BrokerEventStore ℤ
  append_event now e = do
    content ← encoded (w.to_vec e.payload)
    seq ← produce_event now e content
    proj ← cached e.task_id
    refresh now e seq content proj
    return (as_i64 seq)

  unfoldable pub write_event : ℕ → AgentEvent j.Value → Action BrokerEventStore ℤ
  write_event now e = do
    check (validate_scope e)
    check (validate_payload_required_fields j e.event_type e.payload)
    current ← cached e.task_id
    check (validate_task_event_transition (state_of current) e.event_type)
    append_event now e
