-- ===== src/Stream.antt =====
-- The stream of a turn's events to a client, src/bin/fixus-stream/main.rs: the history that is replayed, then
-- the events as they come.
pub mod Replay
use lv_fixus.Common.{
  String, Bool, true, false, ℕ, Option, none, some, List, [], ◌∷◌, ◌++◌, map, filter, opt_bind,
  if◌then◌else◌, any, ◌==◌, string_eq, leb,
}
use lv_fixus.Common.Int.{ℤ, pos, as_i64, ltb_ℤ, max_ℤ, int_eq}
use lv_fixus.Common.Map.{get}

abbrev pub terminal_events : List String
terminal_events = "turn_completed" ∷ "turn_failed" ∷ "turn_canceled" ∷ "turn_blocked" ∷ []

unfoldable pub is_terminal : String → Bool
is_terminal et = any (λ t. t == et) terminal_events

-- what the code reads of a record of the log
pub record Record (B : Type 0) : Type 0 where
  pub seq : ℕ
  pub event_type : String
  pub metadata : List (String × String)
  pub content : B

pub record ReplayPlan : Type 0 where
  pub events : List (String × String)
  pub hit_terminal : Bool
  pub last_seq : ℤ

abbrev pub should_emit_live : ℤ → ℤ → Bool
should_emit_live rec_seq last_history_seq = ltb_ℤ last_history_seq rec_seq

module _ {B : Type 0} where
  -- `sort_by_key`, which is stable
  abbrev pub insert_record : Record B → List (Record B) → List (Record B)
  insert_record r [] = r ∷ []
  insert_record r (s ∷ recs) =
      let rest = insert_record r recs in if leb r.seq s.seq then r ∷ s ∷ recs else s ∷ rest

  abbrev pub sort_records : List (Record B) → List (Record B)
  sort_records [] = []
  sort_records (r ∷ recs) = insert_record r (sort_records recs)

-- `parse_i64` is `str::parse`, `lossy` is `String::from_utf8_lossy`
module _ {B : Type 0} (parse_i64 : String → Option ℤ) (lossy : B → String) where
  unfoldable pub of_turn : ℤ → Record B → Bool
  of_turn turn_id rec = elim (opt_bind (get "turn_id" rec.metadata) parse_i64) [
    | none ↦ false
    | some n ↦ n == turn_id
  ]

  abbrev pub sse_event : Record B → String × String
  sse_event rec = (rec.event_type, lossy rec.content)

  -- the loop over the records of the turn, with the number seen so far
  abbrev pub replay : ℤ → List (Record B) → ReplayPlan
  replay last [] = record { events = []; hit_terminal = false; last_seq = last }
  replay last (rec ∷ recs) =
      let seen = max_ℤ last (as_i64 rec.seq) in
      let rest = replay seen recs in
      if is_terminal rec.event_type
      then record { events = sse_event rec ∷ []; hit_terminal = true; last_seq = seen }
      else record rest { events = sse_event rec ∷ rest.events }

  abbrev pub plan_history_replay : List (Record B) → ℤ → ReplayPlan
  plan_history_replay history turn_id =
      replay (pos 0) (sort_records (filter (of_turn turn_id) history))

  -- the loop over the records that come, until the last event of the turn or the end of the stream
  abbrev pub live_events : ℤ → ℤ → List (Record B) → List (String × String)
  live_events last_history_seq turn_id [] = []
  live_events last_history_seq turn_id (rec ∷ recs) =
      let rest = live_events last_history_seq turn_id recs in
      if should_emit_live (as_i64 rec.seq) last_history_seq
      then (if of_turn turn_id rec
          then sse_event rec ∷ (if is_terminal rec.event_type then [] else rest)
          else rest)
      else rest

  abbrev pub done : String × String
  done = ("done", "{}")

  -- What a client that stays is sent: `history` is what is read of the log, if that succeeds, and `live` are the
  -- records that come.
  unfoldable pub stream_turn :
      ℤ → Option (List (Record B)) → List (Record B) → List (String × String)
  stream_turn turn_id history live =
      let plan : ReplayPlan = elim history [
        | none ↦ record { events = []; hit_terminal = false; last_seq = pos 0 }
        | some recs ↦ plan_history_replay recs turn_id
      ] in
      if plan.hit_terminal
      then plan.events ++ (done ∷ [])
      else plan.events ++ live_events plan.last_seq turn_id live ++ (done ∷ [])
