-- ===== src/Tests/Stream.antt =====
-- The stream of a turn's events at concrete inputs, with numbers written as the texts "1" and "2".
use lv_fixus.Common.{
  String, ℕ, Option, none, some, List, [], ◌∷◌, ◌++◌, ◌≡◌, refl, arith, ◌==◌, string_eq,
  if◌then◌else◌,
}
use lv_fixus.Common.Int.{ℤ, pos}
use lv_fixus.Common.Map.{get}
use lv_fixus.Stream.{Record, of_turn, is_terminal, plan_history_replay, stream_turn}
use lv_fixus.Stream.Replay.{until_terminal, stream_turn-once}

abbrev parse_i64 : String → Option ℤ
parse_i64 s = if s == "1" then some (pos 1) else if s == "2" then some (pos 2) else none

abbrev entry : ℕ → String → String → Record String
entry seq turn event_type = record {
  seq = seq;
  event_type = event_type;
  metadata = ("turn_id", turn) ∷ [];
  content = "{}";
}

abbrev started : List (Record String)
started = entry 1 "1" "turn_started" ∷ entry 2 "2" "turn_started" ∷ []

abbrev invoked : List (Record String)
invoked = entry 3 "1" "llm_invoked" ∷ []

abbrev ended : List (Record String)
ended = entry 4 "1" "turn_completed" ∷ entry 5 "1" "llm_invoked" ∷ []

-- the records out of order, and one after the end
shuffled :
    (plan_history_replay parse_i64 (λ s. s) (ended ++ invoked ++ started) (pos 1)).events
    ≡ ("turn_started", "{}") ∷ ("llm_invoked", "{}") ∷ ("turn_completed", "{}") ∷ []
unfolding of_turn get is_terminal
shuffled = refl

stream_turn-once_example :
    (stream_turn parse_i64 (λ s. s) (pos 1) (some (started ++ invoked)) (invoked ++ ended)
      ≡ ("turn_started", "{}")
        ∷ ("llm_invoked", "{}")
        ∷ ("turn_completed", "{}")
        ∷ ("done", "{}")
        ∷ [])
    × (stream_turn parse_i64 (λ s. s) (pos 1) none ended
        ≡ ("turn_completed", "{}") ∷ ("done", "{}") ∷ [])
unfolding until_terminal of_turn get is_terminal
stream_turn-once_example =
    stream_turn-once parse_i64 (λ s. s) (pos 1) 2 3 5 started invoked ended (omega arith)
      (omega arith) (omega arith) (omega arith)
