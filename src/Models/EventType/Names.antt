-- ===== src/Models/EventType/Names.antt =====
-- The names of event types: `from_str`, `as_str` and `all_str_variants`.
use lv_fixus.Common.{String, true, some, ◌≡◌, refl, ◌↔◌, any}
use lv_fixus.Common.{◌==◌, string_eq}
use lv_fixus.Common.Literal.{match_str_sound, match_str_complete}
use lv_fixus.Models.EventType.{
  EventType, session_started, event_arms, from_str, as_str, all_str_variants,
}

-- Reading back the name of an event type gives the event type.
pub from_str-as_str : (e : EventType) → from_str (as_str e) ≡ some e
unfolding from_str as_str
from_str-as_str session_started = refl
from_str-as_str _ = refl

-- A text that reads as an event type is its name, so no two texts read alike.
pub as_str_of_from_str : (s : String) {e : EventType} → from_str s ≡ some e → as_str e ≡ s
unfolding from_str as_str
as_str_of_from_str s h = match_str_sound as_str event_arms s refl h

-- The list of names holds exactly the texts that read as an event type.
pub all_str_variants_iff :
    (s : String)
    → (any (λ v. v == s) all_str_variants ≡ true) ↔ ((e : EventType) × (from_str s ≡ some e))
unfolding all_str_variants from_str
all_str_variants_iff s = match_str_complete event_arms s
