-- ===== src/Models/TaskState/Lifecycle.antt =====
-- The shape of the task state machine.
use lv_fixus.Common.{
  String, Bool, true, false, some, List, [], ◌∷◌, ◌≡◌, refl, ◌↔◌, arith, ℕ, ◌≤◌, ◌+◌, length, count,
  ◌*◌, ◌∙◌, ◌++◌, ◌&&◌, and_true, if◌then◌else◌, sym,
}
use lv_fixus.Common.Literal.{match_str_sound}
use mathlib.Core.Bool.{false≢true}
use lv_fixus.Models.TaskState.{
  TaskState, created, ready, claimed, executing, blocked, canceled, state_arms, from_str, as_str,
  is_terminal, can_transition,
}

from_str-as_str : (t : TaskState) → from_str (as_str t) ≡ some t
unfolding from_str as_str
from_str-as_str created = refl
from_str-as_str _ = refl

-- A text reads as a state exactly when it is the name of that state.
pub from_str_iff : (s : String) (t : TaskState) → (from_str s ≡ some t) ↔ (as_str t ≡ s)
from_str_iff s t = (
  unfold from_str as_str in match_str_sound as_str state_arms s refl,
  λ e. rw (← e) (from_str-as_str t),
)

-- A state is terminal exactly when no transition leaves it, and it is live exactly when it can be
-- canceled.
pub is_terminal_iff :
    (s : TaskState)
    → ((is_terminal s ≡ true) ↔ ((t : TaskState) → can_transition s t ≡ false))
      × ((is_terminal s ≡ false) ↔ (can_transition s canceled ≡ true))
unfolding can_transition
is_terminal_iff s = ((λ h t. ground arith, λ h. ground (arith, h canceled, h ready)), ground arith)

-- The states that a task enters one after another from `s`.
abbrev pub is_history : TaskState → List TaskState → Bool
is_history s [] = true
is_history s (t ∷ ts) = can_transition s t && is_history t ts

abbrev pub last : TaskState → List TaskState → TaskState
last s [] = s
last s (t ∷ ts) = last t ts

abbrev pub is_blocked : TaskState → Bool
is_blocked blocked = true
is_blocked _ = false

-- how many transitions are left before the task ends or blocks
abbrev ahead : TaskState → ℕ
ahead created = 4
ahead ready = 3
ahead claimed = 2
ahead executing = 1
ahead blocked = 4
ahead _ = 0

ahead-step :
    (s t : TaskState)
    → can_transition s t ≡ true
    → ahead t + 1 ≤ ahead s + (if is_blocked t then 4 else 0)
unfolding can_transition
ahead-step s t h = ground arith

length-le-ahead :
    (s : TaskState) (ts : List TaskState)
    → is_history s ts ≡ true
    → length ts ≤ ahead s + 4 * count is_blocked ts
length-le-ahead s [] h = omega arith
length-le-ahead s (t ∷ ts) h = ground (arith, ahead-step s t, length-le-ahead t ts)

-- From creation a task makes at most four transitions for each time that it blocks, and four more.
pub length-history-le :
    (ts : List TaskState) → is_history created ts ≡ true → length ts ≤ 4 + 4 * count is_blocked ts
length-history-le ts h = length-le-ahead created ts h

-- A history ends with the first terminal state that it enters: nothing follows a terminal state.
pub history_ends :
    (s : TaskState) (ts us : List TaskState)
    → is_history s (ts ++ us) ≡ true
    → is_terminal (last s ts) ≡ true
    → us ≡ []
history_ends s [] [] h e = refl
history_ends s [] (t ∷ us) h e =
    absurd (false≢true (sym (((is_terminal_iff s).0.0 e t)) ∙ (and_true _ _ h).0))
history_ends s (t ∷ ts) us h e = history_ends t ts us (and_true _ _ h).1 e
