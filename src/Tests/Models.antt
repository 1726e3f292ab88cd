-- ===== src/Tests/Models.antt =====
-- The theorems on src/models.rs at concrete inputs.
use lv_fixus.Common.{none, some, ◌≡◌, refl, ◌↔◌, string_eq}
use lv_fixus.Models.EventType.{EventType}
use lv_fixus.Models.TaskState.{succeeded, is_terminal}
use lv_fixus.Models.Guard.{target, validate_task_event_transition}
use lv_fixus.Models.Guard.Sound.{guard_terminal_iff}
use lv_fixus.Error.{ok}

guard_terminal_iff_example :
    (validate_task_event_transition (some succeeded) EventType.llm_failed ≡ ok tt)
    ↔ (target EventType.llm_failed ≡ none)
guard_terminal_iff_example =
    guard_terminal_iff succeeded EventType.llm_failed (unfold is_terminal in refl)
