-- ===== src/Policy/Path.antt =====
-- Paths as `std::path` gives them: the list of their components. `Path::components` has dropped the
-- repeated separators and the inner `.`; two paths are equal, and one starts with another, by
-- components.
use lv_fixus.Common.{
  String, Bool, true, false, ◌&&◌, List, [], ◌∷◌, ◌++◌, ◌==◌, string_eq, ◌≡◌, arith, KeyEq, ◌↔◌,
}

-- `std::path::Component` on Unix
pub data Component : Type 0 where
  root_dir cur_dir parent_dir : Component
  normal : String → Component

abbrev pub FilePath : Type 0
FilePath = List Component

abbrev pub component_beq : Component → Component → Bool
component_beq root_dir root_dir = true
component_beq cur_dir cur_dir = true
component_beq parent_dir parent_dir = true
component_beq (normal a) (normal b) = a == b
component_beq _ _ = false

pub component_beq_iff : (a b : Component) → (component_beq a b ≡ true) ↔ (a ≡ b)
component_beq_iff root_dir b = ground arith
component_beq_iff cur_dir b = ground arith
component_beq_iff parent_dir b = ground arith
component_beq_iff (normal a) root_dir = ground arith
component_beq_iff (normal a) cur_dir = ground arith
component_beq_iff (normal a) parent_dir = ground arith
component_beq_iff (normal a) (normal b) = ground (arith, string_eq.same_iff a b)

instance abbrev pub component_eq : KeyEq Component
component_eq = record { same = component_beq; same_iff = component_beq_iff }

abbrev pub path_beq : FilePath → FilePath → Bool
path_beq [] [] = true
path_beq (a ∷ p) (b ∷ q) = a == b && path_beq p q
path_beq _ _ = false

-- `Path::starts_with(p, base)`
abbrev pub starts_with : FilePath → FilePath → Bool
starts_with p [] = true
starts_with [] (b ∷ base) = false
starts_with (a ∷ p) (b ∷ base) = a == b && starts_with p base

-- `Vec::pop`
abbrev pub drop_last : FilePath → FilePath
drop_last [] = []
drop_last (a ∷ []) = []
drop_last (a ∷ b ∷ p) = a ∷ drop_last (b ∷ p)

-- one round of the loop of `normalize_path`
abbrev pub push_part : FilePath → Component → FilePath
push_part parts cur_dir = parts
push_part parts parent_dir = drop_last parts
push_part parts root_dir = parts ++ root_dir ∷ []
push_part parts (normal a) = parts ++ normal a ∷ []

abbrev pub push_parts : FilePath → FilePath → FilePath
push_parts parts [] = parts
push_parts parts (c ∷ rest) = push_parts (push_part parts c) rest

-- `iter().collect::<PathBuf>()` pushes the parts in turn, and an absolute part replaces the rest
abbrev pub collect_from : FilePath → FilePath → FilePath
collect_from path [] = path
collect_from path (root_dir ∷ rest) = collect_from (root_dir ∷ []) rest
collect_from path (c ∷ rest) = collect_from (path ++ c ∷ []) rest

unfoldable pub normalize_path : FilePath → FilePath
normalize_path path = collect_from [] (push_parts [] path)
