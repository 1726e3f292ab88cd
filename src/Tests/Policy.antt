-- ===== src/Tests/Policy.antt =====
-- The theorems on src/policy.rs at concrete policies.
use lv_fixus.Common.{true, false, [], ◌∷◌, ◌≡◌, refl}
use lv_fixus.Policy.Path.{FilePath, root_dir, parent_dir, cur_dir, normal, normalize_path}
use lv_fixus.Policy.{
  PathScope, CapabilityPolicy, reader, work_dir, host, path_within, push_if_new, intersect_from,
  intersect_set, intersect_fs, role_narrow, resolve_effective, validate_subset, ok, allows,
}
use lv_fixus.Policy.Subset.{validate_subset_sound}
use lv_fixus.Policy.Narrow.{resolve_effective_sound}
use lv_fixus.Policy.Gaps.{writes, intersect_set_incomplete, reader_keeps_declared_work_dir}

abbrev home : FilePath
home = root_dir ∷ normal "home" ∷ []

abbrev project : FilePath
project = root_dir ∷ normal "home" ∷ normal "project" ∷ []

abbrev other : FilePath
other = root_dir ∷ normal "home" ∷ cur_dir ∷ normal "other" ∷ []

abbrev twisted : FilePath
twisted = root_dir ∷ normal "a" ∷ parent_dir ∷ normal "home" ∷ normal "project" ∷ normal "x" ∷ []

normalize_twisted :
    normalize_path twisted ≡ root_dir ∷ normal "home" ∷ normal "project" ∷ normal "x" ∷ []
unfolding normalize_path
normalize_twisted = refl

abbrev wide : CapabilityPolicy
wide = writes (record { path = home; trust = host })

abbrev narrow : CapabilityPolicy
narrow = writes (record { path = project; trust = work_dir })

resolve_effective_sound_example :
    (allows (resolve_effective wide wide narrow reader).fs.read_paths twisted ≡ true
      → (allows [] twisted ≡ true) × (allows [] twisted ≡ true) × (allows [] twisted ≡ true))
    × (allows (resolve_effective wide wide narrow reader).fs.write_paths twisted ≡ true
        → (allows wide.fs.write_paths twisted ≡ true)
          × (allows wide.fs.write_paths twisted ≡ true)
          × (allows narrow.fs.write_paths twisted ≡ true))
resolve_effective_sound_example = resolve_effective_sound wide wide narrow reader twisted

twisted_allowed : allows (resolve_effective wide wide narrow reader).fs.write_paths twisted ≡ true
unfolding resolve_effective role_narrow intersect_fs intersect_set intersect_from push_if_new
    path_within normalize_path
twisted_allowed = refl

narrow_accepted : validate_subset narrow wide ≡ ok tt
unfolding validate_subset path_within normalize_path
narrow_accepted = refl

validate_subset_sound_example :
    (allows [] twisted ≡ true → allows [] twisted ≡ true)
    × (allows narrow.fs.write_paths twisted ≡ true → allows wide.fs.write_paths twisted ≡ true)
validate_subset_sound_example = validate_subset_sound narrow wide twisted narrow_accepted

abbrev at_home : PathScope
at_home = record { path = home; trust = host }

abbrev at_project : PathScope
at_project = record { path = project; trust = work_dir }

abbrev at_other : PathScope
at_other = record { path = other; trust = host }

intersect_set_incomplete_example :
    (allows (at_home ∷ []) other ≡ true)
    × (allows (at_project ∷ at_other ∷ []) other ≡ true)
    × (allows (intersect_set (at_home ∷ []) (at_project ∷ at_other ∷ [])) other ≡ false)
intersect_set_incomplete_example =
    intersect_set_incomplete at_home at_project at_other other
      (unfold path_within normalize_path in refl) (unfold path_within normalize_path in refl)
      (unfold path_within normalize_path in refl) (unfold path_within normalize_path in refl)
      (unfold path_within normalize_path in refl)

reader_keeps_declared_work_dir_example :
    (validate_subset wide wide ≡ ok tt)
    × (validate_subset narrow wide ≡ ok tt)
    × ((resolve_effective wide wide narrow reader).fs.write_paths ≡ at_project ∷ [])
reader_keeps_declared_work_dir_example =
    reader_keeps_declared_work_dir at_home at_home at_project
      (unfold path_within normalize_path in refl) (unfold path_within normalize_path in refl)
      (unfold path_within normalize_path in refl) (unfold path_within normalize_path in refl) refl
