-- ===== src/Policy/Subset.antt =====
-- `validate_subset` of src/policy.rs against what its two policies permit.
use lv_fixus.Common.{
  Bool, true, not, List, [], ◌∷◌, map, ◌≡◌, refl, ◌↔◌, arith, any, all, filter, string_eq, nat_eq,
  Bool-cases, inl, inr,
}
use lv_fixus.Policy.Path.{FilePath}
use lv_fixus.Policy.{
  PathScope, EgressRule, CapabilityPolicy, path_within, rule_beq, check_paths, is_empty_list,
  allows, validate_subset, ok,
}
use lv_fixus.Policy.Scopes.{path_within_trans}

-- Each scope of `child` lies within a scope of `parent`.
abbrev pub covered : List PathScope → List PathScope → Bool
covered child parent = all (λ c. any (path_within c.path) parent) child

-- Each rule of `child` is a rule of `parent`.
abbrev pub listed : List EgressRule → List EgressRule → Bool
listed child parent = all (λ cr. any (λ pr. rule_beq pr cr) parent) child

check_paths-covered :
    (child parent : List PathScope)
    → is_empty_list (check_paths child parent) ≡ covered child parent
unfolding check_paths
check_paths-covered [] parent = refl
check_paths-covered (c ∷ child) parent = ground (arith, check_paths-covered child parent)

hosts-listed :
    (child parent : List EgressRule)
    → is_empty_list
        (map (λ r. r.host) (filter (λ cr. not (any (λ pr. rule_beq pr cr) parent)) child))
      ≡ listed child parent
hosts-listed [] parent = refl
hosts-listed (c ∷ child) parent = elim (Bool-cases (any (λ pr. rule_beq pr c) parent)) [
  | inl e ↦ rw e (hosts-listed child parent)
  | inr e ↦ rw e refl
]

-- A child policy is accepted exactly when each of its read scopes lies within a read scope of the
-- parent, each write scope within a write scope, and each egress rule is one of the parent's.
pub validate_subset_iff :
    (child parent : CapabilityPolicy)
    → (validate_subset child parent ≡ ok tt) ↔ (
        (covered child.fs.read_paths parent.fs.read_paths ≡ true)
        × (covered child.fs.write_paths parent.fs.write_paths ≡ true)
        × (listed child.net.egress parent.net.egress ≡ true))
unfolding validate_subset
validate_subset_iff child parent = ground (
  arith,
  check_paths-covered child.fs.read_paths parent.fs.read_paths,
  check_paths-covered child.fs.write_paths parent.fs.write_paths,
  hosts-listed child.net.egress parent.net.egress,
)

any_within :
    (p : FilePath) (c : PathScope) (parent : List PathScope)
    → path_within p c ≡ true
    → any (path_within c.path) parent ≡ true
    → allows parent p ≡ true
any_within p c [] h k = k
any_within p c (s ∷ parent) h k = ground (arith, path_within_trans p c s h, any_within p c parent h)

-- Covered scopes permit only paths that the covering scopes permit.
pub allows_of_covered :
    (child parent : List PathScope) (p : FilePath)
    → covered child parent ≡ true
    → allows child p ≡ true
    → allows parent p ≡ true
allows_of_covered [] parent p c h = absurd (ground arith)
allows_of_covered (s ∷ child) parent p c h =
    ground (arith, any_within p s parent, allows_of_covered child parent p)

-- What an accepted child may read or write, its parent may read or write.
pub validate_subset_sound :
    (child parent : CapabilityPolicy) (p : FilePath)
    → validate_subset child parent ≡ ok tt
    → (allows child.fs.read_paths p ≡ true → allows parent.fs.read_paths p ≡ true)
      × (allows child.fs.write_paths p ≡ true → allows parent.fs.write_paths p ≡ true)
validate_subset_sound child parent p h =
    let (r, w, n) = (validate_subset_iff child parent).0 h in
    (
      allows_of_covered child.fs.read_paths parent.fs.read_paths p r,
      allows_of_covered child.fs.write_paths parent.fs.write_paths p w,
    )
