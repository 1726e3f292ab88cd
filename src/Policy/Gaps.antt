-- ===== src/Policy/Gaps.antt =====
-- `intersect_fs` and `resolve_effective` of src/policy.rs against their comments.
use lv_fixus.Common.{true, false, [], ◌∷◌, ◌≡◌, arith, Bool-cases, inl, inr}
use lv_fixus.Policy.Path.{FilePath}
use lv_fixus.Policy.{
  PathScope, CapabilityPolicy, reader, work_dir, path_within, push_if_new, intersect_from,
  intersect_set, intersect_fs, role_narrow, resolve_effective, validate_subset, ok, allows,
}
use lv_fixus.Policy.Scopes.{path_within_trans}

-- a policy that only lets write below one scope
abbrev pub writes : PathScope → CapabilityPolicy
writes s = record {
  fs = record { read_paths = []; write_paths = s ∷ [] };
  net = record { egress = [] };
}

intersect_one :
    (a b : PathScope)
    → path_within a.path b ≡ false
    → path_within b.path a ≡ true
    → intersect_set (a ∷ []) (b ∷ []) ≡ b ∷ []
unfolding intersect_set intersect_from push_if_new
intersect_one a b h k = ground arith

intersect_same :
    (a b : PathScope) → path_within a.path b ≡ true → intersect_set (a ∷ []) (b ∷ []) ≡ a ∷ []
unfolding intersect_set intersect_from push_if_new
intersect_same a b h = ground arith

-- Of two scopes below one scope, the intersection keeps the first alone: a path in the second that is
-- not in the first is permitted by both lists and not by their intersection.
pub intersect_set_incomplete :
    (a b c : PathScope) (p : FilePath)
    → path_within b.path a ≡ true
    → path_within a.path b ≡ false
    → path_within c.path a ≡ true
    → path_within p c ≡ true
    → path_within p b ≡ false
    → (allows (a ∷ []) p ≡ true)
      × (allows (b ∷ c ∷ []) p ≡ true)
      × (allows (intersect_set (a ∷ []) (b ∷ c ∷ [])) p ≡ false)
unfolding intersect_set intersect_from push_if_new
intersect_set_incomplete a b c p h n k w o = ground (arith, path_within_trans p c a)

-- Operator, tenant and task have one write scope each and grant nothing else. The tenant's scope lies within
-- the operator's, and the task's strictly below both. If the task calls its scope a work directory, it is
-- accepted, and a reader then keeps that scope for writing, whatever trust the operator and the tenant gave to
-- theirs.
pub reader_keeps_declared_work_dir :
    (operator tenant declared : PathScope)
    → path_within tenant.path operator ≡ true
    → path_within declared.path tenant ≡ true
    → path_within tenant.path declared ≡ false
    → path_within operator.path declared ≡ false
    → declared.trust ≡ work_dir
    → (validate_subset (writes tenant) (writes operator) ≡ ok tt)
      × (validate_subset (writes declared) (writes tenant) ≡ ok tt)
      × ((resolve_effective
            (writes operator)
            (writes tenant)
            (writes declared)
            reader).fs.write_paths
          ≡ declared ∷ [])
unfolding resolve_effective role_narrow intersect_fs validate_subset
reader_keeps_declared_work_dir operator tenant declared g n d e t = (
  ground arith,
  ground arith,
  elim (Bool-cases (path_within operator.path tenant)) [
    | inl same ↦
        rw
          (
            intersect_same operator tenant same,
            intersect_one operator declared e (path_within_trans declared.path tenant operator n g),
          )
          (ground arith)
    | inr below ↦
        rw (intersect_one operator tenant below g, intersect_one tenant declared d n) (ground arith)
  ],
)
