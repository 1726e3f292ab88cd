-- ===== src/Policy/Narrow.antt =====
-- `resolve_effective` of src/policy.rs against the policies that it is given.
use lv_fixus.Common.{Bool, true, List, [], ◌∷◌, ◌≡◌, refl, arith, any, all, filter}
use lv_fixus.Policy.Path.{FilePath}
use lv_fixus.Policy.{
  PathScope, EgressRule, CapabilityPolicy, AgentRole, reader, operator, rule_beq, intersect_set,
  intersect_fs, intersect_net, role_narrow, resolve_effective, allows,
}
use lv_fixus.Policy.Subset.{listed}
use lv_fixus.Policy.Scopes.{intersect_set_sound}

allows-filter :
    (q : PathScope → Bool) (scopes : List PathScope) (p : FilePath)
    → allows (filter q scopes) p ≡ true
    → allows scopes p ≡ true
allows-filter q [] p h = h
allows-filter q (s ∷ scopes) p h = ground (arith, allows-filter q scopes p)

three :
    (a b c : List PathScope) (p : FilePath)
    → allows (intersect_set (intersect_set a b) c) p ≡ true
    → (allows a p ≡ true) × (allows b p ≡ true) × (allows c p ≡ true)
three a b c p h =
    let (ab, hc) = intersect_set_sound (intersect_set a b) c p h in
    let (ha, hb) = intersect_set_sound a b p ab in (ha, hb, hc)

-- Whatever the role, a path that the effective policy lets an agent read is one that the operator, the
-- tenant and the task each let it read; and likewise for writing.
pub resolve_effective_sound :
    (op tenant task : CapabilityPolicy) (role : AgentRole) (p : FilePath)
    → (allows (resolve_effective op tenant task role).fs.read_paths p ≡ true
        → (allows op.fs.read_paths p ≡ true)
          × (allows tenant.fs.read_paths p ≡ true)
          × (allows task.fs.read_paths p ≡ true))
      × (allows (resolve_effective op tenant task role).fs.write_paths p ≡ true
          → (allows op.fs.write_paths p ≡ true)
            × (allows tenant.fs.write_paths p ≡ true)
            × (allows task.fs.write_paths p ≡ true))
unfolding resolve_effective role_narrow intersect_fs
resolve_effective_sound op tenant task reader p = (
  three op.fs.read_paths tenant.fs.read_paths task.fs.read_paths p,
  λ h. three op.fs.write_paths tenant.fs.write_paths task.fs.write_paths p (allows-filter _ _ p h),
)
resolve_effective_sound op tenant task operator p = (
  three op.fs.read_paths tenant.fs.read_paths task.fs.read_paths p,
  three op.fs.write_paths tenant.fs.write_paths task.fs.write_paths p,
)

all-filter_of_all :
    {A : Type 0} (q r : A → Bool) (xs : List A) → all r xs ≡ true → all r (filter q xs) ≡ true
all-filter_of_all q r [] h = h
all-filter_of_all q r (x ∷ xs) h = ground (arith, all-filter_of_all q r xs)

all-filter_self : {A : Type 0} (q : A → Bool) (xs : List A) → all q (filter q xs) ≡ true
all-filter_self q [] = refl
all-filter_self q (x ∷ xs) = ground (arith, all-filter_self q xs)

-- Each egress rule of the effective policy of an operator is a rule of the tenant and of the task, and
-- passes each test that all rules of the operator's policy pass.
pub egress_narrowed :
    (op tenant task : CapabilityPolicy) (r : EgressRule → Bool)
    → let rules = (resolve_effective op tenant task operator).net.egress in
      (listed rules tenant.net.egress ≡ true)
      × (listed rules task.net.egress ≡ true)
      × (all r op.net.egress ≡ true → all r rules ≡ true)
unfolding resolve_effective role_narrow intersect_net
egress_narrowed op tenant task r =
    let in_tenant = λ (x : EgressRule). any (λ y. rule_beq y x) tenant.net.egress in
    let in_task = λ (x : EgressRule). any (λ y. rule_beq y x) task.net.egress in
    let both = filter in_tenant op.net.egress in
    (
      all-filter_of_all {A = EgressRule} in_task in_tenant both
          (all-filter_self in_tenant op.net.egress),
      all-filter_self {A = EgressRule} in_task both,
      λ h.
          all-filter_of_all {A = EgressRule} in_task r both
            (all-filter_of_all {A = EgressRule} in_tenant r op.net.egress h),
    )
