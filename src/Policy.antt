-- ===== src/Policy.antt =====
-- src/policy.rs: the capability policies of the sandbox boundary and their resolver.
pub mod Path
pub mod Scopes
pub mod Subset
pub mod Narrow
pub mod Normal
pub mod Gaps
use lv_fixus.Common.{
  String, Bool, true, false, not, ◌&&◌, ◌||◌, Option, none, some, List, [], ◌∷◌, ◌++◌, map, any,
  filter, find, if◌then◌else◌, ℕ, ◌==◌, nat_eq, string_eq,
}
use lv_fixus.Policy.Path.{FilePath, normalize_path, starts_with, path_beq}

pub data TrustLevel : Type 0 where
  work_dir host remote : TrustLevel

pub record PathScope : Type 0 where
  pub path : FilePath
  pub trust : TrustLevel

pub record FsPolicy : Type 0 where
  pub read_paths : List PathScope
  pub write_paths : List PathScope

pub data NetCategory : Type 0 where
  package_manager https_api dns private_lan : NetCategory

-- `ports` are `u16`
pub record EgressRule : Type 0 where
  pub host : String
  pub ports : List ℕ
  pub category : Option NetCategory

pub record NetPolicy : Type 0 where
  pub egress : List EgressRule

pub record CapabilityPolicy : Type 0 where
  pub fs : FsPolicy
  pub net : NetPolicy

pub data AgentRole : Type 0 where
  reader operator : AgentRole

pub record EffectivePolicy : Type 0 where
  pub fs : FsPolicy
  pub net : NetPolicy
  pub agent_role : AgentRole

-- the derived `PartialEq` of `NetCategory` and `EgressRule`
abbrev pub category_beq : Option NetCategory → Option NetCategory → Bool
category_beq none none = true
category_beq (some package_manager) (some package_manager) = true
category_beq (some https_api) (some https_api) = true
category_beq (some dns) (some dns) = true
category_beq (some private_lan) (some private_lan) = true
category_beq _ _ = false

abbrev pub ports_beq : List ℕ → List ℕ → Bool
ports_beq [] [] = true
ports_beq (a ∷ p) (b ∷ q) = a == b && ports_beq p q
ports_beq _ _ = false

abbrev pub rule_beq : EgressRule → EgressRule → Bool
rule_beq a b = a.host == b.host && (ports_beq a.ports b.ports && category_beq a.category b.category)

unfoldable pub path_within : FilePath → PathScope → Bool
path_within p scope =
    path_beq (normalize_path p) (normalize_path scope.path)
    || starts_with (normalize_path p) (normalize_path scope.path)

-- the closure `push_if_new`
unfoldable pub push_if_new : List PathScope → PathScope → List PathScope
push_if_new out s = if any (λ e. path_beq e.path s.path) out then out else out ++ s ∷ []

abbrev pub overlaps : PathScope → PathScope → Bool
overlaps sa sb = path_within sa.path sb || path_within sb.path sa

abbrev pub tighter : PathScope → PathScope → PathScope
tighter sa sb = if path_within sa.path sb then sa else sb

abbrev pub push_found : List PathScope → PathScope → Option PathScope → List PathScope
push_found out sa none = out
push_found out sa (some sb) = push_if_new out (tighter sa sb)

-- the loop of `intersect_set`, over the scopes of `a` with what it has put out
unfoldable pub intersect_from : List PathScope → List PathScope → List PathScope → List PathScope
intersect_from out [] b = out
intersect_from out (sa ∷ a) b = intersect_from (push_found out sa (find (overlaps sa) b)) a b

unfoldable pub intersect_set : List PathScope → List PathScope → List PathScope
intersect_set a b = intersect_from [] a b

unfoldable pub intersect_fs : FsPolicy → FsPolicy → FsPolicy
intersect_fs a b = record {
  read_paths = intersect_set a.read_paths b.read_paths;
  write_paths = intersect_set a.write_paths b.write_paths;
}

unfoldable pub intersect_net : NetPolicy → NetPolicy → NetPolicy
intersect_net a b = record { egress = filter (λ ra. any (λ rb. rule_beq rb ra) b.egress) a.egress }

abbrev pub is_work_dir : TrustLevel → Bool
is_work_dir work_dir = true
is_work_dir _ = false

unfoldable pub role_narrow : EffectivePolicy → AgentRole → EffectivePolicy
role_narrow eff operator = record eff { agent_role = operator }
role_narrow eff reader = record {
  fs = record {
    read_paths = eff.fs.read_paths;
    write_paths = filter (λ s. is_work_dir s.trust) eff.fs.write_paths;
  };
  net = record { egress = [] };
  agent_role = reader;
}

unfoldable pub resolve_effective :
    CapabilityPolicy → CapabilityPolicy → CapabilityPolicy → AgentRole → EffectivePolicy
resolve_effective op tenant task role =
    let fs = intersect_fs (intersect_fs op.fs tenant.fs) task.fs in
    let net = intersect_net (intersect_net op.net tenant.net) task.net in
    role_narrow (record { fs = fs; net = net; agent_role = role }) role

pub record SubsetViolation : Type 0 where
  pub fs_read_violations : List FilePath
  pub fs_write_violations : List FilePath
  pub net_violations : List String

abbrev pub is_empty_list {ℓ} : {A : Type ℓ} → List A → Bool
is_empty_list [] = true
is_empty_list (_ ∷ _) = false

abbrev pub is_empty : SubsetViolation → Bool
is_empty v =
    is_empty_list v.fs_read_violations
    && (is_empty_list v.fs_write_violations && is_empty_list v.net_violations)

-- the closure `check_paths`
unfoldable pub check_paths : List PathScope → List PathScope → List FilePath
check_paths child parent =
    map (λ c. normalize_path c.path) (filter (λ c. not (any (path_within c.path) parent)) child)

abbrev pub violations : CapabilityPolicy → CapabilityPolicy → SubsetViolation
violations child parent = record {
  fs_read_violations = check_paths child.fs.read_paths parent.fs.read_paths;
  fs_write_violations = check_paths child.fs.write_paths parent.fs.write_paths;
  net_violations =
      map (λ r. r.host)
        (filter (λ cr. not (any (λ pr. rule_beq pr cr) parent.net.egress)) child.net.egress);
}

-- a `Result` whose error is a `SubsetViolation`
pub data Checked {ℓ} (A : Type ℓ) : Type ℓ where
  ok : A → Checked A
  err : SubsetViolation → Checked A

unfoldable pub validate_subset : CapabilityPolicy → CapabilityPolicy → Checked (Unit {0})
unfolding check_paths
validate_subset child parent =
    let v = violations child parent in if is_empty v then ok tt else err v

abbrev pub and_then : {A : Type 0} → Checked (Unit {0}) → A → Checked A
and_then (ok _) a = ok a
and_then (err v) a = err v

unfoldable pub resolve_and_validate :
    CapabilityPolicy → CapabilityPolicy → CapabilityPolicy → AgentRole → Checked EffectivePolicy
resolve_and_validate op tenant task role =
    and_then (validate_subset task tenant) (resolve_effective op tenant task role)

-- What a list of scopes permits: the paths within one of them.
abbrev pub allows : List PathScope → FilePath → Bool
allows scopes p = any (path_within p) scopes
