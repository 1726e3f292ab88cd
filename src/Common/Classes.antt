-- ===== src/Common/Classes.antt =====
-- Equality as an interface: keys of maps, elements of sets.
use Prim.Native.Nat.{ℕ}
use Prim.Native.String.{String}
use mathlib.Core.Path.{◌≡◌, refl}
use mathlib.Core.Logic.{◌↔◌}
use mathlib.Core.Bool.{Bool, true}
use text.Mathlib.Text
use text.Mathlib.TextEquality
use lv_fixus.Common.Tests.{nat_beq, nat_beq_iff}

-- `K: Eq`, decided by a test
pub record KeyEq {ℓ} (K : Type ℓ) : Type ℓ where
  pub same : K → K → Bool
  pub same_iff : (j k : K) → (same j k ≡ true) ↔ (j ≡ k)

instance abbrev pub string_eq : KeyEq String
string_eq = record { same_iff = TextEquality.eq_iff; same = Text.◌==◌ }

instance abbrev pub nat_eq : KeyEq ℕ
nat_eq = record { same_iff = nat_beq_iff; same = nat_beq }

module _ {ℓ} {K : Type ℓ} ⦃e : KeyEq K⦄ where
  infix 50 ◌==◌
  abbrev pub ◌==◌ : K → K → Bool
  j == k = e.same j k

  pub beq_self : (k : K) → (k == k) ≡ true
  beq_self k = (e.same_iff k k).1 refl
