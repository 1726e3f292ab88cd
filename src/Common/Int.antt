-- ===== src/Common/Int.antt =====
-- Signed integers over the native numbers, and the machine integers `i32` and `i64` whose sums wrap.
use Prim.Native.Nat.{ℕ, suc, ◌+◌, ◌-◌, ◌*◌, ◌%◌, ◌≤◌, ◌<◌}
use mathlib.Core.Path.{◌≡◌, refl, ap, sym, ◌∙◌}
use mathlib.Core.Logic.{◌↔◌}
use mathlib.Core.Bool.{Bool, true, false}
use native.Mathlib.Omega.{arith}
use lv_fixus.Common.Tests.{ltb, leb, nat_beq, if◌then◌else◌}
use lv_fixus.Common.Classes.{KeyEq}

-- `negsuc n` is -(n + 1).
pub data ℤ : Type 0 where
  pos : ℕ → ℤ
  negsuc : ℕ → ℤ

abbrev pub pos_part : ℤ → ℕ
pos_part (pos n) = n
pos_part (negsuc n) = 0

abbrev pub neg_part : ℤ → ℕ
neg_part (pos n) = 0
neg_part (negsuc n) = suc n

-- a - b, as an integer.
abbrev pub sub_ℕ : ℕ → ℕ → ℤ
sub_ℕ a b = if leb b a then pos (a - b) else negsuc (b - a - 1)

infixl 65 ◌+ℤ◌
infix 50 ◌≤ℤ◌ ◌<ℤ◌
unfoldable pub ◌+ℤ◌ : ℤ → ℤ → ℤ
a +ℤ b = sub_ℕ (pos_part a + pos_part b) (neg_part a + neg_part b)

abbrev pub ◌≤ℤ◌ : ℤ → ℤ → Type 0
a ≤ℤ b = pos_part a + neg_part b ≤ pos_part b + neg_part a

abbrev pub ◌<ℤ◌ : ℤ → ℤ → Type 0
a <ℤ b = pos_part a + neg_part b < pos_part b + neg_part a

abbrev pub ltb_ℤ : ℤ → ℤ → Bool
ltb_ℤ a b = ltb (pos_part a + neg_part b) (pos_part b + neg_part a)

abbrev pub max_ℤ : ℤ → ℤ → ℤ
max_ℤ a b = if ltb_ℤ a b then b else a

abbrev pub int_beq : ℤ → ℤ → Bool
int_beq (pos a) (pos b) = nat_beq a b
int_beq (pos a) (negsuc b) = false
int_beq (negsuc a) (pos b) = false
int_beq (negsuc a) (negsuc b) = nat_beq a b

pub int_beq_iff : (a b : ℤ) → (int_beq a b ≡ true) ↔ (a ≡ b)
int_beq_iff a b = ground arith

instance abbrev pub int_eq : KeyEq ℤ
int_eq = record { same = int_beq; same_iff = int_beq_iff }

pub +ℤ_parts :
    (a b : ℤ)
    → pos_part (a +ℤ b) + neg_part a + neg_part b ≡ neg_part (a +ℤ b) + pos_part a + pos_part b
unfolding ◌+ℤ◌
+ℤ_parts a b = ground arith

pub eq_of_parts : (a b : ℤ) → pos_part a + neg_part b ≡ pos_part b + neg_part a → a ≡ b
eq_of_parts a b h = ground arith

pub ruleset int_laws = (arith, +ℤ_parts, eq_of_parts)

-- The bit pattern of an integer on `w` bits, given `m = 2 ^ w`.
abbrev pub pattern_of : ℕ → ℤ → ℕ
pattern_of m (pos n) = n % m
pattern_of m (negsuc n) = m - 1 - n % m

-- The signed reading of a bit pattern below `2 * half`.
abbrev pub signed : ℕ → ℕ → ℤ
signed half p = if ltb p half then pos p else negsuc (2 * half - 1 - p)

abbrev pub half64 : ℕ
half64 = 9223372036854775808

abbrev pub half32 : ℕ
half32 = 2147483648

-- `u64 as i64`, `usize as i64`
unfoldable pub as_i64 : ℕ → ℤ
as_i64 n = signed half64 (n % 18446744073709551616)

-- `i64 as i32`
unfoldable pub as_i32 : ℤ → ℤ
as_i32 a = signed half32 (pattern_of 4294967296 a)

-- `a + b` on `i64` and on `i32`, in a build whose arithmetic wraps
unfoldable pub add_i64 : ℤ → ℤ → ℤ
add_i64 a b = signed half64 (pattern_of 18446744073709551616 (a +ℤ b))

unfoldable pub add_i32 : ℤ → ℤ → ℤ
add_i32 a b = signed half32 (pattern_of 4294967296 (a +ℤ b))

abbrev pub IsI32 : ℤ → Type 0
IsI32 (pos n) = n < half32
IsI32 (negsuc n) = n < half32

abbrev pub IsI64 : ℤ → Type 0
IsI64 (pos n) = n < half64
IsI64 (negsuc n) = n < half64

pub as_i64_small : (n : ℕ) → n < half64 → as_i64 n ≡ pos n
unfolding as_i64
as_i64_small n h = ground arith

-- A sum that fits does not wrap.
pub add_i32_exact : (a b : ℤ) → IsI32 (a +ℤ b) → add_i32 a b ≡ a +ℤ b
unfolding add_i32
add_i32_exact a b h = go (a +ℤ b) h
  where
    go : (c : ℤ) → IsI32 c → signed half32 (pattern_of 4294967296 c) ≡ c
    go (pos n) h = ground arith
    go (negsuc n) h = ground arith

pub add_i64_exact : (a b : ℤ) → IsI64 (a +ℤ b) → add_i64 a b ≡ a +ℤ b
unfolding add_i64
add_i64_exact a b h = go (a +ℤ b) h
  where
    go : (c : ℤ) → IsI64 c → signed half64 (pattern_of 18446744073709551616 c) ≡ c
    go (pos n) h = ground arith
    go (negsuc n) h = ground arith

-- Sums that wrap are sums of bit patterns.
pattern-+ℤ :
    (a b : ℤ)
    → pattern_of 18446744073709551616 (a +ℤ b)
      ≡ (pattern_of 18446744073709551616 a + pattern_of 18446744073709551616 b)
        % 18446744073709551616
unfolding ◌+ℤ◌
pattern-+ℤ (pos a) (pos b) = ground arith
pattern-+ℤ (pos a) (negsuc b) = ground arith
pattern-+ℤ (negsuc a) (pos b) = ground arith
pattern-+ℤ (negsuc a) (negsuc b) = ground arith

pattern-signed :
    (p : ℕ) → p < 18446744073709551616 → pattern_of 18446744073709551616 (signed half64 p) ≡ p
pattern-signed p h = ground arith

pattern-add_i64 :
    (a b : ℤ)
    → pattern_of 18446744073709551616 (add_i64 a b)
      ≡ (pattern_of 18446744073709551616 a + pattern_of 18446744073709551616 b)
        % 18446744073709551616
unfolding add_i64
pattern-add_i64 a b = rw (pattern-+ℤ a b) (pattern-signed _ (omega arith))

add_i64-eq : (a b : ℤ) → add_i64 a b ≡ signed half64 (pattern_of 18446744073709551616 (a +ℤ b))
unfolding add_i64
add_i64-eq a b = refl

-- The order in which terms are added does not matter, also where sums wrap.
pub add_i64_swap : (a b c : ℤ) → add_i64 (add_i64 a b) c ≡ add_i64 (add_i64 a c) b
add_i64_swap a b c =
    add_i64-eq (add_i64 a b) c
    ∙ ap (signed half64) (
        pattern-+ℤ (add_i64 a b) c
        ∙ omega (arith, pattern-add_i64 a b, pattern-add_i64 a c)
        ∙ sym (pattern-+ℤ (add_i64 a c) b))
    ∙ sym (add_i64-eq (add_i64 a c) b)
