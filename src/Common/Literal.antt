-- ===== src/Common/Literal.antt =====
-- Rust's `match s { "a" => …, "b" => …, _ => … }` on string literals: the first equal literal wins.
use Prim.Native.String.{String}
use mathlib.Core.Path.{◌≡◌}
use mathlib.Core.Option.{Option, none, some}
use mathlib.Core.List.{List, [], ◌∷◌, map}
use mathlib.Core.Bool.{true}
use mathlib.Core.Logic.{◌↔◌, inl, inr}
use native.Mathlib.Omega.{arith}
use lv_fixus.Common.Tests.{if◌then◌else◌, Bool-cases, and_true}
use lv_fixus.Common.Classes.{◌==◌, string_eq}
use lv_fixus.Common.Lists.{all, any}

module _ {ℓ} {A : Type ℓ} where
  abbrev pub match_str : List (String × A) → String → Option A
  match_str [] s = none
  match_str ((lit, a) ∷ arms) s = if lit == s then some a else match_str arms s

  -- If each arm's literal is the name of its value, a match returns the value of that name.
  pub match_str_sound :
      (name : A → String) (arms : List (String × A)) (s : String) {a : A}
      → all (λ arm. name arm.1 == arm.0) arms ≡ true
      → match_str arms s ≡ some a
      → name a ≡ s
  match_str_sound name [] s named h = ground arith
  match_str_sound name ((lit, b) ∷ arms) s named h = elim (Bool-cases (lit == s)) [
    | inl e ↦ ground (arith, string_eq.same_iff lit s, string_eq.same_iff (name b) lit)
    | inr e ↦ match_str_sound name arms s (and_true _ _ named).1 (rw e at h)
  ]

  -- A match takes an arm exactly when the text is one of the literals.
  pub match_str_complete :
      (arms : List (String × A)) (s : String)
      → (any (λ v. v == s) (map (λ arm. arm.0) arms) ≡ true)
        ↔ ((a : A) × (match_str arms s ≡ some a))
  match_str_complete [] s = (λ h. cc, λ (a, h). cc)
  match_str_complete ((lit, b) ∷ arms) s = elim (Bool-cases (lit == s)) [
    | inl e ↦ (λ h. (b, rw e), λ p. rw e)
    | inr e ↦ (
      λ h. let (a, r) = (match_str_complete arms s).0 (rw e at h) in (a, rw e r),
      λ (a, h). rw e ((match_str_complete arms s).1 (a, rw e at h)),
    )
  ]
