-- ===== src/Policy/Scopes.antt =====
-- Containment of scopes, and their intersection, in src/policy.rs.
use lv_fixus.Common.{
  Bool, true, ◌&&◌, ◌||◌, Option, none, some, List, [], ◌∷◌, ◌≡◌, refl, arith, any, any-append,
  find,
}
use lv_fixus.Policy.Path.{FilePath, component_eq, normalize_path, starts_with, path_beq}
use lv_fixus.Policy.{
  PathScope, path_within, push_if_new, overlaps, tighter, push_found, intersect_from, intersect_set,
  allows,
}

starts_with_of_beq : (p q : FilePath) → path_beq p q ≡ true → starts_with p q ≡ true
starts_with_of_beq [] [] h = refl
starts_with_of_beq [] (b ∷ q) h = h
starts_with_of_beq (a ∷ p) [] h = refl
starts_with_of_beq (a ∷ p) (b ∷ q) h = ground (arith, starts_with_of_beq p q)

starts_with_trans :
    (p q r : FilePath) → starts_with p q ≡ true → starts_with q r ≡ true → starts_with p r ≡ true
starts_with_trans p q [] h k = ground arith
starts_with_trans p [] (c ∷ r) h k = ground arith
starts_with_trans [] (b ∷ q) (c ∷ r) h k = ground arith
starts_with_trans (a ∷ p) (b ∷ q) (c ∷ r) h k = ground (
  arith,
  component_eq.same_iff a b,
  component_eq.same_iff b c,
  component_eq.same_iff a c,
  starts_with_trans p q r,
)

within-starts_with :
    (p : FilePath) (s : PathScope)
    → path_within p s ≡ true
    → starts_with (normalize_path p) (normalize_path s.path) ≡ true
unfolding path_within
within-starts_with p s h =
    ground (arith, starts_with_of_beq (normalize_path p) (normalize_path s.path))

within_of_starts_with :
    (p : FilePath) (s : PathScope)
    → starts_with (normalize_path p) (normalize_path s.path) ≡ true
    → path_within p s ≡ true
unfolding path_within
within_of_starts_with p s h = ground arith

-- A path within a scope is within each scope that contains that scope.
pub path_within_trans :
    (p : FilePath) (s t : PathScope)
    → path_within p s ≡ true
    → path_within s.path t ≡ true
    → path_within p t ≡ true
path_within_trans p s t h k = within_of_starts_with p t (
    starts_with_trans (normalize_path p) (normalize_path s.path) (normalize_path t.path)
      (within-starts_with p s h) (within-starts_with s.path t k))

find_sound :
    (q : PathScope → Bool) (b : List PathScope) (s : PathScope) → find q b ≡ some s → q s ≡ true
find_sound q [] s h = ground arith
find_sound q (x ∷ b) s h = ground (arith, find_sound q b s)

any_of_find :
    (q r : PathScope → Bool) (b : List PathScope) (s : PathScope)
    → find q b ≡ some s
    → r s ≡ true
    → any r b ≡ true
any_of_find q r [] s h k = ground arith
any_of_find q r (x ∷ b) s h k = ground (arith, any_of_find q r b s)

starts_with_self : (p : FilePath) → starts_with p p ≡ true
starts_with_self [] = refl
starts_with_self (a ∷ p) = ground (arith, component_eq.same_iff a a, starts_with_self p)

path_within_self : (s : PathScope) → path_within s.path s ≡ true
path_within_self s = within_of_starts_with s.path s (starts_with_self (normalize_path s.path))

tighter_within :
    (sa sb : PathScope)
    → overlaps sa sb ≡ true
    → (path_within (tighter sa sb).path sa ≡ true) × (path_within (tighter sa sb).path sb ≡ true)
tighter_within sa sb h = ground (arith, path_within_self sa, path_within_self sb)

allows-push_if_new :
    (out : List PathScope) (s : PathScope) (p : FilePath)
    → allows (push_if_new out s) p ≡ true
    → (allows out p || path_within p s) ≡ true
unfolding push_if_new
allows-push_if_new out s p h = ground (arith, any-append (path_within p) out (s ∷ []))

allows-push_found :
    (out : List PathScope) (sa : PathScope) (b : List PathScope) (p : FilePath)
    (o : Option PathScope)
    → find (overlaps sa) b ≡ o
    → allows (push_found out sa o) p ≡ true
    → (allows out p || (path_within p sa && allows b p)) ≡ true
allows-push_found out sa b p none f h = ground arith
allows-push_found out sa b p (some sb) f h = ground (
  arith,
  allows-push_if_new out (tighter sa sb) p h,
  tighter_within sa sb (find_sound (overlaps sa) b sb f),
  path_within_trans p (tighter sa sb) sa,
  path_within_trans p (tighter sa sb) sb,
  any_of_find (overlaps sa) (path_within p) b sb f,
)

allows-intersect_from :
    (out a b : List PathScope) (p : FilePath)
    → allows (intersect_from out a b) p ≡ true
    → (allows out p || (allows a p && allows b p)) ≡ true
unfolding intersect_from
allows-intersect_from out [] b p h = ground arith
allows-intersect_from out (sa ∷ a) b p h =
    let o = find (overlaps sa) b in
    ground (
      arith,
      allows-intersect_from (push_found out sa o) a b p h,
      allows-push_found out sa b p o refl,
    )

-- The intersection of two lists of scopes permits only what both permit.
pub intersect_set_sound :
    (a b : List PathScope) (p : FilePath)
    → allows (intersect_set a b) p ≡ true
    → (allows a p ≡ true) × (allows b p ≡ true)
unfolding intersect_set
intersect_set_sound a b p h = ground (arith, allows-intersect_from [] a b p h)
