-- ===== src/Common/Map.antt =====
-- `HashMap` and `HashSet`. A map is an association list with at most one entry for a key that `insert` wrote.
use mathlib.Core.Path.{◌≡◌, refl}
use mathlib.Core.Bool.{Bool, false, ◌||◌}
use mathlib.Core.Option.{Option, none, some}
use mathlib.Core.List.{List, [], ◌∷◌, map}
use native.Mathlib.Omega.{arith}
use lv_fixus.Common.Tests.{if◌then◌else◌}
use lv_fixus.Common.Classes.{KeyEq, ◌==◌}

abbrev pub Map {ℓ} : Type ℓ → Type ℓ → Type ℓ
Map K V = List (K × V)

module _ {ℓ} {K V : Type ℓ} ⦃e : KeyEq K⦄ where
  unfoldable pub get : K → Map K V → Option V
  get k [] = none
  get k ((j, v) ∷ m) = if j == k then some v else get k m

  unfoldable pub insert : K → V → Map K V → Map K V
  insert k v [] = (k, v) ∷ []
  insert k v ((j, w) ∷ m) = if j == k then (k, v) ∷ m else (j, w) ∷ insert k v m

  unfoldable pub remove : K → Map K V → Map K V
  remove k [] = []
  remove k ((j, w) ∷ m) = if j == k then remove k m else (j, w) ∷ remove k m

  pub get-insert :
      (k j : K) (v : V) (m : Map K V) → get j (insert k v m) ≡ (if k == j then some v else get j m)
  unfolding get insert
  get-insert k j v [] = refl
  get-insert k j v ((i, w) ∷ m) =
      ground (arith, e.same_iff k j, e.same_iff i k, e.same_iff i j, get-insert k j v m)

  pub get-remove : (k j : K) (m : Map K V) → get j (remove k m) ≡ (if k == j then none else get j m)
  unfolding get remove
  get-remove k j [] = ground arith
  get-remove k j ((i, w) ∷ m) =
      ground (arith, e.same_iff k j, e.same_iff i k, e.same_iff i j, get-remove k j m)

module _ {ℓ} {K : Type ℓ} ⦃e : KeyEq K⦄ where
  -- `HashSet`: a list without repetitions, as `insert` keeps it
  unfoldable pub contains : K → List K → Bool
  contains k [] = false
  contains k (j ∷ s) = (j == k) || contains k s

  unfoldable pub add : K → List K → List K
  add k s = if contains k s then s else k ∷ s

  unfoldable pub discard : K → List K → List K
  discard k [] = []
  discard k (j ∷ s) = if j == k then discard k s else j ∷ discard k s

  pub contains-add : (k j : K) (s : List K) → contains j (add k s) ≡ ((k == j) || contains j s)
  unfolding contains add
  contains-add k j s = ground (arith, e.same_iff k j)

  pub contains-discard :
      (k j : K) (s : List K) → contains j (discard k s) ≡ (if k == j then false else contains j s)
  unfolding contains discard
  contains-discard k j [] = ground arith
  contains-discard k j (i ∷ s) =
      ground (arith, e.same_iff k j, e.same_iff i k, e.same_iff i j, contains-discard k j s)

module _ {ℓ} {K V : Type ℓ} where
  -- `values()`, in the order of the list
  abbrev pub values : Map K V → List V
  values m = map (λ entry. entry.1) m

pub ruleset map_laws = (get-insert, get-remove, contains-add, contains-discard)
