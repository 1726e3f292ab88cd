-- ===== src/Json.antt =====
-- What the program uses of `serde_json::Value`, which it does not implement: the type of values, the
-- lookups and the readings. The laws are those that the crate documents for `Null` and for absent keys.
use lv_fixus.Common.{String, Bool, true, Option, none, some, ◌≡◌, false, List, [], ◌∷◌}
use lv_fixus.Common.Literal.{match_str}
use lv_fixus.Common.Int.{ℤ}

pub record Json : Type 1 where
  pub Value : Type 0
  pub null : Value
  pub is_null : Value → Bool
  -- `Value::get(key)`
  pub get : Value → String → Option Value
  pub as_str : Value → Option String
  pub as_i64 : Value → Option ℤ
  pub is_null-null : is_null null ≡ true
  pub as_str-null : as_str null ≡ none
  pub as_i64-null : as_i64 null ≡ none

-- `value[key]`: an absent key reads as `Null`
abbrev pub at : (j : Json) → j.Value → String → j.Value
at j v key = elim (j.get v key) [ none ↦ j.null | some w ↦ w ]

-- How values are written: `json!`, `to_value` of a struct whose serialization is derived, and
-- `value[key] = …`. Members are inserted from the last to the first, so the first of equal keys stays.
pub record Build (j : Json) : Type 0 where
  pub object : List (String × j.Value) → j.Value
  pub string : String → j.Value
  pub int : ℤ → j.Value
  pub boolean : Bool → j.Value
  pub array : List j.Value → j.Value
  pub get-object :
      (ms : List (String × j.Value)) (k : String) → j.get (object ms) k ≡ match_str ms k
  pub as_str-string : (s : String) → j.as_str (string s) ≡ some s
  pub as_i64-int : (n : ℤ) → j.as_i64 (int n) ≡ some n
  pub is_null-string : (s : String) → j.is_null (string s) ≡ false
  pub is_null-int : (n : ℤ) → j.is_null (int n) ≡ false
  pub is_null-object : (ms : List (String × j.Value)) → j.is_null (object ms) ≡ false

-- a member that is written only when there is a value
abbrev pub optional : {V : Type 0} {A : Type 0} → String → (A → V) → Option A → List (String × V)
optional key f none = []
optional key f (some a) = (key, f a) ∷ []
