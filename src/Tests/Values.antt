-- ===== src/Tests/Values.antt =====
-- Concrete data: JSON values as a data type, and what the tests of a module share.
use lv_fixus.Common.{
  String, Bool, true, false, Option, none, some, refl, ap, if◌then◌else◌, List, [], ◌∷◌, ◌≡◌, ◌==◌,
  string_eq,
}
use lv_fixus.Common.Int.{ℤ}
use lv_fixus.Json.{Json, Build}
use lv_fixus.Common.Literal.{match_str}

mutual
  pub data JsonValue : Type 0 where
    null : JsonValue
    num : ℤ → JsonValue
    str : String → JsonValue
    obj : Members → JsonValue
    arr : Elements → JsonValue

  pub data Members : Type 0 where
    end : Members
    member : String → JsonValue → Members → Members

  pub data Elements : Type 0 where
    nil : Elements
    element : JsonValue → Elements → Elements

abbrev pub is_null : JsonValue → Bool
is_null null = true
is_null _ = false

abbrev pub find_member : Members → String → Option JsonValue
find_member end key = none
find_member (member k v rest) key = if k == key then some v else find_member rest key

abbrev pub get_member : JsonValue → String → Option JsonValue
get_member (obj members) key = find_member members key
get_member _ key = none

abbrev pub str_of : JsonValue → Option String
str_of (str s) = some s
str_of _ = none

abbrev pub num_of : JsonValue → Option ℤ
num_of (num n) = some n
num_of _ = none

abbrev pub json : Json
json = record {
  Value = JsonValue;
  null = null;
  is_null = is_null;
  get = get_member;
  as_str = str_of;
  as_i64 = num_of;
  is_null-null = refl;
  as_str-null = refl;
  as_i64-null = refl;
}

abbrev pub members : List (String × JsonValue) → Members
members [] = end
members ((k, v) ∷ ms) = member k v (members ms)

abbrev pub elements : List JsonValue → Elements
elements [] = nil
elements (v ∷ vs) = element v (elements vs)

pub find-members :
    (ms : List (String × JsonValue)) (key : String)
    → find_member (members ms) key ≡ match_str ms key
find-members [] key = refl
find-members ((k, v) ∷ ms) key = ap (λ o. if k == key then some v else o) (find-members ms key)

abbrev pub build : Build json
build = record {
  object = λ ms. obj (members ms);
  string = str;
  int = num;
  boolean = λ b. if b then str "true" else str "false";
  array = λ vs. arr (elements vs);
  get-object = find-members;
  as_str-string = λ s. refl;
  as_i64-int = λ n. refl;
  is_null-string = λ s. refl;
  is_null-int = λ n. refl;
  is_null-object = λ ms. refl;
}
