-- ===== src/ToolCatalog/Argv.antt =====
-- The elements of a command line in the catalog of an operator, crates/tool-catalog/src/lib.rs.
use Prim.Native.Char.{Char, code}
use lv_fixus.Common.{
  String, Bool, true, false, ◌&&◌, ◌||◌, not, Option, none, some, ℕ, ◌⊎◌, inl, inr, leb,
  if◌then◌else◌, nat_eq, ◌==◌, string_eq,
}
use lv_fixus.ToolCatalog.{ArgvPart, literal, arg, flag, CatalogError, unknown_placeholder}

-- `[A-Za-z_]`, and with the digits
abbrev pub is_first : ℕ → Bool
is_first c = (leb 65 c && leb c 90) || ((leb 97 c && leb c 122) || (c == 95))

abbrev pub is_later : ℕ → Bool
is_later c = is_first c || (leb 48 c && leb c 57)

unfoldable pub all_later : String → Bool
all_later String.[] = true
all_later (String.◌∷◌ c s) = is_later (code c) && all_later s

unfoldable pub is_ident : String → Bool
is_ident String.[] = false
is_ident (String.◌∷◌ c s) = is_first (code c) && all_later s

abbrev pub put_first : Char → Option String → Option String
put_first c none = none
put_first c (some s) = some (String.◌∷◌ c s)

-- the text before its last character, if that is `}`
unfoldable pub before_close : String → Option String
before_close String.[] = none
before_close (String.◌∷◌ c String.[]) = if code c == 125 then some "" else none
before_close (String.◌∷◌ c (String.◌∷◌ d s)) = put_first c (before_close (String.◌∷◌ d s))

-- what is between `{` and `}`, if the text starts and ends with them
unfoldable pub inner : String → Option String
inner String.[] = none
inner (String.◌∷◌ c s) = if code c == 123 then before_close s else none

abbrev pub put_name : Char → Option (String × String) → Option (String × String)
put_name c none = none
put_name c (some (name, value)) = some (String.◌∷◌ c name, value)

-- `split_once(':')`
unfoldable pub split_colon : String → Option (String × String)
split_colon String.[] = none
split_colon (String.◌∷◌ c s) =
    let rest = split_colon s in if code c == 58 then some ("", s) else put_name c rest

abbrev pub flag_of : String → Option (String × String) → CatalogError ⊎ ArgvPart
flag_of s none = inl (unknown_placeholder s)
flag_of s (some (name, value)) =
    if is_ident name && not (value == "")
    then inr (flag name value)
    else inl (unknown_placeholder s)

-- `s` is the whole element, `i` what is between its braces
abbrev pub placeholder : String → String → CatalogError ⊎ ArgvPart
placeholder s String.[] = inl (unknown_placeholder s)
placeholder s (String.◌∷◌ c rest) =
    if code c == 63
    then flag_of s (split_colon rest)
    else if is_ident (String.◌∷◌ c rest)
    then inr (arg (String.◌∷◌ c rest))
    else inl (unknown_placeholder s)

unfoldable pub parse_argv_element : String → CatalogError ⊎ ArgvPart
parse_argv_element s = elim (inner s) [ none ↦ inr (literal s) | some i ↦ placeholder s i ]
