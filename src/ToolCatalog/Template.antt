-- ===== src/ToolCatalog/Template.antt =====
-- The elements that `parse_argv_element` of crates/tool-catalog/src/lib.rs reads, against a printer.
use mathlib.Core.Path.{subst}
use Prim.Native.Char.{Char, char, code}
use text.Mathlib.TextEquality.{Char-path}
use lv_fixus.Common.{
  String, true, false, ◌&&◌, not, Option, none, some, ℕ, ◌≡◌, refl, sym, ap, ◌∙◌, arith, ◌⊎◌, inl,
  inr, ◌↔◌, nat_eq, ◌==◌, string_eq, Bool-cases, some_inj, and_true,
}
use lv_fixus.ToolCatalog.{ArgvPart, literal, arg, flag, CatalogError}
use lv_fixus.ToolCatalog.Argv.{
  is_first, is_later, all_later, is_ident, put_first, before_close, inner, put_name, split_colon,
  flag_of, placeholder, parse_argv_element,
}

abbrev open_brace : Char
open_brace = char 123 tt

abbrev close_brace : Char
close_brace = char 125 tt

abbrev colon : Char
colon = char 58 tt

abbrev join : String → String → String
join String.[] t = t
join (String.◌∷◌ c s) t = String.◌∷◌ c (join s t)

abbrev pub print : ArgvPart → String
print (literal s) = s
print (arg name) = join "{" (join name "}")
print (flag name value) = join "{?" (join name (join ":" (join value "}")))

-- A literal does not both start with `{` and end with `}`; a name is an identifier, and a value is not empty.
abbrev pub WellFormed : ArgvPart → Type 0
WellFormed (literal s) = inner s ≡ none
WellFormed (arg name) = is_ident name ≡ true
WellFormed (flag name value) = (is_ident name ≡ true) × ((value == "") ≡ false)

before_close-print : (s : String) → before_close (join s "}") ≡ some s
unfolding before_close
before_close-print String.[] = refl
before_close-print (String.◌∷◌ c String.[]) = refl
before_close-print (String.◌∷◌ c (String.◌∷◌ d s)) =
    ap (put_first c) (before_close-print (String.◌∷◌ d s))

is_char : (c d : Char) → (code c == code d) ≡ true → c ≡ d
is_char c d h = Char-path c d ((nat_eq.same_iff (code c) (code d)).0 h)

Option-split : {A : Type 0} (o : Option A) → (o ≡ none) ⊎ ((a : A) × (o ≡ some a))
Option-split none = inl refl
Option-split (some a) = inr (a, refl)

colon_not_later : (c : ℕ) → is_later c ≡ true → (c == 58) ≡ false
colon_not_later c h = ground arith

question_not_first : (c : ℕ) → is_first c ≡ true → (c == 63) ≡ false
question_not_first c h = ground arith

before_close-some : (s i : String) → before_close s ≡ some i → join i "}" ≡ s
unfolding before_close
before_close-some String.[] i = λ h. absurd (ground arith)
before_close-some (String.◌∷◌ c String.[]) i = elim (Bool-cases (code c == 125)) [
  | inl e ↦ rw e (λ h. rw (sym (some_inj h)) (rw (is_char c close_brace e) refl))
  | inr e ↦ rw e (λ h. absurd (ground arith))
]
before_close-some (String.◌∷◌ c (String.◌∷◌ d s)) i =
    elim (Option-split (before_close (String.◌∷◌ d s))) [
      | inl e ↦ rw e (λ h. absurd (ground arith))
      | inr (k, e) ↦
          rw e (λ h.
            rw (sym (some_inj h)) (ap (String.◌∷◌ c) (before_close-some (String.◌∷◌ d s) k e)))
    ]

inner-some : (s i : String) → inner s ≡ some i → join "{" (join i "}") ≡ s
unfolding inner
inner-some String.[] i = λ h. absurd (ground arith)
inner-some (String.◌∷◌ c s) i = elim (Bool-cases (code c == 123)) [
  | inl e ↦
      rw e (λ h. rw (is_char c open_brace e) (ap (String.◌∷◌ open_brace) (before_close-some s i h)))
  | inr e ↦ rw e (λ h. absurd (ground arith))
]

inner-print : (i : String) → inner (join "{" (join i "}")) ≡ some i
unfolding inner
inner-print i = before_close-print i

split_colon-some :
    (s name value : String) → split_colon s ≡ some (name, value) → join name (join ":" value) ≡ s
unfolding split_colon
split_colon-some String.[] name value = λ h. absurd (ground arith)
split_colon-some (String.◌∷◌ c s) name value = elim (Bool-cases (code c == 58)) [
  | inl e ↦ rw e (λ h.
      rw (sym (ap (λ r. r.0) (some_inj h)))
        (rw (sym (ap (λ r. r.1) (some_inj h))) (rw (is_char c colon e) refl)))
  | inr e ↦ rw e (elim (Option-split (split_colon s)) [
    | inl g ↦ rw g (λ h. absurd (ground arith))
    | inr ((n, v), g) ↦ rw g (λ h.
        rw (sym (ap (λ r. r.0) (some_inj h)))
          (rw (sym (ap (λ r. r.1) (some_inj h))) (ap (String.◌∷◌ c) (split_colon-some s n v g))))
  ])
]

split_colon-print :
    (name value : String)
    → all_later name ≡ true
    → split_colon (join name (join ":" value)) ≡ some (name, value)
unfolding split_colon all_later
split_colon-print String.[] value h = refl
split_colon-print (String.◌∷◌ c s) value h =
    let (a, b) = and_true (is_later (code c)) (all_later s) h in
    rw (colon_not_later (code c) a) (ap (put_name c) (split_colon-print s value b))

join_assoc : (s t u : String) → join (join s t) u ≡ join s (join t u)
join_assoc String.[] t u = refl
join_assoc (String.◌∷◌ c s) t u = ap (String.◌∷◌ c) (join_assoc s t u)

abbrev question : Char
question = char 63 tt

inr_inj : {p q : ArgvPart} → ◌≡◌ {A = CatalogError ⊎ ArgvPart} (inr p) (inr q) → p ≡ q
inr_inj h = ap (λ r. elim r [ inl e ↦ literal "" | inr x ↦ x ]) h

first_later : (c : ℕ) → is_first c ≡ true → is_later c ≡ true
first_later c h = ground arith

ident_later : (s : String) → is_ident s ≡ true → all_later s ≡ true
unfolding is_ident all_later
ident_later String.[] h = refl
ident_later (String.◌∷◌ c s) h =
    let (a, b) = and_true (is_first (code c)) (all_later s) h in rw (first_later (code c) a) b

-- the text of a flag, as what is between the braces
flag-text :
    (name value : String)
    → join "{?" (join name (join ":" (join value "}")))
      ≡ join "{" (join (join "?" (join name (join ":" value))) "}")
flag-text name value = ap (λ t. join "{?" t) (sym (join_assoc name (join ":" value) "}"))

abbrev Read : String → ArgvPart → Type 0
Read s p = (print p ≡ s) × WellFormed p

flag-Read :
    (s rest : String) (o : Option (String × String)) (p : ArgvPart)
    → join "{" (join (join "?" rest) "}") ≡ s
    → split_colon rest ≡ o
    → flag_of s o ≡ inr p
    → Read s p
flag-Read s rest none p e h = λ g. absurd (ground arith)
flag-Read s rest (some (n, v)) p e h = elim (Bool-cases (is_ident n && not (v == ""))) [
  | inl ok ↦ rw ok (λ g. subst (Read s) (inr_inj g) (
    flag-text n v ∙ ap (λ t. join "{" (join (join "?" t) "}")) (split_colon-some rest n v h) ∙ e,
    ((and_true (is_ident n) (not (v == "")) ok).0, ground (arith, ok)),
  ))
  | inr bad ↦ rw bad (λ g. absurd (ground arith))
]

placeholder-Read :
    (s i : String) (p : ArgvPart) → join "{" (join i "}") ≡ s → placeholder s i ≡ inr p → Read s p
placeholder-Read s String.[] p e = λ g. absurd (ground arith)
placeholder-Read s (String.◌∷◌ c rest) p e = elim (Bool-cases (code c == 63)) [
  | inl q ↦ rw q (
      flag-Read s rest (split_colon rest) p
        (ap (λ d. join "{" (String.◌∷◌ d (join rest "}"))) (sym (is_char c question q)) ∙ e) refl)
  | inr q ↦ rw q (elim (Bool-cases (is_ident (String.◌∷◌ c rest))) [
    | inl ok ↦ rw ok (λ g. subst (Read s) (inr_inj g) (e, ok))
    | inr bad ↦ rw bad (λ g. absurd (ground arith))
  ])
]

element-Read : (s : String) (p : ArgvPart) → parse_argv_element s ≡ inr p → Read s p
unfolding parse_argv_element
element-Read s p h = elim (Option-split (inner s)) [
  | inl e ↦ subst (Read s) (inr_inj (rw (e, parse_argv_element) at h)) (refl, e)
  | inr (i, e) ↦ placeholder-Read s i p (inner-some s i e) (rw (e, parse_argv_element) at h)
]

first_of :
    (c : Char) (rest : String) → is_ident (String.◌∷◌ c rest) ≡ true → is_first (code c) ≡ true
unfolding is_ident
first_of c rest h = (and_true (is_first (code c)) (all_later rest) h).0

inner_flag :
    (name value : String)
    → inner (print (flag name value)) ≡ some (join "?" (join name (join ":" value)))
inner_flag name value =
    ap inner (flag-text name value) ∙ inner-print (join "?" (join name (join ":" value)))

empty_not_ident : is_ident "" ≡ false
unfolding is_ident
empty_not_ident = refl

arg-placeholder : (s name : String) → is_ident name ≡ true → placeholder s name ≡ inr (arg name)
arg-placeholder s String.[] h = absurd (ground (arith, h, empty_not_ident))
arg-placeholder s (String.◌∷◌ c rest) h =
    rw (question_not_first (code c) (first_of c rest h)) (rw h refl)

element-print : (p : ArgvPart) → WellFormed p → parse_argv_element (print p) ≡ inr p
unfolding parse_argv_element
element-print (literal s) h = rw (h, parse_argv_element) refl
element-print (arg name) h =
    rw (inner-print name, parse_argv_element) (arg-placeholder (print (arg name)) name h)
element-print (flag name value) (h, v) =
    rw (inner_flag name value, parse_argv_element)
      (rw (split_colon-print name value (ident_later name h)) (rw h (rw v refl)))

-- A text is read as a part of a template exactly when it is what the part is printed as, and the part is well
-- formed: `{name}` and `{?name:value}` with an identifier and a value that is not empty, and as a literal each
-- text that does not both start with `{` and end with `}`. Every other text is an error.
pub parse_argv_element_iff :
    (s : String) (p : ArgvPart) → (parse_argv_element s ≡ inr p) ↔ ((print p ≡ s) × WellFormed p)
parse_argv_element_iff s p =
    (element-Read s p, λ h. subst (λ t. parse_argv_element t ≡ inr p) h.0 (element-print p h.1))
