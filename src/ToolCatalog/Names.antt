-- ===== src/ToolCatalog/Names.antt =====
-- The names of the tools that crates/tool-catalog/src/lib.rs reads from a file and joins with the built-in ones.
use mathlib.Core.Path.{subst}
use lv_fixus.Common.{
  String, Bool, true, false, ◌&&◌, ◌||◌, not, List, [], ◌∷◌, ◌++◌, ◌≡◌, refl, sym, ap, ◌∙◌, arith,
  ◌⊎◌, inl, inr, filter, ◌==◌, string_eq, Bool-cases, and_true,
}
use lv_fixus.Common.Map.{contains}
use lv_fixus.Json.{Json, Build}
use lv_fixus.ToolCatalog.{ToolSpec, CatalogError, ArgvPart, BinIo, names, filter_collisions}
use lv_fixus.ToolCatalog.Builtins.{builtins}
use lv_fixus.ToolCatalog.Extras.{
  ExtraToolRaw, tool_of, tool_with_argv, tool_with_io, tools_of, parse_tools, parse_extra_catalog,
  parse_argv,
}

-- no name occurs twice
abbrev pub are_distinct : List String → Bool
are_distinct [] = true
are_distinct (n ∷ ns) = not (contains n ns) && are_distinct ns

contains-++ :
    (n : String) (xs ys : List String) → contains n (xs ++ ys) ≡ (contains n xs || contains n ys)
unfolding contains
contains-++ n [] ys = refl
contains-++ n (x ∷ xs) ys = ground (arith, contains-++ n xs ys)

contains_head : (n : String) (ns : List String) → contains n (n ∷ ns) ≡ true
unfolding contains
contains_head n ns = rw ((string_eq.same_iff n n).1 refl) refl

contains_tail :
    (m n : String) (ns : List String) → contains m ns ≡ true → contains m (n ∷ ns) ≡ true
unfolding contains
contains_tail m n ns h = ground (arith, h)

are_distinct-++ :
    (xs ys : List String)
    → are_distinct xs ≡ true
    → are_distinct ys ≡ true
    → ((n : String) → contains n xs ≡ true → contains n ys ≡ false)
    → are_distinct (xs ++ ys) ≡ true
are_distinct-++ [] ys p q r = q
are_distinct-++ (x ∷ xs) ys p q r =
    let (a, b) = and_true (not (contains x xs)) (are_distinct xs) p in
    let apart : contains x ys ≡ false = r x (contains_head x xs) in
    let rest : are_distinct (xs ++ ys) ≡ true =
      are_distinct-++ xs ys b q (λ n h. r n (contains_tail n x xs h)) in
    ground (arith, contains-++ x xs ys, rest, a, apart)

module _ {V : Type 0} where
  abbrev kept : List (ToolSpec V) → List (ToolSpec V) → List (ToolSpec V)
  kept reserved extras = filter (λ e. not (contains e.name (names reserved))) extras

  contains-kept :
      (n : String) (reserved extras : List (ToolSpec V))
      → contains n (names extras) ≡ false
      → contains n (names (kept reserved extras)) ≡ false
  unfolding contains
  contains-kept n reserved [] h = refl
  contains-kept n reserved (e ∷ es) h = elim (Bool-cases (contains e.name (names reserved))) [
    | inl p ↦ rw p (contains-kept n reserved es (ground (arith, h)))
    | inr p ↦ rw p (ground (arith, h, contains-kept n reserved es (ground (arith, h))))
  ]

  kept-are_distinct :
      (reserved extras : List (ToolSpec V))
      → are_distinct (names extras) ≡ true
      → are_distinct (names (kept reserved extras)) ≡ true
  kept-are_distinct reserved [] h = refl
  kept-are_distinct reserved (e ∷ es) h =
      let (a, b) = and_true (not (contains e.name (names es))) (are_distinct (names es)) h in
      elim (Bool-cases (contains e.name (names reserved))) [
        | inl p ↦ rw p (kept-are_distinct reserved es b)
        | inr p ↦ rw p (
            rw (contains-kept e.name reserved es (ground (arith, a)))
              (kept-are_distinct reserved es b))
      ]

  kept-apart :
      (n : String) (reserved extras : List (ToolSpec V))
      → contains n (names reserved) ≡ true
      → contains n (names (kept reserved extras)) ≡ false
  unfolding contains
  kept-apart n reserved [] h = refl
  kept-apart n reserved (e ∷ es) h = elim (Bool-cases (contains e.name (names reserved))) [
    | inl p ↦ rw p (kept-apart n reserved es h)
    | inr p ↦ rw p (elim (Bool-cases (e.name == n)) [
      | inl q ↦ absurd (
          ground (
            arith,
            h,
            p,
            ap (λ m. contains m (names reserved)) ((string_eq.same_iff e.name n).0 q),
          ))
      | inr q ↦ rw q (kept-apart n reserved es h)
    ])
  ]

names-++ : {V : Type 0} (xs ys : List (ToolSpec V)) → names (xs ++ ys) ≡ names xs ++ names ys
names-++ [] ys = refl
names-++ (x ∷ xs) ys = ap (λ ns. x.name ∷ ns) (names-++ xs ys)

only_other :
    (n m : String) (ns : List String)
    → contains n ns ≡ true
    → contains m ns ≡ false
    → contains n (m ∷ []) ≡ false
unfolding contains
only_other n m ns g h = elim (Bool-cases (m == n)) [
  | inl e ↦ absurd (ground (arith, g, h, ap (λ k. contains k ns) ((string_eq.same_iff m n).0 e)))
  | inr e ↦ rw e refl
]

out_inj : {A : Type 0} {xs ys : A} → ◌≡◌ {A = CatalogError ⊎ A} (inr xs) (inr ys) → xs ≡ ys
out_inj {xs = xs} h = ap (λ r. elim r [ inl e ↦ xs | inr y ↦ y ]) h

Sum-cases : {A B : Type 0} (r : A ⊎ B) → ((e : A) × (r ≡ inl e)) ⊎ ((b : B) × (r ≡ inr b))
Sum-cases (inl e) = inl (e, refl)
Sum-cases (inr b) = inr (b, refl)

module _ {T V : Type 0} (debug : String → String) (to_json : T → V) where
  with_io-name :
      (raw : ExtraToolRaw T) (argv : List ArgvPart) (io : CatalogError ⊎ BinIo) (spec : ToolSpec V)
      → tool_with_io debug to_json raw argv io ≡ inr spec
      → spec.name ≡ raw.name
  with_io-name raw argv (inl e) spec h = absurd (ground arith)
  with_io-name raw argv (inr io) spec h =
      ap (λ r. elim r [ inl e ↦ raw.name | inr s ↦ s.name ]) (sym h)

  with_argv-name :
      (raw : ExtraToolRaw T) (argv : CatalogError ⊎ List ArgvPart) (spec : ToolSpec V)
      → tool_with_argv debug to_json raw argv ≡ inr spec
      → spec.name ≡ raw.name
  with_argv-name raw (inl e) spec h = absurd (ground arith)
  with_argv-name raw (inr argv) spec h = with_io-name raw argv _ spec h

  tool-name :
      (raw : ExtraToolRaw T) (argv : List String) (spec : ToolSpec V)
      → tool_of debug to_json raw argv ≡ inr spec
      → spec.name ≡ raw.name
  tool-name raw [] spec h = absurd (ground arith)
  tool-name raw (s ∷ ss) spec h = with_argv-name raw (parse_argv [] (s ∷ ss)) spec h

  seen-more :
      (n : String) (seen : List String) (specs : List (ToolSpec V)) (spec : ToolSpec V)
      → ((m : String) → contains m (names specs) ≡ contains m seen)
      → spec.name ≡ n
      → (m : String) → contains m (names (specs ++ (spec ∷ []))) ≡ contains m (n ∷ seen)
  unfolding contains
  seen-more n seen specs spec same e m =
      ap (contains m) (names-++ specs (spec ∷ []))
      ∙ contains-++ m (names specs) (spec.name ∷ [])
      ∙ ground (arith, same m, ap (λ x. x == m) e)

  specs-more :
      (specs : List (ToolSpec V)) (spec : ToolSpec V)
      → are_distinct (names specs) ≡ true
      → contains spec.name (names specs) ≡ false
      → are_distinct (names (specs ++ (spec ∷ []))) ≡ true
  specs-more specs spec d h = rw (names-++ specs (spec ∷ [])) (
      are_distinct-++ (names specs) (spec.name ∷ []) d (unfold contains in refl)
        (λ n g. only_other n spec.name (names specs) g h))

  -- the set `seen` holds the names of `specs`, which are distinct
  parse_tools-are_distinct :
      (seen : List String) (specs : List (ToolSpec V)) (raws : List (ExtraToolRaw T))
      (out : List (ToolSpec V))
      → ((n : String) → contains n (names specs) ≡ contains n seen)
      → are_distinct (names specs) ≡ true
      → parse_tools debug to_json seen specs raws ≡ inr out
      → are_distinct (names out) ≡ true
  unfolding parse_tools
  parse_tools-are_distinct seen specs [] out same d h =
      subst (λ o. are_distinct (names o) ≡ true) (out_inj h) d
  parse_tools-are_distinct seen specs (raw ∷ raws) out same d h =
      elim (Bool-cases (contains raw.name seen)) [
        | inl p ↦ absurd (ground (arith, rw (p, parse_tools) at h))
        | inr p ↦ elim (Sum-cases (tool_of debug to_json raw raw.argv)) [
          | inl (e, g) ↦ absurd (ground (arith, rw (p, g, parse_tools) at h))
          | inr (spec, g) ↦
              let e = tool-name raw raw.argv spec g in
              parse_tools-are_distinct (raw.name ∷ seen) (specs ++ (spec ∷ [])) raws out
                (seen-more raw.name seen specs spec same e)
                (specs-more specs spec d (rw e (same raw.name ∙ p))) (rw (p, g, parse_tools) at h)
        ]
      ]

  read-are_distinct :
      (r : String ⊎ List (ExtraToolRaw T)) (extras : List (ToolSpec V))
      → tools_of debug to_json r ≡ inr extras
      → are_distinct (names extras) ≡ true
  read-are_distinct (inl e) extras h = absurd (ground arith)
  read-are_distinct (inr raws) extras h =
      parse_tools-are_distinct [] [] raws extras (λ n. refl) refl h

  -- The names of the tools that are read from a file are distinct.
  extras-are_distinct :
      (is_blank : String → Bool) (from_str : String → String ⊎ List (ExtraToolRaw T))
      (toml_str : String) (extras : List (ToolSpec V))
      → parse_extra_catalog debug to_json is_blank from_str toml_str ≡ inr extras
      → are_distinct (names extras) ≡ true
  unfolding parse_extra_catalog
  extras-are_distinct is_blank from_str toml_str extras = elim (Bool-cases (is_blank toml_str)) [
    | inl e ↦ rw e (λ h. subst (λ o. are_distinct (names o) ≡ true) (out_inj h) refl)
    | inr e ↦ rw e (read-are_distinct (from_str toml_str) extras)
  ]

builtins-are_distinct : (j : Json) (b : Build j) → are_distinct (names (builtins j b)) ≡ true
unfolding builtins contains
builtins-are_distinct j b = refl

-- The built-in tools and the tools of an operator's file, less those that have the name of a built-in one,
-- have distinct names, whatever the file holds, if it is read without an error. (The parser of TOML is any
-- function.)
pub merged-are_distinct :
    (j : Json) (b : Build j) {T : Type 0} (debug : String → String) (to_json : T → j.Value)
    (is_blank : String → Bool) (from_str : String → String ⊎ List (ExtraToolRaw T))
    (toml_str : String) (extras : List (ToolSpec j.Value))
    → parse_extra_catalog debug to_json is_blank from_str toml_str ≡ inr extras
    → are_distinct (names (builtins j b ++ filter_collisions extras (builtins j b))) ≡ true
unfolding filter_collisions
merged-are_distinct j b debug to_json is_blank from_str toml_str extras h =
    rw (names-++ (builtins j b) (kept (builtins j b) extras)) (
      are_distinct-++ (names (builtins j b)) (names (kept (builtins j b) extras))
        (builtins-are_distinct j b)
        (kept-are_distinct (builtins j b) extras
          (extras-are_distinct debug to_json is_blank from_str toml_str extras h))
        (λ n g. kept-apart n (builtins j b) extras g))
