-- ===== src/ToolCatalog/Rendered.antt =====
-- What `render_argv` of crates/tool-catalog/src/lib.rs writes for each part of a template.
use mathlib.Core.Path.{subst}
use lv_fixus.Common.{
  String, true, false, List, [], ◌∷◌, ◌++◌, ◌≡◌, refl, sym, ap, ◌∙◌, arith, ◌⊎◌, inl, inr, ◌↔◌,
}
use mathlib.Core.List.{append_assoc, append-nil}
use lv_fixus.ToolCatalog.{
  ArgvPart, literal, arg, flag, RenderError, Shape, null, text, number, boolean, compound,
  arg_piece, flag_piece, render_part, render_parts, render_argv,
}

module _ (args : String → Shape) where
  -- the text that an argument is written as
  abbrev pub ShownAs : Shape → String → Type 0
  ShownAs (text s) t = t ≡ s
  ShownAs (number s) t = t ≡ s
  ShownAs (boolean true) t = t ≡ "true"
  ShownAs (boolean false) t = t ≡ "false"
  ShownAs _ t = ⊥

  -- A literal is written as it is and an argument as one element, whatever its text is; a flag is written as
  -- its own text if the argument is true, and not at all if it is false or null.
  abbrev pub Piece : ArgvPart → List String → Type 0
  Piece (literal s) xs = xs ≡ s ∷ []
  Piece (arg name) xs = (t : String) × ShownAs (args name) t × (xs ≡ t ∷ [])
  Piece (flag name value) xs =
      ((args name ≡ boolean true) × (xs ≡ value ∷ []))
      ⊎ (((args name ≡ boolean false) ⊎ (args name ≡ null)) × (xs ≡ []))

  -- the pieces of the parts, one behind the other
  abbrev pub Rendered : List ArgvPart → List String → Type 0
  Rendered [] out = out ≡ []
  Rendered (p ∷ ps) out =
      (piece : List String) × (rest : List String) × Piece p piece
      × Rendered ps rest
      × (out ≡ piece ++ rest)

  piece-arg :
      (name : String) (sh : Shape) (xs : List String)
      → arg_piece args name sh ≡ inr xs
      → (t : String) × ShownAs sh t × (xs ≡ t ∷ [])
  piece-arg name null xs h = absurd (ground arith)
  piece-arg name (text s) xs h = (s, refl, ground arith)
  piece-arg name (number s) xs h = (s, refl, ground arith)
  piece-arg name (boolean true) xs h = ("true", refl, ground arith)
  piece-arg name (boolean false) xs h = ("false", refl, ground arith)
  piece-arg name compound xs h = absurd (ground arith)

  arg-piece :
      (name : String) (sh : Shape) (t : String)
      → ShownAs sh t
      → arg_piece args name sh ≡ inr (t ∷ [])
  arg-piece name null t h = absurd h
  arg-piece name (text s) t h = rw h refl
  arg-piece name (number s) t h = rw h refl
  arg-piece name (boolean true) t h = rw h refl
  arg-piece name (boolean false) t h = rw h refl
  arg-piece name compound t h = absurd h

  piece-flag :
      (name value : String) (sh : Shape) (xs : List String)
      → flag_piece args name value sh ≡ inr xs
      → ((sh ≡ boolean true) × (xs ≡ value ∷ []))
        ⊎ (((sh ≡ boolean false) ⊎ (sh ≡ null)) × (xs ≡ []))
  piece-flag name value null xs h = inr (inr refl, ground arith)
  piece-flag name value (text s) xs h = absurd (ground arith)
  piece-flag name value (number s) xs h = absurd (ground arith)
  piece-flag name value (boolean true) xs h = inl (refl, ground arith)
  piece-flag name value (boolean false) xs h = inr (inl refl, ground arith)
  piece-flag name value compound xs h = absurd (ground arith)

  Piece-of : (p : ArgvPart) (xs : List String) → render_part args p ≡ inr xs → Piece p xs
  unfolding render_part
  Piece-of (literal s) xs h = ground arith
  Piece-of (arg name) xs h = piece-arg name (args name) xs h
  Piece-of (flag name value) xs h = piece-flag name value (args name) xs h

  of_Piece : (p : ArgvPart) (xs : List String) → Piece p xs → render_part args p ≡ inr xs
  unfolding render_part
  of_Piece (literal s) xs h = rw h refl
  of_Piece (arg name) xs (t, h, e) = rw e (arg-piece name (args name) t h)
  of_Piece (flag name value) xs (inl (h, e)) = rw h (rw e refl)
  of_Piece (flag name value) xs (inr (inl h, e)) = rw h (rw e refl)
  of_Piece (flag name value) xs (inr (inr h, e)) = rw h (rw e refl)

  Sum-cases :
      (r : RenderError ⊎ List String)
      → ((e : RenderError) × (r ≡ inl e)) ⊎ ((xs : List String) × (r ≡ inr xs))
  Sum-cases (inl e) = inl (e, refl)
  Sum-cases (inr xs) = inr (xs, refl)

  Rendered-of :
      (before : List String) (ps : List ArgvPart) (out : List String)
      → render_parts args before ps ≡ inr out
      → (rest : List String) × Rendered ps rest × (out ≡ before ++ rest)
  unfolding render_parts
  Rendered-of before [] out h = ([], refl, ground (arith, append-nil before))
  Rendered-of before (p ∷ ps) out h = elim (Sum-cases (render_part args p)) [
    | inl (e, g) ↦ absurd (ground (arith, rw (g, render_parts) at h))
    | inr (xs, g) ↦
        let (rest, r, eq) = Rendered-of (before ++ xs) ps out (rw (g, render_parts) at h) in
        (xs ++ rest, (xs, rest, Piece-of p xs g, r, refl), eq ∙ append_assoc before xs rest)
  ]

  of_Rendered :
      (before : List String) (ps : List ArgvPart) (rest : List String)
      → Rendered ps rest
      → render_parts args before ps ≡ inr (before ++ rest)
  unfolding render_parts
  of_Rendered before [] rest h = rw h (ap inr (sym (append-nil before)))
  of_Rendered before (p ∷ ps) out (xs, rest, h, r, e) =
      rw (of_Piece p xs h, render_parts)
        (of_Rendered (before ++ xs) ps rest r
          ∙ ap inr (append_assoc before xs rest ∙ ap (λ l. before ++ l) (sym e)))

  -- A command line is written exactly when each part has a piece, and then it is the pieces one behind the
  -- other: a literal and an argument give one element each, whatever text the argument holds, and a flag
  -- gives one element, which is its own text, or none.
  pub render_argv_iff :
      (parts : List ArgvPart) (out : List String)
      → (render_argv args parts ≡ inr out) ↔ Rendered parts out
  unfolding render_argv
  render_argv_iff parts out = (
    λ h. let (rest, r, e) = Rendered-of [] parts out h in subst (Rendered parts) (sym e) r,
    of_Rendered [] parts out,
  )
