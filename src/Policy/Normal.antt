-- ===== src/Policy/Normal.antt =====
-- The form of the paths that `normalize_path` of src/policy.rs returns.
use lv_fixus.Common.{Bool, true, false, [], ◌∷◌, ◌++◌, ◌≡◌, refl, sym, ◌∙◌, ap, arith, all, String}
use mathlib.Core.List.{append_assoc, append-nil}
use lv_fixus.Policy.Path.{
  FilePath, Component, root_dir, cur_dir, parent_dir, normal, drop_last, push_parts, collect_from,
  normalize_path,
}

abbrev pub is_plain : Component → Bool
is_plain root_dir = true
is_plain (normal a) = true
is_plain _ = false

abbrev pub is_normal : Component → Bool
is_normal (normal a) = true
is_normal _ = false

-- A path in normal form: a root at most at its head, and names.
abbrev pub normal_form : FilePath → Bool
normal_form [] = true
normal_form (root_dir ∷ p) = all is_normal p
normal_form (c ∷ p) = all is_normal (c ∷ p)

-- A path as `components` gives it has a root at most at its head.
abbrev pub is_rootless : Component → Bool
is_rootless root_dir = false
is_rootless _ = true

abbrev pub is_path : FilePath → Bool
is_path [] = true
is_path (c ∷ p) = all is_rootless p

drop_last-normal : (p : FilePath) → all is_normal p ≡ true → all is_normal (drop_last p) ≡ true
drop_last-normal [] h = h
drop_last-normal (a ∷ []) h = refl
drop_last-normal (a ∷ b ∷ p) h = ground (arith, drop_last-normal (b ∷ p))

drop_last-normal_form : (p : FilePath) → normal_form p ≡ true → normal_form (drop_last p) ≡ true
drop_last-normal_form [] h = h
drop_last-normal_form (a ∷ []) h = refl
drop_last-normal_form (root_dir ∷ b ∷ p) h = drop_last-normal (b ∷ p) h
drop_last-normal_form (normal a ∷ b ∷ p) h = drop_last-normal (b ∷ p) h
drop_last-normal_form (cur_dir ∷ b ∷ p) h = absurd (ground arith)
drop_last-normal_form (parent_dir ∷ b ∷ p) h = absurd (ground arith)

snoc-normal :
    (p : FilePath) (a : String) → all is_normal p ≡ true → all is_normal (p ++ normal a ∷ []) ≡ true
snoc-normal [] a h = refl
snoc-normal (c ∷ p) a h = ground (arith, snoc-normal p a)

snoc-normal_form :
    (p : FilePath) (a : String) → normal_form p ≡ true → normal_form (p ++ normal a ∷ []) ≡ true
snoc-normal_form [] a h = refl
snoc-normal_form (root_dir ∷ p) a h = snoc-normal p a h
snoc-normal_form (normal b ∷ p) a h = snoc-normal p a h
snoc-normal_form (cur_dir ∷ p) a h = absurd (ground arith)
snoc-normal_form (parent_dir ∷ p) a h = absurd (ground arith)

push_parts-normal_form :
    (parts p : FilePath)
    → normal_form parts ≡ true
    → all is_rootless p ≡ true
    → normal_form (push_parts parts p) ≡ true
push_parts-normal_form parts [] h r = h
push_parts-normal_form parts (root_dir ∷ p) h r = absurd (ground arith)
push_parts-normal_form parts (cur_dir ∷ p) h r = push_parts-normal_form parts p h r
push_parts-normal_form parts (parent_dir ∷ p) h r =
    push_parts-normal_form (drop_last parts) p (drop_last-normal_form parts h) r
push_parts-normal_form parts (normal a ∷ p) h r =
    push_parts-normal_form (parts ++ normal a ∷ []) p (snoc-normal_form parts a h) r

collect_from-normal : (path p : FilePath) → all is_normal p ≡ true → collect_from path p ≡ path ++ p
collect_from-normal path [] h = sym (append-nil path)
collect_from-normal path (root_dir ∷ p) h = absurd (ground arith)
collect_from-normal path (cur_dir ∷ p) h = absurd (ground arith)
collect_from-normal path (parent_dir ∷ p) h = absurd (ground arith)
collect_from-normal path (normal a ∷ p) h =
    collect_from-normal (path ++ normal a ∷ []) p h ∙ append_assoc path (normal a ∷ []) p

-- what is in normal form is collected as it is
collect-normal_form : (p : FilePath) → normal_form p ≡ true → collect_from [] p ≡ p
collect-normal_form [] h = refl
collect-normal_form (root_dir ∷ p) h = collect_from-normal (root_dir ∷ []) p h
collect-normal_form (normal a ∷ p) h = collect_from-normal [] (normal a ∷ p) h
collect-normal_form (cur_dir ∷ p) h = absurd (ground arith)
collect-normal_form (parent_dir ∷ p) h = absurd (ground arith)

push_parts-normal : (parts p : FilePath) → all is_normal p ≡ true → push_parts parts p ≡ parts ++ p
push_parts-normal parts [] h = sym (append-nil parts)
push_parts-normal parts (root_dir ∷ p) h = absurd (ground arith)
push_parts-normal parts (cur_dir ∷ p) h = absurd (ground arith)
push_parts-normal parts (parent_dir ∷ p) h = absurd (ground arith)
push_parts-normal parts (normal a ∷ p) h =
    push_parts-normal (parts ++ normal a ∷ []) p h ∙ append_assoc parts (normal a ∷ []) p

-- what is in normal form is left as it is
normalize_of_normal_form : (p : FilePath) → normal_form p ≡ true → normalize_path p ≡ p
unfolding normalize_path
normalize_of_normal_form [] h = refl
normalize_of_normal_form (root_dir ∷ p) h =
    ap (collect_from []) (push_parts-normal (root_dir ∷ []) p h)
    ∙ collect-normal_form (root_dir ∷ p) h
normalize_of_normal_form (normal a ∷ p) h =
    ap (collect_from []) (push_parts-normal [] (normal a ∷ p) h)
    ∙ collect-normal_form (normal a ∷ p) h
normalize_of_normal_form (cur_dir ∷ p) h = absurd (ground arith)
normalize_of_normal_form (parent_dir ∷ p) h = absurd (ground arith)

parts_of_path : (p : FilePath) → is_path p ≡ true → normal_form (push_parts [] p) ≡ true
parts_of_path [] h = refl
parts_of_path (root_dir ∷ p) h = push_parts-normal_form (root_dir ∷ []) p refl h
parts_of_path (cur_dir ∷ p) h = push_parts-normal_form [] p refl h
parts_of_path (parent_dir ∷ p) h = push_parts-normal_form [] p refl h
parts_of_path (normal a ∷ p) h = push_parts-normal_form (normal a ∷ []) p refl h

-- A path with a root at most at its head is normalized to a root at most, then names; and normalizing
-- that again changes nothing.
normalize_path_idem :
    (p : FilePath)
    → is_path p ≡ true
    → (normal_form (normalize_path p) ≡ true)
      × (normalize_path (normalize_path p) ≡ normalize_path p)
normalize_path_idem p h =
    let form : normal_form (normalize_path p) ≡ true =
      unfold normalize_path in
      rw (collect-normal_form (push_parts [] p) (parts_of_path p h)) (parts_of_path p h) in
    (form, normalize_of_normal_form (normalize_path p) form)
