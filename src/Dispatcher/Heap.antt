-- ===== src/Dispatcher/Heap.antt =====
-- `pop_greatest`, the model of `BinaryHeap::pop` in src/dispatcher.rs.
use mathlib.Core.List.{Permᴰ}
use mathlib.Core.List.Permᴰ as Permᴰ
use mathlib.Core.Path.{subst}
use lv_fixus.Common.{
  true, false, Option, none, some, List, [], ◌∷◌, ◌≡◌, refl, inl, inr, arith, All, All-map,
  All-perm, some_inj, Bool-cases,
}
use lv_fixus.Common.Int.{int_beq_iff}
use lv_fixus.Dispatcher.{PriEntry, greater, choose, pop_greatest}

greater_trans : (a b c : PriEntry) → greater b a ≡ false → greater c b ≡ false → greater c a ≡ false
greater_trans a b c h k = ground (
  arith,
  int_beq_iff b.priority a.priority,
  int_beq_iff c.priority b.priority,
  int_beq_iff c.priority a.priority,
)

greater_asym : (a b : PriEntry) → greater a b ≡ true → greater b a ≡ false
greater_asym a b h =
    ground (arith, int_beq_iff a.priority b.priority, int_beq_iff b.priority a.priority)

nil_of_pop_none : (es : List PriEntry) → pop_greatest es ≡ none → es ≡ []
unfolding pop_greatest
nil_of_pop_none [] h = refl
nil_of_pop_none (x ∷ es) h = ground arith

-- An entry that comes out of the heap leaves the others, and none of them is greater.
abbrev pub Popped : List PriEntry → PriEntry × List PriEntry → Type 0
Popped es (m, rest) = Permᴰ es (m ∷ rest) × All (λ e. greater e m ≡ false) rest

choose-Popped :
    (x : PriEntry) (xs : List PriEntry) (o : Option (PriEntry × List PriEntry))
    → pop_greatest xs ≡ o
    → ((r : PriEntry × List PriEntry) → o ≡ some r → Popped xs r)
    → Popped (x ∷ xs) (choose x xs o)
choose-Popped x xs none p ih = (Permᴰ.refl (x ∷ xs), rw (nil_of_pop_none xs p) tt)
choose-Popped x xs (some (m, rest)) p ih = elim (Bool-cases (greater m x)) [
  | inl g ↦ rw g (
    Permᴰ.trans (Permᴰ.cons refl (ih (m, rest) refl).0) (Permᴰ.swap refl refl),
    (greater_asym m x g, (ih (m, rest) refl).1),
  )
  | inr n ↦ rw n (
    Permᴰ.refl (x ∷ xs),
    All-perm (λ e. greater e x ≡ false) (Permᴰ.symm (ih (m, rest) refl).0)
        (
          n,
          All-map (λ e. greater e m ≡ false) (λ e. greater e x ≡ false) rest
              (λ e. greater_trans x m e n) (ih (m, rest) refl).1,
        ),
  )
]

pub pop_greatest-Popped :
    (es : List PriEntry) (r : PriEntry × List PriEntry) → pop_greatest es ≡ some r → Popped es r
unfolding pop_greatest
pop_greatest-Popped [] r h = absurd (ground arith)
pop_greatest-Popped (x ∷ xs) r h =
    subst (Popped (x ∷ xs)) (some_inj h)
      (choose-Popped x xs (pop_greatest xs) refl (λ q. pop_greatest-Popped xs q))
