-- ===== src/Projection/Cache.antt =====
-- `ProjectionCache` of src/projection.rs: the projections in memory, the least recently used one out
-- first. `P` is a projection behind its lock.
use lv_fixus.Common.{
  String, false, Option, none, some, ℕ, ◌≤◌, List, [], ◌∷◌, ◌++◌, ◌≡◌, refl, arith, if◌then◌else◌,
  not, ◌==◌, string_eq, filter, length, ltb, any, length-append, ap, beq_self, Bool-cases, inl, inr,
  ◌∙◌,
}
use lv_fixus.Common.Map.{Map, get, insert, remove, get-remove}

abbrev pub without : String → List String → List String
without task_id order = filter (λ id. not (id == task_id)) order

without-absent :
    (task_id : String) (order : List String)
    → any (λ id. id == task_id) (without task_id order) ≡ false
without-absent task_id [] = refl
without-absent task_id (x ∷ order) = ground (arith, without-absent task_id order)

module _ (P : Type 0) where
  pub record LruMap : Type 0 where
    pub map : Map String P
    pub order : List String  -- the front first
    pub cap : ℕ

module _ {P : Type 0} where
  unfoldable pub new : ℕ → LruMap P
  new capacity = record { map = []; order = []; cap = capacity }

  abbrev pub touch : LruMap P → String → Option P → LruMap P × Option P
  touch m task_id none = (m, none)
  touch m task_id (some p) =
      (record m { order = without task_id m.order ++ (task_id ∷ []) }, some p)

  unfoldable pub lookup : LruMap P → String → LruMap P × Option P
  lookup m task_id = touch m task_id (get task_id m.map)

  unfoldable pub invalidate : LruMap P → String → LruMap P
  invalidate m task_id = record m { map = remove task_id m.map; order = without task_id m.order }

  abbrev pub present : Option P → P → P
  present none fresh = fresh
  present (some p) fresh = p

  -- `entry(task_id).or_insert_with(…)`, and what consuming the stream made of the projection
  abbrev pub update_entry : LruMap P → String → P → (P → P) → LruMap P
  update_entry m task_id fresh consume = record m {
    map = insert task_id (consume (present (get task_id m.map) fresh)) m.map;
  }

  -- the loop that evicts: one round takes the front of `order`
  abbrev pub evict : LruMap P → List String → LruMap P
  evict m [] = record m { order = [] }
  evict m (old ∷ rest) =
      let smaller = evict (record m { map = remove old m.map }) rest in
      if ltb m.cap (length (old ∷ rest)) then smaller else record m { order = old ∷ rest }

  -- `catch_up` when the broker's stream ends without an error: `consume` is what the records that it
  -- carries make of the projection
  unfoldable pub catch_up : LruMap P → String → P → (P → P) → LruMap P
  catch_up m task_id fresh consume =
      let filled = update_entry m task_id fresh consume in
      evict filled (filled.order ++ (task_id ∷ []))

  evict-le : (m : LruMap P) (order : List String) → length (evict m order).order ≤ m.cap
  evict-le m [] = omega arith
  evict-le m (old ∷ rest) = elim (Bool-cases (ltb m.cap (length (old ∷ rest)))) [
    | inl h ↦ rw h (evict-le (record m { map = remove old m.map }) rest)
    | inr h ↦ rw h (ground arith)
  ]

  evict-full :
      (m : LruMap P) (old : String) (rest : List String)
      → length rest ≡ m.cap
      → get old (evict m (old ∷ rest)).map ≡ none
  evict-full m old [] h = rw (← h) (get-remove old old m.map ∙ rw (beq_self old) refl)
  evict-full m old (x ∷ rest) h = rw (← h) (ground (arith, get-remove old old m.map, beq_self old))

  -- After catching up, at most `cap` task ids are in the order of use.
  pub catch_up-length-le :
      (m : LruMap P) (task_id : String) (fresh : P) (consume : P → P)
      → length (catch_up m task_id fresh consume).order ≤ m.cap
  unfolding catch_up
  catch_up-length-le m task_id fresh consume =
      evict-le (update_entry m task_id fresh consume) (m.order ++ (task_id ∷ []))

  -- In a full cache, catching up on the task that was used least recently evicts that task's own
  -- projection, since its older entry in the order of use stands at the front.
  pub catch_up_evicts_itself :
      (m : LruMap P) (task_id : String) (rest : List String) (fresh : P) (consume : P → P)
      → m.order ≡ task_id ∷ rest
      → length m.order ≡ m.cap
      → get task_id (catch_up m task_id fresh consume).map ≡ none
  unfolding catch_up
  catch_up_evicts_itself m task_id rest fresh consume h full =
      ap (λ o. get task_id (evict (update_entry m task_id fresh consume) (o ++ (task_id ∷ []))).map)
        h
      ∙ evict-full (update_entry m task_id fresh consume) task_id (rest ++ (task_id ∷ []))
          (length-append rest (task_id ∷ []) ∙ omega (arith, full, ap length h))

  -- Right after a hit, the task is last in the order of use, once, and the projection found is the one
  -- that the map held; the map is as before.
  pub lookup_hit :
      (m : LruMap P) (task_id : String) (p : P)
      → get task_id m.map ≡ some p
      → (lookup m task_id
          ≡ (record m { order = without task_id m.order ++ (task_id ∷ []) }, some p))
        × (any (λ id. id == task_id) (without task_id m.order) ≡ false)
  unfolding lookup
  lookup_hit m task_id p h = (rw h refl, without-absent task_id m.order)
