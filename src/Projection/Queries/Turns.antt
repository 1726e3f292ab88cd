-- ===== src/Projection/Queries/Turns.antt =====
-- The events of a turn, as a projection gives them back.
use lv_fixus.Common.{
  Option, none, some, List, [], ◌∷◌, ◌≡◌, ◌≢◌, refl, ◌∙◌, ap, if◌then◌else◌, ◌==◌, filter, ℕ,
  Bool-cases, inl, inr, All, String,
}
use lv_fixus.Common.Int.{ℤ, int_eq, int_beq_iff}
use lv_fixus.Common.Map.{get}
use lv_fixus.Json.{Json}
use lv_fixus.Models.Event.{AgentEvent}
use lv_fixus.Projection.{Decoders, new}
use lv_fixus.Projection.Apply.Log.{project}
use lv_fixus.Projection.Apply.Index.{
  seqs_of, last_with, is_of_turn, project-turn_seqs, project-by_seq,
}
use lv_fixus.Projection.Queries.{filter_map, event_at, turn_seqs}

module _ {V : Type 0} where
  -- No sequence number occurs twice in the log.
  abbrev pub HasDistinctSeqs : List (AgentEvent V) → Type 0
  HasDistinctSeqs [] = Unit
  HasDistinctSeqs (e ∷ es) = All (λ x. x.seq ≢ e.seq) es × HasDistinctSeqs es

  last_with_absent :
      (s : ℤ) (o : Option (AgentEvent V)) (es : List (AgentEvent V))
      → All (λ x. x.seq ≢ s) es
      → last_with s o es ≡ o
  last_with_absent s o [] h = refl
  last_with_absent s o (e ∷ es) h = elim (Bool-cases (e.seq == s)) [
    | inl q ↦ absurd (h.0 ((int_beq_iff e.seq s).0 q))
    | inr q ↦ rw q (last_with_absent s o es h.1)
  ]

  last_with_found :
      (o : ℤ → Option (AgentEvent V)) (es : List (AgentEvent V))
      → HasDistinctSeqs es
      → All (λ e. last_with e.seq (o e.seq) es ≡ some e) es
  last_with_found o [] h = tt
  last_with_found o (e ∷ es) h = (
    rw ((int_beq_iff e.seq e.seq).1 refl) (last_with_absent e.seq (some e) es h.0),
    last_with_found (λ s. if e.seq == s then some e else o s) es h.1,
  )

  filter_map-seqs_of :
      (f : ℤ → Option (AgentEvent V)) (t : ℤ) (es : List (AgentEvent V))
      → All (λ e. f e.seq ≡ some e) es
      → filter_map f (seqs_of t es) ≡ filter (λ e. is_of_turn t e.turn_id) es
  filter_map-seqs_of f t [] h = refl
  filter_map-seqs_of f t (e ∷ es) h = elim (Bool-cases (is_of_turn t e.turn_id)) [
    | inl q ↦ rw (q, h.0, filter_map-seqs_of f t es h.1)
    | inr q ↦ rw q (filter_map-seqs_of f t es h.1)
  ]

  filter_map-eq :
      {f g : ℤ → Option (AgentEvent V)}
      → ((s : ℤ) → f s ≡ g s)
      → (ss : List ℤ) → filter_map f ss ≡ filter_map g ss
  filter_map-eq h ss = λ i. filter_map (λ s. h s i) ss

module _ (j : Json) {Content : Type 0} (d : Decoders j Content) where
  -- A new projection to which a log without repeated sequence numbers was applied gives back, for each
  -- turn, exactly the log's events of that turn, in the order of the log.
  pub turn_events-project :
      (now : ℕ) (task_id : String) (t : ℤ) (es : List (AgentEvent j.Value))
      → HasDistinctSeqs es
      → filter_map
          (event_at (project j d (new now task_id) es))
          (turn_seqs (project j d (new now task_id) es) t)
        ≡ filter (λ e. is_of_turn t e.turn_id) es
  unfolding event_at turn_seqs get new
  turn_events-project now task_id t es h =
      let p = project j d (new now task_id) es in
      ap (filter_map (event_at p)) (project-turn_seqs j d t (new now task_id) es)
      ∙ filter_map-eq (λ s. project-by_seq j d s (new now task_id) es) (seqs_of t es)
      ∙ filter_map-seqs_of (λ s. last_with s none es) t es (last_with_found (λ s. none) es h)
