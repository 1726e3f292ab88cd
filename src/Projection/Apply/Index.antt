-- ===== src/Projection/Apply/Index.antt =====
-- The sequence numbers and the indexes of a projection.
use mathlib.Core.List.{append_assoc, append-nil}
use lv_fixus.Common.{
  inl, inr, sym, String, Bool, false, Option, none, some, List, [], ◌∷◌, ◌++◌, ◌≡◌, refl, ◌∙◌, ap,
  arith, if◌then◌else◌, unwrap_or, ◌==◌, All, string_eq, Bool-cases,
}
use lv_fixus.Common.Int.{ℤ, max_ℤ, ◌≤ℤ◌, int_eq, int_beq_iff}
use lv_fixus.Common.Map.{Map, get, get-insert}
use lv_fixus.Json.{Json}
use lv_fixus.Models.EventType.{
  EventType, llm_invoked, llm_completed, llm_failed, tool_invoked, tool_completed, tool_failed,
}
use lv_fixus.Models.Event.{AgentEvent}
use lv_fixus.Projection.{Decoders, TaskProjection}
use lv_fixus.Projection.Apply.{
  index_event, update_head, apply_event, complete_step, end_step_at, begin_step_at, push_seq,
}
use lv_fixus.Projection.Apply.Log.{project}

-- `p` and `q` agree in what the first part of `apply` maintains.
pub record SameIndex {V : Type 0} (p q : TaskProjection V) : Type 0 where
  pub max_seq : p.max_seq ≡ q.max_seq
  pub by_seq : p.by_seq ≡ q.by_seq
  pub by_turn_id : p.by_turn_id ≡ q.by_turn_id

-- the last event of a log with a sequence number, or else what was there before
abbrev pub last_with :
    {V : Type 0} → ℤ → Option (AgentEvent V) → List (AgentEvent V) → Option (AgentEvent V)
last_with s found [] = found
last_with s found (e ∷ es) = last_with s (if e.seq == s then some e else found) es

abbrev pub is_of_turn : ℤ → Option ℤ → Bool
is_of_turn t none = false
is_of_turn t (some u) = u == t

-- the sequence numbers of the events of a turn, in the order of the log
abbrev pub seqs_of : {V : Type 0} → ℤ → List (AgentEvent V) → List ℤ
seqs_of t [] = []
seqs_of t (e ∷ es) = if is_of_turn t e.turn_id then e.seq ∷ seqs_of t es else seqs_of t es

module _ {V : Type 0} where
  complete_step-index :
      (sid : String) (o : Option (ℤ × AgentEvent V)) (p : TaskProjection V) (e : AgentEvent V)
      → SameIndex (complete_step sid o p e) p
  complete_step-index sid none p e = record { max_seq = refl; by_seq = refl; by_turn_id = refl }
  complete_step-index sid (some (n, s)) p e = record {
    max_seq = refl;
    by_seq = refl;
    by_turn_id = refl;
  }

  end_step-index :
      (o : Option String) (p : TaskProjection V) (e : AgentEvent V)
      → SameIndex (end_step_at o p e) p
  end_step-index none p e = record { max_seq = refl; by_seq = refl; by_turn_id = refl }
  end_step-index (some sid) p e = complete_step-index sid (get sid p.active_steps) p e

  begin_step-index :
      (o : Option String) (p : TaskProjection V) (e : AgentEvent V)
      → SameIndex (begin_step_at o p e) p
  begin_step-index none p e = record { max_seq = refl; by_seq = refl; by_turn_id = refl }
  begin_step-index (some sid) p e = record { max_seq = refl; by_seq = refl; by_turn_id = refl }

get-push_seq :
    (t : ℤ) (turn : Option ℤ) (s : ℤ) (m : Map ℤ (List ℤ))
    → unwrap_or [] (get t (push_seq turn s m))
      ≡ (if is_of_turn t turn then unwrap_or [] (get t m) ++ (s ∷ []) else unwrap_or [] (get t m))
get-push_seq t none s m = refl
get-push_seq t (some u) s m = elim (Bool-cases (u == t)) [
  | inl e ↦ rw (get-insert u t, e, (int_beq_iff u t).0 e)
  | inr e ↦ rw (get-insert u t, e)
]

module _ (j : Json) {Content : Type 0} (d : Decoders j Content) where
  update_head-index :
      (et : EventType) (p : TaskProjection j.Value) (e : AgentEvent j.Value)
      → SameIndex (update_head j d et p e) p
  unfolding update_head
  update_head-index llm_invoked p e = begin_step-index e.step_id p e
  update_head-index tool_invoked p e = begin_step-index e.step_id p e
  update_head-index llm_completed p e =
      let s = end_step-index e.step_id p e in
      record { max_seq = s.max_seq; by_seq = s.by_seq; by_turn_id = s.by_turn_id }
  update_head-index llm_failed p e = end_step-index e.step_id p e
  update_head-index tool_completed p e = end_step-index e.step_id p e
  update_head-index tool_failed p e = end_step-index e.step_id p e
  update_head-index _ p e = record { max_seq = refl; by_seq = refl; by_turn_id = refl }

  apply-index :
      (p : TaskProjection j.Value) (e : AgentEvent j.Value)
      → SameIndex (apply_event j d p e) (index_event p e)
  apply-index p e = update_head-index e.event_type (index_event p e) e

  apply-by_seq :
      (s : ℤ) (p : TaskProjection j.Value) (e : AgentEvent j.Value)
      → get s (apply_event j d p e).by_seq ≡ (if e.seq == s then some e else get s p.by_seq)
  unfolding index_event
  apply-by_seq s p e = ap (get s) (apply-index p e).by_seq ∙ get-insert e.seq s e p.by_seq

  -- Looking up a sequence number after a log gives the last event of the log that has it, and what
  -- the projection held before for a number that is not in the log.
  pub project-by_seq :
      (s : ℤ) (p : TaskProjection j.Value) (es : List (AgentEvent j.Value))
      → get s (project j d p es).by_seq ≡ last_with s (get s p.by_seq) es
  unfolding project
  project-by_seq s p [] = refl
  project-by_seq s p (e ∷ es) =
      project-by_seq s (apply_event j d p e) es ∙ ap (λ o. last_with s o es) (apply-by_seq s p e)

  apply-max_seq :
      (p : TaskProjection j.Value) (e : AgentEvent j.Value)
      → (apply_event j d p e).max_seq ≡ max_ℤ p.max_seq e.seq
  unfolding index_event
  apply-max_seq p e = (apply-index p e).max_seq

  -- After a log, `max_seq` is at least the sequence number of each of its events and at least what it
  -- was before the log.
  pub project-max_seq :
      (p : TaskProjection j.Value) (es : List (AgentEvent j.Value))
      → (p.max_seq ≤ℤ (project j d p es).max_seq)
        × All (λ e. e.seq ≤ℤ (project j d p es).max_seq) es
  unfolding project
  project-max_seq p [] = (omega arith, tt)
  project-max_seq p (e ∷ es) =
      let (low, each) = project-max_seq (apply_event j d p e) es in
      (ground (arith, low, apply-max_seq p e), (ground (arith, low, apply-max_seq p e), each))

  apply-turn_seqs :
      (t : ℤ) (p : TaskProjection j.Value) (e : AgentEvent j.Value)
      → unwrap_or [] (get t (apply_event j d p e).by_turn_id) ≡ (
          if is_of_turn t e.turn_id
          then unwrap_or [] (get t p.by_turn_id) ++ (e.seq ∷ [])
          else unwrap_or [] (get t p.by_turn_id))
  unfolding index_event
  apply-turn_seqs t p e =
      ap (λ m. unwrap_or [] (get t m)) (apply-index p e).by_turn_id
      ∙ get-push_seq t e.turn_id e.seq p.by_turn_id

  -- After a log the index of a turn lists the sequence numbers of that turn's events, in the order of
  -- the log and each once per event, behind what it listed before.
  pub project-turn_seqs :
      (t : ℤ) (p : TaskProjection j.Value) (es : List (AgentEvent j.Value))
      → unwrap_or [] (get t (project j d p es).by_turn_id)
        ≡ unwrap_or [] (get t p.by_turn_id) ++ seqs_of t es
  unfolding project
  project-turn_seqs t p [] = sym (append-nil _)
  project-turn_seqs t p (e ∷ es) = elim (Bool-cases (is_of_turn t e.turn_id)) [
    | inl h ↦
        rw (project-turn_seqs t (apply_event j d p e) es, apply-turn_seqs t p e, h, append_assoc)
    | inr h ↦ rw (project-turn_seqs t (apply_event j d p e) es, apply-turn_seqs t p e, h)
  ]
