-- ===== src/Stream/Replay.antt =====
-- The replay of the history and the events that come after it, src/bin/fixus-stream/main.rs.
use mathlib.Core.Path.{subst}
use lv_fixus.Common.{
  String, Bool, true, false, ℕ, ◌<◌, ◌≤◌, Option, none, some, List, [], ◌∷◌, ◌++◌, map, filter, ◌≡◌,
  refl, if◌then◌else◌, arith, Bool-cases, sym, inl, inr,
}
use lv_fixus.Common.Int.{ℤ, pos, as_i64, as_i64_small, half64, max_ℤ}
use lv_fixus.Stream.{
  Record, is_terminal, of_turn, sse_event, sort_records, replay, live_events, done, stream_turn,
}

module _ {B : Type 0} where
  -- the records are numbered upwards, from above `low` to at most `high`
  abbrev pub Rises : ℕ → List (Record B) → ℕ → Type 0
  Rises low [] high = low ≤ high
  Rises low (r ∷ recs) high = (low < r.seq) × Rises r.seq recs high

  -- the records up to the first that ends a turn
  unfoldable pub until_terminal : List (Record B) → List (Record B)
  until_terminal [] = []
  until_terminal (r ∷ recs) = if is_terminal r.event_type then r ∷ [] else r ∷ until_terminal recs

  abbrev last_of : ℕ → List (Record B) → ℕ
  last_of low [] = low
  last_of low (r ∷ recs) = last_of r.seq recs

  Rises-lower :
      (low other high : ℕ) (recs : List (Record B))
      → low ≤ other
      → Rises other recs high
      → Rises low recs high
  Rises-lower low other high [] le h = omega arith
  Rises-lower low other high (r ∷ recs) le (h, t) = (omega arith, t)

  Rises-bounds : (low high : ℕ) (recs : List (Record B)) → Rises low recs high → low ≤ high
  Rises-bounds low high [] h = h
  Rises-bounds low high (r ∷ recs) (h, t) = omega (arith, h, Rises-bounds r.seq high recs t)

  Rises-append :
      (low mid high : ℕ) (xs ys : List (Record B))
      → Rises low xs mid
      → Rises mid ys high
      → Rises low (xs ++ ys) high
  Rises-append low mid high [] ys h k = Rises-lower low mid high ys h k
  Rises-append low mid high (r ∷ xs) ys (h, t) k = (h, Rises-append r.seq mid high xs ys t k)

  Rises-filter :
      (p : Record B → Bool) (low high : ℕ) (recs : List (Record B))
      → Rises low recs high
      → Rises low (filter p recs) high
  Rises-filter p low high [] h = h
  Rises-filter p low high (r ∷ recs) (h, t) = elim (Bool-cases (p r)) [
    | inl e ↦ rw e (h, Rises-filter p r.seq high recs t)
    | inr e ↦ rw e (
        Rises-lower low r.seq high (filter p recs) (omega (arith, h))
          (Rises-filter p r.seq high recs t))
  ]

  last_of-bounds :
      (low high : ℕ) (recs : List (Record B))
      → Rises low recs high
      → (low ≤ last_of low recs) × (last_of low recs ≤ high)
  last_of-bounds low high [] h = (omega arith, h)
  last_of-bounds low high (r ∷ recs) (h, t) =
      let both = last_of-bounds r.seq high recs t in (omega (arith, h, both.0), both.1)

  sort-Rises :
      (low high : ℕ) (recs : List (Record B)) → Rises low recs high → sort_records recs ≡ recs
  sort-Rises low high [] h = refl
  sort-Rises low high (r ∷ []) h = refl
  sort-Rises low high (r ∷ s ∷ recs) (h, (k, t)) =
      rw (sort-Rises r.seq high (s ∷ recs) (k, t)) (ground arith)

module _ {B : Type 0} (parse_i64 : String → Option ℤ) (lossy : B → String) where
  abbrev shown : List (Record B) → List (String × String)
  shown recs = map (sse_event parse_i64 lossy) recs

  replay-events :
      (seen : ℤ) (recs : List (Record B))
      → (replay parse_i64 lossy seen recs).events ≡ shown (until_terminal recs)
  unfolding until_terminal
  replay-events seen [] = refl
  replay-events seen (r ∷ recs) = elim (Bool-cases (is_terminal r.event_type)) [
    | inl e ↦ rw e refl
    | inr e ↦ rw (e, replay-events (max_ℤ seen (as_i64 r.seq)) recs) refl
  ]

  replay-hit :
      (seen : ℤ) (recs more : List (Record B))
      → (replay parse_i64 lossy seen recs).hit_terminal ≡ true
      → until_terminal (recs ++ more) ≡ until_terminal recs
  unfolding until_terminal
  replay-hit seen [] more h = cc
  replay-hit seen (r ∷ recs) more h = elim (Bool-cases (is_terminal r.event_type)) [
    | inl e ↦ rw e refl
    | inr e ↦ rw (e, replay-hit (max_ℤ seen (as_i64 r.seq)) recs more (rw e at h)) refl
  ]

  max_next :
      (low seq high : ℕ)
      → low < seq
      → seq ≤ high
      → high < half64
      → max_ℤ (pos low) (as_i64 seq) ≡ pos seq
  max_next low seq high h k l = rw (as_i64_small seq (omega (arith, k, l))) (ground arith)

  replay-open :
      (low high : ℕ) (recs more : List (Record B))
      → Rises low recs high
      → high < half64
      → (replay parse_i64 lossy (pos low) recs).hit_terminal ≡ false
      → (until_terminal (recs ++ more) ≡ recs ++ until_terminal more)
        × (until_terminal recs ≡ recs)
        × ((replay parse_i64 lossy (pos low) recs).last_seq ≡ pos (last_of low recs))
  unfolding until_terminal
  replay-open low high [] more h small k = (refl, refl, refl)
  replay-open low high (r ∷ recs) more (h, t) small k =
      let seen = max_next low r.seq high h (Rises-bounds r.seq high recs t) small in
      elim (Bool-cases (is_terminal r.event_type)) [
        | inl e ↦ cc
        | inr e ↦
            let (all, own, last) = replay-open r.seq high recs more t small (rw (e, seen) at k) in
            (rw (e, all) refl, rw (e, own) refl, rw (e, seen, last) refl)
      ]

  filter-append :
      (p : Record B → Bool) (xs ys : List (Record B))
      → filter p (xs ++ ys) ≡ filter p xs ++ filter p ys
  filter-append p [] ys = refl
  filter-append p (r ∷ xs) ys = ground (arith, filter-append p xs ys)

  shown-append : (xs ys : List (Record B)) → shown (xs ++ ys) ≡ shown xs ++ shown ys
  shown-append [] ys = refl
  shown-append (r ∷ xs) ys = rw (shown-append xs ys) refl

  module _ (turn_id : ℤ) where
    abbrev own : List (Record B) → List (Record B)
    own recs = filter (of_turn parse_i64 lossy turn_id) recs

    -- the records of the turn have numbers up to `last`
    abbrev Seen : ℕ → List (Record B) → Type 0
    Seen last [] = Unit
    Seen last (r ∷ recs) =
        (of_turn parse_i64 lossy turn_id r ≡ true → r.seq ≤ last) × Seen last recs

    own-Seen :
        (low high : ℕ) (recs : List (Record B))
        → Rises low recs high
        → Seen (last_of low (own recs)) recs
    own-Seen low high [] h = tt
    own-Seen low high (r ∷ recs) (h, t) = elim (Bool-cases (of_turn parse_i64 lossy turn_id r)) [
      | inl e ↦
          let at_r : last_of low (own (r ∷ recs)) ≡ last_of r.seq (own recs) = rw e refl in
          subst (λ n. Seen n (r ∷ recs)) (sym at_r)
            (
              λ k. (last_of-bounds r.seq high (own recs) (Rises-filter _ r.seq high recs t)).0,
              own-Seen r.seq high recs t,
            )
      | inr e ↦
          let past_r : last_of low (own (r ∷ recs)) ≡ last_of low (own recs) = rw e refl in
          subst (λ n. Seen n (r ∷ recs)) (sym past_r)
            (λ k. cc, own-Seen low high recs (Rises-lower low r.seq high recs (omega (arith, h)) t))
    ]

    later-Seen :
        (low mid high : ℕ) (xs ys : List (Record B))
        → Rises low xs mid
        → Rises mid ys high
        → Seen (last_of low (own (xs ++ ys))) ys
    later-Seen low mid high [] ys h k = own-Seen low high ys (Rises-lower low mid high ys h k)
    later-Seen low mid high (r ∷ xs) ys (h, t) k =
        elim (Bool-cases (of_turn parse_i64 lossy turn_id r)) [
          | inl e ↦ rw e (later-Seen r.seq mid high xs ys t k)
          | inr e ↦
              rw e (
                later-Seen low mid high xs ys (Rises-lower low r.seq mid xs (omega (arith, h)) t) k)
        ]

    live-Seen :
        (last low high : ℕ) (recs more : List (Record B))
        → Rises low recs high
        → high < half64
        → Seen last recs
        → live_events parse_i64 lossy (pos last) turn_id (recs ++ more)
          ≡ live_events parse_i64 lossy (pos last) turn_id more
    live-Seen last low high [] more h small k = refl
    live-Seen last low high (r ∷ recs) more (h, t) small (k, l) =
        let small_seq = as_i64_small r.seq (omega (arith, Rises-bounds r.seq high recs t, small)) in
        rw (small_seq, live-Seen last r.seq high recs more t small l) (ground (arith, k))

    live_new :
        (last low high : ℕ) (recs : List (Record B))
        → last ≤ low
        → Rises low recs high
        → high < half64
        → live_events parse_i64 lossy (pos last) turn_id recs ≡ shown (until_terminal (own recs))
    unfolding until_terminal
    live_new last low high [] le h small = refl
    live_new last low high (r ∷ recs) le (h, t) small =
        let small_seq = as_i64_small r.seq (omega (arith, Rises-bounds r.seq high recs t, small)) in
        rw (small_seq, live_new last r.seq high recs (omega (arith, h, le)) t small)
          (ground (arith, h, le))

    -- A client that comes late, or again, is sent each event of its turn once, in order, up to the one that
    -- ends the turn, and then the mark of the end: the records are numbered upwards from 1 and below 2 ^ 63,
    -- `read` followed by `both` is what is read of the log, and the records that come are `both` again and
    -- then `rest`. If nothing can be read, it is sent the events among the records that come.
    pub stream_turn-once :
        (mid high last : ℕ) (read both rest : List (Record B))
        → Rises 0 read mid
        → Rises mid both high
        → Rises high rest last
        → last < half64
        → (stream_turn parse_i64 lossy turn_id (some (read ++ both)) (both ++ rest)
            ≡ shown (until_terminal (own (read ++ both ++ rest))) ++ done parse_i64 lossy ∷ [])
          × (stream_turn parse_i64 lossy turn_id none rest
              ≡ shown (until_terminal (own rest)) ++ done parse_i64 lossy ∷ [])
    unfolding stream_turn
    stream_turn-once mid high last read both rest h k l small =
        let history : List (Record B) = read ++ both in
        let rises = Rises-append 0 mid high read both h k in
        let own_rises = Rises-filter (of_turn parse_i64 lossy turn_id) 0 high history rises in
        let sorted : sort_records (own history) ≡ own history =
          sort-Rises 0 high (own history) own_rises in
        let split : own (read ++ both ++ rest) ≡ own history ++ own rest =
          filter-append _ history rest in
        let fits : high < half64 = omega (arith, Rises-bounds high last rest l, small) in
        let bounds = last_of-bounds 0 high (own history) own_rises in
        (
          elim (Bool-cases (replay parse_i64 lossy (pos 0) (own history)).hit_terminal) [
            | inl e ↦
                rw
                  (
                    sorted,
                    e,
                    replay-events (pos 0) (own history),
                    split,
                    replay-hit (pos 0) (own history) (own rest) e,
                  )
                  refl
            | inr e ↦
                let (all, mine, last_eq) =
                  replay-open 0 high (own history) (own rest) own_rises fits e in
                let seen = later-Seen 0 mid high read both h k in
                let number = last_of 0 (own history) in
                rw
                  (
                    sorted,
                    e,
                    replay-events (pos 0) (own history),
                    mine,
                    last_eq,
                    live-Seen number mid high both rest k fits seen,
                    live_new number high last rest bounds.1 l small,
                    split,
                    all,
                    shown-append (own history) (until_terminal (own rest)),
                  )
                  refl
          ],
          rw (live_new 0 high last rest (omega arith) l small) refl,
        )
