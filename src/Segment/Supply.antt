-- ===== src/Segment/Supply.antt =====
-- How many ids a buffer gives: no id of a loaded segment is left out.
use nebula_id.Prelude.{
  ℕ, zero, suc, ◌+◌, ◌-◌, ◌^◌, ◌<◌, ◌≡◌, refl, subst, ap, Bool, true, false, List, [], ◌∷◌, ◌==◌,
  Option, none, some, u64, arith, Bool-cases, inl, inr, count_from, ◌++◌,
}
use nebula_id.Types.{ok}
use nebula_id.Types.UniqueId.{UniqueId, from_u128}
use nebula_id.Segment.{
  Segment, SegmentData, Store, Answers, Outcome, waiting, returned, failed, advance, install,
  count_hit, count_miss, obtain, need_switch, generate_rounds, generate, remaining,
}
use nebula_id.Segment.Order.{try_consume-some, try_consume-none}

-- The segments that the loader hands out are not empty, and leave room in 64 bits.
abbrev pub Loaded : List SegmentData → Type 0
Loaded [] = Unit {0}
Loaded (d ∷ loads) = (d.start_id < d.max_id) × (d.max_id < 2 ^ 63) × Loaded loads

abbrev pub amount : List SegmentData → ℕ
amount [] = 0
amount (d ∷ loads) = (d.max_id - d.start_id) + amount loads

abbrev pub all_ok : List SegmentData → Answers
all_ok [] = []
all_ok (d ∷ loads) = ok d ∷ all_ok loads

-- The numbers of the segments, one segment after the other.
abbrev pub numbers : List SegmentData → List ℕ
numbers [] = []
numbers (d ∷ loads) = count_from d.start_id (d.max_id - d.start_id) ++ numbers loads

-- A buffer at rest, of which `left` ids are left.
abbrev pub Holds : ℕ → Store → Type 0
Holds left s =
    (s.buffer.current.current_id + left ≡ s.buffer.current.max_id)
    × (s.buffer.current.max_id < 2 ^ 63)
    × (s.buffer.next ≡ none)
    × (s.buffer.loading ≡ false)

-- The ids as numbers, once the calls have all returned.
abbrev pub Draws : List ℕ → Outcome (List ℕ) → Type 0
Draws ids (waiting s) = ⊥
Draws ids (returned found s answers) = found ≡ ids
Draws ids (failed e s answers) = ⊥

and_first : ℕ → Outcome (List ℕ) → Outcome (List ℕ)
and_first id (waiting s) = waiting s
and_first id (returned ids s answers) = returned (id ∷ ids) s answers
and_first id (failed e s answers) = failed e s answers

and_first-Draws :
    (id : ℕ) (ids : List ℕ) (o : Outcome (List ℕ)) → Draws ids o → Draws (id ∷ ids) (and_first id o)
unfolding and_first
and_first-Draws id ids (waiting s) h = h
and_first-Draws id ids (failed e s answers) h = h
and_first-Draws id ids (returned found s answers) h = ap (λ xs. id ∷ xs) h

hit : Store → Store
hit s =
    count_hit
      (advance s (record (s.buffer.current) { current_id = suc s.buffer.current.current_id }))

hit-Holds : (left : ℕ) (s : Store) → Holds (suc left) s → Holds left (hit s)
unfolding hit count_hit advance
hit-Holds left s h = (omega (arith, h.0), h.1, h.2, h.3)

install-Holds :
    (s : Store) (d : SegmentData)
    → s.buffer.loading ≡ false
    → d.start_id < d.max_id
    → d.max_id < 2 ^ 63
    → Holds (d.max_id - d.start_id) (install (count_miss s) d)
unfolding install count_miss
install-Holds s d idle room small = (omega arith, small, refl, idle)

obtain-load :
    (resume : Store → Answers → Outcome UniqueId) (s : Store) (next : Option Segment)
    (loading : Bool) (d : SegmentData) (answers : Answers)
    → next ≡ none
    → loading ≡ false
    → obtain resume s next loading (ok d ∷ answers) ≡ resume (install (count_miss s) d) answers
unfolding obtain
obtain-load resume s none false d answers e f = refl
obtain-load resume s none true d answers e f = absurd (grind arith)
obtain-load resume s (some n) loading d answers e f = absurd (grind arith)

module _ (below : ℕ → ℕ → Bool) (low : (total : ℕ) → 0 < total → below 0 total ≡ true) where
  -- `n` calls of `generate`, one after the other.
  pub draw : ℕ → Store → Answers → Outcome (List ℕ)
  draw zero s answers = returned [] s answers
  draw (suc n) s answers = elim (generate below s answers) [
    | waiting s' ↦ waiting s'
    | returned id s' answers' ↦ and_first id.value (draw n s' answers')
    | failed e s' answers' ↦ failed e s' answers'
  ]

  rounds-hit :
      (rounds left : ℕ) (s : Store) (answers : Answers)
      → Holds (suc left) s
      → generate_rounds below (suc rounds) s answers
        ≡ returned (from_u128 s.buffer.current.current_id) (hit s) answers
  unfolding generate_rounds hit
  rounds-hit rounds left s answers h =
      let next_id : s.buffer.current.current_id + 1 ≡ suc s.buffer.current.current_id =
        omega arith in
      rw (try_consume-some s.buffer.current 1 (omega (arith, h.0)) h.1, next_id, generate_rounds)
        refl

  used_up_switches : (s : Store) → Holds 0 s → need_switch below s.buffer ≡ true
  unfolding need_switch remaining
  used_up_switches s h =
      let empty : s.buffer.current.max_id - s.buffer.current.current_id ≡ 0 = omega (arith, h.0) in
      elim (Bool-cases (u64 (s.buffer.current.max_id + 2 ^ 64 - s.buffer.current.start_id) == 0)) [
        | inl none_in_all ↦ rw none_in_all refl
        | inr some_in_all ↦
            rw (some_in_all, empty)
              (low (u64 (s.buffer.current.max_id + 2 ^ 64 - s.buffer.current.start_id))
                (ground arith))
      ]

  generate-miss :
      (s : Store) (d : SegmentData) (answers : Answers)
      → Holds 0 s
      → generate below s (ok d ∷ answers)
        ≡ generate_rounds below 2 (install (count_miss s) d) answers
  unfolding generate generate_rounds
  generate-miss s d answers h =
      rw
        (
          try_consume-none s.buffer.current 1 (omega (arith, h.0)) (omega (arith, h.0, h.1)),
          used_up_switches s h,
          generate_rounds,
        )
        (obtain-load (generate_rounds below 2) s s.buffer.next s.buffer.loading d answers h.2 h.3)

  draw-hit :
      (left n : ℕ) (s : Store) (answers : Answers)
      → Holds (suc left) s
      → draw (suc n) s answers ≡ and_first s.buffer.current.current_id (draw n (hit s) answers)
  unfolding draw generate
  draw-hit left n s answers h = rw (rounds-hit 2 left s answers h, draw) refl

  draw_miss :
      (left n : ℕ) (s : Store) (d : SegmentData) (answers : Answers)
      → Holds 0 s
      → Holds (suc left) (install (count_miss s) d)
      → draw (suc n) s (ok d ∷ answers)
        ≡ and_first d.start_id (draw n (hit (install (count_miss s) d)) answers)
  unfolding draw install
  draw_miss left n s d answers h h' =
      rw
        (generate-miss s d answers h, rounds-hit 1 left (install (count_miss s) d) answers h', draw)
        refl

  draw-Draws :
      (n left : ℕ) (s : Store) (loads : List SegmentData)
      → Holds left s
      → Loaded loads
      → n ≡ left + amount loads
      → Draws
          (count_from s.buffer.current.current_id left ++ numbers loads)
          (draw n s (all_ok loads))
  unfolding draw install hit count_hit advance count_miss
  draw-Draws zero zero s [] h l e = refl
  draw-Draws (suc n) zero s [] h l e = absurd (omega arith)
  draw-Draws zero (suc left) s loads h l e = absurd (omega arith)
  draw-Draws zero zero s (d ∷ loads) h l e = absurd (omega (arith, l.0))
  draw-Draws (suc n) zero s (d ∷ loads) h l e =
      let size : d.max_id - d.start_id ≡ suc (d.max_id - suc d.start_id) = omega (arith, l.0) in
      let fresh : Holds (suc (d.max_id - suc d.start_id)) (install (count_miss s) d) =
        subst (λ k. Holds k (install (count_miss s) d)) size (install-Holds s d h.3 l.0 l.1) in
      rw (draw_miss (d.max_id - suc d.start_id) n s d (all_ok loads) h fresh, size)
        (and_first-Draws d.start_id _ _ (
          draw-Draws n (d.max_id - suc d.start_id) (hit (install (count_miss s) d)) loads
            (hit-Holds (d.max_id - suc d.start_id) (install (count_miss s) d) fresh) l.2
            (omega (arith, l.0))))
  draw-Draws (suc n) (suc left) s loads h l e = rw (draw-hit left n s (all_ok loads) h) (
      and_first-Draws s.buffer.current.current_id _ _
        (draw-Draws n left (hit s) loads (hit-Holds left s h) l (omega arith)))

  -- From a buffer at rest, whatever is left in it, as many calls of `generate` as the segment at hand
  -- and the loaded segments hold ids give every one of their ids, in order, where the loader answers
  -- with segments that are not empty and a used-up segment is below the switch threshold.
  pub generate_complete :
      (s : Store) (left : ℕ) (loads : List SegmentData)
      → Holds left s
      → Loaded loads
      → Draws
          (count_from s.buffer.current.current_id left ++ numbers loads)
          (draw (left + amount loads) s (all_ok loads))
  generate_complete s left loads h l = draw-Draws (left + amount loads) left s loads h l refl
