-- ===== src/Segment/Order.antt =====
-- The ids of one buffer strictly increase, as long as the loader hands out segments in order.
use native.Mathlib.Decide.{dec_lt}
use nebula_id.Prelude.{
  ℕ, zero, suc, ◌+◌, ◌^◌, ◌≤◌, ◌<◌, ◌≡◌, refl, inl, inr, Bool, true, false, [], ◌∷◌, Option, none,
  some, arith, Bool-cases,
}
use nebula_id.Types.{ok, err}
use nebula_id.Types.UniqueId.{UniqueId}
use nebula_id.Segment.{
  Segment, SegmentData, Store, Answers, Outcome, waiting, returned, failed, try_consume, swap,
  with_buffer, advance, install, count_hit, count_miss, exhausted, obtain, need_switch,
  generate_rounds, generate,
}

-- A segment that is not over-consumed, with an end that leaves room in 64 bits.
abbrev pub Sound : Segment → Type 0
Sound n = (n.current_id ≤ n.max_id) × (n.max_id < 2 ^ 63)

abbrev pub NextFrom : ℕ → Option Segment → Type 0
NextFrom low none = Unit {0}
NextFrom low (some n) = (low ≤ n.current_id) × Sound n

-- Where the segments that the buffer holds end.
abbrev pub end_of : ℕ → Option Segment → ℕ
end_of last none = last
end_of last (some n) = n.max_id

-- Each loaded segment starts at or after the end of the one before it.
abbrev pub Chained : ℕ → Answers → Type 0
Chained low [] = Unit {0}
Chained low (err e ∷ answers) = Chained low answers
Chained low (ok d ∷ answers) =
    (low ≤ d.start_id) × (d.start_id ≤ d.max_id) × (d.max_id < 2 ^ 63) × Chained d.max_id answers

pub record Ordered (s : Store) (answers : Answers) : Type 0 where
  pub sound : Sound s.buffer.current
  pub queued : NextFrom s.buffer.current.max_id s.buffer.next
  pub supplied : Chained (end_of s.buffer.current.max_id s.buffer.next) answers

-- Every id that is still to be issued is at least this number.
abbrev pub floor : Store → ℕ
floor s = s.buffer.current.current_id

abbrev pub Advances : ℕ → Outcome UniqueId → Type 0
Advances low (waiting s') = Unit {0}
Advances low (returned id s' answers) =
    Ordered s' answers × (low ≤ id.value) × (id.value < floor s')
Advances low (failed e s' answers) = Ordered s' answers × (low ≤ floor s')

-- A segment gives a range exactly when it holds that many ids.
pub try_consume-some :
    (n : Segment) (count : ℕ)
    → n.current_id + count ≤ n.max_id
    → n.max_id < 2 ^ 63
    → try_consume n count
      ≡ some ((n.current_id, n.current_id + count), record n { current_id = n.current_id + count })
unfolding try_consume
try_consume-some n count h small = ground arith

pub try_consume-none :
    (n : Segment) (count : ℕ)
    → n.max_id < n.current_id + count
    → n.current_id + count < 2 ^ 64
    → try_consume n count ≡ none
unfolding try_consume
try_consume-none n count h small = ground arith

pub swap-Ordered :
    (s : Store) (n : Segment) (answers : Answers)
    → s.buffer.next ≡ some n
    → Ordered s answers
    → Ordered (with_buffer s (swap s.buffer)) answers
      × (s.buffer.current.max_id ≤ floor (with_buffer s (swap s.buffer)))
unfolding with_buffer swap
swap-Ordered s n answers e v = ground arith

pub install-Ordered :
    (s : Store) (d : SegmentData) (answers : Answers)
    → s.buffer.next ≡ none
    → Ordered s (ok d ∷ answers)
    → Ordered (install (count_miss s) d) answers
      × (s.buffer.current.max_id ≤ floor (install (count_miss s) d))
unfolding install count_miss
install-Ordered s d answers e v = ground arith

Advances-mono : (a b : ℕ) (o : Outcome UniqueId) → a ≤ b → Advances b o → Advances a o
Advances-mono a b (waiting s) h v = tt
Advances-mono a b (returned id s answers) h v = (v.0, omega (arith, v.1), v.2)
Advances-mono a b (failed e s answers) h v = (v.0, omega (arith, v.1))

exhausted-Advances :
    (s : Store) (answers : Answers) → Ordered s answers → Advances (floor s) (exhausted s answers)
unfolding exhausted
exhausted-Advances s answers v =
    (record { sound = v.sound; queued = v.queued; supplied = v.supplied }, omega arith)

obtain-Advances :
    (resume : Store → Answers → Outcome UniqueId) (s : Store) (next : Option Segment)
    (loading : Bool) (answers : Answers)
    → ((s' : Store) (answers' : Answers)
        → Ordered s' answers'
        → Advances (floor s') (resume s' answers'))
    → s.buffer.next ≡ next
    → Ordered s answers
    → Advances (floor s) (obtain resume s next loading answers)
unfolding obtain
obtain-Advances resume s (some n) loading answers go e v =
    let swapped = swap-Ordered s n answers e v in
    Advances-mono (floor s) _ (resume (with_buffer s (swap s.buffer)) answers)
      (omega (arith, v.sound, swapped.1)) (go _ answers swapped.0)
obtain-Advances resume s none true answers go e v = tt
obtain-Advances resume s none false [] go e v = tt
obtain-Advances resume s none false (err error ∷ answers) go e v =
    (record { sound = v.sound; queued = v.queued; supplied = v.supplied }, omega arith)
obtain-Advances resume s none false (ok d ∷ answers) go e v =
    let loaded = install-Ordered s d answers e v in
    Advances-mono (floor s) _ (resume (install (count_miss s) d) answers)
      (omega (arith, v.sound, loaded.1)) (go _ answers loaded.0)

module _ (below : ℕ → ℕ → Bool) where
  rounds-Advances :
      (rounds : ℕ) (s : Store) (answers : Answers)
      → Ordered s answers
      → Advances (floor s) (generate_rounds below rounds s answers)
  unfolding generate_rounds count_hit advance
  rounds-Advances zero s answers v = exhausted-Advances s answers v
  rounds-Advances (suc rounds) s answers v =
      elim (dec_lt s.buffer.current.current_id s.buffer.current.max_id) [
        | yes room ↦
            rw
              (
                try_consume-some s.buffer.current 1 (omega arith) (omega (arith, v.sound)),
                generate_rounds,
              )
              (
                record {
                  sound = (omega arith, v.sound.1);
                  queued = v.queued;
                  supplied = v.supplied;
                },
                omega arith,
                omega arith,
              )
        | no empty ↦
            rw
              (
                try_consume-none s.buffer.current 1 (omega arith) (omega (arith, v.sound)),
                generate_rounds,
              )
              (elim (Bool-cases (need_switch below s.buffer)) [
                | inl needed ↦
                    rw (needed, generate_rounds)
                      (obtain-Advances (generate_rounds below rounds) s s.buffer.next
                        s.buffer.loading answers (rounds-Advances rounds) refl v)
                | inr kept ↦ rw (kept, generate_rounds) (rounds-Advances rounds s answers v)
              ])
      ]

  -- Where the loader hands out segments in order, one finished call of `generate` keeps the buffer in
  -- order, returns an id at or above the floor of the old state and below the floor of the new one,
  -- and does not lower the floor when it fails, whatever the switch threshold is.
  pub generate-Advances :
      (s : Store) (answers : Answers)
      → Ordered s answers
      → Advances (floor s) (generate below s answers)
  unfolding generate
  generate-Advances s answers v = rounds-Advances 3 s answers v
