-- ===== src/Segment/Batch.antt =====
-- The ids of a batch are consecutive, and a batch does not go past one segment.
use nebula_id.Prelude.{
  ℕ, zero, suc, ◌+◌, ◌^◌, ◌≤◌, ◌<◌, ◌≡◌, refl, Bool, List, [], map, ◌∷◌, Option, none, some, arith,
  Bool-cases, inl, inr, count_from,
}
use native.Mathlib.Decide.{dec_lt}
use nebula_id.Types.{ok, err}
use nebula_id.Types.UniqueId.{UniqueId, from_u128}
use nebula_id.Segment.{
  Segment, Store, Answers, Outcome, waiting, returned, failed, swap, with_buffer, advance, install,
  count_miss, count_failed, exhausted, need_switch, batch_generate, batch_first, batch_rounds,
  batch_ids, batch_try, count_batch, set_next, swap_with,
}
use nebula_id.Segment.Order.{
  try_consume-some, try_consume-none, Ordered, floor, swap-Ordered, install-Ordered,
}

-- The ids are consecutive numbers at or above the bound and below the new floor.
abbrev pub BatchAdvances : ℕ → ℕ → Outcome (List UniqueId) → Type 0
BatchAdvances low size (waiting s) = Unit {0}
BatchAdvances low size (returned ids s answers) =
    Ordered s answers
    × (start : ℕ) × (ids ≡ map from_u128 (count_from start size))
    × (low ≤ start)
    × (start + size ≤ floor s)
BatchAdvances low size (failed e s answers) = Ordered s answers × (low ≤ floor s)

BatchAdvances-mono :
    (a b size : ℕ) (o : Outcome (List UniqueId))
    → a ≤ b
    → BatchAdvances b size o
    → BatchAdvances a size o
BatchAdvances-mono a b size (waiting s) h v = tt
BatchAdvances-mono a b size (returned ids s answers) h (v, start, e, l, k) =
    (v, start, e, omega arith, k)
BatchAdvances-mono a b size (failed e s answers) h v = (v.0, omega (arith, v.1))

swap_leaves_none :
    (s : Store) (n : Segment)
    → s.buffer.next ≡ some n
    → (with_buffer s (swap s.buffer)).buffer.next ≡ none
unfolding with_buffer swap swap_with
swap_leaves_none s n e = ground arith

module _ (below : ℕ → ℕ → Bool) (size : ℕ) (small : size < 2 ^ 63) where
  batch_ids-BatchAdvances :
      (s : Store) (answers : Answers)
      → Ordered s answers
      → s.buffer.current.current_id + size ≤ s.buffer.current.max_id
      → BatchAdvances (floor s) size (
          batch_ids below s size s.buffer.current.current_id
            (record (s.buffer.current) { current_id = s.buffer.current.current_id + size })
            answers)
  unfolding batch_ids advance count_batch
  batch_ids-BatchAdvances s answers v room = (
    record { sound = (omega arith, v.sound.1); queued = v.queued; supplied = v.supplied },
    s.buffer.current.current_id,
    refl,
    omega arith,
    omega arith,
  )

  exhausted-BatchAdvances :
      (s : Store) (answers : Answers)
      → Ordered s answers
      → BatchAdvances (floor s) size (exhausted s answers)
  unfolding exhausted count_failed
  exhausted-BatchAdvances s answers v =
      (record { sound = v.sound; queued = v.queued; supplied = v.supplied }, omega arith)

  try-BatchAdvances :
      (s : Store) (answers : Answers) (more : Outcome (List UniqueId))
      → Ordered s answers
      → BatchAdvances (floor s) size more
      → BatchAdvances (floor s) size (batch_try below size s answers more)
  unfolding batch_try
  try-BatchAdvances s answers more v m =
      elim (dec_lt s.buffer.current.max_id (s.buffer.current.current_id + size)) [
        | no room ↦
            rw
              (
                try_consume-some s.buffer.current size (omega arith) (omega (arith, v.sound)),
                batch_try,
              )
              (batch_ids-BatchAdvances s answers v (omega arith))
        | yes short ↦
            rw (try_consume-none s.buffer.current size short (omega (arith, v.sound)), batch_try)
              (elim (Bool-cases (need_switch below s.buffer)) [
                | inl needed ↦ rw needed m
                | inr kept ↦ rw kept (exhausted-BatchAdvances s answers v)
              ])
      ]

  rounds-BatchAdvances :
      (s : Store) (answers : Answers)
      → s.buffer.next ≡ none
      → Ordered s answers
      → BatchAdvances (floor s) size (batch_rounds below size answers s)
  unfolding batch_rounds count_miss install set_next swap swap_with
  rounds-BatchAdvances s [] single v = try-BatchAdvances s [] (waiting (count_miss s)) v tt
  rounds-BatchAdvances s (err e ∷ answers) single v =
      try-BatchAdvances s (err e ∷ answers) (failed e (count_miss s) answers) v
        (record { sound = v.sound; queued = v.queued; supplied = v.supplied }, omega arith)
  rounds-BatchAdvances s (ok d ∷ answers) single v =
      let loaded = install-Ordered s d answers single v in
      let after = install (count_miss s) d in
      try-BatchAdvances s (ok d ∷ answers) (batch_rounds below size answers after) v (
        BatchAdvances-mono (floor s) (floor after) size (batch_rounds below size answers after)
          (omega (arith, v.sound, loaded.1)) (rounds-BatchAdvances after answers refl loaded.0))

  first-BatchAdvances :
      (s : Store) (next : Option Segment) (answers : Answers)
      → s.buffer.next ≡ next
      → Ordered s answers
      → BatchAdvances (floor s) size (batch_first below size s next answers)
  unfolding batch_first
  first-BatchAdvances s none answers single v = rounds-BatchAdvances s answers single v
  first-BatchAdvances s (some n) answers queued v =
      let swapped = swap-Ordered s n answers queued v in
      let after = with_buffer s (swap s.buffer) in
      try-BatchAdvances s answers (batch_rounds below size answers after) v (
        BatchAdvances-mono (floor s) (floor after) size (batch_rounds below size answers after)
          (omega (arith, v.sound, swapped.1))
          (rounds-BatchAdvances after answers (swap_leaves_none s n queued) swapped.0))

module _ (below : ℕ → ℕ → Bool) where
  -- Where the loader hands out segments in order, the ids of a batch are `size` consecutive numbers,
  -- from one at or above the floor of the old state, and all below the floor of the new one, whatever
  -- the switch threshold is; a failed batch does not lower the floor, and both keep the buffer in order.
  pub batch_generate-BatchAdvances :
      (s : Store) (size : ℕ) (answers : Answers)
      → size < 2 ^ 63
      → Ordered s answers
      → BatchAdvances (floor s) size (batch_generate below s size answers)
  unfolding batch_generate
  batch_generate-BatchAdvances s zero answers small v =
      exhausted-BatchAdvances below 0 small s answers v
  batch_generate-BatchAdvances s (suc size) answers small v =
      first-BatchAdvances below (suc size) small s s.buffer.next answers refl v
