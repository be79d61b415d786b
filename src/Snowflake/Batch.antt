-- ===== src/Snowflake/Batch.antt =====
-- The ids of one `batch_generate` strictly increase, and lie below all later ones.
use nebula_id.Prelude.{
  ℕ, zero, suc, ◌≤◌, ◌<◌, subst, inl, inr, List, [], ◌∷◌, map, All, arith, Increasing,
  Increasing-mono,
}
use nebula_id.Types.UniqueId.{UniqueId}
use nebula_id.Snowflake.{
  Snowflake, Outcome, Outcome-cases, waiting, returned, failed, generate_id, prepend, batch_loop,
  batch_result, batch_generate, max_retries,
}
use nebula_id.Snowflake.Order.{Ready, InRange, floor, Advances, generate_id-Advances}

-- What a finished batch says, started at the floor `low`: its ids strictly increase from `low` on,
-- the new floor is above all of them, and the instance stays ready; a failure does not lower the
-- floor.
abbrev pub BatchAdvances : ℕ → Outcome (List UniqueId) → Type 0
BatchAdvances low (waiting s') = Unit {0}
BatchAdvances low (returned ids s' clock) =
    Ready s'
    × InRange s' clock
    × Increasing low (map (λ i. i.value) ids)
    × All (λ i. i.value < floor s') ids
    × (low ≤ floor s')
BatchAdvances low (failed e s' clock) = Ready s' × InRange s' clock × (low ≤ floor s')

BatchAdvances-mono :
    (a b : ℕ) (o : Outcome (List UniqueId)) → a ≤ b → BatchAdvances b o → BatchAdvances a o
BatchAdvances-mono a b (waiting s) h i = tt
BatchAdvances-mono a b (returned ids s clock) h (ready, range, i, below, up) =
    (ready, range, Increasing-mono (map (λ i. i.value) ids) h i, below, omega arith)
BatchAdvances-mono a b (failed e s clock) h (ready, range, up) = (ready, range, omega arith)

prepend-BatchAdvances :
    (low high : ℕ) (id : UniqueId) (o : Outcome (List UniqueId))
    → low ≤ id.value
    → id.value < high
    → BatchAdvances high o
    → BatchAdvances low (prepend id o)
prepend-BatchAdvances low high id (waiting s) h k i = tt
prepend-BatchAdvances low high id (returned ids s clock) h k (ready, range, i, below, up) = (
  ready,
  range,
  (h, Increasing-mono (map (λ i. i.value) ids) k i),
  (omega arith, below),
  omega arith,
)
prepend-BatchAdvances low high id (failed e s clock) h k (ready, range, up) =
    (ready, range, omega arith)

batch_loop-BatchAdvances :
    (n r : ℕ) (s : Snowflake) (clock : List ℕ)
    → Ready s
    → InRange s clock
    → BatchAdvances (floor s) (batch_loop n r s clock)
unfolding batch_loop
batch_loop-BatchAdvances zero r s clock ready i = (ready, i, tt, tt, omega arith)
batch_loop-BatchAdvances (suc n) zero s clock ready i = (ready, i, tt, tt, omega arith)
batch_loop-BatchAdvances (suc n) (suc r) s clock ready i =
    let call = generate_id-Advances s clock ready i in
    elim (Outcome-cases (generate_id s clock)) [
      | inl (inl (s', e)) ↦ rw (e, batch_loop) tt
      | inl (inr (id, s', clock', e)) ↦
          let (ready', i', low, high) = subst (Advances (floor s)) e call in
          rw (e, batch_loop)
            (prepend-BatchAdvances (floor s) (floor s') id (batch_loop n (suc r) s' clock') low high
              (batch_loop-BatchAdvances n (suc r) s' clock' ready' i'))
      | inr (error, s', clock', e) ↦
          let (ready', i', low) = subst (Advances (floor s)) e call in
          rw (e, batch_loop)
            (BatchAdvances-mono (floor s) (floor s') (batch_loop (suc n) r s' clock') low
              (batch_loop-BatchAdvances (suc n) r s' clock' ready' i'))
    ]

batch_result-BatchAdvances :
    (low : ℕ) (o : Outcome (List UniqueId))
    → BatchAdvances low o
    → BatchAdvances low (batch_result o)
unfolding batch_result
batch_result-BatchAdvances low (waiting s) i = tt
batch_result-BatchAdvances low (returned [] s clock) (ready, range, none_yet, below, up) =
    (ready, range, up)
batch_result-BatchAdvances low (returned (id ∷ ids) s clock) i = i
batch_result-BatchAdvances low (failed e s clock) i = i

-- One finished batch of an instance that is ready, on readings in range, leaves it ready; the ids
-- that it returns strictly increase, the first at or above the floor, and the new floor is above all
-- of them, also when the clock steps back or a millisecond is used up between two of them. A failed
-- batch does not lower the floor.
pub batch_generate-Advances :
    (s : Snowflake) (size : ℕ) (clock : List ℕ)
    → Ready s
    → InRange s clock
    → BatchAdvances (floor s) (batch_generate s size clock)
unfolding batch_generate
batch_generate-Advances s zero clock ready i = (ready, i, tt, tt, omega arith)
batch_generate-Advances s (suc size) clock ready i =
    batch_result-BatchAdvances (floor s) (batch_loop (suc size) max_retries s clock)
      (batch_loop-BatchAdvances (suc size) max_retries s clock ready i)
