-- ===== src/Segment.antt =====
-- src/core/algorithm/segment.rs: `Segment`, `AtomicSegment`, `DoubleBuffer` and the two generating
-- methods of `SegmentAlgorithm`, for the buffer of one key and one caller at a time.
--
-- What the segment loader answers, in turn, is a list; a call that has used it up is still waiting.
-- `below remaining total` is the comparison of the floating-point quotient `remaining / total` with
-- `switch_threshold`. Sums wrap as in a release build.
pub mod Order
pub mod Supply
pub mod Runs
pub mod Source
pub mod Batch
pub mod Qps
pub mod Tests
use nebula_id.Prelude.{
  ℕ, zero, suc, ◌+◌, ◌-◌, ◌*◌, ◌%◌, ◌^◌, ◌≡◌, refl, ◌⊎◌, inl, inr, Bool, true, false, not, List, [],
  ◌∷◌, map, Option, none, some, u64, ltb, ◌==◌, if◌then◌else◌, count_from,
}
use nebula_id.Types.{CoreError, Result, ok, err}
use nebula_id.Types.UniqueId.{UniqueId, from_u128}

pub record Segment : Type 0 where
  pub start_id : ℕ
  pub max_id : ℕ
  pub current_id : ℕ
  pub step : ℕ
  pub version : ℕ

unfoldable pub new_segment : ℕ → ℕ → ℕ → Segment
new_segment start_id max_id step = record {
  start_id = start_id;
  max_id = max_id;
  current_id = start_id;
  step = step;
  version = 0;
}

unfoldable pub remaining : Segment → ℕ
remaining s = s.max_id - s.current_id

unfoldable pub consumed : Segment → ℕ
consumed s = s.current_id - s.start_id

-- The range that is taken, its end excluded, and the segment after it.
unfoldable pub try_consume : Segment → ℕ → Option ((ℕ × ℕ) × Segment)
try_consume s count =
    if ltb s.max_id (u64 (s.current_id + count))
    then none
    else some (
      (s.current_id, u64 (s.current_id + count)),
      record s { current_id = u64 (s.current_id + count) },
    )

pub record DoubleBuffer : Type 0 where
  pub current : Segment
  pub next : Option Segment
  pub loading : Bool

pub new_buffer : DoubleBuffer
unfolding new_segment
new_buffer = record { current = new_segment 0 0 0; next = none; loading = false }

set_next : DoubleBuffer → Segment → DoubleBuffer
set_next b s = record b { next = some s }

swap_with : DoubleBuffer → Option Segment → DoubleBuffer
swap_with b none = b
swap_with b (some s) = record b { current = s; next = none }

-- The next segment, if there is one, becomes the current one.
pub swap : DoubleBuffer → DoubleBuffer
unfolding swap_with
swap b = swap_with b b.next

pub record SegmentData : Type 0 where
  pub start_id : ℕ
  pub max_id : ℕ
  pub step : ℕ
  pub version : ℕ

-- `AlgorithmMetricsInner`
pub record Metrics : Type 0 where
  pub total_generated : ℕ
  pub total_failed : ℕ
  pub cache_hits : ℕ
  pub cache_misses : ℕ

-- The buffer of one key, with the metrics of the algorithm.
pub record Store : Type 0 where
  pub buffer : DoubleBuffer
  pub metrics : Metrics

abbrev pub Answers : Type 0
Answers = List (Result SegmentData)

-- How a call ends; what is left of the answers goes to the next call.
pub data Outcome (A : Type 0) : Type 0 where
  waiting : Store → Outcome A
  returned : A → Store → Answers → Outcome A
  failed : CoreError → Store → Answers → Outcome A

pub with_buffer : Store → DoubleBuffer → Store
with_buffer s b = record s { buffer = b }

-- `total_generated.fetch_add(1)` and `cache_hits.fetch_add(1)`.
count_hit : Store → Store
count_hit s = record s {
  metrics = record (s.metrics) {
    total_generated = u64 (s.metrics.total_generated + 1);
    cache_hits = u64 (s.metrics.cache_hits + 1);
  };
}

pub count_miss : Store → Store
count_miss s = record s {
  metrics = record (s.metrics) { cache_misses = u64 (s.metrics.cache_misses + 1) };
}

count_failed : Store → Store
count_failed s = record s {
  metrics = record (s.metrics) { total_failed = u64 (s.metrics.total_failed + 1) };
}

count_batch : Store → ℕ → Store
count_batch s n = record s {
  metrics = record (s.metrics) { total_generated = u64 (s.metrics.total_generated + n) };
}

-- The current segment advanced by a successful `try_consume`.
advance : Store → Segment → Store
advance s seg = record s { buffer = record (s.buffer) { current = seg } }

-- `set_next` and `swap` with the loaded segment.
pub install : Store → SegmentData → Store
unfolding set_next swap new_segment
install s d = record s {
  buffer = swap (set_next s.buffer (new_segment d.start_id d.max_id d.step));
}

pub exhausted : {A : Type 0} → Store → Answers → Outcome A
unfolding count_failed
exhausted s answers =
    failed (CoreError.segment_exhausted s.buffer.current.max_id) (count_failed s) answers

-- A round that needs another segment: the next one, if there is one, or a loaded one. While another
-- caller loads, this one spins. `resume` is the rest of the rounds.
obtain :
    (Store → Answers → Outcome UniqueId)
    → Store
    → Option Segment
    → Bool
    → Answers
    → Outcome UniqueId
unfolding with_buffer swap count_miss install
obtain resume s (some n) loading answers = resume (with_buffer s (swap s.buffer)) answers
obtain resume s none true answers = waiting s
obtain resume s none false [] =
    waiting (with_buffer (count_miss s) (record (s.buffer) { loading = true }))
obtain resume s none false (err e ∷ answers) = failed e (count_miss s) answers
obtain resume s none false (ok d ∷ answers) = resume (install (count_miss s) d) answers

module _ (below : ℕ → ℕ → Bool) where
  -- `max_id - start_id` wraps below 0.
  pub need_switch : DoubleBuffer → Bool
  unfolding remaining
  need_switch b =
      let total = u64 (b.current.max_id + 2 ^ 64 - b.current.start_id) in
      if total == 0 then true else below (remaining b.current) total

  -- The rounds of `generate` that are left.
  generate_rounds : ℕ → Store → Answers → Outcome UniqueId
  generate_rounds zero s answers = exhausted s answers
  generate_rounds (suc rounds) s answers = elim (try_consume s.buffer.current 1) [
    | some ((start, end), seg) ↦ returned (from_u128 start) (count_hit (advance s seg)) answers
    | none ↦ elim (need_switch s.buffer) [
      | false ↦ generate_rounds rounds s answers
      | true ↦ obtain (generate_rounds rounds) s s.buffer.next s.buffer.loading answers
    ]
  ]

  pub generate : Store → Answers → Outcome UniqueId
  generate s answers = generate_rounds 3 s answers

  batch_ids : Store → ℕ → ℕ → Segment → Answers → Outcome (List UniqueId)
  batch_ids s size start seg answers =
      returned (map from_u128 (count_from start size)) (count_batch (advance s seg) size) answers

  -- An iteration of the loop of `batch_generate`; `more` is the rest of the loop, on another segment.
  batch_try : ℕ → Store → Answers → Outcome (List UniqueId) → Outcome (List UniqueId)
  batch_try size s answers more = elim (try_consume s.buffer.current size) [
    | some ((start, end), seg) ↦ batch_ids s size start seg answers
    | none ↦ if need_switch s.buffer then more else exhausted s answers
  ]

  -- The iterations on a buffer without a next segment. `swap` leaves none, so every iteration but the
  -- first is of this kind; `ids` is empty in all of them.
  batch_rounds : ℕ → Answers → Store → Outcome (List UniqueId)
  batch_rounds size [] s = batch_try size s [] (waiting (count_miss s))
  batch_rounds size (err e ∷ answers) s =
      batch_try size s (err e ∷ answers) (failed e (count_miss s) answers)
  batch_rounds size (ok d ∷ answers) s =
      let rest = batch_rounds size answers (install (count_miss s) d) in
      batch_try size s (ok d ∷ answers) rest

  -- The first iteration may find a next segment.
  batch_first : ℕ → Store → Option Segment → Answers → Outcome (List UniqueId)
  batch_first size s none answers = batch_rounds size answers s
  batch_first size s (some n) answers =
      batch_try size s answers (batch_rounds size answers (with_buffer s (swap s.buffer)))

  -- With `size` 0 the loop is not entered, and an empty batch is an error.
  pub batch_generate : Store → ℕ → Answers → Outcome (List UniqueId)
  batch_generate s zero answers = exhausted s answers
  batch_generate s (suc size) answers = batch_first (suc size) s s.buffer.next answers
