-- ===== src/Snowflake.antt =====
-- src/core/algorithm/snowflake.rs (`SnowflakeAlgorithm`) and the snowflake part of
-- src/core/config/algorithm.rs: one caller at a time; Snowflake/Race has several.
--
-- Each read of the system clock takes the next entry of a list of readings, in milliseconds since
-- the epoch of the program; a call that has used up the list is still waiting. Log lines and the
-- sleeps between two readings are left out. `+` and `<<` wrap as in a release build.
pub mod Layout
pub mod Order
pub mod Batch
pub mod Progress
pub mod Throughput
pub mod Exhaustion
pub mod Race
mod Tests
use Prim.Native.String.{String}
use nebula_id.Prelude.{
  ℕ, zero, suc, ◌+◌, ◌-◌, ◌*◌, ◌/◌, ◌%◌, ◌^◌, ◌≤◌, ◌<◌, ◌≡◌, refl, ◌⊎◌, inl, inr, Bool, true, false,
  ◌&&◌, List, [], ◌∷◌, Option, none, some, bit_and, bit_or, u8, u64, shl64, ltb, ◌==◌,
  if◌then◌else◌,
}
use nebula_id.Types.{CoreError, HealthStatus}
use nebula_id.Types.UniqueId.{UniqueId, from_u128}

pub record SnowflakeConfig : Type 0 where
  pub datacenter_id_bits : ℕ  -- u8
  pub worker_id_bits : ℕ  -- u8
  pub sequence_bits : ℕ  -- u8
  pub clock_drift_threshold_ms : ℕ  -- u64

unfoldable pub sequence_mask : SnowflakeConfig → ℕ
sequence_mask c = shl64 1 c.sequence_bits - 1

abbrev pub default_config : SnowflakeConfig
default_config = record {
  datacenter_id_bits = 3;
  worker_id_bits = 8;
  sequence_bits = 10;
  clock_drift_threshold_ms = 1000;
}

pub record SnowflakeMetrics : Type 0 where
  pub total_generated : ℕ
  pub total_failed : ℕ
  pub clock_backwards : ℕ
  pub sequence_overflows : ℕ

pub record Snowflake : Type 0 where
  pub config : SnowflakeConfig
  pub datacenter_id : ℕ  -- u8
  pub worker_id : ℕ  -- u8
  pub sequence : ℕ  -- u64
  pub last_timestamp : ℕ  -- u64
  pub rotation_count : ℕ  -- u8
  pub metrics : SnowflakeMetrics
  pub clock_drift_ms : ℕ  -- u64

abbrev no_metrics : SnowflakeMetrics
no_metrics = record {
  total_generated = 0;
  total_failed = 0;
  clock_backwards = 0;
  sequence_overflows = 0;
}

unfoldable pub new : ℕ → ℕ → Snowflake
new datacenter_id worker_id = record {
  config = default_config;
  datacenter_id = datacenter_id;
  worker_id = worker_id;
  sequence = 0;
  last_timestamp = 0;
  rotation_count = 0;
  metrics = no_metrics;
  clock_drift_ms = 0;
}

-- `config.algorithm.snowflake`, `config.app.dc_id` and `config.app.worker_id` are the arguments.
unfoldable pub initialize : Snowflake → SnowflakeConfig → ℕ → ℕ → Snowflake
initialize s config dc_id worker_id = record s {
  config = config;
  datacenter_id = dc_id;
  worker_id = worker_id;
}

-- How a call ends: it waits for a later reading, it returns, or it fails. The last two leave the
-- readings that the call has not used.
pub data Outcome (A : Type 0) : Type 0 where
  waiting : Snowflake → Outcome A
  returned : A → Snowflake → List ℕ → Outcome A
  failed : CoreError → Snowflake → List ℕ → Outcome A

pub Outcome-cases :
    {A : Type 0} (o : Outcome A)
    → (((s : Snowflake) × (o ≡ waiting s))
        ⊎ ((a : A) × (s : Snowflake) × (clock : List ℕ) × (o ≡ returned a s clock)))
      ⊎ ((e : CoreError) × (s : Snowflake) × (clock : List ℕ) × (o ≡ failed e s clock))
Outcome-cases (waiting s) = inl (inl (s, refl))
Outcome-cases (returned a s clock) = inl (inr (a, s, clock, refl))
Outcome-cases (failed e s clock) = inr (e, s, clock, refl)

-- The readings are polled until one passes `last_ts`.
wait_for_next_ms : ℕ → List ℕ → Option (ℕ × List ℕ)
wait_for_next_ms last_ts [] = none
wait_for_next_ms last_ts (current ∷ clock) =
    if ltb last_ts current then some (current, clock) else wait_for_next_ms last_ts clock

unfoldable pub construct_id : Snowflake → ℕ → ℕ → UniqueId
construct_id s timestamp sequence = from_u128 (
    bit_or
      (bit_or
        (bit_or
          (shl64 timestamp
            (u8 (u8 (config.datacenter_id_bits + config.worker_id_bits) + config.sequence_bits)))
          (shl64 s.datacenter_id (u8 (config.worker_id_bits + config.sequence_bits))))
        (shl64 s.worker_id config.sequence_bits))
      sequence)
  where
    open s use {config}

pub count_generated : Snowflake → Snowflake
count_generated s = record s {
  metrics = record (s.metrics) { total_generated = u64 (s.metrics.total_generated + 1) };
}

count_overflow : Snowflake → Snowflake
count_overflow s = record s {
  metrics = record (s.metrics) { sequence_overflows = u64 (s.metrics.sequence_overflows + 1) };
}

count_backwards : Snowflake → ℕ → Snowflake
count_backwards s drift = record s {
  clock_drift_ms = drift;
  metrics = record (s.metrics) { clock_backwards = u64 (s.metrics.clock_backwards + 1) };
}

-- `self.sequence.fetch_add(1)`: the new state; the old count is `s.sequence`.
fetch_add : Snowflake → Snowflake
fetch_add s = record s { sequence = u64 (s.sequence + 1) }

-- `seq > 0 && seq & sequence_mask == 0`
pub wrapped : ℕ → ℕ → Bool
wrapped seq mask = ltb 0 seq && (bit_and seq mask == 0)

pub issue : Snowflake → ℕ → ℕ → List ℕ → Outcome UniqueId
unfolding count_generated
issue s timestamp sequence clock =
    returned (construct_id s timestamp sequence) (count_generated s) clock

generate_id_with_timestamp : Snowflake → ℕ → ℕ → List ℕ → Outcome UniqueId
unfolding fetch_add wrapped issue count_overflow
generate_id_with_timestamp s timestamp mask clock =
    let reset = record s { last_timestamp = timestamp; sequence = 0 } in
    let seq = reset.sequence in
    if wrapped seq mask
    then failed (CoreError.sequence_overflow timestamp) (count_overflow (fetch_add reset)) clock
    else issue (fetch_add reset) timestamp (bit_and seq mask) clock

after_wait : Snowflake → Option (ℕ × List ℕ) → Outcome UniqueId
unfolding generate_id_with_timestamp sequence_mask
after_wait s none = waiting s
after_wait s (some (next_ts, clock)) =
    generate_id_with_timestamp s next_ts (sequence_mask s.config) clock

-- `timestamp < last_ts`
clock_went_back : Snowflake → ℕ → List ℕ → Outcome UniqueId
unfolding count_backwards after_wait wait_for_next_ms
clock_went_back s timestamp clock =
    let drift = s.last_timestamp - timestamp in
    let s' = count_backwards s drift in
    if ltb s.config.clock_drift_threshold_ms drift
    then failed (CoreError.clock_moved_backward s.last_timestamp) s' clock
    else after_wait s' (wait_for_next_ms s.last_timestamp clock)

rotate : Snowflake → Snowflake
rotate s = record s { rotation_count = u8 (s.rotation_count + 1) }

-- `timestamp == last_ts`
same_millisecond : Snowflake → ℕ → List ℕ → Outcome UniqueId
unfolding fetch_add wrapped rotate after_wait wait_for_next_ms issue sequence_mask
same_millisecond s timestamp clock =
    let seq = s.sequence in
    let mask = sequence_mask s.config in
    if wrapped seq mask
    then after_wait (rotate (fetch_add s)) (wait_for_next_ms timestamp clock)
    else issue (fetch_add s) timestamp (bit_and seq mask) clock

new_millisecond : Snowflake → ℕ → List ℕ → Outcome UniqueId
unfolding fetch_add issue sequence_mask
new_millisecond s timestamp clock =
    let reset = record s { sequence = 0; last_timestamp = timestamp } in
    issue (fetch_add reset) timestamp (bit_and reset.sequence (sequence_mask s.config)) clock

pub generate_id : Snowflake → List ℕ → Outcome UniqueId
unfolding clock_went_back same_millisecond new_millisecond
generate_id s [] = waiting s
generate_id s (timestamp ∷ clock) =
    if ltb timestamp s.last_timestamp
    then clock_went_back s timestamp clock
    else if timestamp == s.last_timestamp
    then same_millisecond s timestamp clock
    else new_millisecond s timestamp clock

abbrev prepend : UniqueId → Outcome (List UniqueId) → Outcome (List UniqueId)
prepend id (waiting s) = waiting s
prepend id (returned ids s clock) = returned (id ∷ ids) s clock
prepend id (failed e s clock) = failed e s clock

-- The loop of `batch_generate`: the ids that are still to be pushed, with `needed` of them missing
-- and `retries` attempts left.
batch_loop : ℕ → ℕ → Snowflake → List ℕ → Outcome (List UniqueId)
batch_loop zero retries s clock = returned [] s clock
batch_loop (suc needed) zero s clock = returned [] s clock
batch_loop (suc needed) (suc retries) s clock = elim (generate_id s clock) [
  | waiting s' ↦ waiting s'
  | returned id s' clock' ↦ prepend id (batch_loop needed (suc retries) s' clock')
  | failed e s' clock' ↦ batch_loop (suc needed) retries s' clock'
]

abbrev pub max_retries : ℕ
max_retries = 100

-- `Err` when no id was produced, else the batch.
batch_result : Outcome (List UniqueId) → Outcome (List UniqueId)
batch_result (returned [] s clock) =
    failed (CoreError.internal_error "Failed to generate IDs after max retries") s clock
batch_result (returned (id ∷ ids) s clock) = returned (id ∷ ids) s clock
batch_result (waiting s) = waiting s
batch_result (failed e s clock) = failed e s clock

pub batch_generate : Snowflake → ℕ → List ℕ → Outcome (List UniqueId)
unfolding batch_loop batch_result
batch_generate s zero clock = returned [] s clock
batch_generate s (suc size) clock = batch_result (batch_loop (suc size) max_retries s clock)

-- `health_check`; the text of the report is left out.
unfoldable pub is_healthy : Snowflake → Bool
is_healthy s = if ltb s.config.clock_drift_threshold_ms s.clock_drift_ms then false else true
