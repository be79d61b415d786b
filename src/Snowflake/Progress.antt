-- ===== src/Snowflake/Progress.antt =====
-- Calls of one instance finish: when they wait, which errors they can give, and how many ids a
-- millisecond yields.
use native.Mathlib.Nat.{one-le-pow}
use nebula_id.Prelude.{
  ℕ, ◌+◌, ◌^◌, ◌<◌, ◌≡◌, ◌≢◌, refl, ap, Bool, true, false, ◌||◌, List, [], ◌∷◌, Option, some, none,
  ◌-◌, arith, ltb, u64, le→ltb, gt→==, ==_self,
}
use nebula_id.Types.{CoreError}
use nebula_id.Types.UniqueId.{from_u128}
use nebula_id.Snowflake.{
  Snowflake, waiting, returned, failed, wait_for_next_ms, count_generated, count_backwards, rotate,
  fetch_add, issue, after_wait, clock_went_back, same_millisecond, new_millisecond, generate_id,
}
use nebula_id.Snowflake.Layout.{Fits, timestamp_bits, first_of, construct_id-value}
use nebula_id.Snowflake.Order.{masked_low, wrapped_low, count-small}

-- Some reading is later than `last`.
unfoldable pub passes : ℕ → List ℕ → Bool
passes last [] = false
passes last (t ∷ clock) = ltb last t || passes last clock

wait-passes :
    (last : ℕ) (clock : List ℕ) → passes last clock ≡ true → wait_for_next_ms last clock ≢ none
unfolding passes wait_for_next_ms
wait-passes last [] h = cc
wait-passes last (t ∷ clock) h = ground (arith, wait-passes last clock)

after_wait-ends :
    (s s' : Snowflake) (o : Option (ℕ × List ℕ)) → o ≢ none → after_wait s o ≢ waiting s'
unfolding after_wait
after_wait-ends s s' none h = absurd (h refl)
after_wait-ends s s' (some (t, clock)) h = ground arith

-- A call does not wait for ever: if a reading after its first one is later than the last timestamp,
-- it returns or fails.
pub generate_id-ends :
    (s s' : Snowflake) (t : ℕ) (clock : List ℕ)
    → passes s.last_timestamp clock ≡ true
    → generate_id s (t ∷ clock) ≢ waiting s'
unfolding generate_id clock_went_back same_millisecond new_millisecond
generate_id-ends s s' t clock h = ground (
  arith,
  wait-passes s.last_timestamp clock h,
  after_wait-ends (count_backwards s (s.last_timestamp - t)) s'
      (wait_for_next_ms s.last_timestamp clock),
  after_wait-ends (rotate (fetch_add s)) s' (wait_for_next_ms t clock),
)

after_wait-succeeds :
    (s s' : Snowflake) (e : CoreError) (o : Option (ℕ × List ℕ)) (rest : List ℕ)
    → after_wait s o ≢ failed e s' rest
unfolding after_wait
after_wait-succeeds s s' e none rest = ground arith
after_wait-succeeds s s' e (some (t, clock)) rest = ground arith

-- What a failed call says: its reading was earlier than the last timestamp by more than the
-- threshold, the error names that timestamp, and the count and the timestamp stay. No other error
-- arises; in particular `SequenceOverflow` does not.
generate_id-failed :
    (s s' : Snowflake) (e : CoreError) (t : ℕ) (clock rest : List ℕ)
    → generate_id s (t ∷ clock) ≡ failed e s' rest
    → (e ≡ CoreError.clock_moved_backward s.last_timestamp)
      × (t + s.config.clock_drift_threshold_ms < s.last_timestamp)
      × (s'.sequence ≡ s.sequence)
      × (s'.last_timestamp ≡ s.last_timestamp)
unfolding generate_id clock_went_back same_millisecond new_millisecond
generate_id-failed s s' e t clock rest h = ground (
  arith,
  after_wait-succeeds (count_backwards s (s.last_timestamp - t)) s' e
      (wait_for_next_ms s.last_timestamp clock) rest,
  after_wait-succeeds (rotate (fetch_add s)) s' e (wait_for_next_ms t clock) rest,
)

-- The state after the first id of a new millisecond.
abbrev pub started : Snowflake → ℕ → Snowflake
started s t = count_generated (record s { last_timestamp = t; sequence = 1 })

abbrev pub counted : Snowflake → Snowflake
counted s = count_generated (record s { sequence = s.sequence + 1 })

pub issue-value :
    (s : Snowflake) (t q : ℕ) (clock : List ℕ)
    → Fits s
    → t < 2 ^ timestamp_bits s.config
    → q < 2 ^ s.config.sequence_bits
    → issue s t q clock ≡ returned (from_u128 (first_of s t + q)) (count_generated s) clock
unfolding issue
issue-value s t q clock fits ht hq =
    ap (λ v. returned (from_u128 v) (count_generated s) clock) (construct_id-value s t q fits ht hq)

pub generate_id-new :
    (s : Snowflake) (t : ℕ) (clock : List ℕ)
    → Fits s
    → s.last_timestamp < t
    → t < 2 ^ timestamp_bits s.config
    → generate_id s (t ∷ clock) ≡ returned (from_u128 (first_of s t + 0)) (started s t) clock
unfolding generate_id new_millisecond
generate_id-new s t clock fits h ht =
    rw
      (le→ltb t s.last_timestamp (omega arith), gt→== t s.last_timestamp h, masked_low s 0 fits one)
      (issue-value (record s { last_timestamp = t; sequence = 1 }) t 0 clock
        (record { widths = fits.widths; datacenter = fits.datacenter; worker = fits.worker }) ht
        one)
  where
    one : 0 < 2 ^ s.config.sequence_bits
    one = one-le-pow s.config.sequence_bits 2 (omega arith)

pub generate_id-same :
    (s : Snowflake) (clock : List ℕ)
    → Fits s
    → s.last_timestamp < 2 ^ timestamp_bits s.config
    → s.sequence < 2 ^ s.config.sequence_bits
    → generate_id s (s.last_timestamp ∷ clock)
      ≡ returned (from_u128 (first_of s s.last_timestamp + s.sequence)) (counted s) clock
unfolding generate_id same_millisecond
generate_id-same s clock fits ht hq =
    rw
      (
        le→ltb s.last_timestamp s.last_timestamp (omega arith),
        ==_self s.last_timestamp,
        wrapped_low s s.sequence fits hq,
        masked_low s s.sequence fits hq,
        next,
      )
      (issue-value (record s { sequence = s.sequence + 1 }) s.last_timestamp s.sequence clock
        (record { widths = fits.widths; datacenter = fits.datacenter; worker = fits.worker }) ht hq)
  where
    next : u64 (s.sequence + 1) ≡ s.sequence + 1
    next = omega (arith, count-small s fits)
