-- ===== src/Snowflake/Order.antt =====
-- Ids of one instance, called by one caller at a time, strictly increase, whatever the clock does.
use native.Mathlib.Nat.{pow-le-pow_right, one-le-pow, mod-eq_of_lt, mod_self}
use native.Mathlib.Decide.{dec_lt}
use nebula_id.Prelude.{
  ℕ, ◌+◌, ◌-◌, ◌%◌, ◌^◌, ◌≤◌, ◌<◌, ◌≡◌, refl, sym, subst, ◌∙◌, inl, inr, true, false, List, [], ◌∷◌,
  Option, none, some, bit_and, arith, ltb, ◌==◌, All, Bool-cases, ltb→lt, ==_iff,
}
use nebula_id.Prelude.Bits.{bit_and-mask}
use nebula_id.Types.UniqueId.{UniqueId}
use nebula_id.Snowflake.{
  Snowflake, Outcome, waiting, returned, failed, wait_for_next_ms, sequence_mask, wrapped,
  count_generated, count_backwards, fetch_add, rotate, issue, after_wait, clock_went_back,
  same_millisecond, new_millisecond, generate_id,
}
use nebula_id.Snowflake.Layout.{
  Fits, timestamp_bits, first_of, first_of_mono, construct_id-value, sequence_mask-ones,
}

-- An instance between two calls: the fields fit, and the count is within its width.
pub record Ready (s : Snowflake) : Type 0 where
  pub fits : Fits s
  pub counted : s.sequence ≤ 2 ^ s.config.sequence_bits

-- Every id that is still to be issued is at least this number.
abbrev pub floor : Snowflake → ℕ
floor s = first_of s s.last_timestamp + s.sequence

-- The readings fit the width of the timestamp.
abbrev pub InRange : Snowflake → List ℕ → Type 0
InRange s = All λ t. t < 2 ^ timestamp_bits s.config

-- What a finished call says, started at the floor `low`: an id lies at or above `low`, and the
-- floor rises above the id; a failure does not lower the floor.
abbrev pub Advances : ℕ → Outcome UniqueId → Type 0
Advances low (waiting s') = Unit {0}
Advances low (returned id s' clock) =
    Ready s' × InRange s' clock × (low ≤ id.value) × (id.value < floor s')
Advances low (failed e s' clock) = Ready s' × InRange s' clock × (low ≤ floor s')

abbrev Later : Snowflake → ℕ → Option (ℕ × List ℕ) → Type 0
Later s last none = Unit {0}
Later s last (some (t, rest)) = (last < t) × (t < 2 ^ timestamp_bits s.config) × InRange s rest

wait-Later :
    (s : Snowflake) (last : ℕ) (clock : List ℕ)
    → InRange s clock
    → Later s last (wait_for_next_ms last clock)
unfolding wait_for_next_ms
wait-Later s last [] i = tt
wait-Later s last (now ∷ clock) i = elim (Bool-cases (ltb last now)) [
  | inl late ↦ rw late (ltb→lt last now late, i.0, i.1)
  | inr early ↦ rw early (wait-Later s last clock i.1)
]

pub count-small : (s : Snowflake) → Fits s → 2 ^ s.config.sequence_bits ≤ 2 ^ 63
count-small s fits = pow-le-pow_right {n = 2} (omega arith) {j = 63} (omega (arith, fits.widths))

pub masked :
    (s : Snowflake) (q : ℕ)
    → Fits s
    → bit_and q (sequence_mask s.config) ≡ q % 2 ^ s.config.sequence_bits
masked s q fits =
    rw (sequence_mask-ones s.config (omega (arith, fits.widths)))
      (bit_and-mask s.config.sequence_bits q)

pub masked_low :
    (s : Snowflake) (q : ℕ)
    → Fits s
    → q < 2 ^ s.config.sequence_bits
    → bit_and q (sequence_mask s.config) ≡ q
masked_low s q fits h = masked s q fits ∙ mod-eq_of_lt h

-- The count has wrapped exactly when the width is used up.
pub wrapped_low :
    (s : Snowflake) (q : ℕ)
    → Fits s
    → q < 2 ^ s.config.sequence_bits
    → wrapped q (sequence_mask s.config) ≡ false
unfolding wrapped
wrapped_low s q fits h = ground (arith, masked_low s q fits h)

pub wrapped_full :
    (s : Snowflake) (q : ℕ)
    → Fits s
    → q ≡ 2 ^ s.config.sequence_bits
    → wrapped q (sequence_mask s.config) ≡ true
unfolding wrapped
wrapped_full s q fits h = ground (
  arith,
  masked s q fits,
  mod_self (2 ^ s.config.sequence_bits),
  one-le-pow s.config.sequence_bits 2,
)

issue-Advances :
    (low : ℕ) (s : Snowflake) (q : ℕ) (clock : List ℕ)
    → Fits s
    → InRange s clock
    → s.last_timestamp < 2 ^ timestamp_bits s.config
    → q < 2 ^ s.config.sequence_bits
    → s.sequence ≡ q + 1
    → low ≤ first_of s s.last_timestamp + q
    → Advances low (issue s s.last_timestamp q clock)
unfolding issue
issue-Advances low s q clock fits i ht hq seq h =
    let value = construct_id-value s s.last_timestamp q fits ht hq in
    (record { fits = fits'; counted = omega arith }, i, omega (arith, value), omega (arith, value))
  where
    fits' : Fits (count_generated s)
    fits' = record { widths = fits.widths; datacenter = fits.datacenter; worker = fits.worker }

-- The wait ends in a later millisecond, whose first id is issued.
after_wait-Advances :
    (low : ℕ) (s : Snowflake) (o : Option (ℕ × List ℕ))
    → Fits s
    → Later s s.last_timestamp o
    → low ≤ first_of s s.last_timestamp + 2 ^ s.config.sequence_bits
    → Advances low (after_wait s o)
unfolding after_wait
after_wait-Advances low s none fits l h = tt
after_wait-Advances low s (some (t, clock)) fits l h =
    rw (masked_low s 0 fits (one-le-pow s.config.sequence_bits 2 (omega arith))) (
      issue-Advances low (record s { last_timestamp = t; sequence = 1 }) 0 clock fits' l.2 l.1
        (one-le-pow s.config.sequence_bits 2 (omega arith)) refl
        (omega (arith, first_of_mono s s.last_timestamp t l.0)))
  where
    fits' : Fits (record s { last_timestamp = t; sequence = 1 })
    fits' = record { widths = fits.widths; datacenter = fits.datacenter; worker = fits.worker }

new_millisecond-Advances :
    (s : Snowflake) (t : ℕ) (clock : List ℕ)
    → Ready s
    → s.last_timestamp < t
    → t < 2 ^ timestamp_bits s.config
    → InRange s clock
    → Advances (floor s) (new_millisecond s t clock)
unfolding new_millisecond after_wait
new_millisecond-Advances s t clock r h ht i =
    after_wait-Advances (floor s) s (some (t, clock)) r.fits (h, ht, i) (omega (arith, r.counted))

same_millisecond-Advances :
    (s : Snowflake) (clock : List ℕ)
    → Ready s
    → s.last_timestamp < 2 ^ timestamp_bits s.config
    → InRange s clock
    → Advances (floor s) (same_millisecond s s.last_timestamp clock)
unfolding same_millisecond
same_millisecond-Advances s clock r ht i = elim (dec_lt s.sequence (2 ^ s.config.sequence_bits)) [
  | yes room ↦
      rw (wrapped_low s s.sequence r.fits room, masked_low s s.sequence r.fits room)
        (issue-Advances (floor s) (fetch_add s) s.sequence clock fits' i ht room
          (omega (arith, count-small s r.fits)) (omega arith))
  | no full ↦ rw (wrapped_full s s.sequence r.fits (omega (arith, r.counted))) (
      after_wait-Advances (floor s) (rotate (fetch_add s)) (wait_for_next_ms s.last_timestamp clock)
        fits'' (wait-Later s s.last_timestamp clock i) (omega (arith, r.counted)))
]
  where
    fits' : Fits (fetch_add s)
    fits' = record {
      widths = r.fits.widths;
      datacenter = r.fits.datacenter;
      worker = r.fits.worker;
    }

    fits'' : Fits (rotate (fetch_add s))
    fits'' = record {
      widths = r.fits.widths;
      datacenter = r.fits.datacenter;
      worker = r.fits.worker;
    }

clock_went_back-Advances :
    (s : Snowflake) (t : ℕ) (clock : List ℕ)
    → Ready s
    → InRange s clock
    → Advances (floor s) (clock_went_back s t clock)
unfolding clock_went_back
clock_went_back-Advances s t clock r i =
    elim (Bool-cases (ltb s.config.clock_drift_threshold_ms (s.last_timestamp - t))) [
      | inl far ↦ rw far (record { fits = fits'; counted = r.counted }, i, omega arith)
      | inr near ↦ rw near (
          after_wait-Advances (floor s) (count_backwards s (s.last_timestamp - t))
            (wait_for_next_ms s.last_timestamp clock) fits' (wait-Later s s.last_timestamp clock i)
            (omega (arith, r.counted)))
    ]
  where
    fits' : Fits (count_backwards s (s.last_timestamp - t))
    fits' = record {
      widths = r.fits.widths;
      datacenter = r.fits.datacenter;
      worker = r.fits.worker;
    }

-- One finished call of an instance that is ready, on readings in range, leaves it ready; an id
-- that it returns lies at or above the floor, and the new floor above the id. A failed call does
-- not lower the floor.
pub generate_id-Advances :
    (s : Snowflake) (clock : List ℕ)
    → Ready s
    → InRange s clock
    → Advances (floor s) (generate_id s clock)
unfolding generate_id
generate_id-Advances s [] r i = tt
generate_id-Advances s (t ∷ clock) r i = elim (Bool-cases (ltb t s.last_timestamp)) [
  | inl back ↦ rw back (clock_went_back-Advances s t clock r i.1)
  | inr forth ↦ rw forth (elim (Bool-cases (t == s.last_timestamp)) [
    | inl same ↦
        let e : t ≡ s.last_timestamp = (==_iff t s.last_timestamp).0 same in
        rw same (
          subst (λ u. Advances (floor s) (same_millisecond s u clock)) (sym e)
            (same_millisecond-Advances s clock r
              (subst (λ u. u < 2 ^ timestamp_bits s.config) e i.0) i.1))
    | inr later ↦ rw later (new_millisecond-Advances s t clock r (ground arith) i.0 i.1)
  ])
]
