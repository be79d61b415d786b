-- ===== src/Snowflake/Exhaustion.antt =====
-- What a second caller gets while the first waits at the end of a used-up millisecond, and what a
-- datacenter number that is too wide for its field does.
use native.Mathlib.Nat.{pow-le-pow_right, add-mod_left, mod-eq_of_lt}
use nebula_id.Prelude.{
  ℕ, ◌+◌, ◌*◌, ◌%◌, ◌^◌, ◌≤◌, ◌<◌, ◌≡◌, refl, sym, ◌∙◌, [], ◌∷◌, arith, bit_and, bit_or, u64,
  le→ltb, ==_self, ap, ap₂, false,
}
use nebula_id.Prelude.Bits.{bit_or-shift}
use nebula_id.Types.UniqueId.{UniqueId, from_u128}
use nebula_id.Snowflake.{
  Snowflake, waiting, returned, wrapped, fetch_add, rotate, construct_id, count_generated,
  same_millisecond, generate_id, new, sequence_mask,
}
use nebula_id.Snowflake.Layout.{Fits, timestamp_bits, first_of}
use nebula_id.Snowflake.Order.{masked, wrapped_full, count-small}
use nebula_id.Snowflake.Progress.{counted, issue-value, generate_id-same}

-- The state in which a caller waits for the next millisecond.
abbrev exhausted : Snowflake → Snowflake
exhausted s = rotate (record s { sequence = 2 ^ s.config.sequence_bits + 1 })

generate_id-full :
    (s : Snowflake)
    → Fits s
    → s.sequence ≡ 2 ^ s.config.sequence_bits
    → generate_id s (s.last_timestamp ∷ []) ≡ waiting (exhausted s)
unfolding generate_id same_millisecond
generate_id-full s fits full =
    rw
      (
        le→ltb s.last_timestamp s.last_timestamp (omega arith),
        ==_self s.last_timestamp,
        wrapped_full s s.sequence fits full,
      )
      (ap (λ v. waiting (rotate (record s { sequence = v }))) (omega (arith, count-small s fits)))

past_mask :
    (s : Snowflake)
    → Fits s
    → 1 ≤ s.config.sequence_bits
    → s.sequence ≡ 2 ^ s.config.sequence_bits + 1
    → bit_and s.sequence (sequence_mask s.config) ≡ 1
past_mask s fits hb past =
    masked s s.sequence fits
    ∙ ap (λ v. v % 2 ^ s.config.sequence_bits) past
    ∙ add-mod_left (2 ^ s.config.sequence_bits) 1
    ∙ mod-eq_of_lt (pow-le-pow_right {n = 2} (omega arith) {i = 1} hb)

-- One count past the width, the masked count starts over at 1.
generate_id-past :
    (s : Snowflake)
    → Fits s
    → s.last_timestamp < 2 ^ timestamp_bits s.config
    → 1 ≤ s.config.sequence_bits
    → s.sequence ≡ 2 ^ s.config.sequence_bits + 1
    → generate_id s (s.last_timestamp ∷ [])
      ≡ returned (from_u128 (first_of s s.last_timestamp + 1)) (count_generated (fetch_add s)) []
unfolding generate_id same_millisecond
generate_id-past s fits ht hb past =
    rw
      (
        le→ltb s.last_timestamp s.last_timestamp (omega arith),
        ==_self s.last_timestamp,
        not_wrapped,
        past_mask s fits hb past,
      )
      (issue-value (fetch_add s) s.last_timestamp 1 []
        (record { widths = fits.widths; datacenter = fits.datacenter; worker = fits.worker }) ht
        (pow-le-pow_right {n = 2} (omega arith) {i = 1} hb))
  where
    not_wrapped : wrapped s.sequence (sequence_mask s.config) ≡ false
    not_wrapped = ground (arith, past_mask s fits hb past)

-- While a caller waits for the next millisecond, a second caller in the same millisecond is given an
-- id again that the instance returned earlier in it: the count went on to one past its width, and
-- its masked value starts over. `early` is the instance when its count stood at 1, `full` when every
-- count of the millisecond was used; the sequence field has at least one bit.
pub exhausted_duplicate :
    (s : Snowflake)
    → Fits s
    → s.last_timestamp < 2 ^ timestamp_bits s.config
    → 1 ≤ s.config.sequence_bits
    → let early = record s { sequence = 1 } in
      let full = record s { sequence = 2 ^ s.config.sequence_bits } in
      (id : UniqueId) × (s₁ : Snowflake) × (s₂ : Snowflake) × (s₃ : Snowflake) × (generate_id early
          (s.last_timestamp ∷ [])
        ≡ returned id s₁ [])
      × (generate_id full (s.last_timestamp ∷ []) ≡ waiting s₂)
      × (generate_id s₂ (s.last_timestamp ∷ []) ≡ returned id s₃ [])
unfolding rotate
exhausted_duplicate s fits ht hb = (
  from_u128 (first_of s s.last_timestamp + 1),
  counted early,
  exhausted full,
  count_generated (fetch_add (exhausted full)),
  generate_id-same early [] fits_early ht (pow-le-pow_right {n = 2} (omega arith) {i = 1} hb),
  generate_id-full full fits_full refl,
  generate_id-past (exhausted full) fits_past ht hb refl,
)
  where
    early : Snowflake
    early = record s { sequence = 1 }

    full : Snowflake
    full = record s { sequence = 2 ^ s.config.sequence_bits }

    fits_early : Fits early
    fits_early = record { widths = fits.widths; datacenter = fits.datacenter; worker = fits.worker }

    fits_full : Fits full
    fits_full = record { widths = fits.widths; datacenter = fits.datacenter; worker = fits.worker }

    fits_past : Fits (exhausted full)
    fits_past = record { widths = fits.widths; datacenter = fits.datacenter; worker = fits.worker }

-- The bits of `8 + d` above its field fall on the lowest bit of the timestamp.
spill :
    (t d : ℕ)
    → d < 8
    → bit_or (2 * t * 2 ^ 21) ((8 + d) * 2 ^ 18) ≡ bit_or ((2 * t + 1) * 2 ^ 21) (d * 2 ^ 18)
spill t d hd =
    ap (λ v. bit_or v ((8 + d) * 2 ^ 18)) doubled
    ∙ bit_or-shift 22 t ((8 + d) * 2 ^ 18) (omega arith)
    ∙ moved
    ∙ sym (bit_or-shift 21 (2 * t + 1) (d * 2 ^ 18) (omega arith))
  where
    doubled : 2 * t * 2 ^ 21 ≡ t * 2 ^ 22
    doubled = omega arith

    moved : t * 2 ^ 22 + (8 + d) * 2 ^ 18 ≡ (2 * t + 1) * 2 ^ 21 + d * 2 ^ 18
    moved = omega arith

-- Under the default widths a datacenter number above 7 runs into the timestamp: instance `8 + d`,
-- for `d` below 8, issues in the even millisecond `2 * t` the ids that instance `d` of the same
-- worker number issues in the millisecond after it.
pub datacenter_collision :
    (t d w q : ℕ)
    → d < 8
    → 2 * t + 1 < 2 ^ 43
    → construct_id (new (8 + d) w) (2 * t) q ≡ construct_id (new d w) (2 * t + 1) q
unfolding construct_id new
datacenter_collision t d w q hd ht =
    ap (λ v. from_u128 (bit_or (bit_or v (u64 (w * 2 ^ 10))) q))
      (ap₂ bit_or (mod-eq_of_lt even) (mod-eq_of_lt upper)
        ∙ spill t d hd
        ∙ sym (ap₂ bit_or (mod-eq_of_lt odd) (mod-eq_of_lt lower)))
  where
    even : 2 * t * 2 ^ 21 < 2 ^ 64
    even = omega arith

    odd : (2 * t + 1) * 2 ^ 21 < 2 ^ 64
    odd = omega arith

    upper : (8 + d) * 2 ^ 18 < 2 ^ 64
    upper = omega arith

    lower : d * 2 ^ 18 < 2 ^ 64
    lower = omega arith
