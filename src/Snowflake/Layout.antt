-- ===== src/Snowflake/Layout.antt =====
-- The bit fields of `construct_id` as arithmetic: which number an id is, under a configuration
-- whose fields fit, and that the fields determine it.
use native.Mathlib.Nat.{one-le-pow, pow-le-pow_right, mod-eq_of_lt, lt_of_lt_of_le}
use nebula_id.Prelude.{
  ℕ, ◌+◌, ◌-◌, ◌*◌, ◌%◌, ◌^◌, ◌≤◌, ◌<◌, ◌≡◌, ap, sym, subst, ◌∙◌, bit_or, arith, shl64, u8,
}
use nebula_id.Prelude.Bits.{bit_or-shift, pow-add}
use nebula_id.Snowflake.{Snowflake, SnowflakeConfig, sequence_mask, construct_id}

-- The fields fit their widths, and the widths leave room for a timestamp.
pub record Fits (s : Snowflake) : Type 0 where
  pub widths : s.config.datacenter_id_bits + s.config.worker_id_bits + s.config.sequence_bits < 64
  pub datacenter : s.datacenter_id < 2 ^ s.config.datacenter_id_bits
  pub worker : s.worker_id < 2 ^ s.config.worker_id_bits

-- The width left for the timestamp: `SnowflakeAlgorithmConfig::timestamp_bits`.
abbrev pub timestamp_bits : SnowflakeConfig → ℕ
timestamp_bits c = 64 - c.datacenter_id_bits - c.worker_id_bits - c.sequence_bits

-- The number of the first id of a millisecond.
abbrev pub first_of : Snowflake → ℕ → ℕ
first_of s timestamp =
    ((timestamp * 2 ^ s.config.datacenter_id_bits + s.datacenter_id) * 2 ^ s.config.worker_id_bits
      + s.worker_id)
    * 2 ^ s.config.sequence_bits

-- A field below `2 ^ a`, shifted by `b`, stays below `2 ^ (a + b)`.
shifted-lt : (a b x : ℕ) → x < 2 ^ a → x * 2 ^ b < 2 ^ (a + b)
shifted-lt a b x h = grind (arith, pow-add 2 a b, one-le-pow b 2)

field : (a b q x : ℕ) → x < 2 ^ a → bit_or (q * 2 ^ (a + b)) (x * 2 ^ b) ≡ (q * 2 ^ a + x) * 2 ^ b
field a b q x h =
    bit_or-shift (a + b) q (x * 2 ^ b) (shifted-lt a b x h) ∙ grind (arith, pow-add 2 a b)

-- A shift that loses no bit.
shl64-exact : (w k x : ℕ) → k < 64 → w + k ≤ 64 → x < 2 ^ w → shl64 x k ≡ x * 2 ^ k
shl64-exact w k x hk hw hx =
    let same : k % 64 ≡ k = omega arith in
    rw same (
      mod-eq_of_lt
        (lt_of_lt_of_le (shifted-lt w k x hx) (pow-le-pow_right {n = 2} (omega arith) hw)))

fields :
    (a b c t d w q : ℕ)
    → d < 2 ^ a
    → w < 2 ^ b
    → q < 2 ^ c
    → bit_or (bit_or (bit_or (t * 2 ^ (a + (b + c))) (d * 2 ^ (b + c))) (w * 2 ^ c)) q
      ≡ ((t * 2 ^ a + d) * 2 ^ b + w) * 2 ^ c + q
fields a b c t d w q hd hw hq =
    rw (field a (b + c) t d hd, field b c (t * 2 ^ a + d) w hw) (bit_or-shift c _ q hq)

-- What `construct_id` computes, in a configuration whose fields fit.
pub construct_id-value :
    (s : Snowflake) (t q : ℕ)
    → Fits s
    → t < 2 ^ timestamp_bits s.config
    → q < 2 ^ s.config.sequence_bits
    → (construct_id s t q).value ≡ first_of s t + q
unfolding construct_id
construct_id-value s t q fits ht hq =
    rw
      (
        total,
        low,
        shl64-exact (timestamp_bits s.config) (a + (b + c)) t (omega arith) (omega arith) ht,
        shl64-exact a (b + c) s.datacenter_id (omega arith) (omega arith) fits.datacenter,
        shl64-exact b c s.worker_id (omega arith) (omega arith) fits.worker,
      )
      (fields a b c t s.datacenter_id s.worker_id q fits.datacenter fits.worker hq)
  where
    open s.config use {datacenter_id_bits as a, worker_id_bits as b, sequence_bits as c}

    total : u8 (u8 (a + b) + c) ≡ a + (b + c)
    total = omega (arith, fits.widths)

    low : u8 (b + c) ≡ b + c
    low = omega (arith, fits.widths)

next_block : (a x x' : ℕ) → x < x' → x * a + a ≤ x' * a
next_block a x x' h = grind arith

-- A later millisecond starts at least `2 ^ sequence_bits` ids after an earlier one.
pub first_of_mono :
    (s : Snowflake) (t t' : ℕ) → t < t' → first_of s t + 2 ^ s.config.sequence_bits ≤ first_of s t'
first_of_mono s t t' h =
    next_block (2 ^ c) ((t * 2 ^ a + s.datacenter_id) * 2 ^ b + s.worker_id)
      ((t' * 2 ^ a + s.datacenter_id) * 2 ^ b + s.worker_id)
      (omega (
        arith,
        next_block (2 ^ b) (t * 2 ^ a + s.datacenter_id) (t' * 2 ^ a + s.datacenter_id)
            (omega (arith, next_block (2 ^ a) t t' h, one-le-pow a 2)),
        one-le-pow b 2,
      ))
  where
    open s.config use {datacenter_id_bits as a, worker_id_bits as b, sequence_bits as c}

pub sequence_mask-ones :
    (c : SnowflakeConfig) → c.sequence_bits < 64 → sequence_mask c ≡ 2 ^ c.sequence_bits - 1
unfolding sequence_mask
sequence_mask-ones c h =
    let one_bit : shl64 1 c.sequence_bits ≡ 1 * 2 ^ c.sequence_bits =
      shl64-exact 1 c.sequence_bits 1 h (omega arith) (omega arith) in
    omega (arith, one_bit)

-- A field of a number is read back by dividing.
split_block : (a x x' r r' : ℕ) → r < a → r' < a → x * a + r ≡ x' * a + r' → (x ≡ x') × (r ≡ r')
split_block a x x' r r' h h' e = grind (arith, next_block a x x', next_block a x' x)

fields-injective :
    (a b c t t' d d' w w' q q' : ℕ)
    → d < 2 ^ a
    → d' < 2 ^ a
    → w < 2 ^ b
    → w' < 2 ^ b
    → q < 2 ^ c
    → q' < 2 ^ c
    → ((t * 2 ^ a + d) * 2 ^ b + w) * 2 ^ c + q ≡ ((t' * 2 ^ a + d') * 2 ^ b + w') * 2 ^ c + q'
    → (t ≡ t') × (d ≡ d') × (w ≡ w') × (q ≡ q')
fields-injective a b c t t' d d' w w' q q' hd hd' hw hw' hq hq' e =
    let low = split_block (2 ^ c) _ _ q q' hq hq' e in
    let mid = split_block (2 ^ b) _ _ w w' hw hw' low.0 in
    let top = split_block (2 ^ a) t t' d d' hd hd' mid.0 in (top.0, top.1, mid.1, low.1)

-- Under one configuration, two instances that fit it issue the same number only for the same
-- timestamp, datacenter, worker and sequence number.
pub construct_id-injective :
    (s s' : Snowflake) (t t' q q' : ℕ)
    → s.config ≡ s'.config
    → Fits s
    → Fits s'
    → t < 2 ^ timestamp_bits s.config
    → t' < 2 ^ timestamp_bits s.config
    → q < 2 ^ s.config.sequence_bits
    → q' < 2 ^ s.config.sequence_bits
    → construct_id s t q ≡ construct_id s' t' q'
    → (t ≡ t') × (s.datacenter_id ≡ s'.datacenter_id) × (s.worker_id ≡ s'.worker_id) × (q ≡ q')
construct_id-injective s s' t t' q q' same fits fits' ht ht' hq hq' e =
    fields-injective s.config.datacenter_id_bits s.config.worker_id_bits s.config.sequence_bits t t'
      s.datacenter_id s'.datacenter_id s.worker_id s'.worker_id q q' fits.datacenter
      (back (λ c. s'.datacenter_id < 2 ^ c.datacenter_id_bits) fits'.datacenter) fits.worker
      (back (λ c. s'.worker_id < 2 ^ c.worker_id_bits) fits'.worker) hq hq'
      (sym (construct_id-value s t q fits ht hq)
        ∙ ap (λ i. i.value) e
        ∙ back
            (λ c.
              (construct_id s' t' q').value
              ≡ ((t' * 2 ^ c.datacenter_id_bits + s'.datacenter_id) * 2 ^ c.worker_id_bits
                    + s'.worker_id)
                  * 2 ^ c.sequence_bits
                + q')
            (construct_id-value s' t' q' fits' (subst (λ c. t' < 2 ^ timestamp_bits c) same ht')
              (subst (λ c. q' < 2 ^ c.sequence_bits) same hq')))
  where
    back : (P : SnowflakeConfig → Type 0) → P s'.config → P s.config
    back P = subst P (sym same)
