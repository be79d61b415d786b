-- ===== src/Snowflake/Throughput.antt =====
-- How many ids a batch holds: a whole batch within one millisecond, and one id for each reading
-- where every reading is later than the last.
use nebula_id.Prelude.{
  count_from, ℕ, zero, suc, ◌+◌, ◌^◌, ◌≤◌, ◌<◌, ◌≡◌, refl, List, [], ◌∷◌, map, arith, Increasing,
  length,
}
use nebula_id.Types.UniqueId.{from_u128}
use nebula_id.Snowflake.{
  Snowflake, returned, count_generated, batch_loop, batch_result, batch_generate,
}
use nebula_id.Snowflake.Layout.{Fits, timestamp_bits, first_of}
use nebula_id.Snowflake.Order.{InRange}
use nebula_id.Snowflake.Progress.{started, counted, generate_id-new, generate_id-same}

abbrev pub replicate : ℕ → ℕ → List ℕ
replicate zero t = []
replicate (suc n) t = t ∷ replicate n t

batch_loop-same :
    (n r : ℕ) (s : Snowflake)
    → Fits s
    → s.last_timestamp < 2 ^ timestamp_bits s.config
    → s.sequence + n ≤ 2 ^ s.config.sequence_bits
    → (s' : Snowflake) × (batch_loop n (suc r) s (replicate n s.last_timestamp)
        ≡ returned (map from_u128 (count_from (first_of s s.last_timestamp + s.sequence) n)) s' [])
unfolding batch_loop count_generated
batch_loop-same zero r s fits ht h = (s, refl)
batch_loop-same (suc n) r s fits ht h =
    let (s', e) =
      batch_loop-same n r (counted s)
        (record { widths = fits.widths; datacenter = fits.datacenter; worker = fits.worker }) ht
        (omega arith) in
    let next : first_of s s.last_timestamp + (s.sequence + 1)
        ≡ suc (first_of s s.last_timestamp + s.sequence) =
      omega arith in
    (
      s',
      rw (
        generate_id-same s (replicate n s.last_timestamp) fits ht (omega arith),
        batch_loop,
        e,
        next,
      ),
    )

-- A batch of at most `2 ^ sequence_bits` ids asked for within one new millisecond is complete, and
-- its ids are the consecutive numbers of that millisecond.
pub batch_generate-same :
    (s : Snowflake) (n t : ℕ)
    → Fits s
    → s.last_timestamp < t
    → t < 2 ^ timestamp_bits s.config
    → n ≤ 2 ^ s.config.sequence_bits
    → (s' : Snowflake) × (batch_generate s n (replicate n t)
        ≡ returned (map from_u128 (count_from (first_of s t) n)) s' [])
unfolding batch_generate batch_loop count_generated
batch_generate-same s zero t fits h ht hn = (s, refl)
batch_generate-same s (suc n) t fits h ht hn =
    let (s', e) =
      batch_loop-same n 99 (started s t)
        (record { widths = fits.widths; datacenter = fits.datacenter; worker = fits.worker }) ht
        (omega arith) in
    let first : first_of s t + 0 ≡ first_of s t = omega arith in
    let second : first_of s t + 1 ≡ suc (first_of s t) = omega arith in
    (
      s',
      rw (
        generate_id-new s t (replicate n t) fits h ht,
        batch_loop,
        e,
        first,
        second,
        batch_result,
      ),
    )

batch_loop-rising :
    (r : ℕ) (s : Snowflake) (clock : List ℕ)
    → Fits s
    → InRange s clock
    → Increasing (suc s.last_timestamp) clock
    → (s' : Snowflake) × (batch_loop (length clock) (suc r) s clock
        ≡ returned (map (λ t. from_u128 (first_of s t)) clock) s' [])
unfolding batch_loop count_generated
batch_loop-rising r s [] fits i up = (s, refl)
batch_loop-rising r s (t ∷ clock) fits i up =
    let (s', e) =
      batch_loop-rising r (started s t) clock
        (record { widths = fits.widths; datacenter = fits.datacenter; worker = fits.worker }) i.1
        up.1 in
    let first : first_of s t + 0 ≡ first_of s t = omega arith in
    (s', rw (generate_id-new s t clock fits (omega (arith, up.0)) i.0, batch_loop, e, first))

-- A batch whose readings each pass the one before takes one reading for each id, and the ids are
-- the first of their milliseconds.
batch_generate-rising :
    (s : Snowflake) (clock : List ℕ)
    → Fits s
    → InRange s clock
    → Increasing (suc s.last_timestamp) clock
    → (s' : Snowflake) × (batch_generate s (length clock) clock
        ≡ returned (map (λ t. from_u128 (first_of s t)) clock) s' [])
unfolding batch_generate
batch_generate-rising s [] fits i up = (s, refl)
batch_generate-rising s (t ∷ clock) fits i up =
    let (s', e) = batch_loop-rising 99 s (t ∷ clock) fits i up in (s', rw (e, batch_result))
