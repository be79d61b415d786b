-- ===== src/ParseId.antt =====
-- src/server/handlers/id_handlers.rs, `extract_snowflake_metadata`: the fields of an id read back
-- by fixed widths.
mod Tests
use nebula_id.Prelude.{
  ℕ, ◌+◌, ◌-◌, ◌*◌, ◌/◌, ◌^◌, ◌<◌, ◌≡◌, sym, subst, bit_and, arith, u8, u16, u64, shr,
}
use nebula_id.Prelude.Bits.{bit_and-mask}
use nebula_id.Types.UniqueId.{UniqueId, as_u128}
use nebula_id.Snowflake.{Snowflake, SnowflakeConfig, default_config, construct_id}
use nebula_id.Snowflake.Layout.{Fits, timestamp_bits, construct_id-value}

-- The numeric fields of `IdMetadataResponse`; the algorithm's name and the empty tag are constant.
pub record IdMetadata : Type 0 where
  pub timestamp : ℕ  -- u64
  pub datacenter_id : ℕ  -- u8
  pub worker_id : ℕ  -- u16
  pub sequence : ℕ  -- u16

extract_snowflake_metadata : UniqueId → IdMetadata
extract_snowflake_metadata id = record {
  timestamp = u64 (shr (as_u128 id) 21);
  datacenter_id = u8 (bit_and (shr (as_u128 id) 18) (2 ^ 3 - 1));
  worker_id = u16 (bit_and (shr (as_u128 id) 10) (2 ^ 8 - 1));
  sequence = u16 (bit_and (as_u128 id) (2 ^ 10 - 1));
}

-- Under the default widths, the handler reads back exactly the timestamp, datacenter, worker and
-- sequence number from which `construct_id` made the id, where each fits its field.
extract-construct_id :
    (s : Snowflake) (t q : ℕ)
    → s.config ≡ default_config
    → s.datacenter_id < 8
    → s.worker_id < 256
    → t < 2 ^ 43
    → q < 1024
    → extract_snowflake_metadata (construct_id s t q) ≡ record {
      timestamp = t;
      datacenter_id = s.datacenter_id;
      worker_id = s.worker_id;
      sequence = q;
    }
unfolding extract_snowflake_metadata
extract-construct_id s t q config hd hw ht hq =
    ground
      (arith, value, bit_and-mask 3 (v / 2 ^ 18), bit_and-mask 8 (v / 2 ^ 10), bit_and-mask 10 v)
  where
    back : (P : SnowflakeConfig → Type 0) → P default_config → P s.config
    back P = subst P (sym config)

    fits : Fits s
    fits = record {
      widths =
          back (λ c. c.datacenter_id_bits + c.worker_id_bits + c.sequence_bits < 64) (omega arith);
      datacenter = back (λ c. s.datacenter_id < 2 ^ c.datacenter_id_bits) hd;
      worker = back (λ c. s.worker_id < 2 ^ c.worker_id_bits) hw;
    }

    v : ℕ
    v = (construct_id s t q).value

    value : v ≡ ((t * 8 + s.datacenter_id) * 256 + s.worker_id) * 1024 + q
    value =
        subst
          (λ c.
            v
            ≡ ((t * 2 ^ c.datacenter_id_bits + s.datacenter_id) * 2 ^ c.worker_id_bits
                  + s.worker_id)
                * 2 ^ c.sequence_bits
              + q)
          config
          (construct_id-value s t q fits (back (λ c. t < 2 ^ timestamp_bits c) ht)
            (back (λ c. q < 2 ^ c.sequence_bits) hq))
