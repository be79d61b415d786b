-- ===== src/Snowflake/Tests.antt =====
-- Runs of src/core/algorithm/snowflake.rs on small inputs, and its theorems at such inputs.
use nebula_id.Prelude.{count_from, ℕ, ◌+◌, ◌*◌, ◌^◌, ◌≡◌, ◌≢◌, refl, [], ◌∷◌, map, arith}
use mathlib.Core.Bool.{Bool}
use nebula_id.Types.{CoreError}
use nebula_id.Types.UniqueId.{UniqueId, from_u128}
use nebula_id.Snowflake.{
  Snowflake, waiting, returned, failed, new, default_config, construct_id, generate_id,
  batch_generate, sequence_mask, is_healthy, count_generated,
}
use nebula_id.Snowflake.Layout.{Fits, first_of, construct_id-injective}
use nebula_id.Snowflake.Order.{Ready, floor, Advances, generate_id-Advances}
use nebula_id.Snowflake.Batch.{BatchAdvances, batch_generate-Advances}
use nebula_id.Snowflake.Progress.{generate_id-ends, passes}
use nebula_id.Snowflake.Throughput.{replicate, batch_generate-same}
use nebula_id.Snowflake.Exhaustion.{exhausted_duplicate, datacenter_collision}
use nebula_id.Snowflake.Race.{at_rest, Reach, issued, race_duplicate}

abbrev one : Snowflake
one = record {
  config = default_config;
  datacenter_id = 1;
  worker_id = 2;
  sequence = 5;
  last_timestamp = 100;
  rotation_count = 0;
  metrics = record {
    total_generated = 5;
    total_failed = 0;
    clock_backwards = 0;
    sequence_overflows = 0;
  };
  clock_drift_ms = 0;
}

one-Fits : Fits one
one-Fits = record { widths = omega arith; datacenter = omega arith; worker = omega arith }

one-Ready : Ready one
one-Ready = record { fits = one-Fits; counted = omega arith }

mask_value : sequence_mask default_config ≡ 1023
unfolding sequence_mask
mask_value = refl

id_value : construct_id (new 1 2) 100 5 ≡ from_u128 (100 * 2 ^ 21 + 2 ^ 18 + 2 * 2 ^ 10 + 5)
unfolding construct_id new
id_value = refl

generate_id-Advances_example : Advances (floor one) (generate_id one (100 ∷ []))
generate_id-Advances_example = generate_id-Advances one (100 ∷ []) one-Ready (omega arith)

batch_generate-Advances_example :
    BatchAdvances (floor one) (batch_generate one 3 (100 ∷ 99 ∷ 101 ∷ 101 ∷ []))
batch_generate-Advances_example =
    batch_generate-Advances one 3 (100 ∷ 99 ∷ 101 ∷ 101 ∷ []) one-Ready (omega arith)

construct_id-injective_example :
    (◌≡◌ {A = ℕ} 7 7)
    × (one.datacenter_id ≡ one.datacenter_id)
    × (one.worker_id ≡ one.worker_id)
    × (◌≡◌ {A = ℕ} 3 3)
construct_id-injective_example =
    construct_id-injective one one 7 7 3 3 refl one-Fits one-Fits (omega arith) (omega arith)
      (omega arith) (omega arith) refl

batch_generate-same_example :
    (s' : Snowflake) × (batch_generate one 4 (replicate 4 200)
      ≡ returned (map from_u128 (count_from (first_of one 200) 4)) s' [])
batch_generate-same_example =
    batch_generate-same one 4 200 one-Fits (omega arith) (omega arith) (omega arith)

generate_id-ends_example : generate_id one (90 ∷ 100 ∷ 101 ∷ []) ≢ waiting one
unfolding passes
generate_id-ends_example = generate_id-ends one one 90 (100 ∷ 101 ∷ []) refl

-- 2000 ms behind, over the threshold of 1000 ms.
abbrev ahead : Snowflake
ahead = record one { last_timestamp = 3000 }

abbrev ahead_after : Snowflake
ahead_after = record ahead {
  clock_drift_ms = 2000;
  metrics = record {
    total_generated = 5;
    total_failed = 0;
    clock_backwards = 1;
    sequence_overflows = 0;
  };
}

ahead_fails :
    generate_id ahead (1000 ∷ []) ≡ failed (CoreError.clock_moved_backward 3000) ahead_after []
unfolding generate_id
ahead_fails = refl

exhausted_duplicate_example :
    (id : UniqueId) × (s₁ : Snowflake) × (s₂ : Snowflake) × (s₃ : Snowflake) × (generate_id
        (record one { sequence = 1 })
        (100 ∷ [])
      ≡ returned id s₁ [])
    × (generate_id (record one { sequence = 1024 }) (100 ∷ []) ≡ waiting s₂)
    × (generate_id s₂ (100 ∷ []) ≡ returned id s₃ [])
exhausted_duplicate_example = exhausted_duplicate one one-Fits (omega arith) (omega arith)

datacenter_collision_example : construct_id (new 8 2) 100 5 ≡ construct_id (new 0 2) 101 5
datacenter_collision_example = datacenter_collision 50 0 2 5 (omega arith) (omega arith)

race_duplicate_example :
    (s' : Snowflake) × Reach (at_rest one) (record {
      shared = s';
      first = issued 101 (construct_id one 101 0);
      second = issued 101 (construct_id one 101 0);
    })
race_duplicate_example = race_duplicate one 101 (omega arith)

one_returns :
    generate_id one (100 ∷ [])
    ≡ returned (construct_id one 100 5) (count_generated (record one { sequence = 6 })) []
unfolding generate_id count_generated construct_id
one_returns = refl

-- The drift of a failed call is kept after later calls succeed, so `health_check` stays unhealthy.
stays_unhealthy :
    (s : Snowflake) × (generate_id ahead_after (3001 ∷ [])
      ≡ returned (construct_id ahead 3001 0) s [])
    × (is_healthy s ≡ Bool.false)
unfolding generate_id construct_id is_healthy
stays_unhealthy = (_, refl, refl)
