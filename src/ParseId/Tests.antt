-- ===== src/ParseId/Tests.antt =====
-- The parse handler of src/server/handlers/id_handlers.rs at a concrete id.
use nebula_id.Prelude.{◌≡◌, refl, arith}
use nebula_id.Snowflake.{new, construct_id}
use nebula_id.ParseId.{extract_snowflake_metadata, extract-construct_id}

extract-construct_id_example :
    extract_snowflake_metadata (construct_id (new 5 200) 123456 77)
    ≡ record { timestamp = 123456; datacenter_id = 5; worker_id = 200; sequence = 77 }
unfolding new
extract-construct_id_example =
    extract-construct_id (new 5 200) 123456 77 refl (omega arith) (omega arith) (omega arith)
      (omega arith)
