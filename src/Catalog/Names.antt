-- ===== src/Catalog/Names.antt =====
-- The names of the algorithms and formats, of src/core/types/id.rs. `lowercase` is the standard library's
-- `to_lowercase`.
use Prim.Native.String.{String}
use nebula_id.Prelude.{◌||◌, if◌then◌else◌}
use nebula_id.Prelude.Assoc.{string_eq}
use nebula_id.Types.{
  CoreError, invalid_algorithm_type, invalid_id_format, AlgorithmType, segment, snowflake, uuid_v7,
  uuid_v4,
}
use nebula_id.Catalog.{IdFormat, numeric, prefixed, uuid, Query, pure, raise}

unfoldable pub algorithm_name : AlgorithmType → String
algorithm_name segment = "segment"
algorithm_name snowflake = "snowflake"
algorithm_name uuid_v7 = "uuid_v7"
algorithm_name uuid_v4 = "uuid_v4"

unfoldable pub format_name : IdFormat → String
format_name numeric = "numeric"
format_name prefixed = "prefixed"
format_name uuid = "uuid"

module _ (lowercase : String → String) where
  unfoldable pub parse_algorithm : String → Query CoreError AlgorithmType
  parse_algorithm s =
      let n = lowercase s in
      if string_eq.same n "segment"
      then pure segment
      else if string_eq.same n "snowflake"
      then pure snowflake
      else if string_eq.same n "uuid_v7" || string_eq.same n "uuidv7" || string_eq.same n "uuid7"
      then pure uuid_v7
      else if string_eq.same n "uuid_v4" || string_eq.same n "uuidv4" || string_eq.same n "uuid4"
      then pure uuid_v4
      else raise (invalid_algorithm_type s)

  unfoldable pub parse_format : String → Query CoreError IdFormat
  parse_format s =
      let n = lowercase s in
      if string_eq.same n "numeric"
      then pure numeric
      else if string_eq.same n "prefixed"
      then pure prefixed
      else if string_eq.same n "uuid"
      then pure uuid
      else raise (invalid_id_format s)
