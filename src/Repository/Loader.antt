-- ===== src/Repository/Loader.antt =====
-- src/core/algorithm/segment.rs: the segment loaders, over the allocation of segments and the failure
-- detector, for one caller at a time.
--
-- The step that `StepCalculator` computes in floating point is an argument. `shown` is the text of an
-- error.
use Prim.Native.String.{String}
use nebula_id.Prelude.{ℕ, ◌+◌, ◌*◌, Option, none, some}
use nebula_id.Prelude.Assoc.{nat_eq, put}
use nebula_id.Prelude.Int.{as_i32, as_u64}
use nebula_id.Types.{CoreError, Result, ok, err}
use nebula_id.Segment.{SegmentData}
use nebula_id.DcFailure.{
  DcHealthState, DcFailureDetector, select_best_dc, get_dc_state, record_success, record_failure,
}
use nebula_id.Repository.{SegmentInfo, Database, allocate_segment, allocate_segment_with_dc}

-- `SegmentData` from `SegmentInfo`, as both loaders build it.
unfoldable pub segment_data : SegmentInfo → SegmentData
segment_data s = record {
  start_id = as_u64 s.current_id;
  max_id = as_u64 s.max_id;
  step = s.step;
  version = 0;
}

-- `DefaultSegmentLoader::load_segment`, at a reading of the clock in seconds.
unfoldable pub default_segment : ℕ → SegmentData
default_segment timestamp = record {
  start_id = timestamp * 10000;
  max_id = timestamp * 10000 + 1000000;
  step = 1000;
  version = 0;
}

module _ (shown : CoreError → String) where
  unfoldable pub loaded : Result SegmentInfo → Result SegmentData
  loaded (ok s) = ok (segment_data s)
  loaded (err e) = err (CoreError.database_error (shown e))

  -- `RepositoryBackedLoader::load_segment`
  pub load_base : Option String → ℕ → String → String → ℕ → Database → Result SegmentData × Database
  load_base fault default_dc workspace_id biz_tag base_step db =
      let done = allocate_segment fault default_dc workspace_id biz_tag (as_i32 base_step) db in
      (loaded done.0, done.1)

  -- The outcome is recorded with the datacenter.
  record_outcome :
      {A : Type 0} → ℕ → ℕ → DcHealthState → Result A → DcFailureDetector → DcFailureDetector
  record_outcome now dc_id s (ok a) d = record d {
    dc_states = put dc_id (record_success now s) d.dc_states;
  }
  record_outcome now dc_id s (err e) d = record d {
    dc_states = put dc_id (record_failure s) d.dc_states;
  }

  -- `DatabaseSegmentLoader::load_segment`
  pub load_segment :
      ℕ
      → Option String
      → ℕ
      → String
      → String
      → ℕ
      → ℕ
      → DcFailureDetector
      → Database
      → Result SegmentData × (DcFailureDetector × Database)
  unfolding record_outcome
  load_segment now fault default_dc workspace_id biz_tag step local_dc_id d db =
      let dc_id = select_best_dc d local_dc_id in
      elim (get_dc_state d dc_id) [
        | some s ↦
            let done = allocate_segment_with_dc fault workspace_id biz_tag (as_i32 step) dc_id db in
            (loaded done.0, (record_outcome now dc_id s done.0 d, done.1))
        | none ↦
            let done = allocate_segment fault default_dc workspace_id biz_tag (as_i32 step) db in
            (loaded done.0, (d, done.1))
      ]
