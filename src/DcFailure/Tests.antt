-- ===== src/DcFailure/Tests.antt =====
-- Runs of the failure detector of src/core/algorithm/segment.rs, and its theorems at concrete inputs.
use nebula_id.Prelude.{◌≡◌, refl, [], ◌∷◌, arith}
use nebula_id.Prelude.Assoc.{nat_eq, get}
use nebula_id.DcFailure.{
  get_dc_state, first_of_or, get_healthy_dcs, healthy_among, DcHealthState, DcFailureDetector,
  new_dc, get_status, record_failure, should_use_dc, select_best_dc,
}
use nebula_id.DcFailure.Status.{apply, Graded, succeeds, fails, waits, run, run-Graded}

abbrev fifth_failure : DcHealthState
fifth_failure = record {
  dc_id = 1;
  status = 2;
  last_success = 10;
  failure_count = 5;
  consecutive_failures = 5;
}

fifth_failure-run : run (fails ∷ fails ∷ fails ∷ fails ∷ fails ∷ []) (new_dc 10 1) ≡ fifth_failure
unfolding run apply new_dc record_failure
fifth_failure-run = refl

-- The second datacenter is known, the first has failed.
abbrev two_dcs : DcFailureDetector
two_dcs = record {
  dc_states =
      (1, fifth_failure)
      ∷ (
        2,
        record {
          dc_id = 2;
          status = 0;
          last_success = 10;
          failure_count = 0;
          consecutive_failures = 0;
        },
      )
      ∷ [];
  failure_threshold = 5;
  recovery_timeout = 300;
}

two_dcs-second : select_best_dc two_dcs 1 ≡ 2
unfolding select_best_dc should_use_dc get_status get_dc_state get first_of_or get_healthy_dcs
    healthy_among
two_dcs-second = refl

run-Graded_example :
    Graded
      (get_status (run (fails ∷ fails ∷ waits 9 3 ∷ fails ∷ succeeds 20 ∷ []) (new_dc 10 1)))
      (run
        (fails ∷ fails ∷ waits 9 3 ∷ fails ∷ succeeds 20 ∷ [])
        (new_dc 10 1)).consecutive_failures
run-Graded_example =
    run-Graded (fails ∷ fails ∷ waits 9 3 ∷ fails ∷ succeeds 20 ∷ []) 10 1 (omega arith)
