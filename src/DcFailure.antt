-- ===== src/DcFailure.antt =====
-- src/core/algorithm/segment.rs: `DcHealthState` and `DcFailureDetector`, for one caller at a time.
--
-- Instants are nanoseconds. The map of the datacenters is an association list, gone through in its
-- order. The periodic task is a call of `check_recovery` at each tick.
pub mod Status
pub mod Selection
mod Tests
use nebula_id.Prelude.{
  ℕ, ◌+◌, ◌-◌, ◌*◌, ◌≡◌, Bool, true, false, List, [], ◌∷◌, map, Option, none, some, u64, ltb, leb,
  ◌==◌, if◌then◌else◌,
}
use nebula_id.Prelude.Assoc.{nat_eq, get, put}

pub data DcStatus : Type 0 where
  healthy degraded failed : DcStatus

pub record DcHealthState : Type 0 where
  pub dc_id : ℕ
  pub status : ℕ
  pub last_success : ℕ
  pub failure_count : ℕ
  pub consecutive_failures : ℕ

pub new_dc : ℕ → ℕ → DcHealthState
new_dc now dc_id = record {
  dc_id = dc_id;
  status = 0;
  last_success = now;
  failure_count = 0;
  consecutive_failures = 0;
}

pub get_status : DcHealthState → DcStatus
get_status s =
    if s.status == 0
    then DcStatus.healthy
    else if s.status == 1
    then DcStatus.degraded
    else DcStatus.failed

status_code : DcStatus → ℕ
status_code DcStatus.healthy = 0
status_code DcStatus.degraded = 1
status_code DcStatus.failed = 2

pub set_status : DcHealthState → DcStatus → DcHealthState
unfolding status_code
set_status s status = record s { status = status_code status }

pub record_success : ℕ → DcHealthState → DcHealthState
unfolding set_status
record_success now s =
    let s' = record s { last_success = now; consecutive_failures = 0 } in
    elim (get_status s') [ healthy ↦ s' | _ ↦ set_status s' DcStatus.healthy ]

pub record_failure : DcHealthState → DcHealthState
unfolding set_status
record_failure s =
    let consecutive = u64 (s.consecutive_failures + 1) in
    let s' = record s {
      failure_count = u64 (s.failure_count + 1);
      consecutive_failures = u64 (s.consecutive_failures + 1);
    } in
    if leb 5 consecutive
    then set_status s' DcStatus.failed
    else if leb 3 consecutive
    then set_status s' DcStatus.degraded
    else s'

pub should_use_dc : DcHealthState → Bool
should_use_dc s = elim (get_status s) [ failed ↦ false | _ ↦ true ]

abbrev pub Dcs : Type 0
Dcs = List (ℕ × DcHealthState)

pub record DcFailureDetector : Type 0 where
  pub dc_states : Dcs
  pub failure_threshold : ℕ
  pub recovery_timeout : ℕ

pub new_detector : ℕ → ℕ → DcFailureDetector
new_detector failure_threshold recovery_timeout = record {
  dc_states = [];
  failure_threshold = failure_threshold;
  recovery_timeout = recovery_timeout;
}

-- A datacenter that is known keeps its state.
pub add_dc : ℕ → ℕ → DcFailureDetector → DcFailureDetector
add_dc now dc_id d = elim (get dc_id d.dc_states) [
  | none ↦ record d { dc_states = put dc_id (new_dc now dc_id) d.dc_states }
  | some s ↦ d
]

pub get_dc_state : DcFailureDetector → ℕ → Option DcHealthState
get_dc_state d dc_id = get dc_id d.dc_states

healthy_among : Dcs → List ℕ
healthy_among [] = []
healthy_among ((dc_id, s) ∷ dcs) =
    if should_use_dc s then dc_id ∷ healthy_among dcs else healthy_among dcs

pub get_healthy_dcs : DcFailureDetector → List ℕ
get_healthy_dcs d = healthy_among d.dc_states

first_of_or : ℕ → List ℕ → ℕ
first_of_or preferred_dc [] = preferred_dc
first_of_or preferred_dc (dc_id ∷ dcs) = dc_id

pub select_best_dc : DcFailureDetector → ℕ → ℕ
select_best_dc d preferred_dc = elim (get_dc_state d preferred_dc) [
  | none ↦ first_of_or preferred_dc (get_healthy_dcs d)
  | some s ↦ if should_use_dc s then preferred_dc else first_of_or preferred_dc (get_healthy_dcs d)
]

-- `duration_since` stops at 0.
pub recover_dc : ℕ → ℕ → DcHealthState → DcHealthState
unfolding set_status
recover_dc now recovery_timeout s = elim (get_status s) [
  | failed ↦
      if ltb recovery_timeout (now - s.last_success) then set_status s DcStatus.degraded else s
  | _ ↦ s
]

pub check_recovery : ℕ → DcFailureDetector → DcFailureDetector
check_recovery now d = record d {
  dc_states = map (λ e. (e.0, recover_dc now d.recovery_timeout e.1)) d.dc_states;
}
