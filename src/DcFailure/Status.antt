-- ===== src/DcFailure/Status.antt =====
-- What the status of a datacenter says of its failures.
use nebula_id.Prelude.{ℕ, suc, ◌+◌, ◌≤◌, ◌<◌, ◌^◌, ◌≡◌, true, false, List, [], ◌∷◌, length, arith}
use nebula_id.DcFailure.{
  DcStatus, DcHealthState, new_dc, get_status, record_success, record_failure, recover_dc,
  should_use_dc, set_status, status_code,
}

pub data Event : Type 0 where
  succeeds : (now : ℕ) → Event
  fails : Event
  waits : (now recovery_timeout : ℕ) → Event

unfoldable pub apply : Event → DcHealthState → DcHealthState
apply (succeeds now) s = record_success now s
apply fails s = record_failure s
apply (waits now recovery_timeout) s = recover_dc now recovery_timeout s

unfoldable pub run : List Event → DcHealthState → DcHealthState
run [] s = s
run (e ∷ events) s = run events (apply e s)

-- How many failures in a row a status stands for.
abbrev pub Graded : DcStatus → ℕ → Type 0
Graded DcStatus.healthy failures = failures < 3
Graded DcStatus.degraded failures = 3 ≤ failures
Graded DcStatus.failed failures = 5 ≤ failures

abbrev pub Inv : ℕ → DcHealthState → Type 0
Inv bound s = Graded (get_status s) s.consecutive_failures × (s.consecutive_failures ≤ bound)

apply-Inv :
    (bound : ℕ) (e : Event) (s : DcHealthState)
    → suc bound < 2 ^ 64
    → Inv bound s
    → Inv (suc bound) (apply e s)
unfolding apply record_success record_failure recover_dc get_status set_status status_code
apply-Inv bound (succeeds now) s small inv = ground arith
apply-Inv bound fails s small inv = ground arith
apply-Inv bound (waits now recovery_timeout) s small inv = ground arith

run_from-Inv :
    (events : List Event) (bound : ℕ) (s : DcHealthState)
    → bound + length events < 2 ^ 64
    → Inv bound s
    → Inv (bound + length events) (run events s)
unfolding run
run_from-Inv [] bound s small inv = (inv.0, omega (arith, inv.1))
run_from-Inv (e ∷ events) bound s small inv =
    let rest =
      run_from-Inv events (suc bound) (apply e s) (omega arith)
        (apply-Inv bound e s (omega arith) inv) in
    (rest.0, omega (arith, rest.1))

-- In every history of fewer than 2 ^ 64 events of a datacenter, it is healthy only with fewer than
-- three failures in a row, degraded only with at least three, and failed only with at least five.
pub run-Graded :
    (events : List Event) (now dc_id : ℕ)
    → length events < 2 ^ 64
    → Graded
        (get_status (run events (new_dc now dc_id)))
        (run events (new_dc now dc_id)).consecutive_failures
unfolding new_dc get_status
run-Graded events now dc_id small =
    (run_from-Inv events 0 (new_dc now dc_id) (omega arith) (omega arith, omega arith)).0

-- A failed datacenter with at least five failures in a row is not used. Once the recovery timeout
-- since its last success has passed, the recovery check lets it be used, and the next failure takes it
-- out again, while a success makes it healthy with no failures in a row.
recover_dc-record_failure :
    (now recovery_timeout : ℕ) (s : DcHealthState)
    → get_status s ≡ DcStatus.failed
    → 5 ≤ s.consecutive_failures
    → s.consecutive_failures + 1 < 2 ^ 64
    → s.last_success + recovery_timeout < now
    → (should_use_dc s ≡ false)
      × (should_use_dc (recover_dc now recovery_timeout s) ≡ true)
      × (should_use_dc (record_failure (recover_dc now recovery_timeout s)) ≡ false)
      × (get_status (record_success now (recover_dc now recovery_timeout s)) ≡ DcStatus.healthy)
      × ((record_success now (recover_dc now recovery_timeout s)).consecutive_failures ≡ 0)
unfolding should_use_dc record_success record_failure recover_dc get_status set_status status_code
recover_dc-record_failure now recovery_timeout s failed many small late =
    (ground arith, ground arith, ground arith, ground arith, ground arith)
