-- ===== src/CircuitBreaker/Tests.antt =====
-- Runs of src/core/algorithm/circuit_breaker.rs, and its theorems at concrete inputs.
use nebula_id.Prelude.{◌≡◌, refl, false, [], ◌∷◌, arith}
use nebula_id.CircuitBreaker.{
  CircuitBreaker, CircuitBreakerState, closed, half_open, open_state, state_closed, state_half_open,
  state_to_u8, u8_to_state, default_config, new, on_failure, open_on_failure, should_open,
  expire_window, count_failure, execute,
}
use nebula_id.CircuitBreaker.Transitions.{Ended, execute-Ended}
use nebula_id.CircuitBreaker.Invariant.{Inv, asks, succeeds, fails, resets, run, run-Inv}

-- Closed, at its defaults: five failures are to open it.
abbrev fresh : CircuitBreaker
fresh = record {
  config = default_config;
  state = state_closed;
  consecutive_failures = 0;
  consecutive_successes = 0;
  total_requests = 0;
  successful_requests = 0;
  failed_requests = 0;
  window_requests = 0;
  window_failures = 0;
  window_start = 1;
  last_failure_at = 0;
  last_success_at = 0;
  next_attempt_at = 0;
}

abbrev probing : CircuitBreaker
probing = record fresh { state = state_half_open }

new-fresh : new default_config 0 ≡ fresh
unfolding new
new-fresh = refl

state_codes : (s : CircuitBreakerState) → u8_to_state (state_to_u8 s) ≡ s
unfolding u8_to_state state_to_u8
state_codes closed = refl
state_codes half_open = refl
state_codes open_state = refl

half_open_stays : (on_failure probing 7 8).state ≡ state_half_open
unfolding on_failure open_on_failure should_open expire_window count_failure
half_open_stays = refl

execute-Ended_example : Ended fresh (execute fresh false 5 6 7)
execute-Ended_example = execute-Ended fresh false 5 6 7

run-Inv_example : Inv (run (new default_config 0) (fails 1 2 ∷ asks 3 ∷ succeeds 4 ∷ resets ∷ []))
run-Inv_example =
    run-Inv default_config 0 (fails 1 2 ∷ asks 3 ∷ succeeds 4 ∷ resets ∷ []) (omega arith)
