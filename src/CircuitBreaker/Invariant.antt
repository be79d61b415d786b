-- ===== src/CircuitBreaker/Invariant.antt =====
-- What every history of operations keeps true of a breaker of src/core/algorithm/circuit_breaker.rs.
use nebula_id.Prelude.{ℕ, ◌+◌, ◌≤◌, ◌<◌, ◌^◌, ◌≡◌, ◌⊎◌, arith, List, [], ◌∷◌, length}
use nebula_id.CircuitBreaker.{
  CircuitBreaker, CircuitBreakerConfig, state_open, new, count_failure, expire_window,
  open_on_failure, transition_to_open, should_allow_request, on_success, on_failure,
  transition_to_half_open, transition_to_closed, reset,
}

pub record Inv (b : CircuitBreaker) : Type 0 where
  pub coded : b.state ≤ 2
  pub accounted : b.successful_requests + b.failed_requests ≡ b.total_requests
  pub window : b.window_failures ≤ b.window_requests
  pub windowed : b.window_requests ≤ b.total_requests
  pub one_run : (b.consecutive_failures ≡ 0) ⊎ (b.consecutive_successes ≡ 0)
  pub scheduled : b.state ≡ state_open → 0 < b.next_attempt_at

-- The operations that change a breaker, with their clock readings.
pub data Op : Type 0 where
  asks succeeds : (now : ℕ) → Op
  fails : (now later : ℕ) → Op
  half_opens closes resets : Op

pub step : CircuitBreaker → Op → CircuitBreaker
step b (asks now) = (should_allow_request b now).1
step b (succeeds now) = on_success b now
step b (fails now later) = on_failure b now later
step b half_opens = transition_to_half_open b
step b closes = transition_to_closed b
step b resets = reset b

unfoldable pub run : CircuitBreaker → List Op → CircuitBreaker
run b [] = b
run b (op ∷ ops) = run (step b op) ops

-- Room for one more request in the 64-bit counters.
abbrev Room : CircuitBreaker → ℕ → Type 0
Room b n = b.total_requests + n < 2 ^ 64

-- The breaker after a step has taken up at most one request.
abbrev Grown : CircuitBreaker → CircuitBreaker → Type 0
Grown b c = Inv c × (c.total_requests ≤ b.total_requests + 1)

asks-Grown : (b : CircuitBreaker) (now : ℕ) → Inv b → Grown b (should_allow_request b now).1
unfolding should_allow_request
asks-Grown b now v = ground arith

succeeds-Grown : (b : CircuitBreaker) (now : ℕ) → Room b 1 → Inv b → Grown b (on_success b now)
unfolding on_success
succeeds-Grown b now room v = ground arith

count_failure-Grown :
    (b : CircuitBreaker) (now : ℕ) → Room b 1 → Inv b → Grown b (count_failure b now)
unfolding count_failure
count_failure-Grown b now room v = ground arith

expire_window-Inv :
    (b : CircuitBreaker) (now : ℕ)
    → Inv b
    → Inv (expire_window b now) × ((expire_window b now).total_requests ≡ b.total_requests)
unfolding expire_window
expire_window-Inv b now v = ground arith

open_on_failure-Inv :
    (b : CircuitBreaker) (later : ℕ)
    → Inv b
    → Inv (open_on_failure b later) × ((open_on_failure b later).total_requests ≡ b.total_requests)
unfolding open_on_failure transition_to_open
open_on_failure-Inv b later v = ground arith

fails-Grown :
    (b : CircuitBreaker) (now later : ℕ) → Room b 1 → Inv b → Grown b (on_failure b now later)
unfolding on_failure
fails-Grown b now later room v =
    let counted = count_failure-Grown b now room v in
    let aged = expire_window-Inv (count_failure b now) now counted.0 in
    let ended = open_on_failure-Inv (expire_window (count_failure b now) now) later aged.0 in
    (ended.0, omega (arith, ended.1, aged.1, counted.1))

half_opens-Grown : (b : CircuitBreaker) → Inv b → Grown b (transition_to_half_open b)
unfolding transition_to_half_open
half_opens-Grown b v = ground arith

closes-Grown : (b : CircuitBreaker) → Inv b → Grown b (transition_to_closed b)
unfolding transition_to_closed
closes-Grown b v = ground arith

resets-Grown : (b : CircuitBreaker) → Inv b → Grown b (reset b)
unfolding reset
resets-Grown b v = ground arith

step-Grown : (b : CircuitBreaker) (op : Op) → Room b 1 → Inv b → Grown b (step b op)
unfolding step
step-Grown b (asks now) room v = asks-Grown b now v
step-Grown b (succeeds now) room v = succeeds-Grown b now room v
step-Grown b (fails now later) room v = fails-Grown b now later room v
step-Grown b half_opens room v = half_opens-Grown b v
step-Grown b closes room v = closes-Grown b v
step-Grown b resets room v = resets-Grown b v

run-Inv_from : (b : CircuitBreaker) (ops : List Op) → Room b (length ops) → Inv b → Inv (run b ops)
unfolding run
run-Inv_from b [] room v = v
run-Inv_from b (op ∷ ops) room v =
    let next = step-Grown b op (omega arith) v in
    run-Inv_from (step b op) ops (omega (arith, next.1)) next.0

new-Inv : (config : CircuitBreakerConfig) (now : ℕ) → Inv (new config now)
unfolding new
new-Inv config now = ground arith

-- In every history of fewer than 2 ^ 64 operations from a new breaker: the state code is one of the
-- three, every request counts as a success or as a failure, the failures of the window are at most
-- its requests, which are at most all requests, no run of failures and run of successes stand side
-- by side, and an open breaker has a next attempt set, so it is never stuck open.
pub run-Inv :
    (config : CircuitBreakerConfig) (now : ℕ) (ops : List Op)
    → length ops < 2 ^ 64
    → Inv (run (new config now) ops)
unfolding new
run-Inv config now ops room = run-Inv_from (new config now) ops (omega arith) (new-Inv config now)
