-- ===== src/CircuitBreaker.antt =====
-- src/core/algorithm/circuit_breaker.rs: the breaker with its operations as state passing, one
-- caller at a time. An `Instant` is a number of nanoseconds since the global start instant and an
-- argument of each operation that reads the clock; log lines and the `Arc`s are left out.
pub mod Transitions
pub mod Invariant
pub mod Recovery
mod Tests
use Prim.Native.String.{String}
use nebula_id.Prelude.{
  ℕ, zero, suc, ◌+◌, ◌-◌, ◌*◌, ◌%◌, ◌^◌, ◌≤◌, ◌<◌, ◌≡◌, Bool, true, false, not, ◌&&◌, ◌||◌, Option,
  none, some, max, u64, ltb, leb, ◌==◌, if◌then◌else◌,
}

pub data CircuitBreakerState : Type 0 where
  closed half_open open_state : CircuitBreakerState

abbrev pub state_closed : ℕ
state_closed = 0

abbrev pub state_open : ℕ
state_open = 1

abbrev pub state_half_open : ℕ
state_half_open = 2

unfoldable pub state_to_u8 : CircuitBreakerState → ℕ
state_to_u8 closed = state_closed
state_to_u8 open_state = state_open
state_to_u8 half_open = state_half_open

unfoldable pub u8_to_state : ℕ → CircuitBreakerState
u8_to_state v =
    if v == state_open then open_state else if v == state_half_open then half_open else closed

-- Never 0, which stands for "not set".
unfoldable pub instant_to_nanos : ℕ → ℕ
instant_to_nanos i = max (u64 i) 1

unfoldable pub nanos_to_instant : ℕ → Option ℕ
nanos_to_instant n = if n == 0 then none else some n

pub record CircuitBreakerConfig : Type 0 where
  pub failure_threshold : ℕ
  pub success_threshold : ℕ
  pub timeout_ms : ℕ
  pub window_size_seconds : ℕ
  pub min_requests : ℕ

abbrev pub default_config : CircuitBreakerConfig
default_config = record {
  failure_threshold = 5;
  success_threshold = 3;
  timeout_ms = 30000;
  window_size_seconds = 60;
  min_requests = 10;
}

pub record CircuitBreaker : Type 0 where
  pub config : CircuitBreakerConfig
  pub state : ℕ  -- AtomicU8
  pub consecutive_failures : ℕ
  pub consecutive_successes : ℕ
  pub total_requests : ℕ
  pub successful_requests : ℕ
  pub failed_requests : ℕ
  pub window_requests : ℕ
  pub window_failures : ℕ
  pub window_start : ℕ
  pub last_failure_at : ℕ
  pub last_success_at : ℕ
  pub next_attempt_at : ℕ

unfoldable pub new : CircuitBreakerConfig → ℕ → CircuitBreaker
unfolding instant_to_nanos
new config now = record {
  config = config;
  state = state_closed;
  consecutive_failures = 0;
  consecutive_successes = 0;
  total_requests = 0;
  successful_requests = 0;
  failed_requests = 0;
  window_requests = 0;
  window_failures = 0;
  window_start = instant_to_nanos now;
  last_failure_at = 0;
  last_success_at = 0;
  next_attempt_at = 0;
}

-- `fetch_add(1)` on an `AtomicU64`.
abbrev pub bump : ℕ → ℕ
bump n = u64 (n + 1)

-- Whether the request may pass, and the breaker after the attempt.
pub should_allow_request : CircuitBreaker → ℕ → Bool × CircuitBreaker
unfolding nanos_to_instant
should_allow_request b now =
    if b.state == state_closed
    then (true, b)
    else if b.state == state_open
    then if b.next_attempt_at == 0 then (false, b) else elim (nanos_to_instant b.next_attempt_at) [
      | none ↦ (false, b)
      | some next_attempt ↦
          if leb next_attempt now then (true, record b { state = state_half_open }) else (false, b)
    ]
    else (true, b)

-- The counters that every success updates.
count_success : CircuitBreaker → ℕ → CircuitBreaker
unfolding instant_to_nanos
count_success b now = record b {
  total_requests = bump b.total_requests;
  successful_requests = bump b.successful_requests;
  window_requests = bump b.window_requests;
  last_success_at = instant_to_nanos now;
  consecutive_successes = bump b.consecutive_successes;
  consecutive_failures = 0;
}

pub on_success : CircuitBreaker → ℕ → CircuitBreaker
unfolding count_success
on_success b now =
    let counted = count_success b now in
    if counted.state == state_half_open
      && leb b.config.success_threshold (u64 (b.consecutive_successes + 1))
    then record counted {
      state = state_closed;
      consecutive_failures = 0;
      consecutive_successes = 0;
      next_attempt_at = 0;
    }
    else counted

-- The counters that every failure updates.
count_failure : CircuitBreaker → ℕ → CircuitBreaker
unfolding instant_to_nanos
count_failure b now = record b {
  total_requests = bump b.total_requests;
  failed_requests = bump b.failed_requests;
  window_requests = bump b.window_requests;
  window_failures = bump b.window_failures;
  last_failure_at = instant_to_nanos now;
  consecutive_failures = bump b.consecutive_failures;
  consecutive_successes = 0;
}

abbrev pub nanos_per_second : ℕ
nanos_per_second = 1_000_000_000

abbrev pub nanos_per_ms : ℕ
nanos_per_ms = 1_000_000

-- An expired window starts anew; `duration_since` is 0 for an instant that lies ahead.
expire_window : CircuitBreaker → ℕ → CircuitBreaker
unfolding nanos_to_instant instant_to_nanos
expire_window b now = elim (nanos_to_instant b.window_start) [
  | none ↦ b
  | some window_start ↦
      if ltb (b.config.window_size_seconds * nanos_per_second) (now - window_start)
      then record b {
        window_requests = 0;
        window_failures = 0;
        window_start = instant_to_nanos now;
      }
      else b
]

-- The comparison of the floating-point failure rate with 0.5, which is exact for counts under
-- 2 ^ 53: with no requests it is false, as `NaN > 0.5` is.
abbrev pub over_half : ℕ → ℕ → Bool
over_half failures requests = ltb requests (2 * failures)

should_open : CircuitBreaker → Bool
should_open b =
    leb b.config.failure_threshold b.consecutive_failures
    || (leb b.config.min_requests b.window_requests
        && over_half b.window_failures b.window_requests)

pub transition_to_open : CircuitBreaker → ℕ → CircuitBreaker
unfolding instant_to_nanos
transition_to_open b now = record b {
  state = state_open;
  next_attempt_at = instant_to_nanos (now + b.config.timeout_ms * nanos_per_ms);
}

-- The decision at the end of `on_failure`, on the updated counters.
open_on_failure : CircuitBreaker → ℕ → CircuitBreaker
open_on_failure b later =
    if should_open b || not (b.state == state_half_open) then transition_to_open b later else b

-- `now` is the reading of `on_failure`, `later` that of `transition_to_open`.
pub on_failure : CircuitBreaker → ℕ → ℕ → CircuitBreaker
on_failure b now later = open_on_failure (expire_window (count_failure b now) now) later

-- How `execute` ends: refused by the breaker, or with the operation's own outcome.
pub data Executed : Type 0 where
  refused succeeded failed : Executed

-- `operation` is whether the operation would succeed; the readings are those of the admission, of
-- the callback and of the opening.
pub execute : CircuitBreaker → Bool → ℕ → ℕ → ℕ → Executed × CircuitBreaker
execute b operation asked ended later =
    let (allowed, b') = should_allow_request b asked in
    if not allowed
    then (refused, b')
    else if operation
    then (succeeded, on_success b' ended)
    else (failed, on_failure b' ended later)

pub transition_to_half_open : CircuitBreaker → CircuitBreaker
transition_to_half_open b =
    if b.state == state_half_open
    then b
    else record b { state = state_half_open; consecutive_successes = 0; consecutive_failures = 0 }

pub transition_to_closed : CircuitBreaker → CircuitBreaker
transition_to_closed b = if b.state == state_closed then b else record b {
  state = state_closed;
  consecutive_failures = 0;
  consecutive_successes = 0;
  next_attempt_at = 0;
}

pub reset : CircuitBreaker → CircuitBreaker
reset b = record b {
  state = state_closed;
  consecutive_failures = 0;
  consecutive_successes = 0;
  window_requests = 0;
  window_failures = 0;
  last_failure_at = 0;
  last_success_at = 0;
  next_attempt_at = 0;
}
