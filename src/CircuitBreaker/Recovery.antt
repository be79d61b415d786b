-- ===== src/CircuitBreaker/Recovery.antt =====
-- How long a breaker of src/core/algorithm/circuit_breaker.rs stays open, and how it closes again.
use nebula_id.Prelude.{
  ℕ, ◌+◌, ◌*◌, ◌≤◌, ◌<◌, ◌^◌, ◌≡◌, ◌≢◌, ◌↔◌, sym, ap, ◌∙◌, true, leb, arith, List, [], ◌∷◌, length,
  le→leb, leb→le,
}
use nebula_id.CircuitBreaker.{
  CircuitBreaker, state_closed, state_open, state_half_open, instant_to_nanos, nanos_per_ms,
  count_success, should_allow_request, on_success, on_failure,
}
use nebula_id.CircuitBreaker.Transitions.{on_failure-opens}

open_admits :
    (b : CircuitBreaker) (t : ℕ)
    → b.state ≡ state_open
    → 0 < b.next_attempt_at
    → (should_allow_request b t).0 ≡ leb b.next_attempt_at t
unfolding should_allow_request
open_admits b t h n = ground arith

-- After a failure of a breaker that is not half open, requests are refused until `timeout_ms` after
-- the opening has passed, and let in from then on.
pub opened_until :
    (b : CircuitBreaker) (now later t : ℕ)
    → b.state ≢ state_half_open
    → ((should_allow_request (on_failure b now later) t).0 ≡ true)
      ↔ (instant_to_nanos (later + b.config.timeout_ms * nanos_per_ms) ≤ t)
unfolding instant_to_nanos
opened_until b now later t h = (
  λ admitted. omega (arith, opened.1, leb→le next t (sym admits ∙ admitted)),
  λ due. admits ∙ le→leb next t (omega (arith, opened.1)),
)
  where
    next : ℕ
    next = (on_failure b now later).next_attempt_at

    opened :
        ((on_failure b now later).state ≡ state_open)
        × (next ≡ instant_to_nanos (later + b.config.timeout_ms * nanos_per_ms))
    opened = on_failure-opens b now later h

    admits : (should_allow_request (on_failure b now later) t).0 ≡ leb next t
    admits = open_admits (on_failure b now later) t opened.0 (omega (arith, opened.1))

-- `on_success` at each of the times.
pub successes : CircuitBreaker → List ℕ → CircuitBreaker
successes b [] = b
successes b (now ∷ times) = successes (on_success b now) times

on_success-early :
    (b : CircuitBreaker) (now : ℕ)
    → b.state ≡ state_half_open
    → b.consecutive_successes + 1 < b.config.success_threshold
    → b.config.success_threshold < 2 ^ 64
    → ((on_success b now).state ≡ state_half_open)
      × ((on_success b now).consecutive_successes ≡ b.consecutive_successes + 1)
      × ((on_success b now).config ≡ b.config)
unfolding on_success count_success
on_success-early b now h k small = ground arith

on_success-last :
    (b : CircuitBreaker) (now : ℕ)
    → b.state ≡ state_half_open
    → b.config.success_threshold ≡ b.consecutive_successes + 1
    → b.config.success_threshold < 2 ^ 64
    → ((on_success b now).state ≡ state_closed)
      × ((on_success b now).consecutive_successes ≡ 0)
      × ((on_success b now).consecutive_failures ≡ 0)
      × ((on_success b now).next_attempt_at ≡ 0)
unfolding on_success count_success
on_success-last b now h k small = ground arith

-- A half-open breaker closes with the success that brings its run up to the success threshold, not
-- before, and then starts with empty runs and no next attempt.
pub successes-close :
    (b : CircuitBreaker) (times : List ℕ) (last : ℕ)
    → b.state ≡ state_half_open
    → b.consecutive_successes + length times + 1 ≡ b.config.success_threshold
    → b.config.success_threshold < 2 ^ 64
    → ((successes b times).state ≡ state_half_open)
      × ((on_success (successes b times) last).state ≡ state_closed)
      × ((on_success (successes b times) last).consecutive_successes ≡ 0)
      × ((on_success (successes b times) last).consecutive_failures ≡ 0)
      × ((on_success (successes b times) last).next_attempt_at ≡ 0)
unfolding successes
successes-close b [] last h k small =
    let closes = on_success-last b last h (omega arith) small in
    (h, closes.0, closes.1, closes.2, closes.3)
successes-close b (now ∷ times) last h k small =
    let early = on_success-early b now h (omega arith) small in
    let same = ap (λ c. c.success_threshold) early.2 in
    successes-close (on_success b now) times last early.0 (omega (arith, early.1, same))
      (omega (arith, same))
