-- ===== src/CircuitBreaker/Transitions.antt =====
-- The state in which each operation of src/core/algorithm/circuit_breaker.rs leaves a breaker.
use native.Mathlib.Decide.{ℕ_discrete}
use nebula_id.Prelude.{
  ℕ, ◌+◌, ◌*◌, ◌<◌, ◌≡◌, ◌≢◌, ◌⊎◌, inl, inr, sym, Bool, true, false, u64, arith, ap, ◌∙◌,
  if◌then◌else◌, Bool-cases, leb,
}
use nebula_id.CircuitBreaker.{
  CircuitBreaker, state_closed, state_open, state_half_open, instant_to_nanos, nanos_per_ms,
  count_success, count_failure, expire_window, should_open, open_on_failure, transition_to_open,
  should_allow_request, on_success, on_failure, execute, Executed, refused, succeeded, failed,
}

counted_window :
    (b : CircuitBreaker) (now : ℕ)
    → let c = expire_window (count_failure b now) now in
      (c.config ≡ b.config)
      × (c.state ≡ b.state)
      × (c.consecutive_failures ≡ u64 (b.consecutive_failures + 1))
unfolding expire_window count_failure
counted_window b now = ground arith

open_on_failure-state :
    (b : CircuitBreaker) (later : ℕ)
    → ((open_on_failure b later).state ≡ b.state) ⊎ ((open_on_failure b later).state ≡ state_open)
unfolding open_on_failure transition_to_open
open_on_failure-state b later = ground arith

open_on_failure-opens :
    (b : CircuitBreaker) (later : ℕ)
    → b.state ≢ state_half_open
    → open_on_failure b later ≡ transition_to_open b later
unfolding open_on_failure
open_on_failure-opens b later h = ground arith

-- A failure of a breaker that is not half open opens it, whatever its thresholds, its counters and
-- its window are, and sets the next attempt to `timeout_ms` after the opening.
pub on_failure-opens :
    (b : CircuitBreaker) (now later : ℕ)
    → b.state ≢ state_half_open
    → ((on_failure b now later).state ≡ state_open)
      × ((on_failure b now later).next_attempt_at
          ≡ instant_to_nanos (later + b.config.timeout_ms * nanos_per_ms))
unfolding on_failure transition_to_open
on_failure-opens b now later h =
    let c = expire_window (count_failure b now) now in
    let kept = counted_window b now in
    let opens = open_on_failure-opens c later (λ e. h (sym kept.1 ∙ e)) in
    (
      ap (λ r. r.state) opens,
      ap (λ r. r.next_attempt_at) opens
          ∙ ap (λ k. instant_to_nanos (later + k.timeout_ms * nanos_per_ms)) kept.0,
    )

on_failure-state :
    (b : CircuitBreaker) (now later : ℕ)
    → ((on_failure b now later).state ≡ b.state) ⊎ ((on_failure b now later).state ≡ state_open)
unfolding on_failure
on_failure-state b now later = ground (
  arith,
  counted_window b now,
  open_on_failure-state (expire_window (count_failure b now) now) later,
)

open_on_failure-below :
    (b : CircuitBreaker) (later : ℕ)
    → (open_on_failure b later).state ≡ state_half_open
    → b.consecutive_failures < b.config.failure_threshold
unfolding open_on_failure should_open transition_to_open
open_on_failure-below b later e = ground arith

-- A half-open breaker stays half open over a failure only while its run of failures is below the
-- failure threshold.
on_failure-half_open :
    (b : CircuitBreaker) (now later : ℕ)
    → b.state ≡ state_half_open
    → (on_failure b now later).state ≡ state_half_open
    → u64 (b.consecutive_failures + 1) < b.config.failure_threshold
unfolding on_failure
on_failure-half_open b now later h e =
    let c = expire_window (count_failure b now) now in
    let kept = counted_window b now in
    omega (arith, open_on_failure-below c later e, kept.2, ap (λ k. k.failure_threshold) kept.0)

pub should_allow_request-refuses :
    (b : CircuitBreaker) (now : ℕ)
    → (should_allow_request b now).0 ≡ false
    → ((should_allow_request b now).1 ≡ b) × (b.state ≡ state_open)
unfolding should_allow_request
should_allow_request-refuses b now h = ground arith

-- A success of a breaker that is not closed: the run of successes closes it, or it is half open.
abbrev after_probe : CircuitBreaker → ℕ
after_probe b =
    if leb b.config.success_threshold (u64 (b.consecutive_successes + 1))
    then state_closed
    else state_half_open

-- What a call says of the breaker that it leaves: a refusal changes nothing; a success keeps a closed
-- breaker closed and counts as a probe of any other; a failure opens the breaker, but for one that
-- was not closed and whose run of failures is below the threshold, which is then half open.
abbrev pub Ended : CircuitBreaker → Executed × CircuitBreaker → Type 0
Ended b (refused, b') = (b' ≡ b) × (b.state ≡ state_open)
Ended b (succeeded, b') =
    (b.state ≡ state_closed → b'.state ≡ state_closed)
    × ((b.state ≡ state_open) ⊎ (b.state ≡ state_half_open) → b'.state ≡ after_probe b)
Ended b (failed, b') =
    (b'.state ≡ state_open)
    ⊎ ((b'.state ≡ state_half_open)
        × (b.state ≢ state_closed)
        × (u64 (b.consecutive_failures + 1) < b.config.failure_threshold))

-- An admitted request leaves the breaker as it was, or half open where it was open.
should_allow_request-admits :
    (b : CircuitBreaker) (now : ℕ)
    → (should_allow_request b now).0 ≡ true
    → let b' = (should_allow_request b now).1 in
      (b'.config ≡ b.config)
      × (b'.consecutive_failures ≡ b.consecutive_failures)
      × (b'.consecutive_successes ≡ b.consecutive_successes)
      × (b.state ≢ state_open → b'.state ≡ b.state)
      × (b.state ≡ state_open → b'.state ≡ state_half_open)
unfolding should_allow_request
should_allow_request-admits b now h = ground arith

on_success-ends :
    (b : CircuitBreaker) (now : ℕ)
    → (b.state ≢ state_half_open → (on_success b now).state ≡ b.state)
      × (b.state ≡ state_half_open → (on_success b now).state ≡ after_probe b)
unfolding on_success count_success
on_success-ends b now = ground arith

on_failure-ends :
    (b : CircuitBreaker) (now later : ℕ)
    → ((on_failure b now later).state ≡ state_open)
      ⊎ (((on_failure b now later).state ≡ state_half_open)
          × (b.state ≡ state_half_open)
          × (u64 (b.consecutive_failures + 1) < b.config.failure_threshold))
on_failure-ends b now later = elim (ℕ_discrete b.state state_half_open) [
  | no other ↦ inl (on_failure-opens b now later other).0
  | yes probing ↦ elim (on_failure-state b now later) [
    | inl same ↦
        inr (same ∙ probing, probing, on_failure-half_open b now later probing (same ∙ probing))
    | inr opened ↦ inl opened
  ]
]

-- A call that the breaker refuses leaves it as it was, open. One that succeeds leaves a closed breaker
-- closed, and one that was open or half open closed where the run of successes reaches its threshold,
-- and half open where not. One that fails leaves the breaker open, unless it was not closed and its
-- run of failures is still below the threshold: then it may be half open.
pub execute-Ended :
    (b : CircuitBreaker) (operation : Bool) (asked ended later : ℕ)
    → Ended b (execute b operation asked ended later)
unfolding execute
execute-Ended b operation asked ended later = elim (Bool-cases (should_allow_request b asked).0) [
  | inr no_entry ↦ rw no_entry (should_allow_request-refuses b asked no_entry)
  | inl entry ↦ rw entry (admitted operation (should_allow_request-admits b asked entry))
]
  where
    b' : CircuitBreaker
    b' = (should_allow_request b asked).1

    admitted :
        (operation : Bool)
        → (b'.config ≡ b.config)
          × (b'.consecutive_failures ≡ b.consecutive_failures)
          × (b'.consecutive_successes ≡ b.consecutive_successes)
          × (b.state ≢ state_open → b'.state ≡ b.state)
          × (b.state ≡ state_open → b'.state ≡ state_half_open)
        → Ended b (
            if operation
            then (succeeded, on_success b' ended)
            else (failed, on_failure b' ended later))
    admitted true kept = let done = on_success-ends b' ended in (grind arith, grind arith)
    admitted false kept = let done = on_failure-ends b' ended later in grind arith
