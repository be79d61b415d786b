-- ===== src/Degradation/Thresholds.antt =====
-- How many failures degrade an algorithm, and what an operator's mark does not do.
use nebula_id.Prelude.{
  ℕ, suc, ◌+◌, ◌≤◌, ◌<◌, ◌^◌, ◌≡◌, ◌≢◌, refl, ap, true, false, length, List, [], ◌∷◌, some, arith,
  Option-cases, inl, inr,
}
use nebula_id.Prelude.Assoc.{get, get-put}
use nebula_id.Types.{AlgorithmType}
use nebula_id.Degradation.State.{
  alg_eq, same_algorithm_iff, HealthState, new_state, record_failure, should_degrade, mark_degraded,
}
use nebula_id.Degradation.Routed.{usable-put}
use nebula_id.Degradation.{
  usable, Manager, DegradationState, determine_effective_algorithm, effective_in,
  get_effective_algorithm, refresh, write_state, trigger_degradation, record_result,
  record_generation_result, manual_degrade,
}

-- The failures of one algorithm at the given instants.
pub fail_each : List ℕ → Manager → AlgorithmType → Manager
fail_each [] m a = m
fail_each (now ∷ later) m a = fail_each later (record_generation_result now m a false) a

record_failure-kept :
    (now : ℕ) (m : Manager) (a : AlgorithmType) (h : HealthState)
    → get a m.health_states ≡ some h
    → suc h.consecutive_failures < m.config.failure_threshold
    → m.config.failure_threshold < 2 ^ 8
    → record_generation_result now m a false ≡ write_state m a (record_failure now h)
unfolding record_generation_result record_result record_failure should_degrade
record_failure-kept now m a h found few small = rw (found, record_generation_result) (ground arith)

record_failure-degrades :
    (now : ℕ) (m : Manager) (a : AlgorithmType) (h : HealthState)
    → get a m.health_states ≡ some h
    → h.is_degraded ≡ false
    → m.config.failure_threshold ≤ suc h.consecutive_failures
    → suc h.consecutive_failures < 2 ^ 8
    → record_generation_result now m a false ≡ trigger_degradation m a (record_failure now h)
unfolding record_generation_result record_result record_failure should_degrade
record_failure-degrades now m a h found up many small =
    rw (found, record_generation_result) (ground arith)

get-put_self :
    (m : Manager) (a : AlgorithmType) (h : HealthState)
    → get a (write_state m a h).health_states ≡ some h
unfolding write_state
get-put_self m a h = ground (arith, get-put a a h m.health_states, same_algorithm_iff a a)

-- An algorithm with a run of failures, and not degraded.
abbrev pub Failing : Manager → AlgorithmType → ℕ → Type 0
Failing m a failures =
    (h : HealthState) × (get a m.health_states ≡ some h)
    × (h.is_degraded ≡ false)
    × (h.consecutive_failures ≡ failures)

fail_each-Failing :
    (times : List ℕ) (failures : ℕ) (m : Manager) (a : AlgorithmType)
    → Failing m a failures
    → failures + length times < m.config.failure_threshold
    → m.config.failure_threshold < 2 ^ 8
    → Failing (fail_each times m a) a (failures + length times)
      × ((fail_each times m a).config ≡ m.config)
unfolding fail_each write_state record_failure
fail_each-Failing [] failures m a (h, found, up, run) few small =
    ((h, found, up, omega arith), refl)
fail_each-Failing (now ∷ later) failures m a (h, found, up, run) few small =
    let counted : suc failures + length later ≡ failures + length (now ∷ later) = omega arith in
    rw⁻¹ counted (
      rw (record_failure-kept now m a h found (omega arith) small, fail_each)
        (fail_each-Failing later (suc failures) (write_state m a (record_failure now h)) a
          (record_failure now h, get-put_self m a (record_failure now h), up, ground arith)
          (omega arith) small))

write_unusable :
    (m : Manager) (a : AlgorithmType) (h : HealthState)
    → h.is_degraded ≡ true
    → usable (write_state m a h).health_states a ≡ false
unfolding write_state
write_unusable m a h down = ground (arith, usable-put m.health_states a a h, same_algorithm_iff a a)

trigger_unusable :
    (m : Manager) (a : AlgorithmType) (h : HealthState)
    → usable (trigger_degradation m a h).health_states a ≡ false
unfolding trigger_degradation refresh mark_degraded
trigger_unusable m a h = write_unusable m a (mark_degraded h) refl

trigger_determined :
    (m : Manager) (a : AlgorithmType) (h : HealthState)
    → (trigger_degradation m a h).current_state
      ≡ determine_effective_algorithm (trigger_degradation m a h)
unfolding trigger_degradation refresh determine_effective_algorithm
trigger_determined m a h = refl

-- An algorithm without failures stays usable over fewer failures in a row than the threshold; with the
-- one that makes it as many, it is degraded, and the recorded state is the one determined from that. The
-- threshold is above 0 and within a byte.
pub fail_each-degrades :
    (times : List ℕ) (last : ℕ) (m : Manager) (a : AlgorithmType)
    → Failing m a 0
    → suc (length times) ≡ m.config.failure_threshold
    → m.config.failure_threshold < 2 ^ 8
    → (usable (fail_each times m a).health_states a ≡ true)
      × (usable (record_generation_result last (fail_each times m a) a false).health_states a
          ≡ false)
      × ((record_generation_result last (fail_each times m a) a false).current_state
          ≡ determine_effective_algorithm
              (record_generation_result last (fail_each times m a) a false))
unfolding usable
fail_each-degrades times last m a failing many small =
    let ((h, found, up, run), config) = fail_each-Failing times 0 m a failing (omega arith) small in
    let threshold : (fail_each times m a).config.failure_threshold ≡ m.config.failure_threshold =
      ap (λ c. c.failure_threshold) config in
    rw (record_failure-degrades last (fail_each times m a) a h found up (omega arith) (omega arith))
      (
        rw (found, usable) (rw up refl),
        trigger_unusable (fail_each times m a) a (record_failure last h),
        trigger_determined (fail_each times m a) a (record_failure last h),
      )

effective_in-write_state :
    (d : DegradationState) (m : Manager) (a : AlgorithmType) (h : HealthState)
    → d ≢ DegradationState.critical
    → effective_in d (write_state m a h) ≡ effective_in d m
unfolding effective_in write_state
effective_in-write_state DegradationState.normal m a h calm = refl
effective_in-write_state (DegradationState.degraded_to b) m a h calm = refl
effective_in-write_state DegradationState.critical m a h calm = absurd (calm refl)

manual_degrade_marks :
    (m : Manager) (a : AlgorithmType)
    → (h : HealthState) × (manual_degrade m a ≡ write_state m a h) × (h.is_degraded ≡ true)
unfolding manual_degrade mark_degraded
manual_degrade_marks m a = elim (Option-cases (get a m.health_states)) [
  | inl missing ↦ (mark_degraded (new_state a), rw (missing, manual_degrade) refl, refl)
  | inr (h, found) ↦ (mark_degraded h, rw (found, manual_degrade) refl, refl)
]

-- An algorithm that is in effect outside the critical state stays in effect when an operator marks it
-- degraded, although it is then not usable.
pub manual_degrade-effective :
    (m : Manager)
    → m.current_state ≢ DegradationState.critical
    → (get_effective_algorithm (manual_degrade m (get_effective_algorithm m))
        ≡ get_effective_algorithm m)
      × (usable
            (manual_degrade m (get_effective_algorithm m)).health_states
            (get_effective_algorithm m)
          ≡ false)
unfolding get_effective_algorithm write_state
manual_degrade-effective m calm =
    let (h, e, down) = manual_degrade_marks m (get_effective_algorithm m) in
    rw e (
      effective_in-write_state m.current_state m (get_effective_algorithm m) h calm,
      write_unusable m (get_effective_algorithm m) h down,
    )
