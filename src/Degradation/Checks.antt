-- ===== src/Degradation/Checks.antt =====
-- The recorded state of the manager stays right over health checks.
use nebula_id.Prelude.{
  ℕ, ◌≡◌, refl, Bool, true, false, List, [], ◌∷◌, map, some, arith, Bool-cases, Option-cases, inl,
  inr, ◌⊎◌,
}
use nebula_id.Prelude.Assoc.{get}
use nebula_id.Types.{AlgorithmType, HealthStatus}
use nebula_id.Degradation.State.{
  alg_eq, HealthState, CircuitBreakerState, record_success, record_failure, mark_recovered,
  close_circuit_breaker, open_circuit_breaker, half_open_circuit_breaker, get_circuit_breaker_state,
}
use nebula_id.Degradation.{
  Manager, DegradationState, refresh, probe, inspect, inspect_health, health_of, check_state,
  check_one, check_each, finish_check, check_all_health,
}
use nebula_id.Degradation.Routed.{RoutedAs, Routed, refresh-Routed, write_same-Routed}

timed-Routed :
    (now : ℕ) (m : Manager) (d : DegradationState)
    → RoutedAs d m
    → RoutedAs d (record m { last_check = now })
timed-Routed now m DegradationState.normal r = r
timed-Routed now m (DegradationState.degraded_to a) r = r
timed-Routed now m DegradationState.critical r = r

-- A step of the check has kept the recorded state right, or has noted that it is to be renewed.
abbrev Noted : Manager × Bool → Type 0
Noted p = (p.1 ≡ true) ⊎ Routed p.0

module _ (now : ℕ) (report : AlgorithmType → HealthStatus) where
  probe-Noted :
      (m : Manager) (a : AlgorithmType) (h : HealthState) (health : HealthStatus)
      → get a m.health_states ≡ some h
      → Routed m
      → Noted (probe now report m a h health)
  unfolding probe close_circuit_breaker mark_recovered record_success open_circuit_breaker
      record_failure
  probe-Noted m a h HealthStatus.healthy found routed =
      let closed = write_same-Routed m a h (close_circuit_breaker h) found refl routed in
      let counted = write_same-Routed m a h (record_success now h) found refl routed in ground arith
  probe-Noted m a h (HealthStatus.degraded reason) found routed =
      inr (
        write_same-Routed m a h (open_circuit_breaker now (record_failure now h)) found refl routed)
  probe-Noted m a h (HealthStatus.unhealthy reason) found routed =
      inr (
        write_same-Routed m a h (open_circuit_breaker now (record_failure now h)) found refl routed)

  -- `h'` is the state after the circuit breaker's part.
  inspect_health-Noted :
      (m : Manager) (a : AlgorithmType) (h h' : HealthState) (health : HealthStatus)
      → get a m.health_states ≡ some h
      → h'.is_degraded ≡ h.is_degraded
      → Routed m
      → Noted (inspect_health now report m a h' health)
  unfolding inspect_health record_success record_failure
  inspect_health-Noted m a h h' HealthStatus.healthy found kept routed =
      inr (write_same-Routed m a h (record_success now h') found kept routed)
  inspect_health-Noted m a h h' (HealthStatus.degraded reason) found kept routed =
      inr (write_same-Routed m a h h' found kept routed)
  inspect_health-Noted m a h h' (HealthStatus.unhealthy reason) found kept routed =
      let counted = write_same-Routed m a h (record_failure now h') found kept routed in
      ground arith

  inspect-Noted :
      (m : Manager) (a : AlgorithmType) (h h' : HealthState)
      → get a m.health_states ≡ some h
      → h'.is_degraded ≡ h.is_degraded
      → Routed m
      → Noted (inspect now report m a h')
  unfolding inspect
  inspect-Noted m a h h' found kept routed =
      let left = write_same-Routed m a h h' found kept routed in
      let inspected = inspect_health-Noted m a h h' (health_of now report m a) found kept routed in
      ground arith

  check_state-Noted :
      (m : Manager) (a : AlgorithmType) (h : HealthState) (s : CircuitBreakerState)
      → get a m.health_states ≡ some h
      → Routed m
      → Noted (check_state now report m a h s)
  unfolding check_state half_open_circuit_breaker
  check_state-Noted m a h CircuitBreakerState.closed found routed =
      inspect-Noted m a h h found refl routed
  check_state-Noted m a h CircuitBreakerState.open_state found routed =
      let tried = inspect-Noted m a h (half_open_circuit_breaker h) found refl routed in
      ground arith
  check_state-Noted m a h CircuitBreakerState.half_open found routed =
      probe-Noted m a h (health_of now report m a) found routed

  check_one-Noted : (m : Manager) (a : AlgorithmType) → Routed m → Noted (check_one now report m a)
  unfolding check_one
  check_one-Noted m a routed = elim (Option-cases (get a m.health_states)) [
    | inl missing ↦ rw (missing, check_one) (inr routed)
    | inr (h, found) ↦
        let guarded = check_state-Noted m a h (get_circuit_breaker_state h) found routed in
        let plain = inspect-Noted m a h h found refl routed in ground arith
  ]

  check_each-noted :
      (rest : List AlgorithmType) (m : Manager) → (check_each now report rest m true).1 ≡ true
  unfolding check_each
  check_each-noted [] m = refl
  check_each-noted (a ∷ rest) m = elim (Bool-cases (check_one now report m a).1) [
    | inl yes_now ↦ rw (yes_now, check_each) (check_each-noted rest (check_one now report m a).0)
    | inr before ↦ rw (before, check_each) (check_each-noted rest (check_one now report m a).0)
  ]

  check_each-Noted :
      (rest : List AlgorithmType) (m : Manager)
      → Routed m
      → Noted (check_each now report rest m false)
  unfolding check_each
  check_each-Noted [] m routed = inr routed
  check_each-Noted (a ∷ rest) m routed = elim (check_one-Noted m a routed) [
    | inl changed ↦
        rw (changed, check_each) (inl (check_each-noted rest (check_one now report m a).0))
    | inr routed' ↦ elim (Bool-cases (check_one now report m a).1) [
      | inl changed ↦
          rw (changed, check_each) (inl (check_each-noted rest (check_one now report m a).0))
      | inr kept ↦
          rw (kept, check_each) (check_each-Noted rest (check_one now report m a).0 routed')
    ]
  ]

  finish_check-Routed : (p : Manager × Bool) → Noted p → Routed (finish_check now report p)
  unfolding finish_check
  finish_check-Routed (m, true) noted =
      timed-Routed now (refresh m) (refresh m).current_state (refresh-Routed m)
  finish_check-Routed (m, false) (inr routed) = timed-Routed now m m.current_state routed
  finish_check-Routed (m, false) (inl e) = absurd (grind arith)

  pub check_all_health-Routed : (m : Manager) → Routed m → Routed (check_all_health now report m)
  unfolding check_all_health
  check_all_health-Routed m routed =
      finish_check-Routed _ (check_each-Noted (map (λ e. e.0) m.health_states) m routed)
