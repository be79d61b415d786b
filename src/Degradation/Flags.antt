-- ===== src/Degradation/Flags.antt =====
-- In every history the two flags of an algorithm agree.
use nebula_id.Prelude.{
  ℕ, ◌≡◌, refl, Bool, true, false, not, List, [], ◌∷◌, map, arith, Option-cases, inl, inr,
}
use nebula_id.Prelude.Assoc.{get, Entries, Entries-put, Entries-get}
use nebula_id.Types.{AlgorithmType, HealthStatus}
use nebula_id.Degradation.State.{
  alg_eq, CircuitBreakerState, HealthState, new_state, record_failure, record_success,
  mark_degraded, mark_recovered, reset, get_circuit_breaker_state, open_circuit_breaker,
  half_open_circuit_breaker, close_circuit_breaker,
}
use nebula_id.Degradation.{
  Manager, DegradationConfig, new_manager, write_state, register_algorithm, set_primary_algorithm,
  set_fallback_chain, refresh, trigger_degradation, attempt_recovery, record_result,
  record_generation_result, manual_degrade, manual_recover, update_config, probe, inspect,
  inspect_health, health_of, check_state, check_one, check_each, finish_check, check_all_health,
}

abbrev pub Agrees : HealthState → Type 0
Agrees h = h.current_state ≡ not h.is_degraded

abbrev pub Flags : Manager → Type 0
Flags m = Entries Agrees m.health_states

write_state-Flags :
    (m : Manager) (a : AlgorithmType) (h : HealthState)
    → Agrees h
    → Flags m
    → Flags (write_state m a h)
unfolding write_state
write_state-Flags m a h agrees flags = Entries-put Agrees a h m.health_states agrees flags

trigger-Flags :
    (m : Manager) (a : AlgorithmType) (h : HealthState)
    → Flags m
    → Flags (trigger_degradation m a h)
unfolding trigger_degradation refresh mark_degraded
trigger-Flags m a h flags = write_state-Flags m a (mark_degraded h) refl flags

attempt_recovery-Flags :
    (m : Manager) (a : AlgorithmType) (h : HealthState) → Flags m → Flags (attempt_recovery m a h)
unfolding attempt_recovery refresh mark_recovered
attempt_recovery-Flags m a h flags =
    let recovered = write_state-Flags m a (mark_recovered h) refl flags in ground arith

record_result-Flags :
    (now : ℕ) (m : Manager) (a : AlgorithmType) (h : HealthState) (success : Bool)
    → Agrees h
    → Flags m
    → Flags (record_result now m a h success)
unfolding record_result record_success record_failure
record_result-Flags now m a h true agrees flags =
    let kept = write_state-Flags m a (record_success now h) agrees flags in
    let recovered = attempt_recovery-Flags m a (record_success now h) flags in ground arith
record_result-Flags now m a h false agrees flags =
    let kept = write_state-Flags m a (record_failure now h) agrees flags in
    let degraded = trigger-Flags m a (record_failure now h) flags in ground arith

module _ (now : ℕ) (report : AlgorithmType → HealthStatus) where
  probe-Flags :
      (m : Manager) (a : AlgorithmType) (h : HealthState) (health : HealthStatus)
      → Agrees h
      → Flags m
      → Flags (probe now report m a h health).0
  unfolding probe close_circuit_breaker mark_recovered record_success open_circuit_breaker
      record_failure
  probe-Flags m a h HealthStatus.healthy agrees flags =
      let closed = write_state-Flags m a (close_circuit_breaker h) agrees flags in
      let recovered = write_state-Flags m a (mark_recovered (close_circuit_breaker h)) refl flags in
      let counted = write_state-Flags m a (record_success now h) agrees flags in ground arith
  probe-Flags m a h (HealthStatus.degraded reason) agrees flags =
      write_state-Flags m a (open_circuit_breaker now (record_failure now h)) agrees flags
  probe-Flags m a h (HealthStatus.unhealthy reason) agrees flags =
      write_state-Flags m a (open_circuit_breaker now (record_failure now h)) agrees flags

  inspect_health-Flags :
      (m : Manager) (a : AlgorithmType) (h : HealthState) (health : HealthStatus)
      → Agrees h
      → Flags m
      → Flags (inspect_health now report m a h health).0
  unfolding inspect_health record_success record_failure
  inspect_health-Flags m a h HealthStatus.healthy agrees flags =
      write_state-Flags m a (record_success now h) agrees flags
  inspect_health-Flags m a h (HealthStatus.degraded reason) agrees flags =
      write_state-Flags m a h agrees flags
  inspect_health-Flags m a h (HealthStatus.unhealthy reason) agrees flags =
      let counted = write_state-Flags m a (record_failure now h) agrees flags in
      let opened = trigger-Flags m a (open_circuit_breaker now (record_failure now h)) flags in
      let degraded = trigger-Flags m a (record_failure now h) flags in ground arith

  inspect-Flags :
      (m : Manager) (a : AlgorithmType) (h : HealthState)
      → Agrees h
      → Flags m
      → Flags (inspect now report m a h).0
  unfolding inspect
  inspect-Flags m a h agrees flags =
      let kept = write_state-Flags m a h agrees flags in
      let inspected = inspect_health-Flags m a h (health_of now report m a) agrees flags in
      ground arith

  check_state-Flags :
      (m : Manager) (a : AlgorithmType) (h : HealthState) (s : CircuitBreakerState)
      → Agrees h
      → Flags m
      → Flags (check_state now report m a h s).0
  unfolding check_state half_open_circuit_breaker
  check_state-Flags m a h CircuitBreakerState.closed agrees flags = inspect-Flags m a h agrees flags
  check_state-Flags m a h CircuitBreakerState.open_state agrees flags =
      let tried = inspect-Flags m a (half_open_circuit_breaker h) agrees flags in ground arith
  check_state-Flags m a h CircuitBreakerState.half_open agrees flags =
      probe-Flags m a h (health_of now report m a) agrees flags

  check_one-Flags : (m : Manager) (a : AlgorithmType) → Flags m → Flags (check_one now report m a).0
  unfolding check_one
  check_one-Flags m a flags = elim (Option-cases (get a m.health_states)) [
    | inl missing ↦ rw (missing, check_one) flags
    | inr (h, found) ↦
        let agrees = Entries-get Agrees a h m.health_states found flags in
        let guarded = check_state-Flags m a h (get_circuit_breaker_state h) agrees flags in
        let plain = inspect-Flags m a h agrees flags in ground arith
  ]

  check_each-Flags :
      (rest : List AlgorithmType) (m : Manager) (changed : Bool)
      → Flags m
      → Flags (check_each now report rest m changed).0
  unfolding check_each
  check_each-Flags [] m changed flags = flags
  check_each-Flags (a ∷ rest) m changed flags =
      check_each-Flags rest (check_one now report m a).0 _ (check_one-Flags m a flags)

  check_all_health-Flags : (m : Manager) → Flags m → Flags (check_all_health now report m)
  unfolding check_all_health finish_check refresh
  check_all_health-Flags m flags =
      let checked = check_each-Flags (map (λ e. e.0) m.health_states) m false flags in ground arith

pub data Op : Type 0 where
  registers : AlgorithmType → Op
  sets_primary : AlgorithmType → Op
  sets_chain : List AlgorithmType → Op
  records : AlgorithmType → Bool → Op
  degrades : AlgorithmType → Op
  recovers : AlgorithmType → Op
  configures : DegradationConfig → Op
  checks : (AlgorithmType → HealthStatus) → Op

unfoldable pub apply : ℕ → Op → Manager → Manager
apply now (registers a) m = register_algorithm m a
apply now (sets_primary a) m = set_primary_algorithm m a
apply now (sets_chain chain) m = set_fallback_chain m chain
apply now (records a success) m = record_generation_result now m a success
apply now (degrades a) m = manual_degrade m a
apply now (recovers a) m = manual_recover m a
apply now (configures config) m = update_config m config
apply now (checks report) m = check_all_health now report m

-- The operations of a history, each at its instant.
unfoldable pub run : List (ℕ × Op) → Manager → Manager
run [] m = m
run ((now, op) ∷ ops) m = run ops (apply now op m)

record_generation_result-Flags :
    (now : ℕ) (m : Manager) (a : AlgorithmType) (success : Bool)
    → Flags m
    → Flags (record_generation_result now m a success)
unfolding record_generation_result
record_generation_result-Flags now m a success flags = elim (Option-cases (get a m.health_states)) [
  | inl missing ↦ rw (missing, record_generation_result) flags
  | inr (h, found) ↦
      rw (found, record_generation_result)
        (record_result-Flags now m a h success (Entries-get Agrees a h m.health_states found flags)
          flags)
]

pub apply-Flags : (now : ℕ) (op : Op) (m : Manager) → Flags m → Flags (apply now op m)
unfolding apply register_algorithm set_primary_algorithm set_fallback_chain manual_degrade
    manual_recover update_config mark_degraded new_state reset write_state
apply-Flags now (registers a) m flags = write_state-Flags m a (new_state a) refl flags
apply-Flags now (sets_primary a) m flags = flags
apply-Flags now (sets_chain chain) m flags = flags
apply-Flags now (records a success) m flags = record_generation_result-Flags now m a success flags
apply-Flags now (degrades a) m flags = elim (Option-cases (get a m.health_states)) [
  | inl missing ↦
      rw (missing, manual_degrade) (write_state-Flags m a (mark_degraded (new_state a)) refl flags)
  | inr (h, found) ↦ rw (found, manual_degrade) (write_state-Flags m a (mark_degraded h) refl flags)
]
apply-Flags now (recovers a) m flags = elim (Option-cases (get a m.health_states)) [
  | inl missing ↦ rw (missing, manual_recover) flags
  | inr (h, found) ↦ rw (found, manual_recover) (write_state-Flags m a (reset h) refl flags)
]
apply-Flags now (configures config) m flags = flags
apply-Flags now (checks report) m flags = check_all_health-Flags now report m flags

run_from-Flags : (ops : List (ℕ × Op)) (m : Manager) → Flags m → Flags (run ops m)
unfolding run
run_from-Flags [] m flags = flags
run_from-Flags ((now, op) ∷ ops) m flags =
    run_from-Flags ops (apply now op m) (apply-Flags now op m flags)

-- In every history from a new manager, each algorithm is marked as serving exactly when it is not
-- marked degraded.
run-Flags :
    (config : DegradationConfig) (start : ℕ) (ops : List (ℕ × Op))
    → Flags (run ops (new_manager config start))
unfolding new_manager
run-Flags config start ops = run_from-Flags ops (new_manager config start) tt
