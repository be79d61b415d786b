-- ===== src/Degradation/Routed.antt =====
-- The recorded state of the manager stays right over generation results.
use nebula_id.Prelude.{
  ℕ, ◌≡◌, refl, Bool, true, false, not, List, some, arith, Bool-cases, Option-cases, inl, inr,
  if◌then◌else◌, ◌∙◌,
}
use nebula_id.Prelude.Assoc.{get, put, get-put}
use nebula_id.Types.{AlgorithmType}
use nebula_id.Degradation.State.{
  alg_eq, same_algorithm, same_algorithm_iff, HealthState, record_success, record_failure,
  mark_degraded, mark_recovered,
}
use nebula_id.Degradation.{
  Manager, States, DegradationState, usable, first_fallback, determine_effective_algorithm, refresh,
  write_state, trigger_degradation, attempt_recovery, record_result, record_generation_result,
}
use nebula_id.Degradation.Routing.{First, here, there, Fallback, first_fallback-Fallback}

-- What the recorded state says of the algorithms.
abbrev pub RoutedAs : DegradationState → Manager → Type 0
RoutedAs DegradationState.normal m = usable m.health_states m.primary_algorithm ≡ true
RoutedAs (DegradationState.degraded_to a) m = usable m.health_states a ≡ true
RoutedAs DegradationState.critical m = usable m.health_states m.primary_algorithm ≡ false

abbrev pub Routed : Manager → Type 0
Routed m = RoutedAs m.current_state m

pub First-usable :
    (test : AlgorithmType → Bool) (xs : List AlgorithmType) (a : AlgorithmType)
    → First test xs a
    → test a ≡ true
First-usable test xs a (here x rest e) = e
First-usable test xs a (there x b rest e f) = First-usable test rest a f

Fallback-RoutedAs :
    (m : Manager) (d : DegradationState)
    → usable m.health_states m.primary_algorithm ≡ false
    → Fallback m.health_states m.fallback_chain d
    → RoutedAs d m
Fallback-RoutedAs m (DegradationState.degraded_to a) down f =
    First-usable (usable m.health_states) m.fallback_chain a f
Fallback-RoutedAs m DegradationState.critical down f = down
Fallback-RoutedAs m DegradationState.normal down f = absurd f

pub refresh-Routed : (m : Manager) → Routed (refresh m)
unfolding refresh determine_effective_algorithm
refresh-Routed m = decide (usable m.health_states m.primary_algorithm) refl
  where
    decide :
        (up : Bool)
        → usable m.health_states m.primary_algorithm ≡ up
        → Routed (record m {
          current_state =
              if up
              then DegradationState.normal
              else first_fallback m.health_states m.fallback_chain;
        })
    decide true up = up
    decide false down =
        let last = first_fallback m.health_states m.fallback_chain in
        Fallback-RoutedAs (record m { current_state = last }) last down
          (first_fallback-Fallback m.health_states m.fallback_chain)

pub usable-put :
    (states : States) (a b : AlgorithmType) (h : HealthState)
    → usable (put a h states) b
      ≡ (if same_algorithm a b then not h.is_degraded else usable states b)
unfolding usable
usable-put states a b h = ground (arith, get-put a b h states)

-- A write that keeps the mark of an algorithm keeps every answer.
usable-put_same :
    (states : States) (a b : AlgorithmType) (h h' : HealthState)
    → get a states ≡ some h
    → h'.is_degraded ≡ h.is_degraded
    → usable (put a h' states) b ≡ usable states b
unfolding usable
usable-put_same states a b h h' found kept =
    ground (arith, get-put a b h' states, same_algorithm_iff a b)

pub write_same-Routed :
    (m : Manager) (a : AlgorithmType) (h h' : HealthState)
    → get a m.health_states ≡ some h
    → h'.is_degraded ≡ h.is_degraded
    → Routed m
    → Routed (write_state m a h')
unfolding write_state
write_same-Routed m a h h' found kept routed = go m.current_state routed
  where
    go : (d : DegradationState) → RoutedAs d m → RoutedAs d (write_state m a h')
    go DegradationState.normal r =
        usable-put_same m.health_states a m.primary_algorithm h h' found kept ∙ r
    go (DegradationState.degraded_to b) r = usable-put_same m.health_states a b h h' found kept ∙ r
    go DegradationState.critical r =
        usable-put_same m.health_states a m.primary_algorithm h h' found kept ∙ r

recovered-Routed :
    (m : Manager) (a : AlgorithmType) (h : HealthState)
    → same_algorithm a m.primary_algorithm ≡ false
    → h.is_degraded ≡ false
    → Routed m
    → Routed (write_state m a h)
unfolding write_state
recovered-Routed m a h other up routed = go m.current_state routed
  where
    go : (d : DegradationState) → RoutedAs d m → RoutedAs d (write_state m a h)
    go DegradationState.normal r =
        ground (arith, usable-put m.health_states a m.primary_algorithm h)
    go (DegradationState.degraded_to b) r = ground (arith, usable-put m.health_states a b h)
    go DegradationState.critical r =
        ground (arith, usable-put m.health_states a m.primary_algorithm h)

attempt_recovery-Routed :
    (m : Manager) (a : AlgorithmType) (h : HealthState) → Routed m → Routed (attempt_recovery m a h)
unfolding attempt_recovery mark_recovered
attempt_recovery-Routed m a h routed = elim (Bool-cases (same_algorithm a m.primary_algorithm)) [
  | inl primary ↦ rw primary (refresh-Routed (write_state m a (mark_recovered h)))
  | inr other ↦ rw other (recovered-Routed m a (mark_recovered h) other refl routed)
]

trigger-Routed :
    (m : Manager) (a : AlgorithmType) (h : HealthState) → Routed (trigger_degradation m a h)
unfolding trigger_degradation
trigger-Routed m a h = refresh-Routed (write_state m a (mark_degraded h))

record_result-Routed :
    (now : ℕ) (m : Manager) (a : AlgorithmType) (h : HealthState) (success : Bool)
    → get a m.health_states ≡ some h
    → Routed m
    → Routed (record_result now m a h success)
unfolding record_result record_success record_failure
record_result-Routed now m a h true found routed =
    let kept = write_same-Routed m a h (record_success now h) found refl routed in
    let recovered = attempt_recovery-Routed m a (record_success now h) routed in ground arith
record_result-Routed now m a h false found routed =
    let kept = write_same-Routed m a h (record_failure now h) found refl routed in
    let degraded = trigger-Routed m a (record_failure now h) in ground arith

pub record_generation_result-Routed :
    (now : ℕ) (m : Manager) (a : AlgorithmType) (success : Bool)
    → Routed m
    → Routed (record_generation_result now m a success)
unfolding record_generation_result
record_generation_result-Routed now m a success routed =
    elim (Option-cases (get a m.health_states)) [
      | inl missing ↦ rw (missing, record_generation_result) routed
      | inr (h, found) ↦
          rw (found, record_generation_result) (record_result-Routed now m a h success found routed)
    ]
