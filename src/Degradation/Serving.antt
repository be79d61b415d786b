-- ===== src/Degradation/Serving.antt =====
-- The algorithm in effect is usable as long as one is, whatever results and health checks come in.
use nebula_id.Prelude.{ℕ, ◌≡◌, false, List, [], ◌∷◌, inl, inr, ◌⊎◌}
use nebula_id.Types.{AlgorithmType}
use nebula_id.Degradation.State.{alg_eq}
use nebula_id.Degradation.{Manager, DegradationState, usable, effective_in, get_effective_algorithm}
use nebula_id.Degradation.Flags.{
  Flags, Op, records, checks, registers, sets_primary, sets_chain, degrades, recovers, configures,
  apply, run, apply-Flags,
}
use nebula_id.Degradation.Routing.{
  InService, NoneInService, InService-usable, not_InService-usable, usable-InService,
  None-NoneInService, ServedIn, any_serving-ServedIn,
}
use nebula_id.Degradation.Routed.{RoutedAs, Routed, First-usable, record_generation_result-Routed}
use nebula_id.Degradation.Checks.{check_all_health-Routed}

-- The algorithm in effect is in service, or none is of the primary algorithm and the chain.
abbrev pub Served : Manager → Type 0
Served m =
    InService m.health_states (get_effective_algorithm m)
    ⊎ NoneInService m.health_states (m.primary_algorithm ∷ m.fallback_chain)

ServedIn-Served :
    (m : Manager) (a : AlgorithmType)
    → usable m.health_states m.primary_algorithm ≡ false
    → ServedIn m.health_states m.fallback_chain m.primary_algorithm a
    → InService m.health_states a
      ⊎ NoneInService m.health_states (m.primary_algorithm ∷ m.fallback_chain)
unfolding ServedIn
ServedIn-Served m a down (inl f) = inl (
    usable-InService m.health_states a (First-usable (usable m.health_states) m.fallback_chain a f))
ServedIn-Served m a down (inr (n, e)) =
    inr (None-NoneInService m.health_states (m.primary_algorithm ∷ m.fallback_chain) (down, n))

Routed-Served : (m : Manager) → Flags m → Routed m → Served m
unfolding get_effective_algorithm effective_in
Routed-Served m flags routed = go m.current_state routed
  where
    go :
        (d : DegradationState)
        → RoutedAs d m
        → InService m.health_states (effective_in d m)
          ⊎ NoneInService m.health_states (m.primary_algorithm ∷ m.fallback_chain)
    go DegradationState.normal r = inl (usable-InService m.health_states m.primary_algorithm r)
    go (DegradationState.degraded_to b) r = inl (usable-InService m.health_states b r)
    go DegradationState.critical r =
        ServedIn-Served m _ r
          (any_serving-ServedIn m.primary_algorithm m.health_states m.fallback_chain flags)

-- The operations that come without an operator.
abbrev pub Automatic : List (ℕ × Op) → Type 0
Automatic [] = Unit {0}
Automatic ((now, records a success) ∷ ops) = Automatic ops
Automatic ((now, checks report) ∷ ops) = Automatic ops
Automatic (_ ∷ ops) = ⊥

apply-Routed :
    (now : ℕ) (op : Op) (ops : List (ℕ × Op)) (m : Manager)
    → Automatic ((now, op) ∷ ops)
    → Routed m
    → Routed (apply now op m) × Automatic ops
unfolding apply
apply-Routed now (registers a) ops m automatic routed = absurd automatic
apply-Routed now (sets_primary a) ops m automatic routed = absurd automatic
apply-Routed now (sets_chain chain) ops m automatic routed = absurd automatic
apply-Routed now (degrades a) ops m automatic routed = absurd automatic
apply-Routed now (recovers a) ops m automatic routed = absurd automatic
apply-Routed now (configures config) ops m automatic routed = absurd automatic
apply-Routed now (records a success) ops m automatic routed =
    (record_generation_result-Routed now m a success routed, automatic)
apply-Routed now (checks report) ops m automatic routed =
    (check_all_health-Routed now report m routed, automatic)

Routed-run-Served :
    (ops : List (ℕ × Op)) (m : Manager) → Automatic ops → Flags m → Routed m → Served (run ops m)
unfolding run
Routed-run-Served [] m automatic flags routed = Routed-Served m flags routed
Routed-run-Served ((now, op) ∷ ops) m automatic flags routed =
    let (routed', rest) = apply-Routed now op ops m automatic routed in
    Routed-run-Served ops (apply now op m) rest (apply-Flags now op m flags) routed'

-- The recorded state is right: an algorithm that it names is in service, and the critical state says
-- that the primary one is not.
abbrev pub RecordedAs : DegradationState → Manager → Type 0
RecordedAs DegradationState.normal m = InService m.health_states m.primary_algorithm
RecordedAs (DegradationState.degraded_to a) m = InService m.health_states a
RecordedAs DegradationState.critical m = ¬ InService m.health_states m.primary_algorithm

RecordedAs-RoutedAs : (d : DegradationState) (m : Manager) → RecordedAs d m → RoutedAs d m
RecordedAs-RoutedAs DegradationState.normal m = InService-usable m.health_states m.primary_algorithm
RecordedAs-RoutedAs (DegradationState.degraded_to a) m = InService-usable m.health_states a
RecordedAs-RoutedAs DegradationState.critical m =
    not_InService-usable m.health_states m.primary_algorithm

-- From a manager whose flags agree and whose recorded state is right, the algorithm in effect after
-- any generation results and health checks has a health state which is not marked degraded, unless
-- the primary algorithm and the whole chain are marked degraded or have no health state.
pub run-Served :
    (ops : List (ℕ × Op)) (m : Manager)
    → Automatic ops
    → Flags m
    → RecordedAs m.current_state m
    → Served (run ops m)
run-Served ops m automatic flags recorded =
    Routed-run-Served ops m automatic flags (RecordedAs-RoutedAs m.current_state m recorded)
