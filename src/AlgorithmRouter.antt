-- ===== src/AlgorithmRouter.antt =====
-- src/core/algorithm/router.rs: the choice of an algorithm for a request, the fallback chain, and
-- what is told to the degradation manager, for one caller at a time.
--
-- The algorithms stand behind the trait `IdAlgorithm`: an `Alg` is a handle on one, and the call of
-- its `generate` or `batch_generate` is an argument that takes and returns the state `W` of
-- everything the algorithms use. `clock` reads the time from that state. Logging is left out.
pub mod Attempts
pub mod Supply
mod Tests
use Prim.Native.String.{String}
use nebula_id.Prelude.{ℕ, Bool, true, false, List, [], ◌∷◌, map, Option, none, some, if◌then◌else◌}
use nebula_id.Prelude.Assoc.{string_eq, get, put}
use nebula_id.Types.{CoreError, AlgorithmType, HealthStatus, Result, ok, err}
use nebula_id.Degradation.State.{alg_eq}
use nebula_id.Degradation.{
  Manager, default_degradation_config, new_manager, register_algorithm, set_primary_algorithm,
  set_fallback_chain, record_generation_result,
}

abbrev pub Algorithms : Type 0 → Type 0
Algorithms Alg = List (AlgorithmType × Alg)

pub record Router (Alg : Type 0) : Type 0 where
  pub default_algorithm : AlgorithmType  -- of the configuration
  pub algorithms : Algorithms Alg
  pub fallback_chain : List AlgorithmType
  pub current_algorithm : List (String × AlgorithmType)
  pub degradation_manager : Manager

unfoldable pub chain_of : AlgorithmType → List AlgorithmType
chain_of AlgorithmType.segment =
    AlgorithmType.snowflake ∷ AlgorithmType.uuid_v7 ∷ AlgorithmType.uuid_v4 ∷ []
chain_of AlgorithmType.snowflake = AlgorithmType.uuid_v7 ∷ AlgorithmType.uuid_v4 ∷ []
chain_of AlgorithmType.uuid_v7 = []
chain_of AlgorithmType.uuid_v4 = []

-- `AlgorithmRouter::new`, at an instant.
unfoldable pub new_router : {Alg : Type 0} → ℕ → AlgorithmType → Router Alg
new_router now default_algorithm = record {
  default_algorithm = default_algorithm;
  algorithms = [];
  fallback_chain = chain_of default_algorithm;
  current_algorithm = [];
  degradation_manager =
      set_fallback_chain
        (set_primary_algorithm (new_manager default_degradation_config now) default_algorithm)
        (chain_of default_algorithm);
}

is_unhealthy : HealthStatus → Bool
is_unhealthy HealthStatus.healthy = false
is_unhealthy (HealthStatus.degraded reason) = false
is_unhealthy (HealthStatus.unhealthy reason) = true

is_degraded : HealthStatus → Bool
is_degraded HealthStatus.healthy = false
is_degraded (HealthStatus.degraded reason) = true
is_degraded (HealthStatus.unhealthy reason) = false

any_status : (HealthStatus → Bool) → List HealthStatus → Bool
any_status test [] = false
any_status test (s ∷ rest) = if test s then true else any_status test rest

overall : List HealthStatus → HealthStatus
overall [] = HealthStatus.unhealthy "No algorithms available"
overall (s ∷ rest) =
    if any_status is_unhealthy (s ∷ rest)
    then HealthStatus.unhealthy "Some algorithms are unhealthy"
    else if any_status is_degraded (s ∷ rest)
    then HealthStatus.degraded "Some algorithms are degraded"
    else HealthStatus.healthy

or_error : {A B : Type 0} → CoreError → Option A × B → Result A × B
or_error e (some id, rest) = (ok id, rest)
or_error e (none, rest) = (err e, rest)

module _ {Alg : Type 0} where
  unfoldable pub register : Router Alg → AlgorithmType → Alg → Router Alg
  register r a alg = record r {
    algorithms = put a alg r.algorithms;
    degradation_manager = register_algorithm r.degradation_manager a;
  }

  -- An algorithm that cannot be built is passed over.
  unfoldable pub install : Router Alg → AlgorithmType → Result Alg → Router Alg
  install r a (ok alg) = register r a alg
  install r a (err e) = r

  unfoldable pub install_each :
      (AlgorithmType → Result Alg) → List AlgorithmType → Router Alg → Router Alg
  install_each build [] r = r
  install_each build (a ∷ rest) r = install_each build rest (install r a (build a))

  unfoldable pub started : Router Alg → Result (Unit {0}) × Router Alg
  started r = elim r.algorithms [
    | [] ↦ (err (CoreError.internal_error "No algorithms available"), r)
    | _ ∷ _ ↦ (ok tt, r)
  ]

  -- `build` answers as `AlgorithmBuilder::build` does.
  unfoldable pub initialize :
      (AlgorithmType → Result Alg) → Router Alg → Result (Unit {0}) × Router Alg
  initialize build r = started (
      install_each build
        (AlgorithmType.segment ∷ AlgorithmType.snowflake ∷ AlgorithmType.uuid_v7
          ∷ AlgorithmType.uuid_v4 ∷ [])
        r)

  unfoldable pub get_algorithm : Router Alg → String → AlgorithmType
  get_algorithm r biz_tag = elim (get biz_tag r.current_algorithm) [
    | some a ↦ a
    | none ↦ r.default_algorithm
  ]

  unfoldable pub set_algorithm : Router Alg → String → AlgorithmType → Router Alg
  set_algorithm r biz_tag a = record r { current_algorithm = put biz_tag a r.current_algorithm }

  -- `health_check` of the trait `IdGenerator`.
  pub health_check : (Alg → HealthStatus) → Router Alg → HealthStatus
  health_check report r = overall (map (λ e. report e.1) r.algorithms)

  module _ {A W : Type 0} (clock : W → ℕ) (call : Alg → W → Result A × W) where
    -- The loop over the fallback chain; `none` where it runs to its end.
    unfoldable pub try_fallbacks :
        Algorithms Alg → List AlgorithmType → Manager → W → Option A × (Manager × W)
    try_fallbacks algorithms [] m w = (none, (m, w))
    try_fallbacks algorithms (a ∷ chain) m w = elim (get a algorithms) [
      | none ↦ try_fallbacks algorithms chain m w
      | some alg ↦
          let done = call alg w in
          elim done.0 [
            | ok id ↦ (some id, (record_generation_result (clock done.1) m a true, done.1))
            | err e ↦
                try_fallbacks algorithms chain (record_generation_result (clock done.1) m a false)
                  done.1
          ]
    ]

    -- `generate_with_algorithm_internal` and `batch_generate_with_algorithm_internal`, which differ
    -- in the call alone.
    pub with_algorithm :
        Algorithms Alg → List AlgorithmType → AlgorithmType → Manager → W → Result A × (Manager × W)
    with_algorithm algorithms chain a m w = elim (get a algorithms) [
      | some alg ↦
          let done = call alg w in
          elim done.0 [
            | ok id ↦ (ok id, (record_generation_result (clock done.1) m a true, done.1))
            | err e ↦ or_error e (
                try_fallbacks algorithms chain (record_generation_result (clock done.1) m a false)
                  done.1)
          ]
      | none ↦
          or_error (CoreError.internal_error "All algorithms failed")
            (try_fallbacks algorithms chain m w)
    ]

    -- `generate` and `batch_generate`, for a tag.
    pub generate : String → Router Alg → W → Result A × (Router Alg × W)
    generate biz_tag r w =
        let done =
          with_algorithm r.algorithms r.fallback_chain (get_algorithm r biz_tag)
            r.degradation_manager w in
        (done.0, (record r { degradation_manager = done.1.0 }, done.1.1))
