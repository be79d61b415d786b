-- ===== src/AlgorithmRouter/Tests.antt =====
-- A router over four algorithms, of which Snowflake cannot be built and only UUID v4 serves.
use nebula_id.Prelude.{ℕ, suc, ◌≡◌, refl, List, [], ◌∷◌, inl}
use nebula_id.Prelude.Assoc.{get, put}
use nebula_id.Types.{CoreError, AlgorithmType, Result, ok, err, answered}
use nebula_id.Degradation.State.{alg_eq}
use nebula_id.Degradation.Flags.{Op, run}
use nebula_id.AlgorithmRouter.{
  Router, new_router, get_algorithm, initialize, generate, with_algorithm, started, install_each,
  install, register, or_error, try_fallbacks, chain_of,
}
use nebula_id.AlgorithmRouter.Attempts.{Tried, Blames, generate-Tried}
use nebula_id.AlgorithmRouter.Supply.{requests, sets, happen, initialize-serves}

build : AlgorithmType → Result AlgorithmType
build AlgorithmType.segment = ok AlgorithmType.segment
build AlgorithmType.snowflake = err (CoreError.configuration_error "worker id")
build AlgorithmType.uuid_v7 = ok AlgorithmType.uuid_v7
build AlgorithmType.uuid_v4 = ok AlgorithmType.uuid_v4

-- The state counts the calls.
answer : AlgorithmType → ℕ → Result ℕ
answer AlgorithmType.segment n = err (CoreError.segment_exhausted n)
answer AlgorithmType.snowflake n = err (CoreError.sequence_overflow n)
answer AlgorithmType.uuid_v7 n = err CoreError.timeout_error
answer AlgorithmType.uuid_v4 n = ok n

abbrev call : AlgorithmType → ℕ → Result ℕ × ℕ
call a n = (answer a n, suc n)

abbrev clock : ℕ → ℕ
clock n = n

abbrev router : Router AlgorithmType
router = (initialize build (new_router 0 AlgorithmType.segment)).1

generate-Tried_example :
    let (id, (r', w')) = generate clock call "orders" router 5 in
    (log : List (ℕ × Op)) × Tried clock call router.algorithms
      (get_algorithm router "orders" ∷ router.fallback_chain)
      5
      log
      (answered id)
      w'
    × (r' ≡ record router { degradation_manager = run log router.degradation_manager })
    × Blames clock call router.algorithms
        (get (get_algorithm router "orders") router.algorithms)
        5
        id
generate-Tried_example = generate-Tried clock call router "orders" 5

generate_test : (generate clock call "orders" router 5).0 ≡ ok 7
unfolding generate get_algorithm with_algorithm get initialize started install_each install build
    register put new_router answer or_error try_fallbacks chain_of
generate_test = refl

initialize-serves_example :
    let (r, w') =
      happen clock call
        (requests "orders" ∷ sets "orders" AlgorithmType.snowflake ∷ requests "users" ∷ [])
        ((initialize build (new_router 0 AlgorithmType.segment)).1, 3) in
    (id : ℕ) × ((generate clock call "orders" r w').0 ≡ ok id)
unfolding answer build
initialize-serves_example =
    initialize-serves clock call build 0 AlgorithmType.segment AlgorithmType.uuid_v4 (inl refl) refl
      (λ n. (n, refl))
      (requests "orders" ∷ sets "orders" AlgorithmType.snowflake ∷ requests "users" ∷ []) "orders" 3
