-- ===== src/AlgorithmRouter/Attempts.antt =====
-- What a request asks of the algorithms, and what it tells the degradation manager.
use Prim.Native.String.{String}
use nebula_id.Prelude.{
  ℕ, ◌≡◌, refl, true, false, List, [], ◌∷◌, Option, none, some, Option-cases, inl, inr, ap,
}
use nebula_id.Prelude.Assoc.{get}
use nebula_id.Types.{CoreError, AlgorithmType, Result, ok, err, answered, Result-cases}
use nebula_id.Degradation.{Manager, record_generation_result}
use nebula_id.Degradation.State.{alg_eq}
use nebula_id.Degradation.Flags.{Op, records, run, apply}
use nebula_id.AlgorithmRouter.{
  Router, Algorithms, try_fallbacks, or_error, get_algorithm, with_algorithm, generate,
}

module _ {Alg A W : Type 0} (clock : W → ℕ) (call : Alg → W → Result A × W) where
  module _ (algorithms : Algorithms Alg) where
    -- `Tried rest w log id w'`: the registered ones of `rest` are called in order, from the state `w`, to
    -- the first that serves; `id` is what it gave, `log` has the outcome of each call, and `w'` is
    -- the state after the last.
    pub data Tried : List AlgorithmType → W → List (ℕ × Op) → Option A → W → Type 0 where
      exhausted : {w : W} → Tried [] w [] none w
      unregistered :
          {a : AlgorithmType} {rest : List AlgorithmType} {w w' : W} {log : List (ℕ × Op)}
          {id : Option A}
          → get a algorithms ≡ none
          → Tried rest w log id w'
          → Tried (a ∷ rest) w log id w'
      serves :
          {a : AlgorithmType} {rest : List AlgorithmType} {w w' : W} {alg : Alg} {id : A}
          → get a algorithms ≡ some alg
          → call alg w ≡ (ok id, w')
          → Tried (a ∷ rest) w ((clock w', records a true) ∷ []) (some id) w'
      fails :
          {a : AlgorithmType} {rest : List AlgorithmType} {w w₁ w' : W} {alg : Alg} {e : CoreError}
          {log : List (ℕ × Op)} {id : Option A}
          → get a algorithms ≡ some alg
          → call alg w ≡ (err e, w₁)
          → Tried rest w₁ log id w'
          → Tried (a ∷ rest) w ((clock w₁, records a false) ∷ log) id w'

    -- The calls of a request that ended with `id`, the manager `m'` and the state `w'`.
    abbrev pub Told : List AlgorithmType → Manager → W → Option A → Manager × W → Type 0
    Told order m w id (m', w') = (log : List (ℕ × Op)) × Tried order w log id w' × (m' ≡ run log m)

    after_failure :
        (a : AlgorithmType) (chain : List AlgorithmType) (m : Manager) (w : W) (alg : Alg)
        (e : CoreError) (w₁ : W) (id : Option A) (end : Manager × W)
        → get a algorithms ≡ some alg
        → call alg w ≡ (err e, w₁)
        → Told chain (record_generation_result (clock w₁) m a false) w₁ id end
        → Told (a ∷ chain) m w id end
    unfolding run apply
    after_failure a chain m w alg e w₁ id end found answer (log, tried, told) =
        ((clock w₁, records a false) ∷ log, fails found answer tried, told)

    try_fallbacks-Told :
        (chain : List AlgorithmType) (m : Manager) (w : W)
        → Told chain m w
            (try_fallbacks clock call algorithms chain m w).0
            (try_fallbacks clock call algorithms chain m w).1
    unfolding try_fallbacks run apply
    try_fallbacks-Told [] m w = ([], exhausted, refl)
    try_fallbacks-Told (a ∷ chain) m w = elim (Option-cases (get a algorithms)) [
      | inl missing ↦
          let (log, tried, told) = try_fallbacks-Told chain m w in
          rw (missing, try_fallbacks) (log, unregistered missing tried, told)
      | inr (alg, found) ↦ elim (Result-cases (call alg w).0) [
        | inl (id, answer) ↦
            rw (found, answer, try_fallbacks)
              (_, serves found (ap (λ x. (x, (call alg w).1)) answer), refl)
        | inr (e, answer) ↦
            rw (found, answer, try_fallbacks)
              (after_failure a chain m w alg e _ _ _ found (ap (λ x. (x, (call alg w).1)) answer) (
                try_fallbacks-Told chain (record_generation_result (clock (call alg w).1) m a false)
                  (call alg w).1))
      ]
    ]

    -- A request that fails has the error of the chosen algorithm, if that is registered.
    abbrev pub Blames : Option Alg → W → Result A → Type 0
    Blames chosen w (ok id) = Unit
    Blames none w (err e) = e ≡ CoreError.internal_error "All algorithms failed"
    Blames (some alg) w (err e) = (call alg w).0 ≡ err e

    abbrev pub Ended :
        Option Alg
        → AlgorithmType
        → List AlgorithmType
        → Manager
        → W
        → Result A × (Manager × W)
        → Type 0
    Ended chosen a chain m w (id, end) = Told (a ∷ chain) m w (answered id) end × Blames chosen w id

    or_error-Ended :
        (e : CoreError) (chosen : Option Alg) (a : AlgorithmType) (chain : List AlgorithmType)
        (m : Manager) (w : W) (done : Option A × (Manager × W))
        → Told (a ∷ chain) m w done.0 done.1
        → Blames chosen w (err e)
        → Ended chosen a chain m w (or_error e done)
    unfolding or_error answered
    or_error-Ended e chosen a chain m w (some id, end) told blamed = (told, tt)
    or_error-Ended e chosen a chain m w (none, end) told blamed = (told, blamed)

    pub with_algorithm-Ended :
        (chain : List AlgorithmType) (a : AlgorithmType) (m : Manager) (w : W)
        → Ended (get a algorithms) a chain m w (with_algorithm clock call algorithms chain a m w)
    unfolding with_algorithm answered run apply
    with_algorithm-Ended chain a m w = elim (Option-cases (get a algorithms)) [
      | inl missing ↦
          let (log, tried, told) = try_fallbacks-Told chain m w in
          rw (missing, with_algorithm)
            (or_error-Ended (CoreError.internal_error "All algorithms failed") none a chain m w
              (try_fallbacks clock call algorithms chain m w)
              (log, unregistered missing tried, told) refl)
      | inr (alg, found) ↦ elim (Result-cases (call alg w).0) [
        | inl (id, answer) ↦
            rw (found, answer, with_algorithm)
              ((_, serves found (ap (λ x. (x, (call alg w).1)) answer), refl), tt)
        | inr (e, answer) ↦
            let w₁ = (call alg w).1 in
            let m₁ = record_generation_result (clock w₁) m a false in
            rw (found, answer, with_algorithm)
              (or_error-Ended e (some alg) a chain m w
                (try_fallbacks clock call algorithms chain m₁ w₁)
                (after_failure a chain m w alg e w₁ _ _ found (ap (λ x. (x, (call alg w).1)) answer)
                  (try_fallbacks-Told chain m₁ w₁))
                answer)
      ]
    ]

  -- A request calls the registered ones of the tag's algorithm and the fallback chain in order, from
  -- the state at hand, up to the first that serves, and answers with its id; the health states do not
  -- bear on this. It tells the degradation manager the outcome of each call, in order, and leaves the
  -- rest of the router alone. If it fails, the error is the tag's algorithm's own, or that all failed
  -- where that is not registered.
  pub generate-Tried :
      (r : Router Alg) (biz_tag : String) (w : W)
      → let a = get_algorithm r biz_tag in
        let (id, (r', w')) = generate clock call biz_tag r w in
        (log : List (ℕ × Op)) × Tried r.algorithms (a ∷ r.fallback_chain) w log (answered id) w'
        × (r' ≡ record r { degradation_manager = run log r.degradation_manager })
        × Blames r.algorithms (get a r.algorithms) w id
  unfolding generate
  generate-Tried r biz_tag w =
      let a = get_algorithm r biz_tag in
      let ((log, tried, told), blamed) =
        with_algorithm-Ended r.algorithms r.fallback_chain a r.degradation_manager w in
      (log, tried, ap (λ m. record r { degradation_manager = m }) told, blamed)
