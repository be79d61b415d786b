-- ===== src/Degradation/Routing.antt =====
-- Which algorithm the manager picks: an independent description of the choice.
use nebula_id.Prelude.{
  ◌≡◌, refl, sym, Bool, true, false, List, [], ◌∷◌, none, some, Bool-cases, Option-cases, All,
  arith, inl, inr, if◌then◌else◌, ◌⊎◌, ◌∙◌,
}
use nebula_id.Prelude.Assoc.{get, Entries, Entries-get}
use nebula_id.Types.{AlgorithmType}
use nebula_id.Degradation.State.{alg_eq, HealthState}
use nebula_id.Degradation.{
  Manager, States, DegradationState, usable, first_fallback, determine_effective_algorithm,
  any_serving, effective_in, get_effective_algorithm, refresh,
}
use nebula_id.Degradation.Flags.{Agrees, Flags}

-- The first element that passes the test.
pub data First (test : AlgorithmType → Bool) : List AlgorithmType → AlgorithmType → Type 0 where
  here : (x : AlgorithmType) (xs : List AlgorithmType) → test x ≡ true → First test (x ∷ xs) x
  there :
      (x a : AlgorithmType) (xs : List AlgorithmType)
      → test x ≡ false
      → First test xs a
      → First test (x ∷ xs) a

abbrev pub None : (AlgorithmType → Bool) → List AlgorithmType → Type 0
None test [] = Unit {0}
None test (x ∷ xs) = (test x ≡ false) × None test xs

-- An algorithm that may be picked: it has a health state, which is not marked degraded.
abbrev pub InService : States → AlgorithmType → Type 0
InService states a = (h : HealthState) × (get a states ≡ some h) × (h.is_degraded ≡ false)

abbrev pub NoneInService : States → List AlgorithmType → Type 0
NoneInService states = All (λ a. ¬ InService states a)

-- The first element that is in service.
pub data FirstInService (states : States) : List AlgorithmType → AlgorithmType → Type 0 where
  head :
      (x : AlgorithmType) (xs : List AlgorithmType)
      → InService states x
      → FirstInService states (x ∷ xs) x
  tail :
      (x a : AlgorithmType) (xs : List AlgorithmType)
      → ¬ InService states x
      → FirstInService states xs a
      → FirstInService states (x ∷ xs) a

-- The choice: the first that is in service of the primary algorithm and the chain, or else the
-- primary.
abbrev pub Chosen : Manager → AlgorithmType → Type 0
Chosen m a =
    FirstInService m.health_states (m.primary_algorithm ∷ m.fallback_chain) a
    ⊎ (NoneInService m.health_states (m.primary_algorithm ∷ m.fallback_chain)
        × (a ≡ m.primary_algorithm))

pub usable-InService :
    (states : States) (a : AlgorithmType) → usable states a ≡ true → InService states a
unfolding usable
usable-InService states a up = elim (Option-cases (get a states)) [
  | inl missing ↦ absurd (grind arith)
  | inr (h, found) ↦ (h, found, ground arith)
]

unusable-InService :
    (states : States) (a : AlgorithmType) → usable states a ≡ false → ¬ InService states a
unfolding usable
unusable-InService states a down (h, found, up) = grind arith

pub InService-usable :
    (states : States) (a : AlgorithmType) → InService states a → usable states a ≡ true
unfolding usable
InService-usable states a (h, found, up) = rw (found, usable, up) refl

pub not_InService-usable :
    (states : States) (a : AlgorithmType) → ¬ InService states a → usable states a ≡ false
not_InService-usable states a out = elim (Bool-cases (usable states a)) [
  | inl up ↦ absurd (out (usable-InService states a up))
  | inr down ↦ down
]

pub None-NoneInService :
    (states : States) (xs : List AlgorithmType) → None (usable states) xs → NoneInService states xs
None-NoneInService states [] none_of = tt
None-NoneInService states (x ∷ xs) (down, none_of) =
    (unusable-InService states x down, None-NoneInService states xs none_of)

First-FirstInService :
    (states : States) (xs : List AlgorithmType) (a : AlgorithmType)
    → First (usable states) xs a
    → FirstInService states xs a
First-FirstInService states xs a (here x rest up) = head x rest (usable-InService states x up)
First-FirstInService states xs a (there x b rest down f) =
    tail x b rest (unusable-InService states x down) (First-FirstInService states rest b f)

abbrev pub Fallback : States → List AlgorithmType → DegradationState → Type 0
Fallback states chain DegradationState.normal = ⊥
Fallback states chain (DegradationState.degraded_to a) = First (usable states) chain a
Fallback states chain DegradationState.critical = None (usable states) chain

there-Fallback :
    (states : States) (a : AlgorithmType) (chain : List AlgorithmType) (d : DegradationState)
    → usable states a ≡ false
    → Fallback states chain d
    → Fallback states (a ∷ chain) d
there-Fallback states a chain (DegradationState.degraded_to b) e f = there a b chain e f
there-Fallback states a chain DegradationState.critical e f = (e, f)
there-Fallback states a chain DegradationState.normal e f = f

pub first_fallback-Fallback :
    (states : States) (chain : List AlgorithmType)
    → Fallback states chain (first_fallback states chain)
unfolding first_fallback
first_fallback-Fallback states [] = tt
first_fallback-Fallback states (a ∷ chain) = elim (Bool-cases (usable states a)) [
  | inl can ↦ rw (can, first_fallback) (here a chain can)
  | inr not_able ↦
      rw (not_able, first_fallback)
        (there-Fallback states a chain (first_fallback states chain) not_able
          (first_fallback-Fallback states chain))
]

-- A serving algorithm is usable, and the other way round, where the flags agree.
serving_usable :
    (states : States) (a : AlgorithmType) (h : HealthState)
    → Entries Agrees states
    → get a states ≡ some h
    → usable states a ≡ h.current_state
unfolding usable
serving_usable states a h flags found =
    rw (found, usable) (sym (Entries-get Agrees a h states found flags))

missing_unusable :
    (states : States) (a : AlgorithmType) → get a states ≡ none → usable states a ≡ false
unfolding usable
missing_unusable states a e = rw (e, usable) refl

unfoldable pub ServedIn : States → List AlgorithmType → AlgorithmType → AlgorithmType → Type 0
ServedIn states chain primary a =
    First (usable states) chain a ⊎ (None (usable states) chain × (a ≡ primary))

there-ServedIn :
    (states : States) (x : AlgorithmType) (chain : List AlgorithmType) (primary a : AlgorithmType)
    → usable states x ≡ false
    → ServedIn states chain primary a
    → ServedIn states (x ∷ chain) primary a
unfolding ServedIn
there-ServedIn states x chain primary a e (inl f) = inl (there x a chain e f)
there-ServedIn states x chain primary a e (inr (n, p)) = inr ((e, n), p)

pub any_serving-ServedIn :
    (primary : AlgorithmType) (states : States) (chain : List AlgorithmType)
    → Entries Agrees states
    → ServedIn states chain primary (any_serving primary states chain)
unfolding any_serving ServedIn
any_serving-ServedIn primary states [] flags = inr (tt, refl)
any_serving-ServedIn primary states (a ∷ chain) flags =
    let rest = any_serving-ServedIn primary states chain flags in
    elim (Option-cases (get a states)) [
      | inl missing ↦
          rw (missing, any_serving)
            (there-ServedIn states a chain primary _ (missing_unusable states a missing) rest)
      | inr (h, found) ↦ elim (Bool-cases h.current_state) [
        | inl on ↦
            rw (found, any_serving, on)
              (inl (here a chain (serving_usable states a h flags found ∙ on)))
        | inr off ↦
            rw (found, any_serving, off)
              (there-ServedIn states a chain primary _ (serving_usable states a h flags found ∙ off)
                rest)
      ]
    ]

ServedIn-Chosen :
    (m : Manager) (a : AlgorithmType)
    → ServedIn m.health_states (m.primary_algorithm ∷ m.fallback_chain) m.primary_algorithm a
    → Chosen m a
unfolding ServedIn
ServedIn-Chosen m a (inl f) =
    inl (First-FirstInService m.health_states (m.primary_algorithm ∷ m.fallback_chain) a f)
ServedIn-Chosen m a (inr (n, e)) =
    inr (None-NoneInService m.health_states (m.primary_algorithm ∷ m.fallback_chain) n, e)

effective-Chosen :
    (m : Manager) (d : DegradationState)
    → Flags m
    → usable m.health_states m.primary_algorithm ≡ false
    → Fallback m.health_states m.fallback_chain d
    → Chosen m (effective_in d m)
unfolding effective_in ServedIn
effective-Chosen m (DegradationState.degraded_to a) flags down f =
    ServedIn-Chosen m a (inl (there m.primary_algorithm a m.fallback_chain down f))
effective-Chosen m DegradationState.critical flags down f = ServedIn-Chosen m _ (
    there-ServedIn m.health_states m.primary_algorithm m.fallback_chain m.primary_algorithm _ down
      (any_serving-ServedIn m.primary_algorithm m.health_states m.fallback_chain flags))
effective-Chosen m DegradationState.normal flags down f = absurd f

-- Where the flags agree, the algorithm in effect right after the state is determined is the first of
-- the primary algorithm and the chain that has a health state which is not marked degraded, or the
-- primary if there is none.
pub refresh-Chosen : (m : Manager) → Flags m → Chosen m (get_effective_algorithm (refresh m))
unfolding refresh determine_effective_algorithm get_effective_algorithm effective_in
refresh-Chosen m flags = decide (usable m.health_states m.primary_algorithm) refl
  where
    decide :
        (up : Bool)
        → usable m.health_states m.primary_algorithm ≡ up
        → Chosen m (
            get_effective_algorithm (record m {
              current_state =
                  if up
                  then DegradationState.normal
                  else first_fallback m.health_states m.fallback_chain;
            }))
    decide true up = inl (
        head m.primary_algorithm m.fallback_chain
          (usable-InService m.health_states m.primary_algorithm up))
    decide false down =
        let last = first_fallback m.health_states m.fallback_chain in
        effective-Chosen (record m { current_state = last }) last flags down
          (first_fallback-Fallback m.health_states m.fallback_chain)
