-- ===== src/Alert/Alternation.antt =====
-- What the evaluations of a rule send.
use nebula_id.Prelude.{
  ℕ, ◌≡◌, arith, Bool, true, false, Bool-cases, inl, inr, not, List, [], ◌∷◌, Option, none, some,
  ◌==◌, ◌&&◌,
}
use nebula_id.Alert.{
  AlertAction, fire, resolve, AlertState, new_state, is_firing, should_fire, promote, demote,
  Evaluation, fire_if, resolve_if, evaluate_rule,
}

unfoldable pub sent : Option AlertAction → List AlertAction → List AlertAction
sent none rest = rest
sent (some a) rest = a ∷ rest

-- What is sent over a sequence of evaluations.
unfoldable pub actions : List Evaluation → ℕ → AlertState → List AlertAction
actions [] for_duration s = []
actions (e ∷ es) for_duration s =
    let done = evaluate_rule e for_duration s in sent done.0 (actions es for_duration done.1)

-- Firings and resolutions by turns; a resolution comes first where the alert is firing.
abbrev pub Alternate : Bool → List AlertAction → Type 0
Alternate now_firing [] = Unit
Alternate now_firing (fire ∷ rest) = (now_firing ≡ false) × Alternate true rest
Alternate now_firing (resolve ∷ rest) = (now_firing ≡ true) × Alternate false rest

fire_if-Alternate :
    (e : Evaluation) (for_duration : ℕ) (s : AlertState) (rest : List AlertAction)
    → Alternate (is_firing (fire_if e for_duration s).1.current_status) rest
    → Alternate (is_firing s.current_status) (sent (fire_if e for_duration s).0 rest)
unfolding sent is_firing fire_if
fire_if-Alternate e for_duration s rest =
    elim (Bool-cases (should_fire e.tested_at s for_duration && not (is_firing s.current_status))) [
      | inl fires ↦
          let quiet : is_firing s.current_status ≡ false = ground arith in
          rw (fires, fire_if) (λ after. (quiet, after))
      | inr keeps ↦ rw (keeps, fire_if) (λ after. after)
    ]

resolve_if-Alternate :
    (s : AlertState) (rest : List AlertAction)
    → Alternate (is_firing (resolve_if s).1.current_status) rest
    → Alternate (is_firing s.current_status) (sent (resolve_if s).0 rest)
unfolding sent is_firing resolve_if
resolve_if-Alternate s rest =
    elim (Bool-cases (is_firing s.current_status && s.consecutive_promotions == 0)) [
      | inl ends ↦
          let loud : is_firing s.current_status ≡ true = ground arith in
          rw (ends, resolve_if) (λ after. (loud, after))
      | inr keeps ↦ rw (keeps, resolve_if) (λ after. after)
    ]

evaluate_rule-Alternate :
    (e : Evaluation) (for_duration : ℕ) (s : AlertState) (rest : List AlertAction)
    → Alternate (is_firing (evaluate_rule e for_duration s).1.current_status) rest
    → Alternate (is_firing s.current_status) (sent (evaluate_rule e for_duration s).0 rest)
unfolding promote demote evaluate_rule fire_if
evaluate_rule-Alternate e for_duration s rest = elim (Bool-cases e.holds) [
  | inl met ↦
      rw (met, evaluate_rule)
        (fire_if-Alternate e for_duration (promote e.promoted_at e.value s) rest)
  | inr unmet ↦ rw (unmet, evaluate_rule) (resolve_if-Alternate (demote s) rest)
]

actions-Alternate :
    (es : List Evaluation) (for_duration : ℕ) (s : AlertState)
    → Alternate (is_firing s.current_status) (actions es for_duration s)
unfolding actions
actions-Alternate [] for_duration s = tt
actions-Alternate (e ∷ es) for_duration s =
    let done = evaluate_rule e for_duration s in
    evaluate_rule-Alternate e for_duration s (actions es for_duration done.1)
      (actions-Alternate es for_duration done.1)

-- However a rule is evaluated, its firings and resolutions are sent by turns, a firing first.
pub new_state-Alternate :
    (es : List Evaluation) (for_duration : ℕ) → Alternate false (actions es for_duration new_state)
unfolding new_state is_firing
new_state-Alternate es for_duration = actions-Alternate es for_duration new_state
