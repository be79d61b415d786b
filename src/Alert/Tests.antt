-- ===== src/Alert/Tests.antt =====
-- Runs of the alert rules of src/core/monitoring/core.rs.
use nebula_id.Prelude.{ℕ, ◌*◌, ◌≡◌, refl, Bool, true, false, List, [], ◌∷◌, none}
use nebula_id.Alert.{
  Evaluation, fire, resolve, new_state, evaluate_rule, fire_if, resolve_if, promote, demote,
  should_fire, waited, since_or, is_firing,
}
use nebula_id.Alert.Alternation.{Alternate, actions, sent, new_state-Alternate}

abbrev at : Bool → ℕ → Evaluation
at holds second = record {
  holds = holds;
  value = none;
  promoted_at = second * 1_000_000_000;
  tested_at = second * 1_000_000_000;
  fired_at = second * 1_000_000_000;
}

-- The condition holds three times in a row, ten seconds apart, and then does not.
abbrev evaluations : List Evaluation
evaluations =
    at true 10
    ∷ at true 20
    ∷ at true 30
    ∷ at false 40
    ∷ at false 50
    ∷ at false 60
    ∷ at false 70
    ∷ []

new_state-Alternate_example : Alternate false (actions evaluations 20 new_state)
new_state-Alternate_example = new_state-Alternate evaluations 20

evaluations_sent : actions evaluations 20 new_state ≡ fire ∷ resolve ∷ []
unfolding actions sent evaluate_rule new_state fire_if resolve_if promote demote should_fire waited
    since_or is_firing
evaluations_sent = refl
