-- ===== src/ApiKeyAuth/Tests.antt =====
-- Runs of src/server/middleware/api_key_auth.rs for clients with numbers as addresses.
use nebula_id.Prelude.{ℕ, ◌+◌, ◌*◌, ◌≡◌, refl, arith, List, [], ◌∷◌, Option, none, some}
use nebula_id.Prelude.Assoc.{nat_eq}
use nebula_id.ApiKeyAuth.{passed, unauthorized, too_many_requests}
use nebula_id.ApiKeyAuth.Window.{add_failure}
use nebula_id.ApiKeyAuth.Refusal.{
  Request, failures_within, decision, logged, decisions, logged_decisions, decisions-logged,
}

abbrev attempt : ℕ → Option ℕ → Request ℕ ℕ
attempt second answer = record {
  client = 7;
  at = second * 1_000_000_000;
  failed_at = second * 1_000_000_000 + 5;
  answer = answer;
}

-- Ten failures, a good key in the same minute, and the key again after five minutes.
abbrev attempts : List (Request ℕ ℕ)
attempts =
    attempt 1 none
    ∷ attempt 2 none
    ∷ attempt 3 none
    ∷ attempt 4 none
    ∷ attempt 5 none
    ∷ attempt 6 none
    ∷ attempt 7 none
    ∷ attempt 8 none
    ∷ attempt 9 none
    ∷ attempt 10 none
    ∷ attempt 11 (some 42)
    ∷ attempt 302 (some 42)
    ∷ []

decisions-logged_example : decisions 0 attempts [] ≡ logged_decisions attempts (λ ip. [])
decisions-logged_example = decisions-logged 0 attempts 0 (ground arith) (omega arith)

attempts_decided : logged_decisions attempts (λ ip. []) ≡ (
    unauthorized
    ∷ unauthorized
    ∷ unauthorized
    ∷ unauthorized
    ∷ unauthorized
    ∷ unauthorized
    ∷ unauthorized
    ∷ unauthorized
    ∷ unauthorized
    ∷ unauthorized
    ∷ too_many_requests
    ∷ passed 42
    ∷ [])
unfolding logged_decisions decision logged add_failure failures_within
attempts_decided = refl
