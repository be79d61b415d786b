-- ===== src/ApiKeyAuth.antt =====
-- src/server/middleware/api_key_auth.rs: the refusal of clients that failed to authenticate too often,
-- and the decision of `auth_middleware`, for one request at a time.
--
-- Instants are nanoseconds, and the map of the failures is an association list over the clients'
-- addresses. What the authorization header yields (base64 is decoded by a crate) and what the repository
-- says of the credentials are arguments. Logging is left out.
pub mod Size
pub mod Window
pub mod Check
pub mod Refusal
mod Tests
use nebula_id.Prelude.{
  ℕ, ◌+◌, ◌-◌, ◌*◌, ◌≡◌, Bool, true, false, List, [], ◌∷◌, ◌++◌, length, Option, none, some,
  if◌then◌else◌, ltb, leb,
}
use nebula_id.Prelude.Assoc.{Eq, get, put, remove}

abbrev pub max_tracked_auth_failure_ips : ℕ
max_tracked_auth_failure_ips = 10_000

-- 300 seconds.
abbrev pub failure_window : ℕ
failure_window = 300_000_000_000

-- The instants that are less than five minutes ago.
unfoldable pub recent : ℕ → List ℕ → List ℕ
recent now [] = []
recent now (t ∷ ts) =
    let rest = recent now ts in if ltb (now - t) failure_window then t ∷ rest else rest

-- `entry(..).or_default()`
unfoldable pub or_default : Option (List ℕ) → List ℕ
or_default none = []
or_default (some ts) = ts

unfoldable pub without_empty : {K : Type 0} → List (K × List ℕ) → List (K × List ℕ)
without_empty [] = []
without_empty ((k, []) ∷ m) = without_empty m
without_empty ((k, t ∷ ts) ∷ m) = (k, t ∷ ts) ∷ without_empty m

unfoldable pub sweep : {K : Type 0} → List (K × List ℕ) → List (K × List ℕ)
sweep m =
    if ltb max_tracked_auth_failure_ips (length m)
    then if ltb max_tracked_auth_failure_ips (length (without_empty m)) then [] else without_empty m
    else m

pub data Decision (R : Type 0) : Type 0 where
  passed : R → Decision R
  unauthorized : Decision R
  too_many_requests : Decision R

module _ {K : Type 0} ⦃e : Eq K⦄ where
  -- With what is left of the client's failures.
  unfoldable pub judge : K → List ℕ → List (K × List ℕ) → Bool × List (K × List ℕ)
  judge ip [] m = (true, remove ip m)
  judge ip (t ∷ ts) m = if leb 10 (length (t ∷ ts)) then (false, m) else (true, sweep m)

  unfoldable pub check_auth_failure_rate : ℕ → K → List (K × List ℕ) → Bool × List (K × List ℕ)
  check_auth_failure_rate now ip m =
      let failures = recent now (or_default (get ip m)) in judge ip failures (put ip failures m)

  unfoldable pub record_auth_failure : ℕ → K → List (K × List ℕ) → List (K × List ℕ)
  record_auth_failure now ip m = put ip (or_default (get ip m) ++ (now ∷ [])) m

  -- `answer` is what the header and the repository come to, if they are asked.
  unfoldable pub answer_with :
      {R : Type 0} → ℕ → K → Option R → Bool × List (K × List ℕ) → Decision R × List (K × List ℕ)
  answer_with later ip answer (false, m) = (too_many_requests, m)
  answer_with later ip (some identity) (true, m) = (passed identity, m)
  answer_with later ip none (true, m) = (unauthorized, record_auth_failure later ip m)

  -- `anonymous` is what a request passes as where authentication is disabled.
  unfoldable pub auth_middleware :
      {R : Type 0}
      → Bool
      → R
      → ℕ
      → ℕ
      → K
      → Option R
      → List (K × List ℕ)
      → Decision R × List (K × List ℕ)
  auth_middleware false anonymous now later ip answer m = (passed anonymous, m)
  auth_middleware true anonymous now later ip answer m =
      answer_with later ip answer (check_auth_failure_rate now ip m)
