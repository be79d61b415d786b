-- ===== src/ApiKeyAuth/Refusal.antt =====
-- The refusals against a log of all failures.
use nebula_id.Prelude.{
  ℕ, ◌+◌, ◌*◌, ◌≤◌, ◌≡◌, refl, ap, ap₂, ◌∙◌, arith, Bool, true, false, List, [], ◌∷◌, length,
  Option, none, some, if◌then◌else◌, leb, ltb,
}
use nebula_id.Prelude.Assoc.{Eq, get}
use nebula_id.ApiKeyAuth.{
  recent, or_default, check_auth_failure_rate, answer_with, auth_middleware, Decision, passed,
  unauthorized, too_many_requests, max_tracked_auth_failure_ips,
}
use nebula_id.ApiKeyAuth.Check.{Judged, check_auth_failure_rate-Judged}
use nebula_id.ApiKeyAuth.Window.{add_failure, Tracks, later-Tracks, record-Tracks}

pub record Request (K R : Type 0) : Type 0 where
  pub client : K
  pub at : ℕ
  pub failed_at : ℕ  -- when its failure is recorded, if it fails
  pub answer : Option R

-- How many failures lie less than five minutes, in nanoseconds, before an instant, or after it.
unfoldable pub failures_within : ℕ → List ℕ → ℕ
failures_within now [] = 0
failures_within now (t ∷ ts) =
    (if ltb now (t + 5 * 60 * 1_000_000_000) then 1 else 0) + failures_within now ts

length-recent : (now : ℕ) (ts : List ℕ) → length (recent now ts) ≡ failures_within now ts
unfolding recent failures_within
length-recent now [] = refl
length-recent now (t ∷ ts) = ground (arith, length-recent now ts)

module _ {K R : Type 0} ⦃e : Eq K⦄ where
  -- The decisions on requests in turn, with authentication enabled.
  unfoldable pub decisions : R → List (Request K R) → List (K × List ℕ) → List (Decision R)
  decisions anonymous [] m = []
  decisions anonymous (r ∷ rest) m =
      let d = auth_middleware true anonymous r.at r.failed_at r.client r.answer m in
      d.0 ∷ decisions anonymous rest d.1

  -- The decision where the client has had these failures, ever.
  unfoldable pub decision : List ℕ → Request K R → Decision R
  decision failures r =
      if leb 10 (failures_within r.at failures)
      then too_many_requests
      else elim r.answer [ some identity ↦ passed identity | none ↦ unauthorized ]

  -- Every failure is logged for good.
  unfoldable pub logged : Decision R → Request K R → (K → List ℕ) → K → List ℕ
  logged (passed identity) r log j = log j
  logged unauthorized r log j = add_failure r.client r.failed_at log j
  logged too_many_requests r log j = log j

  unfoldable pub logged_decisions : List (Request K R) → (K → List ℕ) → List (Decision R)
  logged_decisions [] log = []
  logged_decisions (r ∷ rest) log =
      let d = decision (log r.client) r in d ∷ logged_decisions rest (logged d r log)

  -- The readings of the clock never go back.
  abbrev pub Forward : ℕ → List (Request K R) → Type 0
  Forward now [] = Unit {0}
  Forward now (r ∷ rest) = (now ≤ r.at) × (r.at ≤ r.failed_at) × Forward r.failed_at rest

  -- What a request answers and leaves.
  abbrev Agrees : Request K R → (K → List ℕ) → ℕ → Decision R × List (K × List ℕ) → Type 0
  Agrees r log n (d, m) =
      (d ≡ decision (log r.client) r) × Tracks r.failed_at m (logged d r log) × (length m ≤ n)

  answer_with-Agrees :
      (r : Request K R) (log : K → List ℕ) (n : ℕ) (answer : Option R)
      (checked : Bool × List (K × List ℕ))
      → r.answer ≡ answer
      → r.at ≤ r.failed_at
      → Judged r.at r.client n log checked
      → Agrees r log n (answer_with r.failed_at r.client answer checked)
  unfolding answer_with decision logged
  answer_with-Agrees r log n answer (false, m) given forward (let_through, tracks, fits) =
      let blocked : leb 10 (failures_within r.at (log r.client)) ≡ true =
        ground (arith, length-recent r.at (log r.client)) in
      (rw blocked refl, later-Tracks r.at r.failed_at m log forward tracks, fits.0)
  answer_with-Agrees r log n (some identity) (true, m) given forward (let_through, tracks, fits) =
      let free : leb 10 (failures_within r.at (log r.client)) ≡ false =
        ground (arith, length-recent r.at (log r.client)) in
      (rw (free, given) refl, later-Tracks r.at r.failed_at m log forward tracks, fits.0)
  answer_with-Agrees r log n none (true, m) given forward (let_through, tracks, fits) =
      let free : leb 10 (failures_within r.at (log r.client)) ≡ false =
        ground (arith, length-recent r.at (log r.client)) in
      (
        rw (free, given) refl,
        record-Tracks r.failed_at r.client m log
            (later-Tracks r.at r.failed_at m log forward tracks),
        fits.1 r.failed_at,
      )

  decisions-same :
      (anonymous : R) (rs : List (Request K R)) (now : ℕ) (m : List (K × List ℕ)) (log : K → List ℕ)
      → Forward now rs
      → Tracks now m log
      → length m + length rs ≤ max_tracked_auth_failure_ips
      → decisions anonymous rs m ≡ logged_decisions rs log
  unfolding decisions logged_decisions auth_middleware
  decisions-same anonymous [] now m log forward tracks small = refl
  decisions-same anonymous (r ∷ rest) now m log (first, next, forward) tracks small =
      let d = auth_middleware true anonymous r.at r.failed_at r.client r.answer m in
      let (same, tracks', grown) =
        answer_with-Agrees r log (length m + 1) r.answer (check_auth_failure_rate r.at r.client m)
          refl next
          (check_auth_failure_rate-Judged r.at r.client m log
            (later-Tracks now r.at m log first tracks) (omega (arith, small))) in
      ap₂ ◌∷◌ same (
        decisions-same anonymous rest r.failed_at d.1 (logged d.0 r log) forward tracks'
          (omega (arith, grown, small))
        ∙ ap (λ x. logged_decisions rest (logged x r log)) same)

  -- Over at most 10000 requests from a new middleware, while the clock does not go back, a request is
  -- refused exactly where its client has failed ten times or more in the five minutes before it, whatever
  -- it presents; any other passes or fails on what it presents.
  pub decisions-logged :
      (anonymous : R) (rs : List (Request K R)) (start : ℕ)
      → Forward start rs
      → length rs ≤ max_tracked_auth_failure_ips
      → decisions anonymous rs [] ≡ logged_decisions rs (λ ip. [])
  unfolding get or_default
  decisions-logged anonymous rs start forward small =
      decisions-same anonymous rs start [] (λ ip. []) forward (λ ip. refl) (omega (arith, small))
