-- ===== src/ApiKeyAuth/Check.antt =====
-- One check of a client's failures, while the map is small.
use nebula_id.Prelude.{
  ℕ, ◌+◌, ◌≤◌, ◌≡◌, refl, sym, arith, Bool, not, Bool-cases, inl, inr, List, [], ◌∷◌, ◌++◌, length,
  some, leb,
}
use nebula_id.Prelude.Assoc.{Eq, get, put, remove, get-put}
use nebula_id.ApiKeyAuth.{
  recent, or_default, sweep, judge, check_auth_failure_rate, record_auth_failure,
  max_tracked_auth_failure_ips,
}
use nebula_id.ApiKeyAuth.Window.{Tracks, put-Tracks, remove-Tracks}
use nebula_id.ApiKeyAuth.Size.{length-put, length-put_present, length-remove-put}

module _ {K : Type 0} ⦃e : Eq K⦄ where
  -- A map that a request left, of a size of at most `n` also when it records a failure.
  abbrev pub Fits : ℕ → K → List (K × List ℕ) → Type 0
  Fits n ip m = (length m ≤ n) × ((t : ℕ) → length (record_auth_failure t ip m) ≤ n)

  put-Fits : (ip : K) (ts : List ℕ) (m : List (K × List ℕ)) → Fits (length m + 1) ip (put ip ts m)
  unfolding record_auth_failure
  put-Fits ip ts m = (
    length-put ip ts m,
    λ t.
        let present : get ip (put ip ts m) ≡ some ts =
          ground (arith, get-put ip ip ts m, e.same_iff ip ip) in
        let same =
          length-put_present ip (or_default (get ip (put ip ts m)) ++ (t ∷ [])) ts (put ip ts m)
            present in
        omega (arith, same, length-put ip ts m),
  )

  remove-Fits :
      (ip : K) (ts : List ℕ) (m : List (K × List ℕ))
      → Fits (length m + 1) ip (remove ip (put ip ts m))
  unfolding record_auth_failure
  remove-Fits ip ts m = (
    omega (arith, length-remove-put ip ts m),
    λ t.
        let m' = remove ip (put ip ts m) in
        omega
          (arith, length-remove-put ip ts m, length-put ip (or_default (get ip m') ++ (t ∷ [])) m'),
  )

  sweep-fits : (m : List (K × List ℕ)) → length m ≤ max_tracked_auth_failure_ips → sweep m ≡ m
  unfolding sweep
  sweep-fits m small = ground arith

  -- The client is let through exactly where the log has fewer than ten failures.
  abbrev pub Judged : ℕ → K → ℕ → (K → List ℕ) → Bool × List (K × List ℕ) → Type 0
  Judged now ip n log c =
      (c.0 ≡ not (leb 10 (length (recent now (log ip))))) × Tracks now c.1 log × Fits n ip c.1

  judge-Judged :
      (now : ℕ) (ip : K) (ts : List ℕ) (m : List (K × List ℕ)) (log : K → List ℕ)
      → ts ≡ recent now (log ip)
      → Tracks now (put ip ts m) log
      → length m + 1 ≤ max_tracked_auth_failure_ips
      → Judged now ip (length m + 1) log (judge ip ts (put ip ts m))
  unfolding judge
  judge-Judged now ip [] m log same tracks small = (
    rw (← same) refl,
    remove-Tracks now ip (put ip [] m) log (sym same) tracks,
    remove-Fits ip [] m,
  )
  judge-Judged now ip (t ∷ ts) m log same tracks small =
      elim (Bool-cases (leb 10 (length (t ∷ ts)))) [
        | inl many ↦ rw (many, judge) (rw (← same, many) refl, tracks, put-Fits ip (t ∷ ts) m)
        | inr few ↦
            rw
              (
                few,
                judge,
                sweep-fits (put ip (t ∷ ts) m) (omega (arith, small, length-put ip (t ∷ ts) m)),
              )
              (rw (← same, few) refl, tracks, put-Fits ip (t ∷ ts) m)
      ]

  pub check_auth_failure_rate-Judged :
      (now : ℕ) (ip : K) (m : List (K × List ℕ)) (log : K → List ℕ)
      → Tracks now m log
      → length m + 1 ≤ max_tracked_auth_failure_ips
      → Judged now ip (length m + 1) log (check_auth_failure_rate now ip m)
  unfolding check_auth_failure_rate
  check_auth_failure_rate-Judged now ip m log tracks small =
      judge-Judged now ip (recent now (or_default (get ip m))) m log (tracks ip)
        (put-Tracks now ip m log tracks) small
