-- ===== src/ApiKeyAuth/Window.antt =====
-- The failures of the last five minutes.
use nebula_id.Prelude.{
  ℕ, ◌≤◌, ◌≡◌, refl, arith, Bool-cases, inl, inr, List, [], ◌∷◌, ◌++◌, sym, ap, ◌∙◌, if◌then◌else◌,
}
use nebula_id.Prelude.Assoc.{Eq, get, put, remove, get-put, get-remove}
use nebula_id.ApiKeyAuth.{recent, or_default, record_auth_failure}

pub recent-recent :
    (now later : ℕ) (ts : List ℕ) → now ≤ later → recent later (recent now ts) ≡ recent later ts
unfolding recent
recent-recent now later [] h = refl
recent-recent now later (t ∷ ts) h = ground (arith, recent-recent now later ts h)

pub recent-append :
    (now : ℕ) (ts us : List ℕ) → recent now (ts ++ us) ≡ recent now ts ++ recent now us
unfolding recent
recent-append now [] us = refl
recent-append now (t ∷ ts) us = ground (arith, recent-append now ts us)

-- The map agrees on the last five minutes with a log of all failures of every client.
module _ {K : Type 0} ⦃e : Eq K⦄ where
  unfoldable pub add_failure : K → ℕ → (K → List ℕ) → K → List ℕ
  add_failure ip t log j = if e.same ip j then log ip ++ (t ∷ []) else log j

  abbrev pub Tracks : ℕ → List (K × List ℕ) → (K → List ℕ) → Type 0
  Tracks now m log = (ip : K) → recent now (or_default (get ip m)) ≡ recent now (log ip)

  pub later-Tracks :
      (now later : ℕ) (m : List (K × List ℕ)) (log : K → List ℕ)
      → now ≤ later
      → Tracks now m log
      → Tracks later m log
  later-Tracks now later m log h tracks ip =
      sym (recent-recent now later (or_default (get ip m)) h)
      ∙ ap (λ ts. recent later ts) (tracks ip)
      ∙ recent-recent now later (log ip) h

  pub put-Tracks :
      (now : ℕ) (ip : K) (m : List (K × List ℕ)) (log : K → List ℕ)
      → Tracks now m log
      → Tracks now (put ip (recent now (or_default (get ip m))) m) log
  unfolding or_default
  put-Tracks now ip m log tracks j = elim (Bool-cases (e.same ip j)) [
    | inl here ↦
        rw (get-put ip j (recent now (or_default (get ip m))) m, here)
          (recent-recent now now (or_default (get ip m)) (omega arith)
            ∙ tracks ip
            ∙ ap (λ k. recent now (log k)) ((e.same_iff ip j).0 here))
    | inr there ↦ rw (get-put ip j (recent now (or_default (get ip m))) m, there) (tracks j)
  ]

  pub remove-Tracks :
      (now : ℕ) (ip : K) (m : List (K × List ℕ)) (log : K → List ℕ)
      → recent now (log ip) ≡ []
      → Tracks now m log
      → Tracks now (remove ip m) log
  unfolding or_default recent
  remove-Tracks now ip m log nothing tracks j = elim (Bool-cases (e.same ip j)) [
    | inl here ↦
        rw (get-remove ip j m, here)
          (sym nothing ∙ ap (λ k. recent now (log k)) ((e.same_iff ip j).0 here))
    | inr there ↦ rw (get-remove ip j m, there) (tracks j)
  ]

  pub record-Tracks :
      (now : ℕ) (ip : K) (m : List (K × List ℕ)) (log : K → List ℕ)
      → Tracks now m log
      → Tracks now (record_auth_failure now ip m) (add_failure ip now log)
  unfolding record_auth_failure add_failure or_default
  record-Tracks now ip m log tracks j = elim (Bool-cases (e.same ip j)) [
    | inl here ↦
        rw (get-put ip j (or_default (get ip m) ++ (now ∷ [])) m, here)
          (recent-append now (or_default (get ip m)) (now ∷ [])
            ∙ ap (λ ts. ts ++ recent now (now ∷ [])) (tracks ip)
            ∙ sym (recent-append now (log ip) (now ∷ [])))
    | inr there ↦ rw (get-put ip j (or_default (get ip m) ++ (now ∷ [])) m, there) (tracks j)
  ]
