-- ===== src/Prelude/Lists.antt =====
-- Lists over the native numbers: length, lookup by position, and predicates by recursion.
use Prim.Native.Nat.{ℕ, zero, suc, ◌+◌, ◌≤◌}
use mathlib.Core.Path.{◌≡◌}
use mathlib.Core.List.{List, [], ◌∷◌, ◌++◌}
use native.Mathlib.Omega.{arith}

module _ {ℓ} {A : Type ℓ} where
  abbrev pub length : List A → ℕ
  length [] = 0
  length (x ∷ xs) = suc (length xs)

  pub length-append : (xs ys : List A) → length (xs ++ ys) ≡ length xs + length ys
  length-append [] ys = omega arith
  length-append (x ∷ xs) ys = omega (arith, length-append xs ys)

  abbrev pub All {κ} : (A → Type κ) → List A → Type κ
  All P [] = Unit {κ}
  All P (x ∷ xs) = P x × All P xs

-- Strictly increasing, with every element at or above the bound.
abbrev pub Increasing : ℕ → List ℕ → Type 0
Increasing low [] = Unit {0}
Increasing low (x ∷ xs) = (low ≤ x) × Increasing (suc x) xs

pub Increasing-mono : {a b : ℕ} (xs : List ℕ) → a ≤ b → Increasing b xs → Increasing a xs
Increasing-mono [] h i = tt
Increasing-mono (x ∷ xs) h i = (omega arith, i.1)

-- `n` numbers from `start` on.
abbrev pub count_from : ℕ → ℕ → List ℕ
count_from start zero = []
count_from start (suc n) = start ∷ count_from (suc start) n
