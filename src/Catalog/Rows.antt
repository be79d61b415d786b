-- ===== src/Catalog/Rows.antt =====
-- Rows that a filter passes over are not seen by it, whatever is done to them.
use nebula_id.Prelude.{
  ℕ, ◌==◌, ==_iff, ◌≡◌, refl, arith, Bool, true, false, not, ◌&&◌, List, [], ◌∷◌, ◌++◌, All, some,
  subst, Bool-cases, inl, inr,
}
use nebula_id.Catalog.Table.{rows_where, first, any, swap}

module _ {R : Type 0} (p : R → Bool) where
  pub rows_where-append_other :
      (rs : List R) (r : R) → p r ≡ false → rows_where p (rs ++ r ∷ []) ≡ rows_where p rs
  unfolding rows_where
  rows_where-append_other [] r h = rw h refl
  rows_where-append_other (x ∷ rs) r h = ground (arith, rows_where-append_other rs r h)

  pub rows_where-rows_where :
      (q : R → Bool) (rs : List R)
      → All (λ r. (q r && p r) ≡ false) rs
      → rows_where p (rows_where (λ r. not (q r)) rs) ≡ rows_where p rs
  unfolding rows_where
  rows_where-rows_where q [] h = refl
  rows_where-rows_where q (r ∷ rs) h = ground (arith, rows_where-rows_where q rs h.1)

  pub rows_where-swap :
      (q : R → Bool) (new : R) (rs : List R)
      → All (λ r. (q r && p r) ≡ false) rs
      → p new ≡ false
      → rows_where p (swap q new rs) ≡ rows_where p rs
  unfolding rows_where swap
  rows_where-swap q new [] h o = refl
  rows_where-swap q new (r ∷ rs) h o = ground (arith, rows_where-swap q new rs h.1 o)

module _ {R : Type 0} (key : R → ℕ) where
  abbrev pub Fresh : ℕ → List R → Type 0
  Fresh id rs = All (λ r. (key r == id) ≡ false) rs

  -- No two rows have one primary key.
  abbrev pub Distinct : List R → Type 0
  Distinct [] = Unit
  Distinct (r ∷ rs) = Fresh (key r) rs × Distinct rs

  Fresh-append :
      (id : ℕ) (rs : List R) (r : R) → Fresh id rs → (key r == id) ≡ false → Fresh id (rs ++ r ∷ [])
  Fresh-append id [] r h e = (e, tt)
  Fresh-append id (x ∷ rs) r h e = (h.0, Fresh-append id rs r h.1 e)

  pub Distinct-append :
      (rs : List R) (r : R)
      → any (λ q. key q == key r) rs ≡ false
      → Distinct rs
      → Distinct (rs ++ r ∷ [])
  Distinct-append [] r h d = (tt, tt)
  Distinct-append (x ∷ rs) r h d =
      (Fresh-append (key x) rs r d.0 (ground arith), Distinct-append rs r (ground arith) d.1)

  Fresh-rows_where :
      (q : R → Bool) (id : ℕ) (rs : List R) → Fresh id rs → Fresh id (rows_where q rs)
  unfolding rows_where
  Fresh-rows_where q id [] h = tt
  Fresh-rows_where q id (r ∷ rs) h = elim (Bool-cases (q r)) [
    | inl kept ↦ rw (kept, rows_where) (h.0, Fresh-rows_where q id rs h.1)
    | inr left ↦ rw (left, rows_where) (Fresh-rows_where q id rs h.1)
  ]

  pub Distinct-rows_where : (q : R → Bool) (rs : List R) → Distinct rs → Distinct (rows_where q rs)
  unfolding rows_where
  Distinct-rows_where q [] d = tt
  Distinct-rows_where q (r ∷ rs) d = elim (Bool-cases (q r)) [
    | inl kept ↦
        rw (kept, rows_where) (Fresh-rows_where q (key r) rs d.0, Distinct-rows_where q rs d.1)
    | inr left ↦ rw (left, rows_where) (Distinct-rows_where q rs d.1)
  ]

  Fresh-swap :
      (id new_id : ℕ) (new : R) (rs : List R)
      → key new ≡ new_id
      → Fresh id rs
      → Fresh id (swap (λ r. key r == new_id) new rs)
  unfolding swap
  Fresh-swap id new_id new [] e h = tt
  Fresh-swap id new_id new (r ∷ rs) e h = elim (Bool-cases (key r == new_id)) [
    | inl here ↦ rw (here, swap) (ground arith, Fresh-swap id new_id new rs e h.1)
    | inr there ↦ rw (there, swap) (h.0, Fresh-swap id new_id new rs e h.1)
  ]

  pub Distinct-swap :
      (new_id : ℕ) (new : R) (rs : List R)
      → key new ≡ new_id
      → Distinct rs
      → Distinct (swap (λ r. key r == new_id) new rs)
  unfolding swap
  Distinct-swap new_id new [] e d = tt
  Distinct-swap new_id new (r ∷ rs) e d = elim (Bool-cases (key r == new_id)) [
    | inl here ↦
        rw (here, swap)
          (
            Fresh-swap (key new) new_id new rs e (subst (λ i. Fresh i rs) (ground arith) d.0),
            Distinct-swap new_id new rs e d.1,
          )
    | inr there ↦
        rw (there, swap) (Fresh-swap (key r) new_id new rs e d.0, Distinct-swap new_id new rs e d.1)
  ]

  Fresh-other :
      (p : R → Bool) (id : ℕ) (rs : List R)
      → Fresh id rs
      → All (λ r. ((key r == id) && p r) ≡ false) rs
  Fresh-other p id [] h = tt
  Fresh-other p id (r ∷ rs) h = (ground arith, Fresh-other p id rs h.1)

  -- Where the row with a key is not passed, no row with the key is.
  pub first-other :
      (p : R → Bool) (id : ℕ) (rs : List R) {b : R}
      → Distinct rs
      → first (λ r. key r == id) rs ≡ some b
      → p b ≡ false
      → All (λ r. ((key r == id) && p r) ≡ false) rs
  unfolding first
  first-other p id [] d e h = tt
  first-other p id (r ∷ rs) {b} d e h = elim (Bool-cases (key r == id)) [
    | inl here ↦ (
      ground arith,
      Fresh-other p id rs (subst (λ i. Fresh i rs) ((==_iff (key r) id).0 here) d.0),
    )
    | inr there ↦ (ground arith, first-other p id rs {b = b} d.1 (ground arith) h)
  ]

pub first-All :
    {R : Type 0} (q p : R → Bool) (rs : List R) {b : R}
    → first q rs ≡ some b
    → All (λ r. (q r && p r) ≡ false) rs
    → (q b ≡ true) × (p b ≡ false)
unfolding first
first-All q p [] e h = cc
first-All q p (r ∷ rs) {b} e h = elim (Bool-cases (q r)) [
  | inl here ↦ (ground arith, ground arith)
  | inr there ↦ first-All q p rs (ground arith) h.1
]
