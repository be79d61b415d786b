-- ===== src/ApiKeyAuth/Size.antt =====
-- How many keys an association list gets.
use nebula_id.Prelude.{
  suc, ◌+◌, ◌≤◌, ◌≡◌, refl, ap, arith, false, Bool-cases, inl, inr, List, [], ◌∷◌, length, some,
}
use nebula_id.Prelude.Assoc.{Eq, get, put, remove}

module _ {K V : Type 0} ⦃e : Eq K⦄ where
  pub length-put : (k : K) (v : V) (m : List (K × V)) → length (put k v m) ≤ length m + 1
  unfolding put
  length-put k v [] = omega arith
  length-put k v ((j, w) ∷ m) = elim (Bool-cases (e.same j k)) [
    | inl here ↦ rw (here, put) (omega arith)
    | inr there ↦ rw (there, put) (omega (arith, length-put k v m))
  ]

  pub length-put_present :
      (k : K) (v w : V) (m : List (K × V)) → get k m ≡ some w → length (put k v m) ≡ length m
  unfolding put get
  length-put_present k v w [] found = absurd (grind arith)
  length-put_present k v w ((j, u) ∷ m) found = elim (Bool-cases (e.same j k)) [
    | inl here ↦ rw (here, put) refl
    | inr there ↦ rw (there, put) (ap suc (length-put_present k v w m (rest there)))
  ]
    where
      rest : e.same j k ≡ false → get k m ≡ some w
      rest there = ground arith

  pub length-remove : (k : K) (m : List (K × V)) → length (remove k m) ≤ length m
  unfolding remove
  length-remove k [] = omega arith
  length-remove k ((j, w) ∷ m) = elim (Bool-cases (e.same j k)) [
    | inl here ↦ rw (here, remove) (omega (arith, length-remove k m))
    | inr there ↦ rw (there, remove) (omega (arith, length-remove k m))
  ]

  pub length-remove-put :
      (k : K) (v : V) (m : List (K × V)) → length (remove k (put k v m)) ≤ length m
  unfolding put remove
  length-remove-put k v [] = ground (arith, e.same_iff k k)
  length-remove-put k v ((j, w) ∷ m) = ground (arith, length-remove k m, length-remove-put k v m)
