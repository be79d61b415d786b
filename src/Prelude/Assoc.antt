-- ===== src/Prelude/Assoc.antt =====
-- Maps as association lists, over any type of keys with a Boolean equality.
use nebula_id.Prelude.Tests.{Bool-cases, if◌then◌else◌, ◌==◌, ==_iff}
use Prim.Native.Nat.{ℕ}
use Prim.Native.String.{String}
use text.Mathlib.Text.{◌==◌ as str_eq}
use text.Mathlib.TextEquality.{eq_iff}
use mathlib.Core.Path.{◌≡◌, refl, subst}
use mathlib.Core.Logic.{◌↔◌, inl, inr}
use mathlib.Core.Bool.{Bool, true, false}
use mathlib.Core.Option.{Option, none, some, some_inj}
use mathlib.Core.List.{List, [], ◌∷◌}
use native.Mathlib.Omega.{arith}

pub record Eq {ℓ} (A : Type ℓ) : Type ℓ where
  pub same : A → A → Bool
  pub same_iff : (a b : A) → (same a b ≡ true) ↔ (a ≡ b)

instance abbrev pub string_eq : Eq String
string_eq = record { same = str_eq; same_iff = eq_iff }

instance abbrev pub nat_eq : Eq ℕ
nat_eq = record { same = ◌==◌; same_iff = ==_iff }

-- Of every value in the map.
abbrev pub Entries {ℓ κ μ} : {K : Type ℓ} {V : Type κ} → (V → Type μ) → List (K × V) → Type μ
Entries P [] = Unit
Entries P ((j, w) ∷ m) = P w × Entries P m

module _ {ℓ κ} {K : Type ℓ} {V : Type κ} ⦃e : Eq K⦄ where
  unfoldable pub get : K → List (K × V) → Option V
  get k [] = none
  get k ((j, v) ∷ m) = if e.same j k then some v else get k m

  -- The value at a key that the map has is replaced where it stands.
  unfoldable pub put : K → V → List (K × V) → List (K × V)
  put k v [] = (k, v) ∷ []
  put k v ((j, w) ∷ m) = if e.same j k then (j, v) ∷ m else (j, w) ∷ put k v m

  unfoldable pub remove : K → List (K × V) → List (K × V)
  remove k [] = []
  remove k ((j, w) ∷ m) = if e.same j k then remove k m else (j, w) ∷ remove k m

  pub get-put :
      (k j : K) (v : V) (m : List (K × V))
      → get j (put k v m) ≡ (if e.same k j then some v else get j m)
  unfolding get put
  get-put k j v [] = refl
  get-put k j v ((i, w) ∷ m) =
      ground (arith, e.same_iff k j, e.same_iff i k, e.same_iff i j, get-put k j v m)

  pub get-remove :
      (k j : K) (m : List (K × V)) → get j (remove k m) ≡ (if e.same k j then none else get j m)
  unfolding get remove
  get-remove k j [] = ground arith
  get-remove k j ((i, w) ∷ m) =
      ground (arith, e.same_iff k j, e.same_iff i k, e.same_iff i j, get-remove k j m)

  pub Entries-put {μ} :
      (P : V → Type μ) (k : K) (v : V) (m : List (K × V))
      → P v
      → Entries P m
      → Entries P (put k v m)
  unfolding put
  Entries-put P k v [] p all = (p, tt)
  Entries-put P k v ((j, w) ∷ m) p all = elim (Bool-cases (e.same j k)) [
    | inl here ↦ rw (here, put) (p, all.1)
    | inr there ↦ rw (there, put) (all.0, Entries-put P k v m p all.1)
  ]

  pub Entries-get {μ} :
      (P : V → Type μ) (k : K) (v : V) (m : List (K × V)) → get k m ≡ some v → Entries P m → P v
  unfolding get
  Entries-get P k v [] h all = absurd (grind arith)
  Entries-get P k v ((j, w) ∷ m) h all = elim (Bool-cases (e.same j k)) [
    | inl here ↦ subst P (some_inj.0 (h' here)) all.0
    | inr there ↦ Entries-get P k v m (t' there) all.1
  ]
    where
      h' : e.same j k ≡ true → some w ≡ some v
      h' here = ground arith

      t' : e.same j k ≡ false → get k m ≡ some v
      t' there = ground arith
