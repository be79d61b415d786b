-- ===== src/MemoryDao/Numbers.antt =====
-- Plain numbers as counters, and a store that keeps them.
use nebula_id.Prelude.{
  ℕ, ◌+◌, ◌-◌, ◌^◌, ◌<◌, ◌≡◌, refl, arith, max, Bool, Bool-cases, inl, inr, ◌⊎◌, List, [], ◌∷◌,
  Option, none, some, if◌then◌else◌, ltb,
}
use nebula_id.Prelude.Assoc.{get, put, remove, get-put, get-remove}
use nebula_id.MemoryDao.Glob.{Text, text_eq, same_text, same_text_iff}
use nebula_id.MemoryDao.Decimal.{to_string}
use nebula_id.MemoryDao.{DaoResult, done, refused, incr_overflow, Entry, Store}
use nebula_id.MemoryDao.Counter.{incr, decr, compare_and_update_if_greater}

pub data CounterOp : Type 0 where
  increments : CounterOp
  decrements : CounterOp
  raises : ℕ → CounterOp

pub data CounterAnswer : Type 0 where
  number : DaoResult ℕ → CounterAnswer
  raised : DaoResult Bool → CounterAnswer

-- One operation on a key, of a counter that does not expire.
unfoldable pub operate : ℕ → Text → CounterOp → Store → CounterAnswer × Store
operate now key increments store = let r = incr now key 0 store in (number r.0, r.1)
operate now key decrements store = let r = decr now key store in (number r.0, r.1)
operate now key (raises v) store =
    let r = compare_and_update_if_greater now key v 0 store in (raised r.0, r.1)

-- The same of a number.
unfoldable pub count : Text → CounterOp → ℕ → CounterAnswer × ℕ
count key increments n =
    if ltb (n + 1) (2 ^ 64)
    then (number (done (n + 1)), n + 1)
    else (number (refused (incr_overflow key)), n)
count key decrements n = (number (done (n - 1)), n - 1)
count key (raises v) n = (raised (done (ltb n v)), max n v)

unfoldable pub set_count : Text → ℕ → (Text → ℕ) → Text → ℕ
set_count key n f j = if same_text key j then n else f j

-- Operations, each at its instant and on its key.
abbrev pub Operations : Type 0
Operations = List (ℕ × Text × CounterOp)

unfoldable pub answers : Operations → Store → List CounterAnswer
answers [] store = []
answers ((now, key, op) ∷ ops) store = let r = operate now key op store in r.0 ∷ answers ops r.1

unfoldable pub counts : Operations → (Text → ℕ) → List CounterAnswer
counts [] f = []
counts ((now, key, op) ∷ ops) f =
    let r = count key op (f key) in r.0 ∷ counts ops (set_count key r.1 f)

-- The values to raise to are words of 64 bits.
abbrev pub Words : Operations → Type 0
Words [] = Unit
Words ((now, key, raises v) ∷ ops) = (v < 2 ^ 64) × Words ops
Words ((now, key, increments) ∷ ops) = Words ops
Words ((now, key, decrements) ∷ ops) = Words ops

abbrev pub permanent : ℕ → Entry
permanent n = record { value = to_string n; expire_at = none }

-- The store has the number `n` at a key, or nothing where that is 0.
abbrev Has : ℕ → Option Entry → Type 0
Has n found = ((found ≡ none) × (n ≡ 0)) ⊎ (found ≡ some (permanent n))

abbrev pub Keeps : Store → (Text → ℕ) → Type 0
Keeps store f = (j : Text) → (f j < 2 ^ 64) × Has (f j) (get j store)

pub put-Keeps :
    (key : Text) (n : ℕ) (store : Store) (f : Text → ℕ)
    → n < 2 ^ 64
    → Keeps store f
    → Keeps (put key (permanent n) store) (set_count key n f)
unfolding set_count
put-Keeps key n store f small keeps j = elim (Bool-cases (same_text key j)) [
  | inl here ↦ rw (here, get-put key j (permanent n) store, here) (small, inr refl)
  | inr there ↦ rw (there, get-put key j (permanent n) store, there) (keeps j)
]

pub remove-Keeps :
    (key : Text) (store : Store) (f : Text → ℕ)
    → Keeps store f
    → Keeps (remove key store) (set_count key 0 f)
unfolding set_count
remove-Keeps key store f keeps j = elim (Bool-cases (same_text key j)) [
  | inl here ↦ rw (here, get-remove key j store, here) (omega arith, inl (refl, refl))
  | inr there ↦ rw (there, get-remove key j store, there) (keeps j)
]

pub same-Keeps :
    (key : Text) (n : ℕ) (store : Store) (f : Text → ℕ)
    → n ≡ f key
    → Keeps store f
    → Keeps store (set_count key n f)
unfolding set_count
same-Keeps key n store f same keeps j = elim (Bool-cases (same_text key j)) [
  | inl here ↦ rw (here, same, (same_text_iff key j).0 here) (keeps j)
  | inr there ↦ rw there (keeps j)
]
