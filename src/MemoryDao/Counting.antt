-- ===== src/MemoryDao/Counting.antt =====
-- The counters of the store against plain numbers.
use nebula_id.Prelude.{
  ℕ, ◌+◌, ◌-◌, ◌^◌, ◌<◌, ◌≡◌, refl, sym, ap, ap₂, subst, arith, max, Bool-cases, inl, inr, [], ◌∷◌,
  none, some, ltb, ◌==◌,
}
use nebula_id.Prelude.Assoc.{get, remove}
use nebula_id.MemoryDao.Glob.{Text, text_eq}
use nebula_id.MemoryDao.Decimal.{to_string, digits, parse-to_string}
use nebula_id.MemoryDao.{done, Store, expiry, live, is_expired}
use nebula_id.MemoryDao.Counter.{
  add_one, incr, take_one, decr, current_number, compare_and_update_if_greater,
}
use nebula_id.MemoryDao.Numbers.{
  CounterOp, CounterAnswer, operate, count, set_count, Operations, answers, counts, Words,
  permanent, Keeps, put-Keeps, remove-Keeps, same-Keeps, increments, decrements, raises, number,
}

live_missing :
    (now : ℕ) (key : Text) (store : Store) → get key store ≡ none → live now key store ≡ none
unfolding live
live_missing now key store missing = rw (missing, live) refl

live-permanent :
    (now n : ℕ) (key : Text) (store : Store)
    → get key store ≡ some (permanent n)
    → live now key store ≡ some (permanent n)
unfolding live is_expired
live-permanent now n key store found = rw (found, live) refl

-- What one operation answers and leaves.
abbrev Agree : Text → (Text → ℕ) → CounterAnswer × Store → CounterAnswer × ℕ → Type 0
Agree key f got meant = (got.0 ≡ meant.0) × Keeps got.1 (set_count key meant.1 f)

add_one-Agree :
    (key : Text) (n : ℕ) (store : Store) (f : Text → ℕ)
    → n ≡ f key
    → Keeps store f
    → let r = add_one key (permanent n) n store in
      Agree key f (number r.0, r.1) (count key increments n)
unfolding add_one count
add_one-Agree key n store f same keeps = elim (Bool-cases (ltb (n + 1) (2 ^ 64))) [
  | inl fits ↦ rw (fits, add_one) (refl, put-Keeps key (n + 1) store f (ground arith) keeps)
  | inr over ↦ rw (over, add_one) (refl, same-Keeps key n store f same keeps)
]

take_one-Agree :
    (key : Text) (n : ℕ) (store : Store) (f : Text → ℕ)
    → n ≡ f key
    → n < 2 ^ 64
    → Keeps store f
    → let r = take_one key (permanent n) n store in
      Agree key f (number r.0, r.1) (count key decrements n)
unfolding take_one count
take_one-Agree key n store f same small keeps = elim (Bool-cases (n == 0)) [
  | inl nothing ↦
      let zero_left : n ≡ 0 = ground arith in
      rw (nothing, take_one)
        (
          ap (λ k. number (done k)) (omega (arith, zero_left)),
          same-Keeps key (n - 1) store f (omega (arith, zero_left, same)) keeps,
        )
  | inr some_left ↦ elim (Bool-cases (n - 1 == 0)) [
    | inl last ↦
        let zero_left : 0 ≡ n - 1 = ground arith in
        rw (some_left, last, take_one)
          (
            refl,
            subst (λ k. Keeps (remove key store) (set_count key k f)) zero_left
                (remove-Keeps key store f keeps),
          )
    | inr more ↦
        rw (some_left, more, take_one)
          (refl, put-Keeps key (n - 1) store f (omega (arith, small)) keeps)
  ]
]

current_number-count :
    (now : ℕ) (key : Text) (store : Store) (f : Text → ℕ)
    → Keeps store f
    → current_number now key store ≡ done (f key)
unfolding current_number
current_number-count now key store f keeps = elim ((keeps key).1) [
  | inl (missing, zero_count) ↦
      rw (live_missing now key store missing, zero_count, current_number) refl
  | inr found ↦
      rw
        (
          live-permanent now (f key) key store found,
          parse-to_string (f key) (keeps key).0,
          current_number,
        )
        refl
]

first_operation :
    (now : ℕ) (key : Text) (op : CounterOp) (ops : Operations)
    → Words ((now, key, op) ∷ ops)
    → Words ((now, key, op) ∷ [])
first_operation now key increments ops words = tt
first_operation now key decrements ops words = tt
first_operation now key (raises v) ops words = (words.0, tt)

later_operations :
    (now : ℕ) (key : Text) (op : CounterOp) (ops : Operations)
    → Words ((now, key, op) ∷ ops)
    → Words ops
later_operations now key increments ops words = words
later_operations now key decrements ops words = words
later_operations now key (raises v) ops words = words.1

operate-Agree :
    (now : ℕ) (key : Text) (op : CounterOp) (store : Store) (f : Text → ℕ)
    → Words ((now, key, op) ∷ [])
    → Keeps store f
    → Agree key f (operate now key op store) (count key op (f key))
unfolding operate incr decr compare_and_update_if_greater count to_string digits expiry
operate-Agree now key increments store f word keeps = elim ((keeps key).1) [
  | inl (missing, zero_count) ↦
      rw (live_missing now key store missing, zero_count, incr)
        (refl, put-Keeps key 1 store f (omega arith) keeps)
  | inr found ↦
      rw (live-permanent now (f key) key store found, parse-to_string (f key) (keeps key).0, incr)
        (add_one-Agree key (f key) store f refl keeps)
]
operate-Agree now key decrements store f word keeps = elim ((keeps key).1) [
  | inl (missing, zero_count) ↦
      rw (live_missing now key store missing, zero_count, decr)
        (refl, same-Keeps key 0 store f (sym zero_count) keeps)
  | inr found ↦
      rw (live-permanent now (f key) key store found, parse-to_string (f key) (keeps key).0, decr)
        (take_one-Agree key (f key) store f refl (keeps key).0 keeps)
]
operate-Agree now key (raises v) store f word keeps = elim (Bool-cases (ltb (f key) v)) [
  | inl greater ↦
      let highest : max (f key) v ≡ v = ground arith in
      rw
        (
          current_number-count now key store f keeps,
          greater,
          highest,
          compare_and_update_if_greater,
        )
        (refl, put-Keeps key v store f word.0 keeps)
  | inr lower ↦
      let highest : max (f key) v ≡ f key = ground arith in
      rw (current_number-count now key store f keeps, lower, highest, compare_and_update_if_greater)
        (refl, same-Keeps key (f key) store f refl keeps)
]

operations-same :
    (ops : Operations) (store : Store) (f : Text → ℕ)
    → Words ops
    → Keeps store f
    → answers ops store ≡ counts ops f
unfolding answers counts
operations-same [] store f words keeps = refl
operations-same ((now, key, op) ∷ ops) store f words keeps =
    let (same, kept) =
      operate-Agree now key op store f (first_operation now key op ops words) keeps in
    ap₂ ◌∷◌ same (
      operations-same ops (operate now key op store).1 (set_count key (count key op (f key)).1 f)
        (later_operations now key op ops words) kept)

-- The answers of a new store to increments, decrements and raises of counters that do not expire, on
-- any keys and at any times, are those of plain numbers that start from 0: an increment past 64 bits is
-- an error and changes nothing, a decrement stops at 0, and a raise to a word of 64 bits takes the
-- larger number.
pub operate-counts : (ops : Operations) → Words ops → answers ops [] ≡ counts ops (λ key. 0)
unfolding get
operate-counts ops words =
    operations-same ops [] (λ key. 0) words (λ j. (omega arith, inl (refl, refl)))
