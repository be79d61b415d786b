-- ===== src/Etcd/Returns.antt =====
-- An allocation of a worker id comes to an end.
use Prim.Native.String.{String}
use nebula_id.Prelude.{
  ℕ, zero, suc, ◌+◌, ◌-◌, ◌*◌, ◌≤◌, ◌≡◌, refl, arith, Bool, true, false, Option, none, some, ltb,
  ◌⊎◌, inl, inr, Bool-cases,
}
use nebula_id.Etcd.{Answer, ok, failed, Client}
use nebula_id.Etcd.Worker.{
  Allocator, WorkerPath, WorkerAllocatorError, Phase, idle, granting, checking, writing, allocated,
  unreleased, refused, next_id, Node, granted, checked, written, call_in, advance, advance_times,
  allocate, get_allocated_id,
}

-- How many calls of etcd are left at most.
unfoldable pub calls_left : Phase → ℕ
calls_left idle = 0
calls_left granting = 511
calls_left (checking l id) = 2 + 2 * (255 - id)
calls_left (writing l id) = 1 + 2 * (255 - id)
calls_left (allocated l id) = 0
calls_left (unreleased l id) = 0
calls_left (refused e) = 0

-- The id at hand is one that may be given, and one that is held is what the allocator says.
unfoldable pub InRange : Node → Phase → Type 0
InRange n idle = ⊥
InRange n (unreleased l id) = ⊥
InRange n granting = Unit
InRange n (checking l id) = (1 ≤ id) × (id ≤ 255)
InRange n (writing l id) = (1 ≤ id) × (id ≤ 255)
InRange n (allocated l id) = (1 ≤ id) × (id ≤ 255) × (get_allocated_id n.allocator ≡ some id)
InRange n (refused e) = Unit

-- A call leaves fewer.
abbrev Nearer : ℕ → Node → Type 0
Nearer left n = (calls_left n.phase ≤ left - 1) × InRange n n.phase

next_id-Nearer :
    (n : Node) (l id : ℕ)
    → 1 ≤ id
    → id ≤ 255
    → Nearer (1 + 2 * (255 - id)) (record n { phase = next_id l id })
unfolding next_id calls_left InRange
next_id-Nearer n l id low high = elim (Bool-cases (ltb id 255)) [
  | inl more ↦ rw (more, next_id) (ground arith, (ground arith, ground arith))
  | inr last ↦ rw (last, next_id) (ground arith, tt)
]

-- What `allocate` returns: a lease with an id from 1 to 255, which is from then on the allocated
-- one, or an error.
abbrev pub Returned : Node → Type 0
Returned n =
    ((l : ℕ) × (id : ℕ) × (n.phase ≡ allocated l id)
      × (1 ≤ id)
      × (id ≤ 255)
      × (get_allocated_id n.allocator ≡ some id))
    ⊎ ((e : WorkerAllocatorError) × (n.phase ≡ refused e))

module _ {W : Type 0} (client : Client WorkerPath W) (text : String) where
  granted-Nearer : (n : Node) (done : Answer ℕ × W) → Nearer 511 (granted n done).0
  unfolding granted calls_left InRange
  granted-Nearer n (ok l, w) = (ground arith, (ground arith, ground arith))
  granted-Nearer n (failed e, w) = (ground arith, tt)

  checked-Nearer :
      (n : Node) (l id : ℕ) (done : Answer (Option String) × W)
      → 1 ≤ id
      → id ≤ 255
      → Nearer (2 + 2 * (255 - id)) (checked n l id done).0
  unfolding checked calls_left InRange
  checked-Nearer n l id (ok none, w) low high = (ground arith, (low, high))
  checked-Nearer n l id (ok (some value), w) low high =
      let (fewer, range) = next_id-Nearer n l id low high in (omega (arith, fewer), range)
  checked-Nearer n l id (failed e, w) low high =
      let (fewer, range) = next_id-Nearer n l id low high in (omega (arith, fewer), range)

  written-Nearer :
      (n : Node) (l id : ℕ) (done : Answer Bool × W)
      → 1 ≤ id
      → id ≤ 255
      → Nearer (1 + 2 * (255 - id)) (written n l id done).0
  unfolding written calls_left InRange get_allocated_id
  written-Nearer n l id (ok true, w) low high = (ground arith, (low, high, ground arith))
  written-Nearer n l id (ok false, w) low high = next_id-Nearer n l id low high
  written-Nearer n l id (failed e, w) low high = next_id-Nearer n l id low high

  call_in-Nearer :
      (p : Phase) (n : Node) (w : W)
      → n.phase ≡ p
      → InRange n p
      → Nearer (calls_left p) (call_in client text p n w).0
  unfolding call_in calls_left InRange
  call_in-Nearer idle n w same range = absurd range
  call_in-Nearer (unreleased l id) n w same range = absurd range
  call_in-Nearer granting n w same range = granted-Nearer n _
  call_in-Nearer (checking l id) n w same (low, high) = checked-Nearer n l id _ low high
  call_in-Nearer (writing l id) n w same (low, high) = written-Nearer n l id _ low high
  call_in-Nearer (allocated l id) n w same range = rw same (ground arith, range)
  call_in-Nearer (refused e) n w same range = rw same (ground arith, range)

  advance_times-ends :
      (k : ℕ) (n : Node) (w : W)
      → calls_left n.phase ≤ k
      → InRange n n.phase
      → let n' = (advance_times client text k n w).0 in
        (calls_left n'.phase ≡ 0) × InRange n' n'.phase
  unfolding advance_times advance
  advance_times-ends zero n w few range = (omega (arith, few), range)
  advance_times-ends (suc k) n w few range =
      let (n', w') = call_in client text n.phase n w in
      let (fewer, range') = call_in-Nearer n.phase n w refl range in
      advance_times-ends k n' w' (omega (arith, few, fewer)) range'

  ended-Returned :
      (n : Node) (p : Phase) → n.phase ≡ p → calls_left p ≡ 0 → InRange n p → Returned n
  unfolding calls_left InRange
  ended-Returned n (allocated l id) same done (low, high, given) =
      inl (l, id, same, low, high, given)
  ended-Returned n (refused e) same done range = inr (e, same)
  ended-Returned n idle same done range = absurd range
  ended-Returned n (unreleased l id) same done range = absurd range
  ended-Returned n granting same done range = absurd (grind arith)
  ended-Returned n (checking l id) same done range = absurd (grind arith)
  ended-Returned n (writing l id) same done range = absurd (grind arith)

  -- Whatever etcd answers, `allocate` comes to an end within 511 calls: with an id from 1 to 255,
  -- which the allocator has from then on, or with an error.
  pub allocate-Returned : (a : Allocator) (w : W) → Returned (allocate client text a w).0
  unfolding allocate InRange calls_left
  allocate-Returned a w =
      let n : Node = record { allocator = a; phase = granting } in
      let (over, range) = advance_times-ends 511 n w (ground arith) tt in
      let n' = (advance_times client text 511 n w).0 in ended-Returned n' n'.phase refl over range
