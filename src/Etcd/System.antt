-- ===== src/Etcd/System.antt =====
-- Processes that allocate worker ids at the same time, their calls of etcd in any order, and what
-- holds of them between the calls.
use Prim.Native.String.{String}
use nebula_id.Prelude.{
  ℕ, ◌≡◌, ◌≢◌, refl, sym, subst, arith, true, false, Bool-cases, Option, none, some, ◌⊎◌, inl, inr,
  if◌then◌else◌, ◌==◌, ==_iff,
}
use nebula_id.Etcd.{Answer, ok, failed}
use nebula_id.Etcd.Server.{Server, KeptBut}
use nebula_id.Etcd.Worker.{
  Allocator, WorkerPath, worker_path, Phase, idle, granting, checking, writing, allocated,
  unreleased, refused, new_allocator, Node, advance, release,
}

-- The lease that an allocation works under, and an id is held under.
unfoldable pub lease_of : Phase → Option ℕ
lease_of idle = none
lease_of granting = none
lease_of (checking lease id) = some lease
lease_of (writing lease id) = some lease
lease_of (allocated lease id) = some lease
lease_of (unreleased lease id) = none
lease_of (refused e) = none

pub record System (W : Type 0) : Type 0 where
  pub node : ℕ → Node
  pub world : W

abbrev pub set_node : {W : Type 0} → ℕ → Node × W → System W → System W
set_node i (n, w) s = record { node = λ j. if j == i then n else s.node j; world = w }

abbrev pub start : {W : Type 0} → (ℕ → ℕ) → W → System W
start datacenter w = record {
  node = λ i. record { allocator = new_allocator (datacenter i); phase = idle };
  world = w;
}

-- After the release of an id: one that fails leaves the allocator as it was.
unfoldable pub after_release : {W : Type 0} → ℕ → ℕ → (Answer (Unit {0}) × Allocator) × W → Node × W
after_release lease id ((ok x, a), w) = (record { allocator = a; phase = idle }, w)
after_release lease id ((failed e, a), w) =
    (record { allocator = a; phase = unreleased lease id }, w)

pub set_node-all :
    {W : Type 0} (P : ℕ → Node → Type 0) (i : ℕ) (n : Node) (w : W) (s : System W)
    → P i n
    → ((j : ℕ) → i ≢ j → P j (s.node j))
    → (j : ℕ) → P j ((set_node i (n, w) s).node j)
set_node-all P i n w s own others j = elim (Bool-cases (j == i)) [
  | inl same ↦ rw same (subst (λ k. P k n) (sym ((==_iff j i).0 same)) own)
  | inr different ↦ rw different (others j (λ h. grind (arith, ==_iff j i)))
]

module _ {W : Type 0} (server : Server WorkerPath W) where
  -- `allocate` is begun, makes one call, or its id is released, which may fail; a lease ends that no
  -- process works under or holds an id under. An id that a process does not hold is not released by
  -- it: `release` would delete the key of whoever holds it.
  pub data Step : System W → System W → Type 0 where
    begins :
        {s : System W} (i : ℕ)
        → Step s (set_node i (record (s.node i) { phase = granting }, s.world) s)
    calls :
        {s : System W} (i : ℕ) (text : String)
        → Step s (set_node i (advance server.client text (s.node i) s.world) s)
    releases :
        {s : System W} (i lease id : ℕ)
        → (s.node i).phase ≡ allocated lease id
        → Step s (
            set_node i
              (after_release lease id (release server.client "" (s.node i).allocator id s.world))
              s)
    expires :
        {s : System W} (lease : ℕ)
        → ((i : ℕ) → lease_of (s.node i).phase ≢ some lease)
        → Step s (record s { world = server.expire lease s.world })

  pub data Steps : System W → System W → Type 0 where
    here : {s : System W} → Steps s s
    follows : {s s₁ s' : System W} → Step s s₁ → Steps s₁ s' → Steps s s'

  pub record Sound (s : System W) : Type 0 where
    pub issued : (i l : ℕ) → lease_of (s.node i).phase ≡ some l → server.issued l s.world ≡ true
    pub apart :
        (i j l : ℕ)
        → i ≢ j
        → lease_of (s.node i).phase ≡ some l
        → lease_of (s.node j).phase ≢ some l
    pub held :
        (i l id : ℕ)
        → (s.node i).phase ≡ allocated l id
        → server.keeper (worker_path (s.node i).allocator id) s.world ≡ some l

  -- What a process may do, in the state `w`, as it goes from `n` to `n'`.
  pub record Moves (n n' : Node) (w w' : W) : Type 0 where
    pub lease :
        (l : ℕ)
        → lease_of n'.phase ≡ some l
        → (lease_of n.phase ≡ some l) ⊎ ((server.issued l w ≡ false) × (server.issued l w' ≡ true))
    pub keeps :
        (l id : ℕ)
        → n'.phase ≡ allocated l id
        → server.keeper (worker_path n'.allocator id) w' ≡ some l

  moved_apart :
      (i : ℕ) (n : Node) (w : W) (s : System W)
      → Moves (s.node i) n s.world w
      → Sound s
      → (l : ℕ) → lease_of n.phase ≡ some l
      → (j : ℕ) → i ≢ j
      → lease_of (s.node j).phase ≢ some l
  moved_apart i n w s moves sound l h j distinct g = elim (moves.lease l h) [
    | inl before ↦ sound.apart i j l distinct before g
    | inr (new, now) ↦ let known = sound.issued j l g in grind arith
  ]

  pub set_node-Sound :
      {lost : WorkerPath → ℕ → Type 0} (i : ℕ) (n : Node) (w : W) (s : System W)
      → KeptBut server lost s.world w
      → ((j l id : ℕ)
          → i ≢ j
          → (s.node j).phase ≡ allocated l id
          → ¬ lost (worker_path (s.node j).allocator id) l)
      → Moves (s.node i) n s.world w
      → Sound s
      → Sound (set_node i (n, w) s)
  set_node-Sound i n w s kept safe moves sound = record {
    issued =
        set_node-all (λ j x. (l : ℕ) → lease_of x.phase ≡ some l → server.issued l w ≡ true) i n w s
          (λ l h. elim (moves.lease l h) [
            | inl before ↦ kept.remembers l (sound.issued i l before)
            | inr (new, now) ↦ now
          ])
          (λ j other l h. kept.remembers l (sound.issued j l h));
    apart =
        set_node-all
          (λ j x.
            (k l : ℕ)
            → j ≢ k
            → lease_of x.phase ≡ some l
            → lease_of ((set_node i (n, w) s).node k).phase ≢ some l)
          i n w s
          (λ k l other h.
            set_node-all (λ j x. i ≢ j → lease_of x.phase ≢ some l) i n w s
              (λ self. absurd (self refl))
              (λ j distinct again. moved_apart i n w s moves sound l h j distinct) k other)
          (λ j other k l distinct h.
            set_node-all (λ m x. j ≢ m → lease_of x.phase ≢ some l) i n w s
              (λ again g. moved_apart i n w s moves sound l g j other h)
              (λ m away apart. sound.apart j m l apart h) k distinct);
    held =
        set_node-all
          (λ j x.
            (l id : ℕ)
            → x.phase ≡ allocated l id
            → server.keeper (worker_path x.allocator id) w ≡ some l)
          i n w s moves.keeps
          (λ j other l id h. kept.keeps _ l (safe j l id other h) (sound.held j l id h));
  }
