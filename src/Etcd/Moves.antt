-- ===== src/Etcd/Moves.antt =====
-- What one call of etcd changes for the process that makes it.
use Prim.Native.String.{String}
use nebula_id.Prelude.{
  ℕ, ◌≡◌, ◌≢◌, refl, ap, ◌∙◌, arith, Bool, true, false, Option, none, some, some_inj, inl, inr,
}
use nebula_id.Etcd.{Answer, ok, failed}
use nebula_id.Etcd.Server.{Server, Kept, Laws}
use nebula_id.Etcd.Worker.{
  WorkerPath, worker_path, Phase, idle, granting, checking, writing, allocated, unreleased, refused,
  next_id, Node, granted, checked, written, call_in,
}
use nebula_id.Etcd.System.{lease_of, Moves}

module _ {W : Type 0} (server : Server WorkerPath W) (laws : Laws server) where
  next_id-lease : (lease id l : ℕ) → lease_of (next_id lease id) ≡ some l → some lease ≡ some l
  unfolding next_id lease_of
  next_id-lease lease id l h = ground arith

  next_id-allocated : (lease id l i : ℕ) → next_id lease id ≢ allocated l i
  unfolding next_id
  next_id-allocated lease id l i h = ground arith

  next_id-Moves :
      (n : Node) (lease id : ℕ) (w w' : W)
      → lease_of n.phase ≡ some lease
      → Kept server w w'
      → Kept server w w' × Moves server n (record n { phase = next_id lease id }) w w'
  next_id-Moves n lease id w w' same kept = (
    kept,
    record {
      lease = λ l h. inl (same ∙ next_id-lease lease id l h);
      keeps = λ l i h. absurd (next_id-allocated lease id l i h);
    },
  )

  granted-Moves :
      (n : Node) (w : W) (done : Answer ℕ × W)
      → Kept server w done.1
      → ((l : ℕ) → done.0 ≡ ok l → (server.issued l w ≡ false) × (server.issued l done.1 ≡ true))
      → let (n', w') = granted n done in Kept server w w' × Moves server n n' w w'
  unfolding granted lease_of
  granted-Moves n w (ok lease, w') kept new = (
    kept,
    record {
      lease = λ l h. inr (new l (ap ok (some_inj.0 h)));
      keeps = λ l id h. absurd (grind arith);
    },
  )
  granted-Moves n w (failed e, w') kept new =
      (kept, record { lease = λ l h. absurd (grind arith); keeps = λ l id h. absurd (grind arith) })

  checked-Moves :
      (n : Node) (lease id : ℕ) (w : W) (done : Answer (Option String) × W)
      → lease_of n.phase ≡ some lease
      → Kept server w done.1
      → let (n', w') = checked n lease id done in Kept server w w' × Moves server n n' w w'
  unfolding checked lease_of
  checked-Moves n lease id w (ok (some value), w') same kept =
      next_id-Moves n lease id w w' same kept
  checked-Moves n lease id w (ok none, w') same kept =
      (kept, record { lease = λ l h. inl (same ∙ h); keeps = λ l i h. absurd (grind arith) })
  checked-Moves n lease id w (failed e, w') same kept = next_id-Moves n lease id w w' same kept

  written-Moves :
      (n : Node) (lease id : ℕ) (w : W) (done : Answer Bool × W)
      → lease_of n.phase ≡ some lease
      → Kept server w done.1
      → (done.0 ≡ ok true → server.keeper (worker_path n.allocator id) done.1 ≡ some lease)
      → let (n', w') = written n lease id done in Kept server w w' × Moves server n n' w w'
  unfolding written lease_of
  written-Moves n lease id w (ok true, w') same kept free = (
    kept,
    record { lease = λ l h. inl (same ∙ h); keeps = λ l i h. let put = free refl in grind arith },
  )
  written-Moves n lease id w (ok false, w') same kept free = next_id-Moves n lease id w w' same kept
  written-Moves n lease id w (failed e, w') same kept free = next_id-Moves n lease id w w' same kept

  pub Kept-refl : (w : W) → Kept server w w
  Kept-refl w = record { keeps = λ k l lost h. h; remembers = λ l h. h }

  resting-Moves :
      (n : Node) (w : W)
      → ((l id : ℕ)
          → n.phase ≡ allocated l id
          → server.keeper (worker_path n.allocator id) w ≡ some l)
      → Kept server w w × Moves server n n w w
  resting-Moves n w held = (Kept-refl w, record { lease = λ l h. inl h; keeps = held })

  pub call_in-Moves :
      (text : String) (p : Phase) (n : Node) (w : W)
      → n.phase ≡ p
      → ((l id : ℕ)
          → n.phase ≡ allocated l id
          → server.keeper (worker_path n.allocator id) w ≡ some l)
      → let (n', w') = call_in server.client text p n w in Kept server w w' × Moves server n n' w w'
  unfolding call_in lease_of
  call_in-Moves text idle n w h held = resting-Moves n w held
  call_in-Moves text granting n w h held =
      granted-Moves n w (server.client.lease_grant 30 w) (laws.grant-Kept 30 w)
        (λ l answer. laws.grant-new 30 l w answer)
  call_in-Moves text (checking lease id) n w h held =
      let k = worker_path n.allocator id in
      checked-Moves n lease id w (server.client.kv_get k w) (ap lease_of h) (laws.get-Kept k w)
  call_in-Moves text (writing lease id) n w h held =
      let k = worker_path n.allocator id in
      written-Moves n lease id w (server.client.txn_check_create_rev_and_put k text lease w)
        (ap lease_of h) (laws.put-Kept k text lease w) (laws.put-free k text lease w)
  call_in-Moves text (allocated lease id) n w h held = resting-Moves n w held
  call_in-Moves text (unreleased lease id) n w h held = resting-Moves n w held
  call_in-Moves text (refused e) n w h held = resting-Moves n w held
