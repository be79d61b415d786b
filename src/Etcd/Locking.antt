-- ===== src/Etcd/Locking.antt =====
-- A lock that is held is not given again.
use Prim.Native.String.{String}
use nebula_id.Prelude.{
  ℕ, zero, suc, ◌≡◌, ◌≢◌, refl, sym, ◌∙◌, arith, Bool, true, false, Option, none, some, some_inj,
  max,
}
use nebula_id.LocalLock.{LockError}
use nebula_id.Etcd.{Answer, ok, failed}
use nebula_id.Etcd.Server.{Server, Kept, Laws}
use nebula_id.Etcd.Lock.{
  LockResult, done, refused, Guard, attempt_put, with_lease, try_acquire_lock, acquire_loop,
  acquire, settle,
}

-- No lock was got.
unfoldable pub Without : {K A : Type 0} → LockResult K (Option A) → Type 0
Without (done (some a)) = ⊥
Without (done none) = Unit
Without (refused e) = Unit

module _ {K W : Type 0} (server : Server K W) (laws : Laws server) (key : K) (m : ℕ) where
  -- The lease `m` keeps the key.
  abbrev pub Held : W → Type 0
  Held w = (server.keeper key w ≡ some m) × (server.issued m w ≡ true)

  Kept-Held : (w w' : W) → Kept server w w' → Held w → Held w'
  Kept-Held w w' kept (keeps, known) =
      (kept.keeps key m (λ lost. lost) keeps, kept.remembers m known)

  attempt_put-Held :
      (text : String) (lease : ℕ) (put : Answer Bool × W)
      → m ≢ lease
      → (put.0 ≡ ok true → server.keeper key put.1 ≡ some lease)
      → Held put.1
      → let (r, w') = attempt_put server.client text lease put in Without {K = K} r × Held w'
  unfolding attempt_put Without
  attempt_put-Held text lease (ok true, w) other free (keeps, known) =
      absurd (other (some_inj.0 (sym keeps ∙ free refl)))
  attempt_put-Held text lease (ok false, w) other free (keeps, known) =
      let kept = laws.revoke-Kept lease w in
      (tt, (kept.keeps key m other keeps, kept.remembers m known))
  attempt_put-Held text lease (failed e, w) other free held = (tt, held)

  with_lease-Held :
      (text : String) (grant : Answer ℕ × W)
      → ((lease : ℕ) → grant.0 ≡ ok lease → m ≢ lease)
      → Held grant.1
      → let (r, w') = with_lease server.client text key grant in Without r × Held w'
  unfolding with_lease Without
  with_lease-Held text (ok lease, w) fresh held =
      attempt_put-Held text lease (server.client.txn_check_create_rev_and_put key text lease w)
        (fresh lease refl) (laws.put-free key text lease w)
        (Kept-Held w _ (laws.put-Kept key text lease w) held)
  with_lease-Held text (failed e, w) fresh held = (tt, held)

  try_acquire_lock-Held :
      (text : String) (ttl : ℕ) (w : W)
      → Held w
      → let (r, w') = try_acquire_lock server.client text key ttl w in Without r × Held w'
  unfolding try_acquire_lock
  try_acquire_lock-Held text ttl w held =
      with_lease-Held text (server.client.lease_grant ttl w)
        (λ lease answer same.
          let new = (laws.grant-new ttl lease w answer).0 in let known = held.1 in grind arith)
        (Kept-Held w _ (laws.grant-Kept ttl w) held)

  -- Refused, with the key as it was.
  abbrev pub Refused : LockResult K (Guard K) × W → Type 0
  Refused ended = ((e : LockError K) × (ended.0 ≡ refused e)) × Held ended.1

  settle-Refused :
      (tried : LockResult K (Option ℕ) × W) (again : W → LockResult K (Guard K) × W)
      → Without tried.0
      → Held tried.1
      → ((w : W) → Held w → Refused (again w))
      → Refused (settle key tried again)
  unfolding settle Without
  settle-Refused (done none, w) again without held rest = rest w held
  settle-Refused (done (some l), w) again without held rest = absurd without
  settle-Refused (refused e, w) again without held rest = ((e, refl), held)

  acquire_loop-Refused :
      (text : String) (attempts ttl : ℕ) (w : W)
      → Held w
      → Refused (acquire_loop server.client text attempts key ttl w)
  unfolding acquire_loop
  acquire_loop-Refused text zero ttl w held = ((_, refl), held)
  acquire_loop-Refused text (suc attempts) ttl w held =
      let (without, held') = try_acquire_lock-Held text ttl w held in
      settle-Refused (try_acquire_lock server.client text key ttl w) _ without held'
        (λ w'. acquire_loop-Refused text attempts ttl w')

  -- Whatever etcd answers, a request for a lock whose key is kept by a lease comes to an end with an
  -- error, and leaves the key with that lease, over a service that keeps the laws.
  pub acquire-Refused :
      (text : String) (ttl : ℕ) (w : W) → Held w → Refused (acquire server.client text key ttl w)
  unfolding acquire
  acquire-Refused text ttl w held = acquire_loop-Refused text 3 (max ttl 1) w held
