-- ===== src/Etcd/Lock.antt =====
-- `EtcdDistributedLock` and its guard, for one caller at a time. The prefix of the paths is one, so a
-- path is kept by its key.
use Prim.Native.String.{String}
use nebula_id.Prelude.{ℕ, zero, suc, Bool, true, false, Option, none, some, max}
use nebula_id.LocalLock.{LockError, etcd_error, acquire_failed, release_failed}
use nebula_id.Etcd.{Answer, ok, failed, Client}

pub data LockResult (K A : Type 0) : Type 0 where
  done : A → LockResult K A
  refused : LockError K → LockResult K A

pub record Guard (K : Type 0) : Type 0 where
  pub key : K
  pub lease_id : ℕ
  pub released : Bool

-- What follows an attempt; `again` is the next turn.
unfoldable pub settle :
    {K W : Type 0}
    → K
    → LockResult K (Option ℕ) × W
    → (W → LockResult K (Guard K) × W)
    → LockResult K (Guard K) × W
settle key (done (some lease), w) again =
    (done (record { key = key; lease_id = lease; released = false }), w)
settle key (done none, w) again = again w
settle key (refused e, w) again = (refused e, w)

module _ {K W : Type 0} (client : Client K W) (text : String) where
  -- A lease that does not get the key is revoked.
  unfoldable pub attempt_put : ℕ → Answer Bool × W → LockResult K (Option ℕ) × W
  attempt_put lease (ok true, w) = (done (some lease), w)
  attempt_put lease (ok false, w) = (done none, (client.lease_revoke lease w).1)
  attempt_put lease (failed e, w) = (refused (etcd_error e), w)

  unfoldable pub with_lease : K → Answer ℕ × W → LockResult K (Option ℕ) × W
  with_lease key (ok lease, w) =
      attempt_put lease (client.txn_check_create_rev_and_put key text lease w)
  with_lease key (failed e, w) = (refused (etcd_error e), w)

  unfoldable pub try_acquire_lock : K → ℕ → W → LockResult K (Option ℕ) × W
  try_acquire_lock key ttl_seconds w = with_lease key (client.lease_grant ttl_seconds w)

  -- The attempts that are left.
  unfoldable pub acquire_loop : ℕ → K → ℕ → W → LockResult K (Guard K) × W
  acquire_loop zero key ttl_seconds w =
      (refused (acquire_failed key "Lock acquisition failed after 3 retries"), w)
  acquire_loop (suc attempts) key ttl_seconds w =
      settle key (try_acquire_lock key ttl_seconds w)
        (λ w'. acquire_loop attempts key ttl_seconds w')

  unfoldable pub acquire : K → ℕ → W → LockResult K (Guard K) × W
  acquire key ttl_seconds w = acquire_loop 3 key (max ttl_seconds 1) w

  -- `EtcdLockGuard::release`; `shown` is the text of an error.
  unfoldable pub release : Guard K → W → (LockResult K (Unit {0}) × Guard K) × W
  release g w =
      let answer = client.lease_revoke g.lease_id w in
      elim answer.0 [
        | ok x ↦ ((done tt, record g { released = true }), answer.1)
        | failed e ↦ ((refused (release_failed g.key e), g), answer.1)
      ]

  -- Dropping a guard, in a runtime that runs the task it spawns.
  unfoldable pub drop : Guard K → W → W
  drop g w = elim g.released [ true ↦ w | false ↦ (client.lease_revoke g.lease_id w).1 ]
