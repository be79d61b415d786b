-- ===== src/LocalLock.antt =====
-- src/core/coordinator/local.rs: `LocalDistributedLock` and its guard, for one caller at a time.
--
-- The map of the locks is an association list.
use Prim.Native.String.{String}
use nebula_id.Prelude.{Bool, true, false, List, none, some}
use nebula_id.Prelude.Assoc.{Eq, get, put, remove}

pub data LockError (K : Type 0) : Type 0 where
  connection_failed : String → LockError K
  timeout : (key : K) → LockError K
  acquire_failed : (key : K) (reason : String) → LockError K
  release_failed : (key : K) (reason : String) → LockError K
  etcd_error : String → LockError K
  not_configured : LockError K
  service_unavailable : LockError K

-- A guard is the key that it releases.
pub data Acquired (K : Type 0) : Type 0 where
  guard : K → Acquired K
  refused : LockError K → Acquired K

module _ {K : Type 0} ⦃e : Eq K⦄ where
  unfoldable pub is_locked : K → List (K × Bool) → Bool
  is_locked key locks = elim (get key locks) [ none ↦ false | some held ↦ held ]

  unfoldable pub acquire_lock : K → List (K × Bool) → List (K × Bool)
  acquire_lock key locks = put key true locks

  unfoldable pub release_lock : K → List (K × Bool) → List (K × Bool)
  release_lock key locks = remove key locks

  unfoldable pub acquire : K → List (K × Bool) → Acquired K × List (K × Bool)
  acquire key locks = elim (is_locked key locks) [
    | true ↦ (refused (acquire_failed key "Lock already held in local mode"), locks)
    | false ↦ (guard key, acquire_lock key locks)
  ]
