-- ===== src/Etcd.antt =====
-- src/core/coordinator/etcd.rs: the allocation of worker ids and the distributed lock over etcd.
--
-- etcd stands behind the trait `EtcdClientOps`: a `Client` has its operations over the state `W` of
-- the service, in which a call of one process is one step. A path is kept by its parts, as `K`. The
-- text that is written under a path (process and time) is an argument. Logging is left out.
pub mod Worker
pub mod System
pub mod Moves
pub mod Exclusion
pub mod Lock
pub mod Locking
pub mod Server
pub mod Memory
pub mod Returns
mod Tests
use Prim.Native.String.{String}
use nebula_id.Prelude.{ℕ, Bool, Option}

pub data Answer (A : Type 0) : Type 0 where
  ok : A → Answer A
  failed : String → Answer A

-- `EtcdClientOps`, without `ping`, which only the health monitor calls.
pub record Client (K W : Type 0) : Type 0 where
  pub kv_get : K → W → Answer (Option String) × W
  pub kv_delete : K → W → Answer (Unit {0}) × W
  pub lease_grant : ℕ → W → Answer ℕ × W
  pub lease_revoke : ℕ → W → Answer (Unit {0}) × W
  pub txn_check_create_rev_and_put : K → String → ℕ → W → Answer Bool × W
