-- ===== src/Etcd/Worker.antt =====
-- `EtcdWorkerAllocator`: an allocation of a worker id, one call of etcd at a time.
use Prim.Native.String.{String}
use nebula_id.Prelude.{
  ℕ, zero, suc, Bool, true, false, Option, none, some, if◌then◌else◌, ltb, ◌==◌,
}
use nebula_id.Etcd.{Answer, ok, failed, Client}

pub data WorkerAllocatorError : Type 0 where
  connection_failed : String → WorkerAllocatorError
  no_available_id : WorkerAllocatorError
  lease_renewal_failed : String → WorkerAllocatorError
  cancelled : WorkerAllocatorError
  etcd_error : String → WorkerAllocatorError
  not_configured : WorkerAllocatorError

-- The parts of a worker's path after the prefix "/idgen/workers".
pub record WorkerPath : Type 0 where
  pub datacenter_id : ℕ
  pub worker_id : ℕ

pub record Allocator : Type 0 where
  pub datacenter_id : ℕ
  pub allocated_id : ℕ
  pub lease_id : ℕ
  pub health_status : ℕ

unfoldable pub new_allocator : ℕ → Allocator
new_allocator datacenter_id = record {
  datacenter_id = datacenter_id;
  allocated_id = 0;
  lease_id = 0;
  health_status = 0;
}

abbrev pub worker_path : Allocator → ℕ → WorkerPath
worker_path a worker_id = record { datacenter_id = a.datacenter_id; worker_id = worker_id }

abbrev pub max_worker_id : ℕ
max_worker_id = 255

-- Where an allocation stands. `checking` and `writing` are the two calls of `try_allocate_id`.
pub data Phase : Type 0 where
  idle : Phase
  granting : Phase
  checking : (lease : ℕ) (worker_id : ℕ) → Phase
  writing : (lease : ℕ) (worker_id : ℕ) → Phase
  allocated : (lease : ℕ) (worker_id : ℕ) → Phase  -- returned `Ok`
  unreleased : (lease : ℕ) (worker_id : ℕ) → Phase  -- `release` returned `Err` since
  refused : WorkerAllocatorError → Phase  -- returned `Err`

-- The next turn of the loop of `do_allocate`.
unfoldable pub next_id : ℕ → ℕ → Phase
next_id lease worker_id =
    if ltb worker_id max_worker_id then checking lease (suc worker_id) else refused no_available_id

unfoldable pub get_allocated_id : Allocator → Option ℕ
get_allocated_id a = if a.allocated_id == 0 then none else some a.allocated_id

unfoldable pub is_healthy : Allocator → Bool
is_healthy a = a.health_status == 1

-- A process with its allocation.
pub record Node : Type 0 where
  pub allocator : Allocator
  pub phase : Phase

unfoldable pub granted : {W : Type 0} → Node → Answer ℕ × W → Node × W
granted n (ok lease, w) = (
  record n { allocator = record (n.allocator) { lease_id = lease }; phase = checking lease 1 },
  w,
)
granted n (failed e, w) = (record n { phase = refused (lease_renewal_failed e) }, w)

unfoldable pub checked : {W : Type 0} → Node → ℕ → ℕ → Answer (Option String) × W → Node × W
checked n lease id (ok (some value), w) = (record n { phase = next_id lease id }, w)
checked n lease id (ok none, w) = (record n { phase = writing lease id }, w)
checked n lease id (failed e, w) = (record n { phase = next_id lease id }, w)

unfoldable pub written : {W : Type 0} → Node → ℕ → ℕ → Answer Bool × W → Node × W
written n lease id (ok true, w) = (
  record n { allocator = record (n.allocator) { allocated_id = id }; phase = allocated lease id },
  w,
)
written n lease id (ok false, w) = (record n { phase = next_id lease id }, w)
written n lease id (failed e, w) = (record n { phase = next_id lease id }, w)

module _ {W : Type 0} (client : Client WorkerPath W) (text : String) where
  -- One call of etcd, with what `grant_lease`, `try_allocate_id` and `do_allocate` do of it.
  unfoldable pub call_in : Phase → Node → W → Node × W
  call_in idle n w = (n, w)
  call_in granting n w = granted n (client.lease_grant 30 w)
  call_in (checking lease id) n w =
      checked n lease id (client.kv_get (worker_path n.allocator id) w)
  call_in (writing lease id) n w =
      written n lease id
        (client.txn_check_create_rev_and_put (worker_path n.allocator id) text lease w)
  call_in (allocated lease id) n w = (n, w)
  call_in (unreleased lease id) n w = (n, w)
  call_in (refused e) n w = (n, w)

  unfoldable pub advance : Node → W → Node × W
  advance n w = call_in n.phase n w

  unfoldable pub advance_times : ℕ → Node → W → Node × W
  advance_times zero n w = (n, w)
  advance_times (suc k) n w = let next = advance n w in advance_times k next.0 next.1

  -- `allocate`, without interruption: a lease, and at most two calls for each id.
  unfoldable pub allocate : Allocator → W → Node × W
  allocate a w = advance_times 511 (record { allocator = a; phase = granting }) w

  unfoldable pub release : Allocator → ℕ → W → (Answer (Unit {0}) × Allocator) × W
  release a worker_id w =
      let done = client.kv_delete (worker_path a worker_id) w in
      elim done.0 [
        | ok x ↦ ((ok tt, record a { allocated_id = 0; lease_id = 0 }), done.1)
        | failed e ↦ ((failed e, a), done.1)
      ]
