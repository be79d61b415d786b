-- ===== src/Etcd/Tests.antt =====
-- Two processes of one datacenter over the service in memory.
use nebula_id.Prelude.{
  ℕ, Bool, true, ◌↔◌, ◌≡◌, ◌≢◌, refl, arith, none, some, List, [], ◌∷◌, ◌&&◌, ◌==◌,
}
use nebula_id.Etcd.Memory.{Memory, memory, memory-Laws, occupied, put_in}
use nebula_id.Etcd.Worker.{
  WorkerPath, new_allocator, granting, advance, allocate, call_in, granted, checked, written,
  next_id,
}
use nebula_id.Etcd.System.{System, start, set_node, begins, calls, Steps, here, follows}
use nebula_id.Etcd.Exclusion.{allocate-excludes}
use nebula_id.Etcd.Returns.{Returned, allocate-Returned}
use nebula_id.Etcd.Lock.{acquire}
use nebula_id.Etcd.Locking.{Refused, acquire-Refused}
use nebula_id.Prelude.Assoc.{Eq, nat_eq}

abbrev same_path : WorkerPath → WorkerPath → Bool
same_path a b = a.datacenter_id == b.datacenter_id && a.worker_id == b.worker_id

same_path_iff : (a b : WorkerPath) → (same_path a b ≡ true) ↔ (a ≡ b)
same_path_iff a b = grind arith

instance abbrev path_eq : Eq WorkerPath
path_eq = record { same = same_path; same_iff = same_path_iff }

abbrev service : Memory WorkerPath
service = record { keeper = λ k. none; last = 0 }

allocate-Returned_example : Returned (allocate memory.client "" (new_allocator 3) service).0
allocate-Returned_example = allocate-Returned memory.client "" (new_allocator 3) service

abbrev asks : ℕ → System (Memory WorkerPath) → System (Memory WorkerPath)
asks i s = set_node i (record (s.node i) { phase = granting }, s.world) s

abbrev call : ℕ → System (Memory WorkerPath) → System (Memory WorkerPath)
call i s = set_node i (advance memory.client "" (s.node i) s.world) s

-- Calls, the first of the list last.
abbrev call_each : List ℕ → System (Memory WorkerPath) → System (Memory WorkerPath)
call_each [] s = s
call_each (i ∷ order) s = call i (call_each order s)

call_each-Steps :
    (order : List ℕ) (s s' : System (Memory WorkerPath))
    → Steps memory (call_each order s) s'
    → Steps memory s s'
call_each-Steps [] s s' steps = steps
call_each-Steps (i ∷ order) s s' steps = call_each-Steps order s s' (follows (calls i "") steps)

-- Both find the first id free; the process 0 writes it first.
abbrev order : List ℕ
order = 1 ∷ 1 ∷ 1 ∷ 0 ∷ 1 ∷ 0 ∷ 1 ∷ 0 ∷ []

abbrev asked : System (Memory WorkerPath)
asked = asks 1 (asks 0 (start (λ i. 3) service))

race_Steps : Steps memory (start (λ i. 3) service) (call_each order asked)
race_Steps =
    follows (begins 0)
      (follows (begins 1) (call_each-Steps order asked (call_each order asked) here))

allocate-excludes_example : ◌≢◌ {A = ℕ} 1 2
unfolding memory advance call_in granted checked occupied written put_in new_allocator next_id
allocate-excludes_example =
    allocate-excludes memory memory-Laws (λ i. 3) service (call_each order asked) race_Steps 0 1 1 2
      1 2 (grind arith) refl refl refl

abbrev taken : Memory WorkerPath
taken = record { keeper = λ k. some 1; last = 1 }

abbrev wanted : WorkerPath
wanted = record { datacenter_id = 3; worker_id = 7 }

acquire-Refused_example :
    Refused memory memory-Laws wanted 1 (acquire memory.client "" wanted 30 taken)
unfolding memory
acquire-Refused_example = acquire-Refused memory memory-Laws wanted 1 "" 30 taken (refl, refl)
