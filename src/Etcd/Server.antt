-- ===== src/Etcd/Server.antt =====
-- What the allocation and the lock rely on of etcd: a key is kept by one lease, put only where it is
-- free, and gone with its lease; leases have new numbers. A call that fails may have taken effect.
use Prim.Native.String.{String}
use nebula_id.Prelude.{ℕ, ◌≡◌, Bool, true, false, Option, some}
use nebula_id.Etcd.{ok, Client}

pub record Server (K W : Type 0) : Type 0 where
  pub client : Client K W
  pub keeper : K → W → Option ℕ  -- the lease that keeps the key
  pub issued : ℕ → W → Bool  -- the leases granted so far
  pub expire : ℕ → W → W  -- a lease ends

module _ {K W : Type 0} (s : Server K W) where
  -- No key is lost but what `lost` holds of, and no lease number is forgotten.
  pub record KeptBut (lost : K → ℕ → Type 0) (w w' : W) : Type 0 where
    pub keeps : (k : K) (l : ℕ) → ¬ lost k l → s.keeper k w ≡ some l → s.keeper k w' ≡ some l
    pub remembers : (l : ℕ) → s.issued l w ≡ true → s.issued l w' ≡ true

  abbrev pub Kept : W → W → Type 0
  Kept w w' = KeptBut (λ k l. ⊥) w w'

  pub record Laws : Type 0 where
    pub grant-Kept : (ttl : ℕ) (w : W) → Kept w (s.client.lease_grant ttl w).1
    pub grant-new :
        (ttl l : ℕ) (w : W)
        → (s.client.lease_grant ttl w).0 ≡ ok l
        → (s.issued l w ≡ false) × (s.issued l (s.client.lease_grant ttl w).1 ≡ true)
    pub get-Kept : (k : K) (w : W) → Kept w (s.client.kv_get k w).1
    pub put-Kept :
        (k : K) (text : String) (l : ℕ) (w : W)
        → Kept w (s.client.txn_check_create_rev_and_put k text l w).1
    pub put-free :
        (k : K) (text : String) (l : ℕ) (w : W)
        → (s.client.txn_check_create_rev_and_put k text l w).0 ≡ ok true
        → s.keeper k (s.client.txn_check_create_rev_and_put k text l w).1 ≡ some l
    pub delete-Kept : (k : K) (w : W) → KeptBut (λ j l. j ≡ k) w (s.client.kv_delete k w).1
    pub revoke-Kept : (l : ℕ) (w : W) → KeptBut (λ k m. m ≡ l) w (s.client.lease_revoke l w).1
    pub expire-Kept : (l : ℕ) (w : W) → KeptBut (λ k m. m ≡ l) w (s.expire l w)
