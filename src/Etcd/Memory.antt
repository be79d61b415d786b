-- ===== src/Etcd/Memory.antt =====
-- A service in memory that keeps the laws: keys by a function, leases numbered from 1.
use Prim.Native.String.{String}
use nebula_id.Prelude.{
  ℕ, suc, ◌≡◌, refl, arith, Bool, true, false, Option, none, some, if◌then◌else◌, ltb, ◌==◌, ==_iff,
}
use nebula_id.Prelude.Assoc.{Eq}
use nebula_id.Etcd.{Answer, ok}
use nebula_id.Etcd.Server.{Server, KeptBut, Kept, Laws}

pub record Memory (K : Type 0) : Type 0 where
  pub keeper : K → Option ℕ
  pub last : ℕ

unfoldable pub kept_by : Option ℕ → ℕ → Option ℕ
kept_by none l = none
kept_by (some m) l = if m == l then none else some m

unfoldable pub occupied : Option ℕ → Answer (Option String)
occupied none = ok none
occupied (some l) = ok (some "")

module _ {K : Type 0} ⦃e : Eq K⦄ where
  unfoldable pub end_lease : ℕ → Memory K → Memory K
  end_lease l w = record w { keeper = λ k. kept_by (w.keeper k) l }

  unfoldable pub put_in : Option ℕ → K → ℕ → Memory K → Answer Bool × Memory K
  put_in none k l w =
      (ok true, record w { keeper = λ j. if e.same j k then some l else w.keeper j })
  put_in (some m) k l w = (ok false, w)

  unfoldable pub memory : Server K (Memory K)
  memory = record {
    client = record {
      kv_get = λ k w. (occupied (w.keeper k), w);
      kv_delete =
          λ k w. (ok tt, record w { keeper = λ j. if e.same j k then none else w.keeper j });
      lease_grant = λ ttl w. (ok (suc w.last), record w { last = suc w.last });
      lease_revoke = λ l w. (ok tt, end_lease l w);
      txn_check_create_rev_and_put = λ k text l w. put_in (w.keeper k) k l w;
    };
    keeper = λ k w. w.keeper k;
    issued = λ l w. ltb l (suc w.last);
    expire = end_lease;
  }

  put_in-Kept :
      (found : Option ℕ) (k : K) (l : ℕ) (w : Memory K)
      → w.keeper k ≡ found
      → Kept memory w (put_in found k l w).1
  unfolding memory put_in
  put_in-Kept none k l w free = record {
    keeps = λ j m lost h. grind (arith, e.same_iff j k);
    remembers = λ l h. h;
  }
  put_in-Kept (some m) k l w taken = record { keeps = λ j m lost h. h; remembers = λ l h. h }

  end_lease-Kept : (l : ℕ) (w : Memory K) → KeptBut memory (λ k m. m ≡ l) w (end_lease l w)
  unfolding memory end_lease kept_by
  end_lease-Kept l w = record {
    keeps = λ k m lost h. rw h (ground (arith, ==_iff m l));
    remembers = λ l h. h;
  }

  pub memory-Laws : Laws memory
  unfolding memory put_in
  memory-Laws = record {
    grant-Kept = λ ttl w. record { keeps = λ k l lost h. h; remembers = λ l h. ground arith };
    grant-new = λ ttl l w h. (ground arith, ground arith);
    get-Kept = λ k w. record { keeps = λ j l lost h. h; remembers = λ l h. h };
    put-Kept = λ k text l w. put_in-Kept (w.keeper k) k l w refl;
    put-free = λ k text l w h. ground (arith, e.same_iff k k);
    delete-Kept =
        λ k w. record { keeps = λ j l lost h. grind (arith, e.same_iff j k); remembers = λ l h. h };
    revoke-Kept = end_lease-Kept;
    expire-Kept = end_lease-Kept;
  }
