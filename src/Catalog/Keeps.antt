-- ===== src/Catalog/Keeps.antt =====
-- Properties of the tables that a query keeps, whether it answers or fails.
use nebula_id.Prelude.{ℕ, List, Bool, Option, none, some}
use nebula_id.Catalog.{Tables, Query, pure, raise, ◌>>=◌, ok_or, ensure}
use nebula_id.Catalog.Table.{Entity, find_one, find_all, insert, update, delete_by_id}
use nebula_id.Catalog.Triple.{
  Triple, Keeps, conclude, bind, pure_lem, raise_lem, ok_or_lem, ensure_lem, find_one_lem,
  find_all_lem, insert_lem, update_lem, delete_by_id_lem, new_v4_lem, draw_lem,
}

module _ {E : Type 0} {P : Tables → Type 0} where
  pub strip :
      {A : Type 0} {q : Query E A} {Q : A → Tables → Type 0}
      → Triple P q (λ a t. P t × Q a t) P
      → Keeps P q
  strip h = conclude h (λ a t p. p.0)

  pub keep_bind :
      {A B : Type 0} {q : Query E A} {k : A → Query E B}
      → Keeps P q
      → ((a : A) → Keeps P (k a))
      → Keeps P (q >>= k)
  keep_bind {q} {k} h h' = bind q k h h'

  pub keep_pure : {A : Type 0} (a : A) → Keeps {E = E} P (pure a)
  keep_pure a = pure_lem a (λ t p. p)

  pub keep_raise : {A : Type 0} (e : E) → Keeps {A = A} P (raise e)
  keep_raise e = raise_lem e (λ t p. p)

  pub keep_ok_or : {A : Type 0} (e : E) (o : Option A) → Keeps P (ok_or e o)
  keep_ok_or e o = strip (ok_or_lem e o)

  pub keep_ensure : (e : E) (b : Bool) → Keeps P (ensure e b)
  keep_ensure e b = strip (ensure_lem e b)

  pub keep_option :
      {A B : Type 0} {q : Query E B} {k : A → Query E B}
      → Keeps P q
      → ((a : A) → Keeps P (k a))
      → (o : Option A) → Keeps P (elim o [ none ↦ q | some a ↦ k a ])
  keep_option h h' none = h
  keep_option h h' (some a) = h' a

module _ {P : Tables → Type 0} {R : Type 0} (e : Entity R) where
  pub keep_find_one : (p : R → Bool) → Keeps P (find_one e p)
  keep_find_one p = strip (find_one_lem e p)

  pub keep_find_all : (p : R → Bool) → Keeps P (find_all e p)
  keep_find_all p = strip (find_all_lem e p)

-- A property that does not read a table is kept by what changes only that table.
module _ {P : Tables → Type 0} {R : Type 0} (e : Entity R)
    (blind : (rows : List R) (t : Tables) → P t → P (e.with_rows rows t)) where
  pub keep_insert : (r : R) → Keeps P (insert e r)
  keep_insert r = insert_lem e r (λ t p free ok. blind _ t p)

  pub keep_update : (r : R) → Keeps P (update e r)
  keep_update r = update_lem e r (λ t p. blind _ t p)

  pub keep_delete_by_id :
      ((id : ℕ) (t : Tables) → P t → P (e.cascade id t)) → (id : ℕ) → Keeps P (delete_by_id e id)
  keep_delete_by_id cascades id = delete_by_id_lem e id (λ t p. cascades id _ (blind _ t p))

pub ruleset keep = (
  keep_bind, keep_pure, keep_raise, keep_ok_or, keep_ensure, keep_option, keep_find_one,
  keep_find_all, new_v4_lem, draw_lem,
)
