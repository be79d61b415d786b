-- ===== src/Catalog/Table.antt =====
-- The calls of a table with a primary key, as src/core/database/repository.rs makes them through
-- SeaORM, and the limit and offset of its lists.
use nebula_id.Prelude.{
  ℕ, zero, suc, ◌==◌, Bool, true, false, ◌&&◌, not, List, [], ◌∷◌, ◌++◌, Option, none, some,
  if◌then◌else◌,
}
use nebula_id.Types.{CoreError, database_error}
use nebula_id.Catalog.{Tables, Query, pure, raise, ◌>>◌, call}

-- `accepts` says that a row that is new to the store keeps its constraints other than the primary key,
-- and `cascade` takes what refers to a deleted row with it.
pub record Entity (R : Type 0) : Type 0 where
  pub key : R → ℕ
  pub rows : Tables → List R
  pub with_rows : List R → Tables → Tables
  pub accepts : R → Tables → Bool
  pub cascade : ℕ → Tables → Tables

-- `query.filter(..)`
unfoldable pub rows_where : {R : Type 0} → (R → Bool) → List R → List R
rows_where p [] = []
rows_where p (r ∷ rs) = let rest = rows_where p rs in if p r then r ∷ rest else rest

unfoldable pub first : {R : Type 0} → (R → Bool) → List R → Option R
first p [] = none
first p (r ∷ rs) = if p r then some r else first p rs

abbrev pub any : {R : Type 0} → (R → Bool) → List R → Bool
any p [] = false
any p (r ∷ rs) = if p r then true else any p rs

unfoldable pub swap : {R : Type 0} → (R → Bool) → R → List R → List R
swap p new [] = []
swap p new (r ∷ rs) = if p r then new ∷ swap p new rs else r ∷ swap p new rs

unfoldable pub take : {R : Type 0} → ℕ → List R → List R
take zero rs = []
take (suc n) [] = []
take (suc n) (r ∷ rs) = r ∷ take n rs

unfoldable pub drop : {R : Type 0} → ℕ → List R → List R
drop zero rs = rs
drop (suc n) [] = []
drop (suc n) (r ∷ rs) = drop n rs

-- `query.limit(..).offset(..)`, each where it is given.
abbrev pub page : {R : Type 0} → Option ℕ → Option ℕ → List R → List R
page none none rs = rs
page none (some m) rs = drop m rs
page (some n) none rs = take n rs
page (some n) (some m) rs = take n (drop m rs)

module _ {R : Type 0} (e : Entity R) where
  abbrev pub of_id : ℕ → R → Bool
  of_id id r = e.key r == id

  -- The tables with the row with that number taken out.
  abbrev pub apart : ℕ → Tables → Tables
  apart id t = e.with_rows (rows_where (λ r. not (of_id id r)) (e.rows t)) t

  unfoldable pub find_one : (R → Bool) → Query CoreError (Option R)
  find_one p = do call; λ s. pure (first p (e.rows s.tables)) s

  abbrev pub find_by_id : ℕ → Query CoreError (Option R)
  find_by_id id = find_one (of_id id)

  unfoldable pub find_all : (R → Bool) → Query CoreError (List R)
  find_all p = do call; λ s. pure (rows_where p (e.rows s.tables)) s

  abbrev pub inserted : R → Query CoreError R
  inserted r s =
      if any (of_id (e.key r)) (e.rows s.tables)
      then raise (database_error s.violation) s
      else if e.accepts r s.tables
      then pure r (record s { tables = e.with_rows (e.rows s.tables ++ r ∷ []) s.tables })
      else raise (database_error s.violation) s

  unfoldable pub insert : R → Query CoreError R
  insert r = do call; inserted r

  abbrev pub updated : R → Query CoreError R
  updated r s =
      if any (of_id (e.key r)) (e.rows s.tables) && e.accepts r (apart (e.key r) s.tables)
      then pure r
          (record s { tables = e.with_rows (swap (of_id (e.key r)) r (e.rows s.tables)) s.tables })
      else raise (database_error s.violation) s

  unfoldable pub update : R → Query CoreError R
  update r = do call; updated r

  abbrev deleted : ℕ → Query CoreError Bool
  deleted id s =
      pure (any (of_id id) (e.rows s.tables))
        (record s { tables = e.cascade id (apart id s.tables) })

  -- Whether a row was affected.
  unfoldable pub delete_by_id : ℕ → Query CoreError Bool
  delete_by_id id = do call; deleted id
