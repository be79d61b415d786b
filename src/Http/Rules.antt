-- ===== src/Http/Rules.antt =====
-- The mapping of errors keeps what a query does to the tables.
use nebula_id.Types.{CoreError}
use nebula_id.Catalog.{Tables, Store, Query, Outcome, returned, raised}
use nebula_id.Catalog.Triple.{Triple, Post}
use nebula_id.Http.{Server, mapped, from_core, redone, map_db_error}

module _ {A : Type 0} {P : Tables → Type 0} {Q : A → Tables → Type 0} {F : Tables → Type 0} where
  pub from_core_lem : {q : Query CoreError A} → Triple P q Q F → Triple P (from_core q) Q F
  from_core_lem {q} h = record { runs = λ s p. turned (q s) (h.runs s p) }
    where
      turned : (o : Outcome CoreError A × Store) → Post Q F o → Post Q F (mapped o)
      turned (returned a, t) h = h
      turned (raised e, t) h = h

  pub map_db_error_lem :
      (server : Server) {q : Query CoreError A}
      → Triple P q Q F
      → Triple P (map_db_error server q) Q F
  map_db_error_lem server {q} h = record { runs = λ s p. turned (q s) (h.runs s p) }
    where
      turned : (o : Outcome CoreError A × Store) → Post Q F o → Post Q F (redone server.display o)
      turned (returned a, t) h = h
      turned (raised e, t) h = h
