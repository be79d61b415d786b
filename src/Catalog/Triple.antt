-- ===== src/Catalog/Triple.antt =====
-- What holds after a query, of its answer or its error and of the tables, with a rule for each call.
use nebula_id.Prelude.{
  arith, ℕ, ◌≡◌, refl, subst, sym, Bool, true, false, ◌&&◌, [], ◌∷◌, ◌++◌, Option, none, some, inl,
  inr, Bool-cases,
}
use nebula_id.Types.{CoreError}
use nebula_id.Catalog.{
  Tables, Store, Outcome, returned, raised, Query, pure, raise, resume, ◌>>=◌, ok_or, ensure,
  new_v4, draw, call,
}
use nebula_id.Catalog.Table.{
  Entity, first, any, rows_where, swap, of_id, apart, find_one, find_all, insert, update,
  delete_by_id, inserted, updated,
}

module _ {E A : Type 0} where
  abbrev pub Post : (A → Tables → Type 0) → (Tables → Type 0) → Outcome E A × Store → Type 0
  Post Q F (returned a, s) = Q a s.tables
  Post Q F (raised e, s) = F s.tables

  -- From tables with P, the query ends in Q with an answer, or in F with an error.
  pub record Triple (P : Tables → Type 0) (q : Query E A) (Q : A → Tables → Type 0)
      (F : Tables → Type 0) : Type 0 where
    pub runs : (s : Store) → P s.tables → Post Q F (q s)

  abbrev pub Keeps : (Tables → Type 0) → Query E A → Type 0
  Keeps P q = Triple P q (λ a. P) P

module _ {E A B : Type 0} {P : Tables → Type 0} {Q : A → Tables → Type 0} {R : B → Tables → Type 0}
    {F : Tables → Type 0} where
  pub bind :
      (q : Query E A) (k : A → Query E B)
      → Triple P q Q F
      → ((a : A) → Triple (Q a) (k a) R F)
      → Triple P (q >>= k) R F
  bind q k one more = record { runs = λ s p. resumed (q s) (one.runs s p) }
    where
      resumed : (o : Outcome E A × Store) → Post Q F o → Post R F (resume k o)
      resumed (returned a, t) h = (more a).runs t h
      resumed (raised e, t) h = h

module _ {E A : Type 0} {P : Tables → Type 0} {Q : A → Tables → Type 0} {F : Tables → Type 0} where
  pub failing :
      {F' : Tables → Type 0} {q : Query E A}
      → Triple P q Q F
      → ((t : Tables) → F t → F' t)
      → Triple P q Q F'
  failing {F'} {q} h w = record { runs = λ s p. weaker (q s) (h.runs s p) }
    where
      weaker : (o : Outcome E A × Store) → Post Q F o → Post Q F' o
      weaker (returned a, t) h = h
      weaker (raised e, t) h = w t.tables h

module _ {E A B : Type 0} {P : Tables → Type 0} {R : B → Tables → Type 0}
    {F : Tables → Type 0} where
  -- A first query that keeps what holds before it.
  pub pass :
      {q : Query E A} {k : A → Query E B}
      → ((t : Tables) → P t → F t)
      → Keeps P q
      → ((a : A) → Triple P (k a) R F)
      → Triple P (q >>= k) R F
  pass {q} {k} fails one more = bind q k (failing one fails) more

module _ {E A : Type 0} {P : Tables → Type 0} {Q : A → Tables → Type 0} {F : Tables → Type 0} where
  pub pure_lem : (a : A) → ((t : Tables) → P t → Q a t) → Triple {E = E} P (pure a) Q F
  pure_lem a h = record { runs = λ s p. h s.tables p }

  pub raise_lem : (e : E) → ((t : Tables) → P t → F t) → Triple P (raise e) Q F
  raise_lem e h = record { runs = λ s p. h s.tables p }

  pub weaken :
      {P' : Tables → Type 0} {q : Query E A}
      → Triple P q Q F
      → ((t : Tables) → P' t → P t)
      → Triple P' q Q F
  weaken h w = record { runs = λ s p. h.runs s (w s.tables p) }

  pub conclude :
      {Q' : A → Tables → Type 0} {q : Query E A}
      → Triple P q Q F
      → ((a : A) (t : Tables) → Q a t → Q' a t)
      → Triple P q Q' F
  conclude {Q'} {q} h w = record { runs = λ s p. weaker (q s) (h.runs s p) }
    where
      weaker : (o : Outcome E A × Store) → Post Q F o → Post Q' F o
      weaker (returned a, t) h = w a t.tables h
      weaker (raised e, t) h = h

module _ {E : Type 0} {P : Tables → Type 0} where
  pub ok_or_lem :
      {A : Type 0} (e : E) (o : Option A) → Triple P (ok_or e o) (λ a t. P t × (o ≡ some a)) P
  ok_or_lem e none = raise_lem e (λ t p. p)
  ok_or_lem e (some a) = pure_lem a (λ t p. (p, refl))

  pub ensure_lem : (e : E) (b : Bool) → Triple P (ensure e b) (λ a t. P t × (b ≡ true)) P
  ensure_lem e true = record { runs = λ s p. (p, refl) }
  ensure_lem e false = record { runs = λ s p. p }

module _ {P : Tables → Type 0} where
  pub call_lem : Keeps P call
  unfolding call
  call_lem = record { runs = λ s p. called s p (s.faults s.calls) refl }
    where
      called :
          (s : Store)
          → P s.tables
          → (o : Option _) → s.faults s.calls ≡ o
          → Post (λ a. P) P (call s)
      called s p none h = rw (h, call) p
      called s p (some text) h = rw (h, call) p

  pub new_v4_lem : Keeps P new_v4
  unfolding new_v4
  new_v4_lem = record { runs = λ s p. p }

  pub draw_lem : Keeps P draw
  unfolding draw
  draw_lem = record { runs = λ s p. p }

  module _ {R : Type 0} (e : Entity R) where
    pub find_one_lem :
        (p : R → Bool) → Triple P (find_one e p) (λ o t. P t × (o ≡ first p (e.rows t))) P
    unfolding find_one
    find_one_lem p = bind call _ call_lem (λ a. record { runs = λ s h. (h, refl) })

    pub find_all_lem :
        (p : R → Bool) → Triple P (find_all e p) (λ rs t. P t × (rs ≡ rows_where p (e.rows t))) P
    unfolding find_all
    find_all_lem p = bind call _ call_lem (λ a. record { runs = λ s h. (h, refl) })

    pub insert_lem :
        {Q : R → Tables → Type 0} (r : R)
        → ((t : Tables)
            → P t
            → any (of_id e (e.key r)) (e.rows t) ≡ false
            → e.accepts r t ≡ true
            → Q r (e.with_rows (e.rows t ++ r ∷ []) t))
        → Triple P (insert e r) Q P
    unfolding insert
    insert_lem {Q} r h = bind call _ call_lem (λ a. record { runs = ends })
      where
        ends : (s : Store) → P s.tables → Post Q P (inserted e r s)
        ends s p = elim (Bool-cases (any (of_id e (e.key r)) (e.rows s.tables))) [
          | inl there ↦ rw there p
          | inr free ↦ elim (Bool-cases (e.accepts r s.tables)) [
            | inl ok ↦ rw (free, ok) (h s.tables p free ok)
            | inr broken ↦ rw (free, broken) p
          ]
        ]

    pub update_lem :
        {Q : R → Tables → Type 0} (r : R)
        → ((t : Tables) → P t → Q r (e.with_rows (swap (of_id e (e.key r)) r (e.rows t)) t))
        → Triple P (update e r) Q P
    unfolding update
    update_lem {Q} r h = bind call _ call_lem (λ a. record { runs = ends })
      where
        ends : (s : Store) → P s.tables → Post Q P (updated e r s)
        ends s p =
            elim (Bool-cases (
              any (of_id e (e.key r)) (e.rows s.tables)
              && e.accepts r (apart e (e.key r) s.tables))) [
                | inl ok ↦ rw ok (h s.tables p)
                | inr broken ↦ rw broken p
              ]

    pub delete_by_id_lem :
        {Q : Bool → Tables → Type 0} (id : ℕ)
        → ((t : Tables) → P t → Q (any (of_id e id) (e.rows t)) (e.cascade id (apart e id t)))
        → Triple P (delete_by_id e id) Q P
    unfolding delete_by_id
    delete_by_id_lem {Q} id h = bind call _ call_lem (λ a. record { runs = λ s p. h s.tables p })

    -- A row that is looked for and has to be there, with what it is known to be.
    pub fetch :
        {B : Type 0} {Q : B → Tables → Type 0} {F : Tables → Type 0} (p : R → Bool)
        (err : CoreError) {k : R → Query CoreError B} (Fact : R → Type 0)
        → ((t : Tables) → P t → F t)
        → ((b : R) (t : Tables) → P t → first p (e.rows t) ≡ some b → Fact b)
        → ((b : R) → Fact b → Triple P (k b) Q F)
        → Triple P (find_one e p >>= λ o. ok_or err o >>= k) Q F
    fetch {Q} {F} p err {k} Fact fails known h =
        bind _ _ (failing (find_one_lem p) fails) (λ o. record { runs = λ s h. found o s h.0 h.1 })
      where
        found :
            (o : Option R) (s : Store)
            → P s.tables
            → o ≡ first p (e.rows s.tables)
            → Post Q F ((ok_or err o >>= k) s)
        found none s q same = fails s.tables q
        found (some b) s q same = (h b (known b s.tables q (sym same))).runs s q

-- What holds after a query that is known to have answered.
pub answered_with :
    {E A : Type 0} (Q : A → Tables → Type 0) (F : Tables → Type 0) {a : A} (o : Outcome E A × Store)
    → Post Q F o
    → o.0 ≡ returned a
    → Q a o.1.tables
answered_with Q F (returned b, t) h e = subst (λ x. Q x t.tables) (ground arith) h
answered_with Q F (raised x, t) h e = cc
