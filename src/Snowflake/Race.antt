-- ===== src/Snowflake/Race.antt =====
-- Two callers of one `SnowflakeAlgorithm`, an access to a shared atomic at a time: the branches of
-- `generate_id` that neither wait nor fail. `sequence` and `last_timestamp` are separate atomics,
-- and no lock joins the accesses of one call.
use nebula_id.Prelude.{
  ℕ, ◌+◌, ◌<◌, ◌≤◌, ◌≡◌, arith, bit_and, u64, false, [], ◌∷◌, Bool-cases, ◌==◌, inl, inr, ==_iff,
  le→ltb, subst,
}
use nebula_id.Prelude.Bits.{zero-bit_and}
use nebula_id.Types.UniqueId.{UniqueId}
use nebula_id.Snowflake.{
  Snowflake, returned, construct_id, sequence_mask, wrapped, generate_id, same_millisecond,
  new_millisecond, count_generated, fetch_add, issue,
}

-- Where a caller stands in `generate_id`, with its local variables.
pub data Pc : Type 0 where
  idle : Pc
  stamped : (timestamp : ℕ) → Pc  -- after `get_timestamp`
  loaded : (timestamp last_ts : ℕ) → Pc  -- after `last_timestamp.load`
  reset : (timestamp : ℕ) → Pc  -- after `sequence.store(0)`
  stored : (timestamp : ℕ) → Pc  -- after `last_timestamp.store`
  issued : (timestamp : ℕ) → UniqueId → Pc  -- returned

-- One access of one caller, which reads the clock as it is then.
pub data Access (s : Snowflake) : Pc → Snowflake → Pc → Type 0 where
  read_clock : (t : ℕ) → Access s idle s (stamped t)
  load_last : {t : ℕ} → Access s (stamped t) s (loaded t s.last_timestamp)
  count_same :
      {t last : ℕ}
      → t ≡ last
      → wrapped s.sequence (sequence_mask s.config) ≡ false
      → Access s
          (loaded t last)
          (record s { sequence = u64 (s.sequence + 1) })
          (issued t (construct_id s t (bit_and s.sequence (sequence_mask s.config))))
  reset_sequence :
      {t last : ℕ} → last < t → Access s (loaded t last) (record s { sequence = 0 }) (reset t)
  store_last : {t : ℕ} → Access s (reset t) (record s { last_timestamp = t }) (stored t)
  count_new :
      {t : ℕ}
      → Access s
          (stored t)
          (record s { sequence = u64 (s.sequence + 1) })
          (issued t (construct_id s t (bit_and s.sequence (sequence_mask s.config))))

pub record System : Type 0 where
  pub shared : Snowflake
  pub first : Pc
  pub second : Pc

pub data Step : System → System → Type 0 where
  by_first :
      {s s' : Snowflake} {p p' q : Pc}
      → Access s p s' p'
      → Step
          (record { shared = s; first = p; second = q })
          (record { shared = s'; first = p'; second = q })
  by_second :
      {s s' : Snowflake} {p q q' : Pc}
      → Access s q s' q'
      → Step
          (record { shared = s; first = p; second = q })
          (record { shared = s'; first = p; second = q' })

pub data Reach (a : System) : System → Type 0 where
  here : Reach a a
  later : {b c : System} → Reach a b → Step b c → Reach a c

abbrev pub at_rest : Snowflake → System
at_rest s = record { shared = s; first = idle; second = idle }

-- Whenever the clock has passed the last timestamp, two callers that both read the same millisecond
-- can both be given its first id, the one that counts 0: the second resets the sequence after the
-- first has counted.
pub race_duplicate :
    (s : Snowflake) (t : ℕ)
    → s.last_timestamp < t
    → (s' : Snowflake) × Reach (at_rest s) (record {
      shared = s';
      first = issued t (construct_id s t 0);
      second = issued t (construct_id s t 0);
    })
unfolding construct_id
race_duplicate s t h = (
  _,
  subst (λ q. Reach (at_rest s) (both q)) (zero-bit_and (sequence_mask s.config))
      (later
        (later
          (later
            (later
              (later
                (later
                  (later
                    (later (later (later here (by_first (read_clock t))) (by_first load_last))
                      (by_second (read_clock t)))
                    (by_second load_last))
                  (by_first (reset_sequence h)))
                (by_first store_last))
              (by_first count_new))
            (by_second (reset_sequence h)))
          (by_second store_last))
        (by_second count_new)),
)
  where
    end : Snowflake
    end = record s { last_timestamp = t; sequence = u64 (0 + 1) }

    both : ℕ → System
    both q = record {
      shared = end;
      first = issued t (construct_id s t q);
      second = issued t (construct_id s t q);
    }

issue-returned :
    (s s₁ : Snowflake) (t q : ℕ) (id : UniqueId)
    → issue s t q [] ≡ returned id s₁ []
    → (construct_id s t q ≡ id) × (s₁ ≡ count_generated s)
unfolding issue
issue-returned s s₁ t q id e = (ground arith, ground arith)

-- The first caller has returned, and the second has not moved.
abbrev pub Alone : Snowflake → Snowflake → ℕ → UniqueId → Type 0
Alone s s' t id = Reach (at_rest s) (record { shared = s'; first = issued t id; second = idle })

-- A call that runs alone, from its clock reading to its return, is a row of these accesses: where
-- `generate_id` returns at its one reading, which is not before the last timestamp, the first caller
-- can return the same id with the second at rest, and leaves the same state but for the metric.
pub Alone-generate_id :
    (s s₁ : Snowflake) (t : ℕ) (id : UniqueId)
    → s.last_timestamp ≤ t
    → generate_id s (t ∷ []) ≡ returned id s₁ []
    → (s' : Snowflake) × Alone s s' t id × (s₁ ≡ count_generated s')
unfolding generate_id same_millisecond new_millisecond construct_id
Alone-generate_id s s₁ t id h e = elim (Bool-cases (t == s.last_timestamp)) [
  | inl same ↦ elim (Bool-cases (wrapped s.sequence (sequence_mask s.config))) [
    | inl full ↦ absurd (ground arith)
    | inr room ↦
        let ends =
          issue-returned (fetch_add s) s₁ t (bit_and s.sequence (sequence_mask s.config)) id
            (rw (le→ltb t s.last_timestamp h, same, room) at e) in
        (
          fetch_add s,
          subst (Alone s (fetch_add s) t) ends.0 (
              later (later (later here (by_first (read_clock t))) (by_first load_last))
                (by_first (count_same ((==_iff t s.last_timestamp).0 same) room))),
          ends.1,
        )
  ]
  | inr new ↦
      let ends =
        issue-returned (record s { last_timestamp = t; sequence = 1 }) s₁ t
          (bit_and 0 (sequence_mask s.config)) id (rw (le→ltb t s.last_timestamp h, new) at e) in
      (
        record s { last_timestamp = t; sequence = 1 },
        subst (Alone s (record s { last_timestamp = t; sequence = 1 }) t) ends.0 (
            later
              (later
                (later (later (later here (by_first (read_clock t))) (by_first load_last))
                  (by_first (reset_sequence (ground arith))))
                (by_first store_last))
              (by_first count_new)),
        ends.1,
      )
]
