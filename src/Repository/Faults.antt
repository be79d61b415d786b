-- ===== src/Repository/Faults.antt =====
-- What a failed transaction leaves behind: the lock of its key.
use Prim.Native.String.{String}
use nebula_id.Prelude.{
  ℕ, ◌≡◌, refl, sym, ◌∙◌, subst, Bool, true, false, List, [], ◌∷◌, Option, none, some, arith,
  Bool-cases, inl, inr,
}
use nebula_id.Prelude.Assoc.{put, get-put, get-remove}
use nebula_id.Prelude.Int.{ℤ, as_i32}
use nebula_id.Types.{CoreError, Result, ok, err}
use nebula_id.LocalLock.{guard, acquire, acquire_lock, release_lock, is_locked}
use nebula_id.Segment.{Answers}
use nebula_id.Repository.{
  SegmentInfo, SegmentKey, key_eq, same_key, same_key_iff, Database, locked, allocate,
  allocate_segment_with_dc,
}
use nebula_id.Repository.Loader.{loaded}
use nebula_id.Repository.Loads.{Request, key_of, serve, loads}

-- The lock of a key is held.
pub record Stuck (k : SegmentKey) (db : Database) : Type 0 where
  pub locks : List (SegmentKey × Bool)
  pub configured : db.locks ≡ some locks
  pub held : is_locked k locks ≡ true

is_locked-other :
    (k k' : SegmentKey) (locks : List (SegmentKey × Bool))
    → same_key k' k ≡ false
    → is_locked k (release_lock k' (acquire_lock k' locks)) ≡ is_locked k locks
unfolding is_locked acquire_lock release_lock
is_locked-other k k' locks other =
    ground (arith, get-remove k' k (put k' true locks), get-put k' k true locks)

is_locked-acquired :
    (k k' : SegmentKey) (locks : List (SegmentKey × Bool))
    → same_key k' k ≡ false
    → is_locked k (acquire_lock k' locks) ≡ is_locked k locks
unfolding is_locked acquire_lock
is_locked-acquired k k' locks other = ground (arith, get-put k' k true locks)

is_locked-own :
    (k : SegmentKey) (locks : List (SegmentKey × Bool)) → is_locked k (acquire_lock k locks) ≡ true
unfolding is_locked acquire_lock
is_locked-own k locks = ground (arith, get-put k k true locks, same_key_iff k k)

-- A refusal of the held key.
Refusal : Result SegmentInfo → Type 0
Refusal (ok s) = ⊥
Refusal (err e) = Unit {0}

-- The answer of the lock keeps the key held.
acquire-held :
    (fault : Option String) (k k' : SegmentKey) (d : ℕ) (start step : ℤ) (db : Database)
    (locks : List (SegmentKey × Bool))
    → is_locked k locks ≡ true
    → Stuck k (locked fault k' d start step db (acquire k' locks)).1
unfolding acquire locked
acquire-held fault k k' d start step db locks held = elim (Bool-cases (is_locked k' locks)) [
  | inl busy ↦ rw (busy, acquire) (record { locks = locks; configured = refl; held = held })
  | inr free ↦ rw (free, acquire) (taken fault free)
]
  where
    other : is_locked k' locks ≡ false → same_key k' k ≡ false
    other free = ground (arith, same_key_iff k' k)

    taken :
        (f : Option String)
        → is_locked k' locks ≡ false
        → Stuck k (locked f k' d start step db (guard k', acquire_lock k' locks)).1
    taken (some error) free = record {
      locks = acquire_lock k' locks;
      configured = refl;
      held = is_locked-acquired k k' locks (other free) ∙ held;
    }
    taken none free = record {
      locks = release_lock k' (acquire_lock k' locks);
      configured = refl;
      held = is_locked-other k k' locks (other free) ∙ held;
    }

allocate-Stuck :
    (fault : Option String) (k k' : SegmentKey) (d : ℕ) (start step : ℤ) (db : Database)
    → Stuck k db
    → Stuck k (allocate fault k' d start step db).1
unfolding allocate
allocate-Stuck fault k k' d start step db stuck =
    rw (stuck.configured, allocate) (acquire-held fault k k' d start step db stuck.locks stuck.held)

-- The key itself is refused.
allocate-refused :
    (fault : Option String) (k : SegmentKey) (d : ℕ) (start step : ℤ) (db : Database)
    → Stuck k db
    → Refusal (allocate fault k d start step db).0
unfolding allocate acquire locked Refusal
allocate-refused fault k d start step db stuck =
    rw (stuck.configured, allocate, stuck.held, acquire) tt

-- A failed transaction leaves the lock of its key held, if it was free.
fault-Stuck :
    (error : String) (k : SegmentKey) (d : ℕ) (start step : ℤ) (db : Database)
    (locks : List (SegmentKey × Bool))
    → db.locks ≡ some locks
    → Stuck k (allocate (some error) k d start step db).1
unfolding allocate acquire locked
fault-Stuck error k d start step db locks configured = elim (Bool-cases (is_locked k locks)) [
  | inl busy ↦
      rw (configured, allocate, busy, acquire)
        (record { locks = locks; configured = refl; held = busy })
  | inr free ↦
      rw (configured, allocate, free, acquire)
        (record { locks = acquire_lock k locks; configured = refl; held = is_locked-own k locks })
]

abbrev pub AllRefused : Answers → Type 0
AllRefused [] = Unit {0}
AllRefused (ok d ∷ answers) = ⊥
AllRefused (err e ∷ answers) = AllRefused answers

module _ (shown : CoreError → String) where
  refused_first :
      (res : Result SegmentInfo) (answers : Answers)
      → Refusal res
      → AllRefused answers
      → AllRefused (loaded shown res ∷ answers)
  unfolding Refusal loaded
  refused_first (err e) answers refusal all = all
  refused_first (ok s) answers refusal all = refusal

  loads-AllRefused :
      (k : SegmentKey) (later : List Request) (db : Database)
      → Stuck k db
      → AllRefused (loads shown k later db)
  unfolding loads serve allocate_segment_with_dc
  loads-AllRefused k [] db stuck = tt
  loads-AllRefused k (r ∷ later) db stuck =
      let rest =
        loads-AllRefused k later (serve r db).1
          (allocate-Stuck r.fault k (key_of r) r.dc_id _ (as_i32 r.step) db stuck) in
      elim (Bool-cases (same_key (key_of r) k)) [
        | inl own ↦
            rw (own, loads)
              (refused_first (serve r db).0 _
                (allocate-refused r.fault (key_of r) r.dc_id _ (as_i32 r.step) db
                  (subst (λ x. Stuck x db) (sym ((same_key_iff (key_of r) k).0 own)) stuck))
                rest)
        | inr other ↦ rw (other, loads) rest
      ]

  -- Over the in-process lock, once a transaction of a request has failed, every later request for its
  -- key is answered with an error, whatever the database answers from then on and whatever is asked
  -- for in between.
  pub fault-AllRefused :
      (error : String) (r : Request) (later : List Request) (db : Database)
      (locks : List (SegmentKey × Bool))
      → r.fault ≡ some error
      → db.locks ≡ some locks
      → AllRefused (loads shown (key_of r) later (serve r db).1)
  unfolding serve allocate_segment_with_dc
  fault-AllRefused error r later db locks failed configured =
      loads-AllRefused (key_of r) later (serve r db).1
        (rw failed (fault-Stuck error (key_of r) r.dc_id _ (as_i32 r.step) db locks configured))
