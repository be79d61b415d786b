-- ===== src/Repository/Chain.antt =====
-- The segments that one key is given, one after the other, whatever the other keys are given.
use Prim.Native.String.{String}
use nebula_id.Prelude.{
  ℕ, ◌+◌, ◌^◌, ◌≤◌, ◌<◌, ◌≡◌, refl, sym, subst, Bool, false, List, Option, none, some, Option-cases,
  inl, inr,
}
use nebula_id.Prelude.Assoc.{string_eq}
use nebula_id.Prelude.Int.{pos}
use nebula_id.Types.{Result, ok, err}
use nebula_id.LocalLock.{Acquired, guard, refused, acquire}
use nebula_id.Repository.{SegmentInfo, SegmentKey, key_eq, same_key, Database, locked, allocate}
use nebula_id.Repository.Rows.{OfDc, Distinct, Below, Below-mono}
use nebula_id.Repository.Transaction.{
  standing, first_of_dc, Taken, transact-Taken, transact-other, transact-Sound, Sound,
}

-- The outcome of an allocation: a segment as above, or an error that leaves the key where it stood.
abbrev pub Handed : SegmentKey → ℕ → ℕ → ℕ → Result SegmentInfo × Database → Type 0
Handed k d start n (ok s, db) = Taken k d start n (s, db)
Handed k d start n (err e, db) = standing k d db.rows ≡ start

-- How an allocation with the lock's answer leaves the table.
locked-Handed :
    (fault : Option String) (k : SegmentKey) (d n bound : ℕ) (db : Database)
    (answer : Acquired SegmentKey × List (SegmentKey × Bool))
    → OfDc k d
    → Sound bound db
    → first_of_dc d ≤ bound
    → bound + n < 2 ^ 63
    → Handed k d (standing k d db.rows) n (locked fault k d (pos (first_of_dc d)) (pos n) db answer)
unfolding locked
locked-Handed fault k d n bound db (refused e', locks) e sound h small = refl
locked-Handed (some error) k d n bound db (guard k', locks) e sound h small = refl
locked-Handed none k d n bound db (guard k', locks) e sound h small =
    transact-Taken k d n bound db e sound h small

locked-other :
    (fault : Option String) (k k' : SegmentKey) (d d' n : ℕ) (db : Database)
    (answer : Acquired SegmentKey × List (SegmentKey × Bool))
    → OfDc k d
    → OfDc k' d'
    → same_key k' k ≡ false
    → Distinct db.rows
    → standing k d (locked fault k' d' (pos (first_of_dc d')) (pos n) db answer).1.rows
      ≡ standing k d db.rows
unfolding locked
locked-other fault k k' d d' n db (refused e'', locks) e e' other distinct = refl
locked-other (some error) k k' d d' n db (guard g, locks) e e' other distinct = refl
locked-other none k k' d d' n db (guard g, locks) e e' other distinct =
    transact-other k k' d d' n db e e' other distinct

kept-Sound :
    (bound n : ℕ) (db db' : Database)
    → db'.rows ≡ db.rows
    → db'.next_id ≡ db.next_id
    → Sound bound db
    → Sound (bound + n) db'
kept-Sound bound n db db' e e' sound = record {
  distinct = subst Distinct (sym e) sound.distinct;
  below =
      subst (λ i. Below i (bound + n) db'.rows) (sym e')
        (subst (Below db.next_id (bound + n)) (sym e)
          (Below-mono db.next_id bound n db.rows sound.below));
}

locked-Sound :
    (fault : Option String) (k : SegmentKey) (d n bound : ℕ) (db : Database)
    (answer : Acquired SegmentKey × List (SegmentKey × Bool))
    → Sound bound db
    → first_of_dc d ≤ bound
    → bound + n < 2 ^ 63
    → Sound (bound + n) (locked fault k d (pos (first_of_dc d)) (pos n) db answer).1
unfolding locked
locked-Sound fault k d n bound db (refused e, locks) sound h small =
    kept-Sound bound n db _ refl refl sound
locked-Sound (some error) k d n bound db (guard g, locks) sound h small =
    kept-Sound bound n db _ refl refl sound
locked-Sound none k d n bound db (guard g, locks) sound h small =
    let next = transact-Sound k d n bound db sound h small in
    record { distinct = next.distinct; below = next.below }

-- The same three for the whole allocation.
pub allocate-Handed :
    (fault : Option String) (k : SegmentKey) (d n bound : ℕ) (db : Database)
    → OfDc k d
    → Sound bound db
    → first_of_dc d ≤ bound
    → bound + n < 2 ^ 63
    → Handed k d (standing k d db.rows) n (allocate fault k d (pos (first_of_dc d)) (pos n) db)
unfolding allocate
allocate-Handed fault k d n bound db e sound h small = elim (Option-cases db.locks) [
  | inl unconfigured ↦ rw (unconfigured, allocate) refl
  | inr (locks, configured) ↦
      rw (configured, allocate)
        (locked-Handed fault k d n bound db (acquire k locks) e sound h small)
]

pub allocate-other :
    (fault : Option String) (k k' : SegmentKey) (d d' n : ℕ) (db : Database)
    → OfDc k d
    → OfDc k' d'
    → same_key k' k ≡ false
    → Distinct db.rows
    → standing k d (allocate fault k' d' (pos (first_of_dc d')) (pos n) db).1.rows
      ≡ standing k d db.rows
unfolding allocate
allocate-other fault k k' d d' n db e e' other distinct = elim (Option-cases db.locks) [
  | inl unconfigured ↦ rw (unconfigured, allocate) refl
  | inr (locks, configured) ↦
      rw (configured, allocate)
        (locked-other fault k k' d d' n db (acquire k' locks) e e' other distinct)
]

pub allocate-Sound :
    (fault : Option String) (k : SegmentKey) (d n bound : ℕ) (db : Database)
    → Sound bound db
    → first_of_dc d ≤ bound
    → bound + n < 2 ^ 63
    → Sound (bound + n) (allocate fault k d (pos (first_of_dc d)) (pos n) db).1
unfolding allocate
allocate-Sound fault k d n bound db sound h small = elim (Option-cases db.locks) [
  | inl unconfigured ↦ rw (unconfigured, allocate) (kept-Sound bound n db db refl refl sound)
  | inr (locks, configured) ↦
      rw (configured, allocate) (locked-Sound fault k d n bound db (acquire k locks) sound h small)
]
