-- ===== src/Repository/Transaction.antt =====
-- One transaction of the allocation: what it hands to its key, and what it leaves to the others.
use nebula_id.Prelude.{
  ℕ, ◌+◌, ◌*◌, ◌^◌, ◌≤◌, ◌<◌, ◌≡◌, refl, sym, ap, ◌∙◌, true, false, List, [], ◌∷◌, ◌++◌, none, some,
  arith, Option-cases, inl, inr,
}
use nebula_id.Prelude.Assoc.{string_eq}
use nebula_id.Prelude.Int.{pos, pos_part, saturating_add, saturating_add-pos}
use nebula_id.Repository.{
  Row, SegmentInfo, SegmentKey, key_eq, same_key, passes, Database, find_one, take_segment, new_row,
  first_segment, transact,
}
use nebula_id.Repository.Rows.{
  OfDc, passes_one, Distinct, Below, find_one-update_current, find_one-update_other,
  find_one-append, find_one-append_other, find_one-Below, update_current-Below,
  update_current-Distinct, append-Below, append-Distinct,
}

abbrev pub first_of_dc : ℕ → ℕ
first_of_dc dc_id = dc_id * 1_000_000_000_000 + 1

-- The number that the next segment of a key starts at.
unfoldable pub standing : SegmentKey → ℕ → List Row → ℕ
standing key dc_id rows = elim (find_one key rows) [
  | none ↦ first_of_dc dc_id
  | some row ↦ pos_part row.current_id
]

-- The rows have different numbers, below the next one, and the numbers of ids that they hold are
-- positive and at most the bound.
pub record Sound (bound : ℕ) (db : Database) : Type 0 where
  pub distinct : Distinct db.rows
  pub below : Below db.next_id bound db.rows

standing-none :
    (k : SegmentKey) (d : ℕ) (rows : List Row)
    → find_one k rows ≡ none
    → standing k d rows ≡ first_of_dc d
unfolding standing
standing-none k d rows e = rw (e, standing) refl

standing-some :
    (k : SegmentKey) (d : ℕ) (row : Row) (rows : List Row)
    → find_one k rows ≡ some row
    → standing k d rows ≡ pos_part row.current_id
unfolding standing
standing-some k d row rows e = rw (e, standing) refl

pub standing-Sound :
    (k : SegmentKey) (d bound : ℕ) (db : Database)
    → Sound bound db
    → first_of_dc d ≤ bound
    → standing k d db.rows ≤ bound
standing-Sound k d bound db sound h = elim (Option-cases (find_one k db.rows)) [
  | inl missing ↦ rw (standing-none k d db.rows missing) h
  | inr (row, found) ↦
      rw (standing-some k d row db.rows found)
        (find_one-Below k row db.next_id bound db.rows sound.below found).1
]

standing_same :
    (k : SegmentKey) (d : ℕ) (rows rows' : List Row)
    → find_one k rows' ≡ find_one k rows
    → standing k d rows' ≡ standing k d rows
unfolding standing
standing_same k d rows rows' e = rw (e, standing) refl

-- What a transaction with a key does: the segment starts where the key stood, and the key moves to its end.
abbrev pub Taken : SegmentKey → ℕ → ℕ → ℕ → SegmentInfo × Database → Type 0
Taken k d start n (s, db) =
    (s.current_id ≡ pos start) × (s.max_id ≡ pos (start + n)) × (standing k d db.rows ≡ start + n)

passes_own :
    (k : SegmentKey) (id d n : ℕ)
    → OfDc k d
    → passes k (new_row id k d (pos (first_of_dc d)) (pos n)) ≡ true
unfolding new_row
passes_own k id d n e = ground (
  arith,
  string_eq.same_iff k.workspace_id k.workspace_id,
  string_eq.same_iff k.biz_tag k.biz_tag,
)

pub transact-Taken :
    (k : SegmentKey) (d n bound : ℕ) (db : Database)
    → OfDc k d
    → Sound bound db
    → first_of_dc d ≤ bound
    → bound + n < 2 ^ 63
    → Taken k d (standing k d db.rows) n (transact k d (pos (first_of_dc d)) (pos n) db)
unfolding transact take_segment first_segment new_row
transact-Taken k d n bound db e sound h small = elim (Option-cases (find_one k db.rows)) [
  | inl missing ↦
      let sum = saturating_add-pos (first_of_dc d) n (omega arith) in
      let x = new_row db.next_id k d (pos (first_of_dc d)) (pos n) in
      rw (standing-none k d db.rows missing) (
        rw (missing, transact)
          (
            refl,
            sum,
            standing-some k d x (db.rows ++ (x ∷ []))
                  (find_one-append k db.rows x missing (passes_own k db.next_id d n e))
                ∙ ap pos_part sum,
          ))
  | inr (row, found) ↦
      let (c, le) = find_one-Below k row db.next_id bound db.rows sound.below found in
      let sum = saturating_add-pos (pos_part row.current_id) n (omega arith) in
      let sum' : saturating_add row.current_id (pos n) ≡ pos (pos_part row.current_id + n) =
        ap (λ a. saturating_add a (pos n)) c ∙ sum in
      rw (standing-some k d row db.rows found) (
        rw (found, transact)
          (
            c,
            sum',
            standing-some k d (record row { current_id = saturating_add row.current_id (pos n) }) _
                  (find_one-update_current k row (saturating_add row.current_id (pos n)) db.rows
                    found)
                ∙ ap pos_part sum',
          ))
]

pub transact-other :
    (k k' : SegmentKey) (d d' n : ℕ) (db : Database)
    → OfDc k d
    → OfDc k' d'
    → same_key k' k ≡ false
    → Distinct db.rows
    → standing k d (transact k' d' (pos (first_of_dc d')) (pos n) db).1.rows ≡ standing k d db.rows
unfolding transact take_segment
transact-other k k' d d' n db e e' other distinct = elim (Option-cases (find_one k' db.rows)) [
  | inl missing ↦
      let x = new_row db.next_id k' d' (pos (first_of_dc d')) (pos n) in
      rw (missing, transact)
        (standing_same k d db.rows (db.rows ++ (x ∷ [])) (
          find_one-append_other k db.rows x
            (passes_one k k' d d' x e e' other (passes_own k' db.next_id d' n e'))))
  | inr (row, found) ↦
      rw (found, transact)
        (standing_same k d db.rows _ (
          find_one-update_other k k' d d' row (saturating_add row.current_id (pos n)) db.rows e e'
            other distinct found))
]

pub transact-Sound :
    (k : SegmentKey) (d n bound : ℕ) (db : Database)
    → Sound bound db
    → first_of_dc d ≤ bound
    → bound + n < 2 ^ 63
    → Sound (bound + n) (transact k d (pos (first_of_dc d)) (pos n) db).1
unfolding transact take_segment new_row
transact-Sound k d n bound db sound h small = elim (Option-cases (find_one k db.rows)) [
  | inl missing ↦
      let sum = saturating_add-pos (first_of_dc d) n (omega arith) in
      let x = new_row db.next_id k d (pos (first_of_dc d)) (pos n) in
      rw (missing, transact)
        (record {
          distinct = append-Distinct db.next_id bound db.rows x refl sound.below sound.distinct;
          below =
              append-Below db.next_id bound n db.rows x refl
                (sum ∙ ap (λ a. pos (pos_part a)) (sym sum)) (omega (arith, ap pos_part sum))
                sound.below;
        })
  | inr (row, found) ↦
      let (c, le) = find_one-Below k row db.next_id bound db.rows sound.below found in
      let sum = saturating_add-pos (pos_part row.current_id) n (omega arith) in
      let sum' : saturating_add row.current_id (pos n) ≡ pos (pos_part row.current_id + n) =
        ap (λ a. saturating_add a (pos n)) c ∙ sum in
      rw (found, transact, sum')
        (record {
          distinct =
              update_current-Distinct row.id (pos (pos_part row.current_id + n)) db.rows
                sound.distinct;
          below =
              update_current-Below row.id (pos_part row.current_id + n) db.next_id bound n db.rows
                (omega arith) sound.below;
        })
]
