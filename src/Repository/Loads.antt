-- ===== src/Repository/Loads.antt =====
-- The loaders' answers for one key, when requests for many keys come in.
use Prim.Native.String.{String}
use nebula_id.Prelude.{
  ℕ, ◌+◌, ◌*◌, ◌^◌, ◌≤◌, ◌<◌, ◌≡◌, refl, sym, ap, ◌∙◌, subst, true, false, List, [], ◌∷◌, Option,
  some, All, if◌then◌else◌, arith, Bool-cases, inl, inr, length,
}
use mathlib.Core.Option.{some_inj}
use nebula_id.Prelude.Int.{pos, as_i32, as_u64}
use nebula_id.Types.{CoreError, Result, ok, err}
use nebula_id.Segment.{Answers}
use nebula_id.Segment.Order.{Chained}
use nebula_id.Repository.{
  SegmentInfo, SegmentKey, same_key, same_key_iff, Database, allocate, allocate_segment_with_dc,
}
use nebula_id.Repository.Loader.{segment_data, loaded}
use nebula_id.Repository.Rows.{OfDc, Distinct}
use nebula_id.Repository.Transaction.{first_of_dc, standing, standing-Sound, Sound}
use nebula_id.Repository.Chain.{Handed, allocate-Handed, allocate-other, allocate-Sound}

-- A load for a datacenter, as `DatabaseSegmentLoader` asks for it, and what the database answers.
pub record Request : Type 0 where
  pub fault : Option String
  pub workspace_id : String
  pub biz_tag : String
  pub dc_id : ℕ
  pub step : ℕ

abbrev pub key_of : Request → SegmentKey
key_of r = record { workspace_id = r.workspace_id; biz_tag = r.biz_tag; dc_id = some r.dc_id }

-- Datacenters are bytes, and steps fit 31 bits.
abbrev pub Valid : List Request → Type 0
Valid = All (λ r. (r.dc_id < 256) × (r.step < 2 ^ 31))

-- The steps of the requests for one key.
unfoldable pub steps_of : SegmentKey → List Request → List ℕ
steps_of k [] = []
steps_of k (r ∷ later) =
    let rest = steps_of k later in if same_key (key_of r) k then r.step ∷ rest else rest

-- Every answered request of these steps is given a segment of just its step, which starts where the
-- one before it ends, below 2 ^ 63; a failed one is given nothing, and moves nothing.
abbrev pub Allotted : ℕ → List ℕ → Answers → Type 0
Allotted start [] [] = Unit {0}
Allotted start [] (a ∷ answers) = ⊥
Allotted start (n ∷ steps) [] = ⊥
Allotted start (n ∷ steps) (err e ∷ answers) = Allotted start steps answers
Allotted start (n ∷ steps) (ok s ∷ answers) =
    (s.start_id ≡ start)
    × (s.max_id ≡ start + n)
    × (start + n < 2 ^ 63)
    × Allotted (start + n) steps answers

-- Such segments are in the order that the buffer of `Segment.Order` asks for.
Allotted-Chained :
    (start : ℕ) (steps : List ℕ) (answers : Answers)
    → Allotted start steps answers
    → Chained start answers
Allotted-Chained start [] [] allotted = tt
Allotted-Chained start [] (a ∷ answers) allotted = absurd allotted
Allotted-Chained start (n ∷ steps) [] allotted = absurd allotted
Allotted-Chained start (n ∷ steps) (err e ∷ answers) allotted =
    Allotted-Chained start steps answers allotted
Allotted-Chained start (n ∷ steps) (ok s ∷ answers) (begins, ends, small, later) = (
  omega (arith, begins),
  omega (arith, begins, ends),
  omega (arith, ends),
  subst (λ x. Chained x answers) (sym ends) (Allotted-Chained (start + n) steps answers later),
)

-- The allocation of a request.
unfoldable pub serve : Request → Database → Result SegmentInfo × Database
serve r db = allocate_segment_with_dc r.fault r.workspace_id r.biz_tag (as_i32 r.step) r.dc_id db

allocate-own :
    (fault : Option String) (k k' : SegmentKey) (d d' n bound : ℕ) (db : Database)
    → OfDc k d
    → OfDc k' d'
    → same_key k' k ≡ true
    → Sound bound db
    → first_of_dc d' ≤ bound
    → bound + n < 2 ^ 63
    → Handed k d (standing k d db.rows) n (allocate fault k' d' (pos (first_of_dc d')) (pos n) db)
allocate-own fault k k' d d' n bound db e e' same sound h small =
    let keys : k' ≡ k = (same_key_iff k' k).0 same in
    let dcs : d' ≡ d = some_inj.0 (sym e' ∙ ap (λ x. x.dc_id) keys ∙ e) in
    subst
      (λ x.
        Handed k d (standing k d db.rows) n (allocate fault x d' (pos (first_of_dc d')) (pos n) db))
      (sym keys)
      (subst
        (λ y.
          Handed k d (standing k d db.rows) n (allocate fault k y (pos (first_of_dc y)) (pos n) db))
        (sym dcs) (allocate-Handed fault k d n bound db e sound (omega (arith, dcs)) small))

as_i32-pos : (step : ℕ) → step < 2 ^ 31 → as_i32 step ≡ pos step
unfolding as_i32
as_i32-pos step small = ground arith

as_u64-pos : (n : ℕ) → n < 2 ^ 64 → as_u64 (pos n) ≡ n
unfolding as_u64
as_u64-pos n small = omega arith

serve_allocates :
    (r : Request) (db : Database)
    → r.step < 2 ^ 31
    → serve r db ≡ allocate r.fault (key_of r) r.dc_id (pos (first_of_dc r.dc_id)) (pos r.step) db
unfolding serve allocate_segment_with_dc
serve_allocates r db small =
    ap (λ s. allocate r.fault (key_of r) r.dc_id (pos (first_of_dc r.dc_id)) s db)
      (as_i32-pos r.step small)

serve-Sound :
    (r : Request) (bound : ℕ) (db : Database)
    → Sound bound db
    → r.step < 2 ^ 31
    → first_of_dc r.dc_id ≤ bound
    → bound + r.step < 2 ^ 63
    → Sound (bound + r.step) (serve r db).1
serve-Sound r bound db sound small h fits =
    rw (serve_allocates r db small)
      (allocate-Sound r.fault (key_of r) r.dc_id r.step bound db sound h fits)

serve-own :
    (r : Request) (k : SegmentKey) (d bound : ℕ) (db : Database)
    → OfDc k d
    → same_key (key_of r) k ≡ true
    → Sound bound db
    → r.step < 2 ^ 31
    → first_of_dc r.dc_id ≤ bound
    → bound + r.step < 2 ^ 63
    → Handed k d (standing k d db.rows) r.step (serve r db)
serve-own r k d bound db e same sound small h fits =
    rw (serve_allocates r db small)
      (allocate-own r.fault k (key_of r) d r.dc_id r.step bound db e refl same sound h fits)

serve-other :
    (r : Request) (k : SegmentKey) (d : ℕ) (db : Database)
    → OfDc k d
    → same_key (key_of r) k ≡ false
    → Distinct db.rows
    → r.step < 2 ^ 31
    → standing k d (serve r db).1.rows ≡ standing k d db.rows
serve-other r k d db e other distinct small =
    rw (serve_allocates r db small)
      (allocate-other r.fault k (key_of r) d r.dc_id r.step db e refl other distinct)

same-dc :
    (r : Request) (k : SegmentKey) (d : ℕ) → OfDc k d → same_key (key_of r) k ≡ true → r.dc_id ≡ d
same-dc r k d e same = some_inj.0 (ap (λ x. x.dc_id) ((same_key_iff (key_of r) k).0 same) ∙ e)

module _ (shown : CoreError → String) where
  -- The answers to the requests for one key, while the requests are served in their order.
  unfoldable pub loads : SegmentKey → List Request → Database → Answers
  loads k [] db = []
  loads k (r ∷ later) db =
      let done = serve r db in
      let rest = loads k later done.1 in
      if same_key (key_of r) k then loaded shown done.0 ∷ rest else rest

  answer-Allotted :
      (k : SegmentKey) (d start n : ℕ) (res : Result SegmentInfo) (db : Database) (steps : List ℕ)
      (rest : Answers)
      → Handed k d start n (res, db)
      → start + n < 2 ^ 63
      → Allotted (standing k d db.rows) steps rest
      → Allotted start (n ∷ steps) (loaded shown res ∷ rest)
  unfolding loaded segment_data
  answer-Allotted k d start n (ok s) db steps rest (begins, ends, moved) small allotted = (
    ap as_u64 begins ∙ as_u64-pos start (omega arith),
    ap as_u64 ends ∙ as_u64-pos (start + n) (omega arith),
    small,
    subst (λ x. Allotted x steps rest) moved allotted,
  )
  answer-Allotted k d start n (err e) db steps rest kept small allotted =
      subst (λ x. Allotted x steps rest) kept allotted

  -- Whatever requests are served in between, and wherever the database fails, the segments that one key
  -- of one datacenter is given have just the size asked for, and follow one another without a gap from
  -- where the key stood. The table is sound, datacenters are bytes, steps fit 31 bits, and the bound
  -- leaves room for the steps in 63 bits.
  pub loads-Allotted :
      (k : SegmentKey) (d bound : ℕ) (requests : List Request) (db : Database)
      → OfDc k d
      → Sound bound db
      → Valid requests
      → first_of_dc 255 ≤ bound
      → bound + length requests * 2 ^ 31 < 2 ^ 63
      → Allotted (standing k d db.rows) (steps_of k requests) (loads k requests db)
  unfolding loads steps_of
  loads-Allotted k d bound [] db e sound valid h small = tt
  loads-Allotted k d bound (r ∷ later) db e sound valid h small =
      let base : first_of_dc r.dc_id ≤ bound = omega (arith, valid.0.0) in
      let fits : bound + r.step < 2 ^ 63 = omega (arith, valid.0.1) in
      let sound' = serve-Sound r bound db sound valid.0.1 base fits in
      let rest =
        loads-Allotted k d (bound + r.step) later (serve r db).1 e sound' valid.1 (omega arith)
          (omega (arith, valid.0.1)) in
      elim (Bool-cases (same_key (key_of r) k)) [
        | inl own ↦
            rw (own, loads)
              (answer-Allotted k d (standing k d db.rows) r.step (serve r db).0 (serve r db).1
                (steps_of k later) (loads k later (serve r db).1)
                (serve-own r k d bound db e own sound valid.0.1 base fits)
                (omega (
                  arith,
                  standing-Sound k d bound db sound (omega (arith, base, same-dc r k d e own)),
                ))
                rest)
        | inr other ↦
            rw (other, loads)
              (subst (λ x. Allotted x (steps_of k later) (loads k later (serve r db).1))
                (serve-other r k d db e other sound.distinct valid.0.1) rest)
      ]

  -- So they go up from where the key stood, whatever the rows of other keys are.
  loads-Chained :
      (k : SegmentKey) (d bound : ℕ) (requests : List Request) (db : Database)
      → OfDc k d
      → Sound bound db
      → Valid requests
      → first_of_dc 255 ≤ bound
      → bound + length requests * 2 ^ 31 < 2 ^ 63
      → Chained (standing k d db.rows) (loads k requests db)
  loads-Chained k d bound requests db e sound valid h small =
      Allotted-Chained (standing k d db.rows) (steps_of k requests) (loads k requests db)
        (loads-Allotted k d bound requests db e sound valid h small)
