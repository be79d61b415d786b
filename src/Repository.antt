-- ===== src/Repository.antt =====
-- src/core/database/repository.rs: the allocation of segments by `SeaOrmRepository`, over the lock of
-- src/core/coordinator/local.rs, for one caller at a time.
--
-- The table is a list of rows, in the order in which the database goes through them. A transaction
-- takes effect as a whole at its commit; `fault` is the text of the error with which the database
-- answers one of the transaction's calls, if it does. `default_dc` is the value that the database
-- gives to the column that `allocate_segment` does not set. A lock key is kept as its parts.
-- Timestamps are left out.
pub mod Rows
pub mod Loader
pub mod Transaction
pub mod Chain
pub mod Loads
pub mod Processes
pub mod Faults
pub mod Duplicates
mod Tests
use Prim.Native.String.{String}
use nebula_id.Prelude.{
  ℕ, ◌+◌, ◌*◌, ◌≡◌, ◌↔◌, Bool, true, false, ◌&&◌, List, [], ◌∷◌, ◌++◌, Option, none, some, ◌==◌,
  if◌then◌else◌, arith, u32,
}
use nebula_id.Prelude.Assoc.{Eq, string_eq}
use nebula_id.Prelude.Int.{ℤ, pos, saturating_add, as_u32}
use nebula_id.Types.{CoreError, Result, ok, err}
use nebula_id.LocalLock.{Acquired, guard, refused, acquire, release_lock}

-- The columns of a row of the segment table.
pub record Row : Type 0 where
  pub id : ℕ
  pub workspace_id : String
  pub biz_tag : String
  pub dc_id : ℕ
  pub current_id : ℤ
  pub max_id : ℤ
  pub step : ℤ
  pub delta : ℤ

pub record SegmentInfo : Type 0 where
  pub id : ℕ
  pub workspace_id : String
  pub biz_tag : String
  pub current_id : ℤ
  pub max_id : ℤ
  pub step : ℕ
  pub delta : ℕ

-- `segment_lock_key`
pub record SegmentKey : Type 0 where
  pub workspace_id : String
  pub biz_tag : String
  pub dc_id : Option ℕ

abbrev pub same_dc : Option ℕ → Option ℕ → Bool
same_dc none none = true
same_dc (some a) (some b) = a == b
same_dc _ _ = false

abbrev pub same_key : SegmentKey → SegmentKey → Bool
same_key a b =
    string_eq.same a.workspace_id b.workspace_id
    && string_eq.same a.biz_tag b.biz_tag
    && same_dc a.dc_id b.dc_id

pub same_key_iff : (a b : SegmentKey) → (same_key a b ≡ true) ↔ (a ≡ b)
same_key_iff a b = ground (
  arith,
  string_eq.same_iff a.workspace_id b.workspace_id,
  string_eq.same_iff a.biz_tag b.biz_tag,
)

instance abbrev pub key_eq : Eq SegmentKey
key_eq = record { same = same_key; same_iff = same_key_iff }

-- `distributed_lock` is `none` when none is configured.
pub record Database : Type 0 where
  pub rows : List Row
  pub next_id : ℕ
  pub locks : Option (List (SegmentKey × Bool))

-- The filters of the query; without a datacenter a row of any one passes.
abbrev pub passes : SegmentKey → Row → Bool
passes key row =
    string_eq.same row.workspace_id key.workspace_id
    && string_eq.same row.biz_tag key.biz_tag
    && (elim key.dc_id [ none ↦ true | some dc_id ↦ row.dc_id == dc_id ])

unfoldable pub find_one : SegmentKey → List Row → Option Row
find_one key [] = none
find_one key (row ∷ rows) = if passes key row then some row else find_one key rows

-- `UPDATE ... SET current_id WHERE id`
unfoldable pub update_current : ℕ → ℤ → List Row → List Row
update_current id current_id [] = []
update_current id current_id (row ∷ rows) =
    let rest = update_current id current_id rows in
    if row.id == id then record row { current_id = current_id } ∷ rest else row ∷ rest

-- The segment of a row that was found, with the row's number advanced by the step.
take_segment : Row → ℤ → List Row → SegmentInfo × List Row
take_segment row step rows =
    let new_max_id = saturating_add row.current_id step in
    (
      record {
        id = row.id;
        workspace_id = row.workspace_id;
        biz_tag = row.biz_tag;
        current_id = row.current_id;
        max_id = new_max_id;
        step = as_u32 row.step;
        delta = as_u32 row.delta;
      },
      update_current row.id new_max_id rows,
    )

-- The row that is inserted when none was found.
new_row : ℕ → SegmentKey → ℕ → ℤ → ℤ → Row
new_row id key dc_id start_id step = record {
  id = id;
  workspace_id = key.workspace_id;
  biz_tag = key.biz_tag;
  dc_id = dc_id;
  current_id = saturating_add start_id step;
  max_id = saturating_add start_id step;
  step = step;
  delta = pos 1;
}

first_segment : ℕ → SegmentKey → ℤ → ℤ → SegmentInfo
first_segment id key start_id step = record {
  id = id;
  workspace_id = key.workspace_id;
  biz_tag = key.biz_tag;
  current_id = start_id;
  max_id = saturating_add start_id step;
  step = as_u32 step;
  delta = 1;
}

-- The transaction: the segment, the rows and the next row number after it.
pub transact : SegmentKey → ℕ → ℤ → ℤ → Database → SegmentInfo × Database
unfolding take_segment
transact key dc_id start_id step db = elim (find_one key db.rows) [
  | some row ↦ let taken = take_segment row step db.rows in (taken.0, record db { rows = taken.1 })
  | none ↦ (
    first_segment db.next_id key start_id step,
    record db {
      rows = db.rows ++ (new_row db.next_id key dc_id start_id step ∷ []);
      next_id = db.next_id + 1;
    },
  )
]

-- The lock is released after the commit. An error of the transaction returns before that.
locked :
    Option String
    → SegmentKey
    → ℕ
    → ℤ
    → ℤ
    → Database
    → Acquired SegmentKey × List (SegmentKey × Bool)
    → Result SegmentInfo × Database
locked fault key dc_id start_id step db (refused e, locks) = (
  err (CoreError.internal_error "Failed to acquire distributed lock for segment allocation"),
  record db { locks = some locks },
)
locked (some error) key dc_id start_id step db (guard k, locks) =
    (err (CoreError.database_error error), record db { locks = some locks })
locked none key dc_id start_id step db (guard k, locks) =
    let done = transact key dc_id start_id step db in
    (ok done.0, record (done.1) { locks = some (release_lock k locks) })

pub allocate : Option String → SegmentKey → ℕ → ℤ → ℤ → Database → Result SegmentInfo × Database
unfolding locked
allocate fault key dc_id start_id step db = elim db.locks [
  | none ↦ (
    err (CoreError.configuration_error "Distributed lock not configured for segment allocation"),
    db,
  )
  | some locks ↦ locked fault key dc_id start_id step db (acquire key locks)
]

pub allocate_segment :
    Option String → ℕ → String → String → ℤ → Database → Result SegmentInfo × Database
allocate_segment fault default_dc workspace_id biz_tag step db =
    allocate fault (record { workspace_id = workspace_id; biz_tag = biz_tag; dc_id = none })
      default_dc (pos 1) step db

-- A datacenter is a byte, for which the product fits 64 bits.
pub allocate_segment_with_dc :
    Option String → String → String → ℤ → ℕ → Database → Result SegmentInfo × Database
allocate_segment_with_dc fault workspace_id biz_tag step dc_id db =
    allocate fault (record { workspace_id = workspace_id; biz_tag = biz_tag; dc_id = some dc_id })
      dc_id (pos (dc_id * 1_000_000_000_000 + 1)) step db
