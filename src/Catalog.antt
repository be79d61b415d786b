-- ===== src/Catalog.antt =====
-- The entities of src/core/database: workspaces, groups, business tags and API keys, as rows of tables
-- that src/core/database/connection.rs creates, and the queries on them.
--
-- A query takes a store to an answer and a store. A uuid is a number, and those that `new_v4` draws
-- are a sequence, as are the secrets. Every call of the database may fail: `faults` has the text of
-- its error, and then nothing has changed. The times of creation and change of a row are left out,
-- save those that a query reads.
pub mod Names
pub mod Table
pub mod Entities
pub mod Triple
pub mod Keeps
pub mod Rows
pub mod Credentials
pub mod Preload
mod Tests
pub mod Workspaces
pub mod Groups
pub mod BizTags
pub mod ApiKeys
use Prim.Native.String.{String}
use nebula_id.Prelude.{ℕ, ◌+◌, Bool, List, Option, none, some, if◌then◌else◌}
use nebula_id.Prelude.Int.{ℤ}
use nebula_id.Types.{CoreError, database_error, AlgorithmType}

pub data WorkspaceStatus : Type 0 where
  active inactive suspended : WorkspaceStatus

pub data IdFormat : Type 0 where
  numeric prefixed uuid : IdFormat

pub data ApiKeyRole : Type 0 where
  admin user anonymous : ApiKeyRole

pub record Workspace : Type 0 where
  pub id : ℕ
  pub name : String
  pub description : Option String
  pub status : WorkspaceStatus
  pub max_groups : ℤ
  pub max_biz_tags : ℤ

pub record Group : Type 0 where
  pub id : ℕ
  pub workspace_id : ℕ
  pub name : String
  pub description : Option String
  pub max_biz_tags : ℤ

pub record BizTag : Type 0 where
  pub id : ℕ
  pub workspace_id : ℕ
  pub group_id : ℕ
  pub name : String
  pub description : Option String
  pub algorithm : AlgorithmType
  pub format : IdFormat
  pub prefix : String
  pub base_step : ℤ
  pub max_step : ℤ
  pub datacenter_ids : List ℤ

pub record ApiKey : Type 0 where
  pub id : ℕ
  pub key_id : String
  pub key_secret_hash : String
  pub key_prefix : String
  pub role : ApiKeyRole
  pub workspace_id : Option ℕ
  pub name : String
  pub description : Option String
  pub rate_limit : ℤ
  pub enabled : Bool
  pub expires_at : Option ℕ
  pub last_used_at : Option ℕ
  pub created_at : ℕ

pub record Tables : Type 0 where
  pub workspaces : List Workspace
  pub groups : List Group
  pub biz_tags : List BizTag
  pub api_keys : List ApiKey

-- `violation` is the text with which the database refuses a row that breaks a constraint.
pub record Store : Type 0 where
  pub tables : Tables
  pub uuids : ℕ → ℕ
  pub drawn : ℕ
  pub faults : ℕ → Option String
  pub calls : ℕ
  pub violation : String

pub data Outcome (E : Type 0) (A : Type 0) : Type 0 where
  returned : A → Outcome E A
  raised : E → Outcome E A

abbrev pub Query : Type 0 → Type 0 → Type 0
Query E A = Store → Outcome E A × Store

module _ {E : Type 0} where
  abbrev pub pure : {A : Type 0} → A → Query E A
  pure a s = (returned a, s)

  abbrev pub raise : {A : Type 0} → E → Query E A
  raise e s = (raised e, s)

  abbrev pub resume : {A B : Type 0} → (A → Query E B) → Outcome E A × Store → Outcome E B × Store
  resume k (returned a, s) = k a s
  resume k (raised e, s) = (raised e, s)

  infixl 5 ◌>>=◌ ◌>>◌
  abbrev pub ◌>>=◌ : {A B : Type 0} → Query E A → (A → Query E B) → Query E B
  (q >>= k) s = resume k (q s)

  abbrev pub ◌>>◌ : {A B : Type 0} → Query E A → Query E B → Query E B
  q >> r = q >>= λ _. r

  -- `ok_or_else` with the error.
  abbrev pub ok_or : {A : Type 0} → E → Option A → Query E A
  ok_or e none = raise e
  ok_or e (some a) = pure a

  -- `Err(..)` unless the test holds.
  abbrev pub ensure : E → Bool → Query E (Unit {0})
  ensure e b s = if b then (returned tt, s) else (raised e, s)

-- `new_v4`
unfoldable pub new_v4 : Query CoreError ℕ
new_v4 s = (returned (s.uuids s.drawn), record s { drawn = s.drawn + 1 })

-- The number of the next draw of a random source.
unfoldable pub draw : Query CoreError ℕ
draw s = (returned s.drawn, record s { drawn = s.drawn + 1 })

-- One call of the database, if it does not fail.
unfoldable pub call : Query CoreError (Unit {0})
call s = elim (s.faults s.calls) [
  | none ↦ (returned tt, record s { calls = s.calls + 1 })
  | some text ↦ (raised (database_error text), record s { calls = s.calls + 1 })
]

-- `unwrap_or`
abbrev pub unwrap_or : {A : Type 0} → A → Option A → A
unwrap_or a none = a
unwrap_or a (some b) = b

-- `or`
abbrev pub or_old : {A : Type 0} → Option A → Option A → Option A
or_old (some a) old = some a
or_old none old = old
