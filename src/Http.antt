-- ===== src/Http.antt =====
-- The HTTP interface of src/server: who may do what with the entities of the database.
--
-- A request has been authenticated: its identity is what src/server/middleware/api_key_auth.rs leaves
-- in the extensions. What `validate` of the validator crate says of a body is a Boolean that comes with
-- it, and a path is already parsed as a uuid, if it is one. A response carries the rows that it shows;
-- its texts, the locale and logging are left out.
pub mod Service
pub mod Keys
pub mod Handlers
pub mod Routes
pub mod Separation
pub mod Rules
pub mod Kept
pub mod KeysKept
pub mod Tenancy
pub mod AdminKeys
pub mod UserKeys
pub mod Owned
pub mod Shown
mod Tests
use Prim.Native.String.{String}
use nebula_id.Prelude.{ℕ, ◌==◌, Bool, List, Option, none, some, if◌then◌else◌}
use nebula_id.Types.{CoreError, database_error}
use nebula_id.Catalog.{
  Workspace, Group, BizTag, ApiKey, ApiKeyRole, admin, user, anonymous, Store, Outcome, returned,
  raised, Query, pure, raise,
}
use nebula_id.Catalog.ApiKeys.{Crypto}

-- What `ApiHandlers` and `ConfigManager` are built with: which repositories there are, the grace period
-- and the crates; with the text of an error, and the time of the request.
pub record Server : Type 0 where
  pub crypto : Crypto
  pub lowercase : String → String
  pub display : CoreError → String
  pub repository : Bool
  pub workspace_repository : Bool
  pub group_repository : Bool
  pub api_key_repo : Bool
  pub grace_period_seconds : ℕ
  pub now : ℕ

-- The extensions: `role` is missing where the authentication has not run.
pub record Identity : Type 0 where
  pub role : Option ApiKeyRole
  pub workspace_id : Option ℕ

pub data HttpError : Type 0 where
  validation_error invalid_uuid workspace_id_required : HttpError
  auth_required admin_required admin_cannot_perform workspace_mismatch : HttpError
  workspace_not_found : HttpError
  core_error : CoreError → HttpError

pub data Response : Type 0 where
  generated parsed config_shown config_updated no_content revoked : Response
  workspace : Workspace → Response
  workspace_with_key : Workspace → ApiKey → Response
  workspaces : List Workspace → Response
  group : Group → Response
  groups : List Group → Response
  biz_tag : BizTag → Response
  biz_tags : List BizTag → ℕ → Response
  api_key : ApiKey → Response
  api_keys : List ApiKey → ℕ → Response

abbrev pub redone :
    {A : Type 0} → (CoreError → String) → Outcome CoreError A × Store → Outcome CoreError A × Store
redone display (returned a, s) = (returned a, s)
redone display (raised e, s) = (raised (database_error (display e)), s)

-- `map_err(map_db_error)`
abbrev pub map_db_error : {A : Type 0} → Server → Query CoreError A → Query CoreError A
map_db_error server q s = redone server.display (q s)

-- `core_error_to_response`
abbrev pub mapped : {A : Type 0} → Outcome CoreError A × Store → Outcome HttpError A × Store
mapped (returned a, s) = (returned a, s)
mapped (raised e, s) = (raised (core_error e), s)

abbrev pub from_core : {A : Type 0} → Query CoreError A → Query HttpError A
from_core q s = mapped (q s)
