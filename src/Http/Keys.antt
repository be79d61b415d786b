-- ===== src/Http/Keys.antt =====
-- The handlers of API keys: src/server/handlers/api_key_handlers.rs, and those of workspace_handlers.rs
-- that make the key of a workspace. What `parse_from_rfc3339` says of a time is an argument.
use Prim.Native.String
use Prim.Native.String.{String}
use nebula_id.Prelude.{
  ℕ, ltb, Bool, true, false, not, List, [], ◌∷◌, length, Option, none, some, if◌then◌else◌,
}
use nebula_id.Prelude.Assoc.{string_eq}
use nebula_id.Prelude.Int.{ℤ, pos}
use nebula_id.Types.{CoreError, not_found, invalid_input, invalid_id_format, authentication_error}
use nebula_id.Catalog.{
  Workspace, ApiKey, ApiKeyRole, admin, user, anonymous, Query, pure, raise, ok_or, ensure, ◌>>=◌,
  ◌>>◌,
}
use nebula_id.Catalog.Table.{any, rows_where}
use nebula_id.Catalog.Workspaces.{CreateWorkspaceRequest}
use nebula_id.Catalog.ApiKeys
use nebula_id.Catalog.ApiKeys.{Crypto, is_admin, get_api_key_by_id, delete_api_key, count_api_keys}
use nebula_id.Http.{Server, map_db_error}
use nebula_id.Http.Service

-- `expires_at` is none where it is not given, and `some none` where it is no time.
pub record CreateApiKeyRequest : Type 0 where
  pub workspace_id : Option (Option ℕ)
  pub name : String
  pub description : Option String
  pub role : Option String
  pub rate_limit : Option ℤ
  pub expires_at : Option (Option ℕ)

abbrev pub is_user : ApiKeyRole → Bool
is_user user = true
is_user admin = false
is_user anonymous = false

-- The role that the request names.
unfoldable pub requested_role : Option String → Query CoreError ApiKeyRole
requested_role none = pure user
requested_role (some r) =
    if string_eq.same r "admin"
    then pure admin
    else if string_eq.same r "user"
    then pure user
    else raise (authentication_error "invalid role")

unfoldable pub parse_expiry : Option (Option ℕ) → Query CoreError (Option ℕ)
parse_expiry none = pure none
parse_expiry (some none) = raise (invalid_id_format "Invalid expires_at format")
parse_expiry (some (some t)) = pure (some t)

module _ (server : Server) where
  -- One page of a thousand keys, from the first.
  abbrev pub page_of_keys : ℕ → Query CoreError (List ApiKey)
  page_of_keys workspace_id =
      map_db_error server (ApiKeys.list_api_keys workspace_id (some 1000) (some 0))

  -- What is looked at before a key of a role is made.
  unfoldable pub check_existing : ApiKeyRole → Option ℕ → Query CoreError (Unit {0})
  check_existing admin workspace_id = do
    existing_keys ← page_of_keys 0
    ensure (authentication_error "admin key already exists")
        (not (any (λ k. is_admin k.role) existing_keys))
  check_existing user workspace_id = do
    ws_id ← ok_or (invalid_input "workspace_id required") workspace_id
    existing_keys ← page_of_keys ws_id
    ensure (authentication_error "user key already exists")
        (not (any (λ k. is_user k.role) existing_keys))
  check_existing anonymous workspace_id = pure tt

  -- What is looked at before a key is revoked.
  unfoldable pub check_last_admin : Option ApiKey → Query CoreError (Unit {0})
  check_last_admin none = pure tt
  check_last_admin (some key) =
      if is_admin key.role
      then (do
        existing_keys ← page_of_keys 0
        ensure (authentication_error "Cannot revoke the last admin key")
            (ltb 1 (length (rows_where (λ k. is_admin k.role) existing_keys))))
      else pure tt

  -- The loop that deletes the user keys.
  unfoldable pub delete_user_keys : List ApiKey → Query CoreError (Unit {0})
  delete_user_keys [] = pure tt
  delete_user_keys (key ∷ keys) =
      let again = delete_user_keys keys in
      if is_user key.role then (do map_db_error server (delete_api_key key.id); again) else again

  abbrev with_keys : Query CoreError (Unit {0})
  with_keys = ensure (not_found "api key repository not configured") server.api_key_repo

  unfoldable pub create_api_key : Option ℕ → CreateApiKeyRequest → Query CoreError (ApiKey × String)
  create_api_key workspace_id req = do
    with_keys
    role ← requested_role req.role
    check_existing role workspace_id
    expires_at ← parse_expiry req.expires_at
    map_db_error server (
        ApiKeys.create_api_key server.crypto server.now (record {
          workspace_id = workspace_id;
          name = req.name;
          description = req.description;
          role = role;
          rate_limit = req.rate_limit;
          expires_at = expires_at;
          key_secret = none;
          key_id = none;
        }))

  -- With the total.
  unfoldable pub list_api_keys : ℕ → Option ℕ → Option ℕ → Query CoreError (List ApiKey × ℕ)
  list_api_keys workspace_id limit offset = do
    with_keys
    keys ← map_db_error server (ApiKeys.list_api_keys workspace_id limit offset)
    total ← map_db_error server (count_api_keys workspace_id)
    pure (keys, total)

  unfoldable pub revoke_api_key : ℕ → Query CoreError (Unit {0})
  revoke_api_key id = do
    with_keys
    key_info ← map_db_error server (get_api_key_by_id (server.crypto.uuid_text id))
    check_last_admin key_info
    map_db_error server (delete_api_key id)

  unfoldable pub rotate_api_key : String → Query CoreError (ApiKey × String)
  rotate_api_key key_id = do
    ensure (invalid_input "key_id empty") (not (string_eq.same key_id ""))
    with_keys
    map_db_error server (ApiKeys.rotate_api_key server.crypto key_id server.grace_period_seconds)

  -- The key that a workspace is given.
  unfoldable pub new_user_key : Workspace → Query CoreError (ApiKey × String)
  new_user_key w = map_db_error server (
      ApiKeys.create_api_key server.crypto server.now (record {
        workspace_id = some w.id;
        name = String.◌++◌ w.name "-user-key";
        description = some (String.◌++◌ "User API key for workspace: " w.name);
        role = user;
        rate_limit = some (pos 10000);
        expires_at = none;
        key_secret = none;
        key_id = none;
      }))

  unfoldable pub create_workspace : CreateWorkspaceRequest → Query CoreError (Workspace × ApiKey)
  create_workspace req = do
    w ← map_db_error server (Service.create_workspace server req)
    with_keys
    key ← new_user_key w
    pure (w, key.0)

  unfoldable pub regenerate_user_api_key : String → Query CoreError (ApiKey × String)
  regenerate_user_api_key workspace_name = do
    found ← map_db_error server (Service.get_workspace server workspace_name)
    w ← ok_or (not_found "Workspace not found") found
    with_keys
    existing_keys ← page_of_keys w.id
    delete_user_keys existing_keys
    new_user_key w
