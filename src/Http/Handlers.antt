-- ===== src/Http/Handlers.antt =====
-- The checks and the handlers of src/server/router.rs.
use Prim.Native.String.{String}
use nebula_id.Prelude.{
  ℕ, ◌-◌, ◌*◌, ◌==◌, max, min, Bool, Option, none, some, if◌then◌else◌, u32, u64,
}
use nebula_id.Prelude.Assoc.{string_eq}
use nebula_id.Catalog.{
  BizTag, ApiKeyRole, admin, user, anonymous, Query, pure, raise, ok_or, ensure, ◌>>=◌, ◌>>◌,
  unwrap_or,
}
use nebula_id.Catalog.Workspaces.{CreateWorkspaceRequest}
use nebula_id.Http.{
  Server, HttpError, validation_error, invalid_uuid, workspace_id_required, auth_required,
  admin_cannot_perform, workspace_mismatch, workspace_not_found, Response, generated, no_content,
  revoked, workspace, workspace_with_key, workspaces, group, groups, biz_tag, biz_tags, api_key,
  api_keys, from_core,
}
use nebula_id.Http.Service
use nebula_id.Http.Service.{CreateBizTagRequest, UpdateBizTagRequest, CreateGroupRequest}
use nebula_id.Http.Keys
use nebula_id.Http.Keys.{CreateApiKeyRequest}

unfoldable pub verify_user_role : ApiKeyRole → Query HttpError (Unit {0})
verify_user_role admin = raise admin_cannot_perform
verify_user_role anonymous = raise auth_required
verify_user_role user = pure tt

-- `validate_request`, where the Boolean says whether the body is valid.
abbrev pub validate_request : Bool → Query HttpError (Unit {0})
validate_request valid = ensure validation_error valid

unfoldable pub verify_workspace_id_match : ℕ → Option ℕ → Query HttpError (Unit {0})
verify_workspace_id_match id none = pure tt
verify_workspace_id_match id (some w) = ensure workspace_mismatch (id == w)

module _ (server : Server) where
  unfoldable pub verify_user_workspace : String → Option ℕ → Query HttpError (Unit {0})
  verify_user_workspace name key_workspace_id = do
    found ← from_core (Service.get_workspace server name)
    ws ← ok_or workspace_not_found found
    verify_workspace_id_match ws.id key_workspace_id

  module _ (role : ApiKeyRole) (key_workspace_id : Option ℕ) where
    -- `handle_generate` and `handle_batch_generate`, up to the call of the generator.
    unfoldable pub handle_generate : Bool → String → Query HttpError Response
    handle_generate valid workspace_name = do
      verify_user_role role
      validate_request valid
      verify_user_workspace workspace_name key_workspace_id
      pure generated

    unfoldable pub handle_create_biz_tag : Bool → CreateBizTagRequest → Query HttpError Response
    handle_create_biz_tag valid req = do
      validate_request valid
      verify_user_role role
      verify_workspace_id_match req.workspace_id key_workspace_id
      b ← from_core (Service.create_biz_tag server req)
      pure (biz_tag b)

    -- The tag that a request may go on with.
    unfoldable pub own_biz_tag : ℕ → Query HttpError BizTag
    own_biz_tag id = do
      verify_user_role role
      b ← from_core (Service.get_biz_tag server id)
      verify_workspace_id_match b.workspace_id key_workspace_id
      pure b

    unfoldable pub handle_get_biz_tag : Option ℕ → Query HttpError Response
    handle_get_biz_tag id = do uuid ← ok_or invalid_uuid id; b ← own_biz_tag uuid; pure (biz_tag b)

    unfoldable pub handle_update_biz_tag :
        Option ℕ → Bool → UpdateBizTagRequest → Query HttpError Response
    handle_update_biz_tag id valid req = do
      uuid ← ok_or invalid_uuid id
      validate_request valid
      existing ← own_biz_tag uuid
      b ← from_core (Service.update_biz_tag server uuid req)
      pure (biz_tag b)

    unfoldable pub handle_delete_biz_tag : Option ℕ → Query HttpError Response
    handle_delete_biz_tag id = do
      uuid ← ok_or invalid_uuid id
      existing ← own_biz_tag uuid
      from_core (Service.delete_biz_tag server uuid)
      pure no_content

    unfoldable pub handle_create_group : Bool → CreateGroupRequest → Query HttpError Response
    handle_create_group valid req = do
      validate_request valid
      verify_user_role role
      verify_user_workspace req.workspace key_workspace_id
      g ← from_core (Service.create_group server req)
      pure (group g)

  unfoldable pub handle_list_biz_tags : Bool → ℕ → ℕ → Query HttpError Response
  handle_list_biz_tags valid page size = do
    validate_request valid
    let page_size = min (max size 1) 100
    listed ← from_core (
        Service.list_biz_tags_with_pagination server none none page_size
          (u64 ((max page 1 - 1) * page_size)))
    pure (biz_tags listed.0 listed.1)

  unfoldable pub handle_list_workspaces : Query HttpError Response
  handle_list_workspaces = do
    listed ← from_core (Service.list_workspaces server)
    pure (workspaces listed)

  unfoldable pub handle_get_workspace : String → Query HttpError Response
  handle_get_workspace name = do
    found ← from_core (Service.get_workspace server name)
    w ← ok_or workspace_not_found found
    pure (workspace w)

  unfoldable pub handle_list_groups : Bool → String → Query HttpError Response
  handle_list_groups valid name = do
    validate_request valid
    listed ← from_core (Service.list_groups server name)
    pure (groups listed)

  unfoldable pub handle_create_workspace : Bool → CreateWorkspaceRequest → Query HttpError Response
  handle_create_workspace valid req = do
    validate_request valid
    made ← from_core (Keys.create_workspace server req)
    pure (workspace_with_key made.0 made.1)

  unfoldable pub handle_regenerate_user_key : String → Query HttpError Response
  handle_regenerate_user_key name = do
    made ← from_core (Keys.regenerate_user_api_key server name)
    pure (api_key made.0)

  unfoldable pub parse_user_workspace_id : Option (Option ℕ) → Query HttpError (Option ℕ)
  parse_user_workspace_id none = raise workspace_id_required
  parse_user_workspace_id (some none) = raise invalid_uuid
  parse_user_workspace_id (some (some id)) = pure (some id)

  unfoldable pub key_workspace : CreateApiKeyRequest → Query HttpError (Option ℕ)
  key_workspace req =
      if string_eq.same (unwrap_or "user" req.role) "admin"
      then pure none
      else parse_user_workspace_id req.workspace_id

  unfoldable pub handle_create_api_key : Bool → CreateApiKeyRequest → Query HttpError Response
  handle_create_api_key valid req = do
    validate_request valid
    workspace_id ← key_workspace req
    made ← from_core (Keys.create_api_key server workspace_id req)
    pure (api_key made.0)

  -- A workspace that is missing or no uuid is that of zeros.
  unfoldable pub handle_list_api_keys : Bool → ℕ → ℕ → Option (Option ℕ) → Query HttpError Response
  handle_list_api_keys valid page size workspace_id = do
    validate_request valid
    let page_size = min (max size 1) 100
    listed ← from_core (
        Keys.list_api_keys server (unwrap_or 0 (unwrap_or none workspace_id)) (some page_size)
          (some (u32 (u64 ((max page 1 - 1) * page_size)))))
    pure (api_keys listed.0 listed.1)

  unfoldable pub handle_revoke_api_key : Option ℕ → Query HttpError Response
  handle_revoke_api_key id = do
    uuid ← ok_or invalid_uuid id
    from_core (Keys.revoke_api_key server uuid)
    pure revoked
