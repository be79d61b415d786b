-- ===== src/Http/Routes.antt =====
-- The routes of `create_router` in src/server/router.rs, with the layers that a request passes before
-- its handler. Those that need no key, and the calls of the generator and of the configuration, are
-- not followed further.
use Prim.Native.String.{String}
use nebula_id.Prelude.{ℕ, Bool, Option, none, some}
use nebula_id.Catalog.{ApiKeyRole, admin, user, anonymous, Query, pure, raise, ◌>>◌}
use nebula_id.Catalog.Workspaces.{CreateWorkspaceRequest}
use nebula_id.Http.{
  Server, Identity, HttpError, auth_required, admin_required, Response, parsed, config_shown,
  config_updated,
}
use nebula_id.Http.Service.{CreateBizTagRequest, UpdateBizTagRequest, CreateGroupRequest}
use nebula_id.Http.Keys.{CreateApiKeyRequest}
use nebula_id.Http.Handlers.{
  validate_request, handle_generate, handle_create_biz_tag, handle_get_biz_tag,
  handle_update_biz_tag, handle_delete_biz_tag, handle_create_group, handle_list_biz_tags,
  handle_list_workspaces, handle_get_workspace, handle_list_groups, handle_create_workspace,
  handle_regenerate_user_key, handle_create_api_key, handle_list_api_keys, handle_revoke_api_key,
}

-- The endpoints behind `admin_required_middleware`. A Boolean says whether the body is valid.
pub data AdminRequest : Type 0 where
  create_api_key : Bool → CreateApiKeyRequest → AdminRequest
  list_api_keys : Bool → ℕ → ℕ → Option (Option ℕ) → AdminRequest
  revoke_api_key : Option ℕ → AdminRequest
  create_workspace : Bool → CreateWorkspaceRequest → AdminRequest
  regenerate_user_key : String → AdminRequest
  update_config : Bool → AdminRequest

-- The endpoints behind `anonymous_block_middleware`.
pub data UserRequest : Type 0 where
  get_config : UserRequest
  generate : Bool → String → UserRequest
  parse : Bool → UserRequest
  list_workspaces : UserRequest
  get_workspace : String → UserRequest
  create_group : Bool → CreateGroupRequest → UserRequest
  list_groups : Bool → String → UserRequest
  create_biz_tag : Bool → CreateBizTagRequest → UserRequest
  list_biz_tags : Bool → ℕ → ℕ → UserRequest
  get_biz_tag : Option ℕ → UserRequest
  update_biz_tag : Option ℕ → Bool → UpdateBizTagRequest → UserRequest
  delete_biz_tag : Option ℕ → UserRequest

pub data Request : Type 0 where
  admin_route : AdminRequest → Request
  user_route : UserRequest → Request

module _ (server : Server) where
  unfoldable pub handle_admin : AdminRequest → Query HttpError Response
  handle_admin (create_api_key valid req) = handle_create_api_key server valid req
  handle_admin (list_api_keys valid page size workspace_id) =
      handle_list_api_keys server valid page size workspace_id
  handle_admin (revoke_api_key id) = handle_revoke_api_key server id
  handle_admin (create_workspace valid req) = handle_create_workspace server valid req
  handle_admin (regenerate_user_key name) = handle_regenerate_user_key server name
  handle_admin (update_config valid) = do validate_request valid; pure config_updated

  unfoldable pub handle_user : ApiKeyRole → Option ℕ → UserRequest → Query HttpError Response
  handle_user role workspace_id get_config = pure config_shown
  handle_user role workspace_id (generate valid name) =
      handle_generate server role workspace_id valid name
  handle_user role workspace_id (parse valid) = do validate_request valid; pure parsed
  handle_user role workspace_id list_workspaces = handle_list_workspaces server
  handle_user role workspace_id (get_workspace name) = handle_get_workspace server name
  handle_user role workspace_id (create_group valid req) =
      handle_create_group server role workspace_id valid req
  handle_user role workspace_id (list_groups valid name) = handle_list_groups server valid name
  handle_user role workspace_id (create_biz_tag valid req) =
      handle_create_biz_tag server role workspace_id valid req
  handle_user role workspace_id (list_biz_tags valid page size) =
      handle_list_biz_tags server valid page size
  handle_user role workspace_id (get_biz_tag id) = handle_get_biz_tag server role workspace_id id
  handle_user role workspace_id (update_biz_tag id valid req) =
      handle_update_biz_tag server role workspace_id id valid req
  handle_user role workspace_id (delete_biz_tag id) =
      handle_delete_biz_tag server role workspace_id id

  unfoldable pub admin_required_middleware :
      Option ApiKeyRole → AdminRequest → Query HttpError Response
  admin_required_middleware (some admin) req = handle_admin req
  admin_required_middleware (some user) req = raise admin_required
  admin_required_middleware (some anonymous) req = raise admin_required
  admin_required_middleware none req = raise admin_required

  unfoldable pub anonymous_block_middleware :
      Option ApiKeyRole → Option ℕ → UserRequest → Query HttpError Response
  anonymous_block_middleware (some anonymous) workspace_id req = raise auth_required
  anonymous_block_middleware (some admin) workspace_id req = handle_user admin workspace_id req
  anonymous_block_middleware (some user) workspace_id req = handle_user user workspace_id req
  anonymous_block_middleware none workspace_id req = raise auth_required

  unfoldable pub handle : Identity → Request → Query HttpError Response
  handle identity (admin_route req) = admin_required_middleware identity.role req
  handle identity (user_route req) =
      anonymous_block_middleware identity.role identity.workspace_id req
