-- ===== src/Http/Service.antt =====
-- The entities of `ConfigManager` in src/server/config/management.rs, and the handlers of
-- src/server/handlers/biz_tag_handlers.rs and workspace_handlers.rs over them.
use Prim.Native.String.{String}
use nebula_id.Prelude.{ℕ, ◌==◌, true, false, List, [], Option, none, some, if◌then◌else◌, u32}
use nebula_id.Prelude.Int.{ℤ}
use nebula_id.Types.{CoreError, not_found, invalid_input, internal_error}
use nebula_id.Catalog.{Workspace, Group, BizTag, Query, pure, ok_or, ensure, ◌>>=◌, ◌>>◌, unwrap_or}
use nebula_id.Catalog.Workspaces
use nebula_id.Catalog.Workspaces.{CreateWorkspaceRequest, get_workspace_by_name}
use nebula_id.Catalog.Groups
use nebula_id.Catalog.BizTags
use nebula_id.Catalog.Names.{parse_algorithm, parse_format}
use nebula_id.Http.{Server}

-- The body of the request; the names are not parsed yet.
pub record CreateBizTagRequest : Type 0 where
  pub workspace_id : ℕ
  pub group_id : ℕ
  pub name : String
  pub description : Option String
  pub algorithm : Option String
  pub format : Option String
  pub prefix : Option String
  pub base_step : Option ℤ
  pub max_step : Option ℤ
  pub datacenter_ids : Option (List ℤ)

pub record UpdateBizTagRequest : Type 0 where
  pub name : Option String
  pub description : Option String
  pub algorithm : Option String
  pub format : Option String
  pub prefix : Option String
  pub base_step : Option ℤ
  pub max_step : Option ℤ
  pub datacenter_ids : Option (List ℤ)

-- The workspace by its name.
pub record CreateGroupRequest : Type 0 where
  pub workspace : String
  pub name : String
  pub description : Option String
  pub max_biz_tags : Option ℤ

-- `map(..parse..).transpose()`
unfoldable pub transpose :
    {A : Type 0} → (String → Query CoreError A) → Option String → Query CoreError (Option A)
transpose parse none = pure none
transpose parse (some text) = do a ← parse text; pure (some a)

module _ (server : Server) where
  abbrev with_repository : Query CoreError (Unit {0})
  with_repository = ensure (internal_error "Database repository not configured") server.repository

  abbrev with_workspaces : Query CoreError (Unit {0})
  with_workspaces =
      ensure (internal_error "Workspace repository not configured") server.workspace_repository

  abbrev with_groups : Query CoreError (Unit {0})
  with_groups = ensure (internal_error "Group repository not configured") server.group_repository

  unfoldable pub create_biz_tag : CreateBizTagRequest → Query CoreError BizTag
  create_biz_tag req = do
    algorithm ← parse_algorithm server.lowercase (unwrap_or "segment" req.algorithm)
    format ← parse_format server.lowercase (unwrap_or "numeric" req.format)
    with_repository
    BizTags.create_biz_tag (record {
      workspace_id = req.workspace_id;
      group_id = req.group_id;
      name = req.name;
      description = req.description;
      algorithm = some algorithm;
      format = some format;
      prefix = req.prefix;
      base_step = req.base_step;
      max_step = req.max_step;
      datacenter_ids = req.datacenter_ids;
    })

  unfoldable pub update_biz_tag : ℕ → UpdateBizTagRequest → Query CoreError BizTag
  update_biz_tag id req = do
    algorithm ← transpose (parse_algorithm server.lowercase) req.algorithm
    format ← transpose (parse_format server.lowercase) req.format
    with_repository
    BizTags.update_biz_tag id (record {
      name = req.name;
      description = req.description;
      algorithm = algorithm;
      format = format;
      prefix = req.prefix;
      base_step = req.base_step;
      max_step = req.max_step;
      datacenter_ids = req.datacenter_ids;
    })

  unfoldable pub get_biz_tag : ℕ → Query CoreError BizTag
  get_biz_tag id = do
    with_repository
    found ← BizTags.get_biz_tag id
    ok_or (not_found "BizTag not found") found

  -- With the total. Without a workspace the uuid of zeros stands for it.
  unfoldable pub list_biz_tags_with_pagination :
      Option ℕ → Option ℕ → ℕ → ℕ → Query CoreError (List BizTag × ℕ)
  list_biz_tags_with_pagination workspace_id group_id limit offset = do
    ensure (invalid_input "limit must not be zero") (if limit == 0 then false else true)
    with_repository
    biz_tags ←
        BizTags.list_biz_tags (unwrap_or 0 workspace_id) group_id (some (u32 limit))
          (some (u32 offset))
    total ← BizTags.count_biz_tags (unwrap_or 0 workspace_id) group_id
    pure (biz_tags, total)

  unfoldable pub delete_biz_tag : ℕ → Query CoreError (Unit {0})
  delete_biz_tag id = do with_repository; BizTags.delete_biz_tag id

  unfoldable pub create_workspace : CreateWorkspaceRequest → Query CoreError Workspace
  create_workspace req = do with_workspaces; Workspaces.create_workspace req

  unfoldable pub list_workspaces : Query CoreError (List Workspace)
  list_workspaces = do with_workspaces; Workspaces.list_workspaces none none

  unfoldable pub get_workspace : String → Query CoreError (Option Workspace)
  get_workspace name = do with_workspaces; get_workspace_by_name name

  unfoldable pub create_group : CreateGroupRequest → Query CoreError Group
  create_group req = do
    with_workspaces
    with_groups
    found ← get_workspace_by_name req.workspace
    ws ← ok_or (internal_error "Workspace not found") found
    Groups.create_group (record {
      workspace_id = ws.id;
      name = req.name;
      description = req.description;
      max_biz_tags = req.max_biz_tags;
    })

  unfoldable pub list_groups : String → Query CoreError (List Group)
  list_groups name = do
    with_workspaces
    with_groups
    found ← get_workspace_by_name name
    elim found [ none ↦ pure [] | some ws ↦ Groups.list_groups ws.id none none ]
