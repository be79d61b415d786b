-- ===== src/Catalog/Workspaces.antt =====
-- `WorkspaceRepository` of src/core/database/repository.rs.
use Prim.Native.String.{String}
use nebula_id.Prelude.{ℕ, ◌==◌, true, List, Option, none, some}
use nebula_id.Prelude.Assoc.{string_eq}
use nebula_id.Prelude.Int.{ℤ, pos}
use nebula_id.Types.{CoreError, not_found}
use nebula_id.Catalog.{
  Workspace, WorkspaceStatus, active, Group, Query, pure, ok_or, ensure, ◌>>=◌, new_v4, unwrap_or,
  or_old,
}
use nebula_id.Catalog.Table.{page, find_one, find_by_id, find_all, insert, update, delete_by_id}
use nebula_id.Catalog.Entities.{workspace_table, group_table}

pub record CreateWorkspaceRequest : Type 0 where
  pub name : String
  pub description : Option String
  pub max_groups : Option ℤ
  pub max_biz_tags : Option ℤ

pub record UpdateWorkspaceRequest : Type 0 where
  pub name : Option String
  pub description : Option String
  pub status : Option WorkspaceStatus
  pub max_groups : Option ℤ
  pub max_biz_tags : Option ℤ

unfoldable pub create_workspace : CreateWorkspaceRequest → Query CoreError Workspace
create_workspace request = do
  id ← new_v4
  insert workspace_table (record {
    id = id;
    name = request.name;
    description = request.description;
    status = active;
    max_groups = unwrap_or (pos 10) request.max_groups;
    max_biz_tags = unwrap_or (pos 100) request.max_biz_tags;
  })

unfoldable pub get_workspace : ℕ → Query CoreError (Option Workspace)
get_workspace id = find_by_id workspace_table id

unfoldable pub get_workspace_by_name : String → Query CoreError (Option Workspace)
get_workspace_by_name name = find_one workspace_table (λ w. string_eq.same w.name name)

unfoldable pub update_workspace : ℕ → UpdateWorkspaceRequest → Query CoreError Workspace
update_workspace id request = do
  found ← find_by_id workspace_table id
  existing ← ok_or (not_found "Workspace not found") found
  update workspace_table (record {
    id = existing.id;
    name = unwrap_or existing.name request.name;
    description = or_old request.description existing.description;
    status = unwrap_or existing.status request.status;
    max_groups = unwrap_or existing.max_groups request.max_groups;
    max_biz_tags = unwrap_or existing.max_biz_tags request.max_biz_tags;
  })

unfoldable pub delete_workspace : ℕ → Query CoreError (Unit {0})
delete_workspace id = do
  affected ← delete_by_id workspace_table id
  ensure (not_found "Workspace not found") affected

unfoldable pub list_workspaces : Option ℕ → Option ℕ → Query CoreError (List Workspace)
list_workspaces limit offset = do
  rows ← find_all workspace_table (λ w. true)
  pure (page limit offset rows)

unfoldable pub get_workspace_with_groups : ℕ → Query CoreError (Option (Workspace × List Group))
get_workspace_with_groups id = do
  found ← find_by_id workspace_table id
  elim found [
    | none ↦ pure none
    | some w ↦ do groups ← find_all group_table (λ g. g.workspace_id == id); pure (some (w, groups))
  ]
