-- ===== src/Catalog/Groups.antt =====
-- `GroupRepository` of src/core/database/repository.rs.
use Prim.Native.String.{String}
use nebula_id.Prelude.{ℕ, ◌==◌, Bool, true, false, ◌&&◌, List, Option, none, some}
use nebula_id.Prelude.Assoc.{string_eq}
use nebula_id.Prelude.Int.{ℤ, pos}
use nebula_id.Types.{CoreError, not_found}
use nebula_id.Catalog.{
  Group, BizTag, Query, pure, ok_or, ensure, ◌>>=◌, ◌>>◌, new_v4, unwrap_or, or_old,
}
use nebula_id.Catalog.Table.{page, find_one, find_by_id, find_all, insert, update, delete_by_id}
use nebula_id.Catalog.Entities.{workspace_table, group_table, biz_tag_table}

abbrev is_some : {A : Type 0} → Option A → Bool
is_some none = false
is_some (some a) = true

pub record CreateGroupRequest : Type 0 where
  pub workspace_id : ℕ
  pub name : String
  pub description : Option String
  pub max_biz_tags : Option ℤ

pub record UpdateGroupRequest : Type 0 where
  pub name : Option String
  pub description : Option String
  pub max_biz_tags : Option ℤ

unfoldable pub create_group : CreateGroupRequest → Query CoreError Group
create_group request = do
  workspace ← find_by_id workspace_table request.workspace_id
  ensure (not_found "Workspace not found") (is_some workspace)
  id ← new_v4
  insert group_table (record {
    id = id;
    workspace_id = request.workspace_id;
    name = request.name;
    description = request.description;
    max_biz_tags = unwrap_or (pos 50) request.max_biz_tags;
  })

unfoldable pub get_group : ℕ → Query CoreError (Option Group)
get_group id = find_by_id group_table id

unfoldable pub get_group_by_workspace_and_name : ℕ → String → Query CoreError (Option Group)
get_group_by_workspace_and_name workspace_id name =
    find_one group_table (λ g. g.workspace_id == workspace_id && string_eq.same g.name name)

unfoldable pub update_group : ℕ → UpdateGroupRequest → Query CoreError Group
update_group id request = do
  found ← find_by_id group_table id
  existing ← ok_or (not_found "Group not found") found
  update group_table (record {
    id = existing.id;
    workspace_id = existing.workspace_id;
    name = unwrap_or existing.name request.name;
    description = or_old request.description existing.description;
    max_biz_tags = unwrap_or existing.max_biz_tags request.max_biz_tags;
  })

unfoldable pub delete_group : ℕ → Query CoreError (Unit {0})
delete_group id = do
  affected ← delete_by_id group_table id
  ensure (not_found "Group not found") affected

unfoldable pub list_groups : ℕ → Option ℕ → Option ℕ → Query CoreError (List Group)
list_groups workspace_id limit offset = do
  rows ← find_all group_table (λ g. g.workspace_id == workspace_id)
  pure (page limit offset rows)

unfoldable pub get_group_with_biz_tags : ℕ → Query CoreError (Option (Group × List BizTag))
get_group_with_biz_tags id = do
  found ← find_by_id group_table id
  elim found [
    | none ↦ pure none
    | some g ↦ do
      biz_tags ← find_all biz_tag_table (λ b. b.group_id == id)
      pure (some (g, biz_tags))
  ]
