-- ===== src/Catalog/BizTags.antt =====
-- `BizTagRepository` of src/core/database/repository.rs.
use Prim.Native.String.{String}
use nebula_id.Prelude.{ℕ, ◌==◌, Bool, true, false, ◌&&◌, List, [], ◌∷◌, length, Option, none, some}
use nebula_id.Prelude.Assoc.{string_eq}
use nebula_id.Prelude.Int.{ℤ, pos}
use nebula_id.Types.{CoreError, not_found, AlgorithmType, segment}
use nebula_id.Catalog.{
  BizTag, IdFormat, numeric, Query, pure, ok_or, ensure, ◌>>=◌, ◌>>◌, new_v4, unwrap_or, or_old,
}
use nebula_id.Catalog.Table.{page, find_one, find_by_id, find_all, insert, update, delete_by_id}
use nebula_id.Catalog.Entities.{workspace_table, group_table, biz_tag_table}

abbrev is_some : {A : Type 0} → Option A → Bool
is_some none = false
is_some (some a) = true

pub record CreateBizTagRequest : Type 0 where
  pub workspace_id : ℕ
  pub group_id : ℕ
  pub name : String
  pub description : Option String
  pub algorithm : Option AlgorithmType
  pub format : Option IdFormat
  pub prefix : Option String
  pub base_step : Option ℤ
  pub max_step : Option ℤ
  pub datacenter_ids : Option (List ℤ)

pub record UpdateBizTagRequest : Type 0 where
  pub name : Option String
  pub description : Option String
  pub algorithm : Option AlgorithmType
  pub format : Option IdFormat
  pub prefix : Option String
  pub base_step : Option ℤ
  pub max_step : Option ℤ
  pub datacenter_ids : Option (List ℤ)

unfoldable pub create_biz_tag : CreateBizTagRequest → Query CoreError BizTag
create_biz_tag request = do
  workspace ← find_by_id workspace_table request.workspace_id
  ensure (not_found "Workspace not found") (is_some workspace)
  group ← find_by_id group_table request.group_id
  ensure (not_found "Group not found") (is_some group)
  id ← new_v4
  insert biz_tag_table (record {
    id = id;
    workspace_id = request.workspace_id;
    group_id = request.group_id;
    name = request.name;
    description = request.description;
    algorithm = unwrap_or segment request.algorithm;
    format = unwrap_or numeric request.format;
    prefix = unwrap_or "" request.prefix;
    base_step = unwrap_or (pos 100) request.base_step;
    max_step = unwrap_or (pos 1000) request.max_step;
    datacenter_ids = unwrap_or (pos 0 ∷ []) request.datacenter_ids;
  })

unfoldable pub get_biz_tag : ℕ → Query CoreError (Option BizTag)
get_biz_tag id = find_by_id biz_tag_table id

unfoldable pub get_biz_tag_by_workspace_group_and_name :
    ℕ → ℕ → String → Query CoreError (Option BizTag)
get_biz_tag_by_workspace_group_and_name workspace_id group_id name =
    find_one biz_tag_table
      (λ b. b.workspace_id == workspace_id && b.group_id == group_id && string_eq.same b.name name)

-- The row that takes the place of an existing one. The datacenters are not those it has.
unfoldable pub revised : UpdateBizTagRequest → BizTag → BizTag
revised request existing = record {
  id = existing.id;
  workspace_id = existing.workspace_id;
  group_id = existing.group_id;
  name = unwrap_or existing.name request.name;
  description = or_old request.description existing.description;
  algorithm = unwrap_or existing.algorithm request.algorithm;
  format = unwrap_or existing.format request.format;
  prefix = unwrap_or existing.prefix request.prefix;
  base_step = unwrap_or existing.base_step request.base_step;
  max_step = unwrap_or existing.max_step request.max_step;
  datacenter_ids = unwrap_or (pos 0 ∷ []) request.datacenter_ids;
}

unfoldable pub update_biz_tag : ℕ → UpdateBizTagRequest → Query CoreError BizTag
update_biz_tag id request = do
  found ← find_by_id biz_tag_table id
  existing ← ok_or (not_found "BizTag not found") found
  update biz_tag_table (revised request existing)

unfoldable pub delete_biz_tag : ℕ → Query CoreError (Unit {0})
delete_biz_tag id = do
  affected ← delete_by_id biz_tag_table id
  ensure (not_found "BizTag not found") affected

-- The filters of the list and of the count.
unfoldable pub in_scope : ℕ → Option ℕ → BizTag → Bool
in_scope workspace_id none b = b.workspace_id == workspace_id
in_scope workspace_id (some group_id) b = b.workspace_id == workspace_id && b.group_id == group_id

unfoldable pub list_biz_tags : ℕ → Option ℕ → Option ℕ → Option ℕ → Query CoreError (List BizTag)
list_biz_tags workspace_id group_id limit offset = do
  rows ← find_all biz_tag_table (in_scope workspace_id group_id)
  pure (page limit offset rows)

unfoldable pub list_biz_tags_by_workspace_group : ℕ → ℕ → Query CoreError (List BizTag)
list_biz_tags_by_workspace_group workspace_id group_id =
    find_all biz_tag_table (λ b. b.workspace_id == workspace_id && b.group_id == group_id)

unfoldable pub count_biz_tags_by_group : ℕ → Query CoreError ℕ
count_biz_tags_by_group group_id = do
  rows ← find_all biz_tag_table (λ b. b.group_id == group_id)
  pure (length rows)

unfoldable pub count_biz_tags : ℕ → Option ℕ → Query CoreError ℕ
count_biz_tags workspace_id group_id = do
  rows ← find_all biz_tag_table (in_scope workspace_id group_id)
  pure (length rows)
