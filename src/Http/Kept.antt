-- ===== src/Http/Kept.antt =====
-- The properties of the tables that the queries of Http/Service keep.
use Prim.Native.String.{String}
use nebula_id.Prelude.{ℕ, arith, List, Option, none, some}
use nebula_id.Types.{CoreError}
use nebula_id.Catalog.{Group, BizTag, Tables, Query}
use nebula_id.Catalog.Triple.{Keeps}
use nebula_id.Catalog.Keeps.{keep, keep_insert, keep_update, keep_delete_by_id}
use nebula_id.Catalog.Entities.{group_table, biz_tag_table}
use nebula_id.Catalog.Groups
use nebula_id.Catalog.BizTags
use nebula_id.Catalog.Workspaces
use nebula_id.Http.Service
use nebula_id.Http.Service.{CreateGroupRequest, CreateBizTagRequest, UpdateBizTagRequest}
use nebula_id.Catalog.Names.{parse_algorithm, parse_format}
use nebula_id.Http.Service.{transpose}
use nebula_id.Http.{Server}

module _ {P : Tables → Type 0} (server : Server) where
  module _ (blind : (rows : List Group) (t : Tables) → P t → P (record t { groups = rows })) where
    pub create_group_keeps : (req : CreateGroupRequest) → Keeps P (Service.create_group server req)
    unfolding Service.create_group Groups.create_group Workspaces.get_workspace_by_name
    create_group_keeps req = search (keep, keep_insert group_table blind) depth 16

  pub get_workspace_keeps : (name : String) → Keeps P (Service.get_workspace server name)
  unfolding Service.get_workspace Workspaces.get_workspace_by_name
  get_workspace_keeps name = search keep

  pub list_workspaces_keeps : Keeps P (Service.list_workspaces server)
  unfolding Service.list_workspaces Workspaces.list_workspaces
  list_workspaces_keeps = search keep

  pub list_groups_keeps : (name : String) → Keeps P (Service.list_groups server name)
  unfolding Service.list_groups Workspaces.get_workspace_by_name Groups.list_groups
  list_groups_keeps name = search keep depth 16

  pub get_biz_tag_keeps : (id : ℕ) → Keeps P (Service.get_biz_tag server id)
  unfolding Service.get_biz_tag BizTags.get_biz_tag
  get_biz_tag_keeps id = search keep

  pub list_biz_tags_keeps :
      (w g : Option ℕ) (limit offset : ℕ)
      → Keeps P (Service.list_biz_tags_with_pagination server w g limit offset)
  unfolding Service.list_biz_tags_with_pagination BizTags.list_biz_tags BizTags.count_biz_tags
  list_biz_tags_keeps w g limit offset = search keep depth 16

  pub parse_algorithm_keeps : (name : String) → Keeps P (parse_algorithm server.lowercase name)
  unfolding parse_algorithm
  parse_algorithm_keeps name = record { runs = λ s p. ground arith }

  pub parse_format_keeps : (name : String) → Keeps P (parse_format server.lowercase name)
  unfolding parse_format
  parse_format_keeps name = record { runs = λ s p. ground arith }

  pub transpose_keeps :
      {A : Type 0} {parse : String → Query CoreError A}
      → ((name : String) → Keeps P (parse name))
      → (o : Option String) → Keeps P (transpose parse o)
  unfolding transpose
  transpose_keeps h none = search keep
  transpose_keeps h (some name) = search (keep, h)

  module _
      (blind : (rows : List BizTag) (t : Tables) → P t → P (record t { biz_tags = rows })) where
    pub create_biz_tag_keeps :
        (req : CreateBizTagRequest) → Keeps P (Service.create_biz_tag server req)
    unfolding Service.create_biz_tag BizTags.create_biz_tag
    create_biz_tag_keeps req =
        search (keep, keep_insert biz_tag_table blind, parse_algorithm_keeps, parse_format_keeps)
          depth 20

    pub update_biz_tag_keeps :
        (id : ℕ) (req : UpdateBizTagRequest) → Keeps P (Service.update_biz_tag server id req)
    unfolding Service.update_biz_tag BizTags.update_biz_tag
    update_biz_tag_keeps id req =
        search
          (
            keep,
            keep_update biz_tag_table blind,
            transpose_keeps,
            parse_algorithm_keeps,
            parse_format_keeps,
          )
          depth 20

    pub delete_biz_tag_keeps : (id : ℕ) → Keeps P (Service.delete_biz_tag server id)
    unfolding Service.delete_biz_tag BizTags.delete_biz_tag
    delete_biz_tag_keeps id =
        search (keep, keep_delete_by_id biz_tag_table blind (λ i t p. p)) depth 20
