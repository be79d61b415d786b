-- ===== src/Http/Shown.antt =====
-- What a user is shown of the tags and groups, and for which workspaces ids are generated for him.
pub mod Requests
use Prim.Native.String.{String}
use nebula_id.Prelude.{
  ℕ, ◌==◌, ==_iff, ◌-◌, ◌*◌, min, max, u64, ◌≡◌, arith, Bool, Option, none, some,
}
use nebula_id.Prelude.Assoc.{string_eq}
use nebula_id.Types.{internal_error, not_found}
use nebula_id.Catalog.{
  Group, BizTag, user, Tables, Store, returned, Query, pure, ok_or, ensure, ◌>>=◌, ◌>>◌,
}
use nebula_id.Catalog.Table.{insert, update}
use nebula_id.Catalog.Triple.{
  answered_with, Triple, Keeps, bind, failing, conclude, pass, ensure_lem, fetch, pure_lem,
  raise_lem, insert_lem, update_lem, new_v4_lem, weaken,
}
use nebula_id.Catalog.Keeps.{keep_ensure, keep_find_one, keep_ok_or}
use nebula_id.Catalog.Entities.{workspace_table, group_table, biz_tag_table}
use nebula_id.Catalog.Workspaces
use nebula_id.Catalog.Groups
use nebula_id.Catalog.BizTags
use nebula_id.Catalog.BizTags.{revised}
use nebula_id.Http.{
  Server, HttpError, workspace_mismatch, invalid_uuid, validation_error, Response, generated,
  biz_tag, biz_tags, group, from_core, parsed, config_shown, no_content, workspace, workspaces,
  groups, workspace_not_found,
}
use nebula_id.Http.Rules.{from_core_lem}
use nebula_id.Http.Owned.{Named, Owned, verify_user_workspace-Named, own_biz_tag-Owned}
use nebula_id.Http.Kept.{
  get_workspace_keeps, list_workspaces_keeps, list_groups_keeps, list_biz_tags_keeps,
  delete_biz_tag_keeps, parse_algorithm_keeps, parse_format_keeps, transpose_keeps,
}
use nebula_id.Http.Service
use nebula_id.Http.Service.{CreateGroupRequest, CreateBizTagRequest, UpdateBizTagRequest}
use nebula_id.Http.Handlers.{
  verify_user_role, verify_workspace_id_match, verify_user_workspace, own_biz_tag, handle_generate,
  handle_create_biz_tag, handle_get_biz_tag, handle_update_biz_tag, handle_create_group,
  handle_list_workspaces, handle_get_workspace, handle_list_groups, handle_list_biz_tags,
  handle_delete_biz_tag, validate_request,
}
use nebula_id.Http.Routes.{
  UserRequest, get_config, generate, parse, list_workspaces, get_workspace, create_group,
  list_groups, create_biz_tag, list_biz_tags, get_biz_tag, update_biz_tag, delete_biz_tag,
  handle_user,
}

abbrev pub Any : Tables → Type 0
Any t = Unit

abbrev pub OfTag : ℕ → BizTag → Tables → Type 0
OfTag w b t = b.workspace_id ≡ w

abbrev pub OfGroup : ℕ → Group → Tables → Type 0
OfGroup w g t = g.workspace_id ≡ w

-- Of a response to a request that may name a workspace to generate for: the generator is called for the
-- named workspace only where it is this one, and the tag or the group that is shown is of this one.
abbrev pub Shown : ℕ → Option String → Response → Tables → Type 0
Shown w (some name) generated t = Named name w t
Shown w none generated t = ⊥
Shown w asked (biz_tag b) t = b.workspace_id ≡ w
Shown w asked (group g) t = g.workspace_id ≡ w
Shown w asked response t = Unit

-- The workspace to generate for.
abbrev pub asked_for : UserRequest → Option String
asked_for (generate valid name) = some name
asked_for req = none

module _ (server : Server) (w : ℕ) where
  inserted_tag :
      (b : BizTag) → b.workspace_id ≡ w → Triple Any (insert biz_tag_table b) (OfTag w) Any
  inserted_tag b e = insert_lem biz_tag_table b (λ t h unused ok. e)

  pub create_biz_tag-OfTag :
      (req : CreateBizTagRequest)
      → req.workspace_id ≡ w
      → Triple Any (Service.create_biz_tag server req) (OfTag w) Any
  unfolding Service.create_biz_tag BizTags.create_biz_tag
  create_biz_tag-OfTag req e =
      search
        (
          pass, keep_ensure, keep_find_one, new_v4_lem, parse_algorithm_keeps, parse_format_keeps,
          inserted_tag, e,
        )
        depth 20

  revised_tag :
      (id : ℕ) (req : BizTags.UpdateBizTagRequest) (b : BizTag)
      → Triple (Owned id w b) (BizTags.update_biz_tag id req) (OfTag w) Any
  unfolding BizTags.update_biz_tag revised
  revised_tag id req b =
      fetch biz_tag_table (λ c. c.id == id) (not_found "BizTag not found")
        {k = λ c. update biz_tag_table (revised req c)} (λ c. c.workspace_id ≡ w) (λ t h. tt)
        (λ c t h found. ground arith)
        (λ c e. failing (update_lem biz_tag_table (revised req c) (λ t h. e)) (λ t h. tt))

  pub update_biz_tag-OfTag :
      (id : ℕ) (req : UpdateBizTagRequest) (b : BizTag)
      → Triple (Owned id w b) (Service.update_biz_tag server id req) (OfTag w) Any
  unfolding Service.update_biz_tag
  update_biz_tag-OfTag id req b =
      search
        (
          pass,
          keep_ensure,
          transpose_keeps server,
          parse_algorithm_keeps,
          parse_format_keeps,
          revised_tag id,
          unit,
        )
        depth 20
    where
      unit : (t : Tables) → Owned id w b t → Any t
      unit t h = tt

  inserted_group :
      (req : Groups.CreateGroupRequest) (P : Tables → Type 0)
      → req.workspace_id ≡ w
      → Triple P (Groups.create_group req) (OfGroup w) Any
  unfolding Groups.create_group
  inserted_group req P e =
      search (pass, keep_ensure, keep_find_one, new_v4_lem, stored, unit) depth 12
    where
      unit : (t : Tables) → P t → Any t
      unit t h = tt

      stored : (g : Group) → g.workspace_id ≡ w → Triple P (insert group_table g) (OfGroup w) Any
      stored g e = failing (insert_lem group_table g (λ t h unused ok. e)) (λ t h. tt)

  pub create_group-OfGroup :
      (req : CreateGroupRequest)
      → Triple (Named req.workspace w) (Service.create_group server req) (OfGroup w) Any
  unfolding Service.create_group Workspaces.get_workspace_by_name
  create_group-OfGroup req =
      search
        (
          pass,
          keep_ensure,
          unit,
          fetch workspace_table (λ x. string_eq.same x.name req.workspace)
              (internal_error "Workspace not found")
              {k = λ ws. Groups.create_group (record {
                workspace_id = ws.id;
                name = req.name;
                description = req.description;
                max_biz_tags = req.max_biz_tags;
              })}
              (λ ws. ws.id ≡ w) unit (λ ws t h found. ground arith)
              (λ ws e. inserted_group _ (Named req.workspace w) e),
        )
        depth 12
    where
      unit : (t : Tables) → Named req.workspace w t → Any t
      unit t h = tt
