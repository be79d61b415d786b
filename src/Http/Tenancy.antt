-- ===== src/Http/Tenancy.antt =====
-- What the keys of one workspace leave of the groups and tags of another.
pub mod Users
pub mod Runs
use Prim.Native.String.{String}
use nebula_id.Prelude.{
  ℕ, ◌==◌, ==_iff, ◌≡◌, ◌≢◌, refl, sym, ◌∙◌, arith, Bool, true, false, not, ◌&&◌, List, [], ◌∷◌,
  ◌++◌, All, Option, none, some, some_inj,
}
use nebula_id.Prelude.Assoc.{string_eq}
use nebula_id.Types.{CoreError, internal_error, not_found}
use nebula_id.Catalog.{
  Workspace, Group, BizTag, ApiKeyRole, admin, user, anonymous, Tables, Store, Query, Outcome,
  returned, raised, pure, ok_or, ensure,
}
use nebula_id.Catalog.Table.{rows_where, first, swap, of_id, insert, update, delete_by_id}
use nebula_id.Catalog.Rows.{
  rows_where-append_other, rows_where-rows_where, rows_where-swap, Distinct, Distinct-append,
  Distinct-rows_where, Distinct-swap, first-other, first-All,
}
use nebula_id.Catalog.Triple.{
  Triple, Keeps, Post, bind, weaken, conclude, pure_lem, ok_or_lem, ensure_lem, find_one_lem,
  failing, fetch, pass, insert_lem, update_lem, delete_by_id_lem,
}
use nebula_id.Catalog.Keeps.{keep, keep_ensure}
use nebula_id.Catalog.Entities.{workspace_table, group_table, biz_tag_table}
use nebula_id.Catalog.Workspaces
use nebula_id.Catalog.Groups
use nebula_id.Catalog.BizTags
use nebula_id.Catalog.BizTags.{revised}
use nebula_id.Http.Kept.{parse_algorithm_keeps, parse_format_keeps, transpose_keeps}
use nebula_id.Http.{Server, HttpError}
use nebula_id.Http.Rules.{from_core_lem}
use nebula_id.Http.Service
use nebula_id.Http.Service.{CreateGroupRequest, CreateBizTagRequest, UpdateBizTagRequest}
use nebula_id.Http.Handlers.{
  verify_user_role, verify_workspace_id_match, verify_user_workspace, own_biz_tag,
}

unfoldable pub groups_of : ℕ → Tables → List Group
groups_of v t = rows_where (λ g. g.workspace_id == v) t.groups

unfoldable pub biz_tags_of : ℕ → Tables → List BizTag
biz_tags_of v t = rows_where (λ b. b.workspace_id == v) t.biz_tags

module _ (v : ℕ) (gs : List Group) (bs : List BizTag) where
  -- The groups and the tags of the workspace are these, and no two tags have one number.
  pub record Same (t : Tables) : Type 0 where
    pub groups : groups_of v t ≡ gs
    pub biz_tags : biz_tags_of v t ≡ bs
    pub distinct : Distinct BizTag.id t.biz_tags

  -- The workspace with that name is another one.
  abbrev pub Elsewhere : String → Tables → Type 0
  Elsewhere name t =
      (w : Workspace)
      → first (λ x. string_eq.same x.name name) t.workspaces ≡ some w
      → (w.id == v) ≡ false

  abbrev pub Foreign : ℕ → Tables → Type 0
  Foreign id t = All (λ b. ((b.id == id) && (b.workspace_id == v)) ≡ false) t.biz_tags

  named : (name : String) (t : Tables) → Same t × Elsewhere name t → Same t
  named name t h = h.0

  numbered : (id : ℕ) (t : Tables) → Same t × Foreign id t → Same t
  numbered id t h = h.0

  known :
      (id : ℕ) (b : BizTag) (t : Tables)
      → Same t × Foreign id t
      → first (λ b. b.id == id) t.biz_tags ≡ some b
      → ((b.id == id) ≡ true) × ((b.workspace_id == v) ≡ false)
  known id b t h found = first-All (λ b. b.id == id) (λ b. b.workspace_id == v) t.biz_tags found h.1

  added_group :
      (t : Tables) (g : Group)
      → Same t
      → (g.workspace_id == v) ≡ false
      → Same (record t { groups = t.groups ++ g ∷ [] })
  unfolding groups_of biz_tags_of
  added_group t g h other = record {
    groups = rows_where-append_other (λ g. g.workspace_id == v) t.groups g other ∙ h.groups;
    biz_tags = h.biz_tags;
    distinct = h.distinct;
  }

  replaced_tags :
      (t : Tables) (rows : List BizTag)
      → Same t
      → rows_where (λ b. b.workspace_id == v) rows
        ≡ rows_where (λ b. b.workspace_id == v) t.biz_tags
      → Distinct BizTag.id rows
      → Same (record t { biz_tags = rows })
  unfolding groups_of biz_tags_of
  replaced_tags t rows h e d = record { groups = h.groups; biz_tags = e ∙ h.biz_tags; distinct = d }

  swapped :
      (id : ℕ) (req : BizTags.UpdateBizTagRequest) (b : BizTag) (t : Tables)
      → (b.id == id) ≡ true
      → (b.workspace_id == v) ≡ false
      → Same t × Foreign id t
      → Same (record t {
        biz_tags = swap (λ c. c.id == (revised req b).id) (revised req b) t.biz_tags;
      })
  unfolding revised
  swapped id req b t here other h =
      let same : b.id ≡ id = (==_iff b.id id).0 here in
      replaced_tags t _ h.0
        (rows_where-swap (λ c. c.workspace_id == v) (λ c. c.id == b.id) (revised req b) t.biz_tags
          (rw same h.1) other)
        (Distinct-swap BizTag.id b.id (revised req b) t.biz_tags refl h.0.distinct)

  module _ (server : Server) where
    inserted_group :
        (req : Groups.CreateGroupRequest)
        → (req.workspace_id == v) ≡ false
        → Keeps Same (Groups.create_group req)
    unfolding Groups.create_group
    inserted_group req other = search (keep, insert_lem group_table, added_group) depth 12

    pub create_group-Same :
        (req : CreateGroupRequest)
        → Triple
            (λ t. Same t × Elsewhere req.workspace t)
            (Service.create_group server req)
            (λ g. Same)
            Same
    unfolding Service.create_group Workspaces.get_workspace_by_name
    create_group-Same req =
        search
          (
            pass,
            keep_ensure,
            named req.workspace,
            fetch workspace_table (λ w. string_eq.same w.name req.workspace)
                (internal_error "Workspace not found")
                {k = λ ws. Groups.create_group (record {
                  workspace_id = ws.id;
                  name = req.name;
                  description = req.description;
                  max_biz_tags = req.max_biz_tags;
                })}
                (λ w. (w.id == v) ≡ false) (named req.workspace) (λ w t h found. h.1 w found)
                (λ ws other. weaken (inserted_group _ other) (named req.workspace)),
          )
          depth 12

    added : (b : BizTag) → (b.workspace_id == v) ≡ false → Keeps Same (insert biz_tag_table b)
    added b other = insert_lem biz_tag_table b (λ t h unused ok.
        replaced_tags t (t.biz_tags ++ b ∷ []) h
          (rows_where-append_other (λ b. b.workspace_id == v) t.biz_tags b other)
          (Distinct-append BizTag.id t.biz_tags b unused h.distinct))

    pub create_biz_tag-Same :
        (req : CreateBizTagRequest)
        → (req.workspace_id == v) ≡ false
        → Keeps Same (Service.create_biz_tag server req)
    unfolding Service.create_biz_tag BizTags.create_biz_tag
    create_biz_tag-Same req other =
        search (keep, parse_algorithm_keeps, parse_format_keeps, added) depth 20

    replaced :
        (id : ℕ) (req : BizTags.UpdateBizTagRequest)
        → Triple (λ t. Same t × Foreign id t) (BizTags.update_biz_tag id req) (λ b. Same) Same
    unfolding BizTags.update_biz_tag
    replaced id req =
        fetch biz_tag_table (λ b. b.id == id) (not_found "BizTag not found")
          {k = λ b. update biz_tag_table (revised req b)}
          (λ b. ((b.id == id) ≡ true) × ((b.workspace_id == v) ≡ false)) (numbered id)
          (λ b t h found. known id b t h found)
          (λ b h.
            failing (update_lem biz_tag_table (revised req b) (λ t q. swapped id req b t h.0 h.1 q))
              (numbered id))

    erased :
        (id : ℕ) → Triple (λ t. Same t × Foreign id t) (BizTags.delete_biz_tag id) (λ u. Same) Same
    unfolding BizTags.delete_biz_tag
    erased id =
        bind (delete_by_id biz_tag_table id) (ensure (not_found "BizTag not found"))
          (failing
            (delete_by_id_lem biz_tag_table id (λ t h.
              replaced_tags t (rows_where (λ b. not (b.id == id)) t.biz_tags) h.0
                (rows_where-rows_where (λ b. b.workspace_id == v) (λ b. b.id == id) t.biz_tags h.1)
                (Distinct-rows_where BizTag.id (λ b. not (b.id == id)) t.biz_tags h.0.distinct)))
            (numbered id))
          (λ done. keep_ensure (not_found "BizTag not found") done)

    pub update_biz_tag-Same :
        (id : ℕ) (req : UpdateBizTagRequest)
        → Triple
            (λ t. Same t × Foreign id t)
            (Service.update_biz_tag server id req)
            (λ b. Same)
            Same
    unfolding Service.update_biz_tag
    update_biz_tag-Same id req =
        search
          (
            pass,
            keep_ensure,
            transpose_keeps server,
            parse_algorithm_keeps,
            parse_format_keeps,
            numbered id,
            replaced id,
          )
          depth 20

    pub delete_biz_tag-Same :
        (id : ℕ)
        → Triple (λ t. Same t × Foreign id t) (Service.delete_biz_tag server id) (λ u. Same) Same
    unfolding Service.delete_biz_tag
    delete_biz_tag-Same id = search (pass, keep_ensure, numbered id, erased id) depth 12
