-- ===== src/Http/Tenancy/Users.antt =====
-- Requests with the key of a user of another workspace.
use Prim.Native.String.{String}
use nebula_id.Prelude.{
  ℕ, ◌==◌, ◌≡◌, sym, ◌∙◌, arith, Bool, false, List, Option, none, some, some_inj,
}
use nebula_id.Prelude.Assoc.{string_eq}
use nebula_id.Catalog.{Workspace, Group, BizTag, user, Tables, pure, ensure, ◌>>=◌, ◌>>◌}
use nebula_id.Catalog.Table.{first}
use nebula_id.Catalog.Rows.{first-other}
use nebula_id.Catalog.Triple.{Triple, Keeps, bind, conclude, ensure_lem}
use nebula_id.Catalog.Keeps.{keep, keep_ensure, keep_bind, keep_pure, keep_raise}
use nebula_id.Http.{Server, workspace_mismatch, from_core, biz_tag, group, no_content}
use nebula_id.Http.Rules.{from_core_lem}
use nebula_id.Http.Owned.{verify_user_workspace-Named, own_biz_tag-Owned}
use nebula_id.Http.Service
use nebula_id.Http.Handlers.{
  verify_user_role, verify_workspace_id_match, verify_user_workspace, own_biz_tag, handle_generate,
  handle_create_biz_tag, handle_update_biz_tag, handle_delete_biz_tag, handle_create_group,
}
use nebula_id.Http.Separation.{reads_only, verify_user_workspace_keeps}
use nebula_id.Http.Routes.{
  UserRequest, get_config, generate, parse, list_workspaces, get_workspace, create_group,
  list_groups, create_biz_tag, list_biz_tags, get_biz_tag, update_biz_tag, delete_biz_tag,
  handle_user,
}
use nebula_id.Http.Tenancy.{
  Same, Elsewhere, Foreign, create_group-Same, create_biz_tag-Same, update_biz_tag-Same,
  delete_biz_tag-Same,
}

module _ (v : ℕ) (gs : List Group) (bs : List BizTag) (server : Server) (w : ℕ)
    (other : (w == v) ≡ false) where
  abbrev S : Tables → Type 0
  S = Same v gs bs

  verify_user_workspace-Elsewhere :
      (name : String)
      → Triple S
          (verify_user_workspace server name (some w))
          (λ u t. S t × Elsewhere v gs bs name t)
          S
  verify_user_workspace-Elsewhere name =
      conclude (verify_user_workspace-Named server name w)
        (λ u t h. (h.0, elsewhere t h.1.0 h.1.1 h.1.2))
    where
      elsewhere :
          (t : Tables) (ws : Workspace)
          → first (λ x. string_eq.same x.name name) t.workspaces ≡ some ws
          → ws.id ≡ w
          → Elsewhere v gs bs name t
      elsewhere t ws e own x found =
          let same : ws ≡ x = some_inj.0 (sym e ∙ found) in rw (← same) (rw own other)

  own_biz_tag-Foreign :
      (id : ℕ)
      → Triple S (own_biz_tag server user (some w) id) (λ b t. S t × Foreign v gs bs id t) S
  own_biz_tag-Foreign id = conclude (own_biz_tag-Owned server id w) (λ b t h. (
    h.0,
    first-other BizTag.id (λ c. c.workspace_id == v) id t.biz_tags h.0.distinct h.1.0
        (rw h.1.1 other),
  ))

  generate_same :
      (valid : Bool) (name : String) → Keeps S (handle_generate server user (some w) valid name)
  unfolding handle_generate verify_user_role
  generate_same valid name = search (keep, verify_user_workspace_keeps server) depth 8

  create_group_handled :
      (valid : Bool) (req : Service.CreateGroupRequest)
      → Keeps S (handle_create_group server user (some w) valid req)
  unfolding handle_create_group verify_user_role
  create_group_handled valid req = keep_bind (keep_ensure _ valid) (λ u.
      bind (verify_user_workspace server req.workspace (some w))
        (λ u. from_core (Service.create_group server req) >>= λ g. pure (group g))
        (verify_user_workspace-Elsewhere req.workspace)
        (λ u.
          bind (from_core (Service.create_group server req)) (λ g. pure (group g))
            (from_core_lem (create_group-Same v gs bs server req)) (λ g. keep_pure (group g))))

  create_biz_tag_handled :
      (valid : Bool) (req : Service.CreateBizTagRequest)
      → Keeps S (handle_create_biz_tag server user (some w) valid req)
  unfolding handle_create_biz_tag verify_user_role verify_workspace_id_match
  create_biz_tag_handled valid req = keep_bind (keep_ensure _ valid) (λ u.
      bind (ensure workspace_mismatch (req.workspace_id == w))
        (λ u. from_core (Service.create_biz_tag server req) >>= λ b. pure (biz_tag b))
        (ensure_lem workspace_mismatch (req.workspace_id == w))
        (λ u. record {
          runs = λ s h.
              (keep_bind (from_core_lem (create_biz_tag-Same v gs bs server req (ground arith)))
                  (λ b. keep_pure (biz_tag b))).runs
                s h.0;
        }))

  update_biz_tag_handled :
      (id : Option ℕ) (valid : Bool) (req : Service.UpdateBizTagRequest)
      → Keeps S (handle_update_biz_tag server user (some w) id valid req)
  unfolding handle_update_biz_tag
  update_biz_tag_handled none valid req = keep_raise _
  update_biz_tag_handled (some id) valid req = keep_bind (keep_ensure _ valid) (λ u.
      bind (own_biz_tag server user (some w) id)
        (λ e. from_core (Service.update_biz_tag server id req) >>= λ b. pure (biz_tag b))
        (own_biz_tag-Foreign id)
        (λ e.
          bind (from_core (Service.update_biz_tag server id req)) (λ b. pure (biz_tag b))
            (from_core_lem (update_biz_tag-Same v gs bs server id req))
            (λ b. keep_pure (biz_tag b))))

  delete_biz_tag_handled : (id : Option ℕ) → Keeps S (handle_delete_biz_tag server user (some w) id)
  unfolding handle_delete_biz_tag
  delete_biz_tag_handled none = keep_raise _
  delete_biz_tag_handled (some id) =
      bind (own_biz_tag server user (some w) id)
        (λ e. from_core (Service.delete_biz_tag server id) >> pure no_content)
        (own_biz_tag-Foreign id)
        (λ e.
          bind (from_core (Service.delete_biz_tag server id)) (λ b. pure no_content)
            (from_core_lem (delete_biz_tag-Same v gs bs server id)) (λ b. keep_pure no_content))

  pub handle_user-Same : (req : UserRequest) → Keeps S (handle_user server user (some w) req)
  unfolding handle_user
  handle_user-Same get_config = keep_pure _
  handle_user-Same (generate valid name) = generate_same valid name
  handle_user-Same (parse valid) = search keep
  handle_user-Same list_workspaces = reads_only server user (some w) list_workspaces tt
  handle_user-Same (get_workspace name) = reads_only server user (some w) (get_workspace name) tt
  handle_user-Same (create_group valid req) = create_group_handled valid req
  handle_user-Same (list_groups valid name) =
      reads_only server user (some w) (list_groups valid name) tt
  handle_user-Same (create_biz_tag valid req) = create_biz_tag_handled valid req
  handle_user-Same (list_biz_tags valid page size) =
      reads_only server user (some w) (list_biz_tags valid page size) tt
  handle_user-Same (get_biz_tag id) = reads_only server user (some w) (get_biz_tag id) tt
  handle_user-Same (update_biz_tag id valid req) = update_biz_tag_handled id valid req
  handle_user-Same (delete_biz_tag id) = delete_biz_tag_handled id
