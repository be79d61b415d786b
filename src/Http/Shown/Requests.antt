-- ===== src/Http/Shown/Requests.antt =====
-- Every request of a user, up to what its answer shows.
use Prim.Native.String.{String}
use nebula_id.Prelude.{ℕ, ◌==◌, ==_iff, ◌-◌, ◌*◌, min, max, u64, ◌≡◌, Bool, Option, none, some}
use nebula_id.Prelude.Assoc.{string_eq}
use nebula_id.Catalog.{user, Tables, Store, returned, Query, pure, ok_or, ensure, ◌>>=◌, ◌>>◌}
use nebula_id.Catalog.Triple.{
  answered_with, Triple, Keeps, bind, conclude, ensure_lem, pure_lem, raise_lem, weaken,
}
use nebula_id.Catalog.Keeps.{keep_ensure, keep_ok_or}
use nebula_id.Http.{
  Server, HttpError, workspace_mismatch, invalid_uuid, validation_error, Response, generated,
  biz_tag, biz_tags, group, from_core, parsed, config_shown, no_content, workspace, workspaces,
  groups, workspace_not_found,
}
use nebula_id.Http.Rules.{from_core_lem}
use nebula_id.Http.Owned.{verify_user_workspace-Named, own_biz_tag-Owned}
use nebula_id.Http.Kept.{
  get_workspace_keeps, list_workspaces_keeps, list_groups_keeps, list_biz_tags_keeps,
  delete_biz_tag_keeps,
}
use nebula_id.Http.Service
use nebula_id.Http.Service.{CreateGroupRequest, CreateBizTagRequest, UpdateBizTagRequest}
use nebula_id.Http.Handlers.{
  verify_user_role, verify_workspace_id_match, verify_user_workspace, own_biz_tag, handle_generate,
  handle_create_biz_tag, handle_get_biz_tag, handle_update_biz_tag, handle_create_group,
  handle_list_workspaces, handle_get_workspace, handle_list_groups, handle_list_biz_tags,
  handle_delete_biz_tag, validate_request,
}
use nebula_id.Http.Routes.{
  UserRequest, get_config, generate, parse, list_workspaces, get_workspace, create_group,
  list_groups, create_biz_tag, list_biz_tags, get_biz_tag, update_biz_tag, delete_biz_tag,
  handle_user,
}
use nebula_id.Http.Shown.{
  Any, Shown, asked_for, create_biz_tag-OfTag, update_biz_tag-OfTag, create_group-OfGroup,
}

module _ (server : Server) (w : ℕ) where
  handle_generate-Shown :
      (valid : Bool) (name : String)
      → Triple Any (handle_generate server user (some w) valid name) (Shown w (some name)) Any
  unfolding handle_generate verify_user_role
  handle_generate-Shown valid name =
      bind (ensure validation_error valid)
        (λ u. verify_user_workspace server name (some w) >> pure generated) (keep_ensure _ valid)
        (λ u.
          bind (verify_user_workspace server name (some w)) (λ u. pure generated)
            (verify_user_workspace-Named server name w) (λ u. pure_lem generated (λ t h. h.1)))

  handle_create_biz_tag-Shown :
      (valid : Bool) (req : CreateBizTagRequest)
      → Triple Any (handle_create_biz_tag server user (some w) valid req) (Shown w none) Any
  unfolding handle_create_biz_tag verify_user_role verify_workspace_id_match
  handle_create_biz_tag-Shown valid req =
      bind (ensure validation_error valid)
        (λ u.
          ensure workspace_mismatch (req.workspace_id == w)
          >> (from_core (Service.create_biz_tag server req) >>= λ b. pure (biz_tag b)))
        (keep_ensure _ valid)
        (λ u.
          bind (ensure workspace_mismatch (req.workspace_id == w))
            (λ u. from_core (Service.create_biz_tag server req) >>= λ b. pure (biz_tag b))
            (ensure_lem workspace_mismatch (req.workspace_id == w))
            (λ u. record {
              runs = λ s h.
                  (bind (from_core (Service.create_biz_tag server req)) (λ b. pure (biz_tag b))
                      (from_core_lem
                        (create_biz_tag-OfTag server w req ((==_iff req.workspace_id w).0 h.1)))
                      (λ b. pure_lem (biz_tag b) (λ t h. h))).runs
                    s tt;
            }))

  handle_get_biz_tag-Shown :
      (id : Option ℕ) → Triple Any (handle_get_biz_tag server user (some w) id) (Shown w none) Any
  unfolding handle_get_biz_tag
  handle_get_biz_tag-Shown none = raise_lem invalid_uuid (λ t h. tt)
  handle_get_biz_tag-Shown (some id) =
      bind (own_biz_tag server user (some w) id) (λ b. pure (biz_tag b))
        (own_biz_tag-Owned server id w) (λ b. pure_lem (biz_tag b) (λ t h. h.1.1))

  handle_update_biz_tag-Shown :
      (id : Option ℕ) (valid : Bool) (req : UpdateBizTagRequest)
      → Triple Any (handle_update_biz_tag server user (some w) id valid req) (Shown w none) Any
  unfolding handle_update_biz_tag
  handle_update_biz_tag-Shown none valid req = raise_lem invalid_uuid (λ t h. tt)
  handle_update_biz_tag-Shown (some id) valid req =
      bind (ensure validation_error valid)
        (λ u. own_biz_tag server user (some w) id >>= λ e.
          from_core (Service.update_biz_tag server id req) >>= λ b. pure (biz_tag b))
        (keep_ensure _ valid)
        (λ u.
          bind (own_biz_tag server user (some w) id)
            (λ e. from_core (Service.update_biz_tag server id req) >>= λ b. pure (biz_tag b))
            (own_biz_tag-Owned server id w)
            (λ e.
              bind (from_core (Service.update_biz_tag server id req)) (λ b. pure (biz_tag b))
                (from_core_lem (weaken (update_biz_tag-OfTag server w id req e) (λ t h. h.1)))
                (λ b. pure_lem (biz_tag b) (λ t h. h))))

  handle_create_group-Shown :
      (valid : Bool) (req : CreateGroupRequest)
      → Triple Any (handle_create_group server user (some w) valid req) (Shown w none) Any
  unfolding handle_create_group verify_user_role
  handle_create_group-Shown valid req =
      bind (ensure validation_error valid)
        (λ u.
          verify_user_workspace server req.workspace (some w)
          >> (from_core (Service.create_group server req) >>= λ g. pure (group g)))
        (keep_ensure _ valid)
        (λ u.
          bind (verify_user_workspace server req.workspace (some w))
            (λ u. from_core (Service.create_group server req) >>= λ g. pure (group g))
            (verify_user_workspace-Named server req.workspace w)
            (λ u.
              bind (from_core (Service.create_group server req)) (λ g. pure (group g))
                (from_core_lem (weaken (create_group-OfGroup server w req) (λ t h. h.1)))
                (λ g. pure_lem (group g) (λ t h. h))))

  read_back :
      {A : Type 0} (q : Query HttpError A) (k : A → Response)
      → Keeps Any q
      → ((a : A) (t : Tables) → Shown w none (k a) t)
      → Triple Any (q >>= λ a. pure (k a)) (Shown w none) Any
  read_back q k keeps shown =
      bind q (λ a. pure (k a)) keeps (λ a. pure_lem (k a) (λ t h. shown a t))

  user_answers :
      (req : UserRequest)
      → Triple Any (handle_user server user (some w) req) (Shown w (asked_for req)) Any
  unfolding handle_user handle_list_workspaces handle_get_workspace handle_list_groups
      handle_list_biz_tags handle_delete_biz_tag
  user_answers get_config = pure_lem config_shown (λ t h. tt)
  user_answers (generate valid name) = handle_generate-Shown valid name
  user_answers (parse valid) =
      read_back (validate_request valid) (λ u. parsed) (keep_ensure _ valid) (λ u t. tt)
  user_answers list_workspaces =
      read_back (from_core (Service.list_workspaces server)) workspaces
        (from_core_lem (list_workspaces_keeps server)) (λ ws t. tt)
  user_answers (get_workspace name) =
      bind (from_core (Service.get_workspace server name))
        (λ o. ok_or workspace_not_found o >>= λ x. pure (workspace x))
        (from_core_lem (get_workspace_keeps server name))
        (λ o.
          read_back (ok_or workspace_not_found o) workspace (keep_ok_or workspace_not_found o)
            (λ x t. tt))
  user_answers (create_group valid req) = handle_create_group-Shown valid req
  user_answers (list_groups valid name) =
      bind (validate_request valid)
        (λ u. from_core (Service.list_groups server name) >>= λ l. pure (groups l))
        (keep_ensure _ valid)
        (λ u.
          read_back (from_core (Service.list_groups server name)) groups
            (from_core_lem (list_groups_keeps server name)) (λ l t. tt))
  user_answers (create_biz_tag valid req) = handle_create_biz_tag-Shown valid req
  user_answers (list_biz_tags valid page size) =
      bind (validate_request valid) _ (keep_ensure _ valid) (λ u.
        read_back _ (λ l. biz_tags l.0 l.1)
          (from_core_lem (
            list_biz_tags_keeps server none none (min (max size 1) 100)
              (u64 ((max page 1 - 1) * (min (max size 1) 100)))))
          (λ l t. tt))
  user_answers (get_biz_tag id) = handle_get_biz_tag-Shown id
  user_answers (update_biz_tag id valid req) = handle_update_biz_tag-Shown id valid req
  user_answers (delete_biz_tag none) = raise_lem invalid_uuid (λ t h. tt)
  user_answers (delete_biz_tag (some id)) =
      bind (own_biz_tag server user (some w) id)
        (λ e. from_core (Service.delete_biz_tag server id) >> pure no_content)
        (conclude (own_biz_tag-Owned server id w) (λ b t h. tt))
        (λ e.
          read_back (from_core (Service.delete_biz_tag server id)) (λ u. no_content)
            (from_core_lem (delete_biz_tag_keeps server (λ rows t h. tt) id)) (λ u t. tt))

-- An answer to a user whose key is bound to a workspace shows a tag or a group, one at a time, only where
-- it is of that workspace, and his request for an id goes on to the generator only where the workspace
-- that it names is that one.
pub handle_user-Shown :
    (server : Server) (w : ℕ) (req : UserRequest) (s : Store) (response : Response)
    → (handle_user server user (some w) req s).0 ≡ returned response
    → Shown w (asked_for req) response (handle_user server user (some w) req s).1.tables
handle_user-Shown server w req s response e =
    answered_with (Shown w (asked_for req)) Any (handle_user server user (some w) req s)
      ((user_answers server w req).runs s tt) e
