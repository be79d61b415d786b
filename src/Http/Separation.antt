-- ===== src/Http/Separation.antt =====
-- Which tables a request can change, by the role of its key.
use Prim.Native.String.{String}
use nebula_id.Prelude.{ℕ, ◌≡◌, refl, Bool, Bool-cases, inl, inr, List, Option, none, some}
use nebula_id.Prelude.Assoc.{string_eq}
use nebula_id.Catalog.{
  ApiKey, ApiKeyRole, admin, user, anonymous, Workspace, Group, BizTag, Tables, Store, unwrap_or,
  ◌>>=◌, Query, Outcome, returned, raised,
}
use nebula_id.Catalog.Triple.{Keeps, Post}
use nebula_id.Catalog.Keeps.{keep, keep_bind, keep_ensure}
use nebula_id.Http.{Server, Identity, HttpError}
use nebula_id.Http.Rules.{from_core_lem}
use nebula_id.Http.Kept.{
  create_group_keeps, get_workspace_keeps, list_workspaces_keeps, list_groups_keeps,
  get_biz_tag_keeps, list_biz_tags_keeps, create_biz_tag_keeps, update_biz_tag_keeps,
  delete_biz_tag_keeps,
}
use nebula_id.Http.KeysKept.{
  create_api_key_keeps, list_api_keys_keeps, revoke_api_key_keeps, regenerate_user_api_key_keeps,
  create_workspace_keeps,
}
use nebula_id.Http.Keys.{CreateApiKeyRequest}
use nebula_id.Http.Handlers.{
  verify_user_role, verify_workspace_id_match, verify_user_workspace, own_biz_tag, validate_request,
  handle_generate, handle_create_biz_tag, handle_get_biz_tag, handle_update_biz_tag,
  handle_delete_biz_tag, handle_create_group, handle_list_biz_tags, handle_list_workspaces,
  handle_get_workspace, handle_list_groups, handle_create_workspace, handle_regenerate_user_key,
  handle_create_api_key, handle_list_api_keys, handle_revoke_api_key, key_workspace,
  parse_user_workspace_id,
}
use nebula_id.Http.Routes.{
  Request, admin_route, user_route, AdminRequest, create_api_key, list_api_keys, revoke_api_key,
  create_workspace, regenerate_user_key, update_config, UserRequest, get_config, generate, parse,
  list_workspaces, get_workspace, create_group, list_groups, create_biz_tag, list_biz_tags,
  get_biz_tag, update_biz_tag, delete_biz_tag, handle_admin, handle_user, admin_required_middleware,
  anonymous_block_middleware, handle,
}

-- The requests that only look something up.
abbrev pub IsRead : UserRequest → Type 0
IsRead (create_group valid req) = ⊥
IsRead (create_biz_tag valid req) = ⊥
IsRead (update_biz_tag id valid req) = ⊥
IsRead (delete_biz_tag id) = ⊥
IsRead req = Unit

module _ {P : Tables → Type 0} where
  verify_user_role_keeps : (r : ApiKeyRole) → Keeps P (verify_user_role r)
  unfolding verify_user_role
  verify_user_role_keeps admin = search keep
  verify_user_role_keeps user = search keep
  verify_user_role_keeps anonymous = search keep

  verify_workspace_id_match_keeps :
      (id : ℕ) (w : Option ℕ) → Keeps P (verify_workspace_id_match id w)
  unfolding verify_workspace_id_match
  verify_workspace_id_match_keeps id none = search keep
  verify_workspace_id_match_keeps id (some w) = search keep

module _ {P : Tables → Type 0} (server : Server) where
  pub verify_user_workspace_keeps :
      (name : String) (w : Option ℕ) → Keeps P (verify_user_workspace server name w)
  unfolding verify_user_workspace
  verify_user_workspace_keeps name w =
      search (keep, from_core_lem, get_workspace_keeps, verify_workspace_id_match_keeps) depth 12

  own_biz_tag_keeps : (r : ApiKeyRole) (w : Option ℕ) (id : ℕ) → Keeps P (own_biz_tag server r w id)
  unfolding own_biz_tag
  own_biz_tag_keeps r w id =
      search
        (
          keep, from_core_lem, verify_user_role_keeps, get_biz_tag_keeps,
          verify_workspace_id_match_keeps,
        )
        depth 12

  ruleset users = (
    keep, from_core_lem, verify_user_role_keeps, verify_workspace_id_match_keeps,
    verify_user_workspace_keeps, own_biz_tag_keeps, get_workspace_keeps, list_workspaces_keeps,
    list_groups_keeps, list_biz_tags_keeps,
  )

  pub reads_only :
      (r : ApiKeyRole) (w : Option ℕ) (req : UserRequest)
      → IsRead req
      → Keeps P (handle_user server r w req)
  unfolding handle_user handle_generate handle_get_biz_tag handle_list_biz_tags
      handle_list_workspaces handle_get_workspace handle_list_groups
  reads_only r w get_config h = search users depth 16
  reads_only r w (generate valid name) h = search users depth 16
  reads_only r w (parse valid) h = search users depth 16
  reads_only r w list_workspaces h = search users depth 16
  reads_only r w (get_workspace name) h = search users depth 16
  reads_only r w (list_groups valid name) h = search users depth 16
  reads_only r w (list_biz_tags valid page size) h = search users depth 16
  reads_only r w (get_biz_tag id) h = search users depth 16
  reads_only r w (create_group _ _) h = elim h [ ]
  reads_only r w (create_biz_tag _ _) h = elim h [ ]
  reads_only r w (update_biz_tag _ _ _) h = elim h [ ]
  reads_only r w (delete_biz_tag _) h = elim h [ ]

  module _ (no_groups : (rows : List Group) (t : Tables) → P t → P (record t { groups = rows }))
      (no_biz_tags : (rows : List BizTag) (t : Tables)
        → P t
        → P (record t { biz_tags = rows })) where
    pub handle_user_keeps :
        (r : ApiKeyRole) (w : Option ℕ) (req : UserRequest) → Keeps P (handle_user server r w req)
    unfolding handle_user handle_generate handle_create_biz_tag handle_get_biz_tag
        handle_update_biz_tag handle_delete_biz_tag handle_create_group handle_list_biz_tags
        handle_list_workspaces handle_get_workspace handle_list_groups
    handle_user_keeps r w get_config = reads_only r w get_config tt
    handle_user_keeps r w (generate valid name) = reads_only r w (generate valid name) tt
    handle_user_keeps r w (parse valid) = reads_only r w (parse valid) tt
    handle_user_keeps r w list_workspaces = reads_only r w list_workspaces tt
    handle_user_keeps r w (get_workspace name) = reads_only r w (get_workspace name) tt
    handle_user_keeps r w (create_group valid req) =
        search (users, create_group_keeps server no_groups) depth 16
    handle_user_keeps r w (list_groups valid name) = reads_only r w (list_groups valid name) tt
    handle_user_keeps r w (create_biz_tag valid req) =
        search (users, create_biz_tag_keeps server no_biz_tags) depth 16
    handle_user_keeps r w (list_biz_tags valid page size) =
        reads_only r w (list_biz_tags valid page size) tt
    handle_user_keeps r w (get_biz_tag id) = reads_only r w (get_biz_tag id) tt
    handle_user_keeps r w (update_biz_tag id valid req) =
        search (users, update_biz_tag_keeps server no_biz_tags) depth 16
    handle_user_keeps r w (delete_biz_tag id) =
        search (users, delete_biz_tag_keeps server no_biz_tags) depth 16

  refused :
      {A : Type 0} (valid : Bool) {q : Query HttpError A}
      → Keeps P q
      → Keeps P (validate_request valid >>= λ u. q)
  refused valid h = keep_bind (keep_ensure _ valid) (λ u. h)

  -- Without the user's role nothing is changed.
  pub idle : (w : Option ℕ) (req : UserRequest) → Keeps P (handle_user server admin w req)
  unfolding handle_user handle_generate handle_create_biz_tag handle_get_biz_tag own_biz_tag
      handle_update_biz_tag handle_delete_biz_tag handle_create_group handle_list_biz_tags
      handle_list_workspaces handle_get_workspace handle_list_groups verify_user_role
  idle w get_config = reads_only admin w get_config tt
  idle w (generate valid name) = reads_only admin w (generate valid name) tt
  idle w (parse valid) = reads_only admin w (parse valid) tt
  idle w list_workspaces = reads_only admin w list_workspaces tt
  idle w (get_workspace name) = reads_only admin w (get_workspace name) tt
  idle w (create_group valid req) = refused valid (search keep)
  idle w (list_groups valid name) = reads_only admin w (list_groups valid name) tt
  idle w (create_biz_tag valid req) = refused valid (search keep)
  idle w (list_biz_tags valid page size) = reads_only admin w (list_biz_tags valid page size) tt
  idle w (get_biz_tag id) = reads_only admin w (get_biz_tag id) tt
  idle w (update_biz_tag none valid req) = search keep
  idle w (update_biz_tag (some id) valid req) = refused valid (search keep)
  idle w (delete_biz_tag none) = search keep
  idle w (delete_biz_tag (some id)) = search keep

  parse_user_workspace_id_keeps :
      (w : Option (Option ℕ)) → Keeps P (parse_user_workspace_id server w)
  unfolding parse_user_workspace_id
  parse_user_workspace_id_keeps none = search keep
  parse_user_workspace_id_keeps (some none) = search keep
  parse_user_workspace_id_keeps (some (some w)) = search keep

  key_workspace_keeps : (req : CreateApiKeyRequest) → Keeps P (key_workspace server req)
  unfolding key_workspace
  key_workspace_keeps req = elim (Bool-cases (string_eq.same (unwrap_or "user" req.role) "admin")) [
    | inl global ↦ rw (global, key_workspace) (search keep)
    | inr bound ↦ rw (bound, key_workspace) (parse_user_workspace_id_keeps req.workspace_id)
  ]

  module _ (no_keys : (rows : List ApiKey) (t : Tables) → P t → P (record t { api_keys = rows }))
      (no_workspaces : (rows : List Workspace) (t : Tables)
        → P t
        → P (record t { workspaces = rows })) where
    pub handle_admin_keeps : (req : AdminRequest) → Keeps P (handle_admin server req)
    unfolding handle_admin handle_create_api_key handle_list_api_keys handle_revoke_api_key
        handle_create_workspace handle_regenerate_user_key
    handle_admin_keeps (create_api_key valid req) =
        search (keep, from_core_lem, key_workspace_keeps, create_api_key_keeps server no_keys) depth
          16
    handle_admin_keeps (list_api_keys valid page size w) =
        search (keep, from_core_lem, list_api_keys_keeps) depth 16
    handle_admin_keeps (revoke_api_key id) =
        search (keep, from_core_lem, revoke_api_key_keeps server no_keys) depth 16
    handle_admin_keeps (create_workspace valid req) =
        search (keep, from_core_lem, create_workspace_keeps server no_keys no_workspaces) depth 16
    handle_admin_keeps (regenerate_user_key name) =
        search (keep, from_core_lem, regenerate_user_api_key_keeps server no_keys) depth 16
    handle_admin_keeps (update_config valid) = search keep

-- What a request leaves as it was, by the role that it comes with.
abbrev pub Untouched : Option ApiKeyRole → Tables → Tables → Type 0
Untouched (some admin) old new = (new.groups ≡ old.groups) × (new.biz_tags ≡ old.biz_tags)
Untouched (some user) old new = (new.workspaces ≡ old.workspaces) × (new.api_keys ≡ old.api_keys)
Untouched (some anonymous) old new = new ≡ old
Untouched none old new = new ≡ old

pub from_keeps :
    {A : Type 0} {q : Query HttpError A} (P : Tables → Type 0)
    → Keeps P q
    → (s : Store) → P s.tables
    → P (q s).1.tables
from_keeps {A} {q} P h s p = both (q s) (h.runs s p)
  where
    both : (o : Outcome HttpError A × Store) → Post (λ a. P) P o → P o.1.tables
    both (returned a, t) p = p
    both (raised e, t) p = p

-- Whatever fails, a request with the key of an administrator changes no group and no tag, one with a
-- user's key changes no workspace and no key, and any other changes nothing.
pub handle-Untouched :
    (server : Server) (identity : Identity) (req : Request) (s : Store)
    → Untouched identity.role s.tables (handle server identity req s).1.tables
unfolding handle admin_required_middleware anonymous_block_middleware
handle-Untouched server identity req s = by_role identity.role identity.workspace_id req
  where
    by_role :
        (role : Option ApiKeyRole) (w : Option ℕ) (req : Request)
        → Untouched role s.tables
            (handle server (record { role = role; workspace_id = w }) req s).1.tables
    by_role (some admin) w (admin_route req) =
        from_keeps (Untouched (some admin) s.tables)
          (handle_admin_keeps server (λ rows t p. p) (λ rows t p. p) req) s (refl, refl)
    by_role (some admin) w (user_route req) =
        from_keeps (Untouched (some admin) s.tables) (idle server w req) s (refl, refl)
    by_role (some user) w (admin_route req) = (refl, refl)
    by_role (some user) w (user_route req) =
        from_keeps (Untouched (some user) s.tables)
          (handle_user_keeps server (λ rows t p. p) (λ rows t p. p) user w req) s (refl, refl)
    by_role (some anonymous) w (admin_route req) = refl
    by_role (some anonymous) w (user_route req) = refl
    by_role none w (admin_route req) = refl
    by_role none w (user_route req) = refl
