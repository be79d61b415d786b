-- ===== src/Http/Tenancy/Runs.antt =====
-- Requests with the keys of other workspaces, one after the other.
use nebula_id.Prelude.{ℕ, ==_iff, ◌≡◌, ◌≢◌, refl, arith, List, [], ◌∷◌, All, Option, none, some}
use nebula_id.Prelude.Assoc.{string_eq}
use nebula_id.Catalog.{
  Workspace, Group, BizTag, ApiKey, ApiKeyRole, admin, user, anonymous, Tables, Store,
}
use nebula_id.Catalog.Rows.{Distinct}
use nebula_id.Catalog.Triple.{Keeps}
use nebula_id.Catalog.Keeps.{keep_raise}
use nebula_id.Http.{Server, Identity}
use nebula_id.Http.Separation.{idle, handle_admin_keeps, from_keeps}
use nebula_id.Http.Routes.{
  Request, admin_route, user_route, handle, admin_required_middleware, anonymous_block_middleware,
}
use nebula_id.Http.Tenancy.{Same, groups_of, biz_tags_of}
use nebula_id.Http.Tenancy.Users.{handle_user-Same}

-- One request, with the server that answers it.
pub record Call : Type 0 where
  pub server : Server
  pub identity : Identity
  pub request : Request

unfoldable pub run : List Call → Store → Store
run [] s = s
run (c ∷ cs) s = run cs (handle c.server c.identity c.request s).1

-- The key of a user is bound to another workspace.
abbrev pub IsOther : ℕ → Option ApiKeyRole → Option ℕ → Type 0
IsOther v (some user) (some w) = w ≢ v
IsOther v (some user) none = ⊥
IsOther v role w = Unit

keyless :
    (v : ℕ) (gs : List Group) (bs : List BizTag) (rows : List ApiKey) (t : Tables)
    → Same v gs bs t
    → Same v gs bs (record t { api_keys = rows })
unfolding groups_of biz_tags_of
keyless v gs bs rows t h = record {
  groups = h.groups;
  biz_tags = h.biz_tags;
  distinct = h.distinct;
}

homeless :
    (v : ℕ) (gs : List Group) (bs : List BizTag) (rows : List Workspace) (t : Tables)
    → Same v gs bs t
    → Same v gs bs (record t { workspaces = rows })
unfolding groups_of biz_tags_of
homeless v gs bs rows t h = record {
  groups = h.groups;
  biz_tags = h.biz_tags;
  distinct = h.distinct;
}

handle-Same :
    (v : ℕ) (gs : List Group) (bs : List BizTag) (server : Server) (role : Option ApiKeyRole)
    (w : Option ℕ) (req : Request)
    → IsOther v role w
    → Keeps (Same v gs bs) (handle server (record { role = role; workspace_id = w }) req)
unfolding handle admin_required_middleware anonymous_block_middleware
handle-Same v gs bs server (some admin) w (admin_route req) h =
    handle_admin_keeps server (keyless v gs bs) (homeless v gs bs) req
handle-Same v gs bs server (some admin) w (user_route req) h = idle server w req
handle-Same v gs bs server (some user) w (admin_route req) h = keep_raise _
handle-Same v gs bs server (some user) (some w) (user_route req) h =
    handle_user-Same v gs bs server w (ground (arith, ==_iff w v)) req
handle-Same v gs bs server (some user) none (user_route req) h = elim h [ ]
handle-Same v gs bs server (some anonymous) w (admin_route req) h = keep_raise _
handle-Same v gs bs server (some anonymous) w (user_route req) h = keep_raise _
handle-Same v gs bs server none w (admin_route req) h = keep_raise _
handle-Same v gs bs server none w (user_route req) h = keep_raise _

run-Same :
    (v : ℕ) (gs : List Group) (bs : List BizTag) (calls : List Call) (s : Store)
    → All (λ c. IsOther v c.identity.role c.identity.workspace_id) calls
    → Same v gs bs s.tables
    → Same v gs bs (run calls s).tables
unfolding run
run-Same v gs bs [] s others h = h
run-Same v gs bs (c ∷ cs) s others h =
    run-Same v gs bs cs (handle c.server c.identity c.request s).1 others.1 (
      from_keeps (Same v gs bs)
        (handle-Same v gs bs c.server c.identity.role c.identity.workspace_id c.request others.0) s
        h)

-- Where no two tags have one number, requests that come with the keys of administrators, with users'
-- keys that are bound to other workspaces, or with no valid key, in any order and whatever fails, leave
-- the groups and the tags of a workspace as they are.
pub run-biz_tags_of :
    (v : ℕ) (calls : List Call) (s : Store)
    → Distinct BizTag.id s.tables.biz_tags
    → All (λ c. IsOther v c.identity.role c.identity.workspace_id) calls
    → (groups_of v (run calls s).tables ≡ groups_of v s.tables)
      × (biz_tags_of v (run calls s).tables ≡ biz_tags_of v s.tables)
run-biz_tags_of v calls s distinct others =
    let kept =
      run-Same v (groups_of v s.tables) (biz_tags_of v s.tables) calls s others
        (record { groups = refl; biz_tags = refl; distinct = distinct }) in
    (kept.groups, kept.biz_tags)
