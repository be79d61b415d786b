-- ===== src/Http/Tests.antt =====
-- Requests to a database with two workspaces.
use Prim.Native.String.{String}
use nebula_id.Prelude.{ℕ, ◌+◌, ◌==◌, ◌≡◌, refl, arith, true, not, List, [], ◌∷◌, Option, none, some}
use nebula_id.Prelude.Int.{pos}
use nebula_id.Prelude.Assoc.{string_eq}
use nebula_id.Types.{segment}
use nebula_id.Catalog.{
  Workspace, Group, BizTag, ApiKey, ApiKeyRole, admin, user, active, numeric, Store, returned, call,
  new_v4, draw,
}
use nebula_id.Catalog.Table.{rows_where, first, find_one, find_all, insert, drop, take}
use nebula_id.Catalog.ApiKeys.{
  Crypto, new_key, full_key_id, secret_or_new, generate_secret, hash_key, of_workspace,
}
use nebula_id.Catalog.ApiKeys
use nebula_id.Catalog.BizTags
use nebula_id.Http.Service
use nebula_id.Http.Handlers.{
  handle_get_biz_tag, own_biz_tag, verify_user_role, verify_workspace_id_match,
}
use nebula_id.Http.{Server, Identity, biz_tag}
use nebula_id.Http.Keys
use nebula_id.Http.Keys.{CreateApiKeyRequest, check_existing, requested_role, parse_expiry}
use nebula_id.Http.Routes.{
  Request, user_route, admin_route, get_biz_tag, delete_biz_tag, revoke_api_key, handle,
  handle_user,
}
use nebula_id.Http.Separation.{handle-Untouched, Untouched}
use nebula_id.Http.Tenancy.{groups_of, biz_tags_of}
use nebula_id.Http.Tenancy.Runs.{Call, run, run-biz_tags_of}
use nebula_id.Http.Shown.{Shown}
use nebula_id.Http.Shown.Requests.{handle_user-Shown}
use nebula_id.Http.AdminKeys.{check_existing-admin, revoke_api_key-removes}
use nebula_id.Http.UserKeys.{Bound, keys_of}
use nebula_id.Http.UserKeys.Made.{create_api_key-keys_of}

abbrev server : Server
server = record {
  crypto = record {
    uuid_text = λ n. "00000000-0000-4000-8000-000000000000";
    secrets = λ n. "generated-secret";
    salt = "salt";
    hash_password = λ n text. some text;
    verify_password = λ text hash. string_eq.same text hash;
  };
  lowercase = λ text. text;
  display = λ e. "failed";
  repository = true;
  workspace_repository = true;
  group_repository = true;
  api_key_repo = true;
  grace_period_seconds = 604800;
  now = 1000;
}

abbrev space : ℕ → String → Workspace
space id name = record {
  id = id;
  name = name;
  description = none;
  status = active;
  max_groups = pos 10;
  max_biz_tags = pos 100;
}

abbrev group_in : ℕ → ℕ → Group
group_in id w = record {
  id = id;
  workspace_id = w;
  name = "default";
  description = none;
  max_biz_tags = pos 50;
}

abbrev tag_in : ℕ → ℕ → ℕ → BizTag
tag_in id w g = record {
  id = id;
  workspace_id = w;
  group_id = g;
  name = "orders";
  description = none;
  algorithm = segment;
  format = numeric;
  prefix = "";
  base_step = pos 100;
  max_step = pos 1000;
  datacenter_ids = pos 0 ∷ [];
}

abbrev key : ℕ → String → ApiKeyRole → Option ℕ → ApiKey
key id key_id role w = record {
  id = id;
  key_id = key_id;
  key_secret_hash = "hash";
  key_prefix = "niad_";
  role = role;
  workspace_id = w;
  name = "key";
  description = none;
  rate_limit = pos 10000;
  enabled = true;
  expires_at = none;
  last_used_at = none;
  created_at = 0;
}

abbrev start : Store
start = record {
  tables = record {
    workspaces = space 7 "alpha" ∷ space 8 "beta" ∷ [];
    groups = group_in 20 7 ∷ group_in 21 8 ∷ [];
    biz_tags = tag_in 30 7 20 ∷ tag_in 31 8 21 ∷ [];
    api_keys = key 1 "niad_1" admin none ∷ key 2 "nino_2" user (some 8) ∷ [];
  };
  uuids = λ n. n + 100;
  drawn = 0;
  faults = λ n. none;
  calls = 0;
  violation = "violates";
}

abbrev beta : Identity
beta = record { role = some user; workspace_id = some 8 }

abbrev call_of : Identity → Request → Call
call_of identity request = record { server = server; identity = identity; request = request }

-- A user of beta at the tags of alpha and of beta, and the administrator at a key.
abbrev calls : List Call
calls =
    call_of beta (user_route (delete_biz_tag (some 30)))
    ∷ call_of beta (user_route (delete_biz_tag (some 31)))
    ∷ call_of (record { role = some admin; workspace_id = none })
        (admin_route (revoke_api_key (some 2)))
    ∷ call_of (record { role = none; workspace_id = none }) (user_route (delete_biz_tag (some 30)))
    ∷ []

run-biz_tags_of_example :
    (groups_of 7 (run calls start).tables ≡ groups_of 7 start.tables)
    × (biz_tags_of 7 (run calls start).tables ≡ biz_tags_of 7 start.tables)
run-biz_tags_of_example =
    run-biz_tags_of 7 calls start ((refl, tt), (tt, tt))
      ((λ e. omega arith), ((λ e. omega arith), (tt, (tt, tt))))

handle-Untouched_example :
    Untouched
      (some user)
      start.tables
      (handle server beta (user_route (delete_biz_tag (some 31))) start).1.tables
handle-Untouched_example =
    handle-Untouched server beta (user_route (delete_biz_tag (some 31))) start

check_existing-admin_example :
    check_existing server admin none start ≡ (returned tt, record start { calls = 1 })
check_existing-admin_example = check_existing-admin server start (tt, (tt, tt)) refl

revoke_api_key-removes_example :
    ((Keys.revoke_api_key server 1 start).0 ≡ returned tt)
    × ((Keys.revoke_api_key server 1 start).1.tables.api_keys
        ≡ rows_where (λ k. not (k.id == 1)) start.tables.api_keys)
revoke_api_key-removes_example =
    revoke_api_key-removes server 1 start refl (refl, (refl, tt)) refl refl refl refl

abbrev request : CreateApiKeyRequest
request = record {
  workspace_id = some (some 7);
  name = "alpha";
  description = none;
  role = none;
  rate_limit = none;
  expires_at = none;
}

abbrev made : ApiKey × String
made = (
  record (key 103 "nino_00000000-0000-4000-8000-000000000000" user (some 7)) {
    key_secret_hash = "salt|nino_00000000-0000-4000-8000-000000000000:generated-secret";
    key_prefix = "nino_";
    name = "alpha";
    expires_at = some 2593000;
    created_at = 1000;
  },
  "generated-secret",
)

create_api_key-keys_of_example :
    keys_of 7 (Keys.create_api_key server (some 7) request start).1.tables ≡ made.0 ∷ []
unfolding Keys.create_api_key requested_role parse_expiry check_existing ApiKeys.list_api_keys
    ApiKeys.create_api_key full_key_id secret_or_new generate_secret hash_key insert call new_v4
    draw find_all rows_where of_workspace drop take Bound
create_api_key-keys_of_example =
    create_api_key-keys_of server 7 request start made (tt, (tt, tt)) refl

handle_user-Shown_example :
    Shown 8 none
      (biz_tag (tag_in 31 8 21))
      (handle_user server user (some 8) (get_biz_tag (some 31)) start).1.tables
unfolding handle_user handle_get_biz_tag own_biz_tag verify_user_role verify_workspace_id_match
    Service.get_biz_tag BizTags.get_biz_tag find_one call first
handle_user-Shown_example =
    handle_user-Shown server 8 (get_biz_tag (some 31)) start (biz_tag (tag_in 31 8 21)) refl
