-- ===== src/Catalog/Tests.antt =====
-- A key that is made in an empty database, and the rows that an update leaves.
use Prim.Native.String.{String}
use nebula_id.Prelude.{List, ◌==◌, map, ◌+◌, ◌≡◌, refl, arith, [], ◌∷◌, none, some, some_inj}
use nebula_id.Prelude.Int.{pos}
use nebula_id.Prelude.Assoc.{string_eq}
use nebula_id.Types.{segment}
use nebula_id.Catalog.{
  Workspace, Group, active, ApiKey, BizTag, user, numeric, Store, returned, call, new_v4, draw,
}
use nebula_id.Catalog.Table.{rows_where, first, find_all, insert}
use nebula_id.Catalog.BizTags.{UpdateBizTagRequest, revised}
use nebula_id.Catalog.ApiKeys.{
  Crypto, CreateApiKeyRequest, new_key, hash_key, full_key_id, secret_or_new, generate_secret,
  create_api_key, validate_api_key,
}
use nebula_id.Prelude.Assoc.{get, put}
use nebula_id.Catalog.Preload.{
  get_workspace_with_groups_and_biz_tags, get_workspace_with_groups_and_biz_tags-reads, joined,
  in_groups, tags_in, grouped,
}
use nebula_id.Catalog.Credentials.{create_api_key-validate_api_key}

abbrev crypto : Crypto
crypto = record {
  uuid_text = λ n. "00000000-0000-4000-8000-000000000000";
  secrets = λ n. "generated-secret";
  salt = "salt";
  hash_password = λ n text. some text;
  verify_password = λ text hash. string_eq.same text hash;
}

abbrev empty : Store
empty = record {
  tables = record { workspaces = []; groups = []; biz_tags = []; api_keys = [] };
  uuids = λ n. n + 100;
  drawn = 0;
  faults = λ n. none;
  calls = 0;
  violation = "violates";
}

abbrev request : CreateApiKeyRequest
request = record {
  workspace_id = some 7;
  name = "alpha-user-key";
  description = none;
  role = user;
  rate_limit = none;
  expires_at = none;
  key_secret = none;
  key_id = none;
}

abbrev made : ApiKey × String
made = (
  new_key 1000 request "nino_" "nino_00000000-0000-4000-8000-000000000000"
      "salt|nino_00000000-0000-4000-8000-000000000000:generated-secret" 103,
  "generated-secret",
)

create_api_key-validate_api_key_example :
    (validate_api_key crypto 2000 made.0.key_id made.1
      (create_api_key crypto 1000 request empty).1).0
    ≡ returned (some (some 7, user))
unfolding create_api_key full_key_id secret_or_new generate_secret hash_key insert call new_v4 draw
create_api_key-validate_api_key_example =
    create_api_key-validate_api_key crypto 1000 2000 request empty made
      (λ n password hash h. (string_eq.same_iff password hash).1 (some_inj.0 h)) refl (omega arith)
      refl

abbrev old : BizTag
old = record {
  id = 30;
  workspace_id = 7;
  group_id = 20;
  name = "orders";
  description = none;
  algorithm = segment;
  format = numeric;
  prefix = "";
  base_step = pos 100;
  max_step = pos 1000;
  datacenter_ids = pos 1 ∷ pos 2 ∷ [];
}

abbrev rename : UpdateBizTagRequest
rename = record {
  name = some "invoices";
  description = none;
  algorithm = none;
  format = none;
  prefix = none;
  base_step = none;
  max_step = none;
  datacenter_ids = none;
}

-- A change of the name alone resets the datacenters.
revised-rename : (revised rename old).datacenter_ids ≡ pos 0 ∷ []
unfolding revised
revised-rename = refl

abbrev alpha : Workspace
alpha = record {
  id = 7;
  name = "alpha";
  description = none;
  status = active;
  max_groups = pos 10;
  max_biz_tags = pos 100;
}

abbrev default_group : Group
default_group = record {
  id = 20;
  workspace_id = 7;
  name = "default";
  description = none;
  max_biz_tags = pos 50;
}

abbrev filled : Store
filled = record empty {
  tables = record {
    workspaces = alpha ∷ [];
    groups = default_group ∷ [];
    biz_tags = old ∷ [];
    api_keys = [];
  };
}

abbrev tagged : List (Group × List BizTag)
tagged = (default_group, old ∷ []) ∷ []

get_workspace_with_groups_and_biz_tags-reads_example :
    tagged
    ≡ map
        (λ g. (g, rows_where (λ b. b.group_id == g.id) filled.tables.biz_tags))
        (rows_where (λ g. g.workspace_id == 7) filled.tables.groups)
unfolding get_workspace_with_groups_and_biz_tags joined in_groups tags_in grouped first rows_where
    find_all call get put
get_workspace_with_groups_and_biz_tags-reads_example =
    get_workspace_with_groups_and_biz_tags-reads 7 filled alpha ((default_group, old ∷ []) ∷ [])
      refl
