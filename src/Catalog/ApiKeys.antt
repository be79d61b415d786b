-- ===== src/Catalog/ApiKeys.antt =====
-- `ApiKeyRepository` of src/core/database/repository.rs.
--
-- The text of a uuid and the hashes of Argon2 come from crates; a password is hashed with a salt that is
-- drawn anew. The secrets that `generate_secret` draws are a sequence. Instants are seconds.
use Prim.Native.String
use Prim.Native.String.{String, len}
use text.Mathlib.Text.{starts_with}
use nebula_id.Prelude.{
  ℕ, ◌+◌, ◌-◌, ◌*◌, ◌==◌, ltb, Bool, true, false, ◌&&◌, ◌||◌, not, List, length, Option, none, some,
  if◌then◌else◌,
}
use nebula_id.Prelude.Assoc.{string_eq}
use nebula_id.Prelude.Int.{ℤ, pos}
use nebula_id.Types.{CoreError, not_found, invalid_input, internal_error}
use nebula_id.Catalog.{
  ApiKey, ApiKeyRole, admin, user, anonymous, Query, pure, ok_or, ensure, ◌>>=◌, ◌>>◌, new_v4, draw,
  unwrap_or,
}
use nebula_id.Catalog.Table.{page, find_one, find_by_id, find_all, insert, update, delete_by_id}
use nebula_id.Catalog.Entities.{api_key_table}

-- `hash_password` has no hash where it fails.
pub record Crypto : Type 0 where
  pub uuid_text : ℕ → String
  pub secrets : ℕ → String
  pub salt : String
  pub hash_password : ℕ → String → Option String
  pub verify_password : String → String → Bool

pub record CreateApiKeyRequest : Type 0 where
  pub workspace_id : Option ℕ
  pub name : String
  pub description : Option String
  pub role : ApiKeyRole
  pub rate_limit : Option ℤ
  pub expires_at : Option ℕ
  pub key_secret : Option String
  pub key_id : Option String

infixr 60 ◌^^◌
abbrev ◌^^◌ : String → String → String
a ^^ b = String.◌++◌ a b

abbrev pub thirty_days : ℕ
thirty_days = 30 * 24 * 60 * 60

-- Whether a secret that was given has a length that is refused.
abbrev out_of_bounds : Option String → Bool
out_of_bounds none = false
out_of_bounds (some secret) = ltb (len secret) 8 || ltb 128 (len secret)

-- An anonymous key has none.
abbrev pub prefix_of : ApiKeyRole → Option String
prefix_of admin = some "niad_"
prefix_of user = some "nino_"
prefix_of anonymous = none

-- The row of a key.
abbrev pub new_key : ℕ → CreateApiKeyRequest → String → String → String → ℕ → ApiKey
new_key now request prefix key_id key_secret_hash id = record {
  id = id;
  key_id = key_id;
  key_secret_hash = key_secret_hash;
  key_prefix = prefix;
  role = request.role;
  workspace_id = request.workspace_id;
  name = request.name;
  description = request.description;
  rate_limit = unwrap_or (pos 10000) request.rate_limit;
  enabled = true;
  expires_at = some (unwrap_or (now + thirty_days) request.expires_at);
  last_used_at = none;
  created_at = now;
}

module _ (c : Crypto) where
  abbrev pub password : String → String → String
  password key_id key_secret = c.salt ^^ "|" ^^ key_id ^^ ":" ^^ key_secret

  unfoldable pub hash_key : String → String → Query CoreError String
  hash_key key_id key_secret = do
    n ← draw
    ok_or (internal_error "argon2 hash failed") (c.hash_password n (password key_id key_secret))

  unfoldable pub verify_key : String → String → String → Bool
  verify_key key_id key_secret stored_hash =
      c.verify_password (password key_id key_secret) stored_hash

  unfoldable pub generate_secret : Query CoreError String
  generate_secret = do n ← draw; pure (c.secrets n)

  unfoldable pub full_key_id : String → Option String → Query CoreError String
  full_key_id prefix (some kid) = pure (if starts_with kid prefix then kid else prefix ^^ kid)
  full_key_id prefix none = do uuid ← new_v4; pure (prefix ^^ c.uuid_text uuid)

  unfoldable pub secret_or_new : Option String → Query CoreError String
  secret_or_new (some secret) = pure secret
  secret_or_new none = generate_secret

  -- With the secret.
  unfoldable pub create_api_key : ℕ → CreateApiKeyRequest → Query CoreError (ApiKey × String)
  create_api_key now request = do
    ensure (invalid_input "key_secret must be between 8 and 128 characters")
        (not (out_of_bounds request.key_secret))
    prefix ←
        ok_or (invalid_input "Anonymous role cannot be persisted to database")
          (prefix_of request.role)
    key_id ← full_key_id prefix request.key_id
    key_secret ← secret_or_new request.key_secret
    key_secret_hash ← hash_key key_id key_secret
    id ← new_v4
    key ← insert api_key_table (new_key now request prefix key_id key_secret_hash id)
    pure (key, key_secret)

  -- The grace period is not read.
  unfoldable pub rotate_api_key : String → ℕ → Query CoreError (ApiKey × String)
  rotate_api_key key_id grace_period_seconds = do
    found ← find_one api_key_table (λ k. string_eq.same k.key_id key_id)
    key ← ok_or (not_found "API key not found") found
    new_secret ← generate_secret
    new_secret_hash ← hash_key key.key_id new_secret
    updated ← update api_key_table (record key { key_secret_hash = new_secret_hash })
    pure (updated, new_secret)

unfoldable pub get_api_key_by_id : String → Query CoreError (Option ApiKey)
get_api_key_by_id key_id = find_one api_key_table (λ k. string_eq.same k.key_id key_id)

unfoldable pub update_last_used : ℕ → ℕ → Query CoreError (Unit {0})
update_last_used now id = do
  found ← find_by_id api_key_table id
  elim found [
    | none ↦ pure tt
    | some key ↦ do updated ← update api_key_table (record key { last_used_at = some now }); pure tt
  ]

-- The error of a query is dropped.
unfoldable pub ignore : {A : Type 0} → Query CoreError A → Query CoreError (Unit {0})
ignore q s = let (outcome, s') = q s in pure tt s'

-- Whether an instant is over.
unfoldable pub expired : ℕ → Option ℕ → Bool
expired now none = false
expired now (some t) = ltb t now

unfoldable pub validate_api_key :
    Crypto → ℕ → String → String → Query CoreError (Option (Option ℕ × ApiKeyRole))
validate_api_key c now key_id key_secret = do
  found ← get_api_key_by_id key_id
  elim found [
    | none ↦ pure none
    | some key ↦
        if not key.enabled || expired now key.expires_at
        then pure none
        else if verify_key c key_id key_secret key.key_secret_hash
        then (do ignore (update_last_used now key.id); pure (some (key.workspace_id, key.role)))
        else pure none
  ]

-- A key without a workspace has none that equals the one asked for.
unfoldable pub of_workspace : ℕ → ApiKey → Bool
of_workspace workspace_id key = elim key.workspace_id [ none ↦ false | some w ↦ w == workspace_id ]

unfoldable pub list_api_keys : ℕ → Option ℕ → Option ℕ → Query CoreError (List ApiKey)
list_api_keys workspace_id limit offset = do
  rows ← find_all api_key_table (of_workspace workspace_id)
  pure (page limit offset rows)

unfoldable pub delete_api_key : ℕ → Query CoreError (Unit {0})
delete_api_key id = do
  affected ← delete_by_id api_key_table id
  ensure (not_found "API key not found") affected

unfoldable pub revoke_api_key : ℕ → Query CoreError (Unit {0})
revoke_api_key id = do
  found ← find_by_id api_key_table id
  key ← ok_or (not_found "API key not found") found
  updated ← update api_key_table (record key { enabled = false })
  pure tt

unfoldable pub is_admin : ApiKeyRole → Bool
is_admin admin = true
is_admin user = false
is_admin anonymous = false

-- The workspace is not read.
unfoldable pub get_admin_api_key : ℕ → Query CoreError (Option ApiKey)
get_admin_api_key workspace_id = do
  found ← find_one api_key_table (λ k. is_admin k.role && string_eq.same k.key_prefix "niad_")
  elim found [ none ↦ pure none | some key ↦ pure (if key.enabled then some key else none) ]

unfoldable pub count_api_keys : ℕ → Query CoreError ℕ
count_api_keys workspace_id = do
  rows ← find_all api_key_table (of_workspace workspace_id)
  pure (length rows)

unfoldable pub get_keys_older_than : ℕ → ℕ → Query CoreError (List ApiKey)
get_keys_older_than now age_threshold_days =
    find_all api_key_table
      (λ k. ltb k.created_at (now - age_threshold_days * 24 * 60 * 60) && k.enabled)
