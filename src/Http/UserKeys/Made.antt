-- ===== src/Http/UserKeys/Made.antt =====
-- The key that the handler makes for a workspace, and that it is the only one there.
use Prim.Native.String.{String}
use nebula_id.Prelude.{ℕ, ==_self, ◌≡◌, refl, arith, Bool, true, ◌&&◌, [], ◌∷◌, Option, none, some}
use nebula_id.Types.{CoreError}
use nebula_id.Catalog.{
  ApiKey, ApiKeyRole, admin, user, anonymous, Store, Tables, returned, Query, pure, ◌>>=◌,
}
use nebula_id.Catalog.Table.{insert}
use nebula_id.Catalog.Entities.{api_key_table, check_admin_key}
use nebula_id.Catalog.Triple.{
  answered_with, Triple, bind, pass, failing, pure_lem, insert_lem, new_v4_lem,
}
use nebula_id.Catalog.Keeps.{keep_ensure, keep_ok_or}
use nebula_id.Catalog.ApiKeys
use nebula_id.Catalog.ApiKeys.{Crypto, of_workspace, new_key, is_admin}
use nebula_id.Catalog.Credentials.{full_key_id_keeps, secret_or_new_keeps}
use nebula_id.Http.{Server, map_db_error}
use nebula_id.Http.Rules.{map_db_error_lem}
use nebula_id.Http.Keys
use nebula_id.Http.Keys.{
  CreateApiKeyRequest, is_user, requested_role, parse_expiry, check_existing, page_of_keys,
}
use nebula_id.Http.KeysKept.{requested_role_keeps, parse_expiry_keeps, hash_key_keeps}
use nebula_id.Http.UserKeys.{
  keys_of, Bound, Clear, bound, check_existing_lem, rows_where-append_own,
}

module _ (server : Server) (w : ℕ) where
  -- The workspace has this key, and no other.
  abbrev Only : ApiKey × String → Tables → Type 0
  Only made t = keys_of w t ≡ made.0 ∷ []

  module _ (now : ℕ) (req : ApiKeys.CreateApiKeyRequest) (of_w : req.workspace_id ≡ some w) where
    stored_user :
        req.role ≡ user
        → (prefix key_id hash secret : String) (id : ℕ)
        → Triple
            (Clear server w user)
            (insert api_key_table (new_key now req prefix key_id hash id) >>= λ key.
              pure (key, secret))
            Only
            Bound
    unfolding keys_of of_workspace
    stored_user r prefix key_id hash secret id =
        bind {Q = λ k t. Only (k, secret) t}
          (insert api_key_table (new_key now req prefix key_id hash id)) (λ key. pure (key, secret))
          (failing
            (insert_lem api_key_table (new_key now req prefix key_id hash id) (λ t h unused ok.
              rw
                (rows_where-append_own (of_workspace w) t.api_keys
                  (new_key now req prefix key_id hash id) (rw of_w (==_self w)))
                (rw h.1 refl)))
            (bound server w user))
          (λ key. pure_lem (key, secret) (λ t h. h))

    stored_admin :
        req.role ≡ admin
        → (prefix key_id hash secret : String) (id : ℕ)
        → Triple
            (Clear server w admin)
            (insert api_key_table (new_key now req prefix key_id hash id) >>= λ key.
              pure (key, secret))
            Only
            Bound
    stored_admin r prefix key_id hash secret id =
        bind {Q = λ k t. Only (k, secret) t}
          (insert api_key_table (new_key now req prefix key_id hash id)) (λ key. pure (key, secret))
          (insert_lem api_key_table (new_key now req prefix key_id hash id)
            (λ t h unused ok. absurd (refused req.role req.workspace_id _ r of_w ok)))
          (λ key. pure_lem (key, secret) (λ t h. h))
      where
        refused :
            (role : ApiKeyRole) (o : Option ℕ) (b : Bool)
            → role ≡ admin
            → o ≡ some w
            → (check_admin_key role o && b) ≡ true
            → ⊥
        refused admin (some v) b r e h = cc
        refused admin none b r e h = cc
        refused user o b r e h = cc
        refused anonymous o b r e h = cc

    made_lem :
        (r : ApiKeyRole)
        → req.role ≡ r
        → Triple (Clear server w r) (ApiKeys.create_api_key server.crypto now req) Only Bound
    unfolding ApiKeys.create_api_key
    made_lem user r =
        search
          (
            pass,
            keep_ensure,
            keep_ok_or,
            full_key_id_keeps,
            secret_or_new_keeps,
            hash_key_keeps,
            new_v4_lem,
            stored_user r,
            bound server w user,
          )
          depth 20
    made_lem admin r =
        search
          (
            pass,
            keep_ensure,
            keep_ok_or,
            full_key_id_keeps,
            secret_or_new_keeps,
            hash_key_keeps,
            new_v4_lem,
            stored_admin r,
            bound server w admin,
          )
          depth 20
    made_lem anonymous r = rw (r, ApiKeys.create_api_key) (record { runs = λ s h. ground arith })

  made_of : CreateApiKeyRequest → ApiKeyRole → Option ℕ → Query CoreError (ApiKey × String)
  made_of req role expires_at = map_db_error server (
      ApiKeys.create_api_key server.crypto server.now (record {
        workspace_id = some w;
        name = req.name;
        description = req.description;
        role = role;
        rate_limit = req.rate_limit;
        expires_at = expires_at;
        key_secret = none;
        key_id = none;
      }))

  checked :
      (req : CreateApiKeyRequest) (role : ApiKeyRole)
      → Triple Bound
          (check_existing server role (some w) >>= λ u.
            parse_expiry req.expires_at >>= λ expires_at. made_of req role expires_at)
          Only
          Bound
  unfolding made_of
  checked req role =
      bind (check_existing server role (some w))
        (λ u. parse_expiry req.expires_at >>= λ expires_at. made_of req role expires_at)
        (check_existing_lem server w role)
        (λ u.
          bind (parse_expiry req.expires_at) (λ expires_at. made_of req role expires_at)
            (failing (parse_expiry_keeps req.expires_at) (bound server w role))
            (λ expires_at. map_db_error_lem server (made_lem server.now _ refl role refl)))

  create_api_key-Only :
      (req : CreateApiKeyRequest)
      → Triple Bound (Keys.create_api_key server (some w) req) Only Bound
  unfolding Keys.create_api_key made_of
  create_api_key-Only req =
      search (pass, keep_ensure, requested_role_keeps, checked req, same) depth 12
    where
      same : (t : Tables) → Bound t → Bound t
      same t h = h

-- Where the keys keep the constraint of their table, a key that the handler makes for a workspace is
-- then the only key of the workspace.
pub create_api_key-keys_of :
    (server : Server) (w : ℕ) (req : CreateApiKeyRequest) (s : Store) (made : ApiKey × String)
    → Bound s.tables
    → (Keys.create_api_key server (some w) req s).0 ≡ returned made
    → keys_of w (Keys.create_api_key server (some w) req s).1.tables ≡ made.0 ∷ []
create_api_key-keys_of server w req s made bounded e =
    answered_with (Only server w) Bound (Keys.create_api_key server (some w) req s)
      ((create_api_key-Only server w req).runs s bounded) e
