-- ===== src/Http/KeysKept.antt =====
-- The properties of the tables that the queries of Http/Keys keep.
use Prim.Native.String.{String}
use nebula_id.Prelude.{ℕ, arith, Bool-cases, inl, inr, List, [], ◌∷◌, Option, none, some}
use nebula_id.Catalog.{ApiKey, Workspace, Tables, ApiKeyRole, admin, user, anonymous}
use nebula_id.Catalog.Triple.{Keeps}
use nebula_id.Catalog.Keeps.{keep, keep_bind, keep_insert, keep_delete_by_id}
use nebula_id.Catalog.Entities.{workspace_table, api_key_table}
use nebula_id.Catalog.Workspaces
use nebula_id.Catalog.Credentials.{full_key_id_keeps, secret_or_new_keeps}
use nebula_id.Catalog.ApiKeys
use nebula_id.Catalog.ApiKeys.{
  full_key_id, secret_or_new, hash_key, generate_secret, is_admin, Crypto,
}
use nebula_id.Catalog.Workspaces.{CreateWorkspaceRequest}
use nebula_id.Http.Service
use nebula_id.Http.Kept.{get_workspace_keeps}
use nebula_id.Http.Rules.{map_db_error_lem}
use nebula_id.Http.Keys
use nebula_id.Http.Keys.{
  CreateApiKeyRequest, requested_role, parse_expiry, check_existing, check_last_admin,
  delete_user_keys, is_user, new_user_key, page_of_keys,
}
use nebula_id.Http.{Server}

module _ {P : Tables → Type 0} where
  pub requested_role_keeps : (r : Option String) → Keeps P (requested_role r)
  unfolding requested_role
  requested_role_keeps none = search keep
  requested_role_keeps (some r) = record { runs = λ s p. ground arith }

  pub parse_expiry_keeps : (t : Option (Option ℕ)) → Keeps P (parse_expiry t)
  unfolding parse_expiry
  parse_expiry_keeps none = search keep
  parse_expiry_keeps (some none) = search keep
  parse_expiry_keeps (some (some t)) = search keep

  pub hash_key_keeps : (c : Crypto) (key_id secret : String) → Keeps P (hash_key c key_id secret)
  unfolding hash_key
  hash_key_keeps c key_id secret = search keep

  module _ (server : Server) where
    list_keys_keeps :
        (w : ℕ) (limit offset : Option ℕ) → Keeps P (ApiKeys.list_api_keys w limit offset)
    unfolding ApiKeys.list_api_keys
    list_keys_keeps w limit offset = search keep

    pub page_of_keys_keeps : (w : ℕ) → Keeps P (page_of_keys server w)
    page_of_keys_keeps w = map_db_error_lem server (list_keys_keeps w (some 1000) (some 0))

    check_existing_keeps : (r : ApiKeyRole) (w : Option ℕ) → Keeps P (check_existing server r w)
    unfolding check_existing
    check_existing_keeps admin w = search (keep, page_of_keys_keeps)
    check_existing_keeps user w = search (keep, page_of_keys_keeps)
    check_existing_keeps anonymous w = search keep

    check_last_admin_keeps : (k : Option ApiKey) → Keeps P (check_last_admin server k)
    unfolding check_last_admin
    check_last_admin_keeps none = search keep
    check_last_admin_keeps (some k) = elim (Bool-cases (is_admin k.role)) [
      | inl held ↦ rw (held, check_last_admin) (search (keep, page_of_keys_keeps))
      | inr missing ↦ rw (missing, check_last_admin) (search keep)
    ]

    pub list_api_keys_keeps :
        (w : ℕ) (limit offset : Option ℕ) → Keeps P (Keys.list_api_keys server w limit offset)
    unfolding Keys.list_api_keys ApiKeys.list_api_keys ApiKeys.count_api_keys
    list_api_keys_keeps w limit offset = search (keep, map_db_error_lem server) depth 12

    module _
        (blind : (rows : List ApiKey) (t : Tables) → P t → P (record t { api_keys = rows })) where
      insert_key_keeps :
          (c : Crypto) (now : ℕ) (req : ApiKeys.CreateApiKeyRequest)
          → Keeps P (ApiKeys.create_api_key c now req)
      unfolding ApiKeys.create_api_key
      insert_key_keeps c now req =
          search
            (
              keep,
              full_key_id_keeps,
              secret_or_new_keeps,
              hash_key_keeps,
              keep_insert api_key_table blind,
            )
            depth 24

      delete_key_keeps : (id : ℕ) → Keeps P (ApiKeys.delete_api_key id)
      unfolding ApiKeys.delete_api_key
      delete_key_keeps id =
          search (keep, keep_delete_by_id api_key_table blind (λ i t p. p)) depth 12

      delete_user_keys_keeps : (keys : List ApiKey) → Keeps P (delete_user_keys server keys)
      unfolding delete_user_keys
      delete_user_keys_keeps [] = search keep
      delete_user_keys_keeps (k ∷ ks) = elim (Bool-cases (is_user k.role)) [
        | inl held ↦
            rw (held, delete_user_keys)
              (keep_bind (map_db_error_lem server (delete_key_keeps k.id))
                (λ u. delete_user_keys_keeps ks))
        | inr missing ↦ rw (missing, delete_user_keys) (delete_user_keys_keeps ks)
      ]

      new_user_key_keeps : (w : Workspace) → Keeps P (new_user_key server w)
      unfolding new_user_key
      new_user_key_keeps w = map_db_error_lem server (insert_key_keeps _ _ _)

      pub create_api_key_keeps :
          (w : Option ℕ) (req : CreateApiKeyRequest) → Keeps P (Keys.create_api_key server w req)
      unfolding Keys.create_api_key
      create_api_key_keeps w req =
          search
            (
              keep,
              requested_role_keeps,
              check_existing_keeps,
              parse_expiry_keeps,
              map_db_error_lem server,
              insert_key_keeps,
            )
            depth 16

      pub revoke_api_key_keeps : (id : ℕ) → Keeps P (Keys.revoke_api_key server id)
      unfolding Keys.revoke_api_key ApiKeys.get_api_key_by_id
      revoke_api_key_keeps id =
          search (keep, map_db_error_lem server, check_last_admin_keeps, delete_key_keeps) depth 16

      pub regenerate_user_api_key_keeps :
          (name : String) → Keeps P (Keys.regenerate_user_api_key server name)
      unfolding Keys.regenerate_user_api_key
      regenerate_user_api_key_keeps name =
          search
            (
              keep,
              map_db_error_lem server,
              get_workspace_keeps,
              page_of_keys_keeps,
              delete_user_keys_keeps,
              new_user_key_keeps,
            )
            depth 16

      pub create_workspace_keeps :
          ((rows : List Workspace) (t : Tables) → P t → P (record t { workspaces = rows }))
          → (req : CreateWorkspaceRequest) → Keeps P (Keys.create_workspace server req)
      unfolding Keys.create_workspace Service.create_workspace Workspaces.create_workspace
      create_workspace_keeps blind' req =
          search
            (keep, map_db_error_lem server, keep_insert workspace_table blind', new_user_key_keeps)
            depth 16
