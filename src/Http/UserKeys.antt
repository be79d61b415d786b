-- ===== src/Http/UserKeys.antt =====
-- One key for the users of a workspace.
pub mod Made
use Prim.Native.String.{String}
use nebula_id.Prelude.{
  ℕ, ◌==◌, ==_self, ◌≡◌, refl, ap, arith, Bool, true, false, not, ◌&&◌, List, [], ◌∷◌, ◌++◌, All,
  Option, none, some, Bool-cases, inl, inr,
}
use nebula_id.Types.{CoreError, authentication_error}
use nebula_id.Catalog.{
  ApiKey, ApiKeyRole, admin, user, anonymous, Store, Tables, returned, Query, ensure, pure, ◌>>=◌,
}
use nebula_id.Catalog.Table.{rows_where, any, take, drop, find_all, insert}
use nebula_id.Catalog.Entities.{api_key_table, check_admin_key}
use nebula_id.Catalog.Triple.{
  answered_with, Triple, bind, pass, failing, conclude, pure_lem, ensure_lem, find_all_lem,
  insert_lem, new_v4_lem,
}
use nebula_id.Catalog.Keeps.{keep_ensure, keep_ok_or, keep_bind, keep_pure}
use nebula_id.Catalog.ApiKeys
use nebula_id.Catalog.ApiKeys.{Crypto, of_workspace, new_key, is_admin}
use nebula_id.Catalog.Credentials.{full_key_id_keeps, secret_or_new_keeps}
use nebula_id.Http.{Server, map_db_error}
use nebula_id.Http.Rules.{map_db_error_lem}
use nebula_id.Http.AdminKeys.{IsBound}
use nebula_id.Http.Keys
use nebula_id.Http.Keys.{
  CreateApiKeyRequest, is_user, requested_role, parse_expiry, check_existing, page_of_keys,
}
use nebula_id.Http.KeysKept.{
  requested_role_keeps, parse_expiry_keeps, hash_key_keeps, page_of_keys_keeps,
}

unfoldable pub keys_of : ℕ → Tables → List ApiKey
keys_of w t = rows_where (of_workspace w) t.api_keys

unfoldable pub Bound : Tables → Type 0
Bound t = All (λ k. IsBound k.role k.workspace_id) t.api_keys

user_there :
    (role : ApiKeyRole) (o : Option ℕ) (w : ℕ)
    → IsBound role o
    → (elim o [ none ↦ false | some v ↦ v == w ]) ≡ true
    → is_user role ≡ true
user_there user o w h e = refl
user_there admin none w h e = cc
user_there admin (some v) w h e = elim h [ ]
user_there anonymous o w h e = elim h [ ]

users_only :
    (w : ℕ) (ks : List ApiKey)
    → All (λ k. IsBound k.role k.workspace_id) ks
    → All (λ k. is_user k.role ≡ true) (rows_where (of_workspace w) ks)
unfolding rows_where of_workspace
users_only w [] h = tt
users_only w (k ∷ ks) h = elim (Bool-cases (of_workspace w k)) [
  | inl own ↦ rw (own, rows_where) (user_there k.role k.workspace_id w h.0 own, users_only w ks h.1)
  | inr other ↦ rw (other, rows_where) (users_only w ks h.1)
]

-- Where the first page has no key of a user, there is no key.
none_there :
    (ks : List ApiKey)
    → All (λ k. is_user k.role ≡ true) ks
    → not (any (λ k. is_user k.role) (take 1000 (drop 0 ks))) ≡ true
    → ks ≡ []
unfolding take drop
none_there [] h e = refl
none_there (k ∷ ks) h e = ground arith

pub rows_where-append_own :
    (p : ApiKey → Bool) (ks : List ApiKey) (k : ApiKey)
    → p k ≡ true
    → rows_where p (ks ++ k ∷ []) ≡ rows_where p ks ++ k ∷ []
unfolding rows_where
rows_where-append_own p [] k h = rw h refl
rows_where-append_own p (j ∷ ks) k h = ground (arith, rows_where-append_own p ks k)

module _ (server : Server) (w : ℕ) where
  -- Where the key of a user is asked for, the workspace has none.
  abbrev pub Clear : ApiKeyRole → Tables → Type 0
  Clear user t = Bound t × (keys_of w t ≡ [])
  Clear admin t = Bound t
  Clear anonymous t = Bound t

  pub page_lem :
      Triple Bound
        (page_of_keys server w)
        (λ ks t. Bound t × (ks ≡ take 1000 (drop 0 (keys_of w t))))
        Bound
  unfolding ApiKeys.list_api_keys keys_of
  page_lem = map_db_error_lem server (
      bind (find_all api_key_table (of_workspace w)) (λ rows. pure (take 1000 (drop 0 rows)))
        (find_all_lem api_key_table (of_workspace w))
        (λ rows.
          failing
            (pure_lem (take 1000 (drop 0 rows)) (λ t h. (h.0, ap (λ r. take 1000 (drop 0 r)) h.1)))
            (λ t h. h)))

  pub check_existing_lem :
      (r : ApiKeyRole) → Triple Bound (check_existing server r (some w)) (λ u. Clear r) Bound
  unfolding check_existing Bound keys_of
  check_existing_lem user =
      bind (page_of_keys server w)
        (λ ks.
          ensure (authentication_error "user key already exists")
            (not (any (λ k. is_user k.role) ks)))
        page_lem
        (λ ks.
          failing
            (conclude
              (ensure_lem (authentication_error "user key already exists")
                (not (any (λ k. is_user k.role) ks)))
              (λ u t h. (
                h.0.0,
                none_there (keys_of w t) (users_only w t.api_keys h.0.0) (clear t ks h.0.1 h.1),
              )))
            (λ t h. h.0))
    where
      clear :
          (t : Tables) (ks : List ApiKey)
          → ks ≡ take 1000 (drop 0 (keys_of w t))
          → not (any (λ k. is_user k.role) ks) ≡ true
          → not (any (λ k. is_user k.role) (take 1000 (drop 0 (keys_of w t)))) ≡ true
      clear t ks e h = rw (← e) h
  check_existing_lem admin =
      keep_bind (page_of_keys_keeps server 0)
        (λ ks. keep_ensure _ (not (any (λ k. is_admin k.role) ks)))
  check_existing_lem anonymous = keep_pure tt

  pub bound : (r : ApiKeyRole) (t : Tables) → Clear r t → Bound t
  bound user t h = h.0
  bound admin t h = h
  bound anonymous t h = h
