-- ===== src/Catalog/Credentials.antt =====
-- A key that was made, and the check of its secret.
use Prim.Native.String.{String}
use nebula_id.Prelude.{
  ℕ, ◌+◌, ◌≤◌, le→ltb, ◌≡◌, refl, arith, true, false, List, [], ◌∷◌, ◌++◌, Option, none, some,
}
use nebula_id.Prelude.Assoc.{string_eq}
use nebula_id.Catalog.{ApiKey, Tables, Store, returned, pure, ◌>>=◌, new_v4, draw, unwrap_or, call}
use nebula_id.Catalog.Table.{first, any, find_one, insert}
use nebula_id.Catalog.Entities.{api_key_table}
use nebula_id.Catalog.Triple.{
  answered_with, Triple, Keeps, Post, bind, pass, pure_lem, insert_lem, new_v4_lem,
}
use nebula_id.Catalog.Keeps.{keep, keep_ensure, keep_ok_or}
use nebula_id.Catalog.ApiKeys.{
  Crypto, CreateApiKeyRequest, new_key, thirty_days, hash_key, verify_key, password, full_key_id,
  secret_or_new, create_api_key, get_api_key_by_id, validate_api_key, ignore, expired,
  generate_secret,
}

-- What Argon2 promises: a password is accepted with the hash that was made from it.
abbrev pub Verifies : Crypto → Type 0
Verifies c =
    (n : ℕ) (password hash : String)
    → c.hash_password n password ≡ some hash
    → c.verify_password password hash ≡ true

module _ {P : Tables → Type 0} (c : Crypto) where
  pub full_key_id_keeps : (prefix : String) (o : Option String) → Keeps P (full_key_id c prefix o)
  unfolding full_key_id
  full_key_id_keeps prefix none = search keep
  full_key_id_keeps prefix (some kid) = search keep

  pub secret_or_new_keeps : (o : Option String) → Keeps P (secret_or_new c o)
  unfolding secret_or_new generate_secret
  secret_or_new_keeps none = search keep
  secret_or_new_keeps (some secret) = search keep

module _ (c : Crypto) (now : ℕ) (request : CreateApiKeyRequest) where
  -- The key is the one with its id, and its secret fits the hash.
  record Usable (made : ApiKey × String) (t : Tables) : Type 0 where
    found : first (λ k. string_eq.same k.key_id made.0.key_id) t.api_keys ≡ some made.0
    enabled : made.0.enabled ≡ true
    expires_at : made.0.expires_at ≡ some (unwrap_or (now + thirty_days) request.expires_at)
    workspace_id : made.0.workspace_id ≡ request.workspace_id
    role : made.0.role ≡ request.role
    verified : verify_key c made.0.key_id made.1 made.0.key_secret_hash ≡ true

  abbrev Anything : Tables → Type 0
  Anything t = Unit

  first_new :
      (k : ApiKey) (ks : List ApiKey)
      → any (λ j. string_eq.same j.key_id k.key_id) ks ≡ false
      → first (λ j. string_eq.same j.key_id k.key_id) (ks ++ k ∷ []) ≡ some k
  unfolding first
  first_new k [] h = rw ((string_eq.same_iff k.key_id k.key_id).1 refl) refl
  first_new k (j ∷ ks) h = ground (arith, first_new k ks)

  stored :
      (prefix key_id secret hash : String)
      → verify_key c key_id secret hash ≡ true
      → (id : ℕ)
      → Triple Anything
          (insert api_key_table (new_key now request prefix key_id hash id) >>= λ key.
            pure (key, secret))
          Usable
          Anything
  stored prefix key_id secret hash verified id =
      bind {Q = λ key t. Usable (key, secret) t} (insert api_key_table k)
        (λ key. pure (key, secret))
        (insert_lem api_key_table k (λ t h unused ok. record {
          found = first_new k t.api_keys (ground arith);
          enabled = refl;
          expires_at = refl;
          workspace_id = refl;
          role = refl;
          verified = verified;
        }))
        (λ key. pure_lem (key, secret) (λ t h. h))
    where
      k : ApiKey
      k = new_key now request prefix key_id hash id

  hash_key_lem :
      Verifies c
      → (key_id secret : String)
      → Triple Anything
          (hash_key c key_id secret)
          (λ hash t. verify_key c key_id secret hash ≡ true)
          Anything
  unfolding hash_key draw verify_key
  hash_key_lem verifies key_id secret = record {
    runs = λ s u. made s (c.hash_password s.drawn (password c key_id secret)) refl;
  }
    where
      made :
          (s : Store) (o : Option String)
          → c.hash_password s.drawn (password c key_id secret) ≡ o
          → Post
              (λ hash t. verify_key c key_id secret hash ≡ true)
              Anything
              (hash_key c key_id secret s)
      made s none e = rw (e, hash_key) tt
      made s (some hash) e = rw (e, hash_key) (verifies s.drawn (password c key_id secret) hash e)

  hashed :
      Verifies c
      → (prefix key_id secret : String)
      → Triple Anything
          (hash_key c key_id secret >>= λ hash. new_v4 >>= λ id.
            insert api_key_table (new_key now request prefix key_id hash id) >>= λ key.
            pure (key, secret))
          Usable
          Anything
  hashed verifies prefix key_id secret =
      bind (hash_key c key_id secret)
        (λ hash. new_v4 >>= λ id.
          insert api_key_table (new_key now request prefix key_id hash id) >>= λ key.
          pure (key, secret))
        (hash_key_lem verifies key_id secret)
        (λ hash. record {
          runs = λ s fits.
              (bind new_v4
                  (λ id. insert api_key_table (new_key now request prefix key_id hash id) >>= λ key.
                    pure (key, secret))
                  (new_v4_lem {P = Anything}) (stored prefix key_id secret hash fits)).runs
                s tt;
        })

  create_api_key-Usable :
      Verifies c → Triple Anything (create_api_key c now request) Usable Anything
  unfolding create_api_key
  create_api_key-Usable verifies =
      search
        (
          pass,
          keep_ensure,
          keep_ok_or,
          full_key_id_keeps,
          secret_or_new_keeps,
          hashed verifies,
          anything,
        )
        depth 20
    where
      anything : (t : Tables) → Anything t → Anything t
      anything t u = u

-- With a hash that accepts what it was made from, a key that was just made is accepted with its secret
-- up to its time where the database answers, and stands for the workspace and the role that it was made
-- for.
pub create_api_key-validate_api_key :
    (c : Crypto) (now later : ℕ) (request : CreateApiKeyRequest) (s : Store)
    (made : ApiKey × String)
    → Verifies c
    → (create_api_key c now request s).0 ≡ returned made
    → later ≤ unwrap_or (now + thirty_days) request.expires_at
    → (create_api_key c now request s).1.faults (create_api_key c now request s).1.calls ≡ none
    → (validate_api_key c later made.0.key_id made.1 (create_api_key c now request s).1).0
      ≡ returned (some (request.workspace_id, request.role))
unfolding validate_api_key get_api_key_by_id find_one call ignore expired
create_api_key-validate_api_key c now later request s made verifies e early served =
    accepted (create_api_key c now request s).1
      (answered_with (Usable c now request) (λ t. Unit) (create_api_key c now request s)
        ((create_api_key-Usable c now request verifies).runs s tt) e)
      served
  where
    accepted :
        (s' : Store)
        → Usable c now request made s'.tables
        → s'.faults s'.calls ≡ none
        → (validate_api_key c later made.0.key_id made.1 s').0
          ≡ returned (some (request.workspace_id, request.role))
    accepted s' u served =
        rw (served, call, validate_api_key, get_api_key_by_id, find_one)
          (rw u.found (
            rw (u.enabled, u.expires_at, le→ltb _ _ early)
              (rw (u.verified, u.workspace_id, u.role) refl)))
