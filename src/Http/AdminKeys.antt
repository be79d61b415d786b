-- ===== src/Http/AdminKeys.antt =====
-- What the guards on administrators' keys of src/server/handlers/api_key_handlers.rs come to.
use Prim.Native.String.{String}
use text.Mathlib.Text.{starts_with}
use nebula_id.Prelude.{
  ℕ, zero, suc, ◌+◌, ◌==◌, ◌≡◌, refl, subst, arith, Bool, true, false, not, List, [], ◌∷◌, All,
  Option, none, some, Bool-cases, inl, inr,
}
use nebula_id.Prelude.Assoc.{string_eq}
use nebula_id.Catalog.{ApiKey, ApiKeyRole, admin, user, anonymous, Store, returned, call}
use nebula_id.Catalog.Table.{rows_where, first, any, take, drop, find_one, find_all, delete_by_id}
use nebula_id.Catalog.ApiKeys
use nebula_id.Catalog.ApiKeys.{of_workspace, is_admin, get_api_key_by_id, delete_api_key}
use nebula_id.Http.{Server}
use nebula_id.Http.Keys
use nebula_id.Http.Keys.{check_existing, check_last_admin}

-- `check_admin_key`: the keys of administrators have no workspace, and those of users have one.
abbrev pub IsBound : ApiKeyRole → Option ℕ → Type 0
IsBound admin none = Unit
IsBound user (some w) = Unit
IsBound role w = ⊥

no_admin_there :
    (role : ApiKeyRole) (o : Option ℕ) (w : ℕ)
    → IsBound role o
    → (elim o [ none ↦ false | some v ↦ v == w ]) ≡ true
    → is_admin role ≡ false
unfolding is_admin
no_admin_there admin none w h e = cc
no_admin_there admin (some v) w h e = elim h [ ]
no_admin_there user o w h e = refl
no_admin_there anonymous o w h e = refl

any-rows_where :
    (w : ℕ) (ks : List ApiKey)
    → All (λ k. IsBound k.role k.workspace_id) ks
    → any (λ k. is_admin k.role) (rows_where (of_workspace w) ks) ≡ false
unfolding rows_where of_workspace
any-rows_where w [] h = refl
any-rows_where w (k ∷ ks) h = elim (Bool-cases (of_workspace w k)) [
  | inl own ↦
      rw (own, rows_where)
        (rw (no_admin_there k.role k.workspace_id w h.0 own) (any-rows_where w ks h.1))
  | inr other ↦ rw (other, rows_where) (any-rows_where w ks h.1)
]

any-take :
    (p : ApiKey → Bool) (n : ℕ) (ks : List ApiKey) → any p ks ≡ false → any p (take n ks) ≡ false
unfolding take
any-take p zero ks h = refl
any-take p (suc n) [] h = refl
any-take p (suc n) (k ∷ ks) h = ground (arith, any-take p n ks)

-- Where the keys keep the constraint of their table and the database answers, the guard on a second
-- administrator's key does not refuse, whatever keys there are.
pub check_existing-admin :
    (server : Server) (s : Store)
    → All (λ k. IsBound k.role k.workspace_id) s.tables.api_keys
    → s.faults s.calls ≡ none
    → check_existing server admin none s ≡ (returned tt, record s { calls = s.calls + 1 })
unfolding check_existing ApiKeys.list_api_keys find_all call drop
check_existing-admin server s bound served =
    rw (served, check_existing, ApiKeys.list_api_keys, find_all, call, Keys.page_of_keys)
      (rw
        (any-take (λ k. is_admin k.role) 1000 (rows_where (of_workspace 0) s.tables.api_keys)
          (any-rows_where 0 s.tables.api_keys bound))
        refl)

first_unnamed :
    (text : String) (ks : List ApiKey)
    → All (λ k. starts_with k.key_id "n" ≡ true) ks
    → starts_with text "n" ≡ false
    → first (λ k. string_eq.same k.key_id text) ks ≡ none
unfolding first
first_unnamed text [] h e = refl
first_unnamed text (k ∷ ks) h e = elim (Bool-cases (string_eq.same k.key_id text)) [
  | inl same ↦ absurd (
      clash (subst (λ t. starts_with t "n" ≡ true) ((string_eq.same_iff k.key_id text).0 same) h.0))
  | inr other ↦ rw (other, first) (first_unnamed text ks h.1 e)
]
  where
    clash : starts_with text "n" ≡ true → ⊥
    clash h' = cc

-- Where the ids of keys start with the n of their prefixes and the text of the uuid does not, and the
-- repository is there and answers, a key that is there is revoked whatever its role, the last one of
-- an administrator too.
pub revoke_api_key-removes :
    (server : Server) (id : ℕ) (s : Store)
    → server.api_key_repo ≡ true
    → All (λ k. starts_with k.key_id "n" ≡ true) s.tables.api_keys
    → starts_with (server.crypto.uuid_text id) "n" ≡ false
    → any (λ k. k.id == id) s.tables.api_keys ≡ true
    → s.faults s.calls ≡ none
    → s.faults (s.calls + 1) ≡ none
    → ((Keys.revoke_api_key server id s).0 ≡ returned tt)
      × ((Keys.revoke_api_key server id s).1.tables.api_keys
          ≡ rows_where (λ k. not (k.id == id)) s.tables.api_keys)
unfolding Keys.revoke_api_key get_api_key_by_id find_one call check_last_admin delete_api_key
    delete_by_id
revoke_api_key-removes server id s repo prefixed hex there served served' =
    rw
      (
        repo,
        served,
        first_unnamed (server.crypto.uuid_text id) s.tables.api_keys prefixed hex,
        served',
        there,
      )
      (refl, refl)
