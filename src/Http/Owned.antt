-- ===== src/Http/Owned.antt =====
-- What the checks of a user's key in Http/Handlers have established when they let a request go on.
use Prim.Native.String.{String}
use nebula_id.Prelude.{ℕ, ◌==◌, ==_iff, ◌≡◌, sym, ◌∙◌, some}
use nebula_id.Prelude.Assoc.{string_eq}
use nebula_id.Types.{not_found}
use nebula_id.Catalog.{Workspace, BizTag, user, Tables, pure, ok_or, ensure, ◌>>=◌}
use nebula_id.Catalog.Table.{first, find_one}
use nebula_id.Catalog.Triple.{
  Triple, bind, failing, conclude, pass, ok_or_lem, ensure_lem, find_one_lem,
}
use nebula_id.Catalog.Keeps.{keep_ensure}
use nebula_id.Catalog.Entities.{workspace_table, biz_tag_table}
use nebula_id.Catalog.Workspaces
use nebula_id.Catalog.BizTags
use nebula_id.Http.{Server, workspace_mismatch, workspace_not_found, from_core}
use nebula_id.Http.Rules.{from_core_lem}
use nebula_id.Http.Service
use nebula_id.Http.Handlers.{
  verify_user_role, verify_workspace_id_match, verify_user_workspace, own_biz_tag,
}

-- The workspace with that name is this one.
abbrev pub Named : String → ℕ → Tables → Type 0
Named name w t =
    (ws : Workspace) × (first (λ x. string_eq.same x.name name) t.workspaces ≡ some ws)
    × (ws.id ≡ w)

-- The tag with that number is this one, and of the workspace.
abbrev pub Owned : ℕ → ℕ → BizTag → Tables → Type 0
Owned id w b t = (first (λ c. c.id == id) t.biz_tags ≡ some b) × (b.workspace_id ≡ w)

same : (P : Tables → Type 0) (t : Tables) → P t → P t
same P t h = h

module _ {P : Tables → Type 0} (server : Server) where
  get_workspace_found :
      (name : String)
      → Triple P
          (Service.get_workspace server name)
          (λ o t. P t × (o ≡ first (λ x. string_eq.same x.name name) t.workspaces))
          P
  unfolding Service.get_workspace Workspaces.get_workspace_by_name
  get_workspace_found name =
      search (pass, keep_ensure, same P, find_one_lem workspace_table) depth 8

  pub verify_user_workspace-Named :
      (name : String) (w : ℕ)
      → Triple P (verify_user_workspace server name (some w)) (λ u t. P t × Named name w t) P
  unfolding verify_user_workspace verify_workspace_id_match
  verify_user_workspace-Named name w =
      bind (from_core (Service.get_workspace server name)) _
        (from_core_lem (get_workspace_found name))
        (λ o.
          bind (ok_or workspace_not_found o) (λ ws. ensure workspace_mismatch (ws.id == w))
            (failing (ok_or_lem workspace_not_found o) (λ t h. h.0))
            (λ ws.
              failing
                (conclude (ensure_lem workspace_mismatch (ws.id == w))
                  (λ u t h. (h.0.0.0, (ws, sym h.0.0.1 ∙ h.0.1, (==_iff ws.id w).0 h.1))))
                (λ t h. h.0.0)))

  get_biz_tag_found :
      (id : ℕ)
      → Triple P
          (Service.get_biz_tag server id)
          (λ b t. P t × (first (λ c. c.id == id) t.biz_tags ≡ some b))
          P
  unfolding Service.get_biz_tag BizTags.get_biz_tag
  get_biz_tag_found id = search (pass, keep_ensure, same P, fetched) depth 8
    where
      fetched :
          Triple P
            (find_one biz_tag_table (λ c. c.id == id) >>= ok_or (not_found "BizTag not found"))
            (λ b t. P t × (first (λ c. c.id == id) t.biz_tags ≡ some b))
            P
      fetched =
          bind (find_one biz_tag_table (λ c. c.id == id)) (ok_or (not_found "BizTag not found"))
            (find_one_lem biz_tag_table (λ c. c.id == id))
            (λ o.
              failing
                (conclude (ok_or_lem (not_found "BizTag not found") o)
                  (λ b t h. (h.0.0, sym h.0.1 ∙ h.1)))
                (λ t h. h.0))

  pub own_biz_tag-Owned :
      (id w : ℕ) → Triple P (own_biz_tag server user (some w) id) (λ b t. P t × Owned id w b t) P
  unfolding own_biz_tag verify_user_role verify_workspace_id_match
  own_biz_tag-Owned id w =
      bind (from_core (Service.get_biz_tag server id)) _ (from_core_lem (get_biz_tag_found id))
        (λ b.
          bind (ensure workspace_mismatch (b.workspace_id == w)) (λ u. pure b)
            (failing (ensure_lem workspace_mismatch (b.workspace_id == w)) (λ t h. h.0))
            (λ u. record { runs = λ s h. (h.0.0, (h.0.1, (==_iff b.workspace_id w).0 h.1)) }))
