-- ===== src/Catalog/Entities.antt =====
-- The four tables of src/core/database/connection.rs, with their constraints and what the deletion of a
-- row takes with it.
use nebula_id.Prelude.{ℕ, ◌==◌, Bool, true, false, ◌&&◌, not, Option, none, some}
use nebula_id.Prelude.Assoc.{string_eq}
use nebula_id.Catalog.{Workspace, Group, BizTag, ApiKey, ApiKeyRole, admin, Tables}
use nebula_id.Catalog.Table.{Entity, rows_where, any}

-- A name is of one workspace, and a deleted one takes its groups and tags with it, and the tags of its
-- groups.
abbrev pub workspace_table : Entity Workspace
workspace_table = record {
  key = Workspace.id;
  rows = Tables.workspaces;
  with_rows = λ rows t. record t { workspaces = rows };
  accepts = λ w t. not (any (λ v. string_eq.same v.name w.name) t.workspaces);
  cascade = λ id t. record t {
    groups = rows_where (λ g. not (g.workspace_id == id)) t.groups;
    biz_tags =
        rows_where
          (λ b.
            not (b.workspace_id == id)
            && not (any (λ g. g.id == b.group_id && g.workspace_id == id) t.groups))
          t.biz_tags;
  };
}

abbrev has_workspace : ℕ → Tables → Bool
has_workspace id t = any (λ w. w.id == id) t.workspaces

-- A name is of one group in its workspace, which there has to be.
abbrev pub group_table : Entity Group
group_table = record {
  key = Group.id;
  rows = Tables.groups;
  with_rows = λ rows t. record t { groups = rows };
  accepts = λ g t.
      has_workspace g.workspace_id t
      && not (any (λ h. h.workspace_id == g.workspace_id && string_eq.same h.name g.name) t.groups);
  cascade = λ id t. record t { biz_tags = rows_where (λ b. not (b.group_id == id)) t.biz_tags };
}

-- The workspace and the group have to be there, each on its own.
abbrev pub biz_tag_table : Entity BizTag
biz_tag_table = record {
  key = BizTag.id;
  rows = Tables.biz_tags;
  with_rows = λ rows t. record t { biz_tags = rows };
  accepts = λ b t.
      has_workspace b.workspace_id t
      && any (λ g. g.id == b.group_id) t.groups
      && not (
          any
            (λ c.
              c.workspace_id == b.workspace_id
              && c.group_id == b.group_id
              && string_eq.same c.name b.name)
            t.biz_tags);
  cascade = λ id t. t;
}

-- `check_admin_key`
abbrev pub check_admin_key : ApiKeyRole → Option ℕ → Bool
check_admin_key admin none = true
check_admin_key admin (some w) = false
check_admin_key role none = false
check_admin_key role (some w) = true

abbrev pub api_key_table : Entity ApiKey
api_key_table = record {
  key = ApiKey.id;
  rows = Tables.api_keys;
  with_rows = λ rows t. record t { api_keys = rows };
  accepts = λ k t.
      check_admin_key k.role k.workspace_id
      && not (any (λ j. string_eq.same j.key_id k.key_id) t.api_keys);
  cascade = λ id t. t;
}
