-- ===== src/Catalog/Preload.antt =====
-- The reading of a workspace with its groups and their tags in two queries, of
-- src/core/database/repository.rs, and the deletion of a group with its tags in a transaction.
--
-- The first query is a left join: it has a row for each group of the workspace, and one row without a
-- group where there is none. A transaction that fails leaves the tables as they were.
use nebula_id.Prelude.{
  ℕ, ◌==◌, ==_iff, ==_self, ◌≡◌, refl, subst, sym, ap, ap₂, ◌∙◌, arith, Bool, true, List, [], ◌∷◌,
  ◌++◌, map, All, Option, none, some, Bool-cases, inl, inr,
}
use nebula_id.Prelude.Assoc.{nat_eq, get, put, get-put}
use nebula_id.Types.{CoreError}
use nebula_id.Catalog.{
  Workspace, Group, BizTag, Tables, Store, Outcome, returned, raised, Query, pure, ◌>>=◌, ◌>>◌,
  call, unwrap_or,
}
use nebula_id.Catalog.Table.{rows_where, first, any, find_all, delete_by_id}
use nebula_id.Catalog.Entities.{group_table, biz_tag_table}

-- Of the map by groups; a new tag is pushed to what its group has.
unfoldable pub grouped : List BizTag → List (ℕ × List BizTag) → List (ℕ × List BizTag)
grouped [] m = m
grouped (b ∷ bs) m = grouped bs (put b.group_id (unwrap_or [] (get b.group_id m) ++ b ∷ []) m)

-- The tags of a group in that map.
unfoldable pub tags_in : List (ℕ × List BizTag) → Group → Group × List BizTag
tags_in m g = (g, unwrap_or [] (get g.id m))

unfoldable pub joined : ℕ → Query CoreError (Option (Workspace × List Group))
joined id = do
  call
  λ s. elim (first (λ w. w.id == id) s.tables.workspaces) [
    | none ↦ (returned none, s)
    | some w ↦ (returned (some (w, rows_where (λ g. g.workspace_id == id) s.tables.groups)), s)
  ]

-- `is_in(group_ids)`
unfoldable pub in_groups : List Group → BizTag → Bool
in_groups gs b = any (λ g. g.id == b.group_id) gs

unfoldable pub get_workspace_with_groups_and_biz_tags :
    ℕ → Query CoreError (Option (Workspace × List (Group × List BizTag)))
get_workspace_with_groups_and_biz_tags id = do
  found ← joined id
  elim found [
    | none ↦ pure none
    | some related ↦ do
      biz_tags ← find_all biz_tag_table (in_groups related.1)
      pure (some (related.0, map (tags_in (grouped biz_tags [])) related.1))
  ]

unfoldable delete_each : List BizTag → Query CoreError (Unit {0})
delete_each [] = pure tt
delete_each (b ∷ bs) =
    let again = delete_each bs in do affected ← delete_by_id biz_tag_table b.id; again

abbrev rolled_back :
    {A : Type 0} → Tables → Outcome CoreError A × Store → Outcome CoreError A × Store
rolled_back t (returned a, s) = (returned a, s)
rolled_back t (raised e, s) = (raised e, record s { tables = t })

unfoldable transaction : {A : Type 0} → Query CoreError A → Query CoreError A
transaction q s = rolled_back s.tables (q s)

unfoldable delete_group_with_biz_tags : ℕ → Query CoreError (Unit {0})
delete_group_with_biz_tags id = transaction (do
  call
  biz_tags ← find_all biz_tag_table (λ b. b.group_id == id)
  delete_each biz_tags
  affected ← delete_by_id group_table id
  call)

append_nil : (xs : List BizTag) → xs ++ [] ≡ xs
append_nil [] = refl
append_nil (x ∷ xs) = ap (λ ys. x ∷ ys) (append_nil xs)

append_one : (xs ys : List BizTag) (b : BizTag) → (xs ++ b ∷ []) ++ ys ≡ xs ++ b ∷ ys
append_one [] ys b = refl
append_one (x ∷ xs) ys b = ap (λ zs. x ∷ zs) (append_one xs ys b)

get-grouped :
    (g : ℕ) (bs : List BizTag) (m : List (ℕ × List BizTag))
    → unwrap_or [] (get g (grouped bs m))
      ≡ unwrap_or [] (get g m) ++ rows_where (λ b. b.group_id == g) bs
unfolding grouped rows_where
get-grouped g [] m = sym (append_nil (unwrap_or [] (get g m)))
get-grouped g (b ∷ bs) m =
    get-grouped g bs (put b.group_id pushed m) ∙ elim (Bool-cases (b.group_id == g)) [
      | inl same ↦ rw (get-put b.group_id g pushed m) (
          rw same (
            append_one (unwrap_or [] (get b.group_id m)) (rows_where (λ c. c.group_id == g) bs) b
            ∙ ap (λ k. unwrap_or [] (get k m) ++ b ∷ rows_where (λ c. c.group_id == g) bs)
                ((==_iff b.group_id g).0 same)))
      | inr other ↦ rw (get-put b.group_id g pushed m) (rw other refl)
    ]
  where
    pushed : List BizTag
    pushed = unwrap_or [] (get b.group_id m) ++ b ∷ []

rows_where-in_groups :
    (g : Group) (gs : List Group) (bs : List BizTag)
    → any (λ h. h.id == g.id) gs ≡ true
    → rows_where (λ b. b.group_id == g.id) (rows_where (in_groups gs) bs)
      ≡ rows_where (λ b. b.group_id == g.id) bs
unfolding rows_where in_groups
rows_where-in_groups g gs [] h = refl
rows_where-in_groups g gs (b ∷ bs) h = elim (Bool-cases (b.group_id == g.id)) [
  | inl own ↦
      let inside : in_groups gs b ≡ true =
        subst (λ k. any (λ h. h.id == k) gs ≡ true) (sym ((==_iff b.group_id g.id).0 own)) h in
      rw (inside, own, rows_where-in_groups g gs bs h) refl
  | inr other ↦ elim (Bool-cases (in_groups gs b)) [
    | inl inside ↦ rw (inside, other, rows_where-in_groups g gs bs h) refl
    | inr outside ↦ rw (outside, other, rows_where-in_groups g gs bs h) refl
  ]
]

Listed : List Group → List Group → Type 0
Listed ks gs = All (λ g. any (λ h. h.id == g.id) ks ≡ true) gs

grow : (x : Group) (ks gs : List Group) → Listed ks gs → Listed (x ∷ ks) gs
unfolding Listed
grow x ks [] h = tt
grow x ks (g ∷ gs) h = (ground arith, grow x ks gs h.1)

members : (gs : List Group) → Listed gs gs
unfolding Listed
members [] = tt
members (g ∷ gs) = (rw (==_self g.id) refl, grow g gs gs (members gs))

tags_in-Listed :
    (ks gs : List Group) (bs : List BizTag)
    → Listed ks gs
    → map (tags_in (grouped (rows_where (in_groups ks) bs) [])) gs
      ≡ map (λ g. (g, rows_where (λ b. b.group_id == g.id) bs)) gs
unfolding Listed tags_in get
tags_in-Listed ks [] bs h = refl
tags_in-Listed ks (g ∷ gs) bs h =
    ap₂ (λ x xs. x ∷ xs)
      (ap (λ l. (g, l))
        (get-grouped g.id (rows_where (in_groups ks) bs) [] ∙ rows_where-in_groups g ks bs h.0))
      (tags_in-Listed ks gs bs h.1)

-- What two queries and a map read of a workspace is what a query for each of its groups would: every
-- group of the workspace with the tags that name it, in the order of the tables.
pub get_workspace_with_groups_and_biz_tags-reads :
    (id : ℕ) (s : Store) (w : Workspace) (listed : List (Group × List BizTag))
    → (get_workspace_with_groups_and_biz_tags id s).0 ≡ returned (some (w, listed))
    → listed
      ≡ map
          (λ g. (g, rows_where (λ b. b.group_id == g.id) s.tables.biz_tags))
          (rows_where (λ g. g.workspace_id == id) s.tables.groups)
unfolding get_workspace_with_groups_and_biz_tags joined find_all call
get_workspace_with_groups_and_biz_tags-reads id s w listed e =
    let related = rows_where (λ g. g.workspace_id == id) s.tables.groups in
    ground (arith, tags_in-Listed related related s.tables.biz_tags (members related))
