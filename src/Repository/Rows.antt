-- ===== src/Repository/Rows.antt =====
-- Which row a query finds after an update or an insertion.
use nebula_id.Prelude.{
  ℕ, ◌+◌, ◌≤◌, ◌<◌, ◌≡◌, refl, subst, true, false, List, [], ◌∷◌, ◌++◌, none, some, ◌==◌, ==_iff,
  All, arith, Bool-cases, inl, inr,
}
use mathlib.Core.Option.{some_inj}
use nebula_id.Prelude.Assoc.{string_eq}
use nebula_id.Prelude.Int.{ℤ, pos, pos_part}
use nebula_id.Repository.{Row, SegmentKey, passes, same_key, find_one, update_current}

-- The key of one datacenter.
abbrev pub OfDc : SegmentKey → ℕ → Type 0
OfDc key dc_id = key.dc_id ≡ some dc_id

-- A row passes the filters of one key only.
pub passes_one :
    (k k' : SegmentKey) (d d' : ℕ) (row : Row)
    → OfDc k d
    → OfDc k' d'
    → same_key k' k ≡ false
    → passes k' row ≡ true
    → passes k row ≡ false
passes_one k k' d d' row e e' other p = ground (
  arith,
  string_eq.same_iff row.workspace_id k.workspace_id,
  string_eq.same_iff row.workspace_id k'.workspace_id,
  string_eq.same_iff k'.workspace_id k.workspace_id,
  string_eq.same_iff row.biz_tag k.biz_tag,
  string_eq.same_iff row.biz_tag k'.biz_tag,
  string_eq.same_iff k'.biz_tag k.biz_tag,
)

abbrev pub Without : ℕ → List Row → Type 0
Without id = All (λ row. (row.id == id) ≡ false)

abbrev pub Distinct : List Row → Type 0
Distinct [] = Unit {0}
Distinct (row ∷ rows) = Without row.id rows × Distinct rows

update_current_absent :
    (id : ℕ) (c : ℤ) (rows : List Row) → Without id rows → update_current id c rows ≡ rows
unfolding update_current
update_current_absent id c [] w = refl
update_current_absent id c (row ∷ rows) w = ground (arith, update_current_absent id c rows w.1)

find_one-Without :
    (k : SegmentKey) (row : Row) (id : ℕ) (rows : List Row)
    → Without id rows
    → find_one k rows ≡ some row
    → (row.id == id) ≡ false
unfolding find_one
find_one-Without k row id [] w found = absurd (grind arith)
find_one-Without k row id (r ∷ rows) w found = ground (arith, find_one-Without k row id rows w.1)

pub find_one-update_current :
    (k : SegmentKey) (row : Row) (c : ℤ) (rows : List Row)
    → find_one k rows ≡ some row
    → find_one k (update_current row.id c rows) ≡ some (record row { current_id = c })
unfolding find_one update_current
find_one-update_current k row c [] found = absurd (grind arith)
find_one-update_current k row c (r ∷ rows) found =
    ground (arith, find_one-update_current k row c rows)

pub find_one-update_other :
    (k k' : SegmentKey) (d d' : ℕ) (row : Row) (c : ℤ) (rows : List Row)
    → OfDc k d
    → OfDc k' d'
    → same_key k' k ≡ false
    → Distinct rows
    → find_one k' rows ≡ some row
    → find_one k (update_current row.id c rows) ≡ find_one k rows
unfolding find_one update_current
find_one-update_other k k' d d' row c [] e e' other distinct found = refl
find_one-update_other k k' d d' row c (r ∷ rows) e e' other distinct found =
    elim (Bool-cases (passes k' r)) [
      | inl mine ↦
          let its : r ≡ row = found_here mine in
          ground (
            arith,
            its,
            passes_one k k' d d' r e e' other mine,
            update_current_absent row.id c rows (subst (λ x. Without x.id rows) its distinct.0),
          )
      | inr not_mine ↦
          let later = found_later not_mine in
          ground (
            arith,
            later,
            ==_iff r.id row.id,
            ==_iff row.id r.id,
            find_one-Without k' row r.id rows distinct.0 later,
            find_one-update_other k k' d d' row c rows e e' other distinct.1 later,
          )
    ]
  where
    found_here : passes k' r ≡ true → r ≡ row
    found_here mine = some_inj.0 (ground arith)

    found_later : passes k' r ≡ false → find_one k' rows ≡ some row
    found_later not_mine = ground arith

pub find_one-append :
    (k : SegmentKey) (rows : List Row) (x : Row)
    → find_one k rows ≡ none
    → passes k x ≡ true
    → find_one k (rows ++ (x ∷ [])) ≡ some x
unfolding find_one
find_one-append k [] x missing p = ground arith
find_one-append k (r ∷ rows) x missing p = ground (arith, find_one-append k rows x)

pub find_one-append_other :
    (k : SegmentKey) (rows : List Row) (x : Row)
    → passes k x ≡ false
    → find_one k (rows ++ (x ∷ [])) ≡ find_one k rows
unfolding find_one
find_one-append_other k [] x p = ground arith
find_one-append_other k (r ∷ rows) x p = ground (arith, find_one-append_other k rows x p)

-- Every row has a number below the next one, and holds a positive number up to the bound.
abbrev pub Below : ℕ → ℕ → List Row → Type 0
Below next_id bound = All (λ row.
    (row.id < next_id)
    × (row.current_id ≡ pos (pos_part row.current_id))
    × (pos_part row.current_id ≤ bound))

pub find_one-Below :
    (k : SegmentKey) (row : Row) (next_id bound : ℕ) (rows : List Row)
    → Below next_id bound rows
    → find_one k rows ≡ some row
    → (row.current_id ≡ pos (pos_part row.current_id)) × (pos_part row.current_id ≤ bound)
unfolding find_one
find_one-Below k row next_id bound [] all found = absurd (grind arith)
find_one-Below k row next_id bound (r ∷ rows) all found = elim (Bool-cases (passes k r)) [
  | inl mine ↦
      subst (λ x. (x.current_id ≡ pos (pos_part x.current_id)) × (pos_part x.current_id ≤ bound))
        (found_here mine) (all.0.1, all.0.2)
  | inr other ↦ find_one-Below k row next_id bound rows all.1 (found_later other)
]
  where
    found_here : passes k r ≡ true → r ≡ row
    found_here mine = some_inj.0 (ground arith)

    found_later : passes k r ≡ false → find_one k rows ≡ some row
    found_later other = ground arith

pub update_current-Below :
    (id c next_id bound more : ℕ) (rows : List Row)
    → c ≤ bound + more
    → Below next_id bound rows
    → Below next_id (bound + more) (update_current id (pos c) rows)
unfolding update_current
update_current-Below id c next_id bound more [] h all = tt
update_current-Below id c next_id bound more (r ∷ rows) h all =
    let rest = update_current-Below id c next_id bound more rows h all.1 in
    elim (Bool-cases (r.id == id)) [
      | inl mine ↦ rw (mine, update_current) ((all.0.0, refl, h), rest)
      | inr other ↦ rw (other, update_current) ((all.0.0, all.0.1, omega (arith, all.0.2)), rest)
    ]

update_current-Without :
    (id i : ℕ) (c : ℤ) (rows : List Row) → Without i rows → Without i (update_current id c rows)
unfolding update_current
update_current-Without id i c [] w = tt
update_current-Without id i c (r ∷ rows) w =
    let rest = update_current-Without id i c rows w.1 in
    elim (Bool-cases (r.id == id)) [
      | inl mine ↦ rw (mine, update_current) (w.0, rest)
      | inr other ↦ rw (other, update_current) (w.0, rest)
    ]

pub update_current-Distinct :
    (id : ℕ) (c : ℤ) (rows : List Row) → Distinct rows → Distinct (update_current id c rows)
unfolding update_current
update_current-Distinct id c [] d = tt
update_current-Distinct id c (r ∷ rows) d =
    let rest = update_current-Distinct id c rows d.1 in
    let apart = update_current-Without id r.id c rows d.0 in
    elim (Bool-cases (r.id == id)) [
      | inl mine ↦ rw (mine, update_current) (apart, rest)
      | inr other ↦ rw (other, update_current) (apart, rest)
    ]

pub append-Below :
    (next_id bound more : ℕ) (rows : List Row) (x : Row)
    → x.id ≡ next_id
    → x.current_id ≡ pos (pos_part x.current_id)
    → pos_part x.current_id ≤ bound + more
    → Below next_id bound rows
    → Below (next_id + 1) (bound + more) (rows ++ (x ∷ []))
append-Below next_id bound more [] x e p h all = ((omega arith, p, h), tt)
append-Below next_id bound more (r ∷ rows) x e p h all = (
  (omega (arith, all.0.0), all.0.1, omega (arith, all.0.2)),
  append-Below next_id bound more rows x e p h all.1,
)

append-Without :
    (i : ℕ) (rows : List Row) (x : Row)
    → Without i rows
    → (x.id == i) ≡ false
    → Without i (rows ++ (x ∷ []))
append-Without i [] x w h = (h, tt)
append-Without i (r ∷ rows) x w h = (w.0, append-Without i rows x w.1 h)

pub append-Distinct :
    (next_id bound : ℕ) (rows : List Row) (x : Row)
    → x.id ≡ next_id
    → Below next_id bound rows
    → Distinct rows
    → Distinct (rows ++ (x ∷ []))
append-Distinct next_id bound [] x e all d = (tt, tt)
append-Distinct next_id bound (r ∷ rows) x e all d = (
  append-Without r.id rows x d.0 (ground (arith, all.0.0)),
  append-Distinct next_id bound rows x e all.1 d.1,
)

pub Below-mono :
    (next_id bound more : ℕ) (rows : List Row)
    → Below next_id bound rows
    → Below next_id (bound + more) rows
Below-mono next_id bound more [] all = tt
Below-mono next_id bound more (r ∷ rows) all =
    ((all.0.0, all.0.1, omega (arith, all.0.2)), Below-mono next_id bound more rows all.1)
