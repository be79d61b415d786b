-- ===== src/DcFailure/Selection.antt =====
-- Which datacenter is picked.
use nebula_id.Prelude.{
  ℕ, ◌≡◌, refl, Bool, true, false, [], ◌∷◌, some, arith, Bool-cases, Option-cases, inl, inr, ◌⊎◌,
  ◌==◌, ==_iff, if◌then◌else◌,
}
use nebula_id.Prelude.Assoc.{nat_eq, get}
use nebula_id.DcFailure.{
  Dcs, DcHealthState, DcFailureDetector, should_use_dc, get_dc_state, get_healthy_dcs,
  healthy_among, first_of_or, select_best_dc,
}

-- An entry of the map whose datacenter may be used.
pub data Usable : Dcs → ℕ → Type 0 where
  here :
      (j dc_id : ℕ) (s : DcHealthState) (dcs : Dcs)
      → j ≡ dc_id
      → should_use_dc s ≡ true
      → Usable ((j, s) ∷ dcs) dc_id
  there :
      (j dc_id : ℕ) (s : DcHealthState) (dcs : Dcs) → Usable dcs dc_id → Usable ((j, s) ∷ dcs) dc_id

abbrev pub NoneUsable : Dcs → Type 0
NoneUsable [] = Unit {0}
NoneUsable ((dc_id, s) ∷ dcs) = (should_use_dc s ≡ false) × NoneUsable dcs

abbrev pub Selected : Dcs → ℕ → ℕ → Type 0
Selected dcs preferred_dc dc_id = Usable dcs dc_id ⊎ (NoneUsable dcs × (dc_id ≡ preferred_dc))

there-Selected :
    (dcs : Dcs) (j : ℕ) (s : DcHealthState) (preferred_dc dc_id : ℕ)
    → should_use_dc s ≡ false
    → Selected dcs preferred_dc dc_id
    → Selected ((j, s) ∷ dcs) preferred_dc dc_id
there-Selected dcs j s preferred_dc dc_id down (inl u) = inl (there j dc_id s dcs u)
there-Selected dcs j s preferred_dc dc_id down (inr (n, e)) = inr ((down, n), e)

first-Selected :
    (dcs : Dcs) (preferred_dc : ℕ)
    → Selected dcs preferred_dc (first_of_or preferred_dc (healthy_among dcs))
unfolding first_of_or healthy_among
first-Selected [] preferred_dc = inr (tt, refl)
first-Selected ((j, s) ∷ dcs) preferred_dc =
    decide (first-Selected dcs preferred_dc) (should_use_dc s) refl
  where
    decide :
        Selected dcs preferred_dc (first_of_or preferred_dc (healthy_among dcs))
        → (up : Bool) → should_use_dc s ≡ up
        → Selected
            ((j, s) ∷ dcs)
            preferred_dc
            (first_of_or preferred_dc (if up then j ∷ healthy_among dcs else healthy_among dcs))
    decide rest true up = inl (here j j s dcs refl up)
    decide rest false down = there-Selected dcs j s preferred_dc _ down rest

get-Usable :
    (dcs : Dcs) (dc_id : ℕ) (s : DcHealthState)
    → get dc_id dcs ≡ some s
    → should_use_dc s ≡ true
    → Usable dcs dc_id
unfolding get
get-Usable [] dc_id s found up = absurd (grind arith)
get-Usable ((j, t) ∷ dcs) dc_id s found up = elim (Bool-cases (j == dc_id)) [
  | inl same ↦ here j dc_id t dcs ((==_iff j dc_id).0 same) (same_state same)
  | inr other ↦ there j dc_id t dcs (get-Usable dcs dc_id s (later other) up)
]
  where
    same_state : (j == dc_id) ≡ true → should_use_dc t ≡ true
    same_state same = ground arith

    later : (j == dc_id) ≡ false → get dc_id dcs ≡ some s
    later other = ground arith

-- The datacenter that is picked may be used, unless none of the known ones may, and then it is the
-- preferred one.
pub select_best_dc-Selected :
    (d : DcFailureDetector) (preferred_dc : ℕ)
    → Selected d.dc_states preferred_dc (select_best_dc d preferred_dc)
unfolding select_best_dc get_dc_state get_healthy_dcs
select_best_dc-Selected d preferred_dc = elim (Option-cases (get preferred_dc d.dc_states)) [
  | inl missing ↦ rw (missing, select_best_dc) (first-Selected d.dc_states preferred_dc)
  | inr (s, found) ↦ elim (Bool-cases (should_use_dc s)) [
    | inl up ↦ rw (found, select_best_dc, up) (inl (get-Usable d.dc_states preferred_dc s found up))
    | inr down ↦ rw (found, select_best_dc, down) (first-Selected d.dc_states preferred_dc)
  ]
]
