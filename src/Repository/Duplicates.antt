-- ===== src/Repository/Duplicates.antt =====
-- The segments of the default loader, which are fixed by the time alone.
use nebula_id.Prelude.{ℕ, ◌+◌, ◌*◌, ◌^◌, ◌≤◌, ◌<◌, ◌≡◌, subst, Bool, true, [], ◌∷◌, arith}
use nebula_id.Types.{ok}
use nebula_id.Segment.{Store, SegmentData}
use nebula_id.Segment.Supply.{Loaded, Holds, Draws, draw, amount, numbers, generate_complete}
use nebula_id.Repository.Loader.{default_segment}

default_segment-Loaded : (t : ℕ) → t * 10000 + 1000000 < 2 ^ 63 → Loaded (default_segment t ∷ [])
unfolding default_segment
default_segment-Loaded t small = (omega arith, small, tt)

overlap :
    (t t' : ℕ)
    → t ≤ t'
    → t' < t + 100
    → ((default_segment t).start_id ≤ (default_segment t').start_id)
      × ((default_segment t').start_id < (default_segment t).max_id)
unfolding default_segment
overlap t t' early late = (omega arith, omega arith)

module _ (below : ℕ → ℕ → Bool) (low : (total : ℕ) → 0 < total → below 0 total ≡ true) where
  all_of_one :
      (d : SegmentData) (s : Store)
      → Holds 0 s
      → Loaded (d ∷ [])
      → Draws (numbers (d ∷ [])) (draw below low (amount (d ∷ [])) s (ok d ∷ []))
  all_of_one d s rest loads =
      let total : 0 + amount (d ∷ []) ≡ amount (d ∷ []) = omega arith in
      subst (λ n. Draws (numbers (d ∷ [])) (draw below low n s (ok d ∷ []))) total
        (generate_complete below low s 0 (d ∷ []) rest loads)

  -- Two used-up buffers, of two processes or of one, that load from the default loader less than 100
  -- seconds apart each issue all the ids of the segment they loaded, and the second segment starts
  -- within the first, so that ids are issued twice.
  pub default_segment-duplicates :
      (t t' : ℕ) (s s' : Store)
      → Holds 0 s
      → Holds 0 s'
      → t ≤ t'
      → t' < t + 100
      → t' * 10000 + 1000000 < 2 ^ 63
      → Draws
          (numbers (default_segment t ∷ []))
          (draw below low (amount (default_segment t ∷ [])) s (ok (default_segment t) ∷ []))
        × Draws
            (numbers (default_segment t' ∷ []))
            (draw below low (amount (default_segment t' ∷ [])) s' (ok (default_segment t') ∷ []))
        × ((default_segment t).start_id ≤ (default_segment t').start_id)
        × ((default_segment t').start_id < (default_segment t).max_id)
  default_segment-duplicates t t' s s' rest rest' early late small =
      let (starts, within) = overlap t t' early late in
      (
        all_of_one (default_segment t) s rest (default_segment-Loaded t (omega arith)),
        all_of_one (default_segment t') s' rest' (default_segment-Loaded t' small),
        starts,
        within,
      )
