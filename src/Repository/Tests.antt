-- ===== src/Repository/Tests.antt =====
-- Runs of the allocation of segments, and its theorems at concrete inputs.
use Prim.Native.String.{String}
use nebula_id.Prelude.{ℕ, ◌*◌, ◌≤◌, ◌<◌, refl, List, [], ◌∷◌, none, some, arith}
use nebula_id.Types.{CoreError, ok}
use nebula_id.Segment.Supply.{Draws, draw, numbers, amount}
use nebula_id.Segment.Tests.{fresh, tenth, tenth-low}
use nebula_id.Repository.{Database, key_eq}
use nebula_id.Repository.Transaction.{standing}
use nebula_id.Repository.Loader.{default_segment}
use nebula_id.Repository.Loads.{Request, key_of, serve, steps_of, Allotted, loads, loads-Allotted}
use nebula_id.Repository.Faults.{AllRefused, fault-AllRefused}
use nebula_id.Repository.Duplicates.{default_segment-duplicates}

abbrev empty_table : Database
empty_table = record { rows = []; next_id = 1; locks = some [] }

abbrev one_shown : CoreError → String
one_shown e = "error"

abbrev asks : ℕ → Request
asks dc_id = record {
  fault = none;
  workspace_id = "shop";
  biz_tag = "order";
  dc_id = dc_id;
  step = 1000;
}

abbrev fails_first : Request
fails_first = record (asks 2) { fault = some "connection lost" }

-- Two loads for datacenter 2 with one for datacenter 3 between them.
loads-Allotted_example :
    Allotted
      (standing (key_of (asks 2)) 2 [])
      (steps_of (key_of (asks 2)) (asks 2 ∷ asks 3 ∷ asks 2 ∷ []))
      (loads one_shown (key_of (asks 2)) (asks 2 ∷ asks 3 ∷ asks 2 ∷ []) empty_table)
loads-Allotted_example =
    loads-Allotted one_shown (key_of (asks 2)) 2 (256 * 1_000_000_000_000)
      (asks 2 ∷ asks 3 ∷ asks 2 ∷ []) empty_table refl (record { distinct = tt; below = tt })
      ((omega arith, omega arith), ((omega arith, omega arith), ((omega arith, omega arith), tt)))
      (omega arith) (omega arith)

-- The first process is given 1000 numbers, the second the next 1000, and each takes two.
abbrev asked : List (ℕ × Request)
asked = (1, asks 2) ∷ (2, asks 2) ∷ (1, asks 3) ∷ []

fault-AllRefused_example :
    AllRefused (
      loads one_shown (key_of fails_first) (asks 2 ∷ asks 2 ∷ []) (serve fails_first empty_table).1)
fault-AllRefused_example =
    fault-AllRefused one_shown "connection lost" fails_first (asks 2 ∷ asks 2 ∷ []) empty_table []
      refl refl

default_segment-duplicates_example :
    Draws (numbers (default_segment 1_700_000_000 ∷ [])) (
      draw tenth tenth-low
        (amount (default_segment 1_700_000_000 ∷ []))
        fresh
        (ok (default_segment 1_700_000_000) ∷ []))
    × Draws (numbers (default_segment 1_700_000_030 ∷ [])) (
        draw tenth tenth-low
          (amount (default_segment 1_700_000_030 ∷ []))
          fresh
          (ok (default_segment 1_700_000_030) ∷ []))
    × ((default_segment 1_700_000_000).start_id ≤ (default_segment 1_700_000_030).start_id)
    × ((default_segment 1_700_000_030).start_id < (default_segment 1_700_000_000).max_id)
default_segment-duplicates_example =
    default_segment-duplicates tenth tenth-low 1_700_000_000 1_700_000_030 fresh fresh
      (omega arith, omega arith, refl, refl) (omega arith, omega arith, refl, refl) (omega arith)
      (omega arith) (omega arith)
