-- ===== src/Repository/Processes.antt =====
-- Processes that give ids for one key, each from a buffer of its own that loads from the one database.
use Prim.Native.String.{String}
use nebula_id.Prelude.{ℕ, ◌≢◌, List, [], ◌∷◌, map, Bool, All, ◌==◌, if◌then◌else◌}
use nebula_id.Types.{CoreError}
use nebula_id.Segment.{Store, Answers}
use nebula_id.Segment.Runs.{issued_ids}
use nebula_id.Repository.{SegmentKey, same_key, Database}
use nebula_id.Repository.Loads.{Request, key_of, loads}

-- Which process made each request for the key.
unfoldable pub owners : SegmentKey → List (ℕ × Request) → List ℕ
owners k [] = []
owners k ((i, r) ∷ later) =
    let rest = owners k later in if same_key (key_of r) k then i ∷ rest else rest

-- The answers that one process gets.
unfoldable pub answers_to : ℕ → List ℕ → Answers → Answers
answers_to i [] answers = []
answers_to i (j ∷ js) [] = []
answers_to i (j ∷ js) (a ∷ answers) =
    let rest = answers_to i js answers in if j == i then a ∷ rest else rest

-- No number of the one list is in the other.
abbrev pub Disjoint : List ℕ → List ℕ → Type 0
Disjoint xs ys = All (λ x. All (λ y. x ≢ y) ys) xs

module _ (shown : CoreError → String) (below : ℕ → ℕ → Bool) where
  -- The ids that a process gives in `n` calls, from the buffer `s`, while the requests of all processes
  -- for this and for other keys are served in their order.
  unfoldable pub ids_of : SegmentKey → List (ℕ × Request) → Database → (i n : ℕ) → Store → List ℕ
  ids_of k asked db i n s =
      issued_ids below n s (answers_to i (owners k asked) (loads shown k (map (λ a. a.1) asked) db))
