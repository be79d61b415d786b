-- ===== src/Segment/Runs.antt =====
-- The ids of many calls of `generate` on one buffer, one after the other.
use nebula_id.Prelude.{ℕ, zero, suc, List, [], ◌∷◌, Bool, Increasing, Increasing-mono}
use nebula_id.Types.UniqueId.{UniqueId}
use nebula_id.Segment.{Store, Answers, Outcome, waiting, returned, failed, generate}
use nebula_id.Segment.Order.{Ordered, floor, Advances, generate-Advances}

-- A call that fails gives no id, and the next one follows; one that waits for the loader ends the run.
unfoldable pub collect : (Store → Answers → List ℕ) → Outcome UniqueId → List ℕ
collect later (waiting s) = []
collect later (returned id s answers) = id.value ∷ later s answers
collect later (failed e s answers) = later s answers

unfoldable pub issued_ids : (ℕ → ℕ → Bool) → ℕ → Store → Answers → List ℕ
issued_ids below zero s answers = []
issued_ids below (suc n) s answers = collect (issued_ids below n) (generate below s answers)

collect-Increasing :
    (low : ℕ) (later : Store → Answers → List ℕ) (o : Outcome UniqueId)
    → ((s : Store) (answers : Answers) → Ordered s answers → Increasing (floor s) (later s answers))
    → Advances low o
    → Increasing low (collect later o)
unfolding collect
collect-Increasing low later (waiting s) go v = tt
collect-Increasing low later (returned id s answers) go (v, above, below) =
    (above, Increasing-mono (later s answers) below (go s answers v))
collect-Increasing low later (failed e s answers) go (v, above) =
    Increasing-mono (later s answers) above (go s answers v)

pub issued_ids-Increasing :
    (below : ℕ → ℕ → Bool) (n : ℕ) (s : Store) (answers : Answers)
    → Ordered s answers
    → Increasing (floor s) (issued_ids below n s answers)
unfolding issued_ids
issued_ids-Increasing below zero s answers v = tt
issued_ids-Increasing below (suc n) s answers v =
    collect-Increasing (floor s) (issued_ids below n) (generate below s answers)
      (issued_ids-Increasing below n) (generate-Advances below s answers v)
