-- ===== src/Segment/Tests.antt =====
-- Runs of src/core/algorithm/segment.rs, and its theorems at concrete inputs.
use nebula_id.Prelude.{ℕ, ◌*◌, ◌<◌, ◌≡◌, refl, Bool, true, false, [], ◌∷◌, none, arith, ltb}
use nebula_id.Types.{ok}
use nebula_id.Segment.Qps.{new_window}
use nebula_id.Segment.Qps.Reference.{answers, reference_answers, new_window-answers}
use nebula_id.Segment.{
  SegmentData, Store, new_buffer, need_switch, generate, batch_generate, batch_first, batch_rounds,
  batch_try, try_consume, exhausted,
}
use nebula_id.Segment.Order.{Ordered, Advances, generate-Advances}
use nebula_id.Segment.Supply.{Draws, draw, generate_complete}
use nebula_id.Segment.Batch.{BatchAdvances, batch_generate-BatchAdvances}

-- A threshold of one tenth.
abbrev pub tenth : ℕ → ℕ → Bool
tenth left total = ltb (left * 10) total

pub tenth-low : (total : ℕ) → 0 < total → tenth 0 total ≡ true
tenth-low total h = ground arith

abbrev pub fresh : Store
fresh = record {
  buffer = record {
    current = record { start_id = 0; max_id = 0; current_id = 0; step = 0; version = 0 };
    next = none;
    loading = false;
  };
  metrics = record { total_generated = 0; total_failed = 0; cache_hits = 0; cache_misses = 0 };
}

pub new_buffer-fresh : new_buffer ≡ fresh.buffer
unfolding new_buffer
new_buffer-fresh = refl

abbrev two_ids : SegmentData
two_ids = record { start_id = 1; max_id = 3; step = 2; version = 0 }

abbrev three_ids : SegmentData
three_ids = record { start_id = 3; max_id = 6; step = 3; version = 0 }

abbrev ten_more : SegmentData
ten_more = record { start_id = 10; max_id = 20; step = 10; version = 0 }

-- Two ids are left of ten.
abbrev partly_used : Store
partly_used = record fresh {
  buffer = record (fresh.buffer) {
    current = record { start_id = 0; max_id = 10; current_id = 8; step = 10; version = 0 };
  };
}

partly_used-Ordered : Ordered partly_used (ok ten_more ∷ [])
partly_used-Ordered = record {
  sound = (omega arith, omega arith);
  queued = tt;
  supplied = (omega arith, omega arith, omega arith, tt);
}

generate-Advances_example : Advances 8 (generate tenth partly_used (ok ten_more ∷ []))
generate-Advances_example = generate-Advances tenth partly_used _ partly_used-Ordered

generate_complete_example :
    Draws (1 ∷ 2 ∷ 3 ∷ 4 ∷ 5 ∷ []) (draw tenth tenth-low 5 fresh (ok two_ids ∷ ok three_ids ∷ []))
generate_complete_example =
    generate_complete tenth tenth-low fresh 0 (two_ids ∷ three_ids ∷ [])
      (omega arith, omega arith, refl, refl)
      (omega arith, omega arith, (omega arith, omega arith, tt))

batch_generate-BatchAdvances_example :
    BatchAdvances 8 2 (batch_generate tenth partly_used 2 (ok ten_more ∷ []))
batch_generate-BatchAdvances_example =
    batch_generate-BatchAdvances tenth partly_used 2 (ok ten_more ∷ []) (omega arith)
      partly_used-Ordered

-- A batch of three fails where two ids are left and the segment is not below the switch threshold,
-- although the loader has a segment.
short_batch_fails :
    batch_generate tenth partly_used 3 (ok ten_more ∷ []) ≡ exhausted partly_used (ok ten_more ∷ [])
unfolding batch_generate batch_first batch_rounds batch_try try_consume need_switch exhausted
short_batch_fails = refl

-- Two requests in the first second, one three seconds later, one after more than a minute.
new_window-answers_example :
    answers (100 ∷ 100 ∷ 103 ∷ 170 ∷ []) (new_window 100)
    ≡ reference_answers (100 ∷ 100 ∷ 103 ∷ 170 ∷ []) (record { start = 100; offsets = [] })
new_window-answers_example = new_window-answers (100 ∷ 100 ∷ 103 ∷ 170 ∷ []) 100 (omega arith)
