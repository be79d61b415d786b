-- ===== src/Segment/Qps.antt =====
-- src/core/algorithm/segment.rs: `QpsWindow`, which counts requests by the second over a minute. Its
-- lock makes a call one step.
pub mod Reference
use nebula_id.Prelude.{
  ℕ, zero, suc, ◌+◌, ◌-◌, ◌/◌, ◌%◌, max, List, [], ◌∷◌, map, Option, none, some, if◌then◌else◌, ltb,
  leb, u64,
}

-- A clock reading is the seconds since 1970.
pub record QpsWindow : Type 0 where
  pub counters : List ℕ
  pub start_second : ℕ

abbrev pub window_size : ℕ
window_size = 60

abbrev pub default_qps_baseline : ℕ
default_qps_baseline = 1000

abbrev pub zeros : ℕ → List ℕ
zeros zero = []
zeros (suc n) = 0 ∷ zeros n

unfoldable pub new_window : ℕ → QpsWindow
new_window now = record { counters = zeros window_size; start_second = now }

-- `counters[slot] += 1`
unfoldable pub increment : ℕ → List ℕ → List ℕ
increment slot [] = []
increment zero (c ∷ cs) = u64 (c + 1) ∷ cs
increment (suc slot) (c ∷ cs) = c ∷ increment slot cs

unfoldable pub sum : List ℕ → ℕ
sum [] = 0
sum (c ∷ cs) = c + sum cs

-- `counters.iter().rposition(|&c| c > 0)`
unfoldable pub last_active : List ℕ → Option ℕ
last_active [] = none
last_active (c ∷ cs) = elim (last_active cs) [
  | some i ↦ some (suc i)
  | none ↦ if ltb 0 c then some 0 else none
]

unfoldable pub active_slots : Option ℕ → ℕ
active_slots none = 1
active_slots (some i) = i + 1

unfoldable pub restart : ℕ → QpsWindow → QpsWindow
restart now q = record { counters = increment 0 (map (λ c. 0) q.counters); start_second = now }

unfoldable pub average : List ℕ → ℕ
average counters =
    max (u64 (sum counters) / max (active_slots (last_active counters)) 1) default_qps_baseline

pub record_and_get_qps : ℕ → QpsWindow → ℕ × QpsWindow
record_and_get_qps now q =
    let elapsed = now - q.start_second in
    let counters = increment (elapsed % window_size) q.counters in
    if leb window_size elapsed
    then (default_qps_baseline, restart now q)
    else (average counters, record q { counters = counters })
