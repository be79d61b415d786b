-- ===== src/Segment/Qps/Reference.antt =====
-- The window of counters against a window that keeps every request.
use nebula_id.Prelude.{
  ℕ, zero, suc, ◌+◌, ◌-◌, ◌/◌, ◌%◌, ◌^◌, ◌<◌, ◌≤◌, ◌≡◌, refl, ap, ap₂, ◌∙◌, arith, max, true, false,
  Bool-cases, List, [], ◌∷◌, map, length, Option, none, some, Option-cases, inl, inr, if◌then◌else◌,
  ltb, leb,
}
use nebula_id.Segment.Qps.{
  QpsWindow, window_size, default_qps_baseline, zeros, new_window, increment, sum, last_active,
  active_slots, restart, average, record_and_get_qps,
}

-- The seconds since the start of the window at which the requests of the window came.
pub record Requests : Type 0 where
  pub start : ℕ
  pub offsets : List ℕ

unfoldable pub latest : List ℕ → Option ℕ
latest [] = none
latest (o ∷ os) = some (elim (latest os) [ none ↦ o | some m ↦ max o m ])

-- Requests per second up to the latest, at least the baseline.
unfoldable pub rate : List ℕ → ℕ
rate os = max (length os / active_slots (latest os)) default_qps_baseline

unfoldable pub request : ℕ → Requests → ℕ × Requests
request now r =
    if ltb (now - r.start) window_size
    then (
      rate ((now - r.start) ∷ r.offsets),
      record { start = r.start; offsets = (now - r.start) ∷ r.offsets },
    )
    else (default_qps_baseline, record { start = now; offsets = 0 ∷ [] })

-- The answers to requests at the readings of the clock.
unfoldable pub answers : List ℕ → QpsWindow → List ℕ
answers [] q = []
answers (now ∷ rest) q = let done = record_and_get_qps now q in done.0 ∷ answers rest done.1

unfoldable pub reference_answers : List ℕ → Requests → List ℕ
reference_answers [] r = []
reference_answers (now ∷ rest) r =
    let done = request now r in done.0 ∷ reference_answers rest done.1

pub record Stands (q : QpsWindow) (r : Requests) : Type 0 where
  pub same_start : q.start_second ≡ r.start
  pub full : length q.counters ≡ window_size
  pub total : sum q.counters ≡ length r.offsets
  pub last : last_active q.counters ≡ latest r.offsets

increment-length : (slot : ℕ) (cs : List ℕ) → length (increment slot cs) ≡ length cs
unfolding increment
increment-length slot [] = refl
increment-length zero (c ∷ cs) = refl
increment-length (suc slot) (c ∷ cs) = ap suc (increment-length slot cs)

increment-sum :
    (slot : ℕ) (cs : List ℕ)
    → slot < length cs
    → sum cs + 1 < 2 ^ 64
    → sum (increment slot cs) ≡ suc (sum cs)
unfolding increment sum
increment-sum slot [] inside small = absurd (omega (arith, inside))
increment-sum zero (c ∷ cs) inside small = ground arith
increment-sum (suc slot) (c ∷ cs) inside small =
    let rest = increment-sum slot cs (omega (arith, inside)) (omega (arith, small)) in
    omega (arith, rest)

increment-last :
    (slot : ℕ) (cs : List ℕ)
    → slot < length cs
    → sum cs + 1 < 2 ^ 64
    → last_active (increment slot cs)
      ≡ some (elim (last_active cs) [ none ↦ slot | some m ↦ max slot m ])
unfolding increment sum last_active
increment-last slot [] inside small = absurd (omega (arith, inside))
increment-last zero (c ∷ cs) inside small = ground arith
increment-last (suc slot) (c ∷ cs) inside small =
    let rest = increment-last slot cs (omega (arith, inside)) (omega (arith, small)) in
    elim (Option-cases (last_active cs)) [
      | inl idle ↦ rw (rest, idle) (ground arith)
      | inr (m, active) ↦ rw (rest, active) (ground arith)
    ]

zeros-sum : (n : ℕ) → sum (zeros n) ≡ 0
unfolding sum
zeros-sum zero = refl
zeros-sum (suc n) = omega (arith, zeros-sum n)

zeros-length : (n : ℕ) → length (zeros n) ≡ n
zeros-length zero = refl
zeros-length (suc n) = ap suc (zeros-length n)

zeros-last : (n : ℕ) → last_active (zeros n) ≡ none
unfolding last_active
zeros-last zero = refl
zeros-last (suc n) = rw (zeros-last n) refl

map-zeros : (cs : List ℕ) → map (λ c. 0) cs ≡ zeros (length cs)
map-zeros [] = refl
map-zeros (c ∷ cs) = ap (λ z. 0 ∷ z) (map-zeros cs)

increment-Stands :
    (slot start : ℕ) (cs os : List ℕ)
    → slot < window_size
    → length cs ≡ window_size
    → sum cs ≡ length os
    → last_active cs ≡ latest os
    → length os + 1 < 2 ^ 64
    → Stands
        (record { counters = increment slot cs; start_second = start })
        (record { start = start; offsets = slot ∷ os })
unfolding latest
increment-Stands slot start cs os inside full total last small = record {
  same_start = refl;
  full = increment-length slot cs ∙ full;
  total =
      let counted =
        increment-sum slot cs (omega (arith, inside, full)) (omega (arith, total, small)) in
      omega (arith, counted, total);
  last =
      increment-last slot cs (omega (arith, inside, full)) (omega (arith, total, small))
      ∙ ap (λ o. some (elim o [ none ↦ slot | some m ↦ max slot m ])) last;
}

active_slots_positive : (o : Option ℕ) → max (active_slots o) 1 ≡ active_slots o
unfolding active_slots
active_slots_positive none = refl
active_slots_positive (some i) = ground arith

average-rate :
    (cs os : List ℕ)
    → sum cs ≡ length os
    → last_active cs ≡ latest os
    → length os < 2 ^ 64
    → average cs ≡ rate os
unfolding average rate
average-rate cs os total last small =
    ap₂ (λ n d. max (n / d) default_qps_baseline) (omega (arith, total, small))
      (rw last (active_slots_positive (latest os)))

-- What one request answers and leaves.
abbrev Agree : ℕ → ℕ × QpsWindow → ℕ × Requests → Type 0
Agree bound counted kept =
    (counted.0 ≡ kept.0) × Stands counted.1 kept.1 × (length (kept.1.offsets) ≤ bound)

within-Agree :
    (elapsed : ℕ) (q : QpsWindow) (r : Requests)
    → Stands q r
    → elapsed < window_size
    → length r.offsets + 1 < 2 ^ 64
    → Agree
        (length r.offsets + 1)
        (
          average (increment (elapsed % window_size) q.counters),
          record {
            counters = increment (elapsed % window_size) q.counters;
            start_second = r.start;
          },
        )
        (rate (elapsed ∷ r.offsets), record { start = r.start; offsets = elapsed ∷ r.offsets })
within-Agree elapsed q r stands inside small =
    let slot : elapsed % window_size ≡ elapsed = omega (arith, inside) in
    let stands' =
      increment-Stands elapsed r.start q.counters r.offsets inside stands.full stands.total
        stands.last small in
    rw slot (
      average-rate (increment elapsed q.counters) (elapsed ∷ r.offsets) stands'.total stands'.last
          (omega (arith, small)),
      stands',
      omega arith,
    )

restart-Stands :
    (now : ℕ) (q : QpsWindow) (r : Requests)
    → Stands q r
    → Stands (restart now q) (record { start = now; offsets = 0 ∷ [] })
unfolding restart latest
restart-Stands now q r stands =
    rw (map-zeros q.counters, stands.full)
      (increment-Stands 0 now (zeros window_size) [] (omega arith) (zeros-length window_size)
        (zeros-sum window_size) (zeros-last window_size) (omega arith))

record_and_get_qps-Agree :
    (now : ℕ) (q : QpsWindow) (r : Requests)
    → Stands q r
    → length r.offsets + 1 < 2 ^ 64
    → Agree (length r.offsets + 1) (record_and_get_qps now q) (request now r)
unfolding record_and_get_qps request
record_and_get_qps-Agree now q r stands small = elim (Bool-cases (leb 60 (now - q.start_second))) [
  | inl past ↦
      let past' : ltb (now - r.start) 60 ≡ false = ground (arith, stands.same_start) in
      rw (past, past') (refl, restart-Stands now q r stands, omega arith)
  | inr inside ↦
      let inside' : ltb (now - r.start) 60 ≡ true = ground (arith, stands.same_start) in
      rw (inside, inside', stands.same_start)
        (within-Agree (now - r.start) q r stands (ground arith) small)
]

answers-same :
    (readings : List ℕ) (q : QpsWindow) (r : Requests)
    → Stands q r
    → length r.offsets + length readings < 2 ^ 64
    → answers readings q ≡ reference_answers readings r
unfolding answers reference_answers
answers-same [] q r stands small = refl
answers-same (now ∷ rest) q r stands small =
    let (same, next, grown) = record_and_get_qps-Agree now q r stands (omega (arith, small)) in
    ap₂ ◌∷◌ same (answers-same rest _ _ next (omega (arith, small, grown)))

-- The rates that a new window answers to fewer than 2 ^ 64 requests are those of a window that keeps
-- every request: the requests since the window began over the seconds up to the latest of them, at
-- least 1000, and 1000 for one that opens the window anew after a minute.
pub new_window-answers :
    (readings : List ℕ) (now : ℕ)
    → length readings < 2 ^ 64
    → answers readings (new_window now)
      ≡ reference_answers readings (record { start = now; offsets = [] })
unfolding new_window latest
new_window-answers readings now small =
    answers-same readings (new_window now) (record { start = now; offsets = [] })
      (record {
        same_start = refl;
        full = zeros-length window_size;
        total = zeros-sum window_size;
        last = zeros-last window_size;
      })
      (omega (arith, small))
