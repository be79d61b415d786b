-- ===== src/Segment/Source.antt =====
-- Where the ids of a buffer come from: from the segments that it holds, or from those that it loads.
use native.Mathlib.Decide.{dec_lt}
use nebula_id.Prelude.{
  ℕ, zero, suc, ◌≤◌, ◌<◌, ◌≡◌, refl, ◌⊎◌, inl, inr, Bool, true, false, List, [], ◌∷◌, Option, none,
  some, arith, Bool-cases, All, subst, sym, ap,
}
use nebula_id.Types.{ok, err}
use nebula_id.Types.UniqueId.{UniqueId}
use nebula_id.Segment.{
  Segment, SegmentData, Store, new_buffer, Answers, Outcome, waiting, returned, failed, set_next,
  swap, swap_with, new_segment, with_buffer, advance, install, count_hit, count_miss, count_failed,
  exhausted, obtain, need_switch, generate_rounds, generate,
}
use nebula_id.Segment.Order.{
  Chained, Sound, NextFrom, end_of, Ordered, Advances, generate-Advances, try_consume-some,
  try_consume-none, swap-Ordered, install-Ordered,
}
use nebula_id.Segment.Runs.{collect, issued_ids}

-- The numbers of the segments that the loader hands out.
abbrev pub Covered : Answers → ℕ → Type 0
Covered [] x = ⊥
Covered (err e ∷ answers) x = Covered answers x
Covered (ok d ∷ answers) x = ((d.start_id ≤ x) × (x < d.max_id)) ⊎ Covered answers x

abbrev Left : Segment → ℕ → Type 0
Left n x = (n.current_id ≤ x) × (x < n.max_id)

abbrev Queued : Option Segment → ℕ → Type 0
Queued none x = ⊥
Queued (some n) x = Left n x

-- The numbers that a buffer may still give.
abbrev Pending : Store → Answers → ℕ → Type 0
Pending s answers x = Left s.buffer.current x ⊎ (Queued s.buffer.next x ⊎ Covered answers x)

abbrev Fewer : Store → Answers → Store → Answers → Type 0
Fewer s' answers' s answers = (x : ℕ) → Pending s' answers' x → Pending s answers x

-- A finished call gives a number that was pending, and makes no number pending.
abbrev Comes : Store → Answers → Outcome UniqueId → Type 0
Comes s answers (waiting s') = Unit {0}
Comes s answers (returned id s' answers') = Pending s answers id.value × Fewer s' answers' s answers
Comes s answers (failed e s' answers') = Fewer s' answers' s answers

Comes-Fewer :
    (s' : Store) (answers' : Answers) (s : Store) (answers : Answers) (o : Outcome UniqueId)
    → Fewer s' answers' s answers
    → Comes s' answers' o
    → Comes s answers o
Comes-Fewer s' answers' s answers (waiting w) fewer c = tt
Comes-Fewer s' answers' s answers (returned id w more) fewer (pending, later) =
    (fewer id.value pending, λ x p. fewer x (later x p))
Comes-Fewer s' answers' s answers (failed e w more) fewer later = λ x p. fewer x (later x p)

swap-Fewer :
    (s : Store) (n : Segment) (answers : Answers)
    → s.buffer.next ≡ some n
    → Fewer (with_buffer s (swap s.buffer)) answers s answers
unfolding with_buffer swap swap_with
swap-Fewer s n answers e x pending = ground arith

install-Fewer :
    (s : Store) (d : SegmentData) (answers : Answers)
    → s.buffer.next ≡ none
    → Fewer (install (count_miss s) d) answers s (ok d ∷ answers)
unfolding install count_miss set_next swap swap_with new_segment
install-Fewer s d answers e x pending = ground arith

exhausted-Comes : (s : Store) (answers : Answers) → Comes s answers (exhausted s answers)
unfolding exhausted count_failed
exhausted-Comes s answers x pending = pending

obtain-Comes :
    (resume : Store → Answers → Outcome UniqueId) (s : Store) (next : Option Segment)
    (loading : Bool) (answers : Answers)
    → ((s' : Store) (answers' : Answers)
        → Ordered s' answers'
        → Comes s' answers' (resume s' answers'))
    → s.buffer.next ≡ next
    → Ordered s answers
    → Comes s answers (obtain resume s next loading answers)
unfolding obtain count_miss
obtain-Comes resume s (some n) loading answers go e v =
    let after = with_buffer s (swap s.buffer) in
    Comes-Fewer after answers s answers (resume after answers) (swap-Fewer s n answers e)
      (go after answers (swap-Ordered s n answers e v).0)
obtain-Comes resume s none true answers go e v = tt
obtain-Comes resume s none false [] go e v = tt
obtain-Comes resume s none false (err error ∷ answers) go e v = λ x pending. pending
obtain-Comes resume s none false (ok d ∷ answers) go e v =
    let after = install (count_miss s) d in
    Comes-Fewer after answers s (ok d ∷ answers) (resume after answers)
      (install-Fewer s d answers e) (go after answers (install-Ordered s d answers e v).0)

All-map : {P Q : ℕ → Type 0} (xs : List ℕ) → ((x : ℕ) → P x → Q x) → All P xs → All Q xs
All-map [] f all = tt
All-map (x ∷ xs) f all = (f x all.0, All-map xs f all.1)

collect-Pending :
    (s : Store) (answers : Answers) (later : Store → Answers → List ℕ) (o : Outcome UniqueId)
    → ((s' : Store) (answers' : Answers)
        → Ordered s' answers'
        → All (Pending s' answers') (later s' answers'))
    → (low : ℕ) → Advances low o
    → Comes s answers o
    → All (Pending s answers) (collect later o)
unfolding collect
collect-Pending s answers later (waiting w) go low v c = tt
collect-Pending s answers later (returned id w more) go low v (pending, fewer) =
    (pending, All-map (later w more) fewer (go w more v.0))
collect-Pending s answers later (failed e w more) go low v fewer =
    All-map (later w more) fewer (go w more v.0)

module _ (below : ℕ → ℕ → Bool) where
  rounds-Comes :
      (rounds : ℕ) (s : Store) (answers : Answers)
      → Ordered s answers
      → Comes s answers (generate_rounds below rounds s answers)
  unfolding generate_rounds count_hit advance
  rounds-Comes zero s answers v = exhausted-Comes s answers
  rounds-Comes (suc rounds) s answers v =
      elim (dec_lt s.buffer.current.current_id s.buffer.current.max_id) [
        | yes room ↦
            rw
              (
                try_consume-some s.buffer.current 1 (omega arith) (omega (arith, v.sound)),
                generate_rounds,
              )
              (inl (omega arith, omega arith), λ x pending. ground arith)
        | no empty ↦
            rw
              (
                try_consume-none s.buffer.current 1 (omega arith) (omega (arith, v.sound)),
                generate_rounds,
              )
              (elim (Bool-cases (need_switch below s.buffer)) [
                | inl needed ↦
                    rw (needed, generate_rounds)
                      (obtain-Comes (generate_rounds below rounds) s s.buffer.next s.buffer.loading
                        answers (rounds-Comes rounds) refl v)
                | inr kept ↦ rw (kept, generate_rounds) (rounds-Comes rounds s answers v)
              ])
      ]

  generate-Comes :
      (s : Store) (answers : Answers)
      → Ordered s answers
      → Comes s answers (generate below s answers)
  unfolding generate
  generate-Comes s answers v = rounds-Comes 3 s answers v

  issued_ids-Pending :
      (n : ℕ) (s : Store) (answers : Answers)
      → Ordered s answers
      → All (Pending s answers) (issued_ids below n s answers)
  unfolding issued_ids
  issued_ids-Pending zero s answers v = tt
  issued_ids-Pending (suc n) s answers v =
      collect-Pending s answers (issued_ids below n) (generate below s answers)
        (issued_ids-Pending n) s.buffer.current.current_id (generate-Advances below s answers v)
        (generate-Comes s answers v)

  -- A new buffer gives only numbers of the segments that it loads.
  pub issued_ids-Covered :
      (n : ℕ) (s : Store) (answers : Answers)
      → s.buffer ≡ new_buffer
      → Ordered s answers
      → All (Covered answers) (issued_ids below n s answers)
  unfolding new_buffer new_segment
  issued_ids-Covered n s answers e v =
      All-map (issued_ids below n s answers) (λ x pending. ground arith)
        (issued_ids-Pending n s answers v)

pub Chained-mono : (a b : ℕ) (answers : Answers) → a ≤ b → Chained b answers → Chained a answers
Chained-mono a b [] h chained = tt
Chained-mono a b (err e ∷ answers) h chained = Chained-mono a b answers h chained
Chained-mono a b (ok d ∷ answers) h chained = (omega arith, chained.1, chained.2, chained.3)

-- Answers in order are all that a new buffer needs.
pub new_buffer-Ordered :
    (s : Store) (low : ℕ) (answers : Answers)
    → s.buffer ≡ new_buffer
    → Chained low answers
    → Ordered s answers
unfolding new_buffer new_segment
new_buffer-Ordered s low answers e chained = record {
  sound = subst Sound (ap (λ b. b.current) (sym e)) (omega arith, omega arith);
  queued = subst (λ b. NextFrom b.current.max_id b.next) (sym e) tt;
  supplied =
      subst (λ b. Chained (end_of b.current.max_id b.next) answers) (sym e)
        (Chained-mono 0 low answers (omega arith) chained);
}
