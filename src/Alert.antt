-- ===== src/Alert.antt =====
-- src/core/monitoring/core.rs: the state of an alert rule and the evaluation of a rule, for one
-- evaluation at a time.
--
-- Whether the rule's condition holds, with the value it saw, is what the evaluator answers, which
-- parses and compares floating-point numbers. Instants are nanoseconds. An alert is its status; its
-- texts and labels, the history and the channels it is sent to are left out.
pub mod Alternation
mod Tests
use Prim.Native.String.{String}
use nebula_id.Prelude.{
  ℕ, ◌+◌, ◌-◌, ◌/◌, Bool, true, false, not, ◌&&◌, List, [], ◌∷◌, Option, none, some, if◌then◌else◌,
  ltb, leb, ◌==◌, min,
}

pub data AlertStatus : Type 0 where
  pending firing resolved : AlertStatus

pub data AlertAction : Type 0 where
  fire resolve : AlertAction

pub record AlertState : Type 0 where
  pub last_fired : Option ℕ
  pub consecutive_promotions : ℕ  -- u8
  pub current_status : AlertStatus
  pub pending_since : Option ℕ
  pub current_value : Option String

unfoldable pub new_state : AlertState
new_state = record {
  last_fired = none;
  consecutive_promotions = 0;
  current_status = pending;
  pending_since = none;
  current_value = none;
}

unfoldable pub is_firing : AlertStatus → Bool
is_firing pending = false
is_firing firing = true
is_firing resolved = false

unfoldable pub waited : ℕ → ℕ → Option ℕ → Bool
waited now for_duration none = false
waited now for_duration (some since) = leb for_duration ((now - since) / 1_000_000_000)

unfoldable pub should_fire : ℕ → AlertState → ℕ → Bool
should_fire now s for_duration =
    waited now for_duration s.pending_since && ltb 0 s.consecutive_promotions

-- `get_or_insert`
unfoldable pub since_or : Option ℕ → ℕ → Option ℕ
since_or none now = some now
since_or (some since) now = some since

unfoldable pub promote : ℕ → Option String → AlertState → AlertState
promote now value s = record s {
  consecutive_promotions = min (s.consecutive_promotions + 1) 255;
  current_value = value;
  pending_since =
      if is_firing s.current_status then s.pending_since else since_or s.pending_since now;
}

unfoldable pub demote : AlertState → AlertState
demote s =
    let left = s.consecutive_promotions - 1 in
    record s {
      consecutive_promotions = left;
      pending_since = if left == 0 then none else s.pending_since;
    }

unfoldable pub reset : AlertState → AlertState
reset s = record s {
  consecutive_promotions = 0;
  pending_since = none;
  current_status = pending;
  current_value = none;
}

-- An evaluation of a rule: what the evaluator says, and the clock when the state is promoted, when it is
-- tested and when it fires.
pub record Evaluation : Type 0 where
  pub holds : Bool
  pub value : Option String
  pub promoted_at : ℕ
  pub tested_at : ℕ
  pub fired_at : ℕ

unfoldable pub fire_if : Evaluation → ℕ → AlertState → Option AlertAction × AlertState
fire_if e for_duration s =
    if should_fire e.tested_at s for_duration && not (is_firing s.current_status)
    then (some fire, record s { current_status = firing; last_fired = some e.fired_at })
    else (none, s)

unfoldable pub resolve_if : AlertState → Option AlertAction × AlertState
resolve_if s =
    if is_firing s.current_status && s.consecutive_promotions == 0
    then (some resolve, record s { current_status = resolved })
    else (none, s)

unfoldable pub evaluate_rule : Evaluation → ℕ → AlertState → Option AlertAction × AlertState
evaluate_rule e for_duration s =
    if e.holds
    then fire_if e for_duration (promote e.promoted_at e.value s)
    else resolve_if (demote s)
