-- ===== src/Reliability/Capacity.antt =====
-- reliability/capacity_policy.py: the proposals of the capacity policy. `T` is the type of floats.
pub mod Dwell
pub mod History
mod Tests
use fin_serve.Prelude.{
  ℕ, suc, ◌+◌, String, Bool, true, false, not, ◌&&◌, ◌||◌, Option, none, some, ltb, leb, min,
  if◌then◌else◌, ◌==◌, ◌!=◌, nat_eq, string_eq,
}
use fin_serve.Prelude.Float.{Float}
use fin_serve.Prelude.Result.{Result, ok, err}

pub data CapacityAction : Type 0 where
  hold up down : CapacityAction

pub record CapacityPolicy (T : Type 0) : Type 0 where
  pub sample_seconds : T
  pub high_load : T
  pub low_load : T
  pub high_samples : ℕ
  pub low_samples : ℕ
  pub cooldown_seconds : T

pub record CapacityObservation (T : Type 0) : Type 0 where
  pub sequence : ℕ
  pub epoch : String
  pub observed_seconds : T
  pub serving_active : ℕ
  pub serving_capacity : ℕ
  pub members : ℕ
  pub unresolved : Bool
  pub rejected_total : ℕ

pub record CapacityMemory (T : Type 0) : Type 0 where
  pub last : Option (CapacityObservation T)
  pub high_streak : ℕ
  pub low_streak : ℕ
  pub last_action_seconds : Option T

-- The ValueErrors of the policy and of the decision.
pub data CapacityError : Type 0 where
  invalid_policy conflicting_content moved_backward : CapacityError

abbrev pub bool_eq : Bool → Bool → Bool
bool_eq a b = if a then b else not b

-- The streak after a sample: one more, from zero after a gap, and at most `samples`.
abbrev pub extend : ℕ → ℕ → Bool → Bool → ℕ
extend samples streak follows holds_now =
    if holds_now then min samples (suc (if follows then streak else 0)) else 0

abbrev pub choose_action : Bool → Bool → Bool → CapacityAction
choose_action is_cooled enough_high enough_low =
    if is_cooled && enough_high
    then CapacityAction.up
    else if is_cooled && enough_low
    then CapacityAction.down
    else CapacityAction.hold

module _ (F : Float) where
  open F use {Carrier, le, lt, sub, mul, ratio}

  -- `hysteresis`
  unfoldable pub hysteresis : CapacityPolicy Carrier → Result CapacityError (CapacityPolicy Carrier)
  hysteresis p =
      if le p.high_load p.low_load || ltb p.low_samples p.high_samples
      then err CapacityError.invalid_policy
      else ok p

  unfoldable pub observation_eq : CapacityObservation Carrier → CapacityObservation Carrier → Bool
  observation_eq a b =
      a.sequence == b.sequence
      && a.epoch == b.epoch
      && (le a.observed_seconds b.observed_seconds && le b.observed_seconds a.observed_seconds)
      && a.serving_active == b.serving_active
      && a.serving_capacity == b.serving_capacity
      && a.members == b.members
      && bool_eq a.unresolved b.unresolved
      && a.rejected_total == b.rejected_total

  -- A sample that follows the previous one without a gap.
  unfoldable pub consecutive :
      CapacityPolicy Carrier → CapacityObservation Carrier → CapacityObservation Carrier → Bool
  consecutive p previous o =
      o.sequence == suc previous.sequence
      && le (sub o.observed_seconds previous.observed_seconds) (mul (ratio 2 1) p.sample_seconds)

  unfoldable pub rejected : CapacityObservation Carrier → CapacityObservation Carrier → Bool
  rejected previous o = ltb previous.rejected_total o.rejected_total

  unfoldable pub occupancy : CapacityObservation Carrier → Carrier
  occupancy o = ratio o.serving_active o.serving_capacity

  unfoldable pub high :
      CapacityPolicy Carrier → CapacityObservation Carrier → CapacityObservation Carrier → Bool
  high p previous o = o.members == 1 && (le p.high_load (occupancy o) || rejected previous o)

  unfoldable pub low :
      CapacityPolicy Carrier → CapacityObservation Carrier → CapacityObservation Carrier → Bool
  low p previous o =
      o.members == 2 && le (occupancy o) p.low_load && not (rejected previous o) && not o.unresolved

  abbrev pub cooled : CapacityPolicy Carrier → CapacityObservation Carrier → Option Carrier → Bool
  cooled p o none = false
  cooled p o (some t) = le p.cooldown_seconds (sub o.observed_seconds t)

  -- A decision consumes its dwell.
  abbrev pub remember :
      CapacityObservation Carrier
      → Option Carrier
      → ℕ
      → ℕ
      → CapacityAction
      → CapacityMemory Carrier × CapacityAction
  remember o last_action high_streak low_streak CapacityAction.hold = (
    record {
      last = some o;
      high_streak = high_streak;
      low_streak = low_streak;
      last_action_seconds = last_action;
    },
    CapacityAction.hold,
  )
  remember o last_action high_streak low_streak action = (
    record {
      last = some o;
      high_streak = 0;
      low_streak = 0;
      last_action_seconds = some o.observed_seconds;
    },
    action,
  )

  abbrev pub high_after :
      CapacityPolicy Carrier
      → CapacityObservation Carrier
      → CapacityObservation Carrier
      → CapacityMemory Carrier
      → ℕ
  high_after p previous o m =
      extend p.high_samples m.high_streak (consecutive p previous o) (high p previous o)

  abbrev pub low_after :
      CapacityPolicy Carrier
      → CapacityObservation Carrier
      → CapacityObservation Carrier
      → CapacityMemory Carrier
      → ℕ
  low_after p previous o m =
      extend p.low_samples m.low_streak (consecutive p previous o) (low p previous o)

  -- `_fresh_decision`; `previous` is the memory's last observation.
  unfoldable pub fresh_decision :
      CapacityPolicy Carrier
      → CapacityObservation Carrier
      → CapacityObservation Carrier
      → CapacityMemory Carrier
      → CapacityMemory Carrier × CapacityAction
  fresh_decision p previous o m =
      remember o m.last_action_seconds (high_after p previous o m) (low_after p previous o m) (
        choose_action (cooled p o m.last_action_seconds)
          (leb p.high_samples (high_after p previous o m))
          (leb p.low_samples (low_after p previous o m)))

  -- A memory without dwell.
  abbrev pub restart : CapacityObservation Carrier → Option Carrier → CapacityMemory Carrier
  restart o last_action = record {
    last = some o;
    high_streak = 0;
    low_streak = 0;
    last_action_seconds = last_action;
  }

  unfoldable pub decide_after :
      CapacityPolicy Carrier
      → CapacityObservation Carrier
      → CapacityObservation Carrier
      → CapacityMemory Carrier
      → Result CapacityError (CapacityMemory Carrier × CapacityAction)
  decide_after p previous o m =
      if o.epoch != previous.epoch
      then ok (restart o (some o.observed_seconds), CapacityAction.hold)
      else if ltb o.sequence previous.sequence
      then ok (m, CapacityAction.hold)
      else if o.sequence == previous.sequence
      then (if not (observation_eq o previous)
          then err CapacityError.conflicting_content
          else ok (m, CapacityAction.hold))
      else if lt o.observed_seconds previous.observed_seconds
          || ltb o.rejected_total previous.rejected_total
      then err CapacityError.moved_backward
      else if o.members != previous.members
      then ok (restart o (some o.observed_seconds), CapacityAction.hold)
      else if lt (sub o.observed_seconds previous.observed_seconds) p.sample_seconds
      then ok (restart o m.last_action_seconds, CapacityAction.hold)
      else ok (fresh_decision p previous o m)

  unfoldable pub decide_capacity :
      CapacityPolicy Carrier
      → CapacityObservation Carrier
      → CapacityMemory Carrier
      → Result CapacityError (CapacityMemory Carrier × CapacityAction)
  decide_capacity p o m = elim m.last [
    | none ↦ ok (restart o (some o.observed_seconds), CapacityAction.hold)
    | some previous ↦ decide_after p previous o m
  ]
