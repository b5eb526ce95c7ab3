-- ===== src/Reliability/Capacity/Tests.antt =====
-- The capacity policy at a concrete run, over floats in thousandths.
use fin_serve.Prelude.{ℕ, nat_eq, string_eq, refl, false, some, [], ◌∷◌, arith}
use fin_serve.Prelude.Int.{ℤ, pos}
use fin_serve.Prelude.Float.{thousandths}
use fin_serve.Reliability.Capacity.{
  CapacityAction, CapacityPolicy, CapacityObservation, decide_capacity, decide_after,
  fresh_decision, restart, high, low, consecutive, occupancy, rejected, observation_eq,
}
use fin_serve.Reliability.Capacity.Dwell.{Justified}
use fin_serve.Reliability.Capacity.History.{run, no_memory, run-Justified}

abbrev policy : CapacityPolicy ℤ
policy = record {
  sample_seconds = pos 1000;
  high_load = pos 800;
  low_load = pos 200;
  high_samples = 2;
  low_samples = 2;
  cooldown_seconds = pos 1000;
}

-- A full replica at second `n`.
abbrev busy : ℕ → ℤ → CapacityObservation ℤ
busy n seconds = record {
  sequence = n;
  epoch = "e";
  observed_seconds = seconds;
  serving_active = 4;
  serving_capacity = 4;
  members = 1;
  unresolved = false;
  rejected_total = 0;
}

run-Justified_example :
    Justified thousandths policy
      (busy 1 (pos 1000) ∷ busy 2 (pos 2000) ∷ [])
      (busy 3 (pos 3000))
      (run thousandths policy
        (no_memory thousandths policy)
        (busy 1 (pos 1000) ∷ busy 2 (pos 2000) ∷ []))
      (restart thousandths (busy 3 (pos 3000)) (some (pos 3000)))
      CapacityAction.up
unfolding run decide_capacity decide_after fresh_decision high low consecutive occupancy rejected
    observation_eq
run-Justified_example =
    run-Justified thousandths policy (busy 1 (pos 1000) ∷ busy 2 (pos 2000) ∷ [])
      (busy 3 (pos 3000)) (restart thousandths (busy 3 (pos 3000)) (some (pos 3000)))
      CapacityAction.up (ground arith) (ground arith) refl
