-- ===== src/Reliability/Capacity/History.antt =====
-- The capacity policy over a sequence of samples.
use mathlib.Core.Path.{subst}
use fin_serve.Prelude.{
  ◌≡◌, ◌≤◌, refl, sym, none, List, [], ◌∷◌, ◌++◌, append_assoc, append-nil, arith,
}
use fin_serve.Prelude.Float.{Float}
use fin_serve.Prelude.Result.{Result, ok, err}
use fin_serve.Reliability.Capacity.{
  CapacityAction, CapacityPolicy, CapacityObservation, CapacityMemory, CapacityError,
  decide_capacity,
}
use fin_serve.Reliability.Capacity.Dwell.{
  IsEvidenced, Justified, later-IsEvidenced, decide_capacity-Justified,
}

module _ (F : Float) (p : CapacityPolicy F.Carrier) where
  open F use {Carrier}

  -- The memory after the samples, in order; one that raises leaves it as it was.
  abbrev pub memory_after :
      CapacityMemory Carrier
      → Result CapacityError (CapacityMemory Carrier × CapacityAction)
      → CapacityMemory Carrier
  memory_after m (ok (m', action)) = m'
  memory_after m (err e) = m

  unfoldable pub run :
      CapacityMemory Carrier → List (CapacityObservation Carrier) → CapacityMemory Carrier
  run m [] = m
  run m (o ∷ os) = run (memory_after m (decide_capacity F p o m)) os

  abbrev pub no_memory : CapacityMemory Carrier
  no_memory = record { last = none; high_streak = 0; low_streak = 0; last_action_seconds = none }

  no_memory-IsEvidenced : IsEvidenced F p [] no_memory
  no_memory-IsEvidenced o e = ground arith

  memory_after-IsEvidenced :
      (fed : List (CapacityObservation Carrier)) (o : CapacityObservation Carrier)
      (m : CapacityMemory Carrier)
      (r : Result CapacityError (CapacityMemory Carrier × CapacityAction))
      → 1 ≤ p.high_samples
      → 1 ≤ p.low_samples
      → IsEvidenced F p fed m
      → decide_capacity F p o m ≡ r
      → IsEvidenced F p (fed ++ o ∷ []) (memory_after m r)
  memory_after-IsEvidenced fed o m (err e) one_high one_low v h = later-IsEvidenced F p fed o m v
  memory_after-IsEvidenced fed o m (ok (m', action)) one_high one_low v h =
      (decide_capacity-Justified F p fed o m m' action one_high one_low v h).0

  run-IsEvidenced :
      (fed : List (CapacityObservation Carrier)) (m : CapacityMemory Carrier)
      (os : List (CapacityObservation Carrier))
      → 1 ≤ p.high_samples
      → 1 ≤ p.low_samples
      → IsEvidenced F p fed m
      → IsEvidenced F p (fed ++ os) (run m os)
  unfolding run
  run-IsEvidenced fed m [] one_high one_low v =
      subst (λ l. IsEvidenced F p l m) (sym (append-nil fed)) v
  run-IsEvidenced fed m (o ∷ os) one_high one_low v =
      subst (λ l. IsEvidenced F p l (run m (o ∷ os))) (append_assoc fed (o ∷ []) os)
        (run-IsEvidenced (fed ++ o ∷ []) (memory_after m (decide_capacity F p o m)) os one_high
          one_low
          (memory_after-IsEvidenced fed o m (decide_capacity F p o m) one_high one_low v refl))

  -- With positive sample counts, after any samples of a new memory an action is proposed only at
  -- the end of as many of those samples as the policy wants, which were fed in this order, spaced
  -- and without a gap, each past its threshold against the sample before it, and when the cooldown
  -- is over; the memory then starts a new dwell and cooldown.
  pub run-Justified :
      (os : List (CapacityObservation Carrier)) (o : CapacityObservation Carrier)
      (m' : CapacityMemory Carrier) (action : CapacityAction)
      → 1 ≤ p.high_samples
      → 1 ≤ p.low_samples
      → decide_capacity F p o (run no_memory os) ≡ ok (m', action)
      → Justified F p os o (run no_memory os) m' action
  run-Justified os o m' action one_high one_low h =
      (decide_capacity-Justified F p os o (run no_memory os) m' action one_high one_low
        (run-IsEvidenced [] no_memory os one_high one_low no_memory-IsEvidenced) h).1
