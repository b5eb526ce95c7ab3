-- ===== src/Scheduler/Policy.antt =====
-- scheduler/policy.py: which replicas are eligible, and the score of one.
use fin_serve.Prelude.{
  ℕ, Bool, true, false, not, ◌&&◌, ◌||◌, Option, none, some, ltb, is_some, if◌then◌else◌, ◌==◌,
  string_eq, option_eq,
}
use fin_serve.Prelude.Float.{Float}
use fin_serve.Prelude.Result.{Result, ok, err}
use fin_serve.Prelude.Set.{contains}
use fin_serve.Scheduler.Contracts.{ReplicaSnapshot, RoutingRequest, RoutingDecision, Mode}

pub data RouterError : Type 0 where
  -- ValueError
  invalid_clock moved_backward limit_reached invalid_max_replicas invalid_decision : RouterError
  -- NoReplicaAvailable, and its subclass ReplicaCapacityUnavailable
  no_replica saturated : RouterError
  -- RuntimeError
  unknown_lease active_reservations : RouterError
  -- KeyError
  missing_key : RouterError

pub record RoutingPolicy (T : Type 0) : Type 0 where
  pub mode : Mode
  pub snapshot_ttl_seconds : T
  pub gpu_memory_limit : T
  pub memory_weight : T
  pub cache_bonus : T
  pub cache_load_gap : T

pub record Candidate (T : Type 0) : Type 0 where
  pub snapshot : ReplicaSnapshot T
  pub effective_requests : ℕ

abbrev pub is_adaptive : Mode → Bool
is_adaptive Mode.least_load = false
is_adaptive Mode.adaptive = true

module _ (F : Float) where
  open F use {Carrier, le, lt, add, sub, mul, zero, ratio, is_finite}

  -- `Candidate.load`; it is read of eligible candidates, whose capacity is positive.
  unfoldable pub load : Candidate Carrier → Carrier
  load c = ratio c.effective_requests c.snapshot.capacity

  -- `0 <= now - t <= ttl`
  unfoldable pub is_fresh : RoutingPolicy Carrier → Carrier → Carrier → Bool
  is_fresh policy now t = let age = sub now t in le zero age && le age policy.snapshot_ttl_seconds

  unfoldable pub is_fresh_or_none : RoutingPolicy Carrier → Carrier → Option Carrier → Bool
  unfolding is_fresh
  is_fresh_or_none policy now none = true
  is_fresh_or_none policy now (some t) = is_fresh policy now t

  unfoldable pub is_below : Carrier → Option Carrier → Bool
  is_below limit none = false
  is_below limit (some x) = lt x limit

  unfoldable pub available : Candidate Carrier → Bool
  available c = ltb c.effective_requests c.snapshot.capacity && ltb 0 c.snapshot.capacity

  unfoldable pub matches_gpu : ReplicaSnapshot Carrier → RoutingRequest → Bool
  matches_gpu s request =
      (not request.requires_gpu || is_some s.gpu_type)
      && (not (is_some request.gpu_type) || request.gpu_type == s.gpu_type)

  unfoldable pub memory_safe : ReplicaSnapshot Carrier → RoutingPolicy Carrier → Carrier → Bool
  unfolding is_below is_fresh_or_none
  memory_safe s policy now =
      not (is_some s.gpu_type)
      || (is_below policy.gpu_memory_limit s.gpu_memory_utilization
          && is_fresh_or_none policy now s.gpu_observed_at)

  unfoldable pub is_eligible :
      Candidate Carrier → RoutingRequest → RoutingPolicy Carrier → Carrier → Bool
  unfolding is_fresh is_fresh_or_none available matches_gpu memory_safe
  is_eligible c request policy now =
      let s = c.snapshot in
      s.healthy
      && s.model == request.model
      && is_fresh policy now s.received_at
      && is_fresh_or_none policy now s.engine_observed_at
      && available c
      && matches_gpu s request
      && memory_safe s policy now

  -- The request's prefix is cached, and the load is within the gap of the least.
  unfoldable pub affinity :
      Candidate Carrier → RoutingRequest → RoutingPolicy Carrier → Carrier → Bool
  unfolding load
  affinity c request policy minimum_load =
      is_adaptive policy.mode
      && elim request.prefix_digest [
        | none ↦ false
        | some digest ↦ contains digest c.snapshot.cached_prefixes
      ]
      && le (load c) (add minimum_load policy.cache_load_gap)

  unfoldable pub memory_of : ReplicaSnapshot Carrier → Carrier
  memory_of s = elim s.gpu_type [
    | none ↦ zero
    | some name ↦ elim s.gpu_memory_utilization [ none ↦ zero | some x ↦ x ]
  ]

  -- `minimum_load` is the least load of the eligible candidates.
  unfoldable pub score_of :
      Candidate Carrier → RoutingRequest → RoutingPolicy Carrier → Carrier → Carrier
  unfolding load affinity memory_of
  score_of c request policy minimum_load =
      if is_adaptive policy.mode
      then add (load c) (
          sub (mul policy.memory_weight (memory_of c.snapshot))
            (if affinity c request policy minimum_load then policy.cache_bonus else zero))
      else load c

  unfoldable pub decision_of :
      Candidate Carrier
      → RoutingRequest
      → RoutingPolicy Carrier
      → Carrier
      → Carrier
      → RoutingDecision Carrier
  decision_of c request policy minimum_load now = record {
    replica_id = c.snapshot.replica_id;
    policy = policy.mode;
    score = score_of c request policy minimum_load;
    effective_requests = c.effective_requests;
    capacity = c.snapshot.capacity;
    cache_affinity_used = affinity c request policy minimum_load;
    snapshot_age_seconds = sub now c.snapshot.received_at;
  }

  -- The bounds of `RoutingDecision`, which its constructor checks.
  unfoldable pub is_decision : RoutingDecision Carrier → Bool
  is_decision d =
      is_finite d.score
      && is_finite d.snapshot_age_seconds
      && le zero d.snapshot_age_seconds
      && ltb 0 d.capacity

  unfoldable pub score_candidate :
      Candidate Carrier
      → RoutingRequest
      → RoutingPolicy Carrier
      → Carrier
      → Carrier
      → Result RouterError (RoutingDecision Carrier)
  unfolding decision_of is_decision
  score_candidate c request policy minimum_load now =
      let d = decision_of c request policy minimum_load now in
      if is_decision d then ok d else err RouterError.invalid_decision
