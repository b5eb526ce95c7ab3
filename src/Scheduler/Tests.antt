-- ===== src/Scheduler/Tests.antt =====
-- Runs of the router over floats in thousandths, and the theorems at such runs.
use fin_serve.Prelude.{
  string_eq, ℕ, ◌≡◌, ◌≤◌, ◌⊎◌, refl, inl, inr, true, false, none, some, List, [], ◌∷◌, String, suc,
  In,
}
use fin_serve.Prelude.Int.{ℤ, pos}
use fin_serve.Prelude.Float.{thousandths}
use fin_serve.Prelude.Result.{ok, err}
use fin_serve.Prelude.Dict.{Dict, lookup, insert, erase}
use fin_serve.Prelude.Set.{contains, add, remove, minus}
use fin_serve.Scheduler.Contracts.{
  LeaseId, lease_id_eq, Mode, ReplicaSnapshot, RoutingRequest, RoutingDecision,
}
use fin_serve.Scheduler.Policy.{
  RoutingPolicy, RouterError, Candidate, is_eligible, score_candidate, affinity, score_of,
}
use fin_serve.Scheduler.Eligibility.{Fits}
use fin_serve.Scheduler.Router.{
  Router, RoutingLease, init, update_snapshot, reserve, release, grant, next_lease, candidate,
  choose, values, score_all, first_least, precedes, candidates_of, eligible_of, least_load,
  eligible_if_idle, lease_eq, is_held,
}
use fin_serve.Scheduler.Router.Reserve.{
  Granted, Means, reserve-Granted, reserve-Fits, reserve-Means,
}
use fin_serve.Scheduler.Router.Consistency.{IsConsistent, init-IsConsistent}
use fin_serve.Scheduler.Router.Release.{release_cases, without}
use fin_serve.Scheduler.Router.Capacity.{
  IsUnannounced, load_of, reserve-within_capacity, release-reserve,
}
use fin_serve.Scheduler.Router.History.{run, step, Call, run-IsConsistent}

abbrev policy : RoutingPolicy ℤ
policy = record {
  mode = Mode.adaptive;
  snapshot_ttl_seconds = pos 5000;
  gpu_memory_limit = pos 950;
  memory_weight = pos 200;
  cache_bonus = pos 100;
  cache_load_gap = pos 150;
}

abbrev replica : String → ℕ → ℕ → ReplicaSnapshot ℤ
replica id capacity ongoing = record {
  replica_id = id;
  model = "m";
  received_at = pos 1000;
  healthy = true;
  capacity = capacity;
  ongoing_requests = ongoing;
  queued_requests = 0;
  gpu_type = some "a10";
  gpu_device_id = none;
  gpu_memory_utilization = some (pos 500);
  gpu_observed_at = none;
  engine_running_requests = none;
  engine_waiting_requests = none;
  kv_cache_utilization = none;
  engine_observed_at = none;
  cached_prefixes = [];
  reflected_lease_ids = [];
}

abbrev request : RoutingRequest
request = record { model = "m"; requires_gpu = true; gpu_type = some "a10"; prefix_digest = none }

abbrev new_router : Router ℤ
new_router = record {
  policy = policy;
  max_replicas = 2;
  snapshots = [];
  leases = [];
  replica_leases = [];
  owner = "r";
  sequence = 0;
}

-- Two replicas, the first with one request of two.
abbrev router : Router ℤ
router = record new_router { snapshots = ("a", replica "a" 2 1) ∷ ("b", replica "b" 2 0) ∷ [] }

abbrev decision : RoutingDecision ℤ
decision = record {
  replica_id = "b";
  policy = Mode.adaptive;
  score = pos 100;
  effective_requests = 0;
  capacity = 2;
  cache_affinity_used = false;
  snapshot_age_seconds = pos 1000;
}

abbrev lease : RoutingLease ℤ
lease = record { lease_id = record { owner = "r"; number = 1 }; decision = decision }

abbrev reserved : Router ℤ
reserved = record router {
  leases = (lease.lease_id, lease) ∷ [];
  replica_leases = ("b", lease.lease_id ∷ []) ∷ [];
  sequence = 1;
}

-- The idle replica is chosen.
reserve_idle : reserve thousandths request (some (pos 2000)) (pos 0) router ≡ (ok lease, reserved)
unfolding reserve choose candidates_of eligible_of candidate is_eligible score_all score_candidate
    first_least precedes least_load grant next_lease lookup insert add minus contains score_of
    affinity
reserve_idle = refl

reserve_full :
    reserve thousandths request
      (some (pos 2000))
      (pos 0)
      (record router { snapshots = ("a", replica "a" 1 1) ∷ [] })
    ≡ (err RouterError.saturated, record router { snapshots = ("a", replica "a" 1 1) ∷ [] })
unfolding reserve choose candidates_of eligible_of candidate is_eligible lookup minus contains
    eligible_if_idle
reserve_full = refl

new_router-IsConsistent : IsConsistent new_router
unfolding init
new_router-IsConsistent = init-IsConsistent policy 2 "r" new_router refl

router-IsConsistent : IsConsistent router
unfolding run update_snapshot lookup insert init
router-IsConsistent =
    run-IsConsistent thousandths policy 2 "r" new_router
      (Call.updates (replica "a" 2 1) ∷ Call.updates (replica "b" 2 0) ∷ []) refl

reserve-Fits_example :
    (c : Candidate ℤ) × In c (candidates_of thousandths router)
    × Fits thousandths c request policy (pos 2000)
    × (c.snapshot.replica_id ≡ "b")
    × (c.effective_requests ≡ 0)
    × (c.snapshot.capacity ≡ 2)
reserve-Fits_example =
    reserve-Fits thousandths request (some (pos 2000)) (pos 0) router reserved lease reserve_idle

reserve-Granted_example : Granted thousandths request (pos 2000) router lease reserved
reserve-Granted_example =
    reserve-Granted thousandths request (some (pos 2000)) (pos 0) router reserved lease reserve_idle

reserve-Means_example :
    let full = record router { snapshots = ("a", replica "a" 1 1) ∷ [] } in
    Means thousandths request policy
      (pos 2000)
      (candidates_of thousandths full)
      RouterError.saturated
    × (full ≡ full)
reserve-Means_example =
    reserve-Means thousandths request (some (pos 2000)) (pos 0)
      (record router { snapshots = ("a", replica "a" 1 1) ∷ [] })
      (record router { snapshots = ("a", replica "a" 1 1) ∷ [] }) RouterError.saturated reserve_full

router-IsUnannounced : IsUnannounced thousandths router
unfolding contains
router-IsUnannounced s (inl e) = rw e refl
router-IsUnannounced s (inr (inl e)) = rw e refl
router-IsUnannounced s (inr (inr m)) = absurd m

reserve-within_capacity_example :
    (s : ReplicaSnapshot ℤ) × In s (values router.snapshots)
    × ◌≡◌ {A = String} s.replica_id "b"
    × (load_of thousandths reserved s ≡ suc (load_of thousandths router s))
    × (load_of thousandths reserved s ≤ s.capacity)
reserve-within_capacity_example =
    reserve-within_capacity thousandths request (some (pos 2000)) (pos 0) router reserved lease
      router-IsConsistent router-IsUnannounced reserve_idle

release-reserve_example :
    (r : Router ℤ) × (release thousandths lease reserved ≡ (ok tt, r))
    × ◌≡◌ {A = Dict LeaseId (RoutingLease ℤ)} r.leases []
    × ((s : ReplicaSnapshot ℤ) → load_of thousandths r s ≡ load_of thousandths router s)
release-reserve_example =
    release-reserve thousandths request (some (pos 2000)) (pos 0) router reserved lease
      router-IsConsistent reserve_idle

reserved-IsConsistent : IsConsistent reserved
unfolding run step update_snapshot lookup insert init reserve choose candidates_of eligible_of
    candidate is_eligible score_all score_candidate first_least precedes least_load grant next_lease
    add minus contains score_of affinity
reserved-IsConsistent =
    run-IsConsistent thousandths policy 2 "r" new_router
      (Call.updates (replica "a" 2 1)
        ∷ Call.updates (replica "b" 2 0)
        ∷ Call.reserves request (some (pos 2000)) (pos 0)
        ∷ [])
      refl

abbrev drained : Router ℤ
drained = record reserved { leases = []; replica_leases = ("b", []) ∷ [] }

release_once : release thousandths lease reserved ≡ (ok tt, drained)
unfolding release lookup insert erase contains remove lease_eq
release_once = refl

release_cases_example :
    ((is_held thousandths reserved lease ≡ false)
      × (release thousandths lease reserved ≡ (err RouterError.unknown_lease, reserved)))
    ⊎ ((held : List LeaseId) × (is_held thousandths reserved lease ≡ true)
        × (lookup "b" reserved.replica_leases ≡ some held)
        × (contains lease.lease_id held ≡ true)
        × (release thousandths lease reserved ≡ (ok tt, without thousandths lease held reserved)))
release_cases_example = release_cases thousandths lease reserved reserved-IsConsistent

run-IsConsistent_example :
    IsConsistent
      (run thousandths new_router (Call.updates (replica "a" 2 1) ∷ Call.forgets "a" ∷ []))
unfolding init
run-IsConsistent_example =
    run-IsConsistent thousandths policy 2 "r" new_router
      (Call.updates (replica "a" 2 1) ∷ Call.forgets "a" ∷ []) refl

newer : ReplicaSnapshot ℤ
newer = record (replica "a" 2 1) { received_at = pos 1500 }
