-- ===== src/Scheduler/Router.antt =====
-- scheduler/router.py: `ReplicaRouter`. Its one lock makes each method a step of the whole state,
-- so a method is a function from the router to its result and the router after it.
pub mod Selection
pub mod Consistency
pub mod Reserve
pub mod Release
pub mod Capacity
pub mod History
use fin_serve.Prelude.{
  ℕ, suc, ◌+◌, String, Bool, true, false, not, ◌&&◌, ◌||◌, Option, none, some, List, [], ◌∷◌, map,
  leb, length, any, keep, is_some, if◌then◌else◌, ◌==◌, string_eq, nat_eq,
}
use fin_serve.Prelude.Float.{Float}
use fin_serve.Prelude.Text.{text_lt}
use fin_serve.Prelude.Result.{Result, ok, err, ◌>>=◌}
use fin_serve.Prelude.Dict.{Dict, lookup, insert, erase}
use fin_serve.Prelude.Set.{add as add_to_set, remove, contains, minus}
use fin_serve.Scheduler.Contracts.{
  LeaseId, lease_id_eq, ReplicaSnapshot, RoutingRequest, RoutingDecision, Mode,
}
use fin_serve.Scheduler.Policy.{
  RouterError, RoutingPolicy, Candidate, load, is_eligible, score_candidate,
}

pub record RoutingLease (T : Type 0) : Type 0 where
  pub lease_id : LeaseId
  pub decision : RoutingDecision T

pub record Router (T : Type 0) : Type 0 where
  pub policy : RoutingPolicy T
  pub max_replicas : ℕ
  pub snapshots : Dict String (ReplicaSnapshot T)
  pub leases : Dict LeaseId (RoutingLease T)
  pub replica_leases : Dict String (List LeaseId)
  pub owner : String
  pub sequence : ℕ

-- What a method returns or raises, and the router that it leaves.
abbrev pub Outcome : Type 0 → Type 0 → Type 0
Outcome T A = Result RouterError A × Router T

abbrev pub values : {K V : Type 0} → Dict K V → List V
values [] = []
values ((k, v) ∷ d) = v ∷ values d

abbrev pub get_or : {A : Type 0} → Option A → A → A
get_or none d = d
get_or (some a) d = a

abbrev pub or_empty : {A : Type 0} → Option (List A) → List A
or_empty none = []
or_empty (some xs) = xs

abbrev pub same_mode : Mode → Mode → Bool
same_mode Mode.least_load Mode.least_load = true
same_mode Mode.adaptive Mode.adaptive = true
same_mode _ _ = false

-- `ReplicaRouter.__init__`; `owner` is what `uuid4().hex` gave.
unfoldable pub init : {T : Type 0} → RoutingPolicy T → ℕ → String → Result RouterError (Router T)
init policy max_replicas owner =
    if leb 1 max_replicas
    then ok (record {
      policy = policy;
      max_replicas = max_replicas;
      snapshots = [];
      leases = [];
      replica_leases = [];
      owner = owner;
      sequence = 0;
    })
    else err RouterError.invalid_max_replicas

module _ (F : Float) where
  open F use {Carrier, le, lt, zero, is_finite}

  abbrev pub is_older : ReplicaSnapshot Carrier → Option (ReplicaSnapshot Carrier) → Bool
  is_older s none = false
  is_older s (some previous) = lt s.received_at previous.received_at

  unfoldable pub update_snapshot :
      ReplicaSnapshot Carrier → Router Carrier → Outcome Carrier (Unit {0})
  update_snapshot s r =
      let previous = lookup s.replica_id r.snapshots in
      if is_older s previous
      then (err RouterError.moved_backward, r)
      else if not (is_some previous) && leb r.max_replicas (length r.snapshots)
      then (err RouterError.limit_reached, r)
      else (ok tt, record r { snapshots = insert s.replica_id s r.snapshots })

  -- Leases that the replica's own count does not show yet.
  unfoldable pub unreflected : Router Carrier → ReplicaSnapshot Carrier → ℕ
  unreflected r s =
      length (minus (or_empty (lookup s.replica_id r.replica_leases)) s.reflected_lease_ids)

  -- `_candidate`
  unfoldable pub candidate : Router Carrier → ReplicaSnapshot Carrier → Candidate Carrier
  unfolding unreflected
  candidate r s = record {
    snapshot = s;
    effective_requests = s.ongoing_requests + s.queued_requests + unreflected r s;
  }

  -- `min(c.load for c in eligible)`, the first being `acc`
  unfoldable pub least_load : Carrier → List (Candidate Carrier) → Carrier
  least_load acc [] = acc
  least_load acc (c ∷ cs) = least_load (if lt (load F c) acc then load F c else acc) cs

  unfoldable pub score_all :
      RoutingRequest
      → RoutingPolicy Carrier
      → Carrier
      → Carrier
      → List (Candidate Carrier)
      → Result RouterError (List (RoutingDecision Carrier))
  score_all request policy minimum_load now [] = ok []
  score_all request policy minimum_load now (c ∷ cs) = do
    d ← score_candidate F c request policy minimum_load now
    ds ← score_all request policy minimum_load now cs
    ok (d ∷ ds)

  -- `a == b` on floats
  abbrev pub float_eq : Carrier → Carrier → Bool
  float_eq a b = le a b && le b a

  -- `(d.score, d.replica_id) < (e.score, e.replica_id)`
  unfoldable pub precedes : RoutingDecision Carrier → RoutingDecision Carrier → Bool
  precedes d e =
      if float_eq d.score e.score then text_lt d.replica_id e.replica_id else lt d.score e.score

  -- `min(decisions, key=...)`, the first being `acc`: a later one wins only if it is smaller.
  unfoldable pub first_least :
      RoutingDecision Carrier → List (RoutingDecision Carrier) → RoutingDecision Carrier
  first_least acc [] = acc
  first_least acc (d ∷ ds) = first_least (if precedes d acc then d else acc) ds

  abbrev pub pick : List (RoutingDecision Carrier) → Result RouterError (RoutingDecision Carrier)
  pick [] = err RouterError.no_replica
  pick (d ∷ ds) = ok (first_least d ds)

  -- A replica that would be eligible if it had no work.
  unfoldable pub eligible_if_idle :
      RoutingRequest → RoutingPolicy Carrier → Carrier → Candidate Carrier → Bool
  eligible_if_idle request policy now c =
      is_eligible F (record { snapshot = c.snapshot; effective_requests = 0 }) request policy now

  -- The choice of `reserve`, from all candidates and the eligible ones.
  unfoldable pub choose :
      RoutingRequest
      → RoutingPolicy Carrier
      → Carrier
      → List (Candidate Carrier)
      → List (Candidate Carrier)
      → Result RouterError (RoutingDecision Carrier)
  choose request policy now candidates [] =
      if any (eligible_if_idle request policy now) candidates
      then err RouterError.saturated
      else err RouterError.no_replica
  choose request policy now candidates (c ∷ cs) = do
    ds ← score_all request policy (least_load (load F c) cs) now (c ∷ cs)
    pick ds

  unfoldable pub candidates_of : Router Carrier → List (Candidate Carrier)
  candidates_of r = map (candidate r) (values r.snapshots)

  unfoldable pub eligible_of : RoutingRequest → Carrier → Router Carrier → List (Candidate Carrier)
  eligible_of request now r = keep (λ c. is_eligible F c request r.policy now) (candidates_of r)

  -- The lease of a decision, under the next number.
  unfoldable pub next_lease : Router Carrier → RoutingDecision Carrier → RoutingLease Carrier
  next_lease r d = record {
    lease_id = record { owner = r.owner; number = suc r.sequence };
    decision = d;
  }

  unfoldable pub grant : Router Carrier → RoutingDecision Carrier → Router Carrier
  unfolding next_lease
  grant r d =
      let lease = next_lease r d in
      let held = or_empty (lookup d.replica_id r.replica_leases) in
      record r {
        sequence = suc r.sequence;
        leases = insert lease.lease_id lease r.leases;
        replica_leases = insert d.replica_id (add_to_set lease.lease_id held) r.replica_leases;
      }

  abbrev pub settle :
      Router Carrier
      → Result RouterError (RoutingDecision Carrier)
      → Outcome Carrier (RoutingLease Carrier)
  settle r (err e) = (err e, r)
  settle r (ok d) = (ok (next_lease r d), grant r d)

  -- `now` is the caller's time, `monotonic` the clock's.
  unfoldable pub reserve :
      RoutingRequest
      → Option Carrier
      → Carrier
      → Router Carrier
      → Outcome Carrier (RoutingLease Carrier)
  reserve request now monotonic r =
      let timestamp = get_or now monotonic in
      if not (is_finite timestamp) || lt timestamp zero
      then (err RouterError.invalid_clock, r)
      else settle r
          (choose request r.policy timestamp (candidates_of r) (eligible_of request timestamp r))

  -- Equality of the dataclass, field by field.
  unfoldable pub decision_eq : RoutingDecision Carrier → RoutingDecision Carrier → Bool
  decision_eq a b =
      a.replica_id == b.replica_id
      && same_mode a.policy b.policy
      && float_eq a.score b.score
      && a.effective_requests == b.effective_requests
      && a.capacity == b.capacity
      && (if a.cache_affinity_used then b.cache_affinity_used else not b.cache_affinity_used)
      && float_eq a.snapshot_age_seconds b.snapshot_age_seconds

  unfoldable pub lease_eq : RoutingLease Carrier → RoutingLease Carrier → Bool
  unfolding decision_eq
  lease_eq a b = a.lease_id == b.lease_id && decision_eq a.decision b.decision

  abbrev pub is_held : Router Carrier → RoutingLease Carrier → Bool
  is_held r lease = elim (lookup lease.lease_id r.leases) [
    | none ↦ false
    | some known ↦ lease_eq known lease
  ]

  -- The deletion from `_leases` stands also where the index of the replica lacks the lease.
  unfoldable pub release : RoutingLease Carrier → Router Carrier → Outcome Carrier (Unit {0})
  release lease r =
      let id = lease.lease_id in
      let replica = lease.decision.replica_id in
      let dropped : Router Carrier = record r { leases = erase id r.leases } in
      if is_held r lease
      then elim (lookup replica r.replica_leases) [
        | none ↦ (err RouterError.missing_key, dropped)
        | some held ↦
            if contains id held
            then (
              ok tt,
              record dropped { replica_leases = insert replica (remove id held) r.replica_leases },
            )
            else (err RouterError.missing_key, dropped)
      ]
      else (err RouterError.unknown_lease, r)

  unfoldable pub active_reservations : Router Carrier → ℕ
  active_reservations r = length r.leases

  unfoldable pub forget_replica : String → Router Carrier → Outcome Carrier (Unit {0})
  forget_replica id r = elim (or_empty (lookup id r.replica_leases)) [
    | [] ↦ (
      ok tt,
      record r { snapshots = erase id r.snapshots; replica_leases = erase id r.replica_leases },
    )
    | lease ∷ rest ↦ (err RouterError.active_reservations, r)
  ]
