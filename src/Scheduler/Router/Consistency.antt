-- ===== src/Scheduler/Router/Consistency.antt =====
-- The invariant of `ReplicaRouter`: the two tables of leases agree, and every method keeps it so.
use fin_serve.Prelude.{
  ℕ, suc, ◌≡◌, ◌≤◌, refl, Bool, false, not, ◌||◌, ◌⊎◌, Option, none, some, List, [], String, arith,
  length, Bool-cases, Option-cases, inl, inr, ◌==◌, ==_iff, string_eq,
}
use fin_serve.Prelude.Float.{Float}
use fin_serve.Prelude.Result.{Result, ok, err}
use fin_serve.Prelude.Dict.{Dict, lookup, Distinct, lookup-insert, Distinct-insert, length-insert}
use fin_serve.Prelude.Set.{contains, add as add_to_set, Unrepeated, contains-add, Unrepeated-add}
use fin_serve.Scheduler.Contracts.{
  LeaseId, lease_id_eq, ReplicaSnapshot, RoutingRequest, RoutingDecision,
}
use fin_serve.Scheduler.Policy.{RouterError, RoutingPolicy}
use fin_serve.Scheduler.Router.{
  Router, RoutingLease, init, update_snapshot, reserve, grant, next_lease, or_empty, choose,
  candidates_of, eligible_of, get_or,
}

module _ {T : Type 0} where
  -- The lease `k` is out, and counts against the replica `p`.
  abbrev pub owned_by : Dict LeaseId (RoutingLease T) → LeaseId → String → Bool
  owned_by leases k p = on_replica p (lookup k leases)
    where
      on_replica : String → Option (RoutingLease T) → Bool
      on_replica p none = false
      on_replica p (some lease) = p == lease.decision.replica_id

  pub record IsConsistent (r : Router T) : Type 0 where
    -- Every lease stands under its own id, which this router has given out.
    pub issued :
        (k : LeaseId) (lease : RoutingLease T)
        → lookup k r.leases ≡ some lease
        → (lease.lease_id ≡ k) × (k.owner ≡ r.owner) × (k.number ≤ r.sequence)
    -- The index by replica holds exactly the leases that are out.
    pub indexed :
        (k : LeaseId) (p : String)
        → contains k (or_empty (lookup p r.replica_leases)) ≡ owned_by r.leases k p
    pub unrepeated : (p : String) → Unrepeated (or_empty (lookup p r.replica_leases))
    pub distinct_leases : Distinct r.leases
    pub distinct_replicas : Distinct r.replica_leases
    pub distinct_snapshots : Distinct r.snapshots
    pub bounded : length r.snapshots ≤ r.max_replicas

  init_fields :
      (policy : RoutingPolicy T) (max_replicas : ℕ) (owner : String) (r : Router T)
      → init policy max_replicas owner ≡ ok r
      → (r.snapshots ≡ []) × (r.leases ≡ []) × (r.replica_leases ≡ [])
  unfolding init
  init_fields policy max_replicas owner r h = ground arith

  -- A new router is consistent.
  pub init-IsConsistent :
      (policy : RoutingPolicy T) (max_replicas : ℕ) (owner : String) (r : Router T)
      → init policy max_replicas owner ≡ ok r
      → IsConsistent r
  unfolding lookup contains Unrepeated Distinct
  init-IsConsistent policy max_replicas owner r h =
      let (s, l, i) = init_fields policy max_replicas owner r h in
      record {
        issued = λ k lease e. ground (arith, l);
        indexed = λ k p. simp (l, i);
        unrepeated = λ p. simp i tt;
        distinct_leases = simp l tt;
        distinct_replicas = simp i tt;
        distinct_snapshots = simp s tt;
        bounded = simp s (omega arith);
      }

  -- The next id is not in use.
  pub next_id_is_free :
      (r : Router T)
      → IsConsistent r
      → lookup (record { owner = r.owner; number = suc r.sequence }) r.leases ≡ none
  next_id_is_free r v = elim (Option-cases (lookup id r.leases)) [
    | inl free ↦ free
    | inr (lease, e) ↦ absurd (omega (arith, v.issued id lease e))
  ]
    where
      id : LeaseId
      id = record { owner = r.owner; number = suc r.sequence }

module _ (F : Float) where
  open F use {Carrier, lt, zero, is_finite}

  -- A call of `reserve` leaves the router, or grants.
  reserve_cases :
      (request : RoutingRequest) (now : Option Carrier) (monotonic : Carrier) (r : Router Carrier)
      → ((reserve F request now monotonic r).1 ≡ r)
        ⊎ ((d : RoutingDecision Carrier) × ((reserve F request now monotonic r).1 ≡ grant F r d))
  unfolding reserve
  reserve_cases request now monotonic r = elim (Bool-cases (not (is_finite t) || lt t zero)) [
    | inl bad ↦ inl (ground arith)
    | inr good ↦
        settled (choose F request r.policy t (candidates_of F r) (eligible_of F request t r)) refl
          good
  ]
    where
      t : Carrier
      t = get_or now monotonic

      settled :
          (c : Result RouterError (RoutingDecision Carrier))
          → choose F request r.policy t (candidates_of F r) (eligible_of F request t r) ≡ c
          → (not (is_finite t) || lt t zero) ≡ false
          → ((reserve F request now monotonic r).1 ≡ r)
            ⊎ ((d : RoutingDecision Carrier) × ((reserve F request now monotonic r).1
                  ≡ grant F r d))
      settled (err e) k good = inl (ground arith)
      settled (ok d) k good = inr (d, ground arith)

  pub grant-IsConsistent :
      (r : Router Carrier) (d : RoutingDecision Carrier)
      → IsConsistent r
      → IsConsistent (grant F r d)
  unfolding grant next_lease
  grant-IsConsistent r d v = record {
    issued = λ k lease h.
        ground
          (arith, lookup-insert id k (next_lease F r d) r.leases, ==_iff k id, v.issued k lease);
    indexed = λ k p. ground (
      arith,
      lookup-insert d.replica_id p (add_to_set id held) r.replica_leases,
      lookup-insert id k (next_lease F r d) r.leases,
      contains-add id k held,
      v.indexed k p,
      v.indexed k d.replica_id,
      next_id_is_free r v,
      ==_iff p d.replica_id,
      ==_iff k id,
    );
    unrepeated = λ p. ground (
      arith,
      lookup-insert d.replica_id p (add_to_set id held) r.replica_leases,
      Unrepeated-add id held (v.unrepeated d.replica_id),
      v.unrepeated p,
    );
    distinct_leases = Distinct-insert _ _ r.leases v.distinct_leases;
    distinct_replicas = Distinct-insert _ _ r.replica_leases v.distinct_replicas;
    distinct_snapshots = v.distinct_snapshots;
    bounded = v.bounded;
  }
    where
      id : LeaseId
      id = record { owner = r.owner; number = suc r.sequence }

      held : List LeaseId
      held = or_empty (lookup d.replica_id r.replica_leases)

  -- A granted or refused reservation keeps the router consistent.
  pub reserve-IsConsistent :
      (request : RoutingRequest) (now : Option Carrier) (monotonic : Carrier) (r : Router Carrier)
      → IsConsistent r
      → IsConsistent (reserve F request now monotonic r).1
  unfolding reserve
  reserve-IsConsistent request now monotonic r v = elim (reserve_cases request now monotonic r) [
    | inl same ↦ rw same v
    | inr (d, same) ↦ rw same (grant-IsConsistent r d v)
  ]

  -- So does new telemetry.
  pub update_snapshot-IsConsistent :
      (s : ReplicaSnapshot Carrier) (r : Router Carrier)
      → IsConsistent r
      → IsConsistent (update_snapshot F s r).1
  unfolding update_snapshot
  update_snapshot-IsConsistent s r v = record {
    issued = λ k lease h. ground (arith, v.issued k lease);
    indexed = λ k p. ground (arith, v.indexed k p);
    unrepeated = λ p. ground (arith, v.unrepeated p);
    distinct_leases = ground arith;
    distinct_replicas = ground arith;
    distinct_snapshots =
        ground (arith, Distinct-insert s.replica_id s r.snapshots v.distinct_snapshots);
    bounded = ground (arith, length-insert s.replica_id s r.snapshots);
  }
