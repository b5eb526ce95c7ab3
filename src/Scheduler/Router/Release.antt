-- ===== src/Scheduler/Router/Release.antt =====
-- `ReplicaRouter.release` and `forget_replica` keep the invariant of `Consistency`.
use fin_serve.Prelude.{
  ◌≡◌, refl, ◌∙◌, true, false, ◌⊎◌, Option, none, some, List, [], ◌∷◌, String, arith, Bool-cases,
  Option-cases, inl, inr, ==_iff, string_eq,
}
use fin_serve.Prelude.Float.{Float}
use fin_serve.Prelude.Result.{ok, err}
use fin_serve.Prelude.Dict.{
  Dict, lookup, insert, erase, lookup-insert, lookup-erase, Distinct-insert, Distinct-erase,
  length-erase,
}
use fin_serve.Prelude.Set.{contains, remove, Unrepeated, contains-remove, Unrepeated-remove}
use fin_serve.Scheduler.Contracts.{LeaseId, lease_id_eq}
use fin_serve.Scheduler.Policy.{RouterError}
use fin_serve.Scheduler.Router.{
  Router, RoutingLease, release, forget_replica, or_empty, is_held, lease_eq,
}
use fin_serve.Scheduler.Router.Consistency.{IsConsistent, owned_by}

module _ (F : Float) where
  open F use {Carrier}

  -- A lease is out on one replica only.
  owned_by_one :
      (leases : Dict LeaseId (RoutingLease Carrier)) (k : LeaseId) (p q : String)
      → owned_by leases k p ≡ true
      → owned_by leases k q ≡ true
      → p ≡ q
  owned_by_one leases k p q h g = elim (Option-cases (lookup k leases)) [
    | inl missing ↦ ground arith
    | inr (lease, e) ↦
        ground (arith, ==_iff p lease.decision.replica_id, ==_iff q lease.decision.replica_id)
  ]

  released-IsConsistent :
      (lease : RoutingLease Carrier) (r : Router Carrier) (held : List LeaseId)
      → IsConsistent r
      → lookup lease.decision.replica_id r.replica_leases ≡ some held
      → contains lease.lease_id held ≡ true
      → IsConsistent (record r {
        leases = erase lease.lease_id r.leases;
        replica_leases =
            insert lease.decision.replica_id (remove lease.lease_id held) r.replica_leases;
      })
  released-IsConsistent lease r held v e c = record {
    issued = λ k l h.
        ground (arith, lookup-erase lease.lease_id k r.leases v.distinct_leases, v.issued k l);
    indexed = λ k p. ground (
      arith,
      lookup-insert lease.decision.replica_id p (remove lease.lease_id held) r.replica_leases,
      lookup-erase lease.lease_id k r.leases v.distinct_leases,
      contains-remove lease.lease_id k held unrepeated,
      v.indexed k p,
      v.indexed k lease.decision.replica_id,
      owned_by_one r.leases k p lease.decision.replica_id,
      ==_iff p lease.decision.replica_id,
      ==_iff k lease.lease_id,
    );
    unrepeated = λ p. ground (
      arith,
      lookup-insert lease.decision.replica_id p (remove lease.lease_id held) r.replica_leases,
      Unrepeated-remove lease.lease_id held unrepeated,
      v.unrepeated p,
    );
    distinct_leases = Distinct-erase _ r.leases v.distinct_leases;
    distinct_replicas = Distinct-insert _ _ r.replica_leases v.distinct_replicas;
    distinct_snapshots = v.distinct_snapshots;
    bounded = v.bounded;
  }
    where
      unrepeated : Unrepeated held
      unrepeated = ground (arith, v.unrepeated lease.decision.replica_id)

  -- A lease that is held is out on its replica.
  held-owned_by :
      (lease : RoutingLease Carrier) (r : Router Carrier)
      → is_held F r lease ≡ true
      → owned_by r.leases lease.lease_id lease.decision.replica_id ≡ true
  unfolding lease_eq
  held-owned_by lease r h = elim (Option-cases (lookup lease.lease_id r.leases)) [
    | inl missing ↦ ground arith
    | inr (known, e) ↦ ground (
      arith,
      ==_iff known.decision.replica_id lease.decision.replica_id,
      ==_iff lease.decision.replica_id known.decision.replica_id,
    )
  ]

  -- The router after `lease`, which the index holds in `held`, is given back.
  abbrev pub without : RoutingLease Carrier → List LeaseId → Router Carrier → Router Carrier
  without lease held r = record r {
    leases = erase lease.lease_id r.leases;
    replica_leases = insert lease.decision.replica_id (remove lease.lease_id held) r.replica_leases;
  }

  held_index :
      (lease : RoutingLease Carrier) (r : Router Carrier)
      → IsConsistent r
      → is_held F r lease ≡ true
      → (held : List LeaseId) × (lookup lease.decision.replica_id r.replica_leases ≡ some held)
        × (contains lease.lease_id held ≡ true)
  unfolding lease_eq contains
  held_index lease r v h =
      found (lookup lease.decision.replica_id r.replica_leases) refl
        (v.indexed lease.lease_id lease.decision.replica_id ∙ held-owned_by lease r h)
    where
      found :
          (o : Option (List LeaseId))
          → lookup lease.decision.replica_id r.replica_leases ≡ o
          → contains lease.lease_id (or_empty o) ≡ true
          → (held : List LeaseId) × (lookup lease.decision.replica_id r.replica_leases ≡ some held)
            × (contains lease.lease_id held ≡ true)
      found none e c = cc
      found (some held) e c = (held, e, c)

  -- Of a consistent router, releasing a lease that is not held is refused and changes nothing;
  -- releasing one that is held succeeds and takes it out of the table and of the set of its
  -- replica, so the lookups of the code find their keys.
  pub release_cases :
      (lease : RoutingLease Carrier) (r : Router Carrier)
      → IsConsistent r
      → ((is_held F r lease ≡ false) × (release F lease r ≡ (err RouterError.unknown_lease, r)))
        ⊎ ((held : List LeaseId) × (is_held F r lease ≡ true)
            × (lookup lease.decision.replica_id r.replica_leases ≡ some held)
            × (contains lease.lease_id held ≡ true)
            × (release F lease r ≡ (ok tt, without lease held r)))
  unfolding release
  release_cases lease r v = elim (Bool-cases (is_held F r lease)) [
    | inl h ↦ let (held, e, c) = held_index lease r v h in inr (held, h, e, c, ground arith)
    | inr h ↦ inl (h, ground arith)
  ]

  pub release-IsConsistent :
      (lease : RoutingLease Carrier) (r : Router Carrier)
      → IsConsistent r
      → IsConsistent (release F lease r).1
  release-IsConsistent lease r v = elim (release_cases lease r v) [
    | inl (h, e) ↦ rw e v
    | inr (held, h, e, c, same) ↦ rw same (released-IsConsistent lease r held v e c)
  ]

  forgotten-IsConsistent :
      (id : String) (r : Router Carrier)
      → IsConsistent r
      → or_empty (lookup id r.replica_leases) ≡ []
      → IsConsistent (record r {
        snapshots = erase id r.snapshots;
        replica_leases = erase id r.replica_leases;
      })
  unfolding contains Unrepeated
  forgotten-IsConsistent id r v e = record {
    issued = v.issued;
    indexed = λ k p.
        ground (
          arith,
          lookup-erase id p r.replica_leases v.distinct_replicas,
          v.indexed k p,
          ==_iff p id,
        );
    unrepeated =
        λ p. ground (arith, lookup-erase id p r.replica_leases v.distinct_replicas, v.unrepeated p);
    distinct_leases = v.distinct_leases;
    distinct_replicas = Distinct-erase id r.replica_leases v.distinct_replicas;
    distinct_snapshots = Distinct-erase id r.snapshots v.distinct_snapshots;
    bounded = ground (arith, v.bounded, length-erase id r.snapshots);
  }

  forget_drained :
      (id : String) (r : Router Carrier)
      → or_empty (lookup id r.replica_leases) ≡ []
      → (forget_replica F id r).1
        ≡ record r { snapshots = erase id r.snapshots; replica_leases = erase id r.replica_leases }
  unfolding forget_replica
  forget_drained id r e = ground arith

  forget_busy :
      (id : String) (r : Router Carrier) (k : LeaseId) (ks : List LeaseId)
      → or_empty (lookup id r.replica_leases) ≡ k ∷ ks
      → (forget_replica F id r).1 ≡ r
  unfolding forget_replica
  forget_busy id r k ks e = ground arith

  -- A replica is forgotten only when none of its leases is out, so the tables still agree.
  pub forget_replica-IsConsistent :
      (id : String) (r : Router Carrier) → IsConsistent r → IsConsistent (forget_replica F id r).1
  forget_replica-IsConsistent id r v = drained (or_empty (lookup id r.replica_leases)) refl
    where
      drained :
          (held : List LeaseId)
          → or_empty (lookup id r.replica_leases) ≡ held
          → IsConsistent (forget_replica F id r).1
      drained [] e = rw (forget_drained id r e) (forgotten-IsConsistent id r v e)
      drained (k ∷ ks) e = rw (forget_busy id r k ks e) v
