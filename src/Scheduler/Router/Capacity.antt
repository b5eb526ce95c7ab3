-- ===== src/Scheduler/Router/Capacity.antt =====
-- A reservation takes one place of its replica, a release gives it back, and a lease is good for
-- one release.
use fin_serve.Prelude.{
  ℕ, suc, ◌+◌, ◌≡◌, ◌≤◌, refl, sym, ap, ◌∙◌, true, false, Option, none, some, List, arith, String,
  length, In, In-keep, In-map, inl, inr, ==_refl, ==_iff, string_eq,
}
use mathlib.Core.Path.{subst, subst₂}
use fin_serve.Prelude.Float.{Float}
use fin_serve.Prelude.Result.{ok, err}
use fin_serve.Prelude.Dict.{
  lookup, insert, erase, lookup-insert, lookup-insert_self, lookup-erase, erase-insert_new,
}
use fin_serve.Prelude.Set.{contains, minus, remove, add as add_to_set, length-minus-add, remove-add}
use fin_serve.Scheduler.Contracts.{
  LeaseId, lease_id_eq, ReplicaSnapshot, RoutingRequest, RoutingDecision, Mode,
}
use fin_serve.Scheduler.Policy.{Candidate, RouterError, RoutingPolicy, score_candidate, is_eligible}
use fin_serve.Scheduler.Router.{
  Router, RoutingLease, reserve, release, grant, next_lease, candidate, unreflected, candidates_of,
  eligible_of, same_mode, values, or_empty, get_or, lease_eq, is_held,
}
use fin_serve.Scheduler.Router.Selection.{finite-le_refl}
use fin_serve.Scheduler.Router.Reserve.{Granted, reserve-Granted}
use fin_serve.Scheduler.Router.Consistency.{IsConsistent, next_id_is_free, grant-IsConsistent}
use fin_serve.Scheduler.Router.Release.{release_cases, without}

module _ (F : Float) where
  open F use {Carrier, is_finite, le}

  abbrev pub load_of : Router Carrier → ReplicaSnapshot Carrier → ℕ
  load_of r s = (candidate F r s).effective_requests

  abbrev pub next_id : Router Carrier → LeaseId
  next_id r = record { owner = r.owner; number = suc r.sequence }

  -- No telemetry names a lease that is yet to be given out.
  abbrev pub IsUnannounced : Router Carrier → Type 0
  IsUnannounced r =
      (s : ReplicaSnapshot Carrier)
      → In s (values r.snapshots)
      → contains (next_id r) s.reflected_lease_ids ≡ false

  score_candidate-replica_id :
      (c : Candidate Carrier) (request : RoutingRequest) (policy : RoutingPolicy Carrier)
      (m now : Carrier) (d : RoutingDecision Carrier)
      → score_candidate F c request policy m now ≡ ok d
      → (d.replica_id ≡ c.snapshot.replica_id)
        × (is_finite d.score ≡ true)
        × (is_finite d.snapshot_age_seconds ≡ true)
  unfolding score_candidate
  score_candidate-replica_id c request policy m now d h = ground arith

  -- A grant adds one to the load of the replica that it is granted on.
  grant-load_of :
      (r : Router Carrier) (d : RoutingDecision Carrier) (s : ReplicaSnapshot Carrier)
      → IsConsistent r
      → contains (next_id r) s.reflected_lease_ids ≡ false
      → s.replica_id ≡ d.replica_id
      → load_of (grant F r d) s ≡ suc (load_of r s)
  unfolding grant next_lease candidate
  grant-load_of r d s v free same = rw same (
      ground (
        arith,
        lookup-insert_self d.replica_id (add_to_set (next_id r) held) r.replica_leases,
        length-minus-add (next_id r) held s.reflected_lease_ids,
        v.indexed (next_id r) d.replica_id,
        next_id_is_free r v,
      ))
    where
      held : List LeaseId
      held = or_empty (lookup d.replica_id r.replica_leases)

  taken-load_of :
      (request : RoutingRequest) (now : Carrier) (r r' : Router Carrier)
      (lease : RoutingLease Carrier)
      → IsConsistent r
      → IsUnannounced r
      → Granted F request now r lease r'
      → (s : ReplicaSnapshot Carrier) × In s (values r.snapshots)
        × (s.replica_id ≡ lease.decision.replica_id)
        × (load_of r' s ≡ suc (load_of r s))
        × (load_of r' s ≤ s.capacity)
  unfolding candidates_of eligible_of candidate
  taken-load_of request now r r' lease v free g =
      let (eligible, known) =
        In-keep (λ c. is_eligible F c request r.policy now) g.best.chosen (candidates_of F r)
          g.best.among in
      let (s, there, same) = In-map (candidate F r) g.best.chosen (values r.snapshots) known in
      let (named, _, _) =
        score_candidate-replica_id g.best.chosen request r.policy _ now lease.decision
          g.best.scored in
      let id : s.replica_id ≡ lease.decision.replica_id =
        sym (named ∙ ap (λ c. c.snapshot.replica_id) same) in
      let after : load_of r' s ≡ suc (load_of r s) =
        ap (λ x. load_of x s) g.after ∙ grant-load_of r lease.decision s v (free s there) id in
      (
        s,
        there,
        id,
        after,
        omega (
          arith,
          after,
          g.fits.room,
          ap (λ c. c.effective_requests) same,
          ap (λ c. c.snapshot.capacity) same,
        ),
      )

  -- In a consistent router, while no snapshot announces the next lease already, a granted
  -- reservation leaves the chosen replica with at most `capacity` requests: its reported work and
  -- its unreported leases, the new one included.
  pub reserve-within_capacity :
      (request : RoutingRequest) (now : Option Carrier) (monotonic : Carrier)
      (r r' : Router Carrier) (lease : RoutingLease Carrier)
      → IsConsistent r
      → IsUnannounced r
      → reserve F request now monotonic r ≡ (ok lease, r')
      → (s : ReplicaSnapshot Carrier) × In s (values r.snapshots)
        × (s.replica_id ≡ lease.decision.replica_id)
        × (load_of r' s ≡ suc (load_of r s))
        × (load_of r' s ≤ s.capacity)
  reserve-within_capacity request now monotonic r r' lease v free h =
      taken-load_of request (get_or now monotonic) r r' lease v free
        (reserve-Granted F request now monotonic r r' lease h)

  not_held :
      (lease : RoutingLease Carrier) (r : Router Carrier)
      → lookup lease.lease_id r.leases ≡ none
      → release F lease r ≡ (err RouterError.unknown_lease, r)
  unfolding release
  not_held lease r h = ground arith

  -- Once a release has succeeded on a consistent router, releasing the same lease again is refused
  -- as unknown and changes nothing.
  pub release_twice :
      (lease : RoutingLease Carrier) (r r' : Router Carrier)
      → IsConsistent r
      → release F lease r ≡ (ok tt, r')
      → release F lease r' ≡ (err RouterError.unknown_lease, r')
  release_twice lease r r' v h = elim (release_cases F lease r v) [
    | inl (_, e) ↦ ground arith
    | inr (held, _, _, _, e) ↦
        subst (λ x. release F lease x ≡ (err RouterError.unknown_lease, x))
          (ap (λ p. p.1) (sym e ∙ h)) (not_held lease (without F lease held r) gone)
  ]
    where
      gone : lookup lease.lease_id (erase lease.lease_id r.leases) ≡ none
      gone = ground (
        arith,
        lookup-erase lease.lease_id lease.lease_id r.leases v.distinct_leases,
        ==_refl lease.lease_id,
      )

  same_mode_refl : (m : Mode) → same_mode m m ≡ true
  same_mode_refl Mode.least_load = refl
  same_mode_refl Mode.adaptive = refl

  lease_eq_refl :
      (lease : RoutingLease Carrier)
      → is_finite lease.decision.score ≡ true
      → is_finite lease.decision.snapshot_age_seconds ≡ true
      → lease_eq F lease lease ≡ true
  unfolding lease_eq
  lease_eq_refl lease f g = ground (
    arith,
    finite-le_refl F lease.decision.score f,
    finite-le_refl F lease.decision.snapshot_age_seconds g,
    ==_refl lease.lease_id,
    ==_refl lease.decision.replica_id,
    same_mode_refl lease.decision.policy,
  )

  grant-is_held :
      (r : Router Carrier) (d : RoutingDecision Carrier)
      → is_finite d.score ≡ true
      → is_finite d.snapshot_age_seconds ≡ true
      → is_held F (grant F r d) (next_lease F r d) ≡ true
  unfolding grant next_lease
  grant-is_held r d f g = ground (
    arith,
    lookup-insert_self (next_id r) (next_lease F r d) r.leases,
    lease_eq_refl (next_lease F r d) f g,
  )

  restored_index :
      (r : Router Carrier) (d : RoutingDecision Carrier)
      → IsConsistent r
      → (held : List LeaseId) (p : String)
      → lookup d.replica_id (grant F r d).replica_leases ≡ some held
      → or_empty (lookup p (without F (next_lease F r d) held (grant F r d)).replica_leases)
        ≡ or_empty (lookup p r.replica_leases)
  unfolding grant next_lease
  restored_index r d v held p found =
      let before : List LeaseId = or_empty (lookup d.replica_id r.replica_leases) in
      let added : List LeaseId = add_to_set (next_id r) before in
      ground (
        arith,
        lookup-insert d.replica_id p (remove (next_id r) held)
            (insert d.replica_id added r.replica_leases),
        lookup-insert d.replica_id p added r.replica_leases,
        lookup-insert_self d.replica_id added r.replica_leases,
        remove-add (next_id r) before,
        v.indexed (next_id r) d.replica_id,
        next_id_is_free r v,
        ==_iff p d.replica_id,
      )

  -- To release a lease that was just granted restores both the leases and every replica's load.
  grant-release :
      (r : Router Carrier) (d : RoutingDecision Carrier)
      → IsConsistent r
      → is_finite d.score ≡ true
      → is_finite d.snapshot_age_seconds ≡ true
      → (r' : Router Carrier) × (release F (next_lease F r d) (grant F r d) ≡ (ok tt, r'))
        × (r'.leases ≡ r.leases)
        × ((s : ReplicaSnapshot Carrier) → load_of r' s ≡ load_of r s)
  unfolding grant next_lease candidate unreflected
  grant-release r d v f g =
      elim (release_cases F (next_lease F r d) (grant F r d) (grant-IsConsistent F r d v)) [
        | inl (h, _) ↦ absurd (ground (arith, grant-is_held r d f g))
        | inr (held, _, found, _, e) ↦ (
          without F (next_lease F r d) held (grant F r d),
          e,
          erase-insert_new (next_id r) (next_lease F r d) r.leases (next_id_is_free r v),
          λ s.
              ap
                (λ ids.
                  s.ongoing_requests + s.queued_requests + length (minus ids s.reflected_lease_ids))
                (restored_index r d v held s.replica_id found),
        )
      ]

  -- The lease that `reserve` returned from a consistent router can be released from the router it
  -- left, and afterwards the leases are those before the reservation and so is the load of every
  -- replica.
  pub release-reserve :
      (request : RoutingRequest) (now : Option Carrier) (monotonic : Carrier)
      (r r' : Router Carrier) (lease : RoutingLease Carrier)
      → IsConsistent r
      → reserve F request now monotonic r ≡ (ok lease, r')
      → (r'' : Router Carrier) × (release F lease r' ≡ (ok tt, r''))
        × (r''.leases ≡ r.leases)
        × ((s : ReplicaSnapshot Carrier) → load_of r'' s ≡ load_of r s)
  release-reserve request now monotonic r r' lease v h =
      let g = reserve-Granted F request now monotonic r r' lease h in
      let (_, fs, fa) =
        score_candidate-replica_id g.best.chosen request r.policy _ (get_or now monotonic)
          lease.decision g.best.scored in
      subst₂
        (λ l x.
          (r'' : Router Carrier) × (release F l x ≡ (ok tt, r''))
          × (r''.leases ≡ r.leases)
          × ((s : ReplicaSnapshot Carrier) → load_of r'' s ≡ load_of r s))
        (sym g.named) (sym g.after) (grant-release r lease.decision v fs fa)
