-- ===== src/Scheduler/Router/History.antt =====
-- Any history of calls of `ReplicaRouter`, failed ones included; and telemetry that only moves on.
use fin_serve.Prelude.{
  ℕ, ◌≡◌, ◌⊎◌, false, Option, some, List, [], ◌∷◌, String, arith, ==_iff, string_eq,
}
use fin_serve.Prelude.Float.{Float}
use fin_serve.Prelude.Result.{ok}
use fin_serve.Prelude.Dict.{lookup, lookup-insert}
use fin_serve.Scheduler.Contracts.{ReplicaSnapshot, RoutingRequest}
use fin_serve.Scheduler.Policy.{RoutingPolicy}
use fin_serve.Scheduler.Router.{
  Router, RoutingLease, init, update_snapshot, reserve, release, forget_replica,
}
use fin_serve.Scheduler.Router.Consistency.{
  IsConsistent, init-IsConsistent, reserve-IsConsistent, update_snapshot-IsConsistent,
}
use fin_serve.Scheduler.Router.Release.{release-IsConsistent, forget_replica-IsConsistent}

module _ (F : Float) where
  open F use {Carrier, lt}

  pub data Call : Type 0 where
    updates : ReplicaSnapshot Carrier → Call
    reserves : RoutingRequest → Option Carrier → Carrier → Call
    releases : RoutingLease Carrier → Call
    forgets : String → Call

  -- The router after a call, whether it returned or raised.
  unfoldable pub step : Router Carrier → Call → Router Carrier
  step r (updates s) = (update_snapshot F s r).1
  step r (reserves request now monotonic) = (reserve F request now monotonic r).1
  step r (releases lease) = (release F lease r).1
  step r (forgets id) = (forget_replica F id r).1

  unfoldable pub run : Router Carrier → List Call → Router Carrier
  unfolding step
  run r [] = r
  run r (c ∷ cs) = run (step r c) cs

  pub step-IsConsistent : (r : Router Carrier) (c : Call) → IsConsistent r → IsConsistent (step r c)
  unfolding step
  step-IsConsistent r (updates s) v = update_snapshot-IsConsistent F s r v
  step-IsConsistent r (reserves request now monotonic) v =
      reserve-IsConsistent F request now monotonic r v
  step-IsConsistent r (releases lease) v = release-IsConsistent F lease r v
  step-IsConsistent r (forgets id) v = forget_replica-IsConsistent F id r v

  steps-IsConsistent :
      (r : Router Carrier) (cs : List Call) → IsConsistent r → IsConsistent (run r cs)
  unfolding run
  steps-IsConsistent r [] v = v
  steps-IsConsistent r (c ∷ cs) v = steps-IsConsistent (step r c) cs (step-IsConsistent r c v)

  -- After any sequence of calls of a new router, the set of leases of each replica and the table
  -- of leases name exactly the same leases, without repetition, each lease stands under its own
  -- id, which bears the name of this router and a number up to its counter, and at most
  -- `max_replicas` snapshots are held.
  pub run-IsConsistent :
      (policy : RoutingPolicy Carrier) (max_replicas : ℕ) (owner : String) (r : Router Carrier)
      (cs : List Call)
      → init policy max_replicas owner ≡ ok r
      → IsConsistent (run r cs)
  run-IsConsistent policy max_replicas owner r cs h =
      steps-IsConsistent r cs (init-IsConsistent policy max_replicas owner r h)

  -- An update of the snapshots never replaces what is known of a replica by another snapshot with
  -- an earlier arrival time.
  pub update_snapshot_moves_on :
      (s : ReplicaSnapshot Carrier) (r : Router Carrier) (id : String)
      (old new : ReplicaSnapshot Carrier)
      → lookup id r.snapshots ≡ some old
      → lookup id (update_snapshot F s r).1.snapshots ≡ some new
      → (new ≡ old) ⊎ (lt new.received_at old.received_at ≡ false)
  unfolding update_snapshot
  update_snapshot_moves_on s r id old new h k =
      ground (arith, lookup-insert s.replica_id id s r.snapshots, ==_iff id s.replica_id)
