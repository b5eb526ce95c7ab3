-- ===== src/Reliability/Rollback/Facts.antt =====
-- Single calls of `DeploymentStore`: `register_revision` and `release`.
use fin_serve.Prelude.{◌≡◌, ◌≢◌, String, some, arith, string_eq, ==_iff}
use fin_serve.Prelude.Float.{Float}
use fin_serve.Prelude.Dict.{lookup, lookup-insert, lookup-insert_self}
use fin_serve.Reliability.Contracts.{Revision, revision_eq, status_eq, Digests}
use fin_serve.Reliability.Rollback.Store.{Store}
use fin_serve.Reliability.Rollback.Deployments.{register_revision}
use fin_serve.Reliability.Rollback.Operations.{release}

-- A registered revision keeps its content, whatever revision is registered later.
pub register_revision_keeps :
    {T : Type 0} (id : String) (old new : Revision) (s : Store T)
    → lookup id s.revisions ≡ some old
    → lookup id (register_revision new s).1.revisions ≡ some old
unfolding register_revision
register_revision_keeps id old new s h =
    ground (arith, lookup-insert new.revision_id id new s.revisions, ==_iff id new.revision_id)

module _ (F : Float) (digests : Digests F.Carrier) where
  open F use {Carrier, lt, add, le, zero, is_finite}

  -- Releasing an operation as another worker than the lease names leaves that lease.
  pub release_other :
      (id owner other : String) (expires : Carrier) (s : Store Carrier)
      → lookup id s.leases ≡ some (record { owner = some owner; expires = expires })
      → other ≢ owner
      → lookup id (release F digests id other s).leases
        ≡ some (record { owner = some owner; expires = expires })
  unfolding release
  release_other id owner other expires s h differs = ground (
    arith,
    ==_iff owner other,
    lookup-insert_self id (record { owner = some owner; expires = expires }) s.leases,
  )
