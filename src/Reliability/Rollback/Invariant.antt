-- ===== src/Reliability/Rollback/Invariant.antt =====
-- The invariant of `DeploymentStore`: an unresolved rollback and the deployment that it froze name
-- each other, so a deployment has at most one unresolved rollback.
use fin_serve.Prelude.{◌≡◌, ◌≢◌, ap, String, some, [], arith, string_eq}
use fin_serve.Prelude.Dict.{Dict, lookup}
use fin_serve.Reliability.Contracts.{DeploymentState, RollbackStatus, RollbackRecord}

-- The operation owns the deployment.
pub record OwnsState {T : Type 0} (op : RollbackRecord T) (state : DeploymentState) : Type 0 where
  pub rollback_id : state.rollback_id ≡ some op.operation_id
  pub generation : state.generation ≡ op.signal.observed_generation
  pub active_revision : state.active_revision ≡ op.signal.observed_revision

module _ {T : Type 0} where
  pub record IsSound (rollbacks : Dict String (RollbackRecord T))
      (deployments : Dict String DeploymentState) : Type 0 where
    -- Every record stands under its own id.
    pub keyed :
        (id : String) (op : RollbackRecord T)
        → lookup id rollbacks ≡ some op
        → (op.operation_id ≡ id) × (op.signal.signal_id ≡ id)
    pub named :
        (d : String) (state : DeploymentState)
        → lookup d deployments ≡ some state
        → state.deployment_id ≡ d
    -- An unresolved operation owns its deployment.
    pub owned :
        (id : String) (op : RollbackRecord T)
        → lookup id rollbacks ≡ some op
        → op.status ≢ RollbackStatus.restored
        → (state : DeploymentState) × (lookup op.signal.deployment_id deployments ≡ some state)
          × OwnsState op state
    -- A frozen deployment is owned by an unresolved operation.
    pub frozen :
        (d : String) (state : DeploymentState) (id : String)
        → lookup d deployments ≡ some state
        → state.rollback_id ≡ some id
        → (op : RollbackRecord T) × (lookup id rollbacks ≡ some op)
          × (op.status ≢ RollbackStatus.restored)
          × (op.signal.deployment_id ≡ d)

  -- At most one unresolved rollback of a deployment.
  pub IsSound-one :
      (rollbacks : Dict String (RollbackRecord T)) (deployments : Dict String DeploymentState)
      (i j : String) (op other : RollbackRecord T)
      → IsSound rollbacks deployments
      → lookup i rollbacks ≡ some op
      → lookup j rollbacks ≡ some other
      → op.status ≢ RollbackStatus.restored
      → other.status ≢ RollbackStatus.restored
      → op.signal.deployment_id ≡ other.signal.deployment_id
      → i ≡ j
  IsSound-one rollbacks deployments i j op other v h k p q e =
      let (state, there, owns) = v.owned i op h p in
      let (state', there', owns') = v.owned j other k q in
      let same : state ≡ state' = ground arith in
      ground (arith, v.keyed i op h, v.keyed j other k, ap (λ x. x.rollback_id) same)

  pub empty-IsSound : IsSound [] []
  unfolding lookup
  empty-IsSound = record {
    keyed = λ id op h. cc;
    named = λ d state h. cc;
    owned = λ id op h. cc;
    frozen = λ d state id h. cc;
  }
