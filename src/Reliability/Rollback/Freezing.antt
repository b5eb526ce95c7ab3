-- ===== src/Reliability/Rollback/Freezing.antt =====
-- The invariant of `DeploymentStore` under writes to a free deployment, and when one is frozen.
use mathlib.Core.Path.{subst}
use fin_serve.Prelude.{◌≡◌, ◌≢◌, refl, sym, ap, ◌∙◌, String, none, some, arith, inl, inr, string_eq}
use fin_serve.Prelude.Dict.{
  Dict, lookup, insert, lookup-insert_ne, lookup-insert_self, lookup-insert_cases,
}
use fin_serve.Reliability.Contracts.{DeploymentState, RollbackStatus, RollbackRecord}
use fin_serve.Reliability.Rollback.Invariant.{IsSound, OwnsState}

module _ {T : Type 0} where
  -- A write to a deployment that is not frozen, and does not freeze it.
  pub write_free-IsSound :
      (rollbacks : Dict String (RollbackRecord T)) (deployments : Dict String DeploymentState)
      (d : String) (new : DeploymentState)
      → IsSound rollbacks deployments
      → ((state : DeploymentState) → lookup d deployments ≡ some state → state.rollback_id ≡ none)
      → new.rollback_id ≡ none
      → new.deployment_id ≡ d
      → IsSound rollbacks (insert d new deployments)
  write_free-IsSound rollbacks deployments d new v free none_new id_new = record {
    keyed = v.keyed;
    named = λ e state h. elim (lookup-insert_cases d e new state deployments h) [
      | inl (same, is_new) ↦ ground arith
      | inr (other, before) ↦ v.named e state before
    ];
    owned = λ id op h p.
        let (state, there, owns) = v.owned id op h p in
        let other : op.signal.deployment_id ≢ d = λ e. absurd (
          ground (
            arith,
            free state (subst (λ x. lookup x deployments ≡ some state) e there),
            owns.rollback_id,
          )) in
        (state, lookup-insert_ne d op.signal.deployment_id new deployments other ∙ there, owns);
    frozen = λ e state id h k. elim (lookup-insert_cases d e new state deployments h) [
      | inl (same, is_new) ↦ absurd (ground arith)
      | inr (other, before) ↦ v.frozen e state id before k
    ];
  }

  -- A detected operation freezes a deployment that was free.
  pub freeze-IsSound :
      (rollbacks : Dict String (RollbackRecord T)) (deployments : Dict String DeploymentState)
      (state : DeploymentState) (op : RollbackRecord T)
      → IsSound rollbacks deployments
      → lookup op.operation_id rollbacks ≡ none
      → lookup op.signal.deployment_id deployments ≡ some state
      → state.rollback_id ≡ none
      → op.signal.signal_id ≡ op.operation_id
      → op.status ≢ RollbackStatus.restored
      → state.generation ≡ op.signal.observed_generation
      → state.active_revision ≡ op.signal.observed_revision
      → IsSound (insert op.operation_id op rollbacks) (
          insert op.signal.deployment_id
            (record state { rollback_id = some op.operation_id })
            deployments)
  freeze-IsSound rollbacks deployments state op v fresh there free named status gen act = record {
    keyed = λ id x h. elim (lookup-insert_cases op.operation_id id op x rollbacks h) [
      | inl (same, is_new) ↦
          subst (λ y. (y.operation_id ≡ id) × (y.signal.signal_id ≡ id)) is_new
            (sym same, named ∙ sym same)
      | inr (other, before) ↦ v.keyed id x before
    ];
    named = λ e x h. elim (lookup-insert_cases d e new x deployments h) [
      | inl (same, is_new) ↦
          ap (λ y. y.deployment_id) (sym is_new) ∙ v.named d state there ∙ sym same
      | inr (other, before) ↦ v.named e x before
    ];
    owned = λ id x h p. elim (lookup-insert_cases op.operation_id id op x rollbacks h) [
      | inl (same, is_new) ↦
          subst
            (λ y.
              (st : DeploymentState) × (lookup y.signal.deployment_id (insert d new deployments)
                ≡ some st)
              × OwnsState y st)
            is_new
            (
              new,
              lookup-insert_self d new deployments,
              record { rollback_id = refl; generation = gen; active_revision = act },
            )
      | inr (other, before) ↦
          let (st, known, owns) = v.owned id x before p in
          (
            st,
            lookup-insert_ne d x.signal.deployment_id new deployments (not_here x st known owns)
                ∙ known,
            owns,
          )
    ];
    frozen = λ e st id h k. elim (lookup-insert_cases d e new st deployments h) [
      | inl (same, is_new) ↦
          let named_id : op.operation_id ≡ id = ground arith in
          (
            op,
            subst (λ y. lookup y (insert op.operation_id op rollbacks) ≡ some op) named_id
                (lookup-insert_self op.operation_id op rollbacks),
            status,
            sym same,
          )
      | inr (other, before) ↦
          let (x, known, unresolved, where_) = v.frozen e st id before k in
          (
            x,
            lookup-insert_ne op.operation_id id op rollbacks
                  (λ y. absurd (ground (arith, clash id x y known)))
                ∙ known,
            unresolved,
            where_,
          )
    ];
  }
    where
      d : String
      d = op.signal.deployment_id

      new : DeploymentState
      new = record state { rollback_id = some op.operation_id }

      -- An unresolved operation is on another deployment, since this one is free.
      not_here :
          (x : RollbackRecord T) (st : DeploymentState)
          → lookup x.signal.deployment_id deployments ≡ some st
          → OwnsState x st
          → x.signal.deployment_id ≢ d
      not_here x st known owns e =
          let same : state ≡ st =
            ground (arith, subst (λ y. lookup y deployments ≡ some st) e known) in
          absurd (ground (arith, ap (λ y. y.rollback_id) same, owns.rollback_id))

      clash :
          (id : String) (x : RollbackRecord T)
          → id ≡ op.operation_id
          → lookup id rollbacks ≡ some x
          → ⊥
      clash id x e known = absurd (ground (arith, subst (λ y. lookup y rollbacks ≡ some x) e known))
