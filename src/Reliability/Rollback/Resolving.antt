-- ===== src/Reliability/Rollback/Resolving.antt =====
-- The invariant of `DeploymentStore` under the steps of an operation, its last one included.
use mathlib.Core.Path.{subst}
use fin_serve.Prelude.{
  ◌≡◌, ◌≢◌, sym, ap, ◌∙◌, String, none, some, arith, inl, inr, string_eq, Bool-cases, ◌==◌, ==_iff,
}
use fin_serve.Prelude.Dict.{
  Dict, lookup, insert, lookup-insert_ne, lookup-insert_self, lookup-insert_cases,
}
use fin_serve.Reliability.Contracts.{DeploymentState, RollbackStatus, RollbackRecord}
use fin_serve.Reliability.Rollback.Invariant.{IsSound, OwnsState, IsSound-one}

module _ {T : Type 0} where
  -- A step of an operation that stays unresolved.
  pub progress-IsSound :
      (rollbacks : Dict String (RollbackRecord T)) (deployments : Dict String DeploymentState)
      (id : String) (op new : RollbackRecord T)
      → IsSound rollbacks deployments
      → lookup id rollbacks ≡ some op
      → op.status ≢ RollbackStatus.restored
      → new.operation_id ≡ op.operation_id
      → new.signal ≡ op.signal
      → new.status ≢ RollbackStatus.restored
      → IsSound (insert id new rollbacks) deployments
  progress-IsSound rollbacks deployments id op new v found open_op same_id same_signal status =
      record {
        keyed = λ i x h. elim (lookup-insert_cases id i new x rollbacks h) [
          | inl (same, is_new) ↦
              subst (λ y. (y.operation_id ≡ i) × (y.signal.signal_id ≡ i)) is_new
                (
                  same_id ∙ (v.keyed id op found).0 ∙ sym same,
                  ap (λ y. y.signal_id) same_signal ∙ (v.keyed id op found).1 ∙ sym same,
                )
          | inr (other, before) ↦ v.keyed i x before
        ];
        named = v.named;
        owned = λ i x h p. elim (lookup-insert_cases id i new x rollbacks h) [
          | inl (same, is_new) ↦
              let (st, known, owns) = v.owned id op found open_op in
              subst
                (λ y.
                  (st : DeploymentState) × (lookup y.signal.deployment_id deployments ≡ some st)
                  × OwnsState y st)
                is_new
                (
                  st,
                  subst (λ y. lookup y.deployment_id deployments ≡ some st) (sym same_signal) known,
                  record {
                    rollback_id = owns.rollback_id ∙ ap some (sym same_id);
                    generation =
                        owns.generation ∙ ap (λ y. y.observed_generation) (sym same_signal);
                    active_revision =
                        owns.active_revision ∙ ap (λ y. y.observed_revision) (sym same_signal);
                  },
                )
          | inr (other, before) ↦ v.owned i x before p
        ];
        frozen = λ e st i h k. rewritten e i (v.frozen e st i h k);
      }
    where
      -- The operation that froze a deployment is this one, rewritten, or another one, as before.
      rewritten :
          (e i : String)
          → ((x : RollbackRecord T) × (lookup i rollbacks ≡ some x)
              × (x.status ≢ RollbackStatus.restored)
              × (x.signal.deployment_id ≡ e))
          → (x : RollbackRecord T) × (lookup i (insert id new rollbacks) ≡ some x)
            × (x.status ≢ RollbackStatus.restored)
            × (x.signal.deployment_id ≡ e)
      rewritten e i (x, known, unresolved, here) = elim (Bool-cases (i == id)) [
        | inl same ↦
            let is_op : x ≡ op = ground (
              arith,
              ==_iff i id,
              subst (λ y. lookup y rollbacks ≡ some x) ((==_iff i id).0 same) known,
            ) in
            (
              new,
              subst (λ y. lookup y (insert id new rollbacks) ≡ some new)
                  (sym ((==_iff i id).0 same)) (lookup-insert_self id new rollbacks),
              status,
              ap (λ y. y.deployment_id) same_signal
                  ∙ ap (λ y. y.signal.deployment_id) (sym is_op)
                  ∙ here,
            )
        | inr other ↦ (
          x,
          lookup-insert_ne id i new rollbacks (λ y. ground (arith, ==_iff i id)) ∙ known,
          unresolved,
          here,
        )
      ]

  -- The end of an operation, which frees its deployment.
  pub resolve-IsSound :
      (rollbacks : Dict String (RollbackRecord T)) (deployments : Dict String DeploymentState)
      (id : String) (op new : RollbackRecord T) (state : DeploymentState)
      → IsSound rollbacks deployments
      → lookup id rollbacks ≡ some op
      → op.status ≢ RollbackStatus.restored
      → new.operation_id ≡ op.operation_id
      → new.signal ≡ op.signal
      → new.status ≡ RollbackStatus.restored
      → state.rollback_id ≡ none
      → state.deployment_id ≡ op.signal.deployment_id
      → IsSound (insert id new rollbacks) (insert op.signal.deployment_id state deployments)
  resolve-IsSound rollbacks deployments id op new state v found open_op same_id same_signal status
        free named =
      record {
        keyed = λ i x h. elim (lookup-insert_cases id i new x rollbacks h) [
          | inl (same, is_new) ↦
              subst (λ y. (y.operation_id ≡ i) × (y.signal.signal_id ≡ i)) is_new
                (
                  same_id ∙ (v.keyed id op found).0 ∙ sym same,
                  ap (λ y. y.signal_id) same_signal ∙ (v.keyed id op found).1 ∙ sym same,
                )
          | inr (other, before) ↦ v.keyed i x before
        ];
        named = λ e x h. elim (lookup-insert_cases d e state x deployments h) [
          | inl (same, is_new) ↦ ap (λ y. y.deployment_id) (sym is_new) ∙ named ∙ sym same
          | inr (other, before) ↦ v.named e x before
        ];
        owned = λ i x h p. elim (lookup-insert_cases id i new x rollbacks h) [
          | inl (same, is_new) ↦ absurd (p (ap (λ y. y.status) (sym is_new) ∙ status))
          | inr (other, before) ↦
              let (st, known, owns) = v.owned i x before p in
              (
                st,
                lookup-insert_ne d x.signal.deployment_id state deployments (λ e. absurd (
                      other
                        (IsSound-one rollbacks deployments i id x op v before found p open_op e)))
                    ∙ known,
                owns,
              )
        ];
        frozen = λ e st i h k. elim (lookup-insert_cases d e state st deployments h) [
          | inl (same, is_new) ↦ absurd (ground (arith, ap (λ y. y.rollback_id) is_new))
          | inr (other, before) ↦
              let (x, known, unresolved, here) = v.frozen e st i before k in
              (
                x,
                lookup-insert_ne id i new rollbacks (λ y. absurd (
                      other
                        (sym here ∙ ap (λ z. z.signal.deployment_id) (same_record i x y known))))
                    ∙ known,
                unresolved,
                here,
              )
        ];
      }
    where
      d : String
      d = op.signal.deployment_id

      same_record :
          (i : String) (x : RollbackRecord T) → i ≡ id → lookup i rollbacks ≡ some x → x ≡ op
      same_record i x e known = ground (arith, subst (λ y. lookup y rollbacks ≡ some x) e known)
