-- ===== src/Reliability/Rollback/Soundness.antt =====
-- Any history of calls of `DeploymentStore` keeps the invariant.
use mathlib.Core.Path.{subst, subst₂}
use fin_serve.Prelude.{
  ℕ, ◌≡◌, ◌≢◌, ◌⊎◌, refl, sym, ap, ◌∙◌, String, Bool, Option, some, arith, inl, inr, string_eq,
  List, [], ◌∷◌, nat_eq, option_eq,
}
use fin_serve.Prelude.Float.{Float}
use fin_serve.Prelude.Result.{Result, ok, err}
use fin_serve.Prelude.Dict.{lookup, insert}
use fin_serve.Reliability.Contracts.{
  Revision, HealthObservation, RegressionSignal, RollbackStatus, RollbackRecord, PromotionDecision,
  Digests, status_eq,
}
use fin_serve.Reliability.Rollback.Store.{Store, empty, Error, transaction, probation_key_eq}
use fin_serve.Reliability.Rollback.Deployments.{
  register_revision, record_decision, bootstrap, activate_candidate, mark_stable,
}
use fin_serve.Reliability.Rollback.Operations.{
  detect, received, claim, update, update_in, changed, restored_state, release, validate_transition,
}
use fin_serve.Reliability.Rollback.Invariant.{IsSound, IsSound-one, empty-IsSound}
use fin_serve.Reliability.Rollback.Freezing.{freeze-IsSound}
use fin_serve.Reliability.Rollback.Resolving.{progress-IsSound, resolve-IsSound}
use fin_serve.Reliability.Rollback.Update.{Updated, update-Updated, fence-Owns, settle-Restored}
use fin_serve.Reliability.Rollback.Preservation.{
  Sound, WritesFree-Sound, bootstrap-WritesFree, activate-WritesFree, mark_stable-WritesFree,
}
use fin_serve.Reliability.Rollback.Detection.{detect_cases}

pub transaction_cases :
    {T A : Type 0} (s : Store T) (body : Result Error (A × Store T))
    → ((transaction s body).1 ≡ s)
      ⊎ ((a : A) × (transaction s body ≡ (ok a, (transaction s body).1)))
transaction_cases s (ok (a, s')) = inr (a, refl)
transaction_cases s (err e) = inl refl

module _ (F : Float) (digests : Digests F.Carrier) where
  open F use {Carrier}

  detect-Sound :
      (signal : RegressionSignal Carrier) (now later : Carrier) (s : Store Carrier)
      → Sound s
      → Sound (detect F digests signal now later s).1
  detect-Sound signal now later s v = elim (detect_cases F digests signal now later s) [
    | inl same ↦ subst Sound (sym same) v
    | inr c ↦
        subst₂ IsSound (sym c.saved)
          (sym (
            c.frozen
            ∙ ap
                (λ k.
                  insert k (record c.state { rollback_id = some signal.signal_id }) s.deployments)
                (v.named signal.deployment_id c.state c.found)))
          (freeze-IsSound s.rollbacks s.deployments c.state (received F digests signal c.target now)
            v c.fresh c.found c.free refl (λ e. cc) c.generation c.active_revision)
  ]

  claim-Sound :
      (id owner : String) (seconds now : Carrier) (s : Store Carrier)
      → Sound s
      → Sound (claim F digests id owner seconds now s).1
  unfolding claim
  claim-Sound id owner seconds now s v = subst₂ IsSound (ground arith) (ground arith) v

  -- An update starts from an operation that is not resolved.
  unresolved :
      (before status : RollbackStatus) (start_attempt : Bool)
      → validate_transition before status start_attempt ≡ ok tt
      → before ≢ RollbackStatus.restored
  unfolding validate_transition
  unresolved before status start_attempt h e = ground arith

  committed-Sound :
      (id owner : String) (status : RollbackStatus) (error : Option String) (start_attempt : Bool)
      (health : Option HealthObservation) (now later : Carrier) (s : Store Carrier)
      (r : RollbackRecord Carrier) (s' : Store Carrier)
      → Updated F digests id owner status error start_attempt health now later s r s'
      → Sound s
      → Sound s'
  unfolding changed
  committed-Sound id owner status error start_attempt health now later s r s' u v =
      subst₂ IsSound (sym (ap (λ x. x.rollbacks) u.written))
        (sym (ap (λ x. x.deployments) u.written))
        (elim (settle-Restored F digests u.operation u.state status health s u.deployments
          u.settled) [
            | inl (done, back) ↦
                subst (IsSound (insert id r s.rollbacks))
                  (sym (
                    back.wrote
                    ∙ ap
                        (λ d. insert d (restored_state F digests u.state back.target) s.deployments)
                        at_own_key))
                  (resolve-IsSound s.rollbacks s.deployments id u.operation r
                    (restored_state F digests u.state back.target) v u.found open_op same_id
                    same_signal (same_status ∙ done) refl at_own_key)
            | inr (open_, kept) ↦ subst (IsSound (insert id r s.rollbacks)) kept (
                progress-IsSound s.rollbacks s.deployments id u.operation r v u.found open_op
                  same_id same_signal (λ e. open_ (sym same_status ∙ e)))
          ])
    where
      open_op : u.operation.status ≢ RollbackStatus.restored
      open_op = unresolved u.operation.status status start_attempt u.transition

      same_id : r.operation_id ≡ u.operation.operation_id
      same_id = ap (λ x. x.operation_id) u.changes

      same_signal : r.signal ≡ u.operation.signal
      same_signal = ap (λ x. x.signal) u.changes

      same_status : r.status ≡ status
      same_status = ap (λ x. x.status) u.changes

      at_own_key : u.state.deployment_id ≡ u.operation.signal.deployment_id
      at_own_key =
          v.named u.operation.signal.deployment_id u.state
            (fence-Owns u.operation s u.state u.fenced).found

  update-Sound :
      (id owner : String) (status : RollbackStatus) (error : Option String) (start_attempt : Bool)
      (health : Option HealthObservation) (now later : Carrier) (s : Store Carrier)
      → Sound s
      → Sound (update F digests id owner status error start_attempt health now later s).1
  unfolding update
  update-Sound id owner status error start_attempt health now later s v =
      elim (transaction_cases s
        (update_in F digests id owner status error start_attempt health now later s)) [
          | inl same ↦ subst Sound (sym same) v
          | inr (r, e) ↦
              committed-Sound id owner status error start_attempt health now later s r _
                (update-Updated F digests id owner status error start_attempt health now later s r _
                  e)
                v
        ]

  pub data Call : Type 0 where
    registers : Revision → Call
    records : PromotionDecision Carrier → Call
    bootstraps : String → String → HealthObservation → Call
    activates : String → ℕ → PromotionDecision Carrier → HealthObservation → Call
    stabilizes :
        String → ℕ → PromotionDecision Carrier → HealthObservation → String → Carrier → Call
    detects : RegressionSignal Carrier → Carrier → Carrier → Call
    claims : String → String → Carrier → Carrier → Call
    updates :
        String
        → String
        → RollbackStatus
        → Option String
        → Bool
        → Option HealthObservation
        → Carrier
        → Carrier
        → Call
    releases : String → String → Call

  -- The store after a call, whether it returned or raised.
  unfoldable pub step : Store Carrier → Call → Store Carrier
  step s (registers revision) = (register_revision revision s).1
  step s (records decision) = (record_decision digests decision s).1
  step s (bootstraps d revision health) = (bootstrap digests d revision health s).1
  step s (activates d n decision health) = (activate_candidate digests d n decision health s).1
  step s (stabilizes d n decision health evidence now) =
      (mark_stable digests d n decision health evidence now s).1
  step s (detects signal now later) = (detect F digests signal now later s).1
  step s (claims id owner seconds now) = (claim F digests id owner seconds now s).1
  step s (updates id owner status error start_attempt health now later) =
      (update F digests id owner status error start_attempt health now later s).1
  step s (releases id owner) = release F digests id owner s

  -- Every call of a sound store, refused or not, keeps it sound: each unresolved rollback owns its
  -- deployment, with the generation and the active revision of its signal, and each deployment
  -- names an unresolved rollback of its own or none.
  pub step-Sound : (s : Store Carrier) (c : Call) → Sound s → Sound (step s c)
  unfolding step register_revision record_decision release
  step-Sound s (registers revision) v = subst₂ IsSound (ground arith) (ground arith) v
  step-Sound s (records decision) v = v
  step-Sound s (bootstraps d revision health) v =
      WritesFree-Sound d s (bootstrap digests d revision health s).1
        (bootstrap-WritesFree digests d revision health s) v
  step-Sound s (activates d n decision health) v =
      WritesFree-Sound d s (activate_candidate digests d n decision health s).1
        (activate-WritesFree digests d n decision health s) v
  step-Sound s (stabilizes d n decision health evidence now) v =
      WritesFree-Sound d s (mark_stable digests d n decision health evidence now s).1
        (mark_stable-WritesFree digests d n decision health evidence now s v) v
  step-Sound s (detects signal now later) v = detect-Sound signal now later s v
  step-Sound s (claims id owner seconds now) v = claim-Sound id owner seconds now s v
  step-Sound s (updates id owner status error start_attempt health now later) v =
      update-Sound id owner status error start_attempt health now later s v
  step-Sound s (releases id owner) v = v

  unfoldable pub run : Store Carrier → List Call → Store Carrier
  unfolding step
  run s [] = s
  run s (c ∷ cs) = run (step s c) cs

  pub run-Sound : (s : Store Carrier) (cs : List Call) → Sound s → Sound (run s cs)
  unfolding run
  run-Sound s [] v = v
  run-Sound s (c ∷ cs) v = run-Sound (step s c) cs (step-Sound s c v)

  -- After any sequence of calls of a new store, two rollbacks of one deployment that are not
  -- restored are the same one.
  pub run-one_rollback :
      (cs : List Call) (i j : String) (op other : RollbackRecord Carrier)
      → lookup i (run empty cs).rollbacks ≡ some op
      → lookup j (run empty cs).rollbacks ≡ some other
      → op.status ≢ RollbackStatus.restored
      → other.status ≢ RollbackStatus.restored
      → op.signal.deployment_id ≡ other.signal.deployment_id
      → i ≡ j
  run-one_rollback cs i j op other h k p q e =
      IsSound-one _ _ i j op other (run-Sound empty cs empty-IsSound) h k p q e
