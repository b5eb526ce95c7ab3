-- ===== src/Reliability/Tests.antt =====
-- Runs of the deployment store over floats in thousandths, and the theorems at such runs.
use fin_serve.Prelude.{
  ◌≡◌, refl, true, false, none, some, List, [], ◌∷◌, String, string_eq, nat_eq, option_eq,
}
use fin_serve.Prelude.Int.{ℤ, pos}
use fin_serve.Prelude.Float.{thousandths}
use fin_serve.Prelude.Result.{ok, err}
use fin_serve.Prelude.Dict.{lookup, insert}
use fin_serve.Reliability.Contracts.{
  Revision, HealthObservation, DeploymentState, RegressionSignal, RollbackStatus, RollbackRecord,
  PromotionDecision, Digests, verifies, signal_eq, is_record, approved,
}
use fin_serve.Reliability.Rollback.Store.{Store, Error, empty}
use fin_serve.Reliability.Rollback.Deployments.{
  register_revision, bootstrap, activate_candidate, activate, record_decision, activation_key,
}
use fin_serve.Reliability.Rollback.Operations.{
  detect, claim, update, update_in, settle, settle_restored, changed, fence, validate_transition,
  received,
}
use fin_serve.Reliability.Rollback.Soundness.{
  Call, step, run, step-Sound, run-Sound, run-one_rollback,
}
use fin_serve.Reliability.Rollback.Invariant.{empty-IsSound}
use fin_serve.Reliability.Rollback.Preservation.{Sound}
use fin_serve.Reliability.Rollback.Update.{Owns, Leased, Restored, update-Restored}
use fin_serve.Reliability.Rollback.Workflow.{Continues, run-Continues}
use fin_serve.Reliability.Rollback.Leases.{claim_excludes}

-- A digest that tells the revisions below apart.
abbrev pub digests : Digests ℤ
digests = record {
  revision = λ r. r.image_digest;
  decision = λ d. d.candidate_digest;
  intent = λ d n k. k;
}

abbrev pub revision : String → String → Revision
revision id image = record {
  revision_id = id;
  model_revision = "m";
  tokenizer_revision = "t";
  source_revision = "s";
  image_digest = image;
  config_digest = "c";
  engine = "e";
  engine_config = "f";
}

abbrev pub health : String → String → HealthObservation
health id digest = record {
  revision_id = id;
  revision_digest = digest;
  ready = true;
  smoke_passed = true;
}

abbrev decision : PromotionDecision ℤ
decision = record {
  candidate_revision = "r2";
  candidate_digest = "i2";
  policy_version = "v";
  evidence_digest = some "x";
  rejection_reasons = [];
  quality_parity = none;
  candidate_accuracy = none;
}

abbrev pub signal : RegressionSignal ℤ
signal = record {
  signal_id = "g";
  deployment_id = "d";
  observed_revision = "r2";
  observed_generation = 1;
  detected_at = pos 1000;
  detector = "w";
  reason = "slow";
}

-- A candidate is activated, regresses, and its rollback is claimed by one worker.
abbrev pub calls : List (Call thousandths digests)
calls =
    Call.registers (revision "r1" "i1")
    ∷ Call.registers (revision "r2" "i2")
    ∷ Call.bootstraps "d" "r1" (health "r1" "i1")
    ∷ Call.activates "d" 0 decision (health "r2" "i2")
    ∷ Call.detects signal (pos 2000) (pos 2001)
    ∷ []

store : Store ℤ
unfolding run step register_revision bootstrap activate_candidate activate record_decision
    activation_key detect lookup insert verifies approved signal_eq is_record
store = run thousandths digests empty calls

unfoldable pub operation : RollbackRecord ℤ
operation = received thousandths digests signal (revision "r1" "i1") (pos 2000)

abbrev frozen : DeploymentState
frozen = record {
  deployment_id = "d";
  active_revision = "r2";
  known_good_revision = "r1";
  generation = 1;
  rollback_id = some "g";
}

stored :
    (lookup "g" store.rollbacks ≡ some operation) × (lookup "d" store.deployments ≡ some frozen)
unfolding store operation
stored = (refl, refl)

run-one_rollback_example : ◌≡◌ {A = String} "g" "g"
unfolding store operation
run-one_rollback_example =
    run-one_rollback thousandths digests calls "g" "g" operation operation refl refl (λ e. cc)
      (λ e. cc) refl

step-Sound_example :
    Sound (step thousandths digests store (Call.claims "g" "w" (pos 60000) (pos 3000)))
unfolding store
step-Sound_example =
    step-Sound thousandths digests store (Call.claims "g" "w" (pos 60000) (pos 3000))
      (run-Sound thousandths digests empty calls empty-IsSound)

-- One worker holds the lease of the operation and has started its attempt.
leased : Store ℤ
unfolding step claim store
leased = step thousandths digests store (Call.claims "g" "w" (pos 60000) (pos 3000))

claimed : claim thousandths digests "g" "w" (pos 60000) (pos 3000) store ≡ (ok operation, leased)
unfolding step claim store operation leased fence lookup
claimed = refl

-- Another worker fails to claim and to release; the owner starts its attempt.
abbrev meanwhile : List (Call thousandths digests)
meanwhile =
    Call.claims "g" "w2" (pos 60000) (pos 3500)
    ∷ Call.releases "g" "w2"
    ∷ Call.updates "g" "w" RollbackStatus.applying none true none (pos 3600) (pos 3601)
    ∷ []

claim_excludes_example :
    let t = run thousandths digests leased meanwhile in
    (lookup "g" t.leases ≡ some (record { owner = some "w"; expires = pos 63000 }))
    × (e : Error) × (claim thousandths digests "g" "w2" (pos 60000) (pos 4000) t ≡ (err e, t))
claim_excludes_example =
    claim_excludes thousandths digests "g" "w" "w2" (pos 60000) (pos 3000) (pos 60000) (pos 4000)
      store leased operation meanwhile claimed (λ e. refl, (λ e k. cc, (tt, tt))) refl

run-Continues_example :
    (r : RollbackRecord ℤ) × (lookup "g" (run thousandths digests leased meanwhile).rollbacks
      ≡ some r)
    × Continues operation r
unfolding leased store operation step claim fence
run-Continues_example = run-Continues thousandths digests leased meanwhile "g" operation refl

-- The store in which the signal was not yet seen.
activated_store : Store ℤ
unfolding run step register_revision bootstrap activate_candidate activate record_decision
    activation_key lookup insert verifies approved
activated_store = run thousandths digests empty (
    Call.registers (revision "r1" "i1")
    ∷ Call.registers (revision "r2" "i2")
    ∷ Call.bootstraps "d" "r1" (health "r1" "i1")
    ∷ Call.activates "d" 0 decision (health "r2" "i2")
    ∷ [])

started : Store ℤ
unfolding update leased
started =
    (update thousandths digests "g" "w" RollbackStatus.applying none true none (pos 5000) (pos 5001)
      leased).1

restored_operation : RollbackRecord ℤ
unfolding update operation
restored_operation =
    changed thousandths digests
      (changed thousandths digests operation RollbackStatus.applying none true (pos 5000))
      RollbackStatus.restored none false (pos 6000)

finished : Store ℤ
unfolding update started
finished =
    (update thousandths digests "g" "w" RollbackStatus.restored none false (some (health "r1" "i1"))
      (pos 6000) (pos 6001) started).1

restores :
    update thousandths digests "g" "w" RollbackStatus.restored none false
      (some (health "r1" "i1"))
      (pos 6000)
      (pos 6001)
      started
    ≡ (ok restored_operation, finished)
unfolding update started finished restored_operation leased store operation step claim update_in
    settle changed validate_transition settle_restored
restores = refl

update-Restored_example :
    (op : RollbackRecord ℤ) × (state : DeploymentState) × (lookup "g" started.rollbacks ≡ some op)
    × Owns op started state
    × Leased thousandths digests "g" "w" (pos 6000) started
    × Restored thousandths digests op state (some (health "r1" "i1")) started finished.deployments
    × (restored_operation.restored_at ≡ some (pos 6000))
update-Restored_example =
    update-Restored thousandths digests "g" "w" none false (some (health "r1" "i1")) (pos 6000)
      (pos 6001) started restored_operation finished restores
