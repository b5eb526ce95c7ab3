-- ===== src/Reliability/ControllerTests.antt =====
-- The controller at a rollback whose earlier attempt was lost, over floats in thousandths.
use fin_serve.Prelude.{
  string_eq, nat_eq, option_eq, ◌≡◌, refl, Bool, true, false, none, some, List, [], ◌∷◌, ◌++◌, ◌+◌,
}
use fin_serve.Prelude.Int.{ℤ, pos}
use fin_serve.Prelude.Float.{thousandths}
use fin_serve.Prelude.Result.{ok}
use fin_serve.Prelude.Dict.{lookup, insert}
use fin_serve.Reliability.Contracts.{
  RollbackStatus, RollbackRecord, status_eq, verifies, signal_eq, is_record, approved,
}
use fin_serve.Reliability.Rollback.Store.{Store, empty}
use fin_serve.Reliability.Rollback.Invariant.{empty-IsSound}
use fin_serve.Reliability.Rollback.Preservation.{Sound}
use fin_serve.Reliability.Rollback.Deployments.{
  register_revision, bootstrap, activate_candidate, activate, record_decision, activation_key,
}
use fin_serve.Reliability.Rollback.Operations.{
  detect, claim, release, update, update_in, settle, settle_restored, changed, fence,
  validate_transition, allowed,
}
use fin_serve.Reliability.Rollback.Soundness.{Call, step, run, run-Sound}
use fin_serve.Reliability.Rollback.Controller.{World, run_attempt, resume}
use fin_serve.Reliability.Rollback.Resumption.{run_attempt_once, resume-Sound}
use fin_serve.Reliability.Tests.{digests, revision, health, calls, operation}

-- The first attempt was started and lost track of.
abbrev lost_calls : List (Call thousandths digests)
lost_calls =
    calls
    ++ Call.claims "g" "w" (pos 60000) (pos 3000)
      ∷ Call.updates "g" "w" RollbackStatus.applying none true none (pos 5000) (pos 5001)
      ∷ Call.updates "g" "w" RollbackStatus.needs_reconciliation (some "TimeoutError") false none
          (pos 5500) (pos 5501)
      ∷ Call.releases "g" "w"
      ∷ []

lost_store : Store ℤ
unfolding run step register_revision bootstrap activate_candidate activate record_decision
    activation_key detect claim release update update_in settle changed fence validate_transition
    allowed lookup insert verifies approved signal_eq is_record
lost_store = run thousandths digests empty lost_calls

lost : RollbackRecord ℤ
unfolding operation changed
lost =
    changed thousandths digests
      (changed thousandths digests operation RollbackStatus.applying none true (pos 5000))
      RollbackStatus.needs_reconciliation (some "TimeoutError") false (pos 5500)

lost_is_stored : lookup "g" lost_store.rollbacks ≡ some lost
unfolding lost lost_store operation
lost_is_stored = refl

-- The route still serves the candidate at first; another worker tries to take the lease at each
-- await; the apply succeeds and the known-good revision is healthy then.
abbrev world : Bool → World thousandths digests
world idempotent = record {
  owner = "w2";
  lease_seconds = pos 95000;
  supports_idempotency = idempotent;
  clock = λ n. pos (10000 + n);
  others = λ n. Call.claims "g" "w3" (pos 60000) (pos 10000) ∷ Call.releases "g" "w3" ∷ [];
  first_health = ok (health "r2" "i2");
  applies = ok tt;
  last_health = ok (health "r1" "i1");
  class_name = λ e. "ControlConflict";
}

-- With an idempotent adapter, the same attempt sends one request and restores the deployment.
resumed :
    ((resume thousandths digests (world true) "g" lost_store).applied
      ≡ record {
        deployment_id = "d";
        expected_revision = "r2";
        expected_generation = 1;
        target = revision "r1" "i1";
        idempotency_key = "g";
      }
        ∷ [])
    × (lookup "d" (resume thousandths digests (world true) "g" lost_store).store.deployments
        ≡ some (record {
          deployment_id = "d";
          active_revision = "r1";
          known_good_revision = "r1";
          generation = 2;
          rollback_id = none;
        }))
unfolding resume run_attempt lost_store run step claim release update update_in settle
    settle_restored changed fence validate_transition allowed lookup insert verifies is_record
resumed = (refl, refl)

run_attempt_once_example :
    (run_attempt thousandths digests (world false) lost lost_store).applied ≡ []
unfolding lost changed
run_attempt_once_example =
    run_attempt_once thousandths digests (world false) lost lost_store refl (λ e. cc)

resume-Sound_example : Sound (resume thousandths digests (world true) "g" lost_store).store
unfolding lost_store
resume-Sound_example =
    resume-Sound thousandths digests (world true) "g" lost_store
      (run-Sound thousandths digests empty lost_calls empty-IsSound)
