-- ===== src/Reliability/Rollback/Controller.antt =====
-- reliability/rollback.py: `RollbackController`, one resumed attempt. Between its steps, at each
-- await, other callers may use the store: `others` lists their calls. The adapter's answers, the
-- clock's readings and the class names of exceptions are the fields of `World`.
use fin_serve.Prelude.{
  ℕ, String, Bool, true, false, not, ◌||◌, Option, none, some, List, [], ◌∷◌, if◌then◌else◌, ◌==◌,
  ◌+◌,
}
use fin_serve.Prelude.Float.{Float}
use fin_serve.Prelude.Result.{Result, ok, err}
use fin_serve.Reliability.Contracts.{
  Revision, HealthObservation, RollbackStatus, status_eq, RollbackRecord, Digests, verifies,
}
use fin_serve.Reliability.Rollback.Store.{Store, Error, load_record, Outcome}
use fin_serve.Reliability.Rollback.Operations.{claim, update, release}
use fin_serve.Reliability.Rollback.Soundness.{Call, run}

pub record ApplyRequest : Type 0 where
  pub deployment_id : String
  pub expected_revision : String
  pub expected_generation : ℕ
  pub target : Revision
  pub idempotency_key : String

-- An exception by its class name, or a cancellation of the task.
pub data Raised : Type 0 where
  exception : String → Raised
  cancellation : Raised

abbrev pub name_of : Raised → String
name_of (exception name) = name
name_of cancellation = "CancelledError"

pub record Attempt (T : Type 0) : Type 0 where
  pub result : Result Raised (RollbackRecord T)
  pub store : Store T
  pub applied : List ApplyRequest

module _ (F : Float) (digests : Digests F.Carrier) where
  open F use {Carrier}

  pub record World : Type 0 where
    pub owner : String
    pub lease_seconds : Carrier
    pub supports_idempotency : Bool
    pub clock : ℕ → Carrier
    pub others : ℕ → List (Call F digests)
    pub first_health : Result Raised HealthObservation
    pub applies : Result Raised (Unit {0})
    pub last_health : Result Raised HealthObservation
    pub class_name : Error → String

  module _ (w : World) where
    abbrev pub result_of :
        Result Error (RollbackRecord Carrier) → Result Raised (RollbackRecord Carrier)
    result_of (ok r) = ok r
    result_of (err e) = err (exception (w.class_name e))

    abbrev pub answer :
        List ApplyRequest → Outcome Carrier (RollbackRecord Carrier) → Attempt Carrier
    answer applied (r, s) = record { result = result_of r; store = s; applied = applied }

    -- `self.store.update` at the `n`th place
    abbrev pub update_at :
        ℕ
        → String
        → RollbackStatus
        → Option String
        → Bool
        → Option HealthObservation
        → Store Carrier
        → Outcome Carrier (RollbackRecord Carrier)
    update_at n id status error start_attempt health s =
        update F digests id w.owner status error start_attempt health (w.clock n) (w.clock (n + 1))
          s

    abbrev pub request_of : RollbackRecord Carrier → Revision → ApplyRequest
    request_of operation target = record {
      deployment_id = operation.signal.deployment_id;
      expected_revision = operation.signal.observed_revision;
      expected_generation = operation.signal.observed_generation;
      target = target;
      idempotency_key = operation.operation_id;
    }

    -- The health after the apply.
    abbrev pub conclude :
        RollbackRecord Carrier
        → Revision
        → List ApplyRequest
        → Result Raised HealthObservation
        → Store Carrier
        → Attempt Carrier
    conclude operation target applied (err x) s = record {
      result = err x;
      store = s;
      applied = applied;
    }
    conclude operation target applied (ok health) s = answer applied (
        update_at 7 operation.operation_id
          (if verifies digests health target
            then RollbackStatus.restored
            else RollbackStatus.verifying)
          (if verifies digests health target then none else some "health_not_verified") false
          (if verifies digests health target then some health else none) s)

    abbrev pub acknowledge :
        RollbackRecord Carrier
        → Revision
        → List ApplyRequest
        → Outcome Carrier (RollbackRecord Carrier)
        → Attempt Carrier
    acknowledge operation target applied (err e, s) = answer applied (err e, s)
    acknowledge operation target applied (ok r, s) =
        conclude operation target applied w.last_health (run F digests s (w.others 2))

    abbrev pub after_apply :
        RollbackRecord Carrier
        → Revision
        → List ApplyRequest
        → Result Raised (Unit {0})
        → Store Carrier
        → Attempt Carrier
    after_apply operation target applied (err x) s = record {
      result = err x;
      store = s;
      applied = applied;
    }
    after_apply operation target applied (ok u) s =
        acknowledge operation target applied
          (update_at 5 operation.operation_id RollbackStatus.verifying none false none s)

    abbrev pub with_intent : Revision → Outcome Carrier (RollbackRecord Carrier) → Attempt Carrier
    with_intent target (err e, s) = answer [] (err e, s)
    with_intent target (ok operation, s) =
        after_apply operation target (request_of operation target ∷ []) w.applies
          (run F digests s (w.others 1))

    -- Persist the intent, then apply.
    abbrev pub apply_target : RollbackRecord Carrier → Revision → Store Carrier → Attempt Carrier
    apply_target operation target s =
        with_intent target
          (update_at 3 operation.operation_id RollbackStatus.applying none true none s)

    -- An earlier attempt is reconciled by the health of the route before anything is applied again.
    abbrev pub reconcile :
        RollbackRecord Carrier
        → Revision
        → Result Raised HealthObservation
        → Store Carrier
        → Attempt Carrier
    reconcile operation target (err x) s = record { result = err x; store = s; applied = [] }
    reconcile operation target (ok health) s =
        if verifies digests health target
        then answer []
            (update_at 1 operation.operation_id RollbackStatus.restored none false (some health) s)
        else (if operation.status == RollbackStatus.verifying || not w.supports_idempotency
            then answer [] (
                update_at 1 operation.operation_id
                  (if operation.status == RollbackStatus.verifying
                    then RollbackStatus.verifying
                    else RollbackStatus.needs_reconciliation)
                  (some "health_not_verified") false none s)
            else apply_target operation target s)

    abbrev pub run_with :
        RollbackRecord Carrier → Result Error Revision → Store Carrier → Attempt Carrier
    run_with operation (err e) s = answer [] (err e, s)
    run_with operation (ok target) s =
        if operation.status == RollbackStatus.detected
        then apply_target operation target s
        else reconcile operation target w.first_health (run F digests s (w.others 0))

    -- `_run`
    unfoldable pub run_attempt : RollbackRecord Carrier → Store Carrier → Attempt Carrier
    run_attempt operation s =
        run_with operation (load_record s.revisions operation.target_revision) s

    abbrev pub raise_again :
        Raised → List ApplyRequest → Outcome Carrier (RollbackRecord Carrier) → Attempt Carrier
    raise_again (exception name) applied outcome = answer applied outcome
    raise_again cancellation applied (ok r, s) = record {
      result = err cancellation;
      store = s;
      applied = applied;
    }
    raise_again cancellation applied (err e, s) = answer applied (err e, s)

    abbrev pub record_failure :
        String
        → Raised
        → List ApplyRequest
        → Result Error (RollbackRecord Carrier)
        → Store Carrier
        → Attempt Carrier
    record_failure id x applied (err e) s = answer applied (err e, s)
    record_failure id x applied (ok current) s =
        raise_again x applied (update_at 9 id current.status (some (name_of x)) false none s)

    -- The `except` clauses: the failure is recorded under the status that is stored by then.
    abbrev pub caught : String → Attempt Carrier → Attempt Carrier
    caught id a = elim a.result [
      | ok r ↦ a
      | err x ↦ record_failure id x a.applied (load_record a.store.rollbacks id) a.store
    ]

    -- The `finally` clause
    abbrev pub released : String → Attempt Carrier → Attempt Carrier
    released id a = record a { store = release F digests id w.owner a.store }

    abbrev pub resume_claimed : String → Outcome Carrier (RollbackRecord Carrier) → Attempt Carrier
    resume_claimed id (err e, s) = answer [] (err e, s)
    resume_claimed id (ok operation, s) = released id (caught id (run_attempt operation s))

    abbrev pub resume_known :
        String → Result Error (RollbackRecord Carrier) → Store Carrier → Attempt Carrier
    resume_known id (err e) s = answer [] (err e, s)
    resume_known id (ok operation) s =
        if operation.status == RollbackStatus.restored
        then record { result = ok operation; store = s; applied = [] }
        else resume_claimed id (claim F digests id w.owner w.lease_seconds (w.clock 0) s)

    unfoldable pub resume : String → Store Carrier → Attempt Carrier
    resume id s = resume_known id (load_record s.rollbacks id) s
