-- ===== src/Reliability/Rollback/Operations.antt =====
-- reliability/rollback.py: the methods of `DeploymentStore` on rollback operations and the leases of
-- their workers. `now` and `later` are the clock's readings, in the order of the calls.
use fin_serve.Prelude.{
  suc, String, Bool, true, false, not, ◌&&◌, ◌||◌, Option, none, some, List, [], ◌∷◌, ◌++◌, ◌==◌,
  ◌!=◌, nat_eq, string_eq, option_eq, is_some, if◌then◌else◌,
}
use fin_serve.Prelude.Float.{Float}
use fin_serve.Prelude.Result.{Result, ok, err, ◌>>=◌, ◌>>◌, raise_if}
use fin_serve.Prelude.Dict.{Dict, lookup, insert}
use fin_serve.Reliability.Contracts.{
  PromotionDecision, Revision, revision_eq, HealthObservation, DeploymentState, RegressionSignal,
  RollbackStatus, status_eq, RollbackRecord, Digests, verifies, signal_eq, is_record,
}
use fin_serve.Reliability.Rollback.Store.{
  Error, probation_key_eq, LeaseRow, Event, Store, Outcome, transaction, load_record, save_record,
}

-- The statuses that may follow a status.
unfoldable pub allowed : RollbackStatus → RollbackStatus → Bool
allowed RollbackStatus.detected RollbackStatus.detected = true
allowed RollbackStatus.detected RollbackStatus.applying = true
allowed RollbackStatus.applying RollbackStatus.applying = true
allowed RollbackStatus.applying RollbackStatus.verifying = true
allowed RollbackStatus.applying RollbackStatus.needs_reconciliation = true
allowed RollbackStatus.applying RollbackStatus.restored = true
allowed RollbackStatus.verifying RollbackStatus.verifying = true
allowed RollbackStatus.verifying RollbackStatus.restored = true
allowed RollbackStatus.needs_reconciliation RollbackStatus.needs_reconciliation = true
allowed RollbackStatus.needs_reconciliation RollbackStatus.applying = true
allowed RollbackStatus.needs_reconciliation RollbackStatus.restored = true
allowed _ _ = false

unfoldable pub validate_transition :
    RollbackStatus → RollbackStatus → Bool → Result Error (Unit {0})
unfolding allowed
validate_transition before status start_attempt = do
  raise_if (not (allowed before status)) Error.conflict
  raise_if (start_attempt && status != RollbackStatus.applying) Error.conflict
  raise_if
      (status == RollbackStatus.applying && before != RollbackStatus.applying && not start_attempt)
      Error.conflict

-- `_event`: `now` is the clock's reading.
abbrev pub add_event : {T : Type 0} → RollbackRecord T → T → List (Event T) → List (Event T)
add_event operation now events =
    events
    ++ record { operation_id = operation.operation_id; observed_at = now; payload = operation } ∷ []

-- `_fence`
unfoldable pub fence : {T : Type 0} → RollbackRecord T → Store T → Result Error DeploymentState
fence operation s = do
  state ← load_record s.deployments operation.signal.deployment_id
  raise_if
      (state.rollback_id != some operation.operation_id
        || state.generation != operation.signal.observed_generation
        || state.active_revision != operation.signal.observed_revision)
      Error.conflict
  ok state

-- Queries, each a transaction that only reads.
unfoldable pub revision : {T : Type 0} → String → Store T → Outcome T Revision
revision id s = (load_record s.revisions id, s)

unfoldable pub deployment : {T : Type 0} → String → Store T → Outcome T DeploymentState
deployment id s = (load_record s.deployments id, s)

unfoldable pub decision : {T : Type 0} → String → Store T → Outcome T (PromotionDecision T)
decision digest s = (load_record s.decisions digest, s)

unfoldable pub operation : {T : Type 0} → String → Store T → Outcome T (RollbackRecord T)
operation id s = (load_record s.rollbacks id, s)

unfoldable pub history_in : {T : Type 0} → String → List (Event T) → List (RollbackRecord T)
history_in id [] = []
history_in id (e ∷ es) =
    if e.operation_id == id then e.payload ∷ history_in id es else history_in id es

unfoldable pub history : {T : Type 0} → String → Store T → List (RollbackRecord T)
unfolding history_in
history id s = history_in id s.events

module _ (F : Float) (digests : Digests F.Carrier) where
  open F use {Carrier, le, lt, add, zero, is_finite}

  -- The record of a signal that was just received.
  abbrev pub received : RegressionSignal Carrier → Revision → Carrier → RollbackRecord Carrier
  received signal target now = record {
    operation_id = signal.signal_id;
    signal = signal;
    target_revision = target.revision_id;
    target_digest = digests.revision target;
    status = RollbackStatus.detected;
    detected_at = signal.detected_at;
    received_at = now;
    started_at = none;
    restored_at = none;
    last_error = none;
    apply_attempts = 0;
  }

  abbrev pub detect_known :
      RegressionSignal Carrier
      → Store Carrier
      → RollbackRecord Carrier
      → Result Error (RollbackRecord Carrier × Store Carrier)
  detect_known signal s existing =
      if not (signal_eq F existing.signal signal) then err Error.conflict else ok (existing, s)

  abbrev pub detect_new :
      RegressionSignal Carrier
      → Carrier
      → Carrier
      → Store Carrier
      → Result Error (RollbackRecord Carrier × Store Carrier)
  detect_new signal now later s = do
    state ← load_record s.deployments signal.deployment_id
    raise_if
        (state.active_revision != signal.observed_revision
          || state.generation != signal.observed_generation
          || is_some state.rollback_id
          || state.active_revision == state.known_good_revision)
        Error.conflict
    target ← load_record s.revisions state.known_good_revision
    let operation = received signal target now
    raise_if (not (is_record F operation)) Error.invalid
    ok (
      operation,
      record s {
        rollbacks = save_record s.rollbacks operation.operation_id operation;
        deployments =
            save_record s.deployments state.deployment_id
              (record state { rollback_id = some operation.operation_id });
        events = add_event operation later s.events;
      },
    )

  abbrev pub detect_in :
      RegressionSignal Carrier
      → Carrier
      → Carrier
      → Store Carrier
      → Option (RollbackRecord Carrier)
      → Result Error (RollbackRecord Carrier × Store Carrier)
  detect_in signal now later s none = detect_new signal now later s
  detect_in signal now later s (some existing) = detect_known signal s existing

  unfoldable pub detect :
      RegressionSignal Carrier
      → Carrier
      → Carrier
      → Store Carrier
      → Outcome Carrier (RollbackRecord Carrier)
  detect signal now later s =
      transaction s (detect_in signal now later s (lookup signal.signal_id s.rollbacks))

  -- Another worker's lease runs.
  abbrev pub is_leased : Carrier → Option (LeaseRow Carrier) → Bool
  is_leased now none = false
  is_leased now (some row) = is_some row.owner && lt now row.expires

  unfoldable pub claim :
      String → String → Carrier → Carrier → Store Carrier → Outcome Carrier (RollbackRecord Carrier)
  unfolding fence
  claim id owner lease_seconds now s =
      if not (is_finite lease_seconds) || le lease_seconds zero || owner == ""
      then (err Error.invalid, s)
      else transaction s do
        operation ← load_record s.rollbacks id
        state ← fence operation s
        raise_if (is_leased now (lookup id s.leases)) Error.conflict
        ok (
          operation,
          record s {
            leases =
                insert id (record { owner = some owner; expires = add now lease_seconds }) s.leases;
          },
        )

  -- The worker's own lease, and it still runs.
  abbrev pub holds_lease : String → Carrier → Option (LeaseRow Carrier) → Bool
  holds_lease owner now none = false
  holds_lease owner now (some row) = row.owner == some owner && not (le row.expires now)

  -- `started_at or now`: a start at 0.0 counts as none.
  abbrev pub or_now : Option Carrier → Carrier → Carrier
  or_now none now = now
  or_now (some t) now = if le t zero && le zero t then now else t

  -- `changes`, over the record as it was.
  unfoldable pub changed :
      RollbackRecord Carrier
      → RollbackStatus
      → Option String
      → Bool
      → Carrier
      → RollbackRecord Carrier
  changed operation status error start_attempt now = record operation {
    status = status;
    last_error = error;
    started_at =
        if start_attempt then some (or_now operation.started_at now) else operation.started_at;
    apply_attempts =
        if start_attempt then suc operation.apply_attempts else operation.apply_attempts;
    restored_at = if status == RollbackStatus.restored then some now else operation.restored_at;
  }

  -- The deployment back on its known good revision.
  abbrev pub restored_state : DeploymentState → Revision → DeploymentState
  restored_state state target = record {
    deployment_id = state.deployment_id;
    active_revision = target.revision_id;
    known_good_revision = target.revision_id;
    generation = suc state.generation;
    rollback_id = none;
  }

  abbrev pub verifies_or_none : Option HealthObservation → Revision → Bool
  verifies_or_none none target = false
  verifies_or_none (some health) target = verifies digests health target

  -- Restoration wants exact health of the target.
  unfoldable pub settle_restored :
      RollbackRecord Carrier
      → DeploymentState
      → Option HealthObservation
      → Store Carrier
      → Result Error (Dict String DeploymentState)
  settle_restored operation state health s = do
    target ← load_record s.revisions operation.target_revision
    raise_if
        (not (verifies_or_none health target) || digests.revision target != operation.target_digest)
        Error.invalid
    ok (save_record s.deployments state.deployment_id (restored_state state target))

  -- The deployments after the update: restored, if the status is.
  unfoldable pub settle :
      RollbackRecord Carrier
      → DeploymentState
      → RollbackStatus
      → Option HealthObservation
      → Store Carrier
      → Result Error (Dict String DeploymentState)
  settle operation state status health s =
      if status == RollbackStatus.restored
      then settle_restored operation state health s
      else ok s.deployments

  unfoldable pub update_in :
      String
      → String
      → RollbackStatus
      → Option String
      → Bool
      → Option HealthObservation
      → Carrier
      → Carrier
      → Store Carrier
      → Result Error (RollbackRecord Carrier × Store Carrier)
  update_in id owner status error start_attempt health now later s = do
    operation ← load_record s.rollbacks id
    validate_transition operation.status status start_attempt
    state ← fence operation s
    raise_if (not (holds_lease owner now (lookup id s.leases))) Error.conflict
    deployments ← settle operation state status health s
    let updated = changed operation status error start_attempt now
    raise_if (not (is_record F updated)) Error.invalid
    ok (
      updated,
      record s {
        deployments = deployments;
        rollbacks = save_record s.rollbacks id updated;
        events = add_event updated later s.events;
      },
    )

  unfoldable pub update :
      String
      → String
      → RollbackStatus
      → Option String
      → Bool
      → Option HealthObservation
      → Carrier
      → Carrier
      → Store Carrier
      → Outcome Carrier (RollbackRecord Carrier)
  update id owner status error start_attempt health now later s =
      transaction s (update_in id owner status error start_attempt health now later s)

  -- `UPDATE leases SET owner=NULL,expires=0 WHERE id=? AND owner=?`
  abbrev pub cleared : String → LeaseRow Carrier → LeaseRow Carrier
  cleared owner row =
      if row.owner == some owner then record { owner = none; expires = zero } else row

  abbrev pub clear_row :
      String
      → String
      → Dict String (LeaseRow Carrier)
      → Option (LeaseRow Carrier)
      → Dict String (LeaseRow Carrier)
  clear_row id owner table none = table
  clear_row id owner table (some row) = insert id (cleared owner row) table

  unfoldable pub release : String → String → Store Carrier → Store Carrier
  release id owner s = record s { leases = clear_row id owner s.leases (lookup id s.leases) }
