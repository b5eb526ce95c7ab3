-- ===== src/Reliability/Rollback/Workflow.antt =====
-- The life of a rollback of `DeploymentStore`, over any calls of others: what its record keeps, and
-- what a signal that was handled gets again.
use mathlib.Core.Path.{subst}
use fin_serve.Prelude.{
  ℕ, suc, ◌≡◌, ◌≢◌, ◌≤◌, ◌⊎◌, refl, sym, ap, ◌∙◌, inl, inr, String, Bool, true, Option, some, List,
  [], ◌∷◌, arith, ◌==◌, ==_iff, string_eq, Bool-cases,
}
use fin_serve.Prelude.Float.{Float}
use fin_serve.Prelude.Result.{ok}
use fin_serve.Prelude.Dict.{Dict, lookup, lookup-insert}
use fin_serve.Reliability.Contracts.{
  RollbackStatus, status_eq, RollbackRecord, RegressionSignal, PromotionDecision, Digests,
  HealthObservation,
}
use fin_serve.Reliability.Rollback.Store.{Store}
use fin_serve.Reliability.Rollback.Deployments.{
  register_revision, record_decision, mark_stable, stabilize,
}
use fin_serve.Reliability.Rollback.Operations.{
  detect, received, claim, release, update, update_in, changed, validate_transition, allowed,
}
use fin_serve.Reliability.Rollback.Detection.{detect_cases}
use fin_serve.Reliability.Rollback.Update.{Updated, update-Updated}
use fin_serve.Reliability.Rollback.Preservation.{bootstrap-WritesFree, activate-WritesFree}
use fin_serve.Reliability.Rollback.Soundness.{Call, step, run, transaction_cases}

-- What a later record of the rollback `r` may be.
pub record Continues {T : Type 0} (r r' : RollbackRecord T) : Type 0 where
  pub operation_id : r'.operation_id ≡ r.operation_id
  pub signal : r'.signal ≡ r.signal
  pub target_revision : r'.target_revision ≡ r.target_revision
  pub target_digest : r'.target_digest ≡ r.target_digest
  pub attempts : r.apply_attempts ≤ r'.apply_attempts
  -- A restored rollback never changes.
  pub final : r.status ≡ RollbackStatus.restored → r' ≡ r
  -- A verification ends with the restoration.
  pub verified :
      r.status ≡ RollbackStatus.verifying
      → (r'.status ≡ RollbackStatus.verifying) ⊎ (r'.status ≡ RollbackStatus.restored)
  pub begun : r.status ≢ RollbackStatus.detected → r'.status ≢ RollbackStatus.detected
  -- Applying again is another attempt.
  pub counted :
      r.status ≢ RollbackStatus.applying
      → r'.status ≡ RollbackStatus.applying
      → suc r.apply_attempts ≤ r'.apply_attempts

module _ {T : Type 0} where
  pub Continues-refl : (r r' : RollbackRecord T) → r' ≡ r → Continues r r'
  Continues-refl r r' e = record {
    operation_id = ap (λ x. x.operation_id) e;
    signal = ap (λ x. x.signal) e;
    target_revision = ap (λ x. x.target_revision) e;
    target_digest = ap (λ x. x.target_digest) e;
    attempts = ground arith;
    final = λ h. e;
    verified = λ h. inl (ap (λ x. x.status) e ∙ h);
    begun = λ h k. h (sym (ap (λ x. x.status) e) ∙ k);
    counted = λ h k. absurd (h (sym (ap (λ x. x.status) e) ∙ k));
  }

  Continues-trans : (a b c : RollbackRecord T) → Continues a b → Continues b c → Continues a c
  Continues-trans a b c p q = record {
    operation_id = q.operation_id ∙ p.operation_id;
    signal = q.signal ∙ p.signal;
    target_revision = q.target_revision ∙ p.target_revision;
    target_digest = q.target_digest ∙ p.target_digest;
    attempts = ground (arith, p.attempts, q.attempts);
    final = λ h. q.final (ap (λ x. x.status) (p.final h) ∙ h) ∙ p.final h;
    verified = λ h. elim (p.verified h) [
      | inl still ↦ q.verified still
      | inr over ↦ inr (ap (λ x. x.status) (q.final over) ∙ over)
    ];
    begun = λ h. q.begun (p.begun h);
    counted = λ h k. elim (Bool-cases (b.status == RollbackStatus.applying)) [
      | inl applies ↦
          let first = p.counted h ((==_iff b.status RollbackStatus.applying).0 applies) in
          ground (arith, first, q.attempts)
      | inr other ↦
          let second = q.counted (λ e. ground (arith, ==_iff b.status RollbackStatus.applying)) k in
          ground (arith, second, p.attempts)
    ];
  }

-- What the table of transitions allows of each status.
allowed_verifying :
    (status : RollbackStatus)
    → allowed RollbackStatus.verifying status ≡ true
    → (status ≡ RollbackStatus.verifying) ⊎ (status ≡ RollbackStatus.restored)
unfolding allowed
allowed_verifying RollbackStatus.verifying h = inl refl
allowed_verifying RollbackStatus.restored h = inr refl
allowed_verifying RollbackStatus.detected h = cc
allowed_verifying RollbackStatus.applying h = cc
allowed_verifying RollbackStatus.needs_reconciliation h = cc

allowed_back :
    (before : RollbackStatus)
    → allowed before RollbackStatus.detected ≡ true
    → before ≡ RollbackStatus.detected
unfolding allowed
allowed_back RollbackStatus.detected h = refl
allowed_back RollbackStatus.verifying h = cc
allowed_back RollbackStatus.restored h = cc
allowed_back RollbackStatus.applying h = cc
allowed_back RollbackStatus.needs_reconciliation h = cc

allowed_restored : (status : RollbackStatus) → allowed RollbackStatus.restored status ≡ true → ⊥
unfolding allowed
allowed_restored status h = cc

-- The guards of an accepted transition.
accepted :
    (before status : RollbackStatus) (start_attempt : Bool)
    → validate_transition before status start_attempt ≡ ok tt
    → (allowed before status ≡ true)
      × (before ≢ RollbackStatus.applying → status ≡ RollbackStatus.applying → start_attempt ≡ true)
unfolding validate_transition
accepted before status start_attempt h = (
  ground arith,
  λ n e.
      ground (arith, ==_iff before RollbackStatus.applying, ==_iff status RollbackStatus.applying),
)

module _ (F : Float) (digests : Digests F.Carrier) where
  open F use {Carrier}

  changed-Continues :
      (r : RollbackRecord Carrier) (status : RollbackStatus) (error : Option String)
      (start_attempt : Bool) (now : Carrier)
      → validate_transition r.status status start_attempt ≡ ok tt
      → Continues r (changed F digests r status error start_attempt now)
  unfolding changed
  changed-Continues r status error start_attempt now h =
      let (edge, attempt) = accepted r.status status start_attempt h in
      record {
        operation_id = refl;
        signal = refl;
        target_revision = refl;
        target_digest = refl;
        attempts = ground arith;
        final = λ e. absurd (allowed_restored status (subst (λ x. allowed x status ≡ true) e edge));
        verified = λ e. allowed_verifying status (subst (λ x. allowed x status ≡ true) e edge);
        begun = λ n e. n (allowed_back r.status (subst (λ x. allowed r.status x ≡ true) e edge));
        counted = λ n e. let starts = attempt n e in ground (arith, starts);
      }

  -- A rollback that a call finds is there afterwards, and continues.
  Kept : String → RollbackRecord Carrier → Dict String (RollbackRecord Carrier) → Type 0
  Kept id r d = (r' : RollbackRecord Carrier) × (lookup id d ≡ some r') × Continues r r'

  unchanged-Kept :
      (id : String) (r : RollbackRecord Carrier) (d d' : Dict String (RollbackRecord Carrier))
      → lookup id d ≡ some r
      → d' ≡ d
      → Kept id r d'
  unfolding Kept
  unchanged-Kept id r d d' h e = (r, ap (λ x. lookup id x) e ∙ h, Continues-refl r r refl)

  detect-Kept :
      (signal : RegressionSignal Carrier) (now later : Carrier) (id : String)
      (r : RollbackRecord Carrier) (s : Store Carrier)
      → lookup id s.rollbacks ≡ some r
      → Kept id r (detect F digests signal now later s).1.rollbacks
  unfolding Kept
  detect-Kept signal now later id r s h = elim (detect_cases F digests signal now later s) [
    | inl same ↦ unchanged-Kept id r s.rollbacks _ h (ap (λ x. x.rollbacks) same)
    | inr d ↦
        let written = received F digests signal d.target now in
        (
          r,
          ap (λ t. lookup id t) d.saved
              ∙ ground (
                arith,
                h,
                d.fresh,
                lookup-insert signal.signal_id id written s.rollbacks,
                ==_iff id signal.signal_id,
              ),
          Continues-refl r r refl,
        )
  ]

  written-Kept :
      (at owner : String) (status : RollbackStatus) (error : Option String) (start_attempt : Bool)
      (health : Option HealthObservation) (now later : Carrier) (id : String)
      (r new : RollbackRecord Carrier) (s s' : Store Carrier)
      → Updated F digests at owner status error start_attempt health now later s new s'
      → lookup id s.rollbacks ≡ some r
      → Kept id r s'.rollbacks
  unfolding Kept
  written-Kept at owner status error start_attempt health now later id r new s s' u h =
      elim (Bool-cases (id == at)) [
        | inl here ↦
            let same : u.operation ≡ r = ground (arith, h, u.found, ==_iff id at) in
            let next = changed-Continues u.operation status error start_attempt now u.transition in
            (
              new,
              ap (λ x. lookup id x.rollbacks) u.written
                  ∙ ground (arith, lookup-insert at id new s.rollbacks),
              subst (λ x. Continues x new) same
                  (subst (Continues u.operation) (sym u.changes) next),
            )
        | inr away ↦ (
          r,
          ap (λ x. lookup id x.rollbacks) u.written
              ∙ ground (arith, h, lookup-insert at id new s.rollbacks),
          Continues-refl r r refl,
        )
      ]

  update-Kept :
      (at owner : String) (status : RollbackStatus) (error : Option String) (start_attempt : Bool)
      (health : Option HealthObservation) (now later : Carrier) (id : String)
      (r : RollbackRecord Carrier) (s : Store Carrier)
      → lookup id s.rollbacks ≡ some r
      → Kept id r
          (update F digests at owner status error start_attempt health now later s).1.rollbacks
  unfolding update
  update-Kept at owner status error start_attempt health now later id r s h =
      elim (transaction_cases s
        (update_in F digests at owner status error start_attempt health now later s)) [
          | inl same ↦ unchanged-Kept id r s.rollbacks _ h (ap (λ x. x.rollbacks) same)
          | inr (new, e) ↦
              written-Kept at owner status error start_attempt health now later id r new s _
                (update-Updated F digests at owner status error start_attempt health now later s new
                  _ e)
                h
        ]

  mark_stable-rollbacks :
      (d : String) (n : ℕ) (decision : PromotionDecision Carrier) (health : HealthObservation)
      (evidence : String) (now : Carrier) (s : Store Carrier)
      → (mark_stable digests d n decision health evidence now s).1.rollbacks ≡ s.rollbacks
  unfolding mark_stable stabilize record_decision
  mark_stable-rollbacks d n decision health evidence now s = ground arith

  step-Kept :
      (c : Call F digests) (id : String) (r : RollbackRecord Carrier) (s : Store Carrier)
      → lookup id s.rollbacks ≡ some r
      → Kept id r (step F digests s c).rollbacks
  unfolding step register_revision record_decision claim release
  step-Kept (Call.registers revision) id r s h = unchanged-Kept id r s.rollbacks _ h (ground arith)
  step-Kept (Call.records decision) id r s h = unchanged-Kept id r s.rollbacks _ h refl
  step-Kept (Call.bootstraps d revision health) id r s h =
      unchanged-Kept id r s.rollbacks _ h (bootstrap-WritesFree digests d revision health s).0
  step-Kept (Call.activates d n decision health) id r s h =
      unchanged-Kept id r s.rollbacks _ h (activate-WritesFree digests d n decision health s).0
  step-Kept (Call.stabilizes d n decision health evidence now) id r s h =
      unchanged-Kept id r s.rollbacks _ h (mark_stable-rollbacks d n decision health evidence now s)
  step-Kept (Call.detects signal now later) id r s h = detect-Kept signal now later id r s h
  step-Kept (Call.claims at owner seconds now) id r s h =
      unchanged-Kept id r s.rollbacks _ h (ground arith)
  step-Kept (Call.updates at owner status error start_attempt health now later) id r s h =
      update-Kept at owner status error start_attempt health now later id r s h
  step-Kept (Call.releases at owner) id r s h = unchanged-Kept id r s.rollbacks _ h refl

  -- After any calls, a rollback that was stored is still stored, with its operation, signal,
  -- target and digest and at least as many attempts. If it was restored, its record is the same;
  -- if it was verifying, it is verifying or restored; once past `detected` it is not detected
  -- again; and if it was not applying and now is, more attempts have been counted.
  pub run-Continues :
      (s : Store Carrier) (cs : List (Call F digests)) (id : String) (r : RollbackRecord Carrier)
      → lookup id s.rollbacks ≡ some r
      → (r' : RollbackRecord Carrier) × (lookup id (run F digests s cs).rollbacks ≡ some r')
        × Continues r r'
  unfolding run Kept
  run-Continues s [] id r h = (r, h, Continues-refl r r refl)
  run-Continues s (c ∷ cs) id r h =
      let (next, found, one) = step-Kept c id r s h in
      let (last, there, rest) = run-Continues (step F digests s c) cs id next found in
      (last, there, Continues-trans r next last one rest)
