-- ===== src/Reliability/Contracts.antt =====
-- contracts/deployment.py and the decision of reliability/promotion.py. `T` is the type of floats.
use fin_serve.Prelude.{
  ℕ, ◌≡◌, ◌↔◌, String, Bool, true, false, not, ◌&&◌, Option, none, some, List, [], ◌∷◌, arith, Eq,
  ◌==◌, nat_eq, string_eq, ==_iff, is_some,
}
use fin_serve.Prelude.Float.{Float}

pub record Revision : Type 0 where
  pub revision_id : String
  pub model_revision : String
  pub tokenizer_revision : String
  pub source_revision : String
  pub image_digest : String
  pub config_digest : String
  pub engine : String
  pub engine_config : String

abbrev pub revision_beq : Revision → Revision → Bool
revision_beq a b =
    a.revision_id == b.revision_id
    && a.model_revision == b.model_revision
    && a.tokenizer_revision == b.tokenizer_revision
    && a.source_revision == b.source_revision
    && a.image_digest == b.image_digest
    && a.config_digest == b.config_digest
    && a.engine == b.engine
    && a.engine_config == b.engine_config

pub revision_beq_iff : (a b : Revision) → (revision_beq a b ≡ true) ↔ (a ≡ b)
revision_beq_iff a b = ground (
  arith,
  ==_iff a.revision_id b.revision_id,
  ==_iff a.model_revision b.model_revision,
  ==_iff a.tokenizer_revision b.tokenizer_revision,
  ==_iff a.source_revision b.source_revision,
  ==_iff a.image_digest b.image_digest,
  ==_iff a.config_digest b.config_digest,
  ==_iff a.engine b.engine,
  ==_iff a.engine_config b.engine_config,
)

instance abbrev pub revision_eq : Eq Revision
revision_eq = record { beq = revision_beq; beq_iff = revision_beq_iff }

pub record HealthObservation : Type 0 where
  pub revision_id : String
  pub revision_digest : String
  pub ready : Bool
  pub smoke_passed : Bool

pub record DeploymentState : Type 0 where
  pub deployment_id : String
  pub active_revision : String
  pub known_good_revision : String
  pub generation : ℕ
  pub rollback_id : Option String

pub record RegressionSignal (T : Type 0) : Type 0 where
  pub signal_id : String
  pub deployment_id : String
  pub observed_revision : String
  pub observed_generation : ℕ
  pub detected_at : T
  pub detector : String
  pub reason : String

pub data RollbackStatus : Type 0 where
  detected applying verifying needs_reconciliation restored : RollbackStatus

abbrev pub status_beq : RollbackStatus → RollbackStatus → Bool
status_beq RollbackStatus.detected RollbackStatus.detected = true
status_beq RollbackStatus.applying RollbackStatus.applying = true
status_beq RollbackStatus.verifying RollbackStatus.verifying = true
status_beq RollbackStatus.needs_reconciliation RollbackStatus.needs_reconciliation = true
status_beq RollbackStatus.restored RollbackStatus.restored = true
status_beq _ _ = false

pub status_beq_iff : (a b : RollbackStatus) → (status_beq a b ≡ true) ↔ (a ≡ b)
status_beq_iff a b = ground arith

instance abbrev pub status_eq : Eq RollbackStatus
status_eq = record { beq = status_beq; beq_iff = status_beq_iff }

pub record RollbackRecord (T : Type 0) : Type 0 where
  pub operation_id : String
  pub signal : RegressionSignal T
  pub target_revision : String
  pub target_digest : String
  pub status : RollbackStatus
  pub detected_at : T
  pub received_at : T
  pub started_at : Option T
  pub restored_at : Option T
  pub last_error : Option String
  pub apply_attempts : ℕ

pub record PromotionDecision (T : Type 0) : Type 0 where
  pub candidate_revision : String
  pub candidate_digest : String
  pub policy_version : String
  pub evidence_digest : Option String
  pub rejection_reasons : List String
  pub quality_parity : Option T
  pub candidate_accuracy : Option T

abbrev pub is_empty {ℓ} : {A : Type ℓ} → List A → Bool
is_empty [] = true
is_empty (x ∷ xs) = false

-- `PromotionDecision.approved`
unfoldable pub approved : {T : Type 0} → PromotionDecision T → Bool
approved d = is_some d.evidence_digest && is_empty d.rejection_reasons

-- The SHA-256 digests of the program's JSON texts; only that they are functions is used.
pub record Digests (T : Type 0) : Type 0 where
  -- `Revision.digest`
  pub revision : Revision → String
  -- of a decision's JSON
  pub decision : PromotionDecision T → String
  -- of `f"{deployment_id}:{generation}:{decision_key}"`
  pub intent : String → ℕ → String → String

module _ {T : Type 0} (digests : Digests T) where
  -- `HealthObservation.verifies`
  unfoldable pub verifies : HealthObservation → Revision → Bool
  verifies health revision =
      health.ready
      && health.smoke_passed
      && health.revision_id == revision.revision_id
      && health.revision_digest == digests.revision revision

module _ (F : Float) where
  open F use {Carrier, le, lt, zero, is_finite, sub}

  -- `a == b` on floats
  abbrev pub float_eq : Carrier → Carrier → Bool
  float_eq a b = le a b && le b a

  -- `a == b` on signals, field by field
  unfoldable pub signal_eq : RegressionSignal Carrier → RegressionSignal Carrier → Bool
  signal_eq a b =
      a.signal_id == b.signal_id
      && a.deployment_id == b.deployment_id
      && a.observed_revision == b.observed_revision
      && a.observed_generation == b.observed_generation
      && float_eq a.detected_at b.detected_at
      && a.detector == b.detector
      && a.reason == b.reason

  -- a finite float greater than 0
  abbrev pub is_time : Carrier → Bool
  is_time t = is_finite t && lt zero t

  abbrev pub is_time_or_none : Option Carrier → Bool
  is_time_or_none none = true
  is_time_or_none (some t) = is_time t

  -- The recovery stands exactly in a restored record, and not before the start.
  abbrev pub restored_after : RollbackStatus → Option Carrier → Option Carrier → Bool
  restored_after RollbackStatus.restored (some begun) (some ended) = not (lt ended begun)
  restored_after RollbackStatus.restored _ _ = false
  restored_after status begun ended = not (is_some ended)

  abbrev pub started_after : Carrier → Option Carrier → Bool
  started_after received none = true
  started_after received (some started) = not (lt started received)

  -- The bounds of the fields and the validator `state_timing`.
  unfoldable pub is_record : RollbackRecord Carrier → Bool
  is_record r =
      is_time r.detected_at
      && is_time r.received_at
      && is_time_or_none r.started_at
      && is_time_or_none r.restored_at
      && float_eq r.detected_at r.signal.detected_at
      && not (lt r.received_at r.detected_at)
      && started_after r.received_at r.started_at
      && restored_after r.status r.started_at r.restored_at

  -- `RollbackRecord.duration_seconds`
  unfoldable pub duration_seconds : RollbackRecord Carrier → Option Carrier
  duration_seconds r = elim r.restored_at [
    | none ↦ none
    | some ended ↦ some (sub ended r.detected_at)
  ]
