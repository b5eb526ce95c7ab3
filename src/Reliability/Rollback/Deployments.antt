-- ===== src/Reliability/Rollback/Deployments.antt =====
-- reliability/rollback.py: the methods of `DeploymentStore` on revisions and deployments.
use fin_serve.Prelude.{
  ℕ, suc, String, Bool, true, not, ◌&&◌, ◌||◌, Option, none, some, ◌==◌, ◌!=◌, nat_eq, string_eq,
  option_eq, is_some, if◌then◌else◌,
}
use fin_serve.Prelude.Result.{Result, ok, err, ◌>>=◌, ◌>>◌, raise_if}
use fin_serve.Prelude.Dict.{Dict, lookup, insert}
use fin_serve.Prelude.Text.{is_sha256}
use fin_serve.Reliability.Contracts.{
  Revision, revision_eq, HealthObservation, DeploymentState, status_eq, PromotionDecision, approved,
  Digests, verifies,
}
use fin_serve.Reliability.Rollback.Store.{
  Error, ProbationKey, probation_key, probation_key_eq, Probation, ActivationReceipt, Store,
  Outcome, transaction, load_record, save_record,
}

unfoldable pub register_revision : {T : Type 0} → Revision → Store T → Outcome T (Unit {0})
register_revision revision s = elim (lookup revision.revision_id s.revisions) [
  | none ↦ (ok tt, record s { revisions = save_record s.revisions revision.revision_id revision })
  | some previous ↦ if previous != revision then (err Error.conflict, s) else (ok tt, s)
]

unfoldable pub record_decision :
    {T : Type 0} → Digests T → PromotionDecision T → Store T → String × Store T
record_decision digests decision s =
    let key = digests.decision decision in
    (key, record s { decisions = save_record s.decisions key decision })

-- A deployment that serves the revision, before any activation.
abbrev pub seed : String → String → DeploymentState
seed deployment_id revision_id = record {
  deployment_id = deployment_id;
  active_revision = revision_id;
  known_good_revision = revision_id;
  generation = 0;
  rollback_id = none;
}

abbrev pub bootstrap_known :
    {T : Type 0}
    → String
    → String
    → Store T
    → Option DeploymentState
    → Result Error (DeploymentState × Store T)
bootstrap_known deployment_id revision_id s none =
    let state = seed deployment_id revision_id in
    ok (state, record s { deployments = save_record s.deployments deployment_id state })
bootstrap_known deployment_id revision_id s (some existing) =
    if existing.generation != 0 || existing.active_revision != revision_id
    then err Error.conflict
    else ok (existing, s)

unfoldable pub bootstrap :
    {T : Type 0}
    → Digests T
    → String
    → String
    → HealthObservation
    → Store T
    → Outcome T DeploymentState
bootstrap digests deployment_id revision_id health s = transaction s do
  revision ← load_record s.revisions revision_id
  raise_if (not (verifies digests health revision)) Error.invalid
  bootstrap_known deployment_id revision_id s (lookup deployment_id s.deployments)

module _ {T : Type 0} (digests : Digests T) where
  unfoldable pub activation_key : String → ℕ → PromotionDecision T → String
  activation_key deployment_id expected_generation decision =
      digests.intent deployment_id expected_generation (digests.decision decision)

  -- The deployment after the candidate's activation: the known good revision stays.
  abbrev pub activated : String → Revision → DeploymentState → DeploymentState
  activated deployment_id revision state = record {
    deployment_id = deployment_id;
    active_revision = revision.revision_id;
    known_good_revision = state.known_good_revision;
    generation = suc state.generation;
    rollback_id = none;
  }

  abbrev pub activate_fresh :
      String
      → ℕ
      → PromotionDecision T
      → Revision
      → DeploymentState
      → Store T
      → Option ActivationReceipt
      → Result Error (DeploymentState × Store T)
  activate_fresh deployment_id expected decision revision state s (some receipt) = ok (state, s)
  activate_fresh deployment_id expected decision revision state s none =
      let updated = activated deployment_id revision state in
      if state.generation != expected || is_some state.rollback_id
      then err Error.conflict
      else ok (
        updated,
        record s {
          deployments = save_record s.deployments deployment_id updated;
          activations =
              save_record s.activations (activation_key deployment_id expected decision) (record {
                deployment_id = deployment_id;
                expected_generation = expected;
                decision_digest = digests.decision decision;
                state = updated;
              });
        },
      )

  -- The transaction of `activate_candidate`, after `record_decision`.
  unfoldable pub activate :
      String
      → ℕ
      → PromotionDecision T
      → HealthObservation
      → Store T
      → Result Error (DeploymentState × Store T)
  activate deployment_id expected decision health s = do
    state ← load_record s.deployments deployment_id
    revision ← load_record s.revisions decision.candidate_revision
    raise_if
        (not (approved decision)
          || decision.candidate_digest != digests.revision revision
          || not (verifies digests health revision))
        Error.invalid
    activate_fresh deployment_id expected decision revision state s
        (lookup (activation_key deployment_id expected decision) s.activations)

  unfoldable pub activate_candidate :
      String → ℕ → PromotionDecision T → HealthObservation → Store T → Outcome T DeploymentState
  activate_candidate deployment_id expected decision health s =
      let (key, recorded) = record_decision digests decision s in
      transaction recorded (activate deployment_id expected decision health recorded)

  abbrev pub keep_first :
      {A : Type 0} → ProbationKey → A → Dict ProbationKey A → Dict ProbationKey A
  keep_first key value table = if is_some (lookup key table) then table else insert key value table

  -- Evidence of this generation, if there is any, is the same.
  abbrev pub same_evidence : String → String → Option (Probation T) → Bool
  same_evidence evidence decision_key none = true
  same_evidence evidence decision_key (some prior) =
      prior.evidence_digest == evidence && prior.decision_digest == decision_key

  abbrev pub stabilized : DeploymentState → DeploymentState
  stabilized state = record state { known_good_revision = state.active_revision }

  -- The transaction of `mark_stable`, after `record_decision`; `now` is the clock's reading.
  unfoldable pub stabilize :
      String
      → ℕ
      → PromotionDecision T
      → HealthObservation
      → String
      → T
      → Store T
      → Result Error (DeploymentState × Store T)
  stabilize deployment_id expected decision health evidence now s = do
    let key = probation_key deployment_id expected
    state ← load_record s.deployments deployment_id
    revision ← load_record s.revisions state.active_revision
    raise_if (state.generation != expected || is_some state.rollback_id) Error.conflict
    raise_if
        (not (approved decision)
          || decision.candidate_digest != digests.revision revision
          || decision.candidate_revision != revision.revision_id
          || not (verifies digests health revision))
        Error.invalid
    raise_if (not (same_evidence evidence (digests.decision decision) (lookup key s.probation)))
        Error.conflict
    ok (
      stabilized state,
      record s {
        probation =
            keep_first key
              (record {
                evidence_digest = evidence;
                decision_digest = digests.decision decision;
                observed_at = now;
              })
              s.probation;
        deployments = save_record s.deployments deployment_id (stabilized state);
      },
    )

  unfoldable pub mark_stable :
      String
      → ℕ
      → PromotionDecision T
      → HealthObservation
      → String
      → T
      → Store T
      → Outcome T DeploymentState
  mark_stable deployment_id expected decision health evidence now s =
      let (key, recorded) = record_decision digests decision s in
      if not (is_sha256 evidence)
      then (err Error.invalid, s)
      else transaction recorded
          (stabilize deployment_id expected decision health evidence now recorded)
