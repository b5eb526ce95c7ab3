-- ===== src/Reliability/Promotion.antt =====
-- reliability/promotion.py: the gates of a candidate. What the benchmark files, the comparison and
-- the quality evaluation yield comes in as the values of `Run`, `Suite` and `Outcome`: a result that
-- is an error where the reading or the check raises. All those exceptions lead to one answer.
pub mod Gate
mod Tests
use fin_serve.Prelude.{
  String, Bool, true, false, not, ◌&&◌, ◌||◌, Option, none, some, List, [], ◌∷◌, ◌++◌, is_some,
  if◌then◌else◌, ◌==◌, ◌!=◌, string_eq, option_eq,
}
use fin_serve.Prelude.Float.{Float}
use fin_serve.Prelude.Result.{Result, ok, err, ◌>>=◌, ◌>>◌, raise_if}
use fin_serve.Reliability.Contracts.{Revision, PromotionDecision}

pub record PromotionPolicy (T : Type 0) : Type 0 where
  pub version : String
  pub minimum_requests_per_second_ratio : T
  pub minimum_tokens_per_second_ratio : T
  pub maximum_client_ttft_ratio : T
  pub maximum_e2e_p95_ratio : T
  pub minimum_success_rate : T

pub record QualityEvidence : Type 0 where
  pub suite_hash : String
  pub evaluator_version : String
  pub baseline_run_id : String
  pub candidate_run_id : String
  pub reference_model_revision : String
  pub candidate_model_revision : String
  pub request_mapping_sha256 : Option String

pub record PerformanceSample (T : Type 0) : Type 0 where
  pub requests_per_second : T
  pub tokens_per_second : T
  pub client_ttft_median_s : T
  pub e2e_p95_s : T
  pub success_rate : T

-- The configuration of a benchmark run, as far as the gate reads it. `accepts_prompts` is whether
-- its output constraints, if it has any, allow the suite's prompts.
pub record Configuration : Type 0 where
  pub model_revision : String
  pub tokenizer_revision : String
  pub revision : String
  pub engine : String
  pub engine_config : String
  pub image_digest : String
  pub config_digest : String
  pub request_api : String
  pub has_output_constraints : Bool
  pub accepts_prompts : Bool
  pub request_mapping_digest : Option String

-- A ValueError, OSError, TypeError or KeyError.
pub data Failure : Type 0 where
  invalid_evidence : Failure

-- A directory of benchmark results: the manifest, the validated evidence and the summary.
pub record Run (T : Type 0) : Type 0 where
  pub run_id : Result Failure (Option String)
  pub configuration : Result Failure Configuration
  pub sample : Result Failure (PerformanceSample T)

pub record Suite : Type 0 where
  pub digest : String
  pub evaluator_version : String

-- What `evaluate_quality` returns.
pub record Quality (T : Type 0) : Type 0 where
  pub passed : Bool
  pub parity : Option T
  pub candidate_accuracy : Option T

abbrev pub reason_if : Bool → String → List String
reason_if passed reason = if passed then [] else reason ∷ []

-- `verify_candidate_identity`
unfoldable pub verify_candidate_identity : Configuration → Revision → Result Failure (Unit {0})
verify_candidate_identity c r = do
  raise_if (c.model_revision != r.model_revision) Failure.invalid_evidence
  raise_if (c.tokenizer_revision != r.tokenizer_revision) Failure.invalid_evidence
  raise_if (c.revision != r.source_revision) Failure.invalid_evidence
  raise_if (c.engine != r.engine) Failure.invalid_evidence
  raise_if (c.engine_config != r.engine_config) Failure.invalid_evidence
  raise_if (c.image_digest != r.image_digest) Failure.invalid_evidence
  raise_if (c.config_digest != r.config_digest) Failure.invalid_evidence

-- The prompts must be mapped as they were measured.
abbrev pub binds_mapping : QualityEvidence → Configuration → Configuration → Bool
binds_mapping evidence left right =
    left.request_api == "chat"
    || right.request_api == "chat"
    || left.has_output_constraints
    || right.has_output_constraints
    || is_some evidence.request_mapping_sha256

abbrev pub same_mapping : QualityEvidence → Configuration → Configuration → Bool
same_mapping evidence left right =
    evidence.request_mapping_sha256 == left.request_mapping_digest
    && left.request_mapping_digest == right.request_mapping_digest

abbrev pub requires_prompts : Configuration → Bool
requires_prompts c = not c.has_output_constraints || c.accepts_prompts

unfoldable pub check_quality_identity :
    QualityEvidence
    → Suite
    → Option String
    → Option String
    → Configuration
    → Configuration
    → Result Failure (Unit {0})
check_quality_identity evidence suite baseline_run candidate_run left right = do
  raise_if
      (not (
        evidence.suite_hash == suite.digest
        && evidence.evaluator_version == suite.evaluator_version
        && some evidence.baseline_run_id == baseline_run
        && some evidence.candidate_run_id == candidate_run
        && evidence.reference_model_revision == left.model_revision
        && evidence.candidate_model_revision == right.model_revision))
      Failure.invalid_evidence
  raise_if (binds_mapping evidence left right && not (same_mapping evidence left right))
      Failure.invalid_evidence
  raise_if
      (binds_mapping evidence left right && not (requires_prompts left && requires_prompts right))
      Failure.invalid_evidence

module _ (F : Float) where
  open F use {Carrier, le, mul, is_finite}

  unfoldable pub performance_failures :
      PerformanceSample Carrier
      → PerformanceSample Carrier
      → PromotionPolicy Carrier
      → Result Failure (List String)
  performance_failures baseline candidate policy =
      let requests = mul baseline.requests_per_second policy.minimum_requests_per_second_ratio in
      let tokens = mul baseline.tokens_per_second policy.minimum_tokens_per_second_ratio in
      let ttft = mul baseline.client_ttft_median_s policy.maximum_client_ttft_ratio in
      let e2e = mul baseline.e2e_p95_s policy.maximum_e2e_p95_ratio in
      if not (is_finite requests && is_finite tokens && is_finite ttft && is_finite e2e)
      then err Failure.invalid_evidence
      else ok (
          reason_if (le requests candidate.requests_per_second) "request_throughput_regression"
          ++ reason_if (le tokens candidate.tokens_per_second) "token_throughput_regression"
          ++ reason_if (le candidate.client_ttft_median_s ttft) "client_ttft_regression"
          ++ reason_if (le candidate.e2e_p95_s e2e) "e2e_latency_regression"
          ++ reason_if (le policy.minimum_success_rate candidate.success_rate)
              "success_rate_below_floor")

  -- What the evaluation reads, in the order in which it reads it.
  pub record Evidence : Type 0 where
    pub before_digest : Result Failure String
    pub comparison : Result Failure (Unit {0})
    pub baseline : Run Carrier
    pub candidate : Run Carrier
    pub evidence : QualityEvidence
    pub suite : Suite
    pub quality : Result Failure (Quality Carrier)
    pub after_digest : Result Failure String

  -- The body of the `try` block: the reasons, the quality result and the digest.
  unfoldable pub assess :
      Evidence
      → PromotionPolicy Carrier
      → Revision
      → Result Failure (List String × Quality Carrier × String)
  assess e policy revision = do
    before_digest ← e.before_digest
    compared ← e.comparison
    left ← e.baseline.configuration
    right ← e.candidate.configuration
    identified ← verify_candidate_identity right revision
    baseline_run ← e.baseline.run_id
    candidate_run ← e.candidate.run_id
    bound ← check_quality_identity e.evidence e.suite baseline_run candidate_run left right
    before ← e.baseline.sample
    after ← e.candidate.sample
    failures ← performance_failures before after policy
    quality ← e.quality
    after_digest ← e.after_digest
    raise_if (before_digest != after_digest) Failure.invalid_evidence
    ok (failures ++ reason_if quality.passed "quality_gate_failed", quality, after_digest)

  -- `digest` is `revision.digest()`.
  abbrev pub decide :
      PromotionPolicy Carrier
      → Revision
      → String
      → Result Failure (List String × Quality Carrier × String)
      → PromotionDecision Carrier
  decide policy revision digest (ok (reasons, quality, evidence_digest)) = record {
    candidate_revision = revision.revision_id;
    candidate_digest = digest;
    policy_version = policy.version;
    evidence_digest = some evidence_digest;
    rejection_reasons = reasons;
    quality_parity = quality.parity;
    candidate_accuracy = quality.candidate_accuracy;
  }
  decide policy revision digest (err e) = record {
    candidate_revision = revision.revision_id;
    candidate_digest = digest;
    policy_version = policy.version;
    evidence_digest = none;
    rejection_reasons = "missing_or_invalid_evidence" ∷ [];
    quality_parity = none;
    candidate_accuracy = none;
  }

  unfoldable pub evaluate_promotion :
      Evidence → PromotionPolicy Carrier → Revision → String → PromotionDecision Carrier
  evaluate_promotion e policy revision digest =
      decide policy revision digest (assess e policy revision)
