-- ===== src/Reliability/Promotion/Gate.antt =====
-- What an approval of `evaluate_promotion` rests on.
use fin_serve.Prelude.{
  ◌≡◌, ◌∙◌, ap, refl, String, true, some, List, [], ◌∷◌, ◌++◌, arith, inl, inr, ◌!=◌, ==_iff,
  string_eq, option_eq,
}
use fin_serve.Prelude.Float.{Float}
use fin_serve.Prelude.Result.{ok, ◌>>◌, raise_if, ok_of_bind, Result-cases}
use fin_serve.Reliability.Contracts.{Revision, PromotionDecision, approved}
use fin_serve.Reliability.Promotion.{
  PromotionPolicy, PerformanceSample, Configuration, Failure, Quality, Evidence,
  verify_candidate_identity, check_quality_identity, performance_failures, assess,
  evaluate_promotion, reason_if,
}

-- The configuration that was measured is that of the revision.
pub record SameIdentity (c : Configuration) (r : Revision) : Type 0 where
  pub model : c.model_revision ≡ r.model_revision
  pub tokenizer : c.tokenizer_revision ≡ r.tokenizer_revision
  pub source : c.revision ≡ r.source_revision
  pub engine : c.engine ≡ r.engine
  pub engine_config : c.engine_config ≡ r.engine_config
  pub image : c.image_digest ≡ r.image_digest
  pub config : c.config_digest ≡ r.config_digest

verify_candidate_identity-SameIdentity :
    (c : Configuration) (r : Revision) (u : Unit {0})
    → verify_candidate_identity c r ≡ ok u
    → SameIdentity c r
unfolding verify_candidate_identity
verify_candidate_identity-SameIdentity c r u h = record {
  model = ground (arith, ==_iff c.model_revision r.model_revision);
  tokenizer = ground (arith, ==_iff c.tokenizer_revision r.tokenizer_revision);
  source = ground (arith, ==_iff c.revision r.source_revision);
  engine = ground (arith, ==_iff c.engine r.engine);
  engine_config = ground (arith, ==_iff c.engine_config r.engine_config);
  image = ground (arith, ==_iff c.image_digest r.image_digest);
  config = ground (arith, ==_iff c.config_digest r.config_digest);
}

module _ (F : Float) where
  open F use {Carrier, le, mul, is_finite}

  -- Every threshold is met.
  pub record MeetsPolicy (baseline candidate : PerformanceSample Carrier)
      (policy : PromotionPolicy Carrier) : Type 0 where
    pub requests :
        le
          (mul baseline.requests_per_second policy.minimum_requests_per_second_ratio)
          candidate.requests_per_second
        ≡ true
    pub tokens :
        le
          (mul baseline.tokens_per_second policy.minimum_tokens_per_second_ratio)
          candidate.tokens_per_second
        ≡ true
    pub ttft :
        le candidate.client_ttft_median_s
          (mul baseline.client_ttft_median_s policy.maximum_client_ttft_ratio)
        ≡ true
    pub e2e : le candidate.e2e_p95_s (mul baseline.e2e_p95_s policy.maximum_e2e_p95_ratio) ≡ true
    pub success : le policy.minimum_success_rate candidate.success_rate ≡ true

  performance_failures-MeetsPolicy :
      (baseline candidate : PerformanceSample Carrier) (policy : PromotionPolicy Carrier)
      → performance_failures F baseline candidate policy ≡ ok []
      → MeetsPolicy baseline candidate policy
  unfolding performance_failures
  performance_failures-MeetsPolicy baseline candidate policy h = record {
    requests = ground arith;
    tokens = ground arith;
    ttft = ground arith;
    e2e = ground arith;
    success = ground arith;
  }

  -- What an approval shows.
  pub record Approval (e : Evidence F) (policy : PromotionPolicy Carrier) (revision : Revision)
      (d : PromotionDecision Carrier) : Type 0 where
    pub digest : String
    pub before_digest : e.before_digest ≡ ok digest
    pub after_digest : e.after_digest ≡ ok digest
    pub named : d.evidence_digest ≡ some digest
    pub comparison : e.comparison ≡ ok tt
    pub measured : Configuration
    pub right : e.candidate.configuration ≡ ok measured
    pub identity : SameIdentity measured revision
    pub before : PerformanceSample Carrier
    pub after : PerformanceSample Carrier
    pub baseline_sample : e.baseline.sample ≡ ok before
    pub candidate_sample : e.candidate.sample ≡ ok after
    pub performance : MeetsPolicy before after policy
    pub result : Quality Carrier
    pub quality : e.quality ≡ ok result
    pub passed : result.passed ≡ true

  -- The end of `assess`, where nothing is held against the candidate.
  no_reasons :
      (failures : List String) (quality q : Quality Carrier) (b a digest : String)
      → ◌>>◌ {B = List String × Quality Carrier × String}
          (raise_if (b != a) Failure.invalid_evidence)
          (ok (failures ++ reason_if quality.passed "quality_gate_failed", quality, a))
        ≡ ok ([], q, digest)
      → (b ≡ digest) × (a ≡ digest) × (failures ≡ []) × (quality.passed ≡ true)
  no_reasons [] quality q b a digest h =
      (ground (arith, ==_iff b a), ground arith, refl, ground arith)
  no_reasons (x ∷ xs) quality q b a digest h = absurd (ground arith)

  assess-Approval :
      (e : Evidence F) (policy : PromotionPolicy Carrier) (revision : Revision)
      (d : PromotionDecision Carrier) (q : Quality Carrier) (digest : String)
      → assess F e policy revision ≡ ok ([], q, digest)
      → d.evidence_digest ≡ some digest
      → Approval e policy revision d
  unfolding assess
  assess-Approval e policy revision d q digest h named =
      let (b, b_ok, h1) = ok_of_bind e.before_digest _ _ h in
      let (c, c_ok, h2) = ok_of_bind e.comparison _ _ h1 in
      let (left, left_ok, h3) = ok_of_bind e.baseline.configuration _ _ h2 in
      let (right, right_ok, h4) = ok_of_bind e.candidate.configuration _ _ h3 in
      let (i, i_ok, h5) = ok_of_bind (verify_candidate_identity right revision) _ _ h4 in
      let (br, br_ok, h6) = ok_of_bind e.baseline.run_id _ _ h5 in
      let (cr, cr_ok, h7) = ok_of_bind e.candidate.run_id _ _ h6 in
      let (k, k_ok, h8) =
        ok_of_bind (check_quality_identity e.evidence e.suite br cr left right) _ _ h7 in
      let (before, before_ok, h9) = ok_of_bind e.baseline.sample _ _ h8 in
      let (after, after_ok, h10) = ok_of_bind e.candidate.sample _ _ h9 in
      let (failures, failures_ok, h11) =
        ok_of_bind (performance_failures F before after policy) _ _ h10 in
      let (quality, quality_ok, h12) = ok_of_bind e.quality _ _ h11 in
      let (a, a_ok, h13) = ok_of_bind e.after_digest _ _ h12 in
      let (b_same, a_same, none_failed, passed) = no_reasons failures quality q b a digest h13 in
      record {
        digest = digest;
        before_digest = b_ok ∙ ap ok b_same;
        after_digest = a_ok ∙ ap ok a_same;
        named = named;
        comparison = c_ok;
        measured = right;
        right = right_ok;
        identity = verify_candidate_identity-SameIdentity right revision i i_ok;
        before = before;
        after = after;
        baseline_sample = before_ok;
        candidate_sample = after_ok;
        performance =
            performance_failures-MeetsPolicy before after policy (failures_ok ∙ ap ok none_failed);
        result = quality;
        quality = quality_ok;
        passed = passed;
      }

  -- A candidate is approved only if the evidence has one digest before and after, which the
  -- decision names, the comparison is valid, the measured configuration is that of the revision in
  -- all seven fields, every performance threshold is met, and the quality gate has passed.
  pub evaluate_promotion-Approval :
      (e : Evidence F) (policy : PromotionPolicy Carrier) (revision : Revision) (digest : String)
      → approved (evaluate_promotion F e policy revision digest) ≡ true
      → Approval e policy revision (evaluate_promotion F e policy revision digest)
  unfolding evaluate_promotion approved
  evaluate_promotion-Approval e policy revision digest h =
      elim (Result-cases (assess F e policy revision)) [
        | inr (x, bad) ↦ ground arith
        | inl ((reasons, q, d), good) ↦
            let clean : reasons ≡ [] = ground arith in
            assess-Approval e policy revision _ q d (ground arith) (ground arith)
      ]
