-- ===== src/Reliability/Promotion/Tests.antt =====
-- The gates at a concrete candidate, over floats in thousandths.
use fin_serve.Prelude.{string_eq, option_eq, refl, true, false, none, some}
use fin_serve.Prelude.Int.{ℤ, pos}
use fin_serve.Prelude.Float.{thousandths}
use fin_serve.Prelude.Result.{ok}
use fin_serve.Reliability.Contracts.{Revision, approved}
use fin_serve.Reliability.Promotion.{
  PromotionPolicy, PerformanceSample, Configuration, Evidence, evaluate_promotion, assess,
  verify_candidate_identity, check_quality_identity, performance_failures,
}
use fin_serve.Reliability.Promotion.Gate.{Approval, evaluate_promotion-Approval}

abbrev revision : Revision
revision = record {
  revision_id = "r";
  model_revision = "m";
  tokenizer_revision = "t";
  source_revision = "s";
  image_digest = "i";
  config_digest = "c";
  engine = "e";
  engine_config = "f";
}

abbrev configuration : Configuration
configuration = record {
  model_revision = "m";
  tokenizer_revision = "t";
  revision = "s";
  engine = "e";
  engine_config = "f";
  image_digest = "i";
  config_digest = "c";
  request_api = "completions";
  has_output_constraints = false;
  accepts_prompts = true;
  request_mapping_digest = none;
}

abbrev sample : PerformanceSample ℤ
sample = record {
  requests_per_second = pos 2000;
  tokens_per_second = pos 9000;
  client_ttft_median_s = pos 100;
  e2e_p95_s = pos 500;
  success_rate = pos 1000;
}

abbrev policy : PromotionPolicy ℤ
policy = record {
  version = "v";
  minimum_requests_per_second_ratio = pos 1000;
  minimum_tokens_per_second_ratio = pos 1000;
  maximum_client_ttft_ratio = pos 1050;
  maximum_e2e_p95_ratio = pos 1050;
  minimum_success_rate = pos 999;
}

abbrev evidence : Evidence thousandths
evidence = record {
  before_digest = ok "x";
  comparison = ok tt;
  baseline = record {
    run_id = ok (some "a");
    configuration = ok configuration;
    sample = ok sample;
  };
  candidate = record {
    run_id = ok (some "b");
    configuration = ok configuration;
    sample = ok sample;
  };
  evidence = record {
    suite_hash = "h";
    evaluator_version = "w";
    baseline_run_id = "a";
    candidate_run_id = "b";
    reference_model_revision = "m";
    candidate_model_revision = "m";
    request_mapping_sha256 = none;
  };
  suite = record { digest = "h"; evaluator_version = "w" };
  quality = ok (record { passed = true; parity = none; candidate_accuracy = none });
  after_digest = ok "x";
}

evaluate_promotion-Approval_example :
    Approval thousandths evidence policy revision
      (evaluate_promotion thousandths evidence policy revision "d")
unfolding evaluate_promotion approved assess verify_candidate_identity check_quality_identity
    performance_failures
evaluate_promotion-Approval_example =
    evaluate_promotion-Approval thousandths evidence policy revision "d" refl
