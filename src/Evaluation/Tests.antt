-- ===== src/Evaluation/Tests.antt =====
-- An evaluation over floats in thousandths, and the theorem at it.
use fin_serve.Prelude.{◌≡◌, refl, String, true, some, List, [], ◌∷◌, string_eq}
use fin_serve.Prelude.Int.{ℤ, pos}
use fin_serve.Prelude.Float.{thousandths}
use fin_serve.Prelude.Dict.{Dict, lookup}
use fin_serve.Evaluation.Quality.{
  AnswerKind, GoldenCase, Texts, canonical_answer, QualityConfig, same_set, answers_of, rows,
  case_failures, evaluate_quality, unique_cases,
}
use fin_serve.Evaluation.Verdict.{IsPassed, evaluate_quality-IsPassed}

abbrev texts : Texts
texts = record { strip = λ s. s; canonical_json = λ s. some s }

abbrev golden : String → String → AnswerKind → GoldenCase
golden id expected kind = record {
  case_id = id;
  family = "GENERAL";
  prompt = "p";
  expected = expected;
  kind = kind;
}

abbrev cases : List GoldenCase
cases = golden "a" "5" AnswerKind.exact ∷ golden "b" "{}" AnswerKind.json ∷ []

abbrev answers : Dict String String
answers = ("a", "5") ∷ ("b", "{}") ∷ []

abbrev config : QualityConfig ℤ
config = record { minimum_parity = pos 992; minimum_accuracy = pos 1000 }

cases_unique : unique_cases cases ≡ true
unfolding unique_cases
cases_unique = refl

passes : (evaluate_quality thousandths texts cases answers answers config).passed ≡ true
unfolding evaluate_quality same_set answers_of rows case_failures canonical_answer lookup
passes = refl

evaluate_quality-IsPassed_example : IsPassed texts answers answers thousandths cases config
evaluate_quality-IsPassed_example =
    evaluate_quality-IsPassed texts answers answers thousandths cases config passes
