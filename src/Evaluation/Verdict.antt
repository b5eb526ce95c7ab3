-- ===== src/Evaluation/Verdict.antt =====
-- What a passed evaluation says of every case.
use mathlib.Core.Path.{subst}
use fin_serve.Prelude.{
  ◌≡◌, refl, ap, ◌∙◌, String, Bool, true, ◌&&◌, Option, none, some, List, [], ◌∷◌, ◌++◌, ==_iff,
  string_eq, length, all, arith, inl, inr, All, Option-cases,
}
use fin_serve.Prelude.Float.{Float}
use fin_serve.Prelude.Dict.{Dict, lookup}
use fin_serve.Evaluation.Quality.{
  AnswerKind, GoldenCase, Texts, canonical_answer, Failure, QualityConfig, has_id, same_set,
  set_failure, Answers, answer, all_three, answers_of, failures_of, rows, case_failures, count,
  no_failures, evaluate_quality,
}

-- The answer of a case in a set of results.
pub record Correct (t : Texts) (reference candidate : Dict String String) (c : GoldenCase)
    : Type 0 where
  pub normal : String
  pub reference_answer : String
  pub candidate_answer : String
  pub expected : canonical_answer t c.expected c.kind ≡ some normal
  pub answered : lookup c.case_id candidate ≡ some candidate_answer
  pub correct : canonical_answer t candidate_answer c.kind ≡ some normal
  pub compared : lookup c.case_id reference ≡ some reference_answer
  pub reference_normal : String
  pub readable : canonical_answer t reference_answer c.kind ≡ some reference_normal

no_failures-append :
    (xs ys : List Failure)
    → no_failures (xs ++ ys) ≡ true
    → (no_failures xs ≡ true) × (no_failures ys ≡ true)
no_failures-append [] ys h = (refl, h)
no_failures-append (x ∷ xs) ys h = absurd (cc)

three_there :
    (e r c : Option String) (a : Answers)
    → all_three e r c ≡ some a
    → (e ≡ some a.expected) × (r ≡ some a.reference) × (c ≡ some a.candidate)
three_there e r c a h = ground arith

graded :
    (c : GoldenCase) (a : Answers)
    → no_failures (failures_of c (some a)) ≡ true
    → a.candidate ≡ a.expected
graded c a h = ground (arith, ==_iff a.candidate a.expected)

all_of : (a b c : Bool) → (a && b && c) ≡ true → (a ≡ true) × (b ≡ true) × (c ≡ true)
all_of a b c h = ground arith

answer_there :
    (t : Texts) (kind : AnswerKind) (o : Option String) (a : String)
    → answer t kind o ≡ some a
    → (v : String) × (o ≡ some v) × (canonical_answer t v kind ≡ some a)
answer_there t kind none a h = absurd (cc)
answer_there t kind (some v) a h = (v, refl, h)

module _ (t : Texts) (reference candidate : Dict String String) where
  case_Correct :
      (c : GoldenCase)
      → no_failures (failures_of c (answers_of t c reference candidate)) ≡ true
      → Correct t reference candidate c
  unfolding answers_of
  case_Correct c h = elim (Option-cases (answers_of t c reference candidate)) [
    | inl missing ↦ absurd (ground arith)
    | inr (a, found) ↦
        let (e, r, k) = three_there _ _ _ a found in
        let (rv, rfound, rnormal) =
          answer_there t c.kind (lookup c.case_id reference) a.reference r in
        let (cv, cfound, cnormal) =
          answer_there t c.kind (lookup c.case_id candidate) a.candidate k in
        let same : a.candidate ≡ a.expected =
          graded c a (subst (λ o. no_failures (failures_of c o) ≡ true) found h) in
        record {
          normal = a.expected;
          reference_answer = rv;
          candidate_answer = cv;
          expected = e;
          answered = cfound;
          correct = cnormal ∙ ap (λ x. some x) same;
          compared = rfound;
          reference_normal = a.reference;
          readable = rnormal;
        }
  ]

  cases_Correct :
      (cases : List GoldenCase)
      → no_failures (case_failures t reference candidate cases) ≡ true
      → All (Correct t reference candidate) cases
  unfolding case_failures
  cases_Correct [] h = tt
  cases_Correct (c ∷ cs) h =
      let (here, there) =
        no_failures-append (failures_of c (answers_of t c reference candidate)) _ h in
      (case_Correct c here, cases_Correct cs there)

  pub record IsPassed (F : Float) (cases : List GoldenCase) (config : QualityConfig F.Carrier)
      : Type 0 where
    pub correct : All (Correct t reference candidate) cases
    pub reference_cases : all (λ r. has_id r.0 cases) reference ≡ true
    pub candidate_cases : all (λ r. has_id r.0 cases) candidate ≡ true
    pub parity :
        F.le config.minimum_parity (
          F.ratio
            (count (λ r. r.parity) (rows t reference candidate cases))
            (length (rows t reference candidate cases)))
        ≡ true
    pub accuracy :
        F.le config.minimum_accuracy (
          F.ratio
            (count (λ r. r.candidate_correct) (rows t reference candidate cases))
            (length (rows t reference candidate cases)))
        ≡ true

  set_lem :
      (label : String) (results : Dict String String) (cases : List GoldenCase)
      → no_failures (set_failure label results cases) ≡ true
      → all (λ r. has_id r.0 cases) results ≡ true
  unfolding same_set
  set_lem label results cases h = ground arith

  -- In an evaluation that passed, every case has a candidate answer whose normal form is that of
  -- the expected one and a reference answer that has a normal form, no answer of either belongs to
  -- no case, and parity and accuracy reach their thresholds.
  pub evaluate_quality-IsPassed :
      (F : Float) (cases : List GoldenCase) (config : QualityConfig F.Carrier)
      → (evaluate_quality F t cases reference candidate config).passed ≡ true
      → IsPassed F cases config
  unfolding evaluate_quality
  evaluate_quality-IsPassed F cases config h =
      let (sound, parity, accuracy) = all_of _ _ _ h in
      let (first, others) = no_failures-append (set_failure "reference" reference cases) _ sound in
      let (second, graded_all) =
        no_failures-append (set_failure "candidate" candidate cases) _ others in
      record {
        correct = cases_Correct cases graded_all;
        reference_cases = set_lem "reference" reference cases first;
        candidate_cases = set_lem "candidate" candidate cases second;
        parity = parity;
        accuracy = accuracy;
      }
