-- ===== src/Evaluation/Quality.antt =====
-- evaluation/quality.py: the golden cases and their evaluation. `str.strip` and the normal form of a
-- JSON object are the fields of `Texts`.
use fin_serve.Prelude.{
  ℕ, suc, String, Bool, true, false, not, ◌&&◌, ◌||◌, nat_beq, Option, none, some, List, [], ◌∷◌,
  ◌++◌, ◌==◌, string_eq, is_some, if◌then◌else◌, length, all, any,
}
use fin_serve.Prelude.Float.{Float}
use fin_serve.Prelude.Result.{Result, ok, err}
use fin_serve.Prelude.Dict.{Dict, lookup}

-- "exact" and "json"
pub data AnswerKind : Type 0 where
  exact json : AnswerKind

pub record GoldenCase : Type 0 where
  pub case_id : String
  pub family : String
  pub prompt : String
  pub expected : String
  pub kind : AnswerKind

pub record Texts : Type 0 where
  pub strip : String → String
  -- a JSON object with sorted keys; `none` where the text is no object, has a key twice or a NaN
  pub canonical_json : String → Option String

unfoldable pub canonical_answer : Texts → String → AnswerKind → Option String
canonical_answer t value AnswerKind.exact = some (t.strip value)
canonical_answer t value AnswerKind.json = t.canonical_json value

pub data Failure : Type 0 where
  -- of "reference" or "candidate"
  case_set_mismatch : String → Failure
  missing_or_invalid_output incorrect_answer : String → Failure

pub record Row : Type 0 where
  pub case_id : String
  pub family : String
  pub parity : Bool
  pub candidate_correct : Bool
  pub reference_correct : Bool

pub record QualityConfig (T : Type 0) : Type 0 where
  pub minimum_parity : T
  pub minimum_accuracy : T

pub record QualityReport (T : Type 0) : Type 0 where
  pub case_count : ℕ
  pub parity : T
  pub candidate_accuracy : T
  pub reference_accuracy : T
  pub hard_failures : List Failure
  pub cases : List Row
  pub passed : Bool

-- `len({case.case_id ...}) != len(cases)`
abbrev pub has_id : String → List GoldenCase → Bool
has_id id cases = any (λ c. c.case_id == id) cases

unfoldable pub unique_cases : List GoldenCase → Bool
unique_cases [] = true
unique_cases (c ∷ cs) = not (has_id c.case_id cs) && unique_cases cs

-- `set(results) == ids`
unfoldable pub same_set : Dict String String → List GoldenCase → Bool
same_set results cases =
    all (λ r. has_id r.0 cases) results && all (λ c. is_some (lookup c.case_id results)) cases

abbrev pub set_failure : String → Dict String String → List GoldenCase → List Failure
set_failure label results cases =
    if same_set results cases then [] else case_set_mismatch label ∷ []

-- The three normal forms of a case, if it has all of them.
pub record Answers : Type 0 where
  pub expected : String
  pub reference : String
  pub candidate : String

abbrev pub answer : Texts → AnswerKind → Option String → Option String
answer t kind none = none
answer t kind (some value) = canonical_answer t value kind

abbrev pub all_three : Option String → Option String → Option String → Option Answers
all_three (some e) (some r) (some c) = some (record { expected = e; reference = r; candidate = c })
all_three _ _ _ = none

-- The body of the `try`.
unfoldable pub answers_of :
    Texts → GoldenCase → Dict String String → Dict String String → Option Answers
answers_of t case_ reference candidate =
    all_three (canonical_answer t case_.expected case_.kind)
      (answer t case_.kind (lookup case_.case_id reference))
      (answer t case_.kind (lookup case_.case_id candidate))

abbrev pub row_of : GoldenCase → Option Answers → Row
row_of case_ none = record {
  case_id = case_.case_id;
  family = case_.family;
  parity = false;
  candidate_correct = false;
  reference_correct = false;
}
row_of case_ (some a) = record {
  case_id = case_.case_id;
  family = case_.family;
  parity = a.candidate == a.reference;
  candidate_correct = a.candidate == a.expected;
  reference_correct = a.reference == a.expected;
}

abbrev pub failures_of : GoldenCase → Option Answers → List Failure
failures_of case_ none =
    missing_or_invalid_output case_.case_id ∷ incorrect_answer case_.case_id ∷ []
failures_of case_ (some a) =
    if a.candidate == a.expected then [] else incorrect_answer case_.case_id ∷ []

module _ (t : Texts) (reference candidate : Dict String String) where
  unfoldable pub rows : List GoldenCase → List Row
  rows [] = []
  rows (c ∷ cs) = row_of c (answers_of t c reference candidate) ∷ rows cs

  unfoldable pub case_failures : List GoldenCase → List Failure
  case_failures [] = []
  case_failures (c ∷ cs) = failures_of c (answers_of t c reference candidate) ++ case_failures cs

-- `sum(p(row) is True for row in rows)`
abbrev pub count : (Row → Bool) → List Row → ℕ
count p [] = 0
count p (r ∷ rs) = if p r then suc (count p rs) else count p rs

abbrev pub no_failures : List Failure → Bool
no_failures [] = true
no_failures (f ∷ fs) = false

module _ (F : Float) where
  open F use {Carrier, le, ratio}

  unfoldable pub evaluate_quality :
      Texts
      → List GoldenCase
      → Dict String String
      → Dict String String
      → QualityConfig Carrier
      → QualityReport Carrier
  evaluate_quality t cases reference candidate config =
      let graded = rows t reference candidate cases in
      let failures =
        set_failure "reference" reference cases
        ++ (set_failure "candidate" candidate cases ++ case_failures t reference candidate cases) in
      let parity = ratio (count (λ r. r.parity) graded) (length graded) in
      let accuracy = ratio (count (λ r. r.candidate_correct) graded) (length graded) in
      record {
        case_count = length graded;
        parity = parity;
        candidate_accuracy = accuracy;
        reference_accuracy = ratio (count (λ r. r.reference_correct) graded) (length graded);
        hard_failures = failures;
        cases = graded;
        passed =
            no_failures failures
            && le config.minimum_parity parity
            && le config.minimum_accuracy accuracy;
      }

pub record ParityReport (T : Type 0) : Type 0 where
  pub cases : ℕ
  pub matches : ℕ
  pub parity : T

-- `sum(left == right for ... in zip(...))` over lists of one length
unfoldable pub matching : List String → List String → ℕ
matching [] _ = 0
matching (x ∷ xs) [] = 0
matching (x ∷ xs) (y ∷ ys) = if x == y then suc (matching xs ys) else matching xs ys

-- ValueError
pub data ParityError : Type 0 where
  unequal_sequences : ParityError

unfoldable pub evaluate_output_parity :
    (F : Float) → List String → List String → Result ParityError (ParityReport F.Carrier)
evaluate_output_parity F reference candidate =
    if nat_beq (length reference) 0 || not (nat_beq (length reference) (length candidate))
    then err unequal_sequences
    else ok (record {
      cases = length reference;
      matches = matching reference candidate;
      parity = F.ratio (matching reference candidate) (length reference);
    })
