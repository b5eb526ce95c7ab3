-- ===== src/Registry/Stages/Calls.antt =====
-- registry/producer_stages.py: the public methods of `ProducerStages`.
use fin_serve.Prelude.{
  String, Bool, not, ◌||◌, Option, List, [], ◌∷◌, ◌++◌, is_some, if◌then◌else◌, ◌==◌, ◌!=◌,
  string_eq, keep,
}
use fin_serve.Prelude.Float.{Float}
use fin_serve.Prelude.Result.{Result, ok, err}
use fin_serve.Prelude.Dict.{lookup, insert}
use fin_serve.Registry.Stages.{
  is_planned, is_failed, ArtifactRef, ref_eq, StageState, StageError, Journal, Outcome, validated,
  read, initial, row_of, commit, with_stage, is_reused, given_or, started, finished, failed_with,
  owns_attempt, is_receipt,
}

module _ (F : Float) (verified : ArtifactRef → Bool) where
  open F use {Carrier}

  unfoldable pub state : String → Journal Carrier → Outcome Carrier
  state id j = (read F id j, j)

  abbrev pub insert_stage : String → StageState Carrier → Journal Carrier → Journal Carrier
  insert_stage id s j = record {
    stages = insert id (row_of F s) j.stages;
    events = j.events ++ s ∷ [];
  }

  -- A stage that stands already is returned, if its input is the same.
  abbrev pub declared_already : ArtifactRef → StageState Carrier → Journal Carrier → Outcome Carrier
  declared_already reference actual j =
      if actual.input != reference then (err StageError.conflict, j) else (ok actual, j)

  abbrev pub declare_valid :
      String
      → ArtifactRef
      → Journal Carrier
      → Result StageError (StageState Carrier)
      → Outcome Carrier
  declare_valid id reference j (err e) = (err e, j)
  declare_valid id reference j (ok s) =
      if is_some (lookup id j.stages)
      then with_stage F j (read F id j) (λ actual. declared_already reference actual j)
      else (ok s, insert_stage id s j)

  unfoldable pub declare : String → ArtifactRef → Journal Carrier → Outcome Carrier
  declare id reference j =
      if not (verified reference)
      then (err StageError.invalid, j)
      else declare_valid id reference j (validated F (initial F id reference))

  -- The body of the transaction of `start`.
  abbrev pub start_from :
      String
      → Option String
      → String
      → Carrier
      → Journal Carrier
      → StageState Carrier
      → Outcome Carrier
  start_from id attempt fresh now j before =
      if not (verified before.input)
      then (err StageError.invalid, j)
      else if not (is_planned before.status || is_failed before.status)
      then (err StageError.conflict, j)
      else if is_reused F id attempt j
      then (err StageError.conflict, j)
      else commit F before j (validated F (started F id before (given_or F attempt fresh) now))

  unfoldable pub start :
      String → Option String → String → Carrier → Journal Carrier → Outcome Carrier
  start id attempt fresh now j = with_stage F j (read F id j) (start_from id attempt fresh now j)

  abbrev pub finish_from :
      String → ArtifactRef → Carrier → Journal Carrier → StageState Carrier → Outcome Carrier
  finish_from attempt output now j before =
      if is_receipt F before attempt output
      then (ok before, j)
      else if not (owns_attempt F before attempt)
      then (err StageError.conflict, j)
      else commit F before j (validated F (finished F before output now))

  unfoldable pub finish :
      String → String → ArtifactRef → Carrier → Journal Carrier → Outcome Carrier
  finish id attempt output now j =
      if not (verified output)
      then (err StageError.invalid, j)
      else with_stage F j (read F id j) (finish_from attempt output now j)

  abbrev pub fail_from :
      String
      → String
      → ArtifactRef
      → Carrier
      → Journal Carrier
      → StageState Carrier
      → Outcome Carrier
  fail_from attempt error_code reconciliation now j before =
      if not (owns_attempt F before attempt)
      then (err StageError.conflict, j)
      else commit F before j (validated F (failed_with F before error_code reconciliation now))

  unfoldable pub fail :
      String → String → String → ArtifactRef → Carrier → Journal Carrier → Outcome Carrier
  fail id attempt error_code reconciliation now j =
      if not (verified reconciliation)
      then (err StageError.invalid, j)
      else with_stage F j (read F id j) (fail_from attempt error_code reconciliation now j)

  abbrev pub is_of_stage : String → StageState Carrier → Bool
  is_of_stage id s = s.stage_id == id

  unfoldable pub history : String → Journal Carrier → List (StageState Carrier)
  history id j = keep (is_of_stage id) j.events
