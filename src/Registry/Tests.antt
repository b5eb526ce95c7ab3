-- ===== src/Registry/Tests.antt =====
-- The journal of stages at a concrete run, over floats in thousandths.
use fin_serve.Prelude.{
  string_eq, nat_eq, option_eq, ◌≡◌, refl, String, Bool, true, none, some, List, [], ◌∷◌,
}
use fin_serve.Prelude.Int.{ℤ, pos}
use fin_serve.Prelude.Float.{thousandths}
use fin_serve.Prelude.Dict.{lookup, insert}
use fin_serve.Registry.Stages.{
  ArtifactRef, StageRow, Journal, empty, initial, started, finished, row_of, is_stage,
  coherent_attempt, is_stage_codes, validated, read, save,
}
use fin_serve.Registry.Stages.Calls.{declare, start, finish}
use fin_serve.Registry.Stages.Steps.{IsSound, Change}
use fin_serve.Registry.Stages.History.{
  Call, step, run, stage_step-Change, run-empty-IsSound, run_completed,
}

abbrev verified : ArtifactRef → Bool
verified reference = true

abbrev reference : ArtifactRef
reference = record { namespace = "n"; sha256 = "5"; size_bytes = 1 }

abbrev attempt : String
attempt = "0123456789abcdef0123456789abcdef"

abbrev calls : List (Call thousandths verified)
calls =
    Call.declares "p:q" reference
    ∷ Call.starts "p:q" none attempt (pos 1)
    ∷ Call.finishes "p:q" attempt reference (pos 2)
    ∷ []

abbrev done_row : StageRow ℤ
done_row = row_of thousandths (
    finished thousandths
      (started thousandths "p:q" (initial thousandths "p:q" reference) attempt (pos 1)) reference
      (pos 2))

journal : Journal ℤ
unfolding run step declare start finish read validated is_stage coherent_attempt is_stage_codes save
    lookup insert
journal = run thousandths verified empty calls

run-empty-IsSound_example : IsSound thousandths (run thousandths verified empty calls)
run-empty-IsSound_example = run-empty-IsSound thousandths verified calls

stage_step-Change_example :
    Change thousandths journal (step thousandths verified journal (Call.declares "p:r" reference))
unfolding journal
stage_step-Change_example =
    stage_step-Change thousandths verified journal (Call.declares "p:r" reference)
      (run-empty-IsSound thousandths verified calls)

run_completed_example :
    lookup "p:q"
      (run thousandths verified journal (Call.starts "p:q" none attempt (pos 3) ∷ [])).stages
    ≡ some done_row
unfolding journal
run_completed_example =
    run_completed thousandths verified journal (Call.starts "p:q" none attempt (pos 3) ∷ []) "p:q"
      done_row (run-empty-IsSound thousandths verified calls) refl refl
