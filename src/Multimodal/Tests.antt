-- ===== src/Multimodal/Tests.antt =====
-- Runs of the store of visual jobs over floats in thousandths, and the theorems at such runs.
use fin_serve.Prelude.{
  string_eq, nat_eq, option_eq, ◌≡◌, refl, String, true, false, some, List, [], ◌∷◌, suc, ℕ,
  if◌then◌else◌, ◌==◌,
}
use fin_serve.Prelude.Int.{ℤ, pos}
use fin_serve.Prelude.Float.{thousandths}
use fin_serve.Prelude.Text.{is_identifier}
use fin_serve.Prelude.Result.{ok, err}
use fin_serve.Prelude.Dict.{lookup, insert}
use fin_serve.Multimodal.Contracts.{
  JobState, Terminal, JobError, Row, VisualJobRequest, VisualAttempt, VisualArtifact,
}
use fin_serve.Multimodal.Jobs.{
  JobStore, init, submit, accept, claim_next, request_cancel, complete, finish_cancel, artifact,
  find, find_key, earliest, comes_before, job, new_row, update_where, pending, start_attempt,
}
use fin_serve.Multimodal.Jobs.Rows.{IsEarliest}
use fin_serve.Multimodal.Jobs.Moves.{Change}
use fin_serve.Multimodal.Jobs.Invariant.{IsSound}
use fin_serve.Multimodal.Jobs.History.{
  Call, step, run, step-Change, run-init-IsSound, run-IsSound, init-IsSound, run-final,
}
use fin_serve.Multimodal.Jobs.Facts.{
  complete_after_cancel, submit_again, claim_next-IsEarliest, finish_cancel_ready, settled_row,
  artifact-complete,
}

abbrev digest : VisualJobRequest ℤ (List ℕ) → String
digest r = r.model_revision

abbrev sha256 : List ℕ → String
sha256 png = "5"

abbrev request : VisualJobRequest ℤ (List ℕ)
request = record { image = []; model_revision = "m"; seed = 17; timeout_seconds = pos 30000 }

abbrev empty_store : JobStore ℤ (List ℕ)
empty_store = record { max_pending = 2; max_records = 8; rows = [] }

abbrev submission : Call thousandths digest sha256
submission = Call.submits "t" "k" request "j" (pos 1)

-- One queued job.
abbrev row : Row ℤ (List ℕ)
row = new_row "t" "k" "m" request (pos 1)

abbrev waiting : JobStore ℤ (List ℕ)
waiting = record empty_store { rows = ("j", row) ∷ [] }

submits_one : submit digest "t" "k" request "j" (pos 1) empty_store ≡ (ok (job "j" row), waiting)
unfolding submit accept is_identifier find_key lookup insert pending job
submits_one = refl

empty-IsSound : IsSound empty_store
unfolding init
empty-IsSound = init-IsSound thousandths digest sha256 2 8 empty_store refl

waiting-IsSound : IsSound waiting
unfolding run step submit accept is_identifier find_key lookup insert pending job
waiting-IsSound = run-IsSound thousandths digest sha256 empty_store (submission ∷ []) empty-IsSound

run-init-IsSound_example :
    IsSound (run thousandths digest sha256 empty_store (submission ∷ Call.claims (pos 2) ∷ []))
unfolding init
run-init-IsSound_example =
    run-init-IsSound thousandths digest sha256 2 8 empty_store
      (submission ∷ Call.claims (pos 2) ∷ []) refl

step-Change_example : Change waiting (step thousandths digest sha256 waiting (Call.claims (pos 2)))
step-Change_example =
    step-Change thousandths digest sha256 waiting (Call.claims (pos 2)) waiting-IsSound

submit_again_example :
    (r : Row ℤ (List ℕ)) × (submit digest "t" "k" request "j2"
        (pos 9)
        (run thousandths digest sha256 waiting (Call.claims (pos 2) ∷ []))
      ≡ (
        (if ◌==◌ {K = String} "m" "m" then ok (job "j" r) else err JobError.conflict),
        run thousandths digest sha256 waiting (Call.claims (pos 2) ∷ []),
      ))
unfolding job
submit_again_example =
    submit_again thousandths digest sha256 "t" "k" request request "j" "j2" (pos 1) (pos 9)
      empty_store waiting (job "j" row) (Call.claims (pos 2) ∷ []) empty-IsSound submits_one

abbrev attempt : VisualAttempt ℤ (List ℕ)
attempt = record { job_id = "j"; generation = 1; request = request }

abbrev running_row : Row ℤ (List ℕ)
running_row = start_attempt (pos 2) row

abbrev claimed : JobStore ℤ (List ℕ)
claimed = record empty_store { rows = ("j", running_row) ∷ [] }

claims_one : claim_next thousandths (pos 2) waiting ≡ (some ("t", attempt), claimed)
unfolding claim_next earliest comes_before insert
claims_one = refl

claim_next-IsEarliest_example :
    (r : Row ℤ (List ℕ)) × IsEarliest thousandths waiting.rows "j" r
    × (◌≡◌ {A = String} "t" r.tenant)
    × (◌≡◌ {A = ℕ} 1 (suc r.generation))
    × (request ≡ r.request)
    × (w : Row ℤ (List ℕ)) × (lookup "j" claimed.rows ≡ some w)
    × (w.state ≡ JobState.running)
    × (w.generation ≡ 1)
claim_next-IsEarliest_example =
    claim_next-IsEarliest thousandths digest sha256 (pos 2) waiting claimed "t" attempt
      waiting-IsSound (λ j q found. refl) claims_one

claimed-IsSound : IsSound claimed
unfolding run step claim_next earliest comes_before insert
claimed-IsSound =
    run-IsSound thousandths digest sha256 waiting (Call.claims (pos 2) ∷ []) waiting-IsSound

abbrev content : VisualArtifact
content = record { png = 1 ∷ 2 ∷ []; sha256 = "5" }

abbrev fenced_row : Row ℤ (List ℕ)
fenced_row = record running_row {
  state = JobState.cancel_requested;
  generation = 2;
  updated_at = pos 3;
}

abbrev fenced_store : JobStore ℤ (List ℕ)
fenced_store = record empty_store { rows = ("j", fenced_row) ∷ [] }

cancels_one : request_cancel "t" "j" (pos 3) claimed ≡ (ok (job "j" fenced_row), fenced_store)
unfolding request_cancel find lookup insert job
cancels_one = refl

complete_after_cancel_example :
    complete sha256 attempt content (pos 4) (run thousandths digest sha256 fenced_store [])
    ≡ (ok false, run thousandths digest sha256 fenced_store [])
complete_after_cancel_example =
    complete_after_cancel thousandths digest sha256 "t" "j" (pos 3) (pos 4) claimed fenced_store
      (job "j" fenced_row) [] attempt content claimed-IsSound cancels_one refl refl

fenced_store-IsSound : IsSound fenced_store
unfolding run step request_cancel find lookup insert job
fenced_store-IsSound =
    run-IsSound thousandths digest sha256 claimed (Call.cancels "t" "j" (pos 3) ∷ [])
      claimed-IsSound

finish_cancel_ready_example :
    (a : VisualAttempt ℤ (List ℕ)) × (a.job_id ≡ "j")
    × (fenced_row.attempt_generation ≡ some a.generation)
    × ((finish_cancel a true Terminal.as_failed (some "E") (pos 5) fenced_store).0 ≡ true)
    × (lookup "j"
          (run thousandths digest sha256
            (finish_cancel a true Terminal.as_failed (some "E") (pos 5) fenced_store).1
            (Call.claims (pos 6) ∷ [])).rows
        ≡ some (settled_row Terminal.as_failed (some "E") (pos 5) fenced_row))
unfolding lookup
finish_cancel_ready_example =
    finish_cancel_ready thousandths digest sha256 "j" fenced_row Terminal.as_failed (some "E")
      (pos 5) fenced_store (Call.claims (pos 6) ∷ []) fenced_store-IsSound refl refl

abbrev finished_row : Row ℤ (List ℕ)
finished_row = record running_row {
  state = JobState.succeeded;
  artifact = some content.png;
  artifact_sha256 = some "5";
  updated_at = pos 4;
}

abbrev finished : JobStore ℤ (List ℕ)
finished = record empty_store { rows = ("j", finished_row) ∷ [] }

completes_one : complete sha256 attempt content (pos 4) claimed ≡ (ok true, finished)
unfolding complete update_where lookup insert
completes_one = refl

artifact-complete_example :
    artifact sha256 "t" "j"
      (run thousandths digest sha256 finished (Call.cancels "t" "j" (pos 6) ∷ []))
    ≡ ok (1 ∷ 2 ∷ [])
unfolding lookup
artifact-complete_example =
    artifact-complete thousandths digest sha256 "t" attempt content (pos 4) claimed finished
      (Call.cancels "t" "j" (pos 6) ∷ []) running_row claimed-IsSound refl refl completes_one

finished-IsSound : IsSound finished
unfolding run step complete update_where lookup insert
finished-IsSound =
    run-IsSound thousandths digest sha256 claimed (Call.completes attempt content (pos 4) ∷ [])
      claimed-IsSound

run-final_example :
    lookup "j" (run thousandths digest sha256 finished (Call.cancels "t" "j" (pos 6) ∷ [])).rows
    ≡ some finished_row
unfolding lookup
run-final_example =
    run-final thousandths digest sha256 finished (Call.cancels "t" "j" (pos 6) ∷ []) "j"
      finished_row finished-IsSound refl refl
