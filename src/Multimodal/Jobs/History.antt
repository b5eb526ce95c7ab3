-- ===== src/Multimodal/Jobs/History.antt =====
-- Sequences of calls of `VisualJobStore`, and what holds after all of them.
use fin_serve.Prelude.{ℕ, ◌≡◌, String, Bool, false, Option, some, List, [], ◌∷◌, arith, string_eq}
use fin_serve.Prelude.Float.{Float}
use fin_serve.Prelude.Result.{ok}
use fin_serve.Prelude.Dict.{lookup, Distinct}
use fin_serve.Multimodal.Contracts.{
  Terminal, Row, VisualJobRequest, VisualAttempt, VisualArtifact, RpcExecution, is_pending,
}
use fin_serve.Multimodal.Jobs.{
  JobStore, init, submit, claim_next, record_worker, request_cancel, complete, finish_cancel,
  pending,
}
use fin_serve.Multimodal.Jobs.Rows.{Names}
use fin_serve.Multimodal.Jobs.Invariant.{
  IsSound, Change-IsSound, Change-final, Closed, Change-Closed, Change-Names,
}
use fin_serve.Multimodal.Jobs.Moves.{
  Change, submit-Change, claim_next-Change, record_worker-Change, request_cancel-Change,
  complete-Change, finish_cancel-Change,
}

module _ (F : Float) {I : Type 0} (digest : VisualJobRequest F.Carrier I → String)
    (sha256 : List ℕ → String) where
  open F use {Carrier}

  -- The calls that write, with what the clock and `uuid4` give.
  pub data Call : Type 0 where
    submits : String → String → VisualJobRequest Carrier I → String → Carrier → Call
    claims : Carrier → Call
    observes : RpcExecution Carrier I → Call
    cancels : String → String → Carrier → Call
    completes : VisualAttempt Carrier I → VisualArtifact → Carrier → Call
    finishes : VisualAttempt Carrier I → Bool → Terminal → Option String → Carrier → Call

  unfoldable pub step : JobStore Carrier I → Call → JobStore Carrier I
  step s (submits tenant key request id now) = (submit digest tenant key request id now s).1
  step s (claims now) = (claim_next F now s).1
  step s (observes execution) = record_worker execution s
  step s (cancels tenant id now) = (request_cancel tenant id now s).1
  step s (completes attempt artifact now) = (complete sha256 attempt artifact now s).1
  step s (finishes attempt drained terminal failure_type now) =
      (finish_cancel attempt drained terminal failure_type now s).1

  unfoldable pub run : JobStore Carrier I → List Call → JobStore Carrier I
  unfolding step
  run s [] = s
  run s (c ∷ cs) = run (step s c) cs

  -- Of a sound store, each call that writes leaves the store as it was, or accepts one new queued
  -- job while both quotas have room, or takes one job, with its tenant, key and digest, along one
  -- edge of the life of a job.
  pub step-Change : (s : JobStore Carrier I) (c : Call) → IsSound s → Change s (step s c)
  unfolding step
  step-Change s (submits tenant key request id now) v =
      submit-Change digest tenant key request id now s
  step-Change s (claims now) v = claim_next-Change F now s v.distinct
  step-Change s (observes execution) v = record_worker-Change execution s
  step-Change s (cancels tenant id now) v = request_cancel-Change tenant id now s
  step-Change s (completes attempt artifact now) v = complete-Change sha256 attempt artifact now s
  step-Change s (finishes attempt drained terminal failure_type now) v =
      finish_cancel-Change attempt drained terminal failure_type now s

  pub run-IsSound : (s : JobStore Carrier I) (cs : List Call) → IsSound s → IsSound (run s cs)
  unfolding run
  run-IsSound s [] v = v
  run-IsSound s (c ∷ cs) v =
      run-IsSound (step s c) cs (Change-IsSound s (step s c) (step-Change s c v) v)

  pub init-IsSound :
      (max_pending max_records : ℕ) (s : JobStore Carrier I)
      → init max_pending max_records ≡ ok s
      → IsSound s
  unfolding init pending Distinct lookup
  init-IsSound max_pending max_records s h =
      let empty : s.rows ≡ [] = ground arith in
      record {
        quota = rw empty (ground arith);
        retained = rw empty (ground arith);
        distinct = rw empty tt;
        fences = λ id r found. ground arith;
      }

  -- After any sequence of calls of a new job store at most `max_pending` jobs are unfinished and
  -- at most `max_records` are kept, no job id stands twice, and the fence of every unfinished job
  -- is the one of its attempt.
  pub run-init-IsSound :
      (max_pending max_records : ℕ) (s : JobStore Carrier I) (cs : List Call)
      → init max_pending max_records ≡ ok s
      → IsSound (run s cs)
  run-init-IsSound max_pending max_records s cs h =
      run-IsSound s cs (init-IsSound max_pending max_records s h)

  -- A job that has succeeded, failed or been cancelled keeps its row unchanged through any
  -- sequence of calls of a sound store.
  pub run-final :
      (s : JobStore Carrier I) (cs : List Call) (id : String) (r : Row Carrier I)
      → IsSound s
      → lookup id s.rows ≡ some r
      → is_pending r.state ≡ false
      → lookup id (run s cs).rows ≡ some r
  unfolding run
  run-final s [] id r v h k = h
  run-final s (c ∷ cs) id r v h k =
      let change = step-Change s c v in
      run-final (step s c) cs id r (Change-IsSound s (step s c) change v)
        (Change-final s (step s c) id r change h k) k

  pub run-Closed :
      (s : JobStore Carrier I) (cs : List Call) (id : String)
      → IsSound s
      → Closed id s
      → Closed id (run s cs)
  unfolding run
  run-Closed s [] id v c = c
  run-Closed s (d ∷ cs) id v c =
      let change = step-Change s d v in
      run-Closed (step s d) cs id (Change-IsSound s (step s d) change v)
        (Change-Closed s (step s d) id change c)

  pub run-Names :
      (tenant key g id : String) (s : JobStore Carrier I) (cs : List Call)
      → IsSound s
      → Names tenant key g id s.rows
      → Names tenant key g id (run s cs).rows
  unfolding run
  run-Names tenant key g id s [] v n = n
  run-Names tenant key g id s (c ∷ cs) v n =
      let change = step-Change s c v in
      run-Names tenant key g id (step s c) cs (Change-IsSound s (step s c) change v)
        (Change-Names tenant key g id s (step s c) change n)
