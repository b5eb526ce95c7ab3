-- ===== src/Multimodal/Jobs.antt =====
-- multimodal/jobs.py: `VisualJobStore`. The
-- table is a dictionary by its primary key, and each method one transaction. The request is stored as
-- it was parsed; its JSON and SHA256 are behind the parameters `digest` and `sha256`.
pub mod Rows
pub mod Moves
pub mod Invariant
pub mod History
pub mod Facts
use fin_serve.Prelude.{
  ℕ, suc, ◌+◌, String, Bool, true, false, not, ◌&&◌, ◌||◌, Option, none, some, List, [], ◌∷◌, ◌++◌,
  leb, is_some, if◌then◌else◌, ◌==◌, ◌!=◌, nat_eq, string_eq, option_eq, length,
}
use fin_serve.Prelude.Float.{Float}
use fin_serve.Prelude.Text.{text_lt, is_identifier}
use fin_serve.Prelude.Result.{Result, ok, err, ◌>>=◌, ◌>>◌, raise_if}
use fin_serve.Prelude.Dict.{Dict, lookup, insert}
use fin_serve.Multimodal.Contracts.{
  JobState, is_pending, is_queued, is_running, is_cancel_requested, is_succeeded, Terminal,
  state_of, JobError, VisualJobRequest, VisualAttempt, VisualArtifact, VisualJob, RpcExecution, Row,
}

pub record JobStore (T I : Type 0) : Type 0 where
  pub max_pending : ℕ
  pub max_records : ℕ
  pub rows : Dict String (Row T I)

abbrev pub Outcome : Type 0 → Type 0 → Type 0 → Type 0
Outcome T I A = Result JobError A × JobStore T I

module _ {T I : Type 0} where
  unfoldable pub init : ℕ → ℕ → Result JobError (JobStore T I)
  init max_pending max_records =
      if leb 1 max_pending && leb max_pending max_records && leb max_records 65536
      then ok (record { max_pending = max_pending; max_records = max_records; rows = [] })
      else err JobError.invalid

  -- `_job`
  unfoldable pub job : String → Row T I → VisualJob T
  job id r = record {
    job_id = id;
    state = r.state;
    generation = r.generation;
    model_revision = r.request.model_revision;
    artifact_sha256 = r.artifact_sha256;
    failure_type = r.failure_type;
    created_at = r.created_at;
    updated_at = r.updated_at;
  }

  abbrev pub of_tenant : String → Option (Row T I) → Result JobError (Row T I)
  of_tenant tenant none = err JobError.missing
  of_tenant tenant (some r) = if r.tenant == tenant then ok r else err JobError.missing

  -- `_find`
  unfoldable pub find : String → String → JobStore T I → Result JobError (Row T I)
  find tenant id s = of_tenant tenant (lookup id s.rows)

  -- The row of a tenant's idempotency key.
  unfoldable pub find_key : String → String → Dict String (Row T I) → Option (String × Row T I)
  find_key tenant key [] = none
  find_key tenant key ((id, r) ∷ d) =
      if r.tenant == tenant && r.idempotency_key == key then some (id, r) else find_key tenant key d

  -- `SUM(state IN ('queued','running','cancel_requested'))`
  unfoldable pub pending : Dict String (Row T I) → ℕ
  pending [] = 0
  pending ((id, r) ∷ d) = (if is_pending r.state then 1 else 0) + pending d

  abbrev pub new_row : String → String → String → VisualJobRequest T I → T → Row T I
  new_row tenant key digest request now = record {
    tenant = tenant;
    idempotency_key = key;
    request_digest = digest;
    request = request;
    state = JobState.queued;
    generation = 0;
    attempt_generation = none;
    worker_instance = none;
    artifact = none;
    artifact_sha256 = none;
    failure_type = none;
    created_at = now;
    updated_at = now;
  }

  -- The insertion of an accepted request; `id` is what `uuid4` gave.
  unfoldable pub accept :
      String
      → String
      → String
      → VisualJobRequest T I
      → String
      → T
      → JobStore T I
      → Outcome T I (VisualJob T)
  accept tenant key digest request id now s =
      if leb s.max_records (length s.rows) || leb s.max_pending (pending s.rows)
      then (err JobError.capacity, s)
      else if is_some (lookup id s.rows)
      then (err JobError.integrity, s)
      else (
        ok (job id (new_row tenant key digest request now)),
        record s { rows = insert id (new_row tenant key digest request now) s.rows },
      )

  unfoldable pub submit :
      (VisualJobRequest T I → String)
      → String
      → String
      → VisualJobRequest T I
      → String
      → T
      → JobStore T I
      → Outcome T I (VisualJob T)
  submit digest tenant key request id now s =
      if not (is_identifier tenant) || not (is_identifier key)
      then (err JobError.invalid, s)
      else elim (find_key tenant key s.rows) [
        | some (known, r) ↦
            if r.request_digest != digest request
            then (err JobError.conflict, s)
            else (ok (job known r), s)
        | none ↦ accept tenant key (digest request) request id now s
      ]

  unfoldable pub get : String → String → JobStore T I → Outcome T I (VisualJob T)
  get tenant id s = ((do r ← find tenant id s; ok (job id r)), s)

  -- `UPDATE visual_jobs SET ... WHERE job_id=? AND ...`: the rows and whether one was changed.
  unfoldable pub update_where :
      String → (Row T I → Bool) → (Row T I → Row T I) → JobStore T I → Bool × JobStore T I
  update_where id matches change s = elim (lookup id s.rows) [
    | none ↦ (false, s)
    | some r ↦
        if matches r then (true, record s { rows = insert id (change r) s.rows }) else (false, s)
  ]

  abbrev pub start_attempt : T → Row T I → Row T I
  start_attempt now r = record r {
    state = JobState.running;
    generation = suc r.generation;
    attempt_generation = some (suc r.generation);
    updated_at = now;
  }

  unfoldable pub record_worker : RpcExecution T I → JobStore T I → JobStore T I
  record_worker execution s =
      (update_where execution.attempt.job_id
        (λ r.
          r.attempt_generation == some execution.attempt.generation
          && (is_running r.state || is_cancel_requested r.state))
        (λ r. record r { worker_instance = execution.worker_instance }) s).1

  -- What `request_cancel` writes: only work that was never claimed is cancelled at once.
  abbrev pub fenced : T → Row T I → Row T I
  fenced now r = record r {
    state = if is_queued r.state then JobState.cancelled else JobState.cancel_requested;
    generation = suc r.generation;
    updated_at = now;
  }

  unfoldable pub request_cancel : String → String → T → JobStore T I → Outcome T I (VisualJob T)
  request_cancel tenant id now s = elim (find tenant id s) [
    | err e ↦ (err e, s)
    | ok r ↦
        if is_queued r.state || is_running r.state
        then (ok (job id (fenced now r)), record s { rows = insert id (fenced now r) s.rows })
        else (ok (job id r), s)
  ]

  unfoldable pub complete :
      (List ℕ → String) → VisualAttempt T I → VisualArtifact → T → JobStore T I → Outcome T I Bool
  complete sha256 attempt artifact now s =
      if sha256 artifact.png != artifact.sha256
      then (err JobError.invalid, s)
      else let (changed, s') =
          update_where attempt.job_id
            (λ r. r.generation == attempt.generation && is_running r.state)
            (λ r. record r {
              state = JobState.succeeded;
              artifact = some artifact.png;
              artifact_sha256 = some artifact.sha256;
              updated_at = now;
            })
            s in
        (ok changed, s')

  unfoldable pub finish_cancel :
      VisualAttempt T I → Bool → Terminal → Option String → T → JobStore T I → Bool × JobStore T I
  finish_cancel attempt drained terminal failure_type now s =
      if not drained
      then (false, s)
      else update_where attempt.job_id
          (λ r.
            r.attempt_generation == some attempt.generation
            && r.generation == suc attempt.generation
            && is_cancel_requested r.state)
          (λ r. record r {
            state = state_of terminal;
            failure_type = failure_type;
            updated_at = now;
          })
          s

  -- Bytes that are missing or have changed raise.
  unfoldable pub artifact_of : (List ℕ → String) → Row T I → Result JobError (List ℕ)
  artifact_of sha256 r =
      if not (is_succeeded r.state) then err JobError.conflict else elim r.artifact [
        | none ↦ err JobError.integrity
        | some png ↦
            if some (sha256 png) != r.artifact_sha256 then err JobError.integrity else ok png
      ]

  unfoldable pub artifact :
      (List ℕ → String) → String → String → JobStore T I → Result JobError (List ℕ)
  artifact sha256 tenant id s = do r ← find tenant id s; artifact_of sha256 r

  -- A row without an attempt fails the validation of `VisualAttempt`.
  unfoldable pub execution_of : String → Row T I → Result JobError (String × RpcExecution T I)
  execution_of id r = elim r.attempt_generation [
    | none ↦ err JobError.invalid
    | some generation ↦ ok (
      r.tenant,
      record {
        attempt = record { job_id = id; generation = generation; request = r.request };
        worker_instance = r.worker_instance;
      },
    )
  ]

  unfoldable pub unresolved_in :
      Dict String (Row T I) → Result JobError (List (String × RpcExecution T I))
  unresolved_in [] = ok []
  unresolved_in ((id, r) ∷ d) =
      let rest = unresolved_in d in
      if is_running r.state || is_cancel_requested r.state
      then (do e ← execution_of id r; es ← rest; ok (e ∷ es))
      else rest

  unfoldable pub unresolved : JobStore T I → Result JobError (List (String × RpcExecution T I))
  unfolding unresolved_in
  unresolved s = unresolved_in s.rows

module _ (F : Float) {I : Type 0} where
  open F use {Carrier, le, lt}

  -- `ORDER BY created_at,job_id`: the first row comes before the second.
  unfoldable pub comes_before : String × Row Carrier I → String × Row Carrier I → Bool
  comes_before a b =
      if le a.1.created_at b.1.created_at && le b.1.created_at a.1.created_at
      then text_lt a.0 b.0
      else lt a.1.created_at b.1.created_at

  abbrev pub first_of :
      String × Row Carrier I → Option (String × Row Carrier I) → String × Row Carrier I
  first_of a none = a
  first_of a (some b) = if comes_before b a then b else a

  -- The first queued row.
  unfoldable pub earliest : Dict String (Row Carrier I) → Option (String × Row Carrier I)
  earliest [] = none
  earliest ((id, r) ∷ d) =
      let rest = earliest d in if is_queued r.state then some (first_of (id, r) rest) else rest

  unfoldable pub claim_next :
      Carrier → JobStore Carrier I → Option (String × VisualAttempt Carrier I) × JobStore Carrier I
  claim_next now s = elim (earliest s.rows) [
    | none ↦ (none, s)
    | some (id, r) ↦ (
      some (r.tenant, record { job_id = id; generation = suc r.generation; request = r.request }),
      record s { rows = insert id (start_attempt now r) s.rows },
    )
  ]
