-- ===== src/Multimodal/Contracts.antt =====
-- contracts/visual.py and the rows of multimodal/jobs.py. `T` is the type of floats; the image of a
-- request stays abstract, as `I`; a PNG is a list of bytes. Of an artifact the fields that the store
-- reads stand here; its durations are for the report only.
use fin_serve.Prelude.{ℕ, String, Bool, true, false, Option, List}

pub data JobState : Type 0 where
  queued running succeeded failed cancel_requested cancelled : JobState

-- The states in which the coordinator may still owe work.
abbrev pub is_pending : JobState → Bool
is_pending JobState.queued = true
is_pending JobState.running = true
is_pending JobState.cancel_requested = true
is_pending _ = false

abbrev pub is_queued : JobState → Bool
is_queued JobState.queued = true
is_queued _ = false

abbrev pub is_running : JobState → Bool
is_running JobState.running = true
is_running _ = false

abbrev pub is_cancel_requested : JobState → Bool
is_cancel_requested JobState.cancel_requested = true
is_cancel_requested _ = false

abbrev pub is_succeeded : JobState → Bool
is_succeeded JobState.succeeded = true
is_succeeded _ = false

-- What an attempt whose worker has drained may end in.
pub data Terminal : Type 0 where
  as_cancelled as_failed : Terminal

abbrev pub state_of : Terminal → JobState
state_of Terminal.as_cancelled = JobState.cancelled
state_of Terminal.as_failed = JobState.failed

pub data JobError : Type 0 where
  -- JobConflict
  conflict : JobError
  -- JobCapacityError
  capacity : JobError
  -- KeyError
  missing : JobError
  -- ValueError, a failed validation included
  invalid : JobError
  -- sqlite3.IntegrityError, or bytes that changed on the disk
  integrity : JobError

pub record VisualJobRequest (T I : Type 0) : Type 0 where
  pub image : I
  pub model_revision : String
  pub seed : ℕ
  pub timeout_seconds : T

pub record VisualAttempt (T I : Type 0) : Type 0 where
  pub job_id : String
  pub generation : ℕ
  pub request : VisualJobRequest T I

pub record VisualArtifact : Type 0 where
  pub png : List ℕ
  pub sha256 : String

-- The public status of a job.
pub record VisualJob (T : Type 0) : Type 0 where
  pub job_id : String
  pub state : JobState
  pub generation : ℕ
  pub model_revision : String
  pub artifact_sha256 : Option String
  pub failure_type : Option String
  pub created_at : T
  pub updated_at : T

-- `RPCExecution`, of which the store reads and makes these fields.
pub record RpcExecution (T I : Type 0) : Type 0 where
  pub attempt : VisualAttempt T I
  pub worker_instance : Option String

-- A row of `visual_jobs`, without its primary key.
pub record Row (T I : Type 0) : Type 0 where
  pub tenant : String
  pub idempotency_key : String
  pub request_digest : String
  pub request : VisualJobRequest T I
  pub state : JobState
  pub generation : ℕ
  pub attempt_generation : Option ℕ
  pub worker_instance : Option String
  pub artifact : Option (List ℕ)
  pub artifact_sha256 : Option String
  pub failure_type : Option String
  pub created_at : T
  pub updated_at : T
