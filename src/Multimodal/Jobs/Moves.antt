-- ===== src/Multimodal/Jobs/Moves.antt =====
-- The life of a job as a state machine: what one call of `VisualJobStore` does to the rows.
use mathlib.Core.Path.{subst}
use fin_serve.Prelude.{
  sym, leb, ℕ, suc, ◌≡◌, ◌<◌, refl, String, Bool, true, false, not, ◌&&◌, ◌||◌, Option, none, some,
  List, arith, string_eq, nat_eq, option_eq, Bool-cases, Option-cases, ◌==◌, ◌!=◌, length, inl, inr,
  if◌then◌else◌,
}
use fin_serve.Prelude.Float.{Float}
use fin_serve.Prelude.Text.{is_identifier}
use fin_serve.Prelude.Dict.{lookup, insert, Distinct}
use fin_serve.Multimodal.Contracts.{
  JobState, Terminal, state_of, Row, VisualJobRequest, VisualAttempt, VisualArtifact, RpcExecution,
  is_queued, is_running, is_cancel_requested,
}
use fin_serve.Multimodal.Jobs.{
  JobStore, find, find_key, accept, submit, new_row, update_where, start_attempt, claim_next,
  record_worker, fenced, request_cancel, complete, finish_cancel, pending, earliest,
}
use fin_serve.Multimodal.Jobs.Rows.{SameJob, earliest-lookup}

-- The transitions of a job, one constructor for each.
pub data Edge : JobState → JobState → Type 0 where
  claim : Edge JobState.queued JobState.running
  drop : Edge JobState.queued JobState.cancelled
  fence : Edge JobState.running JobState.cancel_requested
  succeed : Edge JobState.running JobState.succeeded
  settle_cancelled : Edge JobState.cancel_requested JobState.cancelled
  settle_failed : Edge JobState.cancel_requested JobState.failed
  observe_running : Edge JobState.running JobState.running
  observe_fenced : Edge JobState.cancel_requested JobState.cancel_requested

observed : (x : JobState) → (is_running x || is_cancel_requested x) ≡ true → Edge x x
observed JobState.running h = observe_running
observed JobState.cancel_requested h = observe_fenced
observed _ h = absurd (ground arith)

is_queued_lem : (x : JobState) → is_queued x ≡ true → x ≡ JobState.queued
is_queued_lem JobState.queued h = refl
is_queued_lem _ h = absurd (ground arith)

is_running_lem : (x : JobState) → is_running x ≡ true → x ≡ JobState.running
is_running_lem JobState.running h = refl
is_running_lem _ h = absurd (ground arith)

is_cancel_requested_lem :
    (x : JobState) → is_cancel_requested x ≡ true → x ≡ JobState.cancel_requested
is_cancel_requested_lem JobState.cancel_requested h = refl
is_cancel_requested_lem _ h = absurd (ground arith)

-- The state that a cancellation leads to.
abbrev cancelling : JobState → JobState
cancelling x = if is_queued x then JobState.cancelled else JobState.cancel_requested

cancelling_edge : (x : JobState) → (is_queued x || is_running x) ≡ true → Edge x (cancelling x)
cancelling_edge JobState.queued h = drop
cancelling_edge JobState.running h = fence
cancelling_edge _ h = absurd (ground arith)

settling_edge : (t : Terminal) → Edge JobState.cancel_requested (state_of t)
settling_edge Terminal.as_cancelled = settle_cancelled
settling_edge Terminal.as_failed = settle_failed

-- How the fence stands: a running attempt has the job's generation, a fenced one the one before.
abbrev pub FencedAt : JobState → ℕ → Option ℕ → Type 0
FencedAt JobState.queued generation attempt = attempt ≡ none
FencedAt JobState.running generation attempt = attempt ≡ some generation
FencedAt JobState.cancel_requested generation attempt =
    (n : ℕ) × (attempt ≡ some n) × (generation ≡ suc n)
FencedAt _ generation attempt = Unit

cancelling_fence :
    (x : JobState) (g : ℕ) (a : Option ℕ)
    → (is_queued x || is_running x) ≡ true
    → FencedAt x g a
    → FencedAt (cancelling x) (suc g) a
cancelling_fence JobState.queued g a h k = tt
cancelling_fence JobState.running g a h k = (g, k, refl)
cancelling_fence _ g a h k = absurd (ground arith)

settling_fence : (t : Terminal) (g : ℕ) (a : Option ℕ) → FencedAt (state_of t) g a
settling_fence Terminal.as_cancelled g a = tt
settling_fence Terminal.as_failed g a = tt

module _ {T I : Type 0} where
  abbrev pub IsFenced : Row T I → Type 0
  IsFenced r = FencedAt r.state r.generation r.attempt_generation

  -- One transition of a job, which stays the same job.
  pub record Moves (w r : Row T I) : Type 0 where
    pub job : SameJob w r
    pub edge : Edge w.state r.state
    pub fence_kept : IsFenced w → IsFenced r
    pub created : r.created_at ≡ w.created_at

  -- What a call does to the store: nothing, one accepted job, or one transition of one job.
  pub data Change (s : JobStore T I) : JobStore T I → Type 0 where
    unchanged : {s' : JobStore T I} → s' ≡ s → Change s s'
    accepted :
        {s' : JobStore T I} (id : String) (r : Row T I)
        → lookup id s.rows ≡ none
        → pending s.rows < s.max_pending
        → length s.rows < s.max_records
        → r.state ≡ JobState.queued
        → r.attempt_generation ≡ none
        → s' ≡ record s { rows = insert id r s.rows }
        → Change s s'
    moved :
        {s' : JobStore T I} (id : String) (w r : Row T I)
        → lookup id s.rows ≡ some w
        → Moves w r
        → s' ≡ record s { rows = insert id r s.rows }
        → Change s s'

  fenced-Moves :
      (now : T) (r : Row T I)
      → (is_queued r.state || is_running r.state) ≡ true
      → Moves r (fenced now r)
  fenced-Moves now r h = record {
    job = record { tenant = refl; key = refl; digest = refl };
    edge = cancelling_edge r.state h;
    fence_kept = cancelling_fence r.state r.generation r.attempt_generation h;
    created = refl;
  }

  start_attempt-Moves :
      (now : T) (r : Row T I) → is_queued r.state ≡ true → Moves r (start_attempt now r)
  start_attempt-Moves now r h = record {
    job = record { tenant = refl; key = refl; digest = refl };
    edge = subst (λ x. Edge x JobState.running) (sym (is_queued_lem r.state h)) claim;
    fence_kept = λ k. refl;
    created = refl;
  }

  update_where-Change :
      (id : String) (matches : Row T I → Bool) (change : Row T I → Row T I) (s : JobStore T I)
      → ((r : Row T I) → matches r ≡ true → Moves r (change r))
      → Change s (update_where id matches change s).1
  unfolding update_where
  update_where-Change id matches change s m = elim (Option-cases (lookup id s.rows)) [
    | inl missing ↦ unchanged (ground arith)
    | inr (r, e) ↦ elim (Bool-cases (matches r)) [
      | inl here ↦ moved id r (change r) e (m r here) (ground arith)
      | inr away ↦ unchanged (ground arith)
    ]
  ]

  pub record_worker-Change :
      (execution : RpcExecution T I) (s : JobStore T I) → Change s (record_worker execution s)
  unfolding record_worker
  record_worker-Change execution s = update_where-Change _ _ _ s λ r h. record {
    job = record { tenant = refl; key = refl; digest = refl };
    edge = observed r.state (ground arith);
    fence_kept = λ k. k;
    created = refl;
  }

  pub complete-Change :
      (sha256 : List ℕ → String) (attempt : VisualAttempt T I) (artifact : VisualArtifact) (now : T)
      (s : JobStore T I)
      → Change s (complete sha256 attempt artifact now s).1
  unfolding complete
  complete-Change sha256 attempt artifact now s =
      elim (Bool-cases (sha256 artifact.png != artifact.sha256)) [
        | inl differs ↦ unchanged (ground arith)
        | inr same ↦
            let change =
              update_where-Change attempt.job_id
                (λ r. r.generation == attempt.generation && is_running r.state)
                (λ r. record r {
                  state = JobState.succeeded;
                  artifact = some artifact.png;
                  artifact_sha256 = some artifact.sha256;
                  updated_at = now;
                })
                s
                (λ r h. record {
                  job = record { tenant = refl; key = refl; digest = refl };
                  edge =
                      subst (λ x. Edge x JobState.succeeded)
                        (sym (is_running_lem r.state (ground arith))) succeed;
                  fence_kept = λ k. tt;
                  created = refl;
                }) in
            subst (Change s) (ground arith) change
      ]

  pub finish_cancel-Change :
      (attempt : VisualAttempt T I) (drained : Bool) (terminal : Terminal)
      (failure_type : Option String) (now : T) (s : JobStore T I)
      → Change s (finish_cancel attempt drained terminal failure_type now s).1
  unfolding finish_cancel
  finish_cancel-Change attempt false terminal failure_type now s = unchanged refl
  finish_cancel-Change attempt true terminal failure_type now s = update_where-Change _ _ _ s λ r h.
      record {
        job = record { tenant = refl; key = refl; digest = refl };
        edge =
            subst (λ x. Edge x (state_of terminal))
              (sym (is_cancel_requested_lem r.state (ground arith))) (settling_edge terminal);
        fence_kept = λ k. settling_fence terminal r.generation r.attempt_generation;
        created = refl;
      }

  pub request_cancel-Change :
      (tenant id : String) (now : T) (s : JobStore T I)
      → Change s (request_cancel tenant id now s).1
  unfolding request_cancel find
  request_cancel-Change tenant id now s = elim (Option-cases (lookup id s.rows)) [
    | inl missing ↦ unchanged (ground arith)
    | inr (r, e) ↦ elim (Bool-cases (r.tenant == tenant)) [
      | inr other ↦ unchanged (ground arith)
      | inl own ↦ elim (Bool-cases (is_queued r.state || is_running r.state)) [
        | inl live ↦ moved id r (fenced now r) e (fenced-Moves now r live) (ground arith)
        | inr done ↦ unchanged (ground arith)
      ]
    ]
  ]

  accept-Change :
      (tenant key digest : String) (request : VisualJobRequest T I) (id : String) (now : T)
      (s : JobStore T I)
      → Change s (accept tenant key digest request id now s).1
  unfolding accept
  accept-Change tenant key digest request id now s =
      elim (Bool-cases (leb s.max_records (length s.rows) || leb s.max_pending (pending s.rows))) [
        | inl full ↦ unchanged (ground arith)
        | inr room ↦ elim (Option-cases (lookup id s.rows)) [
          | inr (r, e) ↦ unchanged (ground arith)
          | inl fresh ↦
              accepted id (new_row tenant key digest request now) fresh (ground arith)
                (ground arith) refl refl (ground arith)
        ]
      ]

  pub submit-Change :
      (digest : VisualJobRequest T I → String) (tenant key : String)
      (request : VisualJobRequest T I) (id : String) (now : T) (s : JobStore T I)
      → Change s (submit digest tenant key request id now s).1
  unfolding submit accept
  submit-Change digest tenant key request id now s =
      elim (Bool-cases (not (is_identifier tenant) || not (is_identifier key))) [
        | inl bad ↦ unchanged (ground arith)
        | inr good ↦ elim (Option-cases (find_key tenant key s.rows)) [
          | inr ((known, r), e) ↦ unchanged (ground arith)
          | inl fresh ↦
              subst (Change s) (ground arith)
                (accept-Change tenant key (digest request) request id now s)
        ]
      ]

pub claim_next-Change :
    (F : Float) {I : Type 0} (now : F.Carrier) (s : JobStore F.Carrier I)
    → Distinct s.rows
    → Change s (claim_next F now s).1
unfolding claim_next
claim_next-Change F now s u = elim (Option-cases (earliest F s.rows)) [
  | inl none_there ↦ unchanged (ground arith)
  | inr ((id, r), e) ↦
      let (there, waits) = earliest-lookup F s.rows id r u e in
      moved id r (start_attempt now r) there (start_attempt-Moves now r waits) (ground arith)
]
