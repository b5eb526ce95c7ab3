-- ===== src/Multimodal/Jobs/Facts.antt =====
-- What `VisualJobStore` promises its clients: fences, idempotency, the queue's order and downloads.
use mathlib.Core.Path.{subst}
use fin_serve.Prelude.{
  ℕ, suc, ◌≡◌, sym, ap, refl, String, true, false, not, ◌&&◌, ◌||◌, Option, some, List, arith,
  string_eq, nat_eq, option_eq, Bool-cases, Option-cases, inl, inr, ◌==◌, ◌!=◌, ==_iff, ==_refl,
  if◌then◌else◌,
}
use fin_serve.Prelude.Float.{Float}
use fin_serve.Prelude.Text.{is_identifier}
use fin_serve.Prelude.Result.{ok, err}
use fin_serve.Prelude.Dict.{lookup, lookup-insert_self}
use fin_serve.Multimodal.Contracts.{
  JobState, Terminal, Row, VisualJobRequest, VisualJob, VisualAttempt, VisualArtifact, JobError,
  is_queued, is_running, is_pending, state_of,
}
use fin_serve.Multimodal.Jobs.{
  JobStore, submit, accept, claim_next, request_cancel, complete, finish_cancel, find, find_key,
  earliest, new_row, update_where, start_attempt, job, artifact, artifact_of, fenced,
}
use fin_serve.Multimodal.Jobs.Rows.{
  Names, find_key-insert_self, IsEarliest, AllFinite, earliest-IsEarliest,
}
use fin_serve.Multimodal.Jobs.Moves.{
  request_cancel-Change, submit-Change, complete-Change, finish_cancel-Change, FencedAt,
}
use fin_serve.Multimodal.Jobs.Invariant.{IsSound, Change-IsSound, Closed}
use fin_serve.Multimodal.Jobs.History.{Call, run, run-Closed, run-Names, run-final}

terminal-final : (terminal : Terminal) → is_pending (state_of terminal) ≡ false
terminal-final Terminal.as_cancelled = refl
terminal-final Terminal.as_failed = refl

module _ {T I : Type 0} where
  request_cancel-Closed :
      (tenant id : String) (now : T) (s s' : JobStore T I) (j : VisualJob T)
      → request_cancel tenant id now s ≡ (ok j, s')
      → Closed id s'
  unfolding request_cancel find
  request_cancel-Closed tenant id now s s' j h = elim (Option-cases (lookup id s.rows)) [
    | inl missing ↦ ground arith
    | inr (r, e) ↦ elim (Bool-cases (r.tenant == tenant)) [
      | inr other ↦ ground arith
      | inl own ↦ elim (Bool-cases (is_queued r.state || is_running r.state)) [
        | inl live ↦ record {
          row = fenced now r;
          found = ground (arith, lookup-insert_self id (fenced now r) s.rows);
          closed = ground arith;
        }
        | inr done ↦ record { row = r; found = ground arith; closed = done }
      ]
    ]
  ]

  complete-Closed :
      (sha256 : List ℕ → String) (attempt : VisualAttempt T I) (artifact : VisualArtifact) (now : T)
      (s : JobStore T I)
      → Closed attempt.job_id s
      → sha256 artifact.png ≡ artifact.sha256
      → complete sha256 attempt artifact now s ≡ (ok false, s)
  unfolding complete update_where
  complete-Closed sha256 attempt artifact now s c h =
      ground (arith, c.found, c.closed, ==_refl artifact.sha256)

  abbrev pub settled_row : Terminal → Option String → T → Row T I → Row T I
  settled_row terminal failure_type now r = record r {
    state = state_of terminal;
    failure_type = failure_type;
    updated_at = now;
  }

  abbrev attempt_of : String → ℕ → Row T I → VisualAttempt T I
  attempt_of id n r = record { job_id = id; generation = n; request = r.request }

  -- The attempt that was fenced settles the job.
  finish_cancel-settles :
      (id : String) (r : Row T I) (terminal : Terminal) (failure_type : Option String) (now : T)
      (s : JobStore T I)
      → IsSound s
      → lookup id s.rows ≡ some r
      → r.state ≡ JobState.cancel_requested
      → (n : ℕ) × (r.attempt_generation ≡ some n)
        × ((finish_cancel (attempt_of id n r) true terminal failure_type now s).0 ≡ true)
        × (lookup id (finish_cancel (attempt_of id n r) true terminal failure_type now s).1.rows
            ≡ some (settled_row terminal failure_type now r))
  unfolding finish_cancel update_where
  finish_cancel-settles id r terminal failure_type now s v found state =
      let fence : FencedAt JobState.cancel_requested r.generation r.attempt_generation =
        subst (λ x. FencedAt x r.generation r.attempt_generation) state (v.fences id r found) in
      let (n, given, next) = fence in
      let fits = ==_iff r.generation (suc n) in
      let same = ==_iff r.attempt_generation (some n) in
      (
        n,
        given,
        ground (arith, ==_refl n, fits, same),
        ground (
          arith,
          ==_refl n,
          fits,
          same,
          lookup-insert_self id (settled_row terminal failure_type now r) s.rows,
        ),
      )

  abbrev committed_row : VisualArtifact → T → Row T I → Row T I
  committed_row content now w = record w {
    state = JobState.succeeded;
    artifact = some content.png;
    artifact_sha256 = some content.sha256;
    updated_at = now;
  }

  committed-lookup :
      (sha256 : List ℕ → String) (attempt : VisualAttempt T I) (content : VisualArtifact) (now : T)
      (w : Row T I) (s s' : JobStore T I)
      → lookup attempt.job_id s.rows ≡ some w
      → complete sha256 attempt content now s ≡ (ok true, s')
      → (lookup attempt.job_id s'.rows ≡ some (committed_row content now w))
        × (sha256 content.png ≡ content.sha256)
  unfolding complete update_where
  committed-lookup sha256 attempt content now w s s' found h =
      elim (Bool-cases (sha256 content.png != content.sha256)) [
        | inl differs ↦ ground arith
        | inr same ↦ elim (Bool-cases (w.generation == attempt.generation && is_running w.state)) [
          | inr lost ↦ ground arith
          | inl owned ↦ (
            ground (arith, lookup-insert_self attempt.job_id (committed_row content now w) s.rows),
            ground (arith, ==_iff (sha256 content.png) content.sha256),
          )
        ]
      ]

module _ (F : Float) {I : Type 0} (digest : VisualJobRequest F.Carrier I → String)
    (sha256 : List ℕ → String) where
  open F use {Carrier}

  -- Once a cancellation of a job has returned from a sound store, no attempt of that job commits
  -- an artifact with the right digest, whatever is called in between: `complete` answers false and
  -- changes nothing.
  pub complete_after_cancel :
      (tenant id : String) (now later : Carrier) (s s' : JobStore Carrier I) (j : VisualJob Carrier)
      (cs : List (Call F digest sha256)) (attempt : VisualAttempt Carrier I)
      (artifact : VisualArtifact)
      → IsSound s
      → request_cancel tenant id now s ≡ (ok j, s')
      → attempt.job_id ≡ id
      → sha256 artifact.png ≡ artifact.sha256
      → complete sha256 attempt artifact later (run F digest sha256 s' cs)
        ≡ (ok false, run F digest sha256 s' cs)
  complete_after_cancel tenant id now later s s' j cs attempt artifact v h same sound =
      let change = request_cancel-Change tenant id now s in
      let after : IsSound s' = subst IsSound (ap (λ x. x.1) h) (Change-IsSound s _ change v) in
      complete-Closed sha256 attempt artifact later (run F digest sha256 s' cs)
        (subst (λ x. Closed x (run F digest sha256 s' cs)) (sym same)
          (run-Closed F digest sha256 s' cs id after
            (request_cancel-Closed tenant id now s s' j h)))
        sound

  submit-Names :
      (tenant key : String) (request : VisualJobRequest Carrier I) (id : String) (now : Carrier)
      (s s' : JobStore Carrier I) (j : VisualJob Carrier)
      → submit digest tenant key request id now s ≡ (ok j, s')
      → Names tenant key (digest request) j.job_id s'.rows
        × (is_identifier tenant ≡ true)
        × (is_identifier key ≡ true)
  unfolding submit accept job
  submit-Names tenant key request id now s s' j h =
      elim (Bool-cases (not (is_identifier tenant) || not (is_identifier key))) [
        | inl bad ↦ ground arith
        | inr good ↦ elim (Option-cases (find_key tenant key s.rows)) [
          | inr ((known, r), e) ↦ (
            record {
              row = r;
              found = ground arith;
              content = ground (arith, ==_iff r.request_digest (digest request));
            },
            ground arith,
            ground arith,
          )
          | inl fresh ↦
              let row = new_row tenant key (digest request) request now in
              elim (Option-cases (lookup id s.rows)) [
                | inr (r, e) ↦ ground arith
                | inl unused ↦ (
                  record {
                    row = row;
                    found = ground (arith, find_key-insert_self id row s.rows fresh unused);
                    content = refl;
                  },
                  ground arith,
                  ground arith,
                )
              ]
        ]
      ]

  -- In a sound store a tenant's idempotency key is accepted once: after a submission that returned
  -- and any later calls, submitting under it returns the same job if the request has the same
  -- digest and is refused as a conflict otherwise, and changes nothing.
  pub submit_again :
      (tenant key : String) (request other : VisualJobRequest Carrier I) (id fresh : String)
      (now later : Carrier) (s s' : JobStore Carrier I) (j : VisualJob Carrier)
      (cs : List (Call F digest sha256))
      → IsSound s
      → submit digest tenant key request id now s ≡ (ok j, s')
      → (row : Row Carrier I) × (submit digest tenant key other fresh later
            (run F digest sha256 s' cs)
          ≡ (
            (if digest request == digest other
                then ok (job j.job_id row)
                else err JobError.conflict),
            run F digest sha256 s' cs,
          ))
  unfolding submit
  submit_again tenant key request other id fresh now later s s' j cs v h =
      let after : IsSound s' =
        subst IsSound (ap (λ x. x.1) h)
          (Change-IsSound s _ (submit-Change digest tenant key request id now s) v) in
      let (n, t, k) = submit-Names tenant key request id now s s' j h in
      let m = run-Names F digest sha256 tenant key (digest request) j.job_id s' cs after n in
      (m.row, ground (arith, m.found, m.content))

  -- In a sound store every job whose cancellation is requested has an attempt, the one it records,
  -- with which `finish_cancel` answers true once the worker has drained, and the job then stands
  -- with the terminal state, the failure type and the time given, all else as it was, after any
  -- later calls too.
  pub finish_cancel_ready :
      (id : String) (r : Row Carrier I) (terminal : Terminal) (failure_type : Option String)
      (now : Carrier) (s : JobStore Carrier I) (cs : List (Call F digest sha256))
      → IsSound s
      → lookup id s.rows ≡ some r
      → r.state ≡ JobState.cancel_requested
      → (attempt : VisualAttempt Carrier I) × (attempt.job_id ≡ id)
        × (r.attempt_generation ≡ some attempt.generation)
        × ((finish_cancel attempt true terminal failure_type now s).0 ≡ true)
        × (lookup id
              (run F digest sha256
                (finish_cancel attempt true terminal failure_type now s).1
                cs).rows
            ≡ some (settled_row terminal failure_type now r))
  finish_cancel_ready id r terminal failure_type now s cs v found state =
      let (n, given, answer, there) =
        finish_cancel-settles id r terminal failure_type now s v found state in
      let attempt = attempt_of id n r in
      (
        attempt,
        refl,
        given,
        answer,
        run-final F digest sha256 (finish_cancel attempt true terminal failure_type now s).1 cs id
            (settled_row terminal failure_type now r)
            (Change-IsSound s _ (finish_cancel-Change attempt true terminal failure_type now s) v)
            there (terminal-final terminal),
      )

  -- In a sound store with finite creation times, the job that is claimed was queued and no queued
  -- job was created before it; the attempt has its request and the next generation, with which the
  -- job then runs.
  pub claim_next-IsEarliest :
      (now : Carrier) (s s' : JobStore Carrier I) (tenant : String)
      (attempt : VisualAttempt Carrier I)
      → IsSound s
      → AllFinite F s.rows
      → claim_next F now s ≡ (some (tenant, attempt), s')
      → (r : Row Carrier I) × IsEarliest F s.rows attempt.job_id r
        × (tenant ≡ r.tenant)
        × (attempt.generation ≡ suc r.generation)
        × (attempt.request ≡ r.request)
        × (w : Row Carrier I) × (lookup attempt.job_id s'.rows ≡ some w)
        × (w.state ≡ JobState.running)
        × (w.generation ≡ attempt.generation)
  unfolding claim_next
  claim_next-IsEarliest now s s' tenant attempt v f h = elim (Option-cases (earliest F s.rows)) [
    | inl none_there ↦ ground arith
    | inr ((id, r), e) ↦
        let best = earliest-IsEarliest F s.rows id r v.distinct f e in
        let same : id ≡ attempt.job_id = ground arith in
        (
          r,
          subst (λ x. IsEarliest F s.rows x r) same best,
          ground arith,
          ground arith,
          ground arith,
          start_attempt now r,
          ground (arith, lookup-insert_self id (start_attempt now r) s.rows),
          refl,
          ground arith,
        )
  ]

  -- In a sound store, the bytes that an attempt committed for a tenant's job are the bytes that
  -- its tenant downloads, whatever is called in between.
  pub artifact-complete :
      (tenant : String) (attempt : VisualAttempt Carrier I) (content : VisualArtifact)
      (now : Carrier) (s s' : JobStore Carrier I) (cs : List (Call F digest sha256))
      (r : Row Carrier I)
      → IsSound s
      → lookup attempt.job_id s.rows ≡ some r
      → r.tenant ≡ tenant
      → complete sha256 attempt content now s ≡ (ok true, s')
      → artifact sha256 tenant attempt.job_id (run F digest sha256 s' cs) ≡ ok content.png
  unfolding artifact artifact_of find
  artifact-complete tenant attempt content now s s' cs r v found own h =
      let after : IsSound s' =
        subst IsSound (ap (λ x. x.1) h)
          (Change-IsSound s _ (complete-Change sha256 attempt content now s) v) in
      let (there, sound) = committed-lookup sha256 attempt content now r s s' found h in
      let kept =
        run-final F digest sha256 s' cs attempt.job_id (committed_row content now r) after there
          refl in
      ground (arith, ==_iff r.tenant tenant, ==_refl content.sha256)
