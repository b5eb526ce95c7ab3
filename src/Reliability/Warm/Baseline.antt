-- ===== src/Reliability/Warm/Baseline.antt =====
-- reliability/warm_routes.py: a baseline is current in both stores, or becomes so.
use fin_serve.Prelude.{
  ℕ, String, Bool, true, false, not, ◌&&◌, ◌||◌, Option, none, some, Eq, ◌==◌, ◌!=◌, nat_eq,
  string_eq, option_eq, is_some, if◌then◌else◌,
}
use fin_serve.Prelude.Result.{Result, ok, err, ◌>>=◌, ◌>>◌, raise_if}
use fin_serve.Prelude.Dict.{lookup}
use fin_serve.Reliability.Contracts.{
  Revision, revision_eq, HealthObservation, DeploymentState, Digests, verifies,
}
use fin_serve.Reliability.Rollback.Store
use fin_serve.Reliability.Rollback.Store.{Error, load_record}
use fin_serve.Reliability.Rollback.Deployments
use fin_serve.Reliability.Warm.Contracts.{
  WarmBackend, RouteSnapshot, Kind, AdmissionLease, backend_eq,
}
use fin_serve.Reliability.Warm.Store.{
  BackendRow, Tables, Outcome, transaction, require_available, snapshot,
}
use fin_serve.Reliability.Warm.Backends.{insert_admission}
use fin_serve.Reliability.Warm.Routes.{then_control, before_control}

-- The deployment serves and would restore the revision, at the generation, with no rollback.
abbrev pub is_stable : String → ℕ → DeploymentState → Bool
is_stable revision_id generation state =
    state.active_revision == revision_id
    && state.known_good_revision == revision_id
    && state.generation == generation
    && not (is_some state.rollback_id)

-- The route sends the deployment's traffic to the revision, at the generation.
abbrev pub routes_to : {T : Type 0} → String → String → ℕ → RouteSnapshot T → Bool
routes_to revision_id digest generation route =
    route.revision_digest == digest
    && route.revision_id == revision_id
    && route.generation == generation

abbrev pub stable_or_conflict :
    {T : Type 0} → String → ℕ → DeploymentState → Store.Store T → Store.Outcome T DeploymentState
stable_or_conflict revision_id generation state c =
    if is_stable revision_id generation state then (ok state, c) else (err Error.conflict, c)

-- `control.deployment`, or its initialization at generation 0.
abbrev pub deployment_or_bootstrap :
    {T : Type 0}
    → Digests T
    → String
    → Revision
    → ℕ
    → HealthObservation
    → Store.Store T
    → Option DeploymentState
    → Store.Outcome T DeploymentState
deployment_or_bootstrap digests deployment_id revision generation health c (some state) =
    (ok state, c)
deployment_or_bootstrap digests deployment_id revision generation health c none =
    if generation != 0
    then (err Error.conflict, c)
    else Deployments.bootstrap digests deployment_id revision.revision_id health c

module _ {T P : Type 0} ⦃t : Eq T⦄ ⦃p : Eq P⦄ (digests : Digests T) where
  abbrev pub is_registered : WarmBackend P → Option (BackendRow P) → Bool
  is_registered b none = false
  is_registered b (some row) = row.payload == b

  -- The backend is not the one that serves the deployment in both stores.
  abbrev pub is_unstable :
      WarmBackend P → Revision → DeploymentState → RouteSnapshot T → ℕ → Tables T P → Bool
  is_unstable b registered state route generation s =
      not (is_registered b (lookup b.revision.revision_id s.backends))
      || registered != b.revision
      || not (routes_to b.revision.revision_id (digests.revision b.revision) generation route)
      || not (is_stable b.revision.revision_id generation state)

  -- The end of `require_stable_baseline`; `id` is what `uuid4` gives.
  abbrev pub reserve_collector :
      Bool
      → RouteSnapshot T
      → WarmBackend P
      → String
      → Tables T P
      → Result Error (Option (AdmissionLease T P) × Tables T P)
  reserve_collector false route b id s = ok (none, s)
  reserve_collector true route b id s = do
    raise_if (not s.admission_protocol || not route.admission_protocol) Error.conflict
    (lease, s') ← insert_admission id route b Kind.collector none none s
    ok (some lease, s')

  unfoldable pub require_stable_in :
      Bool
      → Store.Store T
      → String
      → WarmBackend P
      → ℕ
      → Bool
      → String
      → Tables T P
      → Result Error (Option (AdmissionLease T P) × Tables T P)
  require_stable_in same_file control deployment_id b generation reserve id s =
      let revision_id = b.revision.revision_id in
      do
        raise_if same_file Error.invalid
        require_available revision_id s
        route ← snapshot deployment_id s
        state ← load_record control.deployments deployment_id
        registered ← load_record control.revisions revision_id
        raise_if (is_unstable b registered state route generation s) Error.conflict
        reserve_collector reserve route b id s

  unfoldable pub require_stable_baseline :
      Bool
      → Store.Store T
      → String
      → WarmBackend P
      → ℕ
      → Bool
      → String
      → Tables T P
      → Outcome T P (Option (AdmissionLease T P))
  require_stable_baseline same_file control deployment_id b generation reserve id s =
      transaction s (require_stable_in same_file control deployment_id b generation reserve id s)

  unfoldable pub acknowledge_baseline :
      Bool
      → String
      → Revision
      → ℕ
      → HealthObservation
      → Tables T P
      → Store.Store T
      → Store.Outcome T DeploymentState
  acknowledge_baseline same_file deployment_id revision generation health s c =
      before_control c
        (do
          raise_if same_file Error.invalid
          route ← snapshot deployment_id s
          raise_if
              (not (routes_to revision.revision_id (digests.revision revision) generation route)
                || not (verifies digests health revision))
              Error.conflict
          ok tt)
        (λ _. then_control (Deployments.register_revision revision c) (λ _ c1.
          then_control
            (deployment_or_bootstrap digests deployment_id revision generation health c1
              (lookup deployment_id c1.deployments))
            (stable_or_conflict revision.revision_id generation)))
