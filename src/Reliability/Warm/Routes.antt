-- ===== src/Reliability/Warm/Routes.antt =====
-- reliability/warm_routes.py: the cutover of a deployment's route, and its acknowledgment to the
-- control store. `same_file` says that the control store's path is the route store's; `now` is the
-- clock's reading. An acknowledgment holds the route's lock and writes the control store alone, whose
-- own transactions stay committed when a later check raises.
use fin_serve.Prelude.{
  suc, String, Bool, not, ◌&&◌, ◌||◌, Option, none, some, Eq, ◌==◌, ◌!=◌, nat_eq, string_eq,
  option_eq, is_some, if◌then◌else◌,
}
use fin_serve.Prelude.Result.{Result, ok, err, ◌>>=◌, ◌>>◌, raise_if}
use fin_serve.Prelude.Dict.{lookup, insert}
use fin_serve.Reliability.Contracts.{
  revision_eq, HealthObservation, DeploymentState, PromotionDecision, Digests, verifies,
}
use fin_serve.Reliability.Rollback.Store.{Store, Error, or_missing, load_record}
use fin_serve.Reliability.Rollback.Store
use fin_serve.Reliability.Rollback.Deployments
use fin_serve.Reliability.Rollback.Controller.{ApplyRequest}
use fin_serve.Reliability.Warm.Contracts.{WarmBackend, RouteSnapshot, snapshot_eq, backend_eq}
use fin_serve.Reliability.Warm.Store.{
  Action, Tables, Outcome, transaction, require_available, snapshot, save,
}
use fin_serve.Reliability.Warm.Backends.{backend}

-- A call of the control store, and what follows if it returned.
abbrev pub then_control :
    {T A B : Type 0} → Store.Outcome T A → (A → Store T → Store.Outcome T B) → Store.Outcome T B
then_control (ok a, c) f = f a c
then_control (err e, c) f = (err e, c)

-- A check of the route store before the control store is called.
abbrev pub before_control :
    {T A B : Type 0} → Store T → Result Error A → (A → Store.Outcome T B) → Store.Outcome T B
before_control c (ok a) f = f a
before_control c (err e) f = (err e, c)

-- The control store stands before the cutover, or already after it.
abbrev pub is_expected : {T : Type 0} → ApplyRequest → RouteSnapshot T → DeploymentState → Bool
is_expected request route current =
    not (is_some current.rollback_id)
    && ((current.generation == request.expected_generation
          && current.active_revision == request.expected_revision)
        || (current.generation == route.generation && current.active_revision == route.revision_id))

abbrev pub names_route :
    {T : Type 0} → RouteSnapshot T → DeploymentState → Store T → Store.Outcome T DeploymentState
names_route route updated c =
    if updated.generation != route.generation || updated.active_revision != route.revision_id
    then (err Error.conflict, c)
    else (ok updated, c)

abbrev pub action_differs :
    {T : Type 0} ⦃t : Eq T⦄
    → Digests T
    → (ApplyRequest → String)
    → ApplyRequest
    → RouteSnapshot T
    → Action T
    → Bool
action_differs digests fingerprint_of request route action =
    action.fingerprint != fingerprint_of request
    || action.payload != route
    || route.revision_id != request.target.revision_id
    || route.revision_digest != digests.revision request.target

abbrev pub evidence_differs :
    {T : Type 0}
    → Digests T
    → ApplyRequest
    → RouteSnapshot T
    → PromotionDecision T
    → HealthObservation
    → Bool
evidence_differs digests request route decision health =
    route.generation != suc request.expected_generation
    || decision.candidate_revision != request.target.revision_id
    || decision.candidate_digest != digests.revision request.target
    || not (verifies digests health request.target)

module _ {T P : Type 0} ⦃t : Eq T⦄ ⦃p : Eq P⦄ (digests : Digests T) where
  abbrev pub first_route : String → WarmBackend P → T → Tables T P → RouteSnapshot T
  first_route deployment_id b now s = record {
    deployment_id = deployment_id;
    revision_id = b.revision.revision_id;
    revision_digest = digests.revision b.revision;
    generation = 0;
    changed_at = now;
    admission_protocol = s.admission_protocol;
    capacity_protocol = s.capacity_protocol;
  }

  abbrev pub bootstrap_known :
      String
      → WarmBackend P
      → T
      → Tables T P
      → Option (RouteSnapshot T)
      → Result Error (RouteSnapshot T × Tables T P)
  bootstrap_known deployment_id b now s none =
      let state = first_route deployment_id b now s in ok (state, save state s)
  bootstrap_known deployment_id b now s (some existing) =
      if existing.generation != 0 || existing.revision_id != b.revision.revision_id
      then err Error.conflict
      else ok (existing, s)

  -- The store keys a backend by its revision's id, so `b.revision.revision_id` is `revision_id`.
  unfoldable pub bootstrap_in :
      String → String → T → Tables T P → Result Error (RouteSnapshot T × Tables T P)
  bootstrap_in deployment_id revision_id now s = do
    b ← backend revision_id s
    require_available revision_id s
    bootstrap_known deployment_id b now s (lookup deployment_id s.routes)

  unfoldable pub bootstrap : String → String → T → Tables T P → Outcome T P (RouteSnapshot T)
  bootstrap deployment_id revision_id now s =
      transaction s (bootstrap_in deployment_id revision_id now s)

  abbrev pub next_route : WarmBackend P → RouteSnapshot T → T → Tables T P → RouteSnapshot T
  next_route b current now s = record {
    deployment_id = current.deployment_id;
    revision_id = b.revision.revision_id;
    revision_digest = digests.revision b.revision;
    generation = suc current.generation;
    changed_at = now;
    admission_protocol = s.admission_protocol;
    capacity_protocol = s.capacity_protocol;
  }

  -- The model alias of the route's backend; that the row is missing is not expected.
  abbrev pub alias_of : RouteSnapshot T → Tables T P → Result Error String
  alias_of current s = elim (lookup current.revision_id s.backends) [
    | none ↦ err Error.unhandled
    | some row ↦ ok row.payload.configuration.model
  ]

  abbrev pub saved_action : ApplyRequest → String → RouteSnapshot T → Tables T P → Tables T P
  saved_action request fingerprint updated s =
      let s' = save updated s in
      record s' {
        actions =
            insert request.idempotency_key (record { fingerprint = fingerprint; payload = updated })
              s'.actions;
      }

  abbrev pub apply_known :
      ApplyRequest
      → String
      → WarmBackend P
      → T
      → Tables T P
      → Option (Action T)
      → Result Error (RouteSnapshot T × Tables T P)
  apply_known request fingerprint b now s (some receipt) =
      if receipt.fingerprint != fingerprint then err Error.conflict else ok (receipt.payload, s)
  apply_known request fingerprint b now s none = do
    current ← snapshot request.deployment_id s
    raise_if
        (current.revision_id != request.expected_revision
          || current.generation != request.expected_generation)
        Error.conflict
    model ← alias_of current s
    raise_if (model != b.configuration.model) Error.conflict
    let updated = next_route b current now s
    ok (updated, saved_action request fingerprint updated s)

  module _ (fingerprint_of : ApplyRequest → String) where
    -- `fingerprint_of` is the SHA-256 digest of the request's JSON.
    unfoldable pub apply_in :
        ApplyRequest → T → Tables T P → Result Error (RouteSnapshot T × Tables T P)
    apply_in request now s = do
      b ← backend request.target.revision_id s
      raise_if (b.revision != request.target || request.idempotency_key == "") Error.conflict
      require_available request.target.revision_id s
      apply_known request (fingerprint_of request) b now s
          (lookup request.idempotency_key s.actions)

    unfoldable pub apply : ApplyRequest → T → Tables T P → Outcome T P (RouteSnapshot T)
    apply request now s = transaction s (apply_in request now s)

    -- The receipt of the action that is acknowledged.
    abbrev pub action_of : ApplyRequest → Tables T P → Result Error (Action T)
    action_of request s = elim (lookup request.idempotency_key s.actions) [
      | none ↦ err Error.conflict
      | some action ↦ ok action
    ]

    -- `_verified_action`
    unfoldable pub verified_action :
        ApplyRequest
        → PromotionDecision T
        → HealthObservation
        → Tables T P
        → Result Error (RouteSnapshot T)
    verified_action request decision health s = do
      route ← snapshot request.deployment_id s
      action ← action_of request s
      raise_if (action_differs digests fingerprint_of request route action) Error.conflict
      raise_if (evidence_differs digests request route decision health) Error.conflict
      ok route

    unfoldable pub acknowledge_candidate :
        Bool
        → ApplyRequest
        → PromotionDecision T
        → HealthObservation
        → Tables T P
        → Store T
        → Store.Outcome T DeploymentState
    acknowledge_candidate same_file request decision health s c =
        before_control c
          (do
            raise_if same_file Error.invalid
            route ← verified_action request decision health s
            current ← load_record c.deployments request.deployment_id
            raise_if (not (is_expected request route current)) Error.conflict
            ok route)
          (λ route.
            then_control
              (Deployments.activate_candidate digests request.deployment_id
                request.expected_generation decision health c)
              (names_route route))

    unfoldable pub stabilize_candidate :
        Bool
        → ApplyRequest
        → PromotionDecision T
        → HealthObservation
        → String
        → T
        → Tables T P
        → Store T
        → Store.Outcome T DeploymentState
    stabilize_candidate same_file request decision health evidence now s c =
        before_control c
          (do raise_if same_file Error.invalid; verified_action request decision health s)
          (λ route.
            Deployments.mark_stable digests request.deployment_id route.generation decision health
              evidence now c)
