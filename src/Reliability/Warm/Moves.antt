-- ===== src/Reliability/Warm/Moves.antt =====
-- What the calls of the registry and of the routes do to the store, as elementary steps.
use mathlib.Core.Path.{subst}
use fin_serve.Prelude.{
  ◌≡◌, refl, sym, ap, ◌∙◌, String, Bool, true, false, Option, none, some, In, arith, Eq, ◌==◌,
  ==_iff, string_eq, nat_eq, option_eq, if◌then◌else◌, inl, inr, Bool-cases, Option-cases, In-keep,
}
use fin_serve.Prelude.Result.{Result, ok, err, ◌>>=◌, ◌>>◌, not_raised}
use fin_serve.Prelude.Dict.{lookup}
use fin_serve.Reliability.Contracts.{Digests, revision_eq}
use fin_serve.Reliability.Rollback.Store.{Error}
use fin_serve.Reliability.Rollback.Controller.{ApplyRequest}
use fin_serve.Reliability.Warm.Contracts.{WarmBackend, RouteSnapshot, backend_eq}
use fin_serve.Reliability.Warm.Store.{
  BackendRow, Action, Tables, history, Reason, transaction, is_retired, require_available, snapshot,
  advance_pool, save, routed, with_route,
}
use fin_serve.Reliability.Warm.Backends.{
  register, register_known, release_known, backend, release_retired_endpoint, row_of, released,
}
use fin_serve.Reliability.Warm.Routes.{
  bootstrap, bootstrap_in, bootstrap_known, first_route, apply, apply_in, apply_known, next_route,
  saved_action,
}
use fin_serve.Reliability.Warm.Trail.{Follows, In-append_self, In-last}
use fin_serve.Reliability.Warm.Steps.{Step, Steps, SameRoutes}
use fin_serve.Reliability.Warm.Invariant.{IsSound}

module _ {T P : Type 0} (digests : Digests T) where
  pub one_step : {s s' : Tables T P} → Step digests s s' → Steps digests s s'
  one_step step = Steps.next (Steps.here refl) step

  -- A transaction that returned made its steps, and one that raised made none.
  pub transaction-Steps :
      {A : Type 0} (s : Tables T P) (m : Result Error (A × Tables T P))
      → ((a : A) (s' : Tables T P) → m ≡ ok (a, s') → Steps digests s s')
      → Steps digests s (transaction s m).1
  transaction-Steps s (ok (a, s')) h = h a s' refl
  transaction-Steps s (err e) h = Steps.here refl

  pub unraised :
      {A : Type 0} (id : String) (s : Tables T P) (k : Result Error A) (a : A)
      → (require_available id s >> k) ≡ ok a
      → (is_retired id s ≡ false) × (k ≡ ok a)
  unfolding require_available
  unraised id s k a h = not_raised (is_retired id s) Error.conflict k a h

  advance-SameRoutes :
      (d : String) (reason : Reason T) (s : Tables T P) → SameRoutes s (advance_pool d reason s)
  unfolding advance_pool
  advance-SameRoutes d reason s = record {
    identity = refl;
    admission_protocol = refl;
    capacity_protocol = refl;
    backends = refl;
    routes = refl;
    actions = refl;
    events = refl;
    retirements = refl;
    admissions = refl;
    receipts = refl;
  }

  module _ ⦃t : Eq T⦄ ⦃p : Eq P⦄ where
    register_known-Steps :
        (b : WarmBackend P) (s : Tables T P) (o : Option (BackendRow P))
        → lookup b.revision.revision_id s.backends ≡ o
        → (s' : Tables T P) → register_known b s o ≡ ok (tt, s')
        → Steps digests s s'
    register_known-Steps b s (some row) found s' h = Steps.here (ground arith)
    register_known-Steps b s none missing s' h =
        one_step (Step.backed b.revision.revision_id (row_of b) refl (rw missing tt) (ground arith))

    pub register-Steps : (b : WarmBackend P) (s : Tables T P) → Steps digests s (register b s).1
    unfolding register
    register-Steps b s = transaction-Steps s _ (λ a s' h.
        register_known-Steps b s (lookup b.revision.revision_id s.backends) refl s'
          (unraised b.revision.revision_id s _ (tt, s') h).1)

    release_known-Steps :
        (retired_url : String → String) (b : WarmBackend P) (s : Tables T P)
        (o : Option (BackendRow P))
        → lookup b.revision.revision_id s.backends ≡ o
        → IsSound digests s
        → (a : Unit {0}) (s' : Tables T P) → release_known digests retired_url b s o ≡ ok (a, s')
        → Steps digests s s'
    release_known-Steps retired_url b s none found v a s' h = absurd (cc)
    release_known-Steps retired_url b s (some row) found v a s' h = one_step (
        Step.backed b.revision.revision_id (released (retired_url b.revision.revision_id) row)
          (v.keyed b.revision.revision_id row found) (rw found refl) (ground arith))

    pub release-Steps :
        (retired_url : String → String) (b : WarmBackend P) (s : Tables T P)
        → IsSound digests s
        → Steps digests s (release_retired_endpoint digests retired_url b s).1
    unfolding release_retired_endpoint
    release-Steps retired_url b s v =
        transaction-Steps s _
          (release_known-Steps retired_url b s (lookup b.revision.revision_id s.backends) refl v)

    -- A route to a backend that may serve, after the one that stood.
    pub record MayServe (s : Tables T P) (route : RouteSnapshot T) : Type 0 where
      pub row : BackendRow P
      pub free : is_retired route.revision_id s ≡ false
      pub found : lookup route.revision_id s.backends ≡ some row
      pub digest : route.revision_digest ≡ digests.revision row.payload.revision
      pub follows : Follows route (lookup route.deployment_id s.routes)

    save_at :
        (pools : Bool) (s : Tables T P) (route : RouteSnapshot T)
        → MayServe s route
        → Steps digests s (
            with_route route
              (if pools then advance_pool route.deployment_id (routed route) s else s))
    unfolding advance_pool is_retired
    save_at true s route m =
        Steps.next
          (one_step (Step.pooled (advance-SameRoutes route.deployment_id (routed route) s)))
          (Step.routed route m.row m.free m.found m.digest m.follows refl)
    save_at false s route m =
        one_step (Step.routed route m.row m.free m.found m.digest m.follows refl)

    save-Steps :
        (s : Tables T P) (route : RouteSnapshot T)
        → MayServe s route
        → Steps digests s (save route s)
    unfolding save
    save-Steps s route m = save_at s.capacity_protocol s route m

    -- What `backend` returns is registered under the revision's id, which is not retired.
    pub backend_lem :
        {A : Type 0} (id : String) (s : Tables T P) (f : WarmBackend P → Result Error A) (a : A)
        → (backend id s >>= f) ≡ ok a
        → (row : BackendRow P) × (is_retired id s ≡ false)
          × (lookup id s.backends ≡ some row)
          × (f row.payload ≡ ok a)
    unfolding backend require_available
    backend_lem id s f a h = elim (Bool-cases (is_retired id s)) [
      | inl gone ↦ absurd (ground arith)
      | inr free ↦ elim (Option-cases (lookup id s.backends)) [
        | inl missing ↦ absurd (ground arith)
        | inr (row, found) ↦ (row, free, found, ground arith)
      ]
    ]

    bootstrap_known-Steps :
        (d : String) (b : WarmBackend P) (row : BackendRow P) (now : T) (s : Tables T P)
        (o : Option (RouteSnapshot T))
        → is_retired b.revision.revision_id s ≡ false
        → lookup b.revision.revision_id s.backends ≡ some row
        → row.payload ≡ b
        → lookup d s.routes ≡ o
        → (a : RouteSnapshot T) (s' : Tables T P) → bootstrap_known digests d b now s o ≡ ok (a, s')
        → Steps digests s s'
    bootstrap_known-Steps d b row now s (some r) free found same route a s' h =
        Steps.here (ground arith)
    bootstrap_known-Steps d b row now s none free found same route a s' h =
        subst (Steps digests s) (ground arith) (
          save-Steps s (first_route digests d b now s) (record {
            row = row;
            free = free;
            found = found;
            digest = ap (λ x. digests.revision x.revision) (sym same);
            follows = rw route refl;
          }))

    pub bootstrap-Steps :
        (d id : String) (now : T) (s : Tables T P)
        → IsSound digests s
        → Steps digests s (bootstrap digests d id now s).1
    unfolding bootstrap bootstrap_in
    bootstrap-Steps d id now s v = transaction-Steps s (bootstrap_in digests d id now s) (λ a s' h.
        let (row, free, found, rest) = backend_lem id s _ (a, s') h in
        let key = v.keyed id row found in
        bootstrap_known-Steps d row.payload row now s (lookup d s.routes)
          (subst (λ k. is_retired k s ≡ false) (sym key) free)
          (subst (λ k. lookup k s.backends ≡ some row) (sym key) found) refl refl a s'
          (unraised id s _ (a, s') rest).1)

    pub save-actions : (a : RouteSnapshot T) (s : Tables T P) → (save a s).actions ≡ s.actions
    unfolding save advance_pool
    save-actions a s = ground arith

    save-In : (a : RouteSnapshot T) (s : Tables T P) → In a (save a s).events
    unfolding save
    save-In a s = In-append_self a _

    -- A route is kept under its deployment.
    pub route-named :
        (s : Tables T P) (d : String) (r : RouteSnapshot T)
        → IsSound digests s
        → lookup d s.routes ≡ some r
        → r.deployment_id ≡ d
    unfolding history
    route-named s d r v found =
        (==_iff r.deployment_id d).0
          (In-keep (λ e. e.deployment_id == d) r s.events
            (In-last r _ ((v.trail d).ends ∙ found))).0

    -- What a new action of the store is.
    pub record Cutover (request : ApplyRequest) (fingerprint : String) (b : WarmBackend P) (now : T)
        (s : Tables T P) (a : RouteSnapshot T) (s' : Tables T P) : Type 0 where
      pub current : RouteSnapshot T
      pub stood : lookup request.deployment_id s.routes ≡ some current
      pub revision : current.revision_id ≡ request.expected_revision
      pub generation : current.generation ≡ request.expected_generation
      pub answer : a ≡ next_route digests b current now s
      pub row : BackendRow P
      pub served : lookup current.revision_id s.backends ≡ some row
      pub alias : row.payload.configuration.model ≡ b.configuration.model
      pub written : s' ≡ saved_action digests request fingerprint a s

    pub apply_known-Cutover :
        (request : ApplyRequest) (fingerprint : String) (b : WarmBackend P) (now : T)
        (s : Tables T P) (a : RouteSnapshot T) (s' : Tables T P)
        → apply_known digests request fingerprint b now s none ≡ ok (a, s')
        → Cutover request fingerprint b now s a s'
    unfolding snapshot
    apply_known-Cutover request fingerprint b now s a s' h =
        elim (Option-cases (lookup request.deployment_id s.routes)) [
          | inl missing ↦ absurd (ground arith)
          | inr (current, stood) ↦ elim (Option-cases (lookup current.revision_id s.backends)) [
            | inl missing ↦ absurd (ground arith)
            | inr (row, served) ↦ record {
              current = current;
              stood = stood;
              revision = ground (arith, ==_iff current.revision_id request.expected_revision);
              generation = ground arith;
              answer = ground arith;
              row = row;
              served = served;
              alias = ground (arith, ==_iff row.payload.configuration.model b.configuration.model);
              written = ground arith;
            }
          ]
        ]

    apply_known-Steps :
        (request : ApplyRequest) (fingerprint : String) (b : WarmBackend P) (row : BackendRow P)
        (now : T) (s : Tables T P) (o : Option (Action T))
        → IsSound digests s
        → is_retired b.revision.revision_id s ≡ false
        → lookup b.revision.revision_id s.backends ≡ some row
        → row.payload ≡ b
        → lookup request.idempotency_key s.actions ≡ o
        → (a : RouteSnapshot T) (s' : Tables T P)
        → apply_known digests request fingerprint b now s o ≡ ok (a, s')
        → Steps digests s s'
    apply_known-Steps request fingerprint b row now s (some r) v free found same new a s' h =
        Steps.here (ground arith)
    apply_known-Steps request fingerprint b row now s none v free found same new a s' h =
        let c = apply_known-Cutover request fingerprint b now s a s' h in
        let named = route-named s request.deployment_id c.current v c.stood in
        Steps.next
          (save-Steps s a (record {
            row = row;
            free = rw c.answer free;
            found = rw c.answer found;
            digest = rw (c.answer, same) refl;
            follows = rw (c.answer, named, c.stood) refl;
          }))
          (Step.acted request.idempotency_key (record { fingerprint = fingerprint; payload = a })
            (ap (lookup request.idempotency_key) (save-actions a s) ∙ new) (save-In a s) c.written)

    pub apply-Steps :
        (fingerprint_of : ApplyRequest → String) (request : ApplyRequest) (now : T) (s : Tables T P)
        → IsSound digests s
        → Steps digests s (apply digests fingerprint_of request now s).1
    unfolding apply apply_in
    apply-Steps fingerprint_of request now s v =
        transaction-Steps s (apply_in digests fingerprint_of request now s) (λ a s' h.
          let (row, free, found, rest) = backend_lem request.target.revision_id s _ (a, s') h in
          let key = v.keyed request.target.revision_id row found in
          let checked = not_raised _ _ _ (a, s') rest in
          apply_known-Steps request (fingerprint_of request) row.payload row now s
            (lookup request.idempotency_key s.actions) v
            (subst (λ k. is_retired k s ≡ false) (sym key) free)
            (subst (λ k. lookup k s.backends ≡ some row) (sym key) found) refl refl a s'
            (unraised request.target.revision_id s _ (a, s') checked.1).1)
