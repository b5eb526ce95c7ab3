-- ===== src/Reliability/Warm/Streams.antt =====
-- What the calls that admit and finish streams do to the route store, as elementary steps.
use mathlib.Core.Path.{subst}
use fin_serve.Prelude.{
  ℕ, ◌≡◌, refl, sym, ap, ◌∙◌, String, Bool, true, false, not, ◌||◌, Option, none, some, arith, Eq,
  ◌!=◌, ==_iff, string_eq, nat_eq, option_eq, if◌then◌else◌,
}
use fin_serve.Prelude.Result.{ok, raise_if, ok_of_bind, if_ok}
use fin_serve.Prelude.Dict.{lookup}
use fin_serve.Reliability.Contracts.{Revision, DeploymentState, Digests, revision_eq}
use fin_serve.Reliability.Rollback.Store.{Store, Error, load_record}
use fin_serve.Reliability.Warm.Contracts.{
  WarmBackend, RouteSnapshot, snapshot_eq, Kind, AdmissionLease, verified_closed, admission_payload,
  backend_eq, payload_eq,
}
use fin_serve.Reliability.Warm.Store.{AdmissionRow, Tables, is_retired, require_available, snapshot}
use fin_serve.Reliability.Warm.Backends.{
  insert_admission, lease_of, admit, admit_in, admission_backend, payload_at, mark_dispatched,
  mark_known, marked, finish_admission, finish_in,
}
use fin_serve.Reliability.Warm.Baseline.{
  require_stable_baseline, require_stable_in, reserve_collector, is_registered, is_unstable,
  is_stable, routes_to,
}
use fin_serve.Reliability.Warm.Steps.{Step, Steps}
use fin_serve.Reliability.Warm.Moves.{one_step, transaction-Steps}

pub available_lem :
    {T P : Type 0} (id : String) (s : Tables T P) (u : Unit {0})
    → require_available id s ≡ ok u
    → is_retired id s ≡ false
unfolding require_available
available_lem id s u h = ground arith

third_of :
    (a b c d : Bool) (u : Unit {0})
    → raise_if (not a || b || not c || not d) Error.conflict ≡ ok u
    → c ≡ true
third_of a b c d u h = ground arith

module _ {T P : Type 0} (digests : Digests T) ⦃t : Eq T⦄ ⦃p : Eq P⦄ where
  -- The check of `require_stable_baseline` covers the route's revision.
  route_of :
      (b : WarmBackend P) (registered : Revision) (state : DeploymentState)
      (route : RouteSnapshot T) (g : ℕ) (s : Tables T P) (u : Unit {0})
      → raise_if (is_unstable digests b registered state route g s) Error.conflict ≡ ok u
      → route.revision_id ≡ b.revision.revision_id
  route_of b registered state route g s u h =
      let routed =
        third_of (is_registered digests b (lookup b.revision.revision_id s.backends))
          (registered != b.revision)
          (routes_to b.revision.revision_id (digests.revision b.revision) g route)
          (is_stable b.revision.revision_id g state) u h in
      ground (arith, routed, ==_iff route.revision_id b.revision.revision_id)

  pub insert-Steps :
      (id : String) (route : RouteSnapshot T) (b : WarmBackend P) (kind : Kind)
      (anchor : Option (RouteSnapshot T)) (g : Option ℕ) (s : Tables T P)
      (lease : AdmissionLease T P) (s' : Tables T P)
      → is_retired route.revision_id s ≡ false
      → insert_admission id route b kind anchor g s ≡ ok (lease, s')
      → Steps digests s s'
  unfolding insert_admission
  insert-Steps id route b kind anchor g s lease s' free h = one_step digests (
      Step.admitted id
        (record {
          revision_id = route.revision_id;
          payload =
              admission_payload
                (lease_of id route b (if s.capacity_protocol then some kind else none) anchor g);
        })
        free (ground arith) (ground arith))

  pub admit-Steps : (d id : String) (s : Tables T P) → Steps digests s (admit digests d id s).1
  unfolding admit admit_in
  admit-Steps d id s = transaction-Steps digests s (admit_in digests d id s) (λ a s' h.
      let (u, plain, h1) = ok_of_bind (raise_if s.capacity_protocol Error.conflict) _ (a, s') h in
      let (route, stood, h2) = ok_of_bind (snapshot d s) _ (a, s') h1 in
      let (w, durable, h3) =
        ok_of_bind
          (raise_if (not s.admission_protocol || not route.admission_protocol) Error.conflict) _
          (a, s') h2 in
      let (x, free, h4) = ok_of_bind (require_available route.revision_id s) _ (a, s') h3 in
      let (row, found, h5) = ok_of_bind (admission_backend route s) _ (a, s') h4 in
      let (y, same, h6) =
        ok_of_bind
          (raise_if (digests.revision row.payload.revision != route.revision_digest) Error.conflict)
          _ (a, s') h5 in
      insert-Steps id route row.payload Kind.serving none none s a s'
        (available_lem route.revision_id s x free) h6)

  mark_known-Steps :
      (lease : AdmissionLease T P) (s : Tables T P) (o : Option (AdmissionRow T P))
      → lookup lease.admission_id s.admissions ≡ o
      → (a : AdmissionLease T P) (s' : Tables T P) → mark_known lease s o ≡ ok (a, s')
      → Steps digests s s'
  mark_known-Steps lease s none missing a s' h = absurd (cc)
  mark_known-Steps lease s (some row) found a s' h = one_step digests (
      Step.marked lease.admission_id row (marked row) found refl
        (sym (ap (λ x. x.1) (if_ok _ Error.conflict _ (a, s') h).1)))

  pub mark-Steps :
      (lease : AdmissionLease T P) (s : Tables T P) → Steps digests s (mark_dispatched lease s).1
  unfolding mark_dispatched
  mark-Steps lease s =
      transaction-Steps digests s _
        (mark_known-Steps lease s (lookup lease.admission_id s.admissions) refl)

  pub finish-Steps :
      (lease : AdmissionLease T P) (s : Tables T P) → Steps digests s (finish_admission lease s).1
  unfolding finish_admission finish_in
  finish-Steps lease s = transaction-Steps digests s (finish_in lease s) (λ a s' h.
      let (u, closed, h1) =
        ok_of_bind (raise_if (not (verified_closed lease)) Error.conflict) _ (a, s') h in
      let (w, same, h2) =
        ok_of_bind
          (raise_if (payload_at lease.admission_id s != some (admission_payload lease))
            Error.conflict)
          _ (a, s') h1 in
      one_step digests (Step.finished lease.admission_id (ground arith)))

  reserve_collector-Steps :
      (reserve : Bool) (route : RouteSnapshot T) (b : WarmBackend P) (id : String) (s : Tables T P)
      → is_retired route.revision_id s ≡ false
      → (a : Option (AdmissionLease T P)) (s' : Tables T P)
      → reserve_collector digests reserve route b id s ≡ ok (a, s')
      → Steps digests s s'
  reserve_collector-Steps false route b id s free a s' h = Steps.here (ground arith)
  reserve_collector-Steps true route b id s free a s' h =
      let (u, durable, h1) =
        ok_of_bind
          (raise_if (not s.admission_protocol || not route.admission_protocol) Error.conflict) _
          (a, s') h in
      let ((lease, m), inserted, last) =
        ok_of_bind (insert_admission id route b Kind.collector none none s) _ (a, s') h1 in
      subst (Steps digests s) (ground arith)
        (insert-Steps id route b Kind.collector none none s lease m free inserted)

  pub require_stable-Steps :
      (same_file : Bool) (control : Store T) (d : String) (b : WarmBackend P) (g : ℕ)
      (reserve : Bool) (id : String) (s : Tables T P)
      → Steps digests s (require_stable_baseline digests same_file control d b g reserve id s).1
  unfolding require_stable_baseline require_stable_in
  require_stable-Steps same_file control d b g reserve id s =
      transaction-Steps digests s (require_stable_in digests same_file control d b g reserve id s)
        (λ a s' h.
          let (u, files, h1) = ok_of_bind (raise_if same_file Error.invalid) _ (a, s') h in
          let (w, free, h2) =
            ok_of_bind (require_available b.revision.revision_id s) _ (a, s') h1 in
          let (route, stood, h3) = ok_of_bind (snapshot d s) _ (a, s') h2 in
          let (state, found, h4) = ok_of_bind (load_record control.deployments d) _ (a, s') h3 in
          let (registered, known, h5) =
            ok_of_bind (load_record control.revisions b.revision.revision_id) _ (a, s') h4 in
          let (y, stable, h6) =
            ok_of_bind (raise_if (is_unstable digests b registered state route g s) Error.conflict)
              _ (a, s') h5 in
          reserve_collector-Steps reserve route b id s
            (ap (λ k. is_retired k s) (route_of b registered state route g s y stable)
              ∙ available_lem b.revision.revision_id s w free)
            a s' h6)
