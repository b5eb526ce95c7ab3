-- ===== src/Reliability/Warm/Backends.antt =====
-- reliability/warm_routes.py: the registry of backends and the durable admissions of streams.
use fin_serve.Prelude.{
  ℕ, String, not, ◌||◌, Option, none, some, Eq, ◌!=◌, nat_eq, string_eq, option_eq, is_some,
  if◌then◌else◌, keep, length, leb,
}
use fin_serve.Prelude.Result.{Result, ok, err, ◌>>=◌, ◌>>◌, raise_if}
use fin_serve.Prelude.Dict.{lookup, insert, erase}
use fin_serve.Reliability.Contracts.{Digests}
use fin_serve.Reliability.Rollback.Store.{Error, or_missing}
use fin_serve.Reliability.Warm.Contracts.{
  WarmBackend, RouteSnapshot, Kind, Phase, phase_eq, AdmissionLease, verified_closed, Payload,
  admission_payload, backend_eq, payload_eq,
}
use fin_serve.Reliability.Warm.Store.{
  BackendRow, AdmissionRow, Tables, Outcome, transaction, has_url, require_available, is_retired,
  snapshot,
}

abbrev pub row_of : {P : Type 0} → WarmBackend P → BackendRow P
row_of backend = record { base_url = backend.configuration.base_url; payload = backend }

abbrev pub released : {P : Type 0} → String → BackendRow P → BackendRow P
released url row = record row { base_url = url }

module _ {T P : Type 0} ⦃t : Eq T⦄ ⦃p : Eq P⦄ where
  -- `SELECT COUNT(*) ... WHERE id NOT IN (SELECT id FROM warm_retirements)`
  abbrev pub unretired : Tables T P → ℕ
  unretired s = length (keep (λ row. not (is_retired row.0 s)) s.backends)

  abbrev pub register_known :
      WarmBackend P → Tables T P → Option (BackendRow P) → Result Error (Unit {0} × Tables T P)
  register_known backend s (some row) =
      if row.payload != backend then err Error.conflict else ok (tt, s)
  register_known backend s none = do
    raise_if (leb 32 (unretired s)) Error.conflict
    raise_if (has_url backend.configuration.base_url s.backends) Error.conflict
    ok (tt, record s { backends = insert backend.revision.revision_id (row_of backend) s.backends })

  unfoldable pub register : WarmBackend P → Tables T P → Outcome T P (Unit {0})
  register backend s = transaction s do
    require_available backend.revision.revision_id s
    register_known backend s (lookup backend.revision.revision_id s.backends)

  -- `backend`: only the registered endpoint of a revision that is not retired.
  unfoldable pub backend : String → Tables T P → Result Error (WarmBackend P)
  backend revision_id s = do
    require_available revision_id s
    row ← or_missing (lookup revision_id s.backends)
    ok row.payload

  abbrev pub release_known :
      Digests T
      → (String → String)
      → WarmBackend P
      → Tables T P
      → Option (BackendRow P)
      → Result Error (Unit {0} × Tables T P)
  release_known digests retired_url b s none = err Error.conflict
  release_known digests retired_url b s (some row) =
      let id = b.revision.revision_id in
      if row.payload != b || lookup id s.retirements != some (digests.revision b.revision)
      then err Error.conflict
      else ok (tt, record s { backends = insert id (released (retired_url id) row) s.backends })

  -- `retired_url` is `"retired:" + id`; that it is no backend's address is left to the format of
  -- addresses.
  unfoldable pub release_retired_endpoint :
      Digests T → (String → String) → WarmBackend P → Tables T P → Outcome T P (Unit {0})
  release_retired_endpoint digests retired_url b s =
      transaction s
        (release_known digests retired_url b s (lookup b.revision.revision_id s.backends))

  abbrev pub lease_of :
      String
      → RouteSnapshot T
      → WarmBackend P
      → Option Kind
      → Option (RouteSnapshot T)
      → Option ℕ
      → AdmissionLease T P
  lease_of id route b kind anchor pool_generation = record {
    admission_id = id;
    snapshot = route;
    backend = b;
    backend_started = 0;
    backend_closed = 0;
    kind = kind;
    phase = Phase.reserved;
    anchor = anchor;
    pool_generation = pool_generation;
  }

  -- `_insert_admission`; `id` is what `uuid4` gives.
  unfoldable pub insert_admission :
      String
      → RouteSnapshot T
      → WarmBackend P
      → Kind
      → Option (RouteSnapshot T)
      → Option ℕ
      → Tables T P
      → Result Error (AdmissionLease T P × Tables T P)
  insert_admission id route b kind anchor pool_generation s =
      let lease =
        lease_of id route b (if s.capacity_protocol then some kind else none) anchor
          pool_generation in
      do
        raise_if (leb 4096 (length s.admissions)) Error.conflict
        raise_if (is_some (lookup id s.admissions)) Error.unhandled
        ok (
          lease,
          record s {
            admissions =
                insert id
                  (record { revision_id = route.revision_id; payload = admission_payload lease })
                  s.admissions;
          },
        )

  -- The row of the route's backend.
  abbrev pub admission_backend : RouteSnapshot T → Tables T P → Result Error (BackendRow P)
  admission_backend route s = elim (lookup route.revision_id s.backends) [
    | none ↦ err Error.conflict
    | some row ↦ ok row
  ]

  unfoldable pub admit_in :
      Digests T → String → String → Tables T P → Result Error (AdmissionLease T P × Tables T P)
  admit_in digests deployment_id id s = do
    raise_if s.capacity_protocol Error.conflict
    route ← snapshot deployment_id s
    raise_if (not s.admission_protocol || not route.admission_protocol) Error.conflict
    require_available route.revision_id s
    row ← admission_backend route s
    raise_if (digests.revision row.payload.revision != route.revision_digest) Error.conflict
    insert_admission id route row.payload Kind.serving none none s

  unfoldable pub admit : Digests T → String → String → Tables T P → Outcome T P (AdmissionLease T P)
  admit digests deployment_id id s = transaction s (admit_in digests deployment_id id s)

  abbrev pub payload_at : String → Tables T P → Option (Payload T P)
  payload_at id s = elim (lookup id s.admissions) [ none ↦ none | some row ↦ some row.payload ]

  abbrev pub marked : AdmissionRow T P → AdmissionRow T P
  marked row = record row { payload = record row.payload { phase = some Phase.dispatched } }

  -- The lease of the caller changes with the row.
  abbrev pub mark_known :
      AdmissionLease T P
      → Tables T P
      → Option (AdmissionRow T P)
      → Result Error (AdmissionLease T P × Tables T P)
  mark_known lease s none = err Error.conflict
  mark_known lease s (some row) =
      if row.payload != admission_payload lease || lease.phase != Phase.reserved
      then err Error.conflict
      else ok (
        record lease { phase = Phase.dispatched },
        record s { admissions = insert lease.admission_id (marked row) s.admissions },
      )

  unfoldable pub mark_dispatched :
      AdmissionLease T P → Tables T P → Outcome T P (AdmissionLease T P)
  mark_dispatched lease s =
      transaction s (mark_known lease s (lookup lease.admission_id s.admissions))

  unfoldable pub finish_in : AdmissionLease T P → Tables T P → Result Error (Unit {0} × Tables T P)
  finish_in lease s = do
    raise_if (not (verified_closed lease)) Error.conflict
    raise_if (payload_at lease.admission_id s != some (admission_payload lease)) Error.conflict
    ok (tt, record s { admissions = erase lease.admission_id s.admissions })

  unfoldable pub finish_admission : AdmissionLease T P → Tables T P → Outcome T P (Unit {0})
  finish_admission lease s = transaction s (finish_in lease s)
