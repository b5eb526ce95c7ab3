-- ===== src/Reliability/Warm/Dispatch.antt =====
-- reliability/capacity_store.py: the choice of a physical member for a request, and the one-use
-- authority of primary probes. `digest` is the SHA-256 digest of a request's JSON, `sha256` that of a
-- token.
use fin_serve.Prelude.{
  ℕ, String, Bool, false, not, ◌&&◌, ◌||◌, Option, none, some, List, [], ◌∷◌, Eq, ◌==◌, ◌!=◌,
  nat_eq, string_eq, option_eq, is_some, if◌then◌else◌, keep, length, leb, ltb, map,
}
use fin_serve.Prelude.Result.{Result, ok, err, ◌>>=◌, ◌>>◌, raise_if}
use fin_serve.Prelude.Dict.{Dict, lookup, insert, erase}
use fin_serve.Prelude.Text.{text_lt}
use fin_serve.Reliability.Contracts.{Digests}
use fin_serve.Reliability.Rollback.Store.{Error}
use fin_serve.Reliability.Warm.Contracts.{
  WarmBackend, RouteSnapshot, snapshot_eq, Kind, AdmissionLease,
}
use fin_serve.Reliability.Warm.Store.{
  BackendRow, Member, Probe, Plan, Tables, Outcome, transaction, require_available, snapshot,
  count_up, or_zero,
}
use fin_serve.Reliability.Warm.Backends.{insert_admission}

-- A load and its revision; `min` takes the least pair.
pub record Load : Type 0 where
  pub count : ℕ
  pub revision_id : String

abbrev pub is_less : Load → Load → Bool
is_less a b = ltb a.count b.count || (a.count == b.count && text_lt a.revision_id b.revision_id)

-- `min(loads)` over a first item and the rest
unfoldable pub least : Load → List Load → Load
least best [] = best
least best (x ∷ xs) = least (if is_less x best then x else best) xs

-- The most requests of a member with no plan.
abbrev pub default_limit : ℕ
default_limit = 128

-- A member of the pool that stands under this route.
abbrev pub serves : {T : Type 0} → RouteSnapshot T → String × Member → Bool
serves route (id, m) =
    m.deployment_id == route.deployment_id
    && m.anchor_revision == route.revision_id
    && m.anchor_generation == route.generation
    && m.ready

-- The plan is of the route that serves now.
abbrev pub is_plan_of : {T : Type 0} → RouteSnapshot T → Plan → Bool
is_plan_of route plan =
    plan.primary_revision == route.revision_id && plan.expected_generation == route.generation

abbrev pub plan_or_none : Dict String Plan → Option String → Option Plan
plan_or_none plans none = none
plan_or_none plans (some id) = lookup id plans

abbrev pub limit_of : {T : Type 0} → RouteSnapshot T → Option Plan → ℕ
limit_of route none = default_limit
limit_of route (some plan) =
    if is_plan_of route plan then plan.per_member_requests else default_limit

abbrev pub extends : {T : Type 0} → RouteSnapshot T → Option Plan → Kind → Bool
extends route (some plan) Kind.serving = is_plan_of route plan
extends route _ _ = false

-- The probe names this deployment, route and request.
abbrev pub authorizes : {T : Type 0} ⦃t : Eq T⦄ → RouteSnapshot T → String → Option (Probe T) → Bool
authorizes route request none = false
authorizes route request (some probe) =
    probe.deployment_id == route.deployment_id && probe.route == route && probe.request == request

module _ {T P : Type 0} ⦃t : Eq T⦄ where
  -- The row that the code takes to be there.
  abbrev pub chosen_row : String → Tables T P → Result Error (BackendRow P)
  chosen_row id s = elim (lookup id s.backends) [ none ↦ err Error.unhandled | some row ↦ ok row ]

  -- The plan that owns the deployment's pool.
  unfoldable pub plan_of : RouteSnapshot T → Tables T P → Option Plan
  plan_of route s = plan_or_none s.plans (lookup route.deployment_id s.authority)

  unfoldable pub candidates : RouteSnapshot T → Kind → Tables T P → List String
  unfolding plan_of
  candidates route kind s =
      route.revision_id
      ∷ (if extends route (plan_of route s) kind
          then map (λ m. m.0) (keep (serves route) s.members)
          else [])

  -- `SELECT COUNT(*) FROM warm_admissions WHERE revision_id=?`
  unfoldable pub admissions_of : String → Tables T P → ℕ
  admissions_of revision_id s = length (keep (λ row. row.1.revision_id == revision_id) s.admissions)

  abbrev pub load_of : String → Tables T P → Load
  load_of revision_id s = record { count = admissions_of revision_id s; revision_id = revision_id }

  -- The candidates with room; a retired one refuses the request.
  unfoldable pub loads : ℕ → List String → Tables T P → Result Error (List Load)
  loads limit [] s = ok []
  loads limit (id ∷ ids) s = do
    require_available id s
    rest ← loads limit ids s
    ok (if ltb (admissions_of id s) limit then load_of id s ∷ rest else rest)

  -- `probe_token`: `token` is two results of `uuid4`, which are new.
  unfoldable pub probe_in :
      (String → String)
      → RouteSnapshot T
      → String
      → String
      → Tables T P
      → Result Error (String × Tables T P)
  probe_in sha256 route request token s = do
    raise_if (not s.capacity_protocol) Error.conflict
    raise_if (leb 64 (length s.probes)) Error.conflict
    raise_if (is_some (lookup (sha256 token) s.probes)) Error.unhandled
    ok (
      token,
      record s {
        probes =
            insert (sha256 token)
              (record { deployment_id = route.deployment_id; route = route; request = request })
              s.probes;
      },
    )

  unfoldable pub probe_token :
      (String → String) → RouteSnapshot T → String → String → Tables T P → Outcome T P String
  probe_token sha256 route request token s = transaction s (probe_in sha256 route request token s)

  unfoldable pub revoke_probe : (String → String) → String → Tables T P → Tables T P
  revoke_probe sha256 token s = record s { probes = erase (sha256 token) s.probes }

  abbrev pub kind_of :
      (String → String) → RouteSnapshot T → String → Option String → Tables T P → Result Error Kind
  kind_of sha256 route request none s = ok Kind.serving
  kind_of sha256 route request (some token) s =
      if authorizes route request (lookup (sha256 token) s.probes)
      then ok Kind.probe
      else err Error.conflict

  -- The demand that found no room; a probe's is not counted.
  abbrev pub rejected : RouteSnapshot T → Kind → Tables T P → Tables T P
  rejected route Kind.serving s = record s { demand = count_up route.deployment_id s.demand }
  rejected route _ s = s

  abbrev pub spend : (String → String) → Option String → Tables T P → Tables T P
  spend sha256 none s = s
  spend sha256 (some token) s = record s { probes = erase (sha256 token) s.probes }

  module _ ⦃p : Eq P⦄ (digests : Digests T) where
    abbrev pub member_route : RouteSnapshot T → Load → WarmBackend P → RouteSnapshot T
    member_route route chosen b = record route {
      revision_id = chosen.revision_id;
      revision_digest = digests.revision b.revision;
    }

    -- `none` is the refusal that is raised after the commit.
    unfoldable pub place :
        (String → String)
        → RouteSnapshot T
        → Option String
        → Kind
        → String
        → List Load
        → Tables T P
        → Result Error (Option (AdmissionLease T P) × Tables T P)
    place sha256 route token kind id [] s = ok (none, rejected route kind s)
    place sha256 route token kind id (x ∷ xs) s = do
      let chosen = least x xs
      row ← chosen_row chosen.revision_id s
      (lease, s') ←
          insert_admission id (member_route route chosen row.payload) row.payload kind (some route)
            (some (or_zero (lookup route.deployment_id s.generations))) s
      ok (some lease, spend sha256 token s')

    abbrev pub or_full :
        Outcome T P (Option (AdmissionLease T P)) → Outcome T P (AdmissionLease T P)
    or_full (ok (some lease), s) = (ok lease, s)
    or_full (ok none, s) = (err Error.conflict, s)
    or_full (err e, s) = (err e, s)

    unfoldable pub select_in :
        (String → String)
        → RouteSnapshot T
        → String
        → Option String
        → String
        → Tables T P
        → Result Error (Option (AdmissionLease T P) × Tables T P)
    select_in sha256 expected request token id s = do
      route ← snapshot expected.deployment_id s
      raise_if (route != expected || not route.capacity_protocol) Error.conflict
      kind ← kind_of sha256 route request token s
      xs ← loads (limit_of route (plan_of route s)) (candidates route kind s) s
      place sha256 route token kind id xs s

    unfoldable pub select_admission :
        (String → String)
        → RouteSnapshot T
        → String
        → Option String
        → String
        → Tables T P
        → Outcome T P (AdmissionLease T P)
    select_admission sha256 expected request token id s =
        or_full (transaction s (select_in sha256 expected request token id s))
