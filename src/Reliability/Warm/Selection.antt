-- ===== src/Reliability/Warm/Selection.antt =====
-- What the choice of a physical member picks, and what it does to the route store.
use mathlib.Core.Path.{subst}
use fin_serve.Prelude.{
  ℕ, ◌≡◌, ◌<◌, refl, sym, String, Bool, true, false, not, ◌||◌, Option, none, some, List, [], ◌∷◌,
  arith, Eq, ◌!=◌, string_eq, nat_eq, option_eq, if◌then◌else◌, inl, inr, is_some, leb, ltb, length,
  All, Bool-cases,
}
use fin_serve.Prelude.Result.{Result, ok, err, raise_if, ok_of_bind, not_raised}
use fin_serve.Prelude.Dict.{Dict, lookup, insert}
use fin_serve.Reliability.Contracts.{Digests}
use fin_serve.Reliability.Rollback.Store.{Error}
use fin_serve.Reliability.Warm.Contracts.{RouteSnapshot, snapshot_eq, Kind, AdmissionLease}
use fin_serve.Reliability.Warm.Store.{
  Plan, PoolEvent, Member, Probe, Tables, transaction, is_retired, require_available, snapshot,
  or_zero, remove_members, advance_pool,
}
use fin_serve.Reliability.Warm.Backends.{insert_admission}
use fin_serve.Reliability.Warm.Dispatch.{
  Load, least, is_less, loads, load_of, admissions_of, chosen_row, place, spend, rejected,
  select_in, select_admission, member_route, or_full, kind_of, limit_of, plan_of, candidates,
  probe_token, probe_in, revoke_probe,
}
use fin_serve.Reliability.Warm.Steps.{Step, Steps, SameRoutes}
use fin_serve.Reliability.Warm.Moves.{one_step, transaction-Steps}
use fin_serve.Reliability.Warm.Streams.{available_lem, insert-Steps}

pub least-All :
    (Q : Load → Type 0) (best : Load) (xs : List Load) → Q best → All Q xs → Q (least best xs)
unfolding least
least-All Q best [] q all = q
least-All Q best (x ∷ xs) q all = elim (Bool-cases (is_less x best)) [
  | inl less ↦
      least-All Q (if is_less x best then x else best) xs
        (subst (λ b. Q (if b then x else best)) (sym less) all.0) all.1
  | inr more ↦
      least-All Q (if is_less x best then x else best) xs
        (subst (λ b. Q (if b then x else best)) (sym more) q) all.1
]

pool_only :
    {T P : Type 0} (s : Tables T P) (plans : Dict String Plan) (authority : Dict String String)
    (generations : Dict String ℕ) (pool_history : List (PoolEvent T)) (members : Dict String Member)
    (probes : Dict String (Probe T)) (demand : Dict String ℕ)
    → SameRoutes s (record s {
      plans = plans;
      authority = authority;
      generations = generations;
      pool_history = pool_history;
      members = members;
      probes = probes;
      demand = demand;
    })
pool_only s plans authority generations pool_history members probes demand = record {
  identity = refl;
  admission_protocol = refl;
  capacity_protocol = refl;
  backends = refl;
  routes = refl;
  actions = refl;
  events = refl;
  retirements = refl;
  admissions = refl;
  receipts = refl;
}

chosen_SameRoutes :
    {T P : Type 0} {s x y : Tables T P} (b : Bool)
    → SameRoutes s x
    → SameRoutes s y
    → SameRoutes s (if b then x else y)
chosen_SameRoutes true f g = f
chosen_SameRoutes false f g = g

module _ {T P : Type 0} ⦃t : Eq T⦄ where
  -- A load is of a revision that is not retired, and leaves room for one more request.
  pub record HasRoom (limit : ℕ) (s : Tables T P) (x : Load) : Type 0 where
    pub free : is_retired x.revision_id s ≡ false
    pub counted : x.count ≡ admissions_of x.revision_id s
    pub room : x.count < limit

  pub loads-HasRoom :
      (limit : ℕ) (ids : List String) (s : Tables T P) (xs : List Load)
      → loads limit ids s ≡ ok xs
      → All (HasRoom limit s) xs
  unfolding loads
  loads-HasRoom limit [] s xs h =
      let same : [] ≡ xs = ground arith in subst (All (HasRoom limit s)) same tt
  loads-HasRoom limit (id ∷ ids) s xs h =
      let (u, free, h1) = ok_of_bind (require_available id s) _ xs h in
      let (rest, more, h2) = ok_of_bind (loads limit ids s) _ xs h1 in
      let held = loads-HasRoom limit ids s rest more in
      elim (Bool-cases (ltb (admissions_of id s) limit)) [
        | inl room ↦
            let same : load_of id s ∷ rest ≡ xs = ground arith in
            subst (All (HasRoom limit s)) same (
              record { free = available_lem id s u free; counted = refl; room = ground arith },
              held,
            )
        | inr full ↦ let same : rest ≡ xs = ground arith in subst (All (HasRoom limit s)) same held
      ]

  -- A write of the pool's tables alone.
  rejected-SameRoutes :
      (route : RouteSnapshot T) (kind : Kind) (s : Tables T P)
      → SameRoutes s (rejected route kind s)
  rejected-SameRoutes route Kind.serving s = pool_only s _ _ _ _ _ _ _
  rejected-SameRoutes route Kind.collector s = pool_only s _ _ _ _ _ _ _
  rejected-SameRoutes route Kind.probe s = pool_only s _ _ _ _ _ _ _

  spend-SameRoutes :
      (sha256 : String → String) (token : Option String) (s : Tables T P)
      → SameRoutes s (spend sha256 token s)
  spend-SameRoutes sha256 none s = pool_only s _ _ _ _ _ _ _
  spend-SameRoutes sha256 (some token) s = pool_only s _ _ _ _ _ _ _

  pub probe-Steps :
      (digests : Digests T) (sha256 : String → String) (route : RouteSnapshot T)
      (request token : String) (s : Tables T P)
      → Steps digests s (probe_token sha256 route request token s).1
  unfolding probe_token probe_in
  probe-Steps digests sha256 route request token s =
      transaction-Steps digests s (probe_in sha256 route request token s) (λ a s' h.
        let (u, enabled, h1) =
          ok_of_bind (raise_if (not s.capacity_protocol) Error.conflict) _ (a, s') h in
        let (w, room, h2) =
          ok_of_bind (raise_if (leb 64 (length s.probes)) Error.conflict) _ (a, s') h1 in
        let (x, fresh, h3) =
          ok_of_bind (raise_if (is_some (lookup (sha256 token) s.probes)) Error.unhandled) _ (a, s')
            h2 in
        subst (Steps digests s) (ground arith) (
          one_step digests (
            Step.pooled (
              pool_only s s.plans s.authority s.generations s.pool_history s.members
                (insert (sha256 token)
                  (record { deployment_id = route.deployment_id; route = route; request = request })
                  s.probes)
                s.demand))))

  pub revoke-Steps :
      (digests : Digests T) (sha256 : String → String) (token : String) (s : Tables T P)
      → Steps digests s (revoke_probe sha256 token s)
  unfolding revoke_probe
  revoke-Steps digests sha256 token s = one_step digests (Step.pooled (pool_only s _ _ _ _ _ _ _))

  pub remove-Steps :
      (digests : Digests T) (plan_id deployment_id : String) (s : Tables T P)
      → Steps digests s (remove_members plan_id deployment_id s)
  unfolding remove_members advance_pool
  remove-Steps digests plan_id deployment_id s =
      one_step digests
        (Step.pooled (chosen_SameRoutes _ (pool_only s _ _ _ _ _ _ _) (pool_only s _ _ _ _ _ _ _)))

  module _ ⦃p : Eq P⦄ (digests : Digests T) where
    place-Steps :
        (sha256 : String → String) (route : RouteSnapshot T) (token : Option String) (kind : Kind)
        (id : String) (limit : ℕ) (xs : List Load) (s : Tables T P)
        → All (HasRoom limit s) xs
        → (a : Option (AdmissionLease T P)) (s' : Tables T P)
        → place digests sha256 route token kind id xs s ≡ ok (a, s')
        → Steps digests s s'
    unfolding place
    place-Steps sha256 route token kind id limit [] s all a s' h =
        subst (Steps digests s) (ground arith)
          (one_step digests (Step.pooled (rejected-SameRoutes route kind s)))
    place-Steps sha256 route token kind id limit (x ∷ xs) s all a s' h =
        let chosen = least x xs in
        let room = least-All (HasRoom limit s) x xs all.0 all.1 in
        let (row, found, h1) = ok_of_bind (chosen_row chosen.revision_id s) _ (a, s') h in
        let ((lease, m), inserted, last) =
          ok_of_bind
            (insert_admission id (member_route digests route chosen row.payload) row.payload kind
              (some route) (some (or_zero (lookup route.deployment_id s.generations))) s)
            _ (a, s') h1 in
        subst (Steps digests s) (ground arith) (
          Steps.next
            (insert-Steps digests id (member_route digests route chosen row.payload) row.payload
              kind (some route) (some (or_zero (lookup route.deployment_id s.generations))) s lease
              m room.free inserted)
            (Step.pooled (spend-SameRoutes sha256 token m)))

    -- What a choice that did not raise read, and what it placed.
    pub record Selects (sha256 : String → String) (expected : RouteSnapshot T) (request : String)
        (token : Option String) (id : String) (s : Tables T P) (a : Option (AdmissionLease T P))
        (s' : Tables T P) : Type 0 where
      pub route : RouteSnapshot T
      pub stood : snapshot expected.deployment_id s ≡ ok route
      pub same : (route != expected || not route.capacity_protocol) ≡ false
      pub kind : Kind
      pub authority : kind_of sha256 route request token s ≡ ok kind
      pub xs : List Load
      pub measured : loads (limit_of route (plan_of route s)) (candidates route kind s) s ≡ ok xs
      pub placed : place digests sha256 route token kind id xs s ≡ ok (a, s')

    pub select_in-Selects :
        (sha256 : String → String) (expected : RouteSnapshot T) (request : String)
        (token : Option String) (id : String) (s : Tables T P) (a : Option (AdmissionLease T P))
        (s' : Tables T P)
        → select_in digests sha256 expected request token id s ≡ ok (a, s')
        → Selects sha256 expected request token id s a s'
    unfolding select_in
    select_in-Selects sha256 expected request token id s a s' h =
        let (route, stood, h1) = ok_of_bind (snapshot expected.deployment_id s) _ (a, s') h in
        let (same, h2) =
          not_raised (route != expected || not route.capacity_protocol) Error.conflict _ (a, s')
            h1 in
        let (kind, authority, h3) =
          ok_of_bind (kind_of sha256 route request token s) _ (a, s') h2 in
        let limit = limit_of route (plan_of route s) in
        let (xs, measured, last) =
          ok_of_bind (loads limit (candidates route kind s) s) _ (a, s') h3 in
        record {
          route = route;
          stood = stood;
          same = same;
          kind = kind;
          authority = authority;
          xs = xs;
          measured = measured;
          placed = last;
        }

    select_in-Steps :
        (sha256 : String → String) (expected : RouteSnapshot T) (request : String)
        (token : Option String) (id : String) (s : Tables T P) (a : Option (AdmissionLease T P))
        (s' : Tables T P)
        → select_in digests sha256 expected request token id s ≡ ok (a, s')
        → Steps digests s s'
    select_in-Steps sha256 expected request token id s a s' h =
        let c = select_in-Selects sha256 expected request token id s a s' h in
        let limit = limit_of c.route (plan_of c.route s) in
        place-Steps sha256 c.route token c.kind id limit c.xs s
          (loads-HasRoom limit (candidates c.route c.kind s) s c.xs c.measured) a s' c.placed

    or_full-kept :
        (o : Result Error (Option (AdmissionLease T P)) × Tables T P) → (or_full digests o).1 ≡ o.1
    or_full-kept (ok (some lease), s) = refl
    or_full-kept (ok none, s) = refl
    or_full-kept (err e, s) = refl

    pub select-Steps :
        (sha256 : String → String) (expected : RouteSnapshot T) (request : String)
        (token : Option String) (id : String) (s : Tables T P)
        → Steps digests s (select_admission digests sha256 expected request token id s).1
    unfolding select_admission
    select-Steps sha256 expected request token id s =
        subst (Steps digests s)
          (sym
            (or_full-kept (transaction s (select_in digests sha256 expected request token id s))))
          (transaction-Steps digests s (select_in digests sha256 expected request token id s)
            (select_in-Steps sha256 expected request token id s))
