-- ===== src/Reliability/Warm/Invariant.antt =====
-- The invariant of the route store, and that each elementary step keeps it.
use mathlib.Core.Path.{subst, subst₂}
use fin_serve.Prelude.{
  ◌≡◌, ◌≤◌, refl, sym, ◌∙◌, String, Bool, true, false, some, [], ◌∷◌, ◌++◌, In, length, keep, any,
  arith, ◌==◌, ==_iff, string_eq, inl, inr, is_some, Bool-cases,
}
use fin_serve.Prelude.Dict.{Dict, lookup, insert, erase, lookup-insert, lookup-insert_cases}
use fin_serve.Reliability.Contracts.{Digests}
use fin_serve.Reliability.Warm.Contracts.{RouteSnapshot, WarmDrainReceipt}
use fin_serve.Reliability.Warm.Store.{BackendRow, Action, Tables, is_retired, history, empty}
use fin_serve.Reliability.Warm.Retirement.{has_admission}
use fin_serve.Reliability.Warm.Trail.{
  CountsFrom, IsTrail, IsTrail-append, Follows, keep-append, In-append,
}
use fin_serve.Reliability.Warm.Steps.{SameBackend}

module _ {A : Type 0} (q : A → Bool) where
  -- A test of the values alone.
  pub any-lookup :
      (d : Dict String A) (k : String) (v : A)
      → any (λ row. q row.1) d ≡ false
      → lookup k d ≡ some v
      → q v ≡ false
  unfolding lookup
  any-lookup [] k v h f = cc
  any-lookup ((j, w) ∷ d) k v h f = ground (arith, any-lookup d k v)

  pub any-insert :
      (d : Dict String A) (k : String) (v : A)
      → any (λ row. q row.1) d ≡ false
      → q v ≡ false
      → any (λ row. q row.1) (insert k v d) ≡ false
  unfolding insert
  any-insert [] k v h f = ground arith
  any-insert ((j, w) ∷ d) k v h f = ground (arith, any-insert d k v)

  pub any-erase :
      (d : Dict String A) (k : String)
      → any (λ row. q row.1) d ≡ false
      → any (λ row. q row.1) (erase k d) ≡ false
  unfolding erase
  any-erase [] k h = refl
  any-erase ((j, w) ∷ d) k h = ground (arith, any-erase d k)

module _ {T P : Type 0} (digests : Digests T) where
  pub record IsSound (s : Tables T P) : Type 0 where
    -- no route sends traffic to a retired revision
    pub available :
        (d : String) (r : RouteSnapshot T)
        → lookup d s.routes ≡ some r
        → is_retired r.revision_id s ≡ false
    -- the backend of a route is registered and has the digest that the route names
    pub served :
        (d : String) (r : RouteSnapshot T)
        → lookup d s.routes ≡ some r
        → (row : BackendRow P) × (lookup r.revision_id s.backends ≡ some row)
          × (r.revision_digest ≡ digests.revision row.payload.revision)
    -- a backend is registered under its revision
    pub keyed :
        (id : String) (row : BackendRow P)
        → lookup id s.backends ≡ some row
        → row.payload.revision.revision_id ≡ id
    -- the events of a deployment count up from 0, and the last one is its route
    pub trail : (d : String) → IsTrail (history d s) (lookup d s.routes)
    -- the answer of an action is an event
    pub recorded :
        (key : String) (a : Action T) → lookup key s.actions ≡ some a → In a.payload s.events
    -- a drained revision is retired and has no stream
    pub drained :
        (id : String) (receipt : WarmDrainReceipt T)
        → lookup id s.receipts ≡ some receipt
        → (is_retired id s ≡ true) × (has_admission id s ≡ false)
    pub bounded : length s.admissions ≤ 4096

  pub empty-IsSound :
      (identity : String) (capacity_enabled : Bool) → IsSound (empty identity capacity_enabled)
  unfolding lookup history CountsFrom
  empty-IsSound identity capacity_enabled = record {
    available = λ d r h. cc;
    served = λ d r h. absurd (cc);
    keyed = λ id row h. cc;
    trail = λ d. record { counts = tt; ends = refl };
    recorded = λ key a h. absurd (cc);
    drained = λ id receipt h. absurd (cc);
    bounded = omega arith;
  }

  pub backed-IsSound :
      (s : Tables T P) (id : String) (row : BackendRow P)
      → IsSound s
      → row.payload.revision.revision_id ≡ id
      → SameBackend row (lookup id s.backends)
      → IsSound (record s { backends = insert id row s.backends })
  unfolding is_retired history has_admission
  backed-IsSound s id row v e same = record {
    available = v.available;
    served = λ d r h.
        let (old, found, digest) = v.served d r h in
        elim (Bool-cases (r.revision_id == id)) [
          | inl here ↦ (
            row,
            ground (arith, lookup-insert id r.revision_id row s.backends),
            ground (arith, ==_iff r.revision_id id),
          )
          | inr other ↦ (old, ground (arith, lookup-insert id r.revision_id row s.backends), digest)
        ];
    keyed = λ j w h. elim (lookup-insert_cases id j row w s.backends h) [
      | inl (at, is) ↦ ground arith
      | inr (at, was) ↦ v.keyed j w was
    ];
    trail = v.trail;
    recorded = v.recorded;
    drained = v.drained;
    bounded = v.bounded;
  }

  IsTrail-routed :
      (s : Tables T P) (route : RouteSnapshot T) (d : String)
      → IsTrail (history d s) (lookup d s.routes)
      → Follows route (lookup route.deployment_id s.routes)
      → IsTrail
          (keep (λ e. e.deployment_id == d) (s.events ++ route ∷ []))
          (lookup d (insert route.deployment_id route s.routes))
  unfolding history
  IsTrail-routed s route d t follows = elim (Bool-cases (route.deployment_id == d)) [
    | inl here ↦
        let same : route.deployment_id ≡ d = (==_iff route.deployment_id d).0 here in
        subst₂ IsTrail (sym (keep-append (λ e. e.deployment_id == d) s.events route ∙ ground arith))
          (ground (
            arith,
            lookup-insert route.deployment_id d route s.routes,
            ==_iff d route.deployment_id,
          ))
          (IsTrail-append route (history d s) (lookup d s.routes) t
            (subst (λ k. Follows route (lookup k s.routes)) same follows))
    | inr other ↦
        subst₂ IsTrail (sym (keep-append (λ e. e.deployment_id == d) s.events route ∙ ground arith))
          (ground (
            arith,
            lookup-insert route.deployment_id d route s.routes,
            ==_iff d route.deployment_id,
            ==_iff route.deployment_id d,
          ))
          t
  ]

  pub routed-IsSound :
      (s : Tables T P) (route : RouteSnapshot T) (row : BackendRow P)
      → IsSound s
      → is_retired route.revision_id s ≡ false
      → lookup route.revision_id s.backends ≡ some row
      → route.revision_digest ≡ digests.revision row.payload.revision
      → Follows route (lookup route.deployment_id s.routes)
      → IsSound (record s {
        routes = insert route.deployment_id route s.routes;
        events = s.events ++ route ∷ [];
      })
  unfolding is_retired history has_admission
  routed-IsSound s route row v free found digest follows = record {
    available = λ d r h. elim (lookup-insert_cases route.deployment_id d route r s.routes h) [
      | inl (at, is) ↦ subst (λ x. is_some (lookup x.revision_id s.retirements) ≡ false) is free
      | inr (at, was) ↦ v.available d r was
    ];
    served = λ d r h. elim (lookup-insert_cases route.deployment_id d route r s.routes h) [
      | inl (at, is) ↦
          subst
            (λ x.
              (w : BackendRow P) × (lookup x.revision_id s.backends ≡ some w)
              × (x.revision_digest ≡ digests.revision w.payload.revision))
            is (row, found, digest)
      | inr (at, was) ↦ v.served d r was
    ];
    keyed = v.keyed;
    trail = λ d. IsTrail-routed s route d (v.trail d) follows;
    recorded = λ key a h. In-append a.payload route s.events (v.recorded key a h);
    drained = v.drained;
    bounded = v.bounded;
  }
