-- ===== src/Reliability/Warm/Preservation.antt =====
-- Each elementary step of the route store keeps its invariant.
use mathlib.Core.Path.{subst, subst₂}
use fin_serve.Prelude.{
  ◌≡◌, ◌≢◌, ◌⊎◌, ◌≤◌, sym, ap, ◌∙◌, String, true, false, some, In, length, keep, any, arith, ◌==◌,
  ==_iff, string_eq, if◌then◌else◌, inl, inr, is_some, Bool-cases, any-false, In-keep,
}
use fin_serve.Prelude.Dict.{
  lookup, insert, erase, lookup-insert, lookup-insert_cases, length-insert, length-erase,
}
use fin_serve.Reliability.Contracts.{Digests}
use fin_serve.Reliability.Warm.Contracts.{RouteSnapshot, WarmDrainReceipt}
use fin_serve.Reliability.Warm.Store.{BackendRow, Action, AdmissionRow, Tables, is_retired, history}
use fin_serve.Reliability.Warm.Retirement.{insert_or_ignore, is_routed, was_routed, has_admission}
use fin_serve.Reliability.Warm.Trail.{IsTrail, In-last}
use fin_serve.Reliability.Warm.Steps.{Step, Steps, SameRoutes}
use fin_serve.Reliability.Warm.Invariant.{
  IsSound, any-lookup, any-insert, any-erase, backed-IsSound, routed-IsSound,
}

module _ {T P : Type 0} (digests : Digests T) where
  acted-IsSound :
      (s : Tables T P) (key : String) (action : Action T)
      → IsSound digests s
      → In action.payload s.events
      → IsSound digests (record s { actions = insert key action s.actions })
  unfolding is_retired history has_admission
  acted-IsSound s key action v there = record {
    available = v.available;
    served = v.served;
    keyed = v.keyed;
    trail = v.trail;
    recorded = λ k a h. elim (lookup-insert_cases key k action a s.actions h) [
      | inl (at, is) ↦ subst (λ x. In x.payload s.events) is there
      | inr (at, was) ↦ v.recorded k a was
    ];
    drained = v.drained;
    bounded = v.bounded;
  }

  -- A retirement is never taken back.
  is_retired-grows :
      (s : Tables T P) (id digest k : String)
      → is_retired k s ≡ true
      → is_some (lookup k (insert_or_ignore id digest s.retirements)) ≡ true
  unfolding is_retired
  is_retired-grows s id digest k h = ground (arith, lookup-insert id k digest s.retirements)

  not_routed :
      (s : Tables T P) (id d : String) (r : RouteSnapshot T)
      → IsSound digests s
      → (is_routed id s ≡ false) ⊎ (was_routed id s ≡ false)
      → lookup d s.routes ≡ some r
      → r.revision_id ≢ id
  unfolding is_routed was_routed history
  not_routed s id d r v (inl h) found e =
      ground
        (arith, any-lookup (λ x. x.revision_id == id) s.routes d r h found, ==_iff r.revision_id id)
  not_routed s id d r v (inr h) found e =
      let ends = (v.trail d).ends ∙ found in
      let there = (In-keep (λ x. x.deployment_id == d) r s.events (In-last r _ ends)).1 in
      ground
        (arith, any-false (λ x. x.revision_id == id) s.events r there h, ==_iff r.revision_id id)

  retired-IsSound :
      (s : Tables T P) (id digest : String)
      → IsSound digests s
      → (is_routed id s ≡ false) ⊎ (was_routed id s ≡ false)
      → IsSound digests (record s { retirements = insert_or_ignore id digest s.retirements })
  unfolding is_retired history has_admission
  retired-IsSound s id digest v h = record {
    available = λ d r found.
        let other = not_routed s id d r v h found in
        ground (
          arith,
          v.available d r found,
          lookup-insert id r.revision_id digest s.retirements,
          ==_iff r.revision_id id,
        );
    served = v.served;
    keyed = v.keyed;
    trail = v.trail;
    recorded = v.recorded;
    drained = λ k receipt found.
        let (gone, quiet) = v.drained k receipt found in
        (is_retired-grows s id digest k gone, quiet);
    bounded = v.bounded;
  }

  proved-IsSound :
      (s : Tables T P) (id : String) (receipt : WarmDrainReceipt T)
      → IsSound digests s
      → is_retired id s ≡ true
      → has_admission id s ≡ false
      → IsSound digests (record s { receipts = insert_or_ignore id receipt s.receipts })
  unfolding is_retired history has_admission
  proved-IsSound s id receipt v gone quiet = record {
    available = v.available;
    served = v.served;
    keyed = v.keyed;
    trail = v.trail;
    recorded = v.recorded;
    drained = λ k w found. elim (Bool-cases (is_some (lookup id s.receipts))) [
      | inl there ↦ v.drained k w (
          subst (λ b. lookup k (if b then s.receipts else insert id receipt s.receipts) ≡ some w)
            there found)
      | inr new ↦
          elim (lookup-insert_cases id k receipt w s.receipts (
            subst (λ b. lookup k (if b then s.receipts else insert id receipt s.receipts) ≡ some w)
              new found)) [ inl (at, is) ↦ ground arith | inr (at, was) ↦ v.drained k w was ]
    ];
    bounded = v.bounded;
  }

  -- A write of an admission of a revision that has no receipt, or has one already.
  admissions-IsSound :
      (s : Tables T P) (id : String) (row : AdmissionRow T P)
      → IsSound digests s
      → ((k : String)
          → is_retired k s ≡ true
          → has_admission k s ≡ false
          → (row.revision_id == k) ≡ false)
      → length (insert id row s.admissions) ≤ 4096
      → IsSound digests (record s { admissions = insert id row s.admissions })
  unfolding is_retired history has_admission
  admissions-IsSound s id row v other room = record {
    available = v.available;
    served = v.served;
    keyed = v.keyed;
    trail = v.trail;
    recorded = v.recorded;
    drained = λ k receipt found.
        let (gone, quiet) = v.drained k receipt found in
        (gone, any-insert (λ x. x.revision_id == k) s.admissions id row quiet (other k gone quiet));
    bounded = room;
  }

  finished-IsSound :
      (s : Tables T P) (id : String)
      → IsSound digests s
      → IsSound digests (record s { admissions = erase id s.admissions })
  unfolding is_retired history has_admission
  finished-IsSound s id v = record {
    available = v.available;
    served = v.served;
    keyed = v.keyed;
    trail = v.trail;
    recorded = v.recorded;
    drained = λ k receipt found.
        let (gone, quiet) = v.drained k receipt found in
        (gone, any-erase (λ x. x.revision_id == k) s.admissions id quiet);
    bounded = ground (arith, v.bounded, length-erase id s.admissions);
  }

  pooled-IsSound : (s s' : Tables T P) → SameRoutes s s' → IsSound digests s → IsSound digests s'
  unfolding is_retired history has_admission
  pooled-IsSound s s' same v = record {
    available =
        subst₂
          (λ routes retirements.
            (d : String) (r : RouteSnapshot T)
            → lookup d routes ≡ some r
            → is_some (lookup r.revision_id retirements) ≡ false)
          (sym same.routes) (sym same.retirements) v.available;
    served =
        subst₂
          (λ routes backends.
            (d : String) (r : RouteSnapshot T)
            → lookup d routes ≡ some r
            → (row : BackendRow P) × (lookup r.revision_id backends ≡ some row)
              × (r.revision_digest ≡ digests.revision row.payload.revision))
          (sym same.routes) (sym same.backends) v.served;
    keyed =
        subst
          (λ backends.
            (id : String) (row : BackendRow P)
            → lookup id backends ≡ some row
            → row.payload.revision.revision_id ≡ id)
          (sym same.backends) v.keyed;
    trail =
        subst₂
          (λ routes events.
            (d : String) → IsTrail (keep (λ e. e.deployment_id == d) events) (lookup d routes))
          (sym same.routes) (sym same.events) v.trail;
    recorded =
        subst₂
          (λ actions events.
            (key : String) (a : Action T) → lookup key actions ≡ some a → In a.payload events)
          (sym same.actions) (sym same.events) v.recorded;
    drained = λ k receipt found.
        let (gone, quiet) = v.drained k receipt (ap (lookup k) (sym same.receipts) ∙ found) in
        (
          ap (λ d. is_some (lookup k d)) same.retirements ∙ gone,
          ap (any (λ row. row.1.revision_id == k)) same.admissions ∙ quiet,
        );
    bounded = subst (λ d. length d ≤ 4096) (sym same.admissions) v.bounded;
  }

  -- An admission of a revision that is not retired is not one of a drained revision.
  admitted_other :
      (s : Tables T P) (row : AdmissionRow T P)
      → is_retired row.revision_id s ≡ false
      → (k : String) → is_retired k s ≡ true
      → has_admission k s ≡ false
      → (row.revision_id == k) ≡ false
  unfolding is_retired
  admitted_other s row free k gone quiet = ground (arith, ==_iff row.revision_id k)

  marked_other :
      (s : Tables T P) (id : String) (old row : AdmissionRow T P)
      → lookup id s.admissions ≡ some old
      → row.revision_id ≡ old.revision_id
      → (k : String) → is_retired k s ≡ true
      → has_admission k s ≡ false
      → (row.revision_id == k) ≡ false
  unfolding has_admission
  marked_other s id old row found same k gone quiet =
      ap (λ x. x == k) same ∙ any-lookup (λ x. x.revision_id == k) s.admissions id old quiet found

  -- Every elementary step keeps the invariant.
  pub Step-IsSound :
      (s s' : Tables T P) → Step digests s s' → IsSound digests s → IsSound digests s'
  Step-IsSound s s' (Step.backed id row keyed same e) v =
      subst (IsSound digests) (sym e) (backed-IsSound digests s id row v keyed same)
  Step-IsSound s s' (Step.routed route row free found digest follows e) v =
      subst (IsSound digests) (sym e)
        (routed-IsSound digests s route row v free found digest follows)
  Step-IsSound s s' (Step.acted key action new there e) v =
      subst (IsSound digests) (sym e) (acted-IsSound s key action v there)
  Step-IsSound s s' (Step.retired id digest h e) v =
      subst (IsSound digests) (sym e) (retired-IsSound s id digest v h)
  Step-IsSound s s' (Step.proved id receipt gone quiet e) v =
      subst (IsSound digests) (sym e) (proved-IsSound s id receipt v gone quiet)
  Step-IsSound s s' (Step.admitted id row free room e) v = subst (IsSound digests) (sym e) (
      admissions-IsSound s id row v (admitted_other s row free)
        (ground (arith, length-insert id row s.admissions)))
  Step-IsSound s s' (Step.marked id old row found same e) v = subst (IsSound digests) (sym e) (
      admissions-IsSound s id row v (marked_other s id old row found same)
        (ground (arith, v.bounded, length-insert id row s.admissions)))
  Step-IsSound s s' (Step.finished id e) v =
      subst (IsSound digests) (sym e) (finished-IsSound s id v)
  Step-IsSound s s' (Step.pooled same) v = pooled-IsSound s s' same v

  pub Steps-IsSound :
      (s s' : Tables T P) → Steps digests s s' → IsSound digests s → IsSound digests s'
  Steps-IsSound s s' (Steps.here e) v = subst (IsSound digests) (sym e) v
  Steps-IsSound s s' (Steps.next {m} before step) v =
      Step-IsSound m s' step (Steps-IsSound s m before v)
