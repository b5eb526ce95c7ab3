-- ===== src/Reliability/Warm/Steps.antt =====
-- The elementary steps that the transactions of the route store are made of.
use fin_serve.Prelude.{
  ◌≡◌, ◌⊎◌, ◌<◌, String, true, false, Option, none, some, [], ◌∷◌, ◌++◌, In, length, string_eq,
}
use fin_serve.Prelude.Dict.{lookup, insert, erase}
use fin_serve.Reliability.Contracts.{Digests}
use fin_serve.Reliability.Warm.Contracts.{RouteSnapshot, WarmDrainReceipt}
use fin_serve.Reliability.Warm.Store.{BackendRow, Action, AdmissionRow, Tables, is_retired}
use fin_serve.Reliability.Warm.Retirement.{insert_or_ignore, is_routed, was_routed, has_admission}
use fin_serve.Reliability.Warm.Trail.{Follows}

-- A row that is replaced keeps its backend.
abbrev pub SameBackend : {P : Type 0} → BackendRow P → Option (BackendRow P) → Type 0
SameBackend row none = Unit
SameBackend row (some old) = row.payload ≡ old.payload

module _ {T P : Type 0} where
  -- Only tables of the capacity pool differ.
  pub record SameRoutes (s s' : Tables T P) : Type 0 where
    pub identity : s'.identity ≡ s.identity
    pub admission_protocol : s'.admission_protocol ≡ s.admission_protocol
    pub capacity_protocol : s'.capacity_protocol ≡ s.capacity_protocol
    pub backends : s'.backends ≡ s.backends
    pub routes : s'.routes ≡ s.routes
    pub actions : s'.actions ≡ s.actions
    pub events : s'.events ≡ s.events
    pub retirements : s'.retirements ≡ s.retirements
    pub admissions : s'.admissions ≡ s.admissions
    pub receipts : s'.receipts ≡ s.receipts

  pub data Step (digests : Digests T) (s : Tables T P) : Tables T P → Type 0 where
    backed :
        {s' : Tables T P} (id : String) (row : BackendRow P)
        → row.payload.revision.revision_id ≡ id
        → SameBackend row (lookup id s.backends)
        → s' ≡ record s { backends = insert id row s.backends }
        → Step digests s s'
    routed :
        {s' : Tables T P} (route : RouteSnapshot T) (row : BackendRow P)
        → is_retired route.revision_id s ≡ false
        → lookup route.revision_id s.backends ≡ some row
        → route.revision_digest ≡ digests.revision row.payload.revision
        → Follows route (lookup route.deployment_id s.routes)
        → s' ≡ record s {
          routes = insert route.deployment_id route s.routes;
          events = s.events ++ route ∷ [];
        }
        → Step digests s s'
    acted :
        {s' : Tables T P} (key : String) (action : Action T)
        → lookup key s.actions ≡ none
        → In action.payload s.events
        → s' ≡ record s { actions = insert key action s.actions }
        → Step digests s s'
    retired :
        {s' : Tables T P} (id digest : String)
        → (is_routed id s ≡ false) ⊎ (was_routed id s ≡ false)
        → s' ≡ record s { retirements = insert_or_ignore id digest s.retirements }
        → Step digests s s'
    proved :
        {s' : Tables T P} (id : String) (receipt : WarmDrainReceipt T)
        → is_retired id s ≡ true
        → has_admission id s ≡ false
        → s' ≡ record s { receipts = insert_or_ignore id receipt s.receipts }
        → Step digests s s'
    admitted :
        {s' : Tables T P} (id : String) (row : AdmissionRow T P)
        → is_retired row.revision_id s ≡ false
        → length s.admissions < 4096
        → s' ≡ record s { admissions = insert id row s.admissions }
        → Step digests s s'
    marked :
        {s' : Tables T P} (id : String) (old row : AdmissionRow T P)
        → lookup id s.admissions ≡ some old
        → row.revision_id ≡ old.revision_id
        → s' ≡ record s { admissions = insert id row s.admissions }
        → Step digests s s'
    finished :
        {s' : Tables T P} (id : String)
        → s' ≡ record s { admissions = erase id s.admissions }
        → Step digests s s'
    pooled : {s' : Tables T P} → SameRoutes s s' → Step digests s s'

  pub data Steps (digests : Digests T) (s : Tables T P) : Tables T P → Type 0 where
    here : {s' : Tables T P} → s' ≡ s → Steps digests s s'
    next : {m s' : Tables T P} → Steps digests s m → Step digests m s' → Steps digests s s'
