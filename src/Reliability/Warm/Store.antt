-- ===== src/Reliability/Warm/Store.antt =====
-- reliability/warm_routes.py and capacity_store.py: the tables of `WarmRouteStore`, its transactions
-- and the steps that they share. A transaction that raises leaves the tables as they were; the check
-- of the file's identity and the loss of the disk are left out.
use fin_serve.Prelude.{
  ℕ, suc, String, Bool, true, false, ◌&&◌, Option, none, some, List, [], ◌∷◌, ◌++◌, ◌==◌, nat_eq,
  string_eq, option_eq, is_some, if◌then◌else◌, keep, map, any,
}
use fin_serve.Prelude.Result.{Result, ok, err, raise_if}
use fin_serve.Prelude.Dict.{Dict, lookup, insert}
use fin_serve.Reliability.Rollback.Store.{Error, or_missing}
use fin_serve.Reliability.Warm.Contracts.{WarmBackend, RouteSnapshot, Payload, WarmDrainReceipt}

-- The column `base_url` is UNIQUE; it stops being the payload's when the endpoint is released.
pub record BackendRow (P : Type 0) : Type 0 where
  pub base_url : String
  pub payload : WarmBackend P

pub record Action (T : Type 0) : Type 0 where
  pub fingerprint : String
  pub payload : RouteSnapshot T

pub record AdmissionRow (T P : Type 0) : Type 0 where
  pub revision_id : String
  pub payload : Payload T P

-- A physical member of a capacity pool, under the logical route that it extends.
pub record Member : Type 0 where
  pub deployment_id : String
  pub plan_id : String
  pub anchor_revision : String
  pub anchor_generation : ℕ
  pub ready : Bool

-- The one-use authority of a primary probe; `request` is the digest of the request's JSON.
pub record Probe (T : Type 0) : Type 0 where
  pub deployment_id : String
  pub route : RouteSnapshot T
  pub request : String

-- What of a capacity plan the dispatch reads.
pub record Plan : Type 0 where
  pub primary_revision : String
  pub expected_generation : ℕ
  pub per_member_requests : ℕ

-- Why a pool advanced: "route:", "remove:", "enroll:" or "ready:" and what it names.
pub data Reason (T : Type 0) : Type 0 where
  routed : RouteSnapshot T → Reason T
  removed enrolled : String → Reason T
  made_ready : String → Reason T

pub record PoolEvent (T : Type 0) : Type 0 where
  pub deployment_id : String
  pub generation : ℕ
  pub reason : Reason T

pub record Tables (T P : Type 0) : Type 0 where
  pub identity : String
  -- the row of `warm_admission_protocol` and that of `warm_capacity_protocol`, if there
  pub admission_protocol : Bool
  pub capacity_protocol : Bool
  pub backends : Dict String (BackendRow P)
  pub routes : Dict String (RouteSnapshot T)
  pub actions : Dict String (Action T)
  -- oldest first
  pub events : List (RouteSnapshot T)
  pub retirements : Dict String String
  pub admissions : Dict String (AdmissionRow T P)
  pub receipts : Dict String (WarmDrainReceipt T)
  pub plans : Dict String Plan
  pub authority : Dict String String
  pub generations : Dict String ℕ
  pub pool_history : List (PoolEvent T)
  pub members : Dict String Member
  pub probes : Dict String (Probe T)
  pub demand : Dict String ℕ

-- A new store: `initialize_admissions` opts in, `capacity_enabled` chooses the other protocol.
abbrev pub empty : {T P : Type 0} → String → Bool → Tables T P
empty identity capacity_enabled = record {
  identity = identity;
  admission_protocol = true;
  capacity_protocol = capacity_enabled;
  backends = [];
  routes = [];
  actions = [];
  events = [];
  retirements = [];
  admissions = [];
  receipts = [];
  plans = [];
  authority = [];
  generations = [];
  pool_history = [];
  members = [];
  probes = [];
  demand = [];
}

abbrev pub Outcome : Type 0 → Type 0 → Type 0 → Type 0
Outcome T P A = Result Error A × Tables T P

-- `with self.transaction()`: COMMIT at the end, ROLLBACK on an exception.
abbrev pub transaction :
    {T P A : Type 0} → Tables T P → Result Error (A × Tables T P) → Outcome T P A
transaction s (ok (a, s')) = (ok a, s')
transaction s (err e) = (err e, s)

-- A value of the column that must stand once.
abbrev pub has_url : {P : Type 0} → String → Dict String (BackendRow P) → Bool
has_url url rows = any (λ row. row.1.base_url == url) rows

-- `INSERT INTO t VALUES(k, v) ON CONFLICT DO UPDATE SET n = n + 1`, from 1
abbrev pub count_up : String → Dict String ℕ → Dict String ℕ
count_up key table = elim (lookup key table) [
  | none ↦ insert key 1 table
  | some n ↦ insert key (suc n) table
]

abbrev pub or_zero : Option ℕ → ℕ
or_zero none = 0
or_zero (some n) = n

-- `UPDATE warm_capacity_members SET ready=0 WHERE plan_id=? AND ready=1`
abbrev pub unready : String → String × Member → String × Member
unready plan_id (id, m) =
    if m.plan_id == plan_id && m.ready then (id, record m { ready = false }) else (id, m)

abbrev pub is_current : {T : Type 0} → Member → Option (RouteSnapshot T) → Bool
is_current m none = false
is_current m (some route) =
    route.revision_id == m.anchor_revision && route.generation == m.anchor_generation

module _ {T P : Type 0} where
  unfoldable pub is_retired : String → Tables T P → Bool
  is_retired revision_id s = is_some (lookup revision_id s.retirements)

  -- `_require_available`
  unfoldable pub require_available : String → Tables T P → Result Error (Unit {0})
  require_available revision_id s = raise_if (is_retired revision_id s) Error.conflict

  -- `_snapshot`
  unfoldable pub snapshot : String → Tables T P → Result Error (RouteSnapshot T)
  snapshot deployment_id s = or_missing (lookup deployment_id s.routes)

  unfoldable pub advance_pool : String → Reason T → Tables T P → Tables T P
  advance_pool deployment_id reason s =
      let generations = count_up deployment_id s.generations in
      record s {
        generations = generations;
        pool_history =
            s.pool_history
            ++ record {
              deployment_id = deployment_id;
              generation = or_zero (lookup deployment_id generations);
              reason = reason;
            }
              ∷ [];
      }

  unfoldable pub remove_members : String → String → Tables T P → Tables T P
  unfolding advance_pool
  remove_members plan_id deployment_id s =
      let s' = record s { members = map (unready plan_id) s.members } in
      if any (λ m. m.1.plan_id == plan_id && m.1.ready) s.members
      then advance_pool deployment_id (removed plan_id) s'
      else s'

  unfoldable pub retirement_blocked : String → Bool → Tables T P → Bool
  retirement_blocked revision_id unserved s =
      s.capacity_protocol && elim (lookup revision_id s.members) [
        | none ↦ false
        | some m ↦
            if unserved then true else m.ready && is_current m (lookup m.deployment_id s.routes)
      ]

  -- The route becomes the deployment's, and its last event.
  abbrev pub with_route : RouteSnapshot T → Tables T P → Tables T P
  with_route state s = record s {
    routes = insert state.deployment_id state s.routes;
    events = s.events ++ state ∷ [];
  }

  -- `_save`
  unfoldable pub save : RouteSnapshot T → Tables T P → Tables T P
  save state s =
      with_route state
        (if s.capacity_protocol then advance_pool state.deployment_id (routed state) s else s)

  -- `history`
  unfoldable pub history : String → Tables T P → List (RouteSnapshot T)
  history deployment_id s = keep (λ e. e.deployment_id == deployment_id) s.events
