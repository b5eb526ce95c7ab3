-- ===== src/Reliability/Rollback/Store.antt =====
-- reliability/rollback.py: the tables of `DeploymentStore` and its transactions. A table is a
-- dictionary by its primary key. `BEGIN IMMEDIATE` serializes the transactions, so each method is a
-- step of the whole store, and one that raises leaves the store as it was; the check of the file's
-- identity and the loss of the disk are left out. `T` is the type of floats.
use fin_serve.Prelude.{
  ℕ, ◌≡◌, ◌↔◌, String, Bool, true, ◌&&◌, Option, none, some, List, [], arith, Eq, ◌==◌, nat_eq,
  string_eq, option_eq, ==_iff,
}
use fin_serve.Prelude.Result.{Result, ok, err}
use fin_serve.Prelude.Dict.{Dict, lookup, insert}
use fin_serve.Reliability.Contracts.{
  Revision, revision_eq, DeploymentState, status_eq, RollbackRecord, PromotionDecision,
}

pub data Error : Type 0 where
  -- ControlConflict
  conflict : Error
  -- ValueError, a failed validation included
  invalid : Error
  -- KeyError
  missing : Error
  -- TypeError or sqlite3.IntegrityError, which no handler expects
  unhandled : Error

pub record ProbationKey : Type 0 where
  pub deployment : String
  pub generation : ℕ

abbrev pub probation_key_beq : ProbationKey → ProbationKey → Bool
probation_key_beq a b = a.deployment == b.deployment && a.generation == b.generation

pub probation_key_beq_iff : (a b : ProbationKey) → (probation_key_beq a b ≡ true) ↔ (a ≡ b)
probation_key_beq_iff a b =
    ground (arith, ==_iff a.deployment b.deployment, ==_iff a.generation b.generation)

abbrev pub probation_key : String → ℕ → ProbationKey
probation_key deployment generation = record { deployment = deployment; generation = generation }

instance abbrev pub probation_key_eq : Eq ProbationKey
probation_key_eq = record { beq = probation_key_beq; beq_iff = probation_key_beq_iff }

pub record Probation (T : Type 0) : Type 0 where
  pub evidence_digest : String
  pub decision_digest : String
  pub observed_at : T

pub record ActivationReceipt : Type 0 where
  pub deployment_id : String
  pub expected_generation : ℕ
  pub decision_digest : String
  pub state : DeploymentState

pub record LeaseRow (T : Type 0) : Type 0 where
  pub owner : Option String
  pub expires : T

pub record Event (T : Type 0) : Type 0 where
  pub operation_id : String
  pub observed_at : T
  pub payload : RollbackRecord T

pub record Store (T : Type 0) : Type 0 where
  pub revisions : Dict String Revision
  pub deployments : Dict String DeploymentState
  pub rollbacks : Dict String (RollbackRecord T)
  pub decisions : Dict String (PromotionDecision T)
  pub activations : Dict String ActivationReceipt
  pub probation : Dict ProbationKey (Probation T)
  pub leases : Dict String (LeaseRow T)
  -- oldest first
  pub events : List (Event T)

abbrev pub empty : {T : Type 0} → Store T
empty = record {
  revisions = [];
  deployments = [];
  rollbacks = [];
  decisions = [];
  activations = [];
  probation = [];
  leases = [];
  events = [];
}

-- What a method returns or raises, and the store that it leaves.
abbrev pub Outcome : Type 0 → Type 0 → Type 0
Outcome T A = Result Error A × Store T

-- `with self.transaction()`: COMMIT at the end, ROLLBACK on an exception.
abbrev pub transaction : {T A : Type 0} → Store T → Result Error (A × Store T) → Outcome T A
transaction s (ok (a, s')) = (ok a, s')
transaction s (err e) = (err e, s)

abbrev pub or_missing : {A : Type 0} → Option A → Result Error A
or_missing none = err Error.missing
or_missing (some a) = ok a

abbrev pub load_record : {A : Type 0} → Dict String A → String → Result Error A
load_record table key = or_missing (lookup key table)

abbrev pub save_record : {A : Type 0} → Dict String A → String → A → Dict String A
save_record table key value = insert key value table
