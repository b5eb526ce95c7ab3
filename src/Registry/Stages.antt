-- ===== src/Registry/Stages.antt =====
-- registry/producer_stages.py: `ProducerStages`, the journal of producer stages, with the reference
-- of registry/artifacts.py. `verified` is the artifact store: whether `get` returns the content of a
-- reference. The transactions of SQLAlchemy are steps; one that raises writes nothing.
pub mod Calls
pub mod Steps
pub mod History
use fin_serve.Prelude.{
  ℕ, suc, ◌≡◌, ◌↔◌, String, Bool, true, false, not, ◌&&◌, ◌||◌, Option, none, some, List, [], ◌∷◌,
  ◌++◌, arith, leb, length, all, any, is_some, if◌then◌else◌, Eq, ◌==◌, ◌!=◌, nat_eq, string_eq,
  option_eq, ==_iff,
}
use fin_serve.Prelude.Float.{Float}
use fin_serve.Prelude.Text.{codes, is_hex, is_letter, is_name_code}
use fin_serve.Prelude.Result.{Result, ok, err, ◌>>=◌, ◌>>◌, raise_if}
use fin_serve.Prelude.Dict.{Dict, lookup, insert}

pub data StageStatus : Type 0 where
  planned running failed completed : StageStatus

abbrev pub is_planned : StageStatus → Bool
is_planned StageStatus.planned = true
is_planned _ = false

abbrev pub is_running : StageStatus → Bool
is_running StageStatus.running = true
is_running _ = false

abbrev pub is_failed : StageStatus → Bool
is_failed StageStatus.failed = true
is_failed _ = false

abbrev pub is_completed : StageStatus → Bool
is_completed StageStatus.completed = true
is_completed _ = false

pub record ArtifactRef : Type 0 where
  pub namespace : String
  pub sha256 : String
  pub size_bytes : ℕ

abbrev pub ref_beq : ArtifactRef → ArtifactRef → Bool
ref_beq a b = a.namespace == b.namespace && a.sha256 == b.sha256 && a.size_bytes == b.size_bytes

pub ref_beq_iff : (a b : ArtifactRef) → (ref_beq a b ≡ true) ↔ (a ≡ b)
ref_beq_iff a b = ground (
  arith,
  ==_iff a.namespace b.namespace,
  ==_iff a.sha256 b.sha256,
  ==_iff a.size_bytes b.size_bytes,
)

instance abbrev pub ref_eq : Eq ArtifactRef
ref_eq = record { beq = ref_beq; beq_iff = ref_beq_iff }

pub record StageState (T : Type 0) : Type 0 where
  pub stage_id : String
  pub input : ArtifactRef
  pub status : StageStatus
  pub version : ℕ
  pub attempt_number : ℕ
  pub attempt_id : Option String
  pub started_at : Option T
  pub finished_at : Option T
  pub output : Option ArtifactRef
  pub reconciliation : Option ArtifactRef
  pub error_code : Option String

pub data StageError : Type 0 where
  -- RegistryConflict
  conflict : StageError
  -- ValueError, a failed validation included
  invalid : StageError
  -- NoResultFound
  missing : StageError

pub record StageRow (T : Type 0) : Type 0 where
  pub version : ℕ
  pub payload : StageState T

pub record Journal (T : Type 0) : Type 0 where
  pub stages : Dict String (StageRow T)
  pub events : List (StageState T)

abbrev pub empty : {T : Type 0} → Journal T
empty = record { stages = []; events = [] }

abbrev pub Outcome : Type 0 → Type 0
Outcome T = Result StageError (StageState T) × Journal T

-- `^[A-Za-z0-9_-]{1,128}:[A-Za-z0-9_-]{1,64}$`, after `n` characters of the first part
unfoldable pub is_stage_codes : ℕ → List ℕ → Bool
is_stage_codes n [] = false
is_stage_codes n (c ∷ cs) =
    let rest = is_stage_codes (suc n) cs in
    if c == b':'
    then leb 1 n && leb n 128 && leb 1 (length cs) && leb (length cs) 64 && all is_name_code cs
    else is_name_code c && rest

-- `^[0-9a-f]{32}$`
abbrev pub is_attempt_id : Option String → Bool
is_attempt_id none = true
is_attempt_id (some s) = length (codes s) == 32 && all is_hex (codes s)

-- `[A-Za-z0-9_]`
abbrev pub is_word_code : ℕ → Bool
is_word_code c = is_name_code c && c != b'-'

-- `^[A-Za-z][A-Za-z0-9_]{0,127}$`
abbrev pub is_error_codes : List ℕ → Bool
is_error_codes [] = false
is_error_codes (c ∷ cs) = is_letter c && leb (length cs) 127 && all is_word_code cs

abbrev pub is_error_code : Option String → Bool
is_error_code none = true
is_error_code (some s) = is_error_codes (codes s)

abbrev pub same_bool : Bool → Bool → Bool
same_bool a b = if a then b else not b

module _ (F : Float) where
  open F use {Carrier, lt, zero, is_finite}

  -- `allow_inf_nan=False` and `gt=0`
  abbrev pub is_positive_time : Option Carrier → Bool
  is_positive_time none = true
  is_positive_time (some t) = is_finite t && lt zero t

  -- The finish follows the start.
  abbrev pub finished_after : Option Carrier → Option Carrier → Bool
  finished_after (some started) (some finished) = not (lt finished started)
  finished_after _ _ = false

  -- `coherent_attempt`
  unfoldable pub coherent_attempt : StageState Carrier → Bool
  coherent_attempt s =
      (if is_planned s.status
        then s.attempt_number == 0
          && not (is_some s.attempt_id)
          && not (is_some s.started_at)
          && not (is_some s.finished_at)
        else leb 1 s.attempt_number && is_some s.attempt_id && is_some s.started_at)
      && (if is_completed s.status || is_failed s.status
          then finished_after s.started_at s.finished_at
          else not (is_some s.finished_at))
      && same_bool (is_completed s.status) (is_some s.output)
      && same_bool (is_failed s.status) (is_some s.error_code)
      && same_bool (is_failed s.status) (is_some s.reconciliation)

  -- The validation of a `StageState`: its fields, then its coherence.
  unfoldable pub is_stage : StageState Carrier → Bool
  unfolding is_stage_codes
  is_stage s =
      is_stage_codes 0 (codes s.stage_id)
      && leb s.attempt_number 32
      && is_attempt_id s.attempt_id
      && is_positive_time s.started_at
      && is_positive_time s.finished_at
      && is_error_code s.error_code
      && coherent_attempt s

  unfoldable pub validated : StageState Carrier → Result StageError (StageState Carrier)
  validated s = if is_stage s then ok s else err StageError.invalid

  -- `_read`
  unfoldable pub read : String → Journal Carrier → Result StageError (StageState Carrier)
  read id j = elim (lookup id j.stages) [ none ↦ err StageError.missing | some r ↦ ok r.payload ]

  abbrev pub initial : String → ArtifactRef → StageState Carrier
  initial id reference = record {
    stage_id = id;
    input = reference;
    status = StageStatus.planned;
    version = 0;
    attempt_number = 0;
    attempt_id = none;
    started_at = none;
    finished_at = none;
    output = none;
    reconciliation = none;
    error_code = none;
  }

  abbrev pub row_of : StageState Carrier → StageRow Carrier
  row_of s = record { version = s.version; payload = s }

  -- `_save`
  unfoldable pub save : StageState Carrier → Journal Carrier → StageState Carrier → Outcome Carrier
  save before j after = elim (lookup before.stage_id j.stages) [
    | none ↦ (err StageError.conflict, j)
    | some row ↦
        if row.version == before.version
        then (
          ok after,
          record {
            stages = insert before.stage_id (row_of after) j.stages;
            events = j.events ++ after ∷ [];
          },
        )
        else (err StageError.conflict, j)
  ]

  -- A transaction that reads a stage and may save it.
  abbrev pub commit :
      StageState Carrier
      → Journal Carrier
      → Result StageError (StageState Carrier)
      → Outcome Carrier
  commit before j (err e) = (err e, j)
  commit before j (ok after) = save before j after

  abbrev pub with_stage :
      Journal Carrier
      → Result StageError (StageState Carrier)
      → (StageState Carrier → Outcome Carrier)
      → Outcome Carrier
  with_stage j (err e) body = (err e, j)
  with_stage j (ok before) body = body before

  abbrev pub used_attempt : String → String → StageState Carrier → Bool
  used_attempt id attempt s = s.stage_id == id && s.attempt_id == some attempt

  abbrev pub is_reused : String → Option String → Journal Carrier → Bool
  is_reused id none j = false
  is_reused id (some attempt) j = any (used_attempt id attempt) j.events

  -- `attempt_id` or what `uuid4().hex` gave
  abbrev pub given_or : Option String → String → String
  given_or none fresh = fresh
  given_or (some attempt) fresh = attempt

  abbrev pub started : String → StageState Carrier → String → Carrier → StageState Carrier
  started id before attempt now = record (initial id before.input) {
    status = StageStatus.running;
    version = suc before.version;
    attempt_number = suc before.attempt_number;
    attempt_id = some attempt;
    started_at = some now;
  }

  abbrev pub finished : StageState Carrier → ArtifactRef → Carrier → StageState Carrier
  finished before output now = record before {
    status = StageStatus.completed;
    version = suc before.version;
    output = some output;
    finished_at = some now;
  }

  abbrev pub failed_with : StageState Carrier → String → ArtifactRef → Carrier → StageState Carrier
  failed_with before error_code reconciliation now = record before {
    status = StageStatus.failed;
    version = suc before.version;
    error_code = some error_code;
    reconciliation = some reconciliation;
    finished_at = some now;
  }

  -- `_require_attempt`
  abbrev pub owns_attempt : StageState Carrier → String → Bool
  owns_attempt s attempt = is_running s.status && s.attempt_id == some attempt

  -- The receipt of an attempt that has finished already.
  abbrev pub is_receipt : StageState Carrier → String → ArtifactRef → Bool
  is_receipt s attempt output =
      is_completed s.status && s.attempt_id == some attempt && s.output == some output
