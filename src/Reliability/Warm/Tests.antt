-- ===== src/Reliability/Warm/Tests.antt =====
-- Runs of the route store over times as numbers, and the theorems at such runs.
use fin_serve.Prelude.{
  ℕ, ◌≡◌, refl, String, Bool, true, false, none, some, List, [], ◌∷◌, nat_eq, string_eq, option_eq,
  ◌++◌,
}
use fin_serve.Prelude.Result.{ok}
use fin_serve.Prelude.Dict.{lookup, insert, erase}
use fin_serve.Reliability.Contracts.{
  Revision, HealthObservation, DeploymentState, PromotionDecision, Digests, verifies, approved,
}
use fin_serve.Reliability.Rollback.Store
use fin_serve.Reliability.Rollback.Deployments.{
  register_revision, activate_candidate, activate, record_decision, activation_key,
}
use fin_serve.Reliability.Rollback.Deployments
use fin_serve.Reliability.Rollback.Controller.{ApplyRequest}
use fin_serve.Reliability.Warm.Contracts.{
  WarmBackend, RouteSnapshot, Kind, Phase, AdmissionLease, WarmDrainReceipt, admission_payload,
}
use fin_serve.Reliability.Warm.Store.{
  Tables, empty, is_retired, require_available, snapshot, advance_pool, retirement_blocked, save,
}
use fin_serve.Reliability.Warm.Backends.{
  register, backend, insert_admission, admit, admit_in, finish_admission, finish_in,
}
use fin_serve.Reliability.Warm.Retirement.{
  is_held, is_routed, has_admission, fence_and_prove, drain_in, retire_drained,
}
use fin_serve.Reliability.Warm.Routes.{
  bootstrap, bootstrap_in, apply, apply_in, verified_action, acknowledge_candidate,
}
use fin_serve.Reliability.Warm.Dispatch.{
  least, loads, plan_of, admissions_of, candidates, place, select_in, select_admission, kind_of,
  limit_of,
}
use fin_serve.Reliability.Warm.Invariant.{IsSound}
use fin_serve.Reliability.Warm.History.{Call, run, run-IsSound_from_empty}
use fin_serve.Reliability.Warm.Permanence.{Extends, run-Extends, IsDrained, run-IsDrained}
use fin_serve.Reliability.Warm.Repeats.{run-apply_again}
use fin_serve.Reliability.Warm.Room.{GoesTo, select_admission-GoesTo}
use fin_serve.Reliability.Warm.Agreement.{Agrees, acknowledge_candidate-Agrees}

abbrev digests : Digests ℕ
digests = record {
  revision = λ r. r.image_digest;
  decision = λ d. d.candidate_digest;
  intent = λ d n k. k;
}

abbrev fingerprint : ApplyRequest → String
fingerprint r = r.idempotency_key

abbrev same_text : String → String
same_text s = s

abbrev revision : String → String → Revision
revision id image = record {
  revision_id = id;
  model_revision = "m";
  tokenizer_revision = "t";
  source_revision = "s";
  image_digest = image;
  config_digest = "c";
  engine = "e";
  engine_config = "f";
}

abbrev warm : String → String → String → WarmBackend String
warm id image url = record {
  revision = revision id image;
  configuration = record { base_url = url; model = "alias"; credential_env = none };
  serving_profile = none;
}

abbrev first : WarmBackend String
first = warm "r1" "i1" "http://one/v1"

abbrev second : WarmBackend String
second = warm "r2" "i2" "http://two/v1"

abbrev cutover : ApplyRequest
cutover = record {
  deployment_id = "d";
  expected_revision = "r1";
  expected_generation = 0;
  target = revision "r2" "i2";
  idempotency_key = "k";
}

-- Two backends, traffic to the first one.
abbrev begun : List (Call ℕ String)
begun = Call.registers first ∷ Call.registers second ∷ Call.bootstraps "d" "r1" 1 ∷ []

-- A stream is admitted, and the traffic cut over.
abbrev moved : List (Call ℕ String)
moved = begun ++ (Call.admits "d" "a" ∷ Call.applies cutover 2 ∷ [])

abbrev lease : AdmissionLease ℕ String
lease = record {
  admission_id = "a";
  snapshot = record {
    deployment_id = "d";
    revision_id = "r1";
    revision_digest = "i1";
    generation = 0;
    changed_at = 1;
    admission_protocol = true;
    capacity_protocol = false;
  };
  backend = first;
  backend_started = 1;
  backend_closed = 1;
  kind = none;
  phase = Phase.reserved;
  anchor = none;
  pool_generation = none;
}

-- The first one is retired while the stream runs, and drained when it has closed.
abbrev drained : List (Call ℕ String)
drained =
    moved
    ++ (Call.drains false Store.empty first 3
        ∷ Call.finishes lease
        ∷ Call.drains false Store.empty first 4
        ∷ [])

abbrev after : List (Call ℕ String) → Tables ℕ String
after cs = run digests fingerprint same_text same_text (empty "s" false) cs

drain_waits :
    lookup "r1" (after (moved ++ (Call.drains false Store.empty first 3 ∷ []))).receipts ≡ none
unfolding run register is_retired require_available lookup insert erase bootstrap bootstrap_in
    backend save advance_pool admit admit_in snapshot insert_admission admission_payload apply
    apply_in retire_drained drain_in retirement_blocked is_routed is_held fence_and_prove
    has_admission finish_admission finish_in
drain_waits = refl

abbrev receipt : WarmDrainReceipt ℕ
receipt = record {
  store_identity = "s";
  revision_id = "r1";
  revision_digest = "i1";
  observed_at = 4;
}

run-IsSound_from_empty_example : IsSound digests (after drained)
run-IsSound_from_empty_example =
    run-IsSound_from_empty digests fingerprint same_text same_text "s" false drained

drains : lookup "r1" (after drained).receipts ≡ some receipt
unfolding run register is_retired require_available lookup insert erase bootstrap bootstrap_in
    backend save advance_pool admit admit_in snapshot insert_admission admission_payload apply
    apply_in retire_drained drain_in retirement_blocked is_routed is_held fence_and_prove
    has_admission finish_admission finish_in
drains = refl

run-Extends_example : Extends (after drained) (
    run digests fingerprint same_text same_text
      (after drained)
      (Call.bootstraps "e" "r2" 5 ∷ Call.admits "e" "b" ∷ []))
run-Extends_example =
    run-Extends digests fingerprint same_text same_text (after drained)
      (Call.bootstraps "e" "r2" 5 ∷ Call.admits "e" "b" ∷ [])
      (run-IsSound_from_empty digests fingerprint same_text same_text "s" false drained)

run-IsDrained_example : IsDrained "r1" receipt (
    run digests fingerprint same_text same_text
      (after drained)
      (Call.bootstraps "e" "r1" 5 ∷ Call.admits "d" "b" ∷ []))
run-IsDrained_example =
    run-IsDrained digests fingerprint same_text same_text (after drained)
      (Call.bootstraps "e" "r1" 5 ∷ Call.admits "d" "b" ∷ []) "r1" receipt
      (run-IsSound_from_empty digests fingerprint same_text same_text "s" false drained) drains

-- The route that the cutover makes.
abbrev target : Bool → RouteSnapshot ℕ
target capacity = record {
  deployment_id = "d";
  revision_id = "r2";
  revision_digest = "i2";
  generation = 1;
  changed_at = 2;
  admission_protocol = true;
  capacity_protocol = capacity;
}

abbrev cut : Tables ℕ String
cut = (apply digests fingerprint cutover 2 (after begun)).1

cuts : apply digests fingerprint cutover 2 (after begun) ≡ (ok (target false), cut)
unfolding run register is_retired require_available lookup insert bootstrap bootstrap_in backend
    save advance_pool snapshot apply apply_in
cuts = refl

still_free :
    is_retired "r2" (run digests fingerprint same_text same_text cut (Call.admits "d" "b" ∷ []))
    ≡ false
unfolding run register is_retired require_available lookup insert bootstrap bootstrap_in backend
    save advance_pool snapshot apply apply_in admit admit_in insert_admission admission_payload
still_free = refl

run-apply_again_example :
    apply digests fingerprint cutover 9
      (run digests fingerprint same_text same_text cut (Call.admits "d" "b" ∷ []))
    ≡ (
      ok (target false),
      run digests fingerprint same_text same_text cut (Call.admits "d" "b" ∷ []),
    )
run-apply_again_example =
    run-apply_again digests fingerprint same_text same_text cutover 2 9 (after begun) cut
      (target false) (Call.admits "d" "b" ∷ [])
      (run-IsSound_from_empty digests fingerprint same_text same_text "s" false begun) cuts
      still_free

-- The same store with the capacity protocol.
abbrev pool : Tables ℕ String
pool =
    run digests fingerprint same_text same_text (empty "s" true)
      (begun ++ (Call.applies cutover 2 ∷ []))

abbrev chosen : AdmissionLease ℕ String
chosen = record lease {
  snapshot = target true;
  backend = second;
  backend_started = 0;
  backend_closed = 0;
  kind = some Kind.serving;
  anchor = some (target true);
  pool_generation = some 2;
}

abbrev placed : Tables ℕ String
placed = (select_admission digests same_text (target true) "q" none "a" pool).1

places : select_admission digests same_text (target true) "q" none "a" pool ≡ (ok chosen, placed)
unfolding run register is_retired require_available lookup insert bootstrap bootstrap_in backend
    save advance_pool snapshot apply apply_in insert_admission admission_payload select_admission
    select_in place candidates plan_of loads admissions_of least
places = refl

select_admission-GoesTo_example :
    (kind : Kind) × (kind_of same_text (target true) "q" none pool ≡ ok kind)
    × GoesTo
        (candidates (target true) kind pool)
        (limit_of (target true) (plan_of (target true) pool))
        pool
        "r2"
select_admission-GoesTo_example =
    select_admission-GoesTo digests same_text (target true) "q" none "a" pool placed chosen places

abbrev health : String → String → HealthObservation
health id digest = record {
  revision_id = id;
  revision_digest = digest;
  ready = true;
  smoke_passed = true;
}

abbrev decision : PromotionDecision ℕ
decision = record {
  candidate_revision = "r2";
  candidate_digest = "i2";
  policy_version = "v";
  evidence_digest = some "x";
  rejection_reasons = [];
  quality_parity = none;
  candidate_accuracy = none;
}

-- The control store before the cutover.
abbrev control : Store.Store ℕ
control =
    (Deployments.bootstrap digests "d" "r1" (health "r1" "i1")
      (register_revision (revision "r2" "i2")
        (register_revision (revision "r1" "i1") Store.empty).1).1).1

abbrev served : DeploymentState
served = record {
  deployment_id = "d";
  active_revision = "r2";
  known_good_revision = "r1";
  generation = 1;
  rollback_id = none;
}

abbrev acknowledged : Store.Store ℕ
acknowledged =
    (acknowledge_candidate digests fingerprint false cutover decision (health "r2" "i2") cut
      control).1

acknowledges :
    acknowledge_candidate digests fingerprint false cutover decision (health "r2" "i2") cut control
    ≡ (ok served, acknowledged)
unfolding run register is_retired require_available lookup insert bootstrap bootstrap_in backend
    save advance_pool snapshot apply apply_in acknowledge_candidate verified_action
    Deployments.bootstrap register_revision activate_candidate activate record_decision
    activation_key verifies approved
acknowledges = refl

acknowledge_candidate-Agrees_example : Agrees digests cutover cut acknowledged served
acknowledge_candidate-Agrees_example =
    acknowledge_candidate-Agrees digests fingerprint false cutover decision (health "r2" "i2") cut
      control acknowledged served acknowledges
