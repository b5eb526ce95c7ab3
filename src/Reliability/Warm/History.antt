-- ===== src/Reliability/Warm/History.antt =====
-- Sequences of calls of the route store, and what holds after all of them.
use fin_serve.Prelude.{ℕ, String, Bool, Option, List, [], ◌∷◌, Eq, string_eq}
use fin_serve.Reliability.Contracts.{Digests}
use fin_serve.Reliability.Rollback.Store.{Store}
use fin_serve.Reliability.Rollback.Controller.{ApplyRequest}
use fin_serve.Reliability.Warm.Contracts.{WarmBackend, RouteSnapshot, AdmissionLease}
use fin_serve.Reliability.Warm.Store.{Tables, remove_members, empty}
use fin_serve.Reliability.Warm.Backends.{
  register, release_retired_endpoint, admit, mark_dispatched, finish_admission,
}
use fin_serve.Reliability.Warm.Retirement.{retire_drained, retire_unserved}
use fin_serve.Reliability.Warm.Routes.{bootstrap, apply}
use fin_serve.Reliability.Warm.Baseline.{require_stable_baseline}
use fin_serve.Reliability.Warm.Dispatch.{probe_token, revoke_probe, select_admission}
use fin_serve.Reliability.Warm.Steps.{Steps}
use fin_serve.Reliability.Warm.Invariant.{IsSound, empty-IsSound}
use fin_serve.Reliability.Warm.Preservation.{Steps-IsSound}
use fin_serve.Reliability.Warm.Moves.{register-Steps, release-Steps, bootstrap-Steps, apply-Steps}
use fin_serve.Reliability.Warm.Fences.{retire_drained-Steps, retire_unserved-Steps}
use fin_serve.Reliability.Warm.Streams.{admit-Steps, mark-Steps, finish-Steps, require_stable-Steps}
use fin_serve.Reliability.Warm.Selection.{probe-Steps, revoke-Steps, remove-Steps, select-Steps}

-- The calls that write, with what the clock, `uuid4` and the control store give.
pub data Call (T P : Type 0) : Type 0 where
  registers : WarmBackend P → Call T P
  releases : WarmBackend P → Call T P
  bootstraps : String → String → T → Call T P
  applies : ApplyRequest → T → Call T P
  admits : String → String → Call T P
  dispatches finishes : AdmissionLease T P → Call T P
  borrows : Bool → Store T → String → WarmBackend P → ℕ → Bool → String → Call T P
  drains : Bool → Store T → WarmBackend P → T → Call T P
  retires : Bool → Store T → WarmBackend P → Call T P
  mints : RouteSnapshot T → String → String → Call T P
  revokes : String → Call T P
  selects : RouteSnapshot T → String → Option String → String → Call T P
  removes : String → String → Call T P

module _ {T P : Type 0} (digests : Digests T) (fingerprint_of : ApplyRequest → String)
    (sha256 retired_url : String → String) ⦃t : Eq T⦄ ⦃p : Eq P⦄ where
  unfoldable pub step : Tables T P → Call T P → Tables T P
  step s (registers b) = (register b s).1
  step s (releases b) = (release_retired_endpoint digests retired_url b s).1
  step s (bootstraps d id now) = (bootstrap digests d id now s).1
  step s (applies request now) = (apply digests fingerprint_of request now s).1
  step s (admits d id) = (admit digests d id s).1
  step s (dispatches lease) = (mark_dispatched lease s).1
  step s (finishes lease) = (finish_admission lease s).1
  step s (borrows same_file control d b g reserve id) =
      (require_stable_baseline digests same_file control d b g reserve id s).1
  step s (drains same_file control b now) = (retire_drained digests same_file control b now s).1
  step s (retires same_file control b) = (retire_unserved digests same_file control b s).1
  step s (mints route request token) = (probe_token sha256 route request token s).1
  step s (revokes token) = revoke_probe sha256 token s
  step s (selects expected request token id) =
      (select_admission digests sha256 expected request token id s).1
  step s (removes plan_id d) = remove_members plan_id d s

  unfoldable pub run : Tables T P → List (Call T P) → Tables T P
  unfolding step
  run s [] = s
  run s (c ∷ cs) = run (step s c) cs

  pub step-Steps : (s : Tables T P) (c : Call T P) → IsSound digests s → Steps digests s (step s c)
  unfolding step
  step-Steps s (registers b) v = register-Steps digests b s
  step-Steps s (releases b) v = release-Steps digests retired_url b s v
  step-Steps s (bootstraps d id now) v = bootstrap-Steps digests d id now s v
  step-Steps s (applies request now) v = apply-Steps digests fingerprint_of request now s v
  step-Steps s (admits d id) v = admit-Steps digests d id s
  step-Steps s (dispatches lease) v = mark-Steps digests lease s
  step-Steps s (finishes lease) v = finish-Steps digests lease s
  step-Steps s (borrows same_file control d b g reserve id) v =
      require_stable-Steps digests same_file control d b g reserve id s
  step-Steps s (drains same_file control b now) v =
      retire_drained-Steps digests same_file control b now s
  step-Steps s (retires same_file control b) v = retire_unserved-Steps digests same_file control b s
  step-Steps s (mints route request token) v = probe-Steps digests sha256 route request token s
  step-Steps s (revokes token) v = revoke-Steps digests sha256 token s
  step-Steps s (selects expected request token id) v =
      select-Steps digests sha256 expected request token id s
  step-Steps s (removes plan_id d) v = remove-Steps digests plan_id d s

  pub run-IsSound :
      (s : Tables T P) (cs : List (Call T P)) → IsSound digests s → IsSound digests (run s cs)
  unfolding run
  run-IsSound s [] v = v
  run-IsSound s (c ∷ cs) v =
      run-IsSound (step s c) cs (Steps-IsSound digests s (step s c) (step-Steps s c v) v)

  -- After any calls of a new route store no route names a retired revision, the backend of every
  -- route is registered and has the digest that the route names, every backend is registered under
  -- its own revision, the events of each deployment count up from 0 and the last one is its route,
  -- the answer of every action is an event, a revision with a drain receipt is retired and has no
  -- admission, and there are at most 4096 admissions.
  pub run-IsSound_from_empty :
      (identity : String) (capacity_enabled : Bool) (cs : List (Call T P))
      → IsSound digests (run (empty identity capacity_enabled) cs)
  run-IsSound_from_empty identity capacity_enabled cs =
      run-IsSound (empty identity capacity_enabled) cs
        (empty-IsSound digests identity capacity_enabled)
