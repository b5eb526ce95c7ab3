-- ===== src/Reliability/Warm/Repeats.antt =====
-- A cutover that is asked for again, after anything else that happened.
use mathlib.Core.Path.{subst}
use fin_serve.Prelude.{
  ◌≡◌, refl, ap, ◌∙◌, String, Bool, false, ◌||◌, Option, none, some, List, [], ◌∷◌, arith, Eq, ◌==◌,
  ◌!=◌, ==_iff, ==_refl, string_eq,
}
use fin_serve.Prelude.Result.{Result, ok, err, raise_if, ok_of_bind, if_ok}
use fin_serve.Prelude.Dict.{lookup, lookup-insert_self}
use fin_serve.Reliability.Contracts.{Digests, revision_eq}
use fin_serve.Reliability.Rollback.Store.{Error}
use fin_serve.Reliability.Rollback.Controller.{ApplyRequest}
use fin_serve.Reliability.Warm.Contracts.{WarmBackend, RouteSnapshot}
use fin_serve.Reliability.Warm.Store.{
  BackendRow, Action, Tables, transaction, is_retired, require_available, save,
}
use fin_serve.Reliability.Warm.Backends.{backend}
use fin_serve.Reliability.Warm.Routes.{apply, apply_in, apply_known}
use fin_serve.Reliability.Warm.Invariant.{IsSound}
use fin_serve.Reliability.Warm.Moves.{apply_known-Cutover, backend_lem, unraised}
use fin_serve.Reliability.Warm.History.{Call, step, run, run-IsSound}
use fin_serve.Reliability.Warm.Permanence.{Extends, run-Extends}

pub transaction_ok :
    {T P A : Type 0} (s : Tables T P) (m : Result Error (A × Tables T P)) (a : A) (s' : Tables T P)
    → transaction s m ≡ (ok a, s')
    → m ≡ ok (a, s')
transaction_ok s (ok (b, m)) a s' h = cc
transaction_ok s (err e) a s' h = absurd (cc)

fits_lem : (g : Bool) (u : Unit {0}) → raise_if g Error.conflict ≡ ok u → g ≡ false
fits_lem g u h = ground arith

abbrev receipt_of :
    {T : Type 0} → (ApplyRequest → String) → ApplyRequest → RouteSnapshot T → Action T
receipt_of fingerprint_of request a = record { fingerprint = fingerprint_of request; payload = a }

module _ {T P : Type 0} (digests : Digests T) (fingerprint_of : ApplyRequest → String)
    (sha256 retired_url : String → String) ⦃t : Eq T⦄ ⦃p : Eq P⦄ where
  answered :
      (request : ApplyRequest) (b : WarmBackend P) (now : T) (s : Tables T P)
      (o : Option (Action T))
      → lookup request.idempotency_key s.actions ≡ o
      → (a : RouteSnapshot T) (s' : Tables T P)
      → apply_known digests request (fingerprint_of request) b now s o ≡ ok (a, s')
      → lookup request.idempotency_key s'.actions ≡ some (receipt_of fingerprint_of request a)
  answered request b now s (some r) found a s' h =
      let (same, e) = if_ok _ Error.conflict _ (a, s') h in
      ground
        (arith, ==_iff r.fingerprint (fingerprint_of request), ap (λ x. x.0) e, ap (λ x. x.1) e)
  answered request b now s none found a s' h =
      let c = apply_known-Cutover digests request (fingerprint_of request) b now s a s' h in
      ap (λ x. lookup request.idempotency_key x.actions) c.written
      ∙ lookup-insert_self request.idempotency_key (receipt_of fingerprint_of request a)
          (save a s).actions

  -- What a repeated action needs of the store.
  repeat_lem :
      (request : ApplyRequest) (a : RouteSnapshot T) (later : T) (s : Tables T P)
      (row : BackendRow P)
      → is_retired request.target.revision_id s ≡ false
      → lookup request.target.revision_id s.backends ≡ some row
      → (row.payload.revision != request.target || request.idempotency_key == "") ≡ false
      → lookup request.idempotency_key s.actions ≡ some (receipt_of fingerprint_of request a)
      → apply digests fingerprint_of request later s ≡ (ok a, s)
  unfolding apply apply_in backend require_available
  repeat_lem request a later s row free found fits recorded =
      rw (free, found, fits, recorded) (rw (==_refl (fingerprint_of request)))

  -- A cutover that a sound route store has applied, asked for again after any calls that came
  -- between, returns the same snapshot and changes nothing, provided its target is not retired by
  -- then.
  pub run-apply_again :
      (request : ApplyRequest) (now later : T) (s s' : Tables T P) (a : RouteSnapshot T)
      (cs : List (Call T P))
      → IsSound digests s
      → apply digests fingerprint_of request now s ≡ (ok a, s')
      → is_retired request.target.revision_id (run digests fingerprint_of sha256 retired_url s' cs)
        ≡ false
      → apply digests fingerprint_of request later
          (run digests fingerprint_of sha256 retired_url s' cs)
        ≡ (ok a, run digests fingerprint_of sha256 retired_url s' cs)
  unfolding apply apply_in run step
  run-apply_again request now later s s' a cs v h free =
      let body = transaction_ok s (apply_in digests fingerprint_of request now s) a s' h in
      let (row, was_free, found, rest) =
        backend_lem digests request.target.revision_id s _ (a, s') body in
      let (u, fits, h1) =
        ok_of_bind
          (raise_if (row.payload.revision != request.target || request.idempotency_key == "")
            Error.conflict)
          _ (a, s') rest in
      let known = (unraised digests request.target.revision_id s _ (a, s') h1).1 in
      let recorded =
        answered request row.payload now s (lookup request.idempotency_key s.actions) refl a s'
          known in
      let end = run digests fingerprint_of sha256 retired_url s' cs in
      let kept : Extends s end =
        subst (λ x. Extends s (run digests fingerprint_of sha256 retired_url x cs))
          (ap (λ x. x.1) h)
          (run-Extends digests fingerprint_of sha256 retired_url s (Call.applies request now ∷ cs)
            v) in
      let since : Extends s' end = run-Extends digests fingerprint_of sha256 retired_url s' cs (
        subst (IsSound digests) (ap (λ x. x.1) h) (
          run-IsSound digests fingerprint_of sha256 retired_url s (Call.applies request now ∷ [])
            v)) in
      let (row', found', same) = kept.backends request.target.revision_id row found in
      repeat_lem request a later end row' free found'
        (ap (λ x. x.revision != request.target || request.idempotency_key == "") same
          ∙ fits_lem _ u fits)
        (since.actions request.idempotency_key (receipt_of fingerprint_of request a) recorded)
