-- ===== src/Reliability/Warm/Fences.antt =====
-- What a retirement does to the route store, as elementary steps.
use fin_serve.Prelude.{
  ◌≡◌, refl, ap, ◌∙◌, Bool, true, false, not, Option, none, some, arith, Eq, ◌==◌, ◌!=◌, string_eq,
  inl, inr, any, Bool-cases,
}
use fin_serve.Prelude.Result.{ok, ok_of_bind}
use fin_serve.Prelude.Dict.{lookup, lookup-insert_self}
use fin_serve.Reliability.Contracts.{Digests}
use fin_serve.Reliability.Rollback.Store.{Store}
use fin_serve.Reliability.Warm.Contracts.{WarmBackend, backend_eq}
use fin_serve.Reliability.Warm.Store.{BackendRow, Tables, is_retired}
use fin_serve.Reliability.Warm.Backends.{row_of}
use fin_serve.Reliability.Warm.Retirement.{
  digest_of, is_routed, was_routed, has_admission, retired, receipt_of, fence_and_prove,
  drain_known, must_stay, drain_in, retire_drained, reserve_endpoint, retire_new, may_serve,
  retire_in, retire_unserved,
}
use fin_serve.Reliability.Warm.Steps.{Step, Steps}
use fin_serve.Reliability.Warm.Moves.{one_step, transaction-Steps}

module _ {T P : Type 0} (digests : Digests T) ⦃t : Eq T⦄ ⦃p : Eq P⦄ where
  -- After `INSERT OR IGNORE` the key stands.
  now_retired :
      (b : WarmBackend P) (s : Tables T P)
      → is_retired b.revision.revision_id (retired digests b s) ≡ true
  unfolding is_retired
  now_retired b s =
      ground (arith, lookup-insert_self b.revision.revision_id (digest_of digests b) s.retirements)

  fence-Steps :
      (b : WarmBackend P) (now : T) (s : Tables T P)
      → is_routed b.revision.revision_id s ≡ false
      → (a : Bool) (s' : Tables T P) → fence_and_prove digests b now s ≡ ok (a, s')
      → Steps digests s s'
  unfolding fence_and_prove
  fence-Steps b now s free a s' h =
      elim (Bool-cases (has_admission b.revision.revision_id (retired digests b s))) [
        | inl busy ↦
            one_step digests
              (Step.retired b.revision.revision_id (digest_of digests b) (inl free) (ground arith))
        | inr quiet ↦
            Steps.next
              (one_step digests
                (Step.retired b.revision.revision_id (digest_of digests b) (inl free) refl))
              (Step.proved b.revision.revision_id (receipt_of digests b now s) (now_retired b s)
                quiet (ground arith))
      ]

  drain_known-Steps :
      (b : WarmBackend P) (now : T) (s : Tables T P) (o : Option (BackendRow P))
      → is_routed b.revision.revision_id s ≡ false
      → (a : Bool) (s' : Tables T P) → drain_known digests b now s o ≡ ok (a, s')
      → Steps digests s s'
  drain_known-Steps b now s none free a s' h = absurd (cc)
  drain_known-Steps b now s (some row) free a s' h = elim (Bool-cases (row.payload != b)) [
    | inl other ↦ absurd (ground arith)
    | inr same ↦ elim (Bool-cases (any (λ e. not e.admission_protocol) s.events)) [
      | inl legacy ↦ Steps.here (ground arith)
      | inr durable ↦ fence-Steps b now s free a s' (ground arith)
    ]
  ]

  drain-Steps :
      (same_file : Bool) (control : Store T) (b : WarmBackend P) (now : T) (s : Tables T P)
      (a : Bool) (s' : Tables T P)
      → drain_in digests same_file control b now s ≡ ok (a, s')
      → Steps digests s s'
  unfolding drain_in
  drain-Steps same_file control b now s a s' h =
      elim (Bool-cases (must_stay digests control b.revision.revision_id s)) [
        | inl stays ↦ Steps.here (ground arith)
        | inr free ↦
            drain_known-Steps b now s (lookup b.revision.revision_id s.backends) (ground arith) a s'
              (ground arith)
      ]

  pub retire_drained-Steps :
      (same_file : Bool) (control : Store T) (b : WarmBackend P) (now : T) (s : Tables T P)
      → Steps digests s (retire_drained digests same_file control b now s).1
  unfolding retire_drained
  retire_drained-Steps same_file control b now s =
      transaction-Steps digests s (drain_in digests same_file control b now s)
        (drain-Steps same_file control b now s)

  reserve-Steps :
      (b : WarmBackend P) (s s' : Tables T P) (o : Option (BackendRow P))
      → lookup b.revision.revision_id s.backends ≡ o
      → reserve_endpoint digests b s o ≡ ok s'
      → Steps digests s s' × (s'.events ≡ s.events)
  reserve-Steps b s s' (some row) found h = (Steps.here (ground arith), ground arith)
  reserve-Steps b s s' none missing h = (
    one_step digests
        (Step.backed b.revision.revision_id (row_of b) refl (rw missing tt) (ground arith)),
    ground arith,
  )

  retire_new-Steps :
      (b : WarmBackend P) (s : Tables T P)
      → was_routed b.revision.revision_id s ≡ false
      → (a : Bool) (s' : Tables T P) → retire_new digests b s ≡ ok (a, s')
      → Steps digests s s'
  unfolding was_routed
  retire_new-Steps b s free a s' h =
      let (m, reserved, rest) = ok_of_bind _ _ (a, s') h in
      let (before, same) =
        reserve-Steps b s m (lookup b.revision.revision_id s.backends) refl reserved in
      Steps.next before (
        Step.retired b.revision.revision_id (digest_of digests b)
          (inr (ap (any (λ e. e.revision_id == b.revision.revision_id)) same ∙ free))
          (ground arith))

  retire-Steps :
      (same_file : Bool) (control : Store T) (b : WarmBackend P) (s : Tables T P) (a : Bool)
      (s' : Tables T P)
      → retire_in digests same_file control b s ≡ ok (a, s')
      → Steps digests s s'
  unfolding retire_in
  retire-Steps same_file control b s a s' h =
      elim (Bool-cases (may_serve digests control b.revision.revision_id s)) [
        | inl serving ↦ Steps.here (ground arith)
        | inr free ↦ retire_new-Steps b s (ground arith) a s' (ground arith)
      ]

  pub retire_unserved-Steps :
      (same_file : Bool) (control : Store T) (b : WarmBackend P) (s : Tables T P)
      → Steps digests s (retire_unserved digests same_file control b s).1
  unfolding retire_unserved
  retire_unserved-Steps same_file control b s =
      transaction-Steps digests s (retire_in digests same_file control b s)
        (retire-Steps same_file control b s)
