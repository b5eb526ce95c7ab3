-- ===== src/Reliability/Rollback/Resumption.antt =====
-- What a resumed rollback does to the store and to the deployment, whatever others do meanwhile.
use fin_serve.Prelude.{
  ℕ, ◌≡◌, ◌≢◌, refl, String, Bool, false, not, ◌||◌, Option, List, [], ◌==◌, arith, Bool-cases, inl,
  inr, ◌+◌, ==_iff,
}
use fin_serve.Prelude.Float.{Float}
use fin_serve.Prelude.Result.{Result, ok, err}
use fin_serve.Reliability.Contracts.{
  Revision, HealthObservation, RollbackStatus, status_eq, RollbackRecord, Digests, verifies,
}
use fin_serve.Reliability.Rollback.Store.{Store, Error, load_record, Outcome}
use fin_serve.Reliability.Rollback.Preservation.{Sound}
use fin_serve.Reliability.Rollback.Soundness.{Call, step, run, step-Sound, run-Sound}
use fin_serve.Reliability.Rollback.Controller.{
  ApplyRequest, Raised, Attempt, World, update_at, conclude, acknowledge, after_apply, with_intent,
  reconcile, run_with, run_attempt, raise_again, record_failure, caught, resume_claimed,
  resume_known, resume,
}

module _ (F : Float) (digests : Digests F.Carrier) (w : World F digests) where
  open F use {Carrier}

  -- With an adapter that is not idempotent, an attempt of a rollback that is past `detected` sends
  -- no request to apply.
  pub run_attempt_once :
      (operation : RollbackRecord Carrier) (s : Store Carrier)
      → w.supports_idempotency ≡ false
      → operation.status ≢ RollbackStatus.detected
      → (run_attempt F digests w operation s).applied ≡ []
  unfolding run_attempt
  run_attempt_once operation s weak old = once (load_record s.revisions operation.target_revision)
    where
      judged :
          (target : Revision) (health : Result Raised HealthObservation) (t : Store Carrier)
          → (reconcile F digests w operation target health t).applied ≡ []
      judged target (err x) t = refl
      judged target (ok health) t = ground arith

      once :
          (target : Result Error Revision) → (run_with F digests w operation target s).applied ≡ []
      once (err e) = refl
      once (ok target) = ground (
        arith,
        ==_iff operation.status RollbackStatus.detected,
        judged target w.first_health (run F digests s (w.others 0)),
      )

  update_at-Sound :
      (n : ℕ) (id : String) (status : RollbackStatus) (error : Option String) (start_attempt : Bool)
      (health : Option HealthObservation) (s : Store Carrier)
      → Sound s
      → Sound (update_at F digests w n id status error start_attempt health s).1
  unfolding step
  update_at-Sound n id status error start_attempt health s v =
      step-Sound F digests s
        (Call.updates id w.owner status error start_attempt health (w.clock n) (w.clock (n + 1))) v

  conclude-Sound :
      (operation : RollbackRecord Carrier) (target : Revision) (applied : List ApplyRequest)
      (health : Result Raised HealthObservation) (s : Store Carrier)
      → Sound s
      → Sound (conclude F digests w operation target applied health s).store
  conclude-Sound operation target applied (err x) s v = v
  conclude-Sound operation target applied (ok health) s v = update_at-Sound 7 _ _ _ _ _ s v

  acknowledge-Sound :
      (operation : RollbackRecord Carrier) (target : Revision) (applied : List ApplyRequest)
      (o : Outcome Carrier (RollbackRecord Carrier))
      → Sound o.1
      → Sound (acknowledge F digests w operation target applied o).store
  acknowledge-Sound operation target applied (err e, s) v = v
  acknowledge-Sound operation target applied (ok r, s) v =
      conclude-Sound operation target applied w.last_health _ (run-Sound F digests s (w.others 2) v)

  after_apply-Sound :
      (operation : RollbackRecord Carrier) (target : Revision) (applied : List ApplyRequest)
      (done : Result Raised (Unit {0})) (s : Store Carrier)
      → Sound s
      → Sound (after_apply F digests w operation target applied done s).store
  after_apply-Sound operation target applied (err x) s v = v
  after_apply-Sound operation target applied (ok u) s v =
      acknowledge-Sound operation target applied _ (update_at-Sound 5 _ _ _ _ _ s v)

  with_intent-Sound :
      (target : Revision) (o : Outcome Carrier (RollbackRecord Carrier))
      → Sound o.1
      → Sound (with_intent F digests w target o).store
  with_intent-Sound target (err e, s) v = v
  with_intent-Sound target (ok operation, s) v =
      after_apply-Sound operation target _ w.applies _ (run-Sound F digests s (w.others 1) v)

  reconcile-Sound :
      (operation : RollbackRecord Carrier) (target : Revision)
      (health : Result Raised HealthObservation) (s : Store Carrier)
      → Sound s
      → Sound (reconcile F digests w operation target health s).store
  reconcile-Sound operation target (err x) s v = v
  reconcile-Sound operation target (ok health) s v =
      elim (Bool-cases (verifies digests health target)) [
        | inl healthy ↦ rw healthy (update_at-Sound 1 _ _ _ _ _ s v)
        | inr unhealthy ↦
            elim (Bool-cases
              (operation.status == RollbackStatus.verifying || not w.supports_idempotency)) [
                | inl waits ↦ rw (unhealthy, waits) (update_at-Sound 1 _ _ _ _ _ s v)
                | inr again ↦
                    rw (unhealthy, again)
                      (with_intent-Sound target _ (update_at-Sound 3 _ _ _ _ _ s v))
              ]
      ]

  run_with-Sound :
      (operation : RollbackRecord Carrier) (target : Result Error Revision) (s : Store Carrier)
      → Sound s
      → Sound (run_with F digests w operation target s).store
  run_with-Sound operation (err e) s v = v
  run_with-Sound operation (ok target) s v =
      elim (Bool-cases (operation.status == RollbackStatus.detected)) [
        | inl first ↦ rw first (with_intent-Sound target _ (update_at-Sound 3 _ _ _ _ _ s v))
        | inr later ↦ rw later (
            reconcile-Sound operation target w.first_health _
              (run-Sound F digests s (w.others 0) v))
      ]

  raise_again-Sound :
      (x : Raised) (applied : List ApplyRequest) (o : Outcome Carrier (RollbackRecord Carrier))
      → Sound o.1
      → Sound (raise_again F digests w x applied o).store
  raise_again-Sound (Raised.exception name) applied o v = v
  raise_again-Sound Raised.cancellation applied (ok r, s) v = v
  raise_again-Sound Raised.cancellation applied (err e, s) v = v

  record_failure-Sound :
      (id : String) (x : Raised) (applied : List ApplyRequest)
      (current : Result Error (RollbackRecord Carrier)) (s : Store Carrier)
      → Sound s
      → Sound (record_failure F digests w id x applied current s).store
  record_failure-Sound id x applied (err e) s v = v
  record_failure-Sound id x applied (ok current) s v =
      raise_again-Sound x applied _ (update_at-Sound 9 _ _ _ _ _ s v)

  caught-Sound :
      (id : String) (a : Attempt Carrier) → Sound a.store → Sound (caught F digests w id a).store
  caught-Sound id a v = by_result a.result refl
    where
      by_result :
          (r : Result Raised (RollbackRecord Carrier))
          → a.result ≡ r
          → Sound (caught F digests w id a).store
      by_result (ok r) e = rw e v
      by_result (err x) e =
          rw e (record_failure-Sound id x a.applied (load_record a.store.rollbacks id) a.store v)

  resume_claimed-Sound :
      (id : String) (o : Outcome Carrier (RollbackRecord Carrier))
      → Sound o.1
      → Sound (resume_claimed F digests w id o).store
  unfolding run_attempt step
  resume_claimed-Sound id (err e, s) v = v
  resume_claimed-Sound id (ok operation, s) v =
      step-Sound F digests _ (Call.releases id w.owner)
        (caught-Sound id (run_attempt F digests w operation s) (run_with-Sound operation _ s v))

  resume_known-Sound :
      (id : String) (known : Result Error (RollbackRecord Carrier)) (s : Store Carrier)
      → Sound s
      → Sound (resume_known F digests w id known s).store
  unfolding step
  resume_known-Sound id (err e) s v = v
  resume_known-Sound id (ok operation) s v =
      elim (Bool-cases (operation.status == RollbackStatus.restored)) [
        | inl over ↦ rw over v
        | inr open_yet ↦ rw open_yet (
            resume_claimed-Sound id _
              (step-Sound F digests s (Call.claims id w.owner w.lease_seconds (w.clock 0)) v))
      ]

  -- Resuming a rollback leaves a sound store sound, however the adapter answers, whichever step
  -- raises or is cancelled, and whatever calls others make at each await.
  pub resume-Sound :
      (id : String) (s : Store Carrier) → Sound s → Sound (resume F digests w id s).store
  unfolding resume
  resume-Sound id s v = resume_known-Sound id (load_record s.rollbacks id) s v
