-- ===== src/Reliability/Rollback/Leases.antt =====
-- The leases of `DeploymentStore`, over any calls of others: `claim` and `release`.
use fin_serve.Prelude.{
  ℕ, ◌≡◌, ◌≢◌, ap, ◌∙◌, String, Bool, true, Option, some, List, [], ◌∷◌, arith, ◌==◌, ==_iff,
  string_eq, Bool-cases, Option-cases, inl, inr,
}
use fin_serve.Prelude.Float.{Float}
use fin_serve.Prelude.Result.{Result-cases, ok, err}
use fin_serve.Prelude.Dict.{lookup, lookup-insert, lookup-insert_self}
use fin_serve.Reliability.Contracts.{
  RollbackStatus, RollbackRecord, RegressionSignal, PromotionDecision, Digests, HealthObservation,
}
use fin_serve.Reliability.Rollback.Store.{Store, Error, LeaseRow}
use fin_serve.Reliability.Rollback.Deployments.{
  register_revision, record_decision, bootstrap, activate_candidate, activate, mark_stable,
  stabilize,
}
use fin_serve.Reliability.Rollback.Operations.{
  detect, claim, release, cleared, fence, update, update_in,
}
use fin_serve.Reliability.Rollback.Update.{update-Updated}
use fin_serve.Reliability.Rollback.Soundness.{Call, step, run, transaction_cases}

module _ (F : Float) (digests : Digests F.Carrier) where
  open F use {Carrier, lt, add}

  -- A call that neither gives up the lease of `owner` on the operation `id` nor comes, with a
  -- claim of it, when it has run out.
  abbrev pub Respects : String → String → Carrier → Call F digests → Type 0
  Respects id owner until (Call.claims at other seconds now) = at ≡ id → lt now until ≡ true
  Respects id owner until (Call.releases at other) = at ≡ id → other ≢ owner
  Respects id owner until _ = Unit

  abbrev pub AllRespect : String → String → Carrier → List (Call F digests) → Type 0
  AllRespect id owner until [] = Unit
  AllRespect id owner until (c ∷ cs) = Respects id owner until c × AllRespect id owner until cs

  abbrev pub lease_of : String → Carrier → LeaseRow Carrier
  lease_of owner until = record { owner = some owner; expires = until }

  -- Every call but `claim` and `release` leaves the leases.
  bootstrap-leases :
      (d revision_id : String) (health : HealthObservation) (s : Store Carrier)
      → (bootstrap digests d revision_id health s).1.leases ≡ s.leases
  unfolding bootstrap
  bootstrap-leases d revision_id health s = ground arith

  activate-leases :
      (d : String) (n : ℕ) (decision : PromotionDecision Carrier) (health : HealthObservation)
      (s : Store Carrier)
      → (activate_candidate digests d n decision health s).1.leases ≡ s.leases
  unfolding activate_candidate activate record_decision
  activate-leases d n decision health s = ground arith

  mark_stable-leases :
      (d : String) (n : ℕ) (decision : PromotionDecision Carrier) (health : HealthObservation)
      (evidence : String) (now : Carrier) (s : Store Carrier)
      → (mark_stable digests d n decision health evidence now s).1.leases ≡ s.leases
  unfolding mark_stable stabilize record_decision
  mark_stable-leases d n decision health evidence now s = ground arith

  detect-leases :
      (signal : RegressionSignal Carrier) (now later : Carrier) (s : Store Carrier)
      → (detect F digests signal now later s).1.leases ≡ s.leases
  unfolding detect
  detect-leases signal now later s = ground arith

  update-leases :
      (at owner : String) (status : RollbackStatus) (error : Option String) (start_attempt : Bool)
      (health : Option HealthObservation) (now later : Carrier) (s : Store Carrier)
      → (update F digests at owner status error start_attempt health now later s).1.leases
        ≡ s.leases
  unfolding update
  update-leases at owner status error start_attempt health now later s =
      elim (transaction_cases s
        (update_in F digests at owner status error start_attempt health now later s)) [
          | inl same ↦ ap (λ x. x.leases) same
          | inr (new, e) ↦
              let u =
                update-Updated F digests at owner status error start_attempt health now later s new
                  _ e in
              ap (λ x. x.leases) u.written
        ]

  -- While the lease runs, a claim is refused.
  claim-refused :
      (id owner other : String) (until seconds now : Carrier) (s : Store Carrier)
      → lookup id s.leases ≡ some (lease_of owner until)
      → lt now until ≡ true
      → (e : Error) × (claim F digests id other seconds now s ≡ (err e, s))
  unfolding claim fence
  claim-refused id owner other until seconds now s held runs =
      elim (Result-cases (claim F digests id other seconds now s).0) [
        | inl (r, k) ↦ absurd (ground arith)
        | inr (e, k) ↦ (e, ground arith)
      ]

  claim-keeps :
      (id at owner other : String) (until seconds now : Carrier) (s : Store Carrier)
      → lookup id s.leases ≡ some (lease_of owner until)
      → (at ≡ id → lt now until ≡ true)
      → lookup id (claim F digests at other seconds now s).1.leases ≡ some (lease_of owner until)
  unfolding claim
  claim-keeps id at owner other until seconds now s held early = elim (Bool-cases (id == at)) [
    | inl here ↦ ground (arith, early, ==_iff id at)
    | inr away ↦ ground (
      arith,
      lookup-insert at id (record { owner = some other; expires = add now seconds }) s.leases,
    )
  ]

  release-keeps :
      (id at owner other : String) (until : Carrier) (s : Store Carrier)
      → lookup id s.leases ≡ some (lease_of owner until)
      → (at ≡ id → other ≢ owner)
      → lookup id (release F digests at other s).leases ≡ some (lease_of owner until)
  unfolding release
  release-keeps id at owner other until s held differs = elim (Option-cases (lookup at s.leases)) [
    | inl missing ↦ ground arith
    | inr (row, e) ↦ elim (Bool-cases (id == at)) [
      | inl here ↦ ground (
        arith,
        ==_iff id at,
        ==_iff owner other,
        lookup-insert_self at (lease_of owner until) s.leases,
      )
      | inr away ↦ ground (arith, lookup-insert at id (cleared F digests other row) s.leases)
    ]
  ]

  step-keeps :
      (id owner : String) (until : Carrier) (s : Store Carrier) (c : Call F digests)
      → lookup id s.leases ≡ some (lease_of owner until)
      → Respects id owner until c
      → lookup id (step F digests s c).leases ≡ some (lease_of owner until)
  unfolding step register_revision record_decision
  step-keeps id owner until s (Call.registers revision) held polite = ground arith
  step-keeps id owner until s (Call.records decision) held polite = held
  step-keeps id owner until s (Call.bootstraps d revision health) held polite =
      ap (λ t. lookup id t) (bootstrap-leases d revision health s) ∙ held
  step-keeps id owner until s (Call.activates d n decision health) held polite =
      ap (λ t. lookup id t) (activate-leases d n decision health s) ∙ held
  step-keeps id owner until s (Call.stabilizes d n decision health evidence now) held polite =
      ap (λ t. lookup id t) (mark_stable-leases d n decision health evidence now s) ∙ held
  step-keeps id owner until s (Call.detects signal now later) held polite =
      ap (λ t. lookup id t) (detect-leases signal now later s) ∙ held
  step-keeps id owner until s (Call.claims at other seconds now) held polite =
      claim-keeps id at owner other until seconds now s held polite
  step-keeps id owner until s (Call.updates at o status error start_attempt health now later) held
        polite =
      ap (λ t. lookup id t) (update-leases at o status error start_attempt health now later s)
      ∙ held
  step-keeps id owner until s (Call.releases at other) held polite =
      release-keeps id at owner other until s held polite

  run-keeps :
      (id owner : String) (until : Carrier) (s : Store Carrier) (cs : List (Call F digests))
      → lookup id s.leases ≡ some (lease_of owner until)
      → AllRespect id owner until cs
      → lookup id (run F digests s cs).leases ≡ some (lease_of owner until)
  unfolding run
  run-keeps id owner until s [] held polite = held
  run-keeps id owner until s (c ∷ cs) held (one, rest) =
      run-keeps id owner until (step F digests s c) cs (step-keeps id owner until s c held one) rest

  claim-leases :
      (id owner : String) (seconds now : Carrier) (s s' : Store Carrier)
      (r : RollbackRecord Carrier)
      → claim F digests id owner seconds now s ≡ (ok r, s')
      → lookup id s'.leases ≡ some (lease_of owner (add now seconds))
  unfolding claim
  claim-leases id owner seconds now s s' r h =
      ground (arith, lookup-insert_self id (lease_of owner (add now seconds)) s.leases)

  -- Once a worker has claimed an operation, after any calls in which that worker does not release
  -- it and each claim of it comes before the expiry, other workers' releases included, the lease
  -- is the one that was given, and every claim before it runs out is refused and leaves the store
  -- as it was.
  pub claim_excludes :
      (id owner other : String) (seconds now more later : Carrier) (s s' : Store Carrier)
      (r : RollbackRecord Carrier) (cs : List (Call F digests))
      → claim F digests id owner seconds now s ≡ (ok r, s')
      → AllRespect id owner (add now seconds) cs
      → lt later (add now seconds) ≡ true
      → let t = run F digests s' cs in
        (lookup id t.leases ≡ some (lease_of owner (add now seconds)))
        × (e : Error) × (claim F digests id other more later t ≡ (err e, t))
  claim_excludes id owner other seconds now more later s s' r cs h polite running =
      let held =
        run-keeps id owner (add now seconds) s' cs (claim-leases id owner seconds now s s' r h)
          polite in
      let (e, refused) =
        claim-refused id owner other (add now seconds) more later (run F digests s' cs) held
          running in
      (held, e, refused)
