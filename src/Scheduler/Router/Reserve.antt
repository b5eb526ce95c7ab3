-- ===== src/Scheduler/Router/Reserve.antt =====
-- `ReplicaRouter.reserve`: what a granted lease means, and what a refusal means.
use fin_serve.Prelude.{
  ◌≡◌, ◌≢◌, ◌≤◌, refl, sym, ap, inl, inr, ◌⊎◌, true, false, not, ◌||◌, Option, List, [], ◌∷◌, arith,
  In, In-keep, Bool-cases, any, keep, keep-empty, any-In, any-false,
}
use mathlib.Core.Path.{subst, subst₂}
use fin_serve.Prelude.Float.{Float}
use fin_serve.Prelude.Result.{Result, ok, err, ◌>>=◌}
use fin_serve.Scheduler.Contracts.{RoutingRequest, RoutingDecision}
use fin_serve.Scheduler.Policy.{
  RoutingPolicy, Candidate, RouterError, load, is_eligible, score_candidate, decision_of,
}
use fin_serve.Scheduler.Eligibility.{Fits, is_eligible-Fits}
use fin_serve.Scheduler.Router.{
  Router, RoutingLease, choose, pick, score_all, least_load, eligible_if_idle, reserve, grant,
  next_lease, candidates_of, eligible_of, get_or, settle, Outcome,
}
use fin_serve.Scheduler.Router.Selection.{IsBest, choose-IsBest}

module _ (F : Float) where
  open F use {Carrier, zero, lt, is_finite}

  -- The least load of the eligible candidates, which `reserve` hands to the scores.
  abbrev pub minimum_of : List (Candidate Carrier) → Carrier
  minimum_of [] = zero
  minimum_of (c ∷ cs) = least_load F (load F c) cs

  -- What the router promises of a lease that `reserve` gave out at time `now`.
  pub record Granted (request : RoutingRequest) (now : Carrier) (r : Router Carrier)
      (lease : RoutingLease Carrier) (r' : Router Carrier) : Type 0 where
    pub best :
        IsBest F request r.policy
          (minimum_of (eligible_of F request now r))
          now
          (eligible_of F request now r)
          lease.decision
    pub fits : Fits F best.chosen request r.policy now
    pub named : lease ≡ next_lease F r lease.decision
    pub after : r' ≡ grant F r lease.decision

  chosen-Granted :
      (request : RoutingRequest) (now : Carrier) (r : Router Carrier)
      (cs : List (Candidate Carrier)) (d : RoutingDecision Carrier)
      → eligible_of F request now r ≡ cs
      → choose F request r.policy now (candidates_of F r) cs ≡ ok d
      → Granted request now r (next_lease F r d) (grant F r d)
  unfolding choose eligible_of next_lease
  chosen-Granted request now r [] d e h = ground arith
  chosen-Granted request now r (c ∷ cs) d e h =
      let b = choose-IsBest F request r.policy now (candidates_of F r) c cs d h in
      let best : IsBest F request r.policy (minimum_of (eligible_of F request now r)) now
          (eligible_of F request now r) d =
        subst (λ l. IsBest F request r.policy (minimum_of l) now l d) (sym e) b in
      record {
        best = best;
        fits =
            is_eligible-Fits F best.chosen request r.policy now
              (In-keep (λ k. is_eligible F k request r.policy now) best.chosen (candidates_of F r)
                best.among).0;
        named = refl;
        after = refl;
      }

  -- A call that returned has chosen, and has kept what it chose.
  reserve-choice :
      (request : RoutingRequest) (now : Option Carrier) (monotonic : Carrier)
      (r r' : Router Carrier) (lease : RoutingLease Carrier)
      → let t = get_or now monotonic in
        reserve F request now monotonic r ≡ (ok lease, r')
        → (choose F request r.policy t (candidates_of F r) (eligible_of F request t r)
            ≡ ok lease.decision)
          × (next_lease F r lease.decision ≡ lease)
          × (grant F r lease.decision ≡ r')
  unfolding reserve next_lease
  reserve-choice request now monotonic r r' lease h =
      settled (choose F request r.policy t (candidates_of F r) (eligible_of F request t r))
        (ground arith)
    where
      t : Carrier
      t = get_or now monotonic

      settled :
          (c : Result RouterError (RoutingDecision Carrier))
          → ◌≡◌ {A = Outcome Carrier (RoutingLease Carrier)} (settle F r c) (ok lease, r')
          → (c ≡ ok lease.decision)
            × (next_lease F r lease.decision ≡ lease)
            × (grant F r lease.decision ≡ r')
      settled (ok d) k =
          let named : next_lease F r d ≡ lease = ground arith in
          let after : grant F r d ≡ r' = ap (λ p. p.1) k in
          let same : d ≡ lease.decision = ap (λ l. l.decision) named in
          (
            ap ok same,
            subst (λ x. next_lease F r x ≡ lease) same named,
            subst (λ x. grant F r x ≡ r') same after,
          )
      settled (err e) k = ground arith

  -- A lease that `reserve` gives out is for the candidate with the least score among the eligible
  -- ones, which is eligible, and the router afterwards is the one with that lease granted.
  pub reserve-Granted :
      (request : RoutingRequest) (now : Option Carrier) (monotonic : Carrier)
      (r r' : Router Carrier) (lease : RoutingLease Carrier)
      → reserve F request now monotonic r ≡ (ok lease, r')
      → Granted request (get_or now monotonic) r lease r'
  reserve-Granted request now monotonic r r' lease h =
      let (chosen, named, after) = reserve-choice request now monotonic r r' lease h in
      subst₂ (Granted request (get_or now monotonic) r) named after
        (chosen-Granted request (get_or now monotonic) r _ lease.decision refl chosen)

  scored-names :
      (c : Candidate Carrier) (request : RoutingRequest) (policy : RoutingPolicy Carrier)
      (m now : Carrier) (d : RoutingDecision Carrier)
      → score_candidate F c request policy m now ≡ ok d
      → (c.snapshot.replica_id ≡ d.replica_id)
        × (c.effective_requests ≡ d.effective_requests)
        × (c.snapshot.capacity ≡ d.capacity)
  unfolding score_candidate decision_of
  scored-names c request policy m now d h = (ground arith, ground arith, ground arith)

  -- A lease that `reserve` gives out names one of the router's replicas, with its work and
  -- capacity, that is healthy, serves the model of the request, has room for one more request and
  -- the hardware that the request asks for; its snapshot and its engine observation, if any, were
  -- made neither after `now` nor longer ago than the policy allows; and on a GPU the memory used
  -- is known and below the limit of the policy, and the time of its observation, if known, is
  -- within the same bounds.
  pub reserve-Fits :
      (request : RoutingRequest) (now : Option Carrier) (monotonic : Carrier)
      (r r' : Router Carrier) (lease : RoutingLease Carrier)
      → reserve F request now monotonic r ≡ (ok lease, r')
      → (c : Candidate Carrier) × In c (candidates_of F r)
        × Fits F c request r.policy (get_or now monotonic)
        × (c.snapshot.replica_id ≡ lease.decision.replica_id)
        × (c.effective_requests ≡ lease.decision.effective_requests)
        × (c.snapshot.capacity ≡ lease.decision.capacity)
  unfolding eligible_of
  reserve-Fits request now monotonic r r' lease h =
      let g = reserve-Granted request now monotonic r r' lease h in
      let (id, work, room) =
        scored-names g.best.chosen request r.policy _ _ lease.decision g.best.scored in
      (
        g.best.chosen,
        (In-keep (λ k. is_eligible F k request r.policy (get_or now monotonic)) g.best.chosen
            (candidates_of F r) g.best.among).1,
        g.fits,
        id,
        work,
        room,
      )

  -- A refused call leaves the router as it was.
  pub reserve-refused :
      (request : RoutingRequest) (now : Option Carrier) (monotonic : Carrier)
      (r r' : Router Carrier) (e : RouterError)
      → reserve F request now monotonic r ≡ (err e, r')
      → r' ≡ r
  unfolding reserve
  reserve-refused request now monotonic r r' e h = ground arith

  -- A candidate that is eligible when idle but not now has no room left.
  not_eligible-full :
      (request : RoutingRequest) (policy : RoutingPolicy Carrier) (now : Carrier)
      (c : Candidate Carrier)
      → eligible_if_idle F request policy now c ≡ true
      → is_eligible F c request policy now ≡ false
      → c.snapshot.capacity ≤ c.effective_requests
  unfolding eligible_if_idle is_eligible
  not_eligible-full request policy now c h k = ground arith

  score_all-error :
      (request : RoutingRequest) (policy : RoutingPolicy Carrier) (m now : Carrier)
      (cs : List (Candidate Carrier)) (e : RouterError)
      → score_all F request policy m now cs ≡ err e
      → e ≡ RouterError.invalid_decision
  unfolding score_all score_candidate
  score_all-error request policy m now [] e h = cc
  score_all-error request policy m now (c ∷ cs) e h =
      ground (arith, score_all-error request policy m now cs e)

  score_all-nonempty :
      (request : RoutingRequest) (policy : RoutingPolicy Carrier) (m now : Carrier)
      (c : Candidate Carrier) (cs : List (Candidate Carrier))
      → score_all F request policy m now (c ∷ cs) ≢ ok []
  unfolding score_all
  score_all-nonempty request policy m now c cs h = ground arith

  -- What each exception of `reserve` says of the replicas.
  abbrev pub Means :
      RoutingRequest
      → RoutingPolicy Carrier
      → Carrier
      → List (Candidate Carrier)
      → RouterError
      → Type 0
  Means request policy now all RouterError.saturated =
      ((c : Candidate Carrier) × In c all × (eligible_if_idle F request policy now c ≡ true))
      × ((c : Candidate Carrier)
          → In c all
          → eligible_if_idle F request policy now c ≡ true
          → c.snapshot.capacity ≤ c.effective_requests)
  Means request policy now all RouterError.no_replica =
      (c : Candidate Carrier) → In c all → eligible_if_idle F request policy now c ≡ false
  Means request policy now all RouterError.invalid_clock =
      (is_finite now ≡ false) ⊎ (lt now zero ≡ true)
  Means request policy now all RouterError.invalid_decision = Unit
  Means request policy now all _ = ⊥

  choose-Means :
      (request : RoutingRequest) (policy : RoutingPolicy Carrier) (now : Carrier)
      (all eligible : List (Candidate Carrier)) (e : RouterError)
      → keep (λ c. is_eligible F c request policy now) all ≡ eligible
      → choose F request policy now all eligible ≡ err e
      → Means request policy now all e
  unfolding choose
  choose-Means request policy now all [] e k h =
      elim (Bool-cases (any (eligible_if_idle F request policy now) all)) [
        | inl some_idle ↦
            let same : RouterError.saturated ≡ e = ground arith in
            subst (Means request policy now all) same (
              any-In _ all some_idle,
              λ c m i.
                  not_eligible-full request policy now c i
                    (keep-empty (λ c. is_eligible F c request policy now) all c m k),
            )
        | inr none_idle ↦
            let same : RouterError.no_replica ≡ e = ground arith in
            subst (Means request policy now all) same
              (λ c m. any-false (eligible_if_idle F request policy now) all c m none_idle)
      ]
  choose-Means request policy now all (c ∷ cs) e k h =
      scored (score_all F request policy m now (c ∷ cs)) refl h
    where
      m : Carrier
      m = least_load F (load F c) cs

      scored :
          (ds : Result RouterError (List (RoutingDecision Carrier)))
          → score_all F request policy m now (c ∷ cs) ≡ ds
          → (ds >>= pick F) ≡ err e
          → Means request policy now all e
      scored (ok []) s p = absurd (score_all-nonempty request policy m now c cs s)
      scored (ok (d ∷ ds)) s p = cc
      scored (err x) s p =
          let same : RouterError.invalid_decision ≡ e =
            ground (arith, score_all-error request policy m now (c ∷ cs) x s) in
          subst (Means request policy now all) same tt

  -- A refused reservation leaves the router as it was, and the error tells why: saturated means
  -- that some replica would be eligible without work and none is, no replica means that none would
  -- be.
  pub reserve-Means :
      (request : RoutingRequest) (now : Option Carrier) (monotonic : Carrier)
      (r r' : Router Carrier) (e : RouterError)
      → reserve F request now monotonic r ≡ (err e, r')
      → Means request r.policy (get_or now monotonic) (candidates_of F r) e × (r' ≡ r)
  unfolding reserve eligible_of
  reserve-Means request now monotonic r r' e h = (
    elim (Bool-cases (not (is_finite t) || lt t zero)) [
      | inl bad ↦
          let same : RouterError.invalid_clock ≡ e = ground arith in
          subst (Means request r.policy t (candidates_of F r)) same (bad_clock bad)
      | inr good ↦
          choose-Means request r.policy t (candidates_of F r) (eligible_of F request t r) e refl
            (ground arith)
    ],
    reserve-refused request now monotonic r r' e h,
  )
    where
      t : Carrier
      t = get_or now monotonic

      bad_clock :
          ((not (is_finite t) || lt t zero) ≡ true) → (is_finite t ≡ false) ⊎ (lt t zero ≡ true)
      bad_clock b = ground arith
