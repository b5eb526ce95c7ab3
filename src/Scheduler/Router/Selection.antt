-- ===== src/Scheduler/Router/Selection.antt =====
-- Which replica `reserve` chooses.
use fin_serve.Prelude.{
  ◌≡◌, refl, ◌⊎◌, inl, inr, true, false, List, [], ◌∷◌, arith, In, if◌then◌else◌,
}
use fin_serve.Prelude.Float.{Float}
use mathlib.Core.Path.{subst}
use fin_serve.Prelude.Result.{ok, ok_of_bind}
use fin_serve.Scheduler.Contracts.{RoutingRequest, RoutingDecision}
use fin_serve.Scheduler.Policy.{RoutingPolicy, Candidate, load, score_candidate}
use fin_serve.Scheduler.Router.{first_least, precedes, score_all, choose, pick, least_load}

module _ (F : Float) where
  open F use {Carrier, le, lt, is_finite, le_trans, lt→le, not_lt→le}

  pub finite-le_refl : (a : Carrier) → is_finite a ≡ true → le a a ≡ true
  finite-le_refl a f = ground (arith, lt→le a a, not_lt→le a a f f)

  precedes-le : (d e : RoutingDecision Carrier) → precedes F d e ≡ true → le d.score e.score ≡ true
  unfolding precedes
  precedes-le d e h = ground (arith, lt→le d.score e.score)

  not_precedes-le :
      (d e : RoutingDecision Carrier)
      → is_finite d.score ≡ true
      → is_finite e.score ≡ true
      → precedes F d e ≡ false
      → le e.score d.score ≡ true
  unfolding precedes
  not_precedes-le d e fd fe h = ground (arith, not_lt→le d.score e.score fd fe)

  -- Every decision of the list has a finite score.
  abbrev AllFinite : List (RoutingDecision Carrier) → Type 0
  AllFinite [] = Unit
  AllFinite (d ∷ ds) = (is_finite d.score ≡ true) × AllFinite ds

  -- One round of `min`: the better of the two, which is finite and no worse than either.
  better : RoutingDecision Carrier → RoutingDecision Carrier → RoutingDecision Carrier
  better d acc = if precedes F d acc then d else acc

  better_cases :
      (d acc : RoutingDecision Carrier)
      → is_finite d.score ≡ true
      → is_finite acc.score ≡ true
      → ((better d acc ≡ d) ⊎ (better d acc ≡ acc))
        × (is_finite (better d acc).score ≡ true)
        × (le (better d acc).score acc.score ≡ true)
        × (le (better d acc).score d.score ≡ true)
  unfolding better
  better_cases d acc fd fa = ground (
    arith,
    precedes-le d acc,
    not_precedes-le d acc fd fa,
    finite-le_refl d.score fd,
    finite-le_refl acc.score fa,
  )

  pub first_least-In :
      (acc : RoutingDecision Carrier) (ds : List (RoutingDecision Carrier))
      → In (first_least F acc ds) (acc ∷ ds)
  unfolding first_least
  first_least-In acc [] = inl refl
  first_least-In acc (d ∷ ds) =
      ground (arith, first_least-In (if precedes F d acc then d else acc) ds)

  -- The result's score is at most that of every item.
  pub first_least-le :
      (acc : RoutingDecision Carrier) (ds : List (RoutingDecision Carrier))
      → is_finite acc.score ≡ true
      → AllFinite ds
      → (e : RoutingDecision Carrier) → In e (acc ∷ ds)
      → le (first_least F acc ds).score e.score ≡ true
  unfolding first_least better
  first_least-le acc [] f fs e (inl same) = rw same (finite-le_refl acc.score f)
  first_least-le acc [] f fs e (inr m) = absurd m
  first_least-le acc (d ∷ ds) f fs e m =
      let (one, finite, le_a, le_d) = better_cases d acc fs.0 f in
      let ih = first_least-le (better d acc) ds finite fs.1 in
      first_of_three m (le_trans _ _ _ (ih (better d acc) (inl refl)) le_a)
        (le_trans _ _ _ (ih (better d acc) (inl refl)) le_d) (λ k. ih e (inr k))
    where
      first_of_three :
          {x : Carrier}
          → In e (acc ∷ d ∷ ds)
          → le x acc.score ≡ true
          → le x d.score ≡ true
          → (In e ds → le x e.score ≡ true)
          → le x e.score ≡ true
      first_of_three (inl same) a b c = rw same a
      first_of_three (inr (inl same)) a b c = rw same b
      first_of_three (inr (inr k)) a b c = c k

  -- A scored candidate has a finite score, and its decision is the candidate's.
  score_candidate-finite :
      (c : Candidate Carrier) (request : RoutingRequest) (policy : RoutingPolicy Carrier)
      (m now : Carrier) (d : RoutingDecision Carrier)
      → score_candidate F c request policy m now ≡ ok d
      → is_finite d.score ≡ true
  unfolding score_candidate
  score_candidate-finite c request policy m now d h = ground arith

  module _ (request : RoutingRequest) (policy : RoutingPolicy Carrier) (m now : Carrier) where
    -- Scoring keeps the order: each decision comes from a candidate, and each candidate has one.
    data Scored : List (Candidate Carrier) → List (RoutingDecision Carrier) → Type 0 where
      nil : Scored [] []
      cons :
          {c : Candidate Carrier} {cs : List (Candidate Carrier)} {d : RoutingDecision Carrier}
          {ds : List (RoutingDecision Carrier)}
          → score_candidate F c request policy m now ≡ ok d
          → Scored cs ds
          → Scored (c ∷ cs) (d ∷ ds)

    score_all-Scored :
        (cs : List (Candidate Carrier)) (ds : List (RoutingDecision Carrier))
        → score_all F request policy m now cs ≡ ok ds
        → Scored cs ds
    unfolding score_all
    score_all-Scored [] ds h = subst (Scored []) (cc) nil
    score_all-Scored (c ∷ cs) ds h =
        let (d, scored, rest) = ok_of_bind (score_candidate F c request policy m now) _ ds h in
        let (ds', others, same) = ok_of_bind (score_all F request policy m now cs) _ ds rest in
        subst (Scored (c ∷ cs)) (cc) (cons scored (score_all-Scored cs ds' others))

    Scored-AllFinite :
        {cs : List (Candidate Carrier)} {ds : List (RoutingDecision Carrier)}
        → Scored cs ds
        → AllFinite ds
    Scored-AllFinite nil = tt
    Scored-AllFinite (cons {c = c} {d = d} h s) =
        (score_candidate-finite c request policy m now d h, Scored-AllFinite s)

    Scored-source :
        {cs : List (Candidate Carrier)} {ds : List (RoutingDecision Carrier)}
        (e : RoutingDecision Carrier)
        → Scored cs ds
        → In e ds
        → (c : Candidate Carrier) × In c cs × (score_candidate F c request policy m now ≡ ok e)
    Scored-source e nil k = absurd k
    Scored-source e (cons {c = c} h s) (inl same) = (c, inl refl, rw same h)
    Scored-source e (cons h s) (inr k) =
        let (c, there, scored) = Scored-source e s k in (c, inr there, scored)

    Scored-image :
        {cs : List (Candidate Carrier)} {ds : List (RoutingDecision Carrier)}
        (c : Candidate Carrier)
        → Scored cs ds
        → In c cs
        → (e : RoutingDecision Carrier) × In e ds
          × (score_candidate F c request policy m now ≡ ok e)
    Scored-image c nil k = absurd k
    Scored-image c (cons {d = d} h s) (inl same) = (d, inl refl, rw same h)
    Scored-image c (cons h s) (inr k) =
        let (e, there, scored) = Scored-image c s k in (e, inr there, scored)

  -- `d` is the decision of one of the candidates, and no candidate's score is less, where
  -- `minimum_load` is the least load among them.
  pub record IsBest (request : RoutingRequest) (policy : RoutingPolicy Carrier)
      (minimum_load now : Carrier) (cs : List (Candidate Carrier)) (d : RoutingDecision Carrier)
      : Type 0 where
    pub chosen : Candidate Carrier
    pub among : In chosen cs
    pub scored : score_candidate F chosen request policy minimum_load now ≡ ok d
    pub least :
        (c : Candidate Carrier)
        → In c cs
        → (e : RoutingDecision Carrier) × (score_candidate F c request policy minimum_load now
            ≡ ok e)
          × (le d.score e.score ≡ true)

  pick-IsBest :
      (request : RoutingRequest) (policy : RoutingPolicy Carrier) (m now : Carrier)
      (cs : List (Candidate Carrier)) (ds : List (RoutingDecision Carrier))
      (d : RoutingDecision Carrier)
      → Scored request policy m now cs ds
      → pick F ds ≡ ok d
      → IsBest request policy m now cs d
  pick-IsBest request policy m now cs [] d s h = cc
  pick-IsBest request policy m now cs (x ∷ ds) d s h = rw (← same) (best s)
    where
      same : first_least F x ds ≡ d
      same = cc

      best :
          Scored request policy m now cs (x ∷ ds)
          → IsBest request policy m now cs (first_least F x ds)
      best s =
          let finite = Scored-AllFinite request policy m now s in
          let (c, there, scored) =
            Scored-source request policy m now (first_least F x ds) s (first_least-In x ds) in
          record {
            chosen = c;
            among = there;
            scored = scored;
            least = λ c k.
                let (e, here, scored) = Scored-image request policy m now c s k in
                (e, scored, first_least-le x ds finite.0 finite.1 e here);
          }

  -- The choice among candidates of which `c ∷ cs` are eligible.
  pub choose-IsBest :
      (request : RoutingRequest) (policy : RoutingPolicy Carrier) (now : Carrier)
      (all : List (Candidate Carrier)) (c : Candidate Carrier) (cs : List (Candidate Carrier))
      (d : RoutingDecision Carrier)
      → choose F request policy now all (c ∷ cs) ≡ ok d
      → IsBest request policy (least_load F (load F c) cs) now (c ∷ cs) d
  unfolding choose
  choose-IsBest request policy now all c cs d h =
      let m = least_load F (load F c) cs in
      let (ds, scored, picked) = ok_of_bind (score_all F request policy m now (c ∷ cs)) _ d h in
      pick-IsBest request policy m now (c ∷ cs) ds d
        (score_all-Scored request policy m now (c ∷ cs) ds scored) picked
