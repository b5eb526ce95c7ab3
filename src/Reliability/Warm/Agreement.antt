-- ===== src/Reliability/Warm/Agreement.antt =====
-- An acknowledgment makes the control store name the route that serves the traffic.
use mathlib.Core.Path.{subst}
use fin_serve.Prelude.{
  ℕ, suc, ◌≡◌, refl, sym, ap, ◌∙◌, String, Bool, false, not, ◌||◌, Option, none, some, arith, Eq,
  ◌!=◌, ==_iff, string_eq, nat_eq, option_eq, Bool-cases, inl, inr,
}
use fin_serve.Prelude.Result.{Result, ok, err, raise_if, ok_of_bind, not_raised}
use fin_serve.Prelude.Dict.{lookup, lookup-insert_self}
use fin_serve.Reliability.Contracts.{
  Revision, HealthObservation, DeploymentState, PromotionDecision, Digests, verifies, approved,
}
use fin_serve.Reliability.Rollback.Store.{
  Store, Error, Outcome, transaction, load_record, or_missing, ActivationReceipt,
}
use fin_serve.Reliability.Rollback.Deployments.{
  activate_candidate, activate, activate_fresh, activated, activation_key, record_decision,
}
use fin_serve.Reliability.Rollback.Controller.{ApplyRequest}
use fin_serve.Reliability.Warm.Contracts.{RouteSnapshot, snapshot_eq}
use fin_serve.Reliability.Warm.Store.{Tables, snapshot}
use fin_serve.Reliability.Warm.Routes.{
  acknowledge_candidate, before_control, then_control, names_route, verified_action, action_of,
  action_differs, evidence_differs,
}

then_control_ok :
    {T B C : Type 0} (o : Outcome T B) (f : B → Store T → Outcome T C) (x : C) (c' : Store T)
    → then_control o f ≡ (ok x, c')
    → (b : B) × (o.0 ≡ ok b) × (f b o.1 ≡ (ok x, c'))
then_control_ok (ok b, c) f x c' h = (b, refl, h)
then_control_ok (err e, c) f x c' h = absurd (cc)

before_control_ok :
    {T A B : Type 0} (c : Store T) (check : Result Error A) (f : A → Outcome T B) (x : B)
    (c' : Store T)
    → before_control c check f ≡ (ok x, c')
    → (a : A) × (check ≡ ok a) × (f a ≡ (ok x, c'))
before_control_ok c (ok a) f x c' h = (a, refl, h)
before_control_ok c (err e) f x c' h = absurd (cc)

transaction_of :
    {T A : Type 0} (c : Store T) (m : Result Error (A × Store T)) (a : A)
    → (transaction c m).0 ≡ ok a
    → (c' : Store T) × (m ≡ ok (a, c')) × ((transaction c m).1 ≡ c')
transaction_of c (ok (b, m)) a h = (m, cc, refl)
transaction_of c (err e) a h = absurd (cc)

-- The guard of `acknowledge_candidate`'s end.
named : (g h' : ℕ) (a b : String) (e : (g != h' || a != b) ≡ false) → (g ≡ h') × (a ≡ b)
named g h' a b e = (ground arith, ground (arith, ==_iff a b))

names_route_ok :
    {T : Type 0} (route : RouteSnapshot T) (updated x : DeploymentState) (c c' : Store T)
    → names_route route updated c ≡ (ok x, c')
    → (x ≡ updated)
      × (c' ≡ c)
      × (x.generation ≡ route.generation)
      × (x.active_revision ≡ route.revision_id)
names_route_ok route updated x c c' h =
    elim (Bool-cases
      (updated.generation != route.generation || updated.active_revision != route.revision_id)) [
        | inl differs ↦ absurd (ground arith)
        | inr same ↦
            let parts =
              named updated.generation route.generation updated.active_revision route.revision_id
                same in
            let is : x ≡ updated = ground arith in
            (
              is,
              ground arith,
              ap (λ u. u.generation) is ∙ parts.0,
              ap (λ u. u.active_revision) is ∙ parts.1,
            )
      ]

loaded : {A : Type 0} (o : Option A) (a : A) → or_missing o ≡ ok a → o ≡ some a
loaded none a h = absurd (cc)
loaded (some b) a h = cc

target_of :
    (a b x y : String) (f g : Bool) → (f || g || a != b || x != y) ≡ false → (a ≡ b) × (x ≡ y)
target_of a b x y f g h = (ground (arith, ==_iff a b), ground (arith, ==_iff x y))

next_of : (n m : ℕ) (f g h : Bool) → (n != m || f || g || h) ≡ false → n ≡ m
next_of n m f g h e = ground arith

module _ {T : Type 0} (digests : Digests T) where
  -- What `activate_candidate` returns is the deployment that the control store then has.
  activate_fresh-found :
      (d : String) (expected : ℕ) (decision : PromotionDecision T) (revision : Revision)
      (state updated : DeploymentState) (c c' : Store T) (o : Option ActivationReceipt)
      → lookup d c.deployments ≡ some state
      → activate_fresh digests d expected decision revision state c o ≡ ok (updated, c')
      → lookup d c'.deployments ≡ some updated
  activate_fresh-found d expected decision revision state updated c c' (some receipt) found h =
      ground arith
  activate_fresh-found d expected decision revision state updated c c' none found h =
      ground (arith, lookup-insert_self d (activated digests d revision state) c.deployments)

  activate_candidate-found :
      (d : String) (expected : ℕ) (decision : PromotionDecision T) (health : HealthObservation)
      (c : Store T) (updated : DeploymentState)
      → (activate_candidate digests d expected decision health c).0 ≡ ok updated
      → lookup d (activate_candidate digests d expected decision health c).1.deployments
        ≡ some updated
  unfolding activate_candidate activate record_decision
  activate_candidate-found d expected decision health c updated h =
      let recorded = (record_decision digests decision c).1 in
      let (c', body, end) =
        transaction_of recorded (activate digests d expected decision health recorded) updated h in
      let (state, found, h1) =
        ok_of_bind (load_record recorded.deployments d) _ (updated, c') body in
      let (revision, known, h2) =
        ok_of_bind (load_record recorded.revisions decision.candidate_revision) _ (updated, c')
          h1 in
      let (u, fits, h3) =
        ok_of_bind
          (raise_if
            (not (approved decision)
              || decision.candidate_digest != digests.revision revision
              || not (verifies digests health revision))
            Error.invalid)
          _ (updated, c') h2 in
      ap (λ x. lookup d x.deployments) end
      ∙ activate_fresh-found d expected decision revision state updated recorded c'
          (lookup (activation_key digests d expected decision) recorded.activations)
          (loaded (lookup d recorded.deployments) state found) h3

  -- Both stores name one revision and one generation for the deployment.
  pub record Agrees {P : Type 0} (request : ApplyRequest) (s : Tables T P) (c : Store T)
      (updated : DeploymentState) : Type 0 where
    pub route : RouteSnapshot T
    pub routed : lookup request.deployment_id s.routes ≡ some route
    pub target : route.revision_id ≡ request.target.revision_id
    pub digest : route.revision_digest ≡ digests.revision request.target
    pub next : route.generation ≡ suc request.expected_generation
    pub controlled : lookup request.deployment_id c.deployments ≡ some updated
    pub same_revision : updated.active_revision ≡ route.revision_id
    pub same_generation : updated.generation ≡ route.generation

module _ {T P : Type 0} (digests : Digests T) ⦃t : Eq T⦄ ⦃p : Eq P⦄
    (fingerprint_of : ApplyRequest → String) where
  -- The route is the target's, one generation on.
  abbrev Verified : ApplyRequest → Tables T P → RouteSnapshot T → Type 0
  Verified request s route =
      (lookup request.deployment_id s.routes ≡ some route)
      × ((route.revision_id ≡ request.target.revision_id)
          × (route.revision_digest ≡ digests.revision request.target))
      × (route.generation ≡ suc request.expected_generation)

  verified_action-Verified :
      (request : ApplyRequest) (decision : PromotionDecision T) (health : HealthObservation)
      (s : Tables T P) (route : RouteSnapshot T)
      → verified_action digests fingerprint_of request decision health s ≡ ok route
      → Verified request s route
  unfolding verified_action snapshot
  verified_action-Verified request decision health s route h =
      let (r, stood, h1) = ok_of_bind (snapshot request.deployment_id s) _ route h in
      let (action, found, h2) =
        ok_of_bind (action_of digests fingerprint_of request s) _ route h1 in
      let (same, h3) =
        not_raised (action_differs digests fingerprint_of request r action) Error.conflict _ route
          h2 in
      let (verified, h4) =
        not_raised (evidence_differs digests request r decision health) Error.conflict _ route h3 in
      let is : r ≡ route = ground arith in
      subst (Verified request s) is (
        loaded (lookup request.deployment_id s.routes) r stood,
        target_of r.revision_id request.target.revision_id r.revision_digest
            (digests.revision request.target) (action.fingerprint != fingerprint_of request)
            (action.payload != r) same,
        next_of r.generation (suc request.expected_generation)
            (decision.candidate_revision != request.target.revision_id)
            (decision.candidate_digest != digests.revision request.target)
            (not (verifies digests health request.target)) verified,
      )

  -- When `acknowledge_candidate` returns a deployment, the route that serves it is the one of the
  -- request's target, one generation after the expected one, and the control store then has the
  -- deployment returned, whose revision and generation are those of the route.
  pub acknowledge_candidate-Agrees :
      (same_file : Bool) (request : ApplyRequest) (decision : PromotionDecision T)
      (health : HealthObservation) (s : Tables T P) (c c' : Store T) (updated : DeploymentState)
      → acknowledge_candidate digests fingerprint_of same_file request decision health s c
        ≡ (ok updated, c')
      → Agrees digests request s c' updated
  unfolding acknowledge_candidate
  acknowledge_candidate-Agrees same_file request decision health s c c' updated h =
      let (route, checked, called) = before_control_ok c _ _ updated c' h in
      let call =
        activate_candidate digests request.deployment_id request.expected_generation decision health
          c in
      let (b, activated, end) = then_control_ok call (names_route route) updated c' called in
      let (is, same, generation, revision) = names_route_ok route b updated call.1 c' end in
      let (u, files, h1) = ok_of_bind (raise_if same_file Error.invalid) _ route checked in
      let (verified, action, h2) =
        ok_of_bind (verified_action digests fingerprint_of request decision health s) _ route h1 in
      let (current, stood, h3) =
        ok_of_bind (load_record c.deployments request.deployment_id) _ route h2 in
      let at : verified ≡ route = ground arith in
      let facts = verified_action-Verified request decision health s verified action in
      record {
        route = route;
        routed = facts.0 ∙ ap (λ x. some x) at;
        target = ap (λ r. r.revision_id) (sym at) ∙ facts.1.0;
        digest = ap (λ r. r.revision_digest) (sym at) ∙ facts.1.1;
        next = ap (λ r. r.generation) (sym at) ∙ facts.2;
        controlled =
            ap (λ x. lookup request.deployment_id x.deployments) same
            ∙ activate_candidate-found digests request.deployment_id request.expected_generation
                decision health c b activated
            ∙ ap (λ x. some x) (sym is);
        same_revision = revision;
        same_generation = generation;
      }
