-- ===== src/Reliability/Rollback/Update.antt =====
-- `DeploymentStore.update`: what holds of every update that was committed.
use mathlib.Core.Path.{subst}
use fin_serve.Prelude.{
  ◌≡◌, refl, ap, sym, ◌≢◌, ◌⊎◌, Bool-cases, ◌==◌, String, Bool, true, false, Option, none, some,
  arith, ==_iff, string_eq, option_eq, nat_eq, Option-cases, inl, inr,
}
use fin_serve.Prelude.Float.{Float}
use fin_serve.Prelude.Result.{Result, ok, err}
use fin_serve.Prelude.Dict.{Dict, lookup}
use fin_serve.Reliability.Contracts.{
  Revision, HealthObservation, verifies, DeploymentState, RollbackStatus, status_eq, RollbackRecord,
  Digests, is_record,
}
use fin_serve.Reliability.Rollback.Store.{Error, LeaseRow, Store, save_record, or_missing}
use fin_serve.Reliability.Rollback.Operations.{
  validate_transition, fence, add_event, holds_lease, changed, settle, settle_restored,
  restored_state, update_in, update,
}

pub or_missing-ok : {A : Type 0} (o : Option A) (a : A) → or_missing o ≡ ok a → o ≡ some a
or_missing-ok none a h = cc
or_missing-ok (some b) a h = ground arith

-- The operation still owns its deployment.
pub record Owns {T : Type 0} (operation : RollbackRecord T) (s : Store T) (state : DeploymentState)
    : Type 0 where
  pub found : lookup operation.signal.deployment_id s.deployments ≡ some state
  pub rollback_id : state.rollback_id ≡ some operation.operation_id
  pub generation : state.generation ≡ operation.signal.observed_generation
  pub active_revision : state.active_revision ≡ operation.signal.observed_revision

pub fence-Owns :
    {T : Type 0} (operation : RollbackRecord T) (s : Store T) (state : DeploymentState)
    → fence operation s ≡ ok state
    → Owns operation s state
unfolding fence
fence-Owns operation s state h = ground (
  arith,
  ==_iff state.rollback_id (some operation.operation_id),
  ==_iff state.generation operation.signal.observed_generation,
  ==_iff state.active_revision operation.signal.observed_revision,
)

module _ (F : Float) (digests : Digests F.Carrier) where
  open F use {Carrier, le}

  -- The worker `owner` has the operation's lease, and it has not run out at `now`.
  pub record Leased (id owner : String) (now : Carrier) (s : Store Carrier) : Type 0 where
    pub row : LeaseRow Carrier
    pub found : lookup id s.leases ≡ some row
    pub owned : row.owner ≡ some owner
    pub runs : le row.expires now ≡ false

  holds_lease-Leased :
      (id owner : String) (now : Carrier) (s : Store Carrier)
      → holds_lease F digests owner now (lookup id s.leases) ≡ true
      → Leased id owner now s
  holds_lease-Leased id owner now s h = elim (Option-cases (lookup id s.leases)) [
    | inl none_there ↦ ground arith
    | inr (row, e) ↦ record {
      row = row;
      found = e;
      owned = ground (arith, ==_iff row.owner (some owner));
      runs = ground arith;
    }
  ]

  -- What an update at `now` that was committed has found, and what it has written.
  pub record Updated (id owner : String) (status : RollbackStatus) (error : Option String)
      (start_attempt : Bool) (health : Option HealthObservation) (now later : Carrier)
      (s : Store Carrier) (r : RollbackRecord Carrier) (s' : Store Carrier) : Type 0 where
    pub operation : RollbackRecord Carrier
    pub found : lookup id s.rollbacks ≡ some operation
    pub transition : validate_transition operation.status status start_attempt ≡ ok tt
    pub state : DeploymentState
    pub fenced : fence operation s ≡ ok state
    pub leased : holds_lease F digests owner now (lookup id s.leases) ≡ true
    pub deployments : Dict String DeploymentState
    pub settled : settle F digests operation state status health s ≡ ok deployments
    pub changes : r ≡ changed F digests operation status error start_attempt now
    pub valid : is_record F r ≡ true
    pub written : s' ≡ record s {
      deployments = deployments;
      rollbacks = save_record s.rollbacks id r;
      events = add_event r later s.events;
    }

  pub update-Updated :
      (id owner : String) (status : RollbackStatus) (error : Option String) (start_attempt : Bool)
      (health : Option HealthObservation) (now later : Carrier) (s : Store Carrier)
      (r : RollbackRecord Carrier) (s' : Store Carrier)
      → update F digests id owner status error start_attempt health now later s ≡ (ok r, s')
      → Updated id owner status error start_attempt health now later s r s'
  unfolding update update_in
  update-Updated id owner status error start_attempt health now later s r s' h =
      elim (Option-cases (lookup id s.rollbacks)) [
        | inl none_there ↦ ground arith
        | inr (operation, e) ↦ fenced operation e (fence operation s) refl
      ]
    where
      fenced :
          (operation : RollbackRecord Carrier)
          → lookup id s.rollbacks ≡ some operation
          → (f : Result Error DeploymentState) → fence operation s ≡ f
          → Updated id owner status error start_attempt health now later s r s'
      fenced operation e (err x) k = ground arith
      fenced operation e (ok state) k =
          settled (settle F digests operation state status health s) refl
        where
          settled :
              (d : Result Error (Dict String DeploymentState))
              → settle F digests operation state status health s ≡ d
              → Updated id owner status error start_attempt health now later s r s'
          settled (err x) l = ground arith
          settled (ok deployments) l = record {
            operation = operation;
            found = e;
            transition = ground arith;
            state = state;
            fenced = k;
            leased = ground arith;
            deployments = deployments;
            settled = l;
            changes = ground arith;
            valid = ground arith;
            written = ground arith;
          }

  -- What a restoration that was committed rests on, and what it makes of the deployment.
  pub record Restored (operation : RollbackRecord Carrier) (state : DeploymentState)
      (health : Option HealthObservation) (s : Store Carrier)
      (deployments : Dict String DeploymentState) : Type 0 where
    pub target : Revision
    pub observation : HealthObservation
    pub known : lookup operation.target_revision s.revisions ≡ some target
    pub observed : health ≡ some observation
    pub verified : verifies digests observation target ≡ true
    pub exact : digests.revision target ≡ operation.target_digest
    pub wrote :
        deployments
        ≡ save_record s.deployments state.deployment_id (restored_state F digests state target)

  settle_restored-Restored :
      (operation : RollbackRecord Carrier) (state : DeploymentState)
      (health : Option HealthObservation) (s : Store Carrier)
      (deployments : Dict String DeploymentState)
      → settle_restored F digests operation state health s ≡ ok deployments
      → Restored operation state health s deployments
  unfolding settle_restored
  settle_restored-Restored operation state none s deployments h = ground arith
  settle_restored-Restored operation state (some observation) s deployments h =
      elim (Option-cases (lookup operation.target_revision s.revisions)) [
        | inl missing ↦ ground arith
        | inr (target, e) ↦ record {
          target = target;
          observation = observation;
          known = e;
          observed = refl;
          verified = ground arith;
          exact = ground (arith, ==_iff (digests.revision target) operation.target_digest);
          wrote = ground arith;
        }
      ]

  -- A committed update to `restored` had an operation that owns its deployment, the lease of the
  -- caller that still ran, and exact health of the known-good revision; it puts the deployment on
  -- that revision under the next generation with no rollback in progress, and records the time.
  pub update-Restored :
      (id owner : String) (error : Option String) (start_attempt : Bool)
      (health : Option HealthObservation) (now later : Carrier) (s : Store Carrier)
      (r : RollbackRecord Carrier) (s' : Store Carrier)
      → update F digests id owner RollbackStatus.restored error start_attempt health now later s
        ≡ (ok r, s')
      → (operation : RollbackRecord Carrier) × (state : DeploymentState) × (lookup id s.rollbacks
          ≡ some operation)
        × Owns operation s state
        × Leased id owner now s
        × Restored operation state health s s'.deployments
        × (r.restored_at ≡ some now)
  unfolding settle changed
  update-Restored id owner error start_attempt health now later s r s' h =
      let u =
        update-Updated id owner RollbackStatus.restored error start_attempt health now later s r s'
          h in
      (
        u.operation,
        u.state,
        u.found,
        fence-Owns u.operation s u.state u.fenced,
        holds_lease-Leased id owner now s u.leased,
        subst (Restored u.operation u.state health s) (sym (ap (λ x. x.deployments) u.written))
            (settle_restored-Restored u.operation u.state health s u.deployments u.settled),
        ap (λ x. x.restored_at) u.changes,
      )

  pub settle-Restored :
      (operation : RollbackRecord Carrier) (state : DeploymentState) (status : RollbackStatus)
      (health : Option HealthObservation) (s : Store Carrier)
      (deployments : Dict String DeploymentState)
      → settle F digests operation state status health s ≡ ok deployments
      → ((status ≡ RollbackStatus.restored) × Restored operation state health s deployments)
        ⊎ ((status ≢ RollbackStatus.restored) × (s.deployments ≡ deployments))
  unfolding settle
  settle-Restored operation state status health s deployments h =
      elim (Bool-cases (status == RollbackStatus.restored)) [
        | inl done ↦ inl (
          (==_iff status RollbackStatus.restored).0 done,
          settle_restored-Restored operation state health s deployments (ground arith),
        )
        | inr open_ ↦ inr (ground (arith, ==_iff status RollbackStatus.restored), ground arith)
      ]
