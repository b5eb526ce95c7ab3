-- ===== src/Reliability/Rollback/Detection.antt =====
-- `DeploymentStore.detect`: what holds of every detection that was committed.
use fin_serve.Prelude.{
  ◌≡◌, ◌≢◌, ◌⊎◌, Bool, ◌||◌, none, some, arith, inl, inr, string_eq, nat_eq, option_eq, Bool-cases,
  Option-cases, ◌==◌, ◌!=◌, ==_iff, is_some,
}
use fin_serve.Prelude.Float.{Float}
use fin_serve.Prelude.Dict.{lookup, insert}
use fin_serve.Reliability.Contracts.{
  Revision, DeploymentState, RegressionSignal, Digests, is_record, status_eq,
}
use fin_serve.Reliability.Rollback.Store.{Store, probation_key_eq}
use fin_serve.Reliability.Rollback.Operations.{detect, received}

module _ (F : Float) (digests : Digests F.Carrier) where
  open F use {Carrier, lt}

  abbrev detect_refused : RegressionSignal Carrier → DeploymentState → Bool
  detect_refused signal state =
      state.active_revision != signal.observed_revision
      || state.generation != signal.observed_generation
      || is_some state.rollback_id
      || state.active_revision == state.known_good_revision

  -- What a detection that was committed has found, where the signal was new.
  pub record Detected (signal : RegressionSignal Carrier) (now : Carrier) (s s' : Store Carrier)
      : Type 0 where
    pub state : DeploymentState
    pub target : Revision
    pub fresh : lookup signal.signal_id s.rollbacks ≡ none
    pub found : lookup signal.deployment_id s.deployments ≡ some state
    pub free : state.rollback_id ≡ none
    pub generation : state.generation ≡ signal.observed_generation
    pub active_revision : state.active_revision ≡ signal.observed_revision
    pub distinct : state.active_revision ≢ state.known_good_revision
    pub known_good : lookup state.known_good_revision s.revisions ≡ some target
    pub saved :
        s'.rollbacks ≡ insert signal.signal_id (received F digests signal target now) s.rollbacks
    pub frozen :
        s'.deployments
        ≡ insert state.deployment_id
            (record state { rollback_id = some signal.signal_id })
            s.deployments

  pub detect_cases :
      (signal : RegressionSignal Carrier) (now later : Carrier) (s : Store Carrier)
      → let s' = (detect F digests signal now later s).1 in (s' ≡ s) ⊎ Detected signal now s s'
  unfolding detect
  detect_cases signal now later s = elim (Option-cases (lookup signal.signal_id s.rollbacks)) [
    | inr (existing, e) ↦ inl (ground arith)
    | inl fresh ↦ elim (Option-cases (lookup signal.deployment_id s.deployments)) [
      | inl missing ↦ inl (ground arith)
      | inr (state, e) ↦ elim (Option-cases (lookup state.known_good_revision s.revisions)) [
        | inl missing ↦ inl (ground arith)
        | inr (target, t) ↦ elim (Bool-cases (detect_refused signal state)) [
          | inl refused ↦ inl (ground arith)
          | inr passed ↦ elim (Bool-cases (is_record F (received F digests signal target now))) [
            | inr bad ↦ inl (ground arith)
            | inl good ↦ inr (record {
              state = state;
              target = target;
              fresh = fresh;
              found = e;
              free = ground arith;
              generation = ground (arith, ==_iff state.generation signal.observed_generation);
              active_revision =
                  ground (arith, ==_iff state.active_revision signal.observed_revision);
              distinct = ground (arith, ==_iff state.active_revision state.known_good_revision);
              known_good = t;
              saved = ground arith;
              frozen = ground arith;
            })
          ]
        ]
      ]
    ]
  ]
