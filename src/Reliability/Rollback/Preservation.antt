-- ===== src/Reliability/Rollback/Preservation.antt =====
-- Each method of `DeploymentStore` keeps the invariant, whether it returns or raises.
use mathlib.Core.Path.{subst₂}
use fin_serve.Prelude.{
  ℕ, ◌≡◌, ◌⊎◌, refl, sym, String, not, ◌||◌, none, some, arith, inl, inr, string_eq, nat_eq,
  option_eq, Bool-cases, Option-cases, ◌!=◌, is_some,
}
use fin_serve.Prelude.Dict.{lookup, insert}
use fin_serve.Reliability.Contracts.{
  HealthObservation, DeploymentState, PromotionDecision, approved, Digests, verifies, status_eq,
}
use fin_serve.Reliability.Rollback.Store.{Store, probation_key_eq}
use fin_serve.Reliability.Rollback.Deployments.{
  record_decision, bootstrap, activate_candidate, activate, activation_key, mark_stable, stabilize,
  activated, stabilized, seed,
}
use fin_serve.Reliability.Rollback.Invariant.{IsSound}
use fin_serve.Reliability.Rollback.Freezing.{write_free-IsSound}

abbrev pub Sound : {T : Type 0} → Store T → Type 0
Sound s = IsSound s.rollbacks s.deployments

-- A step that left both tables, or wrote an unfrozen state over an unfrozen deployment.
abbrev pub WritesFree : {T : Type 0} → String → Store T → Store T → Type 0
WritesFree d s s' =
    (s'.rollbacks ≡ s.rollbacks)
    × ((s'.deployments ≡ s.deployments)
        ⊎ ((new : DeploymentState) × ((state : DeploymentState)
              → lookup d s.deployments ≡ some state
              → state.rollback_id ≡ none)
            × (new.rollback_id ≡ none)
            × (new.deployment_id ≡ d)
            × (s'.deployments ≡ insert d new s.deployments)))

pub WritesFree-Sound :
    {T : Type 0} (d : String) (s s' : Store T) → WritesFree d s s' → Sound s → Sound s'
WritesFree-Sound d s s' (same, inl kept) v = subst₂ IsSound (sym same) (sym kept) v
WritesFree-Sound d s s' (same, inr (new, free, none_new, named, wrote)) v =
    subst₂ IsSound (sym same) (sym wrote)
      (write_free-IsSound s.rollbacks s.deployments d new v free none_new named)

module _ {T : Type 0} (digests : Digests T) where
  pub bootstrap-WritesFree :
      (d revision_id : String) (health : HealthObservation) (s : Store T)
      → WritesFree d s (bootstrap digests d revision_id health s).1
  unfolding bootstrap
  bootstrap-WritesFree d revision_id health s = (
    ground arith,
    elim (Option-cases (lookup d s.deployments)) [
      | inl fresh ↦ seeded fresh
      | inr (state, e) ↦ inl (ground arith)
    ],
  )
    where
      seeded :
          lookup d s.deployments ≡ none
          → ((bootstrap digests d revision_id health s).1.deployments ≡ s.deployments)
            ⊎ ((new : DeploymentState) × ((state : DeploymentState)
                  → lookup d s.deployments ≡ some state
                  → state.rollback_id ≡ none)
                × (new.rollback_id ≡ none)
                × (new.deployment_id ≡ d)
                × ((bootstrap digests d revision_id health s).1.deployments
                    ≡ insert d new s.deployments))
      seeded fresh = elim (Option-cases (lookup revision_id s.revisions)) [
        | inl missing ↦ inl (ground arith)
        | inr (revision, e) ↦ elim (Bool-cases (verifies digests health revision)) [
          | inl good ↦ inr (seed d revision_id, λ state h. ground arith, refl, refl, ground arith)
          | inr bad ↦ inl (ground arith)
        ]
      ]

  pub activate-WritesFree :
      (d : String) (n : ℕ) (decision : PromotionDecision T) (health : HealthObservation)
      (s : Store T)
      → WritesFree d s (activate_candidate digests d n decision health s).1
  unfolding activate_candidate activate record_decision
  activate-WritesFree d n decision health s = (
    ground arith,
    elim (Option-cases (lookup d s.deployments)) [
      | inl missing ↦ inl (ground arith)
      | inr (state, e) ↦ elim (Option-cases (lookup decision.candidate_revision s.revisions)) [
        | inl missing ↦ inl (ground arith)
        | inr (revision, r) ↦
            elim (Bool-cases (
              not (approved decision)
              || decision.candidate_digest != digests.revision revision
              || not (verifies digests health revision))) [
                | inl refused ↦ inl (ground arith)
                | inr passed ↦
                    elim (Option-cases
                      (lookup (activation_key digests d n decision) s.activations)) [
                        | inr (receipt, k) ↦ inl (ground arith)
                        | inl first ↦
                            elim (Bool-cases (state.generation != n || is_some state.rollback_id)) [
                              | inl stale ↦ inl (ground arith)
                              | inr current ↦ inr (
                                activated digests d revision state,
                                λ x h. ground arith,
                                refl,
                                refl,
                                ground arith,
                              )
                            ]
                      ]
              ]
      ]
    ],
  )

  mark_stable_cases :
      (d : String) (n : ℕ) (decision : PromotionDecision T) (health : HealthObservation)
      (evidence : String) (now : T) (s : Store T) (state : DeploymentState)
      → lookup d s.deployments ≡ some state
      → let s' = (mark_stable digests d n decision health evidence now s).1 in
        (s'.deployments ≡ s.deployments)
        ⊎ ((state.rollback_id ≡ none)
            × (s'.deployments ≡ insert d (stabilized digests state) s.deployments))
  unfolding mark_stable stabilize record_decision
  mark_stable_cases d n decision health evidence now s state e = ground arith

  pub mark_stable-WritesFree :
      (d : String) (n : ℕ) (decision : PromotionDecision T) (health : HealthObservation)
      (evidence : String) (now : T) (s : Store T)
      → Sound s
      → WritesFree d s (mark_stable digests d n decision health evidence now s).1
  unfolding mark_stable stabilize record_decision
  mark_stable-WritesFree d n decision health evidence now s v = (
    ground arith,
    elim (Option-cases (lookup d s.deployments)) [
      | inl missing ↦ inl (ground arith)
      | inr (state, e) ↦ elim (mark_stable_cases d n decision health evidence now s state e) [
        | inl kept ↦ inl kept
        | inr (free, wrote) ↦
            inr (stabilized digests state, λ x h. ground arith, free, v.named d state e, wrote)
      ]
    ],
  )
