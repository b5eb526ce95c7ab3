-- ===== src/Registry/Stages/Steps.antt =====
-- One call of `ProducerStages` as a step of the journal.
use mathlib.Core.Path.{subst}
use fin_serve.Prelude.{
  suc, ◌≡◌, sym, refl, String, Bool, true, not, ◌||◌, Option, none, some, [], ◌∷◌, ◌++◌, arith,
  Bool-cases, Option-cases, inl, inr, ◌==◌, ◌!=◌, string_eq, nat_eq, option_eq,
}
use fin_serve.Prelude.Float.{Float}
use fin_serve.Prelude.Dict.{lookup, insert}
use fin_serve.Registry.Stages.{
  StageStatus, is_planned, is_failed, is_running, ArtifactRef, ref_eq, StageState, StageRow,
  Journal, is_stage, validated, read, initial, row_of, commit, is_reused, given_or, started,
  finished, failed_with, owns_attempt, is_receipt, save,
}
use fin_serve.Registry.Stages.Calls.{
  declare, start_from, start, finish_from, finish, fail_from, fail,
}

-- The transitions of a stage, one constructor for each.
pub data Edge : StageStatus → StageStatus → Type 0 where
  begin : Edge StageStatus.planned StageStatus.running
  retry : Edge StageStatus.failed StageStatus.running
  publish : Edge StageStatus.running StageStatus.completed
  give_up : Edge StageStatus.running StageStatus.failed

starting_edge :
    (x : StageStatus) → (is_planned x || is_failed x) ≡ true → Edge x StageStatus.running
starting_edge StageStatus.planned h = begin
starting_edge StageStatus.failed h = retry
starting_edge _ h = absurd (ground arith)

is_running_lem : (x : StageStatus) → is_running x ≡ true → x ≡ StageStatus.running
is_running_lem StageStatus.running h = refl
is_running_lem _ h = absurd (ground arith)

module _ (F : Float) where
  open F use {Carrier}

  -- A state is written under its own id, with its own version, and is valid.
  pub record IsSound (j : Journal Carrier) : Type 0 where
    pub named :
        (id : String) (r : StageRow Carrier) → lookup id j.stages ≡ some r → r.payload.stage_id ≡ id
    pub versioned :
        (id : String) (r : StageRow Carrier)
        → lookup id j.stages ≡ some r
        → r.version ≡ r.payload.version
    pub valid :
        (id : String) (r : StageRow Carrier)
        → lookup id j.stages ≡ some r
        → is_stage F r.payload ≡ true

  -- One transition of a stage to its next version.
  pub record Moves (before after : StageState Carrier) : Type 0 where
    pub edge : Edge before.status after.status
    pub same_stage : after.stage_id ≡ before.stage_id
    pub same_input : after.input ≡ before.input
    pub next : after.version ≡ suc before.version
    pub valid : is_stage F after ≡ true

  -- What a call does to the journal: nothing, one declared stage, or one transition of one stage,
  -- with its receipt at the end of the events.
  pub data Change (j : Journal Carrier) : Journal Carrier → Type 0 where
    unchanged : {j' : Journal Carrier} → j' ≡ j → Change j j'
    declared :
        {j' : Journal Carrier} (s : StageState Carrier)
        → lookup s.stage_id j.stages ≡ none
        → s.status ≡ StageStatus.planned
        → is_stage F s ≡ true
        → j'
          ≡ record { stages = insert s.stage_id (row_of F s) j.stages; events = j.events ++ s ∷ [] }
        → Change j j'
    moved :
        {j' : Journal Carrier} (r : StageRow Carrier) (s : StageState Carrier)
        → lookup s.stage_id j.stages ≡ some r
        → Moves r.payload s
        → j'
          ≡ record { stages = insert s.stage_id (row_of F s) j.stages; events = j.events ++ s ∷ [] }
        → Change j j'

  commit-Change :
      (j : Journal Carrier) (r : StageRow Carrier) (after : StageState Carrier)
      → lookup r.payload.stage_id j.stages ≡ some r
      → after.stage_id ≡ r.payload.stage_id
      → (is_stage F after ≡ true → Moves r.payload after)
      → Change j (commit F r.payload j (validated F after)).1
  unfolding save validated
  commit-Change j r after found same moves = elim (Bool-cases (is_stage F after)) [
    | inr bad ↦ unchanged (ground arith)
    | inl good ↦ elim (Bool-cases (r.version == r.payload.version)) [
      | inr stale ↦ unchanged (ground arith)
      | inl current ↦ moved r after (ground arith) (moves good) (ground arith)
    ]
  ]

module _ (F : Float) (verified : ArtifactRef → Bool) where
  open F use {Carrier}

  pub declare-Change :
      (id : String) (reference : ArtifactRef) (j : Journal Carrier)
      → Change F j (declare F verified id reference j).1
  unfolding declare validated read
  declare-Change id reference j = elim (Bool-cases (verified reference)) [
    | inr absent ↦ unchanged (ground arith)
    | inl there ↦ elim (Bool-cases (is_stage F (initial F id reference))) [
      | inr bad ↦ unchanged (ground arith)
      | inl good ↦ elim (Option-cases (lookup id j.stages)) [
        | inl new ↦ declared (initial F id reference) new refl good (ground arith)
        | inr (r, e) ↦ elim (Bool-cases (r.payload.input != reference)) [
          | inl differs ↦ unchanged (ground arith)
          | inr same ↦ unchanged (ground arith)
        ]
      ]
    ]
  ]

  start_from-Change :
      (id : String) (attempt : Option String) (fresh : String) (now : Carrier) (j : Journal Carrier)
      (r : StageRow Carrier)
      → r.payload.stage_id ≡ id
      → lookup id j.stages ≡ some r
      → Change F j (start_from F verified id attempt fresh now j r.payload).1
  start_from-Change id attempt fresh now j r same found =
      elim (Bool-cases (not (verified r.payload.input))) [
        | inl absent ↦ unchanged (ground arith)
        | inr there ↦
            elim (Bool-cases (is_planned r.payload.status || is_failed r.payload.status)) [
              | inr busy ↦ unchanged (ground arith)
              | inl free ↦ elim (Bool-cases (is_reused F id attempt j)) [
                | inl reused ↦ unchanged (ground arith)
                | inr unused ↦
                    let after = started F id r.payload (given_or F attempt fresh) now in
                    subst (Change F j) (ground arith) (
                      commit-Change F j r after (ground arith) (sym same) (λ good. record {
                        edge = starting_edge r.payload.status free;
                        same_stage = sym same;
                        same_input = refl;
                        next = refl;
                        valid = good;
                      }))
              ]
            ]
      ]

  pub start-Change :
      (id : String) (attempt : Option String) (fresh : String) (now : Carrier) (j : Journal Carrier)
      → IsSound F j
      → Change F j (start F verified id attempt fresh now j).1
  unfolding start read
  start-Change id attempt fresh now j v = elim (Option-cases (lookup id j.stages)) [
    | inl missing ↦ unchanged (ground arith)
    | inr (r, e) ↦
        subst (Change F j) (ground arith)
          (start_from-Change id attempt fresh now j r (v.named id r e) e)
  ]

  finish_from-Change :
      (id attempt : String) (output : ArtifactRef) (now : Carrier) (j : Journal Carrier)
      (r : StageRow Carrier)
      → r.payload.stage_id ≡ id
      → lookup id j.stages ≡ some r
      → Change F j (finish_from F verified attempt output now j r.payload).1
  finish_from-Change id attempt output now j r same found =
      elim (Bool-cases (is_receipt F r.payload attempt output)) [
        | inl receipt ↦ unchanged (ground arith)
        | inr open_yet ↦ elim (Bool-cases (owns_attempt F r.payload attempt)) [
          | inr stale ↦ unchanged (ground arith)
          | inl owned ↦
              let after = finished F r.payload output now in
              subst (Change F j) (ground arith) (
                commit-Change F j r after (ground arith) refl (λ good. record {
                  edge =
                      subst (λ x. Edge x StageStatus.completed)
                        (sym (is_running_lem r.payload.status (ground arith))) publish;
                  same_stage = refl;
                  same_input = refl;
                  next = refl;
                  valid = good;
                }))
        ]
      ]

  pub finish-Change :
      (id attempt : String) (output : ArtifactRef) (now : Carrier) (j : Journal Carrier)
      → IsSound F j
      → Change F j (finish F verified id attempt output now j).1
  unfolding finish read
  finish-Change id attempt output now j v = elim (Bool-cases (verified output)) [
    | inr absent ↦ unchanged (ground arith)
    | inl there ↦ elim (Option-cases (lookup id j.stages)) [
      | inl missing ↦ unchanged (ground arith)
      | inr (r, e) ↦
          subst (Change F j) (ground arith)
            (finish_from-Change id attempt output now j r (v.named id r e) e)
    ]
  ]

  fail_from-Change :
      (id attempt error_code : String) (reconciliation : ArtifactRef) (now : Carrier)
      (j : Journal Carrier) (r : StageRow Carrier)
      → r.payload.stage_id ≡ id
      → lookup id j.stages ≡ some r
      → Change F j (fail_from F verified attempt error_code reconciliation now j r.payload).1
  fail_from-Change id attempt error_code reconciliation now j r same found =
      elim (Bool-cases (owns_attempt F r.payload attempt)) [
        | inr stale ↦ unchanged (ground arith)
        | inl owned ↦
            let after = failed_with F r.payload error_code reconciliation now in
            subst (Change F j) (ground arith) (
              commit-Change F j r after (ground arith) refl (λ good. record {
                edge =
                    subst (λ x. Edge x StageStatus.failed)
                      (sym (is_running_lem r.payload.status (ground arith))) give_up;
                same_stage = refl;
                same_input = refl;
                next = refl;
                valid = good;
              }))
      ]

  pub fail-Change :
      (id attempt error_code : String) (reconciliation : ArtifactRef) (now : Carrier)
      (j : Journal Carrier)
      → IsSound F j
      → Change F j (fail F verified id attempt error_code reconciliation now j).1
  unfolding fail read
  fail-Change id attempt error_code reconciliation now j v =
      elim (Bool-cases (verified reconciliation)) [
        | inr absent ↦ unchanged (ground arith)
        | inl there ↦ elim (Option-cases (lookup id j.stages)) [
          | inl missing ↦ unchanged (ground arith)
          | inr (r, e) ↦
              subst (Change F j) (ground arith)
                (fail_from-Change id attempt error_code reconciliation now j r (v.named id r e) e)
        ]
      ]
