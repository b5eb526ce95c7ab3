-- ===== src/Registry/Stages/History.antt =====
-- Sequences of calls of `ProducerStages`, and what holds after all of them.
use mathlib.Core.Path.{subst}
use fin_serve.Prelude.{
  ◌≡◌, sym, refl, ap, ◌∙◌, append-nil, append_assoc, String, Bool, true, false, Option, some, List,
  [], ◌∷◌, ◌++◌, arith, inl, inr, string_eq, ==_iff,
}
use fin_serve.Prelude.Float.{Float}
use fin_serve.Prelude.Dict.{lookup, insert, lookup-insert_cases, lookup-insert}
use fin_serve.Registry.Stages.{
  StageStatus, is_completed, ArtifactRef, StageState, StageRow, Journal, empty, is_stage, row_of,
}
use fin_serve.Registry.Stages.Calls.{declare, start, finish, fail}
use fin_serve.Registry.Stages.Steps.{
  Edge, IsSound, Change, unchanged, declared, moved, declare-Change, start-Change, finish-Change,
  fail-Change,
}

edge_open : (x y : StageStatus) → Edge x y → is_completed x ≡ false
edge_open x y Edge.begin = refl
edge_open x y Edge.retry = refl
edge_open x y Edge.publish = refl
edge_open x y Edge.give_up = refl

module _ (F : Float) where
  open F use {Carrier}

  inserted-IsSound :
      (s : StageState Carrier) (j : Journal Carrier)
      → IsSound F j
      → is_stage F s ≡ true
      → IsSound F
          (record { stages = insert s.stage_id (row_of F s) j.stages; events = j.events ++ s ∷ [] })
  inserted-IsSound s j v good = record {
    named = λ id r found. elim (lookup-insert_cases s.stage_id id (row_of F s) r j.stages found) [
      | inl (here, same) ↦ ground arith
      | inr (_, before) ↦ v.named id r before
    ];
    versioned = λ id r found.
        elim (lookup-insert_cases s.stage_id id (row_of F s) r j.stages found) [
          | inl (here, same) ↦ ground arith
          | inr (_, before) ↦ v.versioned id r before
        ];
    valid = λ id r found. elim (lookup-insert_cases s.stage_id id (row_of F s) r j.stages found) [
      | inl (here, same) ↦ subst (λ x. is_stage F x.payload ≡ true) same good
      | inr (_, before) ↦ v.valid id r before
    ];
  }

  Change-IsSound : (j j' : Journal Carrier) → Change F j j' → IsSound F j → IsSound F j'
  Change-IsSound j j' (unchanged same) v = subst (IsSound F) (sym same) v
  Change-IsSound j j' (declared s new planned good same) v =
      subst (IsSound F) (sym same) (inserted-IsSound s j v good)
  Change-IsSound j j' (moved r s found m same) v =
      subst (IsSound F) (sym same) (inserted-IsSound s j v m.valid)

  Change-completed :
      (j j' : Journal Carrier) (id : String) (r : StageRow Carrier)
      → Change F j j'
      → lookup id j.stages ≡ some r
      → is_completed r.payload.status ≡ true
      → lookup id j'.stages ≡ some r
  Change-completed j j' id r (unchanged same) h k = ground arith
  Change-completed j j' id r (declared s new waits good same) h k =
      ground (arith, lookup-insert s.stage_id id (row_of F s) j.stages, ==_iff id s.stage_id)
  Change-completed j j' id r (moved q s found m same) h k = ground (
    arith,
    lookup-insert s.stage_id id (row_of F s) j.stages,
    ==_iff id s.stage_id,
    edge_open q.payload.status s.status m.edge,
  )

  Change-events :
      (j j' : Journal Carrier)
      → Change F j j'
      → (new : List (StageState Carrier)) × (j'.events ≡ j.events ++ new)
  Change-events j j' (unchanged same) = ([], ap (λ x. x.events) same ∙ sym (append-nil j.events))
  Change-events j j' (declared s new waits good same) = (s ∷ [], ap (λ x. x.events) same)
  Change-events j j' (moved r s found m same) = (s ∷ [], ap (λ x. x.events) same)

module _ (F : Float) (verified : ArtifactRef → Bool) where
  open F use {Carrier}

  -- The calls that write, with what `uuid4` and the clock give.
  pub data Call : Type 0 where
    declares : String → ArtifactRef → Call
    starts : String → Option String → String → Carrier → Call
    finishes : String → String → ArtifactRef → Carrier → Call
    fails : String → String → String → ArtifactRef → Carrier → Call

  unfoldable pub step : Journal Carrier → Call → Journal Carrier
  step j (declares id reference) = (declare F verified id reference j).1
  step j (starts id attempt fresh now) = (start F verified id attempt fresh now j).1
  step j (finishes id attempt output now) = (finish F verified id attempt output now j).1
  step j (fails id attempt error_code reconciliation now) =
      (fail F verified id attempt error_code reconciliation now j).1

  unfoldable pub run : Journal Carrier → List Call → Journal Carrier
  unfolding step
  run j [] = j
  run j (c ∷ cs) = run (step j c) cs

  -- Of a sound journal, each call changes nothing, declares one new stage, or takes one stage
  -- along one edge of its life to the next version, with the same input and in a valid state, and
  -- appends that state to the events.
  pub stage_step-Change : (j : Journal Carrier) (c : Call) → IsSound F j → Change F j (step j c)
  unfolding step
  stage_step-Change j (declares id reference) v = declare-Change F verified id reference j
  stage_step-Change j (starts id attempt fresh now) v =
      start-Change F verified id attempt fresh now j v
  stage_step-Change j (finishes id attempt output now) v =
      finish-Change F verified id attempt output now j v
  stage_step-Change j (fails id attempt error_code reconciliation now) v =
      fail-Change F verified id attempt error_code reconciliation now j v

  pub run_stages-IsSound :
      (j : Journal Carrier) (cs : List Call) → IsSound F j → IsSound F (run j cs)
  unfolding run
  run_stages-IsSound j [] v = v
  run_stages-IsSound j (c ∷ cs) v =
      run_stages-IsSound (step j c) cs (Change-IsSound F j (step j c) (stage_step-Change j c v) v)

  -- After any sequence of calls of an empty journal every stage stands under its own id, with the
  -- version of its payload, in a state that passes the validation of the code.
  pub run-empty-IsSound : (cs : List Call) → IsSound F (run empty cs)
  unfolding lookup
  run-empty-IsSound cs = run_stages-IsSound empty cs record {
    named = λ id r found. ground arith;
    versioned = λ id r found. ground arith;
    valid = λ id r found. ground arith;
  }

  -- A completed stage of a sound journal keeps its row unchanged through any sequence of calls.
  pub run_completed :
      (j : Journal Carrier) (cs : List Call) (id : String) (r : StageRow Carrier)
      → IsSound F j
      → lookup id j.stages ≡ some r
      → r.payload.status ≡ StageStatus.completed
      → lookup id (run j cs).stages ≡ some r
  unfolding run
  run_completed j [] id r v h k = h
  run_completed j (c ∷ cs) id r v h k =
      let change = stage_step-Change j c v in
      run_completed (step j c) cs id r (Change-IsSound F j (step j c) change v)
        (Change-completed F j (step j c) id r change h (ground arith)) k

  -- Of a sound journal, the events after any sequence of calls are those before it followed by
  -- later ones.
  pub run_grows :
      (j : Journal Carrier) (cs : List Call)
      → IsSound F j
      → (new : List (StageState Carrier)) × ((run j cs).events ≡ j.events ++ new)
  unfolding run
  run_grows j [] v = ([], sym (append-nil j.events))
  run_grows j (c ∷ cs) v =
      let change = stage_step-Change j c v in
      let (one, first) = Change-events F j (step j c) change in
      let (more, rest) = run_grows (step j c) cs (Change-IsSound F j (step j c) change v) in
      (one ++ more, rest ∙ ap (λ x. x ++ more) first ∙ append_assoc j.events one more)
