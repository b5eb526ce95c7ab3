-- ===== src/Reliability/Capacity/Dwell.antt =====
-- What a proposal of the capacity policy rests on: a streak of samples and a cooldown.
use mathlib.Core.Path.{subst}
use fin_serve.Prelude.{
  ℕ, suc, ◌≡◌, ◌≤◌, ◌⊎◌, refl, ap, ◌∙◌, List, [], ◌∷◌, ◌++◌, append_assoc, inl, inr, Bool, true,
  false, ◌||◌, Option, some, arith, leb, ltb, Bool-cases, Option-cases, ◌==◌, ◌!=◌, ==_iff, nat_eq,
  string_eq,
}
use fin_serve.Prelude.Float.{Float}
use fin_serve.Prelude.Result.{ok}
use fin_serve.Reliability.Capacity.{
  CapacityAction, CapacityPolicy, CapacityObservation, CapacityMemory, consecutive, high, low,
  extend, cooled, choose_action, remember, high_after, low_after, fresh_decision, restart,
  decide_after, decide_capacity,
}

module _ (F : Float) (p : CapacityPolicy F.Carrier) where
  open F use {Carrier, le, lt, sub}

  -- Two samples that the policy compares: of one epoch and membership, and spaced.
  pub record Spaced (previous o : CapacityObservation Carrier) : Type 0 where
    pub epoch : o.epoch ≡ previous.epoch
    pub members : o.members ≡ previous.members
    pub spaced : lt (sub o.observed_seconds previous.observed_seconds) p.sample_seconds ≡ false

  -- `n` samples without a gap between them, up to `o`, each of which passes the test against the
  -- one before it; all but `o` were fed before it, in this order.
  pub data Streak (test : CapacityObservation Carrier → CapacityObservation Carrier → Bool)
      : ℕ → List (CapacityObservation Carrier) → CapacityObservation Carrier → Type 0 where
    begins :
        (fed earlier between : List (CapacityObservation Carrier))
        (previous o : CapacityObservation Carrier)
        → fed ≡ earlier ++ previous ∷ between
        → Spaced previous o
        → test previous o ≡ true
        → Streak test 1 fed o
    goes_on :
        (n : ℕ) (fed earlier between : List (CapacityObservation Carrier))
        (previous o : CapacityObservation Carrier)
        → fed ≡ earlier ++ previous ∷ between
        → Streak test n earlier previous
        → Spaced previous o
        → consecutive F p previous o ≡ true
        → test previous o ≡ true
        → Streak test (suc n) fed o

  -- A count that is zero or vouched for by as many samples.
  abbrev pub Vouched :
      (CapacityObservation Carrier → CapacityObservation Carrier → Bool)
      → ℕ
      → List (CapacityObservation Carrier)
      → CapacityObservation Carrier
      → Type 0
  Vouched test count fed o = (count ≡ 0) ⊎ ((n : ℕ) × (count ≤ n) × Streak test n fed o)

  extend-Vouched :
      (test : CapacityObservation Carrier → CapacityObservation Carrier → Bool) (samples count : ℕ)
      (fed earlier between : List (CapacityObservation Carrier))
      (previous o : CapacityObservation Carrier)
      → fed ≡ earlier ++ previous ∷ between
      → Vouched test count earlier previous
      → Spaced previous o
      → Vouched test (extend samples count (consecutive F p previous o) (test previous o)) fed o
  extend-Vouched test samples count fed earlier between previous o at v s =
      elim (Bool-cases (test previous o)) [
        | inr fails ↦ inl (ground arith)
        | inl passes ↦ elim (Bool-cases (consecutive F p previous o)) [
          | inr gap ↦ inr (1, ground arith, begins fed earlier between previous o at s passes)
          | inl follows ↦ elim v [
            | inl empty ↦ inr (1, ground arith, begins fed earlier between previous o at s passes)
            | inr (n, most, streak) ↦ inr (
              suc n,
              ground arith,
              goes_on n fed earlier between previous o at streak s follows passes,
            )
          ]
        ]
      ]

  -- The last sample was fed, and what was fed before it vouches for both counts.
  pub record Evidence (m : CapacityMemory Carrier) (fed : List (CapacityObservation Carrier))
      (o : CapacityObservation Carrier) : Type 0 where
    pub earlier : List (CapacityObservation Carrier)
    pub between : List (CapacityObservation Carrier)
    pub at : fed ≡ earlier ++ o ∷ between
    pub highs : Vouched (high F p) m.high_streak earlier o
    pub lows : Vouched (low F p) m.low_streak earlier o

  abbrev pub IsEvidenced : List (CapacityObservation Carrier) → CapacityMemory Carrier → Type 0
  IsEvidenced fed m = (o : CapacityObservation Carrier) → m.last ≡ some o → Evidence m fed o

  -- A sample that the memory ignores leaves it evidenced.
  pub later-IsEvidenced :
      (fed : List (CapacityObservation Carrier)) (o : CapacityObservation Carrier)
      (m : CapacityMemory Carrier)
      → IsEvidenced fed m
      → IsEvidenced (fed ++ o ∷ []) m
  later-IsEvidenced fed o m v x e =
      let k = v x e in
      record {
        earlier = k.earlier;
        between = k.between ++ o ∷ [];
        at = ap (λ l. l ++ o ∷ []) k.at ∙ append_assoc k.earlier (x ∷ k.between) (o ∷ []);
        highs = k.highs;
        lows = k.lows;
      }

  -- A memory of `o` whose counts are vouched for.
  kept :
      (fed : List (CapacityObservation Carrier)) (o : CapacityObservation Carrier)
      (t : Option Carrier) (hi lo : ℕ)
      → Vouched (high F p) hi fed o
      → Vouched (low F p) lo fed o
      → IsEvidenced
          (fed ++ o ∷ [])
          (record { last = some o; high_streak = hi; low_streak = lo; last_action_seconds = t })
  kept fed o t hi lo h l x e =
      let same : o ≡ x = ground arith in
      record {
        earlier = fed;
        between = [];
        at = ap (λ y. fed ++ y ∷ []) same;
        highs = subst (Vouched (high F p) hi fed) same h;
        lows = subst (Vouched (low F p) lo fed) same l;
      }

  restart-IsEvidenced :
      (fed : List (CapacityObservation Carrier)) (o : CapacityObservation Carrier)
      (t : Option Carrier)
      → IsEvidenced (fed ++ o ∷ []) (restart F o t)
  restart-IsEvidenced fed o t = kept fed o t 0 0 (inl refl) (inl refl)

  -- What stands behind a proposal at `o`, and what is left of the dwell.
  abbrev pub Justified :
      List (CapacityObservation Carrier)
      → CapacityObservation Carrier
      → CapacityMemory Carrier
      → CapacityMemory Carrier
      → CapacityAction
      → Type 0
  Justified fed o m m' CapacityAction.hold = Unit
  Justified fed o m m' CapacityAction.up =
      ((n : ℕ) × (p.high_samples ≤ n) × Streak (high F p) n fed o)
      × (cooled F p o m.last_action_seconds ≡ true)
      × (m' ≡ restart F o (some o.observed_seconds))
  Justified fed o m m' CapacityAction.down =
      ((n : ℕ) × (p.low_samples ≤ n) × Streak (low F p) n fed o)
      × (cooled F p o m.last_action_seconds ≡ true)
      × (m' ≡ restart F o (some o.observed_seconds))

  reaches :
      (test : CapacityObservation Carrier → CapacityObservation Carrier → Bool) (samples count : ℕ)
      (fed : List (CapacityObservation Carrier)) (o : CapacityObservation Carrier)
      → 1 ≤ samples
      → leb samples count ≡ true
      → Vouched test count fed o
      → (n : ℕ) × (samples ≤ n) × Streak test n fed o
  reaches test samples count fed o one enough (inl none_there) = ground arith
  reaches test samples count fed o one enough (inr (n, most, streak)) = (n, ground arith, streak)

  decided :
      (fed : List (CapacityObservation Carrier)) (o : CapacityObservation Carrier)
      (m : CapacityMemory Carrier) (hi lo : ℕ) (is_cooled enough_high enough_low : Bool)
      → 1 ≤ p.high_samples
      → 1 ≤ p.low_samples
      → Vouched (high F p) hi fed o
      → Vouched (low F p) lo fed o
      → cooled F p o m.last_action_seconds ≡ is_cooled
      → leb p.high_samples hi ≡ enough_high
      → leb p.low_samples lo ≡ enough_low
      → let r =
          remember F o m.last_action_seconds hi lo
            (choose_action is_cooled enough_high enough_low) in
        IsEvidenced (fed ++ o ∷ []) r.0 × Justified fed o m r.0 r.1
  decided fed o m hi lo true true x one_high one_low h l c eh el = (
    restart-IsEvidenced fed o _,
    (reaches (high F p) p.high_samples hi fed o one_high eh h, c, refl),
  )
  decided fed o m hi lo true false true one_high one_low h l c eh el = (
    restart-IsEvidenced fed o _,
    (reaches (low F p) p.low_samples lo fed o one_low el l, c, refl),
  )
  decided fed o m hi lo true false false one_high one_low h l c eh el =
      (kept fed o m.last_action_seconds hi lo h l, tt)
  decided fed o m hi lo false x y one_high one_low h l c eh el =
      (kept fed o m.last_action_seconds hi lo h l, tt)

  fresh_decision-Justified :
      (fed : List (CapacityObservation Carrier)) (previous o : CapacityObservation Carrier)
      (m : CapacityMemory Carrier)
      → 1 ≤ p.high_samples
      → 1 ≤ p.low_samples
      → m.last ≡ some previous
      → Spaced previous o
      → IsEvidenced fed m
      → IsEvidenced (fed ++ o ∷ []) (fresh_decision F p previous o m).0
        × Justified fed o m (fresh_decision F p previous o m).0 (fresh_decision F p previous o m).1
  unfolding fresh_decision
  fresh_decision-Justified fed previous o m one_high one_low found s v =
      let k = v previous found in
      decided fed o m (high_after F p previous o m) (low_after F p previous o m) _ _ _ one_high
        one_low
        (extend-Vouched (high F p) p.high_samples m.high_streak fed k.earlier k.between previous o
          k.at k.highs s)
        (extend-Vouched (low F p) p.low_samples m.low_streak fed k.earlier k.between previous o k.at
          k.lows s)
        refl refl refl

  answered :
      (fed : List (CapacityObservation Carrier)) (o : CapacityObservation Carrier)
      (m : CapacityMemory Carrier) (x y : CapacityMemory Carrier × CapacityAction)
      → x ≡ y
      → IsEvidenced (fed ++ o ∷ []) x.0 × Justified fed o m x.0 x.1
      → IsEvidenced (fed ++ o ∷ []) y.0 × Justified fed o m y.0 y.1
  answered fed o m x y e =
      subst (λ z. IsEvidenced (fed ++ o ∷ []) z.0 × Justified fed o m z.0 z.1) e

  -- What the code may propose and what it remembers rest on the samples, after any sample.
  pub decide_capacity-Justified :
      (fed : List (CapacityObservation Carrier)) (o : CapacityObservation Carrier)
      (m m' : CapacityMemory Carrier) (action : CapacityAction)
      → 1 ≤ p.high_samples
      → 1 ≤ p.low_samples
      → IsEvidenced fed m
      → decide_capacity F p o m ≡ ok (m', action)
      → IsEvidenced (fed ++ o ∷ []) m' × Justified fed o m m' action
  unfolding decide_capacity decide_after
  decide_capacity-Justified fed o m m' action one_high one_low v h = elim (Option-cases m.last) [
    | inl new ↦
        answered fed o m (restart F o (some o.observed_seconds), CapacityAction.hold) (m', action)
          (ground arith) (restart-IsEvidenced fed o _, tt)
    | inr (previous, e) ↦ elim (Bool-cases (o.epoch != previous.epoch)) [
      | inl other ↦
          answered fed o m (restart F o (some o.observed_seconds), CapacityAction.hold) (m', action)
            (ground arith) (restart-IsEvidenced fed o _, tt)
      | inr same ↦
          elim (Bool-cases (ltb o.sequence previous.sequence || o.sequence == previous.sequence)) [
            | inl old ↦
                answered fed o m (m, CapacityAction.hold) (m', action) (ground arith)
                  (later-IsEvidenced fed o m v, tt)
            | inr newer ↦ elim (Bool-cases (o.members != previous.members)) [
              | inl changed ↦
                  answered fed o m (restart F o (some o.observed_seconds), CapacityAction.hold)
                    (m', action) (ground arith) (restart-IsEvidenced fed o _, tt)
              | inr stable ↦
                  elim (Bool-cases
                    (lt (sub o.observed_seconds previous.observed_seconds) p.sample_seconds)) [
                      | inl early ↦
                          answered fed o m (restart F o m.last_action_seconds, CapacityAction.hold)
                            (m', action) (ground arith) (restart-IsEvidenced fed o _, tt)
                      | inr spaced ↦
                          let s : Spaced previous o = record {
                            epoch = ground (arith, ==_iff o.epoch previous.epoch);
                            members = ground (arith, ==_iff o.members previous.members);
                            spaced = spaced;
                          } in
                          answered fed o m (fresh_decision F p previous o m) (m', action)
                            (ground arith)
                            (fresh_decision-Justified fed previous o m one_high one_low e s v)
                    ]
            ]
          ]
    ]
  ]
