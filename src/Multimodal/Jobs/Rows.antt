-- ===== src/Multimodal/Jobs/Rows.antt =====
-- Lemmas on the rows of `VisualJobStore`: the quota, the keys and the order of the queue.
use fin_serve.Prelude.{
  suc, ◌≡◌, ◌∙◌, ◌&&◌, ◌≤◌, refl, String, true, false, none, some, [], ◌∷◌, arith, string_eq,
  Bool-cases, Option-cases, ◌==◌, ==_iff, ==_refl, inl, inr, ◌⊎◌,
}
use fin_serve.Prelude.Float.{Float}
use fin_serve.Prelude.Dict.{Dict, lookup, insert, Distinct}
use fin_serve.Multimodal.Contracts.{Row, is_pending, is_queued}
use fin_serve.Multimodal.Jobs.{pending, find_key, earliest, comes_before}

module _ {T I : Type 0} where
  pub pending-insert_known :
      (id : String) (w r : Row T I) (d : Dict String (Row T I))
      → lookup id d ≡ some w
      → (is_pending r.state ≡ true → is_pending w.state ≡ true)
      → pending (insert id r d) ≤ pending d
  unfolding pending lookup insert
  pending-insert_known id w r [] h k = ground arith
  pending-insert_known id w r ((j, v) ∷ d) h k = ground (arith, pending-insert_known id w r d)

  pub pending-insert_new :
      (id : String) (r : Row T I) (d : Dict String (Row T I))
      → lookup id d ≡ none
      → pending (insert id r d) ≤ suc (pending d)
  unfolding pending lookup insert
  pending-insert_new id r [] h = ground arith
  pending-insert_new id r ((j, v) ∷ d) h = ground (arith, pending-insert_new id r d)

  -- The idempotency key names this job, of a request with this digest.
  pub record Names (tenant key digest id : String) (d : Dict String (Row T I)) : Type 0 where
    pub row : Row T I
    pub found : find_key tenant key d ≡ some (id, row)
    pub content : row.request_digest ≡ digest

  -- Two rows for the same job.
  pub record SameJob (w r : Row T I) : Type 0 where
    pub tenant : r.tenant ≡ w.tenant
    pub key : r.idempotency_key ≡ w.idempotency_key
    pub digest : r.request_digest ≡ w.request_digest

  find_key-insert_known :
      (tenant key id j : String) (x w r : Row T I) (d : Dict String (Row T I))
      → find_key tenant key d ≡ some (id, x)
      → lookup j d ≡ some w
      → SameJob w r
      → (y : Row T I) × (find_key tenant key (insert j r d) ≡ some (id, y))
        × (y.request_digest ≡ x.request_digest)
  unfolding find_key lookup insert
  find_key-insert_known tenant key id j x w r [] h k m = cc
  find_key-insert_known tenant key id j x w r ((i, v) ∷ d) h k m = elim (Bool-cases (j == i)) [
    | inl here ↦ elim (Bool-cases (v.tenant == tenant && v.idempotency_key == key)) [
      | inl named ↦ (r, ground (arith, m.tenant, m.key), ground (arith, m.digest))
      | inr other ↦ (x, ground (arith, m.tenant, m.key), refl)
    ]
    | inr away ↦ elim (Bool-cases (v.tenant == tenant && v.idempotency_key == key)) [
      | inl named ↦ (x, ground arith, refl)
      | inr other ↦
          let (y, found, same) =
            find_key-insert_known tenant key id j x w r d (ground arith) (ground arith) m in
          (y, ground arith, same)
    ]
  ]

  find_key-insert_new :
      (tenant key id j : String) (x r : Row T I) (d : Dict String (Row T I))
      → find_key tenant key d ≡ some (id, x)
      → lookup j d ≡ none
      → find_key tenant key (insert j r d) ≡ some (id, x)
  unfolding find_key lookup insert
  find_key-insert_new tenant key id j x r [] f l = cc
  find_key-insert_new tenant key id j x r ((i, v) ∷ d) f l =
      ground (arith, find_key-insert_new tenant key id j x r d)

  pub Names-insert_new :
      (tenant key digest id j : String) (r : Row T I) (d : Dict String (Row T I))
      → Names tenant key digest id d
      → lookup j d ≡ none
      → Names tenant key digest id (insert j r d)
  Names-insert_new tenant key digest id j r d n h = record {
    row = n.row;
    found = find_key-insert_new tenant key id j n.row r d n.found h;
    content = n.content;
  }

  pub Names-insert_known :
      (tenant key digest id j : String) (w r : Row T I) (d : Dict String (Row T I))
      → Names tenant key digest id d
      → lookup j d ≡ some w
      → SameJob w r
      → Names tenant key digest id (insert j r d)
  Names-insert_known tenant key digest id j w r d n h m =
      let (y, found, same) = find_key-insert_known tenant key id j n.row w r d n.found h m in
      record { row = y; found = found; content = same ∙ n.content }

  pub find_key-insert_self :
      (id : String) (r : Row T I) (d : Dict String (Row T I))
      → find_key r.tenant r.idempotency_key d ≡ none
      → lookup id d ≡ none
      → find_key r.tenant r.idempotency_key (insert id r d) ≡ some (id, r)
  unfolding find_key lookup insert
  find_key-insert_self id r [] h k = ground (arith, ==_refl r.tenant, ==_refl r.idempotency_key)
  find_key-insert_self id r ((i, v) ∷ d) h k = ground (arith, find_key-insert_self id r d)

module _ (F : Float) {I : Type 0} where
  open F use {Carrier, le, lt, is_finite, le_trans, lt→le, not_lt→le, le→not_lt}

  -- What stands first in the queue.
  pub record IsEarliest (d : Dict String (Row Carrier I)) (id : String) (r : Row Carrier I)
      : Type 0 where
    pub there : lookup id d ≡ some r
    pub waiting : is_queued r.state ≡ true
    pub least :
        (j : String) (q : Row Carrier I)
        → lookup j d ≡ some q
        → is_queued q.state ≡ true
        → le r.created_at q.created_at ≡ true

  abbrev pub AllFinite : Dict String (Row Carrier I) → Type 0
  AllFinite d =
      (j : String) (q : Row Carrier I) → lookup j d ≡ some q → is_finite q.created_at ≡ true

  comes_before-le :
      (a b : String × Row Carrier I)
      → comes_before F a b ≡ true
      → le a.1.created_at b.1.created_at ≡ true
  unfolding comes_before
  comes_before-le a b h = ground (arith, lt→le a.1.created_at b.1.created_at)

  not_comes_before-le :
      (a b : String × Row Carrier I)
      → is_finite a.1.created_at ≡ true
      → is_finite b.1.created_at ≡ true
      → comes_before F b a ≡ false
      → le a.1.created_at b.1.created_at ≡ true
  unfolding comes_before
  not_comes_before-le a b f g h = ground (arith, not_lt→le b.1.created_at a.1.created_at g f)

  earliest-none :
      (d : Dict String (Row Carrier I)) (j : String) (q : Row Carrier I)
      → earliest F d ≡ none
      → lookup j d ≡ some q
      → is_queued q.state ≡ false
  unfolding earliest lookup
  earliest-none [] j q h k = cc
  earliest-none ((i, v) ∷ d) j q h k = ground (arith, earliest-none d j q)

  earliest_cases :
      (i id : String) (v r : Row Carrier I) (d : Dict String (Row Carrier I))
      → earliest F ((i, v) ∷ d) ≡ some (id, r)
      → ((i ≡ id)
          × (v ≡ r)
          × (is_queued v.state ≡ true)
          × ((earliest F d ≡ none)
              ⊎ ((b : String × Row Carrier I) × (earliest F d ≡ some b)
                  × (comes_before F b (i, v) ≡ false))))
        ⊎ ((earliest F d ≡ some (id, r))
            × ((is_queued v.state ≡ false) ⊎ (comes_before F (id, r) (i, v) ≡ true)))
  unfolding earliest
  earliest_cases i id v r d h = elim (Bool-cases (is_queued v.state)) [
    | inr passed ↦ inr (ground arith, inl passed)
    | inl waits ↦ elim (Option-cases (earliest F d)) [
      | inl alone ↦ inl (ground arith, ground arith, waits, inl alone)
      | inr (b, e) ↦ elim (Bool-cases (comes_before F b (i, v))) [
        | inl before ↦ inr (ground arith, inr (ground arith))
        | inr after ↦ inl (ground arith, ground arith, waits, inr (b, e, after))
      ]
    ]
  ]

  pub earliest-lookup :
      (d : Dict String (Row Carrier I)) (id : String) (r : Row Carrier I)
      → Distinct d
      → earliest F d ≡ some (id, r)
      → (lookup id d ≡ some r) × (is_queued r.state ≡ true)
  unfolding earliest Distinct lookup
  earliest-lookup [] id r u h = cc
  earliest-lookup ((i, v) ∷ d) id r u h = elim (earliest_cases i id v r d h) [
    | inl (here, same, waits, _) ↦ (ground (arith, ==_iff id i), ground arith)
    | inr (later, _) ↦
        let (there, waits) = earliest-lookup d id r u.1 later in
        (ground (arith, ==_iff id i), waits)
  ]

  tail-AllFinite :
      (i : String) (v : Row Carrier I) (d : Dict String (Row Carrier I))
      → lookup i d ≡ none
      → AllFinite ((i, v) ∷ d)
      → AllFinite d
  unfolding lookup
  tail-AllFinite i v d h f j q k = f j q (ground (arith, ==_iff j i))

  earliest-le :
      (d : Dict String (Row Carrier I)) (id : String) (r : Row Carrier I)
      → Distinct d
      → AllFinite d
      → earliest F d ≡ some (id, r)
      → (j : String) (q : Row Carrier I) → lookup j d ≡ some q
      → is_queued q.state ≡ true
      → le r.created_at q.created_at ≡ true
  unfolding Distinct lookup
  earliest-le [] id r u f h j q k w = cc
  earliest-le ((i, v) ∷ d) id r u f h j q found w = elim (Bool-cases (j == i)) [
    | inl here ↦ elim (earliest_cases i id v r d h) [
      | inl (_, same, _, _) ↦ ground (
        arith,
        lt→le r.created_at r.created_at,
        not_lt→le r.created_at r.created_at,
        f i v (ground (arith, ==_refl i)),
      )
      | inr (_, inl passed) ↦ ground arith
      | inr (_, inr before) ↦ ground (arith, comes_before-le (id, r) (i, v) before)
    ]
    | inr away ↦
        let below : lookup j d ≡ some q = ground arith in
        let finite = tail-AllFinite i v d u.0 f in
        elim (earliest_cases i id v r d h) [
          | inl (_, same, _, inl alone) ↦ ground (arith, earliest-none d j q alone below)
          | inl (_, same, _, inr ((k, b), e, after)) ↦
              let (there, _) = earliest-lookup d k b u.1 e in
              let near =
                not_comes_before-le (i, v) (k, b) (f i v (ground (arith, ==_refl i)))
                  (finite k b there) after in
              let far = earliest-le d k b u.1 finite e j q below w in
              ground (arith, le_trans v.created_at b.created_at q.created_at near far)
          | inr (later, _) ↦ earliest-le d id r u.1 finite later j q below w
        ]
  ]

  -- The row that is claimed is a queued one that no queued row precedes.
  pub earliest-IsEarliest :
      (d : Dict String (Row Carrier I)) (id : String) (r : Row Carrier I)
      → Distinct d
      → AllFinite d
      → earliest F d ≡ some (id, r)
      → IsEarliest d id r
  earliest-IsEarliest d id r u f h =
      let (there, waits) = earliest-lookup d id r u h in
      record { there = there; waiting = waits; least = earliest-le d id r u f h }
