-- ===== src/Prelude/Dict.antt =====
-- A Python dict, or a table with a primary key, in insertion order.
use fin_serve.Prelude.Tests.{if◌then◌else◌, is_some, Bool-cases}
use fin_serve.Prelude.Lists.{length}
use fin_serve.Prelude.Key.{Eq, ◌==◌, ==_iff, ==_refl}
use Prim.Native.Nat.{suc}
use mathlib.Core.Path.{◌≡◌, refl}
use mathlib.Core.Logic.{◌≢◌, ◌⊎◌, inl, inr}
use mathlib.Core.Option.{Option, none, some}
use mathlib.Core.List.{List, [], ◌∷◌}
use native.Mathlib.Omega.{arith}

abbrev pub Dict {ℓ κ} : Type ℓ → Type κ → Type (ℓ ⊔ κ)
Dict K V = List (K × V)

module _ {ℓ κ} {K : Type ℓ} {V : Type κ} ⦃e : Eq K⦄ where
  -- `d.get(k)`
  unfoldable pub lookup : K → Dict K V → Option V
  lookup k [] = none
  lookup k ((j, v) ∷ d) = if k == j then some v else lookup k d

  -- `d[k] = v`
  unfoldable pub insert : K → V → Dict K V → Dict K V
  insert k v [] = (k, v) ∷ []
  insert k v ((j, w) ∷ d) = if k == j then (j, v) ∷ d else (j, w) ∷ insert k v d

  -- `d.pop(k, None)`
  unfoldable pub erase : K → Dict K V → Dict K V
  erase k [] = []
  erase k ((j, w) ∷ d) = if k == j then d else (j, w) ∷ erase k d

  -- No key stands twice.
  unfoldable pub Distinct : Dict K V → Type κ
  Distinct [] = Unit
  Distinct ((j, w) ∷ d) = (lookup j d ≡ none) × Distinct d

module _ {ℓ κ} {K : Type ℓ} {V : Type κ} ⦃e : Eq K⦄ where
  pub lookup-insert :
      (k j : K) (v : V) (d : Dict K V)
      → lookup j (insert k v d) ≡ (if j == k then some v else lookup j d)
  unfolding lookup insert
  lookup-insert k j v [] = refl
  lookup-insert k j v ((i, w) ∷ d) =
      ground (arith, ==_iff k i, ==_iff j i, ==_iff j k, lookup-insert k j v d)

  pub lookup-insert_self : (k : K) (v : V) (d : Dict K V) → lookup k (insert k v d) ≡ some v
  lookup-insert_self k v d = ground (arith, lookup-insert k k v d, ==_refl k)

  pub Distinct-insert : (k : K) (v : V) (d : Dict K V) → Distinct d → Distinct (insert k v d)
  unfolding Distinct insert lookup
  Distinct-insert k v [] h = (refl, tt)
  Distinct-insert k v ((i, w) ∷ d) h =
      ground (arith, ==_iff k i, ==_iff i k, lookup-insert k i v d, Distinct-insert k v d h.1)

  pub length-insert :
      (k : K) (v : V) (d : Dict K V)
      → length (insert k v d) ≡ (if is_some (lookup k d) then length d else suc (length d))
  unfolding lookup insert
  length-insert k v [] = refl
  length-insert k v ((i, w) ∷ d) = ground (arith, length-insert k v d)

  pub lookup-erase :
      (k j : K) (d : Dict K V)
      → Distinct d
      → lookup j (erase k d) ≡ (if j == k then none else lookup j d)
  unfolding Distinct lookup erase
  lookup-erase k j [] h = ground arith
  lookup-erase k j ((i, w) ∷ d) h =
      ground (arith, ==_iff k i, ==_iff j i, ==_iff j k, lookup-erase k j d h.1)

  pub Distinct-erase : (k : K) (d : Dict K V) → Distinct d → Distinct (erase k d)
  unfolding Distinct erase
  Distinct-erase k [] h = tt
  Distinct-erase k ((i, w) ∷ d) h = ground (arith, lookup-erase k i d h.1, Distinct-erase k d h.1)

  pub length-erase :
      (k : K) (d : Dict K V)
      → length d ≡ (if is_some (lookup k d) then suc (length (erase k d)) else length (erase k d))
  unfolding lookup erase
  length-erase k [] = refl
  length-erase k ((i, w) ∷ d) = ground (arith, length-erase k d)

  -- To add a new key and drop it again changes nothing.
  pub erase-insert_new :
      (k : K) (v : V) (d : Dict K V) → lookup k d ≡ none → erase k (insert k v d) ≡ d
  unfolding lookup insert erase
  erase-insert_new k v [] h = ground (arith, ==_refl k)
  erase-insert_new k v ((i, w) ∷ d) h = ground (arith, erase-insert_new k v d)

  pub erase_missing : (k : K) (d : Dict K V) → lookup k d ≡ none → erase k d ≡ d
  unfolding lookup erase
  erase_missing k [] h = refl
  erase_missing k ((i, w) ∷ d) h = ground (arith, erase_missing k d)

  pub lookup-insert_ne :
      (k j : K) (v : V) (d : Dict K V) → j ≢ k → lookup j (insert k v d) ≡ lookup j d
  lookup-insert_ne k j v d h = ground (arith, lookup-insert k j v d, ==_iff j k)

  -- What is found after a write is the value written, under its key, or was there before.
  pub lookup-insert_cases :
      (k j : K) (v x : V) (d : Dict K V)
      → lookup j (insert k v d) ≡ some x
      → ((j ≡ k) × (v ≡ x)) ⊎ ((j ≢ k) × (lookup j d ≡ some x))
  lookup-insert_cases k j v x d h = elim (Bool-cases (j == k)) [
    | inl same ↦ inl (ground (arith, lookup-insert k j v d, ==_iff j k))
    | inr other ↦ inr (ground (arith, ==_iff j k), ground (arith, lookup-insert k j v d))
  ]
