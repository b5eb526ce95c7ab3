-- ===== src/Prelude/Set.antt =====
-- A Python set of hashable items, as a list without repetitions.
use Prim.Native.Nat.{suc}
use mathlib.Core.Path.{◌≡◌, refl}
use mathlib.Core.Bool.{Bool, false, not, ◌||◌, ◌&&◌}
use mathlib.Core.List.{List, [], ◌∷◌}
use native.Mathlib.Omega.{arith}
use fin_serve.Prelude.Tests.{if◌then◌else◌}
use fin_serve.Prelude.Lists.{length, keep}
use fin_serve.Prelude.Key.{Eq, ◌==◌, ◌!=◌, ==_iff, ==_refl}

module _ {ℓ} {A : Type ℓ} ⦃e : Eq A⦄ where
  -- `a in s`
  unfoldable pub contains : A → List A → Bool
  contains a [] = false
  contains a (x ∷ s) = a == x || contains a s

  -- `s.add(a)`
  unfoldable pub add : A → List A → List A
  unfolding contains
  add a s = if contains a s then s else a ∷ s

  -- `s.remove(a)`, of an item that is there
  unfoldable pub remove : A → List A → List A
  remove a [] = []
  remove a (x ∷ s) = if a == x then s else x ∷ remove a s

  -- `s - t`
  unfoldable pub minus : List A → List A → List A
  unfolding contains
  minus s t = keep (λ a. not (contains a t)) s

  -- Nothing stands twice.
  unfoldable pub Unrepeated : List A → Type 0
  unfolding contains
  Unrepeated [] = Unit
  Unrepeated (x ∷ s) = (contains x s ≡ false) × Unrepeated s

module _ {ℓ} {A : Type ℓ} ⦃e : Eq A⦄ where
  pub contains-add : (a b : A) (s : List A) → contains b (add a s) ≡ (b == a || contains b s)
  unfolding contains add
  contains-add a b s = ground (arith, ==_iff b a)

  pub Unrepeated-add : (a : A) (s : List A) → Unrepeated s → Unrepeated (add a s)
  unfolding contains add Unrepeated
  Unrepeated-add a s h = ground arith

  pub length-add :
      (a : A) (s : List A) → length (add a s) ≡ (if contains a s then length s else suc (length s))
  unfolding add
  length-add a s = ground arith

  pub contains-remove :
      (a b : A) (s : List A) → Unrepeated s → contains b (remove a s) ≡ (b != a && contains b s)
  unfolding contains remove Unrepeated
  contains-remove a b [] h = ground arith
  contains-remove a b (x ∷ s) h =
      ground (arith, ==_iff a x, ==_iff b a, ==_iff b x, contains-remove a b s h.1)

  pub Unrepeated-remove : (a : A) (s : List A) → Unrepeated s → Unrepeated (remove a s)
  unfolding contains remove Unrepeated
  Unrepeated-remove a [] h = tt
  Unrepeated-remove a (x ∷ s) h =
      ground (arith, contains-remove a x s h.1, Unrepeated-remove a s h.1)

  pub length-remove :
      (a : A) (s : List A)
      → length s ≡ (if contains a s then suc (length (remove a s)) else length (remove a s))
  unfolding contains remove
  length-remove a [] = refl
  length-remove a (x ∷ s) = ground (arith, length-remove a s)

  -- An item that is in neither set adds one to the difference.
  pub length-minus-add :
      (a : A) (s t : List A)
      → contains a s ≡ false
      → contains a t ≡ false
      → length (minus (add a s) t) ≡ suc (length (minus s t))
  unfolding minus add
  length-minus-add a s t h k = ground arith

  pub remove-add : (a : A) (s : List A) → contains a s ≡ false → remove a (add a s) ≡ s
  unfolding add remove
  remove-add a s h = ground (arith, ==_refl a)
