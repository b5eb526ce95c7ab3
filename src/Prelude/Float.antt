-- ===== src/Prelude/Float.antt =====
-- Python's float, which the program does not implement: its operations, and the facts about its
-- order that IEEE 754 gives. An order with a NaN is false, so what holds only of finite values
-- says so. `thousandths` shows that the facts can be met, and runs the tests.
use mathlib.Core.Path.{◌≡◌}
use mathlib.Core.Bool.{Bool, true, false}
use native.Mathlib.Omega.{arith}
use Prim.Native.Nat.{ℕ, ◌*◌, ◌/◌}
use fin_serve.Prelude.Int.{ℤ, pos, negsuc, ◌+ℤ◌, ◌-ℤ◌, ◌*ℤ◌, leb_ℤ, ltb_ℤ}

pub record Float : Type 1 where
  pub Carrier : Type 0
  -- `a <= b` and `a < b`
  pub le : Carrier → Carrier → Bool
  pub lt : Carrier → Carrier → Bool
  pub add : Carrier → Carrier → Carrier
  pub sub : Carrier → Carrier → Carrier
  pub mul : Carrier → Carrier → Carrier
  pub zero : Carrier
  -- `a / b` of two ints, for a positive `b`
  pub ratio : ℕ → ℕ → Carrier
  -- `math.isfinite(a)`
  pub is_finite : Carrier → Bool
  pub le_trans : (a b c : Carrier) → le a b ≡ true → le b c ≡ true → le a c ≡ true
  pub lt→le : (a b : Carrier) → lt a b ≡ true → le a b ≡ true
  pub le→not_lt : (a b : Carrier) → le a b ≡ true → lt b a ≡ false
  pub not_lt→le :
      (a b : Carrier) → is_finite a ≡ true → is_finite b ≡ true → lt a b ≡ false → le b a ≡ true
  pub sub_nonneg : (a b : Carrier) → le zero (sub a b) ≡ true → le b a ≡ true

-- Thousandths, with products and quotients rounded down.
abbrev pub scale_down : ℤ → ℤ
scale_down (pos n) = pos (n / 1000)
scale_down (negsuc n) = negsuc (n / 1000)

pub ℤ-le_trans : (a b c : ℤ) → leb_ℤ a b ≡ true → leb_ℤ b c ≡ true → leb_ℤ a c ≡ true
ℤ-le_trans a b c h k = ground arith

pub ℤ-lt→le : (a b : ℤ) → ltb_ℤ a b ≡ true → leb_ℤ a b ≡ true
ℤ-lt→le a b h = ground arith

pub ℤ-le→not_lt : (a b : ℤ) → leb_ℤ a b ≡ true → ltb_ℤ b a ≡ false
ℤ-le→not_lt a b h = ground arith

pub ℤ-not_lt→le :
    (a b : ℤ)
    → ◌≡◌ {A = Bool} true true
    → ◌≡◌ {A = Bool} true true
    → ltb_ℤ a b ≡ false
    → leb_ℤ b a ≡ true
ℤ-not_lt→le a b f g h = ground arith

pub ℤ-sub_nonneg : (a b : ℤ) → leb_ℤ (pos 0) (a -ℤ b) ≡ true → leb_ℤ b a ≡ true
ℤ-sub_nonneg a b h = ground arith

abbrev pub thousandths : Float
thousandths = record {
  Carrier = ℤ;
  le = leb_ℤ;
  lt = ltb_ℤ;
  add = λ a b. a +ℤ b;
  sub = λ a b. a -ℤ b;
  mul = λ a b. scale_down (a *ℤ b);
  zero = pos 0;
  ratio = λ a b. pos (a * 1000 / b);
  is_finite = λ a. true;
  le_trans = ℤ-le_trans;
  lt→le = ℤ-lt→le;
  le→not_lt = ℤ-le→not_lt;
  not_lt→le = ℤ-not_lt→le;
  sub_nonneg = ℤ-sub_nonneg;
}
