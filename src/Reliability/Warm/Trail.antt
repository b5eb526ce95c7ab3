-- ===== src/Reliability/Warm/Trail.antt =====
-- A deployment's events in the route store: their generations count up from 0, and the last one is
-- its route.
use fin_serve.Prelude.{
  ℕ, suc, ◌+◌, ◌≡◌, refl, Bool, Option, none, some, List, [], ◌∷◌, ◌++◌, arith, nat_eq, string_eq,
  if◌then◌else◌, keep, length, In, inl, inr,
}
use fin_serve.Reliability.Warm.Contracts.{RouteSnapshot}

abbrev pub last {ℓ} : {A : Type ℓ} → List A → Option A
last [] = none
last (x ∷ []) = some x
last (x ∷ y ∷ r) = last (y ∷ r)

pub last-append {ℓ} : {A : Type ℓ} (xs : List A) (x : A) → last (xs ++ x ∷ []) ≡ some x
last-append [] x = refl
last-append (y ∷ []) x = refl
last-append (y ∷ z ∷ r) x = last-append (z ∷ r) x

pub keep-append {ℓ} :
    {A : Type ℓ} (p : A → Bool) (xs : List A) (x : A)
    → keep p (xs ++ x ∷ []) ≡ (if p x then keep p xs ++ x ∷ [] else keep p xs)
keep-append p [] x = ground arith
keep-append p (y ∷ ys) x = ground (arith, keep-append p ys x)

pub In-last : {A : Type 0} (x : A) (xs : List A) → last xs ≡ some x → In x xs
In-last x [] h = cc
In-last x (y ∷ []) h = inl (cc)
In-last x (y ∷ z ∷ r) h = inr (In-last x (z ∷ r) h)

pub In-append : {A : Type 0} (x y : A) (xs : List A) → In x xs → In x (xs ++ y ∷ [])
In-append x y [] h = absurd h
In-append x y (z ∷ zs) (inl e) = inl e
In-append x y (z ∷ zs) (inr h) = inr (In-append x y zs h)

pub In-append_self : {A : Type 0} (x : A) (xs : List A) → In x (xs ++ x ∷ [])
In-append_self x [] = inl refl
In-append_self x (z ∷ zs) = inr (In-append_self x zs)

last-none : {A : Type 0} (xs : List A) → last xs ≡ none → xs ≡ []
last-none [] h = refl
last-none (x ∷ []) h = cc
last-none (x ∷ y ∷ r) h = cc (last-none (y ∷ r) h)

module _ {T : Type 0} where
  -- The generations count up from `n`.
  unfoldable pub CountsFrom : ℕ → List (RouteSnapshot T) → Type 0
  CountsFrom n [] = Unit
  CountsFrom n (x ∷ xs) = (x.generation ≡ n) × CountsFrom (suc n) xs

  pub CountsFrom-append :
      (n : ℕ) (xs : List (RouteSnapshot T)) (x : RouteSnapshot T)
      → CountsFrom n xs
      → x.generation ≡ n + length xs
      → CountsFrom n (xs ++ x ∷ [])
  unfolding CountsFrom
  CountsFrom-append n [] x c e = (omega arith, tt)
  CountsFrom-append n (y ∷ ys) x c e = (c.0, CountsFrom-append (suc n) ys x c.1 (omega arith))

  pub CountsFrom-last :
      (n : ℕ) (xs : List (RouteSnapshot T)) (x : RouteSnapshot T)
      → CountsFrom n xs
      → last xs ≡ some x
      → suc x.generation ≡ n + length xs
  unfolding CountsFrom
  CountsFrom-last n [] x c h = cc
  CountsFrom-last n (y ∷ []) x c h = ground arith
  CountsFrom-last n (y ∷ z ∷ r) x c h = omega (arith, CountsFrom-last (suc n) (z ∷ r) x c.1 h)

  -- A new event follows the route that stood, if any.
  abbrev pub Follows : RouteSnapshot T → Option (RouteSnapshot T) → Type 0
  Follows x none = x.generation ≡ 0
  Follows x (some r) = x.generation ≡ suc r.generation

  -- The history `h` of a deployment that has the route `route`.
  pub record IsTrail (h : List (RouteSnapshot T)) (route : Option (RouteSnapshot T)) : Type 0 where
    pub counts : CountsFrom 0 h
    pub ends : last h ≡ route

  Follows-length :
      (x : RouteSnapshot T) (h : List (RouteSnapshot T)) (route : Option (RouteSnapshot T))
      → IsTrail h route
      → Follows x route
      → x.generation ≡ 0 + length h
  Follows-length x h none t f = rw (last-none h t.ends) (omega arith)
  Follows-length x h (some r) t f = omega (arith, CountsFrom-last 0 h r t.counts t.ends)

  pub IsTrail-append :
      (x : RouteSnapshot T) (h : List (RouteSnapshot T)) (route : Option (RouteSnapshot T))
      → IsTrail h route
      → Follows x route
      → IsTrail (h ++ x ∷ []) (some x)
  IsTrail-append x h route t f = record {
    counts = CountsFrom-append 0 h x t.counts (Follows-length x h route t f);
    ends = last-append h x;
  }
