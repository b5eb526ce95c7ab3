-- ===== src/Reliability/Warm/Room.antt =====
-- The member that a request is sent to has room, and no candidate with room has a smaller load.
use mathlib.Core.Path.{subst}
use fin_serve.Prelude.{
  ℕ, ◌≡◌, ◌⊎◌, ◌<◌, ◌≤◌, refl, sym, ap, ◌∙◌, String, Bool, true, false, not, ◌||◌, Option, none,
  some, List, [], ◌∷◌, arith, Eq, ◌!=◌, ==_iff, string_eq, if◌then◌else◌, ltb, In, inl, inr,
}
use fin_serve.Prelude.Result.{Result, ok, err, ok_of_bind}
use fin_serve.Prelude.Dict.{lookup}
use fin_serve.Reliability.Contracts.{Digests}
use fin_serve.Reliability.Rollback.Store.{Error}
use fin_serve.Reliability.Warm.Contracts.{
  WarmBackend, RouteSnapshot, snapshot_eq, Kind, AdmissionLease,
}
use fin_serve.Reliability.Warm.Store.{Tables, transaction, is_retired, require_available, or_zero}
use fin_serve.Reliability.Warm.Backends.{insert_admission}
use fin_serve.Reliability.Warm.Dispatch.{
  Load, least, is_less, loads, load_of, admissions_of, chosen_row, place, select_in,
  select_admission, member_route, or_full, kind_of, limit_of, plan_of, candidates,
}
use fin_serve.Reliability.Warm.Selection.{HasRoom, loads-HasRoom, least-All, select_in-Selects}

pub least-le_best : (best : Load) (xs : List Load) → (least best xs).count ≤ best.count
unfolding least
least-le_best best [] = omega arith
least-le_best best (x ∷ xs) = ground (arith, least-le_best (if is_less x best then x else best) xs)

pub least-le : (best : Load) (xs : List Load) (y : Load) → In y xs → (least best xs).count ≤ y.count
unfolding least
least-le best [] y m = absurd m
least-le best (x ∷ xs) y (inl e) =
    ground (arith, least-le_best (if is_less x best then x else best) xs, ap (λ l. l.count) e)
least-le best (x ∷ xs) y (inr m) = least-le (if is_less x best then x else best) xs y m

pub least-In : (best : Load) (xs : List Load) → In (least best xs) (best ∷ xs)
unfolding least
least-In best [] = inl refl
least-In best (x ∷ xs) = ground (arith, least-In (if is_less x best then x else best) xs)

same_of : {A : Type 0} ⦃e : Eq A⦄ (a b : A) (g : Bool) → (a != b || g) ≡ false → a ≡ b
same_of a b g h = ground (arith, ==_iff a b)

at_head : (b : Bool) (x : Load) (rest : List Load) → b ≡ true → In x (if b then x ∷ rest else rest)
at_head true x rest h = inl refl
at_head false x rest h = absurd (cc)

behind :
    (b : Bool) (y x : Load) (rest : List Load) → In x rest → In x (if b then y ∷ rest else rest)
behind true y x rest m = inr m
behind false y x rest m = m

split :
    (b : Bool) (y x : Load) (rest : List Load)
    → In x (if b then y ∷ rest else rest)
    → (x.revision_id ≡ y.revision_id) ⊎ In x rest
split true y x rest (inl e) = inl (ap (λ l. l.revision_id) e)
split true y x rest (inr m) = inr m
split false y x rest m = inr m

module _ {T P : Type 0} ⦃t : Eq T⦄ where
  -- What one candidate adds to the loads.
  abbrev with_load : ℕ → Tables T P → String → List Load → List Load
  with_load limit s j rest = if ltb (admissions_of j s) limit then load_of j s ∷ rest else rest

  covers_cons :
      (limit : ℕ) (s : Tables T P) (j : String) (rest xs : List Load) (id : String)
      → with_load limit s j rest ≡ xs
      → admissions_of id s < limit
      → (id ≡ j) ⊎ In (load_of id s) rest
      → In (load_of id s) xs
  covers_cons limit s j rest xs id same room (inl here) = subst (In (load_of id s)) same (
      subst (λ k. In (load_of id s) (with_load limit s k rest)) here
        (at_head (ltb (admissions_of id s) limit) (load_of id s) rest (ground arith)))
  covers_cons limit s j rest xs id same room (inr there) =
      subst (In (load_of id s)) same
        (behind (ltb (admissions_of j s) limit) (load_of j s) (load_of id s) rest there)

  cons_In :
      (limit : ℕ) (s : Tables T P) (j : String) (rest xs : List Load) (x : Load)
      → with_load limit s j rest ≡ xs
      → In x xs
      → (x.revision_id ≡ j) ⊎ In x rest
  cons_In limit s j rest xs x same m =
      split (ltb (admissions_of j s) limit) (load_of j s) x rest (subst (In x) (sym same) m)

  loads-covers :
      (limit : ℕ) (ids : List String) (s : Tables T P) (xs : List Load)
      → loads limit ids s ≡ ok xs
      → (id : String) → In id ids
      → admissions_of id s < limit
      → In (load_of id s) xs
  unfolding loads
  loads-covers limit [] s xs h id m room = absurd m
  loads-covers limit (j ∷ ids) s xs h id m room =
      let (u, free, h1) = ok_of_bind (require_available j s) _ xs h in
      let (rest, more, h2) = ok_of_bind (loads limit ids s) _ xs h1 in
      covers_cons limit s j rest xs id (ground arith) room (elim m [
        | inl here ↦ inl here
        | inr there ↦ inr (loads-covers limit ids s rest more id there room)
      ])

  loads-In :
      (limit : ℕ) (ids : List String) (s : Tables T P) (xs : List Load)
      → loads limit ids s ≡ ok xs
      → (x : Load) → In x xs
      → In x.revision_id ids
  unfolding loads
  loads-In limit [] s xs h x m =
      let none_left : xs ≡ [] = ground arith in absurd (subst (In x) none_left m)
  loads-In limit (j ∷ ids) s xs h x m =
      let (u, free, h1) = ok_of_bind (require_available j s) _ xs h in
      let (rest, more, h2) = ok_of_bind (loads limit ids s) _ xs h1 in
      elim (cons_In limit s j rest xs x (ground arith) m) [
        | inl here ↦ inl here
        | inr there ↦ inr (loads-In limit ids s rest more x there)
      ]

  -- The member that a request goes to.
  pub record GoesTo (ids : List String) (limit : ℕ) (s : Tables T P) (id : String) : Type 0 where
    pub candidate : In id ids
    pub free : is_retired id s ≡ false
    pub room : admissions_of id s < limit
    pub least_loaded :
        (other : String)
        → In other ids
        → admissions_of other s < limit
        → admissions_of id s ≤ admissions_of other s

  loads-GoesTo :
      (ids : List String) (limit : ℕ) (s : Tables T P) (x : Load) (xs : List Load)
      → loads limit ids s ≡ ok (x ∷ xs)
      → GoesTo ids limit s (least x xs).revision_id
  loads-GoesTo ids limit s x xs h =
      let all = loads-HasRoom limit ids s (x ∷ xs) h in
      let best = least-All (HasRoom limit s) x xs all.0 all.1 in
      record {
        candidate = loads-In limit ids s (x ∷ xs) h (least x xs) (least-In x xs);
        free = best.free;
        room = omega (arith, best.counted, best.room);
        least_loaded = λ other m room. elim (loads-covers limit ids s (x ∷ xs) h other m room) [
          | inl here ↦ omega (arith, best.counted, least-le_best x xs, ap (λ l. l.count) here)
          | inr there ↦ omega (arith, best.counted, least-le x xs (load_of other s) there)
        ];
      }

  module _ ⦃p : Eq P⦄ (digests : Digests T) where
    insert_admission-snapshot :
        (id : String) (route : RouteSnapshot T) (b : WarmBackend P) (kind : Kind)
        (anchor : Option (RouteSnapshot T)) (g : Option ℕ) (s : Tables T P)
        (lease : AdmissionLease T P) (s' : Tables T P)
        → insert_admission id route b kind anchor g s ≡ ok (lease, s')
        → lease.snapshot ≡ route
    unfolding insert_admission
    insert_admission-snapshot id route b kind anchor g s lease s' h = ground arith

    place-GoesTo :
        (sha256 : String → String) (route : RouteSnapshot T) (token : Option String) (kind : Kind)
        (id : String) (ids : List String) (limit : ℕ) (xs : List Load) (s : Tables T P)
        → loads limit ids s ≡ ok xs
        → (lease : AdmissionLease T P) (s' : Tables T P)
        → place digests sha256 route token kind id xs s ≡ ok (some lease, s')
        → GoesTo ids limit s lease.snapshot.revision_id
    unfolding place
    place-GoesTo sha256 route token kind id ids limit [] s measured lease s' h = absurd (cc)
    place-GoesTo sha256 route token kind id ids limit (x ∷ xs) s measured lease s' h =
        let chosen = least x xs in
        let (row, found, h1) = ok_of_bind (chosen_row chosen.revision_id s) _ (some lease, s') h in
        let ((made, m), inserted, last) =
          ok_of_bind
            (insert_admission id (member_route digests route chosen row.payload) row.payload kind
              (some route) (some (or_zero (lookup route.deployment_id s.generations))) s)
            _ (some lease, s') h1 in
        let same : made ≡ lease = ground arith in
        let at =
          insert_admission-snapshot id (member_route digests route chosen row.payload) row.payload
            kind (some route) (some (or_zero (lookup route.deployment_id s.generations))) s made m
            inserted in
        subst (GoesTo ids limit s)
          (sym (ap (λ r. r.revision_id) at) ∙ ap (λ l. l.snapshot.revision_id) same)
          (loads-GoesTo ids limit s x xs measured)

    or_full_ok :
        (s s' : Tables T P) (m : Result Error (Option (AdmissionLease T P) × Tables T P))
        (lease : AdmissionLease T P)
        → or_full digests (transaction s m) ≡ (ok lease, s')
        → m ≡ ok (some lease, s')
    or_full_ok s s' (ok (some l, m)) lease h = cc
    or_full_ok s s' (ok (none, m)) lease h = absurd (cc)
    or_full_ok s s' (err e) lease h = absurd (cc)

    -- A request that `select_admission` admits goes to a candidate that is not retired and whose
    -- admissions are fewer than the limit, and no candidate below the limit has fewer. The
    -- candidates and the limit are those of the expected route and of the kind of the request.
    pub select_admission-GoesTo :
        (sha256 : String → String) (expected : RouteSnapshot T) (request : String)
        (token : Option String) (id : String) (s s' : Tables T P) (lease : AdmissionLease T P)
        → select_admission digests sha256 expected request token id s ≡ (ok lease, s')
        → (kind : Kind) × (kind_of sha256 expected request token s ≡ ok kind)
          × GoesTo
              (candidates expected kind s)
              (limit_of expected (plan_of expected s))
              s
              lease.snapshot.revision_id
    unfolding select_admission
    select_admission-GoesTo sha256 expected request token id s s' lease h =
        let c =
          select_in-Selects digests sha256 expected request token id s (some lease) s'
            (or_full_ok s s' (select_in digests sha256 expected request token id s) lease h) in
        let same : c.route ≡ expected =
          same_of c.route expected (not c.route.capacity_protocol) c.same in
        subst
          (λ r.
            (kind : Kind) × (kind_of sha256 r request token s ≡ ok kind)
            × GoesTo (candidates r kind s) (limit_of r (plan_of r s)) s lease.snapshot.revision_id)
          same
          (
            c.kind,
            c.authority,
            place-GoesTo sha256 c.route token c.kind id (candidates c.route c.kind s)
                (limit_of c.route (plan_of c.route s)) c.xs s c.measured lease s' c.placed,
          )
