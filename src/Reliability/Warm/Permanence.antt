-- ===== src/Reliability/Warm/Permanence.antt =====
-- What the route store never takes back: events, retirements, drain receipts, backends and the
-- answers of actions.
use mathlib.Core.Path.{subst}
use fin_serve.Prelude.{
  ◌≡◌, ◌≢◌, refl, sym, ap, ◌∙◌, String, true, false, none, some, List, [], ◌∷◌, ◌++◌, arith, Eq,
  ◌==◌, ==_iff, string_eq, append-nil, append_assoc, inl, inr, Bool-cases,
}
use fin_serve.Prelude.Dict.{Dict, lookup, insert, lookup-insert}
use fin_serve.Reliability.Contracts.{Digests}
use fin_serve.Reliability.Rollback.Controller.{ApplyRequest}
use fin_serve.Reliability.Warm.Contracts.{RouteSnapshot, WarmDrainReceipt}
use fin_serve.Reliability.Warm.Store.{BackendRow, Tables, is_retired}
use fin_serve.Reliability.Warm.Retirement.{insert_or_ignore, has_admission}
use fin_serve.Reliability.Warm.Steps.{Step, Steps, SameBackend}
use fin_serve.Reliability.Warm.Invariant.{IsSound}
use fin_serve.Reliability.Warm.Preservation.{Steps-IsSound}
use fin_serve.Reliability.Warm.History.{Call, step, run, step-Steps, run-IsSound}

-- An entry of the first table stands in the second.
abbrev pub Keeps : {A : Type 0} → Dict String A → Dict String A → Type 0
Keeps {A} d d' = (k : String) (v : A) → lookup k d ≡ some v → lookup k d' ≡ some v

Keeps-refl : {A : Type 0} (d : Dict String A) → Keeps d d
Keeps-refl d k v h = h

insert_or_ignore-Keeps :
    {A : Type 0} (k : String) (v : A) (d : Dict String A) → Keeps d (insert_or_ignore k v d)
insert_or_ignore-Keeps k v d j w h = ground (arith, lookup-insert k j v d, ==_iff j k)

insert-Keeps :
    {A : Type 0} (k : String) (v : A) (d : Dict String A)
    → lookup k d ≡ none
    → Keeps d (insert k v d)
insert-Keeps k v d new j w h = ground (arith, lookup-insert k j v d, ==_iff j k)

module _ {T P : Type 0} where
  -- A later state of the store.
  pub record Extends (s s' : Tables T P) : Type 0 where
    pub later : List (RouteSnapshot T)
    pub events : s'.events ≡ s.events ++ later
    pub retirements : Keeps s.retirements s'.retirements
    pub receipts : Keeps s.receipts s'.receipts
    pub actions : Keeps s.actions s'.actions
    pub backends :
        (id : String) (row : BackendRow P)
        → lookup id s.backends ≡ some row
        → (row' : BackendRow P) × (lookup id s'.backends ≡ some row') × (row'.payload ≡ row.payload)

  -- The revision has stopped for good: its receipt stands, no stream and no route uses it.
  pub record IsDrained (id : String) (receipt : WarmDrainReceipt T) (s : Tables T P) : Type 0 where
    pub proof : lookup id s.receipts ≡ some receipt
    pub gone : is_retired id s ≡ true
    pub quiet : has_admission id s ≡ false
    pub unrouted :
        (d : String) (r : RouteSnapshot T) → lookup d s.routes ≡ some r → r.revision_id ≢ id

  kept_backends :
      (s : Tables T P) (id : String) (row : BackendRow P)
      → lookup id s.backends ≡ some row
      → (row' : BackendRow P) × (lookup id s.backends ≡ some row') × (row'.payload ≡ row.payload)
  kept_backends s id row h = (row, h, refl)

  Extends-refl : (s : Tables T P) → Extends s s
  Extends-refl s = record {
    later = [];
    events = sym (append-nil s.events);
    retirements = λ k v h. h;
    receipts = λ k v h. h;
    actions = λ k v h. h;
    backends = λ id row h. (row, h, refl);
  }

  Extends-trans : (s m s' : Tables T P) → Extends s m → Extends m s' → Extends s s'
  Extends-trans s m s' e f = record {
    later = e.later ++ f.later;
    events = f.events ∙ ap (λ l. l ++ f.later) e.events ∙ append_assoc s.events e.later f.later;
    retirements = λ k v h. f.retirements k v (e.retirements k v h);
    receipts = λ k v h. f.receipts k v (e.receipts k v h);
    actions = λ k v h. f.actions k v (e.actions k v h);
    backends = λ id row h.
        let (mid, found, same) = e.backends id row h in
        let (row', found', same') = f.backends id mid found in (row', found', same' ∙ same);
  }

  backed-Keeps :
      (s : Tables T P) (k : String) (new : BackendRow P)
      → SameBackend new (lookup k s.backends)
      → (id : String) (row : BackendRow P) → lookup id s.backends ≡ some row
      → (row' : BackendRow P) × (lookup id (insert k new s.backends) ≡ some row')
        × (row'.payload ≡ row.payload)
  backed-Keeps s k new same id row h = elim (Bool-cases (id == k)) [
    | inl here ↦ (
      new,
      ground (arith, lookup-insert k id new s.backends),
      subst (SameBackend new) (ap (λ x. lookup x s.backends) (sym ((==_iff id k).0 here)) ∙ h) same,
    )
    | inr other ↦ (row, ground (arith, lookup-insert k id new s.backends), refl)
  ]

  pub Step-Extends : (digests : Digests T) (s s' : Tables T P) → Step digests s s' → Extends s s'
  Step-Extends digests s s' (Step.backed id row keyed same e) = subst (Extends s) (sym e) (record {
    later = [];
    events = sym (append-nil s.events);
    retirements = Keeps-refl s.retirements;
    receipts = Keeps-refl s.receipts;
    actions = Keeps-refl s.actions;
    backends = backed-Keeps s id row same;
  })
  Step-Extends digests s s' (Step.routed route row free found digest follows e) =
      subst (Extends s) (sym e) (record {
        later = route ∷ [];
        events = refl;
        retirements = Keeps-refl s.retirements;
        receipts = Keeps-refl s.receipts;
        actions = Keeps-refl s.actions;
        backends = kept_backends s;
      })
  Step-Extends digests s s' (Step.acted key action new there e) =
      subst (Extends s) (sym e) (record {
        later = [];
        events = sym (append-nil s.events);
        retirements = Keeps-refl s.retirements;
        receipts = Keeps-refl s.receipts;
        actions = insert-Keeps key action s.actions new;
        backends = kept_backends s;
      })
  Step-Extends digests s s' (Step.retired id digest h e) = subst (Extends s) (sym e) (record {
    later = [];
    events = sym (append-nil s.events);
    retirements = insert_or_ignore-Keeps id digest s.retirements;
    receipts = Keeps-refl s.receipts;
    actions = Keeps-refl s.actions;
    backends = kept_backends s;
  })
  Step-Extends digests s s' (Step.proved id receipt gone quiet e) =
      subst (Extends s) (sym e) (record {
        later = [];
        events = sym (append-nil s.events);
        retirements = Keeps-refl s.retirements;
        receipts = insert_or_ignore-Keeps id receipt s.receipts;
        actions = Keeps-refl s.actions;
        backends = kept_backends s;
      })
  Step-Extends digests s s' (Step.admitted id row free room e) = subst (Extends s) (sym e) (record {
    later = [];
    events = sym (append-nil s.events);
    retirements = Keeps-refl s.retirements;
    receipts = Keeps-refl s.receipts;
    actions = Keeps-refl s.actions;
    backends = kept_backends s;
  })
  Step-Extends digests s s' (Step.marked id old row found same e) =
      subst (Extends s) (sym e) (record {
        later = [];
        events = sym (append-nil s.events);
        retirements = Keeps-refl s.retirements;
        receipts = Keeps-refl s.receipts;
        actions = Keeps-refl s.actions;
        backends = kept_backends s;
      })
  Step-Extends digests s s' (Step.finished id e) = subst (Extends s) (sym e) (record {
    later = [];
    events = sym (append-nil s.events);
    retirements = Keeps-refl s.retirements;
    receipts = Keeps-refl s.receipts;
    actions = Keeps-refl s.actions;
    backends = kept_backends s;
  })
  Step-Extends digests s s' (Step.pooled same) = record {
    later = [];
    events = same.events ∙ sym (append-nil s.events);
    retirements = λ k v h. ap (lookup k) same.retirements ∙ h;
    receipts = λ k v h. ap (lookup k) same.receipts ∙ h;
    actions = λ k v h. ap (lookup k) same.actions ∙ h;
    backends = λ id row h. (row, ap (lookup id) same.backends ∙ h, refl);
  }

  pub Steps-Extends : (digests : Digests T) (s s' : Tables T P) → Steps digests s s' → Extends s s'
  Steps-Extends digests s s' (Steps.here e) = subst (Extends s) (sym e) (Extends-refl s)
  Steps-Extends digests s s' (Steps.next {m} before last) =
      Extends-trans s m s' (Steps-Extends digests s m before) (Step-Extends digests m s' last)

module _ {T P : Type 0} (digests : Digests T) (fingerprint_of : ApplyRequest → String)
    (sha256 retired_url : String → String) ⦃t : Eq T⦄ ⦃p : Eq P⦄ where
  -- After any calls of a sound route store its events are those from before with new ones behind
  -- them, every retirement, drain receipt and answer of an action still stands, and every
  -- registered backend is still registered under its revision.
  pub run-Extends :
      (s : Tables T P) (cs : List (Call T P))
      → IsSound digests s
      → Extends s (run digests fingerprint_of sha256 retired_url s cs)
  unfolding run
  run-Extends s [] v = Extends-refl s
  run-Extends s (c ∷ cs) v =
      let s1 = step digests fingerprint_of sha256 retired_url s c in
      let moves = step-Steps digests fingerprint_of sha256 retired_url s c v in
      Extends-trans s s1 (run digests fingerprint_of sha256 retired_url s1 cs)
        (Steps-Extends digests s s1 moves) (run-Extends s1 cs (Steps-IsSound digests s s1 moves v))

  IsSound-IsDrained :
      (s : Tables T P) (id : String) (receipt : WarmDrainReceipt T)
      → IsSound digests s
      → lookup id s.receipts ≡ some receipt
      → IsDrained id receipt s
  IsSound-IsDrained s id receipt v h =
      let (gone, quiet) = v.drained id receipt h in
      record {
        proof = h;
        gone = gone;
        quiet = quiet;
        unrouted =
            λ d r found same. cc (v.available d r found, ap (λ k. is_retired k s) same, gone);
      }

  -- In a sound route store a drain receipt of a revision stays through any calls, and after them
  -- the revision is retired, no stream of it is admitted, and no route of a deployment names it.
  pub run-IsDrained :
      (s : Tables T P) (cs : List (Call T P)) (id : String) (receipt : WarmDrainReceipt T)
      → IsSound digests s
      → lookup id s.receipts ≡ some receipt
      → IsDrained id receipt (run digests fingerprint_of sha256 retired_url s cs)
  run-IsDrained s cs id receipt v h =
      IsSound-IsDrained (run digests fingerprint_of sha256 retired_url s cs) id receipt
        (run-IsSound digests fingerprint_of sha256 retired_url s cs v)
        ((run-Extends s cs v).receipts id receipt h)
