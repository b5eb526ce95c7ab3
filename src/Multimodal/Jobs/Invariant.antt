-- ===== src/Multimodal/Jobs/Invariant.antt =====
-- What every change of the rows of `VisualJobStore` keeps: the quotas, the fences, finished jobs, the
-- jobs that may not commit, and the meaning of an idempotency key.
use mathlib.Core.Path.{subst}
use fin_serve.Prelude.{
  ◌≡◌, ◌≤◌, sym, refl, String, true, false, ◌||◌, some, arith, string_eq, Bool-cases, length, inl,
  inr, ◌==◌, ==_iff,
}
use fin_serve.Prelude.Dict.{
  lookup, insert, Distinct, Distinct-insert, lookup-insert, lookup-insert_cases, length-insert,
}
use fin_serve.Multimodal.Contracts.{JobState, Row, is_pending, is_queued, is_running}
use fin_serve.Multimodal.Jobs.{JobStore, pending}
use fin_serve.Multimodal.Jobs.Rows.{
  pending-insert_known, pending-insert_new, Names, Names-insert_new, Names-insert_known,
}
use fin_serve.Multimodal.Jobs.Moves.{Edge, IsFenced, Change, unchanged, accepted, moved}

edge_pending : (x y : JobState) → Edge x y → is_pending y ≡ true → is_pending x ≡ true
edge_pending x y Edge.claim h = refl
edge_pending x y Edge.drop h = refl
edge_pending x y Edge.fence h = refl
edge_pending x y Edge.succeed h = refl
edge_pending x y Edge.settle_cancelled h = refl
edge_pending x y Edge.settle_failed h = refl
edge_pending x y Edge.observe_running h = refl
edge_pending x y Edge.observe_fenced h = refl

edge_closed :
    (x y : JobState)
    → Edge x y
    → (is_queued x || is_running x) ≡ false
    → (is_queued y || is_running y) ≡ false
edge_closed x y Edge.claim h = cc
edge_closed x y Edge.drop h = refl
edge_closed x y Edge.fence h = refl
edge_closed x y Edge.succeed h = refl
edge_closed x y Edge.settle_cancelled h = refl
edge_closed x y Edge.settle_failed h = refl
edge_closed x y Edge.observe_running h = h
edge_closed x y Edge.observe_fenced h = refl

edge_live : (x y : JobState) → Edge x y → is_pending x ≡ true
edge_live x y Edge.claim = refl
edge_live x y Edge.drop = refl
edge_live x y Edge.fence = refl
edge_live x y Edge.succeed = refl
edge_live x y Edge.settle_cancelled = refl
edge_live x y Edge.settle_failed = refl
edge_live x y Edge.observe_running = refl
edge_live x y Edge.observe_fenced = refl

module _ {T I : Type 0} where
  -- The quotas are kept, no job stands twice, and every fence is the one of its attempt.
  pub record IsSound (s : JobStore T I) : Type 0 where
    pub quota : pending s.rows ≤ s.max_pending
    pub retained : length s.rows ≤ s.max_records
    pub distinct : Distinct s.rows
    pub fences : (id : String) (r : Row T I) → lookup id s.rows ≡ some r → IsFenced r

  inserted-IsSound :
      (id : String) (r : Row T I) (s : JobStore T I)
      → IsSound s
      → pending (insert id r s.rows) ≤ s.max_pending
      → length (insert id r s.rows) ≤ s.max_records
      → IsFenced r
      → IsSound (record s { rows = insert id r s.rows })
  inserted-IsSound id r s v quota retained fence = record {
    quota = quota;
    retained = retained;
    distinct = Distinct-insert id r s.rows v.distinct;
    fences = λ j q found. elim (lookup-insert_cases id j r q s.rows found) [
      | inl (_, same) ↦ subst IsFenced same fence
      | inr (_, before) ↦ v.fences j q before
    ];
  }

  pub Change-IsSound : (s s' : JobStore T I) → Change s s' → IsSound s → IsSound s'
  Change-IsSound s s' (unchanged same) v = subst IsSound (sym same) v
  Change-IsSound s s' (accepted id r fresh room space waits new same) v = subst IsSound (sym same) (
      inserted-IsSound id r s v (ground (arith, pending-insert_new id r s.rows fresh))
        (ground (arith, length-insert id r s.rows)) (rw waits new))
  Change-IsSound s s' (moved id w r found m same) v = subst IsSound (sym same) (
      inserted-IsSound id r s v
        (ground
          (arith, pending-insert_known id w r s.rows found (edge_pending _ _ m.edge), v.quota))
        (ground (arith, length-insert id r s.rows, v.retained))
        (m.fence_kept (v.fences id w found)))

  pub Change-final :
      (s s' : JobStore T I) (id : String) (r : Row T I)
      → Change s s'
      → lookup id s.rows ≡ some r
      → is_pending r.state ≡ false
      → lookup id s'.rows ≡ some r
  Change-final s s' id r (unchanged same) h k = ground arith
  Change-final s s' id r (accepted j q fresh _ _ _ _ same) h k =
      ground (arith, lookup-insert j id q s.rows, ==_iff id j)
  Change-final s s' id r (moved j w q found m same) h k =
      ground (arith, lookup-insert j id q s.rows, ==_iff id j, edge_live w.state q.state m.edge)

  -- The job is there, and no attempt of it may commit an artifact.
  pub record Closed (id : String) (s : JobStore T I) : Type 0 where
    pub row : Row T I
    pub found : lookup id s.rows ≡ some row
    pub closed : (is_queued row.state || is_running row.state) ≡ false

  pub Change-Closed : (s s' : JobStore T I) (id : String) → Change s s' → Closed id s → Closed id s'
  Change-Closed s s' id (unchanged same) c = subst (Closed id) (sym same) c
  Change-Closed s s' id (accepted j q fresh _ _ _ _ same) c = record {
    row = c.row;
    found = ground (arith, lookup-insert j id q s.rows, ==_iff id j, c.found);
    closed = c.closed;
  }
  Change-Closed s s' id (moved j w q found m same) c = elim (Bool-cases (id == j)) [
    | inl here ↦ record {
      row = q;
      found = ground (arith, lookup-insert j id q s.rows);
      closed = edge_closed w.state q.state m.edge (ground (arith, ==_iff id j, c.found, c.closed));
    }
    | inr away ↦ record {
      row = c.row;
      found = ground (arith, lookup-insert j id q s.rows, c.found);
      closed = c.closed;
    }
  ]

  pub Change-Names :
      (tenant key digest id : String) (s s' : JobStore T I)
      → Change s s'
      → Names tenant key digest id s.rows
      → Names tenant key digest id s'.rows
  Change-Names tenant key digest id s s' (unchanged same) n =
      subst (λ x. Names tenant key digest id x.rows) (sym same) n
  Change-Names tenant key digest id s s' (accepted j q fresh _ _ _ _ same) n =
      subst (λ x. Names tenant key digest id x.rows) (sym same)
        (Names-insert_new tenant key digest id j q s.rows n fresh)
  Change-Names tenant key digest id s s' (moved j w q found m same) n =
      subst (λ x. Names tenant key digest id x.rows) (sym same)
        (Names-insert_known tenant key digest id j w q s.rows n found m.job)
