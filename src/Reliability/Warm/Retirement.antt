-- ===== src/Reliability/Warm/Retirement.antt =====
-- reliability/warm_routes.py: the retirement of a revision, and the proof that its streams drained.
-- `same_file` says that the control store's path is the route store's; `now` is the clock's reading.
use fin_serve.Prelude.{
  String, Bool, true, false, not, ◌&&◌, ◌||◌, Option, none, some, Eq, ◌==◌, ◌!=◌, nat_eq, string_eq,
  option_eq, is_some, if◌then◌else◌, any,
}
use fin_serve.Prelude.Result.{Result, ok, err, ◌>>=◌, ◌>>◌, raise_if}
use fin_serve.Prelude.Dict.{Dict, lookup, insert}
use fin_serve.Reliability.Contracts.{Digests}
use fin_serve.Reliability.Rollback.Store.{Store, Error}
use fin_serve.Reliability.Warm.Contracts.{WarmBackend, WarmDrainReceipt, backend_eq}
use fin_serve.Reliability.Warm.Store.{
  BackendRow, Tables, Outcome, transaction, has_url, retirement_blocked,
}
use fin_serve.Reliability.Warm.Backends.{row_of}

-- A deployment of the control store serves the revision, or would restore it.
unfoldable pub is_held : {T : Type 0} → String → Store T → Bool
is_held revision_id control =
    any (λ d. d.1.active_revision == revision_id || d.1.known_good_revision == revision_id)
      control.deployments

-- `INSERT OR IGNORE`
abbrev pub insert_or_ignore : {A : Type 0} → String → A → Dict String A → Dict String A
insert_or_ignore key value table =
    if is_some (lookup key table) then table else insert key value table

-- A digest that stands is the revision's.
abbrev pub differs : String → Option String → Bool
differs digest none = false
differs digest (some prior) = prior != digest

module _ {T P : Type 0} where
  unfoldable pub is_routed : String → Tables T P → Bool
  is_routed revision_id s = any (λ r. r.1.revision_id == revision_id) s.routes

  unfoldable pub was_routed : String → Tables T P → Bool
  was_routed revision_id s = any (λ e. e.revision_id == revision_id) s.events

  unfoldable pub has_admission : String → Tables T P → Bool
  has_admission revision_id s = any (λ row. row.1.revision_id == revision_id) s.admissions

module _ {T P : Type 0} ⦃t : Eq T⦄ ⦃p : Eq P⦄ (digests : Digests T) where
  abbrev pub digest_of : WarmBackend P → String
  digest_of b = digests.revision b.revision

  abbrev pub retired : WarmBackend P → Tables T P → Tables T P
  retired b s = record s {
    retirements = insert_or_ignore b.revision.revision_id (digest_of b) s.retirements;
  }

  abbrev pub receipt_of : WarmBackend P → T → Tables T P → WarmDrainReceipt T
  receipt_of b now s = record {
    store_identity = s.identity;
    revision_id = b.revision.revision_id;
    revision_digest = digest_of b;
    observed_at = now;
  }

  -- The end of `retire_drained`: the retirement is committed also when streams remain.
  unfoldable pub fence_and_prove : WarmBackend P → T → Tables T P → Result Error (Bool × Tables T P)
  fence_and_prove b now s =
      let id = b.revision.revision_id in
      let s' = retired b s in
      if differs (digest_of b) (lookup id s.retirements)
      then err Error.conflict
      else if has_admission id s'
      then ok (false, s')
      else ok (true, record s' { receipts = insert_or_ignore id (receipt_of b now s) s'.receipts })

  abbrev pub drain_known :
      WarmBackend P → T → Tables T P → Option (BackendRow P) → Result Error (Bool × Tables T P)
  drain_known b now s none = err Error.conflict
  drain_known b now s (some row) =
      if row.payload != b
      then err Error.conflict
      else if any (λ e. not e.admission_protocol) s.events
      then ok (false, s)
      else fence_and_prove b now s

  abbrev pub must_stay : Store T → String → Tables T P → Bool
  must_stay control id s =
      retirement_blocked id false s
      || not s.admission_protocol
      || is_routed id s
      || is_held id control

  unfoldable pub drain_in :
      Bool → Store T → WarmBackend P → T → Tables T P → Result Error (Bool × Tables T P)
  drain_in same_file control b now s =
      if same_file
      then err Error.invalid
      else if must_stay control b.revision.revision_id s
      then ok (false, s)
      else drain_known b now s (lookup b.revision.revision_id s.backends)

  unfoldable pub retire_drained : Bool → Store T → WarmBackend P → T → Tables T P → Outcome T P Bool
  retire_drained same_file control b now s = transaction s (drain_in same_file control b now s)

  unfoldable pub drain_pending : WarmBackend P → Tables T P → Bool
  drain_pending b s =
      s.admission_protocol
      && lookup b.revision.revision_id s.retirements == some (digest_of b)
      && not (is_some (lookup b.revision.revision_id s.receipts))

  -- The backend of a revision to be retired is registered, if it is not.
  abbrev pub reserve_endpoint :
      WarmBackend P → Tables T P → Option (BackendRow P) → Result Error (Tables T P)
  reserve_endpoint b s (some row) = if row.payload != b then err Error.conflict else ok s
  reserve_endpoint b s none =
      if has_url b.configuration.base_url s.backends
      then err Error.conflict
      else ok (record s { backends = insert b.revision.revision_id (row_of b) s.backends })

  abbrev pub retire_new : WarmBackend P → Tables T P → Result Error (Bool × Tables T P)
  retire_new b s = do
    s' ← reserve_endpoint b s (lookup b.revision.revision_id s.backends)
    raise_if (differs (digest_of b) (lookup b.revision.revision_id s.retirements)) Error.conflict
    ok (true, retired b s')

  abbrev pub may_serve : Store T → String → Tables T P → Bool
  may_serve control id s = retirement_blocked id true s || was_routed id s || is_held id control

  unfoldable pub retire_in :
      Bool → Store T → WarmBackend P → Tables T P → Result Error (Bool × Tables T P)
  retire_in same_file control b s =
      if same_file
      then err Error.invalid
      else if may_serve control b.revision.revision_id s
      then ok (false, s)
      else retire_new b s

  unfoldable pub retire_unserved : Bool → Store T → WarmBackend P → Tables T P → Outcome T P Bool
  retire_unserved same_file control b s = transaction s (retire_in same_file control b s)
