-- ===== src/Reliability/Warm/Contracts.antt =====
-- reliability/warm_routes.py and warm_drain.py: their records. `T` is the type of the times, which
-- are positive floats, so that `==` is equality; `P` is the type of canonical serving profiles.
use fin_serve.Prelude.{
  ap, ℕ, ◌≡◌, ◌↔◌, String, Bool, true, false, not, ◌&&◌, Option, none, some, arith, Eq, ◌==◌,
  nat_eq, string_eq, option_eq, ==_iff,
}
use fin_serve.Reliability.Contracts.{Revision, revision_eq}

pub record BackendConfiguration : Type 0 where
  pub base_url : String
  pub model : String
  pub credential_env : Option String

abbrev pub configuration_beq : BackendConfiguration → BackendConfiguration → Bool
configuration_beq a b =
    a.base_url == b.base_url && a.model == b.model && a.credential_env == b.credential_env

pub configuration_beq_iff : (a b : BackendConfiguration) → (configuration_beq a b ≡ true) ↔ (a ≡ b)
configuration_beq_iff a b = ground (
  arith,
  ==_iff a.base_url b.base_url,
  ==_iff a.model b.model,
  ==_iff a.credential_env b.credential_env,
)

instance abbrev pub configuration_eq : Eq BackendConfiguration
configuration_eq = record { beq = configuration_beq; beq_iff = configuration_beq_iff }

pub record WarmBackend (P : Type 0) : Type 0 where
  pub revision : Revision
  pub configuration : BackendConfiguration
  pub serving_profile : Option P

-- `ServingProfileV1` and the digest of a configuration's JSON.
pub record Profiles (P : Type 0) : Type 0 where
  -- `verify_revision` returns
  pub verifies_revision : P → Revision → Bool
  pub base_url : P → String
  pub served_model : P → String
  pub credential_env : P → Option String
  -- `BackendConfiguration.digest`
  pub digest : BackendConfiguration → String

-- The validator `configuration_matches`.
unfoldable pub configuration_matches : {P : Type 0} → Profiles P → WarmBackend P → Bool
configuration_matches profiles b = elim b.serving_profile [
  | none ↦ b.revision.config_digest == profiles.digest b.configuration
  | some profile ↦
      profiles.verifies_revision profile b.revision
      && profiles.base_url profile == b.configuration.base_url
      && profiles.served_model profile == b.configuration.model
      && profiles.credential_env profile == b.configuration.credential_env
]

-- Each protocol is its one literal (`true`) or `None`.
pub record RouteSnapshot (T : Type 0) : Type 0 where
  pub deployment_id : String
  pub revision_id : String
  pub revision_digest : String
  pub generation : ℕ
  pub changed_at : T
  pub admission_protocol : Bool
  pub capacity_protocol : Bool

pub data Kind : Type 0 where
  serving collector probe : Kind

pub data Phase : Type 0 where
  reserved dispatched : Phase

abbrev pub kind_beq : Kind → Kind → Bool
kind_beq Kind.serving Kind.serving = true
kind_beq Kind.collector Kind.collector = true
kind_beq Kind.probe Kind.probe = true
kind_beq _ _ = false

abbrev pub phase_beq : Phase → Phase → Bool
phase_beq Phase.reserved Phase.reserved = true
phase_beq Phase.dispatched Phase.dispatched = true
phase_beq _ _ = false

abbrev pub bool_beq : Bool → Bool → Bool
bool_beq true b = b
bool_beq false b = not b

pub kind_beq_iff : (a b : Kind) → (kind_beq a b ≡ true) ↔ (a ≡ b)
kind_beq_iff a b = ground arith

pub phase_beq_iff : (a b : Phase) → (phase_beq a b ≡ true) ↔ (a ≡ b)
phase_beq_iff a b = ground arith

pub bool_beq_iff : (a b : Bool) → (bool_beq a b ≡ true) ↔ (a ≡ b)
bool_beq_iff a b = ground arith

instance abbrev pub kind_eq : Eq Kind
kind_eq = record { beq = kind_beq; beq_iff = kind_beq_iff }

instance abbrev pub phase_eq : Eq Phase
phase_eq = record { beq = phase_beq; beq_iff = phase_beq_iff }

instance abbrev pub bool_eq : Eq Bool
bool_eq = record { beq = bool_beq; beq_iff = bool_beq_iff }

module _ {P : Type 0} ⦃p : Eq P⦄ where
  abbrev pub backend_beq : WarmBackend P → WarmBackend P → Bool
  backend_beq a b =
      a.revision == b.revision
      && a.configuration == b.configuration
      && a.serving_profile == b.serving_profile

  pub backend_beq_iff : (a b : WarmBackend P) → (backend_beq a b ≡ true) ↔ (a ≡ b)
  backend_beq_iff a b = ground (
    arith,
    ==_iff a.revision b.revision,
    ==_iff a.configuration b.configuration,
    ==_iff a.serving_profile b.serving_profile,
  )

  instance abbrev pub backend_eq : Eq (WarmBackend P)
  backend_eq = record { beq = backend_beq; beq_iff = backend_beq_iff }

module _ {T : Type 0} ⦃t : Eq T⦄ where
  abbrev pub snapshot_beq : RouteSnapshot T → RouteSnapshot T → Bool
  snapshot_beq a b =
      a.deployment_id == b.deployment_id
      && a.revision_id == b.revision_id
      && a.revision_digest == b.revision_digest
      && a.generation == b.generation
      && a.changed_at == b.changed_at
      && a.admission_protocol == b.admission_protocol
      && a.capacity_protocol == b.capacity_protocol

  pub snapshot_beq_iff : (a b : RouteSnapshot T) → (snapshot_beq a b ≡ true) ↔ (a ≡ b)
  snapshot_beq_iff a b = ground (
    arith,
    ==_iff a.deployment_id b.deployment_id,
    ==_iff a.revision_id b.revision_id,
    ==_iff a.revision_digest b.revision_digest,
    ==_iff a.generation b.generation,
    ==_iff a.changed_at b.changed_at,
    ==_iff a.admission_protocol b.admission_protocol,
    ==_iff a.capacity_protocol b.capacity_protocol,
  )

  instance abbrev pub snapshot_eq : Eq (RouteSnapshot T)
  snapshot_eq = record { beq = snapshot_beq; beq_iff = snapshot_beq_iff }

-- The part of an admission's JSON that only a capacity store writes, but for its phase.
pub record Tag (T : Type 0) : Type 0 where
  pub kind : Kind
  pub anchor : Option (RouteSnapshot T)
  pub pool_generation : Option ℕ

-- The JSON that `admission_payload` writes.
pub record Payload (T P : Type 0) : Type 0 where
  pub route : RouteSnapshot T
  pub backend : WarmBackend P
  pub phase : Option Phase
  pub tag : Option (Tag T)

pub record AdmissionLease (T P : Type 0) : Type 0 where
  pub admission_id : String
  pub snapshot : RouteSnapshot T
  pub backend : WarmBackend P
  pub backend_started : ℕ
  pub backend_closed : ℕ
  pub kind : Option Kind
  pub phase : Phase
  pub anchor : Option (RouteSnapshot T)
  pub pool_generation : Option ℕ

-- `AdmissionLease.verified_closed`
abbrev pub verified_closed : {T P : Type 0} → AdmissionLease T P → Bool
verified_closed lease = lease.backend_started == lease.backend_closed

abbrev pub tag_of : {T P : Type 0} → AdmissionLease T P → Kind → Tag T
tag_of lease kind = record {
  kind = kind;
  anchor = lease.anchor;
  pool_generation = lease.pool_generation;
}

unfoldable pub admission_payload : {T P : Type 0} → AdmissionLease T P → Payload T P
admission_payload lease = record {
  route = lease.snapshot;
  backend = lease.backend;
  phase = elim lease.kind [ none ↦ none | some kind ↦ some lease.phase ];
  tag = elim lease.kind [ none ↦ none | some kind ↦ some (tag_of lease kind) ];
}

module _ {T : Type 0} ⦃t : Eq T⦄ where
  abbrev pub tag_beq : Tag T → Tag T → Bool
  tag_beq a b = a.kind == b.kind && a.anchor == b.anchor && a.pool_generation == b.pool_generation

  pub tag_beq_iff : (a b : Tag T) → (tag_beq a b ≡ true) ↔ (a ≡ b)
  tag_beq_iff a b = ground (
    arith,
    ==_iff a.kind b.kind,
    ==_iff a.anchor b.anchor,
    ==_iff a.pool_generation b.pool_generation,
  )

  instance abbrev pub tag_eq : Eq (Tag T)
  tag_eq = record { beq = tag_beq; beq_iff = tag_beq_iff }

abbrev four_beq :
    {A B C D : Type 0} ⦃d : Eq A⦄ ⦃e : Eq B⦄ ⦃f : Eq C⦄ ⦃g : Eq D⦄
    → A
    → A
    → B
    → B
    → C
    → C
    → D
    → D
    → Bool
four_beq a a' b b' c c' u u' = a == a' && b == b' && c == c' && u == u'

four_beq_iff :
    {A B C D : Type 0} ⦃d : Eq A⦄ ⦃e : Eq B⦄ ⦃f : Eq C⦄ ⦃g : Eq D⦄ (a a' : A) (b b' : B) (c c' : C)
    (u u' : D)
    → (four_beq a a' b b' c c' u u' ≡ true) ↔ ((a ≡ a') × (b ≡ b') × (c ≡ c') × (u ≡ u'))
four_beq_iff a a' b b' c c' u u' =
    ground (arith, ==_iff a a', ==_iff b b', ==_iff c c', ==_iff u u')

module _ {T P : Type 0} ⦃t : Eq T⦄ ⦃p : Eq P⦄ where
  abbrev pub payload_beq : Payload T P → Payload T P → Bool
  payload_beq a b =
      a.route == b.route && a.backend == b.backend && a.phase == b.phase && a.tag == b.tag

  pub payload_beq_iff : (a b : Payload T P) → (payload_beq a b ≡ true) ↔ (a ≡ b)
  payload_beq_iff a b =
      let parts = four_beq_iff a.route b.route a.backend b.backend a.phase b.phase a.tag b.tag in
      (
        λ h.
            let (x, y, z, w) = parts.0 h in
            λ i. record { route = x i; backend = y i; phase = z i; tag = w i },
        λ e.
            parts.1
              (ap (λ u. u.route) e, ap (λ u. u.backend) e, ap (λ u. u.phase) e, ap (λ u. u.tag) e),
      )

  instance abbrev pub payload_eq : Eq (Payload T P)
  payload_eq = record { beq = payload_beq; beq_iff = payload_beq_iff }

-- `observed_at` of the row that proves the drain; the other fields are constants.
pub record WarmDrainReceipt (T : Type 0) : Type 0 where
  pub store_identity : String
  pub revision_id : String
  pub revision_digest : String
  pub observed_at : T
