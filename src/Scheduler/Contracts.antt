-- ===== src/Scheduler/Contracts.antt =====
-- contracts/routing.py: what the router is told of a replica, what it is asked, and what it answers.
-- Floats are those of `Prelude.Float`, counts are numbers. A lease id, `f"{owner}:{sequence}"` in
-- the code, is kept as its two parts: the owner is one hexadecimal text, so two ids of a router
-- are the same text exactly when the parts agree.
use Prim.Native.String.{count}
use fin_serve.Prelude.{
  ℕ, ◌≡◌, ◌↔◌, String, Bool, true, ◌&&◌, Option, none, some, List, arith, leb, length, all, Eq,
  ◌==◌, nat_eq, string_eq, ==_iff,
}
use fin_serve.Prelude.Float.{Float}

pub record LeaseId : Type 0 where
  pub owner : String
  pub number : ℕ

abbrev pub lease_id_beq : LeaseId → LeaseId → Bool
lease_id_beq a b = a.owner == b.owner && a.number == b.number

pub lease_id_beq_iff : (a b : LeaseId) → (lease_id_beq a b ≡ true) ↔ (a ≡ b)
lease_id_beq_iff a b = ground (arith, ==_iff a.owner b.owner, ==_iff a.number b.number)

instance abbrev pub lease_id_eq : Eq LeaseId
lease_id_eq = record { beq = lease_id_beq; beq_iff = lease_id_beq_iff }

pub data Mode : Type 0 where
  least_load adaptive : Mode

-- `T` is the type of floats.
pub record ReplicaSnapshot (T : Type 0) : Type 0 where
  pub replica_id : String
  pub model : String
  pub received_at : T
  pub healthy : Bool
  pub capacity : ℕ
  pub ongoing_requests : ℕ
  pub queued_requests : ℕ
  pub gpu_type : Option String
  pub gpu_device_id : Option String
  pub gpu_memory_utilization : Option T
  pub gpu_observed_at : Option T
  pub engine_running_requests : Option ℕ
  pub engine_waiting_requests : Option ℕ
  pub kv_cache_utilization : Option T
  pub engine_observed_at : Option T
  pub cached_prefixes : List String
  pub reflected_lease_ids : List LeaseId

pub record RoutingRequest : Type 0 where
  pub model : String
  pub requires_gpu : Bool
  pub gpu_type : Option String
  pub prefix_digest : Option String

pub record RoutingDecision (T : Type 0) : Type 0 where
  pub replica_id : String
  pub policy : Mode
  pub score : T
  pub effective_requests : ℕ
  pub capacity : ℕ
  pub cache_affinity_used : Bool
  pub snapshot_age_seconds : T

-- `Identifier`: 1 to 256 characters.
pub is_identifier : String → Bool
is_identifier s = leb 1 (count s) && leb (count s) 256

abbrev pub holds_of_some {ℓ} : {A : Type ℓ} → (A → Bool) → Option A → Bool
holds_of_some p none = true
holds_of_some p (some a) = p a

module _ (F : Float) where
  open F use {Carrier, le, is_finite, zero, ratio}

  -- a finite float that is not negative
  pub is_reading : Carrier → Bool
  is_reading x = is_finite x && le zero x

  pub is_share : Carrier → Bool
  is_share x = is_finite x && le zero x && le x (ratio 1 1)

  -- `validate_reflected_leases`: acknowledged leases are part of the reported count.
  pub reflects_reported : ReplicaSnapshot Carrier → Bool
  reflects_reported s = leb (length s.reflected_lease_ids) s.ongoing_requests

  -- The bounds of the fields and the model validator. `is_digest` is the pattern of `PrefixDigest`.
  pub is_snapshot : (String → Bool) → ReplicaSnapshot Carrier → Bool
  unfolding is_identifier is_reading is_share reflects_reported
  is_snapshot is_digest s =
      is_identifier s.replica_id
      && is_identifier s.model
      && is_reading s.received_at
      && leb s.capacity 4096
      && holds_of_some is_identifier s.gpu_type
      && holds_of_some is_identifier s.gpu_device_id
      && holds_of_some is_share s.gpu_memory_utilization
      && holds_of_some is_reading s.gpu_observed_at
      && holds_of_some (λ n. leb n 65536) s.engine_running_requests
      && holds_of_some (λ n. leb n 65536) s.engine_waiting_requests
      && holds_of_some is_share s.kv_cache_utilization
      && holds_of_some is_reading s.engine_observed_at
      && leb (length s.cached_prefixes) 128
      && all is_digest s.cached_prefixes
      && leb (length s.reflected_lease_ids) 4096
      && reflects_reported s
