-- ===== src/Scheduler/Eligibility.antt =====
-- What `is_eligible` of scheduler/policy.py promises of the replicas that it lets through.
use fin_serve.Prelude.{
  refl, Option, some, ◌≡◌, ◌≢◌, ◌<◌, true, none, arith, ==_iff, string_eq, option_eq,
}
use fin_serve.Prelude.Float.{Float}
use fin_serve.Scheduler.Contracts.{RoutingRequest}
use fin_serve.Scheduler.Policy.{
  RoutingPolicy, Candidate, is_eligible, is_fresh, is_fresh_or_none, is_below, available,
  matches_gpu, memory_safe,
}

module _ (F : Float) where
  open F use {Carrier, le, lt, sub, sub_nonneg}

  pub record Fits (c : Candidate Carrier) (request : RoutingRequest)
      (policy : RoutingPolicy Carrier) (now : Carrier) : Type 0 where
    pub healthy : c.snapshot.healthy ≡ true
    pub model : c.snapshot.model ≡ request.model
    pub room : c.effective_requests < c.snapshot.capacity
    pub not_later : le c.snapshot.received_at now ≡ true
    pub not_stale : le (sub now c.snapshot.received_at) policy.snapshot_ttl_seconds ≡ true
    pub has_gpu : request.requires_gpu ≡ true → c.snapshot.gpu_type ≢ none
    pub same_gpu : request.gpu_type ≢ none → request.gpu_type ≡ c.snapshot.gpu_type
    pub engine_fresh :
        (t : Carrier)
        → c.snapshot.engine_observed_at ≡ some t
        → (le t now ≡ true) × (le (sub now t) policy.snapshot_ttl_seconds ≡ true)
    pub memory_below :
        c.snapshot.gpu_type ≢ none
        → (used : Carrier) × (c.snapshot.gpu_memory_utilization ≡ some used)
          × (lt used policy.gpu_memory_limit ≡ true)
    pub memory_fresh :
        (t : Carrier)
        → c.snapshot.gpu_type ≢ none
        → c.snapshot.gpu_observed_at ≡ some t
        → (le t now ≡ true) × (le (sub now t) policy.snapshot_ttl_seconds ≡ true)

  fresh_or_none :
      (policy : RoutingPolicy Carrier) (now t : Carrier) (seen : Option Carrier)
      → is_fresh_or_none F policy now seen ≡ true
      → seen ≡ some t
      → (le t now ≡ true) × (le (sub now t) policy.snapshot_ttl_seconds ≡ true)
  unfolding is_fresh_or_none is_fresh
  fresh_or_none policy now t none h e = absurd (ground arith)
  fresh_or_none policy now t (some x) h e = (ground (arith, sub_nonneg now t), ground arith)

  below_some :
      (limit : Carrier) (used : Option Carrier)
      → is_below F limit used ≡ true
      → (x : Carrier) × (used ≡ some x) × (lt x limit ≡ true)
  unfolding is_below
  below_some limit none h = absurd (ground arith)
  below_some limit (some x) h = (x, refl, h)

  -- The parts of `is_eligible` that look at optional observations.
  observations :
      (c : Candidate Carrier) (request : RoutingRequest) (policy : RoutingPolicy Carrier)
      (now : Carrier)
      → is_eligible F c request policy now ≡ true
      → (is_fresh_or_none F policy now c.snapshot.engine_observed_at ≡ true)
        × (c.snapshot.gpu_type ≢ none
            → (is_below F policy.gpu_memory_limit c.snapshot.gpu_memory_utilization ≡ true)
              × (is_fresh_or_none F policy now c.snapshot.gpu_observed_at ≡ true))
  unfolding is_eligible memory_safe
  observations c request policy now h = (ground arith, λ g. (ground arith, ground arith))

  -- An eligible candidate fits.
  pub is_eligible-Fits :
      (c : Candidate Carrier) (request : RoutingRequest) (policy : RoutingPolicy Carrier)
      (now : Carrier)
      → is_eligible F c request policy now ≡ true
      → Fits c request policy now
  unfolding is_eligible available is_fresh matches_gpu
  is_eligible-Fits c request policy now h =
      let (engine, memory) = observations c request policy now h in
      record {
        healthy = ground arith;
        model = ground (arith, ==_iff c.snapshot.model request.model);
        room = ground arith;
        not_later = ground (arith, sub_nonneg now c.snapshot.received_at);
        not_stale = ground arith;
        has_gpu = λ e g. ground arith;
        same_gpu = λ g. ground (arith, ==_iff request.gpu_type c.snapshot.gpu_type);
        engine_fresh = λ t. fresh_or_none policy now t c.snapshot.engine_observed_at engine;
        memory_below =
            λ g. below_some policy.gpu_memory_limit c.snapshot.gpu_memory_utilization (memory g).0;
        memory_fresh = λ t g. fresh_or_none policy now t c.snapshot.gpu_observed_at (memory g).1;
      }
