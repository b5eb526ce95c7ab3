-- ===== src/Lib.antt =====
-- FinServe: a control plane for serving finance models. The library models its core as pure
-- functions over explicit state, one module tree for each package of `src/finserve`.
--
-- The parts, and the files that model them:
--
--   src/finserve/scheduler/policy.py, src/finserve/contracts/routing.py
--     `Scheduler/Policy`, `Scheduler/Contracts`, `Scheduler/Eligibility`: which replica may take a
--     request and how a candidate is scored.
--   src/finserve/scheduler/router.py
--     `Scheduler/Router` is `ReplicaRouter`, a function for each method, from the router to the
--     result and the next router: the lock makes each call one step. `Scheduler/Router/*` proves
--     what the calls promise; `History` runs sequences of them. A lease id is the pair of which the
--     code makes the text "owner:number".
--   src/finserve/contracts/deployment.py, `PromotionDecision` of src/finserve/reliability/promotion.py
--     `Reliability/Contracts`.
--   src/finserve/reliability/rollback.py
--     `Reliability/Rollback/Store` holds the tables of the database, `Deployments` and `Operations`
--     the methods of `DeploymentStore`: a transaction is a result that is written only when the
--     body succeeds. `Controller` is `RollbackController`: one attempt, with what the adapter answers
--     and what others do to the store at each await as arguments. `Workflow` follows one rollback
--     and `Leases` one lease through any calls; the other files of `Reliability/Rollback` hold the
--     proofs for single calls and the invariant.
--   src/finserve/multimodal/jobs.py, src/finserve/contracts/visual.py
--     `Multimodal/Contracts` and `Multimodal/Jobs`: `VisualJobStore`, its one table a dictionary by
--     job id. `Jobs/Moves` has the life of a job as a step relation, `Jobs/Invariant` and
--     `Jobs/History` what every sequence of calls keeps, `Jobs/Facts` what the clients rely on.
--   src/finserve/gateway/admission.py
--     `Gateway/Admission`.
--   src/finserve/gateway/body_limit.py
--     `Gateway/BodyLimit`: the messages of a request are a list.
--   src/finserve/engines/openai_adapter.py and chat_protocol.py
--     `Engines/Events` decodes the events of a response, `Engines/Completion` accounts for a
--     completion and loops over the events; a generator is the list that it yields with its end.
--     `Engines/Blocks` has the events as the format defines them, `Engines/Accounting` what a stream
--     has yielded.
--   src/finserve/evaluation/quality.py
--     `Evaluation/Quality`, and `Evaluation/Verdict` for what a passed evaluation says.
--   src/finserve/reliability/capacity_policy.py
--     `Reliability/Capacity` is the pure decision; `Capacity/Dwell` and `Capacity/History` say what
--     samples a proposal rests on.
--   src/finserve/reliability/warm_routes.py, warm_drain.py and capacity_store.py
--     `Reliability/Warm/Contracts` and `Warm/Store` hold the records and tables of `WarmRouteStore`,
--     `Backends` its registry and the admissions of streams, `Retirement` the fences that stop a
--     revision, `Routes` the cutover and its acknowledgment to the control store, `Baseline` the
--     checks of a stable baseline, and `Dispatch` the choice of a physical member. `Warm/Steps` splits
--     the calls into elementary steps, `Invariant` and `Preservation` say what each step keeps,
--     `Moves`, `Fences`, `Streams` and `Selection` which steps a call makes, and `History`,
--     `Permanence`, `Repeats`, `Room` and `Agreement` what follows.
--   src/finserve/registry/producer_stages.py, `ArtifactRef` of src/finserve/registry/artifacts.py
--     `Registry/Stages` and `Stages/Calls`: `ProducerStages`, a compare-and-set journal of stages.
--     `Stages/Steps` has the life of a stage as a step relation, `Stages/History` what every
--     sequence of calls keeps. The artifact store is the parameter `verified`.
--   src/finserve/reliability/promotion.py
--     `Reliability/Promotion`: the gates, over what reading the benchmark files yields;
--     `Promotion/Gate` says what an approval rests on.
--
-- How they interact: a deployment's revision is activated from an approved decision, the router
-- spreads the requests over its replicas, and a regression signal freezes the deployment until a
-- worker with a lease has restored the known-good revision. The route store holds which revision has
-- the traffic: it is cut over first, and the control store acknowledges the cutover while the route is
-- locked. A revision whose streams have drained is retired for good.
--
-- Numbers: counts are natural numbers, which Python's integers are here by validation. Floats are
-- an interface, `Prelude/Float`: an order on finite values with what IEEE arithmetic keeps of it,
-- and operations that may round; `thousandths` is an instance, used by the tests. Digests
-- (SHA256 of canonical JSON) are parameters, as are clocks, identifiers and random tokens, which
-- come in as arguments in the order in which the code reads them.
--
-- There is no fuel: every loop is structural on a list.
--
-- Not modelled: the network, the process and thread primitives (each locked call or database
-- transaction is one step), pydantic's bounds on the length of texts, files and the schema of the
-- databases, and the packages listed as such in the manifest.

pub mod Engines
pub mod Evaluation
pub mod Gateway
pub mod Multimodal
pub mod Prelude
pub mod Registry
pub mod Reliability
pub mod Scheduler
