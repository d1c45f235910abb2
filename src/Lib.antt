-- ===== src/Lib.antt =====
-- NeonHearth watches a home network. This library models the parts of its service that decide:
-- the approval policy for new devices, the network doctor (a diagnostic engine, its diagnoses, the
-- repairs that it plans and the executor that runs them), the event bus that clients resume from,
-- the presence engine, which turns evidence about devices into their states, the connector that
-- quarantines devices on a W6 appliance, and the matching of advisories to devices.
--
-- The diagnostic engine fills a report, the report's failed checks become diagnoses, a diagnosis becomes a
-- repair plan, and a plan that may run is run by the executor, which judges it by a measurement of
-- the symptom. The other parts do not call each other: the policy is evaluated for one device at a time, the bus,
-- the presence engine and the connector each keep a state of their own. Each part speaks
-- to the outside through an interface of the code (the transport of probes, of repairs and of the appliance, a clock),
-- which is a parameter here: the theorems hold for every transport.
--
-- Prelude      library names, tests on numbers, lists, results, machine words, sorting
-- Text         the methods of `str` that the code tests texts with
-- External     what the code takes from other packages: uuid, chrono's instants, the f64 type, as
--              records of operations and of the documented laws; External/Sample has instances
-- Policy       crates/lattice-policy/src/lib.rs: `PolicyEngine::evaluate` is `evaluate`, cut at its
--              early returns; Policy/Types has the data of crates/lattice-domain/src/policy.rs and
--              evidence.rs; Safety, Deadlines and Families have the theorems
-- Doctor       crates/lattice-doctor/src: Probe is probe.rs, Check is check.rs, Diagnosis is
--              diagnosis.rs, Repair is repair.rs; Mtu joins a check, its diagnosis and its plan
--   Engine     engine.rs: `run` with its loop `run_loop` and the loop's body `visit`; Config is
--              `DoctorConfig`, Session the counter of probes beside the world, HostChecks and
--              PathChecks the twelve checks, Results what they share; Effects, Budget, Resolvers,
--              Details, Explained, Blame, Order and Report have the theorems
--   Executor   executor.rs: `execute` with its phases `after_snapshot`, `after_baseline`,
--              `after_apply` and `after_verification`; Journals is `EventLog` beside the world,
--              Symptoms the readings and their comparison; Protocol, Runs, Arguments and Verdicts
--              have the theorems
-- EventBus     crates/lattice-event-bus/src/lib.rs: `publish`, `resume_after`; Replay and Clients
--              have the theorems
-- Presence     crates/lattice-intelligence/src/presence.rs, with the data of
--              crates/lattice-domain/src/presence.rs in Types: Evidence, Candidates and Config have the
--              helper functions of the file, Devices the map of devices, Histories `push_history`,
--              `make_transition` and `domain_events_since`, Absorption what one piece of evidence does
--              to its device; Engine has `ingest_authorized`, cut at its early returns, `evaluate` and
--              `recompute`; Checkpoint has `checkpoint` and `from_checkpoint`, Screening its checks.
--              Maps, Retention, Moves, Taken, Pasts, Answers, Replay, Bounds, Capacity, Distinct, Safety,
--              Restoring, Roundtrip, Resaving, Apart, Accepted, Resaved and Timer have the theorems
-- Quarantine   crates/lattice-w6/src/lib.rs: `Connector` with its operations; Sessions has the calls of
--              one operation with the flag `renewed`, Types the data and the transport; Chains,
--              Verified, Logins, CapabilitySets and Renewals have the theorems
-- Advisory     crates/lattice-advisory/src/match.rs, with the data of lib.rs in Types: the parent has
--              `match_advisory` and `from_persisted`, Risk has `compose_risk`; Matching and Risks have
--              the theorems
--
-- A state that the code mutates is passed from step to step: the counter of probes and the world
-- behind the transport (`Session`), the log of events and the world (`Journal`), the bus, the
-- presence engine, the connector. The numbers are natural numbers; u32 and u64 arithmetic has its wrap-around, saturation or check
-- written out, and `usize` has 64 bits. There is no fuel: every loop runs over a list or a number that the code bounds.
-- Concurrency is not modelled: the bus works under a mutex, so that its operations are single steps,
-- and the engine and the executor wait for each answer before they go on.
--
-- Floats are a parameter with the operations that the code applies and no arithmetic laws; two laws
-- of `total_cmp` are stated. Time is a parameter with the laws of chrono's checked addition.
-- A hash map is an association list with each key once; nothing depends on its order.
--
-- Not modelled: the service around these parts (HTTP, SQL, platform commands), the sensors and cameras,
-- the feeds of advisories, the identity engine, the audit sandbox, the launcher and the desktop
-- application.
pub mod Prelude
pub mod Text
pub mod External
pub mod Policy
pub mod Doctor
pub mod EventBus
pub mod Presence
pub mod Quarantine
pub mod Advisory
