-- ===== src/Lib.antt =====
-- NetOpsBench, a benchmark of agents that diagnose network faults: the evaluation of a diagnosis and the
-- life of the incident that it is about, with the traffic and the leased runtimes under it.
--
-- An incident is prepared over a backend, an agent opens a session on it, calls tools within a budget
-- and submits a diagnosis; the evaluator scores the diagnosis against the ground truth of the episode,
-- and the incident is closed, which cleans the backend up. The parts and their files:
--
-- Prelude: numbers, lists, texts as lists of code points, decimal numerals, dicts as association
--   lists, and outcomes: a method of an object with state S is a function S -> Outcome A x S, and what
--   it wrote before it raised stays written.
-- Interface (netopsbench/platform/utils/interface_names.py): interface labels, their normalization and
--   equivalence. The regular expressions are functions on ASCII texts.
-- FaultType (netopsbench/evaluator/fault_type_judge.py, the alias index of
--   netopsbench/platform/faults/specs.py): canonical fault types and the optional judge. The judge is a
--   parameter, a function that returns or raises.
-- Scorer (netopsbench/evaluator/scorer.py): Evaluator.evaluate is Scorer.evaluate, _match_location is
--   match_location, generate_report is Scorer.Report. It uses Interface and FaultType. A score is kept in
--   thousandths; the rates of a report are fractions, and their rounding is left out, as are the F1
--   scores, which are made of the rounded rates.
-- Payload (netopsbench/platform/incident/payloads.py): the byte size of JSON values and compact_json.
-- Incident (netopsbench/platform/incident/engine.py): PreparedIncident, over a backend whose methods act
--   on a world of any type and may raise. Its child Truth is netopsbench/platform/incident/scoring.py, and
--   its child Session is DiagnosticSession, which uses Payload for what the agent sees and Scorer through
--   Incident.evaluate. Sequences of method calls are the relations Reach and SessionReach. The locks of
--   the code make each method one step. Clock readings are arguments, in microseconds.
-- Environment (netopsbench/platform/simulator/environment.py): DiagnosticEnvironment, reset and step over
--   one incident and one session of it.
-- Dispatch (netopsbench/platform/session/dispatch.py): the assignment of scenarios to workers, a worker's
--   run in Dispatch.Working, and the pool in Dispatch.Pool. Executor, files, scorer and trace writer are
--   parameters. The workers of a pool are taken one after the other: they share nothing but the pool,
--   which is written after the last one. Their indexes differ, so that each has its own result.
-- Traffic (netopsbench/platform/traffic): the load of a flow on the switches of its path is
--   Traffic.switch_path_pps, the greedy planner Traffic.Planner, the configuration with its counts
--   Traffic.Config. Packet rates are any type with the operations that the planner uses, so that nothing
--   is assumed of float arithmetic; which bandwidth texts float() refuses is a parameter too, and the
--   planner raises on them where the estimator does.
-- Leases (netopsbench/platform/simulator/runtime.py): RuntimeLeasePool, the exclusive leases of warm
--   runtimes. Calls of any clients in any order are the relation Leases.Runs.Reach; a waiting client is a
--   client that calls acquire again. Provisioning and teardown are parameters that may raise.
--   Leases.Episode is RuntimeEpisodeBackend, one environment on a leased runtime; what it does to the
--   runtime itself is the record Runner, a parameter.
-- Service (netopsbench/platform/simulator/service.py): SimulatorService, its slots and their pruning. A
--   list of calls, whatever they raise, is run by Service.Runs.run.
-- Faults (netopsbench/platform/faults): the payloads of active faults (models.py), the tracker
--   (services/tracking.py) and FaultInjector.recover_all (injector.py). The registry is a parameter: the
--   recovery of a type, if there is one, which acts on a world and may raise.
-- Topology (netopsbench/platform/topology/planning.py): ManagementAddressing, on the numbers of IP
--   addresses, those from 2 ^ 32 on being IPv6 addresses. Topology.Manifest
--   (netopsbench/models/topology.py): the canonical topology, its lookups and
--   its validator. Incident.Truth reads it.
-- Checks: runs on concrete inputs.
--
-- No definition uses fuel: every loop of the code is over a list, a number of rounds or a JSON
-- value, and the wait of acquire ends a step.
--
-- The quarantine of a pool also writes its metadata file, and that write is not modelled.
--
-- Results of tools are JSON values, results of a recovery have their type, and every exception is one that
-- `except Exception` catches.
--
-- Not modelled: the backend and its containers, the LLM behind the judge, the metrics of token usage,
-- the deployment of runtimes, the topology builders, the handlers of faults, pingmesh and scenario
-- parts of netopsbench/platform, the
-- rest of the session orchestration and its trace files, and netopsbench/sdk, cli and agents.
pub mod Prelude
pub mod Interface
pub mod FaultType
pub mod Scorer
pub mod Payload
pub mod Incident
pub mod Environment
pub mod Dispatch
pub mod Checks
pub mod Traffic
pub mod Leases
pub mod Service
pub mod Topology
pub mod Faults
