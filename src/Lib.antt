-- ===== src/Lib.antt =====
-- Chain-Sentinel is a backend that analyses smart contracts and watches protocols. This library
-- models the parts of backend/app/blockchain that decide when nodes are scanned, when a watched
-- protocol is due, which alerts are sent and which history is kept, and of what these rest on: the
-- protocol graph, the risk assessment, change detection and incremental re-analysis.
--
-- Graph: protocol_graph, and the contracts and relationships of protocol_scan/models.py. Nodes are
-- classified and merged in Graph/Nodes, edges derived and merged in Graph/Edges; the validator is
-- Graph/Validator, `build` with its error Graph/Builder, the adjacency map Graph/Build, and the
-- searches Graph/Traversal, whose lookup of neighbours asks for the lower case of an address, as the
-- code's does. These run on fuel: a search puts only targets of edges and its start on its queue or
-- path, so that the number of targets in the adjacency map bounds its steps or its depth; the search
-- for descendants and ancestors puts an address on its stack once for each edge, so that the square
-- of that number bounds it. Not modelled: the topological sort. A map from texts is a list of
-- entries in insertion order (Base/Dicts), a set a list without repetition (Base/Sets).
-- Scheduler: protocol_scheduler. `execute_with_retry` (retry.py) is Scheduler/Retry, an operation
-- being what its n-th call does; `NodeScanWorker` and the metrics are Scheduler/Worker;
-- `build_dependency_maps` is Scheduler/Incoming; the loop of `ProtocolScanScheduler.run` with
-- `_mark_skipped_nodes`, `_ready_nodes` and `_mark_unresolved_nodes` is Scheduler/Run, its state
-- the record RunState; the aggregation and the result are Scheduler/Aggregate. The analyzer that
-- a scan calls, with the clock, is the parameter Env. The loop runs on fuel, one round more than
-- there are nodes, which is enough since each round settles a node or is the last.
-- Watch: continuous/models.py, scheduler.py, protocol_subscription.py, watch_registry.py and
-- watch_manager.py, over the in-memory store of persistence.py. Each method takes the store and
-- returns the one after it, or the exception it raises; Watch/Lifecycle has as one type of
-- operations all that change the store, `save_subscription` and `emit_event` of the registry too.
-- SHA-256 and the text of a moment are the parameter Texts; a moment is a number of seconds of UTC.
-- RiskDelta: continuous/risk_delta. The summaries of severity_mapper.py are RiskDelta/Summary,
-- `DeltaClassifier` RiskDelta/Classifier, `DeltaExplainer` RiskDelta/Explainer and
-- `RiskDeltaEngine.compute` RiskDelta/Engine; its report is what alerting reads.
-- Evidence and Alerting: continuous/alerting over the evidence of risk/models.py and the report
-- of continuous/risk_delta/models.py. `AlertEngine.generate` is Alerting/Engine: the rules
-- (Alerting/Rules), then the deduplicator, the suppression policy and the router. An amount with
-- two decimals is its number of hundredths.
-- History: continuous/history, the in-memory store of records, the baselines and the retention
-- engine. The text of a moment is a parameter, in whose order records are listed. A policy's
-- limits are natural numbers.
-- Risk: risk/evidence.py is Risk/Evidence; risk/correlation is Risk/Correlation, its index of the
-- evidence, its built-in rules, the registry that they are registered in and the matcher; the
-- assessment from evidence of services/risk_engine.py is Risk/Engine. A score is its number of
-- hundredths, a weight an integer. app/models/enums.py is not in the repository: the levels have the
-- members that the code names.
-- Change: continuous/change_detection. snapshot.py is Change/Snapshot, the diff engine with the
-- classifier Change/Diff, `ChangeDetector` Change/Detector, and the store in memory with the payload
-- of a snapshot and the way back Change/Store. The values of a payload are those of its keys; a value
-- of a kind that no payload has at its key is an error of its own. SHA-256, the text of a moment and
-- its parsing are the parameters Texts and Codec.
-- Reanalysis: continuous/reanalysis, over the changes detected and the evidence. The impact of a
-- change, the selection of modules and the plan are Reanalysis/Plan, the evidence delta is
-- Reanalysis/Delta, and `ReanalysisOrchestrator.run` Reanalysis/Run, where what a module returns for
-- a context is the parameter Executor, and the time that passes an argument.
--
-- Letters are lowered as in ASCII. Free-form metadata holds texts, or the few kinds of value that
-- the code puts there. Not modelled: the evidence builder, timelines and trends, the runtime
-- engines, protocol discovery and reports, stores as JSON text, the analyzers of contracts, and
-- everything that only calls a database, a network or a web framework.
pub mod Base
pub mod Graph
pub mod Scheduler
pub mod Watch
pub mod Evidence
pub mod Alerting
pub mod History
pub mod RiskDelta
pub mod Risk
pub mod Change
pub mod Reanalysis
