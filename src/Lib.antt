-- ===== src/Lib.antt =====
-- horadus: models of the backend's core logic and the theorems that hold of them. Definitions keep the
-- names of the source; paths are from the repository's root.
--
-- Parts.
-- EventState models src/storage/event_state.py: the epistemic and activity states of an event, their
-- projection on the deprecated lifecycle field, and the effective evidence counts.
-- Lifecycle models src/processing/event_lifecycle.py, which moves the states of an event by mentions,
-- synchronisations and the periodic decay check; the table of events is a list, the two SQL updates of
-- the check are maps over it, and Lifecycle.Trace is the step relation of one event's history, with what
-- src/storage/event_extraction.py restores and src/processing/event_lineage.py repairs of its states.
-- Failover models src/processing/llm_failover.py: the classes of exceptions, the retries on a route and
-- the failover to a second one, over a provider whose replies are a function of its own state.
-- Pricing models src/processing/llm_pricing.py and `resolve_llm_token_pricing` of src/core/config.py.
-- InputSafety models src/processing/llm_input_safety.py.
-- TrendEngine models src/core/trend_engine.py and, as Restatement, src/core/trend_restatement.py: the
-- log-odds of a trend under evidence, decay and restatements, and the projection rebuilt from its
-- ledger. Its arithmetic is the parameter TrendEngine.Arith, whose laws are hypotheses where theorems
-- need them; the row of a trend, which the database keeps, and the object that a caller holds are both
-- state. TrendEngine.Restatement.History is the step relation of one state version. Where theorems take
-- the arithmetic as exact, they leave out that the columns of log-odds keep six decimals.
-- PrivilegedWrite models src/api/routes/_privileged_write_contract.py and
-- src/api/routes/_privileged_write_audit_deferred.py, and of src/storage/database.py how a session ends:
-- Intent is the canonical form of a request's intent, Audit the table with its unique key, Deferred the
-- successes that wait for the session, Requests and Guard the two ends of a write. The hash of an intent
-- is a parameter.
-- ReplayQueue models src/processing/event_lineage_replay.py: the queue of second-tier replays and the
-- lineages that wait for them. What other workers insert meanwhile is an argument.
-- Lineage models the split and the merge of src/processing/event_lineage.py over the links of events to
-- items: Change is what they write to an event, with src/storage/event_extraction.py's clearing, Evidence
-- the invalidation of evidence, which restates trends by TrendEngine.Restatement, and Repair puts these
-- together with ReplayQueue and Lifecycle. What an event's corroboration is, is a parameter.
-- Deduplication models src/processing/deduplication_service.py, and as Url its normal form of URLs. The
-- database, which chooses a row that a query selects, and the parser of URLs are parameters; the index
-- of the embeddings is approximate, so that a query by it may miss rows.
-- Scheduler models src/processing/tier2_voi_scheduler.py. Its arithmetic on floats is the parameter
-- Scheduler.Floats. The loop that interleaves the lanes runs on fuel, one more than the two lanes are
-- long: each round that goes on takes a decision off a lane.
-- Budget models src/processing/cost_tracker.py over a table of usage rows: the checks before a call and
-- the record after it. The cost of a call is exact; that of a row is rounded as its column stores it. It
-- resolves prices by Pricing.
-- Degraded models src/processing/degraded_llm_tracker.py: the evaluation of the degraded mode by what
-- Redis returned. Ratios are compared exactly.
-- ApiKeys models the keys of src/core/api_key_manager.py: how they are made, used, revoked, rotated and
-- saved, and as Restart how a manager starts from its settings and its file. A hash is read in its parts,
-- so its text and base64 are not modelled; the hash functions are a
-- parameter, which answers for any costs; what is drawn at random and how a save goes are arguments, and
-- the file holds records.
-- RateLimit models the in-memory rate limits of the same manager, which a revocation clears; the answer of the distributed limiter is given.
-- Policy models `invoke_with_policy` of src/processing/llm_policy.py, which checks the Budget, calls a
-- model by Failover, under a strict format first, and records the usage in the Budget.
--
-- Not modelled: the database's sessions and concurrent transactions, Redis, files and the network, which
-- stand as given answers; logs and metrics; and the parts of the program that no module above names.
-- Numbers that Python keeps as floats are exact, in the unit that each file names, or a parameter.
pub mod Prelude
pub mod EventState
pub mod Lifecycle
pub mod TrendEngine
pub mod PrivilegedWrite
pub mod ApiKeys
pub mod ReplayQueue
pub mod Lineage
pub mod Deduplication
pub mod Scheduler
pub mod Policy
pub mod Budget
pub mod Failover
pub mod RateLimit
pub mod Degraded
pub mod Pricing
pub mod InputSafety
