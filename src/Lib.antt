-- ===== src/Lib.antt =====
-- KIRA backend: supply-chain compliance of battery products. A supplier is asked for data
-- (backend/domains/submission), its form is measured (backend/domains/supplier), a batch runs
-- through a graph of agents (backend/agents), a human decides where the graph pauses
-- (backend/hitl), each node leaves a row in a hash chain (backend/infrastructure/trace.py,
-- backend/domains/audit), suppliers carry a risk score (backend/domains/risk) and products have
-- versioned BOMs (backend/domains/product), whose suppliers form a graph
-- (backend/domains/supplychain).
--
-- The parts:
--   Prelude       the library's names, Boolean tests, tables as lists (find?, update_where),
--                 Python's exceptions (Result, Error), integers with the clamp to 0..100.
--   Bom           product/state_machine.py: activate_bom_version, deprecate_bom_version over
--                 the table bom_versions. Unique: the invariant. Calls: answers and runs.
--   Submission    submission/models.py and state_machine.py: transition_submission. Service:
--                 the coordinators of submission/service.py. Paths, Tracked, Calls, Final: the
--                 audit history as a path of the matrix, runs of calls, final statuses.
--   Audit         trace.py: _write_audit, trace_node; audit/service.py: verify_chain. Chain: what
--                 verification accepts. Written: what the program writes.
--   Risk          risk/service.py and state_machine.py, upsert_risk_score of
--                 supplier/service.py. Score: the computation. Flag: the flag and the level.
--   Judgment      agents/final_judgment.py: the roll-up and the texts made from it.
--   Pipeline      agents/state.py, supervisor.py. Gateway, Compliance, Nodes: the nodes. Tables:
--                 the tables of the graph. Graph: interrupt, run, start_graph, resume_graph.
--                 Progress, Recorded and Runs: whole runs. Reviews: pause and resumption. Verdicts: rulings.
--   Hitl          hitl/state_machine.py, service.py, router.py. Decisions: the answers.
--                 Actions: what the additional actions enqueue.
--   Access        infrastructure/acl.py and auth.py: access list, guards. Connected: what they let
--                 through.
--   SupplyChain   domains/supplychain/repository.py: the edges of the map, their writes, the search
--                 for a cycle. Search, Cycle, Upward: what it answers and when it
--                 ends. Levels: hop levels. Relations: the
--                 services that add edges and handlers/supplier_invited.py, their answers and runs.
--                 Maps: confirmation. Tree: the recursive query of get_supplier_field_data. Gaps:
--                 missing data, requests, summary. GeoAudit: execute_geo_audit and the names of
--                 Xinjiang.
--   MasterForm    submit_master_form of domains/supplier/service.py. Writes: the sections, of
--                 domains/supplier/repository.py. Submit: the gate and the order of the writes.
--                 Kept, OnBehalf: forms written for a mine. Keys, Rounds, Factories: the
--                 rows of the factories through the loop. Prefill, Assembly:
--                 get_master_form_prefill and supplier/masterform_prefill.py. Best: its values.
--   Completeness  the form of a supplier, supplier/service.py. Gate: figures and gate.
--
-- A table is a list of rows in the order of their insertion; an operation takes the tables and
-- returns them; one that raises returns only its error, since its session is rolled back. An
-- identifier is a number, a key that the database makes is an argument or a counter, and a time is
-- a number of seconds. A confidence is a number of ten-thousandths, and any float where the prefill
-- reads one; a completion rate is one of hundredths of a percent. Scores are integers, as negative ones can be stored.
--
-- Bounds: a run of the graph has fuel 6, the five nodes of the stages and the last node; every node
-- moves the stage one on or stops, so that fuel is enough from any stage, and a run never uses
-- it up. A recursive query over the supply chain has as fuel one step more than there are edges.
--
-- Parameters: the digest of an audit row, the geocoder, the answers of the language model, the joins
-- over the supply chain, `sorted`, the select of a row without an order, PostGIS, Unicode folding
-- and word search, the strip of a text, the reading of numbers and their rounding by a column, and whether langgraph hands on
-- what the router writes. Not modelled: contributions and ratios of the supply chain, onboarding,
-- files, notifications, consent, regulation search, the event bus and the queue, and everything that
-- only reads or formats.
mod Prelude
pub mod Bom
pub mod Audit
pub mod Risk
pub mod Judgment
pub mod Submission
pub mod Pipeline
pub mod Hitl
pub mod Completeness
pub mod Access
pub mod SupplyChain
pub mod MasterForm
