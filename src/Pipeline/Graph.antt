-- ===== src/Pipeline/Graph.antt =====
-- The graph of backend/agents/graph.py: the interrupting node, the run between the router and the
-- nodes, its start and its resumption. langgraph restarts an interrupted node from its beginning,
-- so a resumed run asks for the review again. The dictionary that the router fills is langgraph's:
-- `keeps` says whether the next node reads what the router wrote.
use kira_backend.Prelude.{
  ℕ, zero, suc, ◌+◌, max, String, Bool, true, false, ◌&&◌, Option, none, some, List, [], ◌∷◌, ◌++◌,
  map, ◌==◌, nat_eq, string_eq, option_eq, Error, value_error, Result, ok, err, ◌>>=◌,
  if◌then◌else◌, any, find?,
}
use kira_backend.Risk as Risk
use kira_backend.Pipeline.{
  Stage, stage_queued, BatchStatus, batch_processing, batch_hitl_wait, ErrorReason,
  ExtractionResult, BatchState, Node, data_gateway, geo_audit, compliance, risk_scoring,
  final_judgment, hitl_interrupt, completed, route, with_regulations, node_of_stage,
}
use kira_backend.Pipeline as Pipeline
use kira_backend.Pipeline.Gateway.{Gateway, data_gateway_node}
use kira_backend.Pipeline.Compliance.{Court, Docket, compliance_node}
use kira_backend.Pipeline.Tables.{
  ReviewReason, geographical_risk, risk_escalated, gray_zone, ReviewStatus, hitl_pending,
  hitl_resolved, Resolution, approve, reject, HitlReview, Batch, hitl_requested, hitl_created, Db,
  has_batch, pause_batch_for_review, resume_batch_processing,
}
use kira_backend.Pipeline.Nodes.{
  geo_audit_node, risk_scoring_node, final_judgment_node, completed_node,
}

-- `_HITL_REASON_BY_ERROR.get(error_reason, "gray_zone")`
abbrev pub hitl_reason : Option ErrorReason → ReviewReason
hitl_reason (some Pipeline.geographical_risk) = geographical_risk
hitl_reason (some Pipeline.risk_escalated) = risk_escalated
hitl_reason _ = gray_zone

abbrev pub reason_beq : ReviewReason → ReviewReason → Bool
reason_beq geographical_risk geographical_risk = true
reason_beq risk_escalated risk_escalated = true
reason_beq gray_zone gray_zone = true
reason_beq _ _ = false

abbrev pub stage_rank : Stage → ℕ
stage_rank Pipeline.stage_queued = 0
stage_rank Pipeline.stage_extraction = 1
stage_rank Pipeline.stage_geo = 2
stage_rank Pipeline.stage_compliance = 3
stage_rank Pipeline.stage_risk = 4
stage_rank Pipeline.stage_judgment = 5

abbrev pub is_open : ReviewStatus → Bool
is_open hitl_resolved = false
is_open _ = true

abbrev pub is_same_request : ℕ → ReviewReason → Stage → HitlReview → Bool
is_same_request b reason stage r =
    r.batch_id == b
    && (reason_beq r.reason reason
        && (stage_rank r.trigger_stage == stage_rank stage && is_open r.status))

abbrev pub new_review : ℕ → ℕ → ReviewReason → Stage → HitlReview
new_review fresh b why stage = record {
  review_id = fresh;
  batch_id = b;
  reason = why;
  trigger_stage = stage;
  status = hitl_pending;
  resolution = none;
  decision_text = none;
  decided_by = none;
}

-- `create_pending_hitl_review`: whether a row was made.
abbrev pub create_pending_hitl_review : ℕ → ReviewReason → Stage → Db → Bool × Db
create_pending_hitl_review b reason stage db =
    if any (is_same_request b reason stage) db.hitl_reviews then (false, db) else (
      true,
      record db {
        hitl_reviews = db.hitl_reviews ++ new_review db.next_review b reason stage ∷ [];
        next_review = db.next_review + 1;
      },
    )

-- The event and the jobs of a new review
abbrev pub announce : List ℕ → ℕ → ReviewReason → Bool → Db → Db
announce owners b reason false db = db
announce owners b reason true db = record db {
  events = db.events ++ hitl_requested b reason ∷ [];
  queue = db.queue ++ map (hitl_created b) owners;
}

-- `hitl_interrupt_node` up to its `interrupt`
unfoldable pub request_review : (ℕ → List ℕ) → BatchState → Db → Result Db
request_review owners s db = do
  db' ← pause_batch_for_review s.batch_id db
  let (made, db'') =
      create_pending_hitl_review s.batch_id (hitl_reason s.error_reason) s.current_stage db'
  ok (announce (owners s.batch_id) s.batch_id (hitl_reason s.error_reason) made db'')

-- `float(confidence or 0.0)`
abbrev pub confidence_or_zero : Option ℕ → ℕ
confidence_or_zero none = 0
confidence_or_zero (some c) = c

abbrev pub approved_state : BatchState → BatchState
approved_state s = record s {
  batch_status = batch_processing;
  confidence_score = some (max (confidence_or_zero s.confidence_score) 8500);
  hitl_required = false;
  error_reason = none;
}

-- `hitl_interrupt_node` restarted with the response of the resumption
unfoldable pub hitl_resumed : (ℕ → List ℕ) → BatchState → Db → Result (BatchState × Db)
unfolding request_review
hitl_resumed owners s db = do
  db' ← request_review owners s db
  db'' ← resume_batch_processing s.batch_id db'
  ok (approved_state s, db'')

-- What the nodes ask outside of the tables, and langgraph's `keeps`.
pub record World : Type 0 where
  pub keeps : Bool
  pub gateway : Gateway
  pub court : Court
  pub execute_geo_audit : ℕ → List (Option String)
  pub top_supplier : List ℕ → Risk.Db → Option ℕ
  pub sorted : List String → List String
  pub score_of : Risk.Db → ℕ → ℕ
  pub owners : ℕ → List ℕ

pub data Stop : Type 0 where
  finished paused : BatchState → Stop
  raised : Error → Stop
  out_of_fuel : Stop

-- One node: it goes on with a state, or the run stops. A node that raises leaves the tables.
pub data Next : Type 0 where
  goes_on : BatchState → Db → Next
  stops : Stop → Db → Next

abbrev pub after : Db → Result (BatchState × Db) → Next
after db (ok (s, db')) = goes_on s db'
after db (err e) = stops (raised e) db

abbrev pub after_court : Db → Result (BatchState × Docket) → Next
after_court db (ok (s, d)) = goes_on s (record db { docket = d })
after_court db (err e) = stops (raised e) db

abbrev pub after_request : BatchState → Db → Result Db → Next
after_request s db (ok db') = stops (paused s) db'
after_request s db (err e) = stops (raised e) db

unfoldable pub node : World → Node → BatchState → Db → Next
unfolding data_gateway_node geo_audit_node compliance_node risk_scoring_node final_judgment_node
    request_review
node w data_gateway s db = goes_on (data_gateway_node w.gateway s) db
node w geo_audit s db =
    let (s', db') = geo_audit_node (w.execute_geo_audit s.batch_id) s db in goes_on s' db'
node w compliance s db = after_court db (compliance_node w.court s db.docket)
node w risk_scoring s db = after db (risk_scoring_node w.top_supplier s db)
node w final_judgment s db =
    let (s', db') = final_judgment_node w.sorted w.score_of s db in goes_on s' db'
node w hitl_interrupt s db = after_request s db (request_review w.owners s db)
node w completed s db = stops (finished (completed_node s)) db

-- The state that the routed node reads
abbrev pub routed : World → BatchState → BatchState
unfolding route
routed w s = if w.keeps then (route s).1 else s

unfoldable pub run : World → ℕ → BatchState → Db → Stop × Db
unfolding node route
run w zero s db = (out_of_fuel, db)
run w (suc n) s db = elim (node w (route s).0 (routed w s) db) [
  | goes_on s' db' ↦ run w n s' db'
  | stops r db' ↦ (r, db')
]

-- The five nodes of the stages and the last one
abbrev pub enough : ℕ
enough = 6

abbrev pub initial_state : ℕ → ℕ → String → List (String × String) → BatchState
initial_state batch product dest fields = record {
  batch_id = batch;
  product_id = some product;
  destination = dest;
  current_stage = stage_queued;
  batch_status = batch_processing;
  confidence_score = none;
  applicable_regulations = none;
  hitl_required = false;
  error_reason = none;
  confirmed_fields = fields;
  extraction_result = none;
  geo_result = none;
  compliance_result = none;
  final_judgment = none;
}

unfoldable pub start_graph : World → ℕ → ℕ → String → List (String × String) → Db → Stop × Db
unfolding run
start_graph w batch product destination fields db =
    run w enough (initial_state batch product destination fields) db

abbrev pub loaded : Batch → BatchState
loaded row = record (initial_state row.batch_id 0 row.destination []) {
  product_id = row.product_id;
  current_stage = row.current_stage;
  batch_status = row.status;
  confidence_score = elim row.confidence_score [ some (suc c) ↦ some (suc c) | _ ↦ none ];
}

-- `resume_graph` for an approval: from the checkpoint, or from the row of the batch.
abbrev pub continue_run : World → Db → Result (BatchState × Db) → Stop × Db
continue_run w db (ok (s, db')) = run w enough s db'
continue_run w db (err e) = (raised e, db)

abbrev pub load_state : ℕ → Db → Result (BatchState × Db)
load_state b db = elim (find? (has_batch b) db.batches) [
  | none ↦ err value_error
  | some row ↦ do db' ← resume_batch_processing b db; ok (approved_state (loaded row), db')
]

unfoldable pub resume_graph : World → ℕ → Resolution → Option BatchState → Db → Option (Stop × Db)
unfolding hitl_resumed
resume_graph w b reject checkpoint db = none
resume_graph w b approve none db = some (continue_run w db (load_state b db))
resume_graph w b approve (some s) db = some (continue_run w db (hitl_resumed w.owners s db))
