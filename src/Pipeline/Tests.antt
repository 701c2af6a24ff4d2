-- ===== src/Pipeline/Tests.antt =====
-- A battery for the EU with one supplier, in a world whose model finds a clause for everything.
use kira_backend.Prelude.{
  String, ◌≡◌, refl, true, false, Option, none, some, List, [], ◌∷◌, nat_eq, string_eq, option_eq,
  Result, ok, err,
}
use kira_backend.Judgment.{Verdicts, compliance_passed}
use kira_backend.Risk as Risk
use kira_backend.Pipeline.{
  Stage, stage_queued, stage_geo, stage_risk, BatchStatus, batch_processing, batch_hitl_wait,
  ErrorReason, ComplianceResult, skipped, judged, extracted, BatchState, regulation_by_destination,
}
use kira_backend.Pipeline as Pipeline
use kira_backend.Pipeline.Gateway.{Extraction, Gateway}
use kira_backend.Pipeline.Compliance.{
  Answer, Court, Docket, judge, validate_cited_clauses, compliance_node, with_verdicts, published,
}
use kira_backend.Pipeline.Tables.{
  Batch, Db, reject, geographical_risk, hitl_requested, hitl_created,
}
use kira_backend.Pipeline.Nodes.{risk_scoring_node}
use kira_backend.Pipeline.Graph.{new_review, World, initial_state, hitl_resumed, resume_graph}
use kira_backend.Pipeline.Reviews.{open_reviews, approval_requests_again, resume_graph_stops}
use kira_backend.Pipeline.Verdicts.{
  IsGrounded, judge-IsGrounded, codes_of, compliance_node_rules_on_all,
  risk_scoring_ignores_verdicts,
}

abbrev extraction : Extraction
extraction = record {
  supplier_id = 5;
  provider_type = some "smelter";
  parsed_fields = ("origin", "KR") ∷ [];
  confidence_map = ("origin", 9300) ∷ [];
  supplier_confirmed = true;
}

abbrev gateway : Gateway
gateway = record {
  get_n_tier_supply_chain = λ _. some 5 ∷ none ∷ [];
  list_extraction_results = λ _. extraction ∷ [];
  required_fields = λ _. "origin" ∷ [];
  promote_extraction = λ _. some true;
}

abbrev answer : Answer
answer = record {
  verdict = some compliance_passed;
  needs_human_review = none;
  cited_clauses = "Art. 7" ∷ [];
  confidence_score = none;
  reasoning_text = none;
}

abbrev court : Court
court = record {
  call_llm_for_verdict = λ _ _ _. some answer;
  weighted_carbon = λ _. some 6000;
  missing_count = λ _. 0;
  has_regulation = λ _. true;
}

abbrev world : List (Option String) → World
world risks = record {
  keeps = true;
  gateway = gateway;
  court = court;
  execute_geo_audit = λ _. risks;
  top_supplier = λ _ _. none;
  sorted = λ fs. fs;
  score_of = λ _ _. 0;
  owners = λ _. 70 ∷ 71 ∷ [];
}

abbrev batch : Batch
batch = record {
  batch_id = 1;
  product_id = some 2;
  destination = "EU";
  current_stage = stage_queued;
  status = batch_processing;
  confidence_score = none;
}

abbrev docket : Docket
docket = record { compliance_results = []; compliance_completed = [] }

abbrev db : Db
db = record {
  batches = batch ∷ [];
  hitl_reviews = [];
  next_review = 40;
  geo_audit_results = [];
  docket = docket;
  risk = record { suppliers = (5, Risk.low) ∷ []; profiles = []; history = []; events = [] };
  final_judgments = [];
  events = [];
  queue = [];
}

-- A run that has found a risk in its geography
abbrev at_risk : BatchState
at_risk = record (initial_state 1 2 "EU" []) {
  current_stage = stage_geo;
  error_reason = some Pipeline.geographical_risk;
  hitl_required = true;
}

approval_requests_again_example :
    (s' : BatchState) × (db' : Db) × (hitl_resumed (λ _. 70 ∷ []) at_risk db ≡ ok (s', db'))
    × (open_reviews at_risk db' ≡ 1)
approval_requests_again_example =
    let (s', db', made, one, _, _, _, _, _) =
      approval_requests_again (λ _. 70 ∷ []) at_risk db refl refl in
    (s', db', made, one)

resume_graph_stops_example : resume_graph (world []) 1 reject (some at_risk) db ≡ none
resume_graph_stops_example = (resume_graph_stops (world []) 1 at_risk db).0

judge-IsGrounded_example :
    IsGrounded (validate_cited_clauses (record answer { cited_clauses = [] }))
unfolding judge
judge-IsGrounded_example =
    judge-IsGrounded
      (record court { call_llm_for_verdict = λ _ _ _. some (record answer { cited_clauses = [] }) })
      "EUDR" at_risk (validate_cited_clauses (record answer { cited_clauses = [] })) refl

abbrev regulated : BatchState
regulated = record at_risk { applicable_regulations = some ("CBAM" ∷ "GDPR" ∷ []) }

abbrev ruled : BatchState
ruled = with_verdicts regulated (("CBAM", compliance_passed) ∷ [], false, [])

compliance_node_rules_on_all_example : (vs : Verdicts) × (codes_of vs ≡ "CBAM" ∷ [])
unfolding compliance_node judge
compliance_node_rules_on_all_example =
    let (vs, review, state, codes, asked, error) =
      compliance_node_rules_on_all court regulated ruled docket
        (published regulated docket (
          ("CBAM", compliance_passed) ∷ [],
          false,
          record {
            batch_id = 1;
            regulation_code = "CBAM";
            verdict = compliance_passed;
            needs_human_review = false;
            confidence_score = 10000;
          }
              ∷ [],
        ))
        "CBAM" ("GDPR" ∷ []) refl refl in
    (vs, codes)

abbrev asked_once : Db
asked_once = record db {
  batches = record batch { status = batch_hitl_wait } ∷ [];
  hitl_reviews = new_review 40 1 geographical_risk stage_geo ∷ [];
  next_review = 41;
  events = hitl_requested 1 geographical_risk ∷ [];
  queue = hitl_created 1 70 ∷ [];
}

abbrev extracted_state : BatchState
extracted_state = record at_risk { extraction_result = some (extracted 1 (5 ∷ []) 9300 0 false 1) }

-- A batch that one court passes and another, whose model does not answer, rejects
abbrev unruled : BatchState
unruled = record extracted_state { applicable_regulations = some ("EUDR" ∷ []) }

abbrev silent : Court
silent = record court { call_llm_for_verdict = λ _ _ _. none }

abbrev or_else {ℓ} : {A : Type ℓ} → A → Result A → A
or_else a (ok b) = b
or_else a (err e) = a

abbrev after_ruling : Court → BatchState × Docket
after_ruling c = or_else (unruled, docket) (compliance_node c unruled db.docket)

abbrev after_scoring : Court → BatchState × Db
after_scoring c =
    let (s, d) = after_ruling c in
    or_else (unruled, db) (risk_scoring_node (λ _ _. none) s (record db { docket = d }))

risk_scoring_ignores_verdicts_example :
    ((after_scoring court).1.risk ≡ (after_scoring silent).1.risk)
    × ((after_scoring court).0.hitl_required ≡ (after_scoring silent).0.hitl_required)
unfolding compliance_node risk_scoring_node judge validate_cited_clauses Risk.calculate_risk_score
risk_scoring_ignores_verdicts_example =
    risk_scoring_ignores_verdicts (λ _ _. none) court silent unruled (after_ruling court).0
      (after_ruling silent).0 (after_scoring court).0 (after_scoring silent).0 db
      (after_scoring court).1 (after_scoring silent).1 (after_ruling court).1
      (after_ruling silent).1 refl refl refl refl
