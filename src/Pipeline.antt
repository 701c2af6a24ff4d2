-- ===== src/Pipeline.antt =====
-- The agent pipeline: the state of a batch of backend/agents/state.py and the router of
-- backend/agents/supervisor.py, with the table of regulations of backend/agents/compliance.py. A
-- confidence is a number of ten-thousandths: 0.85 is 8500. A key that the dictionary lacks is
-- `none`.
pub mod Gateway
pub mod Compliance
pub mod Tables
pub mod Nodes
pub mod Graph
pub mod Progress
pub mod Recorded
pub mod Runs
pub mod Reviews
pub mod Verdicts
mod Tests
use kira_backend.Prelude.{
  ℕ, zero, suc, ◌+◌, ◌-◌, ◌*◌, ◌/◌, ◌%◌, ◌≤◌, ◌<◌, min, max, String, ◌≡◌, refl, sym, ap, ◌∙◌, subst,
  ◌≢◌, ◌↔◌, ◌⊎◌, inl, inr, Bool, true, false, not, ◌&&◌, ◌||◌, Option, none, some, List, [], ◌∷◌,
  ◌++◌, map, arith, Eq, ◌==◌, nat_eq, string_eq, option_eq, option_beq_iff, contains, Error,
  value_error, type_error, integrity_error, database_error, batch_not_found, http, Result, ok, err,
  ◌>>=◌, ◌>>◌, raise_if, >>=-eq-ok, IfReturns, IfReturns-ok, ltb, leb, nat_beq, nat_beq_iff,
  if◌then◌else◌, Bool-cases, Option-cases, is_some, length, All, any, all, filter, count_if, find?,
  update_where, length-append, count_if-append, filter-append, All-append, All-map, any-append,
  find?-holds, find?-any, length-update_where, find?-update_self, find?-update_other,
  find?-append_new, find?-append_other,
}
use kira_backend.Judgment.{Verdict, Overall, Sentence, KeyRisk, Action}

pub data Stage : Type 0 where
  stage_queued stage_extraction stage_geo stage_compliance stage_risk stage_judgment : Stage

pub data BatchStatus : Type 0 where
  batch_processing batch_hitl_wait batch_completed batch_rejected : BatchStatus

-- The values of `error_reason` that the nodes write
pub data ErrorReason : Type 0 where
  low_confidence geographical_risk risk_escalated : ErrorReason

pub data ExtractionResult : Type 0 where
  no_product : ExtractionResult
  no_results : List ℕ → ExtractionResult
  extracted :
      (count : ℕ) (supplier_ids : List ℕ) (lowest_confidence unconfirmed : ℕ) (has_missing : Bool)
      (promoted_suppliers : ℕ)
      → ExtractionResult

pub record GeoResult : Type 0 where
  pub risk_detected : Bool
  pub risk_flags : List String

pub data ComplianceResult : Type 0 where
  skipped : ComplianceResult
  judged :
      (verdicts : List (String × Verdict)) (needs_human_review : Bool) (passed gray_zone : ℕ)
      → ComplianceResult

pub record FinalJudgment : Type 0 where
  pub overall_verdict : Overall
  pub executive_summary : List Sentence
  pub key_risks : List KeyRisk
  pub recommended_action : Action
  pub confidence : Option ℕ

pub record BatchState : Type 0 where
  pub batch_id : ℕ
  pub product_id : Option ℕ
  pub destination : String
  pub current_stage : Stage
  pub batch_status : BatchStatus
  pub confidence_score : Option ℕ
  pub applicable_regulations : Option (List String)
  pub hitl_required : Bool
  pub error_reason : Option ErrorReason
  pub confirmed_fields : List (String × String)
  pub extraction_result : Option ExtractionResult
  pub geo_result : Option GeoResult
  pub compliance_result : Option ComplianceResult
  pub final_judgment : Option FinalJudgment

-- REGULATION_BY_DESTINATION
abbrev pub eu_regulations : List String
eu_regulations =
    "EU_BATTERY_ART7" ∷ "EU_BATTERY_ART47" ∷ "EUDR" ∷ "CSDDD" ∷ "CBAM" ∷ "CONFLICT_MINERALS"
    ∷ "CRMA" ∷ []

abbrev pub regulation_by_destination : String → List String
regulation_by_destination d =
    if d == "EU"
    then eu_regulations
    else (if d == "US"
        then "UFLPA" ∷ "CONFLICT_MINERALS" ∷ []
        else (if d == "BOTH" then eu_regulations ++ "UFLPA" ∷ [] else []))

pub data Node : Type 0 where
  data_gateway geo_audit compliance risk_scoring final_judgment hitl_interrupt completed : Node

abbrev pub node_of_stage : Stage → Node
node_of_stage stage_queued = data_gateway
node_of_stage stage_extraction = geo_audit
node_of_stage stage_geo = compliance
node_of_stage stage_compliance = risk_scoring
node_of_stage stage_risk = final_judgment
node_of_stage stage_judgment = completed

-- What `route` writes into the state that it is given
abbrev pub with_regulations : BatchState → BatchState
with_regulations s = elim s.applicable_regulations [
  | none ↦ record s { applicable_regulations = some (regulation_by_destination s.destination) }
  | some _ ↦ s
]

-- `route`: the next node, and the state as the router leaves it.
unfoldable pub route : BatchState → Node × BatchState
route s = (
  elim s.error_reason [ none ↦ node_of_stage s.current_stage | some _ ↦ hitl_interrupt ],
  with_regulations s,
)
