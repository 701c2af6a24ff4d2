-- ===== src/Pipeline/Nodes.antt =====
-- The other nodes of the graph: geo_audit_node of backend/agents/geo_audit.py, risk_scoring_node
-- and completed_node of backend/agents/graph.py, run_risk_scoring of
-- backend/agents/automation.py, final_judgment_node of backend/agents/final_judgment.py.
use kira_backend.Prelude.{
  ℕ, String, Bool, true, false, ◌||◌, Option, none, some, List, [], ◌∷◌, ◌++◌, ◌==◌, nat_eq,
  string_eq, option_eq, contains, value_error, Result, ok, err, ◌>>=◌, if◌then◌else◌, any, find?,
  update_where,
}
use kira_backend.Risk as Risk
use kira_backend.Risk.{calculate_risk_level, RiskLevel, Violation}
use kira_backend.Judgment.{
  Verdicts, roll_up_verdict, build_metrics, render_summary, render_key_risks, recommended_action,
}
use kira_backend.Pipeline.{
  stage_geo, stage_risk, stage_judgment, batch_completed, geographical_risk, risk_escalated,
  ExtractionResult, no_product, no_results, extracted, GeoResult, ComplianceResult, skipped, judged,
  FinalJudgment, BatchState,
}
use kira_backend.Pipeline.Compliance.{ComplianceRow, assign}
use kira_backend.Pipeline.Tables.{has_batch, Db}

-- The insert or update of the row of one batch
abbrev pub upsert {ℓ} : {A : Type ℓ} → ℕ → A → List (ℕ × A) → List (ℕ × A)
upsert b a rows =
    if any (λ row. row.0 == b) rows
    then update_where (λ row. row.0 == b) (λ _. (b, a)) rows
    else rows ++ (b, a) ∷ []

abbrev pub add_flag : String → List String → List String
add_flag f fs = if f == "" || contains fs f then fs else fs ++ f ∷ []

-- `list({r["risk_type"] ...})`, in the order of the first occurrences.
pub flags_of : List (Option String) → List String → List String
flags_of [] fs = fs
flags_of (none ∷ rs) fs = flags_of rs fs
flags_of (some f ∷ rs) fs = flags_of rs (add_flag f fs)

abbrev pub is_cons {ℓ} : {A : Type ℓ} → List A → Bool
is_cons [] = false
is_cons (_ ∷ _) = true

abbrev pub geo_result_of : List (Option String) → GeoResult
geo_result_of detected = record {
  risk_detected = is_cons detected;
  risk_flags = flags_of detected [];
}

-- `geo_audit_node`; `detected` is the answer of `execute_geo_audit`, the types of the risks found.
unfoldable pub geo_audit_node : List (Option String) → BatchState → Db → BatchState × Db
unfolding flags_of
geo_audit_node detected s db = (
  record s {
    geo_result = some (geo_result_of detected);
    error_reason = if is_cons detected then some geographical_risk else s.error_reason;
    hitl_required = is_cons detected || s.hitl_required;
    current_stage = stage_geo;
  },
  record db { geo_audit_results = upsert s.batch_id (geo_result_of detected) db.geo_audit_results },
)

-- `extraction.get("supplier_ids") or []`
abbrev pub supplier_ids : Option ExtractionResult → List ℕ
supplier_ids none = []
supplier_ids (some no_product) = []
supplier_ids (some (no_results ids)) = ids
supplier_ids (some (extracted _ ids _ _ _ _)) = ids

-- A value of the dictionary that the state has as `compliance_result`
pub data Value : Type 0 where
  verdicts_value : Verdicts → Value
  bool_value : Bool → Value
  number_value : ℕ → Value
  text_value : String → Value
  time_value : Value

-- The keys that compliance_node writes
abbrev pub dictionary : Option ComplianceResult → List (String × Value)
dictionary none = []
dictionary (some skipped) =
    ("verdicts", verdicts_value [])
    ∷ ("evaluated_at", time_value)
    ∷ ("skipped", bool_value true)
    ∷ []
dictionary (some (judged verdicts review passed gray_zone)) =
    ("verdicts", verdicts_value verdicts)
    ∷ ("needs_human_review", bool_value review)
    ∷ ("evaluated_at", time_value)
    ∷ ("passed", number_value passed)
    ∷ ("gray_zone", number_value gray_zone)
    ∷ []

-- `d.get(key)`
abbrev pub get : String → List (String × Value) → Option Value
get k [] = none
get k ((j, v) ∷ d) = if j == k then some v else get k d

-- `comp_res.get("reasoning_text", ...)`; a reason that is no text is none.
abbrev pub reason_of : Option Value → Option String
reason_of none = some "규제 심사 위반"
reason_of (some (text_value t)) = some t
reason_of (some _) = none

-- The text under `verdict`, with the reason
unfoldable pub verdict_key : Option ComplianceResult → Option (String × Option String)
verdict_key r =
    let d = dictionary r in
    elim (get "verdict" d) [
      | some (text_value t) ↦ some (t, reason_of (get "reasoning_text" d))
      | _ ↦ none
    ]

-- `if comp_res.get("verdict") in (...)`
abbrev pub compliance_violations : Option (String × Option String) → List Violation
compliance_violations none = []
compliance_violations (some (t, why)) =
    if t == "compliance_violation"
    then record { type = Risk.compliance_violation; reason = why } ∷ []
    else if t == "compliance_reject"
    then record { type = Risk.compliance_reject; reason = why } ∷ []
    else if t == "compliance_warning"
    then record { type = Risk.compliance_warning; reason = why } ∷ []
    else []

abbrev pub risk_detected : Option GeoResult → Bool
risk_detected none = false
risk_detected (some g) = g.risk_detected

abbrev pub geo_violations : Option GeoResult → List Violation
geo_violations g =
    if risk_detected g
    then record { type = Risk.geo_risk_detected; reason = some "지리적 위험(GeoRisk) 검출" } ∷ []
    else []

-- The updates of `run_risk_scoring` to the state
abbrev pub risk_updates : Bool → BatchState → BatchState
risk_updates escalated s = record s {
  current_stage = stage_risk;
  hitl_required = s.hitl_required || escalated;
  error_reason = if escalated then some risk_escalated else s.error_reason;
}

abbrev pub target_of : ℕ → Option ℕ → ℕ
target_of first none = first
target_of first (some t) = t

-- `risk_scoring_node`; `top` is the select of the supplier with the highest stored score.
unfoldable pub risk_scoring_node :
    (List ℕ → Risk.Db → Option ℕ) → BatchState → Db → Result (BatchState × Db)
unfolding Risk.calculate_risk_score verdict_key
risk_scoring_node top s db = elim (supplier_ids s.extraction_result) [
  | [] ↦ err value_error
  | sid ∷ sids ↦ do
    (r, risk') ←
        Risk.calculate_risk_score db.risk s.batch_id (target_of sid (top (sid ∷ sids) db.risk))
          (compliance_violations (verdict_key s.compliance_result) ++ geo_violations s.geo_result)
    ok (risk_updates r.is_escalated s, record db { risk = risk' })
]

-- `_load_verdicts`; the order of its rows, by their codes, is not kept.
pub load_verdicts : ℕ → List ComplianceRow → Verdicts → Verdicts
load_verdicts b [] d = d
load_verdicts b (row ∷ rows) d =
    load_verdicts b rows (if row.batch_id == b then assign row.regulation_code row.verdict d else d)

-- `compliance_result.get("verdicts") or await _load_verdicts(...)`
abbrev pub verdicts_of : BatchState → Db → Verdicts
unfolding load_verdicts
verdicts_of s db =
    let loaded = load_verdicts s.batch_id db.docket.compliance_results [] in
    elim s.compliance_result [ some (judged (v ∷ vs) _ _ _) ↦ v ∷ vs | _ ↦ loaded ]

abbrev pub load_geo : ℕ → List (ℕ × GeoResult) → GeoResult
load_geo b rows = elim (find? (λ row. row.0 == b) rows) [
  | none ↦ record { risk_detected = false; risk_flags = [] }
  | some (_, g) ↦ g
]

abbrev pub geo_of : BatchState → Db → GeoResult
geo_of s db = elim s.geo_result [ none ↦ load_geo s.batch_id db.geo_audit_results | some g ↦ g ]

-- The judgment from the verdicts, the geography and the score of the supply chain
unfoldable pub judgment_of :
    (List String → List String) → Verdicts → GeoResult → ℕ → Option ℕ → FinalJudgment
unfolding roll_up_verdict build_metrics render_summary render_key_risks
judgment_of sorted verdicts geo score confidence =
    let level = calculate_risk_level score in
    let overall = roll_up_verdict verdicts geo.risk_detected level in
    let metrics = build_metrics sorted verdicts geo.risk_flags geo.risk_detected score level in
    record {
      overall_verdict = overall;
      executive_summary = render_summary overall metrics;
      key_risks = render_key_risks metrics;
      recommended_action = recommended_action overall;
      confidence = confidence;
    }

-- `final_judgment_node`; `score_of` is `_load_risk_score`, the highest score of the batch's chain.
unfoldable pub final_judgment_node :
    (List String → List String) → (Risk.Db → ℕ → ℕ) → BatchState → Db → BatchState × Db
unfolding judgment_of load_verdicts
final_judgment_node sorted score_of s db =
    let j =
      judgment_of sorted (verdicts_of s db) (geo_of s db) (score_of db.risk s.batch_id)
        s.confidence_score in
    (
      record s { current_stage = stage_judgment; final_judgment = some j },
      record db {
        final_judgments = upsert s.batch_id j db.final_judgments;
        batches =
            update_where (has_batch s.batch_id)
              (λ row. record row { current_stage = stage_judgment }) db.batches;
      },
    )

abbrev pub completed_node : BatchState → BatchState
completed_node s = record s { batch_status = batch_completed }
