-- ===== src/Pipeline/Compliance.antt =====
-- The compliance node of backend/agents/compliance.py: its judges, what they make of a failed or
-- empty answer of the model, the stored rows and the node. The answer of the language model, the
-- search of the clauses and the selects are parameters.
use kira_backend.Prelude.{
  ℕ, zero, suc, String, Bool, true, false, ◌||◌, Option, none, some, List, [], ◌∷◌, ◌++◌, ◌==◌,
  nat_eq, string_eq, option_eq, contains, key_error, Result, ok, err, ◌>>=◌, if◌then◌else◌,
  count_if,
}
use kira_backend.Judgment.{
  Verdict, compliance_passed, compliance_reject, Verdicts, is_passed, is_warning,
}
use kira_backend.Pipeline.{stage_compliance, low_confidence, skipped, judged, BatchState}

-- The parts of a reasoning text
pub data Remark : Type 0 where
  llm_failed no_clauses no_declaration out_of_scope : Remark
  missing_declarations : ℕ → Remark
  reasoning : String → Remark

-- The JSON object that the model answers with; a key that it lacks is `none`.
pub record Answer : Type 0 where
  pub verdict : Option Verdict
  pub needs_human_review : Option Bool
  pub cited_clauses : List String
  pub confidence_score : Option ℕ
  pub reasoning_text : Option String

-- What a judge returns
pub record Ruling : Type 0 where
  pub verdict : Option Verdict
  pub needs_human_review : Bool
  pub cited_clauses : List String
  pub confidence_score : ℕ
  pub reasoning_text : List Remark

-- What the judges ask: the model, with `none` where the call raises, for a regulation; the
-- weighted carbon intensity of the batch in hundredths and the number of factories without a
-- declaration; and whether the regulation is in the table of regulations.
pub record Court : Type 0 where
  pub call_llm_for_verdict : String → BatchState → Option (ℕ × ℕ) → Option Answer
  pub weighted_carbon : ℕ → Option ℕ
  pub missing_count : ℕ → ℕ
  pub has_regulation : String → Bool

abbrev pub remarks : Option String → List Remark
remarks none = []
remarks (some t) = reasoning t ∷ []

abbrev pub or_default {ℓ} : {A : Type ℓ} → A → Option A → A
or_default a none = a
or_default a (some b) = b

-- `_validate_cited_clauses`
unfoldable pub validate_cited_clauses : Answer → Ruling
validate_cited_clauses a = elim a.cited_clauses [
  | [] ↦ record {
    verdict = some compliance_reject;
    needs_human_review = true;
    cited_clauses = [];
    confidence_score = or_default 9000 a.confidence_score;
    reasoning_text = no_clauses ∷ remarks a.reasoning_text;
  }
  | c ∷ cs ↦ record {
    verdict = a.verdict;
    needs_human_review = or_default false a.needs_human_review;
    cited_clauses = c ∷ cs;
    confidence_score = or_default 9000 a.confidence_score;
    reasoning_text = remarks a.reasoning_text;
  }
]

abbrev pub rejected_for : Remark → Ruling
rejected_for remark = record {
  verdict = some compliance_reject;
  needs_human_review = true;
  cited_clauses = [];
  confidence_score = 0;
  reasoning_text = remark ∷ [];
}

-- `_stub_passed_judge`
abbrev pub stub_passed_judge : String → Ruling
stub_passed_judge code = record {
  verdict = some compliance_passed;
  needs_human_review = false;
  cited_clauses = code ∷ [];
  confidence_score = 10000;
  reasoning_text = out_of_scope ∷ [];
}

-- The call in `try`, with the ruling of the `except` branch.
abbrev pub ruling_of : Option Answer → Ruling
ruling_of none = rejected_for llm_failed
ruling_of (some a) = validate_cited_clauses a

-- `judge_uflpa` and `judge_generic`
unfoldable pub judge_generic : Court → String → BatchState → Ruling
unfolding validate_cited_clauses
judge_generic court code s = ruling_of (court.call_llm_for_verdict code s none)

abbrev pub with_missing : ℕ → Ruling → Ruling
with_missing zero r = r
with_missing (suc n) r = record r {
  needs_human_review = true;
  reasoning_text = missing_declarations (suc n) ∷ r.reasoning_text;
}

-- `judge_carbon_footprint`; the failed call returns before the missing declarations are looked at.
unfoldable pub judge_carbon_footprint : Court → BatchState → Ruling
unfolding validate_cited_clauses
judge_carbon_footprint court s =
    let missing = court.missing_count s.batch_id in
    elim (court.weighted_carbon s.batch_id) [
      | none ↦ rejected_for no_declaration
      | some carbon ↦
          elim (court.call_llm_for_verdict "EU_BATTERY_ART7" s (some (carbon, missing))) [
            | none ↦ rejected_for llm_failed
            | some a ↦ with_missing missing (validate_cited_clauses a)
          ]
    ]

-- REGULATION_JUDGES, with the arguments that the node passes on
unfoldable pub judge : Court → String → BatchState → Option Ruling
unfolding judge_generic judge_carbon_footprint
judge court code s =
    if contains ("CBAM" ∷ "CONFLICT_MINERALS" ∷ "CRMA" ∷ []) code
    then some (stub_passed_judge code)
    else (if code == "EU_BATTERY_ART7"
        then some (judge_carbon_footprint court s)
        else (if contains ("UFLPA" ∷ "EU_BATTERY_ART47" ∷ "EUDR" ∷ "CSDDD" ∷ []) code
            then some (judge_generic court code s)
            else none))

-- A row of `compliance_results`
pub record ComplianceRow : Type 0 where
  pub batch_id : ℕ
  pub regulation_code : String
  pub verdict : Verdict
  pub needs_human_review : Bool
  pub confidence_score : ℕ

-- `_insert_compliance_result`: no row for a regulation that the table lacks.
abbrev pub insert_compliance_result :
    Court → ℕ → String → Verdict → Ruling → List ComplianceRow → List ComplianceRow
insert_compliance_result court batch code v r rows =
    if court.has_regulation code
    then rows
      ++ record {
        batch_id = batch;
        regulation_code = code;
        verdict = v;
        needs_human_review = r.needs_human_review;
        confidence_score = r.confidence_score;
      }
        ∷ []
    else rows

-- A dictionary assignment
abbrev pub assign : String → Verdict → Verdicts → Verdicts
assign k v [] = (k, v) ∷ []
assign k v ((j, w) ∷ d) = let rest = assign k v d in if j == k then (j, v) ∷ d else (j, w) ∷ rest

-- The loop of `compliance_node`: the verdicts, whether one needs a review, and the rows; a ruling
-- without a verdict is a KeyError.
unfoldable pub judge_all :
    Court
    → BatchState
    → List String
    → Verdicts
    → Bool
    → List ComplianceRow
    → Result (Verdicts × Bool × List ComplianceRow)
judge_all court s [] verdicts review rows = ok (verdicts, review, rows)
judge_all court s (code ∷ codes) verdicts review rows = elim (judge court code s) [
  | none ↦ judge_all court s codes verdicts review rows
  | some r ↦ elim r.verdict [
    | none ↦ err key_error
    | some v ↦
        judge_all court s codes (assign code v verdicts) (review || r.needs_human_review)
          (insert_compliance_result court s.batch_id code v r rows)
  ]
]

-- `float(confidence or 1.0)`: zero counts as missing.
abbrev pub actual_confidence : Option ℕ → ℕ
actual_confidence none = 10000
actual_confidence (some zero) = 10000
actual_confidence (some (suc n)) = suc n

abbrev pub with_verdicts : BatchState → Verdicts × Bool × List ComplianceRow → BatchState
with_verdicts s (verdicts, review, rows) = record s {
  current_stage = stage_compliance;
  confidence_score = some (actual_confidence s.confidence_score);
  error_reason = if review then some low_confidence else none;
  compliance_result =
      some (judged verdicts review (count_if is_passed verdicts) (count_if is_warning verdicts));
}

-- What the node writes: the rows, and the published ComplianceCompleted events
pub record Docket : Type 0 where
  pub compliance_results : List ComplianceRow
  pub compliance_completed : List (ℕ × Verdicts)

abbrev pub published : BatchState → Docket → Verdicts × Bool × List ComplianceRow → Docket
published s docket (verdicts, review, rows) = record {
  compliance_results = rows;
  compliance_completed = docket.compliance_completed ++ (s.batch_id, verdicts) ∷ [];
}

-- `compliance_node`
unfoldable pub compliance_node : Court → BatchState → Docket → Result (BatchState × Docket)
unfolding judge_all
compliance_node court s docket = elim (or_default [] s.applicable_regulations) [
  | [] ↦
      ok (record s { current_stage = stage_compliance; compliance_result = some skipped }, docket)
  | c ∷ cs ↦ do
    out ← judge_all court s (c ∷ cs) [] false docket.compliance_results
    ok (with_verdicts s out, published s docket out)
]
