-- ===== src/Judgment.antt =====
-- The final judgment: the pure functions of backend/agents/final_judgment.py. `verdicts` is the
-- dictionary from regulation codes to verdicts as a list of pairs; a sentence or a risk line is a
-- constructor with the values that its template prints.
pub mod RollUp
mod Tests
use kira_backend.Prelude.{
  ℕ, zero, suc, ◌+◌, ◌-◌, ◌*◌, ◌/◌, ◌%◌, ◌≤◌, ◌<◌, min, max, String, ◌≡◌, refl, sym, ap, ◌∙◌, subst,
  ◌≢◌, ◌↔◌, ◌⊎◌, inl, inr, Bool, true, false, not, ◌&&◌, ◌||◌, Option, none, some, List, [], ◌∷◌,
  ◌++◌, map, arith, Eq, ◌==◌, nat_eq, string_eq, option_eq, option_beq_iff, contains, Error,
  value_error, type_error, integrity_error, batch_not_found, http, Result, ok, err, ◌>>=◌, ◌>>◌,
  raise_if, >>=-eq-ok, IfReturns, IfReturns-ok, ltb, leb, nat_beq, nat_beq_iff, if◌then◌else◌,
  Bool-cases, Option-cases, is_some, length, All, any, all, filter, count_if, find?, update_where,
  length-append, count_if-append, All-append, All-map, any-append, find?-holds, find?-any,
  length-update_where, find?-update_self, find?-update_other, find?-append_new, find?-append_other,
}
use kira_backend.Risk.{RiskLevel, high, critical, level_beq, is_high}

-- The four verdicts of `chk_compliance_verdict`, and any other text that a judge may return.
pub data Verdict : Type 0 where
  compliance_passed compliance_warning compliance_violation compliance_reject unlisted : Verdict

abbrev pub verdict_beq : Verdict → Verdict → Bool
verdict_beq compliance_passed compliance_passed = true
verdict_beq compliance_warning compliance_warning = true
verdict_beq compliance_violation compliance_violation = true
verdict_beq compliance_reject compliance_reject = true
verdict_beq unlisted unlisted = true
verdict_beq _ _ = false

abbrev pub Verdicts : Type 0
Verdicts = List (String × Verdict)

pub data Overall : Type 0 where
  fail conditional pass : Overall

abbrev pub is_fail : String × Verdict → Bool
is_fail (_, v) = verdict_beq v compliance_violation || verdict_beq v compliance_reject

abbrev pub is_warning : String × Verdict → Bool
is_warning (_, v) = verdict_beq v compliance_warning

abbrev pub is_passed : String × Verdict → Bool
is_passed (_, v) = verdict_beq v compliance_passed

unfoldable pub roll_up_verdict : Verdicts → Bool → RiskLevel → Overall
roll_up_verdict verdicts geo_risk level =
    if any is_fail verdicts || level_beq level critical
    then fail
    else (if any is_warning verdicts || (geo_risk || level_beq level high)
        then conditional
        else pass)

pub record Metrics : Type 0 where
  pub violation : ℕ
  pub warning : ℕ
  pub passed : ℕ
  pub geo_flags : List String
  pub risk_score : ℕ
  pub risk_level : RiskLevel

-- `sorted` is Python's: an argument.
unfoldable pub build_metrics :
    (List String → List String) → Verdicts → List String → Bool → ℕ → RiskLevel → Metrics
build_metrics sorted verdicts geo_flags geo_risk score level = record {
  violation = count_if is_fail verdicts;
  warning =
      count_if is_warning verdicts
      + (if geo_risk then 1 else 0)
      + (if level_beq level high then 1 else 0);
  passed = count_if is_passed verdicts;
  geo_flags = sorted geo_flags;
  risk_score = score;
  risk_level = level;
}

pub data Sentence : Type 0 where
  fail_violations : ℕ → Sentence
  fail_critical : ℕ → Sentence
  fail_signals : Sentence
  conditional_signals : ℕ → Sentence
  pass_all : ℕ → Sentence
  geo_risks : List String → Sentence
  risk_grade : RiskLevel → ℕ → Sentence

-- The first sentence, and whether it has mentioned the risk level
abbrev pub opening : Overall → Metrics → Sentence × Bool
opening fail m =
    if ltb 0 m.violation
    then (fail_violations m.violation, false)
    else (if level_beq m.risk_level critical
        then (fail_critical m.risk_score, true)
        else (fail_signals, false))
opening conditional m = (conditional_signals m.warning, false)
opening pass m = (pass_all m.passed, false)

abbrev pub geo_sentence : List String → List Sentence
geo_sentence [] = []
geo_sentence (f ∷ fs) = geo_risks (f ∷ fs) ∷ []

unfoldable pub render_summary : Overall → Metrics → List Sentence
render_summary verdict m =
    let (first, risk_mentioned) = opening verdict m in
    first ∷ geo_sentence m.geo_flags
    ++ (if not risk_mentioned && is_high m.risk_level
        then risk_grade m.risk_level m.risk_score ∷ []
        else [])

pub data KeyRisk : Type 0 where
  violations warnings : ℕ → KeyRisk
  geo_flag : String → KeyRisk
  grade : RiskLevel → ℕ → KeyRisk

abbrev pub take {ℓ} : {A : Type ℓ} → ℕ → List A → List A
take zero xs = []
take (suc n) [] = []
take (suc n) (x ∷ xs) = x ∷ take n xs

abbrev pub all_risks : Metrics → List KeyRisk
all_risks m =
    (if ltb 0 m.violation then violations m.violation ∷ [] else [])
    ++ (if ltb 0 m.warning then warnings m.warning ∷ [] else [])
    ++ map geo_flag m.geo_flags
    ++ (if is_high m.risk_level then grade m.risk_level m.risk_score ∷ [] else [])

unfoldable pub render_key_risks : Metrics → List KeyRisk
render_key_risks m = take 5 (all_risks m)

pub data Action : Type 0 where
  reject_and_capa hitl_review approve : Action

-- RECOMMENDED_ACTIONS
abbrev pub recommended_action : Overall → Action
recommended_action fail = reject_and_capa
recommended_action conditional = hitl_review
recommended_action pass = approve
