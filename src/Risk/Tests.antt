-- ===== src/Risk/Tests.antt =====
-- The scores of two suppliers.
use kira_backend.Prelude.{
  ◌≡◌, refl, true, false, none, some, List, [], ◌∷◌, arith, nat_eq, string_eq, option_eq, http, ok,
  err,
}
use kira_backend.Prelude.Int.{pos}
use kira_backend.Risk.{
  low, medium, is_high, RiskProfile, Db, Violation, compliance_violation, compliance_warning,
  added_score, calculate_risk_score, upsert_risk_score, get_profile,
}
use kira_backend.Risk.Score.{calculate_risk_score_lem}
use kira_backend.Risk.Flag.{upsert_risk_score_leaves_flag}

abbrev profile : RiskProfile
profile = record {
  supplier_id = 1;
  overall_risk_score = some (pos 30);
  risk_level = medium;
  is_high_risk_flag = false;
  high_risk_reasons = none;
}

abbrev tables : Db
tables = record {
  suppliers = (1, medium) ∷ (2, low) ∷ [];
  profiles = profile ∷ [];
  history = [];
  events = [];
}

abbrev found : List Violation
found =
    record { type = compliance_violation; reason = some "UFLPA" }
    ∷ record { type = compliance_warning; reason = none }
    ∷ []

added_65 : added_score found ≡ 65
unfolding added_score
added_65 = refl

calculate_risk_score_lem_example : calculate_risk_score tables 9 3 found ≡ err (http 404)
calculate_risk_score_lem_example = (calculate_risk_score_lem tables 9 3 found).0 refl refl

upsert_risk_score_leaves_flag_example :
    (db' : Db) × (p' : RiskProfile) × (upsert_risk_score tables 1 (pos 80) ≡ ok db')
    × (get_profile 1 db'.profiles ≡ some p')
    × (is_high p'.risk_level ≡ true)
    × (p'.is_high_risk_flag ≡ false)
upsert_risk_score_leaves_flag_example =
    upsert_risk_score_leaves_flag tables 1 (pos 80) profile refl refl (omega arith)
