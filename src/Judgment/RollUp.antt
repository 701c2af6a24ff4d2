-- ===== src/Judgment/RollUp.antt =====
-- The overall verdict against the metrics, the summary and the key risks made from the same input.
use kira_backend.Prelude.{
  ℕ, zero, suc, ◌+◌, ◌≤◌, ◌<◌, min, String, ◌≡◌, ◌∙◌, ◌≢◌, ◌↔◌, ◌⊎◌, Bool, true, List, [], ◌∷◌,
  ◌++◌, map, arith, nat_eq, string_eq, option_eq, ltb, if◌then◌else◌, length, any, count_if,
  length-append,
}
use kira_backend.Risk.{RiskLevel, critical, is_high}
use kira_backend.Judgment.{
  Verdict, Verdicts, fail, conditional, pass, is_fail, is_warning, roll_up_verdict, Metrics,
  build_metrics, Sentence, fail_signals, render_summary, KeyRisk, violations, warnings, geo_flag,
  grade, take, all_risks, render_key_risks,
}

count-any : (p : String × Verdict → Bool) (vs : Verdicts) → (any p vs ≡ true) ↔ (0 < count_if p vs)
count-any p [] = ground arith
count-any p (v ∷ vs) = ground (arith, count-any p vs)

length-take : (n : ℕ) (xs : List KeyRisk) → length (take n xs) ≡ min n (length xs)
length-take zero xs = omega arith
length-take (suc n) [] = omega arith
length-take (suc n) (x ∷ xs) = omega (arith, length-take n xs)

length-all_risks :
    (m : Metrics)
    → length (all_risks m)
      ≡ (if ltb 0 m.violation then 1 else 0)
        + (if ltb 0 m.warning then 1 else 0)
        + length (map geo_flag m.geo_flags)
        + (if is_high m.risk_level then 1 else 0)
length-all_risks m =
    let a = if ltb 0 m.violation then violations m.violation ∷ [] else [] in
    let b = if ltb 0 m.warning then warnings m.warning ∷ [] else [] in
    let c = map geo_flag m.geo_flags in
    let d = if is_high m.risk_level then grade m.risk_level m.risk_score ∷ [] else [] in
    let ea : length a ≡ (if ltb 0 m.violation then 1 else 0) = ground arith in
    let eb : length b ≡ (if ltb 0 m.warning then 1 else 0) = ground arith in
    let ed : length d ≡ (if is_high m.risk_level then 1 else 0) = ground arith in
    length-append (a ++ b ++ c) d
    ∙ omega (arith, length-append (a ++ b) c, length-append a b, ea, eb, ed)

module _ (sorted : List String → List String) (vs : Verdicts) (geo_flags : List String)
    (geo_risk : Bool) (score : ℕ) (level : RiskLevel) where
  -- The verdict is `fail` exactly when the metrics count a violation or the level is critical, and
  -- `conditional` exactly when there is neither of these and the metrics count a warning.
  pub roll_up-build_metrics :
      let m = build_metrics sorted vs geo_flags geo_risk score level in
      ((roll_up_verdict vs geo_risk level ≡ fail) ↔ ((0 < m.violation) ⊎ (m.risk_level ≡ critical)))
      × ((roll_up_verdict vs geo_risk level ≡ conditional)
          ↔ ((m.violation ≡ 0) × (m.risk_level ≢ critical) × (0 < m.warning)))
  unfolding roll_up_verdict build_metrics
  roll_up-build_metrics = ground (arith, count-any is_fail vs, count-any is_warning vs)

  -- A failed verdict always names its reason: the summary never opens with the sentence for
  -- unspecified signals.
  pub render_summary_names_reason :
      (rest : List Sentence)
      → render_summary
          (roll_up_verdict vs geo_risk level)
          (build_metrics sorted vs geo_flags geo_risk score level)
        ≢ fail_signals ∷ rest
  unfolding roll_up_verdict build_metrics render_summary
  render_summary_names_reason rest h = ground (arith, count-any is_fail vs)

  -- A verdict other than `pass` comes with at least one key risk, and no verdict with more than
  -- five.
  pub render_key_risks_bounds :
      let m = build_metrics sorted vs geo_flags geo_risk score level in
      (roll_up_verdict vs geo_risk level ≢ pass → 0 < length (render_key_risks m))
      × (length (render_key_risks m) ≤ 5)
  unfolding roll_up_verdict build_metrics render_key_risks
  render_key_risks_bounds =
      let m = build_metrics sorted vs geo_flags geo_risk score level in
      (
        λ n. ground (
          arith,
          length-take 5 (all_risks m),
          length-all_risks m,
          count-any is_fail vs,
          count-any is_warning vs,
        ),
        omega (arith, length-take 5 (all_risks m)),
      )
