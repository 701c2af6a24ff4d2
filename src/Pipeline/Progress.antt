-- ===== src/Pipeline/Progress.antt =====
-- The single nodes of backend/agents/graph.py: the stage that each one sets and the gates that the
-- state has passed after it.
use kira_backend.Prelude.{
  ℕ, ◌+◌, String, ◌≡◌, sym, subst, ◌≢◌, inl, inr, Bool, true, false, not, ◌&&◌, ◌||◌, Option, none,
  some, List, [], ◌∷◌, ◌++◌, arith, nat_eq, string_eq, option_eq, value_error, Result, ok, err, ltb,
  Option-cases, List-cases, Result-cases, is_some,
}
use kira_backend.Risk as Risk
use kira_backend.Pipeline.{
  stage_queued, stage_extraction, stage_geo, stage_compliance, stage_risk, ExtractionResult,
  extracted, ComplianceResult, skipped, judged, BatchState,
}
use kira_backend.Pipeline.Gateway.{
  Gateway, Extraction, data_gateway_node, gateway_result, supplier_ids_of,
}
use kira_backend.Pipeline.Compliance.{
  Court, Docket, judge_all, compliance_node, with_verdicts, published, or_default,
}
use kira_backend.Pipeline.Tables.{Db}
use kira_backend.Pipeline.Nodes.{
  geo_audit_node, risk_scoring_node, final_judgment_node, risk_detected, supplier_ids, is_cons,
  target_of, compliance_violations, verdict_key, geo_violations, risk_updates,
}
use kira_backend.Pipeline.Graph.{
  stage_rank, World, out_of_fuel, Next, goes_on, stops, after, after_court,
}

-- The gate of the first node
abbrev pub passed_gateway : Option ExtractionResult → Bool
passed_gateway (some (extracted _ _ lowest unconfirmed missing _)) =
    not (ltb lowest 8500) && (not (ltb 0 unconfirmed) && not missing)
passed_gateway _ = false

abbrev pub needs_review : Option ComplianceResult → Bool
needs_review (some (judged _ review _ _)) = review
needs_review (some skipped) = false
needs_review none = true

-- What a state without an error has passed on its way to its stage
abbrev pub is_vetted : BatchState → Bool
is_vetted s =
    not s.hitl_required
    && ((ltb (stage_rank s.current_stage) 1 || passed_gateway s.extraction_result)
        && ((ltb (stage_rank s.current_stage) 2
              || (is_some s.geo_result && not (risk_detected s.geo_result)))
            && ((ltb (stage_rank s.current_stage) 3 || not (needs_review s.compliance_result))
                && ((ltb (stage_rank s.current_stage) 4
                      || is_cons (supplier_ids s.extraction_result))
                    && (ltb (stage_rank s.current_stage) 5 || is_some s.final_judgment)))))

abbrev pub Advances : BatchState → Next → Type 0
Advances s (stops r db) = r ≢ out_of_fuel
Advances s (goes_on s' db) =
    (stage_rank s'.current_stage ≡ stage_rank s.current_stage + 1)
    × (is_vetted s ≡ true → s'.error_reason ≡ none → is_vetted s' ≡ true)

results-Advances :
    (g : Gateway) (suppliers : List ℕ) (rs : List Extraction) (s : BatchState)
    → s.current_stage ≡ stage_queued
    → s.hitl_required ≡ false
    → (gateway_result g suppliers rs s).error_reason ≡ none
    → is_vetted (gateway_result g suppliers rs s) ≡ true
results-Advances g suppliers rs s e h clean = ground arith

pub gateway-Advances :
    (g : Gateway) (s : BatchState) (db : Db)
    → s.current_stage ≡ stage_queued
    → Advances s (goes_on (data_gateway_node g s) db)
unfolding data_gateway_node
gateway-Advances g s db e = elim (Option-cases s.product_id) [
  | inl none_yet ↦ (ground arith, λ v clean. ground arith)
  | inr (p, found) ↦
      elim (List-cases
        (g.list_extraction_results (supplier_ids_of (g.get_n_tier_supply_chain p)))) [
          | inl nothing ↦ (ground arith, λ v clean. ground arith)
          | inr (r, rs, rows) ↦
              let suppliers = supplier_ids_of (g.get_n_tier_supply_chain p) in
              let same : data_gateway_node g s ≡ gateway_result g suppliers (r ∷ rs) s =
                ground arith in
              subst (λ (s' : BatchState). Advances s (goes_on s' db)) (sym same)
                (
                  ground arith,
                  λ v clean. results-Advances g suppliers (r ∷ rs) s e (ground arith) clean,
                )
        ]
]

pub geo-Advances :
    (detected : List (Option String)) (s : BatchState) (db db' : Db)
    → s.current_stage ≡ stage_extraction
    → s.error_reason ≡ none
    → Advances s (goes_on (geo_audit_node detected s db).0 db')
unfolding geo_audit_node
geo-Advances [] s db db' e h = (ground arith, λ v clean. ground arith)
geo-Advances (d ∷ ds) s db db' e h = (ground arith, λ v clean. ground arith)

pub compliance-Advances :
    (court : Court) (s : BatchState) (db : Db)
    → s.current_stage ≡ stage_geo
    → s.error_reason ≡ none
    → Advances s (after_court db (compliance_node court s db.docket))
unfolding compliance_node
compliance-Advances court s db e h = elim (List-cases (or_default [] s.applicable_regulations)) [
  | inl nothing ↦
      let s' : BatchState = record s {
        current_stage = stage_compliance;
        compliance_result = some skipped;
      } in
      let same : compliance_node court s db.docket ≡ ok (s', db.docket) = ground arith in
      subst (λ (o : Result (BatchState × Docket)). Advances s (after_court db o)) (sym same)
        (ground arith, λ v clean. ground arith)
  | inr (c, cs, codes) ↦
      elim (Result-cases (judge_all court s (c ∷ cs) [] false db.docket.compliance_results)) [
        | inl (out, made) ↦
            let same : compliance_node court s db.docket
                ≡ ok (with_verdicts s out, published s db.docket out) =
              ground arith in
            subst (λ (o : Result (BatchState × Docket)). Advances s (after_court db o)) (sym same)
              (ground arith, λ v clean. ground arith)
        | inr (problem, failed) ↦
            let same : compliance_node court s db.docket ≡ err problem = ground arith in
            subst (λ (o : Result (BatchState × Docket)). Advances s (after_court db o)) (sym same)
              (λ q. cc q)
      ]
]

pub risk-Advances :
    (top : List ℕ → Risk.Db → Option ℕ) (s : BatchState) (db : Db)
    → s.current_stage ≡ stage_compliance
    → s.error_reason ≡ none
    → Advances s (after db (risk_scoring_node top s db))
unfolding risk_scoring_node
risk-Advances top s db e h = elim (List-cases (supplier_ids s.extraction_result)) [
  | inl nothing ↦
      let same : risk_scoring_node top s db ≡ err value_error = ground arith in
      subst (λ (o : Result (BatchState × Db)). Advances s (after db o)) (sym same) (λ q. cc q)
  | inr (sid, sids, known) ↦
      elim (Result-cases (
        Risk.calculate_risk_score db.risk s.batch_id (target_of sid (top (sid ∷ sids) db.risk)) (
          compliance_violations (verdict_key s.compliance_result)
          ++ geo_violations s.geo_result))) [
            | inl ((r, risk'), made) ↦
                let db' : Db = record db { risk = risk' } in
                let same : risk_scoring_node top s db ≡ ok (risk_updates r.is_escalated s, db') =
                  ground arith in
                subst (λ (o : Result (BatchState × Db)). Advances s (after db o)) (sym same)
                  (ground arith, λ v clean. ground arith)
            | inr (problem, failed) ↦
                let same : risk_scoring_node top s db ≡ err problem = ground arith in
                subst (λ (o : Result (BatchState × Db)). Advances s (after db o)) (sym same)
                  (λ q. cc q)
          ]
]

pub judgment-Advances :
    (w : World) (s : BatchState) (db db' : Db)
    → s.current_stage ≡ stage_risk
    → s.error_reason ≡ none
    → Advances s (goes_on (final_judgment_node w.sorted w.score_of s db).0 db')
unfolding final_judgment_node
judgment-Advances w s db db' e h = (ground arith, λ v clean. ground arith)
