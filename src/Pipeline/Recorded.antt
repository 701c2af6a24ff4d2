-- ===== src/Pipeline/Recorded.antt =====
-- The extractions that a run of backend/agents/graph.py goes on from, up to its last state.
use kira_backend.Prelude.{
  ℕ, zero, suc, ◌≤◌, min, String, ◌≡◌, refl, sym, ap, ◌∙◌, subst, ◌≢◌, inl, inr, true, false, not,
  ◌||◌, some, List, [], ◌∷◌, arith, ◌==◌, nat_eq, string_eq, option_eq, Result, ok, err, ltb,
  if◌then◌else◌, Bool-cases, Option-cases, List-cases, Result-cases, length, All, any, all,
  count_if,
}
use kira_backend.Pipeline.{
  Stage, stage_queued, stage_extraction, stage_geo, stage_compliance, stage_risk, stage_judgment,
  ExtractionResult, no_results, extracted, BatchState, node_of_stage, hitl_interrupt, route,
  skipped, low_confidence,
}
use kira_backend.Pipeline.Gateway.{
  Gateway, Extraction, data_gateway_node, gateway_result, supplier_ids_of, is_complete, lowest_of,
  lowest_confidence_of, is_unconfirmed, promote_all,
}
use kira_backend.Pipeline.Compliance.{
  Court, Docket, judge_all, compliance_node, with_verdicts, published, or_default,
}
use kira_backend.Pipeline.Tables.{Db}
use kira_backend.Pipeline.Nodes.{
  completed_node, geo_audit_node, risk_scoring_node, final_judgment_node,
}
use kira_backend.Pipeline.Graph.{
  World, Stop, finished, paused, raised, out_of_fuel, Next, goes_on, stops, after, after_court,
  after_request, request_review, node, routed, run, enough, initial_state,
}
use kira_backend.Pipeline.Progress.{passed_gateway}

-- The rows that the first node reads for a product
abbrev pub extractions : Gateway → ℕ → List Extraction
extractions g product =
    g.list_extraction_results (supplier_ids_of (g.get_n_tier_supply_chain product))

-- Confirmed by the supplier, with all that its type requires, and every field at least at 0.85
abbrev pub IsComplete : Gateway → Extraction → Type 0
IsComplete g r =
    (t : String)
    → r.provider_type ≡ some t
    → t ≢ ""
    → all (λ field. any (λ p. p.0 == field) r.parsed_fields) (g.required_fields t) ≡ true

abbrev pub IsGood : Gateway → Extraction → Type 0
IsGood g r = (r.supplier_confirmed ≡ true) × IsComplete g r × All (λ c. 8500 ≤ c.1) r.confidence_map

lowest_of-bound :
    (cs : List (String × ℕ)) (lowest : ℕ)
    → 8500 ≤ lowest_of lowest cs
    → (8500 ≤ lowest) × All (λ c. 8500 ≤ c.1) cs
lowest_of-bound [] lowest h = (h, tt)
lowest_of-bound ((k, c) ∷ cs) lowest h =
    let (a, b) = lowest_of-bound cs (min lowest c) h in (ground arith, (ground arith, b))

lowest_confidence_of-bound :
    (rs : List Extraction) (lowest : ℕ)
    → 8500 ≤ lowest_confidence_of rs lowest
    → (8500 ≤ lowest) × All (λ r. All (λ c. 8500 ≤ c.1) r.confidence_map) rs
unfolding lowest_confidence_of
lowest_confidence_of-bound [] lowest h = (h, tt)
lowest_confidence_of-bound (r ∷ rs) lowest h =
    let (a, b) = lowest_confidence_of-bound rs (lowest_of lowest r.confidence_map) h in
    let (c, d) = lowest_of-bound r.confidence_map lowest a in (c, (d, b))

is_complete-IsComplete : (g : Gateway) (r : Extraction) → is_complete g r ≡ true → IsComplete g r
is_complete-IsComplete g r h t e full =
    let k : (t == ""
          || all (λ field. any (λ p. p.0 == field) r.parsed_fields) (g.required_fields t))
        ≡ true =
      ground arith in
    elim (Bool-cases (t == "")) [
      | inl empty ↦ absurd (full ((string_eq.test_iff t "").0 empty))
      | inr other ↦ rw other at k
    ]

All-IsGood :
    (g : Gateway) (rs : List Extraction)
    → All (λ r. All (λ c. 8500 ≤ c.1) r.confidence_map) rs
    → count_if is_unconfirmed rs ≡ 0
    → any (λ r. not (is_complete g r)) rs ≡ false
    → All (IsGood g) rs
All-IsGood g [] a b c = tt
All-IsGood g (r ∷ rs) a b c = (
  (ground arith, is_complete-IsComplete g r (ground arith), a.0),
  All-IsGood g rs a.1 (ground arith) (ground arith),
)

-- What the first node records of its rows
abbrev pub recorded_of : Gateway → List ℕ → List Extraction → ExtractionResult
recorded_of g suppliers [] = no_results suppliers
recorded_of g suppliers (r ∷ rs) =
    let lowest = lowest_confidence_of (r ∷ rs) 10000 in
    let unconfirmed = count_if is_unconfirmed (r ∷ rs) in
    let missing = any (λ q. not (is_complete g q)) (r ∷ rs) in
    let low = ltb lowest 8500 || (ltb 0 unconfirmed || missing) in
    extracted (length (r ∷ rs)) suppliers lowest unconfirmed missing
      (if low then 0 else promote_all g (r ∷ rs))

abbrev pub recorded : Gateway → ℕ → ExtractionResult
recorded g product =
    recorded_of g (supplier_ids_of (g.get_n_tier_supply_chain product)) (extractions g product)

passed_gateway-All :
    (g : Gateway) (suppliers : List ℕ) (rs : List Extraction)
    → passed_gateway (some (recorded_of g suppliers rs)) ≡ true
    → (rs ≢ []) × All (IsGood g) rs
passed_gateway-All g suppliers [] h = absurd (cc h)
passed_gateway-All g suppliers (r ∷ rs) h =
    let above : 8500 ≤ lowest_confidence_of (r ∷ rs) 10000 = ground arith in
    let confirmed : count_if is_unconfirmed (r ∷ rs) ≡ 0 = ground arith in
    let complete : any (λ q. not (is_complete g q)) (r ∷ rs) ≡ false = ground arith in
    (
      λ q. cc q,
      All-IsGood g (r ∷ rs) (lowest_confidence_of-bound (r ∷ rs) 10000 above).1 confirmed complete,
    )

-- What has passed the first gate was good.
pub passed-IsGood :
    (g : Gateway) (product : ℕ)
    → passed_gateway (some (recorded g product)) ≡ true
    → (extractions g product ≢ []) × All (IsGood g) (extractions g product)
passed-IsGood g product h =
    passed_gateway-All g (supplier_ids_of (g.get_n_tier_supply_chain product))
      (extractions g product) h

abbrev IsAt : Gateway → ℕ → Stage → BatchState → Type 0
IsAt g product stage_queued s = s.product_id ≡ some product
IsAt g product _ s = s.extraction_result ≡ some (recorded g product)

-- Before the first node the state has the product, and later what was recorded for it.
abbrev IsRecorded : Gateway → ℕ → BatchState → Type 0
IsRecorded g product s = IsAt g product s.current_stage s

gateway-IsRecorded :
    (g : Gateway) (product : ℕ) (s : BatchState)
    → s.product_id ≡ some product
    → IsRecorded g product (data_gateway_node g s)
unfolding data_gateway_node
gateway-IsRecorded g product s e =
    let suppliers = supplier_ids_of (g.get_n_tier_supply_chain product) in
    elim (List-cases (extractions g product)) [
      | inl nothing ↦
          let same : data_gateway_node g s ≡ record s {
            current_stage = stage_extraction;
            error_reason = some low_confidence;
            confidence_score = some 0;
            extraction_result = some (no_results suppliers);
          } =
            ground arith in
          subst (IsRecorded g product) (sym same)
            (sym (ap (λ rs. some (recorded_of g suppliers rs)) nothing))
      | inr (r, rs, rows) ↦
          let same : data_gateway_node g s ≡ gateway_result g suppliers (r ∷ rs) s = ground arith in
          subst (IsRecorded g product) (sym same)
            (sym (ap (λ rs. some (recorded_of g suppliers rs)) rows))
    ]

abbrev NextRecorded : Gateway → ℕ → Next → Type 0
NextRecorded g product (goes_on s db) = IsRecorded g product s
NextRecorded g product (stops (finished s) db) = IsRecorded g product s
NextRecorded g product (stops _ db) = Unit

court-NextRecorded :
    (court : Court) (g : Gateway) (product : ℕ) (s : BatchState) (db : Db)
    → s.extraction_result ≡ some (recorded g product)
    → NextRecorded g product (after_court db (compliance_node court s db.docket))
unfolding compliance_node
court-NextRecorded court g product s db h =
    elim (List-cases (or_default [] s.applicable_regulations)) [
      | inl nothing ↦
          let s' : BatchState = record s {
            current_stage = stage_compliance;
            compliance_result = some skipped;
          } in
          let same : compliance_node court s db.docket ≡ ok (s', db.docket) = ground arith in
          subst (λ (o : Result (BatchState × Docket)). NextRecorded g product (after_court db o))
            (sym same) h
      | inr (c, cs, codes) ↦
          elim (Result-cases (judge_all court s (c ∷ cs) [] false db.docket.compliance_results)) [
            | inl (out, made) ↦
                let same : compliance_node court s db.docket
                    ≡ ok (with_verdicts s out, published s db.docket out) =
                  ground arith in
                subst
                  (λ (o : Result (BatchState × Docket)). NextRecorded g product (after_court db o))
                  (sym same) h
            | inr (problem, failed) ↦
                let same : compliance_node court s db.docket ≡ err problem = ground arith in
                subst
                  (λ (o : Result (BatchState × Docket)). NextRecorded g product (after_court db o))
                  (sym same) tt
          ]
    ]

risk-NextRecorded :
    (w : World) (product : ℕ) (s : BatchState) (db : Db)
    → s.extraction_result ≡ some (recorded w.gateway product)
    → NextRecorded w.gateway product (after db (risk_scoring_node w.top_supplier s db))
unfolding risk_scoring_node
risk-NextRecorded w product s db h = elim (Result-cases (risk_scoring_node w.top_supplier s db)) [
  | inl ((s', db'), e) ↦
      let stage : s'.current_stage ≡ stage_risk = ground arith in
      let same : s'.extraction_result ≡ s.extraction_result = ground arith in
      subst (λ (o : Result (BatchState × Db)). NextRecorded w.gateway product (after db o)) (sym e)
        (subst (λ x. IsAt w.gateway product x s') (sym stage) (same ∙ h))
  | inr (problem, e) ↦
      subst (λ (o : Result (BatchState × Db)). NextRecorded w.gateway product (after db o)) (sym e)
        tt
]

node-NextRecorded :
    (w : World) (product : ℕ) (s : BatchState) (db : Db) (stage : Stage)
    → s.current_stage ≡ stage
    → IsRecorded w.gateway product s
    → NextRecorded w.gateway product (node w (node_of_stage stage) s db)
unfolding node geo_audit_node final_judgment_node
node-NextRecorded w product s db stage_queued e h =
    gateway-IsRecorded w.gateway product s (subst (λ x. IsAt w.gateway product x s) e h)
node-NextRecorded w product s db stage_extraction e h = subst (λ x. IsAt w.gateway product x s) e h
node-NextRecorded w product s db stage_geo e h =
    court-NextRecorded w.court w.gateway product s db (subst (λ x. IsAt w.gateway product x s) e h)
node-NextRecorded w product s db stage_compliance e h =
    risk-NextRecorded w product s db (subst (λ x. IsAt w.gateway product x s) e h)
node-NextRecorded w product s db stage_risk e h = subst (λ x. IsAt w.gateway product x s) e h
node-NextRecorded w product s db stage_judgment e h =
    subst (λ x. IsAt w.gateway product x (completed_node s)) (sym e)
      (subst (λ x. IsAt w.gateway product x s) e h)

interrupt-NextRecorded :
    (w : World) (product : ℕ) (s : BatchState) (db : Db)
    → NextRecorded w.gateway product (node w hitl_interrupt s db)
unfolding node
interrupt-NextRecorded w product s db = elim (Result-cases (request_review w.owners s db)) [
  | inl (db', e) ↦
      subst (λ (o : Result Db). NextRecorded w.gateway product (after_request s db o)) (sym e) tt
  | inr (problem, e) ↦
      subst (λ (o : Result Db). NextRecorded w.gateway product (after_request s db o)) (sym e) tt
]

IsAt-same :
    (g : Gateway) (product : ℕ) (stage : Stage) (s s' : BatchState)
    → s'.product_id ≡ s.product_id
    → s'.extraction_result ≡ s.extraction_result
    → IsAt g product stage s
    → IsAt g product stage s'
IsAt-same g product stage_queued s s' a b h = a ∙ h
IsAt-same g product stage_extraction s s' a b h = b ∙ h
IsAt-same g product stage_geo s s' a b h = b ∙ h
IsAt-same g product stage_compliance s s' a b h = b ∙ h
IsAt-same g product stage_risk s s' a b h = b ∙ h
IsAt-same g product stage_judgment s s' a b h = b ∙ h

routed-same :
    (w : World) (s : BatchState)
    → ((routed w s).current_stage ≡ s.current_stage)
      × ((routed w s).product_id ≡ s.product_id)
      × ((routed w s).extraction_result ≡ s.extraction_result)
unfolding route
routed-same w s = elim (Option-cases s.applicable_regulations) [
  | inl missing ↦ ground arith
  | inr (rs, found) ↦ ground arith
]

routed-IsRecorded :
    (w : World) (product : ℕ) (s : BatchState)
    → IsRecorded w.gateway product s
    → ((routed w s).current_stage ≡ s.current_stage) × IsRecorded w.gateway product (routed w s)
routed-IsRecorded w product s h =
    let (stage, a, b) = routed-same w s in
    (
      stage,
      subst (λ x. IsAt w.gateway product x (routed w s)) (sym stage)
          (IsAt-same w.gateway product s.current_stage s (routed w s) a b h),
    )

abbrev StopRecorded : Gateway → ℕ → Stop → Type 0
StopRecorded g product (finished s) = IsRecorded g product s
StopRecorded g product _ = Unit

step-NextRecorded :
    (w : World) (product : ℕ) (s : BatchState) (db : Db)
    → IsRecorded w.gateway product s
    → NextRecorded w.gateway product (node w (route s).0 (routed w s) db)
unfolding route
step-NextRecorded w product s db h = elim (Option-cases s.error_reason) [
  | inl clean ↦
      let (stage, h') = routed-IsRecorded w product s h in
      let to : (route s).0 ≡ node_of_stage s.current_stage = ground arith in
      subst (λ n. NextRecorded w.gateway product (node w n (routed w s) db)) (sym to)
        (node-NextRecorded w product (routed w s) db s.current_stage stage h')
  | inr (why, wrong) ↦
      let to : (route s).0 ≡ hitl_interrupt = ground arith in
      subst (λ n. NextRecorded w.gateway product (node w n (routed w s) db)) (sym to)
        (interrupt-NextRecorded w product (routed w s) db)
]

-- What a run makes of a node's answer
abbrev then_run : World → ℕ → Next → Stop × Db
then_run w n x = elim x [ goes_on s db ↦ run w n s db | stops r db ↦ (r, db) ]

then_run-StopRecorded :
    (w : World) (product n : ℕ) (x : Next)
    → ((s : BatchState) (db : Db)
        → IsRecorded w.gateway product s
        → StopRecorded w.gateway product (run w n s db).0)
    → NextRecorded w.gateway product x
    → StopRecorded w.gateway product (then_run w n x).0
then_run-StopRecorded w product n (goes_on s db) f k = f s db k
then_run-StopRecorded w product n (stops (finished s) db) f k = k
then_run-StopRecorded w product n (stops (paused s) db) f k = tt
then_run-StopRecorded w product n (stops (raised e) db) f k = tt
then_run-StopRecorded w product n (stops out_of_fuel db) f k = tt

pub run-StopRecorded :
    (w : World) (product n : ℕ) (s : BatchState) (db : Db)
    → IsRecorded w.gateway product s
    → StopRecorded w.gateway product (run w n s db).0
unfolding run
run-StopRecorded w product zero s db h = tt
run-StopRecorded w product (suc n) s db h =
    then_run-StopRecorded w product n (node w (route s).0 (routed w s) db)
      (λ s' db' k. run-StopRecorded w product n s' db' k) (step-NextRecorded w product s db h)

-- The state that a started run finishes with has what the first node records for the product.
pub finished-recorded :
    (w : World) (batch product : ℕ) (destination : String) (fields : List (String × String))
    (db : Db) (s : BatchState)
    → (run w enough (initial_state batch product destination fields) db).0 ≡ finished s
    → s.current_stage ≡ stage_judgment
    → s.extraction_result ≡ some (recorded w.gateway product)
finished-recorded w batch product destination fields db s e at =
    let first = initial_state batch product destination fields in
    let k : IsRecorded w.gateway product s =
      subst (StopRecorded w.gateway product) e (run-StopRecorded w product enough first db refl) in
    subst (λ x. IsAt w.gateway product x s) at k
