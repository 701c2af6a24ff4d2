-- ===== src/Pipeline/Verdicts.antt =====
-- The rulings of backend/agents/compliance.py, and what backend/agents/automation.py reads of them.
use kira_backend.Prelude.{
  some-injective, ℕ, zero, suc, String, ◌≡◌, refl, sym, ap, ◌∙◌, subst, inl, inr, Bool, true, false,
  ◌||◌, Option, none, some, List, [], ◌∷◌, ◌++◌, map, arith, ◌==◌, nat_eq, string_eq, option_eq,
  contains, Result, ok, err, IfReturns, IfReturns-ok, if◌then◌else◌, Bool-cases, Option-cases,
  List-cases, Result-cases, is_some, any, filter, count_if,
}
use kira_backend.Judgment.{Verdict, Verdicts, is_passed, is_warning}
use kira_backend.Risk as Risk
use kira_backend.Pipeline.{low_confidence, judged, skipped, stage_compliance, BatchState}
use kira_backend.Pipeline.Compliance.{
  assign, or_default, Answer, Ruling, Court, validate_cited_clauses, ruling_of, judge_generic,
  judge_carbon_footprint, judge, with_missing, no_declaration, llm_failed, stub_passed_judge,
  rejected_for, ComplianceRow, insert_compliance_result, judge_all, Docket, with_verdicts,
  published, compliance_node,
}
use kira_backend.Pipeline.Tables.{Db}
use kira_backend.Pipeline.Nodes.{risk_scoring_node, is_cons, verdict_key}

-- A ruling that does not ask for a human cites a clause.
abbrev pub IsGrounded : Ruling → Type 0
IsGrounded r = (r.needs_human_review || is_cons r.cited_clauses) ≡ true

validated-IsGrounded : (a : Answer) → IsGrounded (validate_cited_clauses a)
unfolding validate_cited_clauses
validated-IsGrounded a = elim (List-cases a.cited_clauses) [
  | inl empty ↦ ground arith
  | inr (c, cs, cited) ↦ ground arith
]

ruling-IsGrounded : (o : Option Answer) → IsGrounded (ruling_of o)
ruling-IsGrounded none = refl
ruling-IsGrounded (some a) = validated-IsGrounded a

missing-IsGrounded : (n : ℕ) (r : Ruling) → IsGrounded r → IsGrounded (with_missing n r)
missing-IsGrounded zero r h = h
missing-IsGrounded (suc n) r h = refl

carbon-IsGrounded : (court : Court) (s : BatchState) → IsGrounded (judge_carbon_footprint court s)
unfolding judge_carbon_footprint
carbon-IsGrounded court s = elim (Option-cases (court.weighted_carbon s.batch_id)) [
  | inl missing ↦
      let same : judge_carbon_footprint court s ≡ rejected_for no_declaration = ground arith in
      subst IsGrounded (sym same) refl
  | inr (c, found) ↦
      let ask =
        court.call_llm_for_verdict "EU_BATTERY_ART7" s (some (c, court.missing_count s.batch_id)) in
      elim (Option-cases ask) [
        | inl failed ↦
            let same : judge_carbon_footprint court s ≡ rejected_for llm_failed = ground arith in
            subst IsGrounded (sym same) refl
        | inr (a, answered) ↦
            let ruling = with_missing (court.missing_count s.batch_id) (validate_cited_clauses a) in
            let same : judge_carbon_footprint court s ≡ ruling = ground arith in
            subst IsGrounded (sym same) (
              missing-IsGrounded (court.missing_count s.batch_id) (validate_cited_clauses a)
                (validated-IsGrounded a))
      ]
]

module _ (court : Court) (code : String) (s : BatchState) where
  is_stub :
      contains ("CBAM" ∷ "CONFLICT_MINERALS" ∷ "CRMA" ∷ []) code ≡ true
      → some (stub_passed_judge code) ≡ judge court code s
  unfolding judge
  is_stub a = rw a refl

  is_carbon :
      contains ("CBAM" ∷ "CONFLICT_MINERALS" ∷ "CRMA" ∷ []) code ≡ false
      → (code == "EU_BATTERY_ART7") ≡ true
      → some (judge_carbon_footprint court s) ≡ judge court code s
  unfolding judge
  is_carbon a b = rw (a, b) refl

  is_generic :
      contains ("CBAM" ∷ "CONFLICT_MINERALS" ∷ "CRMA" ∷ []) code ≡ false
      → (code == "EU_BATTERY_ART7") ≡ false
      → contains ("UFLPA" ∷ "EU_BATTERY_ART47" ∷ "EUDR" ∷ "CSDDD" ∷ []) code ≡ true
      → some (ruling_of (court.call_llm_for_verdict code s none)) ≡ judge court code s
  unfolding judge judge_generic
  is_generic a b c = rw (a, b, c) refl

  is_unknown :
      contains ("CBAM" ∷ "CONFLICT_MINERALS" ∷ "CRMA" ∷ []) code ≡ false
      → (code == "EU_BATTERY_ART7") ≡ false
      → contains ("UFLPA" ∷ "EU_BATTERY_ART47" ∷ "EUDR" ∷ "CSDDD" ∷ []) code ≡ false
      → judge court code s ≡ none
  unfolding judge
  is_unknown a b c = rw (a, b, c) refl

-- Whatever the model answers, and where it does not answer, a ruling of any regulation that does
-- not ask for a human cites at least one clause.
pub judge-IsGrounded :
    (court : Court) (code : String) (s : BatchState) (r : Ruling)
    → judge court code s ≡ some r
    → IsGrounded r
judge-IsGrounded court code s r h =
    elim (Bool-cases (contains ("CBAM" ∷ "CONFLICT_MINERALS" ∷ "CRMA" ∷ []) code)) [
      | inl stub ↦ subst IsGrounded (some-injective (is_stub court code s stub ∙ h)) refl
      | inr judged_code ↦ elim (Bool-cases (code == "EU_BATTERY_ART7")) [
        | inl carbon ↦
            subst IsGrounded (some-injective (is_carbon court code s judged_code carbon ∙ h))
              (carbon-IsGrounded court s)
        | inr other ↦
            elim (Bool-cases
              (contains ("UFLPA" ∷ "EU_BATTERY_ART47" ∷ "EUDR" ∷ "CSDDD" ∷ []) code)) [
                | inl known ↦
                    subst IsGrounded
                      (some-injective (is_generic court code s judged_code other known ∙ h))
                      (ruling-IsGrounded (court.call_llm_for_verdict code s none))
                | inr unknown ↦ absurd (cc (is_unknown court code s judged_code other unknown, h))
              ]
      ]
    ]

-- Whether the ruling of a regulation asks for a human
abbrev pub asks : Court → BatchState → String → Bool
asks court s code = elim (judge court code s) [ none ↦ false | some r ↦ r.needs_human_review ]

abbrev pub is_judged : Court → BatchState → String → Bool
is_judged court s code = is_some (judge court code s)

abbrev pub codes_of : Verdicts → List String
codes_of = map (λ (p : String × Verdict). p.0)

-- Each code once, where it comes first
abbrev pub add_code : List String → String → List String
add_code seen c = if contains seen c then seen else seen ++ c ∷ []

abbrev pub add_codes : List String → List String → List String
add_codes seen [] = seen
add_codes seen (c ∷ cs) = add_codes (add_code seen c) cs

codes_of-assign :
    (k : String) (v : Verdict) (d : Verdicts) → codes_of (assign k v d) ≡ add_code (codes_of d) k
codes_of-assign k v [] = refl
codes_of-assign k v ((j, w) ∷ d) =
    ground (arith, codes_of-assign k v d, string_eq.test_iff j k, string_eq.test_iff k j)

judge_all_lem :
    (court : Court) (s : BatchState) (codes : List String) (vs : Verdicts) (review : Bool)
    (rows : List ComplianceRow) {vs' : Verdicts} {review' : Bool} {rows' : List ComplianceRow}
    → judge_all court s codes vs review rows ≡ ok (vs', review', rows')
    → (codes_of vs' ≡ add_codes (codes_of vs) (filter (is_judged court s) codes))
      × (review' ≡ review || any (asks court s) codes)
unfolding judge_all
judge_all_lem court s [] vs review rows {vs'} {review'} {rows'} h =
    let same : vs ≡ vs' = ground arith in (sym (ap codes_of same), ground arith)
judge_all_lem court s (code ∷ codes) vs review rows {vs'} {review'} {rows'} h =
    elim (Option-cases (judge court code s)) [
      | inl no_judge ↦
          let ih =
            judge_all_lem court s codes vs review rows {vs' = vs'} {review' = review'}
              {rows' = rows'} (ground arith) in
          (rw no_judge ih.0, ground (arith, ih.1))
      | inr (r, ruled) ↦ elim (Option-cases r.verdict) [
        | inl no_verdict ↦ absurd (ground arith)
        | inr (v, given) ↦
            let ih =
              judge_all_lem court s codes (assign code v vs) (review || r.needs_human_review)
                (insert_compliance_result court s.batch_id code v r rows) {vs' = vs'}
                {review' = review'} {rows' = rows'} (ground arith) in
            (
              ih.0
                  ∙ ap (λ ys. add_codes ys (filter (is_judged court s) codes))
                      (codes_of-assign code v vs)
                  ∙ rw ruled refl,
              ground (arith, ih.1),
            )
      ]
    ]

-- What the compliance node leaves of a state, and that it writes no key `verdict`
abbrev Unscored : BatchState → BatchState → Type 0
Unscored s s' =
    (verdict_key s'.compliance_result ≡ none)
    × (s'.batch_id ≡ s.batch_id)
    × (s'.extraction_result ≡ s.extraction_result)
    × (s'.geo_result ≡ s.geo_result)
    × (s'.hitl_required ≡ s.hitl_required)

compliance_node-Unscored :
    (court : Court) (s : BatchState) (docket : Docket)
    → IfReturns (λ o. Unscored s o.0) (compliance_node court s docket)
unfolding compliance_node verdict_key
compliance_node-Unscored court s docket =
    elim (List-cases (or_default [] s.applicable_regulations)) [
      | inl nothing ↦
          let s' : BatchState = record s {
            current_stage = stage_compliance;
            compliance_result = some skipped;
          } in
          let same : compliance_node court s docket ≡ ok (s', docket) = ground arith in
          subst (λ (o : Result (BatchState × Docket)). IfReturns (λ q. Unscored s q.0) o) (sym same)
            (refl, refl, refl, refl, refl)
      | inr (c, cs, codes) ↦
          elim (Result-cases (judge_all court s (c ∷ cs) [] false docket.compliance_results)) [
            | inl (out, made) ↦
                let same : compliance_node court s docket
                    ≡ ok (with_verdicts s out, published s docket out) =
                  ground arith in
                subst (λ (o : Result (BatchState × Docket)). IfReturns (λ q. Unscored s q.0) o)
                  (sym same) (refl, refl, refl, refl, refl)
            | inr (problem, failed) ↦
                let same : compliance_node court s docket ≡ err problem = ground arith in
                subst (λ (o : Result (BatchState × Docket)). IfReturns (λ q. Unscored s q.0) o)
                  (sym same) tt
          ]
    ]

-- The scoring of the risk does not read the rulings: whatever two courts rule on one state, the node
-- that follows writes the same scores and asks for a human alike.
pub risk_scoring_ignores_verdicts :
    (top : List ℕ → Risk.Db → Option ℕ) (court1 court2 : Court) (s s1 s2 t1 t2 : BatchState)
    (db db1 db2 : Db) (docket1 docket2 : Docket)
    → compliance_node court1 s db.docket ≡ ok (s1, docket1)
    → compliance_node court2 s db.docket ≡ ok (s2, docket2)
    → risk_scoring_node top s1 (record db { docket = docket1 }) ≡ ok (t1, db1)
    → risk_scoring_node top s2 (record db { docket = docket2 }) ≡ ok (t2, db2)
    → (db1.risk ≡ db2.risk) × (t1.hitl_required ≡ t2.hitl_required)
unfolding risk_scoring_node
risk_scoring_ignores_verdicts top court1 court2 s s1 s2 t1 t2 db db1 db2 docket1 docket2 c1 c2 h1
      h2 =
    let (a, b, c, d, e) =
      IfReturns-ok _ _ (s1, docket1) (compliance_node-Unscored court1 s db.docket) c1 in
    let (a', b', c', d', e') =
      IfReturns-ok _ _ (s2, docket2) (compliance_node-Unscored court2 s db.docket) c2 in
    ground arith

-- Where there are regulations and the node returns, it rules on exactly those of them that have a
-- judge, in their order and once each, and it ends with `low_confidence` exactly when one of their rulings asks
-- for a human.
pub compliance_node_rules_on_all :
    (court : Court) (s s' : BatchState) (docket docket' : Docket) (code : String)
    (codes : List String)
    → s.applicable_regulations ≡ some (code ∷ codes)
    → compliance_node court s docket ≡ ok (s', docket')
    → (vs : Verdicts) × (review : Bool) × (s'.compliance_result
        ≡ some (judged vs review (count_if is_passed vs) (count_if is_warning vs)))
      × (codes_of vs ≡ add_codes [] (filter (is_judged court s) (code ∷ codes)))
      × (review ≡ any (asks court s) (code ∷ codes))
      × (s'.error_reason ≡ (if review then some low_confidence else none))
unfolding compliance_node
compliance_node_rules_on_all court s s' docket docket' code codes has h =
    elim (Result-cases (judge_all court s (code ∷ codes) [] false docket.compliance_results)) [
      | inl ((vs, review, rows), made) ↦
          let (all_codes, asked) =
            judge_all_lem court s (code ∷ codes) [] false docket.compliance_results {vs' = vs}
              {review' = review} {rows' = rows} made in
          let same : ◌≡◌ {A = Result (BatchState × Docket)}
              (ok (with_verdicts s (vs, review, rows), published s docket (vs, review, rows)))
              (ok (s', docket')) =
            ground arith in
          let state : with_verdicts s (vs, review, rows) ≡ s' = ground arith in
          (
            vs,
            review,
            sym (ap (λ (t : BatchState). t.compliance_result) state),
            all_codes,
            asked,
            sym (ap (λ (t : BatchState). t.error_reason) state),
          )
      | inr (problem, failed) ↦ absurd (ground arith)
    ]
