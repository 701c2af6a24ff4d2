-- ===== src/Pipeline/Runs.antt =====
-- Whole runs of backend/agents/graph.py, from start_graph on.
use kira_backend.Prelude.{
  ℕ, zero, suc, ◌+◌, ◌≤◌, ◌≡◌, refl, sym, ap, ◌∙◌, subst, ◌⊎◌, inl, inr, true, false, none, some,
  arith, nat_eq, string_eq, option_eq, Option-cases, Result-cases, is_some,
}
use kira_backend.Pipeline.{
  Stage, stage_queued, stage_extraction, stage_geo, stage_compliance, stage_risk, stage_judgment,
  ErrorReason, BatchState, route, node_of_stage,
}
use kira_backend.Pipeline.Tables.{Db}
use kira_backend.Pipeline.Compliance.{compliance_node}
use kira_backend.Pipeline.Nodes.{
  geo_audit_node, risk_scoring_node, final_judgment_node, completed_node,
}
use kira_backend.Pipeline.Graph.{
  request_review, stage_rank, World, Stop, finished, paused, raised, out_of_fuel, Next, goes_on,
  stops, node, routed, run,
}
use kira_backend.Pipeline.Progress.{
  is_vetted, Advances, gateway-Advances, geo-Advances, compliance-Advances, risk-Advances,
  judgment-Advances,
}

node-Advances :
    (w : World) (s : BatchState) (db : Db) (stage : Stage)
    → s.current_stage ≡ stage
    → s.error_reason ≡ none
    → Advances s (node w (node_of_stage stage) s db)
unfolding node
node-Advances w s db stage_queued e h = gateway-Advances w.gateway s db e
node-Advances w s db stage_extraction e h =
    geo-Advances (w.execute_geo_audit s.batch_id) s db
      (geo_audit_node (w.execute_geo_audit s.batch_id) s db).1 e h
node-Advances w s db stage_geo e h = compliance-Advances w.court s db e h
node-Advances w s db stage_compliance e h = risk-Advances w.top_supplier s db e h
node-Advances w s db stage_risk e h =
    judgment-Advances w s db (final_judgment_node w.sorted w.score_of s db).1 e h
node-Advances w s db stage_judgment e h = λ q. cc q

-- What the router writes is the regulations alone.
routed-same :
    (w : World) (s : BatchState)
    → ((routed w s).current_stage ≡ s.current_stage)
      × ((routed w s).error_reason ≡ s.error_reason)
      × (is_vetted (routed w s) ≡ is_vetted s)
unfolding route
routed-same w s = elim (Option-cases s.applicable_regulations) [
  | inl missing ↦ ground arith
  | inr (rs, found) ↦ ground arith
]

-- What holds of the way a run stops: it has not used up its fuel, and a final state is at the last
-- stage and has passed every gate if the first state had.
abbrev pub EndsWell : BatchState → Stop → Type 0
EndsWell s out_of_fuel = true ≡ false
EndsWell s (raised e) = Unit
EndsWell s (paused s') = is_some s'.error_reason ≡ true
EndsWell s (finished s') =
    (s.error_reason ≡ none)
    × (s'.current_stage ≡ stage_judgment)
    × (is_vetted s ≡ true → is_vetted s' ≡ true)

Next-cases :
    (x : Next)
    → ((s : BatchState) × (db : Db) × (x ≡ goes_on s db))
      ⊎ ((r : Stop) × (db : Db) × (x ≡ stops r db))
Next-cases (goes_on s db) = inl (s, db, refl)
Next-cases (stops r db) = inr (r, db, refl)

run-paused :
    (w : World) (n : ℕ) (s : BatchState) (db : Db) {e : ErrorReason}
    → s.error_reason ≡ some e
    → EndsWell s (run w (suc n) s db).0
unfolding run route node
run-paused w n s db {e} h = elim (Result-cases (request_review w.owners (routed w s) db)) [
  | inl (db', made) ↦
      let same : run w (suc n) s db ≡ (paused (routed w s), db') = ground arith in
      let kept = (routed-same w s).1 in
      subst (λ (o : Stop × Db). EndsWell s o.0) (sym same) (rw (kept, h) refl)
  | inr (problem, failed) ↦
      let same : run w (suc n) s db ≡ (raised problem, db) = ground arith in
      subst (λ (o : Stop × Db). EndsWell s o.0) (sym same) tt
]

-- The state that a clean run stops with comes from the last node.
last-EndsWell :
    (w : World) (s : BatchState) (db : Db) (stage : Stage) {r : Stop} {db' : Db}
    → s.current_stage ≡ stage
    → s.error_reason ≡ none
    → node w (node_of_stage stage) s db ≡ stops r db'
    → EndsWell s r
unfolding node
last-EndsWell w s db stage_queued e clean h = absurd (cc h)
last-EndsWell w s db stage_extraction e clean h = absurd (cc h)
last-EndsWell w s db stage_geo {r} e clean h =
    elim (Result-cases (compliance_node w.court s db.docket)) [
      | inl ((s', d), made) ↦ absurd (cc (made, h))
      | inr (problem, failed) ↦
          let same : raised problem ≡ r = ground arith in subst (EndsWell s) same tt
    ]
last-EndsWell w s db stage_compliance {r} e clean h =
    elim (Result-cases (risk_scoring_node w.top_supplier s db)) [
      | inl ((s', d), made) ↦ absurd (cc (made, h))
      | inr (problem, failed) ↦
          let same : raised problem ≡ r = ground arith in subst (EndsWell s) same tt
    ]
last-EndsWell w s db stage_risk e clean h = absurd (cc h)
last-EndsWell w s db stage_judgment {r} e clean h =
    let same : finished (completed_node s) ≡ r = ground arith in
    subst (EndsWell s) same (clean, e, λ v. v)

EndsWell-later :
    (s s' : BatchState) (r : Stop)
    → s.error_reason ≡ none
    → (is_vetted s ≡ true → s'.error_reason ≡ none → is_vetted s' ≡ true)
    → EndsWell s' r
    → EndsWell s r
EndsWell-later s s' out_of_fuel clean f h = h
EndsWell-later s s' (raised e) clean f h = tt
EndsWell-later s s' (paused q) clean f h = h
EndsWell-later s s' (finished q) clean f h = (clean, h.1, λ v. h.2 (f v h.0))

pub ends :
    (w : World) (n : ℕ) (s : BatchState) (db : Db)
    → 6 ≤ n + stage_rank s.current_stage
    → EndsWell s (run w n s db).0
unfolding run route
ends w zero s db fuel = ground arith
ends w (suc n) s db fuel = elim (Option-cases s.error_reason) [
  | inl clean ↦
      let t = routed w s in
      let (at, error, vetted) = routed-same w s in
      let here : (route s).0 ≡ node_of_stage t.current_stage = ground arith in
      elim (Next-cases (node w (node_of_stage t.current_stage) t db)) [
        | inl (s', db', next) ↦
            let step : Advances t (goes_on s' db') =
              subst (Advances t) next (node-Advances w t db t.current_stage refl (error ∙ clean)) in
            let same : run w (suc n) s db ≡ run w n s' db' = ground arith in
            subst (λ (o : Stop × Db). EndsWell s o.0) (sym same)
              (EndsWell-later s s' (run w n s' db').0 clean
                (λ v none_yet. step.1 (vetted ∙ v) none_yet)
                (ends w n s' db' (omega (arith, fuel, step.0 ∙ ap (λ k. stage_rank k + 1) at))))
        | inr (r, db', next) ↦
            let same : run w (suc n) s db ≡ (r, db') = ground arith in
            subst (λ (o : Stop × Db). EndsWell s o.0) (sym same)
              (EndsWell-later s t r clean (λ v _. vetted ∙ v)
                (last-EndsWell w t db t.current_stage {r = r} {db' = db'} refl (error ∙ clean)
                  next))
      ]
  | inr (e, wrong) ↦ run-paused w n s db {e = e} wrong
]
