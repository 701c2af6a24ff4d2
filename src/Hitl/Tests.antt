-- ===== src/Hitl/Tests.antt =====
-- Two reviews of one batch, the first of them resolved.
use kira_backend.Hitl.{resolved, has_review, of_batch, resolve_batch, decide_hitl_review}
use kira_backend.Hitl.Decisions.{decide_hitl_review_outcomes, resolved_review_stays}
use kira_backend.Prelude.{
  ℕ, ◌≡◌, refl, subst, inl, Option, none, some, List, [], ◌∷◌, arith, nat_eq, string_eq, option_eq,
  http, err, filter, find?,
}
use kira_backend.Pipeline.{stage_geo, stage_risk, batch_hitl_wait}
use kira_backend.Pipeline.Tables.{geographical_risk, risk_escalated, approve, HitlReview, Batch, Db}
use kira_backend.Pipeline.Graph.{new_review}

abbrev old : HitlReview
old = resolved approve "fine" (some 3) (new_review 1 9 geographical_risk stage_geo)

abbrev new : HitlReview
new = new_review 2 9 risk_escalated stage_risk

abbrev waiting : Batch
waiting = record {
  batch_id = 9;
  product_id = some 2;
  destination = "EU";
  current_stage = stage_geo;
  status = batch_hitl_wait;
  confidence_score = none;
}

abbrev db : Db
db = record {
  batches = waiting ∷ [];
  hitl_reviews = old ∷ new ∷ [];
  next_review = 3;
  geo_audit_results = [];
  docket = record { compliance_results = []; compliance_completed = [] };
  risk = record { suppliers = []; profiles = []; history = []; events = [] };
  final_judgments = [];
  events = [];
  queue = [];
}

abbrev first_row : List HitlReview → Option HitlReview
first_row [] = none
first_row (r ∷ rs) = some r

abbrev last_row : List HitlReview → Option HitlReview
last_row [] = none
last_row (r ∷ rs) = elim (last_row rs) [ none ↦ some r | some q ↦ some q ]

abbrev no_request : ℕ → Option (Option ℕ)
no_request b = none

abbrev no_users : ℕ → List ℕ
no_users s = []

-- The pending review cannot be decided where the select answers the older one.
decide_hitl_review_outcomes_example :
    decide_hitl_review first_row no_request no_users db 2 "approve" "ok" ("notify_supplier" ∷ []) 3
    ≡ err (http 400)
decide_hitl_review_outcomes_example =
    (decide_hitl_review_outcomes first_row no_request no_users db 2 "approve" "ok"
        ("notify_supplier" ∷ []) 3).2
      new old refl refl (inl refl)

abbrev after : Db
after = record db { hitl_reviews = old ∷ resolved approve "ok" (some 3) new ∷ [] }

new_keyed :
    (r : HitlReview)
    → last_row (filter (of_batch 9) db.hitl_reviews) ≡ some r
    → find? (has_review r.review_id) db.hitl_reviews ≡ some r
new_keyed r h =
    let same : new ≡ r = ground arith in
    subst (λ (q : HitlReview). find? (has_review q.review_id) db.hitl_reviews ≡ some q) same refl

resolved_review_stays_example : find? (has_review 1) after.hitl_reviews ≡ some old
unfolding resolve_batch
resolved_review_stays_example =
    resolved_review_stays last_row db 9 "approve" "ok" (some 3) 1 old after new_keyed refl refl refl
