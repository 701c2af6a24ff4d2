-- ===== src/Hitl.antt =====
-- The human review of a paused batch: backend/hitl/state_machine.py, resolve_batch of
-- backend/hitl/service.py, the decision of backend/hitl/router.py and the lookup of
-- backend/hitl/repository.py, over the tables of the pipeline.
pub mod Actions
pub mod Decisions
mod Tests
use kira_backend.Prelude.{
  ℕ, zero, suc, ◌+◌, ◌-◌, ◌*◌, ◌/◌, ◌%◌, ◌≤◌, ◌<◌, min, max, String, ◌≡◌, refl, sym, ap, ◌∙◌, subst,
  ◌≢◌, ◌↔◌, ◌⊎◌, inl, inr, Bool, true, false, not, ◌&&◌, ◌||◌, Option, none, some, List, [], ◌∷◌,
  ◌++◌, map, arith, Eq, ◌==◌, nat_eq, string_eq, option_eq, option_beq_iff, contains, Error,
  value_error, type_error, integrity_error, database_error, batch_not_found, key_error, http,
  Result, ok, err, ◌>>=◌, ◌>>◌, raise_if, >>=-eq-ok, IfReturns, IfReturns-ok, ltb, leb, nat_beq,
  nat_beq_iff, if◌then◌else◌, Bool-cases, Option-cases, List-cases, Result-cases, is_some, length,
  All, any, all, filter, count_if, find?, update_where, length-append, count_if-append,
  filter-append, All-append, All-map, any-append, find?-holds, find?-any, length-update_where,
  find?-update_self, find?-update_other, find?-append_new, find?-append_other,
}
use kira_backend.Pipeline.{
  batch_hitl_wait, batch_rejected, BatchStatus, batch_processing, batch_completed,
}
use kira_backend.Pipeline.Tables.{
  ReviewStatus, hitl_pending, hitl_in_review, hitl_resolved, Resolution, approve, reject,
  HitlReview, Batch, has_batch, Event, reject_requested, Job, hitl_resume, hitl_decision, Db,
}

abbrev pub is_resolved : ReviewStatus → Bool
is_resolved hitl_resolved = true
is_resolved _ = false

-- VALID_RESOLUTIONS
abbrev pub read_resolution : String → Option Resolution
read_resolution t =
    if t == "approve" then some approve else (if t == "reject" then some reject else none)

abbrev pub or_value_error {ℓ} : {A : Type ℓ} → Option A → Result A
or_value_error none = err value_error
or_value_error (some a) = ok a

abbrev pub resolved : Resolution → String → Option ℕ → HitlReview → HitlReview
resolved decision text user r = record r {
  status = hitl_resolved;
  resolution = some decision;
  decision_text = some text;
  decided_by = user;
}

-- `HitlStateMachine.resolve_review`
unfoldable pub resolve_review : HitlReview → String → String → Option ℕ → Result HitlReview
resolve_review r decision text user = do
  raise_if (is_resolved r.status) value_error
  d ← or_value_error (read_resolution decision)
  ok (resolved d text user r)

abbrev pub has_review : ℕ → HitlReview → Bool
has_review i r = r.review_id == i

abbrev pub of_batch : ℕ → HitlReview → Bool
of_batch b r = r.batch_id == b

abbrev pub is_waiting : BatchStatus → Bool
is_waiting batch_hitl_wait = true
is_waiting _ = false

-- `UPDATE batches SET status = 'batch_rejected' WHERE batch_id = :b AND status = 'batch_hitl_wait'`
abbrev pub reject_batch : ℕ → List Batch → List Batch
reject_batch b =
    update_where (λ row. has_batch b row && is_waiting row.status)
      (λ row. record row { status = batch_rejected })

-- What `resolve_batch` does for a rejection alone
abbrev pub signal : ℕ → String → String → Db → Db
signal b decision text db =
    if decision == "reject"
    then record db {
      batches = reject_batch b db.batches;
      events = db.events ++ reject_requested b text ∷ [];
    }
    else db

-- `HitlService.resolve_batch`. `get_by_batch_id` takes the first row of a select without an order:
-- `first` is what it answers.
unfoldable pub resolve_batch :
    (List HitlReview → Option HitlReview) → Db → ℕ → String → String → Option ℕ → Result Db
unfolding resolve_review
resolve_batch first db b decision text user = do
  r ← or_value_error (first (filter (of_batch b) db.hitl_reviews))
  r' ← resolve_review r decision text user
  ok (
      signal b decision text (record db {
        hitl_reviews = update_where (has_review r.review_id) (λ _. r') db.hitl_reviews;
      }))

-- `if resolution != "reject"`
abbrev pub resume_jobs : ℕ → String → List Job
resume_jobs b decision = if decision == "reject" then [] else hitl_resume b ∷ []

-- What the router answers for the ValueErrors of the service
abbrev pub as_bad_request {ℓ} : {A : Type ℓ} → Result A → Result A
as_bad_request (ok a) = ok a
as_bad_request (err value_error) = err (http 400)
as_bad_request (err e) = err e

abbrev pub or_404 : Option HitlReview → Result HitlReview
or_404 none = err (http 404)
or_404 (some r) = ok r

-- `resolve_hitl_review`
unfoldable pub resolve_hitl_review :
    (List HitlReview → Option HitlReview) → Db → ℕ → String → String → ℕ → Result Db
unfolding resolve_batch
resolve_hitl_review first db b resolution text user = do
  db' ← as_bad_request (resolve_batch first db b resolution text (some user))
  ok (record db' { queue = db'.queue ++ resume_jobs b resolution })

-- `approve_hitl_review` and `reject_hitl_review`
unfoldable pub approve_hitl_review :
    (List HitlReview → Option HitlReview) → Db → ℕ → String → ℕ → Result Db
unfolding resolve_batch
approve_hitl_review first db b text user = do
  db' ← as_bad_request (resolve_batch first db b "approve" text (some user))
  ok (record db' { queue = db'.queue ++ hitl_resume b ∷ [] })

unfoldable pub reject_hitl_review :
    (List HitlReview → Option HitlReview) → Db → ℕ → String → ℕ → Result Db
unfolding resolve_batch
reject_hitl_review first db b text user =
    as_bad_request (resolve_batch first db b "reject" text (some user))

-- The loop over the additional actions: the jobs, and the error that ends it. `target` is the
-- select of the first request of the batch, whose supplier may be null: the text `None` is no uuid.
-- `users_of` selects the active users with a supplier role. The other two actions only log.
unfoldable pub action_jobs :
    ℕ → String → Option (Option ℕ) → (ℕ → List ℕ) → List String → List Job × Option Error
action_jobs b decision target users_of [] = ([], none)
action_jobs b decision target users_of (action ∷ actions) =
    let rest = action_jobs b decision target users_of actions in
    if action == "notify_supplier"
    then elim target [
      | none ↦ rest
      | some none ↦ ([], some database_error)
      | some (some s) ↦ (map (hitl_decision b decision) (users_of s) ++ rest.0, rest.1)
    ]
    else rest

-- `decide_hitl_review`. The additional actions follow the commit: an error among them leaves what
-- was written.
unfoldable pub decide_hitl_review :
    (List HitlReview → Option HitlReview)
    → (ℕ → Option (Option ℕ))
    → (ℕ → List ℕ)
    → Db
    → ℕ
    → String
    → String
    → List String
    → ℕ
    → Result (Db × Option Error)
unfolding resolve_batch action_jobs
decide_hitl_review first target_of users_of db i decision text actions user = do
  review ← or_404 (find? (has_review i) db.hitl_reviews)
  let b : ℕ = review.batch_id
  db' ← as_bad_request (resolve_batch first db b decision text (some user))
  let done : List Job × Option Error = action_jobs b decision (target_of b) users_of actions
  ok (record db' { queue = db'.queue ++ (resume_jobs b decision ++ done.0) }, done.1)
