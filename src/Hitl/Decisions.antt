-- ===== src/Hitl/Decisions.antt =====
-- The branches of resolve_batch of backend/hitl/service.py and of the decision of
-- backend/hitl/router.py.
use kira_backend.Prelude.{append-nil}
use kira_backend.Prelude.{
  ℕ, String, ◌≡◌, refl, sym, ap, ◌∙◌, subst, ◌≢◌, ◌⊎◌, inl, inr, true, false, Option, none, some,
  List, [], ◌∷◌, ◌++◌, arith, nat_eq, string_eq, option_eq, Error, http, Result, ok, err, ◌>>=◌,
  nat_beq, nat_beq_iff, Option-cases, filter, find?, update_where, find?-update_other,
}
use kira_backend.Hitl.Actions.{notifications, notices, action_jobs-notices}
use kira_backend.Hitl.{
  as_bad_request, resume_jobs, resolve_hitl_review, approve_hitl_review, reject_hitl_review,
  is_resolved, resolved, read_resolution, has_review, of_batch, resolve_batch, reject_batch,
  decide_hitl_review,
}
use kira_backend.Pipeline.Tables.{
  Resolution, approve, reject, HitlReview, reject_requested, hitl_resume, Db,
}

-- What a resolution that returns has found and written.
pub resolve-inversion :
    (first : List HitlReview → Option HitlReview) (db : Db) (b : ℕ) (decision text : String)
    (user : Option ℕ) {db' : Db}
    → resolve_batch first db b decision text user ≡ ok db'
    → (r : HitlReview) × (d : Resolution) × (first (filter (of_batch b) db.hitl_reviews) ≡ some r)
      × (is_resolved r.status ≡ false)
      × (read_resolution decision ≡ some d)
      × (db'.hitl_reviews
          ≡ update_where (has_review r.review_id) (λ _. resolved d text user r) db.hitl_reviews)
      × (db'.queue ≡ db.queue)
unfolding resolve_batch
resolve-inversion first db b decision text user {db'} h =
    elim (Option-cases (first (filter (of_batch b) db.hitl_reviews))) [
      | inl missing ↦ absurd (ground arith)
      | inr (r, found) ↦ elim (Option-cases (read_resolution decision)) [
        | inl invalid ↦ absurd (ground arith)
        | inr (d, valid) ↦ (r, d, found, ground arith, valid, ground arith, ground arith)
      ]
    ]

abbrev pub decided : HitlReview → Resolution → String → ℕ → Db → List HitlReview
decided r d text user db =
    update_where (has_review r.review_id) (λ _. resolved d text (some user) r) db.hitl_reviews

-- The answers of the decision endpoint. An unknown review is a 404. For a known one, let `r` be the
-- review that the lookup by batch answers: no such review, a resolved one and a decision other than
-- `approve` and `reject` are a 400. An approval resolves `r` and enqueues one resumption of the
-- batch; a rejection resolves `r`, rejects the batch where it waits and publishes the request to
-- reject the submission, and resumes nothing. Beyond that each of them enqueues the notices of the
-- additional actions alone, and after an error among these all the rest is kept.
pub decide_hitl_review_outcomes :
    (first : List HitlReview → Option HitlReview) (target_of : ℕ → Option (Option ℕ))
    (users_of : ℕ → List ℕ) (db : Db) (i : ℕ) (decision text : String) (actions : List String)
    (user : ℕ)
    → (find? (has_review i) db.hitl_reviews ≡ none
        → decide_hitl_review first target_of users_of db i decision text actions user
          ≡ err (http 404))
      × ((p : HitlReview)
          → find? (has_review i) db.hitl_reviews ≡ some p
          → first (filter (of_batch p.batch_id) db.hitl_reviews) ≡ none
          → decide_hitl_review first target_of users_of db i decision text actions user
            ≡ err (http 400))
      × ((p r : HitlReview)
          → find? (has_review i) db.hitl_reviews ≡ some p
          → first (filter (of_batch p.batch_id) db.hitl_reviews) ≡ some r
          → (is_resolved r.status ≡ true) ⊎ (read_resolution decision ≡ none)
          → decide_hitl_review first target_of users_of db i decision text actions user
            ≡ err (http 400))
      × ((p r : HitlReview)
          → find? (has_review i) db.hitl_reviews ≡ some p
          → first (filter (of_batch p.batch_id) db.hitl_reviews) ≡ some r
          → is_resolved r.status ≡ false
          → (let n = notifications actions in
              let target = target_of p.batch_id in
              (decide_hitl_review first target_of users_of db i "approve" text actions user
                ≡ ok (
                  record db {
                    hitl_reviews = decided r approve text user db;
                    queue =
                        db.queue
                        ++ hitl_resume p.batch_id
                          ∷ (notices p.batch_id "approve" target users_of n).0;
                  },
                  (notices p.batch_id "approve" target users_of n).1,
                ))
              × (decide_hitl_review first target_of users_of db i "reject" text actions user
                  ≡ ok (
                    record db {
                      hitl_reviews = decided r reject text user db;
                      batches = reject_batch p.batch_id db.batches;
                      events = db.events ++ reject_requested p.batch_id text ∷ [];
                      queue = db.queue ++ (notices p.batch_id "reject" target users_of n).0;
                    },
                    (notices p.batch_id "reject" target users_of n).1,
                  ))))
unfolding decide_hitl_review resolve_batch
decide_hitl_review_outcomes first target_of users_of db i decision text actions user = (
  λ missing. ground arith,
  λ p found nothing. ground arith,
  λ p r found answer bad. ground arith,
  λ p r found answer pending.
      let b = p.batch_id in
      let approved = action_jobs-notices b "approve" (target_of b) users_of actions in
      let rejected = action_jobs-notices b "reject" (target_of b) users_of actions in
      (rw (found, answer, pending, approved) refl, rw (found, answer, pending, rejected) refl),
)

-- A resolved review stays as it is: no resolution of any batch that returns changes its row,
-- provided that the row that the lookup answers is the one with its key.
pub resolved_review_stays :
    (first : List HitlReview → Option HitlReview) (db : Db) (b : ℕ) (decision text : String)
    (user : Option ℕ) (i : ℕ) (row : HitlReview) (db' : Db)
    → ((r : HitlReview)
        → first (filter (of_batch b) db.hitl_reviews) ≡ some r
        → find? (has_review r.review_id) db.hitl_reviews ≡ some r)
    → find? (has_review i) db.hitl_reviews ≡ some row
    → is_resolved row.status ≡ true
    → resolve_batch first db b decision text user ≡ ok db'
    → find? (has_review i) db'.hitl_reviews ≡ some row
resolved_review_stays first db b decision text user i row db' keyed found done h =
    let (r, d, answer, pending, _, written, _) =
      resolve-inversion first db b decision text user {db' = db'} h in
    let differs : r.review_id ≢ i = λ q.
      let same : some r ≡ some row =
        sym (keyed r answer)
        ∙ subst (λ k. find? (has_review k) db.hitl_reviews ≡ some row) (sym q) found in
      let e : r ≡ row = ground arith in
      cc (subst (λ (x : HitlReview). is_resolved x.status ≡ true) (sym e) done, pending) in
    subst (λ rows. find? (has_review i) rows ≡ some row) (sym written)
      (find?-update_other (has_review i) (has_review r.review_id) (λ _. resolved d text user r)
          db.hitl_reviews
          (λ x k.
            let e = (nat_beq_iff x.review_id r.review_id).0 k in
            let n : nat_beq r.review_id i ≡ false = ground (arith, nat_beq_iff r.review_id i) in
            (rw e n, n))
        ∙ found)

no_actions :
    (b : ℕ) (decision : String) (r : Result Db)
    → ◌≡◌ {A = Result (Db × Option Error)}
        (r >>= λ db'. ok (record db' { queue = db'.queue ++ (resume_jobs b decision ++ []) }, none))
        ((r >>= λ db'. ok (record db' { queue = db'.queue ++ resume_jobs b decision })) >>= λ db'.
          ok (db', none))
no_actions b decision (err e) = refl
no_actions b decision (ok db') =
    ap (λ js. ok (record db' { queue = db'.queue ++ js }, none))
      (append-nil (resume_jobs b decision))

nothing_resumed :
    (b : ℕ) (r : Result Db)
    → (r >>= λ db'. ok (record db' { queue = db'.queue ++ resume_jobs b "reject" })) ≡ r
nothing_resumed b (err e) = refl
nothing_resumed b (ok db') = ap (λ q. ok (record db' { queue = q })) (append-nil db'.queue)

-- The decision endpoints agree: the one by review does for any decision, without additional actions,
-- what the one by batch does for the batch of that review, and the endpoints for an approval and a
-- rejection do what it does for these two decisions.
pub decision_endpoints_agree :
    (first : List HitlReview → Option HitlReview) (target_of : ℕ → Option (Option ℕ))
    (users_of : ℕ → List ℕ) (db : Db) (i : ℕ) (decision text : String) (user : ℕ) (p : HitlReview)
    → find? (has_review i) db.hitl_reviews ≡ some p
    → (decide_hitl_review first target_of users_of db i decision text [] user
        ≡ (resolve_hitl_review first db p.batch_id decision text user >>= λ db'. ok (db', none)))
      × (resolve_hitl_review first db p.batch_id "approve" text user
          ≡ approve_hitl_review first db p.batch_id text user)
      × (resolve_hitl_review first db p.batch_id "reject" text user
          ≡ reject_hitl_review first db p.batch_id text user)
unfolding decide_hitl_review resolve_hitl_review approve_hitl_review reject_hitl_review
decision_endpoints_agree first target_of users_of db i decision text user p found = (
  rw found (
      no_actions p.batch_id decision
        (as_bad_request (resolve_batch first db p.batch_id decision text (some user)))),
  refl,
  nothing_resumed p.batch_id
      (as_bad_request (resolve_batch first db p.batch_id "reject" text (some user))),
)
