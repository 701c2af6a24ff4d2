-- ===== src/Submission/Calls.antt =====
-- The life of the requests over any calls of the service, failed ones included.
use kira_backend.Prelude.{
  ℕ, String, ◌≡◌, refl, subst, ◌⊎◌, inl, inr, Bool, true, false, not, ◌||◌, Option, none, some,
  List, [], ◌∷◌, ◌++◌, arith, nat_eq, string_eq, option_eq, contains, value_error, Result, ok, err,
  Option-cases, is_some, any, update_where,
}
use kira_backend.Submission.{
  SubmissionStatus, requested, in_progress, submitted, review, approved, rework, rejected,
  status_beq, DataRequestLog, StatusHistory, Event, status_changed, Db, has_request,
  get_data_request, is_allowed, is_blank, moved, history_of, transitioned, transition_submission,
}
use kira_backend.Submission.Service.{
  update_submission_status, NewRequest, create_and_request_submission, send_overdue_reminders,
}
use kira_backend.Submission.Paths.{histories_of, is_step, IsPath, Tracks, IsTracked, needs_batch}
use kira_backend.Submission.Tracked.{update-IsTracked, create-IsTracked}
use kira_backend.Submission.Reminders.{reminders-IsTracked}

-- A call of the service with what it depends on at that time: the blocking gaps for an update, the
-- clock and the new key for a creation, the clock for the reminders.
pub data Call : Type 0 where
  create : ℕ → ℕ → NewRequest → Call
  update :
      (ℕ → Bool)
      → ℕ
      → SubmissionStatus
      → ℕ
      → Option String
      → Option ℕ
      → List String
      → List (String × String)
      → Call
  remind : ℕ → Call

-- The session of a call that raises is rolled back.
abbrev pub committed {ℓ} : {A : Type ℓ} → Db → Result (A × Db) → Db
committed db (ok (_, db')) = db'
committed db (err _) = db

module _ (users_of : ℕ → List ℕ) (contacts_of : ℕ → List String) where
  unfoldable pub call : Call → Db → Db
  unfolding update_submission_status create_and_request_submission send_overdue_reminders
  call (create now fresh q) db =
      committed db (create_and_request_submission users_of contacts_of db now fresh q)
  call (update gaps i to actor reason batch files fields) db =
      committed db (update_submission_status gaps db i to actor reason batch files fields)
  call (remind now) db = committed db (send_overdue_reminders users_of contacts_of db now)

  unfoldable pub run : List Call → Db → Db
  unfolding call
  run [] db = db
  run (c ∷ cs) db = run cs (call c db)

  committed-IsTracked {ℓ} :
      {A : Type ℓ} (db : Db) (r : Result (A × Db))
      → IsTracked db
      → ((a : A) (db' : Db) → r ≡ ok (a, db') → IsTracked db')
      → IsTracked (committed db r)
  committed-IsTracked db (ok (a, db')) t f = f a db' refl
  committed-IsTracked db (err _) t f = t

  -- Where it is so before, over any list of calls, in any order and with any outcomes, the audit
  -- history of every request remains a path of the transition matrix from its creation to its
  -- present status, every rejection in it has a reason, and a request from `submitted` on has its
  -- batch.
  pub run-IsTracked : (cs : List Call) (db : Db) → IsTracked db → IsTracked (run cs db)
  unfolding run
  run-IsTracked [] db t = t
  run-IsTracked (create now fresh q ∷ cs) db t = run-IsTracked cs _ (
      committed-IsTracked db (create_and_request_submission users_of contacts_of db now fresh q) t
        (λ a db' e. create-IsTracked users_of contacts_of db now fresh q t e))
  run-IsTracked (update gaps i to actor reason batch files fields ∷ cs) db t = run-IsTracked cs _ (
      committed-IsTracked db (update_submission_status gaps db i to actor reason batch files fields)
        t (λ a db' e. update-IsTracked gaps db i to actor reason batch files fields t e))
  run-IsTracked (remind now ∷ cs) db t = run-IsTracked cs _ (
      committed-IsTracked db (send_overdue_reminders users_of contacts_of db now) t
        (λ a db' e. reminders-IsTracked users_of contacts_of db now t e))

abbrev pub to_is : SubmissionStatus → StatusHistory → Bool
to_is s h = status_beq h.to_status s

abbrev before_submit : Option SubmissionStatus → Bool
before_submit none = true
before_submit (some requested) = true
before_submit (some in_progress) = true
before_submit (some rework) = true
before_submit (some _) = false

abbrev before_review : Option SubmissionStatus → Bool
before_review (some submitted) = true
before_review s = before_submit s

step-submits :
    (s : Option SubmissionStatus) (to : SubmissionStatus)
    → is_step s to ≡ true
    → before_submit s ≡ true
    → (status_beq to submitted || before_submit (some to)) ≡ true
step-submits none to h b = ground arith
step-submits (some s) to h b = ground arith

step-reviews :
    (s : Option SubmissionStatus) (to : SubmissionStatus)
    → is_step s to ≡ true
    → before_review s ≡ true
    → (status_beq to review || before_review (some to)) ≡ true
step-reviews none to h b = ground arith
step-reviews (some s) to h b = ground arith

path-submits :
    (s t : Option SubmissionStatus) (hs : List StatusHistory)
    → IsPath s hs t
    → before_submit s ≡ true
    → before_submit t ≡ false
    → any (to_is submitted) hs ≡ true
path-submits s t [] p b c = absurd (cc)
path-submits s t (h ∷ hs) p b c =
    ground (arith, step-submits s h.to_status p.1 b, path-submits (some h.to_status) t hs p.3)

path-reviews :
    (s t : Option SubmissionStatus) (hs : List StatusHistory)
    → IsPath s hs t
    → before_review s ≡ true
    → before_review t ≡ false
    → any (to_is review) hs ≡ true
path-reviews s t [] p b c = absurd (cc)
path-reviews s t (h ∷ hs) p b c =
    ground (arith, step-reviews s h.to_status p.1 b, path-reviews (some h.to_status) t hs p.3)

abbrev pub IsEmpty : Db → Type 0
IsEmpty db = (db.requests ≡ []) × (db.histories ≡ [])

IsEmpty-IsTracked : (db : Db) → IsEmpty db → IsTracked db
IsEmpty-IsTracked db h i = rw (h.0, h.1) refl

-- From empty tables, a request that any calls have brought to `approved` has a batch, and its audit
-- history records a submission and a review.
pub approved_was_reviewed :
    (users_of : ℕ → List ℕ) (contacts_of : ℕ → List String) (cs : List Call) (db : Db) (i : ℕ)
    (r : DataRequestLog)
    → IsEmpty db
    → get_data_request i (run users_of contacts_of cs db) ≡ some r
    → r.submission_status ≡ some approved
    → (is_some r.batch_id ≡ true)
      × (any (to_is submitted) (histories_of i (run users_of contacts_of cs db)) ≡ true)
      × (any (to_is review) (histories_of i (run users_of contacts_of cs db)) ≡ true)
approved_was_reviewed users_of contacts_of cs db i r e found s =
    let db' = run users_of contacts_of cs db in
    let t : Tracks (some r) (histories_of i db') =
      subst (λ o. Tracks o (histories_of i db')) found
        (run-IsTracked users_of contacts_of cs db (IsEmpty-IsTracked db e) i) in
    let path : IsPath none (histories_of i db') (some approved) =
      subst (λ k. IsPath none (histories_of i db') k) s t.0 in
    (
      subst (λ k. (not (needs_batch k) || is_some r.batch_id) ≡ true) s t.1,
      path-submits none (some approved) (histories_of i db') path refl refl,
      path-reviews none (some approved) (histories_of i db') path refl refl,
    )

-- A transition returns exactly when the request exists, the matrix has the edge, a rejection has a
-- reason and the actor is a user; when it does not return it is with a ValueError.
pub transition_submission_outcomes :
    (db : Db) (i : ℕ) (to : SubmissionStatus) (actor : ℕ) (reason : Option String)
    (batch : Option ℕ)
    → ((r : DataRequestLog)
        → get_data_request i db ≡ some r
        → is_allowed r.submission_status to ≡ true
        → (to ≡ rejected → is_blank reason ≡ false)
        → contains db.users actor ≡ true
        → (out : (DataRequestLog × Event) × Db) × (transition_submission db i to actor reason batch
            ≡ ok out)
          × (out.1.requests ≡ update_where (has_request r.request_id) (moved to batch) db.requests)
          × (out.1.histories ≡ db.histories ++ history_of r to actor reason ∷ []))
      × (((r : DataRequestLog)
            → get_data_request i db ≡ some r
            → (is_allowed r.submission_status to ≡ false)
              ⊎ ((to ≡ rejected) × (is_blank reason ≡ true))
              ⊎ (contains db.users actor ≡ false))
          → transition_submission db i to actor reason batch ≡ err value_error)
unfolding transition_submission
transition_submission_outcomes db i to actor reason batch = (
  λ r found a b c. (
    (
      (moved to batch r, status_changed i r.submission_status to),
      transitioned db r to actor reason batch,
    ),
    ground arith,
    refl,
    refl,
  ),
  λ f. elim (Option-cases (get_data_request i db)) [
    | inl missing ↦ ground arith
    | inr (r, found) ↦ ground (arith, f r found)
  ],
)
