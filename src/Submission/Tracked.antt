-- ===== src/Submission/Tracked.antt =====
-- The audit history under the coordinators of backend/domains/submission/service.py.
use kira_backend.Prelude.{
  ℕ, String, ◌≡◌, refl, sym, ◌∙◌, subst, ◌≢◌, inl, inr, Bool, true, false, not, ◌&&◌, Option, none,
  some, List, [], ◌∷◌, ◌++◌, arith, nat_eq, string_eq, option_eq, Result, ok, >>=-eq-ok,
  IfReturns-ok, nat_beq, nat_beq_iff, Bool-cases, is_some, filter, find?, update_where,
  filter-append, find?-holds, find?-update_self, find?-update_other, find?-append_new,
  find?-append_other,
}
use mathlib.Core.List.{append-nil}
use kira_backend.Submission.{
  SubmissionStatus, submitted, status_beq, DataRequestLog, Event, Db, has_request, get_data_request,
  moved, history_of, transitioned, transition_submission,
}
use kira_backend.Submission.Service.{
  submission_guards, update_submission_status, NewRequest, new_log, first_history, created,
  create_and_request_submission,
}
use kira_backend.Submission.Paths.{
  of_request, histories_of, Tracks, IsTracked, IsPath-append, transition-inversion, allowed-step,
  batch-kept,
}

has_request_refl : (i : ℕ) (r : DataRequestLog) → r.request_id ≡ i → has_request i r ≡ true
has_request_refl i r e = (nat_beq_iff r.request_id i).1 e

get-moved_other :
    (i j : ℕ) (f : DataRequestLog → DataRequestLog) (rs : List DataRequestLog)
    → ((r : DataRequestLog) → (f r).request_id ≡ r.request_id)
    → i ≢ j
    → find? (has_request j) (update_where (has_request i) f rs) ≡ find? (has_request j) rs
get-moved_other i j f rs k n = find?-update_other (has_request j) (has_request i) f rs (λ r h.
    let e = (nat_beq_iff r.request_id i).0 h in
    let m : nat_beq i j ≡ false = ground (arith, nat_beq_iff i j) in (rw e m, rw (k r, e) m))

transitioned-IsTracked :
    (db : Db) (i : ℕ) (to : SubmissionStatus) (actor : ℕ) (reason : Option String)
    (batch : Option ℕ) {out : (DataRequestLog × Event) × Db}
    → IsTracked db
    → (status_beq to submitted && not (is_some batch)) ≡ false
    → transition_submission db i to actor reason batch ≡ ok out
    → IsTracked out.1
transitioned-IsTracked db i to actor reason batch {out} t guard e =
    let (r, found, allowed, reasoned, _, _, written) =
      transition-inversion db i to actor reason batch {out = out} e in
    let own : r.request_id ≡ i =
      (nat_beq_iff r.request_id i).0 (find?-holds (has_request i) db.requests found) in
    let row = history_of r to actor reason in
    let db' = transitioned db r to actor reason batch in
    let old : Tracks (some r) (histories_of i db) =
      subst (λ o. Tracks o (histories_of i db)) found (t i) in
    subst IsTracked (sym written) λ j. elim (Bool-cases (nat_beq i j)) [
      | inl same ↦
          let at : get_data_request i db' ≡ some (moved to batch r) =
            subst
              (λ k.
                find? (has_request i) (update_where (has_request k) (moved to batch) db.requests)
                ≡ some (moved to batch r))
              (sym own)
              (find?-update_self (has_request i) (moved to batch) db.requests found
                (has_request_refl i (moved to batch r) own)) in
          let hs : histories_of i db' ≡ histories_of i db ++ row ∷ [] =
            filter-append (of_request i) db.histories (row ∷ [])
            ∙ rw ((nat_beq_iff r.request_id i).1 own) refl in
          subst (λ k. Tracks (get_data_request k db') (histories_of k db'))
            ((nat_beq_iff i j).0 same)
            (rw (at, hs)
              (
                IsPath-append none r.submission_status (histories_of i db) row old.0 refl
                    (allowed-step r.submission_status to allowed) reasoned,
                batch-kept r.submission_status to batch r.batch_id allowed guard old.1,
              ))
      | inr other ↦
          let n : i ≢ j = λ q. ground (arith, nat_beq_iff i j) in
          let at : get_data_request j db' ≡ get_data_request j db =
            get-moved_other r.request_id j (moved to batch) db.requests (λ _. refl)
              (λ q. n (sym own ∙ q)) in
          let hs : histories_of j db' ≡ histories_of j db =
            filter-append (of_request j) db.histories (row ∷ [])
            ∙ rw (own, other) (append-nil (histories_of j db)) in
          rw (at, hs) (t j)
    ]

guards-batch :
    (gaps : ℕ → Bool) (db : Db) (i : ℕ) (to : SubmissionStatus) (batch : Option ℕ)
    (files : List String) (fields : List (String × String))
    → submission_guards gaps db i to batch files fields ≡ ok tt
    → (status_beq to submitted && not (is_some batch)) ≡ false
unfolding submission_guards
guards-batch gaps db i to batch files fields h = ground arith

-- A status update that returns keeps every request's history a path to its status.
pub update-IsTracked :
    (gaps : ℕ → Bool) (db : Db) (i : ℕ) (to : SubmissionStatus) (actor : ℕ) (reason : Option String)
    (batch : Option ℕ) (files : List String) (fields : List (String × String)) {r : DataRequestLog}
    {db' : Db}
    → IsTracked db
    → update_submission_status gaps db i to actor reason batch files fields ≡ ok (r, db')
    → IsTracked db'
unfolding update_submission_status
update-IsTracked gaps db i to actor reason batch files fields {r} {db'} t e =
    let (u, passed, e') = >>=-eq-ok (submission_guards gaps db i to batch files fields) _ e in
    let (out, made, same) = >>=-eq-ok (transition_submission db i to actor reason batch) _ e' in
    let inv =
      transitioned-IsTracked db i to actor reason batch {out = out} t
        (guards-batch gaps db i to batch files fields passed) made in
    IfReturns-ok (λ (o : DataRequestLog × Db). IsTracked o.1) _ (r, db') inv same

-- A creation that returns keeps it too: the new request starts with the row of its creation.
pub create-IsTracked :
    (users_of : ℕ → List ℕ) (contacts_of : ℕ → List String) (db : Db) (now fresh : ℕ)
    (q : NewRequest) {r : DataRequestLog} {db' : Db}
    → IsTracked db
    → create_and_request_submission users_of contacts_of db now fresh q ≡ ok (r, db')
    → IsTracked db'
unfolding create_and_request_submission
create-IsTracked users_of contacts_of db now fresh q {r} {db'} t e =
    let new : get_data_request fresh db ≡ none = ground arith in
    let made : ◌≡◌ {A = Result (DataRequestLog × Db)}
        (ok (new_log now fresh q, created users_of contacts_of db now fresh q)) (ok (r, db')) =
      ground arith in
    IfReturns-ok (λ (o : DataRequestLog × Db). IsTracked o.1) _ (r, db')
      (λ j. elim (Bool-cases (nat_beq fresh j)) [
        | inl same ↦
            let none_yet : histories_of fresh db ≡ [] =
              subst (λ o. Tracks o (histories_of fresh db)) new (t fresh) in
            subst
              (λ k.
                Tracks (find? (has_request k) (db.requests ++ new_log now fresh q ∷ []))
                  (filter (of_request k) (db.histories ++ first_history fresh q ∷ [])))
              ((nat_beq_iff fresh j).0 same)
              (rw
                (
                  find?-append_new (has_request fresh) (new_log now fresh q) db.requests new
                      ((nat_beq_iff fresh fresh).1 refl),
                  filter-append (of_request fresh) db.histories (first_history fresh q ∷ []),
                  none_yet,
                  (nat_beq_iff fresh fresh).1 refl,
                )
                ((refl, refl, refl, refl), refl))
        | inr other ↦
            rw
              (
                find?-append_other (has_request j) (new_log now fresh q) db.requests other,
                filter-append (of_request j) db.histories (first_history fresh q ∷ []),
                other,
                append-nil (filter (of_request j) db.histories),
              )
              (t j)
      ])
      made
