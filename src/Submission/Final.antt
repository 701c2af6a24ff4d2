-- ===== src/Submission/Final.antt =====
-- Final statuses, the once-only trigger of the pipeline, and the overdue reminders.
use kira_backend.Prelude.{
  ℕ, ◌+◌, String, ◌≡◌, refl, sym, ap, ◌∙◌, subst, ◌≢◌, inl, inr, Bool, true, false, ◌&&◌, ◌||◌,
  Option, none, some, List, [], ◌∷◌, ◌++◌, arith, nat_eq, string_eq, option_eq, Result, ok, err,
  >>=-eq-ok, IfReturns-ok, nat_beq, nat_beq_iff, if◌then◌else◌, Bool-cases, any, any-append,
  find?-holds, find?-update_other, find?-append_other,
}
use kira_backend.Submission.{
  SubmissionStatus, approved, rejected, DataRequestLog, Db, has_request, get_data_request,
  is_allowed, moved, transition_submission,
}
use kira_backend.Submission.Service.{
  update_submission_status, submission_guards, new_log, created, create_and_request_submission,
  check_and_record_pipeline_trigger, send_overdue_reminders,
}
use kira_backend.Submission.Reminders.{without_reminders, IsSameRow, reminders-Keeps}
use kira_backend.Submission.Paths.{transition-inversion}
use kira_backend.Submission.Calls.{Call, create, update, remind, committed, call, run}

-- A status that no transition leaves.
abbrev pub is_final : Option SubmissionStatus → Bool
is_final (some approved) = true
is_final (some rejected) = true
is_final _ = false

final-not_allowed :
    (s : Option SubmissionStatus) (to : SubmissionStatus)
    → is_final s ≡ true
    → is_allowed s to ≡ false
final-not_allowed none to h = refl
final-not_allowed (some s) to h = ground arith

-- The request is there, in all columns but those of the reminders.
abbrev pub IsStill : ℕ → DataRequestLog → Db → Type 0
IsStill i row db =
    (row' : DataRequestLog) × (get_data_request i db ≡ some row')
    × (without_reminders row' ≡ without_reminders row)

same_row :
    (o : Option DataRequestLog) (row : DataRequestLog)
    → IsSameRow (some row) o
    → (row' : DataRequestLog) × (o ≡ some row') × (without_reminders row' ≡ without_reminders row)
same_row none row h = absurd h
same_row (some row') row h = (row', refl, h)

committed-IsStill {ℓ} :
    {A : Type ℓ} (db : Db) (i : ℕ) (row : DataRequestLog) (r : Result (A × Db))
    → get_data_request i db ≡ some row
    → ((a : A) (db' : Db) → r ≡ ok (a, db') → IsStill i row db')
    → IsStill i row (committed db r)
committed-IsStill db i row (ok (a, db')) h f = f a db' refl
committed-IsStill db i row (err _) h f = (row, h, refl)

update-kept :
    (gaps : ℕ → Bool) (db : Db) (i j : ℕ) (to : SubmissionStatus) (actor : ℕ)
    (reason : Option String) (batch : Option ℕ) (files : List String)
    (fields : List (String × String)) (row : DataRequestLog) (a : DataRequestLog) (db' : Db)
    → get_data_request i db ≡ some row
    → is_final row.submission_status ≡ true
    → update_submission_status gaps db j to actor reason batch files fields ≡ ok (a, db')
    → get_data_request i db' ≡ some row
unfolding update_submission_status
update-kept gaps db i j to actor reason batch files fields row a db' found final e =
    let (u, passed, e') = >>=-eq-ok (submission_guards gaps db j to batch files fields) _ e in
    let (out, made, same) = >>=-eq-ok (transition_submission db j to actor reason batch) _ e' in
    let (r, found', allowed, _, _, _, written) =
      transition-inversion db j to actor reason batch {out = out} made in
    let own : r.request_id ≡ j =
      (nat_beq_iff r.request_id j).0 (find?-holds (has_request j) db.requests found') in
    let differs : j ≢ i = λ q.
      let same_row : some r ≡ some row =
        sym found' ∙ subst (λ k. get_data_request k db ≡ some row) (sym q) found in
      let e : r ≡ row = ground arith in
      cc (
        final-not_allowed r.submission_status to
            (subst (λ (x : DataRequestLog). is_final x.submission_status ≡ true) (sym e) final),
        allowed,
      ) in
    let kept : get_data_request i out.1 ≡ some row =
      subst (λ (d : Db). get_data_request i d ≡ some row) (sym written)
        (find?-update_other (has_request i) (has_request r.request_id) (moved to batch) db.requests
            (λ x h.
              let ex = (nat_beq_iff x.request_id r.request_id).0 h in
              let n : nat_beq j i ≡ false = ground (arith, nat_beq_iff j i) in
              (rw (ex, own) n, rw (ex, own) n))
          ∙ found) in
    IfReturns-ok (λ (o : DataRequestLog × Db). get_data_request i o.1 ≡ some row) _ (a, db') kept
      same

call-IsStill :
    (users_of : ℕ → List ℕ) (contacts_of : ℕ → List String) (c : Call) (db : Db) (i : ℕ)
    (row : DataRequestLog)
    → get_data_request i db ≡ some row
    → is_final row.submission_status ≡ true
    → IsStill i row (call users_of contacts_of c db)
unfolding call create_and_request_submission
call-IsStill users_of contacts_of (create now fresh q) db i row found final =
    committed-IsStill db i row (create_and_request_submission users_of contacts_of db now fresh q)
      found
      λ a db' e.
        let made : ◌≡◌ {A = Result (DataRequestLog × Db)}
            (ok (new_log now fresh q, created users_of contacts_of db now fresh q)) (ok (a, db')) =
          ground arith in
        let new : get_data_request fresh db ≡ none = ground arith in
        let n : nat_beq fresh i ≡ false = elim (Bool-cases (nat_beq fresh i)) [
          | inl same ↦ absurd (
              cc (
                new,
                subst (λ k. get_data_request k db ≡ some row) (sym ((nat_beq_iff fresh i).0 same))
                    found,
              ))
          | inr other ↦ other
        ] in
        (
          row,
          IfReturns-ok (λ (o : DataRequestLog × Db). get_data_request i o.1 ≡ some row) _ (a, db')
              (find?-append_other (has_request i) (new_log now fresh q) db.requests n ∙ found) made,
          refl,
        )
call-IsStill users_of contacts_of (update gaps j to actor reason batch files fields) db i row found
      final =
    committed-IsStill db i row
      (update_submission_status gaps db j to actor reason batch files fields) found
      λ a db' e. (
        row,
        update-kept gaps db i j to actor reason batch files fields row a db' found final e,
        refl,
      )
call-IsStill users_of contacts_of (remind now) db i row found final =
    committed-IsStill db i row (send_overdue_reminders users_of contacts_of db now) found λ n db' e.
      same_row (get_data_request i db') row (
        subst (λ o. IsSameRow o (get_data_request i db')) found
          ((reminders-Keeps users_of contacts_of db now {n = n} {db' = db'} e).1 i))

-- An approved or rejected request is final: no list of calls, reminders included, changes its row in
-- any column but the two of the reminders.
pub final_status_stays :
    (users_of : ℕ → List ℕ) (contacts_of : ℕ → List String) (cs : List Call) (db : Db) (i : ℕ)
    (row : DataRequestLog)
    → get_data_request i db ≡ some row
    → is_final row.submission_status ≡ true
    → IsStill i row (run users_of contacts_of cs db)
unfolding run
final_status_stays users_of contacts_of [] db i row found final = (row, found, refl)
final_status_stays users_of contacts_of (c ∷ cs) db i row found final =
    let (row1, found1, same) = call-IsStill users_of contacts_of c db i row found final in
    let status = ap (λ (r : DataRequestLog). r.submission_status) same in
    let (row2, found2, same') =
      final_status_stays users_of contacts_of cs (call users_of contacts_of c db) i row1 found1
        (ap is_final status ∙ final) in
    (row2, found2, same' ∙ same)

-- Approvals that try to start the pipeline, one after another: how many are let through for `i`.
pub started : ℕ → List (ℕ × ℕ) → Db → ℕ
started i [] db = 0
started i ((request, batch) ∷ rest) db =
    let (go, db') = check_and_record_pipeline_trigger db request batch in
    (if go && nat_beq request i then 1 else 0) + started i rest db'

abbrev pub is_recorded : ℕ → Db → Bool
is_recorded i db = any (λ job. nat_beq job.0 i) db.processed_jobs

started-once :
    (i : ℕ) (rs : List (ℕ × ℕ)) (db : Db)
    → started i rs db
      ≡ (if is_recorded i db then 0 else (if any (λ r. nat_beq r.0 i) rs then 1 else 0))
unfolding started check_and_record_pipeline_trigger
started-once i [] db = ground arith
started-once i ((request, batch) ∷ rs) db = elim (Bool-cases (is_recorded request db)) [
  | inl old ↦
      let ih = started-once i rs db in
      elim (Bool-cases (nat_beq request i)) [
        | inl same ↦
            let e = (nat_beq_iff request i).0 same in
            let known : is_recorded i db ≡ true = subst (λ k. is_recorded k db ≡ true) e old in
            ground arith
        | inr other ↦ ground arith
      ]
  | inr new ↦
      let db' : Db = record db { processed_jobs = db.processed_jobs ++ (request, batch) ∷ [] } in
      let ih = started-once i rs db' in
      let grown : is_recorded i db' ≡ is_recorded i db || nat_beq request i = ground (
        arith,
        any-append (λ (job : ℕ × ℕ). nat_beq job.0 i) db.processed_jobs ((request, batch) ∷ []),
      ) in
      elim (Bool-cases (nat_beq request i)) [
        | inl same ↦
            let e = (nat_beq_iff request i).0 same in
            let unknown : is_recorded i db ≡ false = subst (λ k. is_recorded k db ≡ false) e new in
            ground arith
        | inr other ↦ ground arith
      ]
]

-- Approvals of any requests, in any order and repeated any number of times, start the pipeline for
-- one request once if the request is among them and was not recorded before, and otherwise never.
pub pipeline_starts_once :
    (i : ℕ) (rs : List (ℕ × ℕ)) (db : Db)
    → (is_recorded i db ≡ true → started i rs db ≡ 0)
      × (is_recorded i db ≡ false → any (λ r. nat_beq r.0 i) rs ≡ true → started i rs db ≡ 1)
      × (any (λ r. nat_beq r.0 i) rs ≡ false → started i rs db ≡ 0)
pipeline_starts_once i rs db = (
  λ a. ground (arith, started-once i rs db),
  λ a b. ground (arith, started-once i rs db),
  λ a. ground (arith, started-once i rs db),
)
