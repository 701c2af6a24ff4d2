-- ===== src/Submission/Service.antt =====
-- backend/domains/submission/service.py: the coordinators over the state machine.
use kira_backend.Prelude.{
  ℕ, ◌+◌, String, Bool, true, false, not, ◌&&◌, Option, none, some, List, [], ◌∷◌, ◌++◌, ◌==◌,
  nat_eq, string_eq, option_eq, contains, value_error, database_error, Result, ok, err, ◌>>=◌, ◌>>◌,
  raise_if, ltb, if◌then◌else◌, is_some, length, any, filter, update_where,
}
use kira_backend.Submission.{
  SubmissionStatus, requested, in_progress, submitted, approved, rejected, status_beq, pending,
  DataRequestLog, StatusHistory, file, form, Event, status_changed, submission_requested,
  submission_started, submission_completed, submission_approved, submission_rejected, in_app, email,
  data_request_sent, data_request_email, sla_reminder, Job, Db, has_request, get_data_request,
  transition_submission,
}

abbrev pub is_nil {ℓ} : {A : Type ℓ} → List A → Bool
is_nil [] = true
is_nil (_ ∷ _) = false

-- The guards of `update_submission_status` before the transition; `gaps` is `has_blocking_gaps`.
abbrev pub target_has_gaps : (ℕ → Bool) → Option DataRequestLog → Bool
target_has_gaps gaps none = false
target_has_gaps gaps (some r) = elim r.target_supplier_id [ none ↦ false | some s ↦ gaps s ]

unfoldable pub submission_guards :
    (ℕ → Bool)
    → Db
    → ℕ
    → SubmissionStatus
    → Option ℕ
    → List String
    → List (String × String)
    → Result (Unit {0})
submission_guards gaps db request to batch files fields =
    if status_beq to submitted
    then (do
      raise_if (not (is_some batch)) value_error
      raise_if (is_nil files && is_nil fields) value_error
      raise_if (target_has_gaps gaps (get_data_request request db)) value_error)
    else ok tt

-- The event of the target status, after the common one
unfoldable pub domain_events :
    SubmissionStatus
    → DataRequestLog
    → ℕ
    → Option ℕ
    → Option String
    → List String
    → List (String × String)
    → List Event
domain_events in_progress r request batch reason files fields =
    submission_started request r.target_supplier_id ∷ []
domain_events submitted r request batch reason files fields =
    submission_completed request batch (if is_nil files then form else file) files fields ∷ []
domain_events approved r request batch reason files fields = submission_approved request batch ∷ []
domain_events rejected r request batch reason files fields = submission_rejected request reason ∷ []
domain_events _ r request batch reason files fields = []

unfoldable pub update_submission_status :
    (ℕ → Bool)
    → Db
    → ℕ
    → SubmissionStatus
    → ℕ
    → Option String
    → Option ℕ
    → List String
    → List (String × String)
    → Result (DataRequestLog × Db)
unfolding submission_guards transition_submission domain_events
update_submission_status gaps db request to actor reason batch files fields = do
  submission_guards gaps db request to batch files fields
  ((r, changed), db') ← transition_submission db request to actor reason batch
  ok (
    r,
    record db' {
      events = db'.events ++ changed ∷ domain_events to r request batch reason files fields;
    },
  )

-- The arguments of `create_and_request_submission`
pub record NewRequest : Type 0 where
  pub requester_user_id : ℕ
  pub target_supplier_id : ℕ
  pub requested_data_type : String
  pub due_date : Option ℕ
  pub actor_id : ℕ
  pub bom_version_id : Option ℕ

abbrev pub three_days : ℕ
three_days = 259200

abbrev pub due_or_default : ℕ → Option ℕ → ℕ
due_or_default now none = now + three_days
due_or_default now (some d) = d

abbrev pub new_log : ℕ → ℕ → NewRequest → DataRequestLog
new_log now fresh q = record {
  request_id = fresh;
  requester_user_id = some q.requester_user_id;
  target_supplier_id = some q.target_supplier_id;
  bom_version_id = q.bom_version_id;
  requested_data_type = q.requested_data_type;
  requested_at = now;
  due_date = some (due_or_default now q.due_date);
  response_status = some pending;
  reminder_count = some 0;
  last_reminder_at = none;
  submission_status = some requested;
  batch_id = none;
}

abbrev pub first_history : ℕ → NewRequest → StatusHistory
first_history fresh q = record {
  request_id = fresh;
  from_status = none;
  to_status = requested;
  actor_id = q.actor_id;
  reason = some "최초 공급망 데이터 제출 요청 생성";
}

-- The two jobs for each user of the supplier
pub request_jobs : ℕ → List ℕ → List Job
request_jobs fresh [] = []
request_jobs fresh (u ∷ us) =
    record { user_id = u; channel = in_app; dedup_key = data_request_sent fresh u }
    ∷ record { user_id = u; channel = email; dedup_key = data_request_email fresh u }
    ∷ request_jobs fresh us

-- The keys that the insert relies on are checked by the database: the foreign keys and the primary
-- key `fresh`, whose failures are raised again as a ValueError. `users_of` and `contacts_of` are
-- the two selects on the supplier: the active users with a supplier role, and the mail addresses
-- of the contacts, the primary one first.
module _ (users_of : ℕ → List ℕ) (contacts_of : ℕ → List String) where
  abbrev pub created : Db → ℕ → ℕ → NewRequest → Db
  created db now fresh q =
      let us = users_of q.target_supplier_id in
      record db {
        requests = db.requests ++ new_log now fresh q ∷ [];
        histories = db.histories ++ first_history fresh q ∷ [];
        last_invited_at =
            update_where (λ row. row.0 == q.target_supplier_id) (λ row. (row.0, now))
              db.last_invited_at;
        events =
            db.events
            ++ submission_requested fresh q.target_supplier_id (due_or_default now q.due_date)
              ∷ status_changed fresh none requested
              ∷ [];
        queue = db.queue ++ request_jobs fresh us;
        mails = db.mails ++ (if is_nil us then contacts_of q.target_supplier_id else []);
      }

  abbrev pub unknown_version : Db → Option ℕ → Bool
  unknown_version db none = false
  unknown_version db (some bv) = not (contains db.bom_versions bv)

  unfoldable pub create_and_request_submission :
      Db → ℕ → ℕ → NewRequest → Result (DataRequestLog × Db)
  unfolding request_jobs
  create_and_request_submission db now fresh q = do
    raise_if (not (contains db.users q.requester_user_id)) value_error
    raise_if (not (contains db.suppliers q.target_supplier_id)) value_error
    raise_if (unknown_version db q.bom_version_id) value_error
    raise_if (not (contains db.users q.actor_id)) value_error
    raise_if (is_some (get_data_request fresh db)) value_error
    ok (new_log now fresh q, created db now fresh q)

  abbrev pub is_overdue : ℕ → DataRequestLog → Bool
  is_overdue now r =
      elim r.due_date [ none ↦ false | some d ↦ ltb d now ]
      && elim r.response_status [ some pending ↦ true | _ ↦ false ]

  pub reminder_jobs : ℕ → List ℕ → List Job
  reminder_jobs request [] = []
  reminder_jobs request (u ∷ us) =
      record { user_id = u; channel = in_app; dedup_key = sla_reminder request u }
      ∷ reminder_jobs request us

  -- The text `None` is no uuid: the select of a request with no supplier fails.
  abbrev pub recipients : DataRequestLog → Result (List ℕ)
  recipients r = elim r.target_supplier_id [ none ↦ err database_error | some s ↦ ok (users_of s) ]

  abbrev pub count_or_zero : Option ℕ → ℕ
  count_or_zero none = 0
  count_or_zero (some n) = n

  abbrev pub reminded : ℕ → DataRequestLog → DataRequestLog
  reminded now r = record r {
    reminder_count = some (count_or_zero r.reminder_count + 1);
    last_reminder_at = some now;
  }

  -- One row of the loop of `send_overdue_reminders`; a request with no recipient is skipped.
  abbrev pub remind : ℕ → DataRequestLog → Db → List ℕ → Db
  remind now r db us = if is_nil us then db else record db {
    queue = db.queue ++ reminder_jobs r.request_id us;
    requests = update_where (has_request r.request_id) (reminded now) db.requests;
  }

  unfoldable pub remind_all : ℕ → List DataRequestLog → Db → Result Db
  unfolding reminder_jobs
  remind_all now [] db = ok db
  remind_all now (r ∷ rs) db = do us ← recipients r; remind_all now rs (remind now r db us)

  -- The number of rows found, and the tables.
  unfoldable pub send_overdue_reminders : Db → ℕ → Result (ℕ × Db)
  unfolding remind_all
  send_overdue_reminders db now = do
    let rows = filter (is_overdue now) db.requests
    db' ← remind_all now rows db
    ok (length rows, db')

-- The key `submission_approved:{request_id}` is the request.
unfoldable pub check_and_record_pipeline_trigger : Db → ℕ → ℕ → Bool × Db
check_and_record_pipeline_trigger db request batch =
    if any (λ job. job.0 == request) db.processed_jobs
    then (false, db)
    else (true, record db { processed_jobs = db.processed_jobs ++ (request, batch) ∷ [] })
