-- ===== src/Submission.antt =====
-- Data requests and their submission: backend/domains/submission/state_machine.py,
-- backend/domains/submission/service.py and the statuses and the matrix of
-- backend/domains/submission/models.py. The tables, the job queue, the sent mails and the published
-- events are lists in one state. A time is a number of seconds; an identifier that the database
-- makes is an argument.
pub mod Service
pub mod Paths
pub mod Tracked
pub mod Reminders
pub mod Calls
pub mod Final
mod Tests
use kira_backend.Prelude.{
  ℕ, zero, suc, ◌+◌, ◌-◌, ◌*◌, ◌/◌, ◌%◌, ◌≤◌, ◌<◌, min, max, String, ◌≡◌, refl, sym, ap, ◌∙◌, subst,
  ◌≢◌, ◌↔◌, ◌⊎◌, inl, inr, Bool, true, false, not, ◌&&◌, ◌||◌, Option, none, some, List, [], ◌∷◌,
  ◌++◌, map, arith, Eq, ◌==◌, nat_eq, string_eq, option_eq, option_beq_iff, contains, Error,
  value_error, type_error, integrity_error, batch_not_found, http, Result, ok, err, ◌>>=◌, ◌>>◌,
  raise_if, >>=-eq-ok, IfReturns, IfReturns-ok, ltb, leb, nat_beq, nat_beq_iff, if◌then◌else◌,
  Bool-cases, Option-cases, is_some, length, All, any, all, filter, count_if, find?, update_where,
  length-append, count_if-append, All-append, All-map, any-append, find?-holds, find?-any,
  length-update_where, find?-update_self, find?-update_other, find?-append_new, find?-append_other,
}

pub data SubmissionStatus : Type 0 where
  requested in_progress submitted review approved rework rejected : SubmissionStatus

abbrev pub status_beq : SubmissionStatus → SubmissionStatus → Bool
status_beq requested requested = true
status_beq in_progress in_progress = true
status_beq submitted submitted = true
status_beq review review = true
status_beq approved approved = true
status_beq rework rework = true
status_beq rejected rejected = true
status_beq _ _ = false

pub data ResponseStatus : Type 0 where
  pending responded overdue escalated : ResponseStatus

-- SUBMISSION_TRANSITIONS
abbrev pub submission_transitions : SubmissionStatus → List SubmissionStatus
submission_transitions requested = in_progress ∷ []
submission_transitions in_progress = submitted ∷ []
submission_transitions submitted = review ∷ []
submission_transitions review = approved ∷ rework ∷ rejected ∷ []
submission_transitions rework = in_progress ∷ []
submission_transitions approved = []
submission_transitions rejected = []

-- A row of `data_request_log`
pub record DataRequestLog : Type 0 where
  pub request_id : ℕ
  pub requester_user_id : Option ℕ
  pub target_supplier_id : Option ℕ
  pub bom_version_id : Option ℕ
  pub requested_data_type : String
  pub requested_at : ℕ
  pub due_date : Option ℕ
  pub response_status : Option ResponseStatus
  pub reminder_count : Option ℕ
  pub last_reminder_at : Option ℕ
  pub submission_status : Option SubmissionStatus
  pub batch_id : Option ℕ

-- A row of `submission_status_history`
pub record StatusHistory : Type 0 where
  pub request_id : ℕ
  pub from_status : Option SubmissionStatus
  pub to_status : SubmissionStatus
  pub actor_id : ℕ
  pub reason : Option String

pub data SubmissionMode : Type 0 where
  file form : SubmissionMode

pub data Event : Type 0 where
  status_changed : ℕ → Option SubmissionStatus → SubmissionStatus → Event
  submission_requested : ℕ → ℕ → ℕ → Event
  submission_started : ℕ → Option ℕ → Event
  submission_completed :
      ℕ → Option ℕ → SubmissionMode → List String → List (String × String) → Event
  submission_approved : ℕ → Option ℕ → Event
  submission_rejected : ℕ → Option String → Event

pub data Channel : Type 0 where
  in_app email : Channel

pub data DedupKey : Type 0 where
  data_request_sent data_request_email sla_reminder : ℕ → ℕ → DedupKey

-- A `process_notification` job
pub record Job : Type 0 where
  pub user_id : ℕ
  pub channel : Channel
  pub dedup_key : DedupKey

pub record Db : Type 0 where
  pub requests : List DataRequestLog
  pub histories : List StatusHistory
  pub users : List ℕ
  pub suppliers : List ℕ
  pub bom_versions : List ℕ
  pub last_invited_at : List (ℕ × ℕ)
  pub processed_jobs : List (ℕ × ℕ)
  pub queue : List Job
  pub mails : List String
  pub events : List Event

abbrev pub has_request : ℕ → DataRequestLog → Bool
has_request i r = r.request_id == i

abbrev pub get_data_request : ℕ → Db → Option DataRequestLog
get_data_request i db = find? (has_request i) db.requests

-- `SUBMISSION_TRANSITIONS.get(current_status, [])`
abbrev pub allowed_transitions : Option SubmissionStatus → List SubmissionStatus
allowed_transitions none = []
allowed_transitions (some s) = submission_transitions s

abbrev pub is_allowed : Option SubmissionStatus → SubmissionStatus → Bool
is_allowed from to = any (λ s. status_beq s to) (allowed_transitions from)

-- `not reason`
abbrev pub is_blank : Option String → Bool
is_blank none = true
is_blank (some s) = s == ""

abbrev pub or_not_found : Option DataRequestLog → Result DataRequestLog
or_not_found none = err value_error
or_not_found (some r) = ok r

abbrev pub batch_after : SubmissionStatus → Option ℕ → Option ℕ → Option ℕ
batch_after to none old = old
batch_after to (some b) old = if status_beq to submitted then some b else old

-- The row after the assignments of `transition_submission`
abbrev pub moved : SubmissionStatus → Option ℕ → DataRequestLog → DataRequestLog
moved to batch r = record r {
  submission_status = some to;
  batch_id = batch_after to batch r.batch_id;
}

abbrev pub history_of : DataRequestLog → SubmissionStatus → ℕ → Option String → StatusHistory
history_of r to actor reason = record {
  request_id = r.request_id;
  from_status = r.submission_status;
  to_status = to;
  actor_id = actor;
  reason = reason;
}

-- What `transition_submission` has written when it returns
abbrev pub transitioned : Db → DataRequestLog → SubmissionStatus → ℕ → Option String → Option ℕ → Db
transitioned db r to actor reason batch = record db {
  requests = update_where (has_request r.request_id) (moved to batch) db.requests;
  histories = db.histories ++ history_of r to actor reason ∷ [];
}

-- `transition_submission`: the row, the event that it returns and the tables. The foreign key of
-- `actor_id` fails for an unknown user, which is raised again as a ValueError.
unfoldable pub transition_submission :
    Db
    → ℕ
    → SubmissionStatus
    → ℕ
    → Option String
    → Option ℕ
    → Result ((DataRequestLog × Event) × Db)
transition_submission db request to actor reason batch = do
  r ← or_not_found (get_data_request request db)
  raise_if (not (is_allowed r.submission_status to)) value_error
  raise_if (status_beq to rejected && is_blank reason) value_error
  raise_if (not (contains db.users actor)) value_error
  ok (
    (moved to batch r, status_changed request r.submission_status to),
    transitioned db r to actor reason batch,
  )
