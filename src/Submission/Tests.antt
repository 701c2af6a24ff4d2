-- ===== src/Submission/Tests.antt =====
-- The life of one data request.
use kira_backend.Prelude.{
  ℕ, String, ◌≡◌, refl, true, false, none, some, List, [], ◌∷◌, nat_eq, string_eq, option_eq, any,
}
use kira_backend.Submission.{
  SubmissionStatus, in_progress, submitted, review, approved, rework, DataRequestLog, Db,
  get_data_request, transition_submission,
}
use kira_backend.Submission.Service.{
  NewRequest, create_and_request_submission, update_submission_status, new_log,
}
use kira_backend.Submission.Paths.{IsTracked, histories_of}
use kira_backend.Submission.Calls.{
  Call, create, update, remind, call, run, run-IsTracked, to_is, approved_was_reviewed,
}
use kira_backend.Submission.Final.{IsStill, final_status_stays, started, pipeline_starts_once}

abbrev empty : Db
empty = record {
  requests = [];
  histories = [];
  users = 1 ∷ 2 ∷ [];
  suppliers = 5 ∷ [];
  bom_versions = [];
  last_invited_at = [];
  processed_jobs = [];
  queue = [];
  mails = [];
  events = [];
}

abbrev new : NewRequest
new = record {
  requester_user_id = 1;
  target_supplier_id = 5;
  requested_data_type = "carbon";
  due_date = none;
  actor_id = 1;
  bom_version_id = none;
}

abbrev to_status : SubmissionStatus → Call
to_status s = update (λ _. false) 8 s 2 (some "ok") (some 3) ("a.pdf" ∷ []) []

abbrev calls : List Call
calls =
    create 100 8 new
    ∷ to_status review
    ∷ to_status in_progress
    ∷ to_status submitted
    ∷ to_status review
    ∷ to_status approved
    ∷ []

abbrev no_users : ℕ → List ℕ
no_users _ = []

abbrev contacts : ℕ → List String
contacts _ = "a@b.c" ∷ []

empty-IsTracked_here : IsTracked empty
empty-IsTracked_here i = refl

run-IsTracked_example : IsTracked (run no_users contacts calls empty)
run-IsTracked_example = run-IsTracked no_users contacts calls empty empty-IsTracked_here

abbrev approved_row : DataRequestLog
approved_row = record (new_log 100 8 new) { submission_status = some approved; batch_id = some 3 }

life : get_data_request 8 (run no_users contacts calls empty) ≡ some approved_row
unfolding run call create_and_request_submission update_submission_status transition_submission
life = refl

approved_was_reviewed_example :
    any (to_is review) (histories_of 8 (run no_users contacts calls empty)) ≡ true
approved_was_reviewed_example =
    (approved_was_reviewed no_users contacts calls empty 8 approved_row (refl, refl) life refl).2

abbrev after : Db
after = record empty { requests = approved_row ∷ [] }

final_status_stays_example :
    IsStill 8 approved_row
      (run no_users contacts (to_status rework ∷ create 200 9 new ∷ remind 900 ∷ []) after)
final_status_stays_example =
    final_status_stays no_users contacts (to_status rework ∷ create 200 9 new ∷ remind 900 ∷ [])
      after 8 approved_row refl refl

pipeline_starts_once_example : started 8 ((8, 3) ∷ (9, 4) ∷ (8, 3) ∷ []) empty ≡ 1
pipeline_starts_once_example =
    (pipeline_starts_once 8 ((8, 3) ∷ (9, 4) ∷ (8, 3) ∷ []) empty).1 refl refl
