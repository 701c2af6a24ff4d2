-- ===== src/Completeness/Tests.antt =====
-- A smelter with everything but its minerals, and one that is complete.
use kira_backend.Prelude.{
  ◌≤◌, String, ◌≡◌, refl, Bool, ◌||◌, none, some, [], ◌∷◌, ◌==◌, nat_eq, string_eq, option_eq,
}
use kira_backend.Completeness.{
  materials_handled_any, null, text, Snapshot, compute_completeness, has_blocking_gaps,
}
use kira_backend.Completeness.Gate.{compute_completeness_lem, submitted_without_gaps}
use kira_backend.Submission.{
  in_progress, submitted, moved, status_changed, submission_completed, DataRequestLog, Db,
  history_of, file,
}
use kira_backend.Submission.Service.{update_submission_status, new_log}

abbrev is_space : String → Bool
is_space t = t == "" || t == " "

abbrev smelter : Snapshot
smelter = record {
  provider_type = some "smelter";
  company_name = text "S";
  country = text "KR";
  business_reg_no = text "1";
  self_reported_risk_level = text "low";
  carbon_intensity = null;
  energy_source = null;
  environmental_report_url = null;
  factory_count = 1;
  mining_factories = [];
  factories_minerals = (("Ni", text "12") ∷ []) ∷ [];
}

abbrev bare : Snapshot
bare = record smelter { factories_minerals = (("Ni", text " ") ∷ []) ∷ [] }

bare_lacks :
    (compute_completeness is_space bare ("Ni" ∷ [])).blocking_missing ≡ materials_handled_any ∷ []
unfolding compute_completeness
bare_lacks = refl

compute_completeness_lem_example : 4 ≤ (compute_completeness is_space bare ("Ni" ∷ [])).required
compute_completeness_lem_example = (compute_completeness_lem is_space bare ("Ni" ∷ [])).1

abbrev asked : DataRequestLog
asked =
    record (new_log 100 8 (record {
      requester_user_id = 1;
      target_supplier_id = 5;
      requested_data_type = "carbon";
      due_date = none;
      actor_id = 1;
      bom_version_id = none;
    })) { submission_status = some in_progress }

abbrev before : Db
before = record {
  requests = asked ∷ [];
  histories = [];
  users = 1 ∷ [];
  suppliers = 5 ∷ [];
  bom_versions = [];
  last_invited_at = [];
  processed_jobs = [];
  queue = [];
  mails = [];
  events = [];
}

abbrev after : Db
after = record before {
  requests = moved submitted (some 3) asked ∷ [];
  histories = history_of asked submitted 1 none ∷ [];
  events =
      status_changed 8 (some in_progress) submitted
      ∷ submission_completed 8 (some 3) file ("a.pdf" ∷ []) []
      ∷ [];
}

submitted_without_gaps_example :
    (compute_completeness is_space smelter ("Ni" ∷ [])).blocking_missing ≡ []
unfolding update_submission_status has_blocking_gaps
submitted_without_gaps_example =
    submitted_without_gaps is_space (λ _. some smelter) (λ _. "Ni" ∷ []) before after 8 1 5 none
      (some 3) ("a.pdf" ∷ []) [] asked (moved submitted (some 3) asked) smelter refl refl refl refl
