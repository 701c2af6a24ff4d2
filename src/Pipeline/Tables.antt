-- ===== src/Pipeline/Tables.antt =====
-- The tables of the pipeline: `batches` and `hitl_reviews` of backend/docker/01_schema.sql and
-- backend/hitl/models.py, the results of the nodes, and the published events and the queue; the two
-- status changes of backend/domains/audit/state_machine.py.
use kira_backend.Prelude.{
  ℕ, String, Bool, Option, List, ◌==◌, nat_eq, string_eq, option_eq, value_error, Result, ok, err,
  if◌then◌else◌, any, update_where,
}
use kira_backend.Risk as Risk
use kira_backend.Pipeline.{
  Stage, BatchStatus, batch_processing, batch_hitl_wait, GeoResult, FinalJudgment,
}
use kira_backend.Pipeline.Compliance.{Docket}

pub data ReviewReason : Type 0 where
  geographical_risk risk_escalated gray_zone : ReviewReason

pub data ReviewStatus : Type 0 where
  hitl_pending hitl_in_review hitl_resolved : ReviewStatus

pub data Resolution : Type 0 where
  approve reject : Resolution

-- A row of `hitl_reviews`
pub record HitlReview : Type 0 where
  pub review_id : ℕ
  pub batch_id : ℕ
  pub reason : ReviewReason
  pub trigger_stage : Stage
  pub status : ReviewStatus
  pub resolution : Option Resolution
  pub decision_text : Option String
  pub decided_by : Option ℕ

-- A row of `batches`
pub record Batch : Type 0 where
  pub batch_id : ℕ
  pub product_id : Option ℕ
  pub destination : String
  pub current_stage : Stage
  pub status : BatchStatus
  pub confidence_score : Option ℕ

pub data Event : Type 0 where
  hitl_requested : ℕ → ReviewReason → Event
  reject_requested : ℕ → String → Event

pub data Job : Type 0 where
  hitl_created : (batch user : ℕ) → Job
  hitl_resume : (batch : ℕ) → Job
  hitl_decision : (batch : ℕ) (resolution : String) (user : ℕ) → Job

-- The tables, in the order of their creation, with the next key of a review, and what was published
-- and enqueued.
pub record Db : Type 0 where
  pub batches : List Batch
  pub hitl_reviews : List HitlReview
  pub next_review : ℕ
  pub geo_audit_results : List (ℕ × GeoResult)
  pub docket : Docket
  pub risk : Risk.Db
  pub final_judgments : List (ℕ × FinalJudgment)
  pub events : List Event
  pub queue : List Job

abbrev pub has_batch : ℕ → Batch → Bool
has_batch b row = row.batch_id == b

-- `UPDATE batches ... RETURNING batch_id`, with the error for no row.
abbrev pub update_batch : ℕ → (Batch → Batch) → Db → Result Db
update_batch b f db =
    if any (has_batch b) db.batches
    then ok (record db { batches = update_where (has_batch b) f db.batches })
    else err value_error

abbrev pub pause_batch_for_review : ℕ → Db → Result Db
pause_batch_for_review b = update_batch b (λ row. record row { status = batch_hitl_wait })

abbrev pub resume_batch_processing : ℕ → Db → Result Db
resume_batch_processing b = update_batch b (λ row. record row { status = batch_processing })
