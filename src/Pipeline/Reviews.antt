-- ===== src/Pipeline/Reviews.antt =====
-- The interrupt and the resumption of a run, hitl_interrupt_node and resume_graph of
-- backend/agents/graph.py, and the reviews in the tables.
use kira_backend.Prelude.{
  some-injective, ℕ, suc, ◌+◌, ◌≤◌, ◌≡◌, refl, sym, ap, ◌∙◌, subst, ◌≢◌, inl, inr, Bool, true,
  false, none, some, List, [], ◌∷◌, ◌++◌, map, arith, nat_eq, string_eq, option_eq, ok, Bool-cases,
  Result-cases, length, any, count_if, update_where, length-append, count_if-append,
}
use kira_backend.Pipeline.{batch_processing, batch_hitl_wait, BatchState}
use kira_backend.Pipeline.Tables.{
  ReviewReason, geographical_risk, risk_escalated, gray_zone, approve, reject, Batch,
  hitl_requested, hitl_created, Db, has_batch,
}
use kira_backend.Pipeline.Graph.{
  hitl_reason, reason_beq, is_same_request, new_review, request_review, confidence_or_zero,
  approved_state, hitl_resumed, World, Stop, raised, out_of_fuel, run, enough, continue_run,
  resume_graph,
}
use kira_backend.Pipeline.Runs.{EndsWell, ends}

-- The open reviews of the request that a state makes
abbrev pub open_reviews : BatchState → Db → ℕ
open_reviews s db =
    count_if (is_same_request s.batch_id (hitl_reason s.error_reason) s.current_stage)
      db.hitl_reviews

abbrev pub is_known : BatchState → Db → Bool
is_known s db = any (has_batch s.batch_id) db.batches

count-none {ℓ} : {A : Type ℓ} (p : A → Bool) (xs : List A) → any p xs ≡ false → count_if p xs ≡ 0
count-none p [] h = refl
count-none p (x ∷ xs) h = ground (arith, count-none p xs)

count-some {ℓ} : {A : Type ℓ} (p : A → Bool) (xs : List A) → any p xs ≡ true → 1 ≤ count_if p xs
count-some p [] h = absurd (cc h)
count-some p (x ∷ xs) h = ground (arith, count-some p xs)

any-updated :
    (b : ℕ) (f : Batch → Batch) (rows : List Batch)
    → ((row : Batch) → (f row).batch_id ≡ row.batch_id)
    → any (has_batch b) (update_where (has_batch b) f rows) ≡ any (has_batch b) rows
any-updated b f [] k = refl
any-updated b f (row ∷ rows) k = ground (arith, k row, any-updated b f rows k)

length-map {ℓ κ} :
    {A : Type ℓ} {B : Type κ} (f : A → B) (xs : List A) → length (map f xs) ≡ length xs
length-map f [] = refl
length-map f (x ∷ xs) = ap suc (length-map f xs)

reason_refl : (r : ReviewReason) → reason_beq r r ≡ true
reason_refl geographical_risk = refl
reason_refl risk_escalated = refl
reason_refl gray_zone = refl

-- For a batch that is stored, the request of a review leaves exactly one open review where there
-- was none, with the event and a job for each owner, and changes nothing but the status of the
-- batch where one is open.
pub request_review_lem :
    (owners : ℕ → List ℕ) (s : BatchState) (db : Db)
    → is_known s db ≡ true
    → (db' : Db) × (request_review owners s db ≡ ok db')
      × (is_known s db' ≡ true)
      × (open_reviews s db ≡ 0
          → (open_reviews s db' ≡ 1)
            × (db'.events
                ≡ db.events ++ hitl_requested s.batch_id (hitl_reason s.error_reason) ∷ [])
            × (length db'.queue ≡ length db.queue + length (owners s.batch_id)))
      × (1 ≤ open_reviews s db
          → (db'.hitl_reviews ≡ db.hitl_reviews)
            × (db'.events ≡ db.events)
            × (db'.queue ≡ db.queue))
unfolding request_review
request_review_lem owners s db known =
    let same = is_same_request s.batch_id (hitl_reason s.error_reason) s.current_stage in
    let row = new_review db.next_review s.batch_id (hitl_reason s.error_reason) s.current_stage in
    let paused_rows : List Batch =
      update_where (has_batch s.batch_id) (λ b. record b { status = batch_hitl_wait }) db.batches in
    let still : any (has_batch s.batch_id) paused_rows ≡ true =
      any-updated s.batch_id (λ b. record b { status = batch_hitl_wait }) db.batches (λ _. refl)
      ∙ known in
    elim (Bool-cases (any same db.hitl_reviews)) [
      | inl present ↦
          let db' : Db = record db { batches = paused_rows } in
          let some_open = count-some same db.hitl_reviews present in
          (
            db',
            ground arith,
            still,
            λ zero_open. absurd (omega (arith, zero_open, some_open)),
            λ _. (refl, refl, refl),
          )
      | inr closed ↦
          let db' : Db = record db {
            batches = paused_rows;
            hitl_reviews = db.hitl_reviews ++ row ∷ [];
            next_review = db.next_review + 1;
            events = db.events ++ hitl_requested s.batch_id (hitl_reason s.error_reason) ∷ [];
            queue = db.queue ++ map (hitl_created s.batch_id) (owners s.batch_id);
          } in
          let none_open = count-none same db.hitl_reviews closed in
          let itself : same row ≡ true = ground (arith, reason_refl (hitl_reason s.error_reason)) in
          (
            db',
            ground arith,
            still,
            λ _. (
              ground (arith, count_if-append same db.hitl_reviews (row ∷ [])),
              refl,
              length-append db.queue (map (hitl_created s.batch_id) (owners s.batch_id))
                  ∙ ap (λ n. length db.queue + n)
                      (length-map (hitl_created s.batch_id) (owners s.batch_id)),
            ),
            λ h. absurd (omega (arith, h, none_open)),
          )
    ]

-- For a batch that is stored and has no open review of the kind, asking twice is asking once: the
-- second request of an unresolved review leaves the reviews, the events and the queue as the first
-- has left them.
pub request_review_twice :
    (owners : ℕ → List ℕ) (s : BatchState) (db db' : Db)
    → is_known s db ≡ true
    → open_reviews s db ≡ 0
    → request_review owners s db ≡ ok db'
    → (db'' : Db) × (request_review owners s db' ≡ ok db'')
      × (db''.hitl_reviews ≡ db'.hitl_reviews)
      × (db''.events ≡ db'.events)
      × (db''.queue ≡ db'.queue)
request_review_twice owners s db db' known nothing made =
    let (d, first, still, fresh, _) = request_review_lem owners s db known in
    let same : d ≡ db' = ground arith in
    let one : open_reviews s db' ≡ 1 = subst (λ x. open_reviews s x ≡ 1) same (fresh nothing).0 in
    let known' = subst (λ x. is_known s x ≡ true) same still in
    let (d', second, _, _, again) = request_review_lem owners s db' known' in
    let (a, b, c) = again (omega (arith, one)) in (d', second, a, b, c)

-- An approval of a stored batch restarts the interrupted node, which looks for an open review
-- again. Where there is none, since the review of the pause is resolved by then, the resumption
-- makes a second one, pending and with its event, while the state that runs on has no error, no
-- outstanding review and a confidence of at least 0.85.
pub approval_requests_again :
    (owners : ℕ → List ℕ) (s : BatchState) (db : Db)
    → is_known s db ≡ true
    → open_reviews s db ≡ 0
    → (s' : BatchState) × (db' : Db) × (hitl_resumed owners s db ≡ ok (s', db'))
      × (open_reviews s db' ≡ 1)
      × (db'.events ≡ db.events ++ hitl_requested s.batch_id (hitl_reason s.error_reason) ∷ [])
      × (s'.error_reason ≡ none)
      × (s'.hitl_required ≡ false)
      × (s'.current_stage ≡ s.current_stage)
      × (8500 ≤ confidence_or_zero s'.confidence_score)
unfolding hitl_resumed
approval_requests_again owners s db known nothing =
    let (d, made, still, fresh, _) = request_review_lem owners s db known in
    let (one, event, _) = fresh nothing in
    let db' : Db = record d {
      batches =
          update_where (has_batch s.batch_id) (λ b. record b { status = batch_processing })
            d.batches;
    } in
    (approved_state s, db', ground arith, one, event, refl, refl, refl, ground arith)

-- A resumption from the checkpoint always stops: it finishes, pauses again or a node raises. A
-- rejection starts nothing.
pub resume_graph_stops :
    (w : World) (b : ℕ) (s : BatchState) (db : Db)
    → (resume_graph w b reject (some s) db ≡ none)
      × ((out : Stop × Db) → resume_graph w b approve (some s) db ≡ some out → out.0 ≢ out_of_fuel)
unfolding resume_graph
resume_graph_stops w b s db = (
  refl,
  λ out q. elim (Result-cases (hitl_resumed w.owners s db)) [
    | inl ((s', db'), made) ↦
        let well = ends w enough s' db' (ground arith) in
        let same : run w enough s' db' ≡ out =
          some-injective (sym (ap (λ o. some (continue_run w db o)) made) ∙ q) in
        λ stuck. cc (subst (EndsWell s') (ap (λ o. o.0) same ∙ stuck) well)
    | inr (problem, failed) ↦
        let same : ◌≡◌ {A = Stop × Db} (raised problem, db) out =
          some-injective (sym (ap (λ o. some (continue_run w db o)) failed) ∙ q) in
        λ stuck. cc (ap (λ o. o.0) same ∙ stuck)
  ],
)
