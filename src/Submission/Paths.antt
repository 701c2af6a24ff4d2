-- ===== src/Submission/Paths.antt =====
-- The audit history of a request against the matrix of backend/domains/submission/models.py.
use kira_backend.Prelude.{
  ℕ, String, ◌≡◌, refl, sym, ◌∙◌, inl, inr, Bool, true, false, not, ◌&&◌, ◌||◌, Option, none, some,
  List, [], ◌∷◌, ◌++◌, arith, ◌==◌, nat_eq, string_eq, option_eq, contains, ok, Option-cases,
  is_some, any, filter,
}
use kira_backend.Submission.{
  SubmissionStatus, requested, in_progress, submitted, rejected, status_beq, submission_transitions,
  DataRequestLog, StatusHistory, Event, Db, get_data_request, is_allowed, is_blank, moved,
  batch_after, transitioned, transition_submission,
}

abbrev pub of_request : ℕ → StatusHistory → Bool
of_request i h = h.request_id == i

abbrev pub histories_of : ℕ → Db → List StatusHistory
histories_of i db = filter (of_request i) db.histories

-- An edge of the matrix, or the creation.
abbrev pub is_step : Option SubmissionStatus → SubmissionStatus → Bool
is_step none to = status_beq to requested
is_step (some s) to = any (λ t. status_beq t to) (submission_transitions s)

-- The rows follow one another along edges, and every rejection has a reason.
abbrev pub IsPath : Option SubmissionStatus → List StatusHistory → Option SubmissionStatus → Type 0
IsPath s [] t = s ≡ t
IsPath s (h ∷ hs) t =
    (h.from_status ≡ s)
    × (is_step s h.to_status ≡ true)
    × ((status_beq h.to_status rejected && is_blank h.reason) ≡ false)
    × IsPath (some h.to_status) hs t

-- From the submission on a request carries its batch.
abbrev pub needs_batch : Option SubmissionStatus → Bool
needs_batch none = false
needs_batch (some requested) = false
needs_batch (some in_progress) = false
needs_batch (some _) = true

abbrev pub Tracks : Option DataRequestLog → List StatusHistory → Type 0
Tracks none hs = hs ≡ []
Tracks (some r) hs =
    IsPath none hs r.submission_status
    × ((not (needs_batch r.submission_status) || is_some r.batch_id) ≡ true)

abbrev pub IsTracked : Db → Type 0
IsTracked db = (i : ℕ) → Tracks (get_data_request i db) (histories_of i db)

pub IsPath-append :
    (s t : Option SubmissionStatus) (hs : List StatusHistory) (h : StatusHistory)
    → IsPath s hs t
    → h.from_status ≡ t
    → is_step t h.to_status ≡ true
    → (status_beq h.to_status rejected && is_blank h.reason) ≡ false
    → IsPath s (hs ++ h ∷ []) (some h.to_status)
IsPath-append s t [] h p e a b = (e ∙ sym p, rw p a, b, refl)
IsPath-append s t (k ∷ hs) h p e a b =
    (p.0, p.1, p.2, IsPath-append (some k.to_status) t hs h p.3 e a b)

-- What a transition that returns has found and written.
pub transition-inversion :
    (db : Db) (i : ℕ) (to : SubmissionStatus) (actor : ℕ) (reason : Option String)
    (batch : Option ℕ) {out : (DataRequestLog × Event) × Db}
    → transition_submission db i to actor reason batch ≡ ok out
    → (r : DataRequestLog) × (get_data_request i db ≡ some r)
      × (is_allowed r.submission_status to ≡ true)
      × ((status_beq to rejected && is_blank reason) ≡ false)
      × (contains db.users actor ≡ true)
      × (out.0.0 ≡ moved to batch r)
      × (out.1 ≡ transitioned db r to actor reason batch)
unfolding transition_submission
transition-inversion db i to actor reason batch {out} h =
    elim (Option-cases (get_data_request i db)) [
      | inl missing ↦ absurd (ground arith)
      | inr (r, e) ↦ (r, e, ground arith, ground arith, ground arith, ground arith, ground arith)
    ]

pub allowed-step :
    (s : Option SubmissionStatus) (to : SubmissionStatus)
    → is_allowed s to ≡ true
    → is_step s to ≡ true
allowed-step none to h = absurd (cc h)
allowed-step (some s) to h = h

-- The batch that the guards ask for at `submitted` stays with the request.
pub batch-kept :
    (s : Option SubmissionStatus) (to : SubmissionStatus) (batch old : Option ℕ)
    → is_allowed s to ≡ true
    → (status_beq to submitted && not (is_some batch)) ≡ false
    → (not (needs_batch s) || is_some old) ≡ true
    → (not (needs_batch (some to)) || is_some (batch_after to batch old)) ≡ true
batch-kept none to batch old a g k = absurd (cc a)
batch-kept (some s) to batch old a g k = ground arith
