-- ===== src/Submission/Reminders.antt =====
-- What send_overdue_reminders of backend/domains/submission/service.py writes to the requests.
use kira_backend.Prelude.{
  ℕ, String, ◌≡◌, refl, sym, ap, ◌∙◌, subst, inl, inr, Option, none, some, List, [], ◌∷◌, nat_eq,
  string_eq, option_eq, ok, >>=-eq-ok, IfReturns-ok, nat_beq, Bool-cases, filter, find?,
  update_where,
}
use kira_backend.Submission.{DataRequestLog, Db, has_request, get_data_request}
use kira_backend.Submission.Service.{
  remind, reminded, recipients, remind_all, send_overdue_reminders, is_overdue,
}
use kira_backend.Submission.Paths.{histories_of, Tracks, IsPath, IsTracked}

-- All columns but the two of the reminders
abbrev pub without_reminders : DataRequestLog → DataRequestLog
without_reminders r = record r { reminder_count = none; last_reminder_at = none }

abbrev pub IsSameRow : Option DataRequestLog → Option DataRequestLog → Type 0
IsSameRow none none = Unit
IsSameRow (some r) (some q) = without_reminders q ≡ without_reminders r
IsSameRow _ _ = ⊥

IsSameRow-refl : (o : Option DataRequestLog) → IsSameRow o o
IsSameRow-refl none = tt
IsSameRow-refl (some r) = refl

IsSameRow-trans : (a b c : Option DataRequestLog) → IsSameRow a b → IsSameRow b c → IsSameRow a c
IsSameRow-trans none none none h k = tt
IsSameRow-trans (some a) (some b) (some c) h k = k ∙ h
IsSameRow-trans none none (some c) h k = k
IsSameRow-trans none (some b) c h k = absurd h
IsSameRow-trans (some a) none c h k = absurd h
IsSameRow-trans (some a) (some b) none h k = k

find-reminded :
    (users_of : ℕ → List ℕ) (contacts_of : ℕ → List String) (i k now : ℕ) (rs : List DataRequestLog)
    → IsSameRow (find? (has_request i) rs) (
        find? (has_request i) (update_where (has_request k) (reminded users_of contacts_of now) rs))
find-reminded users_of contacts_of i k now [] = tt
find-reminded users_of contacts_of i k now (r ∷ rs) =
    let rest = find-reminded users_of contacts_of i k now rs in
    elim (Bool-cases (nat_beq r.request_id i)) [
      | inl this ↦ elim (Bool-cases (nat_beq r.request_id k)) [
        | inl due ↦ rw (this, due, this) refl
        | inr other ↦ rw (this, other, this) refl
      ]
      | inr later ↦ elim (Bool-cases (nat_beq r.request_id k)) [
        | inl due ↦ rw (later, due, later) rest
        | inr other ↦ rw (later, other, later) rest
      ]
    ]

-- The history stays, and each row but for its reminders
abbrev pub Keeps : Db → Db → Type 0
Keeps db db' =
    (db'.histories ≡ db.histories)
    × ((i : ℕ) → IsSameRow (get_data_request i db) (get_data_request i db'))

Keeps-trans : (a b c : Db) → Keeps a b → Keeps b c → Keeps a c
Keeps-trans a b c h k = (k.0 ∙ h.0, λ i. IsSameRow-trans _ _ _ (h.1 i) (k.1 i))

tracked :
    (a b : Option DataRequestLog) (i : ℕ) (db : Db)
    → IsSameRow a b
    → Tracks a (histories_of i db)
    → Tracks b (histories_of i db)
tracked none none i db h t = t
tracked (some a) (some b) i db h t =
    let status = ap (λ (r : DataRequestLog). r.submission_status) h in
    let batch = ap (λ (r : DataRequestLog). r.batch_id) h in
    (subst (IsPath none (histories_of i db)) (sym status) t.0, rw (status, batch) t.1)
tracked none (some b) i db h t = absurd h
tracked (some a) none i db h t = absurd h

module _ (users_of : ℕ → List ℕ) (contacts_of : ℕ → List String) where
  remind-Keeps :
      (now : ℕ) (r : DataRequestLog) (db : Db) (us : List ℕ)
      → Keeps db (remind users_of contacts_of now r db us)
  remind-Keeps now r db [] = (refl, λ i. IsSameRow-refl _)
  remind-Keeps now r db (u ∷ us) =
      (refl, λ i. find-reminded users_of contacts_of i r.request_id now db.requests)

  remind_all-Keeps :
      (now : ℕ) (rs : List DataRequestLog) (db db' : Db)
      → remind_all users_of contacts_of now rs db ≡ ok db'
      → Keeps db db'
  unfolding remind_all
  remind_all-Keeps now [] db db' e =
      IfReturns-ok (Keeps db) (ok db) db' (refl, λ i. IsSameRow-refl _) e
  remind_all-Keeps now (r ∷ rs) db db' e =
      let (us, given, rest) = >>=-eq-ok (recipients users_of contacts_of r) _ e in
      Keeps-trans db (remind users_of contacts_of now r db us) db' (remind-Keeps now r db us)
        (remind_all-Keeps now rs (remind users_of contacts_of now r db us) db' rest)

  pub reminders-Keeps :
      (db : Db) (now : ℕ) {n : ℕ} {db' : Db}
      → send_overdue_reminders users_of contacts_of db now ≡ ok (n, db')
      → Keeps db db'
  unfolding send_overdue_reminders
  reminders-Keeps db now {n} {db'} e =
      let (db1, made, same) =
        >>=-eq-ok
          (remind_all users_of contacts_of now
            (filter (is_overdue users_of contacts_of now) db.requests) db)
          _ e in
      IfReturns-ok (λ (o : ℕ × Db). Keeps db o.1) _ (n, db')
        (remind_all-Keeps now (filter (is_overdue users_of contacts_of now) db.requests) db db1
          made)
        same

  pub reminders-IsTracked :
      (db : Db) (now : ℕ) {n : ℕ} {db' : Db}
      → IsTracked db
      → send_overdue_reminders users_of contacts_of db now ≡ ok (n, db')
      → IsTracked db'
  reminders-IsTracked db now {n} {db'} t e =
      let (same, rows) = reminders-Keeps db now {n = n} {db' = db'} e in
      λ i. rw same (tracked (get_data_request i db) (get_data_request i db') i db (rows i) (t i))
