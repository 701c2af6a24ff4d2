-- ===== src/Hitl/Actions.antt =====
-- The additional actions of a decision in backend/hitl/router.py.
use kira_backend.Prelude.{
  ℕ, zero, suc, String, ◌≡◌, refl, ap, inl, inr, Bool, Option, none, some, List, [], ◌∷◌, ◌++◌, map,
  arith, ◌==◌, nat_eq, string_eq, option_eq, Error, database_error, if◌then◌else◌, Bool-cases,
}
use kira_backend.Hitl.{action_jobs}
use kira_backend.Pipeline.Tables.{Job, hitl_decision}

abbrev pub is_notify : String → Bool
is_notify action = action == "notify_supplier"

-- How often the actions notify the supplier
abbrev pub notifications : List String → ℕ
notifications [] = 0
notifications (action ∷ actions) =
    let n = notifications actions in if action == "notify_supplier" then suc n else n

abbrev pub copies {ℓ} : {A : Type ℓ} → ℕ → List A → List A
copies zero xs = []
copies (suc n) xs = xs ++ copies n xs

-- What the actions are to enqueue, from how often they notify: a job for each user each time, and
-- nothing for a batch without a request; a request without a supplier fails the first time.
abbrev pub notices : ℕ → String → Option (Option ℕ) → (ℕ → List ℕ) → ℕ → List Job × Option Error
notices b decision none users_of n = ([], none)
notices b decision (some none) users_of zero = ([], none)
notices b decision (some none) users_of (suc n) = ([], some database_error)
notices b decision (some (some s)) users_of n =
    (copies n (map (hitl_decision b decision) (users_of s)), none)

pub action_jobs-notices :
    (b : ℕ) (decision : String) (target : Option (Option ℕ)) (users_of : ℕ → List ℕ)
    (actions : List String)
    → action_jobs b decision target users_of actions
      ≡ notices b decision target users_of (notifications actions)
unfolding action_jobs
action_jobs-notices b decision none users_of [] = refl
action_jobs-notices b decision (some none) users_of [] = refl
action_jobs-notices b decision (some (some s)) users_of [] = refl
action_jobs-notices b decision none users_of (a ∷ actions) =
    ground (arith, action_jobs-notices b decision none users_of actions)
action_jobs-notices b decision (some none) users_of (a ∷ actions) =
    elim (Bool-cases (is_notify a)) [
      | inl this ↦ rw this refl
      | inr other ↦ rw other (action_jobs-notices b decision (some none) users_of actions)
    ]
action_jobs-notices b decision (some (some s)) users_of (a ∷ actions) =
    elim (Bool-cases (is_notify a)) [
      | inl this ↦
          let jobs = map (hitl_decision b decision) (users_of s) in
          rw this (
            ap (λ (r : List Job × Option Error). (jobs ++ r.0, r.1))
              (action_jobs-notices b decision (some (some s)) users_of actions))
      | inr other ↦ rw other (action_jobs-notices b decision (some (some s)) users_of actions)
    ]
