-- ===== src/Risk.antt =====
-- Supplier risk: backend/domains/risk/state_machine.py and backend/domains/risk/service.py, with
-- the second writer of the same row, `upsert_risk_score` of backend/domains/supplier/service.py
-- over `upsert_risk_profile` and `update_supplier_risk_level` of
-- backend/domains/supplier/repository.py. A history row keeps the parts of its `reason` text;
-- published events are a list in the state.

pub mod Score
pub mod Flag
mod Tests
use kira_backend.Prelude.{
  ℕ, zero, suc, ◌+◌, ◌-◌, ◌*◌, ◌/◌, ◌%◌, ◌≤◌, ◌<◌, min, max, String, ◌≡◌, refl, sym, ap, ◌∙◌, subst,
  ◌≢◌, ◌↔◌, ◌⊎◌, inl, inr, Bool, true, false, not, ◌&&◌, ◌||◌, Option, none, some, List, [], ◌∷◌,
  ◌++◌, map, arith, Eq, ◌==◌, nat_eq, string_eq, option_eq, option_beq_iff, contains, Error,
  value_error, type_error, integrity_error, batch_not_found, http, Result, ok, err, ◌>>=◌, ◌>>◌,
  raise_if, >>=-eq-ok, ltb, leb, nat_beq, nat_beq_iff, if◌then◌else◌, Bool-cases, Option-cases,
  is_some, length, All, any, all, filter, count_if, find?, update_where, length-append,
  count_if-append, All-append, All-map, any-append, find?-holds, length-update_where,
}
use kira_backend.Prelude.Int.{ℤ, pos, negsuc, int_beq, add_ℕ, clamp_100}

pub data RiskLevel : Type 0 where
  low medium high critical : RiskLevel

abbrev pub level_beq : RiskLevel → RiskLevel → Bool
level_beq low low = true
level_beq medium medium = true
level_beq high high = true
level_beq critical critical = true
level_beq _ _ = false

pub level_beq_iff : (a b : RiskLevel) → (level_beq a b ≡ true) ↔ (a ≡ b)
level_beq_iff a b = ground arith

-- `calculate_risk_level`; every caller passes a score that is clamped or a stored maximum.
abbrev pub calculate_risk_level : ℕ → RiskLevel
calculate_risk_level score =
    if leb 70 score
    then critical
    else (if leb 50 score then high else (if leb 30 score then medium else low))

-- `_score_to_risk_level`, the copy of the supplier domain
abbrev pub score_to_risk_level : ℕ → RiskLevel
score_to_risk_level score =
    if leb 70 score
    then critical
    else (if leb 50 score then high else (if leb 30 score then medium else low))

abbrev pub is_high : RiskLevel → Bool
is_high l = level_beq l high || level_beq l critical

pub record RiskProfile : Type 0 where
  pub supplier_id : ℕ
  pub overall_risk_score : Option ℤ
  pub risk_level : RiskLevel
  pub is_high_risk_flag : Bool
  pub high_risk_reasons : Option (List String)

-- `RiskProfile(supplier_id=...)` after the flush: the defaults of the columns
abbrev pub new_profile : ℕ → RiskProfile
new_profile s = record {
  supplier_id = s;
  overall_risk_score = some (pos 0);
  risk_level = low;
  is_high_risk_flag = false;
  high_risk_reasons = none;
}

pub data HistoryReason : Type 0 where
  joined : List String → HistoryReason
  recalculated verified : HistoryReason

pub record ScoreHistory : Type 0 where
  pub supplier_id : ℕ
  pub from_score : Option ℤ
  pub to_score : ℕ
  pub from_level : Option RiskLevel
  pub to_level : RiskLevel
  pub reason : HistoryReason

pub data Event : Type 0 where
  risk_escalated : ℕ → ℕ → Event
  risk_profile_updated : ℕ → ℕ → RiskLevel → Event

-- The tables that the two writers touch; `suppliers` has the cached level of each supplier.
pub record Db : Type 0 where
  pub suppliers : List (ℕ × RiskLevel)
  pub profiles : List RiskProfile
  pub history : List ScoreHistory
  pub events : List Event

pub data ViolationType : Type 0 where
  compliance_violation compliance_reject geo_risk_detected compliance_warning other : ViolationType

pub record Violation : Type 0 where
  pub type : ViolationType
  pub reason : Option String

abbrev pub points : ViolationType → ℕ
points compliance_violation = 50
points compliance_reject = 50
points geo_risk_detected = 30
points compliance_warning = 15
points other = 0

-- `added_score` of the loop
pub added_score : List Violation → ℕ
added_score [] = 0
added_score (v ∷ vs) = points v.type + added_score vs

-- `if violation.get("reason")`: neither missing nor empty
abbrev pub truthy : Option String → List String
truthy none = []
truthy (some s) = if s == "" then [] else s ∷ []

pub reasons_of : List Violation → List String
reasons_of [] = []
reasons_of (v ∷ vs) = truthy v.reason ++ reasons_of vs

abbrev pub or_zero : Option ℤ → ℤ
or_zero none = pos 0
or_zero (some a) = a

abbrev pub or_empty : Option (List String) → List String
or_empty none = []
or_empty (some l) = l

-- `update_risk_profile_state`: the profile and whether to escalate
abbrev pub update_risk_profile_state : RiskProfile → ℤ → List String → RiskProfile × Bool
update_risk_profile_state profile new_score reasons =
    let score = clamp_100 new_score in
    let level = calculate_risk_level score in
    (
      record profile {
        overall_risk_score = some (pos score);
        risk_level = level;
        is_high_risk_flag = is_high level;
        high_risk_reasons = some reasons;
      },
      level_beq level critical,
    )

abbrev pub of_supplier : ℕ → RiskProfile → Bool
of_supplier s p = p.supplier_id == s

abbrev pub get_profile : ℕ → List RiskProfile → Option RiskProfile
get_profile s ps = find? (of_supplier s) ps

-- `get_by_supplier_id`, else `create`, whose foreign key fails for an unknown supplier
abbrev pub insert_profile : ℕ → Db → Bool → Result (RiskProfile × Db)
insert_profile s db true =
    ok (new_profile s, record db { profiles = db.profiles ++ new_profile s ∷ [] })
insert_profile s db false = err (http 404)

abbrev pub knows : ℕ → Db → Bool
knows s db = any (λ row. row.0 == s) db.suppliers

abbrev pub get_or_create : ℕ → Db → Option RiskProfile → Result (RiskProfile × Db)
get_or_create s db (some p) = ok (p, db)
get_or_create s db none = insert_profile s db (knows s db)

abbrev pub reason_text : List String → HistoryReason
reason_text [] = recalculated
reason_text (r ∷ rs) = joined (r ∷ rs)

pub record RiskResult : Type 0 where
  pub supplier_id : ℕ
  pub overall_risk_score : ℕ
  pub risk_level : RiskLevel
  pub is_escalated : Bool

-- The values of the `INSERT INTO risk_score_history`
abbrev pub history_row : RiskProfile → List Violation → ℕ → ScoreHistory
history_row profile vs final = record {
  supplier_id = profile.supplier_id;
  from_score = some (or_zero profile.overall_risk_score);
  to_score = final;
  from_level = some profile.risk_level;
  to_level = calculate_risk_level final;
  reason = reason_text (reasons_of vs);
}

-- What `calculate_risk_score` does once it has the profile row.
abbrev pub apply_score : ℕ → List Violation → RiskProfile → Db → RiskResult × Db
apply_score batch vs profile db =
    let current = or_zero profile.overall_risk_score in
    let new_score = add_ℕ current (added_score vs) in
    let (profile', escalated) =
      update_risk_profile_state profile new_score
        (or_empty profile.high_risk_reasons ++ reasons_of vs) in
    let final = clamp_100 new_score in
    let changed =
      not (int_beq current (pos final)) || not (level_beq profile.risk_level profile'.risk_level) in
    (
      record {
        supplier_id = profile.supplier_id;
        overall_risk_score = final;
        risk_level = profile'.risk_level;
        is_escalated = escalated;
      },
      record db {
        profiles = update_where (of_supplier profile.supplier_id) (λ _. profile') db.profiles;
        history = if changed then db.history ++ history_row profile vs final ∷ [] else db.history;
        events = if escalated then db.events ++ risk_escalated batch final ∷ [] else db.events;
      },
    )

unfoldable pub calculate_risk_score : Db → ℕ → ℕ → List Violation → Result (RiskResult × Db)
unfolding added_score reasons_of
calculate_risk_score db batch supplier vs = do
  (profile, db') ← get_or_create supplier db (get_profile supplier db.profiles)
  ok (apply_score batch vs profile db')

-- `INSERT ... ON CONFLICT (supplier_id) DO UPDATE` of the score and the level alone
abbrev pub upsert_risk_profile : ℕ → ℕ → RiskLevel → List RiskProfile → List RiskProfile
upsert_risk_profile s score level ps =
    if any (of_supplier s) ps
    then update_where (of_supplier s)
        (λ p. record p { overall_risk_score = some (pos score); risk_level = level }) ps
    else ps
      ++ record (new_profile s) { overall_risk_score = some (pos score); risk_level = level } ∷ []

abbrev pub update_supplier_risk_level : ℕ → RiskLevel → List (ℕ × RiskLevel) → List (ℕ × RiskLevel)
update_supplier_risk_level s level = update_where (λ row. row.0 == s) (λ row. (row.0, level))

abbrev pub prior_score : Option RiskProfile → Option ℤ
prior_score none = none
prior_score (some p) = p.overall_risk_score

abbrev pub prior_level : Option RiskProfile → Option RiskLevel
prior_level none = none
prior_level (some p) = some p.risk_level

abbrev pub is_score : ℕ → Option ℤ → Bool
is_score n none = false
is_score n (some a) = int_beq a (pos n)

abbrev pub is_level : RiskLevel → Option RiskLevel → Bool
is_level l none = false
is_level l (some k) = level_beq k l

-- What `upsert_risk_score` has written when it returns
abbrev pub upserted : Db → ℕ → ℕ → Db
upserted db s score =
    let level = score_to_risk_level score in
    let prior = get_profile s db.profiles in
    let changed =
      not (is_score score (prior_score prior)) || not (is_level level (prior_level prior)) in
    record db {
      suppliers = update_supplier_risk_level s level db.suppliers;
      profiles = upsert_risk_profile s score level db.profiles;
      history =
          if changed
          then db.history
            ++ record {
              supplier_id = s;
              from_score = prior_score prior;
              to_score = score;
              from_level = prior_level prior;
              to_level = level;
              reason = verified;
            }
              ∷ []
          else db.history;
      events = db.events ++ risk_profile_updated s score level ∷ [];
    }

unfoldable pub upsert_risk_score : Db → ℕ → ℤ → Result Db
upsert_risk_score db s given =
    raise_if (not (any (of_supplier s) db.profiles) && not (knows s db)) integrity_error
    >> ok (upserted db s (clamp_100 given))
