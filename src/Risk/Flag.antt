-- ===== src/Risk/Flag.antt =====
-- The high-risk flag of a profile against its level, under the two writers of the row.
use kira_backend.Prelude.{
  ℕ, ◌≤◌, ◌≡◌, refl, inl, inr, Bool, true, false, Option, none, some, List, [], ◌∷◌, arith, nat_eq,
  string_eq, option_eq, ok, >>=-eq-ok, IfReturns, IfReturns-ok, Bool-cases, All, update_where,
  All-append, find?-holds, find?-any, find?-update_self,
}
use kira_backend.Prelude.Int.{ℤ, pos, clamp_100}
use kira_backend.Risk.{
  is_high, RiskProfile, new_profile, Db, Violation, of_supplier, get_profile, get_or_create, knows,
  RiskResult, calculate_risk_score, score_to_risk_level, upsert_risk_score, upserted,
  insert_profile,
}
use kira_backend.Risk.Score.{stored}

-- The flag is set exactly when the level is high or critical.
abbrev pub IsFlagged : RiskProfile → Type 0
IsFlagged p = p.is_high_risk_flag ≡ is_high p.risk_level

All-update_where :
    (q : RiskProfile → Bool) (p' : RiskProfile) (ps : List RiskProfile)
    → IsFlagged p'
    → All IsFlagged ps
    → All IsFlagged (update_where q (λ _. p') ps)
All-update_where q p' [] h a = tt
All-update_where q p' (p ∷ ps) h a =
    (elim (Bool-cases (q p)) [ inl e ↦ rw e h | inr e ↦ rw e a.0 ], All-update_where q p' ps h a.1)

insert-IsFlagged :
    (s : ℕ) (db : Db) (known : Bool)
    → All IsFlagged db.profiles
    → IfReturns (λ out. All IsFlagged out.1.profiles) (insert_profile s db known)
insert-IsFlagged s db true a = All-append IsFlagged db.profiles (new_profile s ∷ []) a (refl, tt)
insert-IsFlagged s db false a = tt

get_or_create-IsFlagged :
    (s : ℕ) (db : Db) (o : Option RiskProfile)
    → All IsFlagged db.profiles
    → IfReturns (λ out. All IsFlagged out.1.profiles) (get_or_create s db o)
get_or_create-IsFlagged s db none a = insert-IsFlagged s db (knows s db) a
get_or_create-IsFlagged s db (some p) a = a

-- `calculate_risk_score` keeps every profile's flag in step with its level: where they agree in all
-- rows before a call that returns, they agree in all rows after it.
pub calculate_risk_score-IsFlagged :
    (db : Db) (batch s : ℕ) (vs : List Violation) {r : RiskResult} {db' : Db}
    → All IsFlagged db.profiles
    → calculate_risk_score db batch s vs ≡ ok (r, db')
    → All IsFlagged db'.profiles
unfolding calculate_risk_score
calculate_risk_score-IsFlagged db batch s vs {r} {db'} a e =
    let (out, made, same) = >>=-eq-ok (get_or_create s db (get_profile s db.profiles)) _ e in
    let all =
      IfReturns-ok (λ (o : RiskProfile × Db). All IsFlagged o.1.profiles) _ out
        (get_or_create-IsFlagged s db (get_profile s db.profiles) a) made in
    IfReturns-ok (λ (o : RiskResult × Db). All IsFlagged o.1.profiles) _ (r, db')
      (All-update_where (of_supplier out.0.supplier_id) (stored out.0 vs) out.1.profiles refl all)
      same

-- `upsert_risk_score` writes the score and the level and not the flag: for a supplier whose stored
-- profile is not flagged, a score of 50 or more leaves a profile with a high or critical level and
-- no flag.
pub upsert_risk_score_leaves_flag :
    (db : Db) (s : ℕ) (n : ℤ) (p : RiskProfile)
    → get_profile s db.profiles ≡ some p
    → p.is_high_risk_flag ≡ false
    → 50 ≤ clamp_100 n
    → (db' : Db) × (p' : RiskProfile) × (upsert_risk_score db s n ≡ ok db')
      × (get_profile s db'.profiles ≡ some p')
      × (is_high p'.risk_level ≡ true)
      × (p'.is_high_risk_flag ≡ false)
unfolding upsert_risk_score
upsert_risk_score_leaves_flag db s n p found unflagged high =
    let known = find?-any (of_supplier s) db.profiles {x = p} found in
    let level = score_to_risk_level (clamp_100 n) in
    let f : RiskProfile → RiskProfile =
      λ q. record q { overall_risk_score = some (pos (clamp_100 n)); risk_level = level } in
    (
      upserted db s (clamp_100 n),
      f p,
      rw known refl,
      rw known (
          find?-update_self (of_supplier s) f db.profiles found
            (find?-holds (of_supplier s) db.profiles found)),
      ground arith,
      unflagged,
    )
