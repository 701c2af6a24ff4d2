-- ===== src/Risk/Score.antt =====
-- What `calculate_risk_score` computes, writes, records and publishes.
use kira_backend.Prelude.{
  ℕ, ◌+◌, ◌*◌, ◌≤◌, ◌<◌, ◌≡◌, refl, sym, ap, ◌∙◌, subst, ◌≢◌, ◌↔◌, ◌⊎◌, inl, inr, Bool, true, false,
  not, ◌||◌, none, some, List, [], ◌∷◌, ◌++◌, arith, nat_eq, string_eq, option_eq, http, ok, err,
  nat_beq_iff, if◌then◌else◌, count_if, find?-holds, find?-update_self, find?-update_other,
  find?-append_new, find?-append_other,
}
use kira_backend.Prelude.Int.{ℤ, pos, int_beq, int_beq_iff, add_ℕ, clamp_100}
use kira_backend.Risk.{
  RiskLevel, low, medium, high, critical, level_beq, level_beq_iff, history_row,
  calculate_risk_level, score_to_risk_level, RiskProfile, new_profile, ScoreHistory, risk_escalated,
  Db, ViolationType, compliance_violation, compliance_reject, geo_risk_detected, compliance_warning,
  other, Violation, points, added_score, reasons_of, or_zero, or_empty, of_supplier, get_profile,
  get_or_create, knows, RiskResult, apply_score, calculate_risk_score, update_risk_profile_state,
}

abbrev pub is_violation : ViolationType → Bool
is_violation compliance_violation = true
is_violation compliance_reject = true
is_violation _ = false

abbrev pub is_geo : ViolationType → Bool
is_geo geo_risk_detected = true
is_geo _ = false

abbrev pub is_warning : ViolationType → Bool
is_warning compliance_warning = true
is_warning _ = false

abbrev pub number_of : (ViolationType → Bool) → List Violation → ℕ
number_of k vs = count_if (λ v. k v.type) vs

points-kinds :
    (t : ViolationType)
    → points t
      ≡ 50 * (if is_violation t then 1 else 0)
        + 30 * (if is_geo t then 1 else 0)
        + 15 * (if is_warning t then 1 else 0)
points-kinds compliance_violation = refl
points-kinds compliance_reject = refl
points-kinds geo_risk_detected = refl
points-kinds compliance_warning = refl
points-kinds other = refl

-- The score that is added is fifty for each violation or reject, thirty for each geographic risk
-- and fifteen for each warning, in whatever order they come.
pub added_score-counts :
    (vs : List Violation)
    → added_score vs
      ≡ 50 * number_of is_violation vs + 30 * number_of is_geo vs + 15 * number_of is_warning vs
unfolding added_score
added_score-counts [] = omega arith
added_score-counts (v ∷ vs) = omega (arith, points-kinds v.type, added_score-counts vs)

-- The bands of the level: both copies of the function agree, and each level holds exactly its
-- interval of scores.
pub risk_level_bands :
    (n : ℕ)
    → (calculate_risk_level n ≡ score_to_risk_level n)
      × ((calculate_risk_level n ≡ critical) ↔ (70 ≤ n))
      × ((calculate_risk_level n ≡ high) ↔ ((50 ≤ n) × (n < 70)))
      × ((calculate_risk_level n ≡ medium) ↔ ((30 ≤ n) × (n < 50)))
      × ((calculate_risk_level n ≡ low) ↔ (n < 30))
risk_level_bands n = ground arith

-- The profile that a call starts from: the stored one, or a new one for a known supplier.
abbrev pub StartsFrom : Db → ℕ → RiskProfile → Type 0
StartsFrom db s p =
    (get_profile s db.profiles ≡ some p)
    ⊎ ((get_profile s db.profiles ≡ none) × (knows s db ≡ true) × (p ≡ new_profile s))

abbrev score_after : RiskProfile → List Violation → ℕ
score_after p vs = clamp_100 (add_ℕ (or_zero p.overall_risk_score) (added_score vs))

of_supplier_refl : (s : ℕ) (p : RiskProfile) → p.supplier_id ≡ s → of_supplier s p ≡ true
of_supplier_refl s p e = ground (arith, nat_beq_iff p.supplier_id s)

of_supplier-other :
    (s q : ℕ)
    → q ≢ s
    → (p p' : RiskProfile) → p'.supplier_id ≡ p.supplier_id
    → of_supplier s p ≡ true
    → (of_supplier q p ≡ false) × (of_supplier q p' ≡ false)
of_supplier-other s q n p p' e h =
    ground (
      arith,
      nat_beq_iff p.supplier_id s,
      nat_beq_iff p.supplier_id q,
      nat_beq_iff p'.supplier_id q,
    )

-- What `get_or_create` hands on: the row that the profile is, with the other rows as they were.
get_or_create-StartsFrom :
    (s : ℕ) (db : Db) (p : RiskProfile)
    → StartsFrom db s p
    → (db' : Db) × (get_or_create s db (get_profile s db.profiles) ≡ ok (p, db'))
      × (p.supplier_id ≡ s)
      × (get_profile s db'.profiles ≡ some p)
      × ((q : ℕ) → q ≢ s → get_profile q db'.profiles ≡ get_profile q db.profiles)
      × (db'.history ≡ db.history)
      × (db'.events ≡ db.events)
get_or_create-StartsFrom s db p (inl h) =
    let e = (nat_beq_iff p.supplier_id s).0 (find?-holds (of_supplier s) db.profiles h) in
    (db, rw h refl, e, h, λ q n. refl, refl, refl)
get_or_create-StartsFrom s db p (inr (h, k, e)) = (
  record db { profiles = db.profiles ++ new_profile s ∷ [] },
  rw (h, k, e) refl,
  rw e refl,
  rw e (
      find?-append_new (of_supplier s) (new_profile s) db.profiles h
        (of_supplier_refl s (new_profile s) refl)),
  λ q n. find?-append_other (of_supplier q) (new_profile s) db.profiles (
      (of_supplier-other s q n (new_profile s) (new_profile s) refl
        (of_supplier_refl s (new_profile s) refl)).0),
  refl,
  refl,
)

abbrev pub stored : RiskProfile → List Violation → RiskProfile
stored p vs =
    (update_risk_profile_state p (add_ℕ (or_zero p.overall_risk_score) (added_score vs))
      (or_empty p.high_risk_reasons ++ reasons_of vs)).0

-- The row that `apply_score` writes, and the rows that it leaves.
apply_score-profiles :
    (batch : ℕ) (vs : List Violation) (p : RiskProfile) (db : Db)
    → get_profile p.supplier_id db.profiles ≡ some p
    → (get_profile p.supplier_id (apply_score batch vs p db).1.profiles ≡ some (stored p vs))
      × ((q : ℕ)
          → q ≢ p.supplier_id
          → get_profile q (apply_score batch vs p db).1.profiles ≡ get_profile q db.profiles)
apply_score-profiles batch vs p db found = (
  find?-update_self (of_supplier p.supplier_id) (λ _. stored p vs) db.profiles found
      (of_supplier_refl p.supplier_id (stored p vs) refl),
  λ q m.
      find?-update_other (of_supplier q) (of_supplier p.supplier_id) (λ _. stored p vs) db.profiles
        (λ x h.
          of_supplier-other p.supplier_id q m x (stored p vs)
            (sym ((nat_beq_iff x.supplier_id p.supplier_id).0 h)) h),
)

-- A call answers 404 when the supplier is unknown and has no profile, and else stores, for that
-- supplier alone, the clamped sum of the old score and the points with its level and flag; it
-- escalates exactly from 70 on, and an escalation is exactly what publishes an event.
pub calculate_risk_score_lem :
    (db : Db) (batch s : ℕ) (vs : List Violation)
    → (get_profile s db.profiles ≡ none
        → knows s db ≡ false
        → calculate_risk_score db batch s vs ≡ err (http 404))
      × ((p : RiskProfile)
          → StartsFrom db s p
          → (r : RiskResult) × (db' : Db) × (p' : RiskProfile) × (calculate_risk_score db batch s vs
              ≡ ok (r, db'))
            × (r.overall_risk_score ≡ score_after p vs)
            × (r.risk_level ≡ calculate_risk_level r.overall_risk_score)
            × ((r.is_escalated ≡ true) ↔ (70 ≤ r.overall_risk_score))
            × (get_profile s db'.profiles ≡ some p')
            × (p'.overall_risk_score ≡ some (pos r.overall_risk_score))
            × (p'.risk_level ≡ r.risk_level)
            × ((p'.is_high_risk_flag ≡ true) ↔ (50 ≤ r.overall_risk_score))
            × ((q : ℕ) → q ≢ s → get_profile q db'.profiles ≡ get_profile q db.profiles)
            × (db'.events ≡ (
                if r.is_escalated
                then db.events ++ risk_escalated batch r.overall_risk_score ∷ []
                else db.events)))
unfolding calculate_risk_score
calculate_risk_score_lem db batch s vs = (
  λ h k. rw (h, k) refl,
  λ p start.
      let (db1, made, own, found, others, _, events) = get_or_create-StartsFrom s db p start in
      let out = apply_score batch vs p db1 in
      let (written, kept) =
        apply_score-profiles batch vs p db1
          (subst (λ k. get_profile k db1.profiles ≡ some p) (sym own) found) in
      (
        out.0,
        out.1,
        stored p vs,
        rw made refl,
        refl,
        refl,
        ground arith,
        subst (λ k. get_profile k out.1.profiles ≡ some (stored p vs)) own written,
        refl,
        refl,
        ground arith,
        λ q m. kept q (λ e. m (e ∙ own)) ∙ others q m,
        rw events refl,
      ),
)

changed_iff :
    (a b : ℤ) (k l : RiskLevel)
    → (a ≡ b → k ≡ l → (not (int_beq a b) || not (level_beq k l)) ≡ false)
      × ((a ≢ b) ⊎ (k ≢ l) → (not (int_beq a b) || not (level_beq k l)) ≡ true)
changed_iff a b k l = (
  λ e f. ground (arith, int_beq_iff a b, level_beq_iff k l),
  λ n. ground (arith, int_beq_iff a b, level_beq_iff k l),
)

-- The audit history: when neither the score nor the level changes no row is added, and when either
-- does exactly one is, for that supplier, with the score and level before and after.
pub calculate_risk_score-history :
    (db : Db) (batch s : ℕ) (vs : List Violation) (p : RiskProfile)
    → StartsFrom db s p
    → (r : RiskResult) × (db' : Db) × (calculate_risk_score db batch s vs ≡ ok (r, db'))
      × ((or_zero p.overall_risk_score ≡ pos r.overall_risk_score)
          → (p.risk_level ≡ r.risk_level)
          → db'.history ≡ db.history)
      × (((or_zero p.overall_risk_score ≢ pos r.overall_risk_score) ⊎ (p.risk_level ≢ r.risk_level))
          → (row : ScoreHistory) × (db'.history ≡ db.history ++ row ∷ [])
            × (row.supplier_id ≡ s)
            × (row.from_score ≡ some (or_zero p.overall_risk_score))
            × (row.to_score ≡ r.overall_risk_score)
            × (row.from_level ≡ some p.risk_level)
            × (row.to_level ≡ r.risk_level))
unfolding calculate_risk_score
calculate_risk_score-history db batch s vs p start =
    let (db1, made, own, _, _, history, _) = get_or_create-StartsFrom s db p start in
    let out = apply_score batch vs p db1 in
    let change =
      changed_iff (or_zero p.overall_risk_score) (pos out.0.overall_risk_score) p.risk_level
        out.0.risk_level in
    (
      out.0,
      out.1,
      rw made refl,
      λ a b. rw (change.0 a b) history,
      λ c. (
        history_row p vs (score_after p vs),
        rw (change.1 c) (ap (λ h. h ++ history_row p vs (score_after p vs) ∷ []) history),
        own,
        refl,
        refl,
        refl,
        refl,
      ),
    )
