-- ===== src/Completeness/Gate.antt =====
-- The figures of `_compute_completeness` and the gate `has_blocking_gaps` of
-- backend/domains/supplier/service.py, alone and before update_submission_status.
use kira_backend.Prelude.{
  ℕ, ◌+◌, ◌-◌, ◌≤◌, String, ◌≡◌, refl, sym, ap, ◌∙◌, subst, ◌↔◌, ◌⊎◌, inl, inr, Bool, false, Option,
  none, some, List, [], ◌∷◌, ◌++◌, arith, ◌==◌, nat_eq, string_eq, option_eq, contains, ok,
  >>=-eq-ok, nat_beq, if◌then◌else◌, Bool-cases, length, any, filter, length-append, filter-append,
}
use kira_backend.Completeness.{
  Field, Snapshot, type_or_empty, classify_fields, lacks, rate_of, compute_completeness,
  has_blocking_gaps, common_blocking, factories, materials_handled_any, materials_any,
  carbon_intensity, energy_source, environmental_report_url,
}
use kira_backend.Submission.{submitted, DataRequestLog, Db, get_data_request}
use kira_backend.Submission.Service.{submission_guards, target_has_gaps, update_submission_status}

length-filter {ℓ} : {A : Type ℓ} (p : A → Bool) (xs : List A) → length (filter p xs) ≤ length xs
length-filter p [] = omega arith
length-filter p (x ∷ xs) = ground (arith, length-filter p xs)

filter-empty {ℓ} :
    {A : Type ℓ} (p : A → Bool) (xs : List A) → (filter p xs ≡ []) ↔ (any p xs ≡ false)
filter-empty p [] = ground arith
filter-empty p (x ∷ xs) = ground (arith, filter-empty p xs)

length-zero {ℓ} : {A : Type ℓ} (xs : List A) → length xs ≡ 0 → xs ≡ []
length-zero [] h = refl
length-zero (x ∷ xs) h = absurd (omega (arith, h))

-- The lists of `classify_fields` over the outcomes of its tests
abbrev blocking_of : Bool → Bool → List Field
blocking_of trader smelter =
    common_blocking
    ++ (if trader then [] else factories ∷ [])
    ++ (if smelter then materials_handled_any ∷ [] else [])

abbrev recommended_of : Bool → Bool → Bool → List Field
recommended_of trader either manufacturer =
    (if trader then factories ∷ [] else [])
    ++ (if either then materials_any ∷ [] else [])
    ++ (if manufacturer
        then carbon_intensity ∷ energy_source ∷ environmental_report_url ∷ []
        else [])

sizes :
    (trader smelter either manufacturer : Bool)
    → (4 ≤ length (blocking_of trader smelter))
      × (length (blocking_of trader smelter ++ recommended_of trader either manufacturer) ≤ 11)
sizes trader smelter either manufacturer = (ground arith, ground arith)

-- Four fields at least block, and eleven at most are tracked.
tracked_bounds :
    (provider : Option String)
    → (4 ≤ length (classify_fields provider).0)
      × (length ((classify_fields provider).0 ++ (classify_fields provider).1) ≤ 11)
unfolding classify_fields
tracked_bounds provider =
    let pt = type_or_empty provider in
    elim (Bool-cases (pt == "miner")) [
      | inl miner ↦ rw miner (omega arith, omega arith)
      | inr other_type ↦ rw other_type (
          sizes (pt == "trader") (pt == "smelter") (contains ("manufacturer" ∷ "recycler" ∷ []) pt)
            (pt == "manufacturer"))
    ]

-- The gate closes exactly when the figures have a blocking field missing.
pub has_blocking_gaps_iff :
    (is_space : String → Bool) (s : Snapshot) (metals : List String)
    → (has_blocking_gaps is_space (some s) metals ≡ false)
      ↔ ((compute_completeness is_space s metals).blocking_missing ≡ [])
unfolding has_blocking_gaps compute_completeness
has_blocking_gaps_iff is_space s metals =
    let (a, b) = filter-empty (lacks is_space metals s) (classify_fields s.provider_type).0 in
    (b, a)

four_to_eleven :
    (t : ℕ)
    → 4 ≤ t
    → t ≤ 11
    → (t ≡ 4) ⊎ (t ≡ 5) ⊎ (t ≡ 6) ⊎ (t ≡ 7) ⊎ (t ≡ 8) ⊎ (t ≡ 9) ⊎ (t ≡ 10) ⊎ (t ≡ 11)
four_to_eleven t a b = omega (arith, a, b)

abbrev RateIsRight : ℕ → ℕ → Type 0
RateIsRight f t = f ≤ t → (rate_of f t ≤ 10000) × ((rate_of f t ≡ 10000) ↔ (f ≡ t))

rate_bounds : (f t : ℕ) → 4 ≤ t → t ≤ 11 → RateIsRight f t
rate_bounds f t b c = elim (four_to_eleven t b c) [
  | inl e ↦ subst (RateIsRight f) (sym e) (λ h. ground (arith, h))
  | inr (inl e) ↦ subst (RateIsRight f) (sym e) (λ h. ground (arith, h))
  | inr (inr (inl e)) ↦ subst (RateIsRight f) (sym e) (λ h. ground (arith, h))
  | inr (inr (inr (inl e))) ↦ subst (RateIsRight f) (sym e) (λ h. ground (arith, h))
  | inr (inr (inr (inr (inl e)))) ↦ subst (RateIsRight f) (sym e) (λ h. ground (arith, h))
  | inr (inr (inr (inr (inr (inl e))))) ↦ subst (RateIsRight f) (sym e) (λ h. ground (arith, h))
  | inr (inr (inr (inr (inr (inr (inl e)))))) ↦
      subst (RateIsRight f) (sym e) (λ h. ground (arith, h))
  | inr (inr (inr (inr (inr (inr (inr e)))))) ↦
      subst (RateIsRight f) (sym e) (λ h. ground (arith, h))
]

-- The figures of a supplier add up: what is filled and what is missing are the required fields, of
-- which there are at least four, for a miner too; the rate is at most 100 percent, and it is 100
-- percent exactly when nothing is missing.
pub compute_completeness_lem :
    (is_space : String → Bool) (s : Snapshot) (metals : List String)
    → let c = compute_completeness is_space s metals in
      (c.filled + length c.missing ≡ c.required)
      × (4 ≤ c.required)
      × (c.rate ≤ 10000)
      × ((c.rate ≡ 10000) ↔ (length c.missing ≡ 0))
unfolding compute_completeness
compute_completeness_lem is_space s metals =
    let blocking = (classify_fields s.provider_type).0 in
    let recommended = (classify_fields s.provider_type).1 in
    let tracked = blocking ++ recommended in
    let lacking = filter (lacks is_space metals s) tracked in
    let fewer = length-filter (lacks is_space metals s) tracked in
    let (four, eleven) = tracked_bounds s.provider_type in
    let sum = length-append blocking recommended in
    let some_tracked : 4 ≤ length tracked = omega (arith, four, sum) in
    let present : ℕ = length tracked - length lacking in
    let within : present ≤ length tracked = omega (arith, fewer) in
    let (below, rated) = rate_bounds present (length tracked) some_tracked eleven within in
    let positive : nat_beq (length tracked) 0 ≡ false = ground (arith, some_tracked) in
    (
      omega (arith, fewer),
      some_tracked,
      rw positive below,
      rw positive (λ h. omega (arith, rated.0 h, fewer), λ h. rated.1 (omega (arith, h, fewer))),
    )

-- A supplier whose figures are complete passes the gate.
pub complete_has_no_gaps :
    (is_space : String → Bool) (s : Snapshot) (metals : List String)
    → (compute_completeness is_space s metals).rate ≡ 10000
    → has_blocking_gaps is_space (some s) metals ≡ false
unfolding has_blocking_gaps compute_completeness
complete_has_no_gaps is_space s metals h =
    let nothing = (compute_completeness_lem is_space s metals).3.0 h in
    let blocking = (classify_fields s.provider_type).0 in
    let recommended = (classify_fields s.provider_type).1 in
    let parts = filter-append (lacks is_space metals s) blocking recommended in
    (filter-empty (lacks is_space metals s) blocking).0 (
      length-zero (filter (lacks is_space metals s) blocking) (
        omega (
          arith,
          nothing,
          ap length parts
              ∙ length-append (filter (lacks is_space metals s) blocking)
                  (filter (lacks is_space metals s) recommended),
        )))

-- A submission that goes through at a supplier whose form is read by the gate has left no blocking
-- field missing.
pub submitted_without_gaps :
    (is_space : String → Bool) (snapshot_of : ℕ → Option Snapshot) (metals_of : ℕ → List String)
    (db db' : Db) (request actor supplier : ℕ) (reason : Option String) (batch : Option ℕ)
    (files : List String) (fields : List (String × String)) (r r' : DataRequestLog) (s : Snapshot)
    → get_data_request request db ≡ some r
    → r.target_supplier_id ≡ some supplier
    → snapshot_of supplier ≡ some s
    → update_submission_status
        (λ i. has_blocking_gaps is_space (snapshot_of i) (metals_of i))
        db
        request
        submitted
        actor
        reason
        batch
        files
        fields
      ≡ ok (r', db')
    → (compute_completeness is_space s (metals_of supplier)).blocking_missing ≡ []
unfolding update_submission_status submission_guards
submitted_without_gaps is_space snapshot_of metals_of db db' request actor supplier reason batch
      files fields r r' s found target snapshot h =
    let gaps : ℕ → Bool = λ i. has_blocking_gaps is_space (snapshot_of i) (metals_of i) in
    let (u, passed, _) =
      >>=-eq-ok (submission_guards gaps db request submitted batch files fields) _ h in
    let shut : target_has_gaps gaps (some r) ≡ false =
      subst (λ o. target_has_gaps gaps o ≡ false) found (ground arith) in
    let closed : has_blocking_gaps is_space (snapshot_of supplier) (metals_of supplier) ≡ false =
      subst (λ (o : Option ℕ). elim o [ none ↦ false | some i ↦ gaps i ] ≡ false) target shut in
    (has_blocking_gaps_iff is_space s (metals_of supplier)).0
      (subst (λ o. has_blocking_gaps is_space o (metals_of supplier) ≡ false) snapshot closed)
