-- ===== src/Completeness.antt =====
-- The completeness of a supplier's form: the classification of the fields, their tests, the figures
-- and the gate of a submission of backend/domains/supplier/service.py, and upsert_completeness of
-- backend/domains/supplier/repository.py. A field key is a constructor; a rate is a number of
-- hundredths of a percent. `str.strip() == ""` is the parameter `is_space`, and `token in text` and
-- `str.upper` are parameters of the metals.
pub mod Gate
mod Tests
use kira_backend.Prelude.{
  ℕ, zero, suc, ◌+◌, ◌-◌, ◌*◌, ◌/◌, ◌%◌, ◌≤◌, ◌<◌, min, max, String, ◌≡◌, refl, sym, ap, ◌∙◌, subst,
  ◌≢◌, ◌↔◌, ◌⊎◌, inl, inr, Bool, true, false, not, ◌&&◌, ◌||◌, Option, none, some, List, [], ◌∷◌,
  ◌++◌, map, arith, Eq, ◌==◌, nat_eq, string_eq, option_eq, option_beq_iff, contains, Error,
  value_error, type_error, integrity_error, database_error, batch_not_found, key_error, http,
  Result, ok, err, ◌>>=◌, ◌>>◌, raise_if, >>=-eq-ok, IfReturns, IfReturns-ok, ltb, leb, nat_beq,
  nat_beq_iff, if◌then◌else◌, Bool-cases, Option-cases, List-cases, Result-cases, is_some, length,
  All, any, all, filter, count_if, find?, update_where, length-append, count_if-append,
  filter-append, All-append, All-map, any-append, find?-holds, find?-any, length-update_where,
  find?-update_self, find?-update_other, find?-append_new, find?-append_other,
}

pub data Field : Type 0 where
  company_name company_country company_business_reg_no company_provider_type : Field
  factories mine_country mine_composition : Field
  materials_any materials_handled_any : Field
  self_reported_risk_level carbon_intensity energy_source environmental_report_url : Field

-- A value of a JSON object or of a column: text, or something else that is not null.
pub data Value : Type 0 where
  null other : Value
  text : String → Value

abbrev pub Minerals : Type 0
Minerals = List (String × Value)

-- The snapshot of `get_completeness_inputs`; a mine is its country and its minerals.
pub record Snapshot : Type 0 where
  pub provider_type : Option String
  pub company_name : Value
  pub country : Value
  pub business_reg_no : Value
  pub self_reported_risk_level : Value
  pub carbon_intensity : Value
  pub energy_source : Value
  pub environmental_report_url : Value
  pub factory_count : ℕ
  pub mining_factories : List (Value × Minerals)
  pub factories_minerals : List Minerals

abbrev pub common_blocking : List Field
common_blocking =
    company_name ∷ company_country ∷ company_business_reg_no ∷ company_provider_type
    ∷ self_reported_risk_level ∷ []

abbrev pub type_or_empty : Option String → String
type_or_empty none = ""
type_or_empty (some t) = t

-- `_classify_fields`: the blocking fields and the recommended ones.
unfoldable pub classify_fields : Option String → List Field × List Field
classify_fields provider =
    let pt = type_or_empty provider in
    if pt == "miner"
    then (company_name ∷ company_provider_type ∷ mine_country ∷ mine_composition ∷ [], [])
    else (
      common_blocking
          ++ (if pt == "trader" then [] else factories ∷ [])
          ++ (if pt == "smelter" then materials_handled_any ∷ [] else []),
      (if pt == "trader" then factories ∷ [] else [])
          ++ (if contains ("manufacturer" ∷ "recycler" ∷ []) pt then materials_any ∷ [] else [])
          ++ (if pt == "manufacturer"
              then carbon_intensity ∷ energy_source ∷ environmental_report_url ∷ []
              else []),
    )

-- `part_code_to_metal`; `has` is `token in part_code.upper()`.
pub part_code_to_metal : (String → String → Bool) → Option String → Option String
part_code_to_metal has none = none
part_code_to_metal has (some code) =
    if has "LI" code
    then some "Li"
    else (if has "CO" code
        then some "Co"
        else (if has "NI" code then some "Ni" else (if has "MN" code then some "Mn" else none)))

-- `_handled_metals`
pub handled_metals : (String → String → Bool) → List (Option String) → List String
unfolding part_code_to_metal
handled_metals has [] = []
handled_metals has (c ∷ cs) = elim (part_code_to_metal has c) [
  | none ↦ handled_metals has cs
  | some m ↦ m ∷ handled_metals has cs
]

-- `round(filled * 100.0 / required, 2)`; eleven fields at most are tracked, so no half occurs.
abbrev pub rate_of : ℕ → ℕ → ℕ
rate_of filled total = (20000 * filled + total) / (2 * total)

pub record Completeness : Type 0 where
  pub required : ℕ
  pub filled : ℕ
  pub rate : ℕ
  pub missing : List Field
  pub blocking_missing : List Field

module _ (is_space : String → Bool) where
  -- `_val_present`
  abbrev pub val_present : Value → Bool
  val_present null = false
  val_present other = true
  val_present (text t) = not (is_space t)

  -- `_mineral_present`
  abbrev pub mineral_present : Minerals → Bool
  mineral_present = any (λ m. val_present m.1 && not (m.0 == "hazardous_substances"))

  abbrev pub value_of : String → Minerals → Value
  value_of k [] = null
  value_of k ((j, v) ∷ ms) = let rest = value_of k ms in if j == k then v else rest

  abbrev pub tracked_metals : List String → List String
  tracked_metals metals = filter (contains metals) ("Li" ∷ "Co" ∷ "Ni" ∷ [])

  -- The minimal content of a smelter: one of the handled metals, or any mineral where none is
  -- known.
  abbrev pub handled_any : List String → List Minerals → Bool
  handled_any [] fs = any mineral_present fs
  handled_any (m ∷ ms) fs = any (λ f. any (λ k. val_present (value_of k f)) (m ∷ ms)) fs

  abbrev pub is_unknown : Value → Bool
  is_unknown (text t) = t == "unknown"
  is_unknown _ = false

  -- `_field_filled`
  unfoldable pub field_filled : List String → Snapshot → Field → Bool
  field_filled metals s factories = ltb 0 s.factory_count
  field_filled metals s mine_country = any (λ m. val_present m.0) s.mining_factories
  field_filled metals s mine_composition = any (λ m. mineral_present m.1) s.mining_factories
  field_filled metals s materials_any = any mineral_present s.factories_minerals
  field_filled metals s materials_handled_any =
      handled_any (tracked_metals metals) s.factories_minerals
  field_filled metals s self_reported_risk_level =
      val_present s.self_reported_risk_level && not (is_unknown s.self_reported_risk_level)
  field_filled metals s company_name = val_present s.company_name
  field_filled metals s company_country = val_present s.country
  field_filled metals s company_business_reg_no = val_present s.business_reg_no
  field_filled metals s company_provider_type = elim s.provider_type [
    | none ↦ false
    | some t ↦ not (is_space t)
  ]
  field_filled metals s carbon_intensity = val_present s.carbon_intensity
  field_filled metals s energy_source = val_present s.energy_source
  field_filled metals s environmental_report_url = val_present s.environmental_report_url

  abbrev pub lacks : List String → Snapshot → Field → Bool
  lacks metals s f = not (field_filled metals s f)

  -- `_compute_completeness`
  unfoldable pub compute_completeness : Snapshot → List String → Completeness
  unfolding classify_fields field_filled
  compute_completeness s metals =
      let (blocking, recommended) = classify_fields s.provider_type in
      let tracked = blocking ++ recommended in
      let lacking = filter (lacks metals s) tracked in
      let present = length tracked - length lacking in
      record {
        required = length tracked;
        filled = present;
        rate = if nat_beq (length tracked) 0 then 10000 else rate_of present (length tracked);
        missing = lacking;
        blocking_missing = filter (lacks metals s) blocking;
      }

  -- `has_blocking_gaps` over what `get_completeness_inputs` answers
  unfoldable pub has_blocking_gaps : Option Snapshot → List String → Bool
  unfolding classify_fields field_filled
  has_blocking_gaps none metals = false
  has_blocking_gaps (some s) metals = any (lacks metals s) (classify_fields s.provider_type).0

-- A supplier's row of `data_completeness_status`, and `upsert_completeness`
pub record CompletenessRow : Type 0 where
  pub entity_id : ℕ
  pub required_field_count : ℕ
  pub filled_field_count : ℕ
  pub completion_rate : ℕ
  pub missing_fields : List Field

abbrev pub of_entity : ℕ → CompletenessRow → Bool
of_entity i row = row.entity_id == i

abbrev pub row_of : ℕ → Completeness → CompletenessRow
row_of i c = record {
  entity_id = i;
  required_field_count = c.required;
  filled_field_count = c.filled;
  completion_rate = c.rate;
  missing_fields = c.missing;
}

unfoldable pub upsert_completeness : ℕ → Completeness → List CompletenessRow → List CompletenessRow
upsert_completeness i c rows =
    if any (of_entity i) rows
    then update_where (of_entity i) (λ _. row_of i c) rows
    else rows ++ row_of i c ∷ []

-- `recompute_completeness`
unfoldable pub recompute_completeness :
    (String → Bool)
    → Option Snapshot
    → List String
    → ℕ
    → List CompletenessRow
    → List CompletenessRow
unfolding compute_completeness upsert_completeness
recompute_completeness is_space none metals i rows = rows
recompute_completeness is_space (some s) metals i rows =
    upsert_completeness i (compute_completeness is_space s metals) rows
