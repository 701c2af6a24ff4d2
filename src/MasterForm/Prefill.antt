-- ===== src/MasterForm/Prefill.antt =====
-- get_master_form_prefill of backend/domains/supplier/service.py with the catalog and the assembly
-- of backend/domains/supplier/masterform_prefill.py, over the rows that the two selects give. The
-- labels of the catalog are left out. `Number` is the type of floats; the strip of a text, the text
-- of a value and the regular expression with `float` are parameters.
use kira_backend.Prelude.{
  ℕ, suc, ◌+◌, String, Bool, true, false, Option, none, some, List, [], ◌∷◌, ◌++◌, map, ◌==◌,
  nat_eq, string_eq, option_eq, ltb, if◌then◌else◌,
}

pub data Value (Number : Type 0) : Type 0 where
  null : Value Number
  number : Number → Value Number
  other : String → Value Number

pub data Coerced (Number : Type 0) : Type 0 where
  text : String → Coerced Number
  float : Number → Coerced Number
  int : Number → Coerced Number

pub data FieldType : Type 0 where
  str_type int_type float_type : FieldType

pub data CatalogSection : Type 0 where
  company manufacturing saq materials : CatalogSection

is_materials : CatalogSection → Bool
is_materials materials = true
is_materials _ = false

abbrev pub company_fields : List (String × FieldType)
company_fields =
    ("company_name", str_type)
    ∷ ("company_name_en", str_type)
    ∷ ("business_reg_no", str_type)
    ∷ ("corporate_reg_no", str_type)
    ∷ ("duns_number", str_type)
    ∷ ("tax_number", str_type)
    ∷ ("website", str_type)
    ∷ ("established_year", int_type)
    ∷ ("employee_count", int_type)
    ∷ ("provider_type", str_type)
    ∷ ("origin_country", str_type)
    ∷ []

abbrev pub manufacturing_fields : List (String × FieldType)
manufacturing_fields =
    ("manufacturing_process", str_type)
    ∷ ("energy_source", str_type)
    ∷ ("capacity", str_type)
    ∷ ("carbon_intensity", float_type)
    ∷ ("verification_status", str_type)
    ∷ []

abbrev pub saq_fields : List (String × FieldType)
saq_fields =
    ("saq_standard", str_type)
    ∷ ("saq_score", str_type)
    ∷ ("saq_assessed_at", str_type)
    ∷ ("saq_valid_until", str_type)
    ∷ ("saq_risk_level", str_type)
    ∷ ("grievance_mechanism", str_type)
    ∷ ("forced_labor_risk", str_type)
    ∷ ("child_labor_risk", str_type)
    ∷ ("iso_45001_certified", str_type)
    ∷ ("iso_14001_certified", str_type)
    ∷ ("compliance_grade", str_type)
    ∷ []

abbrev pub materials_fields : List (String × FieldType)
materials_fields =
    ("li_content", float_type)
    ∷ ("co_content", float_type)
    ∷ ("ni_content", float_type)
    ∷ ("mn_content", float_type)
    ∷ ("natural_graphite_content", float_type)
    ∷ ("synthetic_graphite_content", float_type)
    ∷ []

abbrev pub in_section : CatalogSection → String × FieldType → String × (CatalogSection × FieldType)
in_section s (f, t) = (f, (s, t))

abbrev pub field_catalog : List (String × (CatalogSection × FieldType))
field_catalog =
    map (in_section company) company_fields
    ++ (map (in_section manufacturing) manufacturing_fields
        ++ (map (in_section saq) saq_fields ++ map (in_section materials) materials_fields))

-- A dictionary with texts as its keys
abbrev pub get {ℓ} : {A : Type ℓ} → String → List (String × A) → Option A
get k [] = none
get k ((k', x) ∷ d) = if k' == k then some x else get k d

-- `section_of(key) == MATERIALS_SECTION`
unfoldable pub is_material : String → Bool
unfolding is_materials
is_material k = elim (get k field_catalog) [ none ↦ false | some (s, t) ↦ is_materials s ]

-- What `float` makes of a confidence: a number of ten-thousandths, or the negative of one, the two
-- infinities and the value that is no number, which exceeds nothing and which nothing exceeds.
pub data Confidence : Type 0 where
  nan minus_infinity infinity : Confidence
  number_of minus : ℕ → Confidence

-- `a > b`
abbrev pub exceeds : Confidence → Confidence → Bool
exceeds nan b = false
exceeds minus_infinity b = false
exceeds infinity nan = false
exceeds infinity infinity = false
exceeds infinity b = true
exceeds (number_of x) (number_of y) = ltb y x
exceeds (number_of x) (minus y) = ltb 0 (x + y)
exceeds (number_of x) minus_infinity = true
exceeds (number_of x) b = false
exceeds (minus x) (minus y) = ltb x y
exceeds (minus x) minus_infinity = true
exceeds (minus x) b = false

-- A confidence that `float` refuses is none.
abbrev pub conf_of : List (String × Option Confidence) → String → Confidence
conf_of cmap k = elim (get k cmap) [
  | none ↦ number_of 0
  | some c ↦ elim c [ none ↦ number_of 0 | some x ↦ x ]
]

-- The rows of an extraction result, with the factory of its document
pub record Extraction (V : Type 0) : Type 0 where
  pub parsed_fields : List (String × V)
  pub confidence_map : List (String × Option Confidence)
  pub supplier_confirmed : Bool
  pub factory_id : Option ℕ

module _ {V : Type 0} where
  -- Fields and their confidences, which have the same keys
  unfoldable pub merge_best :
      String → V → Confidence → List (String × (V × Confidence)) → List (String × (V × Confidence))
  merge_best k v c [] = (k, (v, c)) ∷ []
  merge_best k v c ((k', (v', c')) ∷ b) =
      let rest = merge_best k v c b in
      if k' == k
      then if exceeds c c' then (k', (v, c)) ∷ b else (k', (v', c')) ∷ b
      else (k', (v', c')) ∷ rest

  -- `by_factory.setdefault(factory_id, ({}, {}))`, and the merge
  unfoldable pub merge_factory :
      ℕ
      → String
      → V
      → Confidence
      → List (ℕ × List (String × (V × Confidence)))
      → List (ℕ × List (String × (V × Confidence)))
  unfolding merge_best
  merge_factory i k v c [] = (i, merge_best k v c []) ∷ []
  merge_factory i k v c ((j, b) ∷ bs) =
      let rest = merge_factory i k v c bs in
      if j == i then (j, merge_best k v c b) ∷ bs else (j, b) ∷ rest

pub record Merged (V : Type 0) : Type 0 where
  pub fields : List (String × (V × Confidence))
  pub by_factory : List (ℕ × List (String × (V × Confidence)))
  pub unattributed : List (String × (V × Confidence))
  pub unconfirmed : ℕ

module _ {V : Type 0} where
  unfoldable pub merge_field : Extraction V → String × V → Merged V → Merged V
  unfolding merge_best merge_factory is_material
  merge_field x (k, v) m =
      let c = conf_of x.confidence_map k in
      let m' : Merged V = record m { fields = merge_best k v c m.fields } in
      if is_material k
      then elim x.factory_id [
        | none ↦ record m' { unattributed = merge_best k v c m.unattributed }
        | some i ↦ record m' { by_factory = merge_factory i k v c m.by_factory }
      ]
      else m'

  unfoldable pub merge_fields : Extraction V → List (String × V) → Merged V → Merged V
  unfolding merge_field
  merge_fields x [] m = m
  merge_fields x (f ∷ fs) m = merge_fields x fs (merge_field x f m)

  unfoldable pub merge_results : List (Extraction V) → Merged V → Merged V
  unfolding merge_fields
  merge_results [] m = m
  merge_results (x ∷ xs) m =
      let m' = merge_fields x x.parsed_fields m in
      merge_results xs
        (if x.supplier_confirmed then m' else record m' { unconfirmed = suc m'.unconfirmed })

  -- The values without a factory go to the only factory, if there is one and no other.
  unfoldable pub merge_only :
      ℕ
      → List (String × (V × Confidence))
      → List (ℕ × List (String × (V × Confidence)))
      → List (ℕ × List (String × (V × Confidence)))
  unfolding merge_factory
  merge_only i [] bs = bs
  merge_only i ((k, (v, c)) ∷ b) bs = merge_only i b (merge_factory i k v c bs)

  abbrev pub attributed : List ℕ → Merged V → Merged V
  attributed (i ∷ []) m = record m { by_factory = merge_only i m.unattributed m.by_factory }
  attributed _ m = m
