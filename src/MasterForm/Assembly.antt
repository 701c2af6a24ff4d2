-- ===== src/MasterForm/Assembly.antt =====
-- to_master_form_prefill of backend/domains/supplier/masterform_prefill.py, and the answer of
-- get_master_form_prefill of backend/domains/supplier/service.py. The strip of a text, the text of a
-- number, the search for a number in a text and `int` are parameters; `int` may refuse a number.
use kira_backend.Prelude.{
  ℕ, String, Bool, true, false, Option, none, some, List, [], ◌∷◌, ◌==◌, nat_eq, string_eq,
  option_eq, if◌then◌else◌, length,
}
use kira_backend.MasterForm.Prefill.{
  Confidence, number_of, exceeds, Value, null, number, other, Coerced, FieldType, str_type,
  int_type, CatalogSection, field_catalog, get, materials, manufacturing, company, saq, Extraction,
  Merged, merge_results, attributed,
}

-- An entry of `low_confidence_fields`
pub record LowConfidence (Number : Type 0) : Type 0 where
  pub in_section : CatalogSection
  pub field : String
  pub value : Coerced Number
  pub confidence : Confidence

pub record Assembled (Number : Type 0) : Type 0 where
  pub prefill : List (CatalogSection × (String × Coerced Number))
  pub low_confidence_fields : List (LowConfidence Number)

-- An entry of `factory_prefill`
pub record FactoryPrefill (Number : Type 0) : Type 0 where
  pub factory_id : ℕ
  pub materials_of : List (String × Coerced Number)
  pub low_confidence_fields : List (LowConfidence Number)

pub record MasterFormPrefill (Number : Type 0) : Type 0 where
  pub document_count : ℕ
  pub unconfirmed_documents : ℕ
  pub assembled : Assembled Number
  pub factory_prefill : List (FactoryPrefill Number)

module _ {Number : Type 0} (strip : String → String) (show : Number → String)
    (search : String → Option Number) (to_int : Number → Option Number) where
  stripped : String → Option (Coerced Number)
  stripped s = if strip s == "" then none else some (Coerced.text (strip s))

  converted : FieldType → Number → Option (Coerced Number)
  converted int_type n = elim (to_int n) [ none ↦ none | some i ↦ some (Coerced.int i) ]
  converted _ n = some (Coerced.float n)

  unfoldable pub coerce : Value Number → FieldType → Option (Coerced Number)
  unfolding stripped converted
  coerce null t = none
  coerce (number n) str_type = stripped (show n)
  coerce (other s) str_type = stripped s
  coerce (number n) t = converted t n
  coerce (other s) t = elim (search s) [ none ↦ none | some n ↦ converted t n ]

  -- `prefill` keeps the pairs in the order of the catalog, which lists each section at once. A
  -- confidence of 0.85 is 8500.
  unfoldable pub assemble :
      List (String × (CatalogSection × FieldType))
      → List (String × (Value Number × Confidence))
      → Assembled Number
  unfolding coerce
  assemble [] fields = record { prefill = []; low_confidence_fields = [] }
  assemble ((f, (s, t)) ∷ catalog) fields =
      let rest = assemble catalog fields in
      elim (get f fields) [
        | none ↦ rest
        | some (v, c) ↦ elim (coerce v t) [
          | none ↦ rest
          | some x ↦
              let low : LowConfidence Number = record {
                in_section = s;
                field = f;
                value = x;
                confidence = c;
              } in
              record {
                prefill = (s, (f, x)) ∷ rest.prefill;
                low_confidence_fields =
                    if exceeds (number_of 8500) c
                    then low ∷ rest.low_confidence_fields
                    else rest.low_confidence_fields;
              }
        ]
      ]

  unfoldable pub to_master_form_prefill :
      List (String × (Value Number × Confidence)) → Assembled Number
  unfolding assemble
  to_master_form_prefill fields = assemble field_catalog fields

  abbrev pub materials_in :
      List (CatalogSection × (String × Coerced Number)) → List (String × Coerced Number)
  materials_in [] = []
  materials_in ((materials, x) ∷ xs) = x ∷ materials_in xs
  materials_in ((company, x) ∷ xs) = materials_in xs
  materials_in ((manufacturing, x) ∷ xs) = materials_in xs
  materials_in ((saq, x) ∷ xs) = materials_in xs

  unfoldable pub factory_prefills :
      List (ℕ × List (String × (Value Number × Confidence))) → List (FactoryPrefill Number)
  unfolding to_master_form_prefill
  factory_prefills [] = []
  factory_prefills ((i, fields) ∷ bs) =
      let one = to_master_form_prefill fields in
      let rest = factory_prefills bs in
      elim (materials_in one.prefill) [
        | [] ↦ rest
        | x ∷ xs ↦
            record {
              factory_id = i;
              materials_of = x ∷ xs;
              low_confidence_fields = one.low_confidence_fields;
            }
            ∷ rest
      ]

  -- After the check that the supplier exists, with its factories and its extraction results
  unfoldable pub get_master_form_prefill :
      Bool → List ℕ → List (Extraction (Value Number)) → Option (MasterFormPrefill Number)
  unfolding to_master_form_prefill factory_prefills
  get_master_form_prefill false factories results = none
  get_master_form_prefill true factories results =
      let start : Merged (Value Number) = record {
        fields = [];
        by_factory = [];
        unattributed = [];
        unconfirmed = 0;
      } in
      let m = merge_results results start in
      some (record {
        document_count = length results;
        unconfirmed_documents = m.unconfirmed;
        assembled = to_master_form_prefill m.fields;
        factory_prefill = factory_prefills (attributed factories m).by_factory;
      })
