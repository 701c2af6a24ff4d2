-- ===== src/MasterForm/Tests/Documents.antt =====
-- Two documents about one company: the second reads its name with more confidence, and has the
-- lithium of a site.
use kira_backend.Prelude.{
  ℕ, String, ◌≡◌, refl, true, false, Option, none, some, List, [], ◌∷◌, map, nat_eq, string_eq,
  option_eq, All,
}
use kira_backend.MasterForm.Prefill.{
  Confidence, number_of, Value, number, other, Extraction, get, conf_of, merge_results,
}
use kira_backend.MasterForm.Assembly.{get_master_form_prefill, LowConfidence, MasterFormPrefill}
use kira_backend.MasterForm.Best.{Covers, Offered, nothing_merged, merge_results_takes_best}

abbrev first_document : Extraction (Value ℕ)
first_document = record {
  parsed_fields = ("company_name", other "Kira Co") ∷ ("website", other "kira.example") ∷ [];
  confidence_map = ("company_name", some (number_of 8000)) ∷ ("website", none) ∷ [];
  supplier_confirmed = true;
  factory_id = none;
}

abbrev second_document : Extraction (Value ℕ)
second_document = record {
  parsed_fields = ("company_name", other "Kira Co.") ∷ ("li_content", number 7) ∷ [];
  confidence_map =
      ("company_name", some (number_of 9500)) ∷ ("li_content", some (number_of 7000)) ∷ [];
  supplier_confirmed = false;
  factory_id = some 10;
}

abbrev documents : List (Extraction (Value ℕ))
documents = first_document ∷ second_document ∷ []

abbrev low_fields : Option (MasterFormPrefill ℕ) → List String
low_fields none = []
low_fields (some p) = map (λ (l : LowConfidence ℕ). l.field) p.assembled.low_confidence_fields

abbrev prefilled : Option (MasterFormPrefill ℕ)
prefilled =
    get_master_form_prefill (λ s. s) (λ n. "7") (λ s. none) (λ n. some n) true (10 ∷ []) documents

asks_for_confirmation : low_fields prefilled ≡ "website" ∷ "li_content" ∷ []
unfolding get_master_form_prefill merge_results
asks_for_confirmation = refl

merge_results_takes_best_example :
    All
      (λ x.
        All
          (λ f.
            Covers
              (conf_of x.confidence_map f.0)
              (get f.0 (merge_results documents nothing_merged).fields))
          x.parsed_fields)
      documents
    × ((k : String) (v : Value ℕ) (c : Confidence)
        → get k (merge_results documents nothing_merged).fields ≡ some (v, c)
        → Offered k v c documents)
merge_results_takes_best_example = merge_results_takes_best documents
