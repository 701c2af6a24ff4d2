-- ===== src/Pipeline/Gateway.antt =====
-- The first node: data_gateway_node and the missing fields of validate_schema of
-- backend/agents/data_gateway.py.
use kira_backend.Prelude.{
  ℕ, ◌+◌, min, String, Bool, true, not, ◌||◌, Option, none, some, List, [], ◌∷◌, ◌==◌, nat_eq,
  string_eq, option_eq, ltb, nat_beq, if◌then◌else◌, length, any, all, count_if,
}
use kira_backend.Pipeline.{
  stage_extraction, low_confidence, no_product, no_results, extracted, BatchState,
}

-- A row of the select of the extraction results: the row, the provider type and the supplier.
pub record Extraction : Type 0 where
  pub supplier_id : ℕ
  pub provider_type : Option String
  pub parsed_fields : List (String × String)
  pub confidence_map : List (String × ℕ)
  pub supplier_confirmed : Bool

-- What the node reads from the tables, and the promotion, which answers with the number of promoted
-- suppliers, or with `none` where it raises.
pub record Gateway : Type 0 where
  pub get_n_tier_supply_chain : ℕ → List (Option ℕ)
  pub list_extraction_results : List ℕ → List Extraction
  pub required_fields : String → List String
  pub promote_extraction : Extraction → Option Bool

abbrev pub insert : ℕ → List ℕ → List ℕ
insert n [] = n ∷ []
insert n (m ∷ ms) =
    let rest = insert n ms in
    if ltb n m then n ∷ m ∷ ms else (if nat_beq n m then m ∷ ms else m ∷ rest)

-- `sorted({s for s in rows if s})`
pub supplier_ids_of : List (Option ℕ) → List ℕ
supplier_ids_of [] = []
supplier_ids_of (none ∷ rows) = supplier_ids_of rows
supplier_ids_of (some s ∷ rows) = insert s (supplier_ids_of rows)

-- `min(lowest, min(cmap.values()))`
abbrev pub lowest_of : ℕ → List (String × ℕ) → ℕ
lowest_of lowest [] = lowest
lowest_of lowest ((_, c) ∷ cs) = lowest_of (min lowest c) cs

-- `validate_schema(...).ok`
abbrev pub is_complete : Gateway → Extraction → Bool
is_complete g r = elim r.provider_type [
  | none ↦ true
  | some t ↦ t == "" || all (λ field. any (λ p. p.0 == field) r.parsed_fields) (g.required_fields t)
]

unfoldable pub lowest_confidence_of : List Extraction → ℕ → ℕ
lowest_confidence_of [] lowest = lowest
lowest_confidence_of (r ∷ rs) lowest = lowest_confidence_of rs (lowest_of lowest r.confidence_map)

abbrev pub is_unconfirmed : Extraction → Bool
is_unconfirmed r = not r.supplier_confirmed

-- The loop of the promotions: an exception leaves it, with the count so far.
pub promote_all : Gateway → List Extraction → ℕ
promote_all g [] = 0
promote_all g (r ∷ rs) =
    let rest = promote_all g rs in
    if is_unconfirmed r
    then rest
    else elim (g.promote_extraction r) [ none ↦ 0 | some done ↦ (if done then 1 else 0) + rest ]

abbrev pub gateway_result : Gateway → List ℕ → List Extraction → BatchState → BatchState
gateway_result g suppliers rs s =
    let lowest = lowest_confidence_of rs 10000 in
    let unconfirmed = count_if is_unconfirmed rs in
    let has_missing = any (λ r. not (is_complete g r)) rs in
    let low_conf = ltb lowest 8500 || (ltb 0 unconfirmed || has_missing) in
    record s {
      current_stage = stage_extraction;
      confidence_score = some lowest;
      error_reason = if low_conf then some low_confidence else none;
      extraction_result = some (
          extracted (length rs) suppliers lowest unconfirmed has_missing
            (if low_conf then 0 else promote_all g rs));
    }

unfoldable pub data_gateway_node : Gateway → BatchState → BatchState
unfolding supplier_ids_of lowest_confidence_of promote_all
data_gateway_node g s = elim s.product_id [
  | none ↦ record s {
    current_stage = stage_extraction;
    error_reason = some low_confidence;
    confidence_score = some 0;
    extraction_result = some no_product;
  }
  | some product ↦
      let suppliers = supplier_ids_of (g.get_n_tier_supply_chain product) in
      elim (g.list_extraction_results suppliers) [
        | [] ↦ record s {
          current_stage = stage_extraction;
          error_reason = some low_confidence;
          confidence_score = some 0;
          extraction_result = some (no_results suppliers);
        }
        | r ∷ rs ↦ gateway_result g suppliers (r ∷ rs) s
      ]
]
