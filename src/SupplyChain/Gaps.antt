-- ===== src/SupplyChain/Gaps.antt =====
-- The gaps of a supply chain: get_gaps, trigger_gap_data_requests and get_validation_summary of
-- backend/domains/supplychain/service.py. The rows of get_supplier_field_data, the regulations of
-- the product and the answer of the ratio check are arguments. The names of the columns in
-- FIELD_HAS_MAP are the fields of `FieldData`.
pub mod Requests
pub mod Summary
use Prim.Native.String.{◌++◌ as str_append}
use kira_backend.Prelude.{
  ℕ, zero, suc, ◌+◌, ◌-◌, ◌*◌, ◌/◌, ◌%◌, ◌≤◌, ◌<◌, min, max, String, ◌≡◌, refl, sym, ap, ◌∙◌, subst,
  ◌≢◌, ◌↔◌, ◌⊎◌, inl, inr, Bool, true, false, not, ◌&&◌, ◌||◌, Option, none, some, List, [], ◌∷◌,
  ◌++◌, map, arith, Eq, ◌==◌, nat_eq, string_eq, option_eq, option_beq_iff, contains, Error,
  value_error, type_error, integrity_error, database_error, batch_not_found, key_error, cycle_error,
  http, Result, ok, err, ◌>>=◌, ◌>>◌, raise_if, >>=-eq-ok, IfReturns, IfReturns-ok, ltb, leb,
  nat_beq, nat_beq_iff, if◌then◌else◌, Bool-cases, Option-cases, List-cases, Result-cases, is_some,
  length, All, any, all, filter, count_if, find?, update_where, length-append, count_if-append,
  filter-append, All-append, All-map, any-append, find?-holds, find?-any, length-update_where,
  find?-update_self, find?-update_other, find?-append_new, find?-append_other, Distinct,
  length-Distinct,
}

-- A row of get_supplier_field_data
pub record FieldData : Type 0 where
  pub supplier_id : ℕ
  pub company_name : Option String
  pub provider_type : Option String
  pub depth : Option ℕ
  pub is_root_anchor : Bool
  pub has_carbon_intensity : Bool
  pub has_factory_carbon_decl : Bool
  pub has_mine_coordinates : Bool
  pub has_origin_country : Bool
  pub has_consent_agreed : Bool

pub record Regulation : Type 0 where
  pub regulation_id : ℕ
  pub regulation_code : String
  pub name : String

-- `None` for the types is the empty list, and the label is missing in each row of the table.
pub record RequiredField : Type 0 where
  pub field_name : String
  pub is_mandatory : Bool
  pub provider_type_applicable : List String

pub record MissingField : Type 0 where
  pub field_name : String
  pub field_label : String
  pub regulation_code : String
  pub regulation_name : String

pub record Node : Type 0 where
  pub supplier_id : ℕ
  pub company_name : String
  pub provider_type : Option String
  pub depth : Option ℕ
  pub is_root_anchor : Bool
  pub missing_fields : List MissingField
  pub gap_count : ℕ

-- FIELD_HAS_MAP, and the column it leads to
unfoldable pub field_has_map : String → FieldData → Option Bool
field_has_map name row =
    if name == "carbon_intensity"
    then some row.has_carbon_intensity
    else if name == "factory_carbon_declarations"
    then some row.has_factory_carbon_decl
    else if name == "mine_coordinates"
    then some row.has_mine_coordinates
    else if name == "origin_country"
    then some row.has_origin_country
    else none

abbrev pub is_empty {ℓ} : {A : Type ℓ} → List A → Bool
is_empty [] = true
is_empty (x ∷ xs) = false

-- `not applicable_types or provider_type in applicable_types`
abbrev pub applies_to : Option String → RequiredField → Bool
applies_to provider f =
    is_empty f.provider_type_applicable
    || any (λ (t : String). provider == some t) f.provider_type_applicable

-- `has_col is None` is passed over.
abbrev pub is_absent : Option Bool → Bool
is_absent none = false
is_absent (some b) = not b

abbrev pub is_missing : FieldData → RequiredField → Bool
is_missing row f =
    applies_to row.provider_type f && f.is_mandatory && is_absent (field_has_map f.field_name row)

abbrev pub missing_of : Regulation → RequiredField → MissingField
missing_of reg f = record {
  field_name = f.field_name;
  field_label = "";
  regulation_code = reg.regulation_code;
  regulation_name = reg.name;
}

-- `reg_fields`, a dictionary by regulation_id: of two regulations of one id the last counts.
abbrev pub reg_fields : (String → List RequiredField) → List Regulation → ℕ → List RequiredField
reg_fields required [] i = []
reg_fields required (r ∷ rs) i =
    if any (λ (q : Regulation). q.regulation_id == i) rs
    then reg_fields required rs i
    else if r.regulation_id == i
    then required r.regulation_code
    else []

abbrev pub missing_for : FieldData → Regulation → List RequiredField → List MissingField
missing_for row reg [] = []
missing_for row reg (f ∷ fs) =
    if is_missing row f then missing_of reg f ∷ missing_for row reg fs else missing_for row reg fs

abbrev pub missing_for_all :
    FieldData → (ℕ → List RequiredField) → List Regulation → List MissingField
missing_for_all row fields [] = []
missing_for_all row fields (reg ∷ regs) =
    missing_for row reg (fields reg.regulation_id) ++ missing_for_all row fields regs

abbrev pub consent_agreement : MissingField
consent_agreement = record {
  field_name = "consent_agreement";
  field_label = "제3자 정보제공 동의서";
  regulation_code = "GENERAL";
  regulation_name = "데이터 제공 동의(Data Contract)";
}

abbrev pub needs_consent : FieldData → Bool
needs_consent row =
    not (row.provider_type == some "miner") && not row.is_root_anchor && not row.has_consent_agreed

abbrev pub or_empty : Option String → String
or_empty none = ""
or_empty (some s) = s

-- One round of the loop over the rows
unfoldable pub node_of : (String → List RequiredField) → List Regulation → FieldData → Node
unfolding field_has_map
node_of required regs row =
    let missing =
      missing_for_all row (reg_fields required regs) regs
      ++ (if needs_consent row then consent_agreement ∷ [] else []) in
    record {
      supplier_id = row.supplier_id;
      company_name = or_empty row.company_name;
      provider_type = row.provider_type;
      depth = row.depth;
      is_root_anchor = row.is_root_anchor;
      missing_fields = missing;
      gap_count = length missing;
    }

unfoldable pub get_gaps :
    (String → List RequiredField) → List Regulation → List FieldData → List Node
unfolding node_of
get_gaps required regs rows = map (node_of required regs) rows

-- `",".join(...)`
abbrev pub join_names : List MissingField → String
join_names [] = ""
join_names (m ∷ []) = m.field_name
join_names (m ∷ n ∷ ms) = str_append (str_append m.field_name ",") (join_names (n ∷ ms))

pub record Accepted : Type 0 where
  pub supplier_id : ℕ
  pub requested_data_type : String
  pub gap_count : ℕ
  pub is_root_anchor : Bool

-- `if target_ids and ...`: an empty set of targets selects all.
abbrev pub is_target : List ℕ → ℕ → Bool
is_target [] i = true
is_target (t ∷ ts) i = contains (t ∷ ts) i

abbrev pub accepted_of : Node → Accepted
accepted_of n = record {
  supplier_id = n.supplier_id;
  requested_data_type = join_names n.missing_fields;
  gap_count = n.gap_count;
  is_root_anchor = n.is_root_anchor;
}

-- The loop, with the suppliers that it has seen; each accepted node is one SupplyChainGapDetected.
abbrev pub is_requested : List ℕ → List ℕ → Node → Bool
is_requested targets seen n =
    not (n.gap_count == 0) && is_target targets n.supplier_id && not (contains seen n.supplier_id)

unfoldable pub request_gaps : List ℕ → List ℕ → List Node → List Accepted
request_gaps targets seen [] = []
request_gaps targets seen (n ∷ ns) = elim (is_requested targets seen n) [
  | true ↦ accepted_of n ∷ request_gaps targets (n.supplier_id ∷ seen) ns
  | false ↦ request_gaps targets seen ns
]

unfoldable pub trigger_gap_data_requests :
    (String → List RequiredField) → List Regulation → List FieldData → List ℕ → List Accepted
unfolding get_gaps request_gaps
trigger_gap_data_requests required regs rows targets =
    request_gaps targets [] (get_gaps required regs rows)

-- `max(..., default=0)` compares only where there are two values, and a None is no number.
abbrev pub max_of : ℕ → List (Option ℕ) → Result ℕ
max_of m [] = ok m
max_of m (none ∷ ds) = err type_error
max_of m (some d ∷ ds) = max_of (max m d) ds

unfoldable pub max_tier : List Node → Result (Option ℕ)
max_tier [] = ok (some 0)
max_tier (n ∷ []) = ok n.depth
max_tier (n ∷ m ∷ ns) = elim n.depth [
  | none ↦ err type_error
  | some d ↦ max_of d (m.depth ∷ map (λ (k : Node). k.depth) ns) >>= λ top. ok (some top)
]

unfoldable pub first_of_each : List ℕ → List Node → List Node
first_of_each seen [] = []
first_of_each seen (n ∷ ns) = elim (contains seen n.supplier_id) [
  | true ↦ first_of_each seen ns
  | false ↦ n ∷ first_of_each (n.supplier_id ∷ seen) ns
]

abbrev pub sum_gaps : List Node → ℕ
sum_gaps [] = 0
sum_gaps (n ∷ ns) = n.gap_count + sum_gaps ns

pub record ValidationSummary : Type 0 where
  pub supplier_count : ℕ
  pub max_tier : Option ℕ
  pub ratio_valid : Bool
  pub total_gap_count : ℕ
  pub nodes_with_gaps : ℕ
  pub ready_for_final : Bool
  pub gaps_by_supplier : List Node

-- `ratio_valid` is `all_valid` of the ratio check.
unfoldable pub get_validation_summary :
    (String → List RequiredField)
    → List Regulation
    → List FieldData
    → Bool
    → Result ValidationSummary
unfolding get_gaps max_tier first_of_each
get_validation_summary required regs rows ratio_valid = do
  let all_nodes = filter (λ (n : Node). not n.is_root_anchor) (get_gaps required regs rows)
  top ← max_tier all_nodes
  let nodes = first_of_each [] all_nodes
  let with_gaps = filter (λ (n : Node). ltb 0 n.gap_count) nodes
  let summary : ValidationSummary = record {
    supplier_count = length nodes;
    max_tier = top;
    ratio_valid = ratio_valid;
    total_gap_count = sum_gaps nodes;
    nodes_with_gaps = length with_gaps;
    ready_for_final = sum_gaps nodes == 0 && ratio_valid && ltb 0 (length nodes);
    gaps_by_supplier = with_gaps;
  }
  ok summary
