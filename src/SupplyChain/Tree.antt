-- ===== src/SupplyChain/Tree.antt =====
-- The tree of a product's suppliers: the recursive query of get_supplier_field_data of
-- backend/domains/supplychain/repository.py, which passes over a supplier that is on its path
-- already, and the rows that the gaps are computed from. The order of the result, and what a
-- supplier holds by the tables that belong to it, are arguments; each child has a row in
-- `suppliers` by its foreign key.
pub mod Ends
pub mod Reached
pub mod Complete
pub mod Rows
use kira_backend.Prelude.{
  ℕ, zero, suc, ◌+◌, ◌-◌, ◌*◌, ◌/◌, ◌%◌, ◌≤◌, ◌<◌, min, max, String, ◌≡◌, refl, sym, ap, ◌∙◌, subst,
  ◌≢◌, ◌↔◌, ◌⊎◌, inl, inr, Bool, true, false, not, ◌&&◌, ◌||◌, Option, none, some, List, [], ◌∷◌,
  ◌++◌, map, arith, Eq, ◌==◌, nat_eq, string_eq, option_eq, option_beq_iff, contains, Error,
  value_error, type_error, integrity_error, database_error, batch_not_found, key_error, cycle_error,
  http, Result, ok, err, ◌>>=◌, ◌>>◌, raise_if, >>=-eq-ok, IfReturns, IfReturns-ok, ltb, leb,
  nat_beq, nat_beq_iff, if◌then◌else◌, Bool-cases, Option-cases, List-cases, Result-cases, is_some,
  length, All, any, all, filter, count_if, find?, update_where, length-append, count_if-append,
  filter-append, All-append, All-map, any-append, find?-holds, find?-any, length-update_where,
  find?-update_self, find?-update_other, find?-append_new, find?-append_other, Distinct,
  length-Distinct, Distinct-append, contains-append,
}
use kira_backend.SupplyChain.{MapEdge, Database, is_same, lookup}
use kira_backend.SupplyChain.Gaps.{FieldData}

-- A row of `sc_tree`; the provider type is that of the supplier.
pub record TreeRow : Type 0 where
  pub supplier_id : ℕ
  pub depth : Option ℕ
  pub path : List ℕ
  pub bom_version_id : ℕ

-- `AND scm.bom_version_id = :bom_version_id`, where a version is given
abbrev pub is_version : Option ℕ → ℕ → Bool
is_version none bv = true
is_version (some v) bv = bv == v

abbrev pub is_of_product : Database → ℕ → ℕ → Bool
is_of_product db product bv = elim (lookup bv db.bom_versions) [
  | none ↦ false
  | some p ↦ p == product
]

-- The anchor's WHERE
abbrev pub is_anchor : Database → ℕ → Option ℕ → MapEdge → Bool
is_anchor db product version e =
    not (is_some e.parent_supplier_id)
    && is_of_product db product e.bom_version_id
    && is_version version e.bom_version_id

pub anchors : Database → ℕ → Option ℕ → List MapEdge → List TreeRow
anchors db product version [] = []
anchors db product version (e ∷ es) =
    let rest = anchors db product version es in
    elim e.child_supplier_id [
      | none ↦ rest
      | some c ↦
          if is_anchor db product version e
          then record {
            supplier_id = c;
            depth = e.hop_level;
            path = c ∷ [];
            bom_version_id = e.bom_version_id;
          }
            ∷ rest
          else rest
    ]

-- The join of the recursive term, and `<> ALL(sct.path)`
abbrev pub extends : TreeRow → MapEdge → ℕ → Bool
extends r e c =
    is_same e.parent_supplier_id r.supplier_id
    && e.bom_version_id == r.bom_version_id
    && not (contains r.path c)

abbrev pub extended : TreeRow → MapEdge → ℕ → TreeRow
extended r e c = record {
  supplier_id = c;
  depth = e.hop_level;
  path = r.path ++ c ∷ [];
  bom_version_id = e.bom_version_id;
}

abbrev pub rows_below : List MapEdge → TreeRow → List TreeRow
rows_below [] r = []
rows_below (e ∷ es) r =
    let rest = rows_below es r in
    elim e.child_supplier_id [
      | none ↦ rest
      | some c ↦ if extends r e c then extended r e c ∷ rest else rest
    ]

abbrev pub next_rows : List MapEdge → List TreeRow → List TreeRow
next_rows es [] = []
next_rows es (r ∷ rs) = rows_below es r ++ next_rows es rs

abbrev pub and_rows : List TreeRow → Option (List TreeRow) → Option (List TreeRow)
and_rows rows none = none
and_rows rows (some more) = some (rows ++ more)

-- The working tables one after the other, until one is empty.
unfoldable pub sc_tree : ℕ → List MapEdge → List TreeRow → Option (List TreeRow)
sc_tree zero es rows = none
sc_tree (suc fuel) es [] = some []
sc_tree (suc fuel) es (r ∷ rs) = and_rows (r ∷ rs) (sc_tree fuel es (next_rows es (r ∷ rs)))

-- `SELECT DISTINCT child_supplier_id, provider_type, depth`
abbrev pub is_pair : ℕ → Option ℕ → ℕ × Option ℕ → Bool
is_pair s d (s', d') = s == s' && d == d'

pub unique_suppliers : List TreeRow → List (ℕ × Option ℕ)
unique_suppliers [] = []
unique_suppliers (r ∷ rs) =
    let rest = unique_suppliers rs in
    if any (is_pair r.supplier_id r.depth) rest then rest else (r.supplier_id, r.depth) ∷ rest

abbrev pub is_root : List TreeRow → ℕ → Bool
is_root rows s = any (λ (r : TreeRow). r.supplier_id == s && is_same r.depth 0) rows

-- What the other tables hold of a supplier
pub record Held : Type 0 where
  pub company_name : Option String
  pub provider_type : Option String
  pub has_carbon_intensity : Bool
  pub has_factory_carbon_decl : Bool
  pub has_mine_coordinates : Bool
  pub has_origin_country : Bool
  pub has_consent_agreed : Bool

abbrev pub field_row : (ℕ → Held) → List TreeRow → ℕ × Option ℕ → FieldData
field_row held rows (s, d) = record {
  supplier_id = s;
  company_name = (held s).company_name;
  provider_type = (held s).provider_type;
  depth = d;
  is_root_anchor = is_root rows s;
  has_carbon_intensity = (held s).has_carbon_intensity;
  has_factory_carbon_decl = (held s).has_factory_carbon_decl;
  has_mine_coordinates = (held s).has_mine_coordinates;
  has_origin_country = (held s).has_origin_country;
  has_consent_agreed = (held s).has_consent_agreed;
}

abbrev pub field_rows :
    (List (ℕ × Option ℕ) → List (ℕ × Option ℕ))
    → (ℕ → Held)
    → Option (List TreeRow)
    → Option (List FieldData)
field_rows order_by held none = none
field_rows order_by held (some rows) =
    some (map (field_row held rows) (order_by (unique_suppliers rows)))

unfoldable pub get_supplier_field_data :
    ℕ
    → (List (ℕ × Option ℕ) → List (ℕ × Option ℕ))
    → (ℕ → Held)
    → ℕ
    → Option ℕ
    → Database
    → Option (List FieldData)
unfolding anchors sc_tree unique_suppliers
get_supplier_field_data fuel order_by held product version db =
    field_rows order_by held (sc_tree fuel db.edges (anchors db product version db.edges))
