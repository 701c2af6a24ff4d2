-- ===== src/SupplyChain.antt =====
-- The supply chain of a product: the tables and the writes of
-- backend/domains/supplychain/repository.py (`supply_chain_map` is the list of edges,
-- `supply_chain_maps` the list of headers), with the search for a cycle. The services over them and
-- the handler that connects invited suppliers are in Relations, the theorems in the other children.
-- A key or time that the database makes is an argument. A null in a column is `none`, and a
-- comparison with it is not true. The result and the working table of a recursive query are lists,
-- and a query that the fuel does not bring to its end is `none`.
pub mod Search
pub mod Upward
pub mod Levels
pub mod Cycle
pub mod Relations
pub mod Maps
pub mod Tree
pub mod Gaps
pub mod GeoAudit
mod Tests
use Prim.Native.String.{◌++◌ as str_append}
use kira_backend.Prelude.{
  ℕ, zero, suc, ◌+◌, ◌-◌, ◌*◌, ◌/◌, ◌%◌, ◌≤◌, ◌<◌, min, max, String, ◌≡◌, refl, sym, ap, ◌∙◌, subst,
  ◌≢◌, ◌↔◌, ◌⊎◌, inl, inr, Bool, true, false, not, ◌&&◌, ◌||◌, Option, none, some, List, [], ◌∷◌,
  ◌++◌, map, arith, Eq, ◌==◌, nat_eq, string_eq, option_eq, option_beq_iff, contains, Error,
  value_error, type_error, integrity_error, database_error, batch_not_found, key_error, cycle_error,
  http, Result, ok, err, ◌>>=◌, ◌>>◌, raise_if, >>=-eq-ok, IfReturns, IfReturns-ok, ltb, leb,
  nat_beq, nat_beq_iff, if◌then◌else◌, Bool-cases, Option-cases, List-cases, Result-cases, is_some,
  length, All, any, all, filter, count_if, find?, update_where, length-append, count_if-append,
  filter-append, All-append, All-map, any-append, find?-holds, find?-any, length-update_where,
  find?-update_self, find?-update_other, find?-append_new, find?-append_other, Distinct,
  length-Distinct,
}

pub data LinkStatus : Type 0 where
  supplychain_declared supplychain_confirmed : LinkStatus

pub data SourceSystem : Type 0 where
  erp supplier_declared : SourceSystem

pub data VerificationStatus : Type 0 where
  unverified verified : VerificationStatus

-- A row of `supply_chain_map`. The schema lets `map_id` and `bom_version_id` be null; every insert of
-- the program sets both.
pub record MapEdge : Type 0 where
  pub edge_id : ℕ
  pub map_id : ℕ
  pub bom_version_id : ℕ
  pub parent_supplier_id : Option ℕ
  pub child_supplier_id : Option ℕ
  pub part_id : Option ℕ
  pub hop_level : Option ℕ
  pub link_status : LinkStatus
  pub discovered_via : Option ℕ
  pub source_system : SourceSystem
  pub verification_status : VerificationStatus
  pub created_at : ℕ

pub data MapStatus : Type 0 where
  building completed : MapStatus

-- A row of `supply_chain_maps`
pub record SupplyChainMaps : Type 0 where
  pub map_id : ℕ
  pub bom_version_id : ℕ
  pub product_id : ℕ
  pub status : MapStatus
  pub completed_by : Option ℕ
  pub completed_at : Option ℕ

-- A row of `parts`
pub record Part : Type 0 where
  pub part_id : ℕ
  pub part_code : String
  pub part_name : String
  pub tier_level : Option ℕ
  pub parent_part_id : Option ℕ

-- The tables that the component reads and writes. `bom_versions` has the product of each version,
-- `suppliers` the company name and `products` the tenant.
pub record Database : Type 0 where
  pub edges : List MapEdge
  pub maps : List SupplyChainMaps
  pub parts : List Part
  pub bom_versions : List (ℕ × ℕ)
  pub suppliers : List (ℕ × Option String)
  pub products : List (ℕ × ℕ)

-- What the database and `uuid4` make for one call.
pub record Fresh : Type 0 where
  pub edge_id : ℕ
  pub map_id : ℕ
  pub part_id : ℕ
  pub now : ℕ
  pub part_code : String

-- `column = :value`
abbrev pub is_same : Option ℕ → ℕ → Bool
is_same none i = false
is_same (some a) i = a == i

abbrev pub lookup {ℓ} : {V : Type ℓ} → ℕ → List (ℕ × V) → Option V
lookup k [] = none
lookup k ((i, v) ∷ rows) = if i == k then some v else lookup k rows

-- The children of one working row: `scm.parent_supplier_id = d.child_supplier_id`
abbrev pub children_of : List MapEdge → ℕ → List (Option ℕ)
children_of [] d = []
children_of (e ∷ es) d =
    if is_same e.parent_supplier_id d
    then e.child_supplier_id ∷ children_of es d
    else children_of es d

-- The recursive term of `descendants`, which joins the working table. A null child joins nothing.
abbrev pub next : List MapEdge → List (Option ℕ) → List (Option ℕ)
next es [] = []
next es (none ∷ rows) = next es rows
next es (some d ∷ rows) = children_of es d ++ next es rows

-- `EXISTS (SELECT 1 FROM descendants WHERE child_supplier_id = target)`: `UNION ALL` adds one working
-- table after the other until one is empty, and EXISTS stops at the first row that matches.
unfoldable pub exists_descendant : ℕ → List MapEdge → ℕ → List (Option ℕ) → Option Bool
exists_descendant zero es target rows = none
exists_descendant (suc fuel) es target [] = some false
exists_descendant (suc fuel) es target (r ∷ rows) = elim (any (λ o. is_same o target) (r ∷ rows)) [
  | true ↦ some true
  | false ↦ exists_descendant fuel es target (next es (r ∷ rows))
]

unfoldable pub would_create_cycle : ℕ → List MapEdge → ℕ → ℕ → Option Bool
unfolding exists_descendant
would_create_cycle fuel es parent child = exists_descendant fuel es parent (children_of es child)

unfoldable pub is_ancestor : ℕ → List MapEdge → ℕ → ℕ → Option Bool
unfolding exists_descendant
is_ancestor fuel es ancestor descendant =
    exists_descendant fuel es descendant (children_of es ancestor)

-- `_ensure_map_header`, where `scalar_one` raises for an unknown version.
unfoldable pub ensure_map_header : Fresh → ℕ → Database → Result (ℕ × Database)
ensure_map_header new bv db = elim (lookup bv db.bom_versions) [
  | none ↦ err database_error
  | some product ↦ elim (find? (λ (m : SupplyChainMaps). m.bom_version_id == bv) db.maps) [
    | some m ↦ ok (m.map_id, db)
    | none ↦
        let header : SupplyChainMaps = record {
          map_id = new.map_id;
          bom_version_id = bv;
          product_id = product;
          status = building;
          completed_by = none;
          completed_at = none;
        } in
        ok (new.map_id, record db { maps = db.maps ++ header ∷ [] })
  ]
]

-- `ORDER BY hop_level LIMIT 1`: nulls come last.
abbrev pub least : List (Option ℕ) → Option ℕ
least [] = none
least (none ∷ hops) = least hops
least (some h ∷ hops) = elim (least hops) [ none ↦ some h | some k ↦ some (min h k) ]

-- The edges that lead to a supplier within a version
abbrev pub leads_to : ℕ → ℕ → MapEdge → Bool
leads_to bv supplier e = is_same e.child_supplier_id supplier && e.bom_version_id == bv

-- `COALESCE(hop_level + 1, 1)`
abbrev pub one_below : Option ℕ → ℕ
one_below none = 1
one_below (some h) = h + 1

-- The CASE of the column `hop_level`
unfoldable pub hop_below : ℕ → Option ℕ → List MapEdge → ℕ
hop_below bv none es = 0
hop_below bv (some parent) es =
    one_below (least (map (λ (e : MapEdge). e.hop_level) (filter (leads_to bv parent) es)))

-- The foreign keys of a row of `supply_chain_map`, but for the version, which the header has
abbrev pub is_supplier : Database → ℕ → Bool
is_supplier db i = is_some (lookup i db.suppliers)

abbrev pub is_null_or_supplier : Database → Option ℕ → Bool
is_null_or_supplier db none = true
is_null_or_supplier db (some i) = is_supplier db i

abbrev pub has_part : ℕ → Part → Bool
has_part i p = p.part_id == i

abbrev pub references : Database → Option ℕ → ℕ → ℕ → Option ℕ → Bool
references db parent child part via =
    is_null_or_supplier db parent
    && (is_supplier db child && (any (has_part part) db.parts && is_null_or_supplier db via))

unfoldable pub create_supply_relation :
    Fresh → ℕ → Option ℕ → ℕ → ℕ → Option ℕ → Database → Result (MapEdge × Database)
unfolding ensure_map_header hop_below
create_supply_relation new bv parent child part via db = do
  (header, db') ← ensure_map_header new bv db
  raise_if (not (references db' parent child part via)) integrity_error
  let row : MapEdge = record {
    edge_id = new.edge_id;
    map_id = header;
    bom_version_id = bv;
    parent_supplier_id = parent;
    child_supplier_id = some child;
    part_id = some part;
    hop_level = some (hop_below bv parent db'.edges);
    link_status = supplychain_declared;
    discovered_via = via;
    source_system = erp;
    verification_status = unverified;
    created_at = new.now;
  }
  ok (row, record db' { edges = db'.edges ++ row ∷ [] })

-- `any_of` is LIMIT 1 without an order.
unfoldable pub declare_new_source :
    (List MapEdge → Option MapEdge) → Fresh → ℕ → ℕ → ℕ → ℕ → Database → Result (MapEdge × Database)
unfolding ensure_map_header
declare_new_source any_of new bv parent child part db = do
  (header, db') ← ensure_map_header new bv db
  raise_if (not (references db' (some parent) child part (some parent))) integrity_error
  let hop : ℕ = elim (any_of (filter (leads_to bv parent) db'.edges)) [
    | none ↦ 1
    | some e ↦ one_below e.hop_level
  ]
  let row : MapEdge = record {
    edge_id = new.edge_id;
    map_id = header;
    bom_version_id = bv;
    parent_supplier_id = some parent;
    child_supplier_id = some child;
    part_id = some part;
    hop_level = some hop;
    link_status = supplychain_declared;
    discovered_via = some parent;
    source_system = supplier_declared;
    verification_status = unverified;
    created_at = new.now;
  }
  ok (row, record db' { edges = db'.edges ++ row ∷ [] })

-- `ORDER BY created_at DESC LIMIT 1` over the join with `parts`: the rows arrive in any order, and
-- of two of one time the first is taken.
abbrev pub part_of : List Part → MapEdge → Option Part
part_of parts e = elim e.part_id [
  | none ↦ none
  | some i ↦ find? (λ (p : Part). p.part_id == i) parts
]

abbrev pub latest_part : List Part → List MapEdge → Option (ℕ × Part)
latest_part parts [] = none
latest_part parts (e ∷ es) =
    let rest = latest_part parts es in
    elim (part_of parts e) [
      | none ↦ rest
      | some p ↦ elim rest [
        | none ↦ some (e.created_at, p)
        | some (time, q) ↦ if ltb e.created_at time then some (time, q) else some (e.created_at, p)
      ]
    ]

abbrev pub company_of : Option (Option String) → String
company_of (some (some name)) = if name == "" then "미상 협력사" else name
company_of _ = "미상 협력사"

-- An unknown tier counts as -1, and the child is one below.
abbrev pub tier_below : Option (ℕ × Part) → ℕ
tier_below (some (_, p)) = elim p.tier_level [ none ↦ 0 | some t ↦ t + 1 ]
tier_below none = 0

abbrev pub parent_part : Option (ℕ × Part) → Option ℕ
parent_part (some (_, p)) = some p.part_id
parent_part none = none

unfoldable pub get_or_create_child_part : Fresh → ℕ → ℕ → ℕ → Database → ℕ × Database
get_or_create_child_part new bv parent child db =
    let row = latest_part db.parts (filter (leads_to bv parent) db.edges) in
    let name = str_append (company_of (lookup child db.suppliers)) " 공급 부품" in
    elim (find? (λ (p : Part). p.part_name == name && p.parent_part_id == parent_part row)
      db.parts) [
        | some p ↦ (p.part_id, db)
        | none ↦
            let part : Part = record {
              part_id = new.part_id;
              part_code = new.part_code;
              part_name = name;
              tier_level = some (tier_below row);
              parent_part_id = parent_part row;
            } in
            (new.part_id, record db { parts = db.parts ++ part ∷ [] })
      ]

-- `lock_and_check_edge_exists`: two calls of one key are one after the other.
abbrev pub is_edge : ℕ → ℕ → ℕ → MapEdge → Bool
is_edge bv parent child e =
    e.bom_version_id == bv
    && is_same e.parent_supplier_id parent
    && is_same e.child_supplier_id child

unfoldable pub edge_exists : ℕ → ℕ → ℕ → Database → Bool
edge_exists bv parent child db = any (is_edge bv parent child) db.edges
