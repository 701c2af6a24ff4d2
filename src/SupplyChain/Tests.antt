-- ===== src/SupplyChain/Tests.antt =====
-- Runs over a small supply chain: 1 makes the product 9 of tenant 7, version 5, from 2, and 2 from 3.
mod Views
use kira_backend.Prelude.{
  some-injective, ℕ, zero, suc, ◌+◌, ◌-◌, ◌*◌, ◌/◌, ◌%◌, ◌≤◌, ◌<◌, min, max, String, ◌≡◌, refl, sym,
  ap, ◌∙◌, subst, ◌≢◌, ◌↔◌, ◌⊎◌, inl, inr, Bool, true, false, not, ◌&&◌, ◌||◌, Option, none, some,
  List, [], ◌∷◌, ◌++◌, map, arith, Eq, ◌==◌, nat_eq, string_eq, option_eq, option_beq_iff, contains,
  Error, value_error, type_error, integrity_error, database_error, batch_not_found, key_error,
  cycle_error, http, Result, ok, err, ◌>>=◌, ◌>>◌, raise_if, >>=-eq-ok, IfReturns, IfReturns-ok,
  ltb, leb, nat_beq, nat_beq_iff, if◌then◌else◌, Bool-cases, Option-cases, List-cases, Result-cases,
  is_some, length, All, any, all, filter, count_if, find?, update_where, length-append,
  count_if-append, filter-append, All-append, All-map, any-append, find?-holds, find?-any,
  length-update_where, find?-update_self, find?-update_other, find?-append_new, find?-append_other,
  Distinct, length-Distinct, Distinct-append, contains-append,
}
use kira_backend.SupplyChain.Levels.{IsNextLevel}
use kira_backend.SupplyChain.{
  has_part, MapEdge, SupplyChainMaps, Part, Database, Fresh, MapStatus, building, completed,
  is_same, lookup, supplychain_declared, supplychain_confirmed, erp, unverified, would_create_cycle,
  is_ancestor, exists_descendant, ensure_map_header, hop_below, create_supply_relation, edge_exists,
  get_or_create_child_part,
}
use kira_backend.SupplyChain.Search.{Below, edge, step, Acyclic, joins}
use kira_backend.SupplyChain.Cycle.{
  would_create_cycle_decides, would_create_cycle_never_ends, ReachesCycle,
}
use kira_backend.SupplyChain.Upward.{Below-upward, upward-Acyclic}
use kira_backend.SupplyChain.Relations.{
  Connection, already_connected, register_relation, connect_child_supplier, declare_source_change,
  is_in, is_undiscovered, get_unconnected_parent_bom_versions, unconnected, on_supplier_invited,
}
use kira_backend.SupplyChain.Relations.Calls.{
  Adds, Fits, register_relation_outcomes, connect_child_supplier_twice,
}
use kira_backend.SupplyChain.Relations.Declared.{declare_source_change_under_itself}
use kira_backend.SupplyChain.Relations.Runs.{
  Call, register, connect, declare, verify, discover, run, IsSoundMap, run-IsSoundMap,
}
use kira_backend.SupplyChain.Relations.Invited.{on_supplier_invited_connects}

abbrev pub an_edge : ℕ → Option ℕ → ℕ → ℕ → MapEdge
an_edge id parent child hop = record {
  edge_id = id;
  map_id = 50;
  bom_version_id = 5;
  parent_supplier_id = parent;
  child_supplier_id = some child;
  part_id = none;
  hop_level = some hop;
  link_status = supplychain_declared;
  discovered_via = some 1;
  source_system = erp;
  verification_status = unverified;
  created_at = 0;
}

abbrev pub three_edges : List MapEdge
three_edges = an_edge 1 none 1 0 ∷ an_edge 2 (some 1) 2 1 ∷ an_edge 3 (some 2) 3 2 ∷ []

abbrev header : SupplyChainMaps
header = record {
  map_id = 50;
  bom_version_id = 5;
  product_id = 9;
  status = building;
  completed_by = none;
  completed_at = none;
}

abbrev a_part : Part
a_part = record {
  part_id = 60;
  part_code = "CELL";
  part_name = "Cell";
  tier_level = some 1;
  parent_part_id = none;
}

abbrev pub a_chain : Database
a_chain = record {
  edges = three_edges;
  maps = header ∷ [];
  parts = a_part ∷ [];
  bom_versions = (5, 9) ∷ [];
  suppliers = (1, some "KIRA") ∷ (2, some "Cell") ∷ (3, none) ∷ (4, some "Mine") ∷ [];
  products = (9, 7) ∷ [];
}

abbrev new_keys : Fresh
new_keys = record { edge_id = 90; map_id = 91; part_id = 92; now = 93; part_code = "AUTO-1" }

a_chain-Acyclic : Acyclic three_edges
a_chain-Acyclic = upward-Acyclic three_edges refl

not_below_4 : ¬ Below three_edges 4 3
not_below_4 b = omega (arith, Below-upward three_edges refl b)

would_create_cycle_decides_example :
    ((would_create_cycle 4 three_edges 3 1 ≡ some true) × Below three_edges 1 3)
    ⊎ ((would_create_cycle 4 three_edges 3 1 ≡ some false) × ¬ Below three_edges 1 3)
would_create_cycle_decides_example =
    would_create_cycle_decides three_edges a_chain-Acyclic 4 3 1 (omega arith)

finds_ancestor : is_ancestor 4 three_edges 1 3 ≡ some true
unfolding is_ancestor exists_descendant
finds_ancestor = refl

-- The seed data has such an edge: one company makes the module and the cell.
abbrev pub both_roles : List MapEdge
both_roles = an_edge 1 none 1 0 ∷ an_edge 2 (some 1) 2 1 ∷ an_edge 3 (some 2) 2 2 ∷ []

both_roles-Below : {x y : ℕ} → Below both_roles x y → y < 4
both_roles-Below {x} {y} (edge j) = ground arith
both_roles-Below (step j b) = both_roles-Below b

would_create_cycle_never_ends_example : would_create_cycle 1000 both_roles 4 2 ≡ none
would_create_cycle_never_ends_example =
    would_create_cycle_never_ends both_roles 4 2 (2, edge refl, edge refl)
      (λ b. omega (arith, both_roles-Below b)) 1000

abbrev smelter : ℕ
smelter = 3

abbrev mine : ℕ
mine = 4

register_relation_outcomes_example :
    ((smelter ≡ mine)
      → register_relation 4 new_keys 5 (some 3) 4 60 a_chain ≡ some (err value_error))
    × (smelter ≢ mine
        → Below three_edges 4 3
        → register_relation 4 new_keys 5 (some 3) 4 60 a_chain ≡ some (err cycle_error))
    × (smelter ≢ mine
        → ¬ Below three_edges 4 3
        → (is_some (lookup 3 a_chain.suppliers)
            && is_some (lookup 4 a_chain.suppliers)
            && any (has_part 60) a_chain.parts)
          ≡ false
        → register_relation 4 new_keys 5 (some 3) 4 60 a_chain ≡ some (err integrity_error))
    × (smelter ≢ mine
        → ¬ Below three_edges 4 3
        → is_some (lookup 3 a_chain.suppliers) ≡ true
        → is_some (lookup 4 a_chain.suppliers) ≡ true
        → any (has_part 60) a_chain.parts ≡ true
        → (row : MapEdge) × (db' : Database) × (n : ℕ) × (register_relation 4 new_keys 5
              (some 3)
              4
              60
              a_chain
            ≡ some (ok (row, db')))
          × Adds 5 (some 3) 4 a_chain row db'
          × (row.hop_level ≡ some n)
          × IsNextLevel 5 3 three_edges n
          × (row.discovered_via ≡ none))
register_relation_outcomes_example =
    register_relation_outcomes 4 new_keys 5 3 4 60 a_chain a_chain-Acyclic (omega arith) refl

connect_child_supplier_twice_example :
    (answer : Connection) × (db' : Database) × (connect_child_supplier 4 new_keys 5 3 4 a_chain
      ≡ some (ok (answer, db')))
    × (edge_exists 5 3 4 db' ≡ true)
    × Acyclic db'.edges
    × (connect_child_supplier 5 new_keys 5 3 4 db' ≡ some (ok (already_connected, db')))
connect_child_supplier_twice_example =
    connect_child_supplier_twice 4 5 new_keys new_keys 5 3 4 a_chain a_chain-Acyclic
      (omega arith, not_below_4) (omega arith) (omega arith) refl refl refl

declare_source_change_under_itself_example :
    (row : MapEdge) × (db' : Database) × (declare_source_change
        (λ es. none)
        4
        new_keys
        5
        3
        3
        60
        a_chain
      ≡ some (ok (row, db')))
    × ((fuel' p : ℕ) → ¬ Below db'.edges 3 p → would_create_cycle fuel' db'.edges p 3 ≡ none)
declare_source_change_under_itself_example =
    declare_source_change_under_itself (λ es. none) 4 new_keys 5 3 60 a_chain a_chain-Acyclic
      (omega arith) refl refl refl

-- The second call closes a cycle and raises.
abbrev four_calls : List Call
four_calls =
    connect new_keys 5 3 4 ∷ register new_keys 5 (some 3) 1 60 ∷ verify 5 4 true ∷ discover 4 3 ∷ []

run-IsSoundMap_example : (db' : Database) × (run four_calls a_chain ≡ some db') × IsSoundMap db'
run-IsSoundMap_example =
    run-IsSoundMap four_calls a_chain (tt, (tt, (tt, (tt, tt)))) (a_chain-Acyclic, refl)

known_versions :
    All
      (λ bv. is_some (lookup bv a_chain.bom_versions) ≡ true)
      (get_unconnected_parent_bom_versions 3 4 a_chain)
unfolding get_unconnected_parent_bom_versions unconnected
known_versions = (refl, tt)

on_supplier_invited_connects_example :
    (done : List ℕ) × (db' : Database) × (on_supplier_invited
        (λ es. suc (length es))
        (λ bv. new_keys)
        (some 4)
        (some 3)
        a_chain
      ≡ some (done, db'))
    × ((bv : ℕ) → any (is_in bv 3) three_edges ≡ true → any (is_in bv 4) db'.edges ≡ true)
    × Acyclic db'.edges
on_supplier_invited_connects_example =
    on_supplier_invited_connects (λ es. suc (length es)) (λ bv. new_keys) 4 3 a_chain
      (λ es. omega arith) a_chain-Acyclic (omega arith, not_below_4) known_versions refl refl refl
