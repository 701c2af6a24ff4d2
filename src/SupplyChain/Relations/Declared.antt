-- ===== src/SupplyChain/Relations/Declared.antt =====
-- The declaration of a changed source in backend/domains/supplychain/service.py.
use kira_backend.Prelude.{
  ℕ, ◌<◌, ◌≡◌, ◌∙◌, inl, inr, true, Option, none, some, List, arith, nat_eq, string_eq, option_eq,
  ok, IfReturns, IfReturns-ok, Result-cases, is_some, length, any,
}
use kira_backend.SupplyChain.{
  has_part, references, MapEdge, Database, Fresh, lookup, would_create_cycle, declare_new_source,
  edge_exists,
}
use kira_backend.SupplyChain.Search.{Below, edge, Acyclic}
use kira_backend.SupplyChain.Cycle.{would_create_cycle_decides, would_create_cycle_never_ends}
use kira_backend.SupplyChain.Relations.{declare_source_change}
use kira_backend.SupplyChain.Relations.Calls.{
  ensure_map_header-edges, ensure_map_header-returns, Adds, references-same, is_level, is_edge-Adds,
  edge_exists-joins,
}

pub declare_new_source-Adds :
    (any_of : List MapEdge → Option MapEdge) (new : Fresh) (bv p c part : ℕ) (db : Database)
    → IfReturns
        (λ r. Adds bv (some p) c db r.0 r.1 × (is_level r.0 ≡ true))
        (declare_new_source any_of new bv p c part db)
unfolding declare_new_source
declare_new_source-Adds any_of new bv p c part db =
    ground (arith, ensure_map_header-edges new bv db)

declare_new_source-returns :
    (any_of : List MapEdge → Option MapEdge) (new : Fresh) (bv p c part : ℕ) (db : Database)
    → is_some (lookup bv db.bom_versions) ≡ true
    → references db (some p) c part (some p) ≡ true
    → (r : MapEdge × Database) × (declare_new_source any_of new bv p c part db ≡ ok r)
unfolding declare_new_source
declare_new_source-returns any_of new bv p c part db known there =
    elim (Result-cases (declare_new_source any_of new bv p c part db)) [
      | inl found ↦ found
      | inr (why, e) ↦
          let ((header, db1), made) = ensure_map_header-returns new bv db known in
          let (_, _, suppliers, parts) =
            IfReturns-ok _ _ (header, db1) (ensure_map_header-edges new bv db) made in
          let there' : references db1 (some p) c part (some p) ≡ true =
            references-same db db1 (some p) c part (some p) suppliers parts ∙ there in
          absurd (cc (rw (made, there') at e))
    ]

-- A declared source is not tested against its parent: a supplier declared under itself passes the
-- check over edges without a cycle, in a known version and with a known part, and from then on the check of an edge under
-- that supplier never ends, for any parent that is not below it.
pub declare_source_change_under_itself :
    (any_of : List MapEdge → Option MapEdge) (fuel : ℕ) (new : Fresh) (bv s part : ℕ)
    (db : Database)
    → Acyclic db.edges
    → length db.edges < fuel
    → is_some (lookup bv db.bom_versions) ≡ true
    → is_some (lookup s db.suppliers) ≡ true
    → any (has_part part) db.parts ≡ true
    → (row : MapEdge) × (db' : Database) × (declare_source_change any_of fuel new bv s s part db
        ≡ some (ok (row, db')))
      × ((fuel' p : ℕ) → ¬ Below db'.edges s p → would_create_cycle fuel' db'.edges p s ≡ none)
unfolding declare_source_change edge_exists
declare_source_change_under_itself any_of fuel new bv s part db acyclic h known supplier has =
    let ((row, db'), e) =
      declare_new_source-returns any_of new bv s s part db known (ground arith) in
    let (adds, level) =
      IfReturns-ok _ _ (row, db') (declare_new_source-Adds any_of new bv s s part db) e in
    let j = edge_exists-joins bv s s db'.edges (is_edge-Adds bv s s db row db' adds) in
    (
      row,
      db',
      elim (would_create_cycle_decides db.edges acyclic fuel s s h) [
        | inl (_, b) ↦ absurd (acyclic s b)
        | inr (no_cycle, _) ↦ ground arith
      ],
      λ fuel' p apart. would_create_cycle_never_ends db'.edges p s (s, edge j, edge j) apart fuel',
    )
