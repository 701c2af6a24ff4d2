-- ===== src/SupplyChain/Tree/Rows.antt =====
-- The rows of get_supplier_field_data and the summary that is computed from them.
use kira_backend.Prelude.{
  ℕ, ◌<◌, String, ◌≡◌, refl, ap, Bool, true, not, ◌&&◌, ◌||◌, Option, some, List, [], ◌∷◌, map,
  ◌==◌, nat_eq, string_eq, option_eq, contains, ok, length, any, all,
}
use kira_backend.SupplyChain.{Database}
use kira_backend.SupplyChain.Tree.{
  TreeRow, unique_suppliers, Held, field_row, get_supplier_field_data,
}
use kira_backend.SupplyChain.Tree.Ends.{sc_tree_ends}
use kira_backend.SupplyChain.Gaps.{
  FieldData, Regulation, RequiredField, Node, get_gaps, ValidationSummary, get_validation_summary,
  trigger_gap_data_requests,
}
use kira_backend.SupplyChain.Gaps.Requests.{ids}
use kira_backend.SupplyChain.Gaps.Summary.{
  AgreesWithAll, IsConsistent, get_validation_summary_ready,
}

module _ (held : ℕ → Held) (tree : List TreeRow) where
  field_row-AgreesWithAll :
      (p : ℕ × Option ℕ) (ps : List (ℕ × Option ℕ))
      → AgreesWithAll (field_row held tree p) (map (field_row held tree) ps)
  field_row-AgreesWithAll p [] = tt
  field_row-AgreesWithAll (s, d) ((s', d') ∷ ps) =
      (λ same. ap (λ i. field_row held tree (i, d)) same, field_row-AgreesWithAll (s, d) ps)

  field_row-IsConsistent : (ps : List (ℕ × Option ℕ)) → IsConsistent (map (field_row held tree) ps)
  field_row-IsConsistent [] = tt
  field_row-IsConsistent (p ∷ ps) = (field_row-AgreesWithAll p ps, field_row-IsConsistent ps)

-- The query and the summary together, over any edges and in any order of the rows: with one step of
-- fuel more than there are edges the query ends; a summary of its rows is ready if and only if the
-- ratios are valid, there is a node other than the root, and no such node has a gap; and once it is
-- ready, the trigger asks nobody but the root, whatever the targets.
pub map_summary_ready :
    (order_by : List (ℕ × Option ℕ) → List (ℕ × Option ℕ)) (held : ℕ → Held) (product : ℕ)
    (version : Option ℕ) (db : Database) (fuel : ℕ)
    → length db.edges < fuel
    → (rows : List FieldData) × (get_supplier_field_data fuel order_by held product version db
        ≡ some rows)
      × ((required : String → List RequiredField) (regs : List Regulation) (ratio_valid : Bool)
            (s : ValidationSummary)
          → get_validation_summary required regs rows ratio_valid ≡ ok s
          → let nodes = get_gaps required regs rows in
            (s.ready_for_final ≡ (
              ratio_valid
              && any (λ (n : Node). not n.is_root_anchor) nodes
              && all (λ (n : Node). n.is_root_anchor || n.gap_count == 0) nodes))
            × (s.ready_for_final ≡ true
                → (targets : List ℕ) (i : ℕ)
                → contains (ids (trigger_gap_data_requests required regs rows targets)) i ≡ true
                → any (λ (n : Node). n.supplier_id == i && n.is_root_anchor) nodes ≡ true))
unfolding get_supplier_field_data
map_summary_ready order_by held product version db fuel h =
    let (tree, e) = sc_tree_ends db product version fuel h in
    let rows = map (field_row held tree) (order_by (unique_suppliers tree)) in
    (
      rows,
      rw e refl,
      λ required regs ratio_valid s ok_s.
          get_validation_summary_ready required regs rows ratio_valid s
            (field_row-IsConsistent held tree (order_by (unique_suppliers tree))) ok_s,
    )
