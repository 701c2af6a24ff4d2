-- ===== src/MasterForm/Submit.antt =====
-- submit_master_form of backend/domains/supplier/service.py, with the gate of
-- `_assert_on_behalf_edit_allowed`.
use kira_backend.Prelude.{
  ℕ, String, Bool, true, false, Option, none, some, List, [], ◌∷◌, ◌++◌, map, ◌==◌, nat_eq,
  string_eq, option_eq, http, Result, ok, err, if◌then◌else◌, find?,
}
use kira_backend.MasterForm.{
  Supplier, MasterFormRequest, Db, Section, company, factories, contacts, manufacturing,
  self_assessment,
}
use kira_backend.MasterForm.Writes.{
  Numeric, has_id, section_if, located, write_company, write_factories, write_contacts,
  write_manufacturing, set_self_reported_risk_level,
}
use kira_backend.SupplyChain.{MapEdge, is_ancestor}

module _ {Point : Type 0} where
  -- The sections after the factories, of a supplier that writes its own form
  unfoldable pub write_own :
      Numeric → ℕ → MasterFormRequest Point → List ℕ → Db Point → List Section × Db Point
  unfolding write_contacts write_manufacturing set_self_reported_risk_level
  write_own numeric s form ids db =
      let db1 = write_contacts s form.contacts ids db in
      let (made, db2) : List Section × Db Point = elim form.manufacturing [
        | none ↦ ([], db1)
        | some m ↦ (manufacturing ∷ [], write_manufacturing numeric s ids m db1)
      ] in
      let (assessed, db3) : List Section × Db Point = elim form.self_reported_risk_level [
        | none ↦ ([], db2)
        | some level ↦ (self_assessment ∷ [], set_self_reported_risk_level s level db2)
      ] in
      (section_if contacts form.contacts ++ (made ++ assessed), db3)

  -- The event follows the commit where a section was saved.
  abbrev pub publish_saved : ℕ → List Section → Db Point → List Section × Db Point
  publish_saved s [] db = ([], db)
  publish_saved s (x ∷ xs) db = (x ∷ xs, record db { submitted = db.submitted ++ s ∷ [] })

  -- Everything after the gate
  unfoldable pub save_form :
      Numeric
      → (Option String → Option String → Option String → Option Point)
      → Bool
      → ℕ
      → MasterFormRequest Point
      → Db Point
      → List Section × Db Point
  unfolding write_company write_factories write_own
  save_form numeric geocode on_behalf s form db =
      let fs = map (located geocode) form.factories in
      if on_behalf
      then (let (ids, db') = write_factories numeric s fs db in
          publish_saved s (section_if factories fs) db')
      else (let (ids, db') = write_factories numeric s fs (write_company s form.company db) in
          let (saved, db'') = write_own numeric s form ids db' in
          publish_saved s (company ∷ section_if factories fs ++ saved) db'')

  abbrev pub gate :
      Option Bool → Result (List Section × Db Point) → Option (Result (List Section × Db Point))
  gate none r = none
  gate (some false) r = some (err (http 403))
  gate (some true) r = some r

  -- `_assert_on_behalf_edit_allowed` before the writes, for the supplier that the key finds: 404 for
  -- none, 403 where the gate raises. `edges` and the fuel are those of `is_ancestor`.
  unfoldable pub submit_for :
      Numeric
      → ℕ
      → List MapEdge
      → (Option String → Option String → Option String → Option Point)
      → Option ℕ
      → ℕ
      → MasterFormRequest Point
      → Db Point
      → Option Supplier
      → Option (Result (List Section × Db Point))
  unfolding save_form
  submit_for numeric fuel edges geocode caller s form db none = some (err (http 404))
  submit_for numeric fuel edges geocode none s form db (some target) =
      some (ok (save_form numeric geocode false s form db))
  submit_for numeric fuel edges geocode (some c) s form db (some target) =
      if c == s
      then some (ok (save_form numeric geocode false s form db))
      else if target.company.provider_type == some "miner"
      then gate (is_ancestor fuel edges c s) (ok (save_form numeric geocode true s form db))
      else some (err (http 403))

  -- As its endpoint answers
  unfoldable pub submit_master_form :
      Numeric
      → ℕ
      → List MapEdge
      → (Option String → Option String → Option String → Option Point)
      → Option ℕ
      → ℕ
      → MasterFormRequest Point
      → Db Point
      → Option (Result (List Section × Db Point))
  unfolding submit_for
  submit_master_form numeric fuel edges geocode caller s form db =
      submit_for numeric fuel edges geocode caller s form db (find? (has_id s) db.suppliers)
