-- ===== src/Bom/Tests.antt =====
-- Runs of the BOM state machine on two versions of one product.
use kira_backend.Prelude.{◌≡◌, refl, [], ◌∷◌, arith, nat_eq, string_eq, option_eq, ok}
use kira_backend.Bom.{
  BomVersion, draft, active, deprecated, Table, set_status, activate_bom_version,
}
use kira_backend.Bom.Unique.{IsKeyed, HasUniqueActive}
use kira_backend.Bom.Calls.{activate, deprecate, run, run-HasUniqueActive}

abbrev first : BomVersion
first = record { bom_version_id = 1; product_id = 7; version_number = 1; status = active }

abbrev second : BomVersion
second = record { bom_version_id = 2; product_id = 7; version_number = 2; status = draft }

abbrev versions : Table
versions = first ∷ second ∷ []

versions-IsKeyed : IsKeyed versions
versions-IsKeyed = ground arith

versions-HasUniqueActive : HasUniqueActive versions
versions-HasUniqueActive p = ground arith

activate_second :
    activate_bom_version versions 2
    ≡ ok (set_status active second, set_status deprecated first ∷ set_status active second ∷ [])
unfolding activate_bom_version
activate_second = refl

run-HasUniqueActive_example :
    HasUniqueActive (run (activate 2 ∷ activate 1 ∷ deprecate 2 ∷ []) versions)
run-HasUniqueActive_example =
    (run-HasUniqueActive (activate 2 ∷ activate 1 ∷ deprecate 2 ∷ []) versions
      (versions-IsKeyed, versions-HasUniqueActive)).1
