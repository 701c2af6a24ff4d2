-- ===== src/Bom.antt =====
-- BOM versions and their state machine: backend/domains/product/state_machine.py, over the
-- statuses and the matrix of backend/domains/product/models.py and the commits of
-- backend/domains/product/service.py. The table `bom_versions` is a list of rows with the columns
-- that the code reads or writes; an ORM row is loaded by its primary key and written back by it.
-- `@trace_node` writes nothing here: neither function has a `batch_id` argument.
pub mod Unique
pub mod Calls
mod Tests
use kira_backend.Prelude.{
  ℕ, ◌≡◌, refl, ◌↔◌, Bool, true, false, ◌&&◌, not, List, [], ◌∷◌, Option, none, some, Eq, ◌==◌,
  nat_eq, any, find?, update_where, Result, ok, err, http, raise_if, ◌>>=◌, ◌>>◌, arith,
}

pub data BomVersionStatus : Type 0 where
  draft active deprecated : BomVersionStatus

abbrev pub status_beq : BomVersionStatus → BomVersionStatus → Bool
status_beq draft draft = true
status_beq active active = true
status_beq deprecated deprecated = true
status_beq _ _ = false

pub status_beq_iff : (a b : BomVersionStatus) → (status_beq a b ≡ true) ↔ (a ≡ b)
status_beq_iff a b = ground arith

instance abbrev pub status_eq : Eq BomVersionStatus
status_eq = record { test = status_beq; test_iff = status_beq_iff }

pub record BomVersion : Type 0 where
  pub bom_version_id : ℕ
  pub product_id : ℕ
  pub version_number : ℕ
  pub status : BomVersionStatus

-- BOM_STATUS_TRANSITIONS
abbrev pub bom_status_transitions : BomVersionStatus → List BomVersionStatus
bom_status_transitions draft = active ∷ deprecated ∷ []
bom_status_transitions active = deprecated ∷ []
bom_status_transitions deprecated = []

-- `_validate_transition`
unfoldable pub validate_transition : BomVersionStatus → BomVersionStatus → Result (Unit {0})
validate_transition current target =
    raise_if (not (any (λ s. s == target) (bom_status_transitions current))) (http 422)

abbrev pub Table : Type 0
Table = List BomVersion

abbrev pub has_id : ℕ → BomVersion → Bool
has_id i r = r.bom_version_id == i

-- `db.get(BomVersion, bom_version_id)`
abbrev pub get : ℕ → Table → Option BomVersion
get i t = find? (has_id i) t

abbrev pub set_status : BomVersionStatus → BomVersion → BomVersion
set_status s r = record r { status = s }

-- The `WHERE` of the bulk update: the other active versions of the product.
abbrev pub is_other_active : ℕ → ℕ → BomVersion → Bool
is_other_active product i r =
    r.product_id == product && r.status == active && not (r.bom_version_id == i)

pub or_404 : Option BomVersion → Result BomVersion
or_404 none = err (http 404)
or_404 (some r) = ok r

unfoldable pub activate_bom_version : Table → ℕ → Result (BomVersion × Table)
unfolding validate_transition or_404
activate_bom_version t i = do
  bom ← or_404 (get i t)
  validate_transition bom.status active
  let t' = update_where (is_other_active bom.product_id i) (set_status deprecated) t
  ok (set_status active bom, update_where (has_id i) (set_status active) t')

unfoldable pub deprecate_bom_version : Table → ℕ → Result (BomVersion × Table)
unfolding validate_transition or_404
deprecate_bom_version t i = do
  bom ← or_404 (get i t)
  validate_transition bom.status deprecated
  ok (set_status deprecated bom, update_where (has_id i) (set_status deprecated) t)
