-- ===== src/SupplyChain/Maps.antt =====
-- Confirmation and completion of a supply-chain map: confirm_map, confirm_pool and set_map_status of
-- backend/domains/supplychain/repository.py. A row belongs to the tenant of the product of its
-- version.
use kira_backend.Prelude.{
  ℕ, ◌≡◌, refl, inl, inr, Bool, true, false, not, ◌&&◌, Option, none, some, List, [], ◌∷◌, arith,
  ◌==◌, nat_eq, string_eq, option_eq, nat_beq_iff, if◌then◌else◌, Bool-cases, All, any, filter,
  count_if, find?, update_where,
}
use kira_backend.SupplyChain.{
  MapEdge, SupplyChainMaps, Database, MapStatus, completed, supplychain_confirmed, is_same, lookup,
}

-- `products pr ... AND pr.tenant_id = :tenant_id`
abbrev pub is_of_tenant : Database → ℕ → ℕ → Bool
is_of_tenant db tenant product = elim (lookup product db.products) [
  | none ↦ false
  | some t ↦ t == tenant
]

abbrev pub owns_version : Database → ℕ → ℕ → Bool
owns_version db tenant bv = elim (lookup bv db.bom_versions) [
  | none ↦ false
  | some product ↦ is_of_tenant db tenant product
]

abbrev pub confirmed : MapEdge → MapEdge
confirmed e = record e { link_status = supplychain_confirmed }

abbrev pub is_owned_edge : Database → ℕ → ℕ → MapEdge → Bool
is_owned_edge db tenant id e = e.edge_id == id && owns_version db tenant e.bom_version_id

-- `None`, which the router turns into a 404, where no row matches.
unfoldable pub confirm_map : ℕ → ℕ → Database → Option ℕ × Database
confirm_map id tenant db =
    let hit = is_owned_edge db tenant id in
    (
      if any hit db.edges then some id else none,
      record db { edges = update_where hit confirmed db.edges },
    )

-- The header of the map, by its version and its own product
abbrev pub is_header_of : Database → ℕ → ℕ → MapEdge → SupplyChainMaps → Bool
is_header_of db id tenant e m =
    e.bom_version_id == m.bom_version_id && m.map_id == id && is_of_tenant db tenant m.product_id

-- `if supplier_ids:`, so that an empty list selects all.
abbrev pub is_selected : List ℕ → MapEdge → Bool
is_selected [] e = true
is_selected (s ∷ ss) e = any (λ i. is_same e.child_supplier_id i) (s ∷ ss)

abbrev pub is_pool : Database → ℕ → ℕ → List ℕ → MapEdge → Bool
is_pool db id tenant suppliers e =
    any (is_header_of db id tenant e) db.maps && is_same e.hop_level 1 && is_selected suppliers e

abbrev pub child_ids : List MapEdge → List ℕ
child_ids [] = []
child_ids (e ∷ es) = elim e.child_supplier_id [ none ↦ child_ids es | some c ↦ c ∷ child_ids es ]

pub record Pool : Type 0 where
  pub map_id : ℕ
  pub confirmed_count : ℕ
  pub confirmed_suppliers : List ℕ

-- No `supplier_ids` is the empty list.
unfoldable pub confirm_pool : ℕ → ℕ → List ℕ → Database → Pool × Database
confirm_pool id tenant suppliers db =
    let hit = is_pool db id tenant suppliers in
    (
      record {
        map_id = id;
        confirmed_count = count_if hit db.edges;
        confirmed_suppliers = child_ids (filter hit db.edges);
      },
      record db { edges = update_where hit confirmed db.edges },
    )

abbrev pub is_owned_map : Database → ℕ → ℕ → SupplyChainMaps → Bool
is_owned_map db tenant id m = m.map_id == id && is_of_tenant db tenant m.product_id

abbrev pub is_completed : MapStatus → Bool
is_completed completed = true
is_completed _ = false

-- The two CASE expressions
abbrev pub with_status : MapStatus → ℕ → ℕ → SupplyChainMaps → SupplyChainMaps
with_status status user now m = record m {
  status = status;
  completed_by = if is_completed status then some user else m.completed_by;
  completed_at = if is_completed status then some now else m.completed_at;
}

unfoldable pub set_map_status :
    ℕ → MapStatus → ℕ → ℕ → ℕ → Database → Option SupplyChainMaps × Database
set_map_status id status user tenant now db =
    let hit = is_owned_map db tenant id in
    let maps' = update_where hit (with_status status user now) db.maps in
    (find? hit maps', record db { maps = maps' })

-- Rows that no write touches
module _ {ℓ} {A : Type ℓ} (hit mine : A → Bool) (f : A → A) where
  filter-update :
      ((x : A) → hit x ≡ true → (mine x ≡ true) × (mine (f x) ≡ true))
      → (xs : List A)
      → filter (λ x. not (mine x)) (update_where hit f xs) ≡ filter (λ x. not (mine x)) xs
  filter-update inside [] = refl
  filter-update inside (x ∷ xs) = elim (Bool-cases (hit x)) [
    | inl yes' ↦ rw (yes', (inside x yes').0, (inside x yes').1) (filter-update inside xs)
    | inr no' ↦ rw no' (ground (arith, filter-update inside xs))
  ]

-- The header's product is that of its version, as `_ensure_map_header` writes it.
abbrev pub IsConsistent : Database → Type 0
IsConsistent db =
    All (λ (m : SupplyChainMaps). lookup m.bom_version_id db.bom_versions ≡ some m.product_id)
      db.maps

header-owns :
    (db : Database) (id tenant : ℕ) (e : MapEdge) (maps : List SupplyChainMaps)
    → All
        (λ (m : SupplyChainMaps). lookup m.bom_version_id db.bom_versions ≡ some m.product_id)
        maps
    → any (is_header_of db id tenant e) maps ≡ true
    → owns_version db tenant e.bom_version_id ≡ true
header-owns db id tenant e [] c h = cc
header-owns db id tenant e (m ∷ maps) c h = elim (Bool-cases (is_header_of db id tenant e m)) [
  | inl here ↦
      let same : e.bom_version_id ≡ m.bom_version_id =
        ground (arith, nat_beq_iff e.bom_version_id m.bom_version_id) in
      ground (arith, same, c.0)
  | inr absent ↦ header-owns db id tenant e maps c.1 (rw absent at h)
]

abbrev pub theirs : Database → ℕ → MapEdge → Bool
theirs db tenant e = not (owns_version db tenant e.bom_version_id)

abbrev pub their_map : Database → ℕ → SupplyChainMaps → Bool
their_map db tenant m = not (is_of_tenant db tenant m.product_id)

-- Where each header has the product of its version: what a tenant confirms or completes leaves the
-- rows of all other tenants as they are, edges and headers.
pub writes_stay_in_tenant :
    (edge_id map_id tenant user now : ℕ) (suppliers : List ℕ) (status : MapStatus) (db : Database)
    → IsConsistent db
    → (filter (theirs db tenant) (confirm_map edge_id tenant db).1.edges
        ≡ filter (theirs db tenant) db.edges)
      × (filter (theirs db tenant) (confirm_pool map_id tenant suppliers db).1.edges
          ≡ filter (theirs db tenant) db.edges)
      × (filter (their_map db tenant) (set_map_status map_id status user tenant now db).1.maps
          ≡ filter (their_map db tenant) db.maps)
unfolding confirm_map confirm_pool set_map_status
writes_stay_in_tenant edge_id map_id tenant user now suppliers status db c = (
  filter-update (is_owned_edge db tenant edge_id) (λ e. owns_version db tenant e.bom_version_id)
      confirmed (λ e h. ground arith) db.edges,
  filter-update (is_pool db map_id tenant suppliers) (λ e. owns_version db tenant e.bom_version_id)
      confirmed
      (λ e h. let mine = header-owns db map_id tenant e db.maps c (ground arith) in (mine, mine))
      db.edges,
  filter-update (is_owned_map db tenant map_id) (λ m. is_of_tenant db tenant m.product_id)
      (with_status status user now) (λ m h. ground arith) db.maps,
)
