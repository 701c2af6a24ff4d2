-- ===== src/SupplyChain/Relations.antt =====
-- The services that write the supply chain, in backend/domains/supplychain/service.py, and the
-- handler of invitations, backend/handlers/supplier_invited.py. A call that raises commits nothing,
-- and `none` is a call whose cycle check has not ended. `@trace_node` writes nothing here: no
-- argument is a `batch_id`.
pub mod Calls
pub mod Declared
pub mod Runs
pub mod Invited
use kira_backend.Prelude.{
  ℕ, zero, suc, ◌+◌, ◌-◌, ◌*◌, ◌/◌, ◌%◌, ◌≤◌, ◌<◌, min, max, String, ◌≡◌, refl, sym, ap, ◌∙◌, subst,
  ◌≢◌, ◌↔◌, ◌⊎◌, inl, inr, Bool, true, false, not, ◌&&◌, ◌||◌, Option, none, some, List, [], ◌∷◌,
  ◌++◌, map, arith, Eq, ◌==◌, nat_eq, string_eq, option_eq, option_beq_iff, contains, Error,
  value_error, type_error, integrity_error, database_error, batch_not_found, key_error, cycle_error,
  http, Result, ok, err, ◌>>=◌, ◌>>◌, raise_if, >>=-eq-ok, IfReturns, IfReturns-ok, ltb, leb,
  nat_beq, nat_beq_iff, if◌then◌else◌, Bool-cases, Option-cases, List-cases, Result-cases, is_some,
  length, All, any, all, filter, count_if, find?, update_where, length-append, count_if-append,
  filter-append, All-append, All-map, any-append, find?-holds, find?-any, length-update_where,
  find?-update_self, find?-update_other, find?-append_new, find?-append_other, Distinct,
  length-Distinct,
}
use kira_backend.SupplyChain.{
  MapEdge, Database, Fresh, unverified, verified, VerificationStatus, is_same, would_create_cycle,
  create_supply_relation, declare_new_source, get_or_create_child_part, edge_exists,
}

-- `if await would_create_cycle(...): raise SupplyChainCycleError`
abbrev pub unless_cycle {ℓ} : {X : Type ℓ} → Option Bool → Result X → Option (Result X)
unless_cycle none r = none
unless_cycle (some true) r = some (err cycle_error)
unless_cycle (some false) r = some r

unfoldable pub register_relation :
    ℕ → Fresh → ℕ → Option ℕ → ℕ → ℕ → Database → Option (Result (MapEdge × Database))
register_relation fuel new bv none child part db =
    some (create_supply_relation new bv none child part none db)
register_relation fuel new bv (some parent) child part db =
    if parent == child
    then some (err value_error)
    else unless_cycle (would_create_cycle fuel db.edges parent child)
        (create_supply_relation new bv (some parent) child part none db)

pub data Connection : Type 0 where
  already_connected : Connection
  created : MapEdge → Connection

-- After `already_connected` is false
unfoldable pub create_connection : Fresh → ℕ → ℕ → ℕ → Database → Result (Connection × Database)
create_connection new bv parent child db = do
  let (part, db') = get_or_create_child_part new bv parent child db
  (row, db'') ← create_supply_relation new bv (some parent) child part (some parent) db'
  ok (created row, db'')

unfoldable pub connect_child_supplier :
    ℕ → Fresh → ℕ → ℕ → ℕ → Database → Option (Result (Connection × Database))
unfolding create_connection
connect_child_supplier fuel new bv parent child db =
    if parent == child
    then some (err value_error)
    else unless_cycle (would_create_cycle fuel db.edges parent child) (
        if edge_exists bv parent child db
        then ok (already_connected, db)
        else create_connection new bv parent child db)

-- The event that follows the commit has the new row and is left out.
unfoldable pub declare_source_change :
    (List MapEdge → Option MapEdge)
    → ℕ
    → Fresh
    → ℕ
    → ℕ
    → ℕ
    → ℕ
    → Database
    → Option (Result (MapEdge × Database))
declare_source_change any_of fuel new bv parent child part db =
    unless_cycle (would_create_cycle fuel db.edges parent child)
      (declare_new_source any_of new bv parent child part db)

abbrev pub status_of : Bool → VerificationStatus
status_of b = if b then verified else unverified

-- The edges of a version that lead to a supplier
abbrev pub is_in : ℕ → ℕ → MapEdge → Bool
is_in bv supplier e = e.bom_version_id == bv && is_same e.child_supplier_id supplier

abbrev pub marked : Bool → MapEdge → MapEdge
marked done e = record e { verification_status = status_of done }

-- The service of this name commits, and answers with the number of rows.
unfoldable pub set_supplier_verification : ℕ → ℕ → Bool → Database → ℕ × Database
set_supplier_verification bv child done db = (
  count_if (is_in bv child) db.edges,
  record db { edges = update_where (is_in bv child) (marked done) db.edges },
)

-- `child_supplier_id = :invitee AND discovered_via IS NULL`
abbrev pub is_undiscovered : ℕ → MapEdge → Bool
is_undiscovered invitee e = is_same e.child_supplier_id invitee && not (is_some e.discovered_via)

abbrev pub discovered : ℕ → MapEdge → MapEdge
discovered inviter e = record e { discovered_via = some inviter }

unfoldable pub record_discovered_via : ℕ → ℕ → Database → ℕ × Database
record_discovered_via invitee inviter db = (
  count_if (is_undiscovered invitee) db.edges,
  record db { edges = update_where (is_undiscovered invitee) (discovered inviter) db.edges },
)

abbrev pub add_new : ℕ → List ℕ → List ℕ
add_new v vs = if contains vs v then vs else v ∷ vs

-- `SELECT DISTINCT` with the `NOT EXISTS`, over the rows `es` of the table `all`
unfoldable pub unconnected : List MapEdge → ℕ → ℕ → List MapEdge → List ℕ
unconnected all parent child [] = []
unconnected all parent child (e ∷ es) =
    let rest = unconnected all parent child es in
    if is_same e.child_supplier_id parent && not (any (is_in e.bom_version_id child) all)
    then add_new e.bom_version_id rest
    else rest

unfoldable pub get_unconnected_parent_bom_versions : ℕ → ℕ → Database → List ℕ
unfolding unconnected
get_unconnected_parent_bom_versions parent child db = unconnected db.edges parent child db.edges

-- `except Exception` goes on with the next version.
abbrev pub after_connect {ℓ} :
    {X : Type ℓ}
    → Option (Result (Connection × Database))
    → Database
    → ℕ
    → (Database → List ℕ → Option X)
    → Option X
after_connect none db bv k = none
after_connect (some (err e)) db bv k = k db []
after_connect (some (ok (c, db'))) db bv k = k db' (bv ∷ [])

abbrev pub put_first : List ℕ → Option (List ℕ × Database) → Option (List ℕ × Database)
put_first done none = none
put_first done (some (rest, db)) = some (done ++ rest, db)

-- The loop over the versions: the fuel of each check is a function of the edges that it searches.
unfoldable pub connect_all :
    (List MapEdge → ℕ) → (ℕ → Fresh) → ℕ → ℕ → List ℕ → Database → Option (List ℕ × Database)
unfolding connect_child_supplier
connect_all fuel news inviter invitee [] db = some ([], db)
connect_all fuel news inviter invitee (bv ∷ bvs) db =
    after_connect (connect_child_supplier (fuel db.edges) (news bv) bv inviter invitee db) db bv
      (λ db' done. put_first done (connect_all fuel news inviter invitee bvs db'))

-- `supplychain_record_discovered_via`, with the versions it connects as its log has them.
unfoldable pub on_supplier_invited :
    (List MapEdge → ℕ) → (ℕ → Fresh) → Option ℕ → Option ℕ → Database → Option (List ℕ × Database)
unfolding record_discovered_via connect_all get_unconnected_parent_bom_versions
on_supplier_invited fuel news (some invitee) (some inviter) db =
    let (updated, db') = record_discovered_via invitee inviter db in
    if updated == 0
    then connect_all fuel news inviter invitee
        (get_unconnected_parent_bom_versions inviter invitee db') db'
    else some ([], db')
on_supplier_invited fuel news _ _ db = some ([], db)
