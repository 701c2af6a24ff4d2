-- ===== src/SupplyChain/Relations/Runs.antt =====
-- Runs of the services that write the supply chain: every call ends, and no cycle comes to be.
use kira_backend.Prelude.{
  ℕ, suc, ◌<◌, ◌≡◌, refl, subst, ◌≢◌, inl, inr, Bool, true, Option, none, some, List, [], ◌∷◌, ◌++◌,
  map, arith, nat_eq, string_eq, option_eq, Result, ok, err, IfReturns, IfReturns-ok, ltb, nat_beq,
  nat_beq_iff, Bool-cases, Option-cases, Result-cases, length, All, all, filter, update_where,
}
use kira_backend.SupplyChain.{
  MapEdge, Database, Fresh, would_create_cycle, hop_below, least, leads_to, create_supply_relation,
  declare_new_source, edge_exists,
}
use kira_backend.SupplyChain.Search.{Below, Acyclic}
use kira_backend.SupplyChain.Cycle.{
  would_create_cycle_decides, Below-same, joins-append_root, joins-update,
}
use kira_backend.SupplyChain.Relations.{
  unless_cycle, register_relation, create_connection, connect_child_supplier, declare_source_change,
  set_supplier_verification, record_discovered_via, is_undiscovered, discovered, is_in, marked,
}
use kira_backend.SupplyChain.Relations.Calls.{
  Adds, is_level, Fits, Adds-Acyclic, create_supply_relation-Adds, create_connection-Adds,
}
use kira_backend.SupplyChain.Relations.Declared.{declare_new_source-Adds}

-- A call of a service. `declare` has the choice of LIMIT 1 with it.
pub data Call : Type 0 where
  register : Fresh → ℕ → Option ℕ → ℕ → ℕ → Call
  connect : Fresh → ℕ → ℕ → ℕ → Call
  declare : (List MapEdge → Option MapEdge) → Fresh → ℕ → ℕ → ℕ → ℕ → Call
  verify : ℕ → ℕ → Bool → Call
  discover : ℕ → ℕ → Call

-- The one test that the code leaves out: a source is not declared under itself.
abbrev pub IsSound : Call → Type 0
IsSound (declare any_of new bv p c part) = p ≢ c
IsSound _ = Unit

-- What is committed: nothing by a call that raises.
abbrev pub committed {ℓ} :
    {X : Type ℓ} → Database → Option (Result (X × Database)) → Option Database
committed db none = none
committed db (some (err e)) = some db
committed db (some (ok (x, db'))) = some db'

pub call : ℕ → Call → Database → Option Database
unfolding register_relation connect_child_supplier declare_source_change set_supplier_verification
    record_discovered_via
call fuel (register new bv p c part) db = committed db (register_relation fuel new bv p c part db)
call fuel (connect new bv p c) db = committed db (connect_child_supplier fuel new bv p c db)
call fuel (declare any_of new bv p c part) db =
    committed db (declare_source_change any_of fuel new bv p c part db)
call fuel (verify bv c done) db = some (set_supplier_verification bv c done db).1
call fuel (discover invitee inviter) db = some (record_discovered_via invitee inviter db).1

-- Each call has fuel for one step more than there are edges.
abbrev pub and_then : Option Database → (Database → Option Database) → Option Database
and_then none k = none
and_then (some db) k = k db

pub run : List Call → Database → Option Database
unfolding call
run [] db = some db
run (c ∷ cs) db = and_then (call (suc (length db.edges)) c db) (run cs)

-- No cycle, and levels as they should be
abbrev pub IsSoundMap : Database → Type 0
IsSoundMap db = Acyclic db.edges × (all is_level db.edges ≡ true)

all-append :
    (es : List MapEdge) (e : MapEdge)
    → all is_level es ≡ true
    → is_level e ≡ true
    → all is_level (es ++ e ∷ []) ≡ true
all-append [] e h k = ground arith
all-append (x ∷ es) e h k = ground (arith, all-append es e)

all-update :
    (p : MapEdge → Bool) (f : MapEdge → MapEdge)
    → ((e : MapEdge) → is_level (f e) ≡ is_level e)
    → (es : List MapEdge) → all is_level es ≡ true
    → all is_level (update_where p f es) ≡ true
all-update p f keep [] h = refl
all-update p f keep (e ∷ es) h = ground (arith, keep e, all-update p f keep es)

Adds-IsSoundMap :
    (bv p c : ℕ) (db : Database) (row : MapEdge) (db' : Database)
    → Adds bv (some p) c db row db'
    → is_level row ≡ true
    → Fits p c db
    → IsSoundMap db
    → IsSoundMap db'
Adds-IsSoundMap bv p c db row db' adds level fits h =
    (Adds-Acyclic bv p c db row db' adds fits h.0, rw adds.0 (all-append db.edges row h.1 level))

AddsRoot-IsSoundMap :
    (bv c : ℕ) (db : Database) (row : MapEdge) (db' : Database)
    → Adds bv none c db row db'
    → is_level row ≡ true
    → IsSoundMap db
    → IsSoundMap db'
AddsRoot-IsSoundMap bv c db row db' adds level h = (
  λ x b. h.0 x (
      Below-same db.edges (db.edges ++ row ∷ []) (joins-append_root db.edges row adds.1)
        (subst (λ es. Below es x x) adds.0 b)),
  rw adds.0 (all-append db.edges row h.1 level),
)

update-IsSoundMap :
    (p : MapEdge → Bool) (f : MapEdge → MapEdge)
    → ((e : MapEdge)
        → ((f e).parent_supplier_id ≡ e.parent_supplier_id)
          × ((f e).child_supplier_id ≡ e.child_supplier_id))
    → ((e : MapEdge) → is_level (f e) ≡ is_level e)
    → (db : Database) → IsSoundMap db
    → IsSoundMap (record db { edges = update_where p f db.edges })
update-IsSoundMap p f keep level db h = (
  λ x b. h.0 x (Below-same db.edges _ (joins-update p f keep db.edges) b),
  all-update p f level db.edges h.1,
)

-- What a committed call leaves
abbrev Leaves : Option Database → Type 0
Leaves o = (db' : Database) × (o ≡ some db') × IsSoundMap db'

committed-Leaves {ℓ} :
    {X : Type ℓ} (db : Database) (r : Result (X × Database))
    → IsSoundMap db
    → IfReturns (λ x. IsSoundMap x.1) r
    → Leaves (committed db (some r))
committed-Leaves db (err e) h k = (db, refl, h)
committed-Leaves db (ok (x, db')) h k = (db', refl, k)

-- After a check with enough fuel the call ends, and adds its edge only where that fits.
checked-Leaves {ℓ} :
    {X : Type ℓ} (fuel p c : ℕ) (db : Database) (r : Result (X × Database))
    → length db.edges < fuel
    → IsSoundMap db
    → (¬ Below db.edges c p → IfReturns (λ x. IsSoundMap x.1) r)
    → Leaves (committed db (unless_cycle (would_create_cycle fuel db.edges p c) r))
checked-Leaves fuel p c db r h sound k =
    elim (would_create_cycle_decides db.edges sound.0 fuel p c h) [
      | inl (e, b) ↦ rw e (db, refl, sound)
      | inr (e, n) ↦ rw e (committed-Leaves db r sound (k n))
    ]

hop_below-is_level : (bv p : ℕ) (es : List MapEdge) → ltb 0 (hop_below bv (some p) es) ≡ true
unfolding hop_below
hop_below-is_level bv p es =
    elim (Option-cases (least (map (λ (e : MapEdge). e.hop_level) (filter (leads_to bv p) es)))) [
      | inl unknown ↦ rw unknown refl
      | inr (h, e) ↦ rw e (ground arith)
    ]

-- A created row, of either kind of parent
created-IsSoundMap :
    (new : Fresh) (bv p c part : ℕ) (via : Option ℕ) (db : Database)
    → Fits p c db
    → IsSoundMap db
    → IfReturns (λ r. IsSoundMap r.1) (create_supply_relation new bv (some p) c part via db)
created-IsSoundMap new bv p c part via db fits h =
    let facts = create_supply_relation-Adds new bv (some p) c part via db in
    elim (Result-cases (create_supply_relation new bv (some p) c part via db)) [
      | inl ((row, db'), e) ↦
          let (adds, hop, found) = IfReturns-ok _ _ (row, db') facts e in
          rw e (
            Adds-IsSoundMap bv p c db row db' adds
              (ground (arith, hop_below-is_level bv p db.edges)) fits h)
      | inr (why, e) ↦ rw e tt
    ]

root-IsSoundMap :
    (new : Fresh) (bv c part : ℕ) (db : Database)
    → IsSoundMap db
    → IfReturns (λ r. IsSoundMap r.1) (create_supply_relation new bv none c part none db)
unfolding hop_below
root-IsSoundMap new bv c part db h =
    let facts = create_supply_relation-Adds new bv none c part none db in
    elim (Result-cases (create_supply_relation new bv none c part none db)) [
      | inl ((row, db'), e) ↦
          let (adds, hop, found) = IfReturns-ok _ _ (row, db') facts e in
          rw e (AddsRoot-IsSoundMap bv c db row db' adds (ground arith) h)
      | inr (why, e) ↦ rw e tt
    ]

connected-IsSoundMap :
    (new : Fresh) (bv p c : ℕ) (db : Database)
    → Fits p c db
    → IsSoundMap db
    → IfReturns (λ r. IsSoundMap r.1) (create_connection new bv p c db)
connected-IsSoundMap new bv p c db fits h =
    let facts = create_connection-Adds new bv p c db in
    elim (Result-cases (create_connection new bv p c db)) [
      | inl ((answer, db'), e) ↦
          let (row, made, adds, hop, found) = IfReturns-ok _ _ (answer, db') facts e in
          rw e (
            Adds-IsSoundMap bv p c db row db' adds
              (ground (arith, hop_below-is_level bv p db.edges)) fits h)
      | inr (why, e) ↦ rw e tt
    ]

declared-IsSoundMap :
    (any_of : List MapEdge → Option MapEdge) (new : Fresh) (bv p c part : ℕ) (db : Database)
    → Fits p c db
    → IsSoundMap db
    → IfReturns (λ r. IsSoundMap r.1) (declare_new_source any_of new bv p c part db)
declared-IsSoundMap any_of new bv p c part db fits h =
    let facts = declare_new_source-Adds any_of new bv p c part db in
    elim (Result-cases (declare_new_source any_of new bv p c part db)) [
      | inl ((row, db'), e) ↦
          let (adds, level) = IfReturns-ok _ _ (row, db') facts e in
          rw e (Adds-IsSoundMap bv p c db row db' adds level fits h)
      | inr (why, e) ↦ rw e tt
    ]

call-IsSoundMap :
    (fuel : ℕ) (c : Call) (db : Database)
    → IsSound c
    → length db.edges < fuel
    → IsSoundMap db
    → Leaves (call fuel c db)
unfolding call register_relation connect_child_supplier declare_source_change
    set_supplier_verification record_discovered_via
call-IsSoundMap fuel (register new bv none c part) db s h sound =
    committed-Leaves db _ sound (root-IsSoundMap new bv c part db sound)
call-IsSoundMap fuel (register new bv (some p) c part) db s h sound =
    elim (Bool-cases (nat_beq p c)) [
      | inl same ↦ rw same (db, refl, sound)
      | inr differ ↦
          let differ' : p ≢ c = ground (arith, nat_beq_iff p c) in
          rw differ (
            checked-Leaves fuel p c db _ h sound
              (λ n. created-IsSoundMap new bv p c part none db (differ', n) sound))
    ]
call-IsSoundMap fuel (connect new bv p c) db s h sound = elim (Bool-cases (nat_beq p c)) [
  | inl same ↦ rw same (db, refl, sound)
  | inr differ ↦
      let differ' : p ≢ c = ground (arith, nat_beq_iff p c) in
      rw differ (
        checked-Leaves fuel p c db _ h sound (λ n. elim (Bool-cases (edge_exists bv p c db)) [
          | inl there ↦ rw there sound
          | inr absent ↦ rw absent (connected-IsSoundMap new bv p c db (differ', n) sound)
        ]))
]
call-IsSoundMap fuel (declare any_of new bv p c part) db s h sound =
    checked-Leaves fuel p c db _ h sound
      (λ n. declared-IsSoundMap any_of new bv p c part db (s, n) sound)
call-IsSoundMap fuel (verify bv c done) db s h sound =
    (_, refl, update-IsSoundMap (is_in bv c) (marked done) (λ e. (refl, refl)) (λ e. refl) db sound)
call-IsSoundMap fuel (discover invitee inviter) db s h sound = (
  _,
  refl,
  update-IsSoundMap (is_undiscovered invitee) (discovered inviter) (λ e. (refl, refl)) (λ e. refl)
      db sound,
)

-- From edges without a cycle, of which those without a parent and only they have hop level 0: every
-- list of calls ends with one step of fuel more than there are edges, whatever they raise, and
-- leaves edges of that kind, if no source is declared under itself.
pub run-IsSoundMap :
    (cs : List Call) (db : Database)
    → All IsSound cs
    → IsSoundMap db
    → (db' : Database) × (run cs db ≡ some db') × IsSoundMap db'
unfolding run
run-IsSoundMap [] db s h = (db, refl, h)
run-IsSoundMap (c ∷ cs) db s h =
    let (db', e, h') = call-IsSoundMap (suc (length db.edges)) c db s.0 (omega arith) h in
    let (db'', e', h'') = run-IsSoundMap cs db' s.1 h' in (db'', rw e e', h'')
