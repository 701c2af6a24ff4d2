-- ===== src/SupplyChain/Relations/Calls.antt =====
-- The answers of the services of backend/domains/supplychain/service.py that add an edge after a
-- check.
use kira_backend.Prelude.{
  some-injective, ℕ, ◌+◌, ◌≤◌, ◌<◌, ◌≡◌, refl, sym, ap, ◌∙◌, subst, ◌≢◌, inl, inr, Bool, true,
  false, ◌&&◌, Option, none, some, List, [], ◌∷◌, ◌++◌, arith, ◌==◌, nat_eq, string_eq, option_eq,
  value_error, integrity_error, cycle_error, ok, err, IfReturns, IfReturns-ok, ltb, nat_beq,
  nat_beq_iff, if◌then◌else◌, Bool-cases, Option-cases, Result-cases, is_some, length, any, filter,
  find?, length-append, any-append,
}
use Prim.Native.String.{◌++◌ as str_append}
use kira_backend.SupplyChain.Levels.{IsNextLevel, hop_below-IsNextLevel}
use kira_backend.SupplyChain.{
  Part, tier_below, latest_part, leads_to, company_of, parent_part, has_part, references, MapEdge,
  Database, Fresh, lookup, ensure_map_header, hop_below, create_supply_relation,
  get_or_create_child_part, edge_exists, is_edge,
}
use kira_backend.SupplyChain.Search.{Below, step, Acyclic, joins}
use kira_backend.SupplyChain.Cycle.{would_create_cycle_decides, Acyclic-append}
use kira_backend.SupplyChain.Relations.{
  register_relation, Connection, already_connected, created, create_connection,
  connect_child_supplier,
}

-- The header leaves the edges as they are.
pub ensure_map_header-edges :
    (new : Fresh) (bv : ℕ) (db : Database)
    → IfReturns
        (λ r.
          (r.1.edges ≡ db.edges)
          × (r.1.bom_versions ≡ db.bom_versions)
          × (r.1.suppliers ≡ db.suppliers)
          × (r.1.parts ≡ db.parts))
        (ensure_map_header new bv db)
unfolding ensure_map_header
ensure_map_header-edges new bv db = ground arith

-- What a new row is: `row` is added at the end.
abbrev pub Adds : ℕ → Option ℕ → ℕ → Database → MapEdge → Database → Type 0
Adds bv parent child db row db' =
    (db'.edges ≡ db.edges ++ row ∷ [])
    × (row.parent_supplier_id ≡ parent)
    × (row.child_supplier_id ≡ some child)
    × (row.bom_version_id ≡ bv)
    × (db'.bom_versions ≡ db.bom_versions)
    × (db'.suppliers ≡ db.suppliers)

-- Rows without a parent, and only they, have hop level 0, and no row is without a level.
abbrev pub is_level : MapEdge → Bool
is_level e = elim e.hop_level [
  | none ↦ false
  | some h ↦ if is_some e.parent_supplier_id then ltb 0 h else h == 0
]

pub create_supply_relation-Adds :
    (new : Fresh) (bv : ℕ) (parent : Option ℕ) (child part : ℕ) (via : Option ℕ) (db : Database)
    → IfReturns
        (λ r.
          Adds bv parent child db r.0 r.1
          × (r.0.hop_level ≡ some (hop_below bv parent db.edges))
          × (r.0.discovered_via ≡ via))
        (create_supply_relation new bv parent child part via db)
unfolding create_supply_relation
create_supply_relation-Adds new bv parent child part via db =
    ground (arith, ensure_map_header-edges new bv db)

pub ensure_map_header-returns :
    (new : Fresh) (bv : ℕ) (db : Database)
    → is_some (lookup bv db.bom_versions) ≡ true
    → (r : ℕ × Database) × (ensure_map_header new bv db ≡ ok r)
unfolding ensure_map_header
ensure_map_header-returns new bv db h = elim (Result-cases (ensure_map_header new bv db)) [
  | inl found ↦ found
  | inr (why, e) ↦ absurd (ground arith)
]

pub references-same :
    (db db' : Database) (parent : Option ℕ) (child part : ℕ) (via : Option ℕ)
    → db'.suppliers ≡ db.suppliers
    → db'.parts ≡ db.parts
    → references db' parent child part via ≡ references db parent child part via
references-same db db' none child part none s p = rw (s, p) refl
references-same db db' (some a) child part none s p = rw (s, p) refl
references-same db db' none child part (some b) s p = rw (s, p) refl
references-same db db' (some a) child part (some b) s p = rw (s, p) refl

-- Without a row that the foreign keys refer to, the insert raises.
create_supply_relation-refused :
    (new : Fresh) (bv : ℕ) (parent : Option ℕ) (child part : ℕ) (via : Option ℕ) (db : Database)
    → is_some (lookup bv db.bom_versions) ≡ true
    → references db parent child part via ≡ false
    → create_supply_relation new bv parent child part via db ≡ err integrity_error
unfolding create_supply_relation
create_supply_relation-refused new bv parent child part via db h k =
    let ((header, db'), e) = ensure_map_header-returns new bv db h in
    let (_, _, suppliers, parts) =
      IfReturns-ok _ _ (header, db') (ensure_map_header-edges new bv db) e in
    let gone : references db' parent child part via ≡ false =
      references-same db db' parent child part via suppliers parts ∙ k in
    rw (e, gone) refl

create_supply_relation-returns :
    (new : Fresh) (bv : ℕ) (parent : Option ℕ) (child part : ℕ) (via : Option ℕ) (db : Database)
    → is_some (lookup bv db.bom_versions) ≡ true
    → references db parent child part via ≡ true
    → (row : MapEdge) × (db' : Database) × (create_supply_relation new bv parent child part via db
        ≡ ok (row, db'))
      × Adds bv parent child db row db'
      × (row.hop_level ≡ some (hop_below bv parent db.edges))
      × (row.discovered_via ≡ via)
unfolding create_supply_relation
create_supply_relation-returns new bv parent child part via db h k =
    let result = create_supply_relation new bv parent child part via db in
    elim (Result-cases result) [
      | inl ((row, db'), e) ↦
          let (adds, hop, found) =
            IfReturns-ok _ result (row, db')
              (create_supply_relation-Adds new bv parent child part via db) e in
          (row, db', e, adds, hop, found)
      | inr (why, e) ↦
          let ((header, db1), made) = ensure_map_header-returns new bv db h in
          let (_, _, suppliers, parts) =
            IfReturns-ok _ _ (header, db1) (ensure_map_header-edges new bv db) made in
          let there : references db1 parent child part via ≡ true =
            references-same db db1 parent child part via suppliers parts ∙ k in
          absurd (cc (rw (made, there) at e))
    ]

-- With fuel above the number of edges, over edges without a cycle, and for a known version:
-- registering a relation raises ValueError for a supplier under itself, and the cycle error exactly
-- for a parent that is below its child; else, where parent, child or part is unknown, the insert
-- raises IntegrityError, and where all are known it adds one edge, whose hop level is one more than
-- the least at which edges of the version lead to the parent, or 1 where none does.
pub register_relation_outcomes :
    (fuel : ℕ) (new : Fresh) (bv p child part : ℕ) (db : Database)
    → Acyclic db.edges
    → length db.edges < fuel
    → is_some (lookup bv db.bom_versions) ≡ true
    → (p ≡ child → register_relation fuel new bv (some p) child part db ≡ some (err value_error))
      × (p ≢ child
          → Below db.edges child p
          → register_relation fuel new bv (some p) child part db ≡ some (err cycle_error))
      × (p ≢ child
          → ¬ Below db.edges child p
          → (is_some (lookup p db.suppliers)
              && is_some (lookup child db.suppliers)
              && any (has_part part) db.parts)
            ≡ false
          → register_relation fuel new bv (some p) child part db ≡ some (err integrity_error))
      × (p ≢ child
          → ¬ Below db.edges child p
          → is_some (lookup p db.suppliers) ≡ true
          → is_some (lookup child db.suppliers) ≡ true
          → any (has_part part) db.parts ≡ true
          → (row : MapEdge) × (db' : Database) × (n : ℕ) × (register_relation fuel new bv
                (some p)
                child
                part
                db
              ≡ some (ok (row, db')))
            × Adds bv (some p) child db row db'
            × (row.hop_level ≡ some n)
            × IsNextLevel bv p db.edges n
            × (row.discovered_via ≡ none))
unfolding register_relation
register_relation_outcomes fuel new bv p child part db acyclic h known = (
  λ same. ground (arith, nat_beq_iff p child),
  λ differ b. elim (would_create_cycle_decides db.edges acyclic fuel p child h) [
    | inl (e, _) ↦ ground (arith, nat_beq_iff p child)
    | inr (e, n) ↦ absurd (n b)
  ],
  λ differ n unknown. elim (would_create_cycle_decides db.edges acyclic fuel p child h) [
    | inl (e, b) ↦ absurd (n b)
    | inr (e, _) ↦
        let r =
          create_supply_relation-refused new bv (some p) child part none db known (ground arith) in
        ground (arith, nat_beq_iff p child)
  ],
  λ differ n a b c. elim (would_create_cycle_decides db.edges acyclic fuel p child h) [
    | inl (e, below) ↦ absurd (n below)
    | inr (e, _) ↦
        let (row, db', r, adds, hop, via) =
          create_supply_relation-returns new bv (some p) child part none db known (ground arith) in
        (
          row,
          db',
          hop_below bv (some p) db.edges,
          ground (arith, nat_beq_iff p child),
          adds,
          hop,
          hop_below-IsNextLevel bv p db.edges,
          via,
        )
  ],
)

-- The new part is no edge.
get_or_create_child_part-edges :
    (new : Fresh) (bv parent child : ℕ) (db : Database)
    → ((get_or_create_child_part new bv parent child db).1.edges ≡ db.edges)
      × ((get_or_create_child_part new bv parent child db).1.bom_versions ≡ db.bom_versions)
      × ((get_or_create_child_part new bv parent child db).1.suppliers ≡ db.suppliers)
unfolding get_or_create_child_part
get_or_create_child_part-edges new bv parent child db = ground arith

found-has_part :
    (q : Part → Bool) (ps : List Part) {part : Part}
    → find? q ps ≡ some part
    → any (has_part part.part_id) ps ≡ true
found-has_part q [] h = cc
found-has_part q (r ∷ ps) {part} h = elim (Bool-cases (q r)) [
  | inl this ↦
      let same : r ≡ part = some-injective (rw this at h) in
      let own : nat_beq r.part_id part.part_id ≡ true =
        (nat_beq_iff r.part_id part.part_id).1 (ap (λ (x : Part). x.part_id) same) in
      rw own refl
  | inr other ↦ let later = found-has_part q ps {part = part} (rw other at h) in ground arith
]

-- The part that it answers with is in the table.
get_or_create_child_part-has_part :
    (new : Fresh) (bv parent child : ℕ) (db : Database)
    → (let (part, db') = get_or_create_child_part new bv parent child db in
        any (has_part part) db'.parts ≡ true)
unfolding get_or_create_child_part
get_or_create_child_part-has_part new bv parent child db =
    let row = latest_part db.parts (filter (leads_to bv parent) db.edges) in
    let name = str_append (company_of (lookup child db.suppliers)) " 공급 부품" in
    let wanted : Part → Bool = λ p. p.part_name == name && p.parent_part_id == parent_part row in
    let result : ℕ × Database = get_or_create_child_part new bv parent child db in
    let kept : ℕ × Database → Type 0 = λ r. any (has_part r.0) r.1.parts ≡ true in
    elim (Option-cases (find? wanted db.parts)) [
      | inl missing ↦
          let part : Part = record {
            part_id = new.part_id;
            part_code = new.part_code;
            part_name = name;
            tier_level = some (tier_below row);
            parent_part_id = parent_part row;
          } in
          let same : result ≡ (new.part_id, record db { parts = db.parts ++ part ∷ [] }) =
            rw (missing, get_or_create_child_part) refl in
          subst kept (sym same) (
            any-append (has_part new.part_id) db.parts (part ∷ [])
            ∙ ground (arith, nat_beq_iff new.part_id new.part_id))
      | inr (p, found) ↦
          let same : result ≡ (p.part_id, db) = rw (found, get_or_create_child_part) refl in
          subst kept (sym same) (found-has_part wanted db.parts {part = p} found)
    ]

pub create_connection-Adds :
    (new : Fresh) (bv parent child : ℕ) (db : Database)
    → IfReturns
        (λ r.
          (row : MapEdge) × (r.0 ≡ created row)
          × Adds bv (some parent) child db row r.1
          × (row.hop_level ≡ some (hop_below bv (some parent) db.edges))
          × (row.discovered_via ≡ some parent))
        (create_connection new bv parent child db)
unfolding create_connection
create_connection-Adds new bv parent child db =
    let (part, db1) = get_or_create_child_part new bv parent child db in
    ground (
      arith,
      get_or_create_child_part-edges new bv parent child db,
      create_supply_relation-Adds new bv (some parent) child part (some parent) db1,
      Result-cases (create_supply_relation new bv (some parent) child part (some parent) db1),
    )

create_connection-returns :
    (new : Fresh) (bv parent child : ℕ) (db : Database)
    → is_some (lookup bv db.bom_versions) ≡ true
    → is_some (lookup parent db.suppliers) ≡ true
    → is_some (lookup child db.suppliers) ≡ true
    → (r : Connection × Database) × (create_connection new bv parent child db ≡ ok r)
unfolding create_connection
create_connection-returns new bv parent child db h above below =
    let (part, db1) = get_or_create_child_part new bv parent child db in
    let (_, kept, suppliers) = get_or_create_child_part-edges new bv parent child db in
    let made = get_or_create_child_part-has_part new bv parent child db in
    let above' : is_some (lookup parent db1.suppliers) ≡ true = rw suppliers above in
    let below' : is_some (lookup child db1.suppliers) ≡ true = rw suppliers below in
    let known : is_some (lookup bv db1.bom_versions) ≡ true = rw kept h in
    let (row, db', e, adds, hop, via) =
      create_supply_relation-returns new bv (some parent) child part (some parent) db1 known
        (ground arith) in
    ((created row, db'), rw e refl)

-- An edge that closes no cycle
abbrev pub Fits : ℕ → ℕ → Database → Type 0
Fits p c db = (p ≢ c) × ¬ Below db.edges c p

pub Adds-Acyclic :
    (bv p c : ℕ) (db : Database) (row : MapEdge) (db' : Database)
    → Adds bv (some p) c db row db'
    → Fits p c db
    → Acyclic db.edges
    → Acyclic db'.edges
Adds-Acyclic bv p c db row db' adds fits acyclic =
    rw adds.0 (Acyclic-append db.edges row p c adds.1 adds.2 fits.0 fits.1 acyclic)

pub is_edge-Adds :
    (bv p c : ℕ) (db : Database) (row : MapEdge) (db' : Database)
    → Adds bv (some p) c db row db'
    → edge_exists bv p c db' ≡ true
unfolding edge_exists
is_edge-Adds bv p c db row db' adds = ground (
  arith,
  any-append (is_edge bv p c) db.edges (row ∷ []),
  nat_beq_iff p p,
  nat_beq_iff c c,
  nat_beq_iff bv bv,
)

pub edge_exists-joins :
    (bv p c : ℕ) (es : List MapEdge) → any (is_edge bv p c) es ≡ true → any (joins p c) es ≡ true
edge_exists-joins bv p c [] h = cc
edge_exists-joins bv p c (e ∷ es) h = ground (arith, edge_exists-joins bv p c es)

-- An edge that is there already
connect_again :
    (fuel : ℕ) (new : Fresh) (bv p c : ℕ) (db : Database)
    → Acyclic db.edges
    → p ≢ c
    → length db.edges < fuel
    → edge_exists bv p c db ≡ true
    → connect_child_supplier fuel new bv p c db ≡ some (ok (already_connected, db))
unfolding connect_child_supplier edge_exists
connect_again fuel new bv p c db acyclic differ h there =
    elim (would_create_cycle_decides db.edges acyclic fuel p c h) [
      | inl (e, b) ↦ absurd (acyclic p (step (edge_exists-joins bv p c db.edges there) b))
      | inr (e, n) ↦ ground (arith, nat_beq_iff p c)
    ]

-- The rows that are there stay, and one comes in at most.
abbrev pub Grows : Database → Database → Type 0
Grows db db' =
    ((q : MapEdge → Bool) → any q db.edges ≡ true → any q db'.edges ≡ true)
    × (length db'.edges ≤ length db.edges + 1)
    × (db'.bom_versions ≡ db.bom_versions)
    × (db'.suppliers ≡ db.suppliers)

Adds-Grows :
    (bv : ℕ) (p : Option ℕ) (c : ℕ) (db : Database) (row : MapEdge) (db' : Database)
    → Adds bv p c db row db'
    → Grows db db'
Adds-Grows bv p c db row db' adds = (
  λ q h. rw adds.0 (ground (arith, any-append q db.edges (row ∷ []))),
  omega (arith, ap length adds.0, length-append db.edges (row ∷ [])),
  adds.4,
  adds.5,
)

-- Connecting a supplier where that closes no cycle
pub connect_returns :
    (fuel : ℕ) (new : Fresh) (bv p c : ℕ) (db : Database)
    → Acyclic db.edges
    → Fits p c db
    → length db.edges < fuel
    → is_some (lookup bv db.bom_versions) ≡ true
    → is_some (lookup p db.suppliers) ≡ true
    → is_some (lookup c db.suppliers) ≡ true
    → (answer : Connection) × (db' : Database) × (connect_child_supplier fuel new bv p c db
        ≡ some (ok (answer, db')))
      × (edge_exists bv p c db' ≡ true)
      × Acyclic db'.edges
      × ((q : MapEdge → Bool) → any q db.edges ≡ true → any q db'.edges ≡ true)
      × (length db'.edges ≤ length db.edges + 1)
      × (db'.bom_versions ≡ db.bom_versions)
      × (db'.suppliers ≡ db.suppliers)
unfolding connect_child_supplier
connect_returns fuel new bv p c db acyclic fits h known above below =
    elim (Bool-cases (edge_exists bv p c db)) [
      | inl there ↦ (
        already_connected,
        db,
        connect_again fuel new bv p c db acyclic fits.0 h there,
        there,
        acyclic,
        λ q e. e,
        omega arith,
        refl,
        refl,
      )
      | inr absent ↦
          let ((answer, db'), e) = create_connection-returns new bv p c db known above below in
          let (row, made, adds, hop, via) =
            IfReturns-ok _ _ (answer, db') (create_connection-Adds new bv p c db) e in
          let (stay, at_most, versions, suppliers) = Adds-Grows bv (some p) c db row db' adds in
          (
            answer,
            db',
            elim (would_create_cycle_decides db.edges acyclic fuel p c h) [
              | inl (_, b) ↦ absurd (fits.1 b)
              | inr (no_cycle, _) ↦ ground (arith, nat_beq_iff p c)
            ],
            is_edge-Adds bv p c db row db' adds,
            Adds-Acyclic bv p c db row db' adds fits acyclic,
            stay,
            at_most,
            versions,
            suppliers,
          )
    ]

-- Over edges without a cycle, and with the fuel above their number: connecting a supplier that
-- closes no cycle, in a known version and between known suppliers, returns; the edge is there afterwards and there is no cycle;
-- and the same call again, with any keys and fuel above the new number of edges, answers
-- `already_connected` and changes nothing.
pub connect_child_supplier_twice :
    (fuel fuel' : ℕ) (new new' : Fresh) (bv p c : ℕ) (db : Database)
    → Acyclic db.edges
    → Fits p c db
    → length db.edges < fuel
    → length db.edges + 1 < fuel'
    → is_some (lookup bv db.bom_versions) ≡ true
    → is_some (lookup p db.suppliers) ≡ true
    → is_some (lookup c db.suppliers) ≡ true
    → (answer : Connection) × (db' : Database) × (connect_child_supplier fuel new bv p c db
        ≡ some (ok (answer, db')))
      × (edge_exists bv p c db' ≡ true)
      × Acyclic db'.edges
      × (connect_child_supplier fuel' new' bv p c db' ≡ some (ok (already_connected, db')))
connect_child_supplier_twice fuel fuel' new new' bv p c db acyclic fits h h' known above below =
    let (answer, db', e, there, acyclic', stay, at_most, versions, _) =
      connect_returns fuel new bv p c db acyclic fits h known above below in
    (
      answer,
      db',
      e,
      there,
      acyclic',
      connect_again fuel' new' bv p c db' acyclic' fits.0 (omega arith) there,
    )
