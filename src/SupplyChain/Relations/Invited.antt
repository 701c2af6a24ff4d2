-- ===== src/SupplyChain/Relations/Invited.antt =====
-- The handler of SupplierInvited, backend/handlers/supplier_invited.py.
use kira_backend.Prelude.{
  ℕ, ◌<◌, ◌≡◌, refl, sym, ◌∙◌, subst, inl, inr, Bool, true, not, ◌&&◌, ◌||◌, some, List, [], ◌∷◌,
  arith, ◌==◌, nat_eq, string_eq, option_eq, contains, nat_beq, nat_beq_iff, Bool-cases, is_some,
  length, All, any, count_if, update_where,
}
use kira_backend.SupplyChain.{MapEdge, Database, Fresh, lookup, edge_exists, is_edge}
use kira_backend.SupplyChain.Search.{Below, step, Acyclic}
use kira_backend.SupplyChain.Relations.{
  record_discovered_via, is_undiscovered, discovered, is_in, unconnected, add_new,
  get_unconnected_parent_bom_versions, connect_all, on_supplier_invited,
}
use kira_backend.SupplyChain.Relations.Calls.{Fits, connect_returns, edge_exists-joins}

module _ (invitee inviter : ℕ) where
  again :
      (es : List MapEdge)
      → (count_if
            (is_undiscovered invitee)
            (update_where (is_undiscovered invitee) (discovered inviter) es)
          ≡ 0)
  again [] = refl
  again (e ∷ es) = ground (arith, again es)

  -- What the second call does to the rows, whoever it names
  fixed :
      (other : ℕ) (es : List MapEdge)
      → update_where
          (is_undiscovered invitee)
          (discovered other)
          (update_where (is_undiscovered invitee) (discovered inviter) es)
        ≡ update_where (is_undiscovered invitee) (discovered inviter) es
  fixed other [] = refl
  fixed other (e ∷ es) = ground (arith, fixed other es)

-- Recording the inviter is idempotent: the first inviter stays, and a second call, also with another
-- inviter, changes no row and answers 0.
pub record_discovered_via_twice :
    (invitee inviter other : ℕ) (db : Database)
    → let once = (record_discovered_via invitee inviter db).1 in
      record_discovered_via invitee other once ≡ (0, once)
unfolding record_discovered_via
record_discovered_via_twice invitee inviter other db =
    ground (arith, again invitee inviter db.edges, fixed invitee inviter other db.edges)

update_none :
    (p : MapEdge → Bool) (f : MapEdge → MapEdge) (es : List MapEdge)
    → count_if p es ≡ 0
    → update_where p f es ≡ es
update_none p f [] h = refl
update_none p f (e ∷ es) h = ground (arith, update_none p f es)

contains-add_new : (v w : ℕ) (vs : List ℕ) → contains (add_new v vs) w ≡ w == v || contains vs w
contains-add_new v w vs = elim (Bool-cases (contains vs v)) [
  | inl there ↦ elim (Bool-cases (nat_beq w v)) [
    | inl same ↦
        let there' : contains vs w ≡ true =
          subst (λ i. contains vs i ≡ true) (sym ((nat_beq_iff w v).0 same)) there in
        rw there (ground arith)
    | inr other ↦ rw there (ground arith)
  ]
  | inr absent ↦ rw absent (ground arith)
]

-- The versions of the query
contains-unconnected :
    (all_rows : List MapEdge) (p c bv : ℕ) (es : List MapEdge)
    → contains (unconnected all_rows p c es) bv
      ≡ any (is_in bv p) es && not (any (is_in bv c) all_rows)
unfolding unconnected
contains-unconnected all_rows p c bv [] = refl
contains-unconnected all_rows p c bv (e ∷ es) = ground (
  arith,
  contains-unconnected all_rows p c bv es,
  contains-add_new e.bom_version_id bv (unconnected all_rows p c es),
  nat_beq_iff bv e.bom_version_id,
  nat_beq_iff e.bom_version_id bv,
)

any-is_edge :
    (bv p c : ℕ) (es : List MapEdge) → any (is_edge bv p c) es ≡ true → any (is_in bv c) es ≡ true
any-is_edge bv p c [] h = cc
any-is_edge bv p c (e ∷ es) h = ground (arith, any-is_edge bv p c es)

-- The loop ends, and each of its versions has the edge then.
connect_all-connects :
    (fuel : List MapEdge → ℕ) (news : ℕ → Fresh) (p c : ℕ) (bvs : List ℕ) (db : Database)
    → ((es : List MapEdge) → length es < fuel es)
    → Acyclic db.edges
    → Fits p c db
    → All (λ bv. is_some (lookup bv db.bom_versions) ≡ true) bvs
    → is_some (lookup p db.suppliers) ≡ true
    → is_some (lookup c db.suppliers) ≡ true
    → (done : List ℕ) × (db' : Database) × (connect_all fuel news p c bvs db ≡ some (done, db'))
      × ((bv : ℕ) → contains bvs bv ≡ true → any (is_in bv c) db'.edges ≡ true)
      × ((q : MapEdge → Bool) → any q db.edges ≡ true → any q db'.edges ≡ true)
      × Acyclic db'.edges
unfolding connect_all edge_exists
connect_all-connects fuel news p c [] db enough acyclic fits known above below =
    ([], db, refl, λ bv h. cc h, λ q h. h, acyclic)
connect_all-connects fuel news p c (bv ∷ bvs) db enough acyclic fits known above below =
    let (answer, db1, e, there, acyclic1, stay, at_most, versions, suppliers) =
      connect_returns (fuel db.edges) (news bv) bv p c db acyclic fits (enough db.edges) known.0
        above below in
    let apart : ¬ Below db1.edges c p =
      λ b. acyclic1 p (step (edge_exists-joins bv p c db1.edges there) b) in
    let (done, db2, e', all_in, stay', acyclic2) =
      connect_all-connects fuel news p c bvs db1 enough acyclic1 (fits.0, apart)
        (rw versions known.1) (rw suppliers above) (rw suppliers below) in
    (
      bv ∷ done,
      db2,
      rw (e, e') refl,
      λ w h. elim (Bool-cases (nat_beq w bv)) [
        | inl same ↦
            let here = stay' (is_in bv c) (any-is_edge bv p c db1.edges there) in
            subst (λ i. any (is_in i c) db2.edges ≡ true) (sym ((nat_beq_iff w bv).0 same)) here
        | inr other ↦ all_in w (ground arith)
      ],
      λ q h. stay' q (stay q h),
      acyclic2,
    )

-- The invited supplier, none of whose edges waits for an inviter, is connected wherever the inviter
-- is: both being known suppliers, over edges without a cycle, where the inviter is another and is not below the
-- invited one, in known versions and with enough fuel for each search, the handler ends, every
-- version that has the inviter as a child has the invited one as a child, and there is no cycle.
pub on_supplier_invited_connects :
    (fuel : List MapEdge → ℕ) (news : ℕ → Fresh) (invitee inviter : ℕ) (db : Database)
    → ((es : List MapEdge) → length es < fuel es)
    → Acyclic db.edges
    → Fits inviter invitee db
    → All
        (λ bv. is_some (lookup bv db.bom_versions) ≡ true)
        (get_unconnected_parent_bom_versions inviter invitee db)
    → is_some (lookup inviter db.suppliers) ≡ true
    → is_some (lookup invitee db.suppliers) ≡ true
    → count_if (is_undiscovered invitee) db.edges ≡ 0
    → (done : List ℕ) × (db' : Database) × (on_supplier_invited fuel news
          (some invitee)
          (some inviter)
          db
        ≡ some (done, db'))
      × ((bv : ℕ)
          → any (is_in bv inviter) db.edges ≡ true
          → any (is_in bv invitee) db'.edges ≡ true)
      × Acyclic db'.edges
unfolding on_supplier_invited record_discovered_via get_unconnected_parent_bom_versions
on_supplier_invited_connects fuel news invitee inviter db enough acyclic fits known above below
      none_waits =
    let unchanged =
      update_none (is_undiscovered invitee) (discovered inviter) db.edges none_waits in
    let bvs = get_unconnected_parent_bom_versions inviter invitee db in
    let (done, db', e, all_in, stay, acyclic') =
      connect_all-connects fuel news inviter invitee bvs db enough acyclic fits known above below in
    (
      done,
      db',
      rw (unchanged, none_waits) e,
      λ bv h. elim (Bool-cases (any (is_in bv invitee) db.edges)) [
        | inl there ↦ stay (is_in bv invitee) there
        | inr absent ↦
            all_in bv
              (contains-unconnected db.edges inviter invitee bv db.edges ∙ rw (h, absent) refl)
      ],
      acyclic',
    )
