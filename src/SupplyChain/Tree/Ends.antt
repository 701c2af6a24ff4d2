-- ===== src/SupplyChain/Tree/Ends.antt =====
-- The recursive query of get_supplier_field_data ends over any edges, cycles included.
use kira_backend.Prelude.{
  ℕ, zero, suc, ◌+◌, ◌≤◌, ◌<◌, ◌≡◌, refl, sym, subst, inl, inr, true, false, Option, none, some,
  List, [], ◌∷◌, ◌++◌, arith, nat_eq, string_eq, option_eq, contains, nat_beq_iff, Bool-cases,
  Option-cases, length, All, length-append, All-append, All-map, Distinct, length-Distinct,
  Distinct-append,
}
use kira_backend.SupplyChain.{MapEdge, Database}
use kira_backend.SupplyChain.Tree.{
  TreeRow, anchors, is_anchor, extends, extended, rows_below, next_rows, sc_tree,
}

-- The suppliers that have a parent or are a root
pub children : List MapEdge → List ℕ
children [] = []
children (e ∷ es) = elim e.child_supplier_id [ none ↦ children es | some c ↦ c ∷ children es ]

length-children : (es : List MapEdge) → length (children es) ≤ length es
unfolding children
length-children [] = omega arith
length-children (e ∷ es) = ground (arith, length-children es, Option-cases e.child_supplier_id)

-- A path of `n` suppliers, all different, each the child of an edge
abbrev pub IsPath : List MapEdge → ℕ → TreeRow → Type 0
IsPath es n r =
    (length r.path ≡ n) × Distinct r.path × All (λ c. contains (children es) c ≡ true) r.path

pub rows_below-null :
    (r : TreeRow) (e : MapEdge) (es : List MapEdge)
    → e.child_supplier_id ≡ none
    → rows_below (e ∷ es) r ≡ rows_below es r
rows_below-null r e es h = ground arith

pub rows_below-kept :
    (r : TreeRow) (e : MapEdge) (es : List MapEdge) (c : ℕ)
    → e.child_supplier_id ≡ some c
    → extends r e c ≡ true
    → rows_below (e ∷ es) r ≡ extended r e c ∷ rows_below es r
rows_below-kept r e es c h k = ground arith

pub rows_below-dropped :
    (r : TreeRow) (e : MapEdge) (es : List MapEdge) (c : ℕ)
    → e.child_supplier_id ≡ some c
    → extends r e c ≡ false
    → rows_below (e ∷ es) r ≡ rows_below es r
rows_below-dropped r e es c h k = ground arith

-- What holds of the edges and gives a property of each extension gives it of the rows below.
pub rows_below-All {ℓ κ} :
    (P : TreeRow → Type ℓ) (Q : MapEdge → Type κ) (r : TreeRow) (es : List MapEdge)
    → All Q es
    → ((e : MapEdge) (c : ℕ)
        → Q e
        → e.child_supplier_id ≡ some c
        → extends r e c ≡ true
        → P (extended r e c))
    → All P (rows_below es r)
rows_below-All P Q r [] h f = tt
rows_below-All P Q r (e ∷ es) h f = elim (Option-cases e.child_supplier_id) [
  | inl unknown ↦ rw (rows_below-null r e es unknown) (rows_below-All P Q r es h.1 f)
  | inr (c, found) ↦ elim (Bool-cases (extends r e c)) [
    | inl kept ↦
        rw (rows_below-kept r e es c found kept)
          (f e c h.0 found kept, rows_below-All P Q r es h.1 f)
    | inr dropped ↦ rw (rows_below-dropped r e es c found dropped) (rows_below-All P Q r es h.1 f)
  ]
]

pub next_rows-All {ℓ κ} :
    (P : TreeRow → Type ℓ) (P' : TreeRow → Type κ) (es : List MapEdge) (rs : List TreeRow)
    → All P rs
    → ((r : TreeRow) → P r → All P' (rows_below es r))
    → All P' (next_rows es rs)
next_rows-All P P' es [] h f = tt
next_rows-All P P' es (r ∷ rs) h f =
    All-append P' (rows_below es r) (next_rows es rs) (f r h.0) (next_rows-All P P' es rs h.1 f)

abbrev IsChild : List MapEdge → MapEdge → Type 0
IsChild es e = (c : ℕ) → e.child_supplier_id ≡ some c → contains (children es) c ≡ true

children-more :
    (e : MapEdge) (es : List MapEdge) (c : ℕ)
    → contains (children es) c ≡ true
    → contains (children (e ∷ es)) c ≡ true
unfolding children
children-more e es c h = ground (arith, Option-cases e.child_supplier_id)

children-here :
    (e : MapEdge) (es : List MapEdge) (c : ℕ)
    → e.child_supplier_id ≡ some c
    → contains (children (e ∷ es)) c ≡ true
unfolding children
children-here e es c h = ground (arith, nat_beq_iff c c)

IsChild-All : (es : List MapEdge) → All (IsChild es) es
IsChild-All [] = tt
IsChild-All (e ∷ es) = (
  children-here e es,
  All-map (IsChild es) (IsChild (e ∷ es)) (λ e' h c k. children-more e es c (h c k)) es
      (IsChild-All es),
)

module _ (es : List MapEdge) where
  extended-IsPath :
      (n : ℕ) (r : TreeRow) (e : MapEdge) (c : ℕ)
      → IsPath es n r
      → contains r.path c ≡ false
      → contains (children es) c ≡ true
      → IsPath es (suc n) (extended r e c)
  extended-IsPath n r e c h new known = (
    omega (arith, length-append r.path (c ∷ []), h.0),
    Distinct-append r.path (c ∷ []) h.1 (refl, tt)
        (λ i k.
          let same : i ≡ c = ground (arith, nat_beq_iff i c) in
          subst (λ j. contains r.path j ≡ false) (sym same) new),
    All-append (λ c. contains (children es) c ≡ true) r.path (c ∷ []) h.2 (known, tt),
  )

  next_rows-IsPath :
      (n : ℕ) (rs : List TreeRow) → All (IsPath es n) rs → All (IsPath es (suc n)) (next_rows es rs)
  next_rows-IsPath n rs h = next_rows-All (IsPath es n) (IsPath es (suc n)) es rs h (λ r k.
      rows_below-All (IsPath es (suc n)) (IsChild es) r es (IsChild-All es)
        (λ e c q found ext. extended-IsPath n r e c k (ground arith) (q c found)))

  path-length : (n : ℕ) (r : TreeRow) → IsPath es n r → n ≤ length es
  path-length n r h =
      omega (arith, h.0, length-children es, length-Distinct r.path (children es) h.1 h.2)

  sc_tree-ends :
      (fuel n : ℕ) (rs : List TreeRow)
      → All (IsPath es n) rs
      → length es < fuel + n
      → (rows : List TreeRow) × (sc_tree (suc fuel) es rs ≡ some rows)
  unfolding sc_tree
  sc_tree-ends fuel n [] h k = ([], refl)
  sc_tree-ends zero n (r ∷ rs) h k = absurd (omega (arith, path-length n r h.0))
  sc_tree-ends (suc fuel) n (r ∷ rs) h k =
      let (rows, e) =
        sc_tree-ends fuel (suc n) (next_rows es (r ∷ rs)) (next_rows-IsPath n (r ∷ rs) h)
          (omega arith) in
      ((r ∷ rs) ++ rows, rw e refl)

-- The anchor rows, one for each root edge
pub anchors-All {ℓ κ} :
    (P : TreeRow → Type ℓ) (Q : MapEdge → Type κ) (db : Database) (product : ℕ) (version : Option ℕ)
    (es : List MapEdge)
    → All Q es
    → ((e : MapEdge) (c : ℕ)
        → Q e
        → e.child_supplier_id ≡ some c
        → is_anchor db product version e ≡ true
        → P (record {
          supplier_id = c;
          depth = e.hop_level;
          path = c ∷ [];
          bom_version_id = e.bom_version_id;
        }))
    → All P (anchors db product version es)
unfolding anchors
anchors-All P Q db product version [] h f = tt
anchors-All P Q db product version (e ∷ es) h f =
    let rest = anchors-All P Q db product version es h.1 f in
    elim (Option-cases e.child_supplier_id) [
      | inl unknown ↦ rw unknown rest
      | inr (c, found) ↦ elim (Bool-cases (is_anchor db product version e)) [
        | inl root ↦ rw (found, root) (f e c h.0 found root, rest)
        | inr other ↦ rw (found, other) rest
      ]
    ]

-- The query ends whatever the edges are, with one step of fuel more than there are edges.
pub sc_tree_ends :
    (db : Database) (product : ℕ) (version : Option ℕ) (fuel : ℕ)
    → length db.edges < fuel
    → (rows : List TreeRow) × (sc_tree fuel db.edges (anchors db product version db.edges)
        ≡ some rows)
sc_tree_ends db product version zero h = absurd (omega arith)
sc_tree_ends db product version (suc fuel) h =
    sc_tree-ends db.edges fuel 1 (anchors db product version db.edges)
      (anchors-All (IsPath db.edges 1) (IsChild db.edges) db product version db.edges
        (IsChild-All db.edges) (λ e c q found root. (refl, (refl, tt), (q c found, tt))))
      (omega arith)
