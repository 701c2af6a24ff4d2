-- ===== src/SupplyChain/Tree/Complete.antt =====
-- The tree leaves out no supplier: a child that is passed over, because it is on the path already,
-- has a row of its own.
use kira_backend.Prelude.{
  some-injective, ℕ, zero, suc, ◌<◌, ◌≡◌, sym, subst, ◌↔◌, ◌⊎◌, inl, inr, Bool, true, Option, some,
  List, [], ◌∷◌, ◌++◌, arith, nat_eq, string_eq, option_eq, contains, nat_beq_iff, Bool-cases,
  Option-cases, length, All, any, All-append, All-map, any-append, contains-append,
}
use mathlib.Core.Logic.{∥∥₁_elim}
use mathlib.Core.Bool.{So-prop}
use kira_backend.SupplyChain.{MapEdge, Database}
use kira_backend.SupplyChain.Tree.{
  TreeRow, anchors, extends, extended, rows_below, next_rows, sc_tree,
}
use kira_backend.SupplyChain.Tree.Ends.{rows_below-All, anchors-All, sc_tree_ends}
use kira_backend.SupplyChain.Tree.Reached.{
  joins_in, roots_in, Supplies, root, below, at, listed, Within, Within-All, All-both, any-found,
  sc_tree-All, sc_tree-has, rows_below-has, IsSupplying, start-IsSupplying, next-IsSupplying,
}

-- The suppliers on a path, but for its end, were seen in an earlier working table.
abbrev IsSeen : (ℕ → ℕ → Type 0) → TreeRow → Type 0
IsSeen Seen r = (c : ℕ) → contains r.path c ≡ true → (c ≡ r.supplier_id) ⊎ Seen r.bom_version_id c

-- Seen before, or in this working table
abbrev OrListed : (ℕ → ℕ → Type 0) → List TreeRow → ℕ → ℕ → Type 0
OrListed Seen rs bv c = Seen bv c ⊎ (listed rs bv c ≡ true)

-- Every child of a row has been seen or has a row.
abbrev HasChildren : List MapEdge → (ℕ → ℕ → Type 0) → List TreeRow → TreeRow → Type 0
HasChildren es Seen rows r =
    (c : ℕ)
    → any (joins_in r.bom_version_id r.supplier_id c) es ≡ true
    → OrListed Seen rows r.bom_version_id c

-- The rows below a row are in the next working table.
next_rows-has :
    (es : List MapEdge) (rs : List TreeRow)
    → All
        (λ r.
          (q : TreeRow → Bool) → any q (rows_below es r) ≡ true → any q (next_rows es rs) ≡ true)
        rs
next_rows-has es [] = tt
next_rows-has es (r ∷ rs) = (
  λ q h. ground (arith, any-append q (rows_below es r) (next_rows es rs)),
  All-map _ _ (λ x f q h. ground (arith, any-append q (rows_below es r) (next_rows es rs), f q h))
      rs (next_rows-has es rs),
)

extended-IsSeen :
    (Seen : ℕ → ℕ → Type 0) (rs : List TreeRow) (r : TreeRow) (e : MapEdge) (c : ℕ)
    → IsSeen Seen r
    → listed rs r.bom_version_id r.supplier_id ≡ true
    → extends r e c ≡ true
    → IsSeen (OrListed Seen rs) (extended r e c)
extended-IsSeen Seen rs r e c h here ext i k =
    let same : e.bom_version_id ≡ r.bom_version_id =
      ground (arith, nat_beq_iff e.bom_version_id r.bom_version_id) in
    elim (Bool-cases (contains r.path i)) [
      | inl old ↦
          subst (λ bv. (i ≡ c) ⊎ OrListed Seen rs bv i) (sym same)
            (elim (h i old) [
              | inl end ↦
                  inr (inr (subst (λ j. listed rs r.bom_version_id j ≡ true) (sym end) here))
              | inr seen ↦ inr (inl seen)
            ])
      | inr new ↦ inl (ground (arith, contains-append r.path (c ∷ []) i, nat_beq_iff i c))
    ]

-- What is known of each row of a working table
next-IsSeen :
    (Seen : ℕ → ℕ → Type 0) (es : List MapEdge) (all_rows rs : List TreeRow)
    → All (IsSeen Seen) rs
    → All (Within all_rows) rs
    → All (IsSeen (OrListed Seen all_rows)) (next_rows es rs)
next-IsSeen Seen es all_rows [] h w = tt
next-IsSeen Seen es all_rows (r ∷ rs) h w =
    let here : listed all_rows r.bom_version_id r.supplier_id ≡ true =
      w.0 (at r.bom_version_id r.supplier_id) (
        ground (
          arith,
          nat_beq_iff r.bom_version_id r.bom_version_id,
          nat_beq_iff r.supplier_id r.supplier_id,
        )) in
    All-append (IsSeen (OrListed Seen all_rows)) (rows_below es r) (next_rows es rs)
      (rows_below-All (IsSeen (OrListed Seen all_rows)) (λ e. Unit {0}) r es (all_unit es)
        (λ e c u found ext. extended-IsSeen Seen all_rows r e c h.0 here ext))
      (next-IsSeen Seen es all_rows rs h.1 w.1)
  where
    all_unit : (xs : List MapEdge) → All (λ e. Unit {0}) xs
    all_unit [] = tt
    all_unit (x ∷ xs) = (tt, all_unit xs)

-- A row of the working table, when the next table has what is below it
HasChildren-now :
    (Seen : ℕ → ℕ → Type 0) (es : List MapEdge) (rs more : List TreeRow) (r : TreeRow)
    → IsSeen Seen r
    → Within rs r
    → ((q : TreeRow → Bool) → any q (rows_below es r) ≡ true → any q more ≡ true)
    → HasChildren es Seen (rs ++ more) r
HasChildren-now Seen es rs more r seen within later c edge =
    let listed_in = any-append (at r.bom_version_id c) rs more in
    elim (Bool-cases (contains r.path c)) [
      | inl old ↦ elim (seen c old) [
        | inl end ↦
            let here : listed rs r.bom_version_id c ≡ true = within (at r.bom_version_id c) (
              ground (
                arith,
                nat_beq_iff r.bom_version_id r.bom_version_id,
                nat_beq_iff r.supplier_id c,
                end,
              )) in
            inr (ground arith)
        | inr before ↦ inl before
      ]
      | inr new ↦
          let next : listed more r.bom_version_id c ≡ true =
            later (at r.bom_version_id c) (rows_below-has r es c edge new) in
          inr (ground arith)
    ]

HasChildren-later :
    (Seen : ℕ → ℕ → Type 0) (es : List MapEdge) (rs more : List TreeRow) (r : TreeRow)
    → HasChildren es (OrListed Seen rs) more r
    → HasChildren es Seen (rs ++ more) r
HasChildren-later Seen es rs more r h c edge =
    let listed_in = any-append (at r.bom_version_id c) rs more in
    elim (h c edge) [
      | inl (inl seen) ↦ inl seen
      | inl (inr now) ↦ inr (ground arith)
      | inr later ↦ inr (ground arith)
    ]

sc_tree-HasChildren :
    (Seen : ℕ → ℕ → Type 0) (es : List MapEdge) (fuel : ℕ) (rs rows : List TreeRow)
    → sc_tree fuel es rs ≡ some rows
    → All (IsSeen Seen) rs
    → All (HasChildren es Seen rows) rows
unfolding sc_tree
sc_tree-HasChildren Seen es zero rs rows h seen = absurd (cc h)
sc_tree-HasChildren Seen es (suc fuel) [] rows h seen = rw (← some-injective h) tt
sc_tree-HasChildren Seen es (suc fuel) (r ∷ rs) rows h seen =
    elim (Option-cases (sc_tree fuel es (next_rows es (r ∷ rs)))) [
      | inl out ↦ absurd (cc (rw out at h))
      | inr (more, e) ↦
          let table = r ∷ rs in
          let result : rows ≡ table ++ more = sym (some-injective (rw e at h)) in
          let known =
            All-both _ _ table seen
              (All-both _ _ table (Within-All table) (next_rows-has es table)) in
          let now =
            All-map _ (HasChildren es Seen (table ++ more))
              (λ x k.
                HasChildren-now Seen es table more x k.0 k.1.0
                  (λ q found. sc_tree-has es fuel (next_rows es table) more q e (k.1.1 q found)))
              table known in
          let deeper =
            sc_tree-HasChildren (OrListed Seen table) es fuel (next_rows es table) more e
              (next-IsSeen Seen es table table seen (Within-All table)) in
          let later =
            All-map _ (HasChildren es Seen (table ++ more)) (HasChildren-later Seen es table more)
              more deeper in
          rw result (All-append (HasChildren es Seen (table ++ more)) table more now later)
    ]

-- An anchor's path is the anchor.
anchors-IsSeen :
    (db : Database) (product : ℕ) (version : Option ℕ)
    → All (IsSeen (λ bv c. ⊥)) (anchors db product version db.edges)
anchors-IsSeen db product version =
    anchors-All (IsSeen (λ bv c. ⊥)) (Within db.edges) db product version db.edges
      (Within-All db.edges) (λ e c w found anchor i k. inl (ground (arith, nat_beq_iff i c)))

anchors-has :
    (db : Database) (product : ℕ) (version : Option ℕ) (bv s : ℕ) (es : List MapEdge)
    → any (roots_in db product version bv s) es ≡ true
    → listed (anchors db product version es) bv s ≡ true
unfolding anchors
anchors-has db product version bv s [] h = cc
anchors-has db product version bv s (e ∷ es) h =
    ground (arith, anchors-has db product version bv s es, Option-cases e.child_supplier_id)

Supplies-listed :
    (db : Database) (product : ℕ) (version : Option ℕ) (fuel : ℕ) (rows : List TreeRow)
    → sc_tree fuel db.edges (anchors db product version db.edges) ≡ some rows
    → {bv s : ℕ} → Supplies db product version bv s
    → listed rows bv s ≡ true
Supplies-listed db product version fuel rows h {bv} {s} (root j) =
    sc_tree-has db.edges fuel _ rows (at bv s) h (anchors-has db product version bv s db.edges j)
Supplies-listed db product version fuel rows h {bv} {s} (below {p} b j) =
    let complete =
      sc_tree-HasChildren (λ bv c. ⊥) db.edges fuel _ rows h (anchors-IsSeen db product version) in
    let (r, here, children) =
      any-found _ (at bv p) rows complete (Supplies-listed db product version fuel rows h b) in
    let same : r.bom_version_id ≡ bv = ground (arith, nat_beq_iff r.bom_version_id bv) in
    let parent : r.supplier_id ≡ p = ground (arith, nat_beq_iff r.supplier_id p) in
    let j' : any (joins_in r.bom_version_id r.supplier_id s) db.edges ≡ true =
      subst (λ i. any (joins_in r.bom_version_id i s) db.edges ≡ true) (sym parent)
        (subst (λ i. any (joins_in i p s) db.edges ≡ true) (sym same) j) in
    elim (children s j') [
      | inl nothing ↦ absurd nothing
      | inr found ↦ subst (λ i. listed rows i s ≡ true) same found
    ]

-- Whatever the edges are, cycles and edges from a supplier to itself included: with one step of fuel
-- more than there are edges the query ends, and it has a row for a supplier in a version if and only
-- if the supplier is a root of the product there or below one within the version.
pub sc_tree_lists_suppliers :
    (db : Database) (product : ℕ) (version : Option ℕ) (fuel : ℕ)
    → length db.edges < fuel
    → (rows : List TreeRow) × (sc_tree fuel db.edges (anchors db product version db.edges)
        ≡ some rows)
      × ((bv s : ℕ) → (listed rows bv s ≡ true) ↔ ∥ Supplies db product version bv s ∥₁)
sc_tree_lists_suppliers db product version fuel h =
    let (rows, e) = sc_tree_ends db product version fuel h in
    let sound =
      sc_tree-All (IsSupplying db product version) db.edges (next-IsSupplying db product version)
        fuel _ rows e (start-IsSupplying db product version) in
    (
      rows,
      e,
      λ bv s. (
        λ there.
            let (r, here, supplies) = any-found _ (at bv s) rows sound there in
            let same : r.bom_version_id ≡ bv = ground (arith, nat_beq_iff r.bom_version_id bv) in
            let this : r.supplier_id ≡ s = ground (arith, nat_beq_iff r.supplier_id s) in
            ∣ subst (λ i. Supplies db product version bv i) this
              (subst (λ i. Supplies db product version i r.supplier_id) same supplies) ∣₁,
        λ some_path.
            ∥∥₁_elim some_path (So-prop _) (Supplies-listed db product version fuel rows e),
      ),
    )
