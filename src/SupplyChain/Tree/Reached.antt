-- ===== src/SupplyChain/Tree/Reached.antt =====
-- The tree of get_supplier_field_data lists the suppliers that are reached from a root.
use kira_backend.Prelude.{
  some-injective, ℕ, zero, suc, ◌≡◌, sym, subst, inl, inr, Bool, true, false, ◌&&◌, Option, some,
  List, [], ◌∷◌, ◌++◌, arith, ◌==◌, nat_eq, string_eq, option_eq, contains, nat_beq, nat_beq_iff,
  Bool-cases, Option-cases, All, any, All-append, All-map, any-append,
}
use kira_backend.SupplyChain.{MapEdge, Database, is_same}
use kira_backend.SupplyChain.Tree.{
  TreeRow, anchors, is_anchor, extends, rows_below, next_rows, sc_tree,
}
use kira_backend.SupplyChain.Tree.Ends.{
  rows_below-null, rows_below-kept, rows_below-dropped, rows_below-All, next_rows-All, anchors-All,
}

-- An edge within a version, and a root edge of the product
abbrev pub joins_in : ℕ → ℕ → ℕ → MapEdge → Bool
joins_in bv p c e =
    e.bom_version_id == bv && is_same e.parent_supplier_id p && is_same e.child_supplier_id c

abbrev pub roots_in : Database → ℕ → Option ℕ → ℕ → ℕ → MapEdge → Bool
roots_in db product version bv s e =
    is_anchor db product version e && e.bom_version_id == bv && is_same e.child_supplier_id s

-- The supplier supplies the product in the version: it is a root or below one that does.
pub data Supplies (db : Database) (product : ℕ) (version : Option ℕ) : ℕ → ℕ → Type 0 where
  root :
      {bv s : ℕ}
      → any (roots_in db product version bv s) db.edges ≡ true
      → Supplies db product version bv s
  below :
      {bv p s : ℕ}
      → Supplies db product version bv p
      → any (joins_in bv p s) db.edges ≡ true
      → Supplies db product version bv s

abbrev pub at : ℕ → ℕ → TreeRow → Bool
at bv s r = r.bom_version_id == bv && r.supplier_id == s

abbrev pub listed : List TreeRow → ℕ → ℕ → Bool
listed rows bv s = any (at bv s) rows

-- What an element that is in the list says of it
abbrev pub Within {ℓ} : {A : Type ℓ} → List A → A → Type ℓ
Within {A} xs x = (q : A → Bool) → q x ≡ true → any q xs ≡ true

pub Within-All {ℓ} : {A : Type ℓ} (xs : List A) → All (Within xs) xs
Within-All [] = tt
Within-All (x ∷ xs) = (
  λ q h. ground arith,
  All-map (Within xs) (Within (x ∷ xs)) (λ y k q h. ground (arith, k q h)) xs (Within-All xs),
)

pub All-both {ℓ κ} :
    {A : Type ℓ} (P Q : A → Type κ) (xs : List A) → All P xs → All Q xs → All (λ x. P x × Q x) xs
All-both P Q [] h k = tt
All-both P Q (x ∷ xs) h k = ((h.0, k.0), All-both P Q xs h.1 k.1)

pub any-found {ℓ κ} :
    {A : Type ℓ} (P : A → Type κ) (q : A → Bool) (xs : List A)
    → All P xs
    → any q xs ≡ true
    → (x : A) × (q x ≡ true) × P x
any-found P q [] h k = cc
any-found P q (x ∷ xs) h k = elim (Bool-cases (q x)) [
  | inl here ↦ (x, here, h.0)
  | inr absent ↦ any-found P q xs h.1 (ground arith)
]

-- What each working table keeps holds of the result.
pub sc_tree-All {ℓ} :
    (P : TreeRow → Type ℓ) (es : List MapEdge)
    → ((rs : List TreeRow) → All P rs → All P (next_rows es rs))
    → (fuel : ℕ) (rs rows : List TreeRow) → sc_tree fuel es rs ≡ some rows
    → All P rs
    → All P rows
unfolding sc_tree
sc_tree-All P es keep zero rs rows h k = absurd (cc h)
sc_tree-All P es keep (suc fuel) [] rows h k = rw (← some-injective h) tt
sc_tree-All P es keep (suc fuel) (r ∷ rs) rows h k =
    elim (Option-cases (sc_tree fuel es (next_rows es (r ∷ rs)))) [
      | inl out ↦ absurd (cc (rw out at h))
      | inr (more, e) ↦
          let result : rows ≡ (r ∷ rs) ++ more = sym (some-injective (rw e at h)) in
          rw result (
            All-append P (r ∷ rs) more k
              (sc_tree-All P es keep fuel (next_rows es (r ∷ rs)) more e (keep (r ∷ rs) k)))
    ]

pub sc_tree-has :
    (es : List MapEdge) (fuel : ℕ) (rs rows : List TreeRow) (q : TreeRow → Bool)
    → sc_tree fuel es rs ≡ some rows
    → any q rs ≡ true
    → any q rows ≡ true
unfolding sc_tree
sc_tree-has es zero rs rows q h k = absurd (cc h)
sc_tree-has es (suc fuel) [] rows q h k = cc
sc_tree-has es (suc fuel) (r ∷ rs) rows q h k =
    elim (Option-cases (sc_tree fuel es (next_rows es (r ∷ rs)))) [
      | inl out ↦ absurd (cc (rw out at h))
      | inr (more, e) ↦
          let result : rows ≡ (r ∷ rs) ++ more = sym (some-injective (rw e at h)) in
          rw result (ground (arith, any-append q (r ∷ rs) more))
    ]

module _ (db : Database) (product : ℕ) (version : Option ℕ) where
  abbrev es : List MapEdge
  es = db.edges

  abbrev start : List TreeRow
  start = anchors db product version db.edges

  abbrev pub IsSupplying : TreeRow → Type 0
  IsSupplying r = Supplies db product version r.bom_version_id r.supplier_id

  pub start-IsSupplying : All IsSupplying start
  start-IsSupplying =
      anchors-All IsSupplying (Within es) db product version es (Within-All es)
        (λ e c within found anchor. root (
          within (roots_in db product version e.bom_version_id c)
            (ground (arith, nat_beq_iff c c, nat_beq_iff e.bom_version_id e.bom_version_id))))

  pub next-IsSupplying :
      (rs : List TreeRow) → All IsSupplying rs → All IsSupplying (next_rows es rs)
  next-IsSupplying rs h = next_rows-All IsSupplying IsSupplying es rs h (λ r k.
      rows_below-All IsSupplying (Within es) r es (Within-All es) (λ e c within found ext.
        let same : e.bom_version_id ≡ r.bom_version_id =
          ground (arith, nat_beq_iff e.bom_version_id r.bom_version_id) in
        let parent : Supplies db product version e.bom_version_id r.supplier_id =
          subst (λ bv. Supplies db product version bv r.supplier_id) (sym same) k in
        below parent (
          within (joins_in e.bom_version_id r.supplier_id c)
            (ground (arith, nat_beq_iff c c, nat_beq_iff e.bom_version_id e.bom_version_id)))))

-- The rows below a row have every child that is not on its path.
pub rows_below-has :
    (r : TreeRow) (es : List MapEdge) (c : ℕ)
    → any (joins_in r.bom_version_id r.supplier_id c) es ≡ true
    → contains r.path c ≡ false
    → any (at r.bom_version_id c) (rows_below es r) ≡ true
rows_below-has r [] c h k = cc
rows_below-has r (e ∷ es) c h k = elim (Option-cases e.child_supplier_id) [
  | inl unknown ↦ rw (rows_below-null r e es unknown) (rows_below-has r es c (ground arith) k)
  | inr (c', found) ↦
      let rest = rows_below-has r es c in
      elim (Bool-cases (nat_beq c' c)) [
        | inl same ↦
            let e' : c' ≡ c = (nat_beq_iff c' c).0 same in
            let new : contains r.path c' ≡ false =
              subst (λ i. contains r.path i ≡ false) (sym e') k in
            elim (Bool-cases (extends r e c')) [
              | inl kept ↦ rw (rows_below-kept r e es c' found kept) (ground arith)
              | inr dropped ↦
                  rw (rows_below-dropped r e es c' found dropped) (rest (ground arith) k)
            ]
        | inr other ↦ elim (Bool-cases (extends r e c')) [
          | inl kept ↦
              let later = rest (ground arith) k in
              rw (rows_below-kept r e es c' found kept) (ground arith)
          | inr dropped ↦ rw (rows_below-dropped r e es c' found dropped) (rest (ground arith) k)
        ]
      ]
]
