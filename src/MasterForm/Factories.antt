-- ===== src/MasterForm/Factories.antt =====
-- The factories that write_master_form_factories leaves in the table.
use kira_backend.Prelude.{
  ℕ, String, ◌≡◌, refl, sym, ap, ◌∙◌, subst, inl, inr, true, false, not, Option, none, some, List,
  [], ◌∷◌, map, arith, nat_eq, string_eq, option_eq, contains, nat_beq, nat_beq_iff, Bool-cases,
  Option-cases, All, filter, All-map, Distinct,
}
use kira_backend.MasterForm.{MasterFormFactory, FactoryRow, Db}
use kira_backend.MasterForm.Writes.{
  is_of, ids_of, write_each, keep_or_retire, backfill, mining_country, write_factories, write_rows,
  Numeric, as_column,
}
use kira_backend.MasterForm.Kept.{absent-filter}
use kira_backend.MasterForm.Keys.{at_key, ReadBack, names, IsKeyed}
use kira_backend.MasterForm.Rounds.{write_each-ReadBack}

-- What is written is not stale.
not_stale :
    (existing written : List ℕ) (i : ℕ)
    → contains written i ≡ true
    → contains (filter (λ j. not (contains written j)) existing) i ≡ false
not_stale [] written i h = refl
not_stale (j ∷ existing) written i h = elim (Bool-cases (nat_beq j i)) [
  | inl same ↦
      let e = (nat_beq_iff j i).0 same in
      let w = ap (contains written) e ∙ h in rw w (not_stale existing written i h)
  | inr other ↦ ground (arith, not_stale existing written i h, nat_beq_iff i j)
]

All-self : (is : List ℕ) → All (λ i. contains is i ≡ true) is
All-self [] = tt
All-self (i ∷ is) =
    (ground (arith, nat_beq_iff i i), All-map _ _ (λ k h. ground arith) is (All-self is))

module _ {Point : Type 0} where
  at_key-kept :
      (i : ℕ) (stale referenced : List ℕ) (rs : List (FactoryRow Point))
      → contains stale i ≡ false
      → at_key i (keep_or_retire stale referenced rs) ≡ at_key i rs
  at_key-kept i stale referenced [] h = refl
  at_key-kept i stale referenced (r ∷ rs) h = elim (Bool-cases (nat_beq r.factory_id i)) [
    | inl same ↦
        let e = (nat_beq_iff r.factory_id i).0 same in
        let fresh = ap (contains stale) e ∙ h in rw (fresh, same) refl
    | inr other ↦ ground (arith, at_key-kept i stale referenced rs h)
  ]

  ReadBack-kept :
      (s : ℕ) (is : List ℕ) (fs : List (MasterFormFactory Point)) (rs rs' : List (FactoryRow Point))
      → All (λ i. at_key i rs' ≡ at_key i rs) is
      → ReadBack s is fs rs
      → ReadBack s is fs rs'
  ReadBack-kept s [] [] rs rs' h b = tt
  ReadBack-kept s [] (f ∷ fs) rs rs' h b = b
  ReadBack-kept s (i ∷ is) [] rs rs' h b = b
  ReadBack-kept s (i ∷ is) (f ∷ fs) rs rs' h ((r, e, own, v), b) =
      ((r, h.0 ∙ e, own, v), ReadBack-kept s is fs rs rs' h.1 b)

  owned_rows :
      (s j : ℕ) (rs : List (FactoryRow Point))
      → Distinct (ids_of rs)
      → contains (ids_of (filter (is_of s) rs)) j ≡ true
      → (r : FactoryRow Point) × (at_key j rs ≡ some r) × (r.supplier_id ≡ s)
  owned_rows s j [] d h = cc
  owned_rows s j (r ∷ rs) d h = elim (Bool-cases (nat_beq r.factory_id j)) [
    | inl same ↦ elim (Bool-cases (is_of s r)) [
      | inl mine ↦ (r, rw same refl, (nat_beq_iff r.supplier_id s).0 mine)
      | inr other ↦
          let e = (nat_beq_iff r.factory_id j).0 same in
          let fresh = absent-filter (is_of s) rs r.factory_id d.0 in
          let found : contains (ids_of (filter (is_of s) rs)) j ≡ true = ground arith in
          absurd (cc (sym fresh ∙ ap (contains (ids_of (filter (is_of s) rs))) e ∙ found))
    ]
    | inr other ↦
        let found : contains (ids_of (filter (is_of s) rs)) j ≡ true =
          ground (arith, nat_beq_iff j r.factory_id, nat_beq_iff r.factory_id j) in
        let (r', e, own) = owned_rows s j rs d.1 found in (r', rw other e, own)
  ]

  factories-backfill :
      (s : ℕ) (country : Option String) (db : Db Point)
      → (backfill s country db).factories ≡ db.factories
  unfolding backfill
  factories-backfill s none db = refl
  factories-backfill s (some c) db = refl

  names-as_column :
      (numeric : Numeric) (fs : List (MasterFormFactory Point))
      → names (map (as_column numeric) fs) ≡ names fs
  names-as_column numeric [] = refl
  names-as_column numeric (f ∷ fs) = elim (Option-cases f.factory_id) [
    | inl new ↦ rw new (names-as_column numeric fs)
    | inr (i, e) ↦ rw e (ap (λ is. i ∷ is) (names-as_column numeric fs))
  ]

  write_rows-ReadBack :
      (s : ℕ) (fs : List (MasterFormFactory Point)) (db : Db Point)
      → Distinct (ids_of db.factories)
      → IsKeyed db
      → Distinct (names fs)
      → (let (is, db') = write_rows s fs db in ReadBack s is fs db'.factories)
  unfolding write_rows
  write_rows-ReadBack s fs db d keyed once =
      let existing = ids_of (filter (is_of s) db.factories) in
      let (is, db') = write_each s existing fs db in
      let stale = filter (λ j. not (contains is j)) existing in
      let stored =
        write_each-ReadBack s existing fs db keyed (λ j h. owned_rows s j db.factories d h) once in
      let kept : All
          (λ i.
            at_key i (keep_or_retire stale db'.referenced db'.factories) ≡ at_key i db'.factories)
          is =
        All-map _ _
          (λ i h. at_key-kept i stale db'.referenced db'.factories (not_stale existing is i h)) is
          (All-self is) in
      rw (factories-backfill s (mining_country fs) _)
        (ReadBack-kept s is fs db'.factories _ kept stored)

  -- Over a table where no key occurs twice and no row has a key that is still to be made, a form
  -- that names no key twice can be read back: the keys that its write returns find, in the order of
  -- the form, rows of the supplier with the values of the form, the ratio as its column rounds it,
  -- though the factories that the form leaves out are deleted or retired after them.
  pub write_factories_reads_back :
      (numeric : Numeric) (s : ℕ) (fs : List (MasterFormFactory Point)) (db : Db Point)
      → Distinct (ids_of db.factories)
      → IsKeyed db
      → Distinct (names fs)
      → (let (is, db') = write_factories numeric s fs db in
          ReadBack s is (map (as_column numeric) fs) db'.factories)
  unfolding write_factories
  write_factories_reads_back numeric s fs db d keyed once =
      write_rows-ReadBack s (map (as_column numeric) fs) db d keyed
        (subst Distinct (sym (names-as_column numeric fs)) once)
