-- ===== src/MasterForm/Rounds.antt =====
-- The loop of write_master_form_factories over the factories of the form.
use kira_backend.Prelude.{
  ℕ, ◌≤◌, ◌<◌, ◌≡◌, refl, sym, ap, ◌∙◌, subst, ◌≢◌, ◌⊎◌, inl, inr, true, false, none, some, List,
  [], ◌∷◌, arith, nat_eq, string_eq, option_eq, contains, nat_beq, nat_beq_iff, Bool-cases,
  Option-cases, Distinct,
}
use kira_backend.MasterForm.{MasterFormFactory, Db}
use kira_backend.MasterForm.Writes.{inserted, updated, write_factory, write_each}
use kira_backend.MasterForm.Keys.{
  at_key, Holds, ReadBack, names, IsKeyed, Known, key_bound, at_key-inserted, at_key-updated,
  inserted-IsKeyed, updated-IsKeyed, inserted-Holds, updated-Holds,
}

module _ {Point : Type 0} where
  -- One round of the loop stores the values of the form under the key it returns, which is new or
  -- one that the form names, and leaves every other key.
  abbrev Round : ℕ → List ℕ → MasterFormFactory Point → Db Point → ℕ × Db Point → Type 0
  Round s existing f db (i, db') =
      IsKeyed db'
      × Known s existing db'
      × Holds s f.values i db'.factories
      × (i < db'.next_factory)
      × (db.next_factory ≤ db'.next_factory)
      × ((contains existing i ≡ false) ⊎ (f.factory_id ≡ some i))
      × ((k : ℕ)
          → k < db.next_factory
          → (contains existing k ≡ false) ⊎ (f.factory_id ≢ some k)
          → at_key k db'.factories ≡ at_key k db.factories)

  inserted-Round :
      (s : ℕ) (existing : List ℕ) (f : MasterFormFactory Point) (db : Db Point)
      → IsKeyed db
      → Known s existing db
      → Round s existing f db (db.next_factory, inserted s f db)
  inserted-Round s existing f db keyed known = (
    inserted-IsKeyed s f db keyed,
    λ j h.
        let (r, e, own) = known j h in
        let b = key_bound db j r keyed e in
        (r, at_key-inserted s j f db (λ q. omega (arith, q, b)) ∙ e, own),
    inserted-Holds s f db keyed,
    omega arith,
    omega arith,
    elim (Bool-cases (contains existing db.next_factory)) [
      | inl h ↦
          let (r, e, own) = known db.next_factory h in
          absurd (omega (arith, key_bound db db.next_factory r keyed e))
      | inr h ↦ inl h
    ],
    λ k b apart. at_key-inserted s k f db (λ q. omega (arith, q, b)),
  )

  updated-Round :
      (s j : ℕ) (existing : List ℕ) (f : MasterFormFactory Point) (db : Db Point)
      → f.factory_id ≡ some j
      → contains existing j ≡ true
      → IsKeyed db
      → Known s existing db
      → Round s existing f db (j, updated j f db)
  updated-Round s j existing f db named h keyed known =
      let (r, e, own) = known j h in
      let b = key_bound db j r keyed e in
      (
        updated-IsKeyed j f db b keyed,
        λ k c. elim (Bool-cases (nat_beq k j)) [
          | inl same ↦
              let (r', e', own', _) = updated-Holds s j f db r e own in
              let q = (nat_beq_iff k j).0 same in
              (r', ap (λ x. at_key x (updated j f db).factories) q ∙ e', own')
          | inr other ↦
              let (r', e', own') = known k c in
              (r', at_key-updated k j f db (λ q. ground (arith, nat_beq_iff k j)) ∙ e', own')
        ],
        updated-Holds s j f db r e own,
        b,
        omega arith,
        inr named,
        λ k c apart. at_key-updated k j f db λ q. elim apart [
          | inl n ↦ absurd (cc (sym n ∙ ap (contains existing) q ∙ h))
          | inr n ↦ n (named ∙ ap some (sym q))
        ],
      )

  write_factory-cases :
      (s : ℕ) (existing : List ℕ) (f : MasterFormFactory Point) (db : Db Point)
      → (write_factory s existing f db ≡ (db.next_factory, inserted s f db))
        ⊎ ((i : ℕ) × (f.factory_id ≡ some i)
            × (contains existing i ≡ true)
            × (write_factory s existing f db ≡ (i, updated i f db)))
  unfolding write_factory
  write_factory-cases s existing f db = elim (Option-cases f.factory_id) [
    | inl new ↦ inl (rw new refl)
    | inr (i, e) ↦ elim (Bool-cases (contains existing i)) [
      | inl h ↦ inr (i, e, h, rw (e, h) refl)
      | inr other ↦ inl (rw (e, other) refl)
    ]
  ]

  write_factory-Round :
      (s : ℕ) (existing : List ℕ) (f : MasterFormFactory Point) (db : Db Point)
      → IsKeyed db
      → Known s existing db
      → Round s existing f db (write_factory s existing f db)
  write_factory-Round s existing f db keyed known = elim (write_factory-cases s existing f db) [
    | inl e ↦ subst (Round s existing f db) (sym e) (inserted-Round s existing f db keyed known)
    | inr (i, named, h, e) ↦
        subst (Round s existing f db) (sym e) (updated-Round s i existing f db named h keyed known)
  ]

  names-named :
      (f : MasterFormFactory Point) (fs : List (MasterFormFactory Point)) {i : ℕ}
      → f.factory_id ≡ some i
      → names (f ∷ fs) ≡ i ∷ names fs
  names-named f fs e = rw e refl

  names-new :
      (f : MasterFormFactory Point) (fs : List (MasterFormFactory Point))
      → f.factory_id ≡ none
      → names (f ∷ fs) ≡ names fs
  names-new f fs e = rw e refl

  first_name :
      (f : MasterFormFactory Point) (fs : List (MasterFormFactory Point)) (i : ℕ)
      → f.factory_id ≡ some i
      → Distinct (names (f ∷ fs))
      → contains (names fs) i ≡ false
  first_name f fs i e d = (subst Distinct (names-named f fs e) d).0

  later_names :
      (f : MasterFormFactory Point) (fs : List (MasterFormFactory Point))
      → Distinct (names (f ∷ fs))
      → Distinct (names fs)
  later_names f fs d = elim (Option-cases f.factory_id) [
    | inl new ↦ subst Distinct (names-new f fs new) d
    | inr (i, e) ↦ (subst Distinct (names-named f fs e) d).1
  ]

  later_unnamed :
      (f : MasterFormFactory Point) (fs : List (MasterFormFactory Point)) (k : ℕ)
      → contains (names (f ∷ fs)) k ≡ false
      → contains (names fs) k ≡ false
  later_unnamed f fs k n = elim (Option-cases f.factory_id) [
    | inl new ↦ ap (λ xs. contains xs k) (sym (names-new f fs new)) ∙ n
    | inr (i, e) ↦ let h = ap (λ xs. contains xs k) (sym (names-named f fs e)) ∙ n in ground arith
  ]

  unnamed :
      (f : MasterFormFactory Point) (fs : List (MasterFormFactory Point)) (k : ℕ)
      → contains (names (f ∷ fs)) k ≡ false
      → f.factory_id ≢ some k
  unnamed f fs k n e =
      let h = ap (λ xs. contains xs k) (sym (names-named f fs e)) ∙ n in
      ground (arith, nat_beq_iff k k)

  -- The loop leaves the keys that no factory of the form names.
  write_each-other :
      (s : ℕ) (existing : List ℕ) (fs : List (MasterFormFactory Point)) (db : Db Point) (k : ℕ)
      → IsKeyed db
      → Known s existing db
      → k < db.next_factory
      → (contains existing k ≡ false) ⊎ (contains (names fs) k ≡ false)
      → at_key k (write_each s existing fs db).1.factories ≡ at_key k db.factories
  unfolding write_each
  write_each-other s existing [] db k keyed known b apart = refl
  write_each-other s existing (f ∷ fs) db k keyed known b apart =
      let (keyed', known', _, _, grown, _, others) =
        write_factory-Round s existing f db keyed known in
      let db' = (write_factory s existing f db).1 in
      let rest : (contains existing k ≡ false) ⊎ (contains (names fs) k ≡ false) = elim apart [
        | inl n ↦ inl n
        | inr n ↦ inr (later_unnamed f fs k n)
      ] in
      let here : (contains existing k ≡ false) ⊎ (f.factory_id ≢ some k) = elim apart [
        | inl n ↦ inl n
        | inr n ↦ inr (unnamed f fs k n)
      ] in
      write_each-other s existing fs db' k keyed' known' (omega (arith, b, grown)) rest
      ∙ others k b here

  pub write_each-ReadBack :
      (s : ℕ) (existing : List ℕ) (fs : List (MasterFormFactory Point)) (db : Db Point)
      → IsKeyed db
      → Known s existing db
      → Distinct (names fs)
      → (let (is, db') = write_each s existing fs db in ReadBack s is fs db'.factories)
  unfolding write_each
  write_each-ReadBack s existing [] db keyed known once = tt
  write_each-ReadBack s existing (f ∷ fs) db keyed known once =
      let (keyed', known', (r, e, own, v), b, _, from, _) =
        write_factory-Round s existing f db keyed known in
      let (i, db') = write_factory s existing f db in
      let apart : (contains existing i ≡ false) ⊎ (contains (names fs) i ≡ false) = elim from [
        | inl n ↦ inl n
        | inr n ↦ inr (first_name f fs i n once)
      ] in
      (
        (r, write_each-other s existing fs db' i keyed' known' b apart ∙ e, own, v),
        write_each-ReadBack s existing fs db' keyed' known' (later_names f fs once),
      )
