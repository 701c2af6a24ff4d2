-- ===== src/MasterForm/Keys.antt =====
-- The rows that a key finds, before and after one write of a factory.
use kira_backend.Prelude.{
  ℕ, ◌≤◌, ◌<◌, ◌≡◌, refl, sym, ◌∙◌, ◌≢◌, inl, inr, true, false, Option, none, some, List, [], ◌∷◌,
  arith, nat_eq, string_eq, option_eq, contains, ltb, nat_beq, nat_beq_iff, Bool-cases, find?,
  find?-holds, find?-update_self, find?-update_other, find?-append_new, find?-append_other,
}
use kira_backend.MasterForm.{FactoryValues, MasterFormFactory, FactoryRow, Db}
use kira_backend.MasterForm.Writes.{is_factory, inserted, updated}

module _ {Point : Type 0} where
  -- What a client finds under a key
  abbrev pub at_key : ℕ → List (FactoryRow Point) → Option (FactoryRow Point)
  at_key i rs = find? (is_factory i) rs

  abbrev pub Holds : ℕ → FactoryValues Point → ℕ → List (FactoryRow Point) → Type 0
  Holds s v i rs =
      (r : FactoryRow Point) × (at_key i rs ≡ some r) × (r.supplier_id ≡ s) × (r.values ≡ v)

  -- The keys, in the order of the form, have the values of the form.
  abbrev pub ReadBack :
      ℕ → List ℕ → List (MasterFormFactory Point) → List (FactoryRow Point) → Type 0
  ReadBack s [] [] rs = Unit {0}
  ReadBack s [] (f ∷ fs) rs = ⊥
  ReadBack s (i ∷ is) [] rs = ⊥
  ReadBack s (i ∷ is) (f ∷ fs) rs = Holds s f.values i rs × ReadBack s is fs rs

  -- The keys that a form names
  abbrev pub names : List (MasterFormFactory Point) → List ℕ
  names [] = []
  names (f ∷ fs) = elim f.factory_id [ none ↦ names fs | some i ↦ i ∷ names fs ]

  -- No row has the next key or a later one.
  abbrev pub IsKeyed : Db Point → Type 0
  IsKeyed db = (i : ℕ) → db.next_factory ≤ i → at_key i db.factories ≡ none

  abbrev pub Known : ℕ → List ℕ → Db Point → Type 0
  Known s existing db =
      (j : ℕ)
      → contains existing j ≡ true
      → (r : FactoryRow Point) × (at_key j db.factories ≡ some r) × (r.supplier_id ≡ s)

  pub key_bound :
      (db : Db Point) (j : ℕ) (r : FactoryRow Point)
      → IsKeyed db
      → at_key j db.factories ≡ some r
      → j < db.next_factory
  key_bound db j r keyed e = elim (Bool-cases (ltb j db.next_factory)) [
    | inl below ↦ ground arith
    | inr above ↦ absurd (cc (sym e ∙ keyed j (ground arith)))
  ]

  pub at_key-inserted :
      (s i : ℕ) (f : MasterFormFactory Point) (db : Db Point)
      → i ≢ db.next_factory
      → at_key i (inserted s f db).factories ≡ at_key i db.factories
  at_key-inserted s i f db n =
      find?-append_other (is_factory i) _ db.factories
        (ground (arith, nat_beq_iff db.next_factory i))

  pub at_key-updated :
      (i j : ℕ) (f : MasterFormFactory Point) (db : Db Point)
      → i ≢ j
      → at_key i (updated j f db).factories ≡ at_key i db.factories
  at_key-updated i j f db n = find?-update_other (is_factory i) (is_factory j) _ db.factories λ r h.
      let e = (nat_beq_iff r.factory_id j).0 h in
      let other : nat_beq r.factory_id i ≡ false = ground (arith, nat_beq_iff r.factory_id i) in
      (other, other)

  pub inserted-IsKeyed :
      (s : ℕ) (f : MasterFormFactory Point) (db : Db Point) → IsKeyed db → IsKeyed (inserted s f db)
  inserted-IsKeyed s f db keyed i h =
      at_key-inserted s i f db (λ e. omega (arith, e, h)) ∙ keyed i (omega (arith, h))

  pub updated-IsKeyed :
      (j : ℕ) (f : MasterFormFactory Point) (db : Db Point)
      → j < db.next_factory
      → IsKeyed db
      → IsKeyed (updated j f db)
  updated-IsKeyed j f db b keyed i h =
      at_key-updated i j f db (λ e. omega (arith, e, h, b)) ∙ keyed i h

  pub inserted-Holds :
      (s : ℕ) (f : MasterFormFactory Point) (db : Db Point)
      → IsKeyed db
      → Holds s f.values db.next_factory (inserted s f db).factories
  inserted-Holds s f db keyed = (
    _,
    find?-append_new (is_factory db.next_factory) _ db.factories
        (keyed db.next_factory (omega arith))
        ((nat_beq_iff db.next_factory db.next_factory).1 refl),
    refl,
    refl,
  )

  pub updated-Holds :
      (s j : ℕ) (f : MasterFormFactory Point) (db : Db Point) (r : FactoryRow Point)
      → at_key j db.factories ≡ some r
      → r.supplier_id ≡ s
      → Holds s f.values j (updated j f db).factories
  updated-Holds s j f db r e own = (
    _,
    find?-update_self (is_factory j) _ db.factories e (find?-holds (is_factory j) db.factories e),
    own,
    refl,
  )
