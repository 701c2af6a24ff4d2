-- ===== src/MasterForm/Kept.antt =====
-- What write_master_form_factories leaves as it is.
use kira_backend.Prelude.{
  ℕ, String, ◌≡◌, refl, sym, ap, ◌∙◌, subst, ◌⊎◌, inl, inr, Bool, true, false, not, ◌&&◌, Option,
  none, some, List, [], ◌∷◌, map, arith, ◌==◌, nat_eq, string_eq, option_eq, contains, nat_beq,
  nat_beq_iff, Bool-cases, Option-cases, is_some, All, filter, update_where, filter-append,
  All-append, All-map, Distinct,
}
use kira_backend.Prelude.{append-nil}
use kira_backend.MasterForm.{
  Supplier, FactoryValues, MasterFormFactory, FactoryRow, ContactRow, CarbonValues, Db,
}
use kira_backend.MasterForm.Writes.{
  Numeric, as_column, given, is_gone, is_factory, is_of, ids_of, inserted, updated, write_factory,
  write_each, write_rows, keep_or_retire, detached, lacks_country, fill_country, backfill,
  mining_country, write_factories,
}

contains-filter :
    (p : ℕ → Bool) (xs : List ℕ) (x : ℕ) → contains (filter p xs) x ≡ true → contains xs x ≡ true
contains-filter p [] x h = cc
contains-filter p (y ∷ ys) x h = ground (arith, contains-filter p ys x)

module _ {Point : Type 0} where
  abbrev pub theirs : ℕ → FactoryRow Point → Bool
  theirs s r = not (is_of s r)

  -- A row with one of these keys belongs to the supplier.
  abbrev Owned : ℕ → List ℕ → List (FactoryRow Point) → Type 0
  Owned s existing rs = All (λ r. contains existing r.factory_id ≡ true → is_of s r ≡ true) rs

  Owned-cons :
      (s x : ℕ) (existing : List ℕ) (rs : List (FactoryRow Point))
      → contains (ids_of rs) x ≡ false
      → Owned s existing rs
      → Owned s (x ∷ existing) rs
  Owned-cons s x existing [] h o = tt
  Owned-cons s x existing (r ∷ rs) h o = (
    λ k. o.0 (ground (arith, nat_beq_iff x r.factory_id, nat_beq_iff r.factory_id x)),
    Owned-cons s x existing rs (ground arith) o.1,
  )

  pub absent-filter :
      (p : FactoryRow Point → Bool) (rs : List (FactoryRow Point)) (x : ℕ)
      → contains (ids_of rs) x ≡ false
      → contains (ids_of (filter p rs)) x ≡ false
  absent-filter p [] x h = refl
  absent-filter p (r ∷ rs) x h = ground (arith, absent-filter p rs x)

  Owned-start :
      (s : ℕ) (rs : List (FactoryRow Point))
      → Distinct (ids_of rs)
      → Owned s (ids_of (filter (is_of s) rs)) rs
  Owned-start s [] d = tt
  Owned-start s (r ∷ rs) d =
      let rest = Owned-start s rs d.1 in
      let fresh = absent-filter (is_of s) rs r.factory_id d.0 in
      elim (Bool-cases (is_of s r)) [
        | inl mine ↦
            let ids : ids_of (filter (is_of s) (r ∷ rs))
                ≡ r.factory_id ∷ ids_of (filter (is_of s) rs) =
              ground arith in
            subst (λ xs. Owned s xs (r ∷ rs)) (sym ids)
              (λ k. mine, Owned-cons s r.factory_id (ids_of (filter (is_of s) rs)) rs d.0 rest)
        | inr other ↦
            let ids : ids_of (filter (is_of s) (r ∷ rs)) ≡ ids_of (filter (is_of s) rs) =
              ground arith in
            subst (λ xs. Owned s xs (r ∷ rs)) (sym ids) (λ k. absurd (cc (sym k ∙ fresh)), rest)
      ]

  Owned-update :
      (s i : ℕ) (existing : List ℕ) (v : FactoryValues Point) (rs : List (FactoryRow Point))
      → Owned s existing rs
      → Owned s existing (update_where (is_factory i) (λ r. record r { values = v }) rs)
  Owned-update s i existing v [] o = tt
  Owned-update s i existing v (r ∷ rs) o =
      (λ k. ground (arith, o.0), Owned-update s i existing v rs o.1)

  theirs-update :
      (s i : ℕ) (existing : List ℕ) (v : FactoryValues Point) (rs : List (FactoryRow Point))
      → contains existing i ≡ true
      → Owned s existing rs
      → filter (theirs s) (update_where (is_factory i) (λ r. record r { values = v }) rs)
        ≡ filter (theirs s) rs
  theirs-update s i existing v [] h o = refl
  theirs-update s i existing v (r ∷ rs) h o = elim (Bool-cases (nat_beq r.factory_id i)) [
    | inl same ↦
        let e = (nat_beq_iff r.factory_id i).0 same in
        let mine = o.0 (ap (contains existing) e ∙ h) in
        ground (arith, theirs-update s i existing v rs h o.1)
    | inr other ↦ ground (arith, theirs-update s i existing v rs h o.1)
  ]

  theirs-keep_or_retire :
      (s : ℕ) (stale referenced : List ℕ) (rs : List (FactoryRow Point))
      → Owned s stale rs
      → filter (theirs s) (keep_or_retire stale referenced rs) ≡ filter (theirs s) rs
  theirs-keep_or_retire s stale referenced [] o = refl
  theirs-keep_or_retire s stale referenced (r ∷ rs) o =
      ground (arith, theirs-keep_or_retire s stale referenced rs o.1, o.0)

  -- What a write of factories leaves as it is
  abbrev Keeps : ℕ → List ℕ → Db Point → Db Point → Type 0
  Keeps s existing db db' =
      (filter (theirs s) db'.factories ≡ filter (theirs s) db.factories)
      × Owned s existing db'.factories
      × (db'.suppliers ≡ db.suppliers)
      × (db'.contacts ≡ db.contacts)
      × (db'.details ≡ db.details)
      × (db'.self_reported ≡ db.self_reported)
      × (db'.referenced ≡ db.referenced)
      × (db'.declarations ≡ db.declarations)

  inserted-Keeps :
      (s : ℕ) (existing : List ℕ) (f : MasterFormFactory Point) (db : Db Point)
      → Owned s existing db.factories
      → Keeps s existing db (inserted s f db)
  inserted-Keeps s existing f db o =
      let own : nat_beq s s ≡ true = (nat_beq_iff s s).1 refl in
      (
        filter-append (theirs s) db.factories _
            ∙ rw own (append-nil (filter (theirs s) db.factories)),
        All-append _ db.factories _ o (λ k. own, tt),
        refl,
        refl,
        refl,
        refl,
        refl,
        refl,
      )

  updated-Keeps :
      (s i : ℕ) (existing : List ℕ) (f : MasterFormFactory Point) (db : Db Point)
      → contains existing i ≡ true
      → Owned s existing db.factories
      → Keeps s existing db (updated i f db)
  updated-Keeps s i existing f db h o = (
    theirs-update s i existing f.values db.factories h o,
    Owned-update s i existing f.values db.factories o,
    refl,
    refl,
    refl,
    refl,
    refl,
    refl,
  )

  write_factory-Keeps :
      (s : ℕ) (existing : List ℕ) (f : MasterFormFactory Point) (db : Db Point)
      → Owned s existing db.factories
      → Keeps s existing db (write_factory s existing f db).1
  unfolding write_factory
  write_factory-Keeps s existing f db o = elim (Option-cases f.factory_id) [
    | inl new ↦ rw new (inserted-Keeps s existing f db o)
    | inr (i, e) ↦ elim (Bool-cases (contains existing i)) [
      | inl known ↦ rw (e, known) (updated-Keeps s i existing f db known o)
      | inr other ↦ rw (e, other) (inserted-Keeps s existing f db o)
    ]
  ]

  write_each-Keeps :
      (s : ℕ) (existing : List ℕ) (fs : List (MasterFormFactory Point)) (db : Db Point)
      → Owned s existing db.factories
      → Keeps s existing db (write_each s existing fs db).1
  unfolding write_each
  write_each-Keeps s existing [] db o = (refl, o, refl, refl, refl, refl, refl, refl)
  write_each-Keeps s existing (f ∷ fs) db o =
      let (a, o', b, c, d, e, g, k) = write_factory-Keeps s existing f db o in
      let (a', o'', b', c', d', e', g', k') =
        write_each-Keeps s existing fs (write_factory s existing f db).1 o' in
      (a' ∙ a, o'', b' ∙ b, c' ∙ c, d' ∙ d, e' ∙ e, g' ∙ g, k' ∙ k)

  Owned-filter :
      (s : ℕ) (p : ℕ → Bool) (existing : List ℕ) (rs : List (FactoryRow Point))
      → Owned s existing rs
      → Owned s (filter p existing) rs
  Owned-filter s p existing rs o =
      All-map _ _ (λ r k h. k (contains-filter p existing r.factory_id h)) rs o

-- The companies of a table but for a country: that of the supplier `s` where it has none.
abbrev pub Filled : ℕ → List Supplier → List Supplier → Type 0
Filled s [] [] = Unit
Filled s (r ∷ rs) (q ∷ qs) =
    ((q ≡ r)
      ⊎ ((r.supplier_id ≡ s)
          × ((r.company.country ≡ none) ⊎ (r.company.country ≡ some ""))
          × (c : String) × (q ≡ record r { company = record r.company { country = some c } })))
    × Filled s rs qs
Filled s _ _ = ⊥

Filled-refl : (s : ℕ) (rs : List Supplier) → Filled s rs rs
Filled-refl s [] = tt
Filled-refl s (r ∷ rs) = (inl refl, Filled-refl s rs)

given-none : (o : Option String) → is_some (given o) ≡ false → (o ≡ none) ⊎ (o ≡ some "")
given-none none h = inl refl
given-none (some v) h = elim (Bool-cases (v == "")) [
  | inl empty ↦ inr (ap some ((string_eq.test_iff v "").0 empty))
  | inr full ↦ absurd (cc (rw full at h))
]

update-Filled :
    (s : ℕ) (c : String) (rs : List Supplier)
    → Filled s rs (update_where (lacks_country s) (fill_country c) rs)
update-Filled s c [] = tt
update-Filled s c (r ∷ rs) = elim (Bool-cases (lacks_country s r)) [
  | inl lacks ↦
      let own : r.supplier_id ≡ s = (nat_beq_iff r.supplier_id s).0 (ground arith) in
      let blank = given-none r.company.country (ground arith) in
      rw lacks (inr (own, blank, c, refl), update-Filled s c rs)
  | inr has ↦ rw has (inl refl, update-Filled s c rs)
]

-- The contacts of a table but for links to factories with these keys
abbrev pub Unlinked : List ℕ → List ContactRow → List ContactRow → Type 0
Unlinked ids [] [] = Unit
Unlinked ids (c ∷ cs) (d ∷ ds) =
    ((d ≡ c)
      ⊎ ((i : ℕ) × (c.factory_id ≡ some i)
          × (contains ids i ≡ true)
          × (d ≡ record c { factory_id = none })))
    × Unlinked ids cs ds
Unlinked ids _ _ = ⊥

detached-cases :
    (stale referenced : List ℕ) (c : ContactRow)
    → (detached stale referenced c ≡ c)
      ⊎ ((i : ℕ) × (c.factory_id ≡ some i)
          × (contains stale i ≡ true)
          × (detached stale referenced c ≡ record c { factory_id = none }))
detached-cases stale referenced c = elim (Option-cases c.factory_id) [
  | inl unlinked ↦ inl (ground arith)
  | inr (i, e) ↦ elim (Bool-cases (contains stale i && not (contains referenced i))) [
    | inl gone ↦ inr (i, e, ground arith, ground arith)
    | inr there ↦ inl (ground arith)
  ]
]

map-Unlinked :
    (ids stale referenced : List ℕ) (cs : List ContactRow)
    → ((i : ℕ) → contains stale i ≡ true → contains ids i ≡ true)
    → Unlinked ids cs (map (detached stale referenced) cs)
map-Unlinked ids stale referenced [] h = tt
map-Unlinked ids stale referenced (c ∷ cs) h = (
  elim (detached-cases stale referenced c) [
    | inl same ↦ inl same
    | inr (i, e, gone, cleared) ↦ inr (i, e, h i gone, cleared)
  ],
  map-Unlinked ids stale referenced cs h,
)

-- The declarations of other factories
abbrev pub elsewhere : List ℕ → ℕ × CarbonValues → Bool
elsewhere ids d = not (contains ids d.0)

filter-elsewhere :
    (ids stale referenced : List ℕ) (ds : List (ℕ × CarbonValues))
    → ((i : ℕ) → contains stale i ≡ true → contains ids i ≡ true)
    → filter (elsewhere ids) (filter (λ d. not (is_gone stale referenced d)) ds)
      ≡ filter (elsewhere ids) ds
filter-elsewhere ids stale referenced [] h = refl
filter-elsewhere ids stale referenced ((i, v) ∷ ds) h =
    ground (arith, filter-elsewhere ids stale referenced ds h, h i)

-- What a form written for another supplier leaves: the factories of all others with their
-- declarations, every company but for its own country where it had none, every contact but for a
-- link to its own factories, details and self-assessments.
abbrev pub OnlyFactories : {Point : Type 0} → ℕ → Db Point → Db Point → Type 0
OnlyFactories s db db' =
    (filter (theirs s) db'.factories ≡ filter (theirs s) db.factories)
    × Filled s db.suppliers db'.suppliers
    × Unlinked (ids_of (filter (is_of s) db.factories)) db.contacts db'.contacts
    × (filter (elsewhere (ids_of (filter (is_of s) db.factories))) db'.declarations
        ≡ filter (elsewhere (ids_of (filter (is_of s) db.factories))) db.declarations)
    × (db'.details ≡ db.details)
    × (db'.self_reported ≡ db.self_reported)

write_rows-OnlyFactories :
    {Point : Type 0} (s : ℕ) (fs : List (MasterFormFactory Point)) (db : Db Point)
    → Distinct (ids_of db.factories)
    → OnlyFactories s db (write_rows s fs db).1
unfolding write_rows backfill
write_rows-OnlyFactories s fs db d =
    let existing = ids_of (filter (is_of s) db.factories) in
    let (written, db') = write_each s existing fs db in
    let stale = filter (λ i. not (contains written i)) existing in
    let inside = contains-filter (λ i. not (contains written i)) existing in
    let (a, o, b, c, e, g, h, k) =
      write_each-Keeps s existing fs db (Owned-start s db.factories d) in
    let kept =
      theirs-keep_or_retire s stale db'.referenced db'.factories
        (Owned-filter s (λ i. not (contains written i)) existing db'.factories o) in
    let contacts : Unlinked existing db.contacts
        (map (detached stale db'.referenced) db'.contacts) =
      subst (λ cs. Unlinked existing cs (map (detached stale db'.referenced) db'.contacts)) c
        (map-Unlinked existing stale db'.referenced db'.contacts inside) in
    let declarations =
      filter-elsewhere existing stale db'.referenced db'.declarations inside
      ∙ ap (filter (elsewhere existing)) k in
    elim (Option-cases (mining_country fs)) [
      | inl no_country ↦ rw no_country (
        kept ∙ a,
        subst (Filled s db.suppliers) (sym b) (Filled-refl s db.suppliers),
        contacts,
        declarations,
        e,
        g,
      )
      | inr (found, q) ↦ rw q (
        kept ∙ a,
        subst
            (λ rs. Filled s rs (update_where (lacks_country s) (fill_country found) db'.suppliers))
            b (update-Filled s found db'.suppliers),
        contacts,
        declarations,
        e,
        g,
      )
    ]

pub write_factories-OnlyFactories :
    {Point : Type 0} (numeric : Numeric) (s : ℕ) (fs : List (MasterFormFactory Point))
    (db : Db Point)
    → Distinct (ids_of db.factories)
    → OnlyFactories s db (write_factories numeric s fs db).1
unfolding write_factories
write_factories-OnlyFactories numeric s fs db d =
    write_rows-OnlyFactories s (map (as_column numeric) fs) db d
