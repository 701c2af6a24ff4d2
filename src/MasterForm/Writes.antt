-- ===== src/MasterForm/Writes.antt =====
-- The writes of the sections of the master form in backend/domains/supplier/repository.py.
use kira_backend.Prelude.{
  ℕ, zero, suc, String, Bool, true, false, not, ◌&&◌, ◌||◌, Option, none, some, List, [], ◌∷◌, ◌++◌,
  map, ◌==◌, nat_eq, string_eq, option_eq, contains, if◌then◌else◌, is_some, any, filter,
  update_where,
}
use kira_backend.MasterForm.{
  MasterFormCompany, Supplier, MasterFormFactory, FactoryRow, MasterFormContact, ContactRow,
  CarbonValues, MasterFormFactoryCarbon, ManufacturerDetail, MasterFormManufacturing, Db, Section,
}

abbrev pub has_id : ℕ → Supplier → Bool
has_id i s = s.supplier_id == i

abbrev pub at_index : List ℕ → ℕ → Option ℕ
at_index [] i = none
at_index (x ∷ xs) zero = some x
at_index (x ∷ xs) (suc i) = at_index xs i

-- `_factory_id_at`
abbrev pub factory_id_at : Option ℕ → List ℕ → Option ℕ
factory_id_at none ids = none
factory_id_at (some i) ids = at_index ids i

-- ON DELETE CASCADE of the declarations
abbrev pub is_gone : List ℕ → List ℕ → ℕ × CarbonValues → Bool
is_gone stale referenced (i, _) = contains stale i && not (contains referenced i)

-- ON DELETE SET NULL of the contacts
abbrev pub detached : List ℕ → List ℕ → ContactRow → ContactRow
detached stale referenced c = elim c.factory_id [
  | none ↦ c
  | some i ↦
      if contains stale i && not (contains referenced i) then record c { factory_id = none } else c
]

abbrev pub given : Option String → Option String
given none = none
given (some v) = if v == "" then none else some v

abbrev pub fill_country : String → Supplier → Supplier
fill_country c r = record r { company = record r.company { country = some c } }

abbrev pub lacks_country : ℕ → Supplier → Bool
lacks_country s r = r.supplier_id == s && not (is_some (given r.company.country))

abbrev pub contact_row : ℕ → List ℕ → MasterFormContact → ContactRow
contact_row s ids c = record {
  supplier_id = s;
  factory_id = factory_id_at c.factory_index ids;
  values = c.values;
}

-- What PostgreSQL makes of a number in a column NUMERIC(5, 2) or NUMERIC(10, 4)
pub record Numeric : Type 0 where
  pub two_decimals : String → String
  pub four_decimals : String → String

abbrev pub rounded : (String → String) → Option String → Option String
rounded f none = none
rounded f (some x) = some (f x)

abbrev pub declaration : Numeric → CarbonValues → CarbonValues
declaration numeric v = record v { carbon_intensity = numeric.four_decimals v.carbon_intensity }

abbrev pub declared : Numeric → List ℕ → List MasterFormFactoryCarbon → List (ℕ × CarbonValues)
declared numeric ids [] = []
declared numeric ids (d ∷ ds) = elim (factory_id_at d.factory_index ids) [
  | none ↦ declared numeric ids ds
  | some i ↦ (i, declaration numeric d.values) ∷ declared numeric ids ds
]

abbrev pub section_if {ℓ} : {A : Type ℓ} → Section → List A → List Section
section_if name [] = []
section_if name (x ∷ xs) = name ∷ []

module _ {Point : Type 0} where
  unfoldable pub write_company : ℕ → MasterFormCompany → Db Point → Db Point
  write_company s form db = record db {
    suppliers = update_where (has_id s) (λ r. record r { company = form }) db.suppliers;
  }

  abbrev pub is_factory : ℕ → FactoryRow Point → Bool
  is_factory i r = r.factory_id == i

  abbrev pub is_of : ℕ → FactoryRow Point → Bool
  is_of s r = r.supplier_id == s

  abbrev pub ids_of : List (FactoryRow Point) → List ℕ
  ids_of [] = []
  ids_of (r ∷ rs) = r.factory_id ∷ ids_of rs

  abbrev pub inserted : ℕ → MasterFormFactory Point → Db Point → Db Point
  inserted s f db =
      let row : FactoryRow Point = record {
        factory_id = db.next_factory;
        supplier_id = s;
        is_active = true;
        values = f.values;
      } in
      record db { factories = db.factories ++ row ∷ []; next_factory = suc db.next_factory }

  abbrev pub updated : ℕ → MasterFormFactory Point → Db Point → Db Point
  updated i f db = record db {
    factories = update_where (is_factory i) (λ r. record r { values = f.values }) db.factories;
  }

  -- One round of the loop over the form: a factory that the supplier has is updated, any other is new.
  unfoldable pub write_factory : ℕ → List ℕ → MasterFormFactory Point → Db Point → ℕ × Db Point
  write_factory s existing f db = elim f.factory_id [
    | none ↦ (db.next_factory, inserted s f db)
    | some i ↦
        if contains existing i then (i, updated i f db) else (db.next_factory, inserted s f db)
  ]

  unfoldable pub write_each :
      ℕ → List ℕ → List (MasterFormFactory Point) → Db Point → List ℕ × Db Point
  unfolding write_factory
  write_each s existing [] db = ([], db)
  write_each s existing (f ∷ fs) db =
      let (i, db') = write_factory s existing f db in
      let (is, db'') = write_each s existing fs db' in (i ∷ is, db'')

  -- A factory that the form leaves out is deleted, or is made inactive where a row refers to it.
  abbrev pub keep_or_retire : List ℕ → List ℕ → List (FactoryRow Point) → List (FactoryRow Point)
  keep_or_retire stale referenced [] = []
  keep_or_retire stale referenced (r ∷ rs) =
      let rest = keep_or_retire stale referenced rs in
      if contains stale r.factory_id
      then if contains referenced r.factory_id then record r { is_active = false } ∷ rest else rest
      else r ∷ rest

  abbrev pub mining_country : List (MasterFormFactory Point) → Option String
  mining_country [] = none
  mining_country (f ∷ fs) =
      if f.values.factory_role == some "mining" && is_some (given f.values.country)
      then f.values.country
      else mining_country fs

  unfoldable pub backfill : ℕ → Option String → Db Point → Db Point
  backfill s none db = db
  backfill s (some c) db = record db {
    suppliers = update_where (lacks_country s) (fill_country c) db.suppliers;
  }

  -- `write_master_form_factories` for values as their columns hold them
  unfoldable pub write_rows : ℕ → List (MasterFormFactory Point) → Db Point → List ℕ × Db Point
  unfolding write_each backfill
  write_rows s fs db =
      let existing = ids_of (filter (is_of s) db.factories) in
      let (written, db') = write_each s existing fs db in
      let stale = filter (λ i. not (contains written i)) existing in
      let db'' : Db Point = record db' {
        factories = keep_or_retire stale db'.referenced db'.factories;
        contacts = map (detached stale db'.referenced) db'.contacts;
        declarations = filter (λ d. not (is_gone stale db'.referenced d)) db'.declarations;
      } in
      (written, backfill s (mining_country fs) db'')

  -- The column `supply_ratio_percent` rounds to two decimals.
  abbrev pub as_column : Numeric → MasterFormFactory Point → MasterFormFactory Point
  as_column numeric f = record f {
    values = record f.values {
      supply_ratio_percent = rounded numeric.two_decimals f.values.supply_ratio_percent;
    };
  }

  unfoldable pub write_factories :
      Numeric → ℕ → List (MasterFormFactory Point) → Db Point → List ℕ × Db Point
  unfolding write_rows
  write_factories numeric s fs db = write_rows s (map (as_column numeric) fs) db

  unfoldable pub write_contacts : ℕ → List MasterFormContact → List ℕ → Db Point → Db Point
  write_contacts s cs ids db = record db {
    contacts =
        filter (λ (r : ContactRow). not (r.supplier_id == s)) db.contacts
        ++ map (contact_row s ids) cs;
  }

  -- The columns `carbon_intensity` round to four decimals.
  unfoldable pub write_manufacturing :
      Numeric → ℕ → List ℕ → MasterFormManufacturing → Db Point → Db Point
  write_manufacturing numeric s ids m db =
      let detail : ManufacturerDetail = record m.detail {
        carbon_intensity = rounded numeric.four_decimals m.detail.carbon_intensity;
      } in
      record db {
        details =
            filter (λ (d : ℕ × ManufacturerDetail). not (d.0 == s)) db.details ++ (s, detail) ∷ [];
        declarations =
            filter (λ (d : ℕ × CarbonValues). not (contains ids d.0)) db.declarations
            ++ declared numeric ids m.factory_declarations;
      }

  unfoldable pub set_self_reported_risk_level : ℕ → String → Db Point → Db Point
  set_self_reported_risk_level s level db = record db {
    self_reported =
        if any (λ (r : ℕ × String). r.0 == s) db.self_reported
        then update_where (λ (r : ℕ × String). r.0 == s) (λ r. (s, level)) db.self_reported
        else db.self_reported ++ (s, level) ∷ [];
  }

  -- `if f.coordinates is None and (f.address or f.region)`
  abbrev pub located :
      (Option String → Option String → Option String → Option Point)
      → MasterFormFactory Point
      → MasterFormFactory Point
  located geocode f =
      if not (is_some f.values.coordinates)
        && (is_some (given f.values.address) || is_some (given f.values.region))
      then record f {
        values = record f.values {
          coordinates = geocode f.values.address f.values.country f.values.region;
        };
      }
      else f
