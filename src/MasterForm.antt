-- ===== src/MasterForm.antt =====
-- The master form of a supplier: submit_master_form of backend/domains/supplier/service.py with the
-- writes of backend/domains/supplier/repository.py, over the forms of
-- backend/domains/supplier/models.py. A date, a decimal and a JSON value is its text. The geocoder
-- is a parameter, `Point` the type of its coordinates. `referenced` has the factories that a row of
-- another table keeps from being deleted. Constraints on the columns are left out: a write that
-- violates one raises, and the session is rolled back.
pub mod Writes
pub mod Submit
pub mod Kept
pub mod OnBehalf
pub mod Keys
pub mod Rounds
pub mod Factories
pub mod Prefill
pub mod Assembly
pub mod Best
mod Tests
use kira_backend.Prelude.{
  some-injective, ℕ, zero, suc, ◌+◌, ◌-◌, ◌*◌, ◌/◌, ◌%◌, ◌≤◌, ◌<◌, min, max, String, ◌≡◌, refl, sym,
  ap, ◌∙◌, subst, ◌≢◌, ◌↔◌, ◌⊎◌, inl, inr, Bool, true, false, not, ◌&&◌, ◌||◌, Option, none, some,
  List, [], ◌∷◌, ◌++◌, map, arith, Eq, ◌==◌, nat_eq, string_eq, option_eq, option_beq_iff, contains,
  Error, value_error, type_error, integrity_error, database_error, batch_not_found, key_error,
  cycle_error, http, Result, ok, err, ◌>>=◌, ◌>>◌, raise_if, >>=-eq-ok, IfReturns, IfReturns-ok,
  ltb, leb, nat_beq, nat_beq_iff, if◌then◌else◌, Bool-cases, Option-cases, List-cases, Result-cases,
  is_some, length, All, any, all, filter, count_if, find?, update_where, length-append,
  count_if-append, filter-append, All-append, All-map, any-append, find?-holds, find?-any,
  length-update_where, find?-update_self, find?-update_other, find?-append_new, find?-append_other,
  Distinct, length-Distinct, Distinct-append, contains-append,
}

-- The company section, and the columns of `suppliers` that it writes. The form always has a name and
-- a provider type.
pub record MasterFormCompany : Type 0 where
  pub company_name : Option String
  pub provider_type : Option String
  pub country : Option String
  pub company_name_en : Option String
  pub company_name_ko : Option String
  pub short_name_en : Option String
  pub short_name_ko : Option String
  pub business_reg_no : Option String
  pub corporate_reg_no : Option String
  pub duns_number : Option String
  pub tax_number : Option String
  pub website : Option String
  pub smelter_type : Option String
  pub core_minerals : Option String
  pub business_reg_doc_url : Option String
  pub environmental_report_url : Option String
  pub self_assessment_doc_url : Option String
  pub material_composition_doc_url : Option String
  pub carbon_footprint_doc_url : Option String
  pub established_year : Option ℕ
  pub employee_count : Option ℕ

pub record Supplier : Type 0 where
  pub supplier_id : ℕ
  pub company : MasterFormCompany

-- `values` of the write: all columns but the key and `is_active`
pub record FactoryValues (Point : Type 0) : Type 0 where
  pub coordinates : Option Point
  pub factory_name : Option String
  pub factory_name_en : Option String
  pub address : Option String
  pub country : Option String
  pub region : Option String
  pub factory_role : Option String
  pub operating_period_from : Option String
  pub operating_period_to : Option String
  pub monthly_capacity : Option String
  pub destination : Option String
  pub destination_detail : Option String
  pub applicable_regulations : Option String
  pub supply_ratio_percent : Option String
  pub supply_quantity : Option String
  pub core_minerals : Option String
  pub factory_manager_name : Option String
  pub factory_manager_role : Option String
  pub factory_manager_phone : Option String
  pub factory_manager_email : Option String

pub record MasterFormFactory (Point : Type 0) : Type 0 where
  pub factory_id : Option ℕ
  pub values : FactoryValues Point

pub record FactoryRow (Point : Type 0) : Type 0 where
  pub factory_id : ℕ
  pub supplier_id : ℕ
  pub is_active : Bool
  pub values : FactoryValues Point

pub record ContactValues : Type 0 where
  pub name : Option String
  pub name_en : Option String
  pub role : Option String
  pub department : Option String
  pub email : Option String
  pub phone : Option String
  pub mobile : Option String
  pub is_primary : Bool
  pub language : Option String

-- A negative index is as one out of range.
pub record MasterFormContact : Type 0 where
  pub factory_index : Option ℕ
  pub values : ContactValues

pub record ContactRow : Type 0 where
  pub supplier_id : ℕ
  pub factory_id : Option ℕ
  pub values : ContactValues

pub record CarbonValues : Type 0 where
  pub carbon_intensity : String
  pub methodology : Option String
  pub declared_at : String
  pub valid_from : Option String
  pub valid_to : Option String
  pub source : String

pub record MasterFormFactoryCarbon : Type 0 where
  pub factory_index : Option ℕ
  pub values : CarbonValues

pub record ManufacturerDetail : Type 0 where
  pub manufacturing_process : Option String
  pub energy_source : Option String
  pub capacity : Option String
  pub carbon_intensity : Option String

pub record MasterFormManufacturing : Type 0 where
  pub detail : ManufacturerDetail
  pub factory_declarations : List MasterFormFactoryCarbon

pub record MasterFormRequest (Point : Type 0) : Type 0 where
  pub company : MasterFormCompany
  pub factories : List (MasterFormFactory Point)
  pub contacts : List MasterFormContact
  pub manufacturing : Option MasterFormManufacturing
  pub self_reported_risk_level : Option String

-- The tables; `next_factory` is the next key of a factory, and `submitted` the published events.
pub record Db (Point : Type 0) : Type 0 where
  pub suppliers : List Supplier
  pub factories : List (FactoryRow Point)
  pub next_factory : ℕ
  pub referenced : List ℕ
  pub contacts : List ContactRow
  pub details : List (ℕ × ManufacturerDetail)
  pub declarations : List (ℕ × CarbonValues)
  pub self_reported : List (ℕ × String)
  pub submitted : List ℕ

pub data Section : Type 0 where
  company factories contacts manufacturing self_assessment : Section
