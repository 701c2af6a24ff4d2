-- ===== src/MasterForm/Tests.antt =====
-- The mine 4, the form of which the smelter 3 writes: it has the site 10, and gets a second one.
mod Documents
use kira_backend.Prelude.{
  some-injective, ℕ, zero, suc, ◌+◌, ◌-◌, ◌*◌, ◌/◌, ◌%◌, ◌≤◌, ◌<◌, min, max, String, ◌≡◌, refl, sym,
  ap, ◌∙◌, subst, ◌↔◌, ◌⊎◌, inl, inr, Bool, true, false, not, ◌&&◌, ◌||◌, Option, none, some, List,
  [], ◌∷◌, ◌++◌, map, arith, Eq, ◌==◌, nat_eq, string_eq, option_eq, option_beq_iff, contains,
  Error, value_error, type_error, integrity_error, database_error, batch_not_found, key_error,
  cycle_error, Result, ok, err, ◌>>=◌, ◌>>◌, raise_if, >>=-eq-ok, IfReturns, IfReturns-ok, ltb, leb,
  nat_beq, nat_beq_iff, if◌then◌else◌, Bool-cases, Option-cases, List-cases, Result-cases, is_some,
  length, All, any, all, filter, count_if, find?, update_where, length-append, count_if-append,
  filter-append, All-append, All-map, any-append, find?-holds, find?-any, length-update_where,
  find?-update_self, find?-update_other, find?-append_new, find?-append_other, Distinct,
  length-Distinct, Distinct-append, contains-append,
}
use kira_backend.MasterForm.{
  MasterFormCompany, Supplier, FactoryValues, FactoryRow, MasterFormRequest, Db, Section,
}
use kira_backend.MasterForm.Submit.{submit_master_form}
use kira_backend.MasterForm.Keys.{ReadBack, IsKeyed}
use kira_backend.MasterForm.Factories.{write_factories_reads_back}
use kira_backend.MasterForm.Writes.{Numeric, as_column, write_factories}
use kira_backend.SupplyChain.{MapEdge, supplychain_declared, erp, unverified, is_ancestor}

abbrev a_company : String → Option String → MasterFormCompany
a_company kind country = record {
  company_name = some "A company";
  provider_type = some kind;
  country = country;
  company_name_en = none;
  company_name_ko = none;
  short_name_en = none;
  short_name_ko = none;
  business_reg_no = none;
  corporate_reg_no = none;
  duns_number = none;
  tax_number = none;
  website = none;
  smelter_type = none;
  core_minerals = none;
  business_reg_doc_url = none;
  environmental_report_url = none;
  self_assessment_doc_url = none;
  material_composition_doc_url = none;
  carbon_footprint_doc_url = none;
  established_year = none;
  employee_count = none;
}

abbrev a_site : String → FactoryValues String
a_site name = record {
  coordinates = none;
  factory_name = some name;
  factory_name_en = none;
  address = none;
  country = some "CL";
  region = some "Antofagasta";
  factory_role = some "mining";
  operating_period_from = none;
  operating_period_to = none;
  monthly_capacity = none;
  destination = none;
  destination_detail = none;
  applicable_regulations = none;
  supply_ratio_percent = some "33.333";
  supply_quantity = none;
  core_minerals = none;
  factory_manager_name = none;
  factory_manager_role = none;
  factory_manager_phone = none;
  factory_manager_email = none;
}

abbrev smelter_above_mine : List MapEdge
smelter_above_mine =
    record {
      edge_id = 1;
      map_id = 50;
      bom_version_id = 5;
      parent_supplier_id = some 3;
      child_supplier_id = some 4;
      part_id = none;
      hop_level = some 3;
      link_status = supplychain_declared;
      discovered_via = none;
      source_system = erp;
      verification_status = unverified;
      created_at = 0;
    }
    ∷ []

abbrev a_mine : Supplier
a_mine = record { supplier_id = 4; company = a_company "miner" none }

abbrev before : Db String
before = record {
  suppliers = record { supplier_id = 3; company = a_company "smelter" (some "KR") } ∷ a_mine ∷ [];
  factories =
      record { factory_id = 10; supplier_id = 4; is_active = false; values = a_site "North" }
      ∷ record { factory_id = 11; supplier_id = 3; is_active = true; values = a_site "Smelter" }
      ∷ [];
  next_factory = 12;
  referenced = 10 ∷ [];
  contacts = [];
  details = [];
  declarations = [];
  self_reported = [];
  submitted = [];
}

abbrev truncated : Numeric
truncated = record {
  two_decimals = λ x. if x == "33.333" then "33.33" else x;
  four_decimals = λ x. x;
}

abbrev a_form : MasterFormRequest String
a_form = record {
  company = a_company "trader" (some "XX");
  factories =
      record { factory_id = some 10; values = a_site "North pit" }
      ∷ record { factory_id = some 11; values = a_site "South" }
      ∷ [];
  contacts = [];
  manufacturing = none;
  self_reported_risk_level = some "low";
}

abbrev by_region : Option String → Option String → Option String → Option String
by_region address country region = region

abbrev site_state : FactoryRow String → ℕ × Bool
site_state f = (f.factory_id, f.is_active)

abbrev sites_of : Option (Result (List Section × Db String)) → List (ℕ × Bool)
sites_of none = []
sites_of (some (err e)) = []
sites_of (some (ok (saved, db))) = map site_state db.factories

abbrev sites_after : List (ℕ × Bool)
sites_after =
    sites_of (submit_master_form truncated 2 smelter_above_mine by_region (some 3) 4 a_form before)

-- A factory that was made inactive stays so when a form has it again, and the key of a factory of
-- another supplier makes a new one.
writes_sites : sites_after ≡ (10, false) ∷ (11, true) ∷ (12, true) ∷ []
unfolding submit_master_form is_ancestor
writes_sites = refl

before-IsKeyed : IsKeyed before
before-IsKeyed i h = ground (arith, nat_beq_iff 10 i, nat_beq_iff 11 i)

write_factories_reads_back_example :
    (let (is, db') = write_factories truncated 4 a_form.factories before in
      ReadBack 4 is (map (as_column truncated) a_form.factories) db'.factories)
write_factories_reads_back_example =
    write_factories_reads_back truncated 4 a_form.factories before (refl, (refl, tt)) before-IsKeyed
      (refl, (refl, tt))
