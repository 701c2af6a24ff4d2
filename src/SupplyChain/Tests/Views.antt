-- ===== src/SupplyChain/Tests/Views.antt =====
-- Runs of what reads, confirms and audits a supply chain.
use kira_backend.Prelude.{
  ℕ, String, ◌≡◌, refl, ◌↔◌, Bool, true, false, not, ◌&&◌, ◌||◌, Option, none, some, List, [], ◌∷◌,
  ◌++◌, map, arith, ◌==◌, nat_eq, string_eq, option_eq, contains, ok, is_some, any, all, filter,
  Distinct,
}
use kira_backend.SupplyChain.{Database, completed}
use kira_backend.SupplyChain.Tests.{an_edge, three_edges, a_chain}
use kira_backend.SupplyChain.Maps.{
  confirm_map, confirm_pool, set_map_status, theirs, their_map, writes_stay_in_tenant,
}
use kira_backend.SupplyChain.Gaps.{
  FieldData, Regulation, RequiredField, Node, field_has_map, node_of, get_gaps, is_target,
  request_gaps, Accepted, trigger_gap_data_requests, ValidationSummary, get_validation_summary,
}
use kira_backend.SupplyChain.Gaps.Requests.{ids, has_gap, trigger_gap_data_requests_lem}
use kira_backend.SupplyChain.Tree.{TreeRow, anchors, sc_tree, Held, get_supplier_field_data}
use kira_backend.SupplyChain.Tree.Reached.{listed, Supplies}
use kira_backend.SupplyChain.Tree.Complete.{sc_tree_lists_suppliers}
use kira_backend.SupplyChain.Tree.Rows.{map_summary_ready}
use kira_backend.SupplyChain.GeoAudit.{
  Factory, Geography, Texts, Prefecture, xinjiang, xinjiang_prefectures, resolve_xinjiang_region,
  names, execute_geo_audit,
}
use kira_backend.SupplyChain.GeoAudit.Audit.{reported, row_id, risks, execute_geo_audit_lem}
use kira_backend.SupplyChain.GeoAudit.Hold.{risk_types, is_risky, geo_audit_node_holds_every_batch}
use kira_backend.SupplyChain.GeoAudit.Regions.{is_wide, resolve_xinjiang_region_lem}
use kira_backend.Pipeline.{BatchState, geographical_risk}
use kira_backend.Pipeline.Tables.{Db}
use kira_backend.Pipeline.Nodes.{geo_audit_node}
use kira_backend.Pipeline.Graph.{initial_state}

-- Version 6 and its product 19 belong to tenant 8.
abbrev two_tenants : Database
two_tenants = record a_chain {
  edges = three_edges ++ record (an_edge 4 none 1 0) { bom_version_id = 6 } ∷ [];
  bom_versions = (5, 9) ∷ (6, 19) ∷ [];
  products = (9, 7) ∷ (19, 8) ∷ [];
}

writes_stay_in_tenant_example :
    (filter (theirs two_tenants 7) (confirm_map 2 7 two_tenants).1.edges
      ≡ filter (theirs two_tenants 7) two_tenants.edges)
    × (filter (theirs two_tenants 7) (confirm_pool 50 7 [] two_tenants).1.edges
        ≡ filter (theirs two_tenants 7) two_tenants.edges)
    × (filter (their_map two_tenants 7) (set_map_status 50 completed 100 7 3 two_tenants).1.maps
        ≡ filter (their_map two_tenants 7) two_tenants.maps)
writes_stay_in_tenant_example =
    writes_stay_in_tenant 2 50 7 100 3 [] completed two_tenants (refl, tt)

confirmed_pool : (confirm_pool 50 7 [] two_tenants).0.confirmed_suppliers ≡ 2 ∷ []
unfolding confirm_pool
confirmed_pool = refl

-- The mine has no coordinates, and nobody has agreed but the smelter.
abbrev regulation : Regulation
regulation = record { regulation_id = 1; regulation_code = "UFLPA"; name = "UFLPA" }

abbrev required_of : String → List RequiredField
required_of code =
    record {
      field_name = "mine_coordinates";
      is_mandatory = true;
      provider_type_applicable = "miner" ∷ [];
    }
    ∷ []

abbrev row_of : ℕ → String → Option ℕ → Bool → Bool → FieldData
row_of s type depth is_root agreed = record {
  supplier_id = s;
  company_name = none;
  provider_type = some type;
  depth = depth;
  is_root_anchor = is_root;
  has_carbon_intensity = true;
  has_factory_carbon_decl = true;
  has_mine_coordinates = false;
  has_origin_country = true;
  has_consent_agreed = agreed;
}

abbrev some_rows : List FieldData
some_rows =
    row_of 1 "manufacturer" (some 0) true false
    ∷ row_of 2 "manufacturer" (some 1) false false
    ∷ row_of 2 "manufacturer" (some 2) false false
    ∷ row_of 3 "smelter" (some 3) false true
    ∷ row_of 4 "miner" (some 4) false false
    ∷ []

asked_suppliers :
    map
      (λ (a : Accepted). a.requested_data_type)
      (trigger_gap_data_requests required_of (regulation ∷ []) some_rows [])
    ≡ "consent_agreement" ∷ "mine_coordinates" ∷ []
unfolding trigger_gap_data_requests request_gaps get_gaps node_of field_has_map
asked_suppliers = refl

trigger_gap_data_requests_lem_example :
    Distinct (ids (trigger_gap_data_requests required_of (regulation ∷ []) some_rows (4 ∷ [])))
    × (contains (ids (trigger_gap_data_requests required_of (regulation ∷ []) some_rows (4 ∷ []))) 4
        ≡ (any (has_gap 4) (get_gaps required_of (regulation ∷ []) some_rows)
            && is_target (4 ∷ []) 4))
trigger_gap_data_requests_lem_example =
    trigger_gap_data_requests_lem required_of (regulation ∷ []) some_rows (4 ∷ []) 4

sc_tree_lists_suppliers_example :
    (rows : List TreeRow) × (sc_tree 4 three_edges (anchors a_chain 9 none three_edges) ≡ some rows)
    × ((bv s : ℕ) → (listed rows bv s ≡ true) ↔ ∥ Supplies a_chain 9 none bv s ∥₁)
sc_tree_lists_suppliers_example = sc_tree_lists_suppliers a_chain 9 none 4 (omega arith)

abbrev nothing_held : ℕ → Held
nothing_held s = record {
  company_name = none;
  provider_type = none;
  has_carbon_intensity = false;
  has_factory_carbon_decl = false;
  has_mine_coordinates = false;
  has_origin_country = false;
  has_consent_agreed = true;
}

map_summary_ready_example :
    (rows : List FieldData) × (get_supplier_field_data 4 (λ ps. ps) nothing_held 9 none a_chain
      ≡ some rows)
    × ((required : String → List RequiredField) (regs : List Regulation) (ratio_valid : Bool)
          (s : ValidationSummary)
        → get_validation_summary required regs rows ratio_valid ≡ ok s
        → let nodes = get_gaps required regs rows in
          (s.ready_for_final ≡ (
            ratio_valid
            && any (λ (n : Node). not n.is_root_anchor) nodes
            && all (λ (n : Node). n.is_root_anchor || n.gap_count == 0) nodes))
          × (s.ready_for_final ≡ true
              → (targets : List ℕ) (i : ℕ)
              → contains (ids (trigger_gap_data_requests required regs rows targets)) i ≡ true
              → any (λ (n : Node). n.supplier_id == i && n.is_root_anchor) nodes ≡ true))
map_summary_ready_example = map_summary_ready (λ ps. ps) nothing_held 9 none a_chain 4 (omega arith)

-- Places are numbers: 1 is near Xinjiang, 2 is in the deforested area.
abbrev some_places : Geography ℕ
some_places = record {
  st_dwithin_xinjiang = λ l. l == 1;
  st_within_country = λ c l. true;
  st_within_eudr = λ l. l == 2;
}

abbrev some_texts : Texts
some_texts = record { is_in = λ t v. t == v; fold_latin = λ v. v; is_word_of = λ t v. t == v }

abbrev factory : ℕ → Option String → Option ℕ → Factory ℕ
factory i region place = record {
  factory_id = i;
  supplier_id = i;
  country = none;
  region = region;
  address = none;
  is_active = true;
  location = place;
}

abbrev some_factories : List (Factory ℕ)
some_factories =
    factory 10 (some "Kashgar") (some 1)
    ∷ factory 11 (some "Kashgar") none
    ∷ factory 12 none (some 2)
    ∷ []

execute_geo_audit_lem_example :
    Distinct (reported xinjiang (execute_geo_audit some_places some_texts (some 1) some_factories))
    × ((i : ℕ)
        → contains
            (reported xinjiang (execute_geo_audit some_places some_texts (some 1) some_factories))
            i
          ≡ any (row_id i (risks some_places some_texts xinjiang)) some_factories)
execute_geo_audit_lem_example =
    execute_geo_audit_lem some_places some_texts (some 1) xinjiang some_factories
      (refl, (refl, (refl, tt)))

named_region :
    resolve_xinjiang_region some_texts (some "Kashi")
    ≡ resolve_xinjiang_region some_texts (some "喀什")
unfolding resolve_xinjiang_region xinjiang_prefectures
named_region = refl

abbrev kashi : String
kashi = "Kashi"

resolve_xinjiang_region_lem_example :
    (is_some (resolve_xinjiang_region some_texts (some kashi))
      ≡ (not (kashi == "") && any (names some_texts kashi) xinjiang_prefectures))
    × ((p : Prefecture)
        → resolve_xinjiang_region some_texts (some kashi) ≡ some p
        → (names some_texts kashi p ≡ true)
          × (is_wide p ≡ true
              → all (λ q. is_wide q || not (names some_texts kashi q)) xinjiang_prefectures ≡ true))
resolve_xinjiang_region_lem_example = resolve_xinjiang_region_lem some_texts kashi

abbrev no_tables : Db
no_tables = record {
  batches = [];
  hitl_reviews = [];
  next_review = 40;
  geo_audit_results = [];
  docket = record { compliance_results = []; compliance_completed = [] };
  risk = record { suppliers = []; profiles = []; history = []; events = [] };
  final_judgments = [];
  events = [];
  queue = [];
}

-- A batch with a product for Korea
abbrev a_batch : BatchState
a_batch = initial_state 1 2 "KR" []

geo_audit_node_holds_every_batch_example :
    let es = execute_geo_audit some_places some_texts (some 1) some_factories in
    let s' = (geo_audit_node (risk_types es) a_batch no_tables).0 in
    (s'.hitl_required ≡ (any (is_risky some_places some_texts) some_factories || false))
    × (any (is_risky some_places some_texts) some_factories ≡ true
        → s'.error_reason ≡ some geographical_risk)
geo_audit_node_holds_every_batch_example =
    geo_audit_node_holds_every_batch some_places some_texts some_factories a_batch no_tables
