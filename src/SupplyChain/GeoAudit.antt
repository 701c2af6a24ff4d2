-- ===== src/SupplyChain/GeoAudit.antt =====
-- The geographical audit: the four checks of backend/domains/supplychain/repository.py over the table
-- of factories, resolve_xinjiang_region, and execute_geo_audit of
-- backend/domains/supplychain/service.py. PostGIS, Unicode and regular expressions are parameters;
-- each factory has a supplier by its foreign key, so that the join with `suppliers` keeps it. The
-- company name and the coordinates, which the events copy, are left out.
pub mod Audit
pub mod Hold
pub mod Regions
use kira_backend.Prelude.{
  ℕ, zero, suc, ◌+◌, ◌-◌, ◌*◌, ◌/◌, ◌%◌, ◌≤◌, ◌<◌, min, max, String, ◌≡◌, refl, sym, ap, ◌∙◌, subst,
  ◌≢◌, ◌↔◌, ◌⊎◌, inl, inr, Bool, true, false, not, ◌&&◌, ◌||◌, Option, none, some, List, [], ◌∷◌,
  ◌++◌, map, arith, Eq, ◌==◌, nat_eq, string_eq, option_eq, option_beq_iff, contains, Error,
  value_error, type_error, integrity_error, database_error, batch_not_found, key_error, cycle_error,
  http, Result, ok, err, ◌>>=◌, ◌>>◌, raise_if, >>=-eq-ok, IfReturns, IfReturns-ok, ltb, leb,
  nat_beq, nat_beq_iff, if◌then◌else◌, Bool-cases, Option-cases, List-cases, Result-cases, is_some,
  length, All, any, all, filter, count_if, find?, update_where, length-append, count_if-append,
  filter-append, All-append, All-map, any-append, find?-holds, find?-any, length-update_where,
  find?-update_self, find?-update_other, find?-append_new, find?-append_other, Distinct,
  length-Distinct,
}

-- A row of `supplier_factories`
pub record Factory (Location : Type 0) : Type 0 where
  pub factory_id : ℕ
  pub supplier_id : ℕ
  pub country : Option String
  pub region : Option String
  pub address : Option String
  pub is_active : Bool
  pub location : Option Location

-- What PostGIS answers: near Xinjiang, within the envelope of a country, in the deforested area.
pub record Geography (Location : Type 0) : Type 0 where
  pub st_dwithin_xinjiang : Location → Bool
  pub st_within_country : String → Location → Bool
  pub st_within_eudr : Location → Bool

-- What Python's libraries answer: `t in value`, `_fold_latin`, and a word of a text, `\b...\b`.
pub record Texts : Type 0 where
  pub is_in : String → String → Bool
  pub fold_latin : String → String
  pub is_word_of : String → String → Bool

pub record Prefecture : Type 0 where
  pub code : String
  pub en : String
  pub zh : List String
  pub en_aliases : List String
  pub ko : List String

-- XINJIANG_PREFECTURES
abbrev pub prefecture : String → String → List String → List String → List String → Prefecture
prefecture code en zh aliases ko = record {
  code = code;
  en = en;
  zh = zh;
  en_aliases = aliases;
  ko = ko;
}

unfoldable pub xinjiang_prefectures : List Prefecture
xinjiang_prefectures =
    prefecture "urumqi" "Ürümqi" ("乌鲁木齐" ∷ []) ("Urumqi" ∷ "Urumchi" ∷ []) ("우루무치" ∷ [])
    ∷ prefecture "karamay" "Karamay" ("克拉玛依" ∷ []) ("Karamay" ∷ []) ("카라마이" ∷ [])
    ∷ prefecture "turpan" "Turpan" ("吐鲁番" ∷ []) ("Turpan" ∷ []) ("투루판" ∷ [])
    ∷ prefecture "hami" "Hami" ("哈密" ∷ []) ("Hami" ∷ []) ("하미" ∷ [])
    ∷ prefecture "aksu" "Aksu" ("阿克苏" ∷ []) ("Aksu" ∷ []) ("아커쑤" ∷ "아크수" ∷ [])
    ∷ prefecture "kashgar" "Kashgar" ("喀什" ∷ []) ("Kashgar" ∷ "Kashi" ∷ []) ("카슈가르" ∷ [])
    ∷ prefecture "hotan" "Hotan" ("和田" ∷ []) ("Hotan" ∷ "Khotan" ∷ "Hetian" ∷ []) ("허톈" ∷ "호탄" ∷ [])
    ∷ prefecture "tacheng" "Tacheng" ("塔城" ∷ []) ("Tacheng" ∷ []) ("타청" ∷ [])
    ∷ prefecture "altay" "Altay" ("阿勒泰" ∷ []) ("Altay" ∷ "Altai" ∷ []) ("알타이" ∷ [])
    ∷ prefecture "kizilsu" "Kizilsu" ("克孜勒苏" ∷ []) ("Kizilsu" ∷ []) ("키질수" ∷ "커쯔러쑤" ∷ [])
    ∷ prefecture "bortala" "Bortala" ("博尔塔拉" ∷ []) ("Bortala" ∷ []) ("보르탈라" ∷ "보얼타라" ∷ [])
    ∷ prefecture "changji" "Changji" ("昌吉" ∷ []) ("Changji" ∷ []) ("창지" ∷ [])
    ∷ prefecture "bayingolin" "Bayingolin" ("巴音郭楞" ∷ "库尔勒" ∷ [])
        ("Bayingolin" ∷ "Bayingol" ∷ "Korla" ∷ []) ("바인궈렁" ∷ "바잉골린" ∷ "쿠얼러" ∷ [])
    ∷ prefecture "ili" "Ili" ("伊犁" ∷ []) ("Ili" ∷ "Yili" ∷ []) ("이리" ∷ [])
    ∷ prefecture "xinjiang" "Xinjiang (autonomous region)" ("新疆" ∷ "维吾尔" ∷ [])
        ("Xinjiang" ∷ "Uyghur" ∷ "Uygur" ∷ "Uighur" ∷ []) ("신장" ∷ "위구르" ∷ [])
    ∷ []

module _ (texts : Texts) where
  open texts use {is_in, fold_latin, is_word_of}

  -- One round of the loop over the entries
  abbrev pub names : String → Prefecture → Bool
  names value p =
      any (λ t. is_in t value) (p.zh ++ p.ko)
      || any (λ t. is_word_of (fold_latin t) (fold_latin value)) p.en_aliases

  unfoldable pub resolve_xinjiang_region : Option String → Option Prefecture
  unfolding xinjiang_prefectures
  resolve_xinjiang_region none = none
  resolve_xinjiang_region (some value) =
      if value == "" then none else find? (names value) xinjiang_prefectures

pub data RiskType : Type 0 where
  xinjiang country_mismatch eudr_deforestation : RiskType

pub record GeoRiskDetected : Type 0 where
  pub batch_id : Option ℕ
  pub factory_id : ℕ
  pub risk_type : RiskType
  pub supplier_id : ℕ

-- `risk_type` in the dictionaries
abbrev pub risk_name : RiskType → String
risk_name xinjiang = "xinjiang"
risk_name country_mismatch = "country_mismatch"
risk_name eudr_deforestation = "eudr_deforestation"

module _ {Location : Type 0} where
  abbrev pub is_located : (Location → Bool) → Factory Location → Bool
  is_located test f = elim f.location [ none ↦ false | some l ↦ test l ]

  abbrev pub event : Option ℕ → RiskType → Factory Location → GeoRiskDetected
  event batch type f = record {
    batch_id = batch;
    factory_id = f.factory_id;
    risk_type = type;
    supplier_id = f.supplier_id;
  }

  abbrev pub factory_ids : List (Factory Location) → List ℕ
  factory_ids [] = []
  factory_ids (f ∷ fs) = f.factory_id ∷ factory_ids fs

  -- The loop over the names, with `flagged_xinjiang`
  pub unflagged : List ℕ → List (Factory Location) → List (Factory Location)
  unflagged flagged [] = []
  unflagged flagged (f ∷ fs) = elim (contains flagged f.factory_id) [
    | true ↦ unflagged flagged fs
    | false ↦ f ∷ unflagged (f.factory_id ∷ flagged) fs
  ]

module _ {Location : Type 0} (geography : Geography Location) (texts : Texts) where
  -- The columns that the loops test: `is_in_risk_zone`, `country_match`, `is_deforested`. The
  -- countries with an envelope are CN, VN, KR and US.
  abbrev pub has_envelope : String → Bool
  has_envelope c = c == "CN" || c == "VN" || c == "KR" || c == "US"

  abbrev pub country_match : Factory Location → Location → Bool
  country_match f l = elim f.country [
    | none ↦ true
    | some c ↦ if has_envelope c then geography.st_within_country c l else true
  ]

  -- The rows of check_geo_audit_risk_zone that are in the zone; it reads inactive factories too.
  abbrev pub in_zone : Factory Location → Bool
  in_zone f = is_located geography.st_dwithin_xinjiang f

  -- check_xinjiang_by_name
  unfoldable pub is_named : Factory Location → Bool
  unfolding resolve_xinjiang_region
  is_named f =
      f.is_active
      && (is_some (resolve_xinjiang_region texts f.region)
          || is_some (resolve_xinjiang_region texts f.address))

  -- check_coordinate_authenticity
  abbrev pub is_mismatch : Factory Location → Bool
  is_mismatch f = f.is_active && is_located (λ l. not (country_match f l)) f

  -- check_eudr_deforestation
  abbrev pub is_deforested : Factory Location → Bool
  is_deforested f = f.is_active && is_located geography.st_within_eudr f

  -- The factories that the audit reports as being in Xinjiang
  unfoldable pub xinjiang_factories : List (Factory Location) → List (Factory Location)
  unfolding is_named unflagged
  xinjiang_factories fs =
      let zone = filter in_zone fs in zone ++ unflagged (factory_ids zone) (filter is_named fs)

  -- The events in the order in which they are published and returned
  unfoldable pub execute_geo_audit : Option ℕ → List (Factory Location) → List GeoRiskDetected
  unfolding xinjiang_factories
  execute_geo_audit batch fs =
      map (event batch xinjiang) (xinjiang_factories fs)
      ++ (map (event batch country_mismatch) (filter is_mismatch fs)
          ++ map (event batch eudr_deforestation) (filter is_deforested fs))
