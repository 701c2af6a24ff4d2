-- ===== src/SupplyChain/GeoAudit/Hold.antt =====
-- What geo_audit_node of backend/agents/geo_audit.py makes of the audit.
use kira_backend.Prelude.{
  ℕ, String, ◌≡◌, refl, Bool, true, ◌||◌, Option, some, List, [], ◌∷◌, ◌++◌, map, arith, nat_eq,
  string_eq, option_eq, any, filter,
}
use kira_backend.SupplyChain.GeoAudit.{
  Factory, Geography, Texts, xinjiang, country_mismatch, eudr_deforestation, GeoRiskDetected,
  risk_name, event, in_zone, is_named, is_mismatch, is_deforested, factory_ids, unflagged,
  xinjiang_factories, execute_geo_audit,
}
use kira_backend.Pipeline.{BatchState, geographical_risk}
use kira_backend.Pipeline.Tables.{Db}
use kira_backend.Pipeline.Nodes.{geo_audit_node, is_cons}

is_cons-append {ℓ} : {A : Type ℓ} (xs ys : List A) → is_cons (xs ++ ys) ≡ (is_cons xs || is_cons ys)
is_cons-append [] ys = refl
is_cons-append (x ∷ xs) ys = refl

is_cons-map {ℓ κ} :
    {A : Type ℓ} {B : Type κ} (f : A → B) (xs : List A) → is_cons (map f xs) ≡ is_cons xs
is_cons-map f [] = refl
is_cons-map f (x ∷ xs) = refl

-- What the node reads of the events
abbrev pub risk_types : List GeoRiskDetected → List (Option String)
risk_types es = map (λ (e : GeoRiskDetected). some (risk_name e.risk_type)) es

module _ {Location : Type 0} where
  is_cons-filter :
      (p : Factory Location → Bool) (fs : List (Factory Location))
      → is_cons (filter p fs) ≡ any p fs
  is_cons-filter p [] = refl
  is_cons-filter p (f ∷ fs) = ground (arith, is_cons-filter p fs)

  any-or :
      (p q : Factory Location → Bool) (fs : List (Factory Location))
      → any (λ f. p f || q f) fs ≡ (any p fs || any q fs)
  any-or p q [] = refl
  any-or p q (f ∷ fs) = ground (arith, any-or p q fs)

  -- With nothing flagged before, a name is enough.
  is_cons-unflagged :
      (zone named : List (Factory Location))
      → (is_cons zone || is_cons (unflagged (factory_ids zone) named))
        ≡ (is_cons zone || is_cons named)
  unfolding unflagged
  is_cons-unflagged [] [] = refl
  is_cons-unflagged [] (f ∷ fs) = refl
  is_cons-unflagged (z ∷ zone) named = refl

  abbrev pub is_risky : Geography Location → Texts → Factory Location → Bool
  is_risky g t f = (in_zone g t f || is_named g t f) || (is_mismatch g t f || is_deforested g t f)

is_cons-execute_geo_audit :
    {Location : Type 0} (g : Geography Location) (t : Texts) (batch : Option ℕ)
    (fs : List (Factory Location))
    → is_cons (execute_geo_audit g t batch fs) ≡ any (is_risky g t) fs
unfolding execute_geo_audit xinjiang_factories
is_cons-execute_geo_audit g t batch fs =
    let zone = filter (in_zone g t) fs in
    let named = filter (is_named g t) fs in
    let rest = unflagged (factory_ids zone) named in
    let bad = filter (is_mismatch g t) fs in
    let cut = filter (is_deforested g t) fs in
    let a = map (event batch xinjiang) (zone ++ rest) in
    let b = map (event batch country_mismatch) bad in
    let c = map (event batch eudr_deforestation) cut in
    let first : is_cons a ≡ any (λ f. in_zone g t f || is_named g t f) fs = ground (
      arith,
      is_cons-map (event batch xinjiang) (zone ++ rest),
      is_cons-append zone rest,
      is_cons-unflagged zone named,
      is_cons-filter (in_zone g t) fs,
      is_cons-filter (is_named g t) fs,
      any-or (in_zone g t) (is_named g t) fs,
    ) in
    let second : (is_cons b || is_cons c) ≡ any (λ f. is_mismatch g t f || is_deforested g t f) fs =
      ground (
        arith,
        is_cons-map (event batch country_mismatch) bad,
        is_cons-map (event batch eudr_deforestation) cut,
        is_cons-filter (is_mismatch g t) fs,
        is_cons-filter (is_deforested g t) fs,
        any-or (is_mismatch g t) (is_deforested g t) fs,
      ) in
    ground (
      arith,
      is_cons-append a (b ++ c),
      is_cons-append b c,
      first,
      second,
      any-or (λ f. in_zone g t f || is_named g t f) (λ f. is_mismatch g t f || is_deforested g t f)
          fs,
    )

-- The node holds a batch for review if and only if it was to be held before or some factory of the
-- table shows a risk. Neither the batch nor its suppliers play a part: one such factory, of whatever
-- supplier, holds every batch.
pub geo_audit_node_holds_every_batch :
    {Location : Type 0} (g : Geography Location) (t : Texts) (fs : List (Factory Location))
    (s : BatchState) (db : Db)
    → let s' = (geo_audit_node (risk_types (execute_geo_audit g t (some s.batch_id) fs)) s db).0 in
      (s'.hitl_required ≡ (any (is_risky g t) fs || s.hitl_required))
      × (any (is_risky g t) fs ≡ true → s'.error_reason ≡ some geographical_risk)
unfolding geo_audit_node
geo_audit_node_holds_every_batch g t fs s db =
    let es = execute_geo_audit g t (some s.batch_id) fs in
    let named = is_cons-map (λ (e : GeoRiskDetected). some (risk_name e.risk_type)) es in
    let found = is_cons-execute_geo_audit g t (some s.batch_id) fs in ground (arith, named, found)
