-- ===== src/SupplyChain/GeoAudit/Audit.antt =====
-- What the geographical audit reports, and what the node of the graph makes of it.
use kira_backend.Prelude.{
  append-nil, ℕ, ◌≡◌, refl, ap, ◌∙◌, inl, inr, Bool, true, false, not, ◌&&◌, ◌||◌, Option, List, [],
  ◌∷◌, ◌++◌, map, arith, ◌==◌, nat_eq, string_eq, option_eq, contains, nat_beq, nat_beq_iff,
  is_some, if◌then◌else◌, Bool-cases, any, filter, Distinct, Distinct-append, contains-append,
}
use kira_backend.SupplyChain.GeoAudit.{
  Factory, Geography, Texts, RiskType, xinjiang, country_mismatch, eudr_deforestation,
  GeoRiskDetected, event, is_located, resolve_xinjiang_region, country_match, in_zone, is_named,
  is_mismatch, is_deforested, factory_ids, unflagged, xinjiang_factories, execute_geo_audit,
}

abbrev pub type_beq : RiskType → RiskType → Bool
type_beq xinjiang xinjiang = true
type_beq country_mismatch country_mismatch = true
type_beq eudr_deforestation eudr_deforestation = true
type_beq _ _ = false

type_beq_refl : (t : RiskType) → type_beq t t ≡ true
type_beq_refl t = ground arith

-- The factories that events of one type name
pub reported : RiskType → List GeoRiskDetected → List ℕ
reported t [] = []
reported t (e ∷ es) = if type_beq e.risk_type t then e.factory_id ∷ reported t es else reported t es

reported-append :
    (t : RiskType) (xs ys : List GeoRiskDetected)
    → reported t (xs ++ ys) ≡ reported t xs ++ reported t ys
unfolding reported
reported-append t [] ys = refl
reported-append t (x ∷ xs) ys = ground (arith, reported-append t xs ys)

-- The rows of the table
module _ {Location : Type 0} where
  abbrev pub row_id : ℕ → (Factory Location → Bool) → Factory Location → Bool
  row_id i p f = f.factory_id == i && p f

  reported-same :
      (batch : Option ℕ) (t : RiskType) (fs : List (Factory Location))
      → reported t (map (event batch t) fs) ≡ factory_ids fs
  unfolding reported
  reported-same batch t [] = refl
  reported-same batch t (f ∷ fs) = ground (arith, type_beq_refl t, reported-same batch t fs)

  reported-other :
      (batch : Option ℕ) (t u : RiskType) (fs : List (Factory Location))
      → type_beq t u ≡ false
      → reported u (map (event batch t) fs) ≡ []
  unfolding reported
  reported-other batch t u [] h = refl
  reported-other batch t u (f ∷ fs) h = ground (arith, reported-other batch t u fs h)

  contains-filter :
      (p : Factory Location → Bool) (fs : List (Factory Location)) (i : ℕ)
      → contains (factory_ids (filter p fs)) i ≡ any (row_id i p) fs
  contains-filter p [] i = refl
  contains-filter p (f ∷ fs) i =
      ground (arith, contains-filter p fs i, nat_beq_iff f.factory_id i, nat_beq_iff i f.factory_id)

  absent-any :
      (p : Factory Location → Bool) (fs : List (Factory Location)) (i : ℕ)
      → contains (factory_ids fs) i ≡ false
      → any (row_id i p) fs ≡ false
  absent-any p [] i h = refl
  absent-any p (f ∷ fs) i h =
      ground (arith, absent-any p fs i, nat_beq_iff f.factory_id i, nat_beq_iff i f.factory_id)

  filter-Distinct :
      (p : Factory Location → Bool) (fs : List (Factory Location))
      → Distinct (factory_ids fs)
      → Distinct (factory_ids (filter p fs))
  filter-Distinct p [] d = tt
  filter-Distinct p (f ∷ fs) d = elim (Bool-cases (p f)) [
    | inl kept ↦ rw kept (
      ground (arith, contains-filter p fs f.factory_id, absent-any p fs f.factory_id),
      filter-Distinct p fs d.1,
    )
    | inr dropped ↦ rw dropped (filter-Distinct p fs d.1)
  ]

  contains-unflagged :
      (flagged : List ℕ) (fs : List (Factory Location)) (i : ℕ)
      → contains (factory_ids (unflagged flagged fs)) i
        ≡ (contains (factory_ids fs) i && not (contains flagged i))
  unfolding unflagged
  contains-unflagged flagged [] i = refl
  contains-unflagged flagged (f ∷ fs) i = elim (Bool-cases (nat_beq f.factory_id i)) [
    | inl same ↦
        let e = (nat_beq_iff f.factory_id i).0 same in
        let old = ap (contains flagged) e in
        let here = ap (λ j. nat_beq i j) e in
        elim (Bool-cases (contains flagged f.factory_id)) [
          | inl there ↦ ground (arith, contains-unflagged flagged fs i, old)
          | inr absent ↦
              ground (
                arith,
                contains-unflagged (f.factory_id ∷ flagged) fs i,
                old,
                here,
                nat_beq_iff i i,
              )
        ]
    | inr other ↦
        let other' : nat_beq i f.factory_id ≡ false =
          ground (arith, nat_beq_iff f.factory_id i, nat_beq_iff i f.factory_id) in
        elim (Bool-cases (contains flagged f.factory_id)) [
          | inl there ↦ ground (arith, contains-unflagged flagged fs i)
          | inr absent ↦ ground (arith, contains-unflagged (f.factory_id ∷ flagged) fs i)
        ]
  ]

  unflagged-Distinct :
      (flagged : List ℕ) (fs : List (Factory Location))
      → Distinct (factory_ids (unflagged flagged fs))
  unfolding unflagged
  unflagged-Distinct flagged [] = tt
  unflagged-Distinct flagged (f ∷ fs) = elim (Bool-cases (contains flagged f.factory_id)) [
    | inl there ↦ ground (arith, unflagged-Distinct flagged fs)
    | inr absent ↦ ground (
      arith,
      unflagged-Distinct (f.factory_id ∷ flagged) fs,
      contains-unflagged (f.factory_id ∷ flagged) fs f.factory_id,
      nat_beq_iff f.factory_id f.factory_id,
    )
  ]

  factory_ids-append :
      (xs ys : List (Factory Location)) → factory_ids (xs ++ ys) ≡ factory_ids xs ++ factory_ids ys
  factory_ids-append [] ys = refl
  factory_ids-append (x ∷ xs) ys = ground (arith, factory_ids-append xs ys)

  any-or :
      (i : ℕ) (p q : Factory Location → Bool) (fs : List (Factory Location))
      → (any (row_id i p) fs || any (row_id i q) fs) ≡ any (row_id i (λ f. p f || q f)) fs
  any-or i p q [] = refl
  any-or i p q (f ∷ fs) = ground (arith, any-or i p q fs)

module _ {Location : Type 0} (geography : Geography Location) (texts : Texts) where
  -- What the audit is to report of each type, column by column
  abbrev pub risks : RiskType → Factory Location → Bool
  risks xinjiang f =
      is_located geography.st_dwithin_xinjiang f
      || (f.is_active
          && (is_some (resolve_xinjiang_region texts f.region)
              || is_some (resolve_xinjiang_region texts f.address)))
  risks country_mismatch f =
      f.is_active && is_located (λ l. not (country_match geography texts f l)) f
  risks eudr_deforestation f = f.is_active && is_located geography.st_within_eudr f

  abbrev factories_of : RiskType → List (Factory Location) → List (Factory Location)
  factories_of xinjiang fs = xinjiang_factories geography texts fs
  factories_of country_mismatch fs = filter (is_mismatch geography texts) fs
  factories_of eudr_deforestation fs = filter (is_deforested geography texts) fs

  reported-parts :
      (batch : Option ℕ) (t : RiskType) (xs ys zs : List (Factory Location))
      → reported t (
          map (event batch xinjiang) xs
          ++ (map (event batch country_mismatch) ys ++ map (event batch eudr_deforestation) zs))
        ≡ factory_ids (elim t [ xinjiang ↦ xs | country_mismatch ↦ ys | eudr_deforestation ↦ zs ])
  reported-parts batch t xs ys zs =
      let a = map (event batch xinjiang) xs in
      let b = map (event batch country_mismatch) ys in
      let c = map (event batch eudr_deforestation) zs in
      reported-append t a (b ++ c) ∙ ap (λ r. reported t a ++ r) (reported-append t b c) ∙ each t
    where
      each :
          (u : RiskType)
          → reported u (map (event batch xinjiang) xs)
              ++ (reported u (map (event batch country_mismatch) ys)
                  ++ reported u (map (event batch eudr_deforestation) zs))
            ≡ factory_ids
                (elim u [ xinjiang ↦ xs | country_mismatch ↦ ys | eudr_deforestation ↦ zs ])
      each xinjiang =
          rw
            (
              reported-same batch xinjiang xs,
              reported-other batch country_mismatch xinjiang ys refl,
              reported-other batch eudr_deforestation xinjiang zs refl,
            )
            (append-nil (factory_ids xs))
      each country_mismatch =
          rw
            (
              reported-other batch xinjiang country_mismatch xs refl,
              reported-same batch country_mismatch ys,
              reported-other batch eudr_deforestation country_mismatch zs refl,
            )
            (append-nil (factory_ids ys))
      each eudr_deforestation =
          rw
            (
              reported-other batch xinjiang eudr_deforestation xs refl,
              reported-other batch country_mismatch eudr_deforestation ys refl,
              reported-same batch eudr_deforestation zs,
            )
            refl

  xinjiang_factories-Distinct :
      (fs : List (Factory Location))
      → Distinct (factory_ids fs)
      → Distinct (factory_ids (xinjiang_factories geography texts fs))
  unfolding xinjiang_factories
  xinjiang_factories-Distinct fs d =
      let zone = filter (in_zone geography texts) fs in
      let named = filter (is_named geography texts) fs in
      rw (factory_ids-append zone (unflagged (factory_ids zone) named)) (
        Distinct-append (factory_ids zone) _ (filter-Distinct _ fs d)
          (unflagged-Distinct (factory_ids zone) named)
          (λ i h. ground (arith, contains-unflagged (factory_ids zone) named i)))

  contains-xinjiang_factories :
      (fs : List (Factory Location)) (i : ℕ)
      → contains (factory_ids (xinjiang_factories geography texts fs)) i
        ≡ any (row_id i (risks xinjiang)) fs
  unfolding xinjiang_factories is_named
  contains-xinjiang_factories fs i =
      let zone = filter (in_zone geography texts) fs in
      let named = filter (is_named geography texts) fs in
      ground (
        arith,
        factory_ids-append zone (unflagged (factory_ids zone) named),
        contains-append (factory_ids zone) (factory_ids (unflagged (factory_ids zone) named)) i,
        contains-unflagged (factory_ids zone) named i,
        contains-filter (in_zone geography texts) fs i,
        contains-filter (is_named geography texts) fs i,
        any-or i (in_zone geography texts) (is_named geography texts) fs,
      )

-- For factories with distinct keys and every type of risk: the audit reports a factory at most once,
-- and it reports those that show the risk - for Xinjiang the factories near it by their place and
-- the active ones of a name there, for the other two types the active ones that fail the check.
-- The batch that asks is only copied.
pub execute_geo_audit_lem :
    {Location : Type 0} (geography : Geography Location) (texts : Texts) (batch : Option ℕ)
    (t : RiskType) (fs : List (Factory Location))
    → Distinct (factory_ids fs)
    → Distinct (reported t (execute_geo_audit geography texts batch fs))
      × ((i : ℕ)
          → contains (reported t (execute_geo_audit geography texts batch fs)) i
            ≡ any (row_id i (risks geography texts t)) fs)
unfolding execute_geo_audit
execute_geo_audit_lem geography texts batch xinjiang fs d = (
  rw (reported-parts geography texts batch xinjiang _ _ _)
      (xinjiang_factories-Distinct geography texts fs d),
  λ i.
      rw (reported-parts geography texts batch xinjiang _ _ _)
        (contains-xinjiang_factories geography texts fs i),
)
execute_geo_audit_lem geography texts batch country_mismatch fs d = (
  rw (reported-parts geography texts batch country_mismatch _ _ _)
      (filter-Distinct (is_mismatch geography texts) fs d),
  λ i.
      rw (reported-parts geography texts batch country_mismatch _ _ _)
        (contains-filter (is_mismatch geography texts) fs i),
)
execute_geo_audit_lem geography texts batch eudr_deforestation fs d = (
  rw (reported-parts geography texts batch eudr_deforestation _ _ _)
      (filter-Distinct (is_deforested geography texts) fs d),
  λ i.
      rw (reported-parts geography texts batch eudr_deforestation _ _ _)
        (contains-filter (is_deforested geography texts) fs i),
)
