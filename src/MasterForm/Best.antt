-- ===== src/MasterForm/Best.antt =====
-- The values that get_master_form_prefill takes from several documents.
use kira_backend.Prelude.{
  some-injective, suc, String, ◌≡◌, refl, sym, ap, ◌∙◌, subst, ◌⊎◌, inl, inr, true, false, Option,
  none, some, List, [], ◌∷◌, arith, ◌==◌, nat_eq, string_eq, option_eq, if◌then◌else◌, Bool-cases,
  Option-cases, All, All-map,
}
use kira_backend.MasterForm.Prefill.{
  Confidence, nan, minus_infinity, infinity, number_of, minus, exceeds, get, conf_of, is_material,
  Extraction, merge_best, Merged, merge_field, merge_fields, merge_results,
}

exceeds_self : (c : Confidence) → exceeds c c ≡ false
exceeds_self nan = refl
exceeds_self minus_infinity = refl
exceeds_self infinity = refl
exceeds_self (number_of x) = ground arith
exceeds_self (minus x) = ground arith

-- What does not exceed the old value does not exceed one that exceeds it.
exceeds_trans :
    (n b c : Confidence) → exceeds n b ≡ false → exceeds c b ≡ true → exceeds n c ≡ false
exceeds_trans n b c h k = ground arith

module _ {V : Type 0} where
  -- The better of what is held and what a document offers
  abbrev pub better : Option (V × Confidence) → V → Confidence → Option (V × Confidence)
  better none v c = some (v, c)
  better (some (v', c')) v c = if exceeds c c' then some (v, c) else some (v', c')

  get-merge_best :
      (k j : String) (v : V) (c : Confidence) (b : List (String × (V × Confidence)))
      → get j (merge_best k v c b) ≡ (if k == j then better (get j b) v c else get j b)
  unfolding merge_best
  get-merge_best k j v c [] = refl
  get-merge_best k j v c ((k', (v', c')) ∷ b) = ground (
    arith,
    get-merge_best k j v c b,
    string_eq.test_iff k' k,
    string_eq.test_iff k' j,
    string_eq.test_iff k j,
  )

  abbrev pub Covers : Confidence → Option (V × Confidence) → Type 0
  Covers n none = ⊥
  Covers n (some (v, c)) = exceeds n c ≡ false

  better-Covers : (v : V) (c : Confidence) (o : Option (V × Confidence)) → Covers c (better o v c)
  better-Covers v c none = exceeds_self c
  better-Covers v c (some (v', c')) = ground (arith, exceeds_self c)

  better-grows :
      (n : Confidence) (v : V) (c : Confidence) (o : Option (V × Confidence))
      → Covers n o
      → Covers n (better o v c)
  better-grows n v c none h = absurd h
  better-grows n v c (some (v', c')) h = ground (arith, exceeds_trans n c' c)

  fields-merge_field :
      (x : Extraction V) (f : String × V) (m : Merged V)
      → (merge_field x f m).fields ≡ merge_best f.0 f.1 (conf_of x.confidence_map f.0) m.fields
  unfolding merge_field
  fields-merge_field x (k, v) m = elim (Bool-cases (is_material k)) [
    | inl mineral ↦ elim (Option-cases x.factory_id) [
      | inl n ↦ rw (mineral, n) refl
      | inr (i, n) ↦ rw (mineral, n) refl
    ]
    | inr plain ↦ rw plain refl
  ]

  -- One of the fields of a document, in the order of its dictionary, is `k` with `v`.
  abbrev pub Has : String → V → List (String × V) → Type 0
  Has k v [] = ⊥
  Has k v (f ∷ fs) = (f ≡ (k, v)) ⊎ Has k v fs

  -- One of the documents has the value `v` with the confidence `c` for the field `k`.
  abbrev pub Offered : String → V → Confidence → List (Extraction V) → Type 0
  Offered k v c [] = ⊥
  Offered k v c (x ∷ xs) =
      (Has k v x.parsed_fields × (conf_of x.confidence_map k ≡ c)) ⊎ Offered k v c xs

  get-merge_field :
      (j : String) (x : Extraction V) (f : String × V) (m : Merged V)
      → get j (merge_field x f m).fields ≡ (
          if f.0 == j
          then better (get j m.fields) f.1 (conf_of x.confidence_map f.0)
          else get j m.fields)
  get-merge_field j x f m =
      ap (get j) (fields-merge_field x f m)
      ∙ get-merge_best f.0 j f.1 (conf_of x.confidence_map f.0) m.fields

  field-grows :
      (j : String) (n : Confidence) (x : Extraction V) (f : String × V) (m : Merged V)
      → Covers n (get j m.fields)
      → Covers n (get j (merge_field x f m).fields)
  field-grows j n x f m h =
      subst (Covers n) (sym (get-merge_field j x f m)) (elim (Bool-cases (f.0 == j)) [
        | inl same ↦ rw same (better-grows n f.1 (conf_of x.confidence_map f.0) (get j m.fields) h)
        | inr differ ↦ rw differ h
      ])

  field-Covers :
      (x : Extraction V) (f : String × V) (m : Merged V)
      → Covers (conf_of x.confidence_map f.0) (get f.0 (merge_field x f m).fields)
  field-Covers x f m =
      let c = conf_of x.confidence_map f.0 in
      subst (Covers c) (sym (get-merge_field f.0 x f m))
        (rw ((string_eq.test_iff f.0 f.0).1 refl) (better-Covers f.1 c (get f.0 m.fields)))

  fields-grow :
      (j : String) (n : Confidence) (x : Extraction V) (fs : List (String × V)) (m : Merged V)
      → Covers n (get j m.fields)
      → Covers n (get j (merge_fields x fs m).fields)
  unfolding merge_fields
  fields-grow j n x [] m h = h
  fields-grow j n x (f ∷ fs) m h =
      fields-grow j n x fs (merge_field x f m) (field-grows j n x f m h)

  fields-Cover :
      (x : Extraction V) (fs : List (String × V)) (m : Merged V)
      → All (λ f. Covers (conf_of x.confidence_map f.0) (get f.0 (merge_fields x fs m).fields)) fs
  unfolding merge_fields
  fields-Cover x [] m = tt
  fields-Cover x (f ∷ fs) m = (
    fields-grow f.0 (conf_of x.confidence_map f.0) x fs (merge_field x f m) (field-Covers x f m),
    fields-Cover x fs (merge_field x f m),
  )

  better-from :
      (o : Option (V × Confidence)) (v : V) (c : Confidence) {p : V × Confidence}
      → better o v c ≡ some p
      → (o ≡ some p) ⊎ ((v, c) ≡ p)
  better-from none v c h = inr (some-injective h)
  better-from (some (v', c')) v c h = elim (Bool-cases (exceeds c c')) [
    | inl less ↦ inr (some-injective (rw less at h))
    | inr other ↦ inl (rw other at h)
  ]

  field-from :
      (j : String) (x : Extraction V) (f : String × V) (m : Merged V) {v : V} {c : Confidence}
      → get j (merge_field x f m).fields ≡ some (v, c)
      → (get j m.fields ≡ some (v, c)) ⊎ ((f ≡ (j, v)) × (conf_of x.confidence_map j ≡ c))
  field-from j x f m {v} {c} h =
      let k = sym (get-merge_field j x f m) ∙ h in
      elim (Bool-cases (f.0 == j)) [
        | inl same ↦
            let e = (string_eq.test_iff f.0 j).0 same in
            elim (better-from (get j m.fields) f.1 (conf_of x.confidence_map f.0) (rw same at k)) [
              | inl before ↦ inl before
              | inr q ↦ inr (
                ap (λ z. (z, f.1)) e ∙ ap (λ (z : V × Confidence). (j, z.0)) q,
                ap (conf_of x.confidence_map) (sym e) ∙ ap (λ (z : V × Confidence). z.1) q,
              )
            ]
        | inr differ ↦ inl (rw differ at k)
      ]

  fields-from :
      (j : String) (x : Extraction V) (fs : List (String × V)) (m : Merged V) {v : V}
      {c : Confidence}
      → get j (merge_fields x fs m).fields ≡ some (v, c)
      → (get j m.fields ≡ some (v, c)) ⊎ (Has j v fs × (conf_of x.confidence_map j ≡ c))
  unfolding merge_fields
  fields-from j x [] m h = inl h
  fields-from j x (f ∷ fs) m h = elim (fields-from j x fs (merge_field x f m) h) [
    | inl before ↦ elim (field-from j x f m before) [
      | inl older ↦ inl older
      | inr (e, q) ↦ inr (inl e, q)
    ]
    | inr (later, q) ↦ inr (inr later, q)
  ]

  abbrev counted : Extraction V → Merged V → Merged V
  counted x m = if x.supplier_confirmed then m else record m { unconfirmed = suc m.unconfirmed }

  fields-counted : (x : Extraction V) (m : Merged V) → (counted x m).fields ≡ m.fields
  fields-counted x m = ground arith

  results-grow :
      (j : String) (n : Confidence) (xs : List (Extraction V)) (m : Merged V)
      → Covers n (get j m.fields)
      → Covers n (get j (merge_results xs m).fields)
  unfolding merge_results
  results-grow j n [] m h = h
  results-grow j n (x ∷ xs) m h =
      let m' = merge_fields x x.parsed_fields m in
      results-grow j n xs (counted x m') (
        subst (λ d. Covers n (get j d)) (sym (fields-counted x m'))
          (fields-grow j n x x.parsed_fields m h))

  results-Cover :
      (xs : List (Extraction V)) (m : Merged V)
      → All
          (λ x.
            All
              (λ f. Covers (conf_of x.confidence_map f.0) (get f.0 (merge_results xs m).fields))
              x.parsed_fields)
          xs
  unfolding merge_results
  results-Cover [] m = tt
  results-Cover (x ∷ xs) m =
      let m' = merge_fields x x.parsed_fields m in
      (
        All-map _ _
            (λ f h. results-grow f.0 (conf_of x.confidence_map f.0) xs (counted x m') (
              subst (λ d. Covers (conf_of x.confidence_map f.0) (get f.0 d))
                (sym (fields-counted x m')) h))
            x.parsed_fields (fields-Cover x x.parsed_fields m),
        results-Cover xs (counted x m'),
      )

  results-from :
      (j : String) (xs : List (Extraction V)) (m : Merged V) {v : V} {c : Confidence}
      → get j (merge_results xs m).fields ≡ some (v, c)
      → (get j m.fields ≡ some (v, c)) ⊎ Offered j v c xs
  unfolding merge_results
  results-from j [] m h = inl h
  results-from j (x ∷ xs) m h =
      let m' = merge_fields x x.parsed_fields m in
      elim (results-from j xs (counted x m') h) [
        | inl here ↦
            elim (fields-from j x x.parsed_fields m
              (ap (get j) (sym (fields-counted x m')) ∙ here)) [
                | inl before ↦ inl before
                | inr found ↦ inr (inl found)
              ]
        | inr later ↦ inr (inr later)
      ]

-- What the loop starts from
abbrev pub nothing_merged : {V : Type 0} → Merged V
nothing_merged = record { fields = []; by_factory = []; unattributed = []; unconfirmed = 0 }

-- After the loop over the documents, each field of each document is held with a confidence that the
-- document's does not exceed, and each value that is held for a field is in some document with the
-- confidence it is held with.
pub merge_results_takes_best :
    {V : Type 0} (xs : List (Extraction V))
    → All
        (λ x.
          All
            (λ f.
              Covers
                (conf_of x.confidence_map f.0)
                (get f.0 (merge_results xs nothing_merged).fields))
            x.parsed_fields)
        xs
      × ((k : String) (v : V) (c : Confidence)
          → get k (merge_results xs nothing_merged).fields ≡ some (v, c)
          → Offered k v c xs)
merge_results_takes_best xs = (
  results-Cover xs nothing_merged,
  λ k v c h. elim (results-from k xs nothing_merged h) [
    | inl before ↦ absurd (cc before)
    | inr found ↦ found
  ],
)
