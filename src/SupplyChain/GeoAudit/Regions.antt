-- ===== src/SupplyChain/GeoAudit/Regions.antt =====
-- The names of Xinjiang: resolve_xinjiang_region of backend/domains/supplychain/repository.py.
use kira_backend.Prelude.{
  some-injective, String, ◌≡◌, refl, sym, subst, inl, inr, Bool, true, not, ◌&&◌, ◌||◌, some, List,
  [], ◌∷◌, arith, ◌==◌, nat_eq, string_eq, option_eq, if◌then◌else◌, Bool-cases, is_some, any, all,
  find?, find?-holds,
}
use kira_backend.SupplyChain.GeoAudit.{
  Texts, Prefecture, xinjiang_prefectures, names, resolve_xinjiang_region,
}

-- The alias of the whole region
abbrev pub is_wide : Prefecture → Bool
is_wide p = p.code == "xinjiang"

-- After the first wide entry there are only wide ones.
abbrev wide_last : List Prefecture → Bool
wide_last [] = true
wide_last (p ∷ ps) = if is_wide p then all is_wide ps else wide_last ps

all-weaken :
    (q : Prefecture → Bool) (ps : List Prefecture)
    → all is_wide ps ≡ true
    → all (λ r. is_wide r || not (q r)) ps ≡ true
all-weaken q [] h = refl
all-weaken q (p ∷ ps) h = ground (arith, all-weaken q ps)

find?-wide :
    (q : Prefecture → Bool) (ps : List Prefecture) (p : Prefecture)
    → wide_last ps ≡ true
    → find? q ps ≡ some p
    → is_wide p ≡ true
    → all (λ r. is_wide r || not (q r)) ps ≡ true
find?-wide q [] p l h w = cc
find?-wide q (r ∷ ps) p l h w = elim (Bool-cases (q r)) [
  | inl hit ↦
      let e : r ≡ p = some-injective (rw hit at h) in
      let wide : is_wide r ≡ true = subst (λ k. is_wide k ≡ true) (sym e) w in
      rw wide (all-weaken q ps (rw wide at l))
  | inr miss ↦
      let later = find?-wide q ps p in
      let deeper = rw miss at h in
      elim (Bool-cases (is_wide r)) [
        | inl wide ↦ ground (arith, all-weaken q ps)
        | inr narrow ↦ ground (arith, later (rw narrow at l) deeper w)
      ]
]

xinjiang_prefectures-wide_last : wide_last xinjiang_prefectures ≡ true
unfolding xinjiang_prefectures
xinjiang_prefectures-wide_last = refl

is_some-find? : (q : Prefecture → Bool) (ps : List Prefecture) → is_some (find? q ps) ≡ any q ps
is_some-find? q [] = refl
is_some-find? q (p ∷ ps) = ground (arith, is_some-find? q ps)

-- A text resolves if and only if it is not empty and some entry names it; the answer is an entry
-- that names it; and the alias of the whole region is the answer only where none of the prefectures
-- names it.
pub resolve_xinjiang_region_lem :
    (texts : Texts) (value : String)
    → (is_some (resolve_xinjiang_region texts (some value))
        ≡ (not (value == "") && any (names texts value) xinjiang_prefectures))
      × ((p : Prefecture)
          → resolve_xinjiang_region texts (some value) ≡ some p
          → (names texts value p ≡ true)
            × (is_wide p ≡ true
                → all (λ q. is_wide q || not (names texts value q)) xinjiang_prefectures ≡ true))
unfolding resolve_xinjiang_region
resolve_xinjiang_region_lem texts value = elim (Bool-cases (value == "")) [
  | inl empty ↦ (rw empty refl, λ p h. absurd (cc (rw empty at h)))
  | inr full ↦ (
    rw full (is_some-find? (names texts value) xinjiang_prefectures),
    λ p h.
        let found = rw full at h in
        (
          find?-holds (names texts value) xinjiang_prefectures found,
          find?-wide (names texts value) xinjiang_prefectures p xinjiang_prefectures-wide_last
              found,
        ),
  )
]
