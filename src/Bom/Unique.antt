-- ===== src/Bom/Unique.antt =====
-- The active versions of a product under the two transitions of
-- backend/domains/product/state_machine.py.
use kira_backend.Prelude.{
  ℕ, ◌≤◌, ◌≡◌, refl, sym, ◌∙◌, subst, ◌≢◌, inl, inr, Bool, ◌&&◌, some, [], ◌∷◌, arith, ◌==◌, nat_eq,
  string_eq, ok, nat_beq, nat_beq_iff, if◌then◌else◌, Bool-cases, Option-cases, All, count_if,
  update_where, All-map,
}
use kira_backend.Bom.{
  BomVersion, BomVersionStatus, draft, active, deprecated, Table, get, has_id, is_other_active,
  status_eq, set_status, activate_bom_version, deprecate_bom_version,
}

abbrev pub is_active_of : ℕ → BomVersion → Bool
is_active_of p r = r.product_id == p && r.status == active

-- The primary key.
abbrev pub IsKeyed : Table → Type 0
IsKeyed [] = Unit
IsKeyed (r ∷ t) = All (λ s. s.bom_version_id ≢ r.bom_version_id) t × IsKeyed t

-- No product has two active versions.
abbrev pub HasUniqueActive : Table → Type 0
HasUniqueActive t = (p : ℕ) → count_if (is_active_of p) t ≤ 1

-- The two updates of `activate_bom_version`, at the product `p` of the version `i`.
abbrev pub activated : ℕ → ℕ → Table → Table
activated p i t =
    update_where (has_id i) (set_status active)
      (update_where (is_other_active p i) (set_status deprecated) t)

-- Of the product of the activated version no row but its own is active.
count-activated_same :
    (p i : ℕ) (t : Table)
    → All (λ r. r.bom_version_id ≡ i → r.product_id ≡ p) t
    → count_if (is_active_of p) (activated p i t) ≤ count_if (has_id i) t
count-activated_same p i [] h = omega arith
count-activated_same p i (r ∷ t) h = ground (arith, count-activated_same p i t h.1)

-- The rows of the other products keep their status.
count-activated_other :
    (p q i : ℕ) (t : Table)
    → q ≢ p
    → All (λ r. r.bom_version_id ≡ i → r.product_id ≡ p) t
    → count_if (is_active_of q) (activated p i t) ≡ count_if (is_active_of q) t
count-activated_other p q i [] n h = refl
count-activated_other p q i (r ∷ t) n h = ground (arith, count-activated_other p q i t n h.1)

count-keyed_absent :
    (i : ℕ) (t : Table) → All (λ s. s.bom_version_id ≢ i) t → count_if (has_id i) t ≡ 0
count-keyed_absent i [] h = refl
count-keyed_absent i (r ∷ t) h = ground (arith, count-keyed_absent i t h.1)

count-keyed : (i : ℕ) (t : Table) → IsKeyed t → count_if (has_id i) t ≤ 1
count-keyed i [] h = omega arith
count-keyed i (r ∷ t) h = elim (Bool-cases (has_id i r)) [
  | inl same ↦
      let e = (nat_beq_iff r.bom_version_id i).0 same in
      ground (arith, count-keyed_absent i t (subst (λ k. All (λ s. s.bom_version_id ≢ k) t) e h.0))
  | inr other ↦ ground (arith, count-keyed i t h.1)
]

-- A key that a select has found belongs to that row alone.
keyed-product :
    (i : ℕ) (t : Table) {bom : BomVersion}
    → IsKeyed t
    → get i t ≡ some bom
    → All (λ r. r.bom_version_id ≡ i → r.product_id ≡ bom.product_id) t
keyed-product i [] k h = tt
keyed-product i (r ∷ t) {bom} k h = elim (Bool-cases (has_id i r)) [
  | inl same ↦
      let e = (nat_beq_iff r.bom_version_id i).0 same in
      (ground arith, All-map _ _ (λ s n m. absurd (n (m ∙ sym e))) t k.0)
  | inr other ↦ (ground arith, keyed-product i t {bom = bom} k.1 (ground arith))
]

IsKeyed-update :
    (p : BomVersion → Bool) (s : BomVersionStatus) (t : Table)
    → IsKeyed t
    → IsKeyed (update_where p (set_status s) t)
IsKeyed-update p s [] k = tt
IsKeyed-update p s (r ∷ t) k = (absent t k.0, IsKeyed-update p s t k.1)
  where
    absent :
        (u : Table)
        → All (λ v. v.bom_version_id ≢ r.bom_version_id) u
        → All
            (λ v. v.bom_version_id ≢ (if p r then set_status s r else r).bom_version_id)
            (update_where p (set_status s) u)
    absent [] h = tt
    absent (v ∷ u) h = (
      elim (Bool-cases (p r)) [
        | inl e ↦ rw e (elim (Bool-cases (p v)) [ inl d ↦ rw d h.0 | inr d ↦ rw d h.0 ])
        | inr e ↦ rw e (elim (Bool-cases (p v)) [ inl d ↦ rw d h.0 | inr d ↦ rw d h.0 ])
      ],
      absent u h.1,
    )

count-deprecated :
    (q i : ℕ) (t : Table)
    → count_if (is_active_of q) (update_where (has_id i) (set_status deprecated) t)
      ≤ count_if (is_active_of q) t
count-deprecated q i [] = omega arith
count-deprecated q i (r ∷ t) = ground (arith, count-deprecated q i t)

-- What a successful activation has found and written.
pub activate-inversion :
    (t : Table) (i : ℕ) {b : BomVersion} {t' : Table}
    → activate_bom_version t i ≡ ok (b, t')
    → (bom : BomVersion) × (get i t ≡ some bom)
      × (bom.status ≡ draft)
      × (b ≡ set_status active bom)
      × (t' ≡ activated bom.product_id i t)
unfolding activate_bom_version
activate-inversion t i h = elim (Option-cases (get i t)) [
  | inl missing ↦ absurd (ground arith)
  | inr (bom, e) ↦ (bom, e, ground arith, ground arith, ground arith)
]

pub deprecate-inversion :
    (t : Table) (i : ℕ) {b : BomVersion} {t' : Table}
    → deprecate_bom_version t i ≡ ok (b, t')
    → (bom : BomVersion) × (get i t ≡ some bom)
      × (bom.status ≢ deprecated)
      × (b ≡ set_status deprecated bom)
      × (t' ≡ update_where (has_id i) (set_status deprecated) t)
unfolding deprecate_bom_version
deprecate-inversion t i h = elim (Option-cases (get i t)) [
  | inl missing ↦ absurd (ground arith)
  | inr (bom, e) ↦ (bom, e, ground arith, ground arith, ground arith)
]

-- A successful activation keeps the keys distinct and leaves every product with at most one
-- active version.
pub activate-HasUniqueActive :
    (t : Table) (i : ℕ) {b : BomVersion} {t' : Table}
    → IsKeyed t
    → HasUniqueActive t
    → activate_bom_version t i ≡ ok (b, t')
    → IsKeyed t' × HasUniqueActive t'
activate-HasUniqueActive t i {t' = t'} k u h =
    let (bom, found, _, _, e) = activate-inversion t i h in
    let owns = keyed-product i t {bom = bom} k found in
    subst (λ w. IsKeyed w × HasUniqueActive w) (sym e)
      (
        IsKeyed-update _ _ _ (IsKeyed-update _ _ t k),
        λ q. elim (Bool-cases (nat_beq q bom.product_id)) [
          | inl same ↦
              rw ((nat_beq_iff q bom.product_id).0 same)
                (omega (arith, count-activated_same bom.product_id i t owns, count-keyed i t k))
          | inr other ↦
              omega
                (arith, u q, count-activated_other bom.product_id q i t (λ d. ground arith) owns)
        ],
      )

pub deprecate-HasUniqueActive :
    (t : Table) (i : ℕ) {b : BomVersion} {t' : Table}
    → IsKeyed t
    → HasUniqueActive t
    → deprecate_bom_version t i ≡ ok (b, t')
    → IsKeyed t' × HasUniqueActive t'
deprecate-HasUniqueActive t i k u h =
    let (bom, _, _, _, e) = deprecate-inversion t i h in
    subst (λ w. IsKeyed w × HasUniqueActive w) (sym e)
      (IsKeyed-update _ _ t k, λ q. omega (arith, u q, count-deprecated q i t))
