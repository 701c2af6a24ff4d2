-- ===== src/Bom/Calls.antt =====
-- The answers of the two transitions, and runs of calls, each committed by
-- backend/domains/product/service.py.
use kira_backend.Prelude.{
  ℕ, ◌≡◌, refl, ◌∙◌, ◌≢◌, inl, inr, none, some, List, [], ◌∷◌, arith, ◌==◌, nat_eq, string_eq, http,
  Result, ok, err, nat_beq, nat_beq_iff, Bool-cases, Option-cases, update_where,
}
use kira_backend.Bom.{
  BomVersion, BomVersionStatus, draft, active, deprecated, Table, get, has_id, is_other_active,
  status_eq, set_status, activate_bom_version, deprecate_bom_version,
}
use kira_backend.Bom.Unique.{
  IsKeyed, HasUniqueActive, activated, activate-HasUniqueActive, deprecate-HasUniqueActive,
}

get-update_self :
    (i : ℕ) (s : BomVersionStatus) (t : Table) {bom : BomVersion}
    → get i t ≡ some bom
    → get i (update_where (has_id i) (set_status s) t) ≡ some (set_status s bom)
get-update_self i s [] h = cc
get-update_self i s (r ∷ t) {bom} h = ground (arith, get-update_self i s t {bom = bom})

get-update_kept :
    (i p : ℕ) (t : Table)
    → get i (update_where (is_other_active p i) (set_status deprecated) t) ≡ get i t
get-update_kept i p [] = refl
get-update_kept i p (r ∷ t) = ground (arith, get-update_kept i p t)

-- Activation answers 404 for an unknown version and 422 for one that is not a draft; a draft
-- becomes active, and reading it back gives the returned row.
pub activate_outcomes :
    (t : Table) (i : ℕ)
    → (get i t ≡ none → activate_bom_version t i ≡ err (http 404))
      × ((bom : BomVersion)
          → get i t ≡ some bom
          → bom.status ≢ draft
          → activate_bom_version t i ≡ err (http 422))
      × ((bom : BomVersion)
          → get i t ≡ some bom
          → bom.status ≡ draft
          → (activate_bom_version t i ≡ ok (set_status active bom, activated bom.product_id i t))
            × (get i (activated bom.product_id i t) ≡ some (set_status active bom)))
unfolding activate_bom_version
activate_outcomes t i = (
  λ h. ground arith,
  λ bom h n. ground arith,
  λ bom h d. (ground arith, get-update_self i active _ (get-update_kept i bom.product_id t ∙ h)),
)

-- Deprecation answers 404 for an unknown version and 422 for a deprecated one; any other becomes
-- deprecated.
pub deprecate_outcomes :
    (t : Table) (i : ℕ)
    → (get i t ≡ none → deprecate_bom_version t i ≡ err (http 404))
      × ((bom : BomVersion)
          → get i t ≡ some bom
          → bom.status ≡ deprecated
          → deprecate_bom_version t i ≡ err (http 422))
      × ((bom : BomVersion)
          → get i t ≡ some bom
          → bom.status ≢ deprecated
          → (t' : Table) × (deprecate_bom_version t i ≡ ok (set_status deprecated bom, t'))
            × (get i t' ≡ some (set_status deprecated bom)))
unfolding deprecate_bom_version
deprecate_outcomes t i = (
  λ h. ground arith,
  λ bom h n. ground arith,
  λ bom h d. (
    update_where (has_id i) (set_status deprecated) t,
    ground arith,
    get-update_self i deprecated t h,
  ),
)

-- A call of the service: the two transitions, each committed by itself.
pub data Call : Type 0 where
  activate deprecate : ℕ → Call

-- A call that raises is not committed.
abbrev pub committed : Table → Result (BomVersion × Table) → Table
committed t (ok (_, t')) = t'
committed t (err _) = t

pub call : Call → Table → Table
unfolding activate_bom_version deprecate_bom_version
call (activate i) t = committed t (activate_bom_version t i)
call (deprecate i) t = committed t (deprecate_bom_version t i)

pub run : List Call → Table → Table
unfolding call
run [] t = t
run (c ∷ cs) t = run cs (call c t)

committed-Invariant :
    (t : Table) (r : Result (BomVersion × Table))
    → IsKeyed t × HasUniqueActive t
    → ((b : BomVersion) (t' : Table) → r ≡ ok (b, t') → IsKeyed t' × HasUniqueActive t')
    → IsKeyed (committed t r) × HasUniqueActive (committed t r)
committed-Invariant t (ok (b, t')) h f = f b t' refl
committed-Invariant t (err _) h f = h

-- One call of either kind keeps the keys distinct and the active versions unique.
call-HasUniqueActive :
    (c : Call) (t : Table)
    → IsKeyed t × HasUniqueActive t
    → IsKeyed (call c t) × HasUniqueActive (call c t)
unfolding call
call-HasUniqueActive (activate i) t h =
    committed-Invariant t (activate_bom_version t i) h
      (λ b t' e. activate-HasUniqueActive t i h.0 h.1 e)
call-HasUniqueActive (deprecate i) t h =
    committed-Invariant t (deprecate_bom_version t i) h
      (λ b t' e. deprecate-HasUniqueActive t i h.0 h.1 e)

-- From a table with distinct keys and at most one active version for each product, over any list of
-- calls, failed ones included, the keys stay distinct and no product has two active versions.
pub run-HasUniqueActive :
    (cs : List Call) (t : Table)
    → IsKeyed t × HasUniqueActive t
    → IsKeyed (run cs t) × HasUniqueActive (run cs t)
unfolding run
run-HasUniqueActive [] t h = h
run-HasUniqueActive (c ∷ cs) t h = run-HasUniqueActive cs (call c t) (call-HasUniqueActive c t h)

get-update_ne :
    (i j : ℕ) (s : BomVersionStatus) (t : Table)
    → i ≢ j
    → get j (update_where (has_id i) (set_status s) t) ≡ get j t
get-update_ne i j s [] n = refl
get-update_ne i j s (r ∷ t) n = ground (arith, get-update_ne i j s t n)

get-other_active_deprecated :
    (p i j : ℕ) (t : Table) {r : BomVersion}
    → get j t ≡ some r
    → r.status ≡ deprecated
    → get j (update_where (is_other_active p i) (set_status deprecated) t) ≡ some r
get-other_active_deprecated p i j [] h d = cc
get-other_active_deprecated p i j (s ∷ t) {r} h d =
    ground (arith, get-other_active_deprecated p i j t {r = r})

call_keeps_deprecated :
    (c : Call) (t : Table) (j : ℕ) {r : BomVersion}
    → get j t ≡ some r
    → r.status ≡ deprecated
    → get j (call c t) ≡ some r
unfolding call
call_keeps_deprecated (activate i) t j {r} h d = elim (Bool-cases (nat_beq i j)) [
  | inl same ↦ rw ((nat_beq_iff i j).0 same, (activate_outcomes t j).1 r h (λ e. ground arith)) h
  | inr other ↦ elim (Option-cases (get i t)) [
    | inl missing ↦ rw ((activate_outcomes t i).0 missing) h
    | inr (bom, e) ↦ elim (Bool-cases (bom.status == draft)) [
      | inl ready ↦ rw (((activate_outcomes t i).2 bom e (ground arith)).0) (
          get-update_ne i j active _ (λ q. ground arith)
          ∙ get-other_active_deprecated bom.product_id i j t h d)
      | inr late ↦ rw ((activate_outcomes t i).1 bom e (λ q. ground arith)) h
    ]
  ]
]
call_keeps_deprecated (deprecate i) t j {r} h d = elim (Bool-cases (nat_beq i j)) [
  | inl same ↦ rw ((nat_beq_iff i j).0 same, (deprecate_outcomes t j).1 r h d) h
  | inr other ↦ ground (arith, get-update_ne i j deprecated t (λ q. ground arith))
]

-- A deprecated version is final: no list of calls changes its row in any column.
pub deprecated_is_final :
    (cs : List Call) (t : Table) (j : ℕ) {r : BomVersion}
    → get j t ≡ some r
    → r.status ≡ deprecated
    → get j (run cs t) ≡ some r
unfolding run
deprecated_is_final [] t j h d = h
deprecated_is_final (c ∷ cs) t j h d =
    deprecated_is_final cs (call c t) j (call_keeps_deprecated c t j h d) d
