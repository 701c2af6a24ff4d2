-- ===== src/Audit/Chain.antt =====
-- `verify_chain` of backend/domains/audit/service.py on rows that are given, altered or missing.
use kira_backend.Prelude.{
  ℕ, zero, suc, ◌≡◌, refl, sym, ◌∙◌, subst, ◌≢◌, ◌↔◌, Bool, true, false, Option, none, some, List,
  [], ◌∷◌, ◌++◌, arith, nat_eq, string_eq, option_eq, option_beq_iff,
}
use kira_backend.Audit.{
  TrailRow, Scan, scan, scan_row, scan_start, scan_step_number, breaks_at, is_empty, verify_rows,
  ChainBreak,
}

-- Each row's `prev_hash` is the output of the row before it; the first row's is `prev`.
abbrev pub Follows : Option ℕ → List TrailRow → Type 0
Follows prev [] = Unit
Follows prev (r ∷ rs) = (r.prev_hash ≡ prev) × Follows r.output_hash rs

step_number-breaks : (o : Option ℕ) (s : Scan) → (scan_step_number o s).breaks ≡ s.breaks
step_number-breaks none s = refl
step_number-breaks (some n) s = refl

step_number-prev_output :
    (o : Option ℕ) (s : Scan) → (scan_step_number o s).prev_output ≡ s.prev_output
step_number-prev_output none s = refl
step_number-prev_output (some n) s = refl

breaks_at-empty :
    (idx : ℕ) (r : TrailRow) (prev : Option ℕ)
    → (idx ≡ 0 → prev ≡ none)
    → (breaks_at idx r prev ≡ []) ↔ (r.prev_hash ≡ prev)
breaks_at-empty zero r prev h = ground (arith, h refl)
breaks_at-empty (suc idx) r prev h = ground (arith, option_beq_iff r.prev_hash prev)

append-empty : (xs ys : List ChainBreak) → ((xs ++ ys) ≡ []) ↔ ((xs ≡ []) × (ys ≡ []))
append-empty [] ys = (λ h. (refl, h), λ h. h.1)
append-empty (x ∷ xs) ys = (λ h. absurd (cc h), λ h. absurd (cc (h.0)))

-- The loop records a new break exactly when the rows left do not follow.
scan-breaks :
    (idx : ℕ) (rs : List TrailRow) (s : Scan)
    → (idx ≡ 0 → s.prev_output ≡ none)
    → ((scan idx rs s).breaks ≡ []) ↔ ((s.breaks ≡ []) × Follows s.prev_output rs)
unfolding scan
scan-breaks idx [] s h = (λ e. (e, tt), λ e. e.0)
scan-breaks idx (r ∷ rs) s h =
    let s' = scan_row idx r s in
    let eb : s'.breaks ≡ s.breaks ++ breaks_at idx r s.prev_output =
      step_number-breaks r.step_number _ in
    let ep : s'.prev_output ≡ r.output_hash = step_number-prev_output r.step_number _ in
    let rest = scan-breaks (suc idx) rs s' (λ z. absurd (omega arith)) in
    let here = breaks_at-empty idx r s.prev_output h in
    let split = append-empty s.breaks (breaks_at idx r s.prev_output) in
    (
      λ e.
          let t = rest.0 e in
          let u = split.0 (sym eb ∙ t.0) in (u.0, (here.0 u.1, subst (λ p. Follows p rs) ep t.1)),
      λ e. rest.1 (eb ∙ split.1 (e.0, here.1 e.1.0), subst (λ p. Follows p rs) (sym ep) e.1.1),
    )

is_empty_iff : (bs : List ChainBreak) → (is_empty bs ≡ true) ↔ (bs ≡ [])
is_empty_iff [] = (λ _. refl, λ _. refl)
is_empty_iff (b ∷ bs) = (λ h. absurd (cc h), λ h. absurd (cc h))

-- `chain_valid` holds exactly when the first row has no previous digest and every later row's
-- previous digest is the output digest of the row before it.
pub chain_valid-iff-Follows :
    (b : ℕ) (rows : List TrailRow) → ((verify_rows b rows).chain_valid ≡ true) ↔ Follows none rows
unfolding verify_rows
chain_valid-iff-Follows b rows =
    let e = is_empty_iff (scan 0 rows scan_start).breaks in
    let f = scan-breaks 0 rows scan_start (λ _. refl) in
    (λ h. (f.0 (e.0 h)).1, λ h. e.1 (f.1 (refl, h)))

Follows-append :
    (prev : Option ℕ) (xs ys : List TrailRow) → Follows prev (xs ++ ys) → Follows prev xs
Follows-append prev [] ys h = tt
Follows-append prev (x ∷ xs) ys h = (h.0, Follows-append x.output_hash xs ys h.1)

Follows-middle :
    (prev : Option ℕ) (xs : List TrailRow) (r s : TrailRow) (ys : List TrailRow)
    → Follows prev (xs ++ r ∷ s ∷ ys)
    → s.prev_hash ≡ r.output_hash
Follows-middle prev [] r s ys h = h.1.0
Follows-middle prev (x ∷ xs) r s ys h = Follows-middle x.output_hash xs r s ys h.1

not-true : (b : Bool) → ¬ (b ≡ true) → b ≡ false
not-true true h = absurd (h refl)
not-true false h = refl

-- Tampering is detected: in a valid chain, a row that is not the last cannot be replaced by one
-- with another output digest without the chain becoming invalid.
pub tampering_is_detected :
    (b : ℕ) (xs : List TrailRow) (r r' s : TrailRow) (ys : List TrailRow)
    → (verify_rows b (xs ++ r ∷ s ∷ ys)).chain_valid ≡ true
    → r'.output_hash ≢ r.output_hash
    → (verify_rows b (xs ++ r' ∷ s ∷ ys)).chain_valid ≡ false
tampering_is_detected b xs r r' s ys v n =
    let old = Follows-middle none xs r s ys ((chain_valid-iff-Follows b _).0 v) in
    not-true _
      λ v'. n (sym (Follows-middle none xs r' s ys ((chain_valid-iff-Follows b _).0 v')) ∙ old)

-- Removing a row is detected where the digests around it differ: if the row before it, `q`, has
-- another output digest than the removed row, the chain is invalid without it.
pub removal_is_detected :
    (b : ℕ) (xs : List TrailRow) (q r s : TrailRow) (ys : List TrailRow)
    → (verify_rows b (xs ++ q ∷ r ∷ s ∷ ys)).chain_valid ≡ true
    → q.output_hash ≢ r.output_hash
    → (verify_rows b (xs ++ q ∷ s ∷ ys)).chain_valid ≡ false
removal_is_detected b xs q r s ys v n =
    let old = later none xs ((chain_valid-iff-Follows b _).0 v) in
    not-true _
      λ v'. n (sym (Follows-middle none xs q s ys ((chain_valid-iff-Follows b _).0 v')) ∙ old)
  where
    later :
        (prev : Option ℕ) (zs : List TrailRow)
        → Follows prev (zs ++ q ∷ r ∷ s ∷ ys)
        → s.prev_hash ≡ r.output_hash
    later prev [] h = h.1.1.0
    later prev (z ∷ zs) h = later z.output_hash zs h.1

-- What verification cannot see: dropping any number of rows from the end of a valid chain leaves a
-- valid chain.
pub truncation_is_not_detected :
    (b : ℕ) (xs ys : List TrailRow)
    → (verify_rows b (xs ++ ys)).chain_valid ≡ true
    → (verify_rows b xs).chain_valid ≡ true
truncation_is_not_detected b xs ys v =
    (chain_valid-iff-Follows b xs).1
      (Follows-append none xs ys ((chain_valid-iff-Follows b (xs ++ ys)).0 v))
