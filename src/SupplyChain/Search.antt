-- ===== src/SupplyChain/Search.antt =====
-- The downward search of backend/domains/supplychain/repository.py against the relation that it
-- decides: what it answers, and when it answers at all.
use kira_backend.Prelude.{
  ℕ, zero, suc, ◌≡◌, refl, sym, ap, ◌∙◌, subst, ◌≢◌, ◌⊎◌, inl, inr, Bool, true, false, ◌&&◌, Option,
  none, some, List, [], ◌∷◌, arith, nat_eq, string_eq, option_eq, nat_beq, nat_beq_iff, Bool-cases,
  List-cases, length, any, any-append,
}
use kira_backend.SupplyChain.{MapEdge, is_same, children_of, next, exists_descendant}

-- An edge from `p` to `c`
abbrev pub joins : ℕ → ℕ → MapEdge → Bool
joins p c e = is_same e.parent_supplier_id p && is_same e.child_supplier_id c

-- The supplier `y` is below `x`.
pub data Below (es : List MapEdge) : ℕ → ℕ → Type 0 where
  edge : {x y : ℕ} → any (joins x y) es ≡ true → Below es x y
  step : {x y z : ℕ} → any (joins x y) es ≡ true → Below es y z → Below es x z

abbrev pub Acyclic : List MapEdge → Type 0
Acyclic es = (x : ℕ) → ¬ Below es x x

abbrev pub has : List (Option ℕ) → ℕ → Bool
has rows d = any (λ o. is_same o d) rows

pub has-children_of : (es : List MapEdge) (d c : ℕ) → has (children_of es d) c ≡ any (joins d c) es
has-children_of [] d c = refl
has-children_of (e ∷ es) d c = ground (arith, has-children_of es d c)

-- What the recursive term adds
pub next-has :
    (es : List MapEdge) (rows : List (Option ℕ)) (d c : ℕ)
    → has rows d ≡ true
    → any (joins d c) es ≡ true
    → has (next es rows) c ≡ true
next-has es [] d c h k = cc
next-has es (none ∷ rows) d c h k = next-has es rows d c h k
next-has es (some x ∷ rows) d c h k = elim (Bool-cases (nat_beq x d)) [
  | inl same ↦
      let here : has (children_of es x) c ≡ true =
        subst (λ i. has (children_of es i) c ≡ true) (sym ((nat_beq_iff x d).0 same))
          (has-children_of es d c ∙ k) in
      ground (arith, any-append (λ o. is_same o c) (children_of es x) (next es rows))
  | inr other ↦
      ground (
        arith,
        any-append (λ o. is_same o c) (children_of es x) (next es rows),
        next-has es rows d c,
      )
]

has-next :
    (es : List MapEdge) (rows : List (Option ℕ)) (c : ℕ)
    → has (next es rows) c ≡ true
    → (d : ℕ) × (has rows d ≡ true) × (any (joins d c) es ≡ true)
has-next es [] c h = cc
has-next es (none ∷ rows) c h = has-next es rows c h
has-next es (some x ∷ rows) c h = elim (Bool-cases (has (children_of es x) c)) [
  | inl here ↦ (x, ground (arith, nat_beq_iff x x), sym (has-children_of es x c) ∙ here)
  | inr absent ↦
      let (d, k, j) =
        has-next es rows c
          (ground (arith, any-append (λ o. is_same o c) (children_of es x) (next es rows))) in
      (d, ground arith, j)
]

-- An answer `true`: the target is in the working table or below one of its rows.
pub exists_descendant_sound :
    (fuel : ℕ) (es : List MapEdge) (t : ℕ) (rows : List (Option ℕ))
    → exists_descendant fuel es t rows ≡ some true
    → (has rows t ≡ true) ⊎ ((d : ℕ) × (has rows d ≡ true) × Below es d t)
unfolding exists_descendant
exists_descendant_sound zero es t rows h = absurd (cc h)
exists_descendant_sound (suc fuel) es t [] h = absurd (cc h)
exists_descendant_sound (suc fuel) es t (r ∷ rows) h = elim (Bool-cases (has (r ∷ rows) t)) [
  | inl found ↦ inl found
  | inr absent ↦
      elim (exists_descendant_sound fuel es t (next es (r ∷ rows))
        (rw (absent, exists_descendant) at h)) [
          | inl now ↦ let (d, k, j) = has-next es (r ∷ rows) t now in inr (d, k, edge j)
          | inr (c, k, below) ↦
              let (d, k', j) = has-next es (r ∷ rows) c k in inr (d, k', step j below)
        ]
]

-- An answer `false`: neither the target nor anything above it is in the working table.
pub exists_descendant_complete :
    (fuel : ℕ) (es : List MapEdge) (t : ℕ) (rows : List (Option ℕ))
    → exists_descendant fuel es t rows ≡ some false
    → (has rows t ≡ false) × ((d : ℕ) → has rows d ≡ true → ¬ Below es d t)
unfolding exists_descendant
exists_descendant_complete zero es t rows h = absurd (cc h)
exists_descendant_complete (suc fuel) es t [] h = (refl, λ d k b. cc k)
exists_descendant_complete (suc fuel) es t (r ∷ rows) h = elim (Bool-cases (has (r ∷ rows) t)) [
  | inl found ↦ absurd (cc (rw (found, exists_descendant) at h))
  | inr absent ↦
      let (now, later) =
        exists_descendant_complete fuel es t (next es (r ∷ rows))
          (rw (absent, exists_descendant) at h) in
      (
        absent,
        λ d k b. elim b [
          | edge j ↦ cc (sym (next-has es (r ∷ rows) d t k j) ∙ now)
          | step {y} j below ↦ later y (next-has es (r ∷ rows) d y k j) below
        ],
      )
]

-- A query that the fuel does not end: a chain of as many suppliers, from the working table on, each
-- with an edge to the next, and the last one with an edge too.
abbrev pub IsChain : List MapEdge → List ℕ → Type 0
IsChain es [] = Unit
IsChain es (x ∷ []) = any (λ (e : MapEdge). is_same e.parent_supplier_id x) es ≡ true
IsChain es (x ∷ y ∷ ys) = (any (joins x y) es ≡ true) × IsChain es (y ∷ ys)

abbrev pub Starts : List (Option ℕ) → List ℕ → Type 0
Starts rows [] = rows ≢ []
Starts rows (x ∷ xs) = has rows x ≡ true

pub children_of-parent :
    (es : List MapEdge) (d : ℕ)
    → children_of es d ≢ []
    → any (λ (e : MapEdge). is_same e.parent_supplier_id d) es ≡ true
children_of-parent [] d h = absurd (h refl)
children_of-parent (e ∷ es) d h = ground (arith, children_of-parent es d)

next-parent :
    (es : List MapEdge) (rows : List (Option ℕ))
    → next es rows ≢ []
    → (d : ℕ) × (has rows d ≡ true)
      × (any (λ (e : MapEdge). is_same e.parent_supplier_id d) es ≡ true)
next-parent es [] h = absurd (h refl)
next-parent es (none ∷ rows) h = next-parent es rows h
next-parent es (some x ∷ rows) h = elim (List-cases (children_of es x)) [
  | inl empty ↦
      let (d, k, j) = next-parent es rows (λ e. h (ground (arith, empty, e))) in
      (d, ground arith, j)
  | inr (o, os, e) ↦
      (x, ground (arith, nat_beq_iff x x), children_of-parent es x (λ z. cc (sym e ∙ z)))
]

extend :
    (es : List MapEdge) (rows : List (Option ℕ)) (xs : List ℕ)
    → Starts (next es rows) xs
    → IsChain es xs
    → (x : ℕ) × (has rows x ≡ true) × IsChain es (x ∷ xs)
extend es rows [] s c = next-parent es rows s
extend es rows (y ∷ ys) s c = let (d, k, j) = has-next es rows y s in (d, k, (j, c))

pub exists_descendant-IsChain :
    (fuel : ℕ) (es : List MapEdge) (t : ℕ) (rows : List (Option ℕ))
    → exists_descendant (suc fuel) es t rows ≡ none
    → (xs : List ℕ) × (length xs ≡ fuel) × Starts rows xs × IsChain es xs
unfolding exists_descendant
exists_descendant-IsChain fuel es t [] h = absurd (cc h)
exists_descendant-IsChain zero es t (r ∷ rows) h = ([], refl, λ e. cc e, tt)
exists_descendant-IsChain (suc fuel) es t (r ∷ rows) h = elim (Bool-cases (has (r ∷ rows) t)) [
  | inl found ↦ absurd (cc (rw (found, exists_descendant) at h))
  | inr absent ↦
      let (xs, n, s, c) =
        exists_descendant-IsChain fuel es t (next es (r ∷ rows))
          (rw (absent, exists_descendant) at h) in
      let (x, k, c') = extend es (r ∷ rows) xs s c in (x ∷ xs, ap suc n, k, c')
]
