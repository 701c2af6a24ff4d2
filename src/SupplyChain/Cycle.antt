-- ===== src/SupplyChain/Cycle.antt =====
-- When the cycle check of backend/domains/supplychain/repository.py answers, and that an edge it
-- lets through closes no cycle.
use kira_backend.Prelude.{
  ℕ, zero, suc, ◌≤◌, ◌<◌, ◌≡◌, refl, sym, ◌∙◌, subst, ◌≢◌, ◌⊎◌, inl, inr, Bool, true, false, Option,
  none, some, List, [], ◌∷◌, ◌++◌, arith, nat_eq, string_eq, option_eq, contains, nat_beq,
  nat_beq_iff, Bool-cases, Option-cases, length, All, any, update_where, any-append, Distinct,
  length-Distinct,
}
use kira_backend.SupplyChain.{
  MapEdge, is_same, children_of, next, exists_descendant, would_create_cycle,
}
use kira_backend.SupplyChain.Search.{
  joins, Below, edge, step, Acyclic, has, has-children_of, next-has, IsChain, Starts,
  children_of-parent, exists_descendant_sound, exists_descendant_complete,
  exists_descendant-IsChain,
}

-- The suppliers that have a child
parents : List MapEdge → List ℕ
parents [] = []
parents (e ∷ es) = elim e.parent_supplier_id [ none ↦ parents es | some p ↦ p ∷ parents es ]

length-parents : (es : List MapEdge) → length (parents es) ≤ length es
unfolding parents
length-parents [] = omega arith
length-parents (e ∷ es) = ground (arith, length-parents es, Option-cases e.parent_supplier_id)

contains-parents :
    (es : List MapEdge) (x : ℕ)
    → any (λ (e : MapEdge). is_same e.parent_supplier_id x) es ≡ true
    → contains (parents es) x ≡ true
unfolding parents
contains-parents [] x h = cc
contains-parents (e ∷ es) x h = elim (Option-cases e.parent_supplier_id) [
  | inl root ↦ ground (arith, contains-parents es x)
  | inr (p, k) ↦ ground (arith, contains-parents es x, nat_beq_iff p x, nat_beq_iff x p)
]

joins-parent :
    (es : List MapEdge) (x y : ℕ)
    → any (joins x y) es ≡ true
    → any (λ (e : MapEdge). is_same e.parent_supplier_id x) es ≡ true
joins-parent [] x y h = cc
joins-parent (e ∷ es) x y h = ground (arith, joins-parent es x y)

module _ (es : List MapEdge) where
  chain-parents : (xs : List ℕ) → IsChain es xs → All (λ x. contains (parents es) x ≡ true) xs
  chain-parents [] c = tt
  chain-parents (x ∷ []) c = (contains-parents es x c, tt)
  chain-parents (x ∷ y ∷ ys) c =
      (contains-parents es x (joins-parent es x y c.0), chain-parents (y ∷ ys) c.1)

  chain-Below : (x z : ℕ) (xs : List ℕ) → IsChain es (x ∷ xs) → contains xs z ≡ true → Below es x z
  chain-Below x z [] c h = cc
  chain-Below x z (y ∷ ys) c h = elim (Bool-cases (nat_beq z y)) [
    | inl same ↦ subst (λ i. Below es x i) (sym ((nat_beq_iff z y).0 same)) (edge c.0)
    | inr other ↦ step c.0 (chain-Below y z ys c.1 (ground arith))
  ]

  tail-IsChain : (x : ℕ) (xs : List ℕ) → IsChain es (x ∷ xs) → IsChain es xs
  tail-IsChain x [] c = tt
  tail-IsChain x (y ∷ ys) c = c.1

  chain-Distinct : Acyclic es → (xs : List ℕ) → IsChain es xs → Distinct xs
  chain-Distinct acyclic [] c = tt
  chain-Distinct acyclic (x ∷ xs) c = (
    elim (Bool-cases (contains xs x)) [
      | inl again ↦ absurd (acyclic x (chain-Below x x xs c again))
      | inr fresh ↦ fresh
    ],
    chain-Distinct acyclic xs (tail-IsChain x xs c),
  )

  -- Without a cycle a chain has at most as many suppliers as there are edges.
  chain-length : Acyclic es → (xs : List ℕ) → IsChain es xs → length xs ≤ length es
  chain-length acyclic xs c = omega (
    arith,
    length-parents es,
    length-Distinct xs (parents es) (chain-Distinct acyclic xs c) (chain-parents xs c),
  )

  -- Where the query starts at the children of a supplier, that supplier is the head of the chain.
  from_child :
      (c : ℕ) (xs : List ℕ) → Starts (children_of es c) xs → IsChain es xs → IsChain es (c ∷ xs)
  from_child c [] s k = children_of-parent es c s
  from_child c (x ∷ xs) s k = (sym (has-children_of es c x) ∙ s, k)

  search_ends :
      Acyclic es
      → (fuel t c : ℕ) → length es < fuel
      → exists_descendant fuel es t (children_of es c) ≢ none
  search_ends acyclic zero t c h e = absurd (omega arith)
  search_ends acyclic (suc fuel) t c h e =
      let (xs, n, s, k) = exists_descendant-IsChain fuel es t (children_of es c) e in
      absurd (omega (arith, chain-length acyclic (c ∷ xs) (from_child c xs s k)))

  below_or :
      (c t : ℕ)
      → (has (children_of es c) t ≡ true)
        ⊎ ((d : ℕ) × (has (children_of es c) d ≡ true) × Below es d t)
      → Below es c t
  below_or c t (inl now) = edge (sym (has-children_of es c t) ∙ now)
  below_or c t (inr (d, k, b)) = step (sym (has-children_of es c d) ∙ k) b

  not_below :
      (c t : ℕ)
      → has (children_of es c) t ≡ false
      → ((d : ℕ) → has (children_of es c) d ≡ true → ¬ Below es d t)
      → ¬ Below es c t
  not_below c t now later (edge j) = cc (sym (has-children_of es c t ∙ j) ∙ now)
  not_below c t now later (step {y} j b) = later y (has-children_of es c y ∙ j) b

-- Over edges without a cycle the check ends, with fuel above the number of edges, and its answer is
-- whether the parent is below the child.
pub would_create_cycle_decides :
    (es : List MapEdge)
    → Acyclic es
    → (fuel p c : ℕ) → length es < fuel
    → ((would_create_cycle fuel es p c ≡ some true) × Below es c p)
      ⊎ ((would_create_cycle fuel es p c ≡ some false) × ¬ Below es c p)
unfolding would_create_cycle
would_create_cycle_decides es acyclic fuel p c h =
    elim (Option-cases (exists_descendant fuel es p (children_of es c))) [
      | inl out ↦ absurd (search_ends es acyclic fuel p c h out)
      | inr (true, e) ↦ inl (e, below_or es c p (exists_descendant_sound fuel es p _ e))
      | inr (false, e) ↦
          let (now, later) = exists_descendant_complete fuel es p _ e in
          inr (e, not_below es c p now later)
    ]

-- A supplier from which a cycle is reached
abbrev pub ReachesCycle : List MapEdge → ℕ → Type 0
ReachesCycle es d = (x : ℕ) × Below es d x × Below es x x

child_ReachesCycle :
    (es : List MapEdge) (d : ℕ)
    → ReachesCycle es d
    → (y : ℕ) × (any (joins d y) es ≡ true) × ReachesCycle es y
child_ReachesCycle es d (x, edge j, loop) = (x, j, (x, loop, loop))
child_ReachesCycle es d (x, step {y} j b, loop) = (y, j, (x, b, loop))

never_false :
    (fuel : ℕ) (es : List MapEdge) (t : ℕ) (rows : List (Option ℕ)) (d : ℕ)
    → has rows d ≡ true
    → ReachesCycle es d
    → exists_descendant fuel es t rows ≢ some false
unfolding exists_descendant
never_false zero es t rows d h k e = cc e
never_false (suc fuel) es t [] d h k e = cc h
never_false (suc fuel) es t (r ∷ rows) d h k e = elim (Bool-cases (has (r ∷ rows) t)) [
  | inl found ↦ cc (rw (found, exists_descendant) at e)
  | inr absent ↦
      let (y, j, k') = child_ReachesCycle es d k in
      never_false fuel es t (next es (r ∷ rows)) y (next-has es (r ∷ rows) d y h j) k'
        (rw (absent, exists_descendant) at e)
]

-- Where a cycle is below the child and the parent is not, the check never ends: no fuel is enough.
pub would_create_cycle_never_ends :
    (es : List MapEdge) (p c : ℕ)
    → ReachesCycle es c
    → ¬ Below es c p
    → (fuel : ℕ) → would_create_cycle fuel es p c ≡ none
unfolding would_create_cycle
would_create_cycle_never_ends es p c k n fuel =
    elim (Option-cases (exists_descendant fuel es p (children_of es c))) [
      | inl out ↦ out
      | inr (true, e) ↦ absurd (n (below_or es c p (exists_descendant_sound fuel es p _ e)))
      | inr (false, e) ↦
          let (y, j, k') = child_ReachesCycle es c k in
          absurd (never_false fuel es p _ y (has-children_of es c y ∙ j) k' e)
    ]

abbrev pub AtOrBelow : List MapEdge → ℕ → ℕ → Type 0
AtOrBelow es x y = (x ≡ y) ⊎ Below es x y

at_or_step :
    (es : List MapEdge) {x y z : ℕ} → any (joins x y) es ≡ true → AtOrBelow es y z → Below es x z
at_or_step es {x} j (inl same) = subst (λ i. Below es x i) same (edge j)
at_or_step es j (inr b) = step j b

-- A walk over one more edge stays among the old ones or goes over the new one.
Below-append :
    (es : List MapEdge) (e : MapEdge) (p c : ℕ)
    → e.parent_supplier_id ≡ some p
    → e.child_supplier_id ≡ some c
    → {x y : ℕ} → Below (es ++ e ∷ []) x y
    → Below es x y ⊎ (AtOrBelow es x p × AtOrBelow es c y)
Below-append es e p c hp hc {x} {y} (edge j) = elim (Bool-cases (any (joins x y) es)) [
  | inl old ↦ inl (edge old)
  | inr absent ↦ inr (
    inl (ground (arith, any-append (joins x y) es (e ∷ []), nat_beq_iff p x)),
    inl (ground (arith, any-append (joins x y) es (e ∷ []), nat_beq_iff c y)),
  )
]
Below-append es e p c hp hc {x} {y = z} (step {y} j b) =
    let rest = Below-append es e p c hp hc b in
    elim (Bool-cases (any (joins x y) es)) [
      | inl old ↦ elim rest [
        | inl b' ↦ inl (step old b')
        | inr (to_p, from_c) ↦ inr (inr (at_or_step es old to_p), from_c)
      ]
      | inr absent ↦
          let at_p : x ≡ p = ground (arith, any-append (joins x y) es (e ∷ []), nat_beq_iff p x) in
          let at_c : c ≡ y = ground (arith, any-append (joins x y) es (e ∷ []), nat_beq_iff c y) in
          elim rest [
            | inl b' ↦ inr (inl at_p, inr (subst (λ i. Below es i z) (sym at_c) b'))
            | inr (to_p, from_c) ↦ inr (inl at_p, from_c)
          ]
    ]

Below-trans : (es : List MapEdge) {x y z : ℕ} → Below es x y → Below es y z → Below es x z
Below-trans es (edge j) k = step j k
Below-trans es (step j b) k = step j (Below-trans es b k)

-- An edge from a parent to a child that is neither the parent nor above it closes no cycle.
pub Acyclic-append :
    (es : List MapEdge) (e : MapEdge) (p c : ℕ)
    → e.parent_supplier_id ≡ some p
    → e.child_supplier_id ≡ some c
    → p ≢ c
    → ¬ Below es c p
    → Acyclic es
    → Acyclic (es ++ e ∷ [])
Acyclic-append es e p c hp hc differ apart acyclic x b = elim (Below-append es e p c hp hc b) [
  | inl old ↦ acyclic x old
  | inr (inl xp, inl cx) ↦ differ (sym (cx ∙ xp))
  | inr (inl xp, inr cx) ↦ apart (subst (λ i. Below es c i) xp cx)
  | inr (inr xp, inl cx) ↦ apart (subst (λ i. Below es i p) (sym cx) xp)
  | inr (inr xp, inr cx) ↦ apart (Below-trans es cx xp)
]

-- What the edges join decides on what is below what.
pub Below-same :
    (es es' : List MapEdge)
    → ((x y : ℕ) → any (joins x y) es' ≡ any (joins x y) es)
    → {x y : ℕ} → Below es' x y
    → Below es x y
Below-same es es' same {x} {y} (edge j) = edge (sym (same x y) ∙ j)
Below-same es es' same {x} (step {y} j b) = step (sym (same x y) ∙ j) (Below-same es es' same b)

pub joins-append_root :
    (es : List MapEdge) (e : MapEdge)
    → e.parent_supplier_id ≡ none
    → (x y : ℕ) → any (joins x y) (es ++ e ∷ []) ≡ any (joins x y) es
joins-append_root es e h x y = ground (arith, any-append (joins x y) es (e ∷ []))

pub joins-update :
    (p : MapEdge → Bool) (f : MapEdge → MapEdge)
    → ((e : MapEdge)
        → ((f e).parent_supplier_id ≡ e.parent_supplier_id)
          × ((f e).child_supplier_id ≡ e.child_supplier_id))
    → (es : List MapEdge) (x y : ℕ) → any (joins x y) (update_where p f es) ≡ any (joins x y) es
joins-update p f keep [] x y = refl
joins-update p f keep (e ∷ es) x y = ground (arith, keep e, joins-update p f keep es x y)
