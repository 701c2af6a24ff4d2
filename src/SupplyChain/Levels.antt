-- ===== src/SupplyChain/Levels.antt =====
-- The hop level of a new edge, the CASE of create_supply_relation in
-- backend/domains/supplychain/repository.py.
use kira_backend.Prelude.{
  ℕ, ◌+◌, ◌≤◌, min, ◌≡◌, refl, sym, ◌∙◌, subst, ◌⊎◌, inl, inr, Bool, true, false, ◌&&◌, Option,
  none, some, List, [], ◌∷◌, map, arith, ◌==◌, nat_eq, string_eq, option_eq, leb, nat_beq,
  nat_beq_iff, Bool-cases, Option-cases, any, filter,
}
use kira_backend.SupplyChain.{MapEdge, hop_below, least, leads_to}

-- An edge of a version that leads to a supplier, at a level
abbrev pub at_level : ℕ → ℕ → ℕ → MapEdge → Bool
at_level bv supplier h e =
    e.bom_version_id == bv && (e.child_supplier_id == some supplier && e.hop_level == some h)

-- One more than the least level at which edges of the version lead to the parent, or 1
abbrev pub IsNextLevel : ℕ → ℕ → List MapEdge → ℕ → Type 0
IsNextLevel bv parent es n =
    ((h : ℕ) → any (at_level bv parent h) es ≡ true → n ≤ h + 1)
    × (((h : ℕ) × (any (at_level bv parent h) es ≡ true) × (n ≡ h + 1))
        ⊎ (((h : ℕ) → any (at_level bv parent h) es ≡ false) × (n ≡ 1)))

levels : ℕ → ℕ → List MapEdge → List (Option ℕ)
levels bv p es = map (λ (e : MapEdge). e.hop_level) (filter (leads_to bv p) es)

abbrev IsLeast : ℕ → ℕ → List MapEdge → Option ℕ → Type 0
IsLeast bv p es none = (h : ℕ) → any (at_level bv p h) es ≡ false
IsLeast bv p es (some k) =
    (any (at_level bv p k) es ≡ true) × ((h : ℕ) → any (at_level bv p h) es ≡ true → k ≤ h)

leads-at_level :
    (bv p h : ℕ) (e : MapEdge) → at_level bv p h e ≡ (leads_to bv p e && e.hop_level == some h)
leads-at_level bv p h e = ground (arith, Option-cases e.child_supplier_id)

skipped-IsLeast :
    (bv p : ℕ) (e : MapEdge) (es : List MapEdge) (o : Option ℕ)
    → ((h : ℕ) → at_level bv p h e ≡ false)
    → IsLeast bv p es o
    → IsLeast bv p (e ∷ es) o
skipped-IsLeast bv p e es none apart l = λ h. rw (apart h) (l h)
skipped-IsLeast bv p e es (some k) apart l = (rw (apart k) l.0, λ h q. l.1 h (rw (apart h) at q))

-- A first level
abbrev sooner : ℕ → Option ℕ → Option ℕ
sooner m o = elim o [ none ↦ some m | some k ↦ some (min m k) ]

first-IsLeast :
    (bv p m : ℕ) (e : MapEdge) (es : List MapEdge) (o : Option ℕ)
    → ((h : ℕ) → at_level bv p h e ≡ nat_beq m h)
    → IsLeast bv p es o
    → IsLeast bv p (e ∷ es) (sooner m o)
first-IsLeast bv p m e es none here l = (
  rw (here m) (ground (arith, nat_beq_iff m m)),
  λ h q. ground (arith, here h, l h, nat_beq_iff m h),
)
first-IsLeast bv p m e es (some k) here l = elim (Bool-cases (leb m k)) [
  | inl less ↦
      let same : min m k ≡ m = ground arith in
      let there : any (at_level bv p m) (e ∷ es) ≡ true =
        rw (here m) (ground (arith, nat_beq_iff m m)) in
      subst (λ j. IsLeast bv p (e ∷ es) (some j)) (sym same)
        (there, λ h q. ground (arith, here h, l.1 h, nat_beq_iff m h))
  | inr more ↦
      let same : min m k ≡ k = ground arith in
      let there : any (at_level bv p k) (e ∷ es) ≡ true = rw l.0 (ground arith) in
      subst (λ j. IsLeast bv p (e ∷ es) (some j)) (sym same)
        (there, λ h q. ground (arith, here h, l.1 h, nat_beq_iff m h))
]

least-IsLeast : (bv p : ℕ) (es : List MapEdge) → IsLeast bv p es (least (levels bv p es))
unfolding levels
least-IsLeast bv p [] = λ h. refl
least-IsLeast bv p (e ∷ es) =
    let rest = least-IsLeast bv p es in
    elim (Bool-cases (leads_to bv p e)) [
      | inl leads ↦ elim (Option-cases e.hop_level) [
        | inl unknown ↦
            let same : least (levels bv p es) ≡ least (levels bv p (e ∷ es)) =
              sym (rw leads (rw unknown refl)) in
            subst (IsLeast bv p (e ∷ es)) same (
              skipped-IsLeast bv p e es _ (λ h. leads-at_level bv p h e ∙ rw (leads, unknown) refl)
                rest)
        | inr (m, known) ↦
            let same : sooner m (least (levels bv p es)) ≡ least (levels bv p (e ∷ es)) =
              sym (rw leads (rw known refl)) in
            subst (IsLeast bv p (e ∷ es)) same (
              first-IsLeast bv p m e es _ (λ h. leads-at_level bv p h e ∙ rw (leads, known) refl)
                rest)
      ]
      | inr apart ↦
          rw apart (skipped-IsLeast bv p e es _ (λ h. leads-at_level bv p h e ∙ rw apart refl) rest)
    ]

pub hop_below-IsNextLevel :
    (bv p : ℕ) (es : List MapEdge) → IsNextLevel bv p es (hop_below bv (some p) es)
unfolding hop_below levels
hop_below-IsNextLevel bv p es = elim (Option-cases (least (levels bv p es))) [
  | inl nothing ↦
      let none_at = subst (IsLeast bv p es) nothing (least-IsLeast bv p es) in
      rw nothing ((λ h e. absurd (cc (sym e ∙ none_at h))), inr (none_at, refl))
  | inr (k, found) ↦
      let (there, first) = subst (IsLeast bv p es) found (least-IsLeast bv p es) in
      rw found ((λ h e. omega (arith, first h e)), inl (k, there, refl))
]
