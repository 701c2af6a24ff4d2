-- ===== src/SupplyChain/Gaps/Summary.antt =====
-- The summary of the gaps, and that it agrees with what is requested.
use kira_backend.Prelude.{
  ℕ, String, ◌≡◌, refl, sym, subst, inl, inr, Bool, true, not, ◌&&◌, ◌||◌, Option, List, [], ◌∷◌,
  arith, ◌==◌, nat_eq, string_eq, option_eq, contains, ok, ltb, nat_beq, nat_beq_iff, Bool-cases,
  length, All, any, all, filter,
}
use kira_backend.SupplyChain.Gaps.{
  FieldData, Regulation, RequiredField, Node, node_of, get_gaps, trigger_gap_data_requests,
  first_of_each, sum_gaps, ValidationSummary, get_validation_summary, missing_for, missing_for_all,
  reg_fields, field_has_map,
}
use kira_backend.SupplyChain.Gaps.Requests.{ids, has_gap, trigger_gap_data_requests_lem}

-- The query joins what is held by the supplier alone: two rows of one supplier differ in the depth.
abbrev pub IsSameSupplier : FieldData → FieldData → Type 0
IsSameSupplier a b = a.supplier_id ≡ b.supplier_id → a ≡ record b { depth = a.depth }

abbrev pub AgreesWithAll : FieldData → List FieldData → Type 0
AgreesWithAll a rows = All (IsSameSupplier a) rows

abbrev pub IsConsistent : List FieldData → Type 0
IsConsistent [] = Unit
IsConsistent (a ∷ rows) = AgreesWithAll a rows × IsConsistent rows

-- Nodes of one supplier have the same gaps.
abbrev pub SameGaps : List Node → Type 0
SameGaps [] = Unit
SameGaps (n ∷ ns) =
    All (λ (m : Node). n.supplier_id ≡ m.supplier_id → n.gap_count ≡ m.gap_count) ns × SameGaps ns

-- The depth of a row says nothing of its gaps.
module _ (d : Option ℕ) (b : FieldData) where
  abbrev at_depth : FieldData
  at_depth = record b { depth = d }

  missing_for-depth :
      (reg : Regulation) (fs : List RequiredField)
      → missing_for at_depth reg fs ≡ missing_for b reg fs
  unfolding field_has_map
  missing_for-depth reg [] = refl
  missing_for-depth reg (f ∷ fs) = rw (missing_for-depth reg fs) refl

  missing_for_all-depth :
      (fields : ℕ → List RequiredField) (regs : List Regulation)
      → missing_for_all at_depth fields regs ≡ missing_for_all b fields regs
  missing_for_all-depth fields [] = refl
  missing_for_all-depth fields (reg ∷ regs) =
      rw (missing_for-depth reg (fields reg.regulation_id), missing_for_all-depth fields regs) refl

  gap_count-depth :
      (required : String → List RequiredField) (regs : List Regulation)
      → (node_of required regs at_depth).gap_count ≡ (node_of required regs b).gap_count
  unfolding node_of
  gap_count-depth required regs = rw (missing_for_all-depth (reg_fields required regs) regs) refl

module _ (required : String → List RequiredField) (regs : List Regulation) where
  agrees-SameGaps :
      (a : FieldData) (rows : List FieldData)
      → AgreesWithAll a rows
      → All
          (λ (m : Node).
            (node_of required regs a).supplier_id ≡ m.supplier_id
            → (node_of required regs a).gap_count ≡ m.gap_count)
          (get_gaps required regs rows)
  unfolding get_gaps node_of
  agrees-SameGaps a [] h = tt
  agrees-SameGaps a (b ∷ rows) h = (
    λ same.
        subst (λ r. (node_of required regs r).gap_count ≡ (node_of required regs b).gap_count)
          (sym (h.0 same)) (gap_count-depth a.depth b required regs),
    agrees-SameGaps a rows h.1,
  )

  IsConsistent-SameGaps :
      (rows : List FieldData) → IsConsistent rows → SameGaps (get_gaps required regs rows)
  unfolding get_gaps
  IsConsistent-SameGaps [] h = tt
  IsConsistent-SameGaps (a ∷ rows) h = (agrees-SameGaps a rows h.0, IsConsistent-SameGaps rows h.1)

All-filter {ℓ κ} :
    {A : Type ℓ} (P : A → Type κ) (p : A → Bool) (xs : List A) → All P xs → All P (filter p xs)
All-filter P p [] h = tt
All-filter P p (x ∷ xs) h = elim (Bool-cases (p x)) [
  | inl kept ↦ rw kept (h.0, All-filter P p xs h.1)
  | inr dropped ↦ rw dropped (All-filter P p xs h.1)
]

SameGaps-filter : (p : Node → Bool) (ns : List Node) → SameGaps ns → SameGaps (filter p ns)
SameGaps-filter p [] h = tt
SameGaps-filter p (n ∷ ns) h = elim (Bool-cases (p n)) [
  | inl kept ↦ rw kept (All-filter _ p ns h.0, SameGaps-filter p ns h.1)
  | inr dropped ↦ rw dropped (SameGaps-filter p ns h.1)
]

abbrev without_gap : List ℕ → Node → Bool
without_gap seen m = contains seen m.supplier_id || m.gap_count == 0

all-seen :
    (seen : List ℕ) (n : Node) (ns : List Node)
    → n.gap_count ≡ 0
    → All (λ (m : Node). n.supplier_id ≡ m.supplier_id → n.gap_count ≡ m.gap_count) ns
    → all (without_gap (n.supplier_id ∷ seen)) ns ≡ all (without_gap seen) ns
all-seen seen n [] h same = refl
all-seen seen n (m ∷ ns) h same =
    ground (arith, all-seen seen n ns h same.1, same.0, nat_beq_iff m.supplier_id n.supplier_id)

sum_gaps-first_of_each :
    (seen : List ℕ) (ns : List Node)
    → SameGaps ns
    → (nat_beq (sum_gaps (first_of_each seen ns)) 0) ≡ all (without_gap seen) ns
unfolding first_of_each
sum_gaps-first_of_each seen [] h = refl
sum_gaps-first_of_each seen (n ∷ ns) h = elim (Bool-cases (contains seen n.supplier_id)) [
  | inl old ↦ ground (arith, sum_gaps-first_of_each seen ns h.1)
  | inr new ↦ elim (Bool-cases (nat_beq n.gap_count 0)) [
    | inl none_here ↦ ground (
      arith,
      sum_gaps-first_of_each (n.supplier_id ∷ seen) ns h.1,
      all-seen seen n ns ((nat_beq_iff n.gap_count 0).0 none_here) h.0,
    )
    | inr some_here ↦ ground arith
  ]
]

any-first_of_each : (ns : List Node) → ltb 0 (length (first_of_each [] ns)) ≡ any (λ n. true) ns
unfolding first_of_each
any-first_of_each [] = refl
any-first_of_each (n ∷ ns) = ground arith

all-filter :
    (ns : List Node)
    → all (without_gap []) (filter (λ (n : Node). not n.is_root_anchor) ns)
      ≡ all (λ (n : Node). n.is_root_anchor || n.gap_count == 0) ns
all-filter [] = refl
all-filter (n ∷ ns) = ground (arith, all-filter ns)

any-filter :
    (ns : List Node)
    → any (λ n. true) (filter (λ (n : Node). not n.is_root_anchor) ns)
      ≡ any (λ (n : Node). not n.is_root_anchor) ns
any-filter [] = refl
any-filter (n ∷ ns) = ground (arith, any-filter ns)

only_roots :
    (s : ℕ) (ns : List Node)
    → all (λ (n : Node). n.is_root_anchor || n.gap_count == 0) ns ≡ true
    → any (has_gap s) ns ≡ true
    → any (λ (n : Node). n.supplier_id == s && n.is_root_anchor) ns ≡ true
only_roots s [] h k = cc
only_roots s (n ∷ ns) h k = ground (arith, only_roots s ns)

-- Where two rows of one supplier differ only in the depth: a summary is ready if and only if the
-- ratios are valid, there is a node other than the root, and no such node has a gap, though it
-- reads only the first node of each supplier; and once it is ready, the trigger asks nobody but the
-- root, whatever the targets.
pub get_validation_summary_ready :
    (required : String → List RequiredField) (regs : List Regulation) (rows : List FieldData)
    (ratio_valid : Bool) (s : ValidationSummary)
    → IsConsistent rows
    → get_validation_summary required regs rows ratio_valid ≡ ok s
    → let nodes = get_gaps required regs rows in
      (s.ready_for_final ≡ (
        ratio_valid
        && any (λ (n : Node). not n.is_root_anchor) nodes
        && all (λ (n : Node). n.is_root_anchor || n.gap_count == 0) nodes))
      × (s.ready_for_final ≡ true
          → (targets : List ℕ) (i : ℕ)
          → contains (ids (trigger_gap_data_requests required regs rows targets)) i ≡ true
          → any (λ (n : Node). n.supplier_id == i && n.is_root_anchor) nodes ≡ true)
unfolding get_validation_summary
get_validation_summary_ready required regs rows ratio_valid s c h =
    let nodes = get_gaps required regs rows in
    let mine = filter (λ (n : Node). not n.is_root_anchor) nodes in
    let same = SameGaps-filter _ nodes (IsConsistent-SameGaps required regs rows c) in
    let ready : s.ready_for_final ≡ (
        ratio_valid
        && any (λ (n : Node). not n.is_root_anchor) nodes
        && all (λ (n : Node). n.is_root_anchor || n.gap_count == 0) nodes) =
      ground (
        arith,
        sum_gaps-first_of_each [] mine same,
        any-first_of_each mine,
        all-filter nodes,
        any-filter nodes,
      ) in
    (
      ready,
      λ r targets i asked.
          only_roots i nodes (ground (arith, ready))
            (ground (arith, (trigger_gap_data_requests_lem required regs rows targets i).1)),
    )
