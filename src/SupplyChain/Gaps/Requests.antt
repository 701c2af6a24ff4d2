-- ===== src/SupplyChain/Gaps/Requests.antt =====
-- What is requested for the gaps.
use kira_backend.Prelude.{
  ℕ, String, ◌≡◌, refl, ap, inl, inr, Bool, true, false, not, ◌&&◌, List, [], ◌∷◌, map, arith, ◌==◌,
  nat_eq, string_eq, option_eq, contains, nat_beq, nat_beq_iff, Bool-cases, any, Distinct,
}
use kira_backend.SupplyChain.Gaps.{
  FieldData, Regulation, RequiredField, Node, get_gaps, is_target, is_requested, Accepted,
  accepted_of, request_gaps, trigger_gap_data_requests,
}

abbrev pub ids : List Accepted → List ℕ
ids rs = map (λ (r : Accepted). r.supplier_id) rs

-- A node of the supplier with a gap
abbrev pub has_gap : ℕ → Node → Bool
has_gap s n = n.supplier_id == s && not (n.gap_count == 0)

request_gaps-asked :
    (targets seen : List ℕ) (n : Node) (ns : List Node)
    → is_requested targets seen n ≡ true
    → request_gaps targets seen (n ∷ ns)
      ≡ accepted_of n ∷ request_gaps targets (n.supplier_id ∷ seen) ns
unfolding request_gaps
request_gaps-asked targets seen n ns h = ground arith

request_gaps-skipped :
    (targets seen : List ℕ) (n : Node) (ns : List Node)
    → is_requested targets seen n ≡ false
    → request_gaps targets seen (n ∷ ns) ≡ request_gaps targets seen ns
unfolding request_gaps
request_gaps-skipped targets seen n ns h = ground arith

contains-request_gaps :
    (targets seen : List ℕ) (ns : List Node) (s : ℕ)
    → contains (ids (request_gaps targets seen ns)) s
      ≡ (any (has_gap s) ns && is_target targets s && not (contains seen s))
unfolding request_gaps
contains-request_gaps targets seen [] s = refl
contains-request_gaps targets seen (n ∷ ns) s =
    let rest = contains-request_gaps targets seen ns s in
    let rest' = contains-request_gaps targets (n.supplier_id ∷ seen) ns s in
    elim (Bool-cases (nat_beq n.supplier_id s)) [
      | inl same ↦
          let e : n.supplier_id ≡ s = (nat_beq_iff n.supplier_id s).0 same in
          let target = ap (is_target targets) e in
          let asked = ap (contains seen) e in
          let again = ap (λ i. nat_beq s i) e in
          elim (Bool-cases (is_requested targets seen n)) [
            | inl now ↦
                rw (request_gaps-asked targets seen n ns now)
                  (ground (arith, target, asked, again, nat_beq_iff s s, rest'))
            | inr skipped ↦
                rw (request_gaps-skipped targets seen n ns skipped)
                  (ground (arith, target, asked, rest))
          ]
      | inr other ↦
          let other' : nat_beq s n.supplier_id ≡ false =
            ground (arith, nat_beq_iff s n.supplier_id, nat_beq_iff n.supplier_id s) in
          elim (Bool-cases (is_requested targets seen n)) [
            | inl now ↦
                rw (request_gaps-asked targets seen n ns now) (ground (arith, rest', other'))
            | inr skipped ↦
                rw (request_gaps-skipped targets seen n ns skipped) (ground (arith, rest, other'))
          ]
    ]

request_gaps-Distinct :
    (targets seen : List ℕ) (ns : List Node) → Distinct (ids (request_gaps targets seen ns))
unfolding request_gaps
request_gaps-Distinct targets seen [] = tt
request_gaps-Distinct targets seen (n ∷ ns) = elim (Bool-cases (is_requested targets seen n)) [
  | inl asked ↦ rw (request_gaps-asked targets seen n ns asked) (
    ground (
      arith,
      contains-request_gaps targets (n.supplier_id ∷ seen) ns n.supplier_id,
      nat_beq_iff n.supplier_id n.supplier_id,
    ),
    request_gaps-Distinct targets (n.supplier_id ∷ seen) ns,
  )
  | inr skipped ↦
      rw (request_gaps-skipped targets seen n ns skipped) (request_gaps-Distinct targets seen ns)
]

-- One request for each supplier at most, and a supplier is asked if and only if one of its nodes has
-- a gap and it is a target; without targets every supplier is one.
pub trigger_gap_data_requests_lem :
    (required : String → List RequiredField) (regs : List Regulation) (rows : List FieldData)
    (targets : List ℕ) (s : ℕ)
    → let asked = ids (trigger_gap_data_requests required regs rows targets) in
      Distinct asked
      × (contains asked s ≡ (any (has_gap s) (get_gaps required regs rows) && is_target targets s))
unfolding trigger_gap_data_requests
trigger_gap_data_requests_lem required regs rows targets s =
    let nodes = get_gaps required regs rows in
    (
      request_gaps-Distinct targets [] nodes,
      ground (arith, contains-request_gaps targets [] nodes s),
    )
