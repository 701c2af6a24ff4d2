-- ===== src/SupplyChain/Upward.antt =====
-- Supply chains without a cycle, of backend/domains/supplychain/repository.py.
use kira_backend.Prelude.{
  ℕ, ◌<◌, ◌≡◌, Bool, true, none, some, List, [], ◌∷◌, arith, nat_eq, string_eq, option_eq, ltb,
  Option-cases, any, all,
}
use kira_backend.SupplyChain.{MapEdge}
use kira_backend.SupplyChain.Search.{Below, edge, step, Acyclic, joins}

-- Edges that lead from smaller to larger numbers have no cycle.
abbrev pub is_upward : MapEdge → Bool
is_upward e = elim e.parent_supplier_id [
  | none ↦ true
  | some p ↦ elim e.child_supplier_id [ none ↦ true | some c ↦ ltb p c ]
]

joins-upward :
    (es : List MapEdge) (x y : ℕ) → all is_upward es ≡ true → any (joins x y) es ≡ true → x < y
joins-upward [] x y h j = cc
joins-upward (e ∷ es) x y h j = ground (
  arith,
  joins-upward es x y,
  Option-cases e.parent_supplier_id,
  Option-cases e.child_supplier_id,
)

pub Below-upward : (es : List MapEdge) {x y : ℕ} → all is_upward es ≡ true → Below es x y → x < y
Below-upward es {x} {y} h (edge j) = joins-upward es x y h j
Below-upward es {x} {y = z} h (step {y} j b) =
    omega (arith, joins-upward es x y h j, Below-upward es h b)

pub upward-Acyclic : (es : List MapEdge) → all is_upward es ≡ true → Acyclic es
upward-Acyclic es h x b = omega (arith, Below-upward es h b)
