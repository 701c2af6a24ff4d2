-- ===== src/Access/Tests.antt =====
-- A chain of three suppliers: 1 over 2 over 3.
use kira_backend.Prelude.{
  ℕ, String, ◌≡◌, refl, Option, none, some, List, [], ◌∷◌, ◌==◌, nat_eq, string_eq, option_eq, http,
  err, if◌then◌else◌,
}
use kira_backend.Access.{
  Edge, CurrentUser, Claims, get_accessible_supplier_ids, check_supplier_access,
  check_self_or_connected, get_current_user, require_role, consent_status, require_supplier_consent,
}
use kira_backend.Access.Connected.{
  check_supplier_access_iff_listed, check_self_or_connected_outcomes, guarded_supplier_has_consent,
}

abbrev edge : ℕ → ℕ → Edge
edge a b = record { parent_supplier_id = some a; child_supplier_id = some b }

abbrev chain : List Edge
chain = record { parent_supplier_id = none; child_supplier_id = some 1 } ∷ edge 1 2 ∷ edge 2 3 ∷ []

listed : get_accessible_supplier_ids 2 chain ≡ 2 ∷ 1 ∷ 3 ∷ []
unfolding get_accessible_supplier_ids
listed = refl

check_supplier_access_iff_listed_example :
    check_supplier_access 2 3 chain ≡ check_supplier_access 3 2 chain
check_supplier_access_iff_listed_example = (check_supplier_access_iff_listed 2 3 chain).1

abbrev member : CurrentUser
member = record { user_id = 11; role = "supplier_esg"; tenant_id = none; supplier_id = some 1 }

abbrev uuid : String → Option ℕ
uuid t = if t == "eleven" then some 11 else (if t == "three" then some 3 else some 1)

check_self_or_connected_outcomes_example :
    check_self_or_connected uuid ((11, some 1) ∷ []) chain member (some "three") ≡ err (http 403)
unfolding check_supplier_access
check_self_or_connected_outcomes_example =
    (check_self_or_connected_outcomes uuid ((11, some 1) ∷ []) chain member "three").5 3 1 refl refl
      refl

abbrev claims : Claims
claims = record {
  sub = some "eleven";
  role = some "supplier_esg";
  tenant_id = none;
  supplier_id = some "one";
}

guarded_supplier_has_consent_example :
    consent_status 1 ((1, some "consent_agreed") ∷ []) ≡ some "consent_agreed"
unfolding get_current_user require_role require_supplier_consent
guarded_supplier_has_consent_example =
    let (_, _, _, _, _, _, agreed) =
      guarded_supplier_has_consent uuid (λ _. some claims) (some "jwt") ("supplier_esg" ∷ [])
        ((1, some "consent_agreed") ∷ []) member 1 refl refl in
    agreed
