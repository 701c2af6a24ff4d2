-- ===== src/Access.antt =====
-- Who may do what: the access list of backend/infrastructure/acl.py and the authentication, the
-- roles and the consent gate of backend/infrastructure/auth.py. `UUID(str(...))` and the check of
-- a token's signature are parameters.
pub mod Connected
mod Tests
use kira_backend.Prelude.{
  ℕ, zero, suc, ◌+◌, ◌-◌, ◌*◌, ◌/◌, ◌%◌, ◌≤◌, ◌<◌, min, max, String, ◌≡◌, refl, sym, ap, ◌∙◌, subst,
  ◌≢◌, ◌↔◌, ◌⊎◌, inl, inr, Bool, true, false, not, ◌&&◌, ◌||◌, Option, none, some, List, [], ◌∷◌,
  ◌++◌, map, arith, Eq, ◌==◌, nat_eq, string_eq, option_eq, option_beq_iff, contains, Error,
  value_error, type_error, integrity_error, database_error, batch_not_found, key_error, http,
  Result, ok, err, ◌>>=◌, ◌>>◌, raise_if, >>=-eq-ok, IfReturns, IfReturns-ok, ltb, leb, nat_beq,
  nat_beq_iff, if◌then◌else◌, Bool-cases, Option-cases, List-cases, Result-cases, is_some, length,
  All, any, all, filter, count_if, find?, update_where, length-append, count_if-append,
  filter-append, All-append, All-map, any-append, find?-holds, find?-any, length-update_where,
  find?-update_self, find?-update_other, find?-append_new, find?-append_other,
}

-- A row of `supply_chain_map`
pub record Edge : Type 0 where
  pub parent_supplier_id : Option ℕ
  pub child_supplier_id : Option ℕ

pub record CurrentUser : Type 0 where
  pub user_id : ℕ
  pub role : String
  pub tenant_id : Option ℕ
  pub supplier_id : Option ℕ

abbrev pub is_same : Option ℕ → ℕ → Bool
is_same none i = false
is_same (some a) i = a == i

-- `UNION` drops what is there already.
abbrev pub add_id : Option ℕ → List ℕ → List ℕ
add_id none ids = ids
add_id (some i) ids = if contains ids i then ids else ids ++ i ∷ []

pub parents_of : ℕ → List Edge → List ℕ → List ℕ
parents_of s [] ids = ids
parents_of s (e ∷ es) ids =
    parents_of s es (if is_same e.child_supplier_id s then add_id e.parent_supplier_id ids else ids)

pub children_of : ℕ → List Edge → List ℕ → List ℕ
children_of s [] ids = ids
children_of s (e ∷ es) ids =
    children_of s es
      (if is_same e.parent_supplier_id s then add_id e.child_supplier_id ids else ids)

unfoldable pub get_accessible_supplier_ids : ℕ → List Edge → List ℕ
unfolding parents_of children_of
get_accessible_supplier_ids s es = children_of s es (parents_of s es (s ∷ []))

-- The `WHERE` of `check_supplier_access`
abbrev pub joins : ℕ → ℕ → Edge → Bool
joins a t e =
    (is_same e.parent_supplier_id a && is_same e.child_supplier_id t)
    || (is_same e.child_supplier_id a && is_same e.parent_supplier_id t)

unfoldable pub check_supplier_access : ℕ → ℕ → List Edge → Bool
check_supplier_access a t es = a == t || any (joins a t) es

-- _EXEMPT_ROLES
abbrev pub exempt_roles : List String
exempt_roles = "admin" ∷ "owner_esg" ∷ "owner_purchasing" ∷ []

-- `get_supplier_id_for_user` over the rows of `users`
abbrev pub get_supplier_id_for_user : ℕ → List (ℕ × Option ℕ) → Option ℕ
get_supplier_id_for_user u users = elim (find? (λ row. row.0 == u) users) [
  | none ↦ none
  | some (_, s) ↦ s
]

abbrev pub parse_path : (String → Option ℕ) → String → Result ℕ
parse_path uuid t = elim (uuid t) [ none ↦ err (http 422) | some i ↦ ok i ]

abbrev pub connected_or_403 : Option ℕ → ℕ → List Edge → Result (Unit {0})
connected_or_403 none t es = ok tt
connected_or_403 (some mine) t es = raise_if (not (check_supplier_access mine t es)) (http 403)

-- The dependency of `require_supplier_self_or_connected`, on the text of the path parameter
unfoldable pub check_self_or_connected :
    (String → Option ℕ)
    → List (ℕ × Option ℕ)
    → List Edge
    → CurrentUser
    → Option String
    → Result CurrentUser
check_self_or_connected uuid users es user none = ok user
check_self_or_connected uuid users es user (some target) =
    if contains exempt_roles user.role || target == "" then ok user else (do
      t ← parse_path uuid target
      connected_or_403 (get_supplier_id_for_user user.user_id users) t es
      ok user)

-- The claims of a verified token
pub record Claims : Type 0 where
  pub sub : Option String
  pub role : Option String
  pub tenant_id : Option String
  pub supplier_id : Option String

abbrev pub or_401 {ℓ} : {A : Type ℓ} → Option A → Result A
or_401 none = err (http 401)
or_401 (some a) = ok a

-- `_parse_optional_uuid`
abbrev pub parse_optional_uuid : (String → Option ℕ) → Option String → Option ℕ
parse_optional_uuid uuid none = none
parse_optional_uuid uuid (some t) = uuid t

-- `get_current_user`; `verify` is `verify_access_token`.
unfoldable pub get_current_user :
    (String → Option ℕ) → (String → Option Claims) → Option String → Result CurrentUser
get_current_user uuid verify credentials = do
  token ← or_401 credentials
  raise_if (token == "") (http 401)
  claims ← or_401 (verify token)
  sub ← or_401 claims.sub
  role ← or_401 claims.role
  user ← or_401 (uuid sub)
  ok (record {
    user_id = user;
    role = role;
    tenant_id = parse_optional_uuid uuid claims.tenant_id;
    supplier_id = parse_optional_uuid uuid claims.supplier_id;
  })

unfoldable pub require_role : List String → CurrentUser → Result CurrentUser
require_role roles user = raise_if (not (contains roles user.role)) (http 403) >> ok user

-- The first row of `supplier_onboarding` of the supplier, in the order of its key; a null status
-- and a missing row are `none`.
abbrev pub consent_status : ℕ → List (ℕ × Option String) → Option String
consent_status s rows = elim (find? (λ row. row.0 == s) rows) [ none ↦ none | some (_, c) ↦ c ]

unfoldable pub require_supplier_consent :
    List (ℕ × Option String) → CurrentUser → Result CurrentUser
require_supplier_consent rows user = elim user.supplier_id [
  | none ↦ ok user
  | some s ↦ raise_if (not (consent_status s rows == some "consent_agreed")) (http 403) >> ok user
]
