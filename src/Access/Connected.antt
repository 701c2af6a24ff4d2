-- ===== src/Access/Connected.antt =====
-- The guards and the access list of backend/infrastructure/acl.py and auth.py, compared.
use kira_backend.Prelude.{
  some-injective, ℕ, String, ◌≡◌, refl, sym, ap, ◌∙◌, subst, inl, inr, true, false, ◌&&◌, ◌||◌,
  Option, none, some, List, [], ◌∷◌, ◌++◌, arith, ◌==◌, nat_eq, string_eq, option_eq,
  option_beq_iff, contains, http, ok, err, ◌>>=◌, >>=-eq-ok, nat_beq, nat_beq_iff, if◌then◌else◌,
  Bool-cases, Option-cases, any,
}
use kira_backend.Access.{
  Edge, CurrentUser, Claims, is_same, add_id, parents_of, children_of, get_accessible_supplier_ids,
  joins, check_supplier_access, exempt_roles, get_supplier_id_for_user, check_self_or_connected,
  get_current_user, require_role, consent_status, require_supplier_consent,
}

contains-append : (xs ys : List ℕ) (t : ℕ) → contains (xs ++ ys) t ≡ contains xs t || contains ys t
contains-append [] ys t = refl
contains-append (x ∷ xs) ys t = ground (arith, contains-append xs ys t)

contains-add_id :
    (o : Option ℕ) (ids : List ℕ) (t : ℕ)
    → contains (add_id o ids) t ≡ contains ids t || is_same o t
contains-add_id none ids t = ground arith
contains-add_id (some i) ids t = elim (Bool-cases (contains ids i)) [
  | inl present ↦ elim (Bool-cases (nat_beq i t)) [
    | inl same ↦
        let there : contains ids t ≡ true =
          subst (λ k. contains ids k ≡ true) ((nat_beq_iff i t).0 same) present in
        rw present (ground arith)
    | inr other ↦ rw present (ground arith)
  ]
  | inr absent ↦ rw absent (ground (arith, contains-append ids (i ∷ []) t))
]

contains-parents_of :
    (s : ℕ) (es : List Edge) (ids : List ℕ) (t : ℕ)
    → contains (parents_of s es ids) t
      ≡ contains ids t
        || any (λ e. is_same e.child_supplier_id s && is_same e.parent_supplier_id t) es
unfolding parents_of
contains-parents_of s [] ids t = ground arith
contains-parents_of s (e ∷ es) ids t = ground (
  arith,
  contains-parents_of s es
      (if is_same e.child_supplier_id s then add_id e.parent_supplier_id ids else ids) t,
  contains-add_id e.parent_supplier_id ids t,
)

contains-children_of :
    (s : ℕ) (es : List Edge) (ids : List ℕ) (t : ℕ)
    → contains (children_of s es ids) t
      ≡ contains ids t
        || any (λ e. is_same e.parent_supplier_id s && is_same e.child_supplier_id t) es
unfolding children_of
contains-children_of s [] ids t = ground arith
contains-children_of s (e ∷ es) ids t = ground (
  arith,
  contains-children_of s es
      (if is_same e.parent_supplier_id s then add_id e.child_supplier_id ids else ids) t,
  contains-add_id e.child_supplier_id ids t,
)

any-joins :
    (a t : ℕ) (es : List Edge)
    → any (joins a t) es
      ≡ any (λ e. is_same e.child_supplier_id a && is_same e.parent_supplier_id t) es
        || any (λ e. is_same e.parent_supplier_id a && is_same e.child_supplier_id t) es
any-joins a t [] = refl
any-joins a t (e ∷ es) = ground (arith, any-joins a t es)

joins-symmetric : (a t : ℕ) (es : List Edge) → any (joins a t) es ≡ any (joins t a) es
joins-symmetric a t [] = refl
joins-symmetric a t (e ∷ es) = ground (arith, joins-symmetric a t es)

-- The check of one supplier and the list of the accessible ones agree on every pair, and the
-- relation is symmetric: whoever a supplier can read can read it.
pub check_supplier_access_iff_listed :
    (a t : ℕ) (es : List Edge)
    → (check_supplier_access a t es ≡ contains (get_accessible_supplier_ids a es) t)
      × (check_supplier_access a t es ≡ check_supplier_access t a es)
unfolding check_supplier_access get_accessible_supplier_ids
check_supplier_access_iff_listed a t es = (
  ground (
    arith,
    any-joins a t es,
    contains-children_of a es (parents_of a es (a ∷ [])) t,
    contains-parents_of a es (a ∷ []) t,
  ),
  ground (arith, joins-symmetric a t es),
)

-- What the guard of a supplier's data lets through: an exempt role, a route without a target or with
-- an empty one, an
-- account without a supplier on a well-formed target, and an account whose supplier may access
-- the target. A malformed target is a 422 and any other a 403.
pub check_self_or_connected_outcomes :
    (uuid : String → Option ℕ) (users : List (ℕ × Option ℕ)) (es : List Edge) (user : CurrentUser)
    (target : String)
    → (check_self_or_connected uuid users es user none ≡ ok user)
      × (target ≡ "" → check_self_or_connected uuid users es user (some target) ≡ ok user)
      × (contains exempt_roles user.role ≡ true
          → check_self_or_connected uuid users es user (some target) ≡ ok user)
      × ((contains exempt_roles user.role || target == "") ≡ false
          → uuid target ≡ none
          → check_self_or_connected uuid users es user (some target) ≡ err (http 422))
      × ((t : ℕ)
          → (contains exempt_roles user.role || target == "") ≡ false
          → uuid target ≡ some t
          → get_supplier_id_for_user user.user_id users ≡ none
          → check_self_or_connected uuid users es user (some target) ≡ ok user)
      × ((t mine : ℕ)
          → (contains exempt_roles user.role || target == "") ≡ false
          → uuid target ≡ some t
          → get_supplier_id_for_user user.user_id users ≡ some mine
          → check_self_or_connected uuid users es user (some target)
            ≡ (if check_supplier_access mine t es then ok user else err (http 403)))
unfolding check_self_or_connected
check_self_or_connected_outcomes uuid users es user target = (
  refl,
  λ empty. rw (empty, (string_eq.test_iff "" "").1 refl) (ground arith),
  λ exempt. rw exempt refl,
  λ bound malformed. ground arith,
  λ t bound parsed free. ground arith,
  λ t mine bound parsed own. elim (Bool-cases (check_supplier_access mine t es)) [
    | inl may ↦ ground arith
    | inr may_not ↦ ground arith
  ],
)

role-inversion :
    (roles : List String) (u v : CurrentUser)
    → require_role roles u ≡ ok v
    → (u ≡ v) × (contains roles u.role ≡ true)
unfolding require_role
role-inversion roles u v h = elim (Bool-cases (contains roles u.role)) [
  | inl listed ↦ (ground arith, listed)
  | inr unlisted ↦ absurd (ground arith)
]

consent-inversion :
    (rows : List (ℕ × Option String)) (u v : CurrentUser)
    → require_supplier_consent rows u ≡ ok v
    → (u ≡ v) × ((s : ℕ) → v.supplier_id ≡ some s → consent_status s rows ≡ some "consent_agreed")
unfolding require_supplier_consent
consent-inversion rows u v h = elim (Option-cases u.supplier_id) [
  | inl none_given ↦
      let same : u ≡ v = ground arith in
      (
        same,
        λ s own. absurd (cc (sym none_given ∙ ap (λ (w : CurrentUser). w.supplier_id) same ∙ own)),
      )
  | inr (t, given) ↦ elim (Bool-cases (consent_status t rows == some "consent_agreed")) [
    | inl agreed ↦
        let same : u ≡ v = ground arith in
        (
          same,
          λ s own.
              let at : t ≡ s =
                some-injective (sym given ∙ ap (λ (w : CurrentUser). w.supplier_id) same ∙ own) in
              subst (λ k. consent_status k rows ≡ some "consent_agreed") at
                ((option_beq_iff (consent_status t rows) (some "consent_agreed")).0 agreed),
        )
    | inr refused ↦ absurd (ground arith)
  ]
]

authenticated-inversion :
    (uuid : String → Option ℕ) (verify : String → Option Claims) (credentials : Option String)
    (user : CurrentUser)
    → get_current_user uuid verify credentials ≡ ok user
    → (token : String) × (claims : Claims) × (credentials ≡ some token)
      × (verify token ≡ some claims)
      × (claims.role ≡ some user.role)
unfolding get_current_user
authenticated-inversion uuid verify credentials user h = elim (Option-cases credentials) [
  | inl missing ↦ absurd (ground arith)
  | inr (token, given) ↦ elim (Option-cases (verify token)) [
    | inl invalid ↦ absurd (ground arith)
    | inr (claims, verified) ↦ (token, claims, given, verified, ground arith)
  ]
]

-- A supplier's account that passes the authentication, the role guard and the consent gate in turn
-- has sent a token that verifies and names its role, the role is among the allowed ones, and the
-- supplier has agreed.
pub guarded_supplier_has_consent :
    (uuid : String → Option ℕ) (verify : String → Option Claims) (credentials : Option String)
    (roles : List String) (rows : List (ℕ × Option String)) (user : CurrentUser) (s : ℕ)
    → ((get_current_user uuid verify credentials >>= require_role roles)
        >>= require_supplier_consent rows)
      ≡ ok user
    → user.supplier_id ≡ some s
    → (token : String) × (claims : Claims) × (credentials ≡ some token)
      × (verify token ≡ some claims)
      × (claims.role ≡ some user.role)
      × (contains roles user.role ≡ true)
      × (consent_status s rows ≡ some "consent_agreed")
guarded_supplier_has_consent uuid verify credentials roles rows user s h own =
    let (after_role, both, consented) =
      >>=-eq-ok (get_current_user uuid verify credentials >>= require_role roles)
        (require_supplier_consent rows) h in
    let (current, authenticated, allowed) =
      >>=-eq-ok (get_current_user uuid verify credentials) (require_role roles) both in
    let (same_role, listed) = role-inversion roles current after_role allowed in
    let (same_user, agreed) = consent-inversion rows after_role user consented in
    let same : current ≡ user = same_role ∙ same_user in
    let (token, claims, given, verified, role) =
      authenticated-inversion uuid verify credentials current authenticated in
    (
      token,
      claims,
      given,
      verified,
      role ∙ ap (λ (u : CurrentUser). some u.role) same,
      subst (λ (u : CurrentUser). contains roles u.role ≡ true) same listed,
      agreed s own,
    )
