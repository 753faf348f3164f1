-- ===== src/Node/Auth/Access.antt =====
-- eshield/src/auth.rs: which requests run, and with which role.
use e_shield.Base.{
  ◌≡◌, ◌≢◌, ◌↔◌, ◌⊎◌, refl, ◌∙◌, ap, Bool, Bool-cases, inl, inr, true, false, Option, none, some,
  [], ◌∷◌, arith,
}
use e_shield.Base.Dicts.{same_list_iff}
use e_shield.Base.Text.{Text, bytes}
use e_shield.Node.Auth.{
  Method, Role, AuthState, equals, role_of, set_token, Request, provided_of, Outcome, is_safe,
  is_direct, is_html_root, answered, role_provided, checked, auth_middleware,
}

-- The tokens that a role is given for.
abbrev pub IsTokenOf : Role → AuthState → Text → Type 0
IsTokenOf Role.admin state t = (t ≢ []) × (state.token ≡ some t)
IsTokenOf Role.readonly state t =
    (t ≢ []) × (state.token ≢ some t) × (state.readonly_token ≡ some t)

-- What a role may do. The read-only role is let through to the logout with any method.
abbrev pub MayRun : Role → Request → Type 0
MayRun Role.admin request = Unit
MayRun Role.readonly request =
    ((request.method ≡ Method.get)
      ⊎ ((request.method ≡ Method.head) ⊎ (request.method ≡ Method.options)))
    ⊎ (request.path ≡ bytes "/api/auth/logout")

is_safe_iff :
    (m : Method)
    → (is_safe m ≡ true) ↔ ((m ≡ Method.get) ⊎ ((m ≡ Method.head) ⊎ (m ≡ Method.options)))
is_safe_iff Method.get = (λ h. inl refl, λ h. refl)
is_safe_iff Method.head = (λ h. inr (inl refl), λ h. refl)
is_safe_iff Method.options = (λ h. inr (inr refl), λ h. refl)
is_safe_iff Method.any_other = ground arith

module _ (ct_eq : Text → Text → Bool)
    (ct_eq_iff : (a b : Text) → (ct_eq a b ≡ true) ↔ (a ≡ b)) where
  equals_iff : (token : Option Text) (t : Text) → (equals ct_eq token t ≡ true) ↔ (token ≡ some t)
  equals_iff none t = (λ h. absurd (cc), λ h. absurd (cc))
  equals_iff (some token) t = ground (arith, ct_eq_iff token t)

  role_of_iff :
      (state : AuthState) (t : Text) (role : Role)
      → (role_of ct_eq state t ≡ some role) ↔ IsTokenOf role state t
  unfolding role_of
  role_of_iff state [] Role.admin = ground arith
  role_of_iff state [] Role.readonly = ground arith
  role_of_iff state (c ∷ t) Role.admin = ground (arith, equals_iff state.token (c ∷ t))
  role_of_iff state (c ∷ t) Role.readonly =
      ground (arith, equals_iff state.token (c ∷ t), equals_iff state.readonly_token (c ∷ t))

  answered_iff :
      (request : Request) (r : Option Role) (role : Role)
      → (answered request r ≡ Outcome.runs role) ↔ ((r ≡ some role) × MayRun role request)
  answered_iff request none role = elim (Bool-cases (is_html_root request)) [
    | inl page ↦ rw page (λ h. absurd (cc), λ h. absurd (cc))
    | inr other ↦ rw other (λ h. absurd (cc), λ h. absurd (cc))
  ]
  answered_iff request (some Role.admin) Role.admin = (λ h. (refl, tt), λ h. refl)
  answered_iff request (some Role.admin) Role.readonly = (λ h. absurd (cc), λ h. absurd (cc))
  answered_iff request (some Role.readonly) Role.admin = ground arith
  answered_iff request (some Role.readonly) Role.readonly =
      ground
        (arith, is_safe_iff request.method, same_list_iff request.path (bytes "/api/auth/logout"))

  role_provided_iff :
      (state : AuthState) (provided : Option Text) (role : Role)
      → (role_provided ct_eq state provided ≡ some role)
        ↔ ((t : Text) × (provided ≡ some t) × IsTokenOf role state t)
  role_provided_iff state none role = (λ h. absurd (cc), λ h. absurd (cc h.1))
  role_provided_iff state (some t) role = (
    λ h. (t, refl, (role_of_iff state t role).0 h),
    λ h. ap (role_provided ct_eq state) h.1 ∙ (role_of_iff state h.0 role).1 h.2,
  )

  checked_some :
      (state : AuthState) (request : Request) (token : Option Text)
      → token ≢ none
      → checked ct_eq state request token
        ≡ answered request (role_provided ct_eq state (provided_of request))
  checked_some state request none h = absurd (h refl)
  checked_some state request (some t) h = refl

  -- Where a token is configured, a request that is not a local one without the headers of a proxy runs
  -- with a role exactly if the credential that it provides is a token of that role, and, for the
  -- read-only role, if its method is GET, HEAD or OPTIONS or its path is /api/auth/logout: an empty credential is no token, and the
  -- read-only token gives no more if it is not the administrator's too.
  pub auth_middleware_iff :
      (state : AuthState) (request : Request) (role : Role)
      → state.token ≢ none
      → is_direct request ≡ false
      → (auth_middleware ct_eq state request ≡ Outcome.runs role) ↔ (
          (t : Text) × (provided_of request ≡ some t)
          × IsTokenOf role state t
          × MayRun role request)
  unfolding auth_middleware
  auth_middleware_iff state request role h remote =
      let found = role_provided ct_eq state (provided_of request) in
      let answer = answered_iff request found role in
      let credential = role_provided_iff state (provided_of request) role in
      rw (remote, checked_some state request state.token h)
        (
          λ run. (let c = credential.0 (answer.0 run).0 in (c.0, c.1, c.2, (answer.0 run).1)),
          λ c. answer.1 (credential.1 (c.0, c.1, c.2), c.3),
        )

  -- Once a token is set that is not empty, no request runs as the administrator with another
  -- credential, unless it is a local one without the headers of a proxy.
  set_token_revokes :
      (state : AuthState) (token : Text) (request : Request)
      → token ≢ []
      → is_direct request ≡ false
      → provided_of request ≢ some token
      → auth_middleware ct_eq (set_token token state) request ≢ Outcome.runs Role.admin
  unfolding set_token
  set_token_revokes state [] request h remote other run = h refl
  set_token_revokes state (c ∷ token) request h remote other run =
      let now = set_token (c ∷ token) state in
      let c' = (auth_middleware_iff now request Role.admin (λ e. absurd (cc e)) remote).0 run in
      other (cc (c'.1, c'.2.1))
