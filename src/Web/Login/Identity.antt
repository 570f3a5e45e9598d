-- ===== src/Web/Login/Identity.antt =====
-- Who a sign-in makes the user of the session.
use task_scheduler_mcp.Auth.TokenValidation.{
  Jwt, Validated, auth_context, token_validation_error, validate_token,
}
use task_scheduler_mcp.Auth.TokenValidation.Subject.{validate_token-named}
use task_scheduler_mcp.Chain.{is_truthy}
use task_scheduler_mcp.Store.Session.{Result, ok, err}
use task_scheduler_mcp.Web.Session.{
  SessionJwt, WebSettings, WebRequest, WebResponse, set_session, untouched, set_to,
  create_session_token, session_ttl, is_wrong_state, value,
}
use task_scheduler_mcp.Web.Login.{
  TokenBody, Exchanged, unreached, refused, unreadable, answered, of_id_token, by_id_token,
  by_access_token, or_user_object, identity_of, sign_in, by_exchange, workos_auth_callback,
}
use task_scheduler_mcp.Web.OAuth.Callback.{HasState, right_state}
use task_scheduler_mcp.Store.{second}
use task_scheduler_mcp.Common.{
  ℕ, ◌/◌, String, ◌≡◌, refl, sym, ap, ◌∙◌, ◌≢◌, ◌⊎◌, inl, inr, true, not, ◌||◌, str_eq, eq_iff,
  Bool-cases,
}

module _ (jwt : Jwt) (settings : WebSettings) (body : TokenBody) (user_id : String) where
  abbrev pub access : Validated
  access =
      validate_token jwt (value body.access_token) settings.workos_issuer
        (value settings.workos_audience) settings.workos_jwks_uri

  abbrev pub by_id : Validated
  by_id =
      validate_token jwt (value body.id_token) settings.workos_issuer
        (value settings.workos_client_id) settings.workos_jwks_uri

  -- The subject of the access token; else the one of a verified id_token; else the user object of the
  -- body.
  abbrev pub Names : Type 0
  Names =
      (access ≡ auth_context user_id)
      ⊎ ((access ≡ token_validation_error)
          × ((by_id ≡ auth_context user_id) ⊎ (value body.user_id ≡ user_id)))

  id_token-auth_context :
      (v : Validated) (found : String)
      → found ≢ ""
      → of_id_token v ≡ ok found
      → v ≡ auth_context found
  id_token-auth_context (auth_context other) found full h =
      let same : other ≡ found = cc h in ap auth_context same
  id_token-auth_context token_validation_error found full h =
      absurd (full (let same : "" ≡ found = cc h in sym same))
  id_token-auth_context (Validated.raised e) found full h = absurd (cc h)

  id_token-named :
      (found : String)
      → found ≢ ""
      → by_id_token jwt settings body ≡ ok found
      → by_id ≡ auth_context found
  unfolding by_id_token
  id_token-named found full h =
      elim (Bool-cases (
        not (is_truthy body.id_token)
        || (not (is_truthy settings.workos_jwks_uri) || not (is_truthy settings.workos_issuer)))) [
          | inl absent ↦ absurd (
              full (
                let nobody : ok "" ≡ ok found = rw (by_id_token, absent) at h in
                let same : "" ≡ found = cc nobody in sym same))
          | inr there ↦ id_token-auth_context by_id found full (rw (by_id_token, there) at h)
        ]

  -- A name that was found stands; the empty one gives way to the user object.
  object-cases :
      (found : String)
      → or_user_object body found ≡ user_id
      → ((found ≢ "") × (found ≡ user_id)) ⊎ (value body.user_id ≡ user_id)
  object-cases found h = elim (Bool-cases (str_eq found "")) [
    | inl empty ↦ inr (rw empty at h)
    | inr full ↦ inl (λ empty. cc (full, (eq_iff found "").1 empty), rw full at h)
  ]

  by_id-Names :
      (r : Result String)
      → access ≡ token_validation_error
      → by_id_token jwt settings body ≡ r
      → elim r as (λ _. Result String) [ err e ↦ err e | ok found ↦ ok (or_user_object body found) ]
        ≡ ok user_id
      → Names
  by_id-Names (err e) opaque same h = absurd (cc h)
  by_id-Names (ok found) opaque same h = elim (object-cases found (cc h)) [
    | inl (full, mine) ↦ inr (opaque, inl (id_token-named found full same ∙ ap auth_context mine))
    | inr object ↦ inr (opaque, inr object)
  ]

  by_access-Names :
      (v : Validated)
      → access ≡ v
      → elim (by_access_token jwt settings body v) as (λ _. Result String) [
        | err e ↦ err e
        | ok found ↦ ok (or_user_object body found)
      ]
        ≡ ok user_id
      → Names
  unfolding by_access_token
  by_access-Names (auth_context found) same h =
      let known =
        validate_token-named jwt (value body.access_token) settings.workos_issuer
          (value settings.workos_audience) settings.workos_jwks_uri found same in
      elim (object-cases found (cc h)) [
        | inl (full, mine) ↦ inl (same ∙ ap auth_context mine)
        | inr object ↦ elim (Bool-cases (str_eq found "")) [
          | inl empty ↦ absurd (known.1 ((eq_iff found "").0 empty))
          | inr full ↦
              let mine : or_user_object body found ≡ user_id = cc h in
              inl (same ∙ ap auth_context (rw full at mine))
        ]
      ]
  by_access-Names token_validation_error same h =
      by_id-Names (by_id_token jwt settings body) same refl h
  by_access-Names (Validated.raised e) same h = absurd (cc h)

  identity-Names : identity_of jwt settings body ≡ ok user_id → Names
  unfolding identity_of
  identity-Names = by_access-Names access refl

module _ (sessions : SessionJwt) (jwt : Jwt) (settings : WebSettings) (now : ℕ)
    (request : WebRequest) (exchanged : Exchanged) where
  -- A session of a day for the user, after a code and a state that passed.
  pub record IsSignedIn (response : WebResponse) : Type 0 where
    pub user_id : String
    pub named : user_id ≢ ""
    pub code : is_truthy request.code ≡ true
    pub state : HasState request
    pub body : TokenBody
    pub answer : exchanged ≡ answered body
    pub names : Names jwt settings body user_id
    pub session :
        response.session
        ≡ set_to (create_session_token sessions settings now user_id) (session_ttl / second)

  abbrev pub SignsIn : Result WebResponse → Type 0
  SignsIn (err e) = Unit
  SignsIn (ok response) = (response.session ≡ untouched) ⊎ IsSignedIn response

  module _ (code : is_truthy request.code ≡ true) (state : HasState request) where
    sign_in-SignsIn :
        (body : TokenBody) (r : Result String)
        → exchanged ≡ answered body
        → identity_of jwt settings body ≡ r
        → SignsIn (sign_in sessions settings now r)
    unfolding set_session
    sign_in-SignsIn body (err e) answer same = tt
    sign_in-SignsIn body (ok user_id) answer same = elim (Bool-cases (str_eq user_id "")) [
      | inl empty ↦ rw empty (inl refl)
      | inr full ↦ rw full (
          inr (record {
            user_id = user_id;
            named = λ empty. cc (full, (eq_iff user_id "").1 empty);
            code = code;
            state = state;
            body = body;
            answer = answer;
            names = identity-Names jwt settings body user_id same;
            session = refl;
          }))
    ]

    exchange-SignsIn :
        (x : Exchanged) → exchanged ≡ x → SignsIn (by_exchange sessions jwt settings now x)
    unfolding by_exchange
    exchange-SignsIn unreached answer = inl refl
    exchange-SignsIn refused answer = inl refl
    exchange-SignsIn (unreadable e) answer = tt
    exchange-SignsIn (answered body) answer = elim (Bool-cases (is_truthy body.access_token)) [
      | inl there ↦ rw there (sign_in-SignsIn body (identity_of jwt settings body) answer refl)
      | inr missing ↦ rw missing (inl refl)
    ]

-- A sign-in callback that returns leaves the session cookie untouched, or the request has a code
-- and the state of its cookie (any state, where the cookie is missing or empty), the exchange was
-- answered, and the new session is of a user whose name is not empty: the subject of the validated
-- access token or, where that does not validate, of the validated id_token or the user object of
-- the answer.
pub workos_auth_callback-SignsIn :
    (sessions : SessionJwt) (jwt : Jwt) (settings : WebSettings) (now : ℕ) (request : WebRequest)
    (exchanged : Exchanged)
    → SignsIn sessions jwt settings now request exchanged
        (workos_auth_callback sessions jwt settings now request exchanged)
unfolding workos_auth_callback
workos_auth_callback-SignsIn sessions jwt settings now request exchanged =
    elim (Bool-cases (is_truthy request.code)) [
      | inr missing ↦ rw missing (inl refl)
      | inl code ↦ elim (Bool-cases (is_wrong_state request)) [
        | inl wrong ↦ rw (code, wrong) (inl refl)
        | inr right ↦
            rw (code, right)
              (exchange-SignsIn sessions jwt settings now request exchanged code
                (right_state request right) exchanged refl)
      ]
    ]
