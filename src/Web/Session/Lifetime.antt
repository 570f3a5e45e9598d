-- ===== src/Web/Session/Lifetime.antt =====
-- How long a session lasts.
use task_scheduler_mcp.Store.{second}
use task_scheduler_mcp.Web.Session.{
  SessionJwt, IsSigning, WebSettings, WebRequest, create_session_token, decode_session_token,
  get_session_user, by_cookie, session_ttl,
}
use task_scheduler_mcp.Common.{
  ℕ, ◌+◌, ◌/◌, ◌≤◌, String, ◌≡◌, refl, inl, inr, false, none, some, arith, str_eq, eq_iff, ltb,
  if◌then◌else◌, Bool-cases,
}

-- A session cookie made for a user gives that user back at every later instant before the second in
-- which its lifetime ends, and nobody from then on, where the token library opens what it has
-- signed until it expires, and not after.
pub get_session_user-create :
    (jwt : SessionJwt) (settings : WebSettings) (now later : ℕ) (user_id : String)
    (request : WebRequest)
    → IsSigning jwt
    → now ≤ later
    → request.cookies.session ≡ some (create_session_token jwt settings now user_id)
    → get_session_user jwt settings later request
      ≡ (if ltb (later / second) ((now + session_ttl) / second) then some user_id else none)
unfolding get_session_user create_session_token decode_session_token
get_session_user-create jwt settings now later user_id request signing after cookie =
    let iat = now / second in
    let exp = (now + session_ttl) / second in
    let token = jwt.encode settings.web_session_secret user_id iat exp in
    let full : str_eq token "" ≡ false = elim (Bool-cases (str_eq token "")) [
      | inl empty ↦ absurd (
          signing.not_empty settings.web_session_secret user_id iat exp ((eq_iff token "").0 empty))
      | inr full ↦ full
    ] in
    elim (Bool-cases (ltb (later / second) exp)) [
      | inl valid ↦
          rw
            (
              get_session_user,
              cookie,
              by_cookie,
              full,
              signing.opens settings.web_session_secret user_id iat exp later
                  (ground (arith, valid)) (omega arith),
              valid,
            )
            refl
      | inr over ↦
          rw
            (
              get_session_user,
              cookie,
              by_cookie,
              full,
              signing.expires settings.web_session_secret user_id iat exp later
                  (ground (arith, over)),
              over,
            )
            refl
    ]
