-- ===== src/Web/OAuth/Callback.antt =====
-- What the callbacks of the providers leave of the connections.
use task_scheduler_mcp.Chain.{is_truthy}
use task_scheduler_mcp.Connections.KmsEnvelope.{TokenData}
use task_scheduler_mcp.Connections.Scope.{IsKeyed, LeavesOthers, LeavesRows, upsert-LeavesOthers}
use task_scheduler_mcp.Connections.Store.{Rows, ConnectionStore, upsert}
use task_scheduler_mcp.Store.Session.{Result, ok, err}
use task_scheduler_mcp.Web.Session.{
  SessionJwt, WebSettings, WebRequest, WebResponse, redirect, is_wrong_state, deleted,
}
use task_scheduler_mcp.Web.OAuth.{
  signed_in, callback, stored, by_exchange, by_store, TokenBody, github_callback, slack_callback,
  google_callback, exchange_github_code, exchange_slack_code, exchange_google_code,
}
use task_scheduler_mcp.Common.{
  ℕ, String, ◌≡◌, refl, sym, ap, ◌∙◌, ◌⊎◌, inl, inr, true, false, Option, none, some, str_eq,
  eq_iff, Bool-cases, Option-cases,
}

-- The state of the request is the one in the cookie, or there is no state in the cookie.
abbrev pub HasState : WebRequest → Type 0
HasState request =
    (request.cookies.oauth_state ≡ none)
    ⊎ ((request.cookies.oauth_state ≡ some "") ⊎ (request.state ≡ request.cookies.oauth_state))

pub right_state : (request : WebRequest) → is_wrong_state request ≡ false → HasState request
unfolding is_wrong_state
right_state request right = elim (Option-cases request.cookies.oauth_state) [
  | inl missing ↦ inl missing
  | inr (cookie, there) ↦ elim (Bool-cases (str_eq cookie "")) [
    | inl empty ↦ inr (inl (there ∙ ap some ((eq_iff cookie "").0 empty)))
    | inr full ↦ inr (
        inr (elim (Option-cases request.state) [
          | inl lost ↦ absurd (cc (rw (is_wrong_state, there, full, lost) at right))
          | inr (state, given) ↦ elim (Bool-cases (str_eq state cookie)) [
            | inl same ↦ given ∙ ap some ((eq_iff state cookie).0 same) ∙ sym there
            | inr other ↦ absurd (cc (rw (is_wrong_state, there, full, given, other) at right))
          ]
        ]))
  ]
]

module _ (jwt : SessionJwt) (settings : WebSettings) (draw now : ℕ) (request : WebRequest)
    (rows : Rows) (store : Option ConnectionStore) (provider : String) where
  pub record IsConnected (exchanged : Result TokenData) (response : WebResponse) (after : Rows)
      : Type 0 where
    pub user_id : String
    pub signed : signed_in jwt settings now request ≡ some user_id
    pub code : is_truthy request.code ≡ true
    pub state : HasState request
    pub token_data : TokenData
    pub exchange : exchanged ≡ ok token_data
    pub connection_store : ConnectionStore
    pub configured : store ≡ some connection_store
    pub upserted : upsert connection_store draw now user_id provider token_data rows ≡ ok after
    pub leaves : LeavesOthers user_id provider rows after
    pub answer : response ≡ record (redirect "/connections") { oauth_state = deleted }

  -- What a callback that returns has done: nothing, or it has connected the user.
  abbrev pub Connects : Result TokenData → Result (WebResponse × Rows) → Type 0
  Connects exchanged (err e) = Unit
  Connects exchanged (ok (response, after)) = (after ≡ rows) ⊎ IsConnected exchanged response after

  module _ (keyed : IsKeyed rows) (user_id : String)
      (signed : signed_in jwt settings now request ≡ some user_id)
      (code : is_truthy request.code ≡ true) (state : HasState request) where
    stored-Connects :
        (s : ConnectionStore) (token_data : TokenData) (r : Result Rows)
        → store ≡ some s
        → upsert s draw now user_id provider token_data rows ≡ r
        → LeavesRows (LeavesOthers user_id provider rows) r
        → Connects (ok token_data) (stored jwt settings draw now request rows r)
    stored-Connects s token_data (err e) configured same leaves = tt
    stored-Connects s token_data (ok after) configured same leaves = inr (record {
      user_id = user_id;
      signed = signed;
      code = code;
      state = state;
      token_data = token_data;
      exchange = refl;
      connection_store = s;
      configured = configured;
      upserted = same;
      leaves = leaves;
      answer = refl;
    })

    store-Connects :
        (o : Option ConnectionStore) (exchanged : Result TokenData)
        → store ≡ o
        → Connects exchanged
            (by_store jwt settings draw now request rows o provider user_id exchanged)
    unfolding by_store by_exchange
    store-Connects none exchanged same = inl refl
    store-Connects (some s) (err e) same = inl refl
    store-Connects (some s) (ok token_data) same =
        stored-Connects s token_data (upsert s draw now user_id provider token_data rows) same refl
          (upsert-LeavesOthers s draw now user_id provider token_data rows keyed)

  pub callback-Connects :
      (exchanged : Result TokenData)
      → IsKeyed rows
      → Connects exchanged (callback jwt settings draw now request rows store provider exchanged)
  unfolding callback
  callback-Connects exchanged keyed = elim (Option-cases (signed_in jwt settings now request)) [
    | inl nobody ↦ rw (callback, nobody) (inl refl)
    | inr (user_id, signed) ↦ elim (Bool-cases (is_truthy request.code)) [
      | inr missing ↦ rw (callback, signed, missing) (inl refl)
      | inl code ↦ elim (Bool-cases (is_wrong_state request)) [
        | inl wrong ↦ rw (callback, signed, code, wrong) (inl refl)
        | inr right ↦
            rw (callback, signed, code, right)
              (store-Connects keyed user_id signed code (right_state request right) store exchanged
                refl)
      ]
    ]
  ]

-- A callback of GitHub, Slack or Google that returns has left the connections as they were, or a
-- user is signed in, the request has a code and the state of its cookie (any state, where the
-- cookie is missing or empty), the exchange gave token data, and they were upserted as that user's
-- connection of that provider, with every other row as it was and the state cookie deleted; the
-- rows have one for each user and provider before.
pub callbacks-Connect :
    (jwt : SessionJwt) (settings : WebSettings) (draw now : ℕ) (request : WebRequest) (rows : Rows)
    (store : Option ConnectionStore) (isoformat : ℕ → String) (answer : Result TokenBody)
    → IsKeyed rows
    → Connects jwt settings draw now request rows store "github"
        (exchange_github_code answer)
        (github_callback jwt settings draw now request rows store answer)
      × Connects jwt settings draw now request rows store "slack"
          (exchange_slack_code answer)
          (slack_callback jwt settings draw now request rows store answer)
      × Connects jwt settings draw now request rows store "google"
          (exchange_google_code isoformat now answer)
          (google_callback jwt settings draw now request rows isoformat store answer)
unfolding github_callback slack_callback google_callback
callbacks-Connect jwt settings draw now request rows store isoformat answer keyed = (
  callback-Connects jwt settings draw now request rows store "github" (exchange_github_code answer)
      keyed,
  callback-Connects jwt settings draw now request rows store "slack" (exchange_slack_code answer)
      keyed,
  callback-Connects jwt settings draw now request rows store "google"
      (exchange_google_code isoformat now answer) keyed,
)
