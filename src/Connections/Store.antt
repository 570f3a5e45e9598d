-- ===== src/Connections/Store.antt =====
-- app/connections/store.py, over the rows of `oauth_connections`. `draw` numbers the encryptions and
-- `now` is the clock; the caller owns the transaction.
use task_scheduler_mcp.Store.Session.{connection_miss, key_error, value_error, err, ok, Result}
use task_scheduler_mcp.Store.{second}
use task_scheduler_mcp.Jobs.Create.{naive, aware, IsoTime}
use task_scheduler_mcp.Connections.KmsEnvelope.{decrypt, encrypt, Crypto, TokenData, Blob}
use task_scheduler_mcp.Common.{
  ℕ, ◌+◌, ◌*◌, String, Bool, false, not, ◌&&◌, Option, none, some, List, ◌∷◌, map, str_eq, leb,
  if◌then◌else◌, head?, select, update, exists,
}

-- A row of `oauth_connections`, less its surrogate key.
pub record OauthConnection : Type 0 where
  pub user_id : String
  pub provider : String
  pub encrypted_blob : Blob
  pub expires_at : Option ℕ
  pub created_at : ℕ
  pub updated_at : ℕ

pub record ConnectionInfo : Type 0 where
  pub user_id : String
  pub provider : String
  pub expires_at : Option ℕ
  pub created_at : ℕ
  pub updated_at : ℕ

abbrev pub Rows : Type 0
Rows = List OauthConnection

-- `None` where there is no refresher; the refresher may raise.
abbrev pub TokenRefresher : Type 0
TokenRefresher = Option (TokenData → Result TokenData)

-- `OAuthConnection.user_id == user_id, OAuthConnection.provider == provider`
abbrev pub is_for : String → String → OauthConnection → Bool
is_for user_id provider c = str_eq c.user_id user_id && str_eq c.provider provider

-- A naive instant is taken as UTC.
abbrev pub instant : IsoTime → ℕ
instant (aware utc) = utc
instant (naive wall) = wall

unfoldable pub parse_expires_at : (String → Option IsoTime) → Option String → Result (Option ℕ)
parse_expires_at from_iso none = ok none
parse_expires_at from_iso (some value) = elim (from_iso value) [
  | none ↦ err value_error
  | some dt ↦ ok (some (instant dt))
]

-- `window` is in microseconds.
unfoldable pub needs_refresh : Option ℕ → ℕ → ℕ → Bool
needs_refresh none window now = false
needs_refresh (some expires_at) window now = leb expires_at (now + window)

-- `timedelta(seconds=300)`
abbrev pub refresh_window : ℕ
refresh_window = 300 * second

pub record ConnectionStore : Type 0 where
  pub crypto : Crypto
  pub from_iso : String → Option IsoTime

-- `INSERT … ON CONFLICT (user_id, provider) DO UPDATE`
abbrev pub put : ℕ → String → String → Blob → Option ℕ → Rows → Rows
put now user_id provider blob expires_at rows =
    if exists (is_for user_id provider) rows
    then update (is_for user_id provider)
        (λ c. record c { encrypted_blob = blob; expires_at = expires_at; updated_at = now }) rows
    else record {
      user_id = user_id;
      provider = provider;
      encrypted_blob = blob;
      expires_at = expires_at;
      created_at = now;
      updated_at = now;
    }
      ∷ rows

unfoldable pub upsert : ConnectionStore → ℕ → ℕ → String → String → TokenData → Rows → Result Rows
unfolding encrypt parse_expires_at
upsert store draw now user_id provider token_data rows =
    elim (encrypt store.crypto draw token_data) [
      | err e ↦ err e
      | ok blob ↦ elim (parse_expires_at store.from_iso token_data.expires_at) [
        | err e ↦ err e
        | ok expires_at ↦ ok (put now user_id provider blob expires_at rows)
      ]
    ]

-- `token_data["access_token"]`
abbrev pub access_token_of : TokenData → Rows → Result (String × Rows)
access_token_of token_data rows = elim token_data.access_token [
  | none ↦ err key_error
  | some token ↦ ok (token, rows)
]

-- `token_data = await refresher(token_data)` and what follows it.
unfoldable pub refresh :
    ConnectionStore
    → ℕ
    → ℕ
    → String
    → String
    → (TokenData → Result TokenData)
    → TokenData
    → Rows
    → Result (String × Rows)
unfolding upsert
refresh store draw now user_id provider refresher token_data rows = elim (refresher token_data) [
  | err e ↦ err e
  | ok fresh ↦ elim (upsert store draw now user_id provider fresh rows) [
    | err e ↦ err e
    | ok rows' ↦ access_token_of fresh rows'
  ]
]

unfoldable pub return_or_refresh :
    ConnectionStore
    → ℕ
    → ℕ
    → String
    → String
    → TokenRefresher
    → Option ℕ
    → TokenData
    → Rows
    → Result (String × Rows)
unfolding refresh needs_refresh
return_or_refresh store draw now user_id provider none expires_at token_data rows =
    access_token_of token_data rows
return_or_refresh store draw now user_id provider (some refresher) expires_at token_data rows =
    if needs_refresh expires_at refresh_window now
    then refresh store draw now user_id provider refresher token_data rows
    else access_token_of token_data rows

unfoldable pub get_fresh_token :
    ConnectionStore → ℕ → ℕ → String → String → TokenRefresher → Rows → Result (String × Rows)
unfolding decrypt return_or_refresh
get_fresh_token store draw now user_id provider refresher rows =
    elim (head? (select (is_for user_id provider) rows)) [
      | none ↦ err connection_miss
      | some row ↦ elim (decrypt store.crypto row.encrypted_blob) [
        | err e ↦ err e
        | ok token_data ↦
            return_or_refresh store draw now user_id provider refresher row.expires_at token_data
              rows
      ]
    ]

unfoldable pub delete : String → String → Rows → Rows
delete user_id provider rows = select (λ c. not (is_for user_id provider c)) rows

abbrev info : OauthConnection → ConnectionInfo
info row = record {
  user_id = row.user_id;
  provider = row.provider;
  expires_at = row.expires_at;
  created_at = row.created_at;
  updated_at = row.updated_at;
}

-- `list`
unfoldable pub list_of : String → Rows → List ConnectionInfo
list_of user_id rows = map info (select (λ (c : OauthConnection). str_eq c.user_id user_id) rows)

-- `get_token`: the session is closed without a commit, which rolls back what `get_fresh_token` wrote.
abbrev pub close {ℓ} : {A : Type ℓ} → Rows → Result (A × Rows) → Result A × Rows
close rows (ok (a, _)) = (ok a, rows)
close rows (err e) = (err e, rows)

unfoldable pub get_token :
    ConnectionStore → ℕ → ℕ → String → String → TokenRefresher → Rows → Result String × Rows
unfolding get_fresh_token
get_token store draw now user_id provider refresher rows =
    close rows (get_fresh_token store draw now user_id provider refresher rows)
