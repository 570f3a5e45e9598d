-- ===== src/Connections/RoundTrip.antt =====
-- A stored token is read again.
use mathlib.Core.Path.{subst}
use task_scheduler_mcp.Connections.Store.{
  access_token_of, parse_expires_at, return_or_refresh, get_fresh_token, put, upsert, is_for,
  OauthConnection, Rows, ConnectionStore,
}
use task_scheduler_mcp.Store.Session.{Result-cases, err, ok, Result}
use task_scheduler_mcp.Connections.KmsEnvelope.{decrypt-encrypt, encrypt, IsSound, TokenData, Blob}
use task_scheduler_mcp.Common.{
  head?-select-update, ℕ, String, ◌≡◌, refl, ap, inl, inr, Option, none, some, [], eq_refl,
  Bool-cases, head?, select, exists,
}

-- After a `put`, the pair's row has the blob.
found-put :
    (now : ℕ) (u p : String) (blob : Blob) (expires_at : Option ℕ) (rows : Rows)
    → (c : OauthConnection) × (head? (select (is_for u p) (put now u p blob expires_at rows))
        ≡ some c)
      × (c.encrypted_blob ≡ blob)
found-put now u p blob expires_at rows =
    let set : OauthConnection → OauthConnection =
      λ c. record c { encrypted_blob = blob; expires_at = expires_at; updated_at = now } in
    let inserted : OauthConnection = record {
      user_id = u;
      provider = p;
      encrypted_blob = blob;
      expires_at = expires_at;
      created_at = now;
      updated_at = now;
    } in
    elim (Bool-cases (exists (is_for u p) rows)) [
      | inl there ↦
          let row = head?-select-update (is_for u p) set rows (λ c. refl) there in
          (set row.0, (rw there row.1), refl)
      | inr missing ↦ (inserted, rw (missing, eq_refl u, eq_refl p) refl, refl)
    ]

rows_of : Result Rows → Rows
rows_of (ok rows) = rows
rows_of (err e) = []

-- A token that `upsert` stored is the one that `get_fresh_token` returns, without a refresher, at any
-- later instant.
pub get_fresh_token-upsert :
    (store : ConnectionStore) (draw other_draw now later : ℕ) (u p : String)
    (token_data : TokenData) (token : String) (rows rows' : Rows)
    → IsSound store.crypto
    → token_data.access_token ≡ some token
    → upsert store draw now u p token_data rows ≡ ok rows'
    → get_fresh_token store other_draw later u p none rows' ≡ ok (token, rows')
unfolding get_fresh_token upsert rows_of return_or_refresh
get_fresh_token-upsert store draw other_draw now later u p token_data token rows rows' sound has h =
    elim (Result-cases (encrypt store.crypto draw token_data)) [
      | inl (e, failed) ↦ absurd (cc (rw (upsert, failed) at h))
      | inr (blob, made) ↦
          elim (Result-cases (parse_expires_at store.from_iso token_data.expires_at)) [
            | inl (e, unreadable) ↦ absurd (cc (rw (upsert, made, unreadable) at h))
            | inr (expires_at, read) ↦
                let same = ap rows_of (rw (upsert, made, read) at h) in
                let row = found-put now u p blob expires_at rows in
                subst (λ t. get_fresh_token store other_draw later u p none t ≡ ok (token, t)) same
                  (rw (
                    get_fresh_token,
                    row.1,
                    row.2,
                    decrypt-encrypt store.crypto draw token_data blob sound made,
                    return_or_refresh,
                    access_token_of,
                    has,
                  ))
          ]
    ]
