-- ===== src/Connections/Preflight/Gate.antt =====
-- When the checks of a connection stop a creation or an execution.
use task_scheduler_mcp.Store.{is_none}
use task_scheduler_mcp.Store.Session.{Result-cases, ok}
use task_scheduler_mcp.Connections.KmsEnvelope.{malformed, version, sealed, Blob, decrypt}
use task_scheduler_mcp.Connections.Preflight.{
  check_expiry, refreshed, ok, is_expired, err, missing_connection, preflight_of, proceeds,
  check_oauth_for_execute, check_oauth_connection,
}
use task_scheduler_mcp.Connections.Store.{
  OauthConnection, is_for, TokenRefresher, get_fresh_token, return_or_refresh, Rows,
  ConnectionStore,
}
use task_scheduler_mcp.Common.{
  head?-select-cases, ℕ, String, ◌≡◌, refl, ◌⊎◌, inl, inr, false, Option, none, some, ◌==◌,
  if◌then◌else◌, Bool-cases, Option-cases, head?, select, exists,
}

-- The errors of a read without a refresher, which are not a missing row.
module _ (store : ConnectionStore) (draw now : ℕ) (user_id provider : String) (rows : Rows) where
  -- What `preflight_of` makes of a row that is there.
  of_plaintext :
      (expires_at : Option ℕ) (blob : Blob)
      → preflight_of (elim (decrypt store.crypto blob) [
        | err e ↦ err e
        | ok token_data ↦
            return_or_refresh store draw now user_id provider none expires_at token_data rows
      ])
        ≡ proceeds
  unfolding return_or_refresh decrypt
  of_plaintext expires_at malformed = refl
  of_plaintext expires_at (sealed v wrapped_dek nonce ciphertext) =
      elim (Bool-cases (v == version)) [
        | inr other ↦ rw other refl
        | inl same ↦ rw same (elim (Option-cases (store.crypto.decrypt_key wrapped_dek)) [
          | inl failed ↦ rw failed refl
          | inr (key, unwrapped) ↦
              rw unwrapped (elim (Option-cases (store.crypto.aes_decrypt key nonce ciphertext)) [
                | inl forged ↦ rw forged refl
                | inr (token_data, opened) ↦
                    rw opened (elim (Option-cases token_data.access_token) [
                      | inl missing ↦ rw missing refl
                      | inr (token, found) ↦ rw found refl
                    ])
              ])
        ])
      ]

  -- Where KMS is configured and the action needs a provider, a creation is stopped exactly when the
  -- user has no connection to it.
  pub check_oauth_connection-row :
      check_oauth_connection (some store) draw now (some provider) user_id rows
      ≡ (if exists (is_for user_id provider) rows then proceeds else missing_connection)
  unfolding check_oauth_connection get_fresh_token
  check_oauth_connection-row = elim (head?-select-cases (is_for user_id provider) rows) [
    | inl (missing, nothing) ↦ rw (missing, get_fresh_token, nothing)
    | inr (row, there, found) ↦
        rw (there, get_fresh_token, found) (of_plaintext row.expires_at row.encrypted_blob)
  ]

  -- Where KMS is configured, an execution that needs OAuth proceeds only with a connection of its
  -- user that has not expired, or one for which a refresh has just returned a token.
  pub check_oauth_for_execute-proceeds :
      (refresher : TokenRefresher)
      → check_oauth_for_execute (some store) draw now user_id provider refresher rows ≡ proceeds
      → (row : OauthConnection) × (head? (select (is_for user_id provider) rows) ≡ some row)
        × ((is_expired row.expires_at now ≡ false)
            ⊎ ((r : String × Rows) × (get_fresh_token store draw now user_id provider refresher rows
                  ≡ ok r)))
  unfolding check_oauth_for_execute
  check_oauth_for_execute-proceeds refresher h =
      elim (Option-cases (head? (select (is_for user_id provider) rows))) [
        | inl missing ↦ absurd (cc (rw (check_oauth_for_execute, missing) at h))
        | inr (row, found) ↦ (
          row,
          found,
          elim (Bool-cases (is_expired row.expires_at now)) [
            | inr valid ↦ inl valid
            | inl expired ↦
                inr (expired_then (rw (check_oauth_for_execute, found, check_expiry, expired) at h))
          ],
        )
      ]
    where
      expired_then :
          (if is_none refresher
              then missing_connection
              else refreshed (get_fresh_token store draw now user_id provider refresher rows))
            ≡ proceeds
          → (r : String × Rows) × (get_fresh_token store draw now user_id provider refresher rows
              ≡ ok r)
      expired_then e = elim (Bool-cases (is_none refresher)) [
        | inl none_given ↦ absurd (cc (rw none_given at e))
        | inr given ↦
            elim (Result-cases (get_fresh_token store draw now user_id provider refresher rows)) [
              | inl (raised, failed) ↦ absurd (cc (rw (given, failed) at e))
              | inr answer ↦ answer
            ]
      ]
