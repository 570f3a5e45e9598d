-- ===== src/Connections/KmsEnvelope.antt =====
-- app/crypto/kms_envelope.py. KMS and AES-GCM are the parameter `crypto`. A blob stands for its fields,
-- which JSON and base64 carry. The plaintext is the token data that `json.dumps` makes text of.
use task_scheduler_mcp.Store.Session.{decryption_error, external_error, err, ok, Result}
use task_scheduler_mcp.Common.{
  ℕ, String, ◌≡◌, refl, sym, ap, inl, inr, Option, none, some, ◌==◌, if◌then◌else◌, Option-cases,
}

pub record TokenData : Type 0 where
  pub access_token : Option String
  pub refresh_token : Option String
  -- ISO 8601
  pub expires_at : Option String

-- `json.loads` fails, or a field is missing or is not base64.
pub data Blob : Type 0 where
  malformed : Blob
  sealed : (v : ℕ) → (wrapped_dek nonce ciphertext : String) → Blob

-- `draw` numbers the calls: the data key and the nonce of a call are its own.
pub record Crypto : Type 0 where
  -- The plaintext key and the wrapped one; `none` where KMS fails.
  pub generate_data_key : ℕ → Option (String × String)
  pub decrypt_key : String → Option String
  pub nonce : ℕ → String
  pub aes_encrypt : String → String → TokenData → String
  pub aes_decrypt : String → String → String → Option TokenData

-- What KMS and AES-GCM promise: a wrapped key unwraps to itself, a ciphertext opens with its key and
-- its nonce.
pub record IsSound (crypto : Crypto) : Type 0 where
  pub unwraps :
      (draw : ℕ) (key wrapped : String)
      → crypto.generate_data_key draw ≡ some (key, wrapped)
      → crypto.decrypt_key wrapped ≡ some key
  pub opens :
      (key nonce : String) (plaintext : TokenData)
      → crypto.aes_decrypt key nonce (crypto.aes_encrypt key nonce plaintext) ≡ some plaintext

-- `_VERSION`
abbrev pub version : ℕ
version = 1

unfoldable pub encrypt : Crypto → ℕ → TokenData → Result Blob
encrypt crypto draw plaintext = elim (crypto.generate_data_key draw) [
  | none ↦ err external_error
  | some (plaintext_dek, wrapped_dek) ↦ ok (
      sealed version wrapped_dek (crypto.nonce draw)
        (crypto.aes_encrypt plaintext_dek (crypto.nonce draw) plaintext))
]

-- `KMS Decrypt`, then AES-GCM.
abbrev open_sealed : Crypto → String → String → String → Result TokenData
open_sealed crypto wrapped_dek nonce ciphertext = elim (crypto.decrypt_key wrapped_dek) [
  | none ↦ err decryption_error
  | some plaintext_dek ↦ elim (crypto.aes_decrypt plaintext_dek nonce ciphertext) [
    | none ↦ err decryption_error
    | some plaintext ↦ ok plaintext
  ]
]

unfoldable pub decrypt : Crypto → Blob → Result TokenData
decrypt crypto malformed = err decryption_error
decrypt crypto (sealed v wrapped_dek nonce ciphertext) =
    if v == version then open_sealed crypto wrapped_dek nonce ciphertext else err decryption_error

blob_of : Result Blob → Blob
blob_of (ok blob) = blob
blob_of (err e) = malformed

opens_again :
    (crypto : Crypto) (key wrapped nonce : String) (plaintext : TokenData)
    → IsSound crypto
    → crypto.decrypt_key wrapped ≡ some key
    → open_sealed crypto wrapped nonce (crypto.aes_encrypt key nonce plaintext) ≡ ok plaintext
opens_again crypto key wrapped nonce plaintext sound unwraps =
    rw (open_sealed, unwraps, sound.opens key nonce plaintext) refl

-- A blob that `encrypt` returned decrypts to its plaintext.
pub decrypt-encrypt :
    (crypto : Crypto) (draw : ℕ) (plaintext : TokenData) (blob : Blob)
    → IsSound crypto
    → encrypt crypto draw plaintext ≡ ok blob
    → decrypt crypto blob ≡ ok plaintext
unfolding encrypt decrypt blob_of
decrypt-encrypt crypto draw plaintext blob sound h =
    elim (Option-cases (crypto.generate_data_key draw)) [
      | inl failed ↦ absurd (cc (rw (encrypt, failed) at h))
      | inr ((key, wrapped), found) ↦ rw (sym (ap blob_of (rw (encrypt, found) at h))) (
          opens_again crypto key wrapped (crypto.nonce draw) plaintext sound
            (sound.unwraps draw key wrapped found))
    ]
