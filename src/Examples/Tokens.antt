-- ===== src/Examples/Tokens.antt =====
-- The theorems on the connections and on the mail, applied: ann has a Google connection.

use task_scheduler_mcp.Actions.EmailSend.Once.{execute-once, IsQuiet}
use task_scheduler_mcp.Examples.{sample}
use task_scheduler_mcp.Actions.SendDedup.Once.{begins, run_calls, Call}
use task_scheduler_mcp.Actions.UpstreamReader.{Formatter, Reader}
use task_scheduler_mcp.Actions.EmailSend.{answered, delivered, EmailSendParams, World, execute}
use task_scheduler_mcp.Connections.RoundTrip.{get_fresh_token-upsert}
use task_scheduler_mcp.Store.Session.{ok}
use task_scheduler_mcp.Connections.Scope.{IsKeyed}
use task_scheduler_mcp.Connections.Store.{
  Rows, put, get_fresh_token, upsert, TokenRefresher, ConnectionStore,
}
use task_scheduler_mcp.Connections.KmsEnvelope.{Crypto, sealed, TokenData, IsSound}
use task_scheduler_mcp.Examples.Codec.{decode-encode, decode, encode}
use task_scheduler_mcp.Common.{
  ℕ, String, ◌≡◌, refl, ap, false, Option, none, some, List, [], ◌∷◌, arith,
}

-- Every data key is one key, and texts open as they were sealed.
abbrev crypto : Crypto
unfolding encode decode
crypto = record {
  generate_data_key = λ draw. some ("key", "wrapped");
  decrypt_key = λ wrapped. some "key";
  nonce = λ draw. "nonce";
  aes_encrypt = λ key nonce plaintext. encode plaintext;
  aes_decrypt = λ key nonce ciphertext. decode ciphertext;
}

key_of : Option (String × String) → String
key_of none = ""
key_of (some (key, wrapped)) = key

crypto-IsSound : IsSound crypto
unfolding crypto key_of
crypto-IsSound = record {
  unwraps = λ draw key wrapped h. ap (λ k. some k) (ap key_of h);
  opens = λ key nonce plaintext. decode-encode plaintext;
}

abbrev pub store : ConnectionStore
unfolding crypto
store = record { crypto = crypto; from_iso = λ s. none }

abbrev pub token_data : TokenData
token_data = record { access_token = some "t1"; refresh_token = some "r1"; expires_at = none }

abbrev pub rows : Rows
unfolding encode
rows =
    record {
      user_id = "ann";
      provider = "google";
      encrypted_blob = sealed 1 "wrapped" "nonce" (encode token_data);
      expires_at = some 50;
      created_at = 10;
      updated_at = 10;
    }
    ∷ []

pub rows-IsKeyed : IsKeyed rows
unfolding rows
rows-IsKeyed = λ user_id provider. ground arith

-- The refresher that keeps the token.
abbrev refresher : TokenRefresher
refresher = some (λ t. ok t)

get_fresh_token-upsert_example :
    get_fresh_token store 2 40 "bob" "google" none
      (put 30 "bob" "google" (sealed 1 "wrapped" "nonce" (encode token_data)) none rows)
    ≡ ok ("t1", put 30 "bob" "google" (sealed 1 "wrapped" "nonce" (encode token_data)) none rows)
unfolding store upsert
get_fresh_token-upsert_example =
    get_fresh_token-upsert store 1 2 30 40 "bob" "google" token_data "t1" rows
      (put 30 "bob" "google" (sealed 1 "wrapped" "nonce" (encode token_data)) none rows)
      crypto-IsSound refl refl

abbrev reader : Reader
reader = record { loads = λ s. some s; shows = λ m. "failed" }

abbrev formatter : Formatter
formatter = record { format = λ s. s; format_error = λ s. s; invalid = λ s. s }

abbrev world : ℕ → World
unfolding store rows
world now = record {
  reader = reader;
  formatter = formatter;
  db = sample;
  store = some store;
  connections = rows;
  refresher = refresher;
  draw = 1;
  now = now;
  response = answered 200 (some "m1");
}

abbrev params : EmailSendParams
params = record { body = some "hello"; from_run_id = none }

abbrev between : List Call
between = begins 30 "email_send:8" 8 ∷ []

delivers :
    (execute (world 40) "email_send:7" 7 "ann" params []).result ≡ delivered (some "m1") false
unfolding execute store rows encode decode
delivers = refl

execute-once_example :
    let table = run_calls between (execute (world 40) "email_send:7" 7 "ann" params []).intents in
    IsQuiet
      (world 90)
      "email_send:7"
      (some "m1")
      table
      (execute (world 90) "email_send:7" 7 "ann" params table)
execute-once_example =
    execute-once (world 40) (world 90) "email_send:7" 7 "ann" params (some "m1") between [] delivers
      refl
