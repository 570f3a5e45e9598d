-- ===== src/Web/OAuth/Disconnect.antt =====
-- What a disconnect leaves of the connections.
use task_scheduler_mcp.Connections.Scope.{
  IsKeyed, LeavesOthers, Leaves, get_fresh_token-LeavesOthers, delete-LeavesOthers,
}
use task_scheduler_mcp.Connections.Store.{Rows, ConnectionStore, get_fresh_token, is_for}
use task_scheduler_mcp.Store.Session.{Error, Result, ok, err, connection_miss}
use task_scheduler_mcp.Web.Session.{SessionJwt, WebSettings, WebRequest}
use task_scheduler_mcp.Web.OAuth.{
  signed_in, disconnect, by_token, removed, Disconnected, github_disconnect, slack_disconnect,
  google_disconnect,
}
use task_scheduler_mcp.Common.{
  ℕ, String, ◌≡◌, refl, ◌∙◌, ◌≢◌, ◌⊎◌, inl, inr, Bool, true, Option, none, some, if◌then◌else◌,
  Option-cases, count,
}

module _ (jwt : SessionJwt) (settings : WebSettings) (draw now : ℕ) (request : WebRequest)
    (rows : Rows) (provider : String) where
  -- The signed-in user has no row of the provider, and the rows of the others are as they were.
  pub record IsRemoved (store : Option ConnectionStore) (d : Disconnected) : Type 0 where
    pub user_id : String
    pub signed : signed_in jwt settings now request ≡ some user_id
    pub connection_store : ConnectionStore
    pub configured : store ≡ some connection_store
    pub leaves : LeavesOthers user_id provider rows d.rows
    pub gone : count (is_for user_id provider) d.rows ≡ 0

  -- A token that is there and cannot be read.
  pub record IsBlocked (store : Option ConnectionStore) (e : Error) : Type 0 where
    pub user_id : String
    pub signed : signed_in jwt settings now request ≡ some user_id
    pub connection_store : ConnectionStore
    pub configured : store ≡ some connection_store
    pub unread : get_fresh_token connection_store draw now user_id provider none rows ≡ err e
    pub present : e ≢ connection_miss

  abbrev pub Removes : Option ConnectionStore → Result Disconnected → Type 0
  Removes store (err e) = IsBlocked store e
  Removes store (ok d) =
      (((signed_in jwt settings now request ≡ none) ⊎ (store ≡ none))
        × (d.rows ≡ rows)
        × (d.revoked ≡ none))
      ⊎ IsRemoved store d

  module _ (s : ConnectionStore) (user_id : String)
      (signed : signed_in jwt settings now request ≡ some user_id) (keyed : IsKeyed rows) where
    blocked :
        (e : Error)
        → get_fresh_token s draw now user_id provider none rows ≡ err e
        → e ≢ connection_miss
        → IsBlocked (some s) e
    blocked e unread present = record {
      user_id = user_id;
      signed = signed;
      connection_store = s;
      configured = refl;
      unread = unread;
      present = present;
    }

    removed-IsRemoved :
        (rows' : Rows) (revoked : Option String)
        → LeavesOthers user_id provider rows rows'
        → IsRemoved
            (some s)
            (removed jwt settings draw now request rows provider user_id revoked rows')
    removed-IsRemoved rows' revoked h =
        let deleted = delete-LeavesOthers user_id provider rows' h.0 in
        record {
          user_id = user_id;
          signed = signed;
          connection_store = s;
          configured = refl;
          leaves = (deleted.0.0, deleted.0.1 ∙ h.1);
          gone = deleted.1;
        }

    token-Removes :
        (revokes : Bool) (r : Result (String × Rows))
        → get_fresh_token s draw now user_id provider none rows ≡ r
        → Leaves (LeavesOthers user_id provider rows) r
        → Removes (some s) (by_token jwt settings draw now request rows revokes provider user_id r)
    unfolding by_token
    token-Removes revokes (err connection_miss) same h =
        inr (removed-IsRemoved rows none (keyed, refl))
    token-Removes revokes (ok (token, rows')) same h =
        inr (removed-IsRemoved rows' (if revokes then some token else none) h)
    token-Removes revokes (err e) same h = blocked e same (λ missing. cc)

  pub disconnect-Removes :
      (revokes : Bool) (store : Option ConnectionStore)
      → IsKeyed rows
      → Removes store (disconnect jwt settings draw now request rows revokes store provider)
  unfolding disconnect
  disconnect-Removes revokes none keyed = elim (Option-cases (signed_in jwt settings now request)) [
    | inl nobody ↦ rw (disconnect, nobody) (inl (inl nobody, refl, refl))
    | inr (user_id, signed) ↦ rw (disconnect, signed) (inl (inr refl, refl, refl))
  ]
  disconnect-Removes revokes (some s) keyed =
      elim (Option-cases (signed_in jwt settings now request)) [
        | inl nobody ↦ rw (disconnect, nobody) (inl (inl nobody, refl, refl))
        | inr (user_id, signed) ↦
            rw (disconnect, signed)
              (token-Removes s user_id signed keyed revokes
                (get_fresh_token s draw now user_id provider none rows) refl
                (get_fresh_token-LeavesOthers s draw now user_id provider rows keyed none))
      ]

-- A disconnect of GitHub, Slack or Google that returns has changed and revoked nothing, where
-- nobody is signed in or no KMS is configured, or has left the signed-in user no row of the
-- provider and every other row as it was; one that fails has a signed-in user whose stored token
-- could not be read for another reason than a missing connection; the rows have one for each user
-- and provider before.
pub disconnects-Remove :
    (jwt : SessionJwt) (settings : WebSettings) (draw now : ℕ) (request : WebRequest) (rows : Rows)
    (store : Option ConnectionStore)
    → IsKeyed rows
    → Removes jwt settings draw now request rows "github" store
        (github_disconnect jwt settings draw now request rows store)
      × Removes jwt settings draw now request rows "slack" store
          (slack_disconnect jwt settings draw now request rows store)
      × Removes jwt settings draw now request rows "google" store
          (google_disconnect jwt settings draw now request rows store)
unfolding github_disconnect slack_disconnect google_disconnect
disconnects-Remove jwt settings draw now request rows store keyed = (
  disconnect-Removes jwt settings draw now request rows "github" _ store keyed,
  disconnect-Removes jwt settings draw now request rows "slack" true store keyed,
  disconnect-Removes jwt settings draw now request rows "google" true store keyed,
)
