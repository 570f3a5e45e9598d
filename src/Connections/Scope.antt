-- ===== src/Connections/Scope.antt =====
-- What the connection store keeps: one row for a user and a provider, and the rows of the others.
use task_scheduler_mcp.Store.Session.{err, ok, Result}
use task_scheduler_mcp.Connections.KmsEnvelope.{decrypt, encrypt, TokenData, Blob}
use task_scheduler_mcp.Connections.Store.{
  refresh_window, needs_refresh, refresh, return_or_refresh, TokenRefresher, get_fresh_token,
  access_token_of, delete, parse_expires_at, ConnectionStore, upsert, put, is_for, OauthConnection,
  Rows,
}
use task_scheduler_mcp.Common.{
  none, some, head?, count-select-not, select-select, Option-cases, count-select-le, Bool, ℕ, ◌≤◌,
  String, ◌≡◌, refl, sym, ap, ◌∙◌, inl, inr, true, not, ◌&&◌, Option, [], ◌∷◌, arith, str_eq,
  eq_iff, eq_refl, if◌then◌else◌, Bool-cases, &&-left, &&-right, select, update, exists, count,
  All-intro, exists-count, count-update-le,
}

-- The unique constraint `uq_oauth_connections_user_provider`.
abbrev pub IsKeyed : Rows → Type 0
IsKeyed rows = (user_id provider : String) → count (is_for user_id provider) rows ≤ 1

-- The rows that are not the pair's.
abbrev pub others : String → String → Rows → Rows
others user_id provider rows = select (λ c. not (is_for user_id provider c)) rows

-- What a block that returns has left of a table.
abbrev pub Leaves {ℓ} : {A : Type ℓ} → (Rows → Type 0) → Result (A × Rows) → Type 0
Leaves P (ok (a, rows)) = P rows
Leaves P (err e) = Unit

-- An UPDATE of the pair's rows that keeps their key.
others-update :
    (u p : String) (f : OauthConnection → OauthConnection) (rows : Rows)
    → ((c : OauthConnection) → is_for u p (f c) ≡ is_for u p c)
    → others u p (update (is_for u p) f rows) ≡ others u p rows
others-update u p f [] keys = refl
others-update u p f (c ∷ rows) keys = elim (Bool-cases (is_for u p c)) [
  | inl own ↦ rw (own, keys c, own) (others-update u p f rows keys)
  | inr other ↦ rw (other, other) (ap (λ r. c ∷ r) (others-update u p f rows keys))
]

is_for_self : (u p : String) → (str_eq u u && str_eq p p) ≡ true
is_for_self u p = rw (eq_refl u, eq_refl p) refl

others-put :
    (now : ℕ) (u p : String) (blob : Blob) (expires_at : Option ℕ) (rows : Rows)
    → others u p (put now u p blob expires_at rows) ≡ others u p rows
others-put now u p blob expires_at rows = elim (Bool-cases (exists (is_for u p) rows)) [
  | inl there ↦ rw there (others-update u p _ rows λ c. refl)
  | inr missing ↦ rw (missing, is_for_self u p) refl
]

put-IsKeyed :
    (now : ℕ) (u p : String) (blob : Blob) (expires_at : Option ℕ) (rows : Rows)
    → IsKeyed rows
    → IsKeyed (put now u p blob expires_at rows)
put-IsKeyed now u p blob expires_at rows keyed v q = elim (Bool-cases (exists (is_for u p) rows)) [
  | inl there ↦ rw there (
      omega
        (arith, keyed v q, count-update-le (is_for u p) _ (is_for v q) rows (All-intro rows kept)))
  | inr missing ↦ rw missing (elim (Bool-cases (str_eq u v && str_eq p q)) [
    | inl same ↦
        let user : v ≡ u = sym ((eq_iff u v).0 (&&-left _ _ same)) in
        let provider : q ≡ p = sym ((eq_iff p q).0 (&&-right _ _ same)) in
        let absent : count (is_for v q) rows ≡ 0 =
          ap (λ x. count (is_for x q) rows) user
          ∙ ap (λ y. count (is_for u y) rows) provider
          ∙ exists-count (is_for u p) rows missing in
        rw same (omega (arith, absent))
    | inr differ ↦ rw differ (omega (arith, keyed v q))
  ])
]
  where
    kept :
        (c : OauthConnection)
        → is_for v q (
            if is_for u p c
            then record c { encrypted_blob = blob; expires_at = expires_at; updated_at = now }
            else c)
          ≡ true
        → is_for v q c ≡ true
    kept c h = elim (Bool-cases (is_for u p c)) [
      | inl own ↦ rw own at h
      | inr other ↦ rw other at h
    ]

-- What the operations leave: the constraint, and the rows that are not the pair's.
abbrev pub LeavesOthers : String → String → Rows → Rows → Type 0
LeavesOthers u p rows rows' = IsKeyed rows' × (others u p rows' ≡ others u p rows)

rows_result : {A : Type 0} → Result (A × Rows) → Result Rows
rows_result (ok (a, rows)) = ok rows
rows_result (err e) = err e

abbrev pub LeavesRows : (Rows → Type 0) → Result Rows → Type 0
LeavesRows P (ok rows) = P rows
LeavesRows P (err e) = Unit

pub upsert-LeavesOthers :
    (store : ConnectionStore) (draw now : ℕ) (u p : String) (token_data : TokenData) (rows : Rows)
    → IsKeyed rows
    → LeavesRows (LeavesOthers u p rows) (upsert store draw now u p token_data rows)
unfolding upsert
upsert-LeavesOthers store draw now u p token_data rows keyed =
    cases (encrypt store.crypto draw token_data)
      (parse_expires_at store.from_iso token_data.expires_at)
  where
    cases :
        (r : Result Blob) (t : Result (Option ℕ))
        → LeavesRows (LeavesOthers u p rows) (elim r [
          | err e ↦ err e
          | ok blob ↦ elim t [
            | err e ↦ err e
            | ok expires_at ↦ ok (put now u p blob expires_at rows)
          ]
        ])
    cases (err e) t = tt
    cases (ok blob) (err e) = tt
    cases (ok blob) (ok expires_at) =
        (put-IsKeyed now u p blob expires_at rows keyed, others-put now u p blob expires_at rows)

pub delete-LeavesOthers :
    (u p : String) (rows : Rows)
    → IsKeyed rows
    → LeavesOthers u p rows (delete u p rows) × (count (is_for u p) (delete u p rows) ≡ 0)
unfolding delete
delete-LeavesOthers u p rows keyed =
    let gone : OauthConnection → Bool = λ c. not (is_for u p c) in
    (
      (
        λ v q. omega (arith, keyed v q, count-select-le (is_for v q) gone rows),
        select-select gone rows,
      ),
      count-select-not (is_for u p) rows,
    )

module _ (store : ConnectionStore) (draw now : ℕ) (u p : String) (rows : Rows)
    (keyed : IsKeyed rows) where
  access-LeavesOthers :
      (token_data : TokenData) (rows' : Rows)
      → LeavesOthers u p rows rows'
      → Leaves (LeavesOthers u p rows) (access_token_of token_data rows')
  access-LeavesOthers token_data rows' h = elim (Option-cases token_data.access_token) [
    | inl missing ↦ rw missing tt
    | inr (token, found) ↦ rw found h
  ]

  refresh-LeavesOthers :
      (r : Result TokenData)
      → Leaves (LeavesOthers u p rows) (elim r [
        | err e ↦ err e
        | ok fresh ↦ elim (upsert store draw now u p fresh rows) [
          | err e ↦ err e
          | ok rows' ↦ access_token_of fresh rows'
        ]
      ])
  refresh-LeavesOthers (err e) = tt
  refresh-LeavesOthers (ok fresh) =
      after (upsert store draw now u p fresh rows)
        (upsert-LeavesOthers store draw now u p fresh rows keyed)
    where
      after :
          (r : Result Rows)
          → LeavesRows (LeavesOthers u p rows) r
          → Leaves
              (LeavesOthers u p rows)
              (elim r [ err e ↦ err e | ok rows' ↦ access_token_of fresh rows' ])
      after (err e) h = tt
      after (ok rows') h = access-LeavesOthers fresh rows' h

  return-LeavesOthers :
      (refresher : TokenRefresher) (expires_at : Option ℕ) (token_data : TokenData)
      → Leaves
          (LeavesOthers u p rows)
          (return_or_refresh store draw now u p refresher expires_at token_data rows)
  unfolding return_or_refresh refresh
  return-LeavesOthers none expires_at token_data = access-LeavesOthers token_data rows (keyed, refl)
  return-LeavesOthers (some refresher) expires_at token_data =
      elim (Bool-cases (needs_refresh expires_at refresh_window now)) [
        | inl near ↦ rw near (refresh-LeavesOthers (refresher token_data))
        | inr far ↦ rw far (access-LeavesOthers token_data rows (keyed, refl))
      ]

  -- A read of a token, with its refresh and the upsert of what the refresher answered, keeps one
  -- row for each user and provider and leaves the rows of every other user and provider as they
  -- were.
  pub get_fresh_token-LeavesOthers :
      (refresher : TokenRefresher)
      → Leaves (LeavesOthers u p rows) (get_fresh_token store draw now u p refresher rows)
  unfolding get_fresh_token
  get_fresh_token-LeavesOthers refresher = elim (Option-cases (head? (select (is_for u p) rows))) [
    | inl missing ↦ rw (get_fresh_token, missing) tt
    | inr (row, found) ↦
        rw (get_fresh_token, found)
          (by_plaintext row.expires_at (decrypt store.crypto row.encrypted_blob))
  ]
    where
      by_plaintext :
          (expires_at : Option ℕ) (r : Result TokenData)
          → Leaves (LeavesOthers u p rows) (elim r [
            | err e ↦ err e
            | ok token_data ↦
                return_or_refresh store draw now u p refresher expires_at token_data rows
          ])
      by_plaintext expires_at (err e) = tt
      by_plaintext expires_at (ok token_data) = return-LeavesOthers refresher expires_at token_data
