-- ===== src/Llm/Budget/Totals.antt =====
-- What a recorded usage adds.
use task_scheduler_mcp.Llm.Budget.{
  month_start, since, used_today, record_token_usage, Instant, same_date, is_for, used_or_zero,
  Date, tokens_of, LlmTokenBudget,
}
use task_scheduler_mcp.Common.{
  ℕ, ◌+◌, ◌*◌, ◌≤◌, String, ◌≡◌, refl, sym, ap, ◌∙◌, inl, inr, Bool, true, false, ◌&&◌, List, [],
  ◌∷◌, arith, str_eq, eq_iff, eq_refl, ◌==◌, if◌then◌else◌, ==-self, Bool-cases, &&-left, &&-right,
  head?, select, update, exists, count, All-map, All-intro, exists-count, count-exists,
  count-zero-All, All-count-zero, count-update-le,
}

-- The primary key of the table.
abbrev pub IsKeyed : List LlmTokenBudget → Type 0
IsKeyed rows = (user_id : String) (d : Date) → count (is_for user_id d) rows ≤ 1

module _ (p : LlmTokenBudget → Bool) (n : ℕ) where
  abbrev spend : LlmTokenBudget → LlmTokenBudget
  spend r = record r { tokens_used = r.tokens_used + n }

  -- Rows that are picked by `q` and updated.
  tokens_of-update :
      (q : LlmTokenBudget → Bool) (rows : List LlmTokenBudget)
      → ((r : LlmTokenBudget) → q (spend r) ≡ q r)
      → ((r : LlmTokenBudget) → p r ≡ true → q r ≡ true)
      → tokens_of q (update p spend rows) ≡ tokens_of q rows + n * count p rows
  unfolding tokens_of
  tokens_of-update q [] keeps within = omega arith
  tokens_of-update q (r ∷ rows) keeps within =
      let rest = tokens_of-update q rows keeps within in
      elim (Bool-cases (p r)) [
        | inl spent ↦ rw (spent, keeps r, within r spent) (omega (arith, rest))
        | inr other ↦ rw other (omega (arith, rest))
      ]

  -- Rows that `q` does not pick.
  tokens_of-apart :
      (q : LlmTokenBudget → Bool) (rows : List LlmTokenBudget)
      → ((r : LlmTokenBudget) → q (spend r) ≡ q r)
      → ((r : LlmTokenBudget) → p r ≡ true → q r ≡ false)
      → tokens_of q (update p spend rows) ≡ tokens_of q rows
  unfolding tokens_of
  tokens_of-apart q [] keeps apart = refl
  tokens_of-apart q (r ∷ rows) keeps apart =
      let rest = tokens_of-apart q rows keeps apart in
      elim (Bool-cases (p r)) [
        | inl spent ↦ rw (spent, keeps r, apart r spent) (omega (arith, rest))
        | inr other ↦ rw other (omega (arith, rest))
      ]

tokens_of-none :
    (p : LlmTokenBudget → Bool) (rows : List LlmTokenBudget)
    → count p rows ≡ 0
    → tokens_of p rows ≡ 0
unfolding tokens_of
tokens_of-none p [] empty = refl
tokens_of-none p (r ∷ rows) empty = elim (Bool-cases (p r)) [
  | inl own ↦ absurd (ground (arith, own, empty))
  | inr other ↦ rw other (omega (arith, tokens_of-none p rows (ground (arith, empty, other))))
]

-- The sum over the one row of a key is what the row says.
tokens_of-used :
    (p : LlmTokenBudget → Bool) (rows : List LlmTokenBudget)
    → count p rows ≤ 1
    → used_or_zero (head? (select p rows)) ≡ tokens_of p rows
unfolding tokens_of
tokens_of-used p [] one = refl
tokens_of-used p (r ∷ rows) one = elim (Bool-cases (p r)) [
  | inl own ↦ rw own (omega (arith, tokens_of-none p rows (ground (arith, one, own))))
  | inr other ↦ rw other (omega (arith, tokens_of-used p rows (ground (arith, one, other))))
]

dates-eq :
    (a b : Date) → same_date a b ≡ true → (a.year ≡ b.year) × (a.month ≡ b.month) × (a.day ≡ b.day)
dates-eq a b h =
    let rest = &&-right (a.year == b.year) ((a.month == b.month) && (a.day == b.day)) h in
    (ground (arith, h), ground (arith, rest), ground (arith, rest))

-- A row of the key answers every key as the key does.
is_for-key :
    (user_id u : String) (today d : Date) (r : LlmTokenBudget)
    → is_for user_id today r ≡ true
    → is_for u d r ≡ (str_eq user_id u && same_date today d)
is_for-key user_id u today d r h =
    let user : r.user_id ≡ user_id =
      (eq_iff r.user_id user_id).0 (&&-left _ (same_date r.budget_date today) h) in
    let dates = dates-eq r.budget_date today (&&-right (str_eq r.user_id user_id) _ h) in
    rw (user, dates.0, dates.1, dates.2)

-- Two spellings of a key are one test.
is_for-same :
    (user_id u : String) (today d : Date) (r : LlmTokenBudget)
    → (str_eq user_id u && same_date today d) ≡ true
    → is_for u d r ≡ is_for user_id today r
is_for-same user_id u today d r h =
    let user : user_id ≡ u = (eq_iff user_id u).0 (&&-left _ (same_date today d) h) in
    let dates = dates-eq today d (&&-right (str_eq user_id u) _ h) in
    rw (user, dates.0, dates.1, dates.2)

pub same_date_self : (d : Date) → same_date d d ≡ true
same_date_self d = rw (==-self d.year, ==-self d.month, ==-self d.day)

module _ (user_id : String) (n : ℕ) (now : Instant) (rows : List LlmTokenBudget)
    (keyed : IsKeyed rows) where
  abbrev recorded : List LlmTokenBudget
  recorded = record_token_usage user_id rows n now

  -- The usage adds to every sum that picks the key's rows, and to no other.
  recorded-tokens_of :
      (q : LlmTokenBudget → Bool) (b : Bool)
      → ((r : LlmTokenBudget) (m : ℕ) → q (record r { tokens_used = m }) ≡ q r)
      → ((r : LlmTokenBudget) → is_for user_id now.date r ≡ true → q r ≡ b)
      → tokens_of q recorded ≡ tokens_of q rows + (if b then n else 0)
  unfolding record_token_usage tokens_of
  recorded-tokens_of q b keeps picks =
      let p : LlmTokenBudget → Bool = is_for user_id now.date in
      elim (Bool-cases (exists p rows)) [
        | inr missing ↦
            let new : LlmTokenBudget = record {
              user_id = user_id;
              budget_date = now.date;
              tokens_used = n;
            } in
            let picked : q new ≡ b =
              picks new (rw (eq_refl user_id, same_date_self now.date) refl) in
            rw (record_token_usage, missing, picked) (ground arith)
        | inl there ↦ elim (Bool-cases b) [
          | inl counted ↦
              let one : count p rows ≡ 1 =
                omega (arith, keyed user_id now.date, count-exists p rows there) in
              rw (record_token_usage, there, counted)
                (tokens_of-update p n q rows (λ r. keeps r _) (λ r h. picks r h ∙ counted)
                  ∙ ap (λ k. tokens_of q rows + n * k) one
                  ∙ omega arith)
          | inr apart ↦
              rw (record_token_usage, there, apart)
                (tokens_of-apart p n q rows (λ r. keeps r _) (λ r h. picks r h ∙ apart)
                  ∙ omega arith)
        ]
      ]

  recorded-IsKeyed : IsKeyed recorded
  unfolding record_token_usage
  recorded-IsKeyed u d =
      let p : LlmTokenBudget → Bool = is_for user_id now.date in
      elim (Bool-cases (exists p rows)) [
        | inl there ↦
            rw (record_token_usage, there)
              (omega
                (arith, keyed u d, count-update-le p _ (is_for u d) rows (All-intro rows kept)))
        | inr missing ↦ elim (Bool-cases (str_eq user_id u && same_date now.date d)) [
          | inl same ↦
              let absent : count (is_for u d) rows ≡ 0 = All-count-zero (is_for u d) p rows (
                All-map rows (λ r h. is_for-same user_id u now.date d r same ∙ h)
                  (count-zero-All p p rows (exists-count p rows missing))) in
              rw (record_token_usage, missing, same) (omega (arith, absent))
          | inr apart ↦ rw (record_token_usage, missing, apart) (omega (arith, keyed u d))
        ]
      ]
    where
      kept :
          (r : LlmTokenBudget)
          → is_for u d
              (if is_for user_id now.date r then spend (is_for user_id now.date) n r else r)
            ≡ true
          → is_for u d r ≡ true
      kept r h = elim (Bool-cases (is_for user_id now.date r)) [
        | inl own ↦ rw own at h
        | inr other ↦ rw other at h
      ]

  -- A recorded usage keeps one row for each user and date, adds its tokens to what the user has
  -- used on the date of the record and to the total of its month, and leaves the use of every other
  -- user and date as it was.
  pub record_token_usage-Adds :
      (u : String) (d : Date)
      → 1 ≤ now.date.day
      → IsKeyed recorded
        × (used_today u d recorded
            ≡ used_today u d rows + (if str_eq user_id u && same_date now.date d then n else 0))
        × (tokens_of (since (month_start now.date)) recorded
            ≡ tokens_of (since (month_start now.date)) rows + n)
  record_token_usage-Adds u d valid = (
    recorded-IsKeyed,
    tokens_of-used (is_for u d) recorded (recorded-IsKeyed u d)
        ∙ recorded-tokens_of (is_for u d) _ (λ r m. refl) (is_for-key user_id u now.date d)
        ∙ ap (λ t. t + (if str_eq user_id u && same_date now.date d then n else 0))
            (sym (tokens_of-used (is_for u d) rows (keyed u d))),
    recorded-tokens_of (since (month_start now.date)) true (λ r m. refl)
        (λ r h.
          (let dates = dates-eq r.budget_date now.date (&&-right (str_eq r.user_id user_id) _ h) in
            ground (arith, dates.0, dates.1, dates.2, valid))),
  )
