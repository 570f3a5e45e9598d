-- ===== src/Actions/SendDedup/Once.antt =====
-- Histories of the deduplication store, by any number of workers.
use task_scheduler_mcp.Actions.SendDedup.{
  attempting, send, IntentStatus, SendDecision, gate_of, decide_send, sent,
}
use task_scheduler_mcp.Actions.SendDedup.{skip, mark_sent, intent_of, begin_send, SendIntent}
use task_scheduler_mcp.Common.{
  some, eq_refl, ℕ, String, ◌≡◌, refl, sym, ap, ◌∙◌, inl, inr, Bool, true, false, Option, List, [],
  ◌∷◌, arith, str_eq, eq_iff, Bool-cases, head?, select, update, exists, All, All-map, All-intro,
  All-update,
}

-- One call of the store.
pub data Call : Type 0 where
  begins : (now : ℕ) → (key : String) → (run_id : ℕ) → Call
  marks : (now : ℕ) → (key : String) → (provider_message_id : Option String) → Call

abbrev pub call : Call → List SendIntent → List SendIntent
call (begins now key run_id) intents = (begin_send now key run_id intents).1
call (marks now key provider_message_id) intents = mark_sent now key provider_message_id intents

abbrev pub run_calls : List Call → List SendIntent → List SendIntent
run_calls [] intents = intents
run_calls (c ∷ cs) intents = run_calls cs (call c intents)

abbrev pub marks_key : String → Call → Bool
marks_key k (marks now key provider_message_id) = str_eq key k
marks_key k (begins now key run_id) = false

-- The intent of the key is there, and confirmed with this message id.
abbrev IsConfirmed : String → Option String → List SendIntent → Type 0
IsConfirmed k id intents =
    (exists (intent_of k) intents ≡ true)
    × All
        (λ (i : SendIntent).
          intent_of k i ≡ true → (i.status ≡ sent) × (i.provider_message_id ≡ id))
        intents

exists-update :
    {A : Type 0} (p g : A → Bool) (f : A → A) (xs : List A)
    → ((a : A) → g (f a) ≡ g a)
    → exists g (update p f xs) ≡ exists g xs
exists-update p g f [] keeps = refl
exists-update p g f (x ∷ xs) keeps = ground (arith, keeps x, exists-update p g f xs keeps)

same_key : (a b c : String) → str_eq a b ≡ true → str_eq a c ≡ true → str_eq b c ≡ true
same_key a b c h k = (eq_iff b c).1 (sym ((eq_iff a b).0 h) ∙ (eq_iff a c).0 k)

confirm : ℕ → Option String → SendIntent → SendIntent
confirm now id i = record i { status = sent; provider_message_id = id; updated_at = now }

new_row :
    (key k : String) (intents : List SendIntent)
    → exists (intent_of key) intents ≡ false
    → exists (intent_of k) intents ≡ true
    → str_eq key k ≡ false
new_row key k intents missing found = elim (Bool-cases (str_eq key k)) [
  | inr apart ↦ apart
  | inl same ↦
      absurd
        (cc (sym missing ∙ ap (λ x. exists (intent_of x) intents) ((eq_iff key k).0 same) ∙ found))
]

mark-IsConfirmed :
    (now : ℕ) (k : String) (id : Option String) (intents : List SendIntent)
    → exists (intent_of k) intents ≡ true
    → IsConfirmed k id (mark_sent now k id intents)
unfolding mark_sent confirm
mark-IsConfirmed now k id intents h = (
  exists-update (intent_of k) (intent_of k) (confirm now id) intents (λ i. refl) ∙ h,
  All-update (intent_of k) (confirm now id) _ intents (All-intro intents (λ i. ground arith)),
)

call-IsConfirmed :
    (k : String) (id : Option String) (c : Call) (intents : List SendIntent)
    → marks_key k c ≡ false
    → IsConfirmed k id intents
    → IsConfirmed k id (call c intents)
unfolding begin_send mark_sent confirm
call-IsConfirmed k id (begins now key run_id) intents other h =
    elim (Bool-cases (exists (intent_of key) intents)) [
      | inl found ↦ rw (found, call) h
      | inr missing ↦
          rw (missing, call)
            (
              ground (arith, h.0),
              (λ same. absurd (ground (arith, same, new_row key k intents missing h.0)), h.1),
            )
    ]
call-IsConfirmed k id (marks now key given) intents other h = (
  exists-update (intent_of key) (intent_of k) (confirm now given) intents (λ i. refl) ∙ h.0,
  All-update (intent_of key) (confirm now given) _ intents (
      All-map intents (λ i sure. ground (arith, sure, other, same_key i.idempotency_key key k))
        h.1),
)

gate_of_confirmed :
    (k : String) (id : Option String) (intents : List SendIntent)
    → IsConfirmed k id intents
    → gate_of (head? (select (intent_of k) intents))
      ≡ record { decision = skip; provider_message_id = id }
unfolding decide_send
gate_of_confirmed k id [] h = absurd (cc (h.0))
gate_of_confirmed k id (i ∷ is) h = elim (Bool-cases (intent_of k i)) [
  | inl first ↦ let sure = h.1.0 first in rw (first, sure.0, sure.1)
  | inr other ↦ rw other (gate_of_confirmed k id is (ground (arith, h.0, other), h.1.1))
]

gate_confirmed :
    (now run_id : ℕ) (k : String) (id : Option String) (intents : List SendIntent)
    → IsConfirmed k id intents
    → begin_send now k run_id intents
      ≡ (record { decision = skip; provider_message_id = id }, intents)
unfolding begin_send
gate_confirmed now run_id k id intents h = rw (h.0, gate_of_confirmed k id intents h)

run_calls-IsConfirmed :
    (k : String) (id : Option String) (cs : List Call) (intents : List SendIntent)
    → exists (marks_key k) cs ≡ false
    → IsConfirmed k id intents
    → IsConfirmed k id (run_calls cs intents)
run_calls-IsConfirmed k id [] intents other h = h
run_calls-IsConfirmed k id (c ∷ cs) intents other h =
    run_calls-IsConfirmed k id cs (call c intents) (ground arith)
      (call-IsConfirmed k id c intents (ground arith) h)

-- Once a begun intent is marked as sent, every later `begin` of its key answers `skip` with the message
-- id that was stored, and writes nothing, whatever calls come between, except another mark of the key.
pub begin_send-mark_sent :
    (now later run_id : ℕ) (k : String) (id : Option String) (cs : List Call)
    (intents : List SendIntent)
    → exists (intent_of k) intents ≡ true
    → exists (marks_key k) cs ≡ false
    → let table = run_calls cs (mark_sent now k id intents) in
      begin_send later k run_id table
      ≡ (record { decision = skip; provider_message_id = id }, table)
begin_send-mark_sent now later run_id k id cs intents begun other =
    gate_confirmed later run_id k id (run_calls cs (mark_sent now k id intents)) (
      run_calls-IsConfirmed k id cs (mark_sent now k id intents) other
        (mark-IsConfirmed now k id intents begun))

call_kept :
    (k : String) (c : Call) (intents : List SendIntent)
    → exists (intent_of k) intents ≡ true
    → exists (intent_of k) (call c intents) ≡ true
unfolding begin_send mark_sent confirm
call_kept k (begins now key run_id) intents h = elim (Bool-cases (exists (intent_of key) intents)) [
  | inl found ↦ rw (found, call) h
  | inr missing ↦ rw (missing, call) (ground (arith, h))
]
call_kept k (marks now key given) intents h =
    exists-update (intent_of key) (intent_of k) (confirm now given) intents (λ i. refl) ∙ h

calls_kept :
    (k : String) (cs : List Call) (intents : List SendIntent)
    → exists (intent_of k) intents ≡ true
    → exists (intent_of k) (run_calls cs intents) ≡ true
calls_kept k [] intents h = h
calls_kept k (c ∷ cs) intents h = calls_kept k cs (call c intents) (call_kept k c intents h)

pub begun :
    (now run_id : ℕ) (k : String) (intents : List SendIntent)
    → exists (intent_of k) (begin_send now k run_id intents).1 ≡ true
unfolding begin_send
begun now run_id k intents = elim (Bool-cases (exists (intent_of k) intents)) [
  | inl found ↦ rw found found
  | inr missing ↦ rw missing (ground (arith, eq_refl k))
]

abbrev is_send : SendDecision → Bool
is_send send = true
is_send _ = false

not_send :
    (k : String) (intents : List SendIntent)
    → exists (intent_of k) intents ≡ true
    → is_send (gate_of (head? (select (intent_of k) intents))).decision ≡ false
unfolding decide_send
not_send k [] h = absurd (cc h)
not_send k (i ∷ is) h = elim (Bool-cases (intent_of k i)) [
  | inl first ↦ rw first (decided i.status)
  | inr other ↦ rw other (not_send k is (ground (arith, h, other)))
]
  where
    decided : (s : IntentStatus) → is_send (decide_send (some s)) ≡ false
    decided attempting = refl
    decided sent = refl

-- Of all the calls of `begin` for a key, the first alone may answer `send`: after one, no later one
-- does, whatever calls come between, so a replay always knows of the earlier attempt.
begin_send-once :
    (now later run_id again_id : ℕ) (k : String) (cs : List Call) (intents : List SendIntent)
    → let table = run_calls cs (begin_send now k run_id intents).1 in
      is_send (begin_send later k again_id table).0.decision ≡ false
unfolding begin_send
begin_send-once now later run_id again_id k cs intents =
    gate_not_send later again_id k (run_calls cs (begin_send now k run_id intents).1)
      (calls_kept k cs (begin_send now k run_id intents).1 (begun now run_id k intents))
  where
    gate_not_send :
        (later again_id : ℕ) (k : String) (table : List SendIntent)
        → exists (intent_of k) table ≡ true
        → is_send (begin_send later k again_id table).0.decision ≡ false
    gate_not_send later again_id k table h = rw (h, begin_send) (not_send k table h)
