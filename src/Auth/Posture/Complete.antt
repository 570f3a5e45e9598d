-- ===== src/Auth/Posture/Complete.antt =====
-- Which settings give which posture.
use task_scheduler_mcp.Auth.Posture.{
  WorkosFields, BearerVerifyPosture, trust_only, bearer_verified, is_present, verified,
  bearer_posture_from_settings,
}
use task_scheduler_mcp.Store.Session.{Result, ok, err}
use task_scheduler_mcp.Common.{
  String, ◌≡◌, refl, inl, inr, Bool, true, false, not, ◌&&◌, Option, none, some, arith, Bool-cases,
  &&-right,
}

abbrev none_present : WorkosFields → Bool
none_present s =
    not (is_present s.jwks_uri) && (not (is_present s.issuer) && not (is_present s.audience))

abbrev all_present : WorkosFields → Bool
all_present s = is_present s.jwks_uri && (is_present s.issuer && is_present s.audience)

-- Tokens go unverified exactly where nothing is configured; a part of the settings is refused.
abbrev pub Tells : WorkosFields → Result BearerVerifyPosture → Type 0
Tells s (ok trust_only) = none_present s ≡ true
Tells s (ok (bearer_verified jwks_uri issuer audience)) =
    (s.jwks_uri ≡ some jwks_uri)
    × (s.issuer ≡ some issuer)
    × (s.audience ≡ some audience)
    × (all_present s ≡ true)
Tells s (err e) = (none_present s ≡ false) × (all_present s ≡ false)

verified-Tells :
    (j i a : Option String)
    → (is_present j && (is_present i && is_present a)) ≡ true
    → Tells (record { jwks_uri = j; issuer = i; audience = a }) (verified j i a)
unfolding is_present
verified-Tells none i a h = absurd (cc h)
verified-Tells (some j) none a h =
    absurd (cc (&&-right (is_present (some j)) (false && is_present a) h))
verified-Tells (some j) (some i) none h = absurd (
    cc (
      &&-right (is_present (some i)) false
        (&&-right (is_present (some j)) (is_present (some i) && false) h)))
verified-Tells (some j) (some i) (some a) h = (refl, refl, refl, h)

-- Tokens go unverified exactly where no setting is present, and are verified with the settings
-- exactly where all are; a part of them is refused.
bearer_posture_from_settings-Tells : (s : WorkosFields) → Tells s (bearer_posture_from_settings s)
unfolding bearer_posture_from_settings
bearer_posture_from_settings-Tells s = elim (Bool-cases (is_present s.jwks_uri)) [
  | inl j ↦ elim (Bool-cases (is_present s.issuer)) [
    | inl i ↦ elim (Bool-cases (is_present s.audience)) [
      | inl a ↦ rw (j, i, a) (verified-Tells s.jwks_uri s.issuer s.audience (rw (j, i, a) refl))
      | inr a ↦ rw (j, i, a) (ground arith)
    ]
    | inr i ↦ elim (Bool-cases (is_present s.audience)) [
      | inl a ↦ rw (j, i, a) (ground arith)
      | inr a ↦ rw (j, i, a) (ground arith)
    ]
  ]
  | inr j ↦ elim (Bool-cases (is_present s.issuer)) [
    | inl i ↦ elim (Bool-cases (is_present s.audience)) [
      | inl a ↦ rw (j, i, a) (ground arith)
      | inr a ↦ rw (j, i, a) (ground arith)
    ]
    | inr i ↦ elim (Bool-cases (is_present s.audience)) [
      | inl a ↦ rw (j, i, a) (ground arith)
      | inr a ↦ rw (j, i, a) (ground arith)
    ]
  ]
]
