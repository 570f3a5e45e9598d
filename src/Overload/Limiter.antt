-- ===== src/Overload/Limiter.antt =====
-- `ConcurrencyLimiter` of app/overload/health.py. The lock makes each block one step; a request that
-- was let in leaves once, in its `finally`.
pub mod Capacity
use task_scheduler_mcp.Common.{
  ℕ, zero, suc, ◌+◌, ◌-◌, ◌*◌, ◌/◌, ◌%◌, ◌≤◌, ◌<◌, ◌≡◌, refl, ◌∙◌, ◌≢◌, ◌↔◌, ◌⊎◌, inl, inr, Bool,
  true, false, ◌&&◌, ◌||◌, Option, none, some, List, [], ◌∷◌, ◌++◌, leb, ◌==◌, if◌then◌else◌,
  exists,
}

pub record ConcurrencyLimiter : Type 0 where
  pub limit : ℕ
  pub inflight : ℕ

-- The block before `yield`: `none` stands for CapacityExceeded.
unfoldable pub enter : ConcurrencyLimiter → Option ConcurrencyLimiter
enter l = if leb l.limit l.inflight then none else some (record l { inflight = l.inflight + 1 })

-- The block after it.
unfoldable pub leave : ConcurrencyLimiter → ConcurrencyLimiter
leave l = record l { inflight = l.inflight - 1 }

pub data Event : Type 0 where
  enters leaves : (request : ℕ) → Event

-- The limiter, and the requests that are inside.
pub record Traffic : Type 0 where
  pub limiter : ConcurrencyLimiter
  pub inside : List ℕ

abbrev pub remove : ℕ → List ℕ → List ℕ
remove r [] = []
remove r (x ∷ xs) = let rest = remove r xs in if x == r then xs else x ∷ rest

-- Whether the request went in, or was inside and left.
abbrev pub admit : ℕ → Traffic → Option ConcurrencyLimiter → Bool × Traffic
admit request t none = (false, t)
admit request t (some l) = (true, record { limiter = l; inside = request ∷ t.inside })

unfoldable pub step : Event → Traffic → Bool × Traffic
unfolding enter leave
step (enters request) t = admit request t (enter t.limiter)
step (leaves request) t =
    if exists (λ x. x == request) t.inside
    then (true, record { limiter = leave t.limiter; inside = remove request t.inside })
    else (false, t)

unfoldable pub run : List Event → Traffic → List Bool × Traffic
unfolding step
run [] t = ([], t)
run (e ∷ es) t =
    let answered = step e t in let rest = run es answered.1 in (answered.0 ∷ rest.0, rest.1)
