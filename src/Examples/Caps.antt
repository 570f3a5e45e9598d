-- ===== src/Examples/Caps.antt =====
-- The theorems on what a creation asks first, applied.
use task_scheduler_mcp.Chain.Depth.{validate_chain-IsAdmitted, IsAdmitted}
use task_scheduler_mcp.Chain.{validate_chain}
use task_scheduler_mcp.Store.Session.{ok}
use task_scheduler_mcp.Examples.{sample, chained_job, echo_job}
use task_scheduler_mcp.Limits.RateLimit.Waiting.{check_rate_limit-Waits, Waits}
use task_scheduler_mcp.Store.{Job}
use task_scheduler_mcp.Limits.RateLimit.{check_rate_limit, RateLimitDecision, RateReason}
use task_scheduler_mcp.Common.{◌≡◌, refl, List, [], ◌∷◌, arith}

abbrev jobs : List Job
jobs = echo_job ∷ chained_job ∷ []

rejects :
    check_rate_limit "ann" jobs (record { daily = 9; burst = 2 }) 3000000
    ≡ ok (RateLimitDecision.reject RateReason.burst 58)
unfolding check_rate_limit
rejects = refl

check_rate_limit-Waits_example : Waits "ann" jobs 3000000 RateReason.burst 58
check_rate_limit-Waits_example =
    check_rate_limit-Waits "ann" jobs (record { daily = 9; burst = 2 }) 3000000 58 RateReason.burst
      (ground arith) rejects

accepts : validate_chain "ann" 3 sample ≡ ok (tt, sample)
unfolding validate_chain
accepts = refl

validate_chain-IsAdmitted_example : IsAdmitted "ann" 3 sample × (sample ≡ sample)
validate_chain-IsAdmitted_example = validate_chain-IsAdmitted "ann" 3 sample sample accepts
