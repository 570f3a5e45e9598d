-- ===== src/Examples/Listings.antt =====
-- The theorems on listings and statuses, applied.
use task_scheduler_mcp.Store.{JobState}
use task_scheduler_mcp.Jobs.Listing.Filter.{base_where-shown, shown, is_text, AsksFor}
use task_scheduler_mcp.Mcp.StatusMapping.RoundTrip.{External}
use task_scheduler_mcp.Examples.{echo_job, sample}
use task_scheduler_mcp.Mcp.StatusMapping.{to_job_states, to_internal_set}
use task_scheduler_mcp.Jobs.Listing.{latest_status, not_after, not_before, base_where, Query}
use task_scheduler_mcp.Common.{◌≡◌, refl, ◌&&◌, none, some, [], ◌∷◌, str_eq}

abbrev running_jobs : Query
running_jobs = record {
  user_id = "ann";
  status_filter = some ("RUNNING" ∷ "RETRYING" ∷ []);
  job_state_filter = some [];
  created_at_from = none;
  created_at_to = some 100;
  page = 1;
  page_size = 20;
}

asks : AsksFor External.running running_jobs
unfolding to_internal_set to_job_states
asks = (refl, refl)

base_where-shown_example : base_where running_jobs sample echo_job ≡ (
    str_eq "ann" "ann"
    && (not_before none 10
        && (not_after (some 100) 10
            && is_text "running" (shown JobState.active (latest_status 1 sample)))))
base_where-shown_example = base_where-shown External.running running_jobs sample echo_job asks
