-- ===== src/Examples/Digests.antt =====
-- The theorems on the other actions, the calendar and the log, applied.
use task_scheduler_mcp.Actions.GithubDigest.{
  Labels, Item, Reply, replied, paged, query_prs, query_labels,
}
use task_scheduler_mcp.Actions.GithubDigest.Pages.{
  issues_in, repeated, items_under, page_of, Serves, query_prs-all, all_prs,
}
use task_scheduler_mcp.Ics.{Component, CalendarEvent, day, all_events, end_of_day, parse_events}
use task_scheduler_mcp.Ics.Window.{IsWanted, IsSorted, is_wanted, parse_events-Returns}
use task_scheduler_mcp.Obs.Queue.{LogQueue, enqueue_all}
use task_scheduler_mcp.Obs.Queue.Newest.{IsWarned, enqueue_all-newest}
use task_scheduler_mcp.Obs.Redaction.{text, Fields, Context}
use task_scheduler_mcp.Store.{hour}
use task_scheduler_mcp.Text.{codes}
use task_scheduler_mcp.Common.{
  ◌↔◌, Has, ℕ, ◌+◌, ◌-◌, ◌*◌, String, ◌≡◌, refl, Bool, true, false, ◌&&◌, none, some, List, [], ◌∷◌,
  arith, count,
}

abbrev pull_requests : List Item
pull_requests =
    record { number = 7; title = "a"; html_url = "u"; is_pull_request = true; updated_at = 10 }
    ∷ (record { number = 8; title = "b"; html_url = "v"; is_pull_request = false; updated_at = 20 }
        ∷ [])

-- A server that has these items, for every label.
abbrev server : ℕ → Reply
server page = replied 200 none (page_of pull_requests (page - 1))

server-Serves : Serves server pull_requests
server-Serves p = let e : p + 1 - 1 ≡ p = omega arith in rw e refl

query_prs-all_example :
    (query_prs 1 (100 * hour) 3 server ≡ paged (all_prs (100 * hour) 3 pull_requests))
    × (found : Labels) × (query_labels 1 (λ label. server) ("bug" ∷ ("bug" ∷ [])) ≡ paged found)
    × (items_under "bug" found ≡ some (repeated 2 (issues_in pull_requests)))
query_prs-all_example =
    query_prs-all 1 (100 * hour) 3 server pull_requests (λ label. server) (λ label. pull_requests)
      ("bug" ∷ ("bug" ∷ [])) "bug" server-Serves (omega arith) (λ label. server-Serves)
      (λ label. omega arith) refl

abbrev holiday : Component
holiday = record {
  name = "VEVENT";
  summary = some "Holiday";
  location = none;
  description = none;
  url = none;
  dtstart = some (day (48 * hour));
  dtend = none;
  duration = none;
  rrule = none;
  exdates = [];
}

-- Each day of a window, but for the one of the holiday.
abbrev stand_up : Component
stand_up = record holiday {
  summary = some "Stand-up of the day";
  rrule =
      some
        (λ start. some (λ range_start range_end. range_start ∷ ((range_start + 24 * hour) ∷ [])));
  exdates = day (48 * hour) ∷ [];
}

parse_events-Returns_example :
    (events : List CalendarEvent) × (parse_events codes
        (some (holiday ∷ (stand_up ∷ [])))
        (48 * hour)
        (48 * hour)
        (some "day")
      ≡ some events)
    × IsSorted events
    × ((e : CalendarEvent)
        → Has e events
          ↔ IsWanted codes (holiday ∷ (stand_up ∷ [])) (48 * hour) (48 * hour) (some "day") e)
    × ((p : CalendarEvent → Bool)
        → count p events
          ≡ count
              (λ e. is_wanted codes (48 * hour) (48 * hour) (some "day") e && p e)
              (all_events (48 * hour) (end_of_day (48 * hour)) (holiday ∷ (stand_up ∷ []))))
parse_events-Returns_example =
    parse_events-Returns codes (holiday ∷ (stand_up ∷ [])) (48 * hour) (48 * hour) (some "day")

abbrev queue : LogQueue ℕ
queue = record { records = 1 ∷ (2 ∷ []); warned = false; warnings = 0 }

enqueue_all-newest_example :
    ((enqueue_all 3 (3 ∷ (4 ∷ (5 ∷ []))) queue).records ≡ 3 ∷ (4 ∷ (5 ∷ [])))
    × ((enqueue_all 3 (3 ∷ (4 ∷ (5 ∷ []))) queue).warned ≡ true)
    × IsWarned (enqueue_all 3 (3 ∷ (4 ∷ (5 ∷ []))) queue)
enqueue_all-newest_example =
    enqueue_all-newest 3 (3 ∷ (4 ∷ (5 ∷ []))) queue (omega arith) (omega arith) refl

abbrev context : Context
context = record {
  service = "worker";
  git_sha = "abc";
  user_id = some "ann";
  job_id = none;
  run_id = some "r1";
}

abbrev fields : Fields
fields = ("Slack_Token", text "xoxb") ∷ []

abbrev mark : String
mark = "[REDACTED]"

abbrev letters : ℕ → List ℕ
letters first = first ∷ (111 ∷ (107 ∷ (101 ∷ (110 ∷ []))))
