-- ===== src/Mcp/Handlers/Pages.antt =====
-- What a page of `task.list` shows.
use task_scheduler_mcp.Jobs.Create.{IsoTime}
use task_scheduler_mcp.Store.{Job, Db}
use task_scheduler_mcp.Mcp.StatusMapping.{to_job_states, to_internal_set}
use task_scheduler_mcp.Mcp.StatusMapping.RoundTrip.{external_name, External}
use task_scheduler_mcp.Jobs.Listing.{
  not_before, not_after, latest_status, base_where, page_rows, list_jobs, Query,
}
use task_scheduler_mcp.Mcp.Handlers.{
  item_data, int_or, list_data, ListArguments, is_bad_status, handle_task_list, list_range,
  ListData, ListItemData, is_external,
}
use mathlib.Core.Option
use task_scheduler_mcp.Mcp.Envelope.{success, failure, Envelope, Code}
use task_scheduler_mcp.Jobs.Listing.Filter.{
  AsksFor, text_shown, is_text, shown, base_where-shown, list_jobs_page,
}
use task_scheduler_mcp.Common.{
  All-in_map, length-map, min, ℕ, ◌-◌, ◌*◌, ◌≤◌, String, ◌≡◌, refl, sym, ap, ◌∙◌, inl, inr, Bool,
  true, false, not, ◌&&◌, Option, none, some, List, arith, str_eq, eq_iff, ltb, Bool-cases,
  &&-right, length, All, All-map,
}

-- A valid status is the name of one.
external_named : (s : String) → is_external s ≡ true → (e : External) × (external_name e ≡ s)
external_named s h = elim (Bool-cases (str_eq "scheduled" s)) [
  | inl same ↦ (External.scheduled, (eq_iff "scheduled" s).0 same)
  | inr not1 ↦ elim (Bool-cases (str_eq "running" s)) [
    | inl same ↦ (External.running, (eq_iff "running" s).0 same)
    | inr not2 ↦ elim (Bool-cases (str_eq "completed" s)) [
      | inl same ↦ (External.completed, (eq_iff "completed" s).0 same)
      | inr not3 ↦ elim (Bool-cases (str_eq "failed" s)) [
        | inl same ↦ (External.failed, (eq_iff "failed" s).0 same)
        | inr not4 ↦ elim (Bool-cases (str_eq "cancelled" s)) [
          | inl same ↦ (External.cancelled, (eq_iff "cancelled" s).0 same)
          | inr not5 ↦ absurd (cc (rw (not1, not2, not3, not4, not5) at h))
        ]
      ]
    ]
  ]
]

true_of_not : (b : Bool) → not b ≡ false → b ≡ true
true_of_not b h = ground (arith, h)

-- Every job on the page has the status that was asked for.
abbrev Shows : Option String → List ListItemData → Type 0
Shows none jobs = Unit
Shows (some s) jobs = All (λ (item : ListItemData). item.status ≡ some s) jobs

-- The query that the handler makes.
abbrev query_of : String → ℕ → ℕ → Option String → Option ℕ → Option ℕ → Query
query_of user_id page page_size status from to = record {
  user_id = user_id;
  status_filter = Option.bind status to_internal_set;
  job_state_filter = Option.bind status to_job_states;
  created_at_from = from;
  created_at_to = to;
  page = page;
  page_size = page_size;
}

-- A row that the query admits is shown with the status.
row_shown :
    (e : External) (s : String)
    → external_name e ≡ s
    → (q : Query) (db : Db) (j : Job) → AsksFor e q
    → base_where q db j ≡ true
    → shown j.state (latest_status j.job_id db) ≡ some s
row_shown e s named q db j asks h =
    let shown_for = is_text (external_name e) (shown j.state (latest_status j.job_id db)) in
    let late = not_after q.created_at_to j.created_at && shown_for in
    let early = not_before q.created_at_from j.created_at && late in
    let admitted : (str_eq j.user_id q.user_id && early) ≡ true =
      sym (base_where-shown e q db j asks) ∙ h in
    text_shown (external_name e) _ (
      &&-right (not_after q.created_at_to j.created_at) shown_for (
        &&-right (not_before q.created_at_from j.created_at) late
          (&&-right (str_eq j.user_id q.user_id) early admitted)))
    ∙ ap some named

list_data-Shows :
    (user_id : String) (page page_size : ℕ) (status : Option String) (from to : Option ℕ) (db : Db)
    → is_bad_status status ≡ false
    → Shows status (list_data (list_jobs (query_of user_id page page_size status from to) db)).jobs
unfolding list_jobs Option.bind
list_data-Shows user_id page page_size none from to db valid = tt
list_data-Shows user_id page page_size (some s) from to db valid =
    let q = query_of user_id page page_size (some s) from to in
    let named = external_named s (true_of_not (is_external s) valid) in
    All-in_map _ item_data _ (
      All-in_map _ _ (page_rows q db) (
        All-map (page_rows q db)
          (λ j h.
            row_shown named.0 s named.1 q db j
              (ap to_internal_set (sym named.1), ap to_job_states (sym named.1)) h.1)
          (list_jobs_page q db).1))

-- What an answer says.
abbrev IsPage : Option String → Envelope ListData → Type 0
IsPage status (failure body) = body.code ≡ Code.user_input
IsPage status (success page) =
    (1 ≤ page.page)
    × (1 ≤ page.page_size)
    × (page.page_size ≤ 100)
    × (length page.jobs ≡ min page.page_size (page.total - (page.page - 1) * page.page_size))
    × Shows status page.jobs

list_range-IsPage :
    (user_id : String) (page page_size : ℕ) (status : Option String) (from to : Option (Option ℕ))
    (db : Db)
    → is_bad_status status ≡ false
    → 1 ≤ page
    → 1 ≤ page_size
    → page_size ≤ 100
    → IsPage status (list_range user_id page page_size status from to db)
unfolding list_range list_jobs
list_range-IsPage user_id page page_size status none to db valid a b c = refl
list_range-IsPage user_id page page_size status (some from) none db valid a b c = refl
list_range-IsPage user_id page page_size status (some from) (some to) db valid a b c =
    let q = query_of user_id page page_size status from to in
    (
      a,
      b,
      c,
      length-map item_data (list_jobs q db).items ∙ (list_jobs_page q db).0,
      list_data-Shows user_id page page_size status from to db valid,
    )

-- An error of task.list is USER_INPUT; a success has a page of at least 1 and a page size from 1 to
-- 100, as many jobs as the total leaves for the page, and, where a status was asked for, every job
-- on it is shown with that status.
handle_task_list-IsPage :
    (from_iso : String → Option IsoTime) (user_id : String) (arguments : ListArguments) (db : Db)
    → IsPage arguments.status (handle_task_list from_iso user_id arguments db)
unfolding handle_task_list
handle_task_list-IsPage from_iso user_id arguments db =
    let page = int_or 1 arguments.page in
    let page_size = int_or 20 arguments.page_size in
    elim (Bool-cases (ltb page 1)) [
      | inl low ↦ rw low refl
      | inr a ↦ elim (Bool-cases (ltb page_size 1)) [
        | inl small ↦ rw (a, small) refl
        | inr b ↦ elim (Bool-cases (ltb 100 page_size)) [
          | inl large ↦ rw (a, b, large) refl
          | inr c ↦ elim (Bool-cases (is_bad_status arguments.status)) [
            | inl bad ↦ rw (a, b, c, bad) refl
            | inr valid ↦
                rw (a, b, c, valid)
                  (list_range-IsPage user_id page page_size arguments.status _ _ db valid
                    (ground (arith, a)) (ground (arith, b)) (ground (arith, c)))
          ]
        ]
      ]
    ]
