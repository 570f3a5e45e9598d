-- ===== src/Actions/GithubDigest.antt =====
-- app/actions/github_digest.py. GitHub's answers are parameters, by the label and the page; `now` is in
-- microseconds. The loops over pages have fuel, one for each request; `exhausted` stands for fuel that
-- has run out.
pub mod Pages
use task_scheduler_mcp.Actions.OAuthToken.{
  resolve_token, TokenAnswer, token_found, missing_connection, token_raised,
}
use task_scheduler_mcp.Connections.Store.{Rows, ConnectionStore}
use task_scheduler_mcp.Store.{hour}
use task_scheduler_mcp.Store.Session.{Error}
use task_scheduler_mcp.Common.{
  ℕ, zero, suc, ◌+◌, ◌-◌, ◌*◌, ◌/◌, String, Bool, true, false, not, ◌&&◌, Option, none, some, List,
  [], ◌∷◌, ◌++◌, map, str_eq, ltb, leb, ◌==◌, if◌then◌else◌, length, select, exists,
}

-- An issue or a pull request, as the API lists it.
pub record Item : Type 0 where
  pub number : ℕ
  pub title : String
  pub html_url : String
  pub is_pull_request : Bool
  pub updated_at : ℕ

pub record IssueItem : Type 0 where
  pub number : ℕ
  pub title : String
  pub url : String

pub record PrItem : Type 0 where
  pub number : ℕ
  pub title : String
  pub url : String
  pub stale_days : ℕ

pub data Reply : Type 0 where
  -- a timeout or a request error, which `execute` catches
  unreached : Reply
  replied : (status_code : ℕ) → (ratelimit_remaining : Option String) → List Item → Reply

pub data Paged {ℓ} (A : Type ℓ) : Type ℓ where
  paged : A → Paged A
  failed : (retryable : Bool) → Paged A
  exhausted : Paged A

abbrev remaining_of : Option String → String
remaining_of none = "1"
remaining_of (some s) = s

-- `none` for success, else whether a retry may help.
unfoldable pub classify_error : ℕ → Option String → Option Bool
classify_error status remaining =
    if leb 200 status && ltb status 300
    then none
    else if status == 401
    then some false
    else if status == 403
    then some (str_eq (remaining_of remaining) "0")
    else if status == 404
    then some false
    else if status == 422
    then some false
    else some (leb 500 status)

-- One loop over the pages: `collect` is what a page adds to what the loop has.
module _ {S : Type 0} (collect : List Item → S → S) (pages : ℕ → Reply) where
  abbrev pub after_reply : (S → Paged S) → Reply → S → Paged S
  unfolding classify_error
  after_reply next unreached s = failed true
  after_reply next (replied status remaining items) s = elim (classify_error status remaining) [
    | some retryable ↦ failed retryable
    | none ↦
        let more = next (collect items s) in
        if ltb (length items) 100 then paged (collect items s) else more
  ]

  unfoldable pub paginate : ℕ → ℕ → S → Paged S
  unfolding after_reply
  paginate zero page s = exhausted
  paginate (suc fuel) page s = after_reply (λ s'. paginate fuel (page + 1) s') (pages page) s

abbrev pub issue_item : Item → IssueItem
issue_item i = record { number = i.number; title = i.title; url = i.html_url }

-- The items of a page that are no pull requests.
abbrev pub issues_of : List Item → List IssueItem
issues_of items = map issue_item (select (λ (i : Item). not i.is_pull_request) items)

abbrev pub Labels : Type 0
Labels = List (String × List IssueItem)

-- `labels_result[label].append(...)` for the items of a page.
unfoldable pub append_items : String → List IssueItem → Labels → Labels
append_items label items [] = []
append_items label items ((l, found) ∷ labels) =
    let rest = append_items label items labels in
    if str_eq l label then (l, found ++ items) ∷ labels else (l, found) ∷ rest

abbrev has_label : String → Labels → Bool
has_label label labels = exists (λ (entry : String × List IssueItem). str_eq entry.0 label) labels

-- `{label: [] for label in params.labels}`: a key stands where it came first.
unfoldable pub add_labels : List String → Labels → Labels
add_labels [] found = found
add_labels (label ∷ labels) found =
    add_labels labels (if has_label label found then found else found ++ (label, []) ∷ [])

abbrev then_query : {A B : Type 0} → Paged A → (A → Paged B) → Paged B
then_query (paged a) next = next a
then_query (failed retryable) next = failed retryable
then_query exhausted next = exhausted

-- The loop over the labels.
unfoldable pub query_each : ℕ → (String → ℕ → Reply) → List String → Labels → Paged Labels
unfolding paginate append_items
query_each fuel issues [] found = paged found
query_each fuel issues (label ∷ labels) found =
    then_query
      (paginate (λ items. append_items label (issues_of items)) (issues label) fuel 1 found)
      (λ found'. query_each fuel issues labels found')

unfoldable pub query_labels : ℕ → (String → ℕ → Reply) → List String → Paged Labels
unfolding query_each add_labels
query_labels fuel issues labels = query_each fuel issues labels (add_labels labels [])

pub record PullRequests : Type 0 where
  pub open_count : ℕ
  pub stuck : List PrItem

abbrev pub is_stale : ℕ → ℕ → Item → Bool
is_stale now stale_days i = leb (i.updated_at + stale_days * (24 * hour)) now

abbrev pub pr_item : ℕ → Item → PrItem
pr_item now i = record {
  number = i.number;
  title = i.title;
  url = i.html_url;
  stale_days = (now - i.updated_at) / (24 * hour);
}

-- What a page of pull requests adds.
abbrev pub collect_prs : ℕ → ℕ → List Item → PullRequests → PullRequests
collect_prs now stale_days items prs = record {
  open_count = prs.open_count + length items;
  stuck = prs.stuck ++ map (pr_item now) (select (is_stale now stale_days) items);
}

unfoldable pub query_prs : ℕ → ℕ → ℕ → (ℕ → Reply) → Paged PullRequests
unfolding paginate
query_prs fuel now stale_days pulls =
    paginate (collect_prs now stale_days) pulls fuel 1 (record { open_count = 0; stuck = [] })

pub record GithubDigestParams : Type 0 where
  pub labels : List String
  pub pr_stale_days : ℕ

pub data DigestResult : Type 0 where
  digest : Labels → PullRequests → DigestResult
  refused : (retryable : Bool) → DigestResult
  missing : DigestResult
  raised : Error → DigestResult
  unfinished : DigestResult

-- What an execution reads; the answers depend on the token.
pub record GithubWorld : Type 0 where
  pub store : Option ConnectionStore
  pub connections : Rows
  pub draw : ℕ
  pub now : ℕ
  pub issues : (token label : String) → ℕ → Reply
  pub pulls : (token : String) → ℕ → Reply

abbrev by_prs : Labels → Paged PullRequests → DigestResult
by_prs labels (paged prs) = digest labels prs
by_prs labels (failed retryable) = refused retryable
by_prs labels exhausted = unfinished

abbrev by_labels : Paged Labels → Paged PullRequests → DigestResult
by_labels (paged labels) prs = by_prs labels prs
by_labels (failed retryable) prs = refused retryable
by_labels exhausted prs = unfinished

abbrev pub by_token : ℕ → GithubWorld → GithubDigestParams → TokenAnswer → DigestResult
unfolding query_labels query_prs
by_token fuel world params missing_connection = missing
by_token fuel world params (token_raised e) = raised e
by_token fuel world params (token_found token) =
    by_labels (query_labels fuel (world.issues token) params.labels)
      (query_prs fuel world.now params.pr_stale_days (world.pulls token))

unfoldable pub execute : ℕ → GithubWorld → GithubDigestParams → String → DigestResult
unfolding by_token resolve_token
execute fuel world params user_id =
    by_token fuel world params
      (resolve_token world.store world.draw world.now user_id "github" world.connections)
