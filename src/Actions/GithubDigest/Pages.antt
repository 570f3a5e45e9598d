-- ===== src/Actions/GithubDigest/Pages.antt =====
-- The loops over pages, against a server that lists all items in pages of a hundred.
use task_scheduler_mcp.Store.{hour}
use mathlib.Core.List.{append-nil, append_assoc}
use task_scheduler_mcp.Actions.GithubDigest.{
  has_label, issue_item, is_stale, add_labels, issues_of, pr_item, query_labels, Labels, IssueItem,
  collect_prs, query_prs, query_each, append_items, PullRequests, Item, Reply, replied, paged,
  paginate, after_reply, classify_error,
}
use task_scheduler_mcp.Common.{
  leb, ◌/◌, ◌-◌, eq_iff, true, false, if◌then◌else◌, exists, some, Option, take-fits,
  take-append-drop, drop-drop, length-append, length-take-min, not, str_eq, select, map, String,
  Bool, ltb-le, length-drop, ltb-lt, ℕ, zero, suc, ◌+◌, ◌*◌, ◌<◌, ◌≡◌, refl, sym, ap, ◌∙◌, inl, inr,
  none, List, [], ◌∷◌, ◌++◌, arith, ltb, Bool-cases, length, take, drop, length-take,
}

-- A page of a server that has these items.
abbrev pub page_of : List Item → ℕ → List Item
page_of all p = take 100 (drop (p * 100) all)

-- What the API documents: pages count from one, and a page is full but for the last.
abbrev pub Serves : (ℕ → Reply) → List Item → Type 0
Serves pages all = (p : ℕ) → pages (p + 1) ≡ replied 200 none (page_of all p)

module _ {S : Type 0} (collect : List Item → S → S) (collect_nil : (s : S) → collect [] s ≡ s)
    (collect_append : (xs ys : List Item) (s : S)
      → collect (xs ++ ys) s ≡ collect ys (collect xs s))
    (pages : ℕ → Reply) (all : List Item) (serves : Serves pages all) where
  paginate_from :
      (fuel p : ℕ) (s : S)
      → length (drop (p * 100) all) < fuel * 100
      → paginate collect pages fuel (p + 1) s ≡ paged (collect (drop (p * 100) all) s)
  unfolding paginate classify_error
  paginate_from zero p s h = absurd (omega arith)
  paginate_from (suc fuel) p s h =
      let rest : List Item = drop (p * 100) all in
      elim (Bool-cases (ltb (length (take 100 rest)) 100)) [
        | inl short ↦
            rw (paginate, serves p, after_reply, short)
              (ap (λ xs. paged (collect xs s))
                (take-fits 100 rest (
                  omega
                    (arith, length-take-min 100 rest, ltb-lt (length (take 100 rest)) 100 short))))
        | inr full ↦
            let next : drop ((p + 1) * 100) all ≡ drop 100 rest =
              (let e : (p + 1) * 100 ≡ p * 100 + 100 = omega arith in
                rw e (sym (drop-drop 100 (p * 100) all))) in
            rw (paginate, serves p, after_reply, full)
              (paginate_from fuel (p + 1) (collect (take 100 rest) s) (
                  rw next (
                    omega (
                      arith,
                      length-drop 100 rest,
                      ltb-le (length (take 100 rest)) 100 full,
                      length-take 100 rest,
                      length-take-min 100 rest,
                    )))
                ∙ rw next (
                    ap paged (
                      sym (collect_append (take 100 rest) (drop 100 rest) s)
                      ∙ ap (λ xs. collect xs s) (take-append-drop 100 rest))))
      ]

  -- The loop gets every item once and ends.
  paginate_lem :
      (fuel : ℕ) (s : S)
      → length all < fuel * 100
      → paginate collect pages fuel 1 s ≡ paged (collect all s)
  paginate_lem fuel s h = paginate_from fuel 0 s h

module _ {ℓ κ} {A : Type ℓ} {B : Type κ} (f : A → B) (p : A → Bool) where
  map-select-append :
      (xs ys : List A) → map f (select p (xs ++ ys)) ≡ map f (select p xs) ++ map f (select p ys)
  map-select-append [] ys = refl
  map-select-append (x ∷ xs) ys = elim (Bool-cases (p x)) [
    | inl own ↦ rw own (ap (λ zs. f x ∷ zs) (map-select-append xs ys))
    | inr other ↦ rw other (map-select-append xs ys)
  ]

-- All pull requests, counted, and those that are stale.
abbrev pub all_prs : ℕ → ℕ → List Item → PullRequests
all_prs now stale_days all = record {
  open_count = length all;
  stuck =
      map
        (λ (i : Item). record {
          number = i.number;
          title = i.title;
          url = i.html_url;
          stale_days = (now - i.updated_at) / (24 * hour);
        })
        (select (λ (i : Item). leb (i.updated_at + stale_days * (24 * hour)) now) all);
}

collect_prs-append :
    (now stale_days : ℕ) (xs ys : List Item) (prs : PullRequests)
    → collect_prs now stale_days (xs ++ ys) prs
      ≡ collect_prs now stale_days ys (collect_prs now stale_days xs prs)
collect_prs-append now stale_days xs ys prs =
    let counted : prs.open_count + length (xs ++ ys) ≡ prs.open_count + length xs + length ys =
      omega (arith, length-append xs ys) in
    let found =
      ap (λ zs. prs.stuck ++ zs) (map-select-append (pr_item now) (is_stale now stale_days) xs ys)
      ∙ sym (
          append_assoc prs.stuck (map (pr_item now) (select (is_stale now stale_days) xs))
            (map (pr_item now) (select (is_stale now stale_days) ys))) in
    rw (counted, found) refl

collect_prs-nil :
    (now stale_days : ℕ) (prs : PullRequests) → collect_prs now stale_days [] prs ≡ prs
collect_prs-nil now stale_days prs =
    let counted : prs.open_count + 0 ≡ prs.open_count = omega arith in
    rw (counted, append-nil prs.stuck) refl

append_items-append :
    (label : String) (xs ys : List IssueItem) (found : Labels)
    → append_items label (xs ++ ys) found ≡ append_items label ys (append_items label xs found)
unfolding append_items
append_items-append label xs ys [] = refl
append_items-append label xs ys ((l, items) ∷ found) = elim (Bool-cases (str_eq l label)) [
  | inl own ↦
      rw (append_items, own, own) (ap (λ zs. (l, zs) ∷ found) (sym (append_assoc items xs ys)))
  | inr other ↦
      rw (append_items, other, other)
        (ap (λ r. (l, items) ∷ r) (append_items-append label xs ys found))
]

append_items-nil : (label : String) (found : Labels) → append_items label [] found ≡ found
unfolding append_items
append_items-nil label [] = refl
append_items-nil label ((l, items) ∷ found) = elim (Bool-cases (str_eq l label)) [
  | inl own ↦ rw (append_items, own) (ap (λ zs. (l, zs) ∷ found) (append-nil items))
  | inr other ↦ rw (append_items, other) (ap (λ r. (l, items) ∷ r) (append_items-nil label found))
]

-- The issues of each label in turn, under its key.
abbrev pub append_each : (String → List Item) → List String → Labels → Labels
append_each all [] found = found
append_each all (label ∷ labels) found =
    append_each all labels (append_items label (issues_of (all label)) found)

query_each_lem :
    (fuel : ℕ) (issues : String → ℕ → Reply) (all : String → List Item) (labels : List String)
    (found : Labels)
    → ((label : String) → Serves (issues label) (all label))
    → ((label : String) → length (all label) < fuel * 100)
    → query_each fuel issues labels found ≡ paged (append_each all labels found)
unfolding query_each
query_each_lem fuel issues all [] found serves enough = refl
query_each_lem fuel issues all (label ∷ labels) found serves enough =
    rw
      (
        query_each,
        paginate_lem (λ items. append_items label (issues_of items)) (append_items-nil label)
            (λ xs ys s.
              ap (λ zs. append_items label zs s)
                (map-select-append issue_item (λ (i : Item). not i.is_pull_request) xs ys)
              ∙ append_items-append label (issues_of xs) (issues_of ys) s)
            (issues label) (all label) (serves label) fuel found (enough label),
      )
      (query_each_lem fuel issues all labels (append_items label (issues_of (all label)) found)
        serves enough)

-- The issues among the items of a list.
abbrev pub issues_in : List Item → List IssueItem
issues_in items =
    map (λ (i : Item). record { number = i.number; title = i.title; url = i.html_url })
      (select (λ (i : Item). not i.is_pull_request) items)

-- What stands under a key.
unfoldable pub items_under : String → Labels → Option (List IssueItem)
items_under label [] = none
items_under label ((l, items) ∷ found) =
    if str_eq l label then some items else items_under label found

abbrev pub repeated : ℕ → List IssueItem → List IssueItem
repeated zero items = []
repeated (suc n) items = items ++ repeated n items

abbrev pub times : String → List String → ℕ
times label [] = 0
times label (l ∷ labels) =
    let rest = times label labels in if str_eq l label then suc rest else rest

under-end :
    (label l : String) (found : Labels)
    → items_under label (found ++ (l, []) ∷ [])
      ≡ elim (items_under label found) as (λ _. Option (List IssueItem)) [
        | some items ↦ some items
        | none ↦ if str_eq l label then some [] else none
      ]
unfolding items_under
under-end label l [] = refl
under-end label l ((k, items) ∷ found) = elim (Bool-cases (str_eq k label)) [
  | inl own ↦ rw (items_under, own) refl
  | inr other ↦ rw (items_under, other) (under-end label l found)
]

-- A key that is there keeps its items.
add_labels-keeps :
    (label : String) (items : List IssueItem) (labels : List String) (found : Labels)
    → items_under label found ≡ some items
    → items_under label (add_labels labels found) ≡ some items
unfolding add_labels
add_labels-keeps label items [] found there = there
add_labels-keeps label items (l ∷ labels) found there = elim (Bool-cases (has_label l found)) [
  | inl old ↦ rw (add_labels, old) (add_labels-keeps label items labels found there)
  | inr new ↦
      rw (add_labels, new)
        (add_labels-keeps label items labels (found ++ (l, []) ∷ [])
          (under-end label l found ∙ rw there refl))
]

-- A key that is not there is no label of the list.
no_label :
    (label : String) (found : Labels)
    → items_under label found ≡ none
    → has_label label found ≡ false
unfolding items_under
no_label label [] h = refl
no_label label ((l, items) ∷ found) h = elim (Bool-cases (str_eq l label)) [
  | inl own ↦ absurd (cc (rw (items_under, own) at h))
  | inr other ↦ rw other (no_label label found (rw (items_under, other) at h))
]

-- Each label asked for has its key, with nothing under it yet.
add_labels-has :
    (label : String) (labels : List String) (found : Labels)
    → items_under label found ≡ none
    → exists (λ l. str_eq l label) labels ≡ true
    → items_under label (add_labels labels found) ≡ some []
unfolding add_labels
add_labels-has label [] found absent asked = absurd (cc asked)
add_labels-has label (l ∷ labels) found absent asked = elim (Bool-cases (str_eq l label)) [
  | inl own ↦
      let same : l ≡ label = (eq_iff l label).0 own in
      let new : has_label l found ≡ false = rw same (no_label label found absent) in
      rw (add_labels, new)
        (add_labels-keeps label [] labels (found ++ (l, []) ∷ [])
          (under-end label l found ∙ rw (absent, own) refl))
  | inr other ↦ elim (Bool-cases (has_label l found)) [
    | inl old ↦ rw (add_labels, old) (add_labels-has label labels found absent (rw other at asked))
    | inr new ↦
        rw (add_labels, new)
          (add_labels-has label labels (found ++ (l, []) ∷ [])
            (under-end label l found ∙ rw (absent, other) refl) (rw other at asked))
  ]
]

under-append_items :
    (label l : String) (items xs : List IssueItem) (found : Labels)
    → items_under label found ≡ some xs
    → items_under label (append_items l items found)
      ≡ some (if str_eq l label then xs ++ items else xs)
unfolding items_under append_items
under-append_items label l items xs [] there = absurd (cc there)
under-append_items label l items xs ((k, ys) ∷ found) there = elim (Bool-cases (str_eq k l)) [
  | inl here ↦
      let same : k ≡ l = (eq_iff k l).0 here in
      elim (Bool-cases (str_eq k label)) [
        | inl own ↦
            let it : ys ≡ xs = let e = rw (items_under, own) at there in cc e in
            rw (append_items, here, items_under, own, sym same, own, it) refl
        | inr other ↦
            rw (append_items, here, items_under, other, sym same, other)
              (rw (items_under, other) at there)
      ]
  | inr away ↦ elim (Bool-cases (str_eq k label)) [
    | inl own ↦
        let it : ys ≡ xs = let e = rw (items_under, own) at there in cc e in
        let apart : str_eq l label ≡ false =
          ground (arith, own, away, eq_iff k l, eq_iff l label, eq_iff k label) in
        rw (append_items, away, items_under, own, apart, it) refl
    | inr other ↦
        rw (append_items, away, items_under, other)
          (under-append_items label l items xs found (rw (items_under, other) at there))
  ]
]

append_each-under :
    (all : String → List Item) (label : String) (labels : List String) (xs : List IssueItem)
    (found : Labels)
    → items_under label found ≡ some xs
    → items_under label (append_each all labels found)
      ≡ some (xs ++ repeated (times label labels) (issues_in (all label)))
append_each-under all label [] xs found there = there ∙ ap some (sym (append-nil xs))
append_each-under all label (l ∷ labels) xs found there = elim (Bool-cases (str_eq l label)) [
  | inl own ↦
      let same : l ≡ label = (eq_iff l label).0 own in
      append_each-under all label labels (xs ++ issues_in (all l))
        (append_items l (issues_of (all l)) found)
        (under-append_items label l (issues_of (all l)) xs found there ∙ rw own refl)
      ∙ rw (own, same)
          (ap some (
            append_assoc xs (issues_in (all label))
              (repeated (times label labels) (issues_in (all label)))))
  | inr other ↦
      append_each-under all label labels xs (append_items l (issues_of (all l)) found)
        (under-append_items label l (issues_of (all l)) xs found there ∙ rw other refl)
      ∙ rw other refl
]

-- The paging loops end: against a server that lists its items in full pages of a hundred but for
-- the last, with fuel for one request more than there are full pages, the pull requests are all
-- counted and those that are stale all listed, each once, and every label asked for has its key,
-- with the server's issues for it, in their order and without the pull requests, as often as the
-- label is asked for.
pub query_prs-all :
    (fuel now stale_days : ℕ) (pulls : ℕ → Reply) (prs : List Item) (issues : String → ℕ → Reply)
    (all : String → List Item) (labels : List String) (label : String)
    → Serves pulls prs
    → length prs < fuel * 100
    → ((label : String) → Serves (issues label) (all label))
    → ((label : String) → length (all label) < fuel * 100)
    → exists (λ l. str_eq l label) labels ≡ true
    → (query_prs fuel now stale_days pulls ≡ paged (all_prs now stale_days prs))
      × (found : Labels) × (query_labels fuel issues labels ≡ paged found)
      × (items_under label found ≡ some (repeated (times label labels) (issues_in (all label))))
unfolding query_prs query_labels items_under
query_prs-all fuel now stale_days pulls prs issues all labels label serves enough serve_labels
      enough_labels asked =
    (
      paginate_lem (collect_prs now stale_days) (collect_prs-nil now stale_days)
            (collect_prs-append now stale_days) pulls prs serves fuel
            (record { open_count = 0; stuck = [] }) enough
          ∙ (let same : 0 + length prs ≡ length prs = omega arith in rw same refl),
      append_each all labels (add_labels labels []),
      query_each_lem fuel issues all labels (add_labels labels []) serve_labels enough_labels,
      append_each-under all label labels [] (add_labels labels [])
          (add_labels-has label labels [] refl asked),
    )
