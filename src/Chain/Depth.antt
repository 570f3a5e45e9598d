-- ===== src/Chain/Depth.antt =====
-- What a trigger that app/domain/chain_validation.py accepts is.
use task_scheduler_mcp.Chain.{
  first_ancestor, next_ancestor, max_chain_depth, max_depth, has_cycle, ancestors, Ancestor,
  validate_chain, ancestors_from,
}
use task_scheduler_mcp.Store.{is_active, job_of, Job, Db}
use task_scheduler_mcp.Store.Session.{◌>>=◌, ◌>>◌, ok, err, find_job, Result}
use task_scheduler_mcp.Common.{
  ℕ, zero, suc, ◌+◌, ◌≤◌, String, ◌≡◌, refl, sym, ap, inl, inr, Bool, true, false, ◌&&◌, Option,
  none, some, arith, str_eq, leb, Bool-cases, Option-cases, exists, head?-select,
}

-- The chain of triggers from `next` on has `n` jobs at least.
abbrev climbs : ℕ → Db → Option ℕ → Bool
climbs zero db next = true
climbs (suc n) db none = false
climbs (suc n) db (some k) = elim (find_job k db) [
  | none ↦ false
  | some j ↦ climbs n db j.trigger_on_job_id
]

-- Where the walk meets no cycle, its deepest row is as deep as the chain is long.
depth_reached :
    (n left : ℕ) (db : Db) (a : Ancestor)
    → n ≤ left
    → has_cycle (ancestors_from left db a) ≡ false
    → climbs n db a.next_id ≡ true
    → a.depth + n ≤ max_depth (ancestors_from left db a)
unfolding ancestors_from
depth_reached zero zero db a le open_walk h = omega arith
depth_reached zero (suc left) db a le open_walk h = omega arith
depth_reached (suc n) zero db a le open_walk h = absurd (omega (arith, le))
depth_reached (suc n) (suc left) db a le open_walk h = elim (Option-cases a.next_id) [
  | inl top ↦ absurd (cc (rw top at h))
  | inr (k, up) ↦ elim (Option-cases (find_job k db)) [
    | inl gone ↦ absurd (cc (rw (up, climbs, gone) at h))
    | inr (j, found) ↦ elim (Bool-cases a.is_cycle) [
      | inl cycle ↦ absurd (ground (arith, cycle, open_walk))
      | inr fresh ↦
          let h' : climbs n db j.trigger_on_job_id ≡ true = rw (up, climbs, found) at h in
          let open_rest : has_cycle (ancestors_from left db (next_ancestor a j)) ≡ false =
            rw (up, fresh, found) at open_walk in
          let ih = depth_reached n left db (next_ancestor a j) (omega (arith, le)) open_rest h' in
          rw (up, fresh, found) (omega (arith, ih))
    ]
  ]
]

-- A trigger that the rules admit.
pub record IsAdmitted (user_id : String) (trigger : ℕ) (db : Db) : Type 0 where
  pub own_active :
      exists
        (λ (j : Job). job_of trigger j && (str_eq j.user_id user_id && is_active j.state))
        db.jobs
      ≡ true
  pub short : climbs max_chain_depth db (some trigger) ≡ false

after : Db → Result (Unit {0} × Db) → Db
after db (ok (a, db')) = db'
after db (err e) = db

admitted :
    (db : Db) (trigger : ℕ) (j : Job)
    → find_job trigger db ≡ some j
    → has_cycle (ancestors_from (max_chain_depth + 1) db (first_ancestor j)) ≡ false
    → leb max_chain_depth (max_depth (ancestors_from (max_chain_depth + 1) db (first_ancestor j)))
      ≡ false
    → climbs max_chain_depth db (some trigger) ≡ false
admitted db trigger j found open_walk shallow =
    elim (Bool-cases (climbs 9 db j.trigger_on_job_id)) [
      | inr short ↦ rw (climbs, found) short
      | inl long ↦
          let deep = depth_reached 9 11 db (first_ancestor j) (omega arith) open_walk long in
          absurd (ground (arith, deep, shallow))
    ]

-- An accepted trigger is an active job of the user, the chain of triggers that starts at it has fewer
-- than ten jobs, itself included, and the check changes nothing.
pub validate_chain-IsAdmitted :
    (user_id : String) (trigger : ℕ) (db db' : Db)
    → validate_chain user_id trigger db ≡ ok (tt, db')
    → IsAdmitted user_id trigger db × (db' ≡ db)
unfolding validate_chain ancestors after
validate_chain-IsAdmitted user_id trigger db db' h = elim (Option-cases (find_job trigger db)) [
  | inl gone ↦ absurd (cc (rw (gone, ◌>>=◌, ◌>>◌) at h))
  | inr (j, found) ↦ elim (Bool-cases (str_eq j.user_id user_id)) [
    | inr other ↦ absurd (cc (rw (found, ◌>>=◌, ◌>>◌, other) at h))
    | inl own ↦ elim (Bool-cases (is_active j.state)) [
      | inr over ↦ absurd (cc (rw (found, ◌>>=◌, ◌>>◌, own, over) at h))
      | inl live ↦
          let h1 = rw (found, ◌>>=◌, ◌>>◌, own, live) at h in
          let rows = ancestors_from (max_chain_depth + 1) db (first_ancestor j) in
          let walk : ancestors trigger db ≡ rows = rw (found, ancestors) refl in
          let h2 = rw (◌>>=◌, ◌>>◌, walk) at h1 in
          elim (Bool-cases (has_cycle rows)) [
            | inl cycle ↦ absurd (cc (rw cycle at h2))
            | inr open_walk ↦ elim (Bool-cases (leb max_chain_depth (max_depth rows))) [
              | inl deep ↦ absurd (cc (rw (open_walk, ◌>>◌, ◌>>=◌, walk, deep) at h2))
              | inr shallow ↦
                  let same : db' ≡ db =
                    sym (ap (after db) (rw (open_walk, ◌>>◌, ◌>>=◌, walk, shallow) at h2)) in
                  (
                    record {
                      own_active =
                          head?-select (job_of trigger)
                            (λ i. str_eq i.user_id user_id && is_active i.state) db.jobs found
                            (ground (arith, own, live));
                      short = admitted db trigger j found open_walk shallow;
                    },
                    same,
                  )
            ]
          ]
    ]
  ]
]
