-- ===== src/Lib.antt =====
-- The task scheduler: a durable scheduler of one-shot, recurring and chained jobs, driven over MCP,
-- with PostgreSQL as its store and a queue between the workers.
--
-- The program's parts and how they meet. A job is a row of `jobs`, each of its executions a row of
-- `job_runs`, and every change of a run's status an event in the outbox `run_events`. The watcher
-- moves due PENDING runs to QUEUED and publishes them; the executor claims a run from its message,
-- runs the job's action and writes the outcome; the reconciler's sweeps recover runs that a worker, a
-- queue or a dead-letter queue has lost; the continuation consumer reads the terminal events and
-- creates the next run of a recurring job and the runs of the jobs that a job triggers. The lifecycle
-- `Job.state` is settled by the executor and the consumer and ended by a cancel.
--
-- The files, with the source that each models:
--   Common         shared names, Boolean tests, lists and counts over them
--   Store          app/db/models.py: the rows, the tables, the unique indexes' comparisons
--     Session      a block of statements in a transaction: state, errors, savepoints
--     Replay, WellFormed, Batch, Keeps   the invariant of the tables and what keeps it
--   Materializer   app/domain/run_materializer.py and `next_after` of app/config/cron.py
--   Chain          app/domain/chain_validation.py
--   Text           Python's methods on texts, by code points
--   Config         app/config/: Cron (`validate_cron_expr`), Timezone (timezone_resolver.py)
--   Jobs           app/domain/jobs.py: Create (`create_job`), Settle (`settle_job`, `settle_check`,
--                  `_settle_downstreams`), View (`get_job_with_runs`), Cancel (`cancel_job`), Listing
--                  (`list_jobs`)
--   Workers        app/workers/: Watcher (watcher.py), Executor (executor.py), Reconciler
--                  (reconciler.py), Continuation (recurring_watcher.py)
--   Mcp            app/mcp/: Envelope (envelope.py, errors.py), TaskCreate (`_handle_task_create` of
--                  server.py), Handlers (handlers/), Resources (resources/ and
--                  `list_jobs_resource`), StatusMapping (status_mapping.py)
--   Actions        app/actions/: SendDedup (send_dedup.py, `begin` is `begin_send`), EmailSend
--                  (email_send.py), SlackPost (slack_post.py), GithubDigest (github_digest.py),
--                  HttpCall (http_call.py), CalendarDigest (calendar_digest_ics.py), R2Upload
--                  (r2_upload.py), OAuthToken (the check of a connection that actions share), and
--                  UpstreamReader (app/chain/upstream_reader.py)
--   Connections    KmsEnvelope (app/crypto/kms_envelope.py), Store (app/connections/store.py),
--                  Preflight (app/actions/_oauth.py and `_check_oauth_connection` of app/mcp/server.py)
--   Secrets        app/secrets/: LiteralDetection, Resolver, over the documents of Json
--   Limits         app/quotas/containment.py (Containment) and app/ratelimit/checker.py (RateLimit)
--   Llm            app/llm/: Budget (budget.py), PromptGuard (prompt_guard.py); app/actions/: Summarize
--                  (llm_summarize.py), Polish (llm_polish.py)
--   Overload       app/overload/health.py: Health, and Limiter (`acquire` is `enter` and `leave`)
--   Auth           app/auth/: Posture (posture.py), TokenValidation (token_validation.py)
--   Http           app/entrypoints/mcp_http.py: `call` is `__call__` of the endpoint
--   Web            app/web/connections.py: Session (the cookie), Login (WorkOS), OAuth (the providers)
--   Ics            app/ics/parser.py
--   Obs            app/obs/logging.py: Redaction, Queue
--   Examples       the theorems at concrete tables
-- An operation keeps its name, without a leading underscore. Children of a module hold its theorems.
--
-- How the code is read. Instants are microseconds. A transaction is a function on the tables that
-- answers the new tables or raises; its statements see no other session's commits, except where a
-- function takes them as an argument (`others` in `cancel_job`, `meanwhile` in `dispatch`). A tick of the watcher
-- has two instants: `now`, which it reads first, and `sent_at`, when it sends after its commit. Rows that
-- SKIP LOCKED leaves out and sends that the queue refuses are arguments. The recursion of
-- `settle_check` has fuel, which stands for the interpreter's stack: more fuel than there are active
-- jobs is enough, since each level below completes one. croniter and zoneinfo are the parameter
-- `Calendar`, `datetime.fromisoformat` and zone offsets a `Clock`; an action and its params model are a
-- `Handler`; KMS and AES-GCM are a `Crypto`, the answer of a mail provider a `Response`. Texts of errors
-- are data with their arguments, or left out in the envelopes; a JSON document is its text. PyJWT is the
-- parameter `Jwt` for the bearer tokens and `SessionJwt` for the session cookie, icalendar and rrulestr
-- are what a parse finds in the calendar, and the answers of WorkOS, Slack, GitHub, R2 and of a fetched
-- URL are arguments. The whitelist of template variables is made of the environment, as the
-- source makes it. The loops over the pages of GitHub have fuel, one unit for each request, which is
-- enough where there are fewer items than a hundred for each unit. A session
-- that is closed without a commit loses what it wrote (`close` in Connections/Store). The checks of
-- `task.create` and its insert see the same tables: no other session writes between them.
--
-- Not modelled: the action echo and the registry (a dictionary), the queue client, the settings, the
-- texts of the pages, of the mails and of the prompts, the revocation of tokens at a provider, whose
-- failures are ignored, the transport, the metadata and the health routes of the endpoint, the
-- formatter and the thread of the log, the polling loops, migrations and scripts (I/O and texts).
pub mod Common
pub mod Secrets
pub mod Store
pub mod Materializer
pub mod Chain
pub mod Jobs
pub mod Workers
pub mod Mcp
pub mod Overload
pub mod Actions
pub mod Limits
pub mod Llm
pub mod Text
pub mod Config
pub mod Connections
pub mod Auth
pub mod Http
pub mod Web
pub mod Obs
pub mod Ics
pub mod Examples
