-- ===== src/Lib.antt =====
-- The news board of a community: managers publish posts and polls, members read them, vote
-- until a poll ends, and see results as a visibility matrix allows.
--
-- The program and its parts. A request passes the middleware that main.py stacks
-- (core/middleware): it turns the headers of the gateway into context variables, gives the
-- request an id, limits its size and time and picks its language. It then passes the
-- dependencies of the router in api/news/routes.py, which resolve the community and test its
-- subscription (core/security), and a handler, which calls one method of NewsService
-- (api/news/service.py). What is raised becomes a response in core/errors/handlers.py, with a
-- message from core/i18n.py. The service works on a session of the local database through
-- NewsRepository (api/news/repository.py), on a session of the CRM database for emails, the
-- audit trail (core/audit_log) and notifications (core/notifications), and after the commit on
-- Redis (core/realtime).
--
-- The files, by the code they model.
-- - Prelude, Prelude/*: tests, lists, integers, keys (`dict.fromkeys`, `in`), printing of
--   numbers and the string methods that the source calls.
-- - Exec: results, and stateful computations that may raise. Errors, Errors/Default:
--   core/errors/errors.py and shared/custom_errors.py. Const: shared/const.py. Context:
--   core/context_vars.py, with the clock.
-- - Local: shared/models/local_models.py and the session; Local/Repository,
--   Local/Repository/Scope, Votes: api/news/repository.py and core/database/with_community.py,
--   one function for each query, with the constraints and cascades of the tables.
--   Local/Consistency says what a well-formed database is; Local/Ballots, Lookup, Inserts,
--   Added, Accepted, Removed, Changed, Distinct, Sorted, Scoped, Grown and Board are lemmas on
--   the queries.
-- - Crm, Crm/Users: the CRM tables and shared/crm_repository.py. Audit:
--   core/audit_log/service.py.
-- - Realtime, Realtime/State, Realtime/Channels, Realtime/Message: core/realtime/bus.py,
--   channels.py and envelope.py; Realtime/Channels/Grammar reads a channel's name back, and
--   Realtime/Sent holds proofs.
-- - Notifications, Notifications/Dedupe, Repository, Service: core/notifications/contract.py,
--   dedupe.py, repository.py and service.py. Notifications/Preferences, Muted, Used, Delivered,
--   Outbound, Recipients, Hints and Service/Savepoint hold proofs.
-- - Security, Security/Dependencies, Security/Scope: core/security and
--   core/middleware/set_auth_context.py; Security/Highest holds proofs.
-- - World: what one request works on. News, News/*: api/news/service.py, with News/Schemas for
--   api/news/schemas.py and News/Mappers for api/news/mappers.py. Markdown: shared/markdown.py;
--   Markdown/Safe has the documentation of nh3 and a proof. News/Votes holds cast_vote and
--   retract_vote, News/Results get_results, News/Posts create_post and delete_post,
--   News/Updates update_post, News/Reads get_post and list_posts; the files below them, and
--   News/Edited, Updated, Deleted, Isolation, Effects, Audited, Pages, Shown and Preserved,
--   hold proofs. News/Votes/Refined has the box of ballots that specifies the votes. News/Races
--   has cast_vote and retract_vote of several requests at once, each in two steps, in the order
--   of a schedule; News/Races/Ready, Steps and Schedule hold the invariant of all schedules,
--   Alone, Progress and Isolated follow a caller with one request on a poll, and Beside and
--   Doubled two requests of one caller; News/Races/Parts shows that the two steps one after the
--   other are the whole operation. The jobs, the phases and the schedule stand for no code:
--   they are the model of the isolation of the database. News/Hinted and News/Passive hold
--   proofs on what leaves the board.
-- - Routes, Routes/Guards, Routes/Serve, Routes/Reachable: api/news/routes.py and
--   core/errors/with_default_error.py; Routes/Reachable has a step relation, one request
--   against what the last one committed.
-- - Http, Http/Translate, Handlers, Middleware, Main, Board: core/i18n.py,
--   core/errors/handlers.py, core/middleware, the stack of main.py, and the routes under it;
--   Http/Resolved, Limits and Answers hold proofs.
-- - Config: core/config.py, and the options of CORS and the documentation of main.py;
--   Config/Origins holds a proof. Telemetry, Telemetry/Tracing, Spans, Health: core/logging.py,
--   core/tracing.py, core/metrics.py and api/health/routes.py; Telemetry/Handlers holds proofs.
-- - Tests, Tests/*: the development at concrete data.
--
-- How state is modelled. A database is its tables as lists of rows in the order of insertion,
-- and a query without ORDER BY returns rows in that order. A session has the tables it works on
-- and those committed; it is dropped at the end of a request, so what is not committed is lost.
-- The local session also keeps the collections of options that its identity map has loaded,
-- since the sessions do not expire them on commit. The local database fails only where a
-- constraint is broken; each operation of the CRM database and of Redis fails where a list of
-- faults, an argument of the request, says so, and does not fail beyond its end. A request
-- reads the clock once. Requests that overlap share the committed tables: the engines keep the
-- default isolation of PostgreSQL, where a statement sees what is committed when it starts. A
-- vote is then two steps, its queries and checks and its writes with their commit, whose rows
-- are locked until the commit; the queries of one request see the same tables, and an identity
-- is not used twice. Identities are natural numbers. A datetime is the microseconds of its UTC
-- wall clock, naive or aware. No loop needs fuel: all run over lists.
--
-- A middleware is a function on applications. A run of an application has its outcome, the
-- state that it leaves, the time it takes, and the state at each moment at which it might be
-- cancelled.
--
-- A request that is cancelled has made its commit or has not, as an argument says for each
-- moment.
--
-- Parameters: FastAPI, as the call or the response that it makes of a request, and Starlette,
-- with what it documents of CORS and of exception handlers as the hypotheses of a record; the
-- Markdown renderer and the HTML sanitiser, of their configuration and a text, SHA-256, changes
-- of case, `int` of a text, JSON printing, random tokens, the catalogues under locales/, and
-- the matches of the header pattern of core/security/gateway_auth.py.
--
-- Not modelled: column widths and the timestamps of option and vote rows, requests that overlap
-- but for votes and retractions, how FastAPI parses a request into the arguments of a route,
-- the headers of a response but X-Request-ID, log lines but the one of core/realtime/bus.py,
-- the exporters of core/tracing.py, the migrations, and the wrapper
-- shared/helpers/parse_query_params.py.
pub mod Prelude
pub mod Errors
pub mod Exec
pub mod Config
pub mod Const
pub mod Markdown
pub mod Context
pub mod Local
pub mod Crm
pub mod Audit
pub mod Realtime
pub mod Security
pub mod Telemetry
pub mod World
pub mod Notifications
pub mod News
pub mod Http
pub mod Routes
pub mod Tests
