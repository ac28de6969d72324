-- ===== src/Lib.antt =====
-- The background services of telegram-osint as executable functions, with the theorems that make them
-- correct.
--
-- Conventions. Row identifiers (UUIDs) and Telegram ids are only compared, so natural numbers stand for
-- them. A table is an association list from the primary key (Base/Dict.antt). A call that raises is a
-- `Result`; a session that rolls back returns the table it was given. Times are ticks of a clock that is
-- an argument.
--
-- Jobs (database/models/job.py, database/repositories/jobs.py, workers/queue.py, workers/runner.py):
-- Jobs/State.antt has the row and its states, Jobs/Repository.antt `create` and `transition`,
-- Jobs/Queue.antt the in-memory queue, Jobs/Runner.antt the worker's turn on one job.
--
-- Rate limiting (security/ratelimit.py, apps/api/security.py): RateLimit.antt has the limiter, `enforce`
-- and the dependency of the API; RateLimit/Hits.antt runs it on sequences of hits.
--
-- Bot (apps/bot/auth.py, apps/bot/quota.py, apps/bot/guard.py, database/repositories/users.py):
-- Bot/Principal.antt, Bot/Users.antt and Bot/Quota.antt have who a user is, the rows and the quota,
-- Bot/Start.antt what the handlers write to the users (apps/bot/handlers/common.py), and Bot/Guard.antt the
-- wrapper round every handler, which is built from these and the limiter.
--
-- Graph (database/repositories/relationships.py, intelligence/entity_resolution/resolver.py,
-- intelligence/relationships/graph.py): Graph/Edges.antt has the rows and `observe`, Graph/Neighbours.antt
-- `neighbours`, Graph/Merge.antt `merge_entities`, Graph/Traversal.antt the bounded view. Its loop runs on
-- fuel, a turn for every seed and for a hundred edges of every node that the cap allows.
--
-- Confidence (intelligence/confidence/engine.py): Confidence/Engine.antt has the signals and the score, over
-- an interface of text functions.
--
-- Collectors (collectors/common/http.py, collectors/common/interfaces.py): Collect/Http.antt has the guarded
-- fetcher over an interface of the network, whose loop counts down the redirects that are left, and
-- Collect/Collector.antt `validate` and `run` of a collector.
--
-- Monitoring (intelligence/monitoring.py): Monitor/Poll.antt has the poll of a watchlist entry on what the
-- collectors found, its marker, and the entries that are due.
--
-- Timeline (intelligence/timeline/builder.py): Timeline/Events.antt collects the events of an entity or of a
-- target and builds the timeline, by the stable sort of Base/Sorting.antt.
--
-- Workspace (database/repositories/investigations.py, investigation_repo.py): one file for each of the tables
-- that belong to users, over the queries of Workspace/Rows.antt; Workspace/Commands.antt gathers the writes
-- of all of them into commands of a user.
--
-- Scheduler (workers/scheduler.py): Schedule/Ticks.antt is one tick, which makes the jobs of the watchlist
-- entries that are due and puts them in the queue. It is built from the watchlist of Monitor/Poll.antt, the
-- job table and the queue.
--
-- Indicators (intelligence/ioc/extract.py): Indicators/Matches.antt has the data, Indicators/Extract.antt the
-- scans of a text, over an interface of the regular expressions, and the removal of duplicates.
--
-- Investigation (intelligence/investigation): Investigation/Target.antt parses the target,
-- Investigation/Classify.antt classifies a message, Investigation/Observe.antt has the single steps and
-- Investigation/Service.antt the run, over the rows of Workspace/Investigations.antt and the extraction of
-- Indicators/Extract.antt.
--
-- Evidence (database/models/evidence.py, database/repositories/evidence.py, database/repositories/base.py):
-- Evidence/Observations.antt records an observation while other sessions add rows, Evidence/Guard.antt is the
-- guard before a flush. The evidence of Graph/Merge.antt and Timeline/Events.antt are the columns read there.
--
-- Entities (database/repositories/entities.py): Entities/Telegram.antt has the get_or_create of the three
-- Telegram entities.
--
-- Authentication (database/repositories/refresh_tokens.py, security/auth.py): Auth/Refresh.antt has the
-- refresh tokens, Auth/Access.antt the access tokens over an interface of JSON, base64 and HMAC.
--
-- How the parts interact: the bot's wrapper calls the limiter and then the quota; a worker's turn calls the
-- job table and the queue; the scheduler reads and stamps the watchlist that the poll writes, and fills the
-- job table and the queue; the traversal, the merge and the timeline read the rows that `observe` keeps; the
-- fetcher stands under every collector that fetches a page; an investigation calls the collectors, the
-- classifier and the extraction of indicators, and writes the rows of the workspace.
--
-- Not modelled: the wording of replies, reports and views, the routing of the API and of the bot, the
-- Redis-backed queue and limiter (calls of a client library), settings and logging, the declarations of the
-- other tables, the normalisers of database/normalize.py (Unicode text, through urllib and ipaddress), and for
-- now the ingestion, the target resolver, the search, the registry of collectors and the single collectors.
pub mod Base
pub mod Jobs
pub mod RateLimit
pub mod Auth
pub mod Bot
pub mod Graph
pub mod Confidence
pub mod Collect
pub mod Monitor
pub mod Timeline
pub mod Workspace
pub mod Schedule
pub mod Investigation
pub mod Indicators
pub mod Evidence
pub mod Entities
