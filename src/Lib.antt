-- ===== src/Lib.antt =====
-- TaskFire: the API server of a distributed job queue.
--
-- A client submits jobs over HTTP. The API server (api/src) keeps each job as a row of the table `jobs`
-- in PostgreSQL and as a member of a sorted set in Redis; workers take members from the sets and write
-- what became of them into the table. The two stores are joined by nothing but the handlers, which call
-- one after the other.
--
-- Files:
-- - Job and its children: api/src/types/job.ts, the types, the priorities and the request schemas. The
--   parser of the zod package is a parameter; it lets through only what the schemas allow.
-- - Postgres/Row and Postgres/Table: a row of postgres/init.sql, `rowToJob`, and the SQL statements as
--   functions of the table, with the primary key, the CHECK and the trigger.
-- - Postgres/Session: `query`, `withTransaction` and `connectPostgresWithRetry` of
--   api/src/services/postgres.ts; World/Retry is the loop that it shares with
--   Redis/Connect. The pool is the number of clients that it has handed out; an open transaction is its
--   state and the function that its writes are on the committed table. A statement that is refused or
--   whose call rejects aborts the transaction, and a COMMIT whose call rejects may have been carried
--   out.
-- - Postgres/Jobs, Postgres/Listing, Postgres/Logs: the queries of the same file on jobs.
-- - Postgres/Update: the clauses that `updateJobStatus` builds.
-- - Redis/Member, Redis/Server: what the sets hold, and the server's commands as a parameter with their
--   documented laws.
-- - Redis/Queue: lanes, enqueueing, depths and removal of api/src/services/redis.ts. Redis/Queue/Held and
--   Routes/Jobs/Held: whether a job is in a queue that leads to its run.
-- - Redis/Connect: `connectRedisWithRetry` of the same file.
-- - Redis/DeadLetters: `getDLQJobs` and `getProcessingJobs` of the same file.
-- - Postgres/Metrics and Postgres/Average: `getStatusCounts`, `getMetrics` and `getAvgProcessingMs`.
-- - Postgres/Throughput and Postgres/Active: `getThroughput`, with its grouping by the minute, and
--   `getActiveJobs`.
-- - Routes/Metrics: GET /summary, GET /dead-letter, GET /throughput and GET /workers of
--   api/src/routes/metrics.ts.
-- - Routes/Reply, Routes/Jobs: the replies and the six handlers of api/src/routes/jobs.ts, and the error
--   handler of api/src/index.ts.
--   Routes/Jobs/Service is an abstract service on a map from ids to rows, which Routes/Jobs/Refinement
--   compares with the handlers; the Alone files say what each call leaves where calls may reject.
-- - Routes/Ready: GET /ready of api/src/index.ts.
-- - Process: `bootstrap` and `shutdown` of api/src/index.ts, with the functions of the services and of
--   api/src/websocket/handler.ts that start and stop what they hold.
-- - WebSocket: api/src/websocket/handler.ts, a machine whose events are the callbacks of the sockets,
--   the timers and the channel. The Map of clients is a list in insertion order.
--   WebSocket/Snapshot: where the payloads of its frames come from.
-- - Dashboard/Live: dashboard/src/hooks/useWebSocket.ts, a machine whose events are the callbacks of its
--   sockets and timers.
-- - Dashboard/Client: dashboard/src/api/client.ts, the requests, the query strings, the condition for
--   another attempt and the shape of errors; Dashboard/Client/Retries joins it with the replies of the
--   job routes.
-- - Dashboard/JobTable: dashboard/src/components/JobTable.tsx with what `useJobs` of
--   dashboard/src/hooks/useJobs.ts gives it, a machine of clicks, settled requests and answers;
--   Dashboard/JobTable/Details and View are what it renders, as data. Dashboard/Paging: its page buttons.
-- - Dashboard/DeadLetterPanel: dashboard/src/components/DeadLetterPanel.tsx, in the same way.
-- - Dashboard/Charts: what FailureRateChart, QueueDepthChart, ThroughputChart, WorkerUtilization and
--   MetricCard of dashboard/src/components compute; Dashboard/Charts/Views and WorkerView are what the
--   charts render, as data. Dashboard/Pages: dashboard/src/App.tsx with its sidebar.
-- - Async, World: an asynchronous function maps a world to an outcome, resolved or rejected, with the
--   world behind it. Every wait of the program is a numbered step; the environment says for each step
--   whether the call rejects and what other clients did to both stores meanwhile.
-- - Prelude: the names that the files share. Tests: instances of the parameters and the results at
--   concrete inputs.
--
-- Dates are natural numbers of milliseconds. The texts of log details are kept as the values that they
-- are made of.
--
-- What the model takes from the two servers more simply than they are: outside the COMMIT, a call that
-- rejects has not changed a store; ids are compared as texts, in the lower-case form that PostgreSQL
-- gives a UUID, where its own comparison ignores the case; the numbers of LIMIT and OFFSET and the ranks
-- of the sets have no upper bound, where the servers refuse those beyond 64 bits; a client that goes
-- back to the pool with a transaction left open is not handed out again. The calls of a `Promise.all`
-- come one after the other, and the reply waits for all of them, also where the first rejects.
--
-- Bounds and fuel: `removeFromQueue` loops until the server's cursor is 0, so its model takes fuel for
-- the rounds. The law of ZSCAN gives the rounds of a full iteration of a set that nobody changes, and
-- fuel for these is enough. The loop of the two connection functions recurs on the attempts that are
-- left.
--
-- In the components of the dashboard a click on a button that is not shown, or shown disabled, does
-- nothing, and an event comes after the render that the one before it caused. What React, react-query,
-- axios and recharts do with the values is theirs; class names, icons and the local format of dates and
-- numbers are left out.
--
-- Not modelled: the Go worker, which stands in the environment, GET /health, the answer for unknown
-- routes, the options of the plugins, the registration of the signal handlers, and the messages of the
-- pub/sub connection itself; of the dashboard, the animation of the counters.
pub mod Prelude
pub mod Async
pub mod Json
pub mod Job
pub mod Postgres
pub mod World
pub mod Redis
pub mod Routes
pub mod WebSocket
pub mod Dashboard
pub mod Process
pub mod Tests
