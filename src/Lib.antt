-- ===== src/Lib.antt =====
-- crawler_lite: a model of crawler-lite, a master that queues crawl tasks in Postgres and hands them to
-- workers over gRPC streams, which run Python spiders and stream their output back.
--
-- Parts and files
--
--   Retry               internal/task/retry.go: RetryPolicy, PolicyFromSpiderConfig, Decide, backoffFor.
--                       Retry.Number has numberAsInt and the conversions between int64 and float64.
--   Spider              internal/spider/service.go, internal/repository/spiders.go and
--                       internal/api/spiders: Model has the row, Repo the statements, Service the
--                       operations, Handlers the endpoints; Spider.Source is Sync and
--                       zipDirExcludingGit of internal/gitsource/syncer.go.
--   Task.Model, .Repo   internal/task/service.go and internal/repository/tasks.go: the rows, and Create,
--                       Get, ListQueued and SetStatus on them.
--   Task.Service        Queue, OnUpdate and maybeScheduleRetry of internal/task/service.go.
--   Task.Dispatch       dispatchOnce and Cancel; Task.Assign has buildAssign.
--   Task.Handlers       the endpoints of internal/api/tasks: Handlers reads, queues and cancels a task,
--                       Listing lists tasks, Outputs has items, screenshots and the stored log, and
--                       Stream is RegisterLogStream with fetchHistorical.
--   Hub.Model, .Ops     internal/hub/hub.go: sessions, the task map, Connect's registration, Assign,
--                       CancelRunning, releaseTask and the outbox pump; Hub.Flow has Assign and
--                       releaseTask step by step. Hub.Frames has the read loop, and
--                       Hub.Views the list of workers of internal/api/workers.
--   Runner.Outcome      internal/runner/executor.go: pumpEvents with its observers, classifyOutcome
--                       and truncateErr. Runner.Tail has streamUV, lineTail and uvCmdLabel.
--   Runner.Unzip        prepareDir, unzipTo and isWithin of internal/runner/executor.go, over the lexical
--                       functions of path/filepath in Prelude.Path.
--   Runner.Interpreter  NewTaskExecutor, resolveInterpreter and runUVStreamed of executor.go, over the
--                       operating system's calls (the record Tools).
--   Runner.Executor     Run, pumpUserLog and killGroup of executor.go. It calls prepareDir (a parameter, as
--                       Runner.Unzip.prepare_dir is), Runner.Interpreter and the pumps.
--   Runner.Worker       internal/runner/worker.go: startTask, cancelTask, the slots and the heartbeat.
--   Runner.Connection   connectOnce, handleMaster, pumpOutbox and Run of worker.go: the outbox over the
--                       streams. Runner.Config has Capabilities and Build's fallbacks of
--                       internal/workerapp.
--   Schedule            internal/schedule, internal/repository/schedules.go and
--                       internal/api/schedules: Model, Repo, Service and Handlers as for spiders; Daemon
--                       has the cron daemons that Runner (Reload, fire and Run) makes and swaps.
--                       Schedule.Requests is a sequence of calls of all of these.
--   Auth                internal/auth, internal/repository/users.go, internal/api/auth and authMiddleware
--                       of internal/api/middleware.go.
--   Api.Reply, .Router  internal/api/render and pathInt64: replies as values. Router has the routes of
--                       internal/api/router.go with their groups, and corsMiddleware.
--   Store               a table behind statements that can fail, for Spider, Schedule, Auth and Unzip.
--   Notify              internal/notify/notify.go, internal/repository/notifications.go and
--                       internal/api/notifications: the channels, their validation, the cache of enabled
--                       channels, the fan-out, the message and the endpoints. Notify.Requests is a
--                       sequence of requests, events and waits.
--   Sink                internal/hub/sinks.go and AppendJSONL of internal/storage/minio.go: the buffered
--                       log lines, their flush and put-back. Sink.Rows has internal/repository/items.go
--                       and artifacts.go and the two other sinks, Sink.Index the rows of the log index
--                       that the flushes leave.
--   Prelude, Result     integers with int32 and int64 wrap-around, text as code points, JSON values, errors.
--   Tests               concrete worlds.
--
-- How the parts interact. A worker's frame enters Hub.Frames.on_frame, which maps the reported state, calls
-- Task.Service.on_update and, on success and a terminal state, releases the task's slot. on_update
-- writes the row, asks the retry policy of the spider and may append a child row. The dispatcher lists
-- the due rows, builds the message and offers it to the hub through the record HubOps, so its theorems
-- hold of any hub.
--
-- A request enters a handler, which decodes nothing itself: a path parameter is what strconv.ParseInt
-- answers and a body is the decoded record. Schedule.Runner.fire queues through the record TaskQueuer,
-- which the tests fill with Task.Service.queue; Spider.Service.sync fetches through SourceSyncer, which
-- Spider.Uploaded.git_syncer fills with Spider.Source.sync_source.
--
-- Choices
--
--   * An operation that reads the database takes the outcome of each statement from the schedule
--     Db.faults, or Store.faults: a failed statement changes no row and returns the driver's message.
--     Unless a theorem says that statements succeed, it holds for every such schedule, so every error
--     path is covered.
--   * Time is a number of nanoseconds in the state. A float64 is nan, an infinity or a dyadic fraction;
--     its conversion to int64 out of range gives the least int64, as on amd64.
--   * The Unicode tables of unicode.ToLower and unicode.IsSpace are a parameter (Prelude.Text.Unicode).
--   * A Go map's iteration order is an argument (the list that Assign walks). Hub.Ops has each operation
--     of the hub as if nothing came in between; Hub.Flow has Assign and releaseTask in the steps that their
--     locks make, and an interleaving is a sequence of Hub.Reach.Step, in which heartbeats and the first
--     half of a release come between any two steps of an Assign. CancelRunning's send after its unlock is
--     Hub.Ops.cancel_send, where `none` is the panic of a send on a closed channel.
--   * The handlers of the notification channels are one step each, although the cache is dropped before the
--     statement and a Notify may come in between; Notify.Stale is about that.
--   * `users.email` is CITEXT, so a lookup compares what the database's `lower`, a parameter, makes of both
--     addresses.
--   * All loops are structural; no fuel is used.
--   * Row numbers are natural numbers: the foreign keys refuse others, as a statement that fails.
--   * The cron, git, zip, bcrypt and JWT libraries are records of functions, whose documented behaviour is
--     a named hypothesis where a theorem needs it.
--
--   * A disk, uv, a subprocess, a gRPC stream, the object store and the live channel answer as parameters or
--     as sequences of occurrences; what a theorem relies on is a named hypothesis
--     (Runner.Installed.Lawful).
--
-- Not modelled: the composition of internal/app with the commands, the parsing of the environment, the
-- embedded web client, the adapters of Redis, MinIO, bcrypt and shoutrrr, and the logging and recovery
-- middleware, which call libraries and keep no state of their own; the SQL migrations; the web client and
-- the Python package, which are other programs.
pub mod Prelude
pub mod Retry
pub mod Result
pub mod Store
pub mod Spider
pub mod Task
pub mod Hub
pub mod Notify
pub mod Sink
pub mod Runner
pub mod Api
pub mod Schedule
pub mod Auth
pub mod Tests
