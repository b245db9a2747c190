-- ===== src/Lib.antt =====
-- The broker daemon of bazel-broker: it queues Bazel builds for admission on one machine, keeps a
-- registry of the running ones, tells its clients about every change and kills a build on request.
--
-- Parts, and the files that model them. Paths are from the repository's root.
--   Build      internal/build/build.go and internal/api/api.go: states, the build record, its wire form and
--              the event envelope. A time is a count of nanoseconds, with 0 for the zero time.
--   Hub        internal/registry/hub.go: subscribers with bounded buffers. Subscribers are numbered, since
--              the source tells them apart by their pointers.
--   Registry   internal/registry/registry.go: Registry (the state, register, deregister), Registry/Upsert,
--              Registry/Reap (reaping and hydration), Registry/Reports (counts, snapshots and the view of
--              internal/admission/wiring.go). The map of builds is an association list with the names in
--              some order; what is written to the store is a list of builds.
--   Kill       internal/discovery/kill.go over Os, an interface to kill(2), the lookup of a process's path,
--              the clock and a sleep that the request's context can end; Kill/Route is the
--              handler, internal/discovery/killer.go. The polling loop runs on fuel,
--              and one unit covers one poll: the polls that fit in the longer of the grace window and the
--              window after SIGKILL, and one round more, are enough fuel (Kill/Fuel).
--   Admission  internal/admission: Types and Targets (the target sets), the gates in Semaphore, TokenBucket
--              and Stagger, the engine's state and `schedule` in Engine, the life of a waiter in Lifecycle,
--              the background passes in Reaper, the routes in Http. The pointers to waiters are addresses
--              of a heap, so that the queue and the map of ids share waiters as in the source. The parts of
--              an operation that run under separate locks are the steps of Admission/Concurrent, where a
--              release frees the gates without the mutex. The calls of Lifecycle are whole operations, with
--              what others do in the gaps of `Admit` as an argument, but for its `schedule`, which is one call.
--   Metrics    internal/metrics: the metrics of an invocation and the alert on its cache-hit ratio, which is a
--              number of millionths, rounded down.
--   Bep        internal/bep: Stream is dispatch.go, the state of one tailed event file with the registry that
--              it updates and the rows that it writes; Manager is manager.go, one tailer for each worktree
--              with an active build; DiskCache is diskcache.go. Parsing, and the ratios that the database
--              recalls, are arguments.
--   Discovery  internal/discovery/reconcile.go: one pass of discovery over the registry.
--   Store      internal/store: Store is store.go, the builds and the migration, over Database, an interface to
--              the SQL statements of the source; Store/Metrics is metrics.go, over MetricsDatabase, whose
--              statements are data. What the database is relied on for is in IsLawful, IsMigrating and
--              IsTransactional; Store/Memory has databases in memory that meet them.
--   Config     internal/config/config.go over the environment and the file system.
--   Server     internal/httpapi/server.go, middleware.go and seams.go: the routes, the bearer token and the live
--              handlers. A request carries the route that http.ServeMux matched, with its path.
--   Events     internal/httpapi/events.go: one connection to the event stream. Events/Sync puts it among the
--              mutations of the registry, each whole, Events/View compares the client's view with the builds,
--              Events/Missed and Events/Reordered have the gaps: before the subscription, and between a
--              mutation's write and its broadcast.
--   Cli        Watch is internal/cli/watch.go, the view of the builds that the watch command keeps and its
--              reconnections; Client is internal/apiclient/apiclient.go with internal/cli/client.go and
--              exit.go, from a reply to the exit code.
--   Common     shared helpers on lists, texts, integers and association lists.
--
-- The routes of Server and the connections of Events work on a registry and its hub; the kill handler takes
-- the process from the registry and gives it to the kill state machine; what the registry saves is what the
-- store is given. The engine reads the registry's active builds through the adapter in Registry/Reports.
-- That view is an argument of the engine's operations, so the results on the engine hold for every view.
-- Discovery and the event streams call the registry's upsert, the supervisor reads its snapshot.
--
-- Not modelled: the JSON texts, the SQL engine, the process scanner, the set-up of the log, the tables of
-- the command line, the routes that serve profiles, the entry point, the menu bar app and
-- generated code, which are input and output or calls of other libraries. Timers, tickers and
-- goroutines are events in an arbitrary order. A float64 load is a number of millionths, and machine
-- integers are unbounded: no sum in these parts comes near their limits. Log calls are left out.
pub mod Common
pub mod Build
pub mod Hub
pub mod Registry
pub mod Kill
pub mod Metrics
pub mod Store
pub mod Config
pub mod Bep
pub mod Discovery
pub mod Admission
pub mod Cli
pub mod Events
pub mod Server
