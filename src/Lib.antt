-- ===== src/Lib.antt =====
-- StreamGate answers the hooks of a media server: it authenticates who publishes or plays a stream,
-- keeps the running tasks in Redis, and clears those that time out.
--
-- A request comes in over HTTP (src/main/HookServer.cpp) as a hook (src/util/ZlmHookCommon.cpp), which
-- src/main/HookController.cpp and src/util/HookUseCase.cpp pass to the scheduler
-- (src/scheduler/StreamTaskScheduler.cpp). The scheduler asks the authentication
-- (src/auth/AuthManager.cpp over src/repository/HybridAuthRepository.cpp), whose jobs run in
-- src/util/ThreadPool.cpp and which reads a database through the connections of src/db/DBManager.cpp,
-- and then registers a task with the state manager (src/repository/RedisStreamStateManager.cpp), which
-- speaks to Redis through src/cache/CacheManager.cpp. A thread of the scheduler clears what timed out.
-- src/util/ConfigLoader.cpp and src/util/NodeConfig.cpp read the settings and the media servers, and
-- src/util/HealthChecker.cpp reports on the parts, as do src/metrics/SchedulerMetricsProvider.cpp and
-- src/metrics/ServerMetricsProvider.cpp, which src/metrics/MetricsCollector.cpp collects.
-- src/util/Logger.cpp writes the log, and src/main/main.cpp makes
-- the parts and ends them.
--
-- The files. Base: names of the libraries, text, decimal numbers, signed integers, maps, and lists that
-- are updated in place (Base/Slots). Json: the JSON library, a parameter. Task: include/StreamTask.h,
-- and in Task/Fields the hash of a task. Redis: the client library, a parameter, with its documented
-- behaviour in Redis/Lawful over the keyspace of Redis/Keyspace, and a server in memory in
-- Redis/Sample. Cache: the cache manager. State: the state manager, one child for its keys, queries,
-- registration, removal and scan each, and further children for the proofs. Scheduler: the scheduler,
-- and in Scheduler/Metrics what it reports. Hook: the hooks, and in Hook/Decode how they are read.
-- Auth: the authentication; what the database answers is a parameter (Auth/Repository). ThreadPool,
-- DbManager: the two pools, and in ThreadPool/Stopping the end of the first one, in DbManager/Driver the
-- calls of the second one on its driver. HookServer: requests and responses, in HookServer/Session one
-- connection, in HookServer/Served a request from HTTP to the scheduler and back, and in
-- HookServer/Life the acceptor and the server's threads. Scheduler/Cleanup: the cleanup thread.
-- ConfigLoader, NodeConfig, HealthChecker, Logger: the parts of these names. Metrics: the counters of the workers (Metrics/Slot),
-- the slots they take (Metrics/Registry), the text that is published (Metrics/Report), the providers
-- (Metrics/Provider) and their collector (Metrics/Collector). Startup: the
-- start of the program, and in Startup/Lifetimes its end. Tests: the theorems at concrete servers,
-- pools and requests.
--
-- An operation of the source is a function of the same name in snake_case that takes the state last and
-- returns it last. An exception of a library is `none`. Clocks are arguments. What the authentication
-- calls back with is an argument of the scheduler's hooks. `registerTask` is cut into the steps between
-- its early returns. Text is a list of code points, where the source has the bytes of UTF-8. Counters of
-- 64 bits wrap; those of the database pool are of type int and count in both directions, and are kept as
-- how often they did each. The parsing of a query has the length of the text as fuel, since each round
-- takes at least one character. The loop over the bits of a mask has 64 turns, one for each bit.
--
-- The two pools and the session are machines: an event is what a thread, or the network, does between two
-- moments at which another one can get in, and a run is any sequence of events. A thread of the database
-- pool stands in a phase of `acquireConnection` or `releaseConnection`, and what the driver does comes
-- with its next step. In the cleanup thread and in a slot of the metrics an event is one access of the
-- memory or of a lock, and the memory is sequentially consistent. Where a call makes several loads of what
-- other threads change, what they do in between is an argument: the statistics of the database pool take
-- the pool at each of their five loads, and `acquire_slot` what happens between the accesses of the masks.
--
-- The laws of Redis hold for a server that is online and takes every command; nothing is assumed of
-- another one, and theorems that name no law hold for any server. A key that expires by itself is not
-- modelled, nor are commands of other clients between two commands of one operation.
--
-- Not modelled: the serializer of tasks, which has no caller; the signal handler and the texts of the
-- log; the pages /metrics and /health in what they show (HookServer).
pub mod Base
pub mod Json
pub mod Task
pub mod Redis
pub mod Cache
pub mod State
pub mod Scheduler
pub mod Hook
pub mod Auth
pub mod ThreadPool
pub mod DbManager
pub mod HookServer
pub mod ConfigLoader
pub mod NodeConfig
pub mod HealthChecker
pub mod Metrics
pub mod Logger
pub mod Startup
pub mod Tests
