-- ===== src/Lib.antt =====
-- Verification of grodyia, a Go framework for game services.
--
-- The framework's application (grodyia.go) binds transports (transport/), a service registry
-- (registry/) and an event bus (events/), starts them together and stops them together. The
-- transports answer requests, through middlewares (middleware/) that limit and guard them; clients
-- (client/) call such services and try failed calls again.
--
-- The files, and what each models:
--   Prelude    names of the libraries, tests, lists and maps that the other files share; a Go map is
--              an association list, and Int is Go's signed integers where a program compares them.
--   App        grodyia.go: New, Bind, Start with its deferred rollback, and Stop. Their calls of
--              transports, registry and hooks are recorded in order; how each ends is a parameter.
--              Trace reads such records, Rollback and Shutdown hold the theorems.
--   Events     events/events.go: subscriptions, Publish, Close, the channel and its workers. Queue
--              interleaves publishers, workers and Close in any way.
--   Keyed      GetLimiter and GetBreaker of middleware/: creation checked twice, with the entries that
--              other goroutines add in between as an argument.
--   Breaker    middleware/circuitbreaker.go: Allow, RecordSuccess, RecordFailure, setState, Execute,
--              the interceptors and the breakers per method.
--   Limiter    middleware/ratelimit.go: the token bucket, Wait, the interceptors and the limiters per
--              method. float64 is a record of operations and laws, which Fixed fills.
--   Registry   registry/registry.go and, below it, Memory: registry/memory.go with its watchers,
--              their channels of 1024 events and the cleanup tick. Address is registry/util.go, Watchers
--              the watchers of a registry over the network, and Consul is registry/consul.go: its
--              calls, each with what the agent answers, in any order. Etcd is registry/etcd.go, its keys and
--              its leases. Nacos is registry/nacos.go, with the requests that it leaves at the server.
--   GrpcClient client/grpc/client.go: connect, Reconnect, the connection monitor and Close. Steps has their
--              atomic parts, as a relation, in any order.
--   Game       examples/snake_battle: game/game.go, its snakes (Body), its rooms (Room, where Turns and
--              Spawn follow an update and its foods), and Server, which is main.go and the RoomManager:
--              the messages of the players, the ticks of the rooms and the ends of games in any order.
--   Retry      the retry loops of client/http/client.go and client/grpc/client.go.
--   Router     transport/http/server.go: routes with path parameters, and middlewares.
--   Socket     transport/ws/ws.go: the count of connections, the shards and parallel broadcasts.
--   Outbound   transport/ws/connection.go: the two queues of a connection and their writer. Round, Writer
--              and Drain follow one writer through bursts and batches; Wakeup interleaves senders and
--              writers, and Pings follows the pings over time.
--   WsClient   client/ws/client.go: Connect, Close, the loss of a connection and reconnect; Machine
--              interleaves their sections.
--   Config     config/config.go: maps of maps, mergeMaps, dotted keys, and the cache of values between
--              the sources' changes.
--   Health     health/health.go: the readiness states and their manager.
--   Metrics    middleware/metrics.go: counters and latency histograms of each method.
--
-- Each operation has the name of its Go function. It takes the state and returns the new one; an error
-- is an Option or a data type. A section under a mutex, or an atomic operation, is one step, and what
-- goroutines do to each other is a list of steps in any order. Where a select may go two ways, an
-- argument says which; the present time is an argument.
--
-- Bounds. Counters and times are natural numbers, and a subtraction that Go could make negative
-- is shown not to be reached or stands behind a test; the ids of the WebSocket server wrap at
-- 2^64 as they do in Go, and so do the counters of Metrics. The loops with fuel are the writer of
-- Outbound, whose fuel is one round more than the messages pending or the writes that succeed, as
-- is shown to be enough, `parts` of Socket, whose fuel is the number of connections and is shown
-- to be enough, and the retry loops, whose fuel is the number of rounds that Go counts.
-- The tries of spawnFood are Go's own bound of 100, after which it gives up.
--
-- Not modelled: what is input and output only (the gRPC, HTTP and WebSocket servers' sockets, files,
-- TLS, the console), the wrappers of encoding/json and protobuf in codec/, util/, and the option setters.
-- Also not modelled: config/file.go and config/value.go, middleware/http.go and logger/.
pub mod App
pub mod Breaker
pub mod Config
pub mod Events
pub mod Game
pub mod GrpcClient
pub mod Health
pub mod Keyed
pub mod Limiter
pub mod Metrics
pub mod Outbound
pub mod Prelude
pub mod Registry
pub mod Retry
pub mod Router
pub mod Socket
pub mod WsClient
