-- ===== src/Lib.antt =====
-- The decision path of the BedemWAF gateway, the control API behind it and the worker's scan of rule
-- packages, modelled and proved correct.
--
-- A request goes through services/gateway/internal/proxy (ServeHTTP). It finds the client's address
-- and the host, asks a policy provider for the app of the host, reads the body up to a limit, and
-- makes a decision: the app's IP lists, its rate limits, the body limit, its custom rules, the
-- inspection engine and its default action, in this order. In the mode `block` a decision that would
-- block becomes an error response; in every other case the request is forwarded to the app's origin.
-- An audit event is queued for the sinks. The provider is the static store of
-- services/gateway/internal/policy, or the caching client of the control API.
--
-- The control API (services/control-api) stores the policies. A request passes the middleware, a
-- bearer token and the tenant of its context, and a handler checks it and calls the repository. A
-- policy is published as a snapshot, which the gateway fetches and loads. Events are searched in
-- ClickHouse, and those of a policy in the mode `count` are summed up by rule. The worker
-- (services/worker) scans a directory of managed rule packages and records them with their checksums.
--
-- Which file models what:
--   Decision.antt        services/gateway/internal/decision: actions, modes, decisions
--   Config.antt          services/gateway/internal/config: the types of a policy;
--                        Config/Defaults: the defaults and the validation of the apps;
--                        Config/Loading: those of the rest, and LoadFile
--   Policy.antt          services/gateway/internal/policy/store.go: the types
--     Policy/Host        NormalizeHost, ValidHost
--     Policy/Matching    Condition.Match and its helpers
--     Policy/Validation  parseCondition, validateCondition, hasCondition
--     Policy/Rules       the parsers of prefixes, sets, rules and limits; newApp
--     Policy/Evaluation  EvaluateIP, EvaluateCustomRules
--     Policy/Store       NewStore, MatchHost, Lookup
--   RateLimit.antt       services/gateway/internal/ratelimit: Check; RateLimit/Store: MemoryStore,
--                        which the tests use where the program asks Redis
--   Proxy.antt           services/gateway/internal/proxy/gateway.go: the types
--     Proxy/Client       clientIP and its helpers
--     Proxy/Reading      prepareRequestBody, redactedPreview
--     Proxy/Decide       the decision part of ServeHTTP, one function for each stage
--     Proxy/Serve        the rest of ServeHTTP
--   PolicyClient.antt    services/gateway/internal/policyclient/client.go
--   Audit.antt           services/gateway/internal/audit/audit.go: the event; Audit/Dispatch: the
--                        dispatcher; Audit/Redaction: the package redaction
--   ControlApi.antt      services/control-api/internal: the types of a policy snapshot
--     ControlApi/Names      httpapi/validation.go
--     ControlApi/Snapshot   httpapi/server.go: validatePolicySnapshot
--     ControlApi/Events     events/events.go: the types; Search: the query builder and the store;
--                           Summary: BuildSimulationSummary
--     ControlApi/Models     models/models.go, and the interface Repository of db/db.go
--     ControlApi/Http       httpapi/middleware.go: requests and answers
--     ControlApi/Handlers   httpapi/server.go: the handlers, in Apps, Policies and Searches
--     ControlApi/Access     auth/auth.go, the guards of server.go, the middleware
--     ControlApi/Routes     httpapi/server.go: Routes
--     ControlApi/Database   db/db.go: the transactions, in Apps and Policies
--   Worker.antt          services/worker/internal/rules/rules.go: the types; Worker/Rules: the scan
--   Go.antt              what is used of Go's standard library
--   Common.antt          shared names, tests, lists, integers, sorting and results
--   Tests.antt           concrete runs
-- The other children of these modules hold proofs, and are named for what they prove.
--
-- How the code is modelled. A Go int is an integer, with the wrap-around of 64 bits written out where
-- the code computes with it. A function that returns an error returns a Result. Go's tables and
-- parsers that the program calls are a record of functions, an argument of everything (Go); strings
-- are texts. The services behind an interface (Provider, Checker, CounterStore, Engine, ControlApi,
-- Sink, Repository, Database) and the transport to the origins are operations on a state of their
-- own, which is passed along, and a failing call is a value; the worker's file system is a record of
-- functions whose errors keep their texts. A request of the control API comes with the route that the
-- multiplexer found. A transaction of its database is a chain of steps on a state of its own, which
-- replaces the database at the commit and is dropped at a rollback. The clock is an argument, one reading for
-- each call of it. All
-- loops are recursion on lists; there is no fuel.
--
-- Not modelled: log lines, times and latencies; the Redis protocol, ClickHouse, HTTP and JSON; the
-- third-party inspection engine; panics, but for a lookup that reports an app and has none; the
-- interleaving of goroutines inside one provider call; of the control API the lists and the managed
-- rules in its database, its configuration and its metrics; the worker's own database and its jobs;
-- the dashboard.
pub mod Common
pub mod Go
pub mod Decision
pub mod Config
pub mod Policy
pub mod RateLimit
pub mod Audit
pub mod Proxy
pub mod PolicyClient
pub mod Tests
pub mod ControlApi
pub mod Worker
