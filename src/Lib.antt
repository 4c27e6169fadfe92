-- ===== src/Lib.antt =====
-- sqlproxy: an HTTP server that runs configured workflows of SQL queries and HTTP calls. This
-- library models the core of the program and proves it correct, part by part.
--
-- Prelude: what the parts share. A Go string is its list of bytes, a Go map with string keys is an
--   association list whose order stands for the order in which a `range` visits it, an error is a
--   `Result`, a uint32 or uint64 is a native number that every operation wraps, and an int64 is an
--   integer `ℤ`.
-- PublicId: internal/publicid/publicid.go. `Xtea` has xteaEncrypt and xteaDecrypt, `Base62` has
--   encodeBase62 and decodeBase62, and PublicId.antt NewEncoder, Encode, Decode and HasNamespace.
--   HMAC-SHA256 of the standard library is the argument `hmac`, of which nothing is assumed.
-- SqlUtil: internal/sqlutil/sqlutil.go. `Strip` has stripLiterals, whose index is the text that is
--   left; its loop has the length of the text as fuel, and `Strip/Total` shows that this is enough.
--   SqlUtil.antt has IsWriteQuery, RequiresWriteAccess and HasReturningClause. The functions of
--   Go's strings package are modelled on ASCII text.
-- Cache: internal/cache/cache.go. `Store` has the types, `Endpoint` the record of one endpoint and
--   the blocks that change it under its lock, Cache.antt the methods of an enabled cache (a
--   disabled one is a nil pointer, on which every method returns at once). The ristretto store, the
--   JSON encoder and the cron parser are the record `Backend`, of which nothing is assumed;
--   readings of the clock are arguments. Methods run one after another: the windows between the
--   locked blocks of one Set are not modelled, nor are Close and the snapshot for metrics. The
--   sizes and times to live that are configured are not negative, and the total sizes stay below
--   2^63.
-- RateLimit: internal/ratelimit/ratelimit.go. `State` has the Limiter, `Buckets` a Pool and its
--   buckets, `InlineKey` the limits of internal/workflow/config.go and inlinePoolKey,
--   RateLimit.antt the methods of Limiter. The token bucket of golang.org/x/time/rate is the record
--   `RateLibrary`, and the template engine an argument; of neither is anything assumed. Requests
--   run one after another, with the readings of the clock as arguments. The two getters of a pool
--   are not modelled.
-- Workflow: internal/workflow. `Config` has the steps of config.go and their types, and `HttpCall`
--   execute_httpcall.go: buildHTTPRequest in `HttpCall/Requests`, the retry loop and the step in
--   HttpCall.antt, whose loop recurses on the attempts that are left. `SqlParams` has
--   extractSQLParams, `Query` executeQueryStep, both of execute_query.go; the database manager is
--   the record `QueryLibrary`. The client, the clock, the decoders and the templates are the record
--   `HttpLibrary`. Times are nanoseconds, those to live of a step seconds, and do not overflow; log
--   lines and durations are left out. `Context` has context.go: the results of steps and the data
--   that templates and expressions see. `Executor` has the loop of Execute in executor.go over the
--   record `Runner`, which stands for executeStep, the conditions and the cancellation of the
--   context, the timeout of the workflow included; `Executor/Step` has executeStep, its computed
--   params and its cache, over the record `StepServices`, `Executor/Block` executeBlockStep over
--   `BlockRunner`, and `Executor/Response` executeResponseStep of execute_response.go over
--   `ResponseLibrary`. Each record is the interface of the level below it. `Handler` has
--   handler.go: `Handler/Parameters` parseParameters, `Handler/Headers` what it reads of headers
--   and cookies, `Handler/Writer` the response, as net/http documents it, over a connection that
--   does not fail, and responseCapture, and `Handler/Serve` ServeHTTP, over the record `Services`
--   of `Handler/Interface` for the rate limiter, the trigger cache and the executor. Bytes of a
--   request id outside ASCII are kept one by one. populateMetrics is not modelled. `Validate` has
--   validate.go: the messages in `Validate/Report`, triggers, steps and schedules in `Triggers`,
--   `Leaves`, `Steps` and `Cron`, and Validate in Validate.antt. Blocks are nested less than a
--   depth, any natural number, which the checks recurse on. The compiler of expressions and the
--   parser of schedules are the records `ExprLibrary` and `CronLibrary`. `Aliases` has the order of
--   the condition aliases of compile.go, topoSortAliases with what it calls: its maps are visited
--   in one order, any order. The fuel of its loop is the number of aliases, and no alias is popped
--   twice. The parser of expressions and the walk over its tree are the argument `identifiers`. The
--   rest of compile.go, which calls text/template and expr-lang, is not modelled.
-- Params: internal/types/params.go, the declared parameters and the conversion of their values.
--   `Values` has Go's `any` as far as JSON fills it, and `Texts` the functions of strconv on
--   integers and truth values. encoding/json, floats and times are the record `ValueLibrary`, of
--   which nothing is assumed.
-- Metrics: internal/metrics/metrics.go: Record, and the counters of GetSnapshot in Metrics.antt.
--   Requests are recorded one after another, and the counters stay below 2^63. Durations are
--   natural numbers of nanoseconds, floats are the record `FloatLibrary`, and the calls of the
--   Prometheus client are a list. The registration of its metrics, the one-line counters beside
--   Record and the runtime statistics of a snapshot are not modelled.
-- Db: internal/db. `Params` has the parameters of a statement, whose loop has the length of the
--   text as fuel, `Session` the statements that prepare a connection, and `Query` Query of the
--   three drivers, with ScanRows of common.go. database/sql is the record `SqlLibrary`. Opening,
--   pinging and closing the pools is not modelled.
-- Checks: internal/validate/validate.go, the checks of a whole configuration: the server, the log
--   and the debug port in `Checks/Server`, the databases in `Checks/Databases` and the pools of
--   rate limits in `Checks/Pools`, with messages as texts. The template engine is an argument. The
--   checks of public IDs and the test of the connections are not modelled.
-- Server: internal/server/server.go, the two adapters that stand between the workflow handler and
--   the limiter and the cache; these are the record `Backends`. The seconds to wait are divided as
--   integers, where the code goes through a float64. The routes, the middleware, the handlers of
--   the debug port, the start and the shutdown are not modelled.
-- Not modelled: the template engine in internal/tmpl, functions on values of any type that
--   text/template calls by reflection and that the parts above take as an argument; the OpenAPI
--   document in internal/openapi, which no part above reads; the interfaces in
--   internal/workflow/step; logging, the service wrapper and main.go, which are calls of the
--   operating system.
pub mod Cache
pub mod Checks
pub mod Db
pub mod Metrics
pub mod Params
pub mod Prelude
pub mod PublicId
pub mod RateLimit
pub mod Server
pub mod SqlUtil
pub mod Workflow
