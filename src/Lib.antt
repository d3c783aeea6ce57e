-- ===== src/Lib.antt =====
-- go-health: health endpoints of a service (kula-app/go-health).
--
-- The program. An engine (core/) holds three sets of checks, for the probes /livez, /readyz and
-- /healthz. The Register methods add a check to a set and to the larger ones. A Run method executes
-- its set: one goroutine for each check, each writing its own slot, then a map from the name of a
-- check to what it observed, beside a heartbeat "system:time"; one status is made of the whole map,
-- logged if it is no pass, and returned with the map. The HTTP adapter (adapters/http/) encodes the
-- response and derives the code from its status; adapters/httprouter/ mounts the three handlers. The
-- packages under checks/ build checks for a database, an S3 bucket, a TCP port, an HTTP endpoint and
-- Redis.
--
-- Where it is modelled:
--   Go/: what the source uses of the language and its standard library: computations against the
--   clock, goroutines and a wait group (Exec), time.Duration, context, the RFC 3339 stamp, maps,
--   encoding/json, net/http.
--   Core/Status: core/status.go. Core/Check: core/check.go, its json tags in Core/Check/Encode, and a
--   reader of documents by the same tags in Core/Check/Decode; the shape of a document, as the struct
--   types and the tags describe it, is a schema with a typing relation in Core/Check/Schema.
--   Core/Engine: core/options.go, and NewEngine and the Register methods of core/engine.go.
--   Core/Observe: runOne. Core/Aggregate: aggregate. Core/Log: emitLog. Core/Run: systemTimeStatus,
--   runChecks, RunLivez, RunReadyz and RunHealthz, all of core/engine.go. Core/Run/Goroutines has the
--   goroutines of runChecks once more, as steps of a state with the counter of the wait group;
--   Core/Run/InTurn has a loop without goroutines to compare them with, Core/Run/Reordered the map of a
--   response as a quotient with no order, and Core/Run/AnyOrder services that made the same registrations
--   in different orders.
--   Adapters/Http: adapters/http/handlers.go. Adapters/HttpRouter: adapters/httprouter/mount.go.
--   Checks/DbCheck, S3Check, TcpCheck, HttpCheck, RedisCheck: the files checks/*/*.go of these names.
--   Checks/RedisCheck/Callbacks has the callbacks of newWithIterator once more, as steps on the shared
--   slice under its mutex. Checks/Contract states what core/check.go asks of a Run function, the files
--   */Contract show which clients make a ready-made check keep it, and Checks/Service puts a service of
--   such checks together, from the router to the clients. Checks/Health says when what a check looks
--   after is up or down, by the answers of its client in a window of readings, the files */Health carry
--   that to the results of Run, and Checks/Service/Plan is the abstract account of a service: what is
--   up, and at which scope.
--   Examples/: the engine of a shop and other services, run.
--
-- How. The clock counts nanoseconds from the epoch. A computation takes the reading at its start and
-- returns a value at a reading, or is blocked, or panics. runChecks starts its goroutines at delays
-- that the scheduler chooses (a parameter `delay`), and waits for the last; of several panics the
-- model reports the first in launch order; where interleaved steps are modelled, any may end the
-- process, at any time after its deferred wg.Done() has run. Nothing runs on fuel: each loop of the
-- source ranges over a list. A Go map is a list of pairs, in some order of visit; the encoder sorts
-- its keys. A statement that needs each key to stand once says so (IsMap). A slice is a list; one
-- under a name of a response is taken not to be nil, as encoding/json writes null for that:
-- runChecks puts none there that is nil. A status is any string, as in the source. A nil function,
-- logger or value is an alternative of its own. A response writer keeps its header, its first code
-- and its body, and may be broken. A document is a tree.
--
-- Parameters: the clients of databases, AWS, Redis, HTTP and dialers; the parser of net/url; the
-- router of httprouter, with the part of its documentation that mounting relies on.
--
-- Not modelled: the text of a document and its escapes (encoding/json); the attributes of a log record
-- other than status and count, and slog itself; `defer cancel()`, which runs after the check; the
-- range of an int64 duration; years after 9999; tests.
pub mod Prelude
pub mod Go
pub mod Core
pub mod Adapters
pub mod Checks
pub mod Examples
