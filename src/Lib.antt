-- ===== src/Lib.antt =====
-- A model of the notification system: a service that accepts notifications, stores them in PostgreSQL,
-- passes them through Redis streams by priority, and delivers them by email, SMS or push from worker
-- goroutines, with retries by a delayed set, a dead letter stream, a rate limit per channel and status
-- updates over websockets.
--
-- The parts and their files:
--   Domain                   internal/domain: the types that the other parts share
--   Services                 what stands behind the program, as parameters, and the process's world
--   Repository               internal/repository: the statements and methods on notifications,
--                            delivery attempts and templates, the transaction of a batch, and a
--                            client that follows the pages of List
--   Delivery                 internal/delivery: backoff, retry test, and the three providers
--   Queue                    internal/queue: producer, consumer and dead letter queue
--   Ratelimit                internal/ratelimit/limiter.go
--   Websocket                internal/api/websocket/hub.go
--   Worker                   internal/worker: parseMember, the dispatcher and the scheduler
--   Validator                internal/validator/validator.go
--   Service                  internal/service: requests for a notification, a batch and templates
--   Api                      internal/api/handler and the routes of internal/api/router.go
--   System                   runs of the process, operation by operation
--   Prelude                  lists, texts, integers and the state monad
--   Tests                    a concrete environment, runs, and the theorems at concrete inputs
--
-- How the code is read. A method is a function of type `Action env A`: it takes the world and gives
-- back its result and the world after it. The world holds the tables, the state of Redis, the hub's
-- subscribers, the frames written, the metrics, the HTTP requests made, and the number of the next
-- call. A text is a list of bytes, a UUID a number, a time a number of nanoseconds. Errors are the
-- sentinel errors of internal/domain/errors.go; any other error is `internal`, its text left out.
-- Log lines, spans and HTTP headers are left out.
--
-- What is not under the repository is a parameter, the record `Services`: the Redis commands, the
-- outcome of each call (answered, refused, or carried out with the answer lost), the clocks, the
-- transport, the encodings of UUIDs, JSON and times, package validator's reading of struct tags,
-- net/mail and text/template. Outcomes, clocks and the transport are asked with the number of the call,
-- so an environment is any pattern of failures. Laws of Redis, UUIDs and JSON that a theorem needs are
-- the records of Services.Laws.
--
-- The SQL statements are functions on lists of rows, with the constraints of migrations/ that they can
-- break: primary keys, the partial unique index on idempotency keys, the enums, and the foreign keys
-- of delivery attempts and of template IDs. A text that its column refuses is not looked at: one that
-- is longer than a VARCHAR column takes (a subject that a template gives is bounded by no struct tag),
-- that has a NUL character, or that is no UTF-8 (the body of a provider's response, cut at 4096
-- bytes). The call is then one that the environment refuses, so that theorems for calls that fail have
-- the case, and those that ask for every call to be answered leave it out. A transaction works on
-- tables of its own, which COMMIT puts in the place of the world's. PostgreSQL keeps times to the
-- microsecond.
--
-- Fuel. The rate limit loop of `processMessage` waits as long as the limiter refuses; `wait_for_slot`
-- takes the number of rounds and says `waiting` where they are used up; Worker.Waiting says when they
-- are enough. A client of List in Repository.Pages takes the number of its calls, and Repository.Pages
-- says how many are enough. `work` takes the number of rounds of its loop, `run_scheduler` the number
-- of turns of its own. `handle`, which is what follows the rate limit, and all else have no fuel.
--
-- Concurrency. Goroutines interleave call by call; the model runs one operation at a time, in any
-- order. What an interleaving inside an operation can do is not modelled, except that another
-- transaction's row locks are a parameter of FetchScheduledDue.
--
-- Not modelled: the middleware, the HTTP server and the matching of paths, the handler of the metrics,
-- configuration, tracing, the worker pool and the entry point, which are I/O and glue; and what
-- is read from a WebSocket connection, since the hub drops it.
pub mod Prelude
pub mod Domain
pub mod Services
pub mod Repository
pub mod Delivery
pub mod Queue
pub mod Ratelimit
pub mod Websocket
pub mod Validator
pub mod Service
pub mod Worker
pub mod Api
pub mod System
mod Tests
