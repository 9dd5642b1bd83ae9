-- ===== src/Lib.antt =====
-- Parts of the service as functions of their state, and what holds of them: what guards its calls
-- and its connections, its locks and caches, the sessions of its users, and the events and messages
-- that it hands on, the deliveries that it trusts and the requests that it executes once.
--
-- Resilience models src/resilience. Config and Policy are the policies and the classification
-- functions of base.py, and backoff_delay of src/decorators/base.py. Circuit is circuit.py: a
-- CircuitBreaker is a record, each method (acquire, state, reset) and each method of a CircuitCall
-- (succeeded, failed, release) is a function from the breaker to the breaker, _open is `trip`,
-- _record is `record_outcome`. Circuit/System drives one breaker and the calls it admitted through
-- any sequence of methods. Transport is the retry loop of transport.py around a breaker; how each
-- send of the wrapped transport ends (a response, a TransportError, a cancellation or any other
-- exception, which passes only the `finally`), the clocks, the random draws and the methods that
-- other requests call on the shared breaker while this one sends, closes a response or sleeps are
-- the argument `script`. An exception out of that closing or that sleep, which ends the request with
-- its call settled, is left out. The loop has as many rounds as the policy has attempts, as `range`
-- in the source. Bulkhead is bulkhead.py:
-- the coroutine `acquire` is two functions, up to its await and from there on, and Bulkhead/System
-- interleaves the halves of many tasks with cancellations, timeouts and releases of slots. Registry
-- is the registries of both, an object per origin. Compartment is BulkheadTransport of transport.py
-- from the slot on, with the stream that the slot is bound to.
--
-- Ws models src/ws: RateLimit is ratelimit.py, RoomName and Rooms are rooms.py. Whether a member
-- takes a message (`offer` of its outbox) is a parameter of `broadcast`.
--
-- Lock models src/distributed_lock: InMemoryLockBackend of memory.py and the leases, the names and
-- the fencing test of base.py.
--
-- TtlCache models the store and the synchronous wrapper of src/decorators/cache.py, for any key
-- builder and any function that is cached.
--
-- Auth models the service of src/auth/service.py with its queries on src/repositories: Store is the
-- rows of refresh_token.py and user.py, and each request (register, login, refresh, oauth_login,
-- logout) is a function from the committed rows to an answer and the committed rows. Where the code
-- raises before its commit the rows stay; `_handle_reuse` commits and then raises. Tokens, password
-- checks, UUIDs and the clock are arguments. Requests follow one after the other: two transactions
-- that read the same row at once are not modelled.
--
-- Sse models src/sse. Event is event.py, on code points, before UTF-8: what a frame means is a
-- reader written from the HTML standard (Event/Reader), not from the source. Hub is hub.py: the
-- registry by topic, the bounded queue of each subscriber and the rounds of the stream that reads
-- it; Hub/Registry drives a hub through any sequence of calls.
--
-- Streams models one stream of src/redis_streams/memory.py with a consumer group on it, and the
-- values of base.py. Queue is the queue that a group over an untrimmed stream implements, where no
-- entry is deleted; trimming and deletion are modelled and left out of those runs. The waiters that
-- wake a blocked read are left out: such a read is its two calls of _read_now.
--
-- Kafka models the topics of src/kafka/memory.py as logs and the way _rebalance shares partitions
-- out. The topics of partitions_for come sorted by name; sorting names is left out.
--
-- Webhooks models src/webhooks. Signature is signature.py: `sign` and the parser of its header, on
-- code points. Verifier is `verify` of verifier.py with any guard, and the guard of replay.py in
-- memory; the raised errors are the values of WebhookError. The HMAC and the hash of the library
-- are the arguments `mac` and `sha`. Verifier/Calls runs calls of `verify` one after the other: the
-- wall clock, which the window reads, is the monotonic clock, which the guard reads, and a constant
-- `boot`. The guard in Redis and the parsing of the secrets from the settings are left out.
--
-- Idempotency models src/idempotency and src/middleware/idempotency.py: Base is the keys and the
-- fingerprints of base.py, Memory is memory.py, where the readings of the clock in one call are one.
-- Of the middleware, Buffer is _buffer_request and _ReplayReceive, Capture is what _execute keeps of
-- a response and does with the key at the end, and Middleware is __call__ up to the answer or the
-- execution, over any store; `none` of `reserve` is its exception. System runs the middleware over
-- the store in memory: the clock moves, requests arrive, and executions end in any order. The app is
-- what it sends and whether it raises. The store in Redis and the codec of its records are left out.
--
-- Prelude holds what the parts share: Boolean tests, lists, Python's dict as an association list in
-- the order of insertion, and `re.match` on patterns that end in `$`. Tests holds runs at concrete
-- inputs.
--
-- Time, durations, rates and tokens are whole numbers where the source has floats, so rounding is
-- not modelled; a wait of the rate limiter keeps the two operands of its division, and no theorem
-- says how long the rounded quotient is. Python's integers are unbounded and so are these. Each reading of a clock is an
-- argument, and clocks may go back unless a theorem says otherwise. A method without an await, or
-- under the lock that it takes, is one step. Logging, metrics and the text of messages are left out,
-- and so are the Redis backends, whose code runs on a server, and the parts that PROJECT.json lists
-- as not modelled.
pub mod Prelude
pub mod Resilience
pub mod Ws
pub mod Lock
pub mod TtlCache
pub mod Auth
pub mod Sse
pub mod Streams
pub mod Kafka
pub mod Webhooks
pub mod Idempotency
pub mod Tests
