-- ===== src/Lib.antt =====
-- A model of the Gateway of node-red-contrib-pod-gateway, and what holds of it. PODs, which are
-- Node-RED processes, connect by WebSocket, send calls of the form service/name, and get the results
-- of HTTP adapters that the server runs under a concurrency limit and a rate limit.
--
-- The parts of the program, and the files here:
--
-- - lib/gateway-server.js: Gateway. A `GatewayServer` without a Redis queue is a record
--   (Gateway/Types), and each method is a function on it: `_send`, `_emitMetric` and the capabilities
--   in Send; `_markProcessing`, `_expired` and the timeouts in Timing; `_sortQueue` in Sorting;
--   `_finish`, `_deliverResponse`, `_findConnection`, `_storePending` and the idempotency records in
--   Finish, with the socket that is found in Finish/Targets;
--   `_connection`, `_hello`, `_replayPending` and `_disconnect` in Connect; `_pump`,
--   `_execute`, `_requeue` and `_schedulePump` in Pump; `_enqueue` in Enqueue; `_message` in Receive;
--   `_health` and `_checkClaimIdleMargin` in Health.
--   An asynchronous method is cut at each `await`, and each part is a function of its own. Steps has
--   the events (a frame, a close, the end of an `await`, a timer), the step of the server at an event
--   and `run`, a sequence of events with their times. So a run is any interleaving of what the
--   Node.js event loop may run, and `init` is the constructor.
-- - Gateway/Queued: the server with a queue that several gateways share. The queue is an interface, a
--   record of the operations that the server calls with the laws it relies on; Queued/Redis fills it
--   with StreamQueue, Safety has its laws. Handling has `_handleQueuedItem`, `_execute` and `_requeue`,
--   cut where a handler waits, Requests `_enqueue`, Receive `_message`; Runs has runs of handlers, frames,
--   handshakes, replays of pending results, sockets, and what other gateways do to the queue.
--   Outcomes and Endings are about a handler's steps, Admission about idempotency keys.
-- - Gateway/Core: the scheduler without sockets, messages and times, as a relation between states.
--   Frames, Parts, Refines and Requests relate each part of the handlers to it; Counting, Tally,
--   Capacity and Attempts have its invariants; Reachable puts them together for runs of the server.
-- - lib/protocol.js: Protocol, with `parseOperation`, and Protocol/Envelope, with `validateEnvelope`.
-- - lib/request-contract.js: Request, with `validateRequest` in Request/Validation, where its errors are
--   a list, and `requestHeaders` in Request/Outgoing.
-- - lib/url-template.js: Template, and Template/Uri for `encodeURIComponent`. The regular expressions
--   are scanners.
-- - lib/http-adapter.js: HttpAdapter, its headers and body and what it makes of how `fetch` ends.
-- - lib/api-config.js: ApiConfig, with environment variables in headers and the URL of a request.
-- - lib/redis-rate-limiter.js, lib/redis-reconnect.js and lib/redis-url.js: Redis/Script with the Lua
--   script, Redis/Reconnect and Redis/Url.
-- - lib/in-memory-rate-limiter.js: RateLimit. Its decision is an input of the server's event loop.
-- - lib/gateway-client.js: Client. A `GatewayClient` is a record (Client/Types); the promises and timers
--   of its calls and `_rejectPending` are in Calls, `_handleMessage` in Messages, `connect`, its
--   listeners, the heartbeat, the reconnect timer and `close` in Connection. Steps has the events and
--   `run`. Settling and Waiting are about the promises, Closing about a closed client, Answering about
--   answers and a lost connection, Refusal about a URL that `new WebSocket` refuses.
-- - lib/redis-stream-queue.js: StreamQueue. Commands has the commands of Redis as a record of operations,
--   and the laws that Redis documents; Store has `enqueue`, and Store/Scripts the delayed retries with
--   their two Lua scripts; Delivery `_dispatch`; Draining the rounds of `_retryLoop`; Records the
--   idempotency records, and Pending the results that wait for a POD; Store/Adding is about what `enqueue`
--   adds. The commands of `enqueue` may throw, and those of `takePendingResults` are two steps.
--   JSON and the hash of a key are
--   parameters. An item has named fields for what the queue reads, and `rest`. Balance has the steps
--   of the queue; in Balance/Steps, `defer` is how the server's `_handleQueuedItem` gives back an
--   item that is rate limited. Maps is an instance of the commands.
-- - lib/env.js, lib/runtime-config.js and nodes/gateway-server-config.js: Configuration, with Env, Runtime
--   and Margin. The contents of the files are inputs, and `Number` and `JSON.parse` are parameters.
-- - lib/node-utils.js and the nodes gateway-call, gateway-out, gateway-in and gateway-metrics: Nodes, with
--   the two `input` handlers in Calling, and what the listeners pass on in Listening. Nodes/Upstream is
--   nodes/gateway-api-config.js and nodes/gateway-adapter.js, with the headers of one call.
-- - Prelude, Map, Result and Json: shared lists and tests, JavaScript's `Map`, exceptions, JSON values.
--   The modules named Tests and Examples run the functions on concrete inputs.
--
-- How values are represented. A string that the code takes apart is a list of UTF-16 code units; any
-- other is a native string. `undefined` and `null` are `none`, except in JSON values. A JSON number
-- stands by its text. Times are whole milliseconds and not 0; `deadlineAt` is what `Date.parse` makes
-- of it. Letters change case in ASCII only. Properties that objects inherit are not seen. An item has a
-- serial number, which stands for the identity of its object. What comes from outside is part of an
-- event: a message, the verdict of `authenticate`, the answer of the rate limiter, what an adapter
-- returns or throws and how long it takes. Log lines are left out, and of a metric all but its event,
-- its item and its error code.
--
-- Fuel: `replace_all` and `normalize_path` of Template take the length of their text, and every round
-- takes at least one code unit off it. `retry_rounds` of StreamQueue/Draining takes one round more than there
-- are delayed retries: each round but the last takes one away.
--
-- Not modelled: of the Redis stream queue the connections, the sleeping of the loops and the consumer
-- groups; `start` and `stop` of the server and how it hands its handler to the queue; the hooks of the HTTP
-- adapter; the Node-RED nodes that only connect the library to Node-RED's runtime, and the
-- status that nodes show; the programs in bin, which are input and output; the packages `ws` and `redis`;
-- and `appendQuery`.
pub mod Prelude
pub mod Map
pub mod Result
pub mod Json
pub mod Protocol
pub mod Template
pub mod Configuration
pub mod Request
pub mod RateLimit
pub mod Redis
pub mod HttpAdapter
pub mod ApiConfig
pub mod Gateway
pub mod Client
pub mod StreamQueue
pub mod Nodes
