-- ===== src/Lib.antt =====
-- The core of the AITP control plane: the request gate, its rate limiter, idempotency keys, the
-- webhook outbox with its circuit breaker, the ingestion of reported events, the event bus and
-- its streams, the projections of sessions and of reported tokens with the operator's
-- revocations, event ids, the registry of agents with its enrollment tokens, trust anchors with
-- their cached keysets, and data retention.
--
-- Every request under /api/ passes the gate (src/proxy.ts: Gate). The gate checks the bearer
-- token against the configured keys, asks the rate limiter (src/lib/rate-limit.ts: RateLimit) and
-- forwards the request with attribution headers that only it sets. Handlers that create things
-- run under `withIdempotency` (src/lib/idempotency.ts: Idempotency). Reported events come in
-- batches to POST /api/events (src/app/api/events/route.ts: Ingest), which stores the ones whose
-- id is new and projects them all. The new ones fan out to the webhooks that want them
-- (src/lib/webhooks/service.ts: Webhooks.Dispatch): each match becomes a row of
-- `webhook_deliveries`, and `attemptDelivery` (Webhooks.Attempt) sends it, under the circuit
-- breaker of src/lib/webhooks/circuit-breaker.ts (Breaker). They also go to the in-memory bus
-- (src/lib/audit/stream.ts: Events) behind the event streams, whose slots
-- src/lib/audit/sse-metrics.ts counts (Events/Slots, Events/Streams), and all of them to the
-- monitors of sessions (src/lib/sessions/monitor.ts: Sessions) and of reported tokens
-- (src/lib/tcts/monitor.ts: Tcts), which keeps the tables of tokens and of delegations and
-- cascades revocations down them. An agent enrolls for a token (src/lib/registry/enrollment.ts:
-- Registry/Tokens) and spends it to register (src/app/api/registry/agents/route.ts:
-- Registry/Register); a job retires agents (src/lib/registry/expiry-job.ts: Registry/Expiry). The
-- refresher of src/lib/trust-anchors/jwks-refresher.ts (TrustAnchors) keeps the keysets of trust
-- anchors. A periodic sweep (src/lib/retention.ts: Retention) deletes old rows of the tables.
--
-- Breaker/State holds one entry of the breaker with the bodies of `shouldAttempt`,
-- `recordSuccess` and `recordFailure`; Breaker the map of entries with the methods of the class.
-- RateLimit/Buckets holds one bucket, RateLimit the class. Webhooks/Rows holds the rows of the
-- tables, Webhooks/Signing the body and its signatures, Webhooks/World all that an attempt reads
-- and writes. `attemptDelivery` is cut at its awaits into the steps of Webhooks/Attempt and
-- Webhooks/Attempt/Settle; Webhooks/Outbox lets any number of attempts interleave step by step,
-- Webhooks/Retries is the pass of the reaper over due rows. `withIdempotency` is cut at the call
-- of the handler: `begin` is what comes before it, `conclude` what comes after. Gate/Paths holds
-- the path tables, Gate/Request what is read of a request, Gate the function `proxy`. ApiKeys
-- reads ISSUER_KEYS (src/lib/api-keys.ts). Tcts/Read and Tcts/Parse read a reported token,
-- Tcts/Observe holds the check of src/lib/tcts/verify-observed.ts, Tcts/Store the tables with the
-- inserts, Tcts/Descend the recursive query, and Tcts/Revoke the revocations and `onEvent`.
-- Revocations reads the body of POST /api/revocation/entries; Revocations/Entries is the rest of
-- that route, which hands its event to the monitor, and GET /api/revocations. Audit/SignedContent
-- is src/lib/audit/signed-content.ts; Audit/Canonical and Audit/EventId are
-- src/lib/audit/event-id.ts, and Audit/Canonical/Spec is canonical JSON by recursion. Uuid holds
-- the UUIDs as lists of digits. Json is the type of JSON values. Ingest/Values is the walk over a
-- reported value, Ingest/Normalize and Ingest/Items are what becomes of one item, Ingest/Batch
-- what becomes of a body before the store, and Ingest/Handler the rest of the handler, with
-- `ingestEvents` of src/lib/audit/event-store.ts; Ingest/Handler/Reported reads the events of a
-- batch off its items by recursion. Webhooks/Addresses is `isPrivateIp` of
-- src/lib/webhooks/url-guard.ts. Registry holds the tables with
-- src/lib/registry/store.ts, jti-store.ts and register.ts, and Registry/Columns
-- `checkManifestColumns`. TrustAnchors holds the rows and what the routes and the refresher do to
-- them, TrustAnchors/Fetch the fetch of a keyset and TrustAnchors/Routes the post of an anchor.
-- Validate holds the checks of values in src/lib/http/validate.ts, and Bodies the reading of
-- bodies in src/lib/http/read-body.ts with `readJsonObject`. The modules named Tests
-- hold concrete runs.
--
-- Time is an argument, in milliseconds: every function that reads the clock takes `now`. An
-- attempt is run for nine steps, and the recursive query for as many rounds as the table has rows,
-- each of which but the last adds a row. The loop of canonical JSON is run for one turn more than
-- the value's weight, which counts a turn for each frame that is pushed; the walk over a reported
-- value takes one turn more than the value has parts. Numbers are natural numbers; a difference of
-- two times that the source compares with a duration is written as a sum. A batch of a purge is
-- the first rows, up to the limit, that meet its condition, in an order of the rows that is not
-- fixed. A handler of events runs as one step: the writes of another replica fall before or after
-- it. HMAC, `JSON.parse`, `JSON.stringify` and number printing, UTF-8, base64url and JSON
-- decoding, dates, SHA-1, SHA-256, `randomUUID` and the verifiers of the SDK, the jsonb column,
-- `isDeepStrictEqual`, and the splitting and trimming of header values and of configuration are
-- parameters. The verdict of the URL check, the answer of `fetch` and the random jitter are inputs
-- of an attempt. The network and the resolution of names are parameters as well. A database update
-- is one atomic step on a list of rows.
--
-- Not modelled: logging, CORS headers and request ids, the texts of response bodies, failures of
-- the database, the scheduling of timers (a retry timer is recorded, and an attempt may start at
-- any time), the administration of webhooks, what a stream sends, the timers that start sweeps,
-- the enroll route and the policy for its secret at boot, the queries of histories and lists, the
-- dashboard, metrics, the guard of webhook URLs
-- but for its test of addresses, configuration and shutdown, and the scripts that
-- run against a deployed service. They are input and output, text, or calls of libraries.
pub mod Prelude
pub mod Breaker
pub mod RateLimit
pub mod Json
pub mod Uuid
pub mod Registry
pub mod Sessions
pub mod TrustAnchors
pub mod Validate
pub mod Bodies
pub mod Audit
pub mod Tcts
pub mod Revocations
pub mod Webhooks
pub mod Idempotency
pub mod ApiKeys
pub mod Gate
pub mod Events
pub mod Retention
pub mod Ingest
