-- ===== src/Lib.antt =====
-- A model of the BuVi platform's decision logic, and what it guarantees.
--
-- The program is a set of Python services. The API gateway limits the rate of requests and
-- resolves the caller; the identity service keeps users, roles and sessions and builds the
-- caller's `Principal`, which the other services read with packages/python/platform-auth; the
-- analytics orchestrator asks model providers within a token budget and executes a user's question
-- as a run of steps, which the worker runtime requests of it until the run has ended; the MCP
-- gateway decides who may invoke a tool and records every attempt; the notification service turns
-- events into notifications, mails and webhooks; the query gateway validates SQL, limits a
-- tenant's concurrent queries and runs what it validated on the tenant's own data sources.
--
-- - Base: helpers shared by all modules.
-- - Auth: packages/python/platform-auth/src/platform_auth. Permissions is permissions.py,
--   Principal is principal.py with the JSON form of a caller, Access is the checks of
--   dependencies.py. A frozenset of texts is a list that is read through `has` alone. Sorting and
--   ISO instants are the parameter `Codec`.
-- - Identity: apps/identity-service/src/identity_service. Roles, Policies (tenant_policy.py and
--   sessions.py) are the policies of domain/policies, Db is the rows and the statements of
--   infrastructure/db, Sessions is session_service.py and Users is user_service.py of
--   application/services. Service functions take the rows and return them; a raise is an `err`,
--   and a request that raises leaves the rows as they were, since its transaction rolls back.
--   Requests run one after another: overlapping transactions are not modelled. SHA-256 is the
--   parameter `Tokens`. Mfa is mfa_service.py for one user: Factors is the rows of mfa_credentials
--   and the statements over them, Service and Verifying are the operations, one request after
--   another. pyotp and the WebAuthn library are the parameter `Checks`. Ids, Enrolling, Enabled
--   and Flag are about the flag `mfa_enabled`, Guessing about the throttle, Replay and Spending
--   about codes and challenges.
-- - Gateway: apps/api-gateway/src/api_gateway. RateLimit.Bucket is domain/policies/rate_limit.py
--   and infrastructure/cache/rate_limiter.py: both Lua scripts, the time to live of a key, and
--   `consume`. Window and Refund are about one bucket over time and about a refusal.
--   Idempotency.Records is infrastructure/cache/idempotency_store.py with
--   domain/policies/idempotency.py, Guard is application/services/idempotency.py; Exclusion and
--   Replay are about the requests with one key, over any sequence of events. Pipeline.Request is
--   application/services/request_pipeline.py; Address, Authorize and Body are about its parts.
-- - Mcp: apps/mcp-gateway/src/mcp_gateway. ToolPolicy is domain/policies/tool_policy.py, which
--   Invoking and Names are about; Invocation is application/services/invocation.py, which
--   Recording is about. Registry is application/services/registry.py with its statements of
--   mcp_repository.py, Requests its grants and any sequence of requests, in which an approval is
--   two: the reading before and the writing after the call of the live server. Keeping,
--   Registering, Offering, UnderWay, Approving and Granting are about such sequences.
-- - Notification: apps/notification-service/src/notification_service. Dispatcher is
--   application/services/dispatcher.py with claim and finish of notification_repository.py;
--   Statuses, Redelivery and Again are about an event that comes again.
-- - Orchestrator: apps/analytics-orchestrator/src/analytics_orchestrator. Router is
--   application/services/model_router.py, Failures is domain/value_objects/failures.py. Posting is
--   post_message of application/services/conversation_service.py, Replaying is about it.
--   Context.Ranking is domain/policies/context_policy.py: the scores and the ranking of tables and
--   the choice of a data source, which Context.Choice is about. Executor is
--   application/services/run_executor.py: Rows is the stored run (analytics_repository.py,
--   run_state.py, flow_steps.py, and cancel of conversation_service.py), Steps is run_step with
--   what it calls, Lifecycle is execute, _begin and _fail. An execution reads a tape that says for
--   each await in turn whether the user cancels the run there, and whether the await returns,
--   raises, or never comes back because the process dies; after the tape nothing happens from
--   outside. What the steps' handlers produce is a type parameter, and the handlers are parameters
--   that return a usage with either the outputs or a failure. Keeping, Cancelling, Events, Flow,
--   Failing and Terminal are about the run that is stored, Calm about an execution that nothing
--   interrupts. Events, keys and finished steps stand newest first.
-- - Query: apps/query-gateway/src/query_gateway. Concurrency is
--   infrastructure/cache/tenant_concurrency.py: Slots is about the limiter of one process as a
--   step relation, Leases about the Redis script. Policy is domain/value_objects/policy.py.
--   Validator is domain/policies/sql_validator.py: Allowed the allow-lists, Sqlglot the parameter
--   for the library sqlglot, whose trees are read through what the checks ask of a node, Checks
--   and Validate the checks; Harmless, Vetted, Personal, Reads, Editor and Brief are about them.
--   Service is application/services/query_service.py with domain/value_objects/execution.py:
--   Request the authorization, the limits and the secret, Run validate and execute over a journal
--   of rows, calls of executors, usage and slots; Outcome, Recorded, Lawful, Called and Sent are
--   about execute. An executor is a parameter, and connecting is its part: a call of it counts
--   whether or not it reaches a database. One query runs at a time there; that queries of all
--   tenants may interleave is in Slots.
-- - Worker: apps/worker-runtime/src/worker_runtime. Dispatch is
--   application/services/run_dispatcher.py with infrastructure/http/orchestrator_client.py, Usage
--   is usage_aggregator.py. Delivery puts the deliveries of one message
--   (infrastructure/messaging/jetstream_consumer.py) together with the orchestrator's Executor,
--   and with the refusals of the call before it (401, 403, 422). Delays are in milliseconds.
--
-- Units: instants are natural numbers, in microseconds for identity and auth, in milliseconds
-- where Redis's clock is read. Tokens of a bucket are counted in millionths and its rate in
-- thousandths of a token per second, so that a millisecond refills a whole number of them. This is
-- exact, where the scripts compute in doubles and store 14 digits: where the tokens equal the cost
-- up to that rounding, a script may decide otherwise, and its retry time may differ. Every loop is
-- structural recursion: `generate` recurses on the number of attempts that are left and the flow
-- on its list of steps, so no fuel is needed.
--
-- Not modelled: HTTP, SQL and Redis themselves, audit events (but for those of an MCP invocation
-- and of a failed MFA check), logging and messages of errors, the secret store itself, and the
-- components that the services' other modules hold: login and API keys, the dashboard, semantic,
-- visualization and metadata services.
pub mod Base
pub mod Auth
pub mod Gateway
pub mod Identity
pub mod Mcp
pub mod Notification
pub mod Orchestrator
pub mod Query
pub mod Worker
