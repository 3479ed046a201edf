-- ===== src/Lib.antt =====
-- A verification library for the back end of RCP, the resource coordination platform: the decisions
-- that its Python services take about users, aid and volunteers.
--
-- The program. Services with a database schema each share nothing but events. IAM (services/iam)
-- owns tenants, users and tokens. Logistics (services/logistics) owns stock, help requests with a
-- form and a workflow for each resource category, and dispatch tasks. Volunteer (services/volunteer)
-- matches volunteers to disasters. Analytics (services/analytics) projects events for reports. The
-- gateway (gateway) limits and forwards requests, and packages/common is what the services share:
-- they verify the tokens that IAM issues with its public keys. A service writes what it announces
-- into an outbox in the transaction of the change; a relay publishes it, and consumers copy what
-- they need of each other's rows.
--
-- The files.
--   Base              shared names; tests and lists over the native numbers; Base/Int integers;
--                     Base/Json parsed JSON values; Base/Text native strings; Base/Opt
--                     optional values; Base/Tables rows with a key; Base/Result values or
--                     errors; Base/Tx a session, with what is durable and what is not yet
--   Common/Outbox     packages/common/rcp_common/outbox.py: build_envelope, emit
--   Common/Relay      services/*/app/events/relay.py: _drain_once and the loop around it
--   Common/Auth       packages/common/rcp_common/auth.py: the cache of keys, JWKSVerifier.verify,
--                     PrincipalDependency, require_any_role, require_tenant_role
--   Iam/Db            services/iam/app/models and app/events/publisher.py
--   Iam/Auth          services/iam/app/services/auth.py: Registration (onboard_tenant,
--                     register_tenant_user, register_global_user, get_nearest_tenant_id), Tokens
--                     (login, refresh, _issue_pair, update_user_profile, change_user_password);
--                     the other children are about these
--   Iam/Admin         services/iam/app/services/admin.py: set_tenant_status, set_user_status,
--                     create_super_admin, admin_reset_user_password
--   Logistics/Status  RequestStatus of services/logistics/app/models/request.py
--   Logistics/Workflow  services/logistics/app/services/workflow.py: _reachable_from; the child
--                     Definition has validate_definition, allowed_next and initial_status
--   Logistics/Db      services/logistics/app/models and app/events/publisher.py
--   Logistics/Inventory  services/logistics/app/services/inventory.py: add_inventory_item,
--                     reserve_stock, release_stock; its child Needs get_donation_needs
--   Logistics/FormSchema  services/logistics/app/services/form_schema.py: Definition has
--                     validate_definition, Payload has validate_payload
--   Logistics/Bodies  services/logistics/app/schemas/resource_schema.py
--   Logistics/Categories  inventory.py: create_category, get_category, update_category,
--                     deactivate_category, with the routes of app/api/routes_inventory.py
--   Logistics/Intake  requests.py: create_request, with the route submit_request
--   Logistics/Requests  services/logistics/app/services/requests.py: get_request, change_status,
--                     with the route update_status of app/api/routes_requests.py
--   Logistics/Dispatch  services/logistics/app/services/dispatch.py: assign_task,
--                     update_task_status
--   Logistics/Replicas  services/logistics/app/events/consumers/iam.py
--   Volunteer/Db      services/volunteer/app/models and app/events/publisher.py
--   Volunteer/Districts  services/volunteer/app/domain/districts.py
--   Volunteer/Profiles  services/volunteer/app/events/consumers/iam.py
--   Volunteer/Broadcast  services/volunteer/app/services/matching.py: declare_event,
--                     _find_candidates, run_matching; and the consumer disaster.py
--   Volunteer/Matching  matching.py: accept_assignment, _mark_requirement_fulfilled,
--                     transition_assignment
--   Analytics/Upsert, Analytics/Projections  services/analytics/app/events/consumer.py, with
--                     app/models/projection.py
--   Gateway/RateLimit  gateway/app/ratelimit.py: RateLimitMiddleware
--   Gateway/Proxy     gateway/app/proxy.py, with ROUTE_TABLE of gateway/app/core/config.py
-- The other children hold proofs. A module Tests runs the definitions at concrete rows.
--
-- How the source is read. A table is a list of records, in the order of insertion; `first`,
-- `select`, `count` and `update` of Base/Lists stand for the queries. A service function is a `Tx`:
-- it gets and changes the work of its session, commits or raises; `run` is one request, and what
-- stays is what was committed. Requests run one after the other, which is what the row locks and
-- the conditional updates are for. UUIDs, times and durations are natural numbers; new ids, the
-- present time, a salt and a random token are arguments. Quantities are integers. An event keeps
-- its routing key, its tenant and its data. argon2, SHA-256, the signature of a token, floats and
-- the settings are fields of the record `Platform`; the library that reads a token, the two calls
-- that read dates and the HTTP client are parameters too, as is whether PostgreSQL takes the
-- texts and the JSON of a new request. A column that the database stamps on an update is given by
-- the parameter `stamp`. The limiter counts time in milliseconds and tokens in thousandths, where
-- the source has floats, and gives a new bucket the reading of the clock with which the request
-- came, where the source reads it again some microseconds later. JSON columns are values of
-- Base/Json; the bodies of requests and the data of events that a schema has parsed are records.
--
-- Fuel. The search `_reachable_from` has fuel 8: a state is queued when it is first seen, there are
-- seven states, and one more round finds the queue empty. The relay drains as many rounds as it is
-- given times. All other loops are over lists.
--
-- Not modelled: HTTP routing, validation by pydantic but for that of a category's body, queries that
-- only read for a listing, SQL itself, the broker and its topology, threads, logging, the totals of
-- the analytics reports, which SQL adds up, the limiter in Redis, the websocket proxy, payments, the
-- directory and the reports of the volunteer service, the Go service services/rto, and migrations.
-- Two transactions that overlap are not modelled, nor a write that the database refuses but for the
-- indexes and keys of users, tokens and projections, and the row of a new request.
pub mod Base
pub mod Common
pub mod Iam
pub mod Logistics
pub mod Volunteer
pub mod Analytics
pub mod Gateway
