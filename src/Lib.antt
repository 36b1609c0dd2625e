-- ===== src/Lib.antt =====
-- micro-mart: a shop of services that talk over HTTP, each with a database of its own. A client
-- reaches user-service, product-service and order-service through api-gateway, which verifies its
-- token and tells them who it is. order-service runs the saga of an order: it reads the products,
-- stores the order, deducts the stock product by product, asks payment-service for the payment, undoes
-- the deductions when a later step fails, and publishes an event that notification-service handles.
--
-- Shared: the handler monad (`Action`: a state, a result or an exception), HTTP errors and replies,
-- database sessions (what is flushed, what is committed, what has been committed before; get_db in
-- each service's app/database.py), lists, sorting, dictionaries whose entries expire (Timed), texts as
-- code points (Texts) and decimal numbers in them (Decimal).
--
-- Product (services/product-service/app): Table is models.py and schemas.py, Cache is cache.py,
-- Stock and Catalog are services/product_service.py, Routes is routes/products.py, dependencies.py
-- and the constraints of schemas.py, and runs histories of requests, waiting and cache expiry. An
-- UPDATE, with its RETURNING row, is one step. Redis is a list of entries and a list of faults, one
-- for each call to come. The further modules are named for what they are about: Reference, Lookup,
-- Invariant, Locking, Conservation, Coherence, Paging.
--
-- Payment (services/payment-service/app): Table is models.py and schemas.py, Service and Refunds are
-- services/payment_service.py, Routes is routes/payments.py, dependencies.py and the constraints.
-- The draw of the chaos mode, the transaction number and the clock are arguments (`Chance`).
-- Requests run one at a time in Ledger, and interleaved at their halves in Races.
--
-- Order (services/order-service/app): Table is models.py and schemas.py, Clients is
-- services/http_clients.py over an interface `Remote` of the called services, Placing and Saga are
-- create_order and _publish_order_completed of services/order_service.py, Queries is get_order,
-- list_orders, routes/orders.py and dependencies.py. Laws states what the saga relies on of the
-- called services (`KeepsStock`): stock moves as the replies say, and a successful reply has the
-- body that its endpoint declares. Balance, Attempts, Rows, Deduction, Charging, Outcome, Placed,
-- Totals, Created, Ending, Recovery, Admission, Privacy and BestEffort reason about it; a world keeps
-- the trace of order-service's commits and requests.
--
-- Network fills the interface with the routes of product-service and payment-service. It may lose a
-- request before it arrives, and the reply to a reading or a payment that was executed. A reply to a
-- deduction or a restore that is lost is outside `KeepsStock`: order-service then takes an executed
-- deduction for a failed one. Lost is about a payment whose reply is lost. Identity follows a user
-- from a login through api-gateway to order-service.
--
-- Gateway (services/api-gateway/app): the root module is `JWKSCache` of middleware/auth.py, where what
-- follows the taking of the lock is a function of its own, on the cache as it is by then. Paths has
-- is_public_path, get_target_url and _classify_path, Dispatch has verify_jwt of middleware/auth.py and
-- the two middlewares of main.py, Proxy has services/proxy_service.py, router.py and the chain of
-- main.py. Keys, Headers, Identity, Serving and Trust reason about it, Trust together with what
-- user-service gives as its keys. PyJWT, `propagate.inject` and the services behind are arguments.
--
-- User (services/user-service/app): Table is models.py and schemas.py, Tokens is the refresh tokens of
-- auth.py over two dictionaries of Redis, Codec is their keys and values as texts, Jwks is
-- get_jwks_service, and Service is the rest of services/auth_service.py with a database, Redis and a
-- clock; it runs histories of requests and waiting. A handler is one step there. Under Concurrent it is
-- the commands that it sends to Redis and the database (Commands, one for each `await`), which run with
-- no other request between them (Alone, Refinement) or interleaved with those of others (Steps;
-- Holders, Avoiding, Confined, Spent, Progress and Logins reason about them). What `uuid4` draws is an
-- argument, and the theorems ask that it is no known token. passlib and jose are arguments. Accounts,
-- Lookups, Links, Sessions, Tombstones, Rotation, Replay and Life reason about whole handlers.
--
-- Notification (services/notification-service/app): the handler of services/notification_service.py
-- with the counters, the schema, and the NATS client of main.py and nats_client.py; Laws also composes
-- it with what order-service publishes.
--
-- Telemetry (shared/telemetry): the middleware that logs requests, and what init_logging and
-- init_telemetry register. Startup: the life of order-service with its NATS client (app/main.py), the
-- options of an engine (app/database.py), the keys of user-service (app/config.py), and the URL of a
-- migration (alembic/env.py). Pins (scripts/validate_pinned_versions.py): the check that pinned
-- versions are published, with PyPI as an argument.
--
-- Bounds: numbers are naturals without the database's limits, but for a user's id at order-service,
-- payment-service and notification-service, which is read from a header or a body and may be negative.
-- What the database orders rows by whose times are equal is an argument of each listing. The retry
-- loop of a deduction recurs on the rounds that are left, which is the bound of its `for`; every other
-- loop recurs on a list.
-- Only the decimal digits and the bit length of a number run on fuel, which is the number and one
-- more. A request's commands are a tree that ends on every path, and a scan gives any keys of the user.
--
-- Left out: the texts of messages, log lines (but for those of the middleware of shared/telemetry),
-- traces, sleeping, and the metrics but for the counters of api-gateway and notification-service;
-- updated_at of orders and both times of payments and users; ids below zero in a path.
-- `hmac.compare_digest` is equality of texts, and Python's `int` on a header is a parameter.
-- Redis of user-service does not fail, and a pipeline is one step. The rate limit is slowapi's. The
-- other settings and lifespans, the migrations and generate_keys.py are not modelled; they only call
-- libraries.
pub mod Shared
pub mod Product
pub mod Payment
pub mod Order
pub mod Network
pub mod Gateway
pub mod User
pub mod Notification
pub mod Identity
pub mod Pins
pub mod Telemetry
pub mod Startup
mod Tests
