-- ===== src/Lib.antt =====
-- FoodFlow: an order saga over four services. A request creates a PENDING order (services/order);
-- the restaurant service reserves stock for it, the payment service charges it, and the order service
-- confirms it, or marks it failed and has the stock released. Each service has its own PostgreSQL
-- database. A service changes its tables and writes the event that tells of the change to its table
-- `outbox_events` in one transaction; a relay (shared/outbox.py) sends the rows to Kafka; the consumers
-- of the other services read them at least once, and skip what `processed_events` names.
--
-- Where each part is modelled:
--   Prelude: Boolean tests on numbers, and integers (Prelude/Int).
--   Shared: what the services have in common. Shared/Event is shared/events.py and the payloads;
--     Shared/Tables the two tables of events; Shared/Table a table by its key; Shared/Transaction
--     database code, `async with conn.transaction()` included; Shared/Consumer the loop
--     `run_consumer` of every services/*/consumers.py; Shared/Outbox the relay; Shared/Middleware and
--     Shared/Health are shared/middleware.py and shared/health.py; Shared/Response has what the routes print;
--     Shared/Lifespan is `lifespan` of every services/*/main.py; Shared/Migrations is `_run_migrations` of
--     every services/*/db.py, and Migrations of each service its
--     SQL files, each statement with or without its IF NOT EXISTS or ON CONFLICT DO NOTHING.
--   Restaurant: Restaurant/Stock is services/restaurant/stock.py, Restaurant/Consumer is
--     services/restaurant/consumers.py, Restaurant/Api is services/restaurant/routes.py.
--   Order: Order/Status and Order/Transition are services/order/state_machine.py, Order/Consumer is
--     services/order/consumers.py, Order/Create is `create_order` of services/order/routes.py,
--     Order/Api its `get_current_user` and `get_order`.
--   Payment: Payment/Gateway is services/payment/gateway.py, Payment/Consumer is
--     services/payment/consumers.py, Payment/Reconciliation is services/payment/reconciliation.py,
--     Payment/Api is services/payment/routes.py.
--   Auth: Auth/Crypto is services/auth/auth.py, Auth/Routes is services/auth/routes.py,
--     Auth/RateLimiter is services/auth/rate_limiter.py, Auth/RedisClient is
--     services/auth/redis_client.py.
--   Saga: the order, restaurant and payment services together (SYSTEM_FLOW.md). Saga has the steps and the
--     states that they reach; its child modules carry one invariant of the three databases through every
--     step (Saga/Invariant), and Saga/Safety reads off it what the saga promises.
--     Saga/Completion sees an order through, and Saga/Compensation the release of its stock.
--   Tests: concrete inputs.
--
-- How state and effects are modelled:
--   A service's state is the record `Db` of its tables; a function of the service is a `Tx`, a run from
--   one state to the next that returns or raises. A statement raises what PostgreSQL and asyncpg raise
--   for it: a violated constraint by its name, a number that does not fit its column, a text that
--   spells no UUID. `transaction` puts the state back on a raise. A transaction is one step, where it
--   locks the rows that it changes. The payment handler, which has two transactions, is cut between them
--   (`begin_payment`, `finish_payment`), since its process can die there. POST /orders, /register and
--   /refresh read before they write, without a lock: Order/Create/Race and Auth/Routes/Race are about two
--   calls of them that overlap; Auth/Routes/Calls runs calls one after another.
--   What a call draws from outside is an argument: the ids of `uuid4` and `gen_random_uuid()`, the
--   clock, `NOW()` (the records Draw, PaymentDraw, CreateDraw). So are the arithmetic of Python's floats
--   and PostgreSQL's reading of a float as DECIMAL(10, 2) (FloatOps, `to_cents`), and
--   PAYMENT_SIMULATE_DEFAULT. Floats are handed on by their bits. bcrypt, hashlib, PyJWT and Redis are
--   arguments too (Crypto, Decoded, Redis), and so are Python's texts for ids, times and decimals
--   (Texts), with what is needed of them as named hypotheses.
--   An id in an event is the UUID that it spells or a text that spells none (IdText); the case and the
--   hyphens of the text are left out. Every envelope has its four keys; of a payload any key may be
--   absent. Logging and metrics are left out, but for the counter of consumed
--   messages and the line that the middleware logs for a request.
--   The relay's `while True` has fuel for its passes. The fuel suffices if it is greater than the
--   number of rows that wait plus the number of those that arrive during the call. What happens to each
--   pass (the send fails, the commit fails, all goes well) is an argument, and so are the rows that the
--   service inserts before each SELECT: a pass is its own transaction, and marks its row by the id. In Shared/Outbox/Relays several
--   relays share an outbox, and the passes of all are its steps.
--   A loop that runs until the shutdown event (consumer, relay, reconciliation worker) is over the list of
--   its rounds up to then; every other loop is over a list of the program.
--
--   In the Saga a message is any row of an outbox, sent or not yet marked: it can be delivered in any
--   order, late, and any number of times, and a handler can raise at any of its draws. The steps are
--   requests, deliveries, the death of the payment handler between its transactions, and rounds of the
--   reconciliation worker. A payment handler that does not die ends before the next round, as the three
--   minutes of the worker intend.
--
-- Not modelled: the routers of main.py and the options of the pools (db.py), the clients of Kafka, the registry
-- of metrics, the front end and the proxy: wiring of libraries, and browser code.
pub mod Prelude
pub mod Shared
pub mod Restaurant
pub mod Order
pub mod Payment
pub mod Auth
pub mod Saga
pub mod Tests
