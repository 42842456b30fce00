-- ===== src/Lib.antt =====
-- OpsPilot is the back end of a multi-tenant business platform (FastAPI, SQLAlchemy, Redis). This
-- library models its core and proves what the parts promise each other. Paths are those of the
-- repository.
--
-- How the parts work together. A request passes the middleware, the rate limiter first; the auth
-- dependencies turn its bearer token or API key into a user and check the permissions of the role;
-- a service reads and writes rows through the repository and emits events on the event bus;
-- handlers on the bus forward events to WebSocket clients and start workflows, whose runs are
-- metered per business and month.
--
-- Which file models what:
--   Prelude        conditionals, lists and dicts on native numbers, results of fallible code
--   Exceptions     app/core/exceptions.py and the exception handlers of app/main.py
--   Repository     app/shared/base_repository.py, pagination.py and the page count of response.py:
--                  a table is the list of its rows, a `where` clause a Boolean test
--   Permissions    app/core/permissions.py
--   Auth           app/modules/auth (models, service, repository, dependencies) and
--                  app/core/security.py: Tokens has the blacklist, Service the operations
--                  (`login`, `refresh_tokens`, `logout`, `get_current_user`, `change_password`),
--                  Registration `register`, Slug its slug, Routes routes.py, and Seeding
--                  `seed_super_admin` of app/main.py
--   Businesses     app/modules/businesses: the workspaces and their update
--   Admin          app/modules/admin: Accounts the overrides on users and workspaces, Platform
--                  health, maintenance mode, listings and the alerts to all sockets, Routes
--                  and Envelopes routes.py
--   Store          the tables of customers, orders and payments, and the events emitted
--   Customers, Orders, Payments
--                  the `service.py` of these modules; an operation takes the tables and answers
--                  with its result and the new tables, or with the exception
--   Commerce       sequences of their calls, each in a session of app/db/session.py
--   Analytics      app/modules/analytics/service.py
--   Metering       app/modules/metering: Cycle has the calendar months
--   RateLimit      app/middleware/rate_limit.py: the bucket in memory, Script the Lua script,
--                  Dispatch the middleware itself
--   Events         app/core/events.py; Wiring has the subscriptions made by app/core/registry.py
--   WebSocket      app/websocket/manager.py and connection.py; Session has auth.py and routes.py,
--                  Broadcaster broadcaster.py and the bridge of events.py
--   Workflows      app/modules/workflows: Engine and Conditions engine.py, Rules routes.py and the
--                  cache of triggers.py, Triggers its handler, Templates the templates of engine.py,
--                  Actions actions.py and the actions of one rule, one after the other
--   Notifications, FeatureFlags, Billing, Audit
--                  these modules of app/modules; of billing, subscriptions and checkouts
--   Maintenance    app/middleware/maintenance.py
--   Application    the middleware stack of app/main.py, with request_id.py and logging.py of
--                  app/middleware
--   Encryption     app/core/encryption.py
--   Logging        app/core/logging.py: what a line says
--   Migrations     migrations/versions: every revision as a list of Alembic's operations
--   Ai             app/modules/ai/service.py
--   Integrations   app/integrations: Paystack, Flutterwave and how they read JSON, and Whatsapp
--   ApiKeys        app/modules/api_keys
--   Tests          concrete inputs, to which the theorems are applied
--
-- State is passed explicitly, a failed operation leaves no new state (the session is rolled back;
-- the WhatsApp handler, which commits in between, answers with the state and the exception), and
-- loops are structural recursion, so that no fuel is used. Ids are natural numbers, which the
-- program only compares; times are whole ticks, in the unit that the file names; amounts are whole
-- cents. New ids, random suffixes and the time are arguments. What third-party code does enters as
-- an argument: the JWT and bcrypt functions and UUID texts (the record `Security`), SHA-256, the
-- order of a query, whether a socket is alive, Python's `str`, `lower`, `strip` and `float` (the
-- record `Python`), the classes of characters, HMAC, JSON and HTTP of the gateways (the record
-- `Gateway`), the language model (the record `Gemini`), AES-GCM, HKDF and base64 (the record
-- `Crypto`), floating point, how Starlette stacks layers and its CORS layer, and what one
-- operation of Alembic does to a database. A handler of the bus is a coroutine, whose steps work
-- on a shared state; the turns that the event loop takes among coroutines are an argument. The
-- concurrent run of a workflow's actions is a function on the state that they share, where the
-- engine is modelled; there actions touch the meters only by counting AI tokens.
--
-- Not modelled: invoices, the clients that send WhatsApp messages, mail, SMS and push, settings,
-- the set-up of the log, the metrics layer, and socket and database I/O. The texts of prompts,
-- fallback answers and notifications are arguments. Inside one operation concurrency is not
-- modelled either, but for the handlers of an emission and the two halves of `update_workflow`:
-- the check and the count of a metered run are one step here.
pub mod Prelude
pub mod Exceptions
pub mod Auth
pub mod Businesses
pub mod Repository
pub mod Permissions
pub mod Admin
pub mod Store
pub mod Commerce
pub mod Customers
pub mod Orders
pub mod Payments
pub mod Metering
pub mod Migrations
pub mod RateLimit
pub mod Encryption
pub mod Events
pub mod WebSocket
pub mod Workflows
pub mod Notifications
pub mod FeatureFlags
pub mod Billing
pub mod Logging
pub mod Maintenance
pub mod Audit
pub mod Ai
pub mod Integrations
pub mod Analytics
pub mod ApiKeys
pub mod Application
pub mod Tests
