-- ===== src/Lib.antt =====
-- A model of the inventory-management API, a FastAPI service over PostgreSQL that keeps stock levels
-- by product and warehouse, an audit trail of movements, and low-stock alerts.
--
-- Parts. A request comes in by a route (app/api/v1/endpoints/), which opens a database session
-- (app/core/session.py) and calls a service (app/services/), which reads and writes rows
-- (app/models/) through repositories (app/repositories/) and commits. The command service records
-- stock movements: it validates, locks the rows of the affected pairs, changes the levels, adds
-- the movement to the trail and commits; then the alert service evaluates the new levels, and the
-- event of the movement is published. Events reach WebSocket clients through Redis: a listener
-- publishes each as a message (app/websockets/listeners.py), and a relay in each API process
-- (app/websockets/pubsub.py) hands it to the connection manager (app/websockets/manager.py).
-- Errors are values: domain exceptions, with their HTTP status, and those of the database layer.
--
-- Files, and the code that each models:
--   Base, Base/Int, Base/Rows, Base/Pages, Base/Sums: shared notation; integers over the native
--     naturals; lists of rows, pages of them, and sums over them.
--   Errors: app/core/exceptions.py, app/core/error_handlers.py.
--   Models: app/models/*.py. Events: app/events/inventory.py, app/events/base.py.
--   Events/Publisher: app/events/publisher.py.
--   Session: app/core/session.py; actions on a session, with rows seen, rows committed, locks taken,
--     events published and emails queued. Session/Ends and Session/Keeps reason about actions.
--   Repositories: app/repositories/*.py with the constraints of app/models/*.py. Base is the generic
--     repository, Inventories, Alerts, Catalog, Movements and Users the concrete ones;
--     Keyed is on unique keys.
--   Schemas/Movement, Schemas/Catalog: app/schemas/movement.py, product.py and warehouse.py.
--   Stock: the specification of stock levels that the trail must account for. Stock/Ledger: that of
--     the write side as clients see it, with the movements that it allows.
--   Services/Command: app/services/inventory_command.py. Changes and Increase are on one leg of a
--     movement, Moves on both, Transaction on the work up to the commit, Record on the whole request.
--     LegLocks, RowsStay, Locks and Plan are on the locks; Faults is on what it raises, Causes and
--     Decisions on why, Refines and Runs on the ledger.
--   Locking: requests at the same time that take the row locks of their movements. Order is on what
--     each keeps to, Progress on who can go on, Finish on whole schedules.
--   Services/Alert: app/services/alert.py. Frame says what it leaves alone, Recovery and Alarm treat
--     its two halves, Reflects the whole; Resolution is on the resolution by hand, Race on two
--     evaluations at once.
--   Services/Query: app/services/inventory_query.py.
--   Services/Product, Services/Warehouse: app/services/product.py, app/services/warehouse.py.
--   Services/Report, Tasks/Reports: app/services/report.py, app/schemas/report.py and
--     app/tasks/reports.py. Totals is on the figures, Export on the files.
--   Core/Email, Tasks/Notifications: app/core/email.py and app/tasks/notifications.py. Recipients is
--     on who is written to.
--   Tasks/Alerts: app/tasks/alerts.py, the periodic sweep over all levels. Sweep is on its end,
--     Settled on what it evaluates. Tasks/Monitoring: app/tasks/monitoring.py.
--   Websockets/Manager: app/websockets/manager.py. Websockets/Listeners: app/websockets/listeners.py
--     and the imports of app/main.py and app/tasks/celery_app.py. Websockets/Pubsub:
--     app/websockets/pubsub.py.
--   Websockets/Lifetime: the job of app/core/scheduler.py, and app/api/v1/endpoints/websockets.py.
--   Core/Middleware: app/core/middleware.py and the middlewares of app/main.py. Tagged is on the
--     answers. Core/Scheduler: app/core/scheduler.py and the lifespan of app/main.py. Core/Config: the
--     validator of app/core/config.py.
--   Core/Security, Core/Cache: app/core/security.py and app/core/cache.py. Staleness is on the age of
--     what is cached.
--   Api/Deps: app/api/deps.py. Access is on who gets through.
--   Api/Endpoints, Api/Routes: app/api/v1/endpoints/*.py, router.py and responses.py. Request has all
--     REST routes but the two reports, and Routes/Served all of them. Statuses is on
--     the answers, ClientErrors on what is committed behind them, Reports/Age on the cached reports.
--     Session/Raises, Session/Atomic and the modules Raised, Quiet, Atomic and Faults of Repositories
--     and Services say what each action can raise, and whether it has committed by then.
--   Tests: small runs, and the theorems at concrete inputs.
--
-- Correspondence. Functions carry the names of the Python functions; a branch or a loop that has a
-- function of its own says so in a comment. An action takes the state of the session and returns a
-- result or an error, with the state; what was done before a raise stays done in the session, and
-- is dropped when the session closes without a commit. The identity of an ORM object is the id of
-- its row: a change of an object is a change of its row. SQL that returns rows without ORDER BY
-- returns them in an order of the environment's choice.
--
-- Environment. The database, the clock, uuid4 and the task broker are the record Env, a parameter:
-- a SELECT returns a permutation of the rows that meet its condition, and the same one each time
-- while the rows are the same, which PostgreSQL promises only for the columns of an ORDER BY; the
-- Integer columns take the integers that `integer_fits` says. What a column refuses (NOT NULL,
-- UNIQUE, foreign keys, ranges) follows app/models/. The text forms of ids and times (Texts) and JSON (Json) are parameters of
-- the WebSocket modules, PyJWT (Jwt) of the dependencies, Redis (Redis, Codec) of the cache,
-- the SMTP server (Mailing) of the emails, Starlette's layers (Framework) of the middlewares, and
-- APScheduler (JobScheduler). A UUID is its 128-bit integer, a price a whole number of cents, a time
-- a number of seconds. Integers are unbounded, as in Python.
--
-- Bounds. Loops over a list recurse on it. The sweep's `while True` runs on fuel, one unit for each
-- page of 200 rows and one for the empty page that ends it; a theorem says how much is enough.
--
-- Sessions at the same time (Locking) are seen by their locks alone: `SELECT … FOR UPDATE`, and the
-- entry of a new row in a unique index, make a session wait while another holds the row, until that
-- one ends. Each session takes its locks in the order of `lock_plan`, and commits
-- or rolls back.
--
-- Not modelled. What concurrent sessions read of each other: for its effects, a request runs alone,
-- but for the stale read of Services/Alert/Race. Texts of error messages, the times in logs, the
-- parsing of requests, the retries and schedules of Celery and the network are outside; the publish
-- step of an action only records the event, since the publisher never raises.
pub mod Api
pub mod Base
pub mod Core
pub mod Errors
pub mod Events
pub mod Locking
pub mod Models
pub mod Repositories
pub mod Schemas
pub mod Services
pub mod Session
pub mod Stock
pub mod Tasks
pub mod Tests
pub mod Websockets
