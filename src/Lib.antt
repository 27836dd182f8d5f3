-- ===== src/Lib.antt =====
-- This library models the backend of a display factory line (backend/app): FastAPI services over a
-- database in which machines report events, the host gives orders, and glass panels go in lots along
-- the route of their product, OLED or LCD.
--
-- The parts and their files:
--   Prelude      equality tests, lists as tables, optional texts; the shared lemmas.
--   Enums        backend/app/enums.py: the enumerations with the texts that the code stores.
--   Rules        backend/app/domain/rules.py: routes, aliases, equipment tables; Rules.Routes,
--                Rules.Equipments and Rules.Aliases are about them.
--   Models       backend/app/models.py: a record for each table, and `Db` for the database.
--   Schemas      backend/app/schemas.py and services/timeutil.py: the requests.
--   Env          the clock, config.py's settings, and what the code calls outside the repository.
--   Numerals     the decimal texts that Python's format and int make and read.
--   Fingerprint  backend/app/services/fingerprint.py.
--   Adapter      backend/app/adapters: the choice of an adapter, push, delivery.
--   Validation   backend/app/services/validation.py: `validate_event` as a chain of checks (Guards),
--                its alarms (Warnings), what each check asks (Conditions), and admission as a whole.
--   Alarms       backend/app/services/alarm_service.py.
--   Downtime     backend/app/services/downtime.py.
--   Journal      backend/app/services/state_change.py and event_log.py.
--   WorkOrders   backend/app/services/work_orders.py.
--   Ingestion    backend/app/services/event_ingestion.py and collector.py: `ingest_event`, its parts
--                in the source's order (Steps, Settle), and what it does, by subject; how it
--                answers to the dispatch (Dispatched).
--   Commands     backend/app/services/commands.py: `execute_command`, its nine orders (Orders), and
--                what they keep (Keeps, Tidy) and undo (Trips).
--   Offline      backend/app/services/offline.py: the detector of silent equipment.
--   Dispatch     backend/app/services/dispatch.py: where a glass goes next (Next, Choice, Progress).
--   HostPrep     backend/app/services/host_prep.py: the host makes the line ready.
--   RateLimit    backend/app/services/ratelimit.py: the limit on writing requests.
--   Seed         backend/app/seed.py: the masters and the sample cassettes.
--   Maintenance  backend/app/services/maintenance.py: the reset of the demo (Reset).
--   LineRunner   backend/app/services/line_runner.py: an order run through the line; that it answers
--                (Runs), what a good end means (Ends), and how long it may be (Limits).
--   Demo         backend/app/services/demo.py.
--   Scenarios    backend/app/services/scenarios.py: the scripts (Scripts) and their runs (Runs).
--   Pilot        backend/app/services/demo_pilot.py: the autopilot, its counters (Schedule) and what
--                its jobs keep (Alive).
--   History, Replay  backend/app/services/history.py and replay.py.
--   Oee, Production, Kpis, Mes, Anomaly, Diagnosis  the reports of backend/app/services.
--   Line         events, pushes, commands, orders, resets and offline rounds in any
--                sequence.
--   Samples, Witnesses  a small line on which the theorems are applied.
--
-- A handler ends in one commit and is modelled as one function from database to database. Requests
-- that the server serves at the same time are sequences of such steps; what two sessions do between
-- their commits is not modelled. A table is the list of its rows; `db.get` finds the first row with
-- the key and an assignment changes every row with it, so both are the source's where keys are unique,
-- as the database's primary keys are. Ids that the database draws come from the counter `serial`.
--
-- Parameters, with no assumption about them: the type of floats and its operations, SHA-256,
-- `strftime`, `isoformat`, and Python's `lower` and `upper`. Times are whole microseconds from
-- `datetime.min`; a timestamp whose UTC is not between `datetime.min` and `datetime.max` raises, as in
-- the source, and the clock of the server is taken to be far from both. `utcnow()`
-- answers one time throughout a call of a handler. `str.isdigit` and `int` are modelled on ASCII
-- digits. `decimal n` has n + 1 rounds of fuel, one for each digit and more; every other loop is
-- structural, or counts down the rounds that the source itself allows: 80 for the run of an order.
-- Orders of texts in the database and in Python are parameters, and so are the mean and the deviation
-- of Python's `statistics`.
--
-- Not modelled: the texts that only people read (messages, names, sentences of reports), log lines,
-- the widths of the columns (PostgreSQL refuses a text that is longer than its column, and SQLite
-- takes it: the texts are taken to fit),
-- the event bus, sessions and roll-back, the HTTP routes, the SQL views, the dashboards, and the
-- programs that play the machines.
mod Prelude
pub mod Enums
pub mod Rules
pub mod Models
pub mod Schemas
pub mod Seed
pub mod Maintenance
pub mod Env
pub mod Numerals
pub mod Fingerprint
pub mod Adapter
pub mod Validation
pub mod Alarms
pub mod Downtime
pub mod Journal
pub mod WorkOrders
pub mod Ingestion
pub mod Commands
pub mod Offline
pub mod Dispatch
pub mod RateLimit
pub mod Line
pub mod HostPrep
pub mod LineRunner
pub mod Demo
pub mod Scenarios
pub mod History
pub mod Replay
pub mod Oee
pub mod Production
pub mod Kpis
pub mod Mes
pub mod Pilot
pub mod Anomaly
pub mod Diagnosis
mod Samples
mod Witnesses
