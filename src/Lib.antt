-- ===== src/Lib.antt =====
-- codegen-product-kit: the core of a generated product, the runtime of its packages and two of them, and
-- the framework's specifications: models, operations, manifests and environment contracts.
--
-- A product's backend (template/services/backend/src) records commands and publishes one event for each
-- (the jobs core), fires jobs on a grid of slots through that core (the timer loop), keeps users with
-- their identities and settings with their values, and gives package routes a verified caller. A package
-- consumes the events: the reminders package marks what is due and publishes it from an outbox; the
-- channels package polls a platform and delivers new posts. The framework reads specifications of models
-- and renders their schemas.
--
-- Jobs: app/models/job_command.py, app/repositories/job_command.py and controllers/jobs.py of the backend.
--   The ledger is a list of rows, `fire` is JobsController.fire by one session, and `Step` in Jobs/Dispatch
--   is the same handler by any number of sessions, with the row lock, the commits and crashes between them.
-- Timers: app/timers.py. The loop calls the jobs core through the callback that it is given.
-- Reminders: packages/codegen-kit-reminders/codegen_kit_reminders, api.py, identity.py and runtime.py over
--   the tables of its migration; `handle_job_fired` is the consumer's handler of a tick.
-- Users: app/models/user.py, app/repositories/user.py and controllers/users.py; Users/Caller is
--   app/caller_identity.py. A grant takes the tables it saw first and those its insert meets, so that a race
--   of two sessions is a pair of tables.
-- Settings: app/models/setting.py, app/repositories/setting.py and controllers/settings.py.
-- Consumer: core/idempotent_consumer.py with app/models/event_consumption.py.
-- Channels: packages/codegen-kit-tg-channels/codegen_kit_tg_channels, store.py and models.py in Store,
--   polling.py in Poller, service.py in Service.
-- Spec: framework/spec/types.py in Types, models.py in Models, operations.py in Operations, manifests.py in
--   Manifests and packages.py in Packages. The values are those that pydantic has typed; a validator gives
--   the refusal that it raises. The runtime reads the same package.yaml again, without pydantic: Accepted
--   compares what the two read.
-- Environment: framework/contracts/env_contract.py, the entries and the merge of the owners' fragments.
-- Host: framework/host_contract.py, the claims of Telegram commands; Declarations reads the calls by
--   which a product declares them, as syntax trees, and its callbacks; Settings checks what bindings read.
-- Json: the values of JSON and YAML that both readers take.
-- Packages: template/codegen_kit/packages.py. Manifest reads package.yaml, as a value of Json; Activation
--   discovers the installed packages, checks them against the product's list and mounts them; Ownership
--   finds whose schema a caller may use; Lifecycle starts and stops them. What a callback does is a function
--   of the calls before it.
-- Base: names of the libraries, Boolean tests, dicts in insertion order, a stable sort, HTTP outcomes.
--
-- A handler is a function from its arguments and the tables to an HTTP outcome and the tables; an error
-- that rolls a transaction back leaves the tables, and `none` is an error that is raised. Instants are
-- microseconds, as natural numbers. Lists are in the order of insertion, `ORDER BY` and `sorted` are the
-- sort of Base/Sorting. Every loop runs over a list, but the `while`
-- loop of the shutdown, whose fuel is to exceed the number of packages that were started: each round takes
-- one of them off.
--
-- Parameters, with what is assumed of them as hypotheses: JSON values and their schemas, Python's equality
-- on JSON values and on the entries of an environment contract, uuid5, strftime and isoformat, the clock,
-- the typing of raw data by pydantic, the stream, the platform's client, version specifiers, paths, identifiers and URLs.
--
-- Not modelled: the brokers and the wiring of the web framework and the database, which are input and
-- output; the generators, the command line, the catalog and the lint,
-- which write and read files; the loader of specifications, actions, the bindings, the rest of the
-- host contract, the scan for used variables, the ranking and the textparse packages, and the digest of the channels package.
pub mod Base
pub mod Environment
pub mod Host
pub mod Jobs
pub mod Timers
pub mod Reminders
pub mod Users
pub mod Settings
pub mod Consumer
pub mod Channels
pub mod Spec
pub mod Json
pub mod Packages
