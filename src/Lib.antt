-- ===== src/Lib.antt =====
-- Crime Prevention and Personal Safety Application: the logic of its Python service, modelled.
--
-- The service serves a crime map and directions for several cities. safety/etl loads each city's
-- published incidents into the table silver.incident, safety/ops.py decides which loads a city needs
-- and runs them, safety/api answers the map's requests, and safety/routing calls the providers of
-- routes and addresses. What is modelled is what those parts decide and remember; SQL that only reads
-- or writes a table is a function on the list of its rows.
--
--   Prelude       tests, lists, texts, integers, sorting: what the others share.
--   OrderedDict   collections.OrderedDict and dict, as association lists in insertion order.
--   Routing       safety/routing: Breaker (breaker.py, CircuitBreaker), Budget (budget.py,
--                 DailyBudget; `charge` is its `take`), TtlCache (ttlcache.py, TTLCache), Throttle
--                 (service.py, ClientThrottle), Errors (errors.py, and valhalla_error of providers.py),
--                 Client (providers.py, `_Client._call`, which a breaker and a budget guard), Polyline
--                 (polyline.py), Scoring (scoring.py, `pick` and `distinct_routes`).
--   Api           safety/api: RateLimit (ratelimit.py, buckets and middleware), StampedCache (main.py,
--                 `_store` and `cached`).
--   Etl           safety/etl: Pending (pending.py), Withdrawn (withdrawn.py, assess and apply),
--                 Validate (validate.py), Windows (the windows and month buckets of gold.py, and the
--                 fetch window of windows.py), Promote (transform.py, staging and promotion), Schedule
--                 (run.py, who is due and the run over several cities), History and CatchUp (run.py,
--                 history_slices, and cmd_history over the rows of etl.pull_run), Ingest (run.py,
--                 `_ingest`, a pull over a connection with its commits and rollbacks; Ingest.Warehouse
--                 is a pull over the tables of Promote, Ingest.Reconciling what a pull that reconciles leaves
--                 beside one that does not, Ingest.Withdrawal Withdrawn's `apply` on the tables of a pull,
--                 Ingest.Sequences one pull after another).
--   Ops           safety/ops.py: Plan (plan_from_state), Ledger (the cooldown and run_step), Converge.
--   Migrate       safety/migrate.py: Schema (migrations and their checksums), Lock (migration_lock),
--                 Schemes (the severity schemes and which rows of theirs are kept), Weights (inherited
--                 weights), Hours (the clock-hour backfill of a city).
--
-- A class is a record, a method a function from the record to its result and the new record. Code that
-- runs under a lock, or between two awaits of the event loop, is one step; where several threads or
-- tasks interleave, a step relation lets them do so in any order (Routing.TtlCache.Flight,
-- Routing.Client.Trials and Days, Api.StampedCache.Turns). The clock's readings are arguments, as whole
-- seconds, milliseconds, microseconds or ticks; each file says which. Rates, shares and coordinates are
-- whole numbers of a unit in which the program's constants are exact: a rate limiter's token is 2000
-- units, a coordinate a number of millionths of a degree, in Polyline an exact decimal. What is not in the repository is a parameter:
-- what httpx answers is a Reply, which statement the database refuses a Faults, how a command ends an
-- Ending, the row of a state query a State, the operations of floats a Floats, SHA-256 and PostgreSQL's
-- EXTRACT(YEAR) and upper(btrim()) functions.
--
-- Loops are recursions on the list that they consume. Four take fuel. The digit loop of
-- `_encode_value`: a value divided by 32 falls, so as many rounds as the value and one more are enough.
-- The polling of `migration_lock`: as many tries as fit into the wait and one more are enough. The
-- batches of the clock-hour backfill: each writes a row or is the last, so as many as there are rows and
-- one more are enough. The walk back through a city's history: each slice goes back a day at least, so
-- as many as days and two more. The last three are among the results.
--
-- Not modelled: messages, log lines and the text of reasons; the adapters of the cities' portals; the
-- SQL of the gold layers and of the API's queries; the commands of the ETL's runner around a pull; the
-- CSV loaders of crosswalks and weights; how a route is sampled into cells and rated; schemas,
-- configuration, scripts, and the web front end.
pub mod Prelude
pub mod OrderedDict
pub mod Routing
pub mod Api
pub mod Etl
pub mod Ops
pub mod Migrate
