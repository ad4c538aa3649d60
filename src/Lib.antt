-- ===== src/Lib.antt =====
-- ATS-ProxyManager: the backend that keeps the configurations of Apache Traffic Server proxies.
--
-- The backend (backend/) is an HTTP service over PostgreSQL. Users edit configurations (domain
-- rules, IP ranges, parent proxies, client ACL), submit and approve them; a helper beside each
-- proxy registers, polls for the files of its active configuration, and reports. Four background
-- jobs clean up.
--
--   Prelude            text, lines and bufio.Scanner, integers, and database tables as lists of rows
--   Domain             backend/internal/domain: enums, errors and row types
--   Store              backend/internal/repository/db.go and PostgreSQL: statements, failures,
--                      transactions; Store/Sat is the logic that the proofs about actions use
--   Repository         backend/internal/repository: one module per repository, one definition per
--                      method, each SQL statement a function on the tables
--   Runtime            what the code takes from Go's library and from packages: parsing of addresses,
--                      quoting, SHA-256, UUID texts, and the orders of ORDER BY and sort.Slice; these
--                      are fields of a record that the definitions take as an argument
--   Regex              the patterns that regexp is used for, by derivatives
--   Generate           generateParentConfig, generateSNIYaml and generateIPAllowYaml of
--                      backend/internal/service/config_service.go
--   Auth               backend/internal/auth: tokens; signing and bcrypt are a record of functions
--   Service            backend/internal/service: ConfigInput (requests, validateRules),
--                      ConfigService (Create, Update, Clone, Delete, Submit, Approve, Reject, the
--                      files and their hash), ProxyService, SyncService, UserService, AuthService
--   Scheduler          backend/internal/scheduler/jobs.go: what a tick of each job does
--   Handler            backend/internal/handler: answers to errors and pagination (response.go), the
--                      middleware, and the handlers of users, login, configs, proxies and sync
--   Migrate            backend/internal/migrate/migrate.go, over a connection of its own: the schema is
--                      whatever PostgreSQL makes of the files, a parameter
--   Helper             helper/: Host (the machine: files, answers, events), Client
--                      (internal/sync/client.go), Manager (internal/ats/manager.go), Loop
--                      (cmd/helper/main.go), Backoff (internal/sync/backoff.go and the defaults of
--                      internal/config/config.go)
--   Server             the requests and jobs as steps from one database to the next; Access and Routes
--                      are router.go with its middleware
--   Invariant          the rules of the tables, and that every statement and method keeps them
--   Laws               what single operations do
--   Tests              a concrete runtime, a run of the whole workflow, and instances of the results
--
-- A UUID is a natural number and its text is what the runtime makes of it; a time is a natural number
-- of nanoseconds. A repository call is an action on a world: the tables, the time, the transaction
-- state, and a schedule that says which of the coming statements fail for a reason outside the
-- program. The results hold of every schedule, unless they say otherwise. A query for several rows
-- that fails does so in `Query`, or after some rows: the repositories do not ask `rows.Err`, so they
-- then answer with these rows and no error. Which of the two it is, and how many rows, is said by a
-- field of the runtime, from the failures still to come; two results ask that it be never the second,
-- and say so. Requests follow one
-- another: the statements of two requests do not interleave. The turns of the helper's loops follow
-- one another too, in any order. All loops run over lists, or over a number of ticks that is an
-- argument, so no fuel is used.
--
-- Not modelled: JSON, CORS and request IDs, lists for display (of users, configs, proxies, logs and the
-- audit log), the embedding of the migration files, the helper's counters, process start and
-- signals, the Redis cache handle (the code never uses it), and the frontend.
pub mod Prelude
pub mod Domain
pub mod Store
pub mod Repository
pub mod Runtime
pub mod Generate
pub mod Regex
pub mod Auth
pub mod Service
pub mod Scheduler
pub mod Invariant
pub mod Server
pub mod Handler
pub mod Migrate
pub mod Helper
pub mod Laws
mod Tests
