-- ===== src/Lib.antt =====
-- SignalFlow runs jobs on cron schedules: a scheduler claims the due jobs from PostgreSQL, runs
-- each one by an executor (a shell command or an HTTP check), records the execution, and asks the
-- dispatcher to notify channels. HTTP handlers reach the same tables through services.
--
-- The parts and their files:
--   * Domain, Domain/Ports: internal/domain, the records and the repository interfaces.
--   * Store, Store/Rows, Store/Statement, Store/Keys: the five tables of migrations/*.up.sql, what
--     the clauses of a statement do with them, and how a statement, a query and a transaction of pgx
--     end.
--   * Repository: internal/repository/postgres. Constraints has the keys, references, checks and
--     cascades of migrations; Job, Execution, Channel, Notification and User the methods of the
--     file of that name; Claim is ClaimDue of job.go; Adapters are the five repositories as
--     implementations of the interfaces; Integrity is what the constraints promise of the tables,
--     and the methods that write.
--   * Executor: internal/executor (Command is command.go, HttpCheck is http_check.go).
--   * Notifier: internal/notifier (Message and Dispatch are notifier.go, Clients the other files).
--   * Scheduler: internal/scheduler/scheduler.go (Policy is shouldNotify, Execute is executeJob
--     and worker, Tick the tick and its helpers, Run is Run as steps of its goroutines).
--   * Service: internal/service, a module for each file.
--   * Handler: internal/handler, a module for each file: Guard has the two guards of middleware.go
--     and session.go, Session the pages of session.go, Http is response.go with the requests and
--     responses, Router the table of routes, each with its guard.
--   * Database: internal/database/database.go, Connect and Migrate.
--   * App: New of internal/app/app.go, which puts the parts together, and the record of
--     internal/config/config.go; App/Consistency has the steps of the scheduler and the requests as
--     the changes of one store. The modules named Keeping carry what every repository keeps through
--     the services, the handlers and the scheduler.
--   * Base: the shared helpers; Base/Effects is Go's pair of a value and an error over a state,
--     Base/Text what strings and strconv do with the fields of a request.
--   * Tests: the results applied to small stores.
--
-- How the code is read. An operation is a function from the program's state to a result and the
-- next state; `err` is an error that the operation returns, with the sentinel that it wraps. The
-- services, the scheduler and the notifier take the repositories as records of operations over
-- any state, and Repository/Adapters gives the ones that the program uses, over `Store`. Text that
-- the code handles byte by byte, and what it is concatenated with, is a list of bytes; the fields of
-- a request are texts of characters. A time is
-- a number of nanoseconds, and Go's zero time is 0. The clock of the program and now() of the
-- server are one sequence of readings, of which each call of time.Now takes the next; within a
-- transaction now() is the time at which it began. A statement meets the failures that the store's
-- `faults` still hold; `locked` are the rows that other transactions hold, which SKIP LOCKED passes
-- over, as the query of ClaimDue adds its own to them until its transaction ends; `text_ok` tells
-- which bytes the TEXT columns for the output and the error of an execution and for the payload of a
-- notification take. An error that pgx reports in the middle of
-- a result, which the code does not read, is a failure of the query. A handler is a function from a
-- request and a state to a response and the next state; a response holds the value that is printed
-- and the name of the page, its status, its place of redirection and its cookie.
--
-- The goroutines of the scheduler are a step relation on a state with the claims of the tick under
-- way, the channel, the workers and the sends; any interleaving is a sequence of steps, in which
-- ClaimDue, a call of executeJob and the send of one notification are one step each. The end
-- of the grace period cancels the runs that are under way; it reaches nothing but the executor, whose
-- libraries are parameters, and the model gives the executor no sign of it.
--
-- Parameters stand for the libraries: cron expressions, bcrypt, tokens, encoding/json, net/http,
-- net/smtp, os/exec, pgx's pool, the migrate library, the formatting of numbers and durations, and
-- the choice of a select statement between a free worker, a shutdown and a timeout.
--
-- Recursion is on lists, but for the attempts of Database.open_migrator, which has as many rounds
-- as the loop has attempts, thirty; Database.Laws proves that they are enough. The drain of the
-- scheduler ends by a measure of the work left. Integers are wrapped to 64 bits where the code
-- multiplies durations.
--
-- Not modelled: Run of internal/app/app.go, which leaves the HTTP server, its shutdown and the
-- scheduler to a library's group of goroutines; reading the environment, the commands under cmd,
-- the templates and static files, the matching of requests to routes, and the middleware of chi
-- for logs, panics and timeouts; log lines; the helpers of internal/testdb. A request is one step
-- between the other operations on the store; what other requests do between its statements is left
-- out. The columns take their values as they are: a timestamptz keeps the nanoseconds that the server
-- cuts to microseconds, and a text that the server refuses is told apart only where `text_ok` is
-- asked, so an identifier that is no UUID is one that no row has, a JSONB column takes any text, and
-- the names and addresses of a request hold no NUL.
pub mod Base
pub mod Domain
pub mod Store
pub mod Repository
pub mod Service
pub mod Handler
pub mod Database
pub mod App
pub mod Executor
pub mod Notifier
pub mod Scheduler
pub mod Tests
