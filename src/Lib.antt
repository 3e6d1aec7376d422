-- ===== src/Lib.antt =====
-- Verification of the platforma Go libraries: database migrations, the job queue, users and
-- sessions, the application's life cycle, and wide events. Paths are from the root of the repository.
--
-- Base: the shared names, Boolean tests, lists over the native numbers, texts as lists of code
-- points (Base/Text: packages strings, unicode and path/filepath as far as the code calls them),
-- Go maps as association lists (Base/Dict), error values with errors.Is and errors.Join
-- (Base/Errors) and functions that change the world and may fail (Base/Action).
--
-- Database: Database/Parser is parseMigrationFile of database/migration_fs.go, a state that each
-- line of the file changes; Parser/Spec reads a file's lines as marks and says what they mean.
-- Database/Files is ParseMigrations over a directory. Database/Service is database/service.go and
-- repository.go over any SQL server, which is the record Sql: a type of worlds, and one function
-- per statement. Database/Migrate is database/database.go: the registry and Migrate, which runs
-- the three in turn. The order in which Go walks a map is an argument;
-- Migrate/Orders compares two of them.
--
-- Queue: Queue/ChanQueue is queue/chanqueue.go with Go's channels written out: a send or a close
-- can panic or wait, and the case that a select statement takes is an argument.
-- Queue/Processor is queue/processor.go: Run, its workers and the callers of Enqueue are moves on
-- one shared state, and a schedule is a list of moves, so a theorem about `run` is about every
-- interleaving. Processor/Invariant and Safety keep the state sound, Processor/Termination weighs
-- it, Processor/Closed says what is left when Run ends, Processor/Room when an Enqueue need not
-- wait, and Processor/Refinement sees it as three lists of jobs, without workers.
--
-- Session and Auth: session/ and auth/ as actions on a world that holds the SQL server, the clock
-- and the random numbers. The records SessionDb and AuthEnv list what the code uses of them, of
-- github.com/google/uuid and of bcrypt; what a theorem relies on of these is a record of
-- hypotheses beside it. Auth reaches sessions through the record AuthStorage, which
-- Session.session_storage fills, as in the demo application. Auth/Http is the handlers and the
-- middleware; Auth/Domain is auth/domain.go, the routes of the API, with what net/http.ServeMux does
-- for a method and a literal path written out; Domain/Journey and Domain/Logout go through several
-- requests.
--
-- Application: application/. Startup tasks run in their order before any service; the goroutines of
-- the services, and health checks, are events on a shared record, in any order.
-- Application/Registry holds the databases by address, as *Database values are shared, and registers
-- domains; the health check handler is there too. Registry/Migrating goes from there to the command
-- migrate, Registry/Reports is about the health check, whose healthcheckers are arbitrary code called
-- in turn, and Application/Ending about the WaitGroup that run waits for: its counter and the phase of
-- run are in the state that the services share.
--
-- Scheduler: scheduler/scheduler.go. Run is a list of events: the cron library calls the function,
-- a call ends, Run sees that its context is done and calls Stop, no call runs any more; calls may
-- overlap.
--
-- Log: Log.antt and Log/Requests are log/event.go, sampler.go, levels.go and
-- wideevent_middleware.go; a handler is the list of what it does with its response writer and its
-- event, and what it panicked with, if it did. Log/Logger is wideevent_logger.go and the context
-- handler of log.go, over contexts as functions, with the pairing of arguments in Log/Arguments
-- (Logger/Unforged and Logger/Kept are about the keys that are reserved and those that are not);
-- Log/Package is the rest of log.go, and Log/Tracing is traceid.go.
--
-- HttpServer: httpserver/handlergroup.go and middleware.go, with what http.StripPrefix does written
-- out; a handler is a function of the request's paths. HttpServer/Responses is response.go and
-- recover.go, where a handler is a function of its response writer; HttpServer/Server is
-- httpserver.go and fileserver.go. HttpServer/Mux is what the programs below use of
-- net/http.ServeMux: patterns with an optional method and a literal path or subtree, the more
-- specific one first.
--
-- Demo: the programs under demo-app/cmd, which put the parts together. Demo/Auth is auth/main.go, a
-- server with the API of auth/ below one prefix and a page for users below another; Demo/Api is
-- api/main.go; both are built by the functions of HttpServer/Server and Auth/Domain from handlers
-- (Demo/Replies) that see the paths, the context, the headers of the response so far and the request,
-- and that may panic. Demo/Auth/Routes and Demo/Api/Traces compute where a request goes,
-- and Auth/Profile and Auth/Leaving follow a user through several requests. Demo/Database
-- is database/main.go, Demo/Jobs queue/main.go, Demo/Schedules scheduler/main.go and
-- scheduler-cron/main.go, Demo/Clock clock/main.go and Demo/WideEvents wide-events/main.go.
-- Demo/Auth/Setup holds the migrations that the domains of session/ and auth/ embed.
--
-- Tests runs the models on small inputs.
--
-- Bounds: no function runs on fuel. A line of a migration file has at most 64 KiB less one byte,
-- the limit of bufio.Scanner; times are in nanoseconds and do not overflow.
--
-- Not modelled: log calls, except those of the scheduler and of the programs' own tasks; the cron
-- library's parser and its times; what log/slog prints for an entry; listening for HTTP requests; of
-- net/http.ServeMux, wildcards, hosts and redirects; signals; a panic of a scheduled runner, which
-- ends the program; the waiting and the printing of the programs under demo-app/cmd.
pub mod Base
pub mod Database
pub mod Queue
pub mod Scheduler
pub mod Session
pub mod Auth
pub mod Application
pub mod Log
pub mod HttpServer
pub mod Demo
pub mod Tests
