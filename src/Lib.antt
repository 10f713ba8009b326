-- ===== src/Lib.antt =====
-- grabarr downloads files from a seedbox with rsync, under a queue with a limit on the jobs at a
-- time, and keeps its jobs and the files it saw in SQLite. This library models the
-- program as functions on explicit states, and proves what they do.
--
-- The parts, and the files that model them:
--   internal/models            Models/: a job and its methods (job.go, Models/Job), a remote file
--                              (remote_file.go), the download settings (download_config.go)
--   internal/repository        Repository/: the tables and how a statement runs (Db), the statements
--                              on jobs (repository.go, Jobs) and on files (remote_files.go, Files)
--   internal/queue/queue.go    Queue/: the state and the channel (State), the calls of the API (Ops),
--                              the scheduler (Scheduler), executeJob (Execute), the archive groups
--                              (Archives), Start, Stop and the cleanup (Lifetime), and all of them
--                              in any order (Events)
--   internal/executor          Executor/: permanent errors (errors.go), the extraction (extract.go),
--                              the download (rsync.go)
--   internal/archive           Archive: names of archives, their groups and first parts
--   internal/config/config.go  Config: sections, validation and reload; Config/Watch: loading the
--                              file, its watcher and those that wait for a change
--   internal/sync/scanner.go   Sync/: the listing of a watched path, and the scan with its automatic
--                              downloads, on the queue and the tables; Sync/Loops: the two loops
--                              of Start, requested scans and the queue's events in any order
--   internal/gatekeeper        Gatekeeper: the rules that let a job start, and the monitor
--   internal/rsync/client.go   RsyncClient: the command and the parser of progress lines; the two
--                              goroutines of a transfer in any order (Goroutines)
--   internal/notifications     Notifications: the requests to Pushover
--   internal/api               Api/: the responses (handlers.go, Response), the parameters of a
--                              request (Query), the handlers of jobs (jobs.go, Jobs) and of files
--                              (remote_files.go, RemoteFiles), the system's (system.go, System)
--   cmd/grabarr/main.go        Main: the service from its start to its shutdown, which composes the
--                              queue, the configuration and the notifications
--   internal/brunogen          Bruno/: the generator of a Bruno collection: syntax trees (Ast), the
--                              regular expressions (Patterns), parser.go (Routes), struct_parser.go
--                              (Structs), and generator.go (Endpoint for the text of a file, Generator
--                              for the files), with cmd/bruno-gen
-- A definition has the name of the source's function or type in snake case or upper camel case.
--
-- A call that may fail is an `Action`: it takes the state and gives a result and the state after
-- it, which a failed call leaves with what was written before (Common/Effects). The repository's
-- state is `Db`; the queue's contains it, and the scanner's contains the queue's. A lock's
-- critical section is one step. Interleavings are lists of events: a call from outside, a case of
-- the scheduler, or a step of a job's goroutine, which starts, reports progress or ends; a scan is
-- one such step, and a step of the queue or of a scan happens under the configuration that is in
-- force then; the goroutines of a transfer and the watcher of the configuration have lists of
-- steps of their own. What is outside the program is an argument: the driver's errors and the
-- clock (`World`), the gatekeeper's answers, the notifier and what fmt makes of a format (`Env`),
-- the shell of an extraction (`Shell`), rsync (`Transfer`), regular expressions, ssh and a scan's
-- context (`Seedbox`). `Quiet` says that the driver reports no error.
--
-- A handler of the API takes what the router, the JSON decoder and the query parser made of the
-- request, and always answers. The service takes what its files, its server and its signals give
-- (`Host`), and the generator what go/parser makes of a file. Other arguments are float64
-- (`Floats`), what statfs gives, and the formats of fmt and the HTTP client of the notifications.
--
-- Numbers: ids, times and counts are natural numbers and the signed fields are integers without a
-- bound. The 64 bits of an int64 are written out where the code computes with sizes: the disk's
-- figures of the gatekeeper and the pages of ListRemoteFiles wrap around; the parser of numbers
-- checks the bound itself. The channel holds 1000 jobs as in the source. Loops are structural
-- recursion on the list that they go through, but for two with fuel: printing a number has one unit
-- for each digit, and the loop of formatBytes has 6, since a size has 63 bits and a round takes 10.
--
-- Not modelled: the routes and web pages of the API, the process of rsync, the JSON of columns
-- and responses, the schema's migrations, the locked getters of the configuration, log lines, and
-- the mocks beside the program. Lines of rsync are taken as shorter than the 64 KiB of a scanner's
-- token, and strings.TrimSpace is on ASCII.
pub mod Common
pub mod Models
pub mod Archive
pub mod Bruno
pub mod Repository
pub mod Config
pub mod Executor
pub mod Queue
pub mod Sync
pub mod Gatekeeper
pub mod Notifications
pub mod RsyncClient
pub mod Api
pub mod Main
pub mod Tests
