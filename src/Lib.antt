-- ===== src/Lib.antt =====
-- Dockvault backs up Docker volumes, databases and host directories to a cloud remote through rclone,
-- and restores them. This library models its core in the shape of the Go code: each function with its
-- guards, early returns and error messages, over a world that answers every request to the outside.
--
-- Parts and files. Paths are from the repository's root.
--   Common: texts as lists of bytes, numbers, paths, instants, sorting, and their lemmas. `path_join`
--     and `path_base` are Go's `filepath.Join` and `filepath.Base`, `parse_rfc3339` is `time.Parse`.
--   Effects: the requests that the program makes (commands, files, clock, webhook, terminal), errors and
--     panics as results, and the monad of the program's steps. Effects/Keeps has the rules that bound
--     what a computation may ask for.
--   Json: decoding of documents into fields.
--   Docker, Rclone: internal/docker/client.go and internal/rclone/client.go. `run`, `exec`, `stop`,
--     `start`, `cp`, `upload`, `list_files`, `download`, `prune`, `hashsum` and `files_to_prune` have
--     the names of the methods.
--   Backup: internal/backup. Job is executor.go, Upload, Record, Manifest, LocalCopy and Size are
--     `UploadArchive`, `RunAndRecord`, `ComputeManifest` and so on, and there is one module for each
--     executor, whose `backup` calls `run_and_record` around its `backup_core`.
--   Restore: internal/restore. Verify holds the integrity checks, and there is one module for each
--     restorer.
--   Workspace: internal/workspace. Paths, JobFile, Env, History, Config and Lock are workspace.go, job.go,
--     env_unix.go, manifest.go, config.go and lock.go; a workspace is the text of its root.
--   Utils, Logger, Detector, Generator: the validators and the questions on the terminal
--     (Utils/Selectors), internal/logger, internal/detector (service types, names, credentials, the scan of
--     containers and volumes in Scan, that of host paths in HostPaths) and internal/generator (jobs from
--     findings, the trial connections in Connectivity, and wizard.go in Dialogue and Wizard).
--   Scheduler: internal/scheduler, with one module for systemd, launchd and Windows each.
--   Cli: internal/cli. Registry has the executors by name, Session what the commands share, Backup and
--     BackupCommand are backup.go, and Runs has `runJobs` as a relation of steps: the loop starts a
--     goroutine, or one ends. Restore, Scan, List, Tree, Generate and Schedule are the files of these names;
--     `run_restore` is `runRestore`, and so on. A command takes its flags as arguments.
--   Tests: runs at concrete worlds, and the theorems at them.
-- The executors reach Docker and rclone through the records `DockerClient` and `RcloneClient`, the
-- interfaces of internal/backup/executor.go; Docker and Rclone implement them, and the theorems
-- about executors and restorers hold for every implementation.
--
-- What stands outside. `Platform` answers a request by an arbitrary function of the requests before
-- it, so files, commands and the clock may change between two requests. The digests SHA-256 and
-- MD5, the size of a content, gzip, the text of a float quotient and the syntax of JSON text are
-- its fields.
--
-- Bounds and fuel. The wait for a Redis save makes at most 60 polls, as `maxPollAttempts` says, and
-- is recursion on the polls left. A question that is asked again takes a unit of fuel for each
-- answer: on an input that ends, more units than lines are enough. The loop of `FormatBytes` runs
-- on fuel: a size of `n` bytes has `n` rounds, and each round divides by 1000. Sizes and counts of
-- the machine are unbounded numbers here.
--
-- Simplifications. A text is a list of bytes, and `%q` quotes as it does for printable bytes. Keys
-- of JSON objects match exactly, and a document that the program prints is read back as it is,
-- where Go replaces bytes that are not UTF-8. The time of a last backup in the history is kept as
-- its text, without the check that it is one. `TrimSpace` takes off the space of ASCII. The two
-- registries of internal/cli/registry.go have the same names and are one lookup. The order of a Go
-- map is the order of the list that models it. A day is 24 hours in `AddDate`. Files of equal times
-- keep the order of the listing, where `sort.Slice` leaves it open. Cancellation of a context is an
-- error of the request that it cuts short.
--
-- The lock is modelled for one run; several runs that interleave are not modelled. A concurrent run
-- of jobs leaves open which result each of them writes. The result of one job is `run_job`, without
-- the lines of the log and the time that it took. Letters are lowered as in ASCII.
--
-- The backup command takes the concurrent run of its jobs as a parameter, of which `run_in_order`
-- is one, and generate takes the dialogue of --interactive, of which Generator/Wizard has the loop.
-- The walk for `.env` files goes through five levels, from depth 4 to 0. Output is printed in
-- pieces: a printed text stands for a line, or for a prompt.
--
-- Not modelled: the parsing of flags, the help and the setup wizard, the credentials of Windows and
-- the secrets store, the optional plugin: dialogues, output, or calls of the operating system.
pub mod Common
pub mod Effects
pub mod Json
pub mod Docker
pub mod Rclone
pub mod Backup
pub mod Restore
pub mod Workspace
pub mod Utils
pub mod Logger
pub mod Detector
pub mod Generator
pub mod Scheduler
pub mod Cli
pub mod Tests
