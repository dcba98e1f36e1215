-- ===== src/Cli/BackupCommand.antt =====
-- `runBackup` of internal/cli/backup.go. The concurrent run of the jobs is a parameter here: any function
-- from the clients, the jobs and the number of parallel runs to their results.
use dockvault.Common.{
  Bool, List, [], ◌∷◌, ◌++◌, ◌||◌, inl, inr, Text, codes, ℕ, ℤ, pos_part, quoted, ltb, format_date,
  path_join, if◌then◌else◌,
}
use dockvault.Effects.{Answer, M, ◌>>=◌, ◌>>◌, return, fail, attempt, perform, now}
use dockvault.Docker
use dockvault.Rclone
use dockvault.Logger
use dockvault.Logger.{Logger}
use dockvault.Utils.Selectors.{say}
use dockvault.Backup.Job.{Job, unique_remote_dirs}
use dockvault.Backup.Clients.{DockerClient, RcloneClient, docker_client, rclone_client}
use dockvault.Workspace.Paths.{home, exists, logs_dir}
use dockvault.Workspace.JobFile.{load_job}
use dockvault.Workspace.Config.{load_config}
use dockvault.Cli.Backup.{
  JobResult, select_job_names, run_job, record_results, print_backup_summary,
}
use dockvault.Cli.Session.{Global, no_workspace, with_lock, ping_docker, configured_remote}

-- How the jobs are run.
abbrev pub Runner : Type 0
Runner = DockerClient → RcloneClient → List Job → ℕ → M (List JobResult)

-- One job after another.
unfoldable pub run_in_order : Runner
run_in_order dc rc [] parallel = return []
run_in_order dc rc (job ∷ jobs) parallel = do
  r ← run_job dc rc job
  rest ← run_in_order dc rc jobs parallel
  return (r ∷ rest)

unfoldable pub load_named : Text → List Text → M (List Job)
load_named root [] = return []
load_named root (name ∷ names) = do
  job ← load_job root name
  jobs ← load_named root names
  return (job ∷ jobs)

unfoldable pub print_plan : List Job → M (Unit {0})
print_plan [] = return tt
print_plan (job ∷ jobs) =
    say (
      codes "[dry-run] would run job "
      ++ (quoted job.name
          ++ (codes " (" ++ (job.backup_type ++ (codes ") -> " ++ job.google_drive_path)))))
    >> print_plan jobs

unfoldable pub make_dirs : Rclone.Client → List Text → M (Unit {0})
make_dirs rc [] = return tt
make_dirs rc (dir ∷ dirs) = Rclone.mkdir rc dir >> make_dirs rc dirs

unfoldable pub log_path : Text → M Text
log_path root = do
  t ← perform now
  return (path_join (logs_dir root ∷ (codes "master_" ++ (format_date t ++ codes ".log")) ∷ []))

-- Less than one is one.
unfoldable pub at_least_one : ℤ → ℕ
at_least_one n = if ltb (pos_part n) 1 then 1 else pos_part n

unfoldable pub warn_unless_saved : Logger → Answer (Unit {0}) → M (Unit {0})
warn_unless_saved lg (inl e) = Logger.log lg Logger.warn (codes "saving manifest: " ++ e.message)
warn_unless_saved lg (inr done) = return tt

unfoldable pub backup_jobs : Runner → Global → Text → ℤ → List Job → M (Unit {0})
backup_jobs run g root parallel jobs = do
  cfg ← load_config root
  ping_docker
  rc ← configured_remote g cfg
  make_dirs rc (unique_remote_dirs jobs)
  path ← log_path root
  lg ← Logger.new path
  results ← run (docker_client Docker.new) (rclone_client rc) jobs (at_least_one parallel)
  saved ← attempt (record_results root results)
  warn_unless_saved (record lg { verbose = g.verbose }) saved
  print_backup_summary results

unfoldable pub backup_selected : Runner → Global → Text → Bool → ℤ → List Text → M (Unit {0})
backup_selected run g root dry_run parallel [] =
    say (codes "No jobs found. Run `dockvault generate` first.")
backup_selected run g root dry_run parallel (n ∷ ns) = do
  jobs ← load_named root (n ∷ ns)
  if dry_run then print_plan jobs else backup_jobs run g root parallel jobs

unfoldable pub run_backup : Runner → Global → Text → Text → Bool → ℤ → M (Unit {0})
run_backup run g job_flag jobs_flag dry_run parallel = do
  root ← home g.home
  present ← exists root
  if present
      then with_lock root (do
        names ← select_job_names root job_flag jobs_flag
        backup_selected run g root (dry_run || g.dry_run) parallel names)
      else fail (no_workspace root)
