-- ===== src/Cli/BackupGuards.antt =====
-- What stops the backup command.
use dockvault.Common.{◌≡◌, refl, null, not, true, List, [], ◌∷◌, Text, ℤ}
use dockvault.Effects.{
  Call, stat, read_file, read_dir, get_env, home_dir, create_exclusive, write_file, remove, now,
  process_id, find_process, signal_zero, print,
}
use dockvault.Workspace.Lock.{lock_path}
use dockvault.Effects.Keeps.{Only, bind-Only, return-Only, throw-Only, if-Only}
use dockvault.Backup.Job.{Job}
use dockvault.Utils.Questions.{say-Only}
use dockvault.Workspace.Reads.{Readable, home-Only, exists-Only, list_job_names-Only, load_job-Only}
use dockvault.Cli.Backup.{select_job_names}
use dockvault.Cli.Session.{Global}
use dockvault.Cli.BackupCommand.{Runner, load_named, print_plan, backup_selected, run_backup}
use dockvault.Cli.Preparation.{with_lock-Only}

-- A file of the workspace is read, the lock file is taken or released, or a line is printed. No command is
-- run, and no line is read from the terminal.
abbrev pub IsLocal : Call → Type 0
IsLocal (stat path) = Unit {0}
IsLocal (read_file path) = Unit {0}
IsLocal (read_dir path) = Unit {0}
IsLocal (get_env name) = Unit {0}
IsLocal home_dir = Unit {0}
IsLocal now = Unit {0}
IsLocal process_id = Unit {0}
IsLocal (find_process pid) = Unit {0}
IsLocal (signal_zero pid) = Unit {0}
IsLocal (create_exclusive path) = (root : Text) × (path ≡ lock_path root)
IsLocal (write_file path mode content) = (root : Text) × (path ≡ lock_path root)
IsLocal (remove path) = (root : Text) × (path ≡ lock_path root)
IsLocal (print t) = Unit {0}
IsLocal _ = ⊥

IsLocal-Readable : Readable IsLocal
IsLocal-Readable = record {
  stats = λ path. tt;
  reads = λ path. tt;
  lists = λ path. tt;
  env = λ name. tt;
  home = tt;
  clock = tt;
  pid = tt;
  finds = λ pid. tt;
  signals = λ pid. tt;
  creates = λ root. (root, refl);
  writes = λ root mode content. (root, refl);
  removes = λ root. (root, refl);
}

select_job_names-Only :
    (root job_flag jobs_flag : Text) → Only IsLocal (select_job_names root job_flag jobs_flag)
unfolding select_job_names
select_job_names-Only root job_flag jobs_flag =
    if-Only (not (null job_flag)) (return-Only (job_flag ∷ []))
      (if-Only (not (null jobs_flag)) (return-Only _) (list_job_names-Only IsLocal-Readable root))

load_named-Only : (root : Text) (names : List Text) → Only IsLocal (load_named root names)
unfolding load_named
load_named-Only root [] = return-Only []
load_named-Only root (name ∷ names) =
    bind-Only (load_job-Only IsLocal-Readable root name)
      λ job. bind-Only (load_named-Only root names) λ jobs. return-Only _

print_plan-Only : (jobs : List Job) → Only IsLocal (print_plan jobs)
unfolding print_plan
print_plan-Only [] = return-Only tt
print_plan-Only (job ∷ jobs) = bind-Only (say-Only _ tt) λ _. print_plan-Only jobs

dry-Only :
    (run : Runner) (g : Global) (root : Text) (parallel : ℤ) (names : List Text)
    → Only IsLocal (backup_selected run g root true parallel names)
unfolding backup_selected
dry-Only run g root parallel [] = say-Only _ tt
dry-Only run g root parallel (n ∷ ns) =
    bind-Only (load_named-Only root (n ∷ ns)) λ jobs. print_plan-Only jobs

-- A dry run of the backup command reads files and the state of processes, the clock and the
-- environment, prints, and takes and releases a lock file, whichever way the jobs would be run. It runs
-- no command, writes and removes nothing but the lock file, and reads no answer from the terminal.
pub run_backup-Dry :
    (run : Runner) (g : Global) (job_flag jobs_flag : Text) (parallel : ℤ)
    → Only IsLocal (run_backup run g job_flag jobs_flag true parallel)
unfolding run_backup
run_backup-Dry run g job_flag jobs_flag parallel =
    bind-Only (home-Only IsLocal-Readable g.home) λ root.
      bind-Only (exists-Only IsLocal-Readable root) λ present.
        if-Only present
          (with_lock-Only IsLocal-Readable root (
            bind-Only (select_job_names-Only root job_flag jobs_flag)
              λ names. dry-Only run g root parallel names))
          (throw-Only _)
