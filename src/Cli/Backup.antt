-- ===== src/Cli/Backup.antt =====
-- internal/cli/backup.go: the selection of jobs, the run of one, the history and the summary.
use dockvault.Common.{
  ℕ, suc, ◌-◌, Bool, true, false, not, Option, none, some, List, [], ◌∷◌, ◌++◌, Text, codes, null,
  keep, map, length, pos, Instant, trim_space, split, quoted, decimal, format_rfc3339_nano, ◌==◌,
  if◌then◌else◌,
}
use dockvault.Effects.{Error, errorf, M, ◌>>=◌, ◌>>◌, return, fail, perform, print}
use dockvault.Backup.Job.{Job}
use dockvault.Backup.Clients.{DockerClient, RcloneClient}
use dockvault.Workspace.JobFile.{list_job_names}
use dockvault.Workspace.History.{ManifestEntry, upsert, load_manifest, save_manifest}
use dockvault.Cli.Registry.{Kind, registered, backup_by}

-- Both flags are empty by default.
unfoldable pub select_job_names : Text → Text → Text → M (List Text)
select_job_names root job_flag jobs_flag =
    if not (null job_flag)
    then return (job_flag ∷ [])
    else if not (null jobs_flag)
    then return (keep (λ p. not (null p)) (map trim_space (split jobs_flag b',')))
    else list_job_names root

-- The time that a job took is left out.
pub record JobResult : Type 0 where
  pub job : Job
  pub failure : Option Error

abbrev result_of : Job × Option Error → JobResult
result_of (job, e) = record { job = job; failure = e }

unfoldable pub run_registered : DockerClient → RcloneClient → Job → Option Kind → M JobResult
run_registered dc rc job none = return (record {
  job = job;
  failure =
      some (errorf (codes "no executor registered for backup type " ++ quoted job.backup_type));
})
run_registered dc rc job (some kind) = do r ← backup_by kind dc rc job; return (result_of r)

-- The goroutine of one job, without the lines of the log.
unfoldable pub run_job : DockerClient → RcloneClient → Job → M JobResult
run_job dc rc job = run_registered dc rc job (registered job.backup_type)

unfoldable pub time_text : Option Instant → Text
time_text none = []
time_text (some t) = format_rfc3339_nano t

unfoldable pub entry_for : JobResult → ManifestEntry
unfolding time_text
entry_for r = record {
  job_name = r.job.name;
  service_type = r.job.service_type;
  last_backup = time_text r.job.last_backup;
  last_backup_status = r.job.last_backup_status;
  last_size_bytes = pos 0;
}

unfoldable pub upsert_all : List JobResult → List ManifestEntry → List ManifestEntry
unfolding entry_for
upsert_all [] history = history
upsert_all (r ∷ rs) history = upsert_all rs (upsert (entry_for r) history)

unfoldable pub record_results : Text → List JobResult → M (Unit {0})
record_results root results = do
  history ← load_manifest root
  save_manifest root (upsert_all results history)

abbrev pub succeeded : Option Error → Bool
succeeded none = true
succeeded (some e) = false

unfoldable pub count_succeeded : List JobResult → ℕ
count_succeeded [] = 0
count_succeeded (r ∷ rs) =
    let rest = count_succeeded rs in if succeeded r.failure then suc rest else rest

unfoldable pub print_failure : Text → Option Error → M (Unit {0})
print_failure name none = return tt
print_failure name (some e) =
    perform (print (codes "  - " ++ (name ++ (codes ": " ++ e.message)))) >> return tt

unfoldable pub print_failures : List JobResult → M (Unit {0})
print_failures [] = return tt
print_failures (r ∷ rs) = print_failure r.job.name r.failure >> print_failures rs

unfoldable pub failed_message : ℕ → ℕ → Text
failed_message good total =
    decimal (total - good) ++ (codes " of " ++ (decimal total ++ codes " backup jobs failed"))

unfoldable pub print_backup_summary : List JobResult → M (Unit {0})
print_backup_summary results =
    let good = count_succeeded results in
    let total = length results in
    let counts = decimal good ++ (codes "/" ++ (decimal total ++ codes " job(s) succeeded")) in
    if good == total
    then perform (print (codes "\n✓ " ++ counts)) >> return tt
    else perform (
        print
          (codes "\n✗ " ++ (counts ++ (codes ", " ++ (decimal (total - good) ++ codes " failed")))))
      >> (print_failures results >> fail (failed_message good total))
