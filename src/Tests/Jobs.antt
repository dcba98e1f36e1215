-- ===== src/Tests/Jobs.antt =====
-- Generated jobs, a run of jobs and its summary at concrete data.
use dockvault.Tests.{job, login, watched}
use dockvault.Detector.ServiceTypes
use mathlib.Core.List.{Perm}
use dockvault.Common.{◌≤◌, ◌≡◌, refl, none, some, [], ◌∷◌, ◌+◌, ◌⊎◌, codes, arith}
use dockvault.Effects.{errorf, ok}
use dockvault.Utils.{validate_job_name}
use dockvault.Detector.ServiceTypes.{postgres}
use dockvault.Detector.Naming.{generate_job_name, host_dir_job_name}
use dockvault.Detector.ValidNames.{generated_names_valid}
use dockvault.Cli.Backup.{JobResult}
use dockvault.Cli.Runs.{
  Runs, Reaches, nothing, then_step, start, finish, begin, numbered, left, Ended, Step,
  run_jobs_lem,
}
use dockvault.Workspace.Config.{default_config}
use dockvault.Detector.Findings.{VolumeInfo, HostPathInfo}
use dockvault.Generator.{job_from_volume, job_from_host_path}
use dockvault.Generator.Executors.{HasExecutor, generated_jobs-HasExecutor}

generated_names_valid_example :
    (validate_job_name (generate_job_name (codes "PG Data!") postgres login) ≡ ok tt)
    × (validate_job_name (host_dir_job_name (codes "/srv/My Files/")) ≡ ok tt)
generated_names_valid_example =
    generated_names_valid (codes "PG Data!") postgres login (codes "/srv/My Files/")

abbrev good : JobResult
good = record { job = job; failure = none }

abbrev bad : JobResult
bad = record { job = watched; failure = some (errorf (codes "no dump")) }

abbrev all_done : Runs
all_done = record { pending = []; running = []; written = ((0, job), good) ∷ [] }

two_steps : Reaches 1 (begin (job ∷ [])) 2 all_done
unfolding begin
two_steps =
    then_step (then_step nothing (start (0, job) [] [] [] (omega arith)))
      (finish [] [] (0, job) [] [] good)

run_jobs_lem_example :
    (0 ≤ 1)
    × (2 + left all_done ≡ 2)
    × Perm ((0, job) ∷ []) (numbered 0 (job ∷ []))
    × (Ended all_done ⊎ ((u : Runs) × Step 1 all_done u))
run_jobs_lem_example = run_jobs_lem 1 (job ∷ []) 2 all_done (omega arith) two_steps

abbrev volume : VolumeInfo
volume = record {
  name = codes "pgdata";
  volume_identifier = codes "pgdata";
  recommended_backup_type = codes "pg_dump";
  containers = codes "db" ∷ [];
  service_type = codes "postgres";
  credentials = login;
  job_name = codes "postgres_app";
  google_drive_path = codes "/stage/h/postgres/postgres_app/";
}

abbrev host_path : HostPathInfo
host_path = record {
  path = codes "/etc/nginx";
  kind = codes "notable-path";
  source = [];
  volume_identifier = codes "bind-nginx";
  recommended_backup_type = codes "tar";
  job_name = codes "nginx_hostdir";
  google_drive_path = codes "/stage/h/hostdir/nginx_hostdir/";
}

is_postgres : volume.service_type ≡ ServiceTypes.name_of postgres
unfolding ServiceTypes.name_of
is_postgres = refl

generated_jobs-HasExecutor_example :
    HasExecutor (job_from_volume volume default_config).backup_type
    × HasExecutor (job_from_host_path host_path default_config).backup_type
generated_jobs-HasExecutor_example =
    generated_jobs-HasExecutor volume host_path default_config postgres is_postgres
