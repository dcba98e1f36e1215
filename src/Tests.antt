-- ===== src/Tests.antt =====
-- A host that answers every request well, a job, and the clients of the tests.
mod Backups
mod Restores
mod Workspaces
mod Jobs
mod Scans
mod Commands
mod Dialogues
mod Schedules
use dockvault.Docker
use mathlib.Core.List.{Perm}
use dockvault.Common.{
  ℕ, ◌<◌, ◌≤◌, ◌^◌, ◌/◌, ◌≡◌, ◌≢◌, refl, ap, Bool, true, false, Option, none, some, List, [], ◌∷◌,
  ◌++◌, null, false, sort_by, ◌+◌, ◌*◌, if◌then◌else◌, ◌⊎◌, inl, inr, Text, codes, ◌=t◌, pos,
  decimal, Instant, All, take, keep, map, trim_suffix, days_before, arith,
}
use dockvault.Common.Order.{InOrder}
use dockvault.Effects.{
  Call, Reply, run_command, stat, open_file, read_file, write_file, create_exclusive, mkdir_all,
  chmod, read_dir, entry_info, remove, remove_all, mkdir_temp, now, wait, process_id, find_process,
  signal_zero, http_post, get_env, home_dir, hostname, executable, current_user, open_append,
  append, output_is_terminal, print, print_json, read_line, Platform, World, M, return, fail,
  errorf, bytes, Content, Answer, not_exist, Json, already_exists, text, array, item, no_items,
  object, field, no_fields, ok, err, panic, monad, Error, to_result,
}
use dockvault.Effects.Keeps.{Grows}
use dockvault.Docker.{redact_args, exec_args}
use dockvault.Docker.Redact.{HasPlainKey, hidden, redact_args-exec_args}
use dockvault.Rclone.{
  FileInfo, files_to_prune, is_expired, list_files, prune, newer, files_of, file_of, is_backup,
}
use dockvault.Rclone.Retention.{Splits}
use dockvault.Rclone.Prune.{Deletes, prune-Deletes}
use dockvault.Rclone.Listing.{files_of_listing}
use dockvault.Backup.Job.{Job, unique_remote_dirs, seen_in}
use dockvault.Backup.Job.RemoteDirs.{Distinct, wanted, unique_remote_dirs_complete}
use dockvault.Backup.Clients.{DockerClient, RcloneClient, docker_client}
use dockvault.Backup.Size.{format_bytes, format_bytes_units}
use dockvault.Backup.Upload.{upload_archive}
use dockvault.Backup.Upload.Integrity.{Verified, upload_archive-Verified}
use dockvault.Backup.Record.{run_and_record, recorded, error_of, payload_of}
use dockvault.Backup.Record.Outcome.{notified, run_and_record_outcome}
use dockvault.Backup.N8n.Lifecycle.{backup_core_restarts}
use dockvault.Backup.Redis.{wait_for_save}
use dockvault.Backup.Redis.Waiting.{SawSave, wait_for_save-SawSave}
use dockvault.Workspace.Env.{parse_env, env_text}
use dockvault.Workspace.EnvRoundTrip.{IsClean, parse_env-env_text}
use dockvault.Workspace.History.{ManifestEntry, upsert}
use dockvault.Workspace.HistoryLaws.{entry_of, RecordedOnce, upsert_lem}
use dockvault.Workspace.Paths.{env_path, job_config_path}
use dockvault.Workspace.Env.{key_before}
use dockvault.Workspace.JobFile.{config_of, env_of_job, save_job, load_job, with_env}
use dockvault.Workspace.JobRoundTrip.{KeepsFiles, last_write, load_job-save_job}
use dockvault.Workspace.Lock.{lock}
use dockvault.Workspace.LockLaws.{Refused, lock-Refused}
use dockvault.Utils.{validate_job_name}
use dockvault.Detector.ServiceTypes.{postgres}
use dockvault.Detector.Naming.{generate_job_name, host_dir_job_name}
use dockvault.Detector.ValidNames.{generated_names_valid}
use dockvault.Restore.Files.{BackupFile}
use dockvault.Restore.Verify.{download_manifest, verify_manifest_file, verify_manifest_bytes}
use dockvault.Restore.Refusal.{check_file}
use dockvault.Restore.Acceptance.{
  FileAccepted, BytesAccepted, verify_manifest_file_accepts, verify_manifest_bytes_accepts,
}
use dockvault.Cli.Registry.{redis, restore_by}
use dockvault.Cli.Backup.{JobResult, print_backup_summary, count_succeeded, failed_message}
use dockvault.Cli.Summary.{all_succeeded}
use dockvault.Cli.Runs.{
  Runs, Reaches, nothing, then_step, start, finish, begin, numbered, left, Ended, Step,
  run_jobs_lem,
}
use dockvault.Workspace.Config.{default_config}
use dockvault.Generator.{job_from_volume, job_from_host_path}
use dockvault.Generator.Executors.{HasExecutor, generated_jobs-HasExecutor}
use dockvault.Cli.RestoreRefusal.{Refuses}

abbrev pub reply : List Call → (c : Call) → Reply c
reply log (run_command bin args stdin) = record {
  stdout = codes "done\n";
  stderr = [];
  failure = none;
}
reply log (stat path) = inr (record { size = 1500; mod_time = 0; is_dir = false })
reply log (open_file path) = inr tt
reply log (read_file path) = inr (bytes (codes "dump"))
reply log (write_file path mode content) = inr tt
reply log (create_exclusive path) = inr tt
reply log (mkdir_all path) = inr tt
reply log (chmod path) = inr tt
reply log (read_dir path) = inr []
reply log (entry_info path) = inr (record { size = 1500; mod_time = 0; is_dir = false })
reply log (remove path) = inr tt
reply log (remove_all path) = inr tt
reply log (mkdir_temp prefix) = inr (codes "/tmp/dir")
reply log now = 0
reply log wait = inr tt
reply log process_id = 7
reply log (find_process pid) = inr tt
reply log (signal_zero pid) = inr tt
reply log (http_post url body) = inr 200
reply log (get_env name) = []
reply log home_dir = inr (codes "/home/op")
reply log hostname = inr (codes "Web-1.example")
reply log executable = inr (codes "/usr/bin/dockvault")
reply log current_user = inr (codes "op")
reply log (open_append path) = inr tt
reply log (append path line) = inr tt
reply log output_is_terminal = inr false
reply log (print line) = tt
reply log (print_json j) = inr tt
reply log read_line = inr []

abbrev pub host : Platform
host = record {
  answer = reply;
  sha256 = λ content. codes "5ha";
  md5 = λ content. codes "d5";
  size_of = λ content. 1500;
  gzip = λ content. codes "gz";
  gunzip = λ content. inr (inr (codes "dump"));
  one_decimal = λ n div. codes "1.5";
  parse_json = λ t. inr Json.null;
}

abbrev pub world : World
world = record { platform = host; log = [] }

abbrev pub job : Job
job = record {
  name = codes "pg";
  backup_type = codes "postgres";
  volume_id = codes "data";
  volume_identifier = [];
  host_path = codes "/srv";
  container_name = codes "db";
  service_type = codes "postgresql";
  credentials = [];
  google_drive_path = codes "backups/pg";
  retention_days = pos 0;
  min_files_to_keep = pos 1;
  webhook_url = [];
  local_backup_dir = [];
  local_retention_count = pos 0;
  last_backup = none;
  last_backup_status = [];
}

abbrev pub remote : RcloneClient
remote = record {
  upload = λ local path. return tt;
  list_files = λ path. return [];
  download = λ path dest. return tt;
  prune = λ path days least. return [];
  hashsum = λ path. return (codes "d5");
}

abbrev pub archive : Text
archive = codes "/tmp/dir/pg.sql.gz"

abbrev pub docker : DockerClient
docker = docker_client Docker.new

abbrev pub watched : Job
watched = record job { webhook_url = codes "https://hook" }

abbrev pub login : List (Text × Text)
login = (codes "PGPASSWORD", codes "pw") ∷ []
