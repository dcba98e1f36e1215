-- ===== src/Generator.antt =====
-- internal/generator/job_generator.go
pub mod Executors
pub mod Connectivity
pub mod Dialogue
pub mod DialogueLaws
pub mod Wizard
use dockvault.Common.{
  Dict, Bool, none, List, [], ◌∷◌, ◌++◌, Text, codes, ◌=t◌, null, quoted, if◌then◌else◌,
}
use dockvault.Effects.{M, ◌>>=◌, ◌>>◌, return, fail, wrap}
use dockvault.Backup.Job.{Job}
use dockvault.Detector.Findings.{VolumeInfo, HostPathInfo}
use dockvault.Workspace.JobFile.{save_job}
use dockvault.Workspace.Config.{Config, load_config}

unfoldable pub executor_name_for_service_type : Text → Text
executor_name_for_service_type service =
    if service =t codes "generic" then codes "standard" else service

unfoldable pub first_or_empty : List Text → Text
first_or_empty [] = []
first_or_empty (c ∷ cs) = c

unfoldable pub job_from_volume : VolumeInfo → Config → Job
job_from_volume v cfg = record {
  name = v.job_name;
  backup_type = executor_name_for_service_type v.service_type;
  volume_id = v.name;
  volume_identifier = v.volume_identifier;
  host_path = [];
  container_name = first_or_empty v.containers;
  service_type = v.service_type;
  credentials = v.credentials;
  google_drive_path = v.google_drive_path;
  retention_days = cfg.retention_days;
  min_files_to_keep = cfg.min_files_to_keep;
  webhook_url = cfg.webhook_url;
  local_backup_dir = cfg.local_backup_dir;
  local_retention_count = cfg.local_retention_count;
  last_backup = none;
  last_backup_status = [];
}

unfoldable pub job_from_host_path : HostPathInfo → Config → Job
job_from_host_path h cfg = record {
  name = h.job_name;
  backup_type = codes "hostdir";
  volume_id = [];
  volume_identifier = h.volume_identifier;
  host_path = h.path;
  container_name = h.source;
  service_type = codes "hostdir";
  credentials = [];
  google_drive_path = h.google_drive_path;
  retention_days = cfg.retention_days;
  min_files_to_keep = cfg.min_files_to_keep;
  webhook_url = cfg.webhook_url;
  local_backup_dir = cfg.local_backup_dir;
  local_retention_count = cfg.local_retention_count;
  last_backup = none;
  last_backup_status = [];
}

-- The end of both: the job is saved, unless the run is dry.
unfoldable pub save_unless : Bool → Text → Job → M Job
save_unless dry_run root job =
    if dry_run
    then return job
    else wrap (codes "saving job " ++ (quoted job.name ++ codes ": ")) (save_job root job)
      >> return job

unfoldable pub create_from_volume : Text → VolumeInfo → Bool → M Job
create_from_volume root v dry_run = do
  cfg ← wrap (codes "loading workspace config: ") (load_config root)
  save_unless dry_run root (job_from_volume v cfg)

unfoldable pub create_from_host_path : Text → HostPathInfo → Bool → M Job
create_from_host_path root h dry_run =
    if null h.job_name
    then fail (
        codes "generator.CreateFromHostPath: "
        ++ (h.path
            ++ (codes " (kind=" ++ (h.kind ++ codes ") has no proposed job name - not jobbable"))))
    else (do
      cfg ← wrap (codes "loading workspace config: ") (load_config root)
      save_unless dry_run root (job_from_host_path h cfg))
