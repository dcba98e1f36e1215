-- ===== src/Backup/Job.antt =====
-- The job of internal/backup/executor.go, and the helpers of internal/backup/run.go over jobs alone.
pub mod RemoteDirs
use dockvault.Common.{
  Dict, ℕ, Bool, true, false, Option, none, some, List, [], ◌∷◌, ◌++◌, ◌||◌, Text, codes, ◌=t◌,
  null, any, ℤ, Instant, if◌then◌else◌, format_stamp, trim_prefix,
}
use dockvault.Effects.{M, ◌>>=◌, return, perform, now}

pub record Job : Type 0 where
  pub name : Text
  pub backup_type : Text
  pub volume_id : Text
  pub volume_identifier : Text
  pub host_path : Text
  pub container_name : Text
  pub service_type : Text
  pub credentials : Dict
  pub google_drive_path : Text
  pub retention_days : ℤ
  pub min_files_to_keep : ℤ
  pub webhook_url : Text
  pub local_backup_dir : Text
  pub local_retention_count : ℤ
  pub last_backup : Option Instant
  pub last_backup_status : Text

unfoldable pub seen_in : List Text → Text → Bool
seen_in seen dir = any (λ d. d =t dir) seen

-- The loop of `UniqueRemoteDirs`.
unfoldable pub remote_dirs : List Text → List Job → List Text
remote_dirs dirs [] = dirs
remote_dirs dirs (job ∷ jobs) =
    let dir = job.google_drive_path in
    remote_dirs (if null dir || seen_in dirs dir then dirs else dirs ++ (dir ∷ [])) jobs

unfoldable pub unique_remote_dirs : List Job → List Text
unfolding remote_dirs
unique_remote_dirs jobs = remote_dirs [] jobs

unfoldable pub volume_identifier_or_fallback : Job → Text
volume_identifier_or_fallback job =
    if null job.volume_identifier
    then (if null job.volume_id then codes "data" else job.volume_id)
    else job.volume_identifier

unfoldable pub archive_name_at : Instant → Text → Text → Text → Text
archive_name_at t job_name volume_identifier ext =
    job_name
    ++ (codes "_"
        ++ (volume_identifier
            ++ (codes "_" ++ (format_stamp t ++ (codes "." ++ trim_prefix ext (codes "."))))))

unfoldable pub archive_file_name : Text → Text → Text → M Text
archive_file_name job_name volume_identifier ext = do
  t ← perform now
  return (archive_name_at t job_name volume_identifier ext)
