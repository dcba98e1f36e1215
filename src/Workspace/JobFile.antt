-- ===== src/Workspace/JobFile.antt =====
-- internal/workspace/job.go
use dockvault.Common.{
  Dict, assign, value_of, Bool, true, false, none, List, [], ◌∷◌, ◌++◌, inl, inr, Text, codes, ◌=t◌,
  null, pos, path_join, quoted, text_lt, sort_by, keep, not, if◌then◌else◌,
}
use dockvault.Effects.{
  Error, Json, text, number, object, no_fields, field, document, DirEntry, Answer, Result, ok, M,
  ◌>>=◌, ◌>>◌, return, wrap, fail, attempt, ask, lift, to_result, unmarshal, mkdir_all, chmod,
  write_file, read_file, read_dir, stat, FileStat,
}
use dockvault.Json
use dockvault.Json.{text_field, int_field, fields_of, omit_empty}
use dockvault.Backup.Job.{Job}
use dockvault.Backup.Manifest.{owner_only}
use dockvault.Backup.LocalCopy.{is_not_exist}
use dockvault.Workspace.Paths.{job_dir, job_config_path}
use dockvault.Workspace.Env.{save_env, load_env}

abbrev pub env_webhook_key : Text
env_webhook_key = codes "DOCKVAULT_WEBHOOK_URL"

-- `JobConfig` has the fields of a job that `job.json` holds; the others are empty in it.
unfoldable pub config_of : Job → Job
config_of job = record job {
  credentials = [];
  webhook_url = [];
  last_backup = none;
  last_backup_status = [];
}

unfoldable pub config_json : Job → Json
config_json c = object (
    field (codes "name") (text c.name) (
      field (codes "backup_type") (text c.backup_type) (
        field (codes "service_type") (text c.service_type) (
          omit_empty (codes "volume_id") c.volume_id (
            omit_empty (codes "volume_identifier") c.volume_identifier (
              omit_empty (codes "host_path") c.host_path (
                omit_empty (codes "container_name") c.container_name (
                  field (codes "google_drive_path") (text c.google_drive_path) (
                    field (codes "retention_days") (number c.retention_days) (
                      field (codes "min_files_to_keep") (number c.min_files_to_keep) (
                        omit_empty (codes "local_backup_dir") c.local_backup_dir (
                          field (codes "local_retention_count") (number c.local_retention_count)
                            no_fields))))))))))))

unfoldable pub decode_config : Json → Result Job
decode_config j = Json.◌>>=◌ (fields_of j) λ fs.
    Json.◌>>=◌ (text_field (codes "name") [] fs) λ name.
      Json.◌>>=◌ (text_field (codes "backup_type") [] fs) λ backup_type.
        Json.◌>>=◌ (text_field (codes "service_type") [] fs) λ service_type.
          Json.◌>>=◌ (text_field (codes "volume_id") [] fs) λ volume_id.
            Json.◌>>=◌ (text_field (codes "volume_identifier") [] fs) λ volume_identifier.
              Json.◌>>=◌ (text_field (codes "host_path") [] fs) λ host_path.
                Json.◌>>=◌ (text_field (codes "container_name") [] fs) λ container_name.
                  Json.◌>>=◌ (text_field (codes "google_drive_path") [] fs) λ google_drive_path.
                    Json.◌>>=◌ (int_field (codes "retention_days") (pos 0) fs) λ retention_days.
                      Json.◌>>=◌ (int_field (codes "min_files_to_keep") (pos 0) fs)
                        λ min_files_to_keep.
                          Json.◌>>=◌ (text_field (codes "local_backup_dir") [] fs)
                            λ local_backup_dir.
                              Json.◌>>=◌ (int_field (codes "local_retention_count") (pos 0) fs)
                                λ local_retention_count. ok (record {
                                  name = name;
                                  backup_type = backup_type;
                                  service_type = service_type;
                                  volume_id = volume_id;
                                  volume_identifier = volume_identifier;
                                  host_path = host_path;
                                  container_name = container_name;
                                  credentials = [];
                                  google_drive_path = google_drive_path;
                                  retention_days = retention_days;
                                  min_files_to_keep = min_files_to_keep;
                                  webhook_url = [];
                                  local_backup_dir = local_backup_dir;
                                  local_retention_count = local_retention_count;
                                  last_backup = none;
                                  last_backup_status = [];
                                })

-- The map `env` of `SaveJob`.
unfoldable pub env_of_job : Job → Dict
env_of_job job =
    if null job.webhook_url
    then job.credentials
    else assign env_webhook_key job.webhook_url job.credentials

unfoldable pub save_job : Text → Job → M (Unit {0})
save_job root job = do
  wrap (codes "creating job directory for " ++ (quoted job.name ++ codes ": "))
      (ask (mkdir_all (job_dir root job.name)) to_result)
  attempt (ask (chmod (job_dir root job.name)) to_result)
  wrap (codes "writing job.json for " ++ (quoted job.name ++ codes ": ")) (
      ask
        (write_file (job_config_path root job.name) owner_only
          (document (config_json (config_of job))))
        to_result)
  if null (env_of_job job) then return tt else save_env root job.name (env_of_job job)

abbrev pub is_credential : Text × Text → Bool
is_credential kv = not (kv.0 =t env_webhook_key)

unfoldable pub with_env : Job → Dict → Job
with_env job env = record job {
  credentials = keep is_credential env;
  webhook_url = value_of env_webhook_key env;
}

unfoldable pub load_job : Text → Text → M Job
load_job root job_name = do
  content ←
      wrap (codes "loading job " ++ (quoted job_name ++ codes ": "))
        (ask (read_file (job_config_path root job_name)) to_result)
  config ←
      wrap (codes "parsing job " ++ (quoted job_name ++ codes ": "))
        (do j ← unmarshal content; lift (decode_config j))
  env ← load_env root job_name
  return (with_env config env)

-- Whether the directory holds a `job.json`.
unfoldable pub is_job : Answer FileStat → Bool
is_job (inl e) = false
is_job (inr info) = true

unfoldable pub job_names : Text → List DirEntry → M (List Text)
job_names root [] = return []
job_names root (e ∷ es) = do
  let rest = job_names root es
  if e.is_dir
      then (do
        r ← attempt (ask (stat (path_join (root ∷ e.name ∷ codes "job.json" ∷ []))) to_result)
        names ← rest
        return (if is_job r then e.name ∷ names else names))
      else rest

unfoldable pub entries_read : Text → Answer (List DirEntry) → M (List Text)
entries_read root (inr entries) = do names ← job_names root entries; return (sort_by text_lt names)
entries_read root (inl e) =
    if is_not_exist e.kind
    then return []
    else fail (codes "reading workspace " ++ (quoted root ++ (codes ": " ++ e.message)))

unfoldable pub list_job_names : Text → M (List Text)
list_job_names root = do r ← attempt (ask (read_dir root) to_result); entries_read root r

-- The two results of `LoadAllJobs`.
unfoldable pub sorted_out : Answer Job → List Job × List Error → List Job × List Error
sorted_out (inr job) (jobs, errs) = (job ∷ jobs, errs)
sorted_out (inl e) (jobs, errs) = (jobs, e ∷ errs)

unfoldable pub load_jobs : Text → List Text → M (List Job × List Error)
load_jobs root [] = return ([], [])
load_jobs root (name ∷ names) = do
  r ← attempt (load_job root name)
  rest ← load_jobs root names
  return (sorted_out r rest)

unfoldable pub names_listed : Text → Answer (List Text) → M (List Job × List Error)
names_listed root (inl e) = return ([], e ∷ [])
names_listed root (inr names) = load_jobs root names

unfoldable pub load_all_jobs : Text → M (List Job × List Error)
load_all_jobs root = do r ← attempt (list_job_names root); names_listed root r
