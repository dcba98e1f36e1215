-- ===== src/Workspace/Config.antt =====
-- internal/workspace/config.go
use dockvault.Common.{[], ◌∷◌, inl, inr, Text, codes, null, ℤ, pos, path_join, if◌then◌else◌}
use dockvault.Effects.{
  Json, text, number, object, no_fields, field, document, Content, Answer, Result, ok, M, ◌>>=◌,
  ◌>>◌, return, throw, attempt, ask, lift, to_result, unmarshal, write_file, read_file,
}
use dockvault.Json
use dockvault.Json.{text_field, int_field, fields_of, omit_empty}
use dockvault.Backup.Manifest.{owner_only}
use dockvault.Backup.LocalCopy.{is_not_exist}
use dockvault.Workspace.Paths.{config_path, ensure_layout}

pub record Config : Type 0 where
  pub rclone_remote : Text
  pub environment : Text
  pub retention_days : ℤ
  pub min_files_to_keep : ℤ
  pub webhook_url : Text
  pub parallel_jobs : ℤ
  pub local_backup_dir : Text
  pub local_retention_count : ℤ

unfoldable pub default_config : Config
default_config = record {
  rclone_remote = codes "dockvault_backup";
  environment = codes "stage";
  retention_days = pos 30;
  min_files_to_keep = pos 30;
  webhook_url = [];
  parallel_jobs = pos 3;
  local_backup_dir = [];
  local_retention_count = pos 14;
}

-- `json.Unmarshal` into a configuration that has values already.
unfoldable pub decode_config_over : Config → Json → Result Config
decode_config_over old j = Json.◌>>=◌ (fields_of j) λ fs.
    Json.◌>>=◌ (text_field (codes "rclone_remote") old.rclone_remote fs) λ rclone_remote.
      Json.◌>>=◌ (text_field (codes "environment") old.environment fs) λ environment.
        Json.◌>>=◌ (int_field (codes "retention_days") old.retention_days fs) λ retention_days.
          Json.◌>>=◌ (int_field (codes "min_files_to_keep") old.min_files_to_keep fs)
            λ min_files_to_keep.
              Json.◌>>=◌ (text_field (codes "webhook_url") old.webhook_url fs) λ webhook_url.
                Json.◌>>=◌ (int_field (codes "parallel_jobs") old.parallel_jobs fs) λ parallel_jobs.
                  Json.◌>>=◌ (text_field (codes "local_backup_dir") old.local_backup_dir fs)
                    λ local_backup_dir.
                      Json.◌>>=◌
                        (int_field (codes "local_retention_count") old.local_retention_count fs)
                        λ local_retention_count. ok (record {
                          rclone_remote = rclone_remote;
                          environment = environment;
                          retention_days = retention_days;
                          min_files_to_keep = min_files_to_keep;
                          webhook_url = webhook_url;
                          parallel_jobs = parallel_jobs;
                          local_backup_dir = local_backup_dir;
                          local_retention_count = local_retention_count;
                        })

unfoldable pub with_local_dir : Text → Config → Config
with_local_dir root c =
    if null c.local_backup_dir
    then record c { local_backup_dir = path_join (root ∷ codes "local_backups" ∷ []) }
    else c

unfoldable pub config_read : Text → Answer Content → M Config
config_read root (inl e) =
    if is_not_exist e.kind then return (with_local_dir root default_config) else throw e
config_read root (inr content) = do
  j ← unmarshal content
  c ← lift (decode_config_over default_config j)
  return (with_local_dir root c)

unfoldable pub load_config : Text → M Config
load_config root = do r ← attempt (ask (read_file (config_path root)) to_result); config_read root r

unfoldable pub global_config_json : Config → Json
global_config_json c = object (
    field (codes "rclone_remote") (text c.rclone_remote) (
      field (codes "environment") (text c.environment) (
        field (codes "retention_days") (number c.retention_days) (
          field (codes "min_files_to_keep") (number c.min_files_to_keep) (
            omit_empty (codes "webhook_url") c.webhook_url (
              field (codes "parallel_jobs") (number c.parallel_jobs) (
                omit_empty (codes "local_backup_dir") c.local_backup_dir (
                  field (codes "local_retention_count") (number c.local_retention_count)
                    no_fields))))))))

unfoldable pub save_config : Text → Config → M (Unit {0})
save_config root c =
    ensure_layout root
    >> ask (write_file (config_path root) owner_only (document (global_config_json c))) to_result
