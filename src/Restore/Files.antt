-- ===== src/Restore/Files.antt =====
-- internal/restore/restorer.go, and what the restorers repeat.
use dockvault.Common.{
  Bool, Option, List, [], ◌∷◌, ◌++◌, ◌||◌, Text, codes, ◌=t◌, Instant, ℤ, parse_rfc3339, map,
}
use dockvault.Effects.{M, ◌>>=◌, return, wrap}
use dockvault.Rclone.{FileInfo}
use dockvault.Backup.Job.{Job}
use dockvault.Backup.Clients.{RcloneClient}

-- `modified` is `none` for a time that does not parse.
pub record BackupFile : Type 0 where
  pub name : Text
  pub size : ℤ
  pub modified : Option Instant
  pub path : Text

unfoldable pub backup_file : FileInfo → BackupFile
backup_file f = record {
  name = f.name;
  size = f.size;
  modified = parse_rfc3339 f.mod_time;
  path = f.path;
}

unfoldable pub list_remote_backups : RcloneClient → Job → M (List BackupFile)
list_remote_backups rc job = do
  files ←
      wrap (codes "listing backups for " ++ (job.name ++ codes ": "))
        (rc.list_files job.google_drive_path)
  return (map backup_file files)

unfoldable pub stops_container_during_restore : Text → Bool
stops_container_during_restore backup_type =
    (backup_type =t codes "redis") || (backup_type =t codes "n8n")

unfoldable pub restore_prefix : Job → Text
restore_prefix job = codes "dockvault-restore-" ++ (job.name ++ codes "-")

unfoldable pub download_to : RcloneClient → BackupFile → Text → M (Unit {0})
download_to rc file dir =
    wrap (codes "downloading " ++ (file.path ++ codes ": ")) (rc.download file.path dir)

unfoldable pub untar_command : Text → List Text
untar_command file =
    codes "tar" ∷ codes "xzf" ∷ (codes "/backup/" ++ file) ∷ codes "-C" ∷ codes "/target" ∷ []
