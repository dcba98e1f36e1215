-- ===== src/Backup/Mongodb.antt =====
-- internal/backup/mongodb/mongodb.go
use dockvault.Common.{
  value_of, Option, none, some, if◌then◌else◌, Text, codes, ◌++◌, null, List, [], ◌∷◌, path_join,
}
use dockvault.Effects.{Error, bytes, to_result, M, ◌>>=◌, ◌>>◌, wrap, ask, write_file}
use dockvault.Backup.Job.{Job}
use dockvault.Backup.Clients.{DockerClient, RcloneClient}
use dockvault.Backup.Manifest.{owner_only}
use dockvault.Backup.Upload.{upload_archive}
use dockvault.Backup.Record.{run_and_record}
use dockvault.Backup.TempDir.{required, with_temp_dir, archive_name, temp_prefix}

-- The login that both the dump and the restore append to their command.
unfoldable pub login_args : Job → List Text
login_args job =
    let user = value_of (codes "MONGO_INITDB_ROOT_USERNAME") job.credentials in
    let pw = value_of (codes "MONGO_INITDB_ROOT_PASSWORD") job.credentials in
    if null user
    then []
    else codes "--username"
      ∷ user
      ∷ (if null pw
          then []
          else codes "--password" ∷ pw ∷ codes "--authenticationDatabase" ∷ codes "admin" ∷ [])

unfoldable pub dump_database : DockerClient → RcloneClient → Job → M Text
dump_database dc rc job = do
  archive ← wrap (codes "mongodump: ") (
      dc.exec job.container_name
        (codes "mongodump" ∷ codes "--archive" ∷ codes "--gzip" ∷ login_args job) [] none)
  with_temp_dir (temp_prefix job) λ tmp_dir. do
    file_name ← archive_name job (codes "archive.gz")
    let local_path = path_join (tmp_dir ∷ file_name ∷ [])
    wrap (codes "writing dump output: ")
        (ask (write_file local_path owner_only (bytes archive)) to_result)
    upload_archive rc job local_path

unfoldable pub missing : Job → Option Text
missing job =
    if null job.container_name
    then some (codes "mongodb.Backup: job " ++ (job.name ++ codes " has no target container"))
    else none

unfoldable pub backup_core : DockerClient → RcloneClient → Job → M Text
backup_core dc rc job = required (missing job) (dump_database dc rc job)

unfoldable pub backup : DockerClient → RcloneClient → Job → M (Job × Option Error)
backup dc rc job = run_and_record job (backup_core dc rc job)
