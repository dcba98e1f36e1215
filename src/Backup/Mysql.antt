-- ===== src/Backup/Mysql.antt =====
-- internal/backup/mysql/mysql.go
use dockvault.Common.{
  value_of, Option, none, some, if◌then◌else◌, Text, codes, ◌++◌, null, [], ◌∷◌, ◌||◌, path_join,
}
use dockvault.Effects.{bytes, Error, M, ◌>>=◌, ◌>>◌, wrap}
use dockvault.Backup.Job.{Job}
use dockvault.Backup.Clients.{DockerClient, RcloneClient}
use dockvault.Backup.Manifest.{gzip_to_file}
use dockvault.Backup.Upload.{upload_archive}
use dockvault.Backup.Record.{run_and_record}
use dockvault.Backup.TempDir.{required, with_temp_dir, archive_name, temp_prefix}

unfoldable pub dump_database : DockerClient → RcloneClient → Job → M Text
dump_database dc rc job = do
  dump ← wrap (codes "mysqldump: ") (
      dc.exec job.container_name
        (codes "mysqldump"
          ∷ codes "--single-transaction"
          ∷ codes "-u"
          ∷ codes "root"
          ∷ value_of (codes "MYSQL_DATABASE") job.credentials
          ∷ [])
        ((codes "MYSQL_PWD", value_of (codes "MYSQL_ROOT_PASSWORD") job.credentials) ∷ []) none)
  with_temp_dir (temp_prefix job) λ tmp_dir. do
    file_name ← archive_name job (codes "sql.gz")
    let local_path = path_join (tmp_dir ∷ file_name ∷ [])
    wrap (codes "compressing dump: ") (gzip_to_file (bytes dump) local_path)
    upload_archive rc job local_path

unfoldable pub missing : Job → Option Text
missing job =
    if null job.container_name
    then some (codes "mysql.Backup: job " ++ (job.name ++ codes " has no target container"))
    else if null (value_of (codes "MYSQL_DATABASE") job.credentials)
        || null (value_of (codes "MYSQL_ROOT_PASSWORD") job.credentials)
    then some (
        codes "mysql.Backup: job "
        ++ (job.name ++ codes " is missing MYSQL_DATABASE/MYSQL_ROOT_PASSWORD credentials"))
    else none

unfoldable pub backup_core : DockerClient → RcloneClient → Job → M Text
backup_core dc rc job = required (missing job) (dump_database dc rc job)

unfoldable pub backup : DockerClient → RcloneClient → Job → M (Job × Option Error)
backup dc rc job = run_and_record job (backup_core dc rc job)
