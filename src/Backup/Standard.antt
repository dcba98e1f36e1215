-- ===== src/Backup/Standard.antt =====
-- internal/backup/standard/standard.go
use dockvault.Common.{
  Option, none, some, if◌then◌else◌, Text, codes, ◌++◌, null, [], ◌∷◌, path_join,
}
use dockvault.Effects.{Error, M, ◌>>=◌, ◌>>◌, wrap}
use dockvault.Backup.Job.{Job}
use dockvault.Backup.Clients.{DockerClient, RcloneClient}
use dockvault.Backup.Upload.{upload_archive}
use dockvault.Backup.Record.{run_and_record}
use dockvault.Backup.TempDir.{
  required, with_temp_dir, read_only_mount, mount, archive_name, tar_command, alpine_image,
  temp_prefix,
}

unfoldable pub tar_source : DockerClient → RcloneClient → Job → M Text
tar_source dc rc job = with_temp_dir (temp_prefix job) λ tmp_dir. do
  file_name ← archive_name job (codes "tar.gz")
  wrap (codes "taring volume " ++ (job.volume_id ++ codes ": ")) (
      dc.run alpine_image
        (read_only_mount job.volume_id (codes "/source") ∷ mount tmp_dir (codes "/backup") ∷ [])
        (tar_command file_name))
  upload_archive rc job (path_join (tmp_dir ∷ file_name ∷ []))

unfoldable pub missing : Job → Option Text
missing job =
    if null job.volume_id
    then some (codes "standard.Backup: job " ++ (job.name ++ codes " has no volume ID"))
    else none

unfoldable pub backup_core : DockerClient → RcloneClient → Job → M Text
backup_core dc rc job = required (missing job) (tar_source dc rc job)

unfoldable pub backup : DockerClient → RcloneClient → Job → M (Job × Option Error)
backup dc rc job = run_and_record job (backup_core dc rc job)
