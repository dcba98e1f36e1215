-- ===== src/Restore/Standard.antt =====
-- internal/restore/standard_restore.go
use dockvault.Common.{
  Option, none, some, if◌then◌else◌, Text, codes, ◌++◌, null, [], ◌∷◌, path_join,
}
use dockvault.Effects.{M, ◌>>=◌, ◌>>◌, return, wrap}
use dockvault.Backup.Job.{Job}
use dockvault.Backup.Clients.{DockerClient, RcloneClient}
use dockvault.Backup.TempDir.{required, with_temp_dir, read_only_mount, mount, alpine_image}
use dockvault.Restore.Files.{BackupFile, download_to, restore_prefix, untar_command}
use dockvault.Restore.Verify.{verify_manifest_file}

unfoldable pub apply_archive : DockerClient → Job → BackupFile → Text → M Text
apply_archive dc job file tmp_dir =
    wrap (codes "extracting into volume " ++ (job.volume_id ++ codes ": ")) (
      dc.run alpine_image
        (mount job.volume_id (codes "/target") ∷ read_only_mount tmp_dir (codes "/backup") ∷ [])
        (untar_command file.name))

unfoldable pub missing : Job → Option Text
missing job =
    if null job.volume_id
    then some (codes "standard.Restore: job " ++ (job.name ++ codes " has no volume ID"))
    else none

unfoldable pub restore : DockerClient → RcloneClient → Job → BackupFile → M Text
restore dc rc job file = required (missing job) (
    with_temp_dir (restore_prefix job) λ tmp_dir. do
      download_to rc file tmp_dir
      warning ← verify_manifest_file rc file tmp_dir (path_join (tmp_dir ∷ file.name ∷ []))
      apply_archive dc job file tmp_dir
      return warning)
