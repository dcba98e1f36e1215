-- ===== src/Restore/Redis.antt =====
-- internal/restore/redis_restore.go
use dockvault.Common.{
  Option, none, some, if◌then◌else◌, Text, codes, ◌++◌, null, [], ◌∷◌, path_join,
}
use dockvault.Effects.{M, ◌>>=◌, ◌>>◌, return, wrap}
use dockvault.Backup.Job.{Job}
use dockvault.Backup.Clients.{DockerClient, RcloneClient}
use dockvault.Backup.TempDir.{required, with_temp_dir}
use dockvault.Restore.Files.{BackupFile, download_to, restore_prefix}
use dockvault.Restore.Verify.{verify_manifest_file}

-- The container stays stopped.
unfoldable pub apply_archive : DockerClient → Job → Text → M (Unit {0})
apply_archive dc job local_path = do
  wrap (codes "stopping container " ++ (job.container_name ++ codes ": "))
      (dc.stop job.container_name)
  wrap (codes "copying dump.rdb into container: ")
      (dc.cp local_path (job.container_name ++ codes ":/data/dump.rdb"))

unfoldable pub missing : Job → Option Text
missing job =
    if null job.container_name
    then some (codes "redis.Restore: job " ++ (job.name ++ codes " has no target container"))
    else none

unfoldable pub restore : DockerClient → RcloneClient → Job → BackupFile → M Text
restore dc rc job file = required (missing job) (
    with_temp_dir (restore_prefix job) λ tmp_dir. do
      download_to rc file tmp_dir
      let local_path = path_join (tmp_dir ∷ file.name ∷ [])
      warning ← verify_manifest_file rc file tmp_dir local_path
      apply_archive dc job local_path
      return warning)
