-- ===== src/Restore/N8n.antt =====
-- internal/restore/n8n_restore.go
use dockvault.Common.{
  Option, none, some, if◌then◌else◌, Text, codes, ◌++◌, null, List, [], ◌∷◌, path_join,
}
use dockvault.Effects.{M, ◌>>=◌, ◌>>◌, return, wrap}
use dockvault.Backup.Job.{Job}
use dockvault.Backup.Clients.{DockerClient, RcloneClient}
use dockvault.Backup.TempDir.{required, with_temp_dir, read_only_mount, mount, alpine_image}
use dockvault.Restore.Files.{BackupFile, download_to, restore_prefix, untar_command}
use dockvault.Restore.Verify.{verify_manifest_file}

abbrev pub wipe_command : List Text
wipe_command =
    codes "sh" ∷ codes "-c" ∷ codes "rm -rf /target/* /target/.[!.]* 2>/dev/null || true" ∷ []

-- The container stays stopped; the volume is wiped before the archive is extracted.
unfoldable pub apply_archive : DockerClient → Job → BackupFile → Text → M Text
apply_archive dc job file tmp_dir = do
  wrap (codes "stopping container " ++ (job.container_name ++ codes ": "))
      (dc.stop job.container_name)
  wrap (codes "wiping volume " ++ (job.volume_id ++ codes ": "))
      (dc.run alpine_image (mount job.volume_id (codes "/target") ∷ []) wipe_command)
  wrap (codes "extracting into volume " ++ (job.volume_id ++ codes ": ")) (
      dc.run alpine_image
        (mount job.volume_id (codes "/target") ∷ read_only_mount tmp_dir (codes "/backup") ∷ [])
        (untar_command file.name))

unfoldable pub missing : Job → Option Text
missing job =
    if null job.container_name
    then some (codes "n8n.Restore: job " ++ (job.name ++ codes " has no target container"))
    else if null job.volume_id
    then some (codes "n8n.Restore: job " ++ (job.name ++ codes " has no volume ID"))
    else none

unfoldable pub restore : DockerClient → RcloneClient → Job → BackupFile → M Text
restore dc rc job file = required (missing job) (
    with_temp_dir (restore_prefix job) λ tmp_dir. do
      download_to rc file tmp_dir
      warning ← verify_manifest_file rc file tmp_dir (path_join (tmp_dir ∷ file.name ∷ []))
      apply_archive dc job file tmp_dir
      return warning)
