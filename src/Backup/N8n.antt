-- ===== src/Backup/N8n.antt =====
-- internal/backup/n8n/n8n.go
pub mod Lifecycle
use dockvault.Common.{
  Option, none, some, if◌then◌else◌, Text, codes, ◌++◌, null, [], ◌∷◌, path_join,
}
use dockvault.Effects.{Error, Result, ok, err, panic, errorf, M, ◌>>=◌, ◌>>◌, fail, wrap}
use dockvault.Backup.Job.{Job}
use dockvault.Backup.Clients.{DockerClient, RcloneClient}
use dockvault.Backup.Upload.{upload_archive}
use dockvault.Backup.Record.{run_and_record}
use dockvault.Backup.TempDir.{
  required, with_temp_dir, read_only_mount, mount, archive_name, tar_command, alpine_image,
  temp_prefix,
}

unfoldable pub tar_volume : DockerClient → RcloneClient → Job → M Text
tar_volume dc rc job = with_temp_dir (temp_prefix job) λ tmp_dir. do
  file_name ← archive_name job (codes "tar.gz")
  wrap (codes "taring volume " ++ (job.volume_id ++ codes ": ")) (
      dc.run alpine_image
        (read_only_mount job.volume_id (codes "/source") ∷ mount tmp_dir (codes "/backup") ∷ [])
        (tar_command file_name))
  upload_archive rc job (path_join (tmp_dir ∷ file_name ∷ []))

-- What the deferred function makes of the named results.
unfoldable pub restarted : Text → Result Text → Result (Unit {0}) → Result Text
restarted container r (ok done) = r
restarted container r (panic t) = panic t
restarted container (ok status) (err e) = ok (
    status
    ++ (codes ", warning: restarting container "
        ++ (container ++ (codes " failed: " ++ e.message))))
restarted container (err cause) (err e) = err (
    errorf (
      cause.message
      ++ (codes " (additionally, restarting container "
          ++ (container ++ (codes " failed: " ++ (e.message ++ codes ")"))))))
restarted container (panic t) (err e) = panic t

-- The deferred restart runs however the body ended.
unfoldable pub with_restart : DockerClient → Text → M Text → M Text
with_restart dc container body w =
    let (r, w1) = body w in let (s, w2) = dc.start container w1 in (restarted container r s, w2)

unfoldable pub missing : Job → Option Text
missing job =
    if null job.container_name
    then some (codes "n8n.Backup: job " ++ (job.name ++ codes " has no target container"))
    else if null job.volume_id
    then some (codes "n8n.Backup: job " ++ (job.name ++ codes " has no volume ID"))
    else none

unfoldable pub backup_core : DockerClient → RcloneClient → Job → M Text
backup_core dc rc job = required (missing job) (do
  wrap (codes "stopping container " ++ (job.container_name ++ codes ": "))
      (dc.stop job.container_name)
  with_restart dc job.container_name (tar_volume dc rc job))

unfoldable pub backup : DockerClient → RcloneClient → Job → M (Job × Option Error)
backup dc rc job = run_and_record job (backup_core dc rc job)
