-- ===== src/Restore/Mongodb.antt =====
-- internal/restore/mongodb_restore.go
use dockvault.Common.{Option, none, some, if◌then◌else◌, Text, codes, ◌++◌, null, false, [], ◌∷◌}
use dockvault.Effects.{Content, M, ◌>>=◌, ◌>>◌, return, wrap}
use dockvault.Backup.Job.{Job}
use dockvault.Backup.Clients.{DockerClient, RcloneClient}
use dockvault.Backup.TempDir.{required}
use dockvault.Restore.Files.{BackupFile}
use dockvault.Restore.Verify.{download_and_read}
use dockvault.Backup.Mongodb.{login_args}

unfoldable pub apply_dump : DockerClient → Job → Content → M Text
apply_dump dc job dump = wrap (codes "mongorestore: ") (
    dc.exec job.container_name
      (codes "mongorestore" ∷ codes "--archive" ∷ codes "--gzip" ∷ codes "--drop" ∷ login_args job)
      [] (some dump))

unfoldable pub missing : Job → Option Text
missing job =
    if null job.container_name
    then some (codes "mongodb.Restore: job " ++ (job.name ++ codes " has no target container"))
    else none

unfoldable pub restore : DockerClient → RcloneClient → Job → BackupFile → M Text
restore dc rc job file =
    required (missing job)
      (do d ← download_and_read rc file false; apply_dump dc job d.content; return d.warning)
