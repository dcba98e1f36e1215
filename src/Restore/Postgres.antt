-- ===== src/Restore/Postgres.antt =====
-- internal/restore/postgres_restore.go
use dockvault.Common.{
  value_of, Option, none, some, if◌then◌else◌, Text, codes, ◌++◌, null, true, [], ◌∷◌, ◌||◌,
}
use dockvault.Effects.{Content, M, ◌>>=◌, ◌>>◌, return, wrap}
use dockvault.Backup.Job.{Job}
use dockvault.Backup.Clients.{DockerClient, RcloneClient}
use dockvault.Backup.TempDir.{required, set_if_given}
use dockvault.Restore.Files.{BackupFile}
use dockvault.Restore.Verify.{download_and_read}

unfoldable pub apply_dump : DockerClient → Job → Content → M Text
apply_dump dc job dump = wrap (codes "psql: ") (
    dc.exec job.container_name
      (codes "psql"
        ∷ codes "-U"
        ∷ value_of (codes "POSTGRES_USER") job.credentials
        ∷ value_of (codes "POSTGRES_DB") job.credentials
        ∷ [])
      (set_if_given (codes "PGPASSWORD") (value_of (codes "POSTGRES_PASSWORD") job.credentials))
      (some dump))

unfoldable pub missing : Job → Option Text
missing job =
    if null job.container_name
    then some (codes "postgres.Restore: job " ++ (job.name ++ codes " has no target container"))
    else if null (value_of (codes "POSTGRES_USER") job.credentials)
        || null (value_of (codes "POSTGRES_DB") job.credentials)
    then some (
        codes "postgres.Restore: job "
        ++ (job.name ++ codes " is missing POSTGRES_USER/POSTGRES_DB credentials"))
    else none

unfoldable pub restore : DockerClient → RcloneClient → Job → BackupFile → M Text
restore dc rc job file =
    required (missing job)
      (do d ← download_and_read rc file true; apply_dump dc job d.content; return d.warning)
