-- ===== src/Cli/RestoreRefusal.antt =====
-- No restorer of the registry touches its target before the download has passed its check.
use dockvault.Common.{◌≡◌, refl, true, false, Option, none, some, Text}
use dockvault.Effects.{Error, err, errorf, World, M, monad}
use dockvault.Backup.Job.{Job}
use dockvault.Backup.Clients.{DockerClient, RcloneClient}
use dockvault.Backup.TempDir.{required}
use dockvault.Restore.Files.{BackupFile}
use dockvault.Restore.Verify.{download_and_read}
use dockvault.Restore.Refusal.{check_file}
use dockvault.Restore.Standard
use dockvault.Restore.Postgres
use dockvault.Restore.Mysql
use dockvault.Restore.Mongodb
use dockvault.Restore.Redis
use dockvault.Restore.N8n
use dockvault.Restore.Hostdir
use dockvault.Restore.Rabbitmq
use dockvault.Cli.Registry.{Kind, standard, mongodb, redis, n8n, hostdir}

-- The download and its check fail.
abbrev pub CheckFails : Kind → RcloneClient → Job → BackupFile → World → Type 0
CheckFails standard rc job file w =
    (e : Error) × (w' : World) × (check_file rc job file w ≡ (err e, w'))
CheckFails hostdir rc job file w =
    (e : Error) × (w' : World) × (check_file rc job file w ≡ (err e, w'))
CheckFails redis rc job file w =
    (e : Error) × (w' : World) × (check_file rc job file w ≡ (err e, w'))
CheckFails n8n rc job file w = (e : Error) × (w' : World) × (check_file rc job file w ≡ (err e, w'))
CheckFails mongodb rc job file w =
    (e : Error) × (w' : World) × (download_and_read rc file false w ≡ (err e, w'))
CheckFails _ rc job file w =
    (e : Error) × (w' : World) × (download_and_read rc file true w ≡ (err e, w'))

-- The computation ends in one error and one world, whichever the Docker client is.
pub record Refuses (m : DockerClient → M Text) (w : World) : Type 0 where
  pub error : Error
  pub final : World
  pub same : (dc : DockerClient) → m dc w ≡ (err error, final)

guarded :
    (o : Option Text) (m : DockerClient → M Text) {w : World}
    → Refuses m w
    → Refuses (λ dc. required o (m dc)) w
unfolding monad required
guarded none m h = h
guarded (some message) m {w} h = record { error = errorf message; final = w; same = λ dc. refl }
