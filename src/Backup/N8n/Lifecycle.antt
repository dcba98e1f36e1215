-- ===== src/Backup/N8n/Lifecycle.antt =====
-- The container around an n8n backup.
use dockvault.Common.{◌≡◌, refl, none, Text}
use dockvault.Effects.{Result, ok, err, panic, World, monad}
use dockvault.Backup.Job.{Job}
use dockvault.Backup.Clients.{DockerClient, RcloneClient}
use dockvault.Backup.TempDir.{required}
use dockvault.Backup.N8n.{missing, tar_volume, restarted, with_restart, backup_core}

restarted-ok :
    (container : Text) (r : Result Text) (s : Result (Unit {0})) (status : Text)
    → restarted container r s ≡ ok status
    → (inner : Text) × (r ≡ ok inner)
unfolding restarted
restarted-ok container (ok inner) s status h = (inner, refl)
restarted-ok container (err e) (ok done) status h = cc h
restarted-ok container (err e) (err f) status h = cc h
restarted-ok container (err e) (panic t) status h = cc h
restarted-ok container (panic t) (ok done) status h = cc h
restarted-ok container (panic t) (err f) status h = cc h
restarted-ok container (panic t) (panic u) status h = cc h

module _ (dc : DockerClient) (rc : RcloneClient) (job : Job) (w w1 : World) where
  -- A container that was stopped is started again as the last act of the backup, whatever happened in
  -- between; the backup succeeds only if the volume was archived and uploaded.
  pub backup_core_restarts :
      missing job ≡ none
      → dc.stop job.container_name w ≡ (ok tt, w1)
      → let (r, w2) = tar_volume dc rc job w1 in
        ((backup_core dc rc job w).1 ≡ (dc.start job.container_name w2).1)
        × ((status : Text)
            → (backup_core dc rc job w).0 ≡ ok status
            → (inner : Text) × (r ≡ ok inner))
  unfolding backup_core monad required with_restart
  backup_core_restarts given h = (
    rw (given, h) refl,
    λ status k. restarted-ok job.container_name _ _ status (rw (given, h) at k),
  )
