-- ===== src/Backup/Redis.antt =====
-- internal/backup/redis/redis.go
pub mod Waiting
use dockvault.Common.{
  Dict, value_of, Option, none, some, if◌then◌else◌, Text, codes, ◌++◌, null, ℕ, zero, suc, Bool,
  true, false, [], ◌∷◌, inl, inr, ◌=t◌, path_join, trim_space,
}
use dockvault.Effects.{
  Error, to_result, Answer, M, ◌>>=◌, ◌>>◌, return, fail, wrap, attempt, ask, wait,
}
use dockvault.Backup.Job.{Job}
use dockvault.Backup.Clients.{DockerClient, RcloneClient}
use dockvault.Backup.Upload.{upload_archive}
use dockvault.Backup.Record.{run_and_record}
use dockvault.Backup.TempDir.{required, with_temp_dir, archive_name, temp_prefix, set_if_given}

abbrev pub max_poll_attempts : ℕ
max_poll_attempts = 60

unfoldable pub last_save : DockerClient → Text → Dict → M Text
last_save dc container env = do
  out ← dc.exec container (codes "redis-cli" ∷ codes "LASTSAVE" ∷ []) env none
  return (trim_space out)

-- Whether the answer of one poll differs from the time before.
unfoldable pub advanced : Text → Answer Text → Bool
advanced before (inl e) = false
advanced before (inr after) = if after =t before then false else true

-- The loop of `waitForSave`, with the number of polls left.
unfoldable pub wait_for_save : DockerClient → Text → Dict → Text → ℕ → M (Unit {0})
wait_for_save dc container env before zero =
    fail (codes "timed out waiting for BGSAVE to complete on container " ++ container)
wait_for_save dc container env before (suc left) = do
  ask wait to_result
  after ← attempt (last_save dc container env)
  let rest = wait_for_save dc container env before left
  if advanced before after then return tt else rest

unfoldable pub save_and_copy : DockerClient → RcloneClient → Job → M Text
save_and_copy dc rc job = do
  let env = set_if_given (codes "REDISCLI_AUTH") (value_of (codes "REDIS_PASSWORD") job.credentials)
  before ← wrap (codes "checking LASTSAVE: ") (last_save dc job.container_name env)
  wrap (codes "BGSAVE: ")
      (dc.exec job.container_name (codes "redis-cli" ∷ codes "BGSAVE" ∷ []) env none)
  wait_for_save dc job.container_name env before max_poll_attempts
  with_temp_dir (temp_prefix job) λ tmp_dir. do
    file_name ← archive_name job (codes "rdb")
    let local_path = path_join (tmp_dir ∷ file_name ∷ [])
    wrap (codes "copying dump.rdb out of container: ")
        (dc.cp (job.container_name ++ codes ":/data/dump.rdb") local_path)
    upload_archive rc job local_path

unfoldable pub missing : Job → Option Text
missing job =
    if null job.container_name
    then some (codes "redis.Backup: job " ++ (job.name ++ codes " has no target container"))
    else none

unfoldable pub backup_core : DockerClient → RcloneClient → Job → M Text
backup_core dc rc job = required (missing job) (save_and_copy dc rc job)

unfoldable pub backup : DockerClient → RcloneClient → Job → M (Job × Option Error)
backup dc rc job = run_and_record job (backup_core dc rc job)
