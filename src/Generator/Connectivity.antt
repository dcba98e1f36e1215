-- ===== src/Generator/Connectivity.antt =====
-- internal/generator/connectivity.go
use dockvault.Common.{
  Bool, true, false, none, List, [], ◌∷◌, ◌++◌, inl, inr, Text, codes, ◌=t◌, null, contains,
  trim_space, value_of, if◌then◌else◌,
}
use dockvault.Effects.{Answer, M, ◌>>=◌, return, attempt}
use dockvault.Backup.Job.{Job}
use dockvault.Backup.Clients.{DockerClient}
use dockvault.Backup.TempDir.{set_if_given}
use dockvault.Detector.ServiceTypes.{postgres, mysql, mongodb, redis, name_of}

unfoldable pub connectivity_fail_msg : Answer Text → Text
connectivity_fail_msg (inl e) = codes "failed (" ++ (e.message ++ codes ")")
connectivity_fail_msg (inr out) = codes "failed (" ++ (trim_space out ++ codes ")")

unfoldable pub reached : Text → Answer Text → Bool × Text
reached message (inl e) = (false, connectivity_fail_msg (inl e))
reached message (inr out) = (true, message)

-- The output of a command that succeeds must say so, too.
unfoldable pub reached_with : Text → Text → Answer Text → Bool × Text
reached_with word message (inl e) = (false, connectivity_fail_msg (inl e))
reached_with word message (inr out) =
    if contains out word then (true, message) else (false, connectivity_fail_msg (inr out))

unfoldable pub mongo_args : Job → Text → List Text
mongo_args job shell =
    let user = value_of (codes "MONGO_INITDB_ROOT_USERNAME") job.credentials in
    shell
    ∷ codes "--quiet"
    ∷ codes "--eval"
    ∷ codes "db.adminCommand({ping:1})"
    ∷ (if null user
        then []
        else codes "-u"
          ∷ user
          ∷ codes "-p"
          ∷ value_of (codes "MONGO_INITDB_ROOT_PASSWORD") job.credentials
          ∷ codes "--authenticationDatabase"
          ∷ codes "admin"
          ∷ [])

-- Older images have the legacy shell only.
unfoldable pub retried : DockerClient → Job → Answer Text → M (Answer Text)
retried dc job (inr out) = return (inr out)
retried dc job (inl e) =
    attempt (dc.exec job.container_name (mongo_args job (codes "mongo")) [] none)

unfoldable pub redis_args : Text → List Text
redis_args pw =
    if null pw
    then codes "redis-cli" ∷ codes "ping" ∷ []
    else codes "redis-cli" ∷ codes "-a" ∷ pw ∷ codes "--no-auth-warning" ∷ codes "ping" ∷ []

unfoldable pub test_connectivity : DockerClient → Job → M (Bool × Text)
test_connectivity dc job =
    if job.service_type =t name_of postgres
    then (do
      r ← attempt (
          dc.exec job.container_name
            (codes "psql"
              ∷ codes "-U"
              ∷ value_of (codes "POSTGRES_USER") job.credentials
              ∷ codes "-d"
              ∷ value_of (codes "POSTGRES_DB") job.credentials
              ∷ codes "-c"
              ∷ codes "SELECT 1"
              ∷ [])
            (set_if_given (codes "PGPASSWORD")
              (value_of (codes "POSTGRES_PASSWORD") job.credentials))
            none)
      return (
          reached
            (codes
              "confirmed the postgres user/database exist (this image's default auth trusts local connections regardless of password - can't check that part)")
            r))
    else if job.service_type =t name_of mysql
    then (do
      r ← attempt (
          dc.exec job.container_name
            (codes "mysqladmin" ∷ codes "ping" ∷ codes "-u" ∷ codes "root" ∷ [])
            ((codes "MYSQL_PWD", value_of (codes "MYSQL_ROOT_PASSWORD") job.credentials) ∷ []) none)
      return (reached_with (codes "mysqld is alive") (codes "reached mysql") r))
    else if job.service_type =t name_of mongodb
    then (do
      first ← attempt (dc.exec job.container_name (mongo_args job (codes "mongosh")) [] none)
      r ← retried dc job first
      return (reached (codes "reached mongodb") r))
    else if job.service_type =t name_of redis
    then (do
      r ← attempt (
          dc.exec job.container_name
            (redis_args (value_of (codes "REDIS_PASSWORD") job.credentials)) [] none)
      return (reached_with (codes "PONG") (codes "reached redis") r))
    else return (true, [])
