-- ===== src/Cli/Registry.antt =====
-- internal/cli/registry.go: the executors by name.
use dockvault.Workspace.Config.{Config}
use dockvault.Common.{null, ◌||◌, Option, none, some, Text, codes, ◌=t◌, if◌then◌else◌}
use dockvault.Effects.{Error, M}
use dockvault.Backup.Job.{Job}
use dockvault.Backup.Clients.{DockerClient, RcloneClient}
use dockvault.Backup.Standard
use dockvault.Backup.Postgres
use dockvault.Backup.Mysql
use dockvault.Backup.Mongodb
use dockvault.Backup.Redis
use dockvault.Backup.N8n
use dockvault.Backup.Hostdir
use dockvault.Backup.Rabbitmq
use dockvault.Restore.Files.{BackupFile}
use dockvault.Restore.Standard as RestoreStandard
use dockvault.Restore.Postgres as RestorePostgres
use dockvault.Restore.Mysql as RestoreMysql
use dockvault.Restore.Mongodb as RestoreMongodb
use dockvault.Restore.Redis as RestoreRedis
use dockvault.Restore.N8n as RestoreN8n
use dockvault.Restore.Hostdir as RestoreHostdir
use dockvault.Restore.Rabbitmq as RestoreRabbitmq

pub data Kind : Type 0 where
  standard postgres mysql mongodb redis n8n hostdir rabbitmq : Kind

-- `Name()`
unfoldable pub name_of : Kind → Text
name_of standard = codes "standard"
name_of postgres = codes "postgres"
name_of mysql = codes "mysql"
name_of mongodb = codes "mongodb"
name_of redis = codes "redis"
name_of n8n = codes "n8n"
name_of hostdir = codes "hostdir"
name_of rabbitmq = codes "rabbitmq"

-- The lookup in either registry: both hold one executor for each of the names.
unfoldable pub registered : Text → Option Kind
unfolding name_of
registered name =
    if name =t name_of standard
    then some standard
    else if name =t name_of postgres
    then some postgres
    else if name =t name_of mysql
    then some mysql
    else if name =t name_of mongodb
    then some mongodb
    else if name =t name_of redis
    then some redis
    else if name =t name_of n8n
    then some n8n
    else if name =t name_of hostdir
    then some hostdir
    else if name =t name_of rabbitmq
    then some rabbitmq
    else none

-- `exec.Backup(ctx, job)` and `exec.Restore(ctx, job, file)`
unfoldable pub backup_by : Kind → DockerClient → RcloneClient → Job → M (Job × Option Error)
backup_by standard = Standard.backup
backup_by postgres = Postgres.backup
backup_by mysql = Mysql.backup
backup_by mongodb = Mongodb.backup
backup_by redis = Redis.backup
backup_by n8n = N8n.backup
backup_by hostdir = Hostdir.backup
backup_by rabbitmq = Rabbitmq.backup

unfoldable pub restore_by : Kind → DockerClient → RcloneClient → Job → BackupFile → M Text
restore_by standard = RestoreStandard.restore
restore_by postgres = RestorePostgres.restore
restore_by mysql = RestoreMysql.restore
restore_by mongodb = RestoreMongodb.restore
restore_by redis = RestoreRedis.restore
restore_by n8n = RestoreN8n.restore
restore_by hostdir = RestoreHostdir.restore
restore_by rabbitmq = RestoreRabbitmq.restore

abbrev pub builtin_default : Text
builtin_default = codes "dockvault_backup"

-- The flag, the remote of the configuration, and the built-in default, which is the flag's default.
unfoldable pub resolve_rclone_remote : Text → Config → Text
resolve_rclone_remote flag cfg =
    if null flag || (flag =t builtin_default)
    then (if null cfg.rclone_remote then flag else cfg.rclone_remote)
    else flag
