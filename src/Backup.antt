-- ===== src/Backup.antt =====
-- internal/backup: the job, the steps that every executor shares, and the executors.
pub mod Job
pub mod Clients
pub mod Size
pub mod Manifest
pub mod LocalCopy
pub mod Upload
pub mod Record
pub mod TempDir
pub mod Standard
pub mod Hostdir
pub mod N8n
pub mod Postgres
pub mod Mysql
pub mod Mongodb
pub mod Rabbitmq
pub mod Redis
