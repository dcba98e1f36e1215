-- ===== src/Restore.antt =====
-- internal/restore: verification of a download, and the restorers.
pub mod Files
pub mod Verify
pub mod Standard
pub mod Hostdir
pub mod Redis
pub mod N8n
pub mod Postgres
pub mod Mysql
pub mod Mongodb
pub mod Rabbitmq
pub mod Refusal
pub mod Acceptance
pub mod Requests
