-- ===== src/Workspace.antt =====
-- internal/workspace: the directory that holds the jobs, their history and the lock.
pub mod Paths
pub mod Env
pub mod EnvRoundTrip
pub mod JobFile
pub mod JobRoundTrip
pub mod History
pub mod HistoryLaws
pub mod EnvOrder
pub mod HistoryRoundTrip
pub mod Config
pub mod Lock
pub mod LockLaws
pub mod Reads
