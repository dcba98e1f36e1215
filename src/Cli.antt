-- ===== src/Cli.antt =====
-- internal/cli: the registries, and the commands.
pub mod Registry
pub mod RestoreRefusal
pub mod RestoreRequests
pub mod Backup
pub mod Runs
pub mod HistoryView
pub mod BackupCommand
pub mod BackupGuards
pub mod Exclusion
pub mod Summary
pub mod Session
pub mod Restore
pub mod Preparation
pub mod RestoreGate
pub mod Scan
pub mod ScanMasks
pub mod List
pub mod Generate
pub mod GenerateGate
pub mod Schedule
pub mod Tree
pub mod TreeLaws
