-- ===== src/Cli/Summary.antt =====
-- The exit status of a run of backups.
use dockvault.Common.{Bool, List, all}
use dockvault.Cli.Backup.{JobResult, succeeded}

abbrev pub all_succeeded : List JobResult → Bool
all_succeeded rs = all (λ r. succeeded r.failure) rs
