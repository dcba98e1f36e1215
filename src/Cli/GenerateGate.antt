-- ===== src/Cli/GenerateGate.antt =====
-- No job is created before the operator has agreed, unless the flags say so.
use dockvault.Common.{◌⊎◌}
use dockvault.Effects.{Call, mkdir_all, chmod, hostname}
use dockvault.Effects.Gate.{Gate}
use dockvault.Docker
use dockvault.Backup.Job.{Job}
use dockvault.Detector.Findings.{Detector}
use dockvault.Detector.Scan as DetectorScan
use dockvault.Detector.ScanLaws.{IsQuery}
use dockvault.Cli.Preparation.{IsPreparation}

-- The directories of the workspace are made or made private, or the name of the host is asked for.
abbrev pub IsLayout : Call → Type 0
IsLayout (mkdir_all path) = Unit {0}
IsLayout (chmod path) = Unit {0}
IsLayout hostname = Unit {0}
IsLayout _ = ⊥

-- A request that writes no file but the lock file.
abbrev pub IsSurvey : Call → Type 0
IsSurvey c = IsPreparation c ⊎ IsLayout c ⊎ ((docker : Docker.Client) × IsQuery docker c)
