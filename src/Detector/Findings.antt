-- ===== src/Detector/Findings.antt =====
-- What a scan finds: the records of internal/detector/detector.go.
use dockvault.Common.{Bool, List, Text, Dict, ℤ}
use dockvault.Docker

pub record VolumeInfo : Type 0 where
  pub name : Text
  pub containers : List Text
  pub service_type : Text
  pub credentials : Dict
  pub recommended_backup_type : Text
  pub job_name : Text
  pub google_drive_path : Text
  pub volume_identifier : Text

pub record ContainerInfo : Type 0 where
  pub id : Text
  pub name : Text
  pub image : Text
  pub running : Bool
  pub env : Dict
  pub ports : List ℤ

pub record HostPathInfo : Type 0 where
  pub path : Text
  pub kind : Text
  pub source : Text
  pub recommended_backup_type : Text
  pub job_name : Text
  pub google_drive_path : Text
  pub volume_identifier : Text

-- `detectorImpl`, with the operating system, which the program reads from its build.
pub record Detector : Type 0 where
  pub docker : Docker.Client
  pub hostname : Text
  pub environment : Text
  pub goos : Text
