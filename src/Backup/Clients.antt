-- ===== src/Backup/Clients.antt =====
-- The interfaces `DockerClient` and `RcloneClient` of internal/backup/executor.go, through which the
-- executors reach the two commands, and the wrappers as their implementations.
use dockvault.Common.{Dict, Option, List, Text, ℤ}
use dockvault.Effects.{M, Content}
use dockvault.Docker
use dockvault.Docker.{MountSpec}
use dockvault.Rclone
use dockvault.Rclone.{FileInfo}

pub record DockerClient : Type 0 where
  pub run : Text → List MountSpec → List Text → M Text
  pub exec : Text → List Text → Dict → Option Content → M Text
  pub stop : Text → M (Unit {0})
  pub start : Text → M (Unit {0})
  pub cp : Text → Text → M (Unit {0})

pub record RcloneClient : Type 0 where
  pub upload : Text → Text → M (Unit {0})
  pub list_files : Text → M (List FileInfo)
  pub download : Text → Text → M (Unit {0})
  pub prune : Text → ℤ → ℤ → M (List Text)
  pub hashsum : Text → M Text

unfoldable pub docker_client : Docker.Client → DockerClient
docker_client c = record {
  run = Docker.run_container c;
  exec = Docker.exec c;
  stop = Docker.stop c;
  start = Docker.start c;
  cp = Docker.cp c;
}

unfoldable pub rclone_client : Rclone.Client → RcloneClient
rclone_client c = record {
  upload = Rclone.upload c;
  list_files = Rclone.list_files c;
  download = Rclone.download c;
  prune = Rclone.prune c;
  hashsum = Rclone.hashsum c;
}
