-- ===== src/Tests/Scans.antt =====
-- A scan at concrete volumes and containers.
use dockvault.Tests.{login}
use dockvault.Docker
use mathlib.Core.List.{Perm}
use dockvault.Common.{
  Text, ◌≡◌, refl, [], ◌∷◌, List, map, All, codes, ◌||◌, lookup, none, if◌then◌else◌,
}
use dockvault.Common.Order.{InOrder}
use dockvault.Docker.Inspect.{VolumeSummary}
use dockvault.Detector.ServiceTypes.{detect_service_type, credential_env_keys}
use dockvault.Detector.Credentials.{is_one_of, looks_like_secret, extract_credentials}
use dockvault.Detector.CredentialLaws.{extract_credentials_lem}
use dockvault.Detector.Findings.{Detector}
use dockvault.Cli.Scan.{print_scan_text}
use dockvault.Cli.ScanMasks.{with_secrets, print_scan_text-with_secrets}
use dockvault.Detector.Findings.{VolumeInfo, HostPathInfo}
use dockvault.Detector.HostPaths.{env_file, has_path, path_before, host_paths}
use dockvault.Detector.HostPathLaws.{copies, host_paths_lem}
use dockvault.Detector.Scan.{info_before, volume_infos}
use dockvault.Detector.ScanLaws.{HasValidName, name_of_info, name_of_summary, volume_infos_lem}

abbrev detector : Detector
detector = record {
  docker = Docker.new;
  hostname = codes "web_1_example";
  environment = codes "stage";
  goos = codes "linux";
}

abbrev two_volumes : List VolumeSummary
two_volumes =
    record { name = codes "pgdata"; driver = codes "local"; mountpoint = [] }
    ∷ record { name = codes "cache"; driver = codes "local"; mountpoint = [] }
    ∷ []

volume_infos_lem_example :
    InOrder info_before (volume_infos detector [] two_volumes)
    × Perm
        (map name_of_info (volume_infos detector [] two_volumes))
        (map name_of_summary two_volumes)
    × All HasValidName (volume_infos detector [] two_volumes)
volume_infos_lem_example = volume_infos_lem detector [] two_volumes

extract_credentials_lem_example :
    lookup (codes "PGPASSWORD") (extract_credentials (codes "postgres:16") login) ≡ (
      if is_one_of
          (credential_env_keys (detect_service_type (codes "postgres:16")))
          (codes "PGPASSWORD")
        || looks_like_secret (codes "PGPASSWORD")
      then lookup (codes "PGPASSWORD") login
      else none)
extract_credentials_lem_example =
    extract_credentials_lem (codes "postgres:16") login (codes "PGPASSWORD") (refl, tt)

abbrev found_volume : VolumeInfo
found_volume = record {
  name = codes "pgdata";
  volume_identifier = codes "pgdata";
  recommended_backup_type = codes "pg_dump";
  containers = codes "db" ∷ [];
  service_type = codes "postgres";
  credentials = login;
  job_name = codes "postgres_app";
  google_drive_path = codes "/stage/h/postgres/postgres_app/";
}

abbrev starred : Text → Text
starred key = codes "***"

print_scan_text-with_secrets_example :
    print_scan_text (map (with_secrets starred) (found_volume ∷ []))
    ≡ print_scan_text (found_volume ∷ [])
print_scan_text-with_secrets_example = print_scan_text-with_secrets starred (found_volume ∷ [])

abbrev twice : List HostPathInfo
twice =
    env_file (codes "/srv/b/.env")
    ∷ env_file (codes "/opt/a/.env")
    ∷ env_file (codes "/srv/b/.env")
    ∷ []

host_paths_lem_example :
    ((path : Text) → copies path (host_paths twice) ≡ (if has_path path twice then 1 else 0))
    × InOrder path_before (host_paths twice)
host_paths_lem_example = host_paths_lem twice
