-- ===== src/Cli/Scan.antt =====
-- internal/cli/scan.go. The scan of host paths is switched off there.
use dockvault.Common.{
  ℕ, suc, Bool, not, List, [], ◌∷◌, ◌++◌, ◌&&◌, Text, codes, ◌=t◌, any, contains, to_upper, length,
  decimal, quoted, Dict, if◌then◌else◌, sort_by,
}
use dockvault.Effects.{
  Json, text, array, object, Items, no_items, item, Fields, no_fields, field, M, ◌>>=◌, ◌>>◌,
  return, fail, ask, to_result, print_json,
}
use dockvault.Effects
use dockvault.Docker
use dockvault.Utils.Selectors.{say}
use dockvault.Detector.Findings.{VolumeInfo}
use dockvault.Detector.Scan.{scan_volumes}
use dockvault.Detector.Scan as DetectorScan
use dockvault.Workspace.Env.{key_before}
use dockvault.Cli.Session.{Global, ping_docker}

unfoldable pub looks_secret : Text → Bool
looks_secret key =
    any (λ marker. contains (to_upper key) marker)
      (codes "PASSWORD" ∷ codes "TOKEN" ∷ codes "SECRET" ∷ codes "API_KEY" ∷ [])

unfoldable pub masked : Text → Text → Text
masked key v = if looks_secret key then key ++ codes "=***" else key ++ (codes "=" ++ v)

-- The rest of a list behind its first element.
unfoldable pub masked_rest : Dict → Text
masked_rest [] = []
masked_rest ((k, v) ∷ creds) = codes ", " ++ (masked k v ++ masked_rest creds)

unfoldable pub masked_cred_keys : Dict → Text
masked_cred_keys [] = []
masked_cred_keys ((k, v) ∷ creds) = masked k v ++ masked_rest creds

unfoldable pub comma_rest : List Text → Text
comma_rest [] = []
comma_rest (s ∷ ss) = codes ", " ++ (s ++ comma_rest ss)

unfoldable pub join_comma : List Text → Text
join_comma [] = []
join_comma (s ∷ ss) = s ++ comma_rest ss

unfoldable pub say_containers : List Text → M (Unit {0})
say_containers [] = return tt
say_containers (c ∷ cs) = say (codes "     Container(s): " ++ join_comma (c ∷ cs))

unfoldable pub say_credentials : Dict → M (Unit {0})
say_credentials [] = return tt
say_credentials (c ∷ cs) = say (codes "     Credentials found: " ++ masked_cred_keys (c ∷ cs))

unfoldable pub print_volume : ℕ → VolumeInfo → M (Unit {0})
print_volume n v = do
  say (codes " [" ++ (decimal n ++ (codes "] " ++ v.job_name)))
  say (codes "     Volume: " ++ v.name)
  say (codes "     Type: " ++ v.service_type)
  say_containers v.containers
  say_credentials v.credentials
  say (codes "     Recommended backup: " ++ v.recommended_backup_type)
  say (codes "     Proposed job name: " ++ v.job_name)
  say (codes "     Google Drive path: " ++ v.google_drive_path)
  say []

unfoldable pub print_volumes : ℕ → List VolumeInfo → M (Unit {0})
print_volumes n [] = return tt
print_volumes n (v ∷ vols) = print_volume n v >> print_volumes (suc n) vols

unfoldable pub print_scan_text : List VolumeInfo → M (Unit {0})
print_scan_text vols =
    say (codes "Found " ++ (decimal (length vols) ++ codes " volume(s):\n")) >> print_volumes 1 vols

unfoldable pub texts_json : List Text → Items
texts_json [] = no_items
texts_json (t ∷ ts) = item (text t) (texts_json ts)

-- A slice without an element is nil here.
unfoldable pub names_json : List Text → Json
names_json [] = Effects.null
names_json (t ∷ ts) = array (texts_json (t ∷ ts))

-- The keys of a map are printed in their order.
unfoldable pub dict_json : Dict → Fields
dict_json [] = no_fields
dict_json ((k, v) ∷ d) = field k (text v) (dict_json d)

unfoldable pub volume_json : VolumeInfo → Json
unfolding texts_json names_json dict_json
volume_json v = object (
    field (codes "Name") (text v.name) (
      field (codes "Containers") (names_json v.containers) (
        field (codes "ServiceType") (text v.service_type) (
          field (codes "Credentials") (object (dict_json (sort_by key_before v.credentials))) (
            field (codes "RecommendedBackupType") (text v.recommended_backup_type) (
              field (codes "JobName") (text v.job_name) (
                field (codes "GoogleDrivePath") (text v.google_drive_path)
                  (field (codes "VolumeIdentifier") (text v.volume_identifier) no_fields))))))))

unfoldable pub volume_items : List VolumeInfo → Items
volume_items [] = no_items
volume_items (v ∷ vols) = item (volume_json v) (volume_items vols)

unfoldable pub volumes_json : List VolumeInfo → Json
volumes_json [] = Effects.null
volumes_json (v ∷ vols) = array (volume_items (v ∷ vols))

unfoldable pub print_scan_json : List VolumeInfo → M (Unit {0})
print_scan_json vols =
    ask
      (print_json (
        object (
          field (codes "volumes") (volumes_json vols)
            (field (codes "host_paths") Effects.null no_fields))))
      to_result

unfoldable pub bad_output : Text → Text
bad_output output = codes "--output must be \"json\" or \"text\", got " ++ quoted output

-- The note on the flag --auto of a verbose scan is output, too.
unfoldable pub auto_note : Global → Bool → M (Unit {0})
auto_note g auto =
    if not auto && g.verbose
    then say (
        codes
          "note: scan currently always performs full detection; --auto is accepted for spec compatibility and future interactive-vs-auto branching")
    else return tt

unfoldable pub run_scan : Global → Text → Bool → Text → M (Unit {0})
run_scan g goos auto output =
    if not (output =t codes "json") && not (output =t codes "text")
    then fail (bad_output output)
    else (do
      ping_docker
      det ← DetectorScan.new Docker.new g.environment goos
      vols ← scan_volumes det
      auto_note g auto
      if output =t codes "json" then print_scan_json vols else print_scan_text vols)
