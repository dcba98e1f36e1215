-- ===== src/Cli/Generate.antt =====
-- internal/cli/generate.go. The dialogue of --interactive is a parameter, and the scan of host paths is
-- switched off there.
use dockvault.Common.{
  Bool, true, false, not, List, [], ◌∷◌, ◌++◌, ◌&&◌, ◌||◌, Text, codes, null, any, length, decimal,
  quoted, value_of, if◌then◌else◌,
}
use dockvault.Effects.{M, ◌>>=◌, ◌>>◌, return}
use dockvault.Docker
use dockvault.Utils.Selectors.{say, confirm}
use dockvault.Backup.Job.{Job}
use dockvault.Detector.ServiceTypes.{credential_env_keys_for}
use dockvault.Detector.Findings.{VolumeInfo, Detector}
use dockvault.Detector.Scan.{scan_volumes}
use dockvault.Detector.Scan as DetectorScan
use dockvault.Workspace.Paths.{home, ensure_layout}
use dockvault.Generator.{create_from_volume}
use dockvault.Cli.Session.{Global, with_lock, ping_docker}

unfoldable pub missing_credentials : Job → Bool
missing_credentials job =
    any (λ k. null (value_of k job.credentials)) (credential_env_keys_for job.service_type)

unfoldable pub print_generated_job : Job → Bool → M (Unit {0})
print_generated_job job dry_run = say (
    (if dry_run then codes "[dry-run] would create" else codes "Created")
    ++ (codes " job "
        ++ (quoted job.name
            ++ (codes " (" ++ (job.backup_type ++ (codes ") -> " ++ job.google_drive_path))))))

unfoldable pub if_incomplete : Job → List Job → List Job
if_incomplete job jobs = if missing_credentials job then job ∷ jobs else jobs

-- The jobs that may lack credentials.
unfoldable pub create_all : Text → Bool → List VolumeInfo → M (List Job)
create_all root dry_run [] = return []
create_all root dry_run (v ∷ vols) = do
  job ← create_from_volume root v dry_run
  print_generated_job job dry_run
  incomplete ← create_all root dry_run vols
  return (if_incomplete job incomplete)

unfoldable pub say_names : List Job → M (Unit {0})
say_names [] = return tt
say_names (job ∷ jobs) = say (codes "  - " ++ job.name) >> say_names jobs

unfoldable pub say_incomplete : List Job → M (Unit {0})
say_incomplete [] = return tt
say_incomplete (job ∷ jobs) = do
  say (
      codes "\n"
      ++ (decimal (length (job ∷ jobs))
          ++ codes
              " job(s) may be missing credentials that couldn't be auto-detected from their container's environment:"))
  say_names (job ∷ jobs)
  say (
      codes
        "  fix: edit the job's .env directly, or re-run with `generate --interactive` to be prompted")

unfoldable pub create_jobs : Text → Bool → List VolumeInfo → M (Unit {0})
create_jobs root dry_run vols = do
  incomplete ← create_all root dry_run vols
  (if dry_run
      then return tt
      else say (codes "\n" ++ (decimal (length vols) ++ (codes " job(s) created under " ++ root))))
  say_incomplete incomplete

unfoldable pub when_agreed : Text → List VolumeInfo → Bool → M (Unit {0})
when_agreed root vols true = create_jobs root false vols
when_agreed root vols false = say (codes "Aborted.")

unfoldable pub generate_found : Text → Bool → Bool → List VolumeInfo → M (Unit {0})
generate_found root dry_run confirmed [] =
    say (codes "No volumes or host paths found to generate jobs for.")
generate_found root dry_run confirmed (v ∷ vols) =
    if not dry_run && not confirmed
    then confirm (codes "Create " ++ (decimal (length (v ∷ vols)) ++ codes " backup job(s)?")) true
      >>= when_agreed root (v ∷ vols)
    else create_jobs root dry_run (v ∷ vols)

-- The flags --auto, --interactive, --dry-run and --confirm; the value of the first is dropped.
unfoldable pub run_generate :
    (Text → Detector → M (Unit {0})) → Global → Text → Bool → Bool → Bool → Bool → M (Unit {0})
run_generate wizard g goos auto interactive dry_run confirmed = do
  root ← home g.home
  ensure_layout root
  with_lock root (do
    ping_docker
    det ← DetectorScan.new Docker.new g.environment goos
    if interactive then wizard root det else (do
      vols ← scan_volumes det
      generate_found root (dry_run || g.dry_run) confirmed vols))
