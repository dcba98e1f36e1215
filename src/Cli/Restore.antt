-- ===== src/Cli/Restore.antt =====
-- internal/cli/restore.go
use dockvault.Common.{
  Bool, true, false, Option, none, some, List, [], ◌∷◌, ◌++◌, ◌||◌, inl, inr, Text, codes, null, ℤ,
  pos, negsuc, decimal_ℤ, quoted, Instant, format_label, ℕ, if◌then◌else◌,
}
use dockvault.Effects.{
  Result, ok, Answer, M, ◌>>=◌, ◌>>◌, return, fail, wrap, attempt, lift, platform,
}
use dockvault.Docker
use dockvault.Rclone
use dockvault.Utils.Selectors.{say, select_one, confirm, require_typed_confirmation}
use dockvault.Backup.Job.{Job}
use dockvault.Backup.Size.{format_bytes}
use dockvault.Backup.Clients.{docker_client, rclone_client}
use dockvault.Restore.Files.{BackupFile, list_remote_backups, stops_container_during_restore}
use dockvault.Workspace.Paths.{home, exists}
use dockvault.Workspace.JobFile.{list_job_names, load_job}
use dockvault.Workspace.Config.{load_config}
use dockvault.Cli.Registry.{Kind, registered, restore_by}
use dockvault.Cli.Session.{Global, no_workspace, with_lock, ping_docker, configured_remote, element}

unfoldable pub restart_answered : Docker.Client → Job → Answer Bool → M (Unit {0})
restart_answered dc job (inl e) = say (
    codes "Leaving container "
    ++ (quoted job.container_name
        ++ (codes " stopped (couldn't read a confirmation: " ++ (e.message ++ codes ")"))))
restart_answered dc job (inr false) =
    say (codes "Leaving container " ++ (quoted job.container_name ++ codes " stopped."))
restart_answered dc job (inr true) = do
  wrap (codes "starting container " ++ (quoted job.container_name ++ codes ": "))
      (Docker.start dc job.container_name)
  say (codes "Started container " ++ quoted job.container_name)

unfoldable pub maybe_restart_container : Docker.Client → Job → M (Unit {0})
maybe_restart_container dc job = if null job.container_name then return tt else (do
  r ←
      attempt (
        confirm (codes "Start container " ++ (quoted job.container_name ++ codes " back up?"))
          false)
  restart_answered dc job r)

unfoldable pub print_warning : Text → M (Unit {0})
print_warning warning = if null warning then return tt else say (codes "Warning: " ++ warning)

-- What follows the confirmation.
unfoldable pub apply_restore : Rclone.Client → Job → Kind → BackupFile → M (Unit {0})
apply_restore rc job kind file = do
  say (codes "Restoring " ++ (quoted job.name ++ (codes " from " ++ (file.name ++ codes " ..."))))
  warning ←
      wrap (codes "restore failed: ")
        (restore_by kind (docker_client Docker.new) (rclone_client rc) job file)
  print_warning warning
  say (codes "Restore complete.")
  if stops_container_during_restore job.backup_type
      then maybe_restart_container Docker.new job
      else return tt

unfoldable pub when_confirmed : Rclone.Client → Job → Kind → BackupFile → Bool → M (Unit {0})
when_confirmed rc job kind file true = apply_restore rc job kind file
when_confirmed rc job kind file false =
    say (codes "Confirmation did not match \"RESTORE\" - aborted.")

unfoldable pub confirm_restore : Rclone.Client → Job → Kind → BackupFile → M (Unit {0})
confirm_restore rc job kind file = do
  say (
      codes "\nThis will overwrite "
      ++ (quoted job.name ++ (codes "'s current data with " ++ (file.name ++ codes "."))))
  confirmed ← require_typed_confirmation (codes "RESTORE")
  when_confirmed rc job kind file confirmed

unfoldable pub size_text : (ℕ → ℕ → Text) → ℤ → Result Text
size_text one_decimal (pos n) = format_bytes one_decimal n
size_text one_decimal (negsuc n) = ok (decimal_ℤ (negsuc n) ++ codes " B")

-- A file whose time did not parse has the zero time.
unfoldable pub modified_text : Option Instant → Text
modified_text none = codes "0001-01-01 00:00:00 UTC"
modified_text (some t) = format_label t

unfoldable pub label_of : BackupFile → M Text
label_of file = do
  r ← platform (λ p. size_text p.one_decimal file.size)
  size ← lift r
  return (
      file.name
      ++ (codes "  (" ++ (size ++ (codes ", " ++ (modified_text file.modified ++ codes ")")))))

unfoldable pub labels_of : List BackupFile → M (List Text)
labels_of [] = return []
labels_of (f ∷ fs) = do l ← label_of f; ls ← labels_of fs; return (l ∷ ls)

unfoldable pub choose_backup : Rclone.Client → Bool → Job → Kind → List BackupFile → M (Unit {0})
choose_backup rc dry_run job kind [] = say (
    codes "No backups found for job "
    ++ (quoted job.name ++ (codes " at " ++ job.google_drive_path)))
choose_backup rc dry_run job kind (f ∷ fs) = do
  labels ← labels_of (f ∷ fs)
  i ←
      select_one
        (codes "Select a backup to restore for job "
          ++ (quoted job.name ++ codes " (newest first):"))
        labels
  file ← lift (element (f ∷ fs) i)
  if dry_run
      then say
          (codes "[dry-run] would restore " ++ (quoted job.name ++ (codes " from " ++ file.path)))
      else confirm_restore rc job kind file

unfoldable pub restore_registered : Rclone.Client → Bool → Job → Option Kind → M (Unit {0})
restore_registered rc dry_run job none =
    fail (codes "no restore executor registered for backup type " ++ quoted job.backup_type)
restore_registered rc dry_run job (some kind) = do
  files ← list_remote_backups (rclone_client rc) job
  choose_backup rc dry_run job kind files

unfoldable pub restore_job : Global → Text → Bool → Option Text → M (Unit {0})
restore_job g root dry_run none = return tt
restore_job g root dry_run (some name) = do
  job ← load_job root name
  cfg ← load_config root
  ping_docker
  rc ← configured_remote g cfg
  restore_registered rc dry_run job (registered job.backup_type)

unfoldable pub choose_job : List Text → M (Option Text)
choose_job [] = say (codes "No jobs found. Run `dockvault generate` first.") >> return none
choose_job (n ∷ ns) = do
  i ← select_one (codes "Select a job to restore:") (n ∷ ns)
  name ← lift (element (n ∷ ns) i)
  return (some name)

-- The flag is empty by default.
unfoldable pub job_to_restore : Text → Text → M (Option Text)
job_to_restore root job_flag =
    if null job_flag
    then (do names ← list_job_names root; choose_job names)
    else return (some job_flag)

unfoldable pub run_restore : Global → Text → Bool → M (Unit {0})
run_restore g job_flag dry_run = do
  root ← home g.home
  present ← exists root
  if present
      then with_lock root
          (do name ← job_to_restore root job_flag; restore_job g root (dry_run || g.dry_run) name)
      else fail (no_workspace root)
