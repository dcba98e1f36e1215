-- ===== src/Cli/RestoreGate.antt =====
-- Nothing is restored before the operator has typed RESTORE.
use dockvault.Common.{
  ◌||◌, ◌⊎◌, Bool, true, false, Option, none, some, List, [], ◌∷◌, inl, inr, Text, codes,
}
use dockvault.Effects.{Call, Error, print, read_line}
use dockvault.Effects.Keeps.{
  Only, bind-Only, return-Only, throw-Only, attempt-Only, wrap-Only, lift-Only, platform-Only,
  if-Only,
}
use dockvault.Effects.Gate.{Gate, Anything, Only-Gate, bind-Gate, if-Gate, ask-Gate}
use dockvault.Docker
use dockvault.Rclone
use dockvault.Utils.Questions.{
  confirm-Only, say-Only, select_one-Only, is_word, require_typed_confirmation-Asks,
}
use dockvault.Backup.Job.{Job}
use dockvault.Restore.Files.{BackupFile}
use dockvault.Workspace.Reads.{
  home-Only, exists-Only, list_job_names-Only, load_job-Only, load_config-Only,
}
use dockvault.Cli.Registry.{Kind}
use dockvault.Cli.Session.{Global}
use dockvault.Cli.Restore.{
  restart_answered, maybe_restart_container, print_warning, apply_restore, when_confirmed,
  confirm_restore, label_of, labels_of, choose_backup, restore_registered, restore_job, choose_job,
  job_to_restore, run_restore,
}
use dockvault.Cli.RestoreRequests.{restore_by-Anything, start-Only}
use dockvault.Cli.Preparation.{
  IsPreparation, IsPreparation-Readable, with_lock-Gate, ping_docker-Only, configured_remote-Only,
  list_remote_backups-Only,
}

-- Output to the terminal, or a line read from it.
abbrev pub IsTerminal : Call → Type 0
IsTerminal (print t) = Unit {0}
IsTerminal read_line = Unit {0}
IsTerminal _ = ⊥

maybe_restart_container-Anything :
    (job : Job) → Only Anything (maybe_restart_container Docker.new job)
unfolding maybe_restart_container
maybe_restart_container-Anything job =
    if-Only _ (return-Only tt)
      (bind-Only (attempt-Only (confirm-Only (λ t. tt) tt _ false)) answered)
  where
    answered : (a : Error ⊎ Bool) → Only Anything (restart_answered Docker.new job a)
    answered (inl e) = unfold restart_answered in say-Only _ tt
    answered (inr false) = unfold restart_answered in say-Only _ tt
    answered (inr true) =
        unfold restart_answered in
        bind-Only (wrap-Only _ (start-Only (λ args stdin. tt) _)) λ _. say-Only _ tt

print_warning-Anything : (warning : Text) → Only Anything (print_warning warning)
unfolding print_warning
print_warning-Anything warning = if-Only _ (return-Only tt) (say-Only _ tt)

module _ (rc : Rclone.Client) (job : Job) (kind : Kind) where
  apply_restore-Anything : (file : BackupFile) → Only Anything (apply_restore rc job kind file)
  unfolding apply_restore
  apply_restore-Anything file = bind-Only (say-Only _ tt) λ _.
      bind-Only (wrap-Only _ (restore_by-Anything rc job file kind)) λ warning.
        bind-Only (print_warning-Anything warning) λ _.
          bind-Only (say-Only _ tt)
            λ _. if-Only _ (maybe_restart_container-Anything job) (return-Only tt)

  confirm_restore-Gate :
      (file : BackupFile)
      → Gate IsPreparation (is_word (codes "RESTORE")) (confirm_restore rc job kind file)
  unfolding confirm_restore when_confirmed
  confirm_restore-Gate file = bind-Gate (say-Only _ tt) λ _.
      ask-Gate (require_typed_confirmation-Asks (λ t. tt) _) tt (when_confirmed rc job kind file)
        (apply_restore-Anything file) (say-Only _ tt)

  labels_of-Only : (files : List BackupFile) → Only IsPreparation (labels_of files)
  unfolding labels_of label_of
  labels_of-Only [] = return-Only []
  labels_of-Only (f ∷ fs) =
      bind-Only (bind-Only (platform-Only _) λ r. bind-Only (lift-Only r) λ size. return-Only _)
        λ l. bind-Only (labels_of-Only fs) λ ls. return-Only _

  choose_backup-Gate :
      (dry_run : Bool) (files : List BackupFile)
      → Gate IsPreparation (is_word (codes "RESTORE")) (choose_backup rc dry_run job kind files)
  unfolding choose_backup
  choose_backup-Gate dry_run [] = Only-Gate (say-Only _ tt)
  choose_backup-Gate dry_run (f ∷ fs) = bind-Gate (labels_of-Only (f ∷ fs)) λ labels.
      bind-Gate (select_one-Only (λ t. tt) tt _ labels) λ i.
        bind-Gate (lift-Only _)
          λ file. if-Gate dry_run (Only-Gate (say-Only _ tt)) (confirm_restore-Gate file)

module _ (g : Global) (root : Text) (dry_run : Bool) where
  restore_registered-Gate :
      (rc : Rclone.Client) (job : Job) (k : Option Kind)
      → Gate IsPreparation (is_word (codes "RESTORE")) (restore_registered rc dry_run job k)
  unfolding restore_registered
  restore_registered-Gate rc job none = Only-Gate (throw-Only _)
  restore_registered-Gate rc job (some kind) =
      bind-Gate (list_remote_backups-Only rc job)
        λ files. choose_backup-Gate rc job kind dry_run files

  restore_job-Gate :
      (name : Option Text)
      → Gate IsPreparation (is_word (codes "RESTORE")) (restore_job g root dry_run name)
  unfolding restore_job
  restore_job-Gate none = Only-Gate (return-Only tt)
  restore_job-Gate (some name) = bind-Gate (load_job-Only IsPreparation-Readable root name) λ job.
      bind-Gate (load_config-Only IsPreparation-Readable root) λ cfg.
        bind-Gate ping_docker-Only
          λ _. bind-Gate (configured_remote-Only g cfg) λ rc. restore_registered-Gate rc job _

choose_job-Only : (names : List Text) → Only IsPreparation (choose_job names)
unfolding choose_job
choose_job-Only [] = bind-Only (say-Only _ tt) λ _. return-Only none
choose_job-Only (n ∷ ns) =
    bind-Only (select_one-Only (λ t. tt) tt _ (n ∷ ns))
      λ i. bind-Only (lift-Only _) λ name. return-Only _

job_to_restore-Only : (root flag : Text) → Only IsPreparation (job_to_restore root flag)
unfolding job_to_restore
job_to_restore-Only root flag =
    if-Only _
      (bind-Only (list_job_names-Only IsPreparation-Readable root) λ names. choose_job-Only names)
      (return-Only _)

-- Whatever the files, the remote and the answers are, the restore command only reads, lists, asks and
-- holds the lock, up to a line in which the operator typed RESTORE; no restore starts before.
pub run_restore-Gate :
    (g : Global) (job_flag : Text) (dry_run : Bool)
    → Gate IsPreparation (is_word (codes "RESTORE")) (run_restore g job_flag dry_run)
unfolding run_restore
run_restore-Gate g job_flag dry_run = bind-Gate (home-Only IsPreparation-Readable g.home) λ root.
    bind-Gate (exists-Only IsPreparation-Readable root) λ present.
      if-Gate present
        (with_lock-Gate IsPreparation-Readable root (
          bind-Gate (job_to_restore-Only root job_flag)
            λ name. restore_job-Gate g root (dry_run || g.dry_run) name))
        (Only-Gate (throw-Only _))
