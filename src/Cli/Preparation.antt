-- ===== src/Cli/Preparation.antt =====
-- What a command asks for before it changes anything.
use dockvault.Common.{Bool, [], ◌∷◌, ◌⊎◌, inl, inr, ◌≡◌, refl, Text, codes}
use dockvault.Effects.{
  Call, M, run_command, stat, read_file, read_dir, get_env, home_dir, create_exclusive, write_file,
  remove, now, process_id, find_process, signal_zero, print, read_line,
}
use dockvault.Effects.Keeps.{
  Only, bind-Only, return-Only, throw-Only, wrap-Only, wrap_around-Only, ask-Only, finally-Only,
  lift-Only, unmarshal-Only, if-Only,
}
use dockvault.Effects.Gate.{Gate, bind-Gate, finally-Gate}
use dockvault.Docker
use dockvault.Rclone
use dockvault.Backup.Job.{Job}
use dockvault.Backup.Clients.{rclone_client}
use dockvault.Restore.Files.{list_remote_backups}
use dockvault.Workspace.Config.{Config}
use dockvault.Workspace.Lock.{lock_path}
use dockvault.Workspace.Reads.{Readable, lock-Only, unlock-Only}
use dockvault.Cli.Session.{Global, with_lock, ping_docker, configured_remote}

-- A file is read, the lock file is taken or released, the terminal is used, Docker is asked whether it
-- runs, or rclone lists its remotes or a directory.
abbrev pub IsPreparation : Call → Type 0
IsPreparation (run_command bin args stdin) =
    (args ≡ codes "info" ∷ codes "--format" ∷ codes "{{.ServerVersion}}" ∷ [])
    ⊎ (args ≡ codes "listremotes" ∷ [])
    ⊎ ((path : Text) × (args ≡ codes "lsjson" ∷ path ∷ []))
IsPreparation (stat path) = Unit {0}
IsPreparation (read_file path) = Unit {0}
IsPreparation (read_dir path) = Unit {0}
IsPreparation (get_env name) = Unit {0}
IsPreparation home_dir = Unit {0}
IsPreparation now = Unit {0}
IsPreparation process_id = Unit {0}
IsPreparation (find_process pid) = Unit {0}
IsPreparation (signal_zero pid) = Unit {0}
IsPreparation (create_exclusive path) = (root : Text) × (path ≡ lock_path root)
IsPreparation (write_file path mode content) = (root : Text) × (path ≡ lock_path root)
IsPreparation (remove path) = (root : Text) × (path ≡ lock_path root)
IsPreparation (print t) = Unit {0}
IsPreparation read_line = Unit {0}
IsPreparation _ = ⊥

pub IsPreparation-Readable : Readable IsPreparation
IsPreparation-Readable = record {
  stats = λ path. tt;
  reads = λ path. tt;
  lists = λ path. tt;
  env = λ name. tt;
  home = tt;
  clock = tt;
  pid = tt;
  finds = λ pid. tt;
  signals = λ pid. tt;
  creates = λ root. (root, refl);
  writes = λ root mode content. (root, refl);
  removes = λ root. (root, refl);
}

module _ {P : Call → Type 0} (r : Readable P) (root : Text) where
  pub with_lock-Only {ℓ} : {A : Type ℓ} {m : M A} → Only P m → Only P (with_lock root m)
  unfolding with_lock
  with_lock-Only h = bind-Only (lock-Only r root) λ path. finally-Only h (unlock-Only r root)

  pub with_lock-Gate {ℓ} :
      {A : Type ℓ} {accepts : Text → Bool} {m : M A}
      → Gate P accepts m
      → Gate P accepts (with_lock root m)
  unfolding with_lock
  with_lock-Gate h = bind-Gate (lock-Only r root) λ path. finally-Gate h (unlock-Only r root)

pub ping_docker-Only : Only IsPreparation ping_docker
unfolding ping_docker Docker.ping Docker.run Docker.run_with_stdin
ping_docker-Only =
    wrap_around-Only _ _ (wrap-Only _ (bind-Only (ask-Only _ _ (inl refl)) λ _. return-Only tt))

pub configured_remote-Only :
    (g : Global) (cfg : Config) → Only IsPreparation (configured_remote g cfg)
unfolding configured_remote Rclone.check_configured Rclone.run
configured_remote-Only g cfg =
    bind-Only
      (bind-Only (ask-Only _ _ (inr (inl refl))) λ out. if-Only _ (return-Only tt) (throw-Only _))
      λ _. return-Only _

pub list_remote_backups-Only :
    (rc : Rclone.Client) (job : Job)
    → Only IsPreparation (list_remote_backups (rclone_client rc) job)
unfolding list_remote_backups rclone_client Rclone.list_files Rclone.list_entries Rclone.run
list_remote_backups-Only rc job =
    bind-Only
      (wrap-Only _ (
        bind-Only
          (bind-Only (wrap-Only _ (ask-Only _ _ (inr (inr (_, refl)))))
            λ out. wrap-Only _ (bind-Only (unmarshal-Only _) λ j. lift-Only _))
          λ entries. return-Only _))
      λ files. return-Only _
