-- ===== src/Cli/RestoreRequests.antt =====
-- What the restorers of the registry ask for.
use dockvault.Common.{
  false, Bool, true, ℕ, Option, none, List, [], ◌∷◌, ◌⊎◌, inl, inr, ◌≡◌, refl, Text, codes,
}
use dockvault.Effects.{
  return, ◌>>◌, wrap, Call, run_command, mkdir_temp, remove_all, open_file, read_file, write_file,
  M, ◌>>=◌, Content,
}
use dockvault.Effects.Gate.{Anything}
use dockvault.Backup.TempDir.{with_temp_dir}
use dockvault.Effects.Keeps.{
  Only, bind-Only, return-Only, wrap-Only, wrap_around-Only, ask-Only, finally-Only,
}
use dockvault.Docker
use dockvault.Rclone
use dockvault.Backup.Job.{Job}
use dockvault.Backup.Clients.{DockerClient, RcloneClient, docker_client, rclone_client}
use dockvault.Restore.Files.{BackupFile, restore_prefix}
use dockvault.Restore.Verify.{download_and_read}
use dockvault.Restore.Requests.{
  Allowed, required-Only, with_temp_dir-Only, download_to-Only, verify_manifest_file-Only,
  download_and_read-Only,
}
use dockvault.Restore.Standard
use dockvault.Restore.Hostdir
use dockvault.Restore.Redis
use dockvault.Restore.N8n
use dockvault.Restore.Postgres
use dockvault.Restore.Mysql
use dockvault.Restore.Mongodb
use dockvault.Restore.Rabbitmq
use dockvault.Restore.Refusal.{body}
use dockvault.Cli.Registry.{
  Kind, standard, postgres, mysql, mongodb, redis, n8n, hostdir, rabbitmq, restore_by,
}

module _ {P : Call → Type 0} {dc : DockerClient} {rc : RcloneClient} (allowed : Allowed P dc rc)
    (job : Job) (file : BackupFile) where
  from_file-Only :
      (rest : Text → Text → M Text)
      → ((dir warning : Text) → Only P (rest dir warning))
      → Only P (with_temp_dir (restore_prefix job) (body rc job file rest))
  from_file-Only rest h = with_temp_dir-Only allowed _ λ dir.
      bind-Only (download_to-Only allowed file dir)
        λ _. bind-Only (verify_manifest_file-Only allowed file dir _) λ warning. h dir warning

  from_dump-Only :
      (gunzip : Bool) (apply : Content → M Text)
      → ((dump : Content) → Only P (apply dump))
      → Only P (download_and_read rc file gunzip >>= λ d. apply d.content >> return d.warning)
  from_dump-Only gunzip apply h =
      bind-Only (download_and_read-Only allowed file gunzip)
        λ d. bind-Only (h d.content) λ _. return-Only _

  -- Each restorer does what it does with the checked download, and returns the warning.
  apply-Only :
      {A : Type 0} (message : Text) {m : M A} (warning : Text)
      → Only P m
      → Only P (wrap message m >> return warning)
  apply-Only message warning h = bind-Only (wrap-Only _ h) λ _. return-Only warning

  import-Only : (dump : Content) → Only P (Rabbitmq.apply_dump dc job dump)
  unfolding Rabbitmq.apply_dump Rabbitmq.import_definitions
  import-Only dump = with_temp_dir-Only allowed _ λ dir.
      bind-Only (wrap-Only _ (ask-Only _ _ (allowed.writes _ _ _))) λ _.
        bind-Only (wrap-Only _ (allowed.copies _ _))
          λ _. finally-Only (wrap-Only _ (allowed.execs _ _ _ _)) (allowed.execs _ _ _ _)

  pub restore_by-Allowed : (k : Kind) → Only P (restore_by k dc rc job file)
  unfolding restore_by Standard.restore Standard.apply_archive Hostdir.restore Hostdir.apply_archive
      Redis.restore Redis.apply_archive N8n.restore N8n.apply_archive Postgres.restore
      Postgres.apply_dump Mysql.restore Mysql.apply_dump Mongodb.restore Mongodb.apply_dump
      Rabbitmq.restore
  restore_by-Allowed standard =
      required-Only _ (from_file-Only _ λ dir warning. apply-Only _ warning (allowed.runs _ _ _))
  restore_by-Allowed hostdir =
      required-Only _ (from_file-Only _ λ dir warning. apply-Only _ warning (allowed.runs _ _ _))
  restore_by-Allowed redis = required-Only _ (
      from_file-Only _ λ dir warning.
        bind-Only (bind-Only (wrap-Only _ (allowed.stops _)) λ _. wrap-Only _ (allowed.copies _ _))
          λ _. return-Only warning)
  restore_by-Allowed n8n = required-Only _ (
      from_file-Only _ λ dir warning.
        bind-Only
          (bind-Only (wrap-Only _ (allowed.stops _))
            λ _. bind-Only (wrap-Only _ (allowed.runs _ _ _)) λ _. wrap-Only _ (allowed.runs _ _ _))
          λ _. return-Only warning)
  restore_by-Allowed postgres =
      required-Only _ (from_dump-Only true _ λ dump. wrap-Only _ (allowed.execs _ _ _ _))
  restore_by-Allowed mysql =
      required-Only _ (from_dump-Only true _ λ dump. wrap-Only _ (allowed.execs _ _ _ _))
  restore_by-Allowed mongodb =
      required-Only _ (from_dump-Only false _ λ dump. wrap-Only _ (allowed.execs _ _ _ _))
  restore_by-Allowed rabbitmq = required-Only _ (from_dump-Only true _ import-Only)

-- A request to Docker, a copy from the remote, or a request for local files.
abbrev pub IsRestoreRequest : Rclone.Client → Call → Type 0
IsRestoreRequest rc (run_command bin args stdin) =
    (bin ≡ Docker.bin Docker.new)
    ⊎ ((path : Text) × (dest : Text) × (bin ≡ Rclone.bin rc)
        × (args ≡ codes "copy" ∷ Rclone.remote_path rc path ∷ dest ∷ []))
IsRestoreRequest rc (mkdir_temp prefix) = Unit {0}
IsRestoreRequest rc (remove_all path) = Unit {0}
IsRestoreRequest rc (open_file path) = Unit {0}
IsRestoreRequest rc (read_file path) = Unit {0}
IsRestoreRequest rc (write_file path mode content) = Unit {0}
IsRestoreRequest rc _ = ⊥

module _ {P : Call → Type 0}
    (docker : (args : List Text) (stdin : Option Content)
      → P (run_command (Docker.bin Docker.new) args stdin)) where
  run_with_stdin-Only :
      (stdin : Option Content) (args : List Text)
      → Only P (Docker.run_with_stdin Docker.new stdin args)
  unfolding Docker.run_with_stdin
  run_with_stdin-Only stdin args = ask-Only _ _ (docker args stdin)

  pub start-Only : (container : Text) → Only P (Docker.start Docker.new container)
  unfolding Docker.start Docker.run
  start-Only container =
      wrap_around-Only _ _ (bind-Only (run_with_stdin-Only none _) λ _. return-Only tt)

  clients-Allowed :
      (rc : Rclone.Client)
      → ((path dest : Text)
          → P (
              run_command
                (Rclone.bin rc)
                (codes "copy" ∷ Rclone.remote_path rc path ∷ dest ∷ [])
                none))
      → ((prefix : Text) → P (mkdir_temp prefix))
      → ((path : Text) → P (remove_all path))
      → ((path : Text) → P (open_file path))
      → ((path : Text) → P (read_file path))
      → ((path : Text) (mode : ℕ) (content : Content) → P (write_file path mode content))
      → Allowed P (docker_client Docker.new) (rclone_client rc)
  unfolding docker_client rclone_client Docker.run_container Docker.exec Docker.stop Docker.cp
      Docker.run Rclone.download Rclone.run
  clients-Allowed rc copy makes removes opens reads writes = record {
    runs = λ image mounts cmd. wrap_around-Only _ _ (run_with_stdin-Only none _);
    execs = λ container cmd env stdin. wrap_around-Only _ _ (run_with_stdin-Only stdin _);
    stops = λ container.
        wrap_around-Only _ _ (bind-Only (run_with_stdin-Only none _) λ _. return-Only tt);
    copies = λ from to. wrap-Only _ (bind-Only (run_with_stdin-Only none _) λ _. return-Only tt);
    downloads =
        λ path dest. wrap-Only _ (bind-Only (ask-Only _ _ (copy path dest)) λ _. return-Only tt);
    makes = makes;
    removes = removes;
    opens = opens;
    reads = reads;
    writes = writes;
  }

module _ (rc : Rclone.Client) (job : Job) (file : BackupFile) (k : Kind) where
  -- A restore of any of the eight kinds leaves the remote as it is: its requests are commands of Docker,
  -- copies from the remote, and requests for local files.
  pub restore_by-Only :
      Only
        (IsRestoreRequest rc)
        (restore_by k (docker_client Docker.new) (rclone_client rc) job file)
  restore_by-Only =
      restore_by-Allowed
        (clients-Allowed (λ args stdin. inl refl) rc (λ path dest. inr (path, dest, refl, refl))
          (λ prefix. tt) (λ path. tt) (λ path. tt) (λ path. tt) (λ path mode content. tt))
        job file k

  pub restore_by-Anything :
      Only Anything (restore_by k (docker_client Docker.new) (rclone_client rc) job file)
  restore_by-Anything =
      restore_by-Allowed
        (clients-Allowed (λ args stdin. tt) rc (λ path dest. tt) (λ prefix. tt) (λ path. tt)
          (λ path. tt) (λ path. tt) (λ path mode content. tt))
        job file k
