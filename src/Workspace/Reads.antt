-- ===== src/Workspace/Reads.antt =====
-- What opening and reading a workspace asks for.
use dockvault.Common.{
  ℕ, Bool, true, false, Option, none, some, List, [], ◌∷◌, inl, inr, Text, ℤ, Instant,
}
use dockvault.Effects.{
  Call, Answer, Content, DirEntry, stat, read_file, read_dir, get_env, home_dir, create_exclusive,
  write_file, remove, now, process_id, find_process, signal_zero, FileStat,
}
use dockvault.Effects.Keeps.{
  Only, bind-Only, return-Only, throw-Only, attempt-Only, wrap-Only, ask-Only, perform-Only,
  lift-Only, unmarshal-Only, if-Only,
}
use dockvault.Workspace.Paths.{home, exists}
use dockvault.Workspace.Env.{env_read, load_env}
use dockvault.Workspace.JobFile.{load_job, job_names, entries_read, list_job_names}
use dockvault.Workspace.Config.{config_read, load_config}
use dockvault.Workspace.Lock.{
  unlock, lock_path, signalled, process_alive, read_lock_pid, steal_if_old, unless_alive,
  unless_held, steal_existing, steal_stale_lock, created, lock,
}

-- The requests that read, and those on the lock file, satisfy `P`.
pub record Readable (P : Call → Type 0) : Type 0 where
  pub stats : (path : Text) → P (stat path)
  pub reads : (path : Text) → P (read_file path)
  pub lists : (path : Text) → P (read_dir path)
  pub env : (name : Text) → P (get_env name)
  pub home : P home_dir
  pub clock : P now
  pub pid : P process_id
  pub finds : (pid : ℤ) → P (find_process pid)
  pub signals : (pid : ℤ) → P (signal_zero pid)
  pub creates : (root : Text) → P (create_exclusive (lock_path root))
  pub writes :
      (root : Text) (mode : ℕ) (content : Content) → P (write_file (lock_path root) mode content)
  pub removes : (root : Text) → P (remove (lock_path root))

pub Readable-mono : {P Q : Call → Type 0} → ((c : Call) → P c → Q c) → Readable P → Readable Q
Readable-mono h r = record {
  stats = λ path. h _ (r.stats path);
  reads = λ path. h _ (r.reads path);
  lists = λ path. h _ (r.lists path);
  env = λ name. h _ (r.env name);
  home = h _ r.home;
  clock = h _ r.clock;
  pid = h _ r.pid;
  finds = λ pid. h _ (r.finds pid);
  signals = λ pid. h _ (r.signals pid);
  creates = λ root. h _ (r.creates root);
  writes = λ root mode content. h _ (r.writes root mode content);
  removes = λ root. h _ (r.removes root);
}

module _ {P : Call → Type 0} (r : Readable P) where
  pub home-Only : (override : Text) → Only P (home override)
  unfolding home
  home-Only override =
      if-Only _
        (bind-Only (perform-Only _ (r.env _))
          λ env. if-Only _ (bind-Only (ask-Only _ _ r.home) λ dir. return-Only _) (return-Only _))
        (return-Only _)

  pub exists-Only : (root : Text) → Only P (exists root)
  unfolding exists
  exists-Only root = bind-Only (attempt-Only (ask-Only _ _ (r.stats _))) λ a. return-Only _

  job_names-Only : (root : Text) (entries : List DirEntry) → Only P (job_names root entries)
  unfolding job_names
  job_names-Only root [] = return-Only _
  job_names-Only root (e ∷ es) =
      if-Only e.is_dir
        (bind-Only (attempt-Only (ask-Only _ _ (r.stats _)))
          λ a. bind-Only (job_names-Only root es) λ names. return-Only _)
        (job_names-Only root es)

  entries_read-Only : (root : Text) (a : Answer (List DirEntry)) → Only P (entries_read root a)
  unfolding entries_read
  entries_read-Only root (inr entries) =
      bind-Only (job_names-Only root entries) λ names. return-Only _
  entries_read-Only root (inl e) = if-Only _ (return-Only _) (throw-Only _)

  pub list_job_names-Only : (root : Text) → Only P (list_job_names root)
  unfolding list_job_names
  list_job_names-Only root =
      bind-Only (attempt-Only (ask-Only _ _ (r.lists _))) λ a. entries_read-Only root a

  env_read-Only : (name : Text) (a : Answer Content) → Only P (env_read name a)
  unfolding env_read
  env_read-Only name (inr content) = return-Only _
  env_read-Only name (inl e) = if-Only _ (return-Only _) (throw-Only _)

  pub load_job-Only : (root name : Text) → Only P (load_job root name)
  unfolding load_job load_env
  load_job-Only root name = bind-Only (wrap-Only _ (ask-Only _ _ (r.reads _))) λ content.
      bind-Only (wrap-Only _ (bind-Only (unmarshal-Only content) λ j. lift-Only _)) λ config.
        bind-Only (bind-Only (attempt-Only (ask-Only _ _ (r.reads _))) λ a. env_read-Only name a)
          λ env. return-Only _

  config_read-Only : (root : Text) (a : Answer Content) → Only P (config_read root a)
  unfolding config_read
  config_read-Only root (inl e) = if-Only _ (return-Only _) (throw-Only _)
  config_read-Only root (inr content) =
      bind-Only (unmarshal-Only content) λ j. bind-Only (lift-Only _) λ c. return-Only _

  pub load_config-Only : (root : Text) → Only P (load_config root)
  unfolding load_config
  load_config-Only root =
      bind-Only (attempt-Only (ask-Only _ _ (r.reads _))) λ a. config_read-Only root a

  module _ (root : Text) where
    steal_if_old-Only : (modified : Instant) → Only P (steal_if_old (lock_path root) modified)
    unfolding steal_if_old
    steal_if_old-Only modified =
        bind-Only (perform-Only _ r.clock)
          λ t. if-Only _ (throw-Only _) (ask-Only _ _ (r.removes root))

    unless_alive-Only :
        (modified : Instant) (pid : ℤ) (alive : Bool)
        → Only P (unless_alive (lock_path root) modified pid alive)
    unfolding unless_alive
    unless_alive-Only modified pid true = throw-Only _
    unless_alive-Only modified pid false = steal_if_old-Only modified

    signalled-Only : (pid : ℤ) (a : Answer (Unit {0})) → Only P (signalled pid a)
    unfolding signalled
    signalled-Only pid (inl e) = return-Only _
    signalled-Only pid (inr done) =
        bind-Only (attempt-Only (ask-Only _ _ (r.signals pid))) λ a. return-Only _

    unless_held-Only :
        (modified : Instant) (pid : Option ℤ) → Only P (unless_held (lock_path root) modified pid)
    unfolding unless_held process_alive
    unless_held-Only modified none = steal_if_old-Only modified
    unless_held-Only modified (some pid) =
        bind-Only (bind-Only (attempt-Only (ask-Only _ _ (r.finds pid))) λ a. signalled-Only pid a)
          λ alive. unless_alive-Only modified pid alive

    steal_existing-Only : (a : Answer FileStat) → Only P (steal_existing (lock_path root) a)
    unfolding steal_existing read_lock_pid
    steal_existing-Only (inl e) = if-Only _ (return-Only _) (throw-Only _)
    steal_existing-Only (inr info) =
        bind-Only (bind-Only (attempt-Only (ask-Only _ _ (r.reads _))) λ a. return-Only _)
          λ pid. unless_held-Only info.mod_time pid

    created-Only : (a : Answer (Unit {0})) → Only P (created (lock_path root) a)
    unfolding created steal_stale_lock
    created-Only (inr done) = return-Only _
    created-Only (inl e) =
        if-Only _
          (bind-Only
            (bind-Only (attempt-Only (ask-Only _ _ (r.stats _))) λ a. steal_existing-Only a)
            λ _. wrap-Only _ (ask-Only _ _ (r.creates root)))
          (throw-Only _)

    pub lock-Only : Only P (lock root)
    unfolding lock
    lock-Only = bind-Only (attempt-Only (ask-Only _ _ (r.creates root))) λ a.
        bind-Only (created-Only a) λ _.
          bind-Only (perform-Only _ r.pid)
            λ pid. bind-Only (attempt-Only (ask-Only _ _ (r.writes root _ _))) λ _. return-Only _

    pub unlock-Only : Only P (unlock (lock_path root))
    unfolding unlock
    unlock-Only = bind-Only (attempt-Only (ask-Only _ _ (r.removes root))) λ a. return-Only _
