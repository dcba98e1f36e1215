-- ===== src/Cli/Exclusion.antt =====
-- The commands that change anything, and the lock.
use dockvault.Common.{
  ◌⊎◌, ◌-◌, ◌<◌, ◌≡◌, refl, Bool, true, false, List, ◌∷◌, inl, inr, Text, ℤ, null, if◌then◌else◌,
}
use dockvault.Effects.{
  Call, stat, create_exclusive, now, already_exists, Error, FileStat, M, Platform, ok, monad, ◌>>=◌,
}
use dockvault.Effects.Keeps.{same, more}
use dockvault.Workspace.Paths.{home, exists, is_directory}
use dockvault.Workspace.Lock.{lock_path, stale_lock_age, lock}
use dockvault.Workspace.LockLaws.Held.{IsAlive, lock-Held}
use dockvault.Workspace.LockLaws.{Refused, at, then-Refused, Refused-then, lock-Refused}
use dockvault.Cli.Session.{Global, with_lock}
use dockvault.Cli.Restore.{run_restore}
use dockvault.Cli.BackupCommand.{Runner, run_backup}

-- What the requests find, where the workspace is given by --home: it is there, with a lock file in it
-- that either names a process that is alive, or is less than a day old by every reading of the clock.
pub record IsTaken (host : Platform) (g : Global) (log : List Call) : Type 0 where
  pub given : null g.home ≡ false
  pub dir : FileStat
  pub is_there : host.answer log (stat g.home) ≡ inr dir
  pub is_dir : dir.is_dir ≡ true
  pub error : Error
  pub exists : error.kind ≡ already_exists
  pub taken : host.answer (stat g.home ∷ log) (create_exclusive (lock_path g.home)) ≡ inl error
  pub info : FileStat
  pub found :
      host.answer
        (create_exclusive (lock_path g.home) ∷ stat g.home ∷ log)
        (stat (lock_path g.home))
      ≡ inr info
  pub held :
      ((log' : List Call) → host.answer log' now - info.mod_time < stale_lock_age)
      ⊎ IsAlive host
          (lock_path g.home)
          (stat (lock_path g.home) ∷ create_exclusive (lock_path g.home) ∷ stat g.home ∷ log)

module _ (host : Platform) (g : Global) (log : List Call) (t : IsTaken host g log) where
  locked : (m : M (Unit {0})) → Refused (with_lock g.home m) (at host (stat g.home ∷ log))
  unfolding with_lock
  locked m = Refused-then (lock g.home) _ _ (elim t.held [
    | inl young ↦
        lock-Refused host g.home t.error t.info (stat g.home ∷ log) t.exists t.taken t.found young
    | inr alive ↦
        lock-Held host g.home t.error t.info (stat g.home ∷ log) t.exists t.taken t.found alive
  ])

  home_lem : home g.home (at host log) ≡ (ok g.home, at host log)
  unfolding home monad
  home_lem = rw t.given refl

  exists_lem : exists g.home (at host log) ≡ (ok true, at host (stat g.home ∷ log))
  unfolding exists monad is_directory
  exists_lem = rw t.is_there (rw t.is_dir refl)

  -- Opening the workspace up to the lock.
  opened :
      (body : Text → M (Unit {0})) (absent : Text → M (Unit {0}))
      → Refused
          (home g.home >>= λ root.
            exists root >>= λ present. if present then with_lock root (body root) else absent root)
          (at host log)
  opened body absent =
      then-Refused (home g.home) _ (at host log) (at host log) g.home home_lem same (
        then-Refused (exists g.home) _ (at host log) (at host (stat g.home ∷ log)) true exists_lem
          (more (stat g.home) refl same) (locked (body g.home)))

  -- In a workspace that is given by --home and exists, where a lock file stands that names a live
  -- process, however old the file is, or that is less than a day old by every reading of the clock: the
  -- backup command and the restore command end in an error. Up to then they read files, the clock and
  -- the state of the process and try to create the lock file; they run no command, and the lock file is
  -- left as it is.
  pub commands-Refused :
      (run : Runner) (job_flag jobs_flag : Text) (dry_run : Bool) (parallel : ℤ)
      → Refused (run_backup run g job_flag jobs_flag dry_run parallel) (at host log)
        × Refused (run_restore g job_flag dry_run) (at host log)
  unfolding run_backup run_restore
  commands-Refused run job_flag jobs_flag dry_run parallel = (opened _ _, opened _ _)
