-- ===== src/Workspace/LockLaws/Held.antt =====
-- What a run meets that finds the lock file of a process that is alive.
use dockvault.Common.{◌≡◌, refl, some, List, ◌∷◌, inl, inr, Text, ℤ, trim_space, atoi}
use dockvault.Effects.{
  Call, create_exclusive, stat, read_file, find_process, signal_zero, already_exists, Error, errorf,
  FileStat, bytes, Platform, monad,
}
use dockvault.Effects.Keeps.{same, more, Grows-trans}
use dockvault.Workspace.Lock.{
  lock_path, held_by, unless_alive, unless_held, steal_existing, steal_stale_lock, process_alive,
  signalled, succeeded, read_lock_pid, pid_of, lock,
}
use dockvault.Workspace.LockLaws.{Refused, at, created-Refused}

-- The requests find a process number in the lock file, and a process of this number that takes a signal.
abbrev pub IsAlive : Platform → Text → List Call → Type 0
IsAlive host path log =
    (t : Text) × (pid : ℤ) × (host.answer log (read_file path) ≡ inr (bytes t))
    × (atoi (trim_space t) ≡ some pid)
    × (host.answer (read_file path ∷ log) (find_process pid) ≡ inr tt)
    × (host.answer (find_process pid ∷ read_file path ∷ log) (signal_zero pid) ≡ inr tt)

module _ (host : Platform) where
  steal_existing-Held :
      (path : Text) (info : FileStat) (log : List Call)
      → IsAlive host path log
      → Refused (steal_existing path (inr info)) (at host log)
  unfolding steal_existing read_lock_pid pid_of unless_held process_alive signalled succeeded
      unless_alive monad
  steal_existing-Held path info log (t, pid, reads, number, finds, signals) = (
    errorf (held_by path pid),
    at host (signal_zero pid ∷ find_process pid ∷ read_file path ∷ log),
    rw (reads, number, finds, signals) refl,
    more (signal_zero pid) refl (more (find_process pid) refl (more (read_file path) refl same)),
  )

  steal_stale_lock-Held :
      (path : Text) (info : FileStat) (log : List Call)
      → host.answer log (stat path) ≡ inr info
      → IsAlive host path (stat path ∷ log)
      → Refused (steal_stale_lock path) (at host log)
  unfolding steal_stale_lock monad
  steal_stale_lock-Held path info log found alive =
      let (e, w', h, g) = steal_existing-Held path info (stat path ∷ log) alive in
      (e, w', rw (found, h) refl, Grows-trans (more (stat path) refl same) g)

  pub lock-Held :
      (root : Text) (e : Error) (info : FileStat) (log : List Call)
      → e.kind ≡ already_exists
      → host.answer log (create_exclusive (lock_path root)) ≡ inl e
      → host.answer (create_exclusive (lock_path root) ∷ log) (stat (lock_path root)) ≡ inr info
      → IsAlive host
          (lock_path root)
          (stat (lock_path root) ∷ create_exclusive (lock_path root) ∷ log)
      → Refused (lock root) (at host log)
  unfolding lock monad
  lock-Held root e info log exists taken found alive =
      let path : Text = lock_path root in
      let log' : List Call = create_exclusive path ∷ log in
      let (f, w', h, g) =
        created-Refused host path e log' exists
          (steal_stale_lock-Held path info log' found alive) in
      (f, w', rw (taken, h) refl, Grows-trans (more (create_exclusive path) refl same) g)
