-- ===== src/Workspace/Lock.antt =====
-- internal/workspace/lock.go
use dockvault.Common.{
  atoi, ℕ, ◌+◌, ◌-◌, ◌/◌, ◌%◌, Bool, true, false, Option, none, some, [], ◌∷◌, ◌++◌, inl, inr, Text,
  codes, ltb, ◌==◌, ℤ, Instant, second, day, trim_space, decimal, decimal_ℤ, path_join,
  if◌then◌else◌,
}
use dockvault.Effects.{
  ErrorKind, not_exist, already_exists, other, FileStat, Content, bytes, document, Answer, M, ◌>>=◌,
  ◌>>◌, return, fail, wrap, attempt, ask, perform, to_result, create_exclusive, write_file,
  read_file, stat, remove, now, process_id, find_process, signal_zero,
}
use dockvault.Backup.Manifest.{owner_only}
use dockvault.Backup.LocalCopy.{is_not_exist}

unfoldable pub lock_path : Text → Text
lock_path root = path_join (root ∷ codes ".dockvault.lock" ∷ [])

abbrev pub stale_lock_age : ℕ
stale_lock_age = day

unfoldable pub is_exist : ErrorKind → Bool
is_exist already_exists = true
is_exist not_exist = false
is_exist other = false

-- A JSON document is no number of a process.
unfoldable pub pid_of : Answer Content → Option ℤ
unfolding atoi
pid_of (inl e) = none
pid_of (inr (bytes t)) = atoi (trim_space t)
pid_of (inr (document j)) = none

unfoldable pub read_lock_pid : Text → M (Option ℤ)
read_lock_pid path = do r ← attempt (ask (read_file path) to_result); return (pid_of r)

unfoldable pub succeeded : Answer (Unit {0}) → Bool
succeeded (inl e) = false
succeeded (inr done) = true

unfoldable pub signalled : ℤ → Answer (Unit {0}) → M Bool
signalled pid (inl e) = return false
signalled pid (inr done) = do r ← attempt (ask (signal_zero pid) to_result); return (succeeded r)

unfoldable pub process_alive : ℤ → M Bool
process_alive pid = do r ← attempt (ask (find_process pid) to_result); signalled pid r

-- `time.Duration` in whole seconds, as `%s` prints it.
unfoldable pub duration_text : ℕ → Text
duration_text secs =
    let s = decimal (secs % 60) ++ codes "s" in
    let m = decimal ((secs / 60) % 60) ++ (codes "m" ++ s) in
    if ltb secs 60
    then s
    else if ltb secs 3600
    then m
    else decimal (secs / 3600) ++ (codes "h" ++ m)

-- `Round(time.Second)` of the time since `modified`, which may be to come.
unfoldable pub age_text : Instant → Instant → Text
unfolding duration_text
age_text t modified =
    let ahead = ((modified - t) + second / 2) / second in
    if 0 == ahead
    then duration_text (((t - modified) + second / 2) / second)
    else b'-' ∷ duration_text ahead

unfoldable pub held_by : Text → ℤ → Text
held_by path pid =
    codes "another dockvault process (pid "
    ++ (decimal_ℤ pid
        ++ (codes ") is already using this workspace ("
            ++ (path
                ++ codes
                    ") - wait for it to finish, or remove the lock file yourself if you're certain it's gone")))

unfoldable pub too_young : Text → Instant → Instant → Text
unfolding age_text
too_young path t modified =
    codes "lock file "
    ++ (path
        ++ (codes " exists from a process that doesn't appear to be running, but is only "
            ++ (age_text t modified
                ++ codes
                    " old (younger than the 24h0m0s staleness threshold) - remove it manually if you're sure no other dockvault process is using this workspace")))

-- The end of `stealStaleLock`, given whether the recorded process is alive.
unfoldable pub steal_if_old : Text → Instant → M (Unit {0})
steal_if_old path modified = do
  t ← perform now
  if ltb (t - modified) stale_lock_age
      then fail (too_young path t modified)
      else ask (remove path) to_result

unfoldable pub unless_alive : Text → Instant → ℤ → Bool → M (Unit {0})
unless_alive path modified pid true = fail (held_by path pid)
unless_alive path modified pid false = steal_if_old path modified

unfoldable pub unless_held : Text → Instant → Option ℤ → M (Unit {0})
unless_held path modified none = steal_if_old path modified
unless_held path modified (some pid) = do
  alive ← process_alive pid
  unless_alive path modified pid alive

unfoldable pub steal_existing : Text → Answer FileStat → M (Unit {0})
steal_existing path (inl e) =
    if is_not_exist e.kind
    then return tt
    else fail (codes "checking lock file " ++ (path ++ (codes ": " ++ e.message)))
steal_existing path (inr info) = do pid ← read_lock_pid path; unless_held path info.mod_time pid

unfoldable pub steal_stale_lock : Text → M (Unit {0})
steal_stale_lock path = do r ← attempt (ask (stat path) to_result); steal_existing path r

-- The lock file is created, after a stale one was stolen if there is one.
unfoldable pub created : Text → Answer (Unit {0}) → M (Unit {0})
created path (inr done) = return tt
created path (inl e) =
    if is_exist e.kind
    then (do
      steal_stale_lock path
      wrap (codes "acquiring lock " ++ (path ++ codes ": "))
          (ask (create_exclusive path) to_result))
    else fail (codes "creating lock file " ++ (path ++ (codes ": " ++ e.message)))

-- The path of the lock, for `unlock`.
unfoldable pub lock : Text → M Text
lock root = do
  let path = lock_path root
  r ← attempt (ask (create_exclusive path) to_result)
  created path r
  pid ← perform process_id
  attempt (ask (write_file path owner_only (bytes (decimal pid ++ codes "\n"))) to_result)
  return path

-- The function that `Lock` returns.
unfoldable pub unlock : Text → M (Unit {0})
unlock path = do attempt (ask (remove path) to_result); return tt
