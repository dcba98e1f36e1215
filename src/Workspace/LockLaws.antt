-- ===== src/Workspace/LockLaws.antt =====
-- What a run meets that finds the lock file of another.
pub mod Held
use dockvault.Common.{
  ◌-◌, ◌<◌, ◌≡◌, refl, Bool, true, false, Option, none, some, List, ◌∷◌, inl, inr, Text, Instant,
  lt→ltb, ℤ,
}
use dockvault.Effects.{
  Call, create_exclusive, stat, read_file, now, find_process, signal_zero, already_exists, Error,
  errorf, FileStat, ok, err, M, World, Platform, Answer-cases, monad, ◌>>=◌,
}
use dockvault.Effects.Keeps.{Grows, same, more, Grows-trans}
use dockvault.Workspace.Lock.{
  lock_path, stale_lock_age, is_exist, held_by, too_young, steal_if_old, unless_alive, unless_held,
  steal_existing, steal_stale_lock, process_alive, signalled, succeeded, read_lock_pid, pid_of,
  created, lock,
}

-- A file or its state is read, the clock or a process is looked at, or a file is created that must not
-- exist yet.
abbrev pub is_harmless : Call → Bool
is_harmless (create_exclusive path) = true
is_harmless (stat path) = true
is_harmless (read_file path) = true
is_harmless now = true
is_harmless (find_process pid) = true
is_harmless (signal_zero pid) = true
is_harmless _ = false

abbrev pub Harmless : Call → Type 0
Harmless c = is_harmless c ≡ true

-- The computation ends in an error, and every request that it makes is harmless.
abbrev pub Refused : {A : Type 0} → M A → World → Type 0
Refused m w = (e : Error) × (w' : World) × (m w ≡ (err e, w')) × Grows Harmless w.log w'.log

module _ {A B : Type 0} where
  pub then-Refused :
      (m : M A) (f : A → M B) (w w1 : World) (a : A)
      → m w ≡ (ok a, w1)
      → Grows Harmless w.log w1.log
      → Refused (f a) w1
      → Refused (m >>= f) w
  unfolding ◌>>=◌
  then-Refused m f w w1 a h g (e, w2, k, g') = (e, w2, rw (h, k) refl, Grows-trans g g')

  pub Refused-then : (m : M A) (f : A → M B) (w : World) → Refused m w → Refused (m >>= f) w
  unfolding ◌>>=◌
  Refused-then m f w (e, w1, h, g) = (e, w1, rw h refl, g)

module _ (host : Platform) where
  abbrev pub at : List Call → World
  at log = record { platform = host; log = log }

  process_alive_lem :
      (pid : ℤ) (log : List Call)
      → (b : Bool) × (log' : List Call) × (process_alive pid (at log) ≡ (ok b, at log'))
        × Grows Harmless log log'
  unfolding process_alive signalled monad
  process_alive_lem pid log = elim (Answer-cases (host.answer log (find_process pid))) [
    | inl (e, p) ↦ (false, find_process pid ∷ log, rw p refl, more (find_process pid) refl same)
    | inr (v, p) ↦ elim (Answer-cases (host.answer (find_process pid ∷ log) (signal_zero pid))) [
      | inl (e, q) ↦ (
        succeeded (inl e),
        signal_zero pid ∷ find_process pid ∷ log,
        rw (p, q) refl,
        more (signal_zero pid) refl (more (find_process pid) refl same),
      )
      | inr (u, q) ↦ (
        succeeded (inr u),
        signal_zero pid ∷ find_process pid ∷ log,
        rw (p, q) refl,
        more (signal_zero pid) refl (more (find_process pid) refl same),
      )
    ]
  ]

  read_lock_pid_lem :
      (path : Text) (log : List Call)
      → (pid : Option ℤ) × (read_lock_pid path (at log) ≡ (ok pid, at (read_file path ∷ log)))
  unfolding read_lock_pid monad
  read_lock_pid_lem path log = elim (Answer-cases (host.answer log (read_file path))) [
    | inl (e, p) ↦ (pid_of (inl e), rw p refl)
    | inr (content, p) ↦ (pid_of (inr content), rw p refl)
  ]

  module _ (path : Text) (modified : Instant)
      (young : (log : List Call) → host.answer log now - modified < stale_lock_age) where
    steal_if_old-Refused : (log : List Call) → Refused (steal_if_old path modified) (at log)
    unfolding steal_if_old monad
    steal_if_old-Refused log = (
      errorf (too_young path (host.answer log now) modified),
      at (now ∷ log),
      rw (lt→ltb _ stale_lock_age (young log)) refl,
      more now refl same,
    )

    unless_alive-Refused :
        (pid : ℤ) (alive : Bool) (log : List Call)
        → Refused (unless_alive path modified pid alive) (at log)
    unfolding unless_alive monad
    unless_alive-Refused pid true log = (errorf (held_by path pid), at log, refl, same)
    unless_alive-Refused pid false log = steal_if_old-Refused log

    unless_held-Refused :
        (pid : Option ℤ) (log : List Call) → Refused (unless_held path modified pid) (at log)
    unfolding unless_held
    unless_held-Refused none log = steal_if_old-Refused log
    unless_held-Refused (some pid) log =
        let (b, log', h, g) = process_alive_lem pid log in
        then-Refused (process_alive pid) (unless_alive path modified pid) (at log) (at log') b h g
          (unless_alive-Refused pid b log')

  steal_existing-Refused :
      (path : Text) (info : FileStat) (log : List Call)
      → ((log : List Call) → host.answer log now - info.mod_time < stale_lock_age)
      → Refused (steal_existing path (inr info)) (at log)
  unfolding steal_existing
  steal_existing-Refused path info log young =
      let (pid, h) = read_lock_pid_lem path log in
      then-Refused (read_lock_pid path) (unless_held path info.mod_time) (at log)
        (at (read_file path ∷ log)) pid h (more (read_file path) refl same)
        (unless_held-Refused path info.mod_time young pid (read_file path ∷ log))

  steal_stale_lock-Refused :
      (path : Text) (info : FileStat) (log : List Call)
      → ((log : List Call) → host.answer log now - info.mod_time < stale_lock_age)
      → host.answer log (stat path) ≡ inr info
      → Refused (steal_stale_lock path) (at log)
  unfolding steal_stale_lock monad
  steal_stale_lock-Refused path info log young found =
      let (e, w', h, g) = steal_existing-Refused path info (stat path ∷ log) young in
      (e, w', rw (found, h) refl, Grows-trans (more (stat path) refl same) g)

  created-Refused :
      (path : Text) (e : Error) (log : List Call)
      → e.kind ≡ already_exists
      → Refused (steal_stale_lock path) (at log)
      → Refused (created path (inl e)) (at log)
  unfolding created is_exist
  created-Refused path e log exists h =
      rw exists (Refused-then (steal_stale_lock path) _ (at log) h)

  -- A run that finds the lock file of another, less than a day old by every reading of the clock, ends
  -- in an error, whether or not the recorded process is alive. It reads, looks at the clock and at the
  -- process, tries to create the file, and asks for nothing else.
  pub lock-Refused :
      (root : Text) (e : Error) (info : FileStat) (log : List Call)
      → e.kind ≡ already_exists
      → host.answer log (create_exclusive (lock_path root)) ≡ inl e
      → host.answer (create_exclusive (lock_path root) ∷ log) (stat (lock_path root)) ≡ inr info
      → ((log : List Call) → host.answer log now - info.mod_time < stale_lock_age)
      → Refused (lock root) (at log)
  unfolding lock monad
  lock-Refused root e info log exists taken found young =
      let path : Text = lock_path root in
      let log' : List Call = create_exclusive path ∷ log in
      let (f, w', h, g) =
        created-Refused path e log' exists (steal_stale_lock-Refused path info log' young found) in
      (f, w', rw (taken, h) refl, Grows-trans (more (create_exclusive path) refl same) g)
