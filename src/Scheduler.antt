-- ===== src/Scheduler.antt =====
-- internal/scheduler: the daily backup of systemd, of launchd and of Windows.
pub mod Systemd
pub mod Launchd
pub mod Windows
pub mod Clock
pub mod Cleanup
use dockvault.Common.{
  List, [], ◌∷◌, ◌++◌, Option, none, some, Text, codes, ◌=t◌, null, trim_space, join, if◌then◌else◌,
}
use dockvault.Effects.{
  Error, errorf, Exit, Result, ok, err, M, ◌>>=◌, ◌>>◌, return, throw, ask, run_command,
}

abbrev pub default_time : Text
default_time = codes "01:00"

pub data Platform : Type 0 where
  linux windows darwin : Platform

unfoldable pub detect_platform : Text → Platform
detect_platform goos =
    if goos =t codes "windows" then windows else if goos =t codes "darwin" then darwin else linux

-- The empty time is the default one.
unfoldable pub time_or_default : Text → Text
time_or_default at = if null at then default_time else at

-- The output, and the error if the command failed.
unfoldable pub read_cmd : Text → List Text → Exit → Text × Option Error
read_cmd name args e = elim e.failure [
  | none ↦ (e.stdout, none)
  | some cause ↦
      let stderr = trim_space e.stderr in
      let message = if null stderr then cause else stderr in
      (
        e.stdout,
        some (errorf (name ++ (codes " " ++ (join args (codes " ") ++ (codes ": " ++ message))))),
      )
]

unfoldable pub run_cmd : Text → List Text → M (Text × Option Error)
run_cmd name args = ask (run_command name args none) (λ e. ok (read_cmd name args e))

unfoldable pub unless_failed : Option Error → M (Unit {0})
unless_failed none = return tt
unless_failed (some e) = throw e

-- A command whose output is dropped.
unfoldable pub run_checked : Text → List Text → M (Unit {0})
run_checked name args = do r ← run_cmd name args; unless_failed r.1
