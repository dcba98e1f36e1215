-- ===== src/Cli/Schedule.antt =====
-- internal/cli/schedule.go
use dockvault.Common.{
  ℕ, ◌-◌, Bool, Option, List, [], ◌∷◌, ◌++◌, inl, inr, ◌==◌, Text, codes, null, drop, length, ltb,
  split, trim_right, trim_space, path_join, Instant, if◌then◌else◌,
}
use dockvault.Effects.{
  Answer, Error, FileStat, DirEntry, Content, bytes, document, M, ◌>>=◌, ◌>>◌, return, throw, wrap,
  attempt, ask, to_result, executable, read_dir, entry_info, read_file,
}
use dockvault.Utils.Selectors.{say}
use dockvault.Backup.LocalCopy.{is_not_exist}
use dockvault.Workspace.Paths.{home, ensure_layout, logs_dir}
use dockvault.Scheduler.{Platform, linux, windows, darwin, detect_platform, unless_failed}
use dockvault.Scheduler.Systemd.{
  install_systemd_timer, uninstall_systemd_timer, check_systemd_timer,
}
use dockvault.Scheduler.Launchd.{install_launchd_job, uninstall_launchd_job, check_launchd_job}
use dockvault.Scheduler.Windows.{native_windows_scheduled_task_instructions}
use dockvault.Cli.Session.{Global}

unfoldable pub install_on : Platform → Text → Text → M (Unit {0})
install_on linux root at = do
  install_systemd_timer root at
  say (codes "Installed and enabled dockvault-backup.timer (daily at " ++ (at ++ codes ")."))
install_on darwin root at = do
  install_launchd_job root at
  say (codes "Installed and loaded the DockVault launchd job (daily at " ++ (at ++ codes ")."))
install_on windows root at = do
  exe_path ← wrap (codes "resolving dockvault binary path: ") (ask executable to_result)
  say (native_windows_scheduled_task_instructions exe_path root at)

unfoldable pub install_schedule : Text → Text → Text → M (Unit {0})
install_schedule goos root at = ensure_layout root >> install_on (detect_platform goos) root at

unfoldable pub uninstall_on : Platform → M (Unit {0})
uninstall_on linux = uninstall_systemd_timer >> say (codes "Removed dockvault-backup.timer.")
uninstall_on darwin = uninstall_launchd_job >> say (codes "Removed the DockVault launchd job.")
uninstall_on windows =
    say (codes "Remove it manually in PowerShell (as Administrator):")
    >> say (codes "Unregister-ScheduledTask -TaskName \"DockVault-Backup\" -Confirm:$false")

-- The output is shown also if the command failed.
unfoldable pub show_status : M (Text × Option Error) → M (Unit {0})
show_status check = do
  r ← check
  (if null (trim_space r.0) then return tt else say r.0)
  unless_failed r.1

unfoldable pub check_on : Platform → M (Unit {0})
check_on linux = show_status check_systemd_timer
check_on darwin = show_status check_launchd_job
check_on windows =
    say (codes "Check manually in PowerShell:")
    >> say (codes "Get-ScheduledTask -TaskName \"DockVault-Backup\" | Get-ScheduledTaskInfo")

-- The latest log so far and its time, which is zero at first.
unfoldable pub later : Answer FileStat → Text → Text × Instant → Text × Instant
later (inl e) name best = best
later (inr info) name (best, t) = if ltb t info.mod_time then (name, info.mod_time) else (best, t)

unfoldable pub latest_log : Text → List DirEntry → Text × Instant → M (Text × Instant)
latest_log dir [] best = return best
latest_log dir (e ∷ es) best = do
  r ← attempt (ask (entry_info (path_join (dir ∷ e.name ∷ []))) to_result)
  latest_log dir es (later r e.name best)

unfoldable pub lines_of : Content → List Text
lines_of (bytes t) = split (trim_right (λ c. c == 10) t) 10
lines_of (document j) = []

abbrev pub max_lines : ℕ
max_lines = 50

-- Subtraction on ℕ is zero for a short log, as `start` is.
unfoldable pub last_lines : List Text → List Text
last_lines lines = drop (length lines - max_lines) lines

unfoldable pub say_lines : List Text → M (Unit {0})
say_lines [] = return tt
say_lines (line ∷ lines) = say line >> say_lines lines

unfoldable pub print_log : Text → Text → M (Unit {0})
print_log dir [] = say (codes "No logs yet - run a backup first.")
print_log dir (c ∷ name) = do
  let path = path_join (dir ∷ (c ∷ name) ∷ [])
  content ← ask (read_file path) to_result
  say (codes "== " ++ (path ++ codes " =="))
  say_lines (last_lines (lines_of content))

unfoldable pub tail_listed : Text → Answer (List DirEntry) → M (Unit {0})
tail_listed dir (inl e) =
    if is_not_exist e.kind then say (codes "No logs yet - run a backup first.") else throw e
tail_listed dir (inr entries) = do latest ← latest_log dir entries ([], 0); print_log dir latest.0

unfoldable pub tail_schedule_logs : Text → M (Unit {0})
tail_schedule_logs root = do
  r ← attempt (ask (read_dir (logs_dir root)) to_result)
  tail_listed (logs_dir root) r

-- The flags in the order in which they count.
unfoldable pub run_schedule : Global → Text → Bool → Bool → Bool → Bool → Text → M (Unit {0})
run_schedule g goos install uninstall check logs at = do
  root ← home g.home
  if install
      then install_schedule goos root at
      else if uninstall
      then uninstall_on (detect_platform goos)
      else if check
      then check_on (detect_platform goos)
      else if logs
      then tail_schedule_logs root
      else say (
          codes
            "Specify one of --install, --check, --logs, or --uninstall. See `dockvault schedule --help`.")
