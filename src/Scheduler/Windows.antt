-- ===== src/Scheduler/Windows.antt =====
-- internal/scheduler/windows.go
use dockvault.Common.{
  ◌-◌, ◌++◌, none, some, ◌∷◌, Text, codes, ◌==◌, ltb, ℤ, pos, negsuc, decimal, decimal_ℤ,
  if◌then◌else◌,
}
use dockvault.Scheduler.{time_or_default}
use dockvault.Scheduler.Launchd.{scan_hhmm}

-- The hour that is shown, and its suffix.
unfoldable pub hour_of_clock : ℤ → ℤ × Text
hour_of_clock (negsuc n) = (negsuc n, codes "AM")
hour_of_clock (pos h) =
    if h == 0
    then (pos 12, codes "AM")
    else if h == 12
    then (pos 12, codes "PM")
    else if ltb 12 h
    then (pos (h - 12), codes "PM")
    else (pos h, codes "AM")

-- `%02d`
unfoldable pub two_digits : ℤ → Text
two_digits (negsuc n) = decimal_ℤ (negsuc n)
two_digits (pos n) = if ltb n 10 then b'0' ∷ decimal n else decimal n

unfoldable pub to_12_hour : Text → Text
unfolding hour_of_clock two_digits
to_12_hour hhmm = elim (scan_hhmm hhmm) [
  | none ↦ hhmm
  | some (hour, minute) ↦
      let (shown, suffix) = hour_of_clock hour in
      decimal_ℤ shown ++ (codes ":" ++ (two_digits minute ++ suffix))
]

unfoldable pub native_windows_scheduled_task_instructions : Text → Text → Text → Text
native_windows_scheduled_task_instructions exe_path home at =
    codes "# Run in PowerShell (as Administrator):\n$action = New-ScheduledTaskAction -Execute \""
    ++ (exe_path
        ++ (codes "\" `\n  -Argument \"--home `\""
            ++ (home
                ++ (codes "`\" backup --all\" `\n  -WorkingDirectory \""
                    ++ (home
                        ++ (codes "\"\n$trigger = New-ScheduledTaskTrigger -Daily -At "
                            ++ (to_12_hour (time_or_default at)
                                ++ (codes
                                      "\nRegister-ScheduledTask -TaskName \"DockVault-Backup\" -Action $action -Trigger $trigger -RunLevel Highest\n\n# Logs land in "
                                    ++ (home
                                        ++ codes
                                            "\\logs\\ - dockvault writes there itself, there's no\n# separate redirect to wire up (unlike bash-based scripts).\n")))))))))
