-- ===== src/Scheduler/Cleanup.antt =====
-- What an uninstallation leaves behind.
use dockvault.Common.{
  ◌++◌, if◌then◌else◌, null, ◌≡◌, List, [], ◌∷◌, ◌⊎◌, inl, inr, Text, codes, none,
}
use dockvault.Effects.{
  M, ◌>>◌, wrap, wrap_around, ask, executable, bytes, Call, Answer, World, not_exist, run_command,
  write_file, current_user, get_env, to_result,
}
use dockvault.Scheduler.{time_or_default, run_checked}
use dockvault.Scheduler.Systemd.{
  readable_by_all, service_content, timer_content, systemd_service_path, systemd_timer_path,
  systemd_unit_name,
}

abbrev pub disable : Call
disable =
    run_command (codes "systemctl") (codes "disable" ∷ codes "--now" ∷ systemd_unit_name ∷ []) none

abbrev pub enable : Call
enable =
    run_command (codes "systemctl") (codes "enable" ∷ codes "--now" ∷ systemd_unit_name ∷ []) none

abbrev pub reload : Call
reload = run_command (codes "systemctl") (codes "daemon-reload" ∷ []) none

-- One of the two units is written, systemctl is run, or the path of the program or the user is asked for.
abbrev pub WritesUnits : Call → Type 0
WritesUnits (write_file path mode content) =
    (path ≡ systemd_service_path) ⊎ (path ≡ systemd_timer_path)
WritesUnits (run_command bin args stdin) = bin ≡ codes "systemctl"
WritesUnits (get_env name) = Unit {0}
WritesUnits executable = Unit {0}
WritesUnits current_user = Unit {0}
WritesUnits _ = ⊥

-- The requests that are no queries, behind an installation that succeeds.
abbrev pub units_written : (user exe_path home at : Text) → List Call → List Call
units_written user exe_path home at log =
    enable
    ∷ reload
    ∷ write_file systemd_timer_path readable_by_all (bytes (timer_content at))
    ∷ write_file systemd_service_path readable_by_all (bytes (service_content user exe_path home))
    ∷ log

-- A file was removed, or it was not there.
abbrev pub IsGone : Answer (Unit {0}) → Type 0
IsGone (inl e) = e.kind ≡ not_exist
IsGone (inr done) = Unit {0}

abbrev timer_request : Text → Call
timer_request at =
    write_file systemd_timer_path readable_by_all (bytes (timer_content (time_or_default at)))

-- What an installation does behind the units.
abbrev enabled : M (Unit {0})
enabled =
    run_checked (codes "systemctl") (codes "daemon-reload" ∷ [])
    >> run_checked (codes "systemctl") (codes "enable" ∷ codes "--now" ∷ systemd_unit_name ∷ [])

abbrev timer_written : Text → M (Unit {0})
timer_written at = wrap (codes "writing " ++ (systemd_timer_path ++ codes ": ")) (
    ask (write_file systemd_timer_path readable_by_all (bytes (timer_content (time_or_default at))))
      to_result)

abbrev service_written : Text → Text → Text → M (Unit {0})
service_written user exe_path home =
    wrap_around (codes "writing " ++ (systemd_service_path ++ codes ": "))
      (codes "\n  hint: this needs root - try `sudo dockvault schedule --install`")
      (ask
        (write_file systemd_service_path readable_by_all
          (bytes (service_content user exe_path home)))
        to_result)

abbrev with_user : Text → Text → Text → Text → M (Unit {0})
with_user home at exe_path user =
    service_written user exe_path home >> (timer_written at >> enabled)

-- Both units were written, for some user and path of the program, at the given time or the default one,
-- and then the timer was enabled.
abbrev pub Installed : Text → Text → World → Type 0
Installed home at w =
    (user : Text) × (exe_path : Text) × (log : List Call) × (w.log
      ≡ units_written user exe_path home (if null at then codes "01:00" else at) log)
