-- ===== src/Scheduler/Systemd.antt =====
-- internal/scheduler/systemd.go
use dockvault.Common.{ℕ, List, [], ◌∷◌, ◌++◌, Option, inl, inr, Text, codes, null, if◌then◌else◌}
use dockvault.Effects.{
  Answer, Error, bytes, M, ◌>>=◌, ◌>>◌, return, fail, wrap, wrap_around, attempt, ask, perform,
  to_result, executable, current_user, get_env, write_file, remove,
}
use dockvault.Backup.LocalCopy.{is_not_exist}
use dockvault.Scheduler.{time_or_default, run_cmd, run_checked}

abbrev pub systemd_service_path : Text
systemd_service_path = codes "/etc/systemd/system/dockvault-backup.service"

abbrev pub systemd_timer_path : Text
systemd_timer_path = codes "/etc/systemd/system/dockvault-backup.timer"

abbrev pub systemd_unit_name : Text
systemd_unit_name = codes "dockvault-backup.timer"

unfoldable pub service_content : Text → Text → Text → Text
service_content user exe_path home =
    codes
      "[Unit]\nDescription=DockVault automated backup\nAfter=network-online.target docker.service\nWants=network-online.target\n\n[Service]\nType=oneshot\nUser="
    ++ (user
        ++ (codes "\nExecStart="
            ++ (exe_path ++ (codes " --home " ++ (home ++ codes " backup --all\n")))))

unfoldable pub timer_content : Text → Text
timer_content at =
    codes "[Unit]\nDescription=Run DockVault backup daily\n\n[Timer]\nOnCalendar=*-*-* "
    ++ (at ++ codes ":00\nPersistent=true\n\n[Install]\nWantedBy=timers.target\n")

unfoldable pub user_or_root : Answer Text → Text
user_or_root (inl e) = codes "root"
user_or_root (inr name) = name

unfoldable pub target_user : M Text
target_user = do
  sudo ← perform (get_env (codes "SUDO_USER"))
  if null sudo
      then (do r ← attempt (ask current_user to_result); return (user_or_root r))
      else return sudo

abbrev pub readable_by_all : ℕ
readable_by_all = 420

unfoldable pub install_systemd_timer : Text → Text → M (Unit {0})
install_systemd_timer home at = do
  exe_path ← wrap (codes "resolving dockvault binary path: ") (ask executable to_result)
  user ← target_user
  wrap_around (codes "writing " ++ (systemd_service_path ++ codes ": "))
      (codes "\n  hint: this needs root - try `sudo dockvault schedule --install`")
      (ask
        (write_file systemd_service_path readable_by_all
          (bytes (service_content user exe_path home)))
        to_result)
  wrap (codes "writing " ++ (systemd_timer_path ++ codes ": ")) (
      ask
        (write_file systemd_timer_path readable_by_all (bytes (timer_content (time_or_default at))))
        to_result)
  run_checked (codes "systemctl") (codes "daemon-reload" ∷ [])
  run_checked (codes "systemctl") (codes "enable" ∷ codes "--now" ∷ systemd_unit_name ∷ [])

-- A file that is not there is as good as removed.
unfoldable pub unit_removed : Text → Answer (Unit {0}) → M (Unit {0})
unit_removed path (inr done) = return tt
unit_removed path (inl e) =
    if is_not_exist e.kind
    then return tt
    else fail (
        codes "removing "
        ++ (path
            ++ (codes ": "
                ++ (e.message
                    ++ codes
                        "\n  hint: this needs root - try `sudo dockvault schedule --uninstall`"))))

unfoldable pub remove_units : List Text → M (Unit {0})
remove_units [] = return tt
remove_units (path ∷ paths) = do
  r ← attempt (ask (remove path) to_result)
  unit_removed path r
  remove_units paths

unfoldable pub uninstall_systemd_timer : M (Unit {0})
uninstall_systemd_timer = do
  run_cmd (codes "systemctl") (codes "disable" ∷ codes "--now" ∷ systemd_unit_name ∷ [])
  remove_units (systemd_timer_path ∷ systemd_service_path ∷ [])
  run_checked (codes "systemctl") (codes "daemon-reload" ∷ [])

unfoldable pub check_systemd_timer : M (Text × Option Error)
check_systemd_timer = run_cmd (codes "systemctl") (codes "status" ∷ systemd_unit_name ∷ [])
