-- ===== src/Scheduler/Launchd.antt =====
-- internal/scheduler/launchd.go
use dockvault.Common.{
  ℕ, ◌-◌, ◌^◌, [], ◌∷◌, ◌++◌, Option, none, some, inl, inr, ◌||◌, ◌==◌, Text, codes, ℤ, pos,
  negated, in_range, natural, is_digit, trim_left, decimal_ℤ, quoted, path_join, if◌then◌else◌,
}
use dockvault.Effects.{
  Answer, Error, errorf, Result, ok, err, bytes, M, ◌>>=◌, ◌>>◌, return, fail, wrap, attempt, ask,
  to_result, lift, executable, home_dir, mkdir_all, write_file, remove,
}
use dockvault.Backup.LocalCopy.{is_not_exist}
use dockvault.Scheduler.{time_or_default, run_cmd, run_checked}
use dockvault.Scheduler.Systemd.{readable_by_all}

abbrev pub launchd_label : Text
launchd_label = codes "com.dockvault.backup"

-- The digits at the head of a text, and the rest.
unfoldable pub digits_of : Text → Text × Text
digits_of [] = ([], [])
digits_of (c ∷ s) = let (d, rest) = digits_of s in if is_digit c then (c ∷ d, rest) else ([], c ∷ s)

unfoldable pub signed : Text → Option ℤ
unfolding in_range natural negated
signed [] = none
signed (c ∷ s) =
    if c == b'-'
    then in_range (2 ^ 63) negated (natural s)
    else if c == b'+'
    then in_range (2 ^ 63 - 1) pos (natural s)
    else in_range (2 ^ 63 - 1) pos (natural (c ∷ s))

unfoldable pub with_sign : ℕ → Text × Text → Option (ℤ × Text)
with_sign sign (digits, rest) = elim (signed (sign ∷ digits)) [
  | none ↦ none
  | some n ↦ some (n, rest)
]

-- `%d` of `fmt.Sscanf`, behind its spaces: a number with its sign, and the rest of the text.
unfoldable pub scan_sign : Text → Option (ℤ × Text)
unfolding digits_of signed with_sign
scan_sign [] = none
scan_sign (c ∷ s) =
    if (c == b'-') || (c == b'+')
    then with_sign c (digits_of s)
    else with_sign b'+' (digits_of (c ∷ s))

unfoldable pub scan_int : Text → Option (ℤ × Text)
unfolding scan_sign trim_left
scan_int s = scan_sign (trim_left (λ c. (c == 32) || (c == 9)) s)

unfoldable pub after_colon : Text → Option Text
after_colon [] = none
after_colon (c ∷ s) = if c == b':' then some s else none

unfoldable pub scan_minute : ℤ → Option Text → Option (ℤ × ℤ)
scan_minute hour none = none
scan_minute hour (some s) = elim (scan_int s) [
  | none ↦ none
  | some (minute, rest) ↦ some (hour, minute)
]

-- `fmt.Sscanf(at, "%d:%d", &hour, &minute)`; what stands behind is not read.
unfoldable pub scan_hhmm : Text → Option (ℤ × ℤ)
unfolding scan_int after_colon scan_minute
scan_hhmm at = elim (scan_int at) [
  | none ↦ none
  | some (hour, rest) ↦ scan_minute hour (after_colon rest)
]

-- The message of `Sscanf` at its end is left out.
unfoldable pub parse_hhmm : Text → Result (ℤ × ℤ)
unfolding scan_hhmm
parse_hhmm at = elim (scan_hhmm at) [
  | none ↦ err (errorf (codes "invalid time " ++ (quoted at ++ codes ", want HH:MM: ")))
  | some time ↦ ok time
]

unfoldable pub agents_dir : Text → Text
agents_dir home = path_join (home ∷ codes "Library" ∷ codes "LaunchAgents" ∷ [])

unfoldable pub launchd_plist_path : Text → Text
launchd_plist_path home =
    path_join
      (home ∷ codes "Library" ∷ codes "LaunchAgents" ∷ (launchd_label ++ codes ".plist") ∷ [])

unfoldable pub plist_content : Text → Text → ℤ × ℤ → Text
plist_content exe_path home (hour, minute) =
    codes
      "<?xml version=\"1.0\" encoding=\"UTF-8\"?>\n<!DOCTYPE plist PUBLIC \"-//Apple//DTD PLIST 1.0//EN\" \"http://www.apple.com/DTDs/PropertyList-1.0.dtd\">\n<plist version=\"1.0\">\n<dict>\n\t<key>Label</key>\n\t<string>"
    ++ (launchd_label
        ++ (codes "</string>\n\t<key>ProgramArguments</key>\n\t<array>\n\t\t<string>"
            ++ (exe_path
                ++ (codes "</string>\n\t\t<string>--home</string>\n\t\t<string>"
                    ++ (home
                        ++ (codes
                              "</string>\n\t\t<string>backup</string>\n\t\t<string>--all</string>\n\t</array>\n\t<key>StartCalendarInterval</key>\n\t<dict>\n\t\t<key>Hour</key>\n\t\t<integer>"
                            ++ (decimal_ℤ hour
                                ++ (codes "</integer>\n\t\t<key>Minute</key>\n\t\t<integer>"
                                    ++ (decimal_ℤ minute
                                        ++ (codes
                                              "</integer>\n\t</dict>\n\t<key>StandardOutPath</key>\n\t<string>"
                                            ++ (home
                                                ++ (codes
                                                      "/logs/launchd.log</string>\n\t<key>StandardErrorPath</key>\n\t<string>"
                                                    ++ (home
                                                        ++ codes
                                                            "/logs/launchd.log</string>\n</dict>\n</plist>\n")))))))))))))

unfoldable pub install_launchd_job : Text → Text → M (Unit {0})
install_launchd_job home at = do
  time ← lift (parse_hhmm (time_or_default at))
  exe_path ← wrap (codes "resolving dockvault binary path: ") (ask executable to_result)
  user_home ← ask home_dir to_result
  wrap (codes "creating " ++ (agents_dir user_home ++ codes ": "))
      (ask (mkdir_all (agents_dir user_home)) to_result)
  wrap (codes "writing " ++ (launchd_plist_path user_home ++ codes ": ")) (
      ask
        (write_file (launchd_plist_path user_home) readable_by_all
          (bytes (plist_content exe_path home time)))
        to_result)
  run_checked (codes "launchctl") (codes "load" ∷ codes "-w" ∷ launchd_plist_path user_home ∷ [])

unfoldable pub plist_removed : Text → Answer (Unit {0}) → M (Unit {0})
plist_removed path (inr done) = return tt
plist_removed path (inl e) =
    if is_not_exist e.kind
    then return tt
    else fail (codes "removing " ++ (path ++ (codes ": " ++ e.message)))

unfoldable pub uninstall_launchd_job : M (Unit {0})
uninstall_launchd_job = do
  user_home ← ask home_dir to_result
  run_cmd (codes "launchctl") (codes "unload" ∷ launchd_plist_path user_home ∷ [])
  r ← attempt (ask (remove (launchd_plist_path user_home)) to_result)
  plist_removed (launchd_plist_path user_home) r

unfoldable pub check_launchd_job : M (Text × Option Error)
check_launchd_job = run_cmd (codes "launchctl") (codes "list" ∷ launchd_label ∷ [])
