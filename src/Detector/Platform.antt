-- ===== src/Detector/Platform.antt =====
-- internal/detector/platform.go, for an operating system given by its name.
use dockvault.Common.{
  Bool, List, [], ◌∷◌, ◌++◌, Text, codes, ◌=t◌, null, any, trim_left, drop, not, ◌==◌,
  if◌then◌else◌,
}
use mathlib.Core.List.{reverse}
use dockvault.Effects.{M, ◌>>=◌, return, perform, get_env}

unfoldable pub system_drive : M Text
system_drive = do
  drive ← perform (get_env (codes "SystemDrive"))
  return (if null drive then codes "C:" else drive)

unfoldable pub notable_host_paths : Text → M (List Text)
notable_host_paths goos =
    if goos =t codes "windows"
    then (do
      drive ← system_drive
      return (
          (drive ++ codes "\\nginx\\conf")
          ∷ (drive ++ codes "\\ProgramData\\letsencrypt")
          ∷ (drive ++ codes "\\ProgramData\\docker\\config")
          ∷ (drive ++ codes "\\inetpub")
          ∷ []))
    else return (
        codes "/etc/nginx"
        ∷ codes "/etc/letsencrypt"
        ∷ codes "/opt"
        ∷ codes "/srv"
        ∷ codes "/home"
        ∷ codes "/root"
        ∷ [])

-- `filepath.Dir` of a clean path on Windows: what stands before its last separator.
unfoldable pub parent : Text → Text
parent path = reverse (drop 1 (trim_left (λ c. not (c == b'\\')) (reverse path)))

unfoldable pub env_scan_roots_for : Text → M (List Text)
env_scan_roots_for goos =
    if goos =t codes "windows"
    then (do
      drive ← system_drive
      profile ← perform (get_env (codes "USERPROFILE"))
      return
          ((drive ++ codes "\\ProgramData") ∷ (if null profile then [] else parent profile ∷ [])))
    else return (codes "/opt" ∷ codes "/srv" ∷ codes "/home" ∷ codes "/root" ∷ [])

unfoldable pub skip_dir_name : Text → Bool
skip_dir_name name =
    any (λ n. n =t name)
      (codes "proc"
        ∷ codes "sys"
        ∷ codes "AppData"
        ∷ codes "Application Data"
        ∷ codes "$Recycle.Bin"
        ∷ codes "System Volume Information"
        ∷ codes "node_modules"
        ∷ codes ".git"
        ∷ [])
