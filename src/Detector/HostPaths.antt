-- ===== src/Detector/HostPaths.antt =====
-- `ScanHostPaths` of internal/detector/detector.go.
use dockvault.Common.{
  ℕ, zero, suc, Bool, true, false, not, List, [], ◌∷◌, ◌++◌, ◌||◌, inl, inr, Text, codes, ◌=t◌,
  null, any, map, path_join, sort_by, text_lt, if◌then◌else◌,
}
use dockvault.Effects.{
  Answer, DirEntry, FileStat, M, ◌>>=◌, return, attempt, ask, to_result, read_dir, stat,
}
use dockvault.Docker.Inspect.{
  ContainerRef, ContainerDetail, Mount, list_containers, inspect_containers,
}
use dockvault.Detector.Findings.{HostPathInfo, Detector}
use dockvault.Detector.ServiceTypes.{hostdir, name_of}
use dockvault.Detector.Naming.{host_dir_job_name, bind_mount_identifier, remote_path}
use dockvault.Detector.Platform.{notable_host_paths, env_scan_roots_for, skip_dir_name}
use dockvault.Detector.Scan.{container_id}

unfoldable pub is_bind : Mount → Bool
is_bind m = if not (m.kind =t codes "bind") || null m.source then false else true

-- A path that is backed up as a job of its own.
unfoldable pub job_path : Detector → Text → Text → Text → Text → HostPathInfo
job_path d path kind source identifier =
    let job_name = host_dir_job_name path in
    record {
      path = path;
      kind = kind;
      source = source;
      recommended_backup_type = codes "tar";
      job_name = job_name;
      google_drive_path = remote_path d.environment d.hostname (name_of hostdir) job_name;
      volume_identifier = identifier;
    }

unfoldable pub mounts_of : Detector → ContainerDetail → List Mount → List HostPathInfo
mounts_of d det [] = []
mounts_of d det (m ∷ ms) =
    let rest = mounts_of d det ms in
    if is_bind m
    then job_path d m.source (codes "bind-mount") det.name (bind_mount_identifier m.destination)
      ∷ rest
    else rest

unfoldable pub bind_paths : Detector → List ContainerDetail → List HostPathInfo
bind_paths d [] = []
bind_paths d (c ∷ cs) = mounts_of d c c.mounts ++ bind_paths d cs

-- If the containers cannot be listed there are no mounts.
unfoldable pub mounts_found : Detector → Answer (List ContainerRef) → M (List HostPathInfo)
mounts_found d (inl e) = return []
mounts_found d (inr refs) = do
  details ← inspect_containers d.docker (map container_id refs)
  return (bind_paths d details.0)

unfoldable pub is_dir_there : Answer FileStat → Bool
is_dir_there (inl e) = false
is_dir_there (inr info) = info.is_dir

unfoldable pub notable_found : Detector → List Text → M (List HostPathInfo)
notable_found d [] = return []
notable_found d (p ∷ ps) = do
  r ← attempt (ask (stat p) to_result)
  rest ← notable_found d ps
  return (
      if is_dir_there r
      then job_path d p (codes "notable-path") [] (bind_mount_identifier p) ∷ rest
      else rest)

-- One entry of a directory, given the walk of a directory one level below.
unfoldable pub walk_entry : (Text → M (List Text)) → Text → DirEntry → M (List Text)
walk_entry walk dir e =
    let full = path_join (dir ∷ e.name ∷ []) in
    if e.is_dir
    then (if skip_dir_name e.name then return [] else walk full)
    else return (if e.name =t codes ".env" then full ∷ [] else [])

unfoldable pub walk_entries : (Text → M (List Text)) → Text → List DirEntry → M (List Text)
walk_entries walk dir [] = return []
walk_entries walk dir (e ∷ es) = do
  found ← walk_entry walk dir e
  rest ← walk_entries walk dir es
  return (found ++ rest)

unfoldable pub walk_read : (Text → M (List Text)) → Text → Answer (List DirEntry) → M (List Text)
walk_read walk dir (inl e) = return []
walk_read walk dir (inr entries) = walk_entries walk dir entries

-- The walk through a number of levels of directories.
unfoldable pub walk_for_env_files : ℕ → Text → M (List Text)
walk_for_env_files zero dir = return []
walk_for_env_files (suc n) dir = do
  r ← attempt (ask (read_dir dir) to_result)
  walk_read (walk_for_env_files n) dir r

-- The depth goes from `envScanDepth`, 4, to 0.
abbrev pub env_scan_levels : ℕ
env_scan_levels = 5

unfoldable pub env_file : Text → HostPathInfo
env_file path = record {
  path = path;
  kind = codes "env-file";
  source = [];
  recommended_backup_type = [];
  job_name = [];
  google_drive_path = [];
  volume_identifier = [];
}

unfoldable pub env_found : List Text → M (List HostPathInfo)
env_found [] = return []
env_found (root ∷ roots) = do
  paths ← walk_for_env_files env_scan_levels root
  rest ← env_found roots
  return (map env_file paths ++ rest)

abbrev pub has_path : Text → List HostPathInfo → Bool
has_path path out = any (λ h. h.path =t path) out

-- The calls of `add`: a path that was seen is left out.
unfoldable pub add_all : List HostPathInfo → List HostPathInfo → List HostPathInfo
add_all out [] = out
add_all out (h ∷ hs) = add_all (if has_path h.path out then out else out ++ (h ∷ [])) hs

unfoldable pub path_before : HostPathInfo → HostPathInfo → Bool
path_before a b = text_lt a.path b.path

unfoldable pub host_paths : List HostPathInfo → List HostPathInfo
host_paths found = sort_by path_before (add_all [] found)

unfoldable pub scan_host_paths : Detector → M (List HostPathInfo)
scan_host_paths d = do
  refs ← attempt (list_containers d.docker false)
  mounts ← mounts_found d refs
  notable ← notable_host_paths d.goos
  dirs ← notable_found d notable
  roots ← env_scan_roots_for d.goos
  files ← env_found roots
  return (host_paths (mounts ++ (dirs ++ files)))
