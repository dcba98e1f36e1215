-- ===== src/Workspace/Paths.antt =====
-- internal/workspace/workspace.go
use dockvault.Common.{Bool, false, [], ◌∷◌, inl, inr, Text, codes, null, path_join, if◌then◌else◌}
use dockvault.Effects.{
  FileStat, Answer, M, ◌>>=◌, ◌>>◌, return, attempt, ask, perform, to_result, get_env, home_dir,
  mkdir_all, chmod, stat,
}

-- A workspace is its root.
unfoldable pub home : Text → M Text
home override =
    if null override
    then (do
      env ← perform (get_env (codes "DOCKVAULT_HOME"))
      if null env
          then (do
            dir ← ask home_dir to_result
            return (path_join (dir ∷ codes "dockvault_scripts" ∷ [])))
          else return env)
    else return override

unfoldable pub logs_dir : Text → Text
logs_dir root = path_join (root ∷ codes "logs" ∷ [])

unfoldable pub config_path : Text → Text
config_path root = path_join (root ∷ codes "config.json" ∷ [])

unfoldable pub manifest_path : Text → Text
manifest_path root = path_join (root ∷ codes "manifest.json" ∷ [])

unfoldable pub job_dir : Text → Text → Text
job_dir root job_name = path_join (root ∷ job_name ∷ [])

unfoldable pub job_config_path : Text → Text → Text
job_config_path root job_name = path_join (job_dir root job_name ∷ codes "job.json" ∷ [])

unfoldable pub env_path : Text → Text → Text
env_path root job_name = path_join (job_dir root job_name ∷ codes ".env" ∷ [])

-- A directory is created, and its mode is tightened if that is possible.
unfoldable pub make_private : Text → M (Unit {0})
make_private dir = do ask (mkdir_all dir) to_result; attempt (ask (chmod dir) to_result); return tt

unfoldable pub ensure_layout : Text → M (Unit {0})
ensure_layout root = make_private root >> make_private (logs_dir root)

unfoldable pub is_directory : Answer FileStat → Bool
is_directory (inl e) = false
is_directory (inr info) = info.is_dir

unfoldable pub exists : Text → M Bool
exists root = do r ← attempt (ask (stat root) to_result); return (is_directory r)
