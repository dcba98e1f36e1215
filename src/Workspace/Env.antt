-- ===== src/Workspace/Env.antt =====
-- internal/workspace/env_unix.go
use dockvault.Common.{
  assign, Dict, Bool, none, some, List, [], ◌∷◌, ◌++◌, ◌||◌, inl, inr, Text, codes, null,
  has_prefix, trim_space, split, cut, quoted, text_lt, sort_by, if◌then◌else◌,
}
use dockvault.Effects.{
  Content, bytes, document, Answer, M, ◌>>=◌, return, fail, attempt, ask, to_result, write_file,
  read_file,
}
use dockvault.Backup.Manifest.{owner_only}
use dockvault.Backup.LocalCopy.{is_not_exist}
use dockvault.Workspace.Paths.{env_path}

abbrev pub key_before : Text × Text → Text × Text → Bool
key_before (j, u) (k, v) = text_lt j k

abbrev pub env_line : Text × Text → Text
env_line (k, v) = k ++ (b'=' ∷ v)

-- The text of a map whose keys are sorted.
unfoldable pub env_text : Dict → Text
env_text [] = []
env_text (kv ∷ env) = env_line kv ++ (10 ∷ env_text env)

unfoldable pub save_env : Text → Text → Dict → M (Unit {0})
save_env root job_name env =
    ask (write_file (env_path root job_name) owner_only (bytes (env_text (sort_by key_before env))))
      to_result

-- One round of the loop of `loadEnv`.
unfoldable pub take_line : Dict → Text → Dict
unfolding assign
take_line env raw =
    let line = trim_space raw in
    if null line || has_prefix line (codes "#")
    then env
    else elim (cut line b'=') [ none ↦ env | some (k, v) ↦ assign k v env ]

unfoldable pub read_lines : Dict → List Text → Dict
unfolding take_line
read_lines env [] = env
read_lines env (line ∷ lines) = read_lines (take_line env line) lines

unfoldable pub parse_env : Text → Dict
unfolding read_lines
parse_env t = read_lines [] (split t 10)

-- A file that the program wrote as JSON has no line of a map.
unfoldable pub env_of : Content → Dict
unfolding parse_env
env_of (bytes t) = parse_env t
env_of (document j) = []

unfoldable pub env_read : Text → Answer Content → M Dict
env_read job_name (inr content) = return (env_of content)
env_read job_name (inl e) =
    if is_not_exist e.kind
    then return []
    else fail (codes "reading .env for " ++ (quoted job_name ++ (codes ": " ++ e.message)))

unfoldable pub load_env : Text → Text → M Dict
load_env root job_name = do
  r ← attempt (ask (read_file (env_path root job_name)) to_result)
  env_read job_name r
