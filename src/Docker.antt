-- ===== src/Docker.antt =====
-- internal/docker/client.go: the wrapper of the `docker` command.
pub mod Redact
pub mod Inspect
use dockvault.Common.{Bool, true, false, Option, none, some, List, [], ◌∷◌, ◌++◌, ◌||◌, map}
use dockvault.Common.{Text, codes, ◌=t◌, null, trim_space, join, cut, quoted, if◌then◌else◌}
use dockvault.Effects.{
  Content, Exit, Result, ok, err, errorf, M, ◌>>=◌, ◌>>◌, return, wrap_around, wrap, ask,
  run_command,
}

pub record Client : Type 0 where
  pub bin_path : Text

unfoldable pub new : Client
new = record { bin_path = codes "docker" }

unfoldable pub bin : Client → Text
bin c = if null c.bin_path then codes "docker" else c.bin_path

-- What the argument before says of the one at hand.
pub data Mask : Type 0 where
  plain env_value password_value : Mask

unfoldable pub mask_after : Text → Mask
mask_after arg =
    if (arg =t codes "-e") || (arg =t codes "--env")
    then env_value
    else if arg =t codes "--password"
    then password_value
    else plain

unfoldable pub mask : Mask → Text → Text
mask plain arg = arg
mask env_value arg = elim (cut arg b'=') [ some (k, _) ↦ k ++ codes "=***" | none ↦ codes "***" ]
mask password_value arg = codes "***"

-- The loop of `RedactArgs`: an argument is masked before it is read as a flag itself.
unfoldable pub redact_from : Mask → List Text → List Text
redact_from m [] = []
redact_from m (arg ∷ args) = mask m arg ∷ redact_from (mask_after (mask m arg)) args

unfoldable pub redact_args : List Text → List Text
redact_args args = redact_from plain args

-- The message of a command that failed.
unfoldable pub read_exit : List Text → Exit → Result Text
read_exit args e = elim e.failure [
  | none ↦ ok e.stdout
  | some cause ↦
      let stderr = trim_space e.stderr in
      let message = if null stderr then cause else stderr in
      err (
        errorf
          (codes "docker " ++ (join (redact_args args) (codes " ") ++ (codes ": " ++ message))))
]

unfoldable pub run_with_stdin : Client → Option Content → List Text → M Text
run_with_stdin c stdin args = ask (run_command (bin c) args stdin) (read_exit args)

unfoldable pub run : Client → List Text → M Text
run c args = run_with_stdin c none args

unfoldable pub ping : Client → M (Unit {0})
ping c =
    wrap (codes "docker daemon not reachable: ")
      (run c (codes "info" ∷ codes "--format" ∷ codes "{{.ServerVersion}}" ∷ []) >> return tt)

pub record MountSpec : Type 0 where
  pub source : Text
  pub target : Text
  pub read_only : Bool

unfoldable pub flag : MountSpec → Text
flag m = m.source ++ (codes ":" ++ (m.target ++ (if m.read_only then codes ":ro" else [])))

unfoldable pub mount_args : List MountSpec → List Text
mount_args [] = []
mount_args (m ∷ ms) = codes "-v" ∷ flag m ∷ mount_args ms

unfoldable pub env_args : List (Text × Text) → List Text
env_args [] = []
env_args ((k, v) ∷ env) = codes "-e" ∷ (k ++ (codes "=" ++ v)) ∷ env_args env

unfoldable pub run_container : Client → Text → List MountSpec → List Text → M Text
run_container c image mounts cmd =
    wrap_around [] (codes "\n  hint: is Docker running? try `docker ps`")
      (run c (codes "run" ∷ codes "--rm" ∷ (mount_args mounts ++ (image ∷ cmd))))

-- The arguments of `docker exec`; the environment in the order in which it was iterated.
unfoldable pub exec_args : Text → List Text → List (Text × Text) → Bool → List Text
unfolding env_args
exec_args container cmd env has_stdin =
    codes "exec"
    ∷ ((if has_stdin then codes "-i" ∷ [] else []) ++ (env_args env ++ (container ∷ cmd)))

pub is_some {ℓ} : {A : Type ℓ} → Option A → Bool
is_some none = false
is_some (some a) = true

unfoldable pub exec : Client → Text → List Text → List (Text × Text) → Option Content → M Text
exec c container cmd env stdin =
    wrap_around []
      (codes "\n  hint: is container " ++ (quoted container ++ codes " running? try `docker ps`"))
      (run_with_stdin c stdin (exec_args container cmd env (is_some stdin)))

abbrev pub still_there : Text → Text
still_there container =
    codes "\n  hint: is container "
    ++ (quoted container ++ codes " still there? try `docker ps -a`")

unfoldable pub stop : Client → Text → M (Unit {0})
stop c container =
    wrap_around [] (still_there container) (run c (codes "stop" ∷ container ∷ []) >> return tt)

unfoldable pub start : Client → Text → M (Unit {0})
start c container =
    wrap_around [] (still_there container) (run c (codes "start" ∷ container ∷ []) >> return tt)

unfoldable pub cp : Client → Text → Text → M (Unit {0})
cp c src dst =
    wrap (codes "copying " ++ (src ++ (codes " -> " ++ (dst ++ codes ": "))))
      (run c (codes "cp" ∷ src ∷ dst ∷ []) >> return tt)
