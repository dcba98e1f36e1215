-- ===== src/Cli/Session.antt =====
-- What the commands of internal/cli share: the global flags, and how a command opens the workspace,
-- reaches Docker and rclone, and holds the lock.
use dockvault.Common.{Bool, false, List, [], ◌∷◌, ◌++◌, ℕ, zero, suc, Text, codes}
use dockvault.Effects.{M, Result, ok, panic, ◌>>◌, return, wrap_around, finally}
use dockvault.Docker
use dockvault.Rclone
use dockvault.Workspace.Config.{Config}
use dockvault.Workspace.Lock.{lock, unlock, lock_path}
use dockvault.Cli.Registry.{resolve_rclone_remote}

pub record Global : Type 0 where
  pub home : Text
  pub rclone_remote : Text
  pub environment : Text
  pub dry_run : Bool
  pub verbose : Bool

unfoldable pub default_global : Global
default_global = record {
  home = [];
  rclone_remote = codes "dockvault_backup";
  environment = codes "stage";
  dry_run = false;
  verbose = false;
}

unfoldable pub no_workspace : Text → Text
no_workspace root =
    codes "no workspace found at " ++ (root ++ codes "\n  hint: run `dockvault generate` first")

-- `Lock` with the deferred `unlock`.
unfoldable pub with_lock {ℓ} : {A : Type ℓ} → Text → M A → M A
with_lock root body = lock root >> finally body (unlock (lock_path root))

unfoldable pub ping_docker : M (Unit {0})
ping_docker =
    wrap_around []
      (codes "\n  hint: is Docker running? (Docker Desktop, or `sudo systemctl start docker`)")
      (Docker.ping Docker.new)

unfoldable pub configured_remote : Global → Config → M Rclone.Client
configured_remote g cfg = do
  let rc = Rclone.new (resolve_rclone_remote g.rclone_remote cfg)
  Rclone.check_configured rc
  return rc

-- An index into a slice.
unfoldable pub element {ℓ} : {A : Type ℓ} → List A → ℕ → Result A
element [] i = panic (codes "index out of range")
element (x ∷ xs) zero = ok x
element (x ∷ xs) (suc i) = element xs i
