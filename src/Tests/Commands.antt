-- ===== src/Tests/Commands.antt =====
-- The commands at a concrete workspace.
use dockvault.Tests.{job, reply, host}
use dockvault.Workspace.LockLaws.{Refused, at}
use dockvault.Detector.Findings.{Detector}
use dockvault.Effects.{M, return}
use dockvault.Common.{Text}
use dockvault.Rclone.{LsjsonEntry}
use dockvault.Common.{true, ◌∷◌}
use dockvault.Cli.Exclusion.{IsTaken, commands-Refused}
use dockvault.Effects.{Call, Reply, create_exclusive, stat, already_exists, Platform}
use dockvault.Cli.BackupCommand.{run_in_order, run_backup}
use dockvault.Cli.BackupGuards.{IsLocal, run_backup-Dry}
use dockvault.Cli.Session.{Global}
use dockvault.Common.{true, false, [], codes, pos, none, refl, List, inl, inr, arith}
use dockvault.Effects.Keeps.{Only}
use dockvault.Effects.Gate.{Gate}
use dockvault.Docker
use dockvault.Rclone
use dockvault.Utils.Questions.{is_word}
use dockvault.Backup.Clients.{docker_client, rclone_client}
use dockvault.Restore.Files.{BackupFile}
use dockvault.Cli.Registry.{redis, restore_by}
use dockvault.Cli.Session.{default_global}
use dockvault.Cli.Restore.{run_restore}
use dockvault.Cli.Preparation.{IsPreparation}
use dockvault.Cli.RestoreRequests.{IsRestoreRequest, restore_by-Only}
use dockvault.Cli.RestoreGate.{run_restore-Gate}

abbrev vault : Rclone.Client
vault = Rclone.new (codes "vault")

abbrev newest : BackupFile
newest = record {
  name = codes "pg.rdb.gz";
  size = pos 1500;
  modified = none;
  path = codes "/stage/pg.rdb.gz";
}

run_restore-Gate_example :
    Gate IsPreparation (is_word (codes "RESTORE")) (run_restore default_global (codes "pg") false)
run_restore-Gate_example = run_restore-Gate default_global (codes "pg") false

restore_by-Only_example :
    Only
      (IsRestoreRequest vault)
      (restore_by redis (docker_client Docker.new) (rclone_client vault) job newest)
restore_by-Only_example = restore_by-Only vault job newest redis

run_backup-Dry_example : Only IsLocal (run_backup run_in_order default_global [] [] true (pos 3))
run_backup-Dry_example = run_backup-Dry run_in_order default_global [] [] (pos 3)

-- A host where another run took the lock just now.
abbrev taken : List Call → (c : Call) → Reply c
taken log (create_exclusive path) =
    inl (record { kind = already_exists; message = codes "file exists" })
taken log (stat path) = inr (record { size = 3; mod_time = 0; is_dir = true })
taken log c = reply log c

abbrev busy : Platform
busy = record host { answer = taken }

abbrev at_home : Global
at_home = record default_global { home = codes "/vault" }

abbrev busy-IsTaken : IsTaken busy at_home []
busy-IsTaken = record {
  given = refl;
  dir = record { size = 3; mod_time = 0; is_dir = true };
  is_there = refl;
  is_dir = refl;
  error = record { kind = already_exists; message = codes "file exists" };
  exists = refl;
  taken = refl;
  info = record { size = 3; mod_time = 0; is_dir = true };
  found = refl;
  held = inl (λ log. omega arith);
}

commands-Refused_example :
    Refused (run_backup run_in_order at_home [] [] false (pos 3)) (at busy [])
    × Refused (run_restore at_home [] false) (at busy [])
commands-Refused_example =
    commands-Refused busy at_home [] busy-IsTaken run_in_order [] [] false (pos 3)

abbrev guide : Text → Detector → M (Unit {0})
guide root det = return tt

abbrev listing : List LsjsonEntry
listing =
    record {
      path = codes "stage/pg/a.gz";
      name = codes "a.gz";
      size = pos 5;
      mod_time = [];
      is_dir = false;
    }
    ∷ record {
      path = codes "stage";
      name = codes "stage";
      size = pos 0;
      mod_time = [];
      is_dir = true;
    }
    ∷ []
