-- ===== src/Tests/Workspaces.antt =====
-- Jobs, history and lock of a workspace at concrete data.
use dockvault.Tests.{reply, host, job, login}
use dockvault.Common.{
  trim_space, ℕ, ◌<◌, ◌≤◌, ◌^◌, ◌/◌, ◌≡◌, ◌≢◌, refl, ap, Bool, true, false, Option, none, some,
  List, [], ◌∷◌, ◌++◌, null, false, sort_by, ◌+◌, ◌*◌, if◌then◌else◌, ◌⊎◌, inl, inr, Text, codes,
  ◌=t◌, pos, decimal, Instant, All, take, keep, map, trim_suffix, days_before, arith,
}
use dockvault.Effects.{
  Call, Reply, run_command, stat, open_file, read_file, write_file, create_exclusive, mkdir_all,
  chmod, read_dir, entry_info, remove, remove_all, mkdir_temp, now, wait, process_id, find_process,
  signal_zero, http_post, get_env, home_dir, print, read_line, Platform, World, M, return, fail,
  errorf, bytes, Content, Answer, not_exist, Json, already_exists, text, array, item, no_items,
  object, field, no_fields, ok, err, panic, monad, Error, to_result,
}
use dockvault.Backup.Job.{Job}
use dockvault.Workspace.Env.{parse_env, env_text}
use dockvault.Workspace.EnvRoundTrip.{IsClean, parse_env-env_text}
use dockvault.Workspace.History.{ManifestEntry, upsert}
use dockvault.Workspace.HistoryLaws.{entry_of, RecordedOnce, upsert_lem}
use dockvault.Workspace.Paths.{ensure_layout, env_path, job_config_path}
use dockvault.Workspace.Env.{key_before}
use dockvault.Workspace.JobFile.{env_of_job, save_job, load_job}
use dockvault.Workspace.JobRoundTrip.{IsSameJob, KeepsFiles, last_write, load_job-save_job}
use dockvault.Workspace.History.{save_manifest}
use dockvault.Cli.Backup.{JobResult}
use dockvault.Workspace.Lock.{lock}
use dockvault.Workspace.LockLaws.{Refused, lock-Refused}

login-IsClean : IsClean (codes "PGPASSWORD", codes "pw")
unfolding dockvault.Common.trim_space dockvault.Common.has_prefix
login-IsClean = record {
  no_break = ground arith;
  plain_key = ground arith;
  trimmed = refl;
  no_comment = refl;
}

parse_env-env_text_example : parse_env (env_text login) ≡ login
parse_env-env_text_example = parse_env-env_text login (login-IsClean, tt) (refl, tt)

abbrev entry : ManifestEntry
entry = record {
  job_name = codes "pg";
  service_type = codes "postgres";
  last_backup = [];
  last_backup_status = codes "success";
  last_size_bytes = pos 0;
}

upsert_lem_example :
    (entry_of (codes "pg") (upsert entry (entry ∷ [])) ≡ some entry)
    × ((name : Text)
        → (codes "pg" =t name) ≡ false
        → entry_of name (upsert entry (entry ∷ [])) ≡ entry_of name (entry ∷ []))
    × (RecordedOnce (entry ∷ []) → RecordedOnce (upsert entry (entry ∷ [])))
upsert_lem_example = upsert_lem entry (entry ∷ [])

-- A host whose lock file exists.
abbrev locked_reply : List Call → (c : Call) → Reply c
locked_reply log (create_exclusive path) =
    inl (record { kind = already_exists; message = codes "file exists" })
locked_reply log c = reply log c

abbrev locked : Platform
locked = record host { answer = locked_reply }

lock-Refused_example : Refused (lock (codes "/ws")) (record { platform = locked; log = [] })
lock-Refused_example =
    lock-Refused locked (codes "/ws")
      (record { kind = already_exists; message = codes "file exists" })
      (record { size = 1500; mod_time = 0; is_dir = false }) [] refl refl refl (λ log. omega arith)

-- A host whose lock file names a process that is alive.
abbrev held_reply : List Call → (c : Call) → Reply c
held_reply log (create_exclusive path) =
    inl (record { kind = already_exists; message = codes "file exists" })
held_reply log (read_file path) = inr (bytes (codes "7\n"))
held_reply log c = reply log c

abbrev held : Platform
held = record host { answer = held_reply }

-- A host whose file system keeps what is written.
abbrev read_back : Option Content → Answer Content
read_back none = inl (record { kind = not_exist; message = codes "no such file" })
read_back (some content) = inr content

abbrev disk_reply : List Call → (c : Call) → Reply c
disk_reply log (read_file path) = read_back (last_write path log)
disk_reply log c = reply log c

abbrev disk : Platform
disk = record host { answer = disk_reply }

keeps_files : KeepsFiles disk
keeps_files log path content h = rw h refl

abbrev secret_job : Job
secret_job = record job { credentials = login }

apart : (env_path (codes "/ws") (codes "pg") =t job_config_path (codes "/ws") (codes "pg")) ≡ false
unfolding ◌=t◌ env_path dockvault.Common.path_join dockvault.Workspace.Paths.job_dir job_config_path
apart = refl

has_env : null (env_of_job secret_job) ≡ false
unfolding env_of_job
has_env = refl

env_is_login : env_of_job secret_job ≡ login
unfolding env_of_job
env_is_login = refl

saves : (save_job (codes "/ws") secret_job (record { platform = disk; log = [] })).0 ≡ ok tt
unfolding save_job dockvault.Effects.◌>>=◌ dockvault.Effects.wrap dockvault.Effects.ask
    dockvault.Effects.attempt env_of_job dockvault.Workspace.Env.save_env
saves = refl

load_job-save_job_example :
    (job' : Job) × ((load_job
        (codes "/ws")
        (codes "pg")
        (save_job (codes "/ws") secret_job (record { platform = disk; log = [] })).1).0
      ≡ ok job')
    × IsSameJob secret_job job'
unfolding ◌=t◌
load_job-save_job_example =
    load_job-save_job disk (codes "/ws") secret_job [] keeps_files apart
      (save_job (codes "/ws") secret_job (record { platform = disk; log = [] })).1 has_env
      (rw env_is_login (login-IsClean, tt)) (refl, tt) refl
      (ap (λ r. (r, (save_job (codes "/ws") secret_job (record { platform = disk; log = [] })).1))
        saves)

abbrev recorded : ManifestEntry
recorded = record {
  job_name = codes "pg";
  service_type = codes "postgres";
  last_backup = [];
  last_backup_status = codes "success";
  last_size_bytes = pos 0;
}

abbrev disk_world : World
disk_world = record { platform = disk; log = [] }

saves_history : (save_manifest (codes "/ws") (recorded ∷ []) disk_world).0 ≡ ok tt
unfolding save_manifest ensure_layout monad dockvault.Workspace.Paths.make_private
saves_history = refl

-- A disk without a history.
abbrev found_or_missing : Option Content → Answer Content
found_or_missing (some c) = inr c
found_or_missing none = inl (record { kind = not_exist; message = codes "no such file" })

abbrev fresh_reply : List Call → (c : Call) → Reply c
fresh_reply log (read_file path) = found_or_missing (last_write path log)
fresh_reply log c = reply log c

abbrev fresh : Platform
fresh = record host { answer = fresh_reply }

abbrev fresh_world : World
fresh_world = record { platform = fresh; log = [] }

abbrev results : List JobResult
results = record { job = job; failure = none } ∷ []
