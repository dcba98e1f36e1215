-- ===== src/Workspace/JobRoundTrip.antt =====
-- What `SaveJob` writes to `job.json` is what `LoadJob` decodes.
use dockvault.Common.{
  lookup, value_of, has_key, Dict, keep, ap, sym, ◌∙◌, lookup-assign, assign-DistinctKeys, =t_iff,
  Bool-cases, DistinctKeys, All, =t_refl, ◌++◌, quoted, List, ◌∷◌, Option, null, inl, inr, sort_by,
  if◌then◌else◌, false, ◌≡◌, refl, Text, codes, ◌=t◌, none, some, [], pos,
}
use dockvault.Effects.{
  Call, Content, bytes, document, Platform, World, write_file, read_file, chmod, mkdir_all,
  Answer-cases, monad, M, wrap, ask, to_result, return, ◌>>◌, ok, Fields, field, no_fields, text,
  number,
}
use dockvault.Json.{fields_of, omit_empty}
use dockvault.Json.Omitted.{look_up, text_field-shown, text_field-text, int_field-number}
use dockvault.Backup.Job.{Job}
use dockvault.Backup.Manifest.{owner_only}
use dockvault.Workspace.Paths.{job_dir, job_config_path, env_path}
use dockvault.Workspace.Env.{key_before, env_text, save_env, load_env, env_read, env_of}
use dockvault.Common.Order.{All-sort_by}
use dockvault.Workspace.EnvOrder.{
  lookup-sort_by, sort_by-DistinctKeys, lookup-without, lookup-absent,
}
use dockvault.Workspace.EnvRoundTrip.{IsClean, parse_env-env_text}
use dockvault.Workspace.JobFile.{
  is_credential, env_webhook_key, config_of, config_json, decode_config, env_of_job, save_job,
  load_job, with_env,
}

abbrev fields : Job → Fields
fields c = field (codes "name") (text c.name) (
    field (codes "backup_type") (text c.backup_type) (
      field (codes "service_type") (text c.service_type) (
        omit_empty (codes "volume_id") c.volume_id (
          omit_empty (codes "volume_identifier") c.volume_identifier (
            omit_empty (codes "host_path") c.host_path (
              omit_empty (codes "container_name") c.container_name (
                field (codes "google_drive_path") (text c.google_drive_path) (
                  field (codes "retention_days") (number c.retention_days) (
                    field (codes "min_files_to_keep") (number c.min_files_to_keep) (
                      omit_empty (codes "local_backup_dir") c.local_backup_dir (
                        field (codes "local_retention_count") (number c.local_retention_count)
                          no_fields)))))))))))

decode_config-config_json : (c : Job) → decode_config (config_json c) ≡ ok (config_of c)
unfolding decode_config config_json config_of fields_of ◌=t◌
decode_config-config_json c =
    rw
      (
        text_field-text (codes "name") c.name (fields c) (simp look_up refl),
        text_field-text (codes "backup_type") c.backup_type (fields c) (simp look_up refl),
        text_field-text (codes "service_type") c.service_type (fields c) (simp look_up refl),
        text_field-shown (codes "volume_id") c.volume_id (fields c) (simp look_up refl),
        text_field-shown (codes "volume_identifier") c.volume_identifier (fields c)
            (simp look_up refl),
        text_field-shown (codes "host_path") c.host_path (fields c) (simp look_up refl),
        text_field-shown (codes "container_name") c.container_name (fields c) (simp look_up refl),
        text_field-text (codes "google_drive_path") c.google_drive_path (fields c)
            (simp look_up refl),
        int_field-number (codes "retention_days") (pos 0) c.retention_days (fields c)
            (simp look_up refl),
        int_field-number (codes "min_files_to_keep") (pos 0) c.min_files_to_keep (fields c)
            (simp look_up refl),
        text_field-shown (codes "local_backup_dir") c.local_backup_dir (fields c)
            (simp look_up refl),
        int_field-number (codes "local_retention_count") (pos 0) c.local_retention_count (fields c)
            (simp look_up refl),
      )
      refl

-- What a file system holds at a path, by the last write to it.
abbrev pub last_write : Text → List Call → Option Content
last_write path [] = none
last_write path (write_file p mode content ∷ log) =
    let rest = last_write path log in if p =t path then some content else rest
last_write path (c ∷ log) = last_write path log

-- A file reads as what was written to it last.
abbrev pub KeepsFiles : Platform → Type 0
KeepsFiles host =
    (log : List Call) (path : Text) (content : Content)
    → last_write path log ≡ some content
    → host.answer log (read_file path) ≡ inr content

module _ (root : Text) (job : Job) where
  abbrev written_env : Text
  written_env = env_text (sort_by key_before (env_of_job job))

  -- The log behind a job that was saved.
  abbrev saved_log : List Call → List Call
  saved_log log =
      write_file (env_path root job.name) owner_only (bytes written_env)
      ∷ write_file (job_config_path root job.name) owner_only
          (document (config_json (config_of job)))
      ∷ chmod (job_dir root job.name)
      ∷ mkdir_all (job_dir root job.name)
      ∷ log

  -- The steps behind the directory.
  abbrev save_files : M (Unit {0})
  save_files =
      wrap (codes "writing job.json for " ++ (quoted job.name ++ codes ": ")) (
        ask
          (write_file (job_config_path root job.name) owner_only
            (document (config_json (config_of job))))
          to_result)
      >> (if null (env_of_job job) then return tt else save_env root job.name (env_of_job job))

  save_files-log :
      (w w' : World)
      → null (env_of_job job) ≡ false
      → save_files w ≡ (ok tt, w')
      → w' ≡ record w {
        log =
            write_file (env_path root job.name) owner_only (bytes written_env)
            ∷ write_file
                (job_config_path root job.name)
                owner_only
                (document (config_json (config_of job)))
            ∷ w.log;
      }
  unfolding save_env monad
  save_files-log w w' some_env h =
      let config : Call =
        write_file (job_config_path root job.name) owner_only
          (document (config_json (config_of job))) in
      elim (Answer-cases (w.platform.answer w.log config)) [
        | inl (e, p) ↦ cc (rw p at h)
        | inr (u, p) ↦
            elim (Answer-cases (
              w.platform.answer (config ∷ w.log)
                (write_file (env_path root job.name) owner_only (bytes written_env)))) [
                  | inl (e, q) ↦ cc (rw (p, some_env, q) at h)
                  | inr (v, q) ↦ cc (rw (p, some_env, q) at h)
                ]
      ]

  save_job-log :
      (w w' : World)
      → null (env_of_job job) ≡ false
      → save_job root job w ≡ (ok tt, w')
      → w' ≡ record w { log = saved_log w.log }
  unfolding save_job monad
  save_job-log w w' some_env h =
      let dir : Text = job_dir root job.name in
      elim (Answer-cases (w.platform.answer w.log (mkdir_all dir))) [
        | inl (e, p) ↦ cc (rw p at h)
        | inr (u, p) ↦ elim (Answer-cases (w.platform.answer (mkdir_all dir ∷ w.log) (chmod dir))) [
          | inl (e, q) ↦
              save_files-log (record w { log = chmod dir ∷ mkdir_all dir ∷ w.log }) w' some_env
                (rw (p, q) at h)
          | inr (v, q) ↦
              save_files-log (record w { log = chmod dir ∷ mkdir_all dir ∷ w.log }) w' some_env
                (rw (p, q) at h)
        ]
      ]

-- The same settings, webhook and credentials, as a map, without a record of a last backup.
pub record IsSameJob (job job' : Job) : Type 0 where
  pub credentials : (key : Text) → lookup key job'.credentials ≡ lookup key job.credentials
  pub rest :
      job'
      ≡ record job { credentials = job'.credentials; last_backup = none; last_backup_status = [] }

env_of_job-DistinctKeys : (job : Job) → DistinctKeys job.credentials → DistinctKeys (env_of_job job)
unfolding env_of_job
env_of_job-DistinctKeys job h = elim (Bool-cases (null job.webhook_url)) [
  | inl e ↦ rw e h
  | inr e ↦ rw e (assign-DistinctKeys env_webhook_key job.webhook_url job.credentials h)
]

shown : Text → Option Text
shown url = if null url then none else some url

-- The map that is written: the webhook under its key, and the credentials under the others.
lookup-env_of_job :
    (job : Job) (key : Text)
    → has_key env_webhook_key job.credentials ≡ false
    → lookup key (env_of_job job)
      ≡ (if env_webhook_key =t key then shown job.webhook_url else lookup key job.credentials)
unfolding env_of_job shown
lookup-env_of_job job key h = elim (Bool-cases (env_webhook_key =t key)) [
  | inl same ↦ elim (Bool-cases (null job.webhook_url)) [
    | inl e ↦
        rw (same, e)
          (lookup-absent key job.credentials (rw ((=t_iff env_webhook_key key).0 same) at h))
    | inr e ↦
        rw (same, e)
          (lookup-assign key env_webhook_key job.webhook_url job.credentials ∙ rw same refl)
  ]
  | inr other ↦ elim (Bool-cases (null job.webhook_url)) [
    | inl e ↦ rw (other, e) refl
    | inr e ↦
        rw (other, e)
          (lookup-assign key env_webhook_key job.webhook_url job.credentials ∙ rw other refl)
  ]
]

value_of-shown : (key url : Text) (m : Dict) → lookup key m ≡ shown url → value_of key m ≡ url
unfolding value_of shown
value_of-shown key [] m h = rw (value_of, h) refl
value_of-shown key (c ∷ url) m h = rw (value_of, h) refl

module _ (job : Job) (distinct : DistinctKeys job.credentials)
    (apart_key : has_key env_webhook_key job.credentials ≡ false) where
  lookup-written :
      (key : Text)
      → lookup key (sort_by key_before (env_of_job job))
        ≡ (if env_webhook_key =t key then shown job.webhook_url else lookup key job.credentials)
  lookup-written key =
      lookup-sort_by key (env_of_job job) (env_of_job-DistinctKeys job distinct)
      ∙ lookup-env_of_job job key apart_key

  lookup-credentials :
      (key : Text)
      → lookup key (keep is_credential (sort_by key_before (env_of_job job)))
        ≡ lookup key job.credentials
  lookup-credentials key =
      lookup-without env_webhook_key key (sort_by key_before (env_of_job job))
      ∙ elim (Bool-cases (env_webhook_key =t key)) [
        | inl same ↦ rw same (
            sym (
              lookup-absent key job.credentials
                (rw ((=t_iff env_webhook_key key).0 same) at apart_key)))
        | inr other ↦ rw other (lookup-written key ∙ rw other refl)
      ]

  with_env-IsSameJob :
      IsSameJob job (with_env (config_of job) (sort_by key_before (env_of_job job)))
  unfolding with_env config_of
  with_env-IsSameJob = record {
    credentials = lookup-credentials;
    rest =
        ap
          (λ (url : Text). record job {
            credentials = keep is_credential (sort_by key_before (env_of_job job));
            webhook_url = url;
            last_backup = none;
            last_backup_status = [];
          })
          (value_of-shown env_webhook_key job.webhook_url _
            (lookup-written env_webhook_key ∙ rw (=t_refl env_webhook_key) refl));
  }

module _ (host : Platform) (root : Text) (job : Job) (log : List Call) (keeps : KeepsFiles host)
    (apart : (env_path root job.name =t job_config_path root job.name) ≡ false) where
  config_kept :
      host.answer (saved_log root job log) (read_file (job_config_path root job.name))
      ≡ inr (document (config_json (config_of job)))
  config_kept =
      keeps (saved_log root job log) (job_config_path root job.name) _
        (rw (apart, =t_refl (job_config_path root job.name)) refl)

  env_kept :
      host.answer
        (read_file (job_config_path root job.name) ∷ saved_log root job log)
        (read_file (env_path root job.name))
      ≡ inr (bytes (written_env root job))
  env_kept = keeps _ (env_path root job.name) _ (rw (=t_refl (env_path root job.name)) refl)

  -- What is loaded, by the operations that read the two files.
  loaded :
      (w' : World)
      → null (env_of_job job) ≡ false
      → All IsClean (sort_by key_before (env_of_job job))
      → DistinctKeys (sort_by key_before (env_of_job job))
      → save_job root job (record { platform = host; log = log }) ≡ (ok tt, w')
      → (load_job root job.name w').0
        ≡ ok (with_env (config_of job) (sort_by key_before (env_of_job job)))
  unfolding load_job load_env env_read env_of monad config_of
  loaded w' some_env clean distinct h =
      rw
        (
          save_job-log root job (record { platform = host; log = log }) w' some_env h,
          config_kept,
          decode_config-config_json (config_of job),
          env_kept,
          parse_env-env_text (sort_by key_before (env_of_job job)) clean distinct,
        )
        refl

  -- On a file system that keeps what is written, and on which the two files of the job are apart: a job
  -- with credentials or a webhook, whose credentials have distinct keys other than that of the webhook,
  -- and whose entries for `.env` are clean, that was saved without an error is loaded again with the
  -- same credentials, as a map, the same webhook and the same settings; only the record of its last
  -- backup is not kept.
  pub load_job-save_job :
      (w' : World)
      → null (env_of_job job) ≡ false
      → All IsClean (env_of_job job)
      → DistinctKeys job.credentials
      → has_key (codes "DOCKVAULT_WEBHOOK_URL") job.credentials ≡ false
      → save_job root job (record { platform = host; log = log }) ≡ (ok tt, w')
      → (job' : Job) × ((load_job root job.name w').0 ≡ ok job') × IsSameJob job job'
  load_job-save_job w' some_env clean distinct apart_key h = (
    with_env (config_of job) (sort_by key_before (env_of_job job)),
    loaded w' some_env (All-sort_by key_before IsClean (env_of_job job) clean)
        (sort_by-DistinctKeys (env_of_job job) (env_of_job-DistinctKeys job distinct)) h,
    with_env-IsSameJob job distinct apart_key,
  )
